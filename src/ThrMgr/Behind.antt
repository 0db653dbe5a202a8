-- ===== src/ThrMgr/Behind.antt =====
-- thrmgr.c: the loop of `thr_unregister` behind the first node.
use rblpolicyd.Prelude.{
  ℕ, zero, suc, ◌+◌, ◌-◌, ◌%◌, ◌<◌, ◌≡◌, ◌≢◌, refl, ◌∙◌, true, false, none, some, [], ◌∷◌, length,
  Bool-cases, inl, inr, ◌==◌, if◌then◌else◌, arith,
}
use rblpolicyd.ThrMgr.{
  Ptr, null, Thrd, thrd, Heap, write, Manager, manager, Run, returned, u32_mod, set_next, unlinked,
  relink_next, unlink, unregister_loop,
}
use rblpolicyd.ThrMgr.Links.{
  Nodes, has, has_tid, Chain, nil, cons, frame-write, Chain-front, Chain-null, SameOutside,
}

-- the list without its first node for the thread
abbrev pub erase : ℕ → Nodes → Nodes
erase t [] = []
erase t ((p, u) ∷ xs) = if u == t then xs else (p, u) ∷ erase t xs

-- the nodes of `xs` that are not in `ys` are free
abbrev pub Freed : Nodes → Nodes → Heap → Type 0
Freed xs ys g = (a : Ptr) → has a xs ≡ true → has a ys ≡ false → g a ≡ none

pub has-erase : (a : Ptr) (t : ℕ) (xs : Nodes) → has a xs ≡ false → has a (erase t xs) ≡ false
has-erase a t [] out = refl
has-erase a t ((p, u) ∷ xs) out = ground (arith, has-erase a t xs)

pub length-erase : (t : ℕ) (xs : Nodes) → has_tid t xs ≡ true → length (erase t xs) + 1 ≡ length xs
length-erase t [] found = absurd (ground (found, arith))
length-erase t ((p, u) ∷ xs) found = ground (arith, length-erase t xs)

pub Chain-relink :
    {h : Heap} {p q : Ptr} {xs : Nodes} (t : ℕ) (l : Ptr)
    → Chain h p q xs
    → (g : Heap) × (relink_next (thrd t q l) (some h) ≡ some g)
      × Chain g l q xs
      × ((a : Ptr) → has a xs ≡ false → g a ≡ h a)
unfolding relink_next
Chain-relink {h} {q} t l c = elim (Bool-cases (q == null)) [
  | inl end ↦
      let none_there = Chain-null c (ground arith) in
      (h, rw end, rw none_there (nil (ground arith)), λ a o. refl)
  | inr more ↦ let (g, e, c', same) = Chain-front l c (ground arith) in (g, rw (more, e), c', same)
]

-- What the loop leaves behind a node `prev` that it has passed.
abbrev Behind : Heap → Manager → ℕ → Ptr → Nodes → ℕ → Ptr → Run → Type 0
Behind h mgr tid prev xs t₀ l₀ run =
    (g : Heap) × (q : Ptr) × (run
      ≡ returned true (manager ((mgr.nthreads + (u32_mod - 1)) % u32_mod) mgr.tlist) g)
    × (g prev ≡ some (thrd t₀ q l₀))
    × Chain g prev q (erase tid xs)
    × SameOutside prev xs h g
    × Freed xs (erase tid xs) g

set_next-at :
    (h : Heap) (p q : Ptr) (thr : Thrd)
    → h p ≡ some thr
    → set_next h p q ≡ some (write h p (some (record thr { next = q })))
unfolding set_next
set_next-at h p q thr at = rw (set_next, at) refl

-- the body of the loop, at a node behind another one
unlink-real :
    (h h' : Heap) (g : Heap) (mgr : Manager) (p : Ptr) (thr : Thrd)
    → thr.last ≢ null
    → set_next h thr.last thr.next ≡ some h'
    → relink_next thr (some h') ≡ some g
    → unlink mgr p thr h
      ≡ returned true
          (manager ((mgr.nthreads + (u32_mod - 1)) % u32_mod) mgr.tlist)
          (write g p none)
unfolding unlink unlinked
unlink-real h h' g mgr p thr ne e f =
    let real : (thr.last == null) ≡ false = ground arith in rw (real, e, f) refl

unlink-behind :
    {h : Heap} {prev p q : Ptr} {xs : Nodes} (mgr : Manager) (t t₀ : ℕ) (l₀ : Ptr)
    → prev ≢ null
    → p ≢ prev
    → h prev ≡ some (thrd t₀ p l₀)
    → Chain h p q xs
    → has p xs ≡ false
    → has prev xs ≡ false
    → (g : Heap) × (unlink mgr p (thrd t q prev) h
        ≡ returned true (manager ((mgr.nthreads + (u32_mod - 1)) % u32_mod) mgr.tlist) g)
      × (g prev ≡ some (thrd t₀ q l₀))
      × Chain g prev q xs
      × ((a : Ptr) → a ≢ prev → a ≢ p → has a xs ≡ false → g a ≡ h a)
      × (g p ≡ none)
unfolding write
unlink-behind {h} {prev} {p} {q} {xs} mgr t t₀ l₀ pne apart pat c out pout =
    let h₁ = write h prev (some (thrd t₀ q l₀)) in
    let (g, e, c', same) = Chain-relink t prev (frame-write prev (some (thrd t₀ q l₀)) c pout) in
    (
      write g p none,
      unlink-real h h₁ g mgr p (thrd t q prev) pne (set_next-at h prev q _ pat) e,
      ground (arith, same prev),
      frame-write p none c' out,
      λ a n m o. ground (arith, same a o),
      ground arith,
    )

-- one turn of the loop, at a node of another thread and at one of this thread
pub loop-later :
    (h : Heap) {p q l : Ptr} {t : ℕ} (fuel : ℕ) (mgr : Manager) (tid : ℕ)
    → p ≢ null
    → h p ≡ some (thrd t q l)
    → (t == tid) ≡ false
    → unregister_loop (suc fuel) mgr tid p h ≡ unregister_loop fuel mgr tid q h
unfolding unregister_loop
loop-later h {p} fuel mgr tid ne at e =
    let real : (p == null) ≡ false = ground arith in rw (real, at, e) refl

pub loop-here :
    (h : Heap) {p q l : Ptr} {t : ℕ} (fuel : ℕ) (mgr : Manager) (tid : ℕ)
    → p ≢ null
    → h p ≡ some (thrd t q l)
    → (t == tid) ≡ true
    → unregister_loop (suc fuel) mgr tid p h ≡ unlink mgr p (thrd t q l) h
unfolding unregister_loop
loop-here h {p} fuel mgr tid ne at e =
    let real : (p == null) ≡ false = ground arith in rw (real, at, e) refl

pub unregister_loop-Behind :
    {h : Heap} {prev p : Ptr} {xs : Nodes} (fuel : ℕ) (mgr : Manager) (tid t₀ : ℕ) (l₀ : Ptr)
    → prev ≢ null
    → h prev ≡ some (thrd t₀ p l₀)
    → Chain h prev p xs
    → has prev xs ≡ false
    → has_tid tid xs ≡ true
    → length xs < fuel
    → Behind h mgr tid prev xs t₀ l₀ (unregister_loop fuel mgr tid p h)
unregister_loop-Behind zero mgr tid t₀ l₀ pne pat c pout found enough =
    absurd (omega (arith, enough))
unregister_loop-Behind (suc fuel) mgr tid t₀ l₀ pne pat (nil e) pout found enough =
    absurd (ground (found, arith))
unregister_loop-Behind {h} {prev} (suc fuel) mgr tid t₀ l₀ pne pat
      (cons {p = p} {q} {t} {xs} ne at out c) pout found enough =
    elim (Bool-cases (t == tid)) [
      | inl here ↦
          let (g, e, at', c', same, freed) =
            unlink-behind mgr t t₀ l₀ pne (ground (arith, pout)) pat c out (ground (arith, pout)) in
          (
            g,
            q,
            loop-here _ fuel mgr tid ne at here ∙ e,
            at',
            rw here c',
            λ a n o. same a n (ground (arith, o)) (ground (arith, o)),
            ground (arith, freed),
          )
      | inr later ↦
          let (g, q', e, at', c', same, freed) =
            unregister_loop-Behind fuel mgr tid t prev ne at c out (ground arith)
              (omega (arith, enough)) in
          (
            g,
            p,
            loop-later _ fuel mgr tid ne at later ∙ e,
            same prev (ground (arith, pout)) (ground (arith, pout)) ∙ pat,
            rw later (cons ne at' (has-erase p tid xs out) c'),
            λ a n o. same a (ground (arith, o)) (ground (arith, o)),
            ground (arith, freed),
          )
    ]
