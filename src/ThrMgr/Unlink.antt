-- ===== src/ThrMgr/Unlink.antt =====
-- `thr_unregister`.
use rblpolicyd.ThrMgr.Behind.{
  erase, Freed, has-erase, length-erase, Chain-relink, loop-later, loop-here,
  unregister_loop-Behind,
}
use rblpolicyd.Prelude.{
  ℕ, zero, suc, ◌+◌, ◌-◌, ◌%◌, ◌<◌, ◌≡◌, refl, ◌∙◌, true, false, none, some, length, Bool-cases,
  inl, inr, ◌==◌, arith,
}
use rblpolicyd.ThrMgr.{
  Ptr, null, Thrd, thrd, Heap, write, Manager, manager, Run, returned, u32_mod, unlinked,
  relink_next, unlink, unregister_loop, thr_unregister,
}
use rblpolicyd.ThrMgr.Links.{Nodes, has, has_tid, Chain, nil, cons, IsManager, frame-write}

-- the body of the loop, at the first node
unlink-front :
    (h g : Heap) (mgr : Manager) (p : Ptr) (thr : Thrd)
    → thr.last ≡ null
    → relink_next thr (some h) ≡ some g
    → unlink mgr p thr h
      ≡ returned true (manager ((mgr.nthreads + (u32_mod - 1)) % u32_mod) thr.next) (write g p none)
unfolding unlink unlinked
unlink-front h g mgr p thr e f =
    let front : (thr.last == null) ≡ true = ground arith in rw (front, f) refl

unregister_loop-missing :
    {h : Heap} {l p : Ptr} {xs : Nodes} (fuel : ℕ) (mgr : Manager) (tid : ℕ)
    → Chain h l p xs
    → has_tid tid xs ≡ false
    → length xs < fuel
    → unregister_loop fuel mgr tid p h ≡ returned false mgr h
unfolding unregister_loop
unregister_loop-missing zero mgr tid c missing enough = absurd (omega (arith, enough))
unregister_loop-missing {p} (suc fuel) mgr tid (nil e) missing enough =
    let end : (p == null) ≡ true = ground arith in rw end refl
unregister_loop-missing {h} (suc fuel) mgr tid (cons {p = p} ne at out c) missing enough =
    loop-later h fuel mgr tid ne at (ground (arith, missing))
    ∙ unregister_loop-missing fuel mgr tid c (ground (arith, missing)) (omega (arith, enough))

-- What a call that finds the thread leaves of the list `xs`.
abbrev Unregistered : Heap → ℕ → Nodes → Run → Type 0
Unregistered h tid xs run =
    (mgr' : Manager) × (g : Heap) × (run ≡ returned true mgr' g)
    × IsManager g mgr' (erase tid xs)
    × ((a : Ptr) → has a xs ≡ false → g a ≡ h a)
    × Freed xs (erase tid xs) g

kept :
    {h : Heap} {n p : ℕ} {xs : Nodes}
    → Chain h null p xs
    → n ≡ suc (length xs)
    → suc (length xs) < u32_mod
    → IsManager h (manager ((n + (u32_mod - 1)) % u32_mod) p) xs
kept c count small = record {
  chain = c;
  count = omega (arith, count, small);
  small = omega (arith, small);
}

thr_unregister-found :
    {h : Heap} {n p : ℕ} {xs : Nodes} (tid : ℕ)
    → Chain h null p xs
    → n ≡ length xs
    → length xs < u32_mod
    → has_tid tid xs ≡ true
    → Unregistered h tid xs (unregister_loop (suc n) (manager n p) tid p h)
thr_unregister-found tid (nil e) count small found = absurd (ground (found, arith))
thr_unregister-found {h} {n} tid (cons {p = p} {q} {t} {xs} ne at out c) count small found =
    elim (Bool-cases (t == tid)) [
      | inl here ↦
          let (g, e, c', same) = Chain-relink t null c in
          (
            manager ((n + (u32_mod - 1)) % u32_mod) q,
            write g p none,
            loop-here h n (manager n p) tid ne at here
                ∙ unlink-front h g (manager n p) p (thrd t q null) refl e,
            rw here
                (kept (frame-write p none c' out) (ground (count, arith)) (ground (small, arith))),
            λ a o. unfold write in ground (arith, same a (ground (arith, o))),
            unfold write in ground arith,
          )
      | inr later ↦
          let (g, q', e, at', c', same, freed) =
            unregister_loop-Behind n (manager n p) tid t null ne at c out (ground (arith, found))
              (omega (arith, count)) in
          (
            manager ((n + (u32_mod - 1)) % u32_mod) p,
            g,
            loop-later h n (manager n p) tid ne at later ∙ e,
            rw later (
                kept (cons ne at' (has-erase p tid xs out) c')
                  (omega (arith, count, length-erase tid xs (ground (arith, found))))
                  (omega (arith, small, length-erase tid xs (ground (arith, found))))),
            λ a o. same a (ground (arith, o)) (ground (arith, o)),
            ground (arith, freed),
          )
    ]

-- Where the list holds the thread, its first node is unlinked and freed: the manager that is left is
-- well formed for the list without it, and the rest of the heap is as it was. Where the list does not
-- hold the thread, the call fails and changes nothing.
pub thr_unregister-IsManager :
    {h : Heap} {mgr : Manager} {xs : Nodes} (tid : ℕ)
    → IsManager h mgr xs
    → (has_tid tid xs ≡ true → Unregistered h tid xs (thr_unregister mgr tid h))
      × (has_tid tid xs ≡ false → thr_unregister mgr tid h ≡ returned false mgr h)
unfolding thr_unregister
thr_unregister-IsManager {mgr} tid is = (
  thr_unregister-found tid is.chain is.count is.small,
  λ missing.
      unregister_loop-missing (suc mgr.nthreads) mgr tid is.chain missing (omega (arith, is.count)),
)
