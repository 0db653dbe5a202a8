-- ===== src/ThrMgr/Links.antt =====
-- Doubly linked lists of threads, and `thr_register`.
use rblpolicyd.Prelude.{
  ℕ, ◌+◌, ◌%◌, ◌<◌, ◌≡◌, ◌≢◌, refl, ◌∙◌, Bool, true, false, ◌||◌, Option, none, some, List, [], ◌∷◌,
  length, Bool-cases, inl, inr, ◌==◌, if◌then◌else◌, arith,
}
use rblpolicyd.ThrMgr.{
  Ptr, null, Thrd, thrd, Heap, write, Manager, manager, returned, u32_mod, set_last, pushed,
  thr_register,
}

-- the nodes of a list: the address and the thread of each, in order
abbrev pub Nodes : Type 0
Nodes = List (Ptr × ℕ)

abbrev pub has : Ptr → Nodes → Bool
has a [] = false
has a ((p, _) ∷ xs) = (a == p) || has a xs

abbrev pub has_tid : ℕ → Nodes → Bool
has_tid t [] = false
has_tid t ((_, u) ∷ xs) = (u == t) || has_tid t xs

-- From `p` the `next` pointers lead through the nodes `xs` to NULL, and each node's `last` leads to
-- the node in front of it; `l` is in front of the first.
pub data Chain (h : Heap) : Ptr → Ptr → Nodes → Type 0 where
  nil : {l p : Ptr} → p ≡ null → Chain h l p []
  cons :
      {l p q : Ptr} {t : ℕ} {xs : Nodes}
      → p ≢ null
      → h p ≡ some (thrd t q l)
      → has p xs ≡ false
      → Chain h p q xs
      → Chain h l p ((p, t) ∷ xs)

-- The manager's count is the length of its list, and a number that the type holds.
pub record IsManager (h : Heap) (mgr : Manager) (xs : Nodes) : Type 0 where
  pub chain : Chain h null mgr.tlist xs
  pub count : mgr.nthreads ≡ length xs
  pub small : length xs < u32_mod

module _ {h : Heap} where
  pub frame :
      {g : Heap} {l p : Ptr} {xs : Nodes}
      → Chain h l p xs
      → ((a : Ptr) → has a xs ≡ true → g a ≡ h a)
      → Chain g l p xs
  frame (nil e) same = nil e
  frame (cons {p} ne at out c) same =
      cons ne (ground (arith, same p)) out (frame c λ a i. same a (ground arith))

  pub frame-write :
      {l p : Ptr} {xs : Nodes} (a : Ptr) (c : Option Thrd)
      → Chain h l p xs
      → has a xs ≡ false
      → Chain (write h a c) l p xs
  unfolding write
  frame-write a c ch out = frame ch (ground arith)

-- The first node gets another node in front of it.
pub Chain-front :
    {h : Heap} {l p : Ptr} {xs : Nodes} (l' : Ptr)
    → Chain h l p xs
    → p ≢ null
    → (g : Heap) × (set_last h p l' ≡ some g)
      × Chain g l' p xs
      × ((a : Ptr) → has a xs ≡ false → g a ≡ h a)
unfolding set_last write
Chain-front l' (nil e) ne = absurd (ne e)
Chain-front {h} l' (cons {p = p} {q} {t} ne at out c) _ = (
  write h p (some (thrd t q l')),
  rw (at, set_last),
  cons ne (ground arith) out (frame-write p _ c out),
  ground arith,
)

-- An address that holds nothing is in no list.
not-has :
    {h : Heap} {l p : Ptr} {xs : Nodes} (a : Ptr) → Chain h l p xs → h a ≡ none → has a xs ≡ false
not-has a (nil e) unused = refl
not-has a (cons ne at out c) unused = ground (arith, not-has a c unused)

pub Chain-null : {h : Heap} {l p : Ptr} {xs : Nodes} → Chain h l p xs → p ≡ null → xs ≡ []
Chain-null (nil e) z = refl
Chain-null (cons ne at out c) z = absurd (ne z)

-- nothing changes but the nodes of `xs` and the address `p`
abbrev pub SameOutside : Ptr → Nodes → Heap → Heap → Type 0
SameOutside p xs h g = (a : Ptr) → a ≢ p → has a xs ≡ false → g a ≡ h a

-- A registration with memory for the node puts the thread at the front of the list and leaves the
-- rest of the heap alone; the links hold in both directions and the count is right. One without
-- memory fails, leaves the list as it is, and yet counts the thread.
pub thr_register-IsManager :
    {h : Heap} {mgr : Manager} {xs : Nodes} (tid : ℕ) (node : Ptr)
    → IsManager h mgr xs
    → node ≢ null
    → h node ≡ none
    → length xs + 1 < u32_mod
    → ((mgr' : Manager) × (g : Heap) × (thr_register mgr tid (some node) h ≡ returned true mgr' g)
        × IsManager g mgr' ((node, tid) ∷ xs)
        × SameOutside node xs h g)
      × (thr_register mgr tid none h ≡ returned false (manager (length xs + 1) mgr.tlist) h)
unfolding thr_register
thr_register-IsManager {h} {mgr} {xs} tid node is ne unused small = (registered, rw wraps)
  where
    wraps : (mgr.nthreads + 1) % u32_mod ≡ length xs + 1
    wraps = omega (arith, is.count, small)

    out : has node xs ≡ false
    out = not-has node is.chain unused

    linked : Heap
    linked = write h node (some (thrd tid mgr.tlist null))

    kept : Chain linked null mgr.tlist xs
    kept = frame-write node _ is.chain out

    new_at :
        (g : Heap)
        → ((a : Ptr) → has a xs ≡ false → g a ≡ linked a)
        → g node ≡ some (thrd tid mgr.tlist null)
    new_at g same = same node out ∙ (unfold write in ground arith)

    done :
        (g : Heap)
        → Chain g node mgr.tlist xs
        → ((a : Ptr) → has a xs ≡ false → g a ≡ linked a)
        → IsManager g (manager (length xs + 1) node) ((node, tid) ∷ xs) × SameOutside node xs h g
    done g c same = (
      record { chain = cons ne (new_at g same) out c; count = omega arith; small = omega arith },
      λ a n o. same a o ∙ (unfold write in ground arith),
    )

    registered :
        (mgr' : Manager) × (g : Heap) × (pushed mgr
            ((mgr.nthreads + 1) % u32_mod)
            node
            (if mgr.tlist == null then some linked else set_last linked mgr.tlist node)
          ≡ returned true mgr' g)
        × IsManager g mgr' ((node, tid) ∷ xs)
        × SameOutside node xs h g
    registered = elim (Bool-cases (mgr.tlist == null)) [
      | inl empty ↦
          let none_there = Chain-null is.chain (ground arith) in
          let (m, s) = done linked (rw none_there (nil (ground arith))) (λ a o. refl) in
          (manager (length xs + 1) node, linked, rw (empty, wraps) (unfold pushed in refl), m, s)
      | inr full ↦
          let (g, e, c, same) = Chain-front node kept (ground arith) in
          let (m, s) = done g c same in
          (manager (length xs + 1) node, g, rw (full, wraps, e) (unfold pushed in refl), m, s)
    ]
