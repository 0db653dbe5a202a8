-- ===== src/ThrMgr/History.antt =====
-- A manager behind any calls of `thr_register` and `thr_unregister`, against the bag of its threads.
use mathlib.Core.Quot
use rblpolicyd.Prelude.{
  ℕ, ◌+◌, ◌≤◌, ◌<◌, ◌≡◌, ◌≢◌, refl, sym, ap, ◌∙◌, Bool, false, Option, none, some, List, [], ◌∷◌,
  length, Bool-cases, inl, inr, ltb, ◌==◌, arith,
}
use rblpolicyd.ThrMgr.{
  Ptr, null, Heap, Manager, manager, Run, returned, fault, out_of_fuel, u32_mod, thr_register,
  thr_unregister,
}
use rblpolicyd.ThrMgr.Links.{Nodes, has_tid, nil, IsManager, thr_register-IsManager}
use rblpolicyd.ThrMgr.Behind.{erase}
use rblpolicyd.ThrMgr.Unlink.{thr_unregister-IsManager}
use rblpolicyd.ThrMgr.Members.{tids, tids-erase, length-tids, length-erase_le}
use rblpolicyd.ThrMgr.Bag.{
  count, times, size, ListCall, register, unregister, on, apply, apply-mk, registered, Reordered,
  registered-Reordered,
}

-- What the calls make of a new manager, the latest in front, with memory for each node.
pub data Managed : List ListCall → Manager → Heap → Type 0 where
  opened : {h : Heap} → Managed [] (manager 0 null) h
  registers :
      {cs : List ListCall} {mgr mgr' : Manager} {h g : Heap} {found : Bool} (tid : ℕ) (node : Ptr)
      → Managed cs mgr h
      → node ≢ null
      → h node ≡ none
      → thr_register mgr tid (some node) h ≡ returned found mgr' g
      → Managed (register tid ∷ cs) mgr' g
  unregisters :
      {cs : List ListCall} {mgr mgr' : Manager} {h g : Heap} {found : Bool} (tid : ℕ)
      → Managed cs mgr h
      → thr_unregister mgr tid h ≡ returned found mgr' g
      → Managed (unregister tid ∷ cs) mgr' g

-- what a call returns, where it does
unfoldable pub answer : Run → Option Bool
answer (returned found mgr h) = some found
answer fault = none
answer out_of_fuel = none

-- The nodes of the manager have the threads of the bag.
abbrev Holds : List ListCall → Manager → Heap → Type 0
Holds cs mgr h =
    (xs : Nodes) × IsManager h mgr xs
    × (length xs ≤ length cs)
    × (Quot.mk (tids xs) ≡ registered cs)

Holds-returned :
    (cs : List ListCall) {mgr mgr' : Manager} {h g : Heap} {b b' : Bool}
    → returned b mgr h ≡ returned b' mgr' g
    → Holds cs mgr h
    → Holds cs mgr' g
Holds-returned cs {mgr} {mgr'} {h} {g} e holds =
    let m : mgr ≡ mgr' = cc in let k : h ≡ g = cc in rw (sym m, sym k) holds

count-tids : (t : ℕ) (xs : Nodes) → ltb 0 (count t (tids xs)) ≡ has_tid t xs
count-tids t [] = ground arith
count-tids t ((p, u) ∷ xs) = ground (arith, count-tids t xs)

erase-missing : (t : ℕ) (xs : Nodes) → has_tid t xs ≡ false → erase t xs ≡ xs
erase-missing t [] away = refl
erase-missing t ((p, u) ∷ xs) away =
    let other : (u == t) ≡ false = ground (arith, away) in
    rw (other, erase-missing t xs (ground (arith, away))) refl

-- One call more, on the list and on the bag.
registered-mk :
    (c : ListCall) (cs : List ListCall) (ts : List ℕ)
    → Quot.mk ts ≡ registered cs
    → Quot.mk (on c ts) ≡ registered (c ∷ cs)
unfolding registered
registered-mk c cs ts same = sym (apply-mk c ts) ∙ ap (apply c) same

registers-Holds :
    (cs : List ListCall) {mgr mgr' : Manager} {h g : Heap} {found : Bool} (tid : ℕ) (node : Ptr)
    → length cs + 1 < u32_mod
    → node ≢ null
    → h node ≡ none
    → thr_register mgr tid (some node) h ≡ returned found mgr' g
    → Holds cs mgr h
    → Holds (register tid ∷ cs) mgr' g
unfolding on
registers-Holds cs tid node small ne unused e (xs, is, le, same) =
    let (made, _) = thr_register-IsManager tid node is ne unused (omega (arith, small, le)) in
    let (_, _, e', is', _) = made in
    Holds-returned (register tid ∷ cs) (sym e' ∙ e)
      ((node, tid) ∷ xs, is', omega (arith, le), registered-mk (register tid) cs (tids xs) same)

unregisters-Holds :
    (cs : List ListCall) {mgr mgr' : Manager} {h g : Heap} {found : Bool} (tid : ℕ)
    → thr_unregister mgr tid h ≡ returned found mgr' g
    → Holds cs mgr h
    → Holds (unregister tid ∷ cs) mgr' g
unfolding on
unregisters-Holds cs tid e (xs, is, le, same) =
    let (there, missing) = thr_unregister-IsManager tid is in
    let same' = registered-mk (unregister tid) cs (tids xs) same in
    let shorter = length-erase_le tid xs in
    elim (Bool-cases (has_tid tid xs)) [
      | inl found ↦
          let (_, _, e', is', _, _) = there found in
          Holds-returned (unregister tid ∷ cs) (sym e' ∙ e) (
            erase tid xs,
            is',
            omega (arith, le, shorter),
            ap (λ ts. Quot.mk ts) (tids-erase tid xs) ∙ same',
          )
      | inr away ↦ Holds-returned (unregister tid ∷ cs) (sym (missing away) ∙ e) (
        xs,
        is,
        omega (arith, le),
        ap (λ ys. Quot.mk (tids ys)) (sym (erase-missing tid xs away))
            ∙ ap (λ ts. Quot.mk ts) (tids-erase tid xs)
            ∙ same',
      )
    ]

Managed-Holds :
    {cs : List ListCall} {mgr : Manager} {h : Heap}
    → Managed cs mgr h
    → length cs < u32_mod
    → Holds cs mgr h
unfolding registered
Managed-Holds opened small =
    ([], record { chain = nil refl; count = refl; small = omega arith }, omega arith, refl)
Managed-Holds (registers {cs} tid node m ne unused e) small =
    registers-Holds cs tid node (omega (arith, small)) ne unused e
      (Managed-Holds m (omega (arith, small)))
Managed-Holds (unregisters {cs} tid m e) small =
    unregisters-Holds cs tid e (Managed-Holds m (omega (arith, small)))

answer-unregister :
    {h : Heap} {mgr : Manager} {xs : Nodes} (tid : ℕ)
    → IsManager h mgr xs
    → answer (thr_unregister mgr tid h) ≡ some (has_tid tid xs)
unfolding answer
answer-unregister {xs} tid is =
    let (there, missing) = thr_unregister-IsManager tid is in
    elim (Bool-cases (has_tid tid xs)) [
      | inl found ↦ let (_, _, e, _, _, _) = there found in rw (e, found) refl
      | inr away ↦ rw (missing away, away) refl
    ]

-- A manager is the bag of its threads: behind any calls of `thr_register` and `thr_unregister`, in any
-- order and for any threads, its count is the size of the bag that the same calls make, and a next
-- `thr_unregister` succeeds exactly when the thread is in that bag. There are fewer than 2 ^ 32 calls,
-- with memory for each node.
pub Managed-registered :
    {cs : List ListCall} {mgr : Manager} {h : Heap}
    → Managed cs mgr h
    → length cs < u32_mod
    → (mgr.nthreads ≡ size (registered cs))
      × ((tid : ℕ) → answer (thr_unregister mgr tid h) ≡ some (ltb 0 (times tid (registered cs))))
unfolding size times
Managed-registered {cs} m small =
    let (xs, is, le, same) = Managed-Holds m small in
    (
      is.count ∙ sym (length-tids xs) ∙ ap size same,
      λ tid.
          answer-unregister tid is
          ∙ ap some (sym (count-tids tid xs))
          ∙ ap (λ b. some (ltb 0 (times tid b))) same,
    )

-- Two managers whose calls differ only in the order of calls for different threads cannot be told
-- apart: they count the same threads, and a next `thr_unregister` has the same answer.
Managed-Reordered :
    {cs ds : List ListCall} {mgr mgr' : Manager} {h g : Heap}
    → Managed cs mgr h
    → Managed ds mgr' g
    → Reordered cs ds
    → length cs < u32_mod
    → length ds < u32_mod
    → (mgr.nthreads ≡ mgr'.nthreads)
      × ((tid : ℕ) → answer (thr_unregister mgr tid h) ≡ answer (thr_unregister mgr' tid g))
Managed-Reordered {cs} {ds} m m' r small small' =
    let (count, answers) = Managed-registered m small in
    let (count', answers') = Managed-registered m' small' in
    let same = registered-Reordered r in
    (
      count ∙ ap size same ∙ sym count',
      λ tid. answers tid ∙ ap (λ b. some (ltb 0 (times tid b))) same ∙ sym (answers' tid),
    )
