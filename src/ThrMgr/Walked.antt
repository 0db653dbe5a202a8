-- ===== src/ThrMgr/Walked.antt =====
-- The walk counts the list as long as no other thread takes a node out of it.
use rblpolicyd.Prelude.{
  ℕ, zero, suc, ◌+◌, ◌<◌, ◌≡◌, ◌≢◌, refl, ap, sym, ◌∙◌, Bool, true, false, ◌&&◌, not, Option, none,
  some, length, Bool-cases, Option-cases, inl, inr, ◌==◌, if◌then◌else◌, arith,
}
use mathlib.Core.Path.{subst}
use rblpolicyd.ThrMgr.{
  Ptr, null, Thrd, thrd, Heap, write, Manager, Run, returned, fault, out_of_fuel, set_last, pushed,
  thr_register,
}
use rblpolicyd.ThrMgr.Links.{Nodes, Chain, nil, cons, IsManager, has, has_tid}
use rblpolicyd.ThrMgr.Behind.{erase}
use rblpolicyd.ThrMgr.Unlink.{thr_unregister-IsManager}
use rblpolicyd.ThrMgr.Walk.{
  counted, walk_loop, Walker, WalkStep, count_node, other_registers, other_unregisters, is_removal,
  Walks, begin, next, ReadsFreed,
}

some-injective {ℓ} : {A : Type ℓ} {x y : A} → some x ≡ some y → x ≡ y
some-injective e = cc

-- From `p` the `next` pointers lead through `k` nodes to NULL.
pub data Ahead (h : Heap) : Ptr → ℕ → Type 0 where
  at_end : {p : Ptr} → p ≡ null → Ahead h p 0
  at_node :
      {p : Ptr} {n : Thrd} {k : ℕ} → p ≢ null → h p ≡ some n → Ahead h n.next k → Ahead h p (suc k)

Chain-Ahead : {h : Heap} {l p : Ptr} {xs : Nodes} → Chain h l p xs → Ahead h p (length xs)
Chain-Ahead (nil e) = at_end e
Chain-Ahead (cons ne at out c) = at_node ne at (Chain-Ahead c)

walk_loop-Ahead :
    {h : Heap} {p : Ptr} {k : ℕ} (fuel nthr : ℕ)
    → Ahead h p k
    → k < fuel
    → walk_loop fuel h p nthr ≡ counted (nthr + k)
unfolding walk_loop
walk_loop-Ahead zero nthr a l = absurd (omega (arith, l))
walk_loop-Ahead (suc fuel) nthr (at_end e) l =
    let end : nthr ≡ nthr + 0 = omega arith in rw e (ap counted end)
walk_loop-Ahead {p = p} (suc fuel) nthr (at_node {k = k} ne at a) l =
    let on : (p == null) ≡ false = ground (arith, ne) in
    let sum : nthr + 1 + k ≡ nthr + suc k = omega arith in
    rw (walk_loop, on, at) (walk_loop-Ahead fuel (nthr + 1) a (omega (arith, l)) ∙ ap counted sum)

-- The heap `g` has the nodes of `h` with the same `next` pointers.
abbrev Follows : Heap → Heap → Type 0
Follows h g =
    (p : Ptr) (n : Thrd) → h p ≡ some n → (n' : Thrd) × (g p ≡ some n') × (n'.next ≡ n.next)

Ahead-Follows : {h g : Heap} {p : Ptr} {k : ℕ} → Follows h g → Ahead h p k → Ahead g p k
Ahead-Follows same (at_end e) = at_end e
Ahead-Follows {g = g} same (at_node {p} {n} {k} ne at a) =
    let (n', at', e) = same p n at in
    at_node ne at' (subst (λ q. Ahead g q k) (sym e) (Ahead-Follows same a))

Follows-trans : (h g f : Heap) → Follows h g → Follows g f → Follows h f
Follows-trans h g f one two p n at =
    let (n', at', e) = one p n at in let (n'', at'', e') = two p n' at' in (n'', at'', e' ∙ e)

-- a node that keeps its `next`, and one where there was none
write-Follows :
    (h : Heap) (q : Ptr) (m : Thrd) (l : Ptr)
    → h q ≡ some m
    → Follows h (write h q (some (record m { last = l })))
unfolding write
write-Follows h q m l there p n at = elim (Bool-cases (p == q)) [
  | inl here ↦
      let same : p ≡ q = ground (arith, here) in
      let is : m ≡ n = some-injective (sym there ∙ sym (ap h same) ∙ at) in
      (record m { last = l }, rw here refl, ap (λ x. x.next) is)
  | inr other ↦ (n, rw other at, refl)
]

new-Follows : (h : Heap) (q : Ptr) (m : Thrd) → h q ≡ none → Follows h (write h q (some m))
unfolding write
new-Follows h q m unused p n at = elim (Bool-cases (p == q)) [
  | inl here ↦ let same : p ≡ q = ground (arith, here) in absurd (cc (at, ap h same, unused))
  | inr other ↦ (n, rw other at, refl)
]

set_last-Follows : (h g : Heap) (q l : Ptr) → set_last h q l ≡ some g → Follows h g
unfolding set_last
set_last-Follows h g q l e = elim (Option-cases (h q)) [
  | inl never ↦ absurd (cc (rw (set_last, never) at e))
  | inr (m, there) ↦
      let is : write h q (some (record m { last = l })) ≡ g =
        some-injective (rw (set_last, there) at e) in
      subst (Follows h) is (write-Follows h q m l there)
]

abbrev heap_of : Run → Heap
heap_of (returned b mgr g) = g
heap_of fault = λ p. none
heap_of out_of_fuel = λ p. none

pushed-Follows :
    (h g : Heap) (mgr : Manager) {mgr' : Manager} (n p : ℕ) (x : Option Heap)
    → ((f : Heap) → x ≡ some f → Follows h f)
    → pushed mgr n p x ≡ returned true mgr' g
    → Follows h g
unfolding pushed
pushed-Follows h g mgr n p none all e = absurd (cc e)
pushed-Follows h g mgr n p (some f) all e = subst (Follows h) (ap heap_of e) (all f refl)

thr_register-Follows :
    (h g : Heap) (mgr : Manager) {mgr' : Manager} (tid node : ℕ)
    → h node ≡ none
    → thr_register mgr tid (some node) h ≡ returned true mgr' g
    → Follows h g
unfolding thr_register
thr_register-Follows h g mgr tid node unused e = pushed-Follows h g mgr _ node _ front e
  where
    linked : Heap
    linked = write h node (some (thrd tid mgr.tlist null))

    new : Follows h linked
    new = new-Follows h node (thrd tid mgr.tlist null) unused

    front :
        (f : Heap)
        → (if mgr.tlist == null then some linked else set_last linked mgr.tlist node) ≡ some f
        → Follows h f
    front f e = elim (Bool-cases (mgr.tlist == null)) [
      | inl empty ↦ subst (Follows h) (some-injective (rw empty at e)) new
      | inr full ↦
          Follows-trans h linked f new (set_last-Follows linked f mgr.tlist node (rw full at e))
    ]

-- no step takes a node out of the list
abbrev undisturbed : {q q' : Walker} → Walks q q' → Bool
undisturbed begin = true
undisturbed (next ws st) = not (is_removal st) && undisturbed ws

WalkStep-Ahead :
    {q q' : Walker} {k : ℕ} (st : WalkStep q q')
    → is_removal st ≡ false
    → Ahead q.heap q.thr k
    → (j : ℕ) × Ahead q'.heap q'.thr j × (q'.nthr + j ≡ q.nthr + k)
WalkStep-Ahead (count_node ne at) calm (at_end e) = absurd (ne e)
WalkStep-Ahead {q} (count_node ne at) calm (at_node {n = n} {k} ne' at' a) =
    let same : n ≡ _ = some-injective (sym at' ∙ at) in
    (k, subst (λ x. Ahead q.heap x.next k) same a, omega arith)
WalkStep-Ahead {q} {k = k} (other_registers tid node {g = g} ne unused e) calm a =
    (k, Ahead-Follows (thr_register-Follows q.heap g q.mgr tid node unused e) a, refl)
WalkStep-Ahead (other_unregisters tid e) calm a = absurd (cc calm)

Walks-Ahead :
    {q q' : Walker} {k : ℕ} (ws : Walks q q')
    → undisturbed ws ≡ true
    → Ahead q.heap q.thr k
    → (j : ℕ) × Ahead q'.heap q'.thr j × (q'.nthr + j ≡ q.nthr + k)
Walks-Ahead {k = k} begin calm a = (k, a, refl)
Walks-Ahead (next ws st) calm a =
    let (j, a', e) = Walks-Ahead ws (ground (arith, calm)) a in
    let (i, a'', e') = WalkStep-Ahead st (ground (arith, calm)) a' in (i, a'', e' ∙ e)

Ahead-safe :
    (q : Walker) {j : ℕ} (k : ℕ)
    → Ahead q.heap q.thr j
    → q.nthr + j ≡ k
    → (¬ ReadsFreed q) × (q.thr ≡ null → q.nthr ≡ k)
Ahead-safe q k (at_end e) sum = ((λ (ne, gone). ne e), λ z. omega (arith, sum))
Ahead-safe q k (at_node ne at a) sum = ((λ (_, gone). cc (at, gone)), λ z. absurd (ne z))

-- From the head of a well-formed list on: as long as the other threads only register, whenever and
-- however often, the walk never reads a node that is freed, and when it comes to the end it has
-- counted the nodes that the list had at its beginning.
pub Walks-undisturbed :
    {q q' : Walker} {xs : Nodes} (ws : Walks q q')
    → IsManager q.heap q.mgr xs
    → q.thr ≡ q.mgr.tlist
    → q.nthr ≡ 0
    → undisturbed ws ≡ true
    → (¬ ReadsFreed q') × (q'.thr ≡ null → q'.nthr ≡ length xs)
Walks-undisturbed {q} {q'} {xs} ws is at_head fresh calm =
    let start : Ahead q.heap q.thr (length xs) =
      subst (λ p. Ahead q.heap p (length xs)) (sym at_head) (Chain-Ahead is.chain) in
    let (j, a, e) = Walks-Ahead ws calm start in
    Ahead-safe q' (length xs) a (omega (arith, e, fresh))

-- Where another thread unregisters the one at whose node the walk stands, the node is freed, and the
-- walk reads it next.
pub removal-ReadsFreed :
    {q : Walker} {xs : Nodes} (tid : ℕ)
    → IsManager q.heap q.mgr xs
    → has_tid tid xs ≡ true
    → q.thr ≢ null
    → has q.thr xs ≡ true
    → has q.thr (erase tid xs) ≡ false
    → (q' : Walker) × WalkStep q q' × ReadsFreed q'
removal-ReadsFreed {q} tid is there ne here gone =
    let (mgr', g, e, _, _, freed) = (thr_unregister-IsManager tid is).0 there in
    (_, other_unregisters tid e, (ne, freed q.thr here gone))

-- Without other threads the loop ends, and counts the list.
walk_loop-IsManager :
    {h : Heap} {mgr : Manager} {xs : Nodes}
    → IsManager h mgr xs
    → walk_loop (suc mgr.nthreads) h mgr.tlist 0 ≡ counted mgr.nthreads
walk_loop-IsManager {mgr = mgr} {xs} is =
    let sum : 0 + length xs ≡ mgr.nthreads = omega (arith, is.count) in
    walk_loop-Ahead (suc mgr.nthreads) 0 (Chain-Ahead is.chain) (omega (arith, is.count))
    ∙ ap counted sum
