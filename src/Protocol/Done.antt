-- ===== src/Protocol/Done.antt =====
-- What a worker may rely on behind its wait, and when it never comes there.
use rblpolicyd.Prelude.{ℕ, ◌^◌, ◌<◌, ◌≡◌, ◌≢◌, Bool, true, false, arith}
use rblpolicyd.Protocol.Family.{total, total-zero}
use rblpolicyd.Protocol.{
  done, SolverPc, uncreated, dead, ended, Query, Move, lock_entry, Reach, after,
}
use rblpolicyd.Protocol.Inv.{pending, Inv, guard}
use rblpolicyd.Protocol.Counting.{in_list, Reach-Inv}

-- When the worker has left its wait, every solver has ended with its score written: none of them will
-- use the query's data again.
pub done-ended :
    {n : ℕ} {answer : ℕ → ℕ} {q : Query}
    → n < 2 ^ 31
    → Reach n answer q
    → q.worker ≡ done
    → (i : ℕ) → i < n
    → (q.solver i ≡ ended) × (q.score i ≡ answer i)
done-ended {n} {answer} {q} few r w i l =
    let inv = Reach-Inv few r in
    let none_left : total pending n q.solver ≡ 0 = omega (arith, inv.counted_right, inv.passed w) in
    ground (
      arith,
      w,
      inv.held.0,
      inv.held.2 i,
      inv.has_begun i,
      inv.scores i,
      total-zero pending n q.solver none_left i l,
    )

-- a solver that will never take itself off the count
abbrev pub is_lost : SolverPc → Bool
is_lost uncreated = true
is_lost dead = true
is_lost _ = false

-- any number of steps
pub data Steps (n : ℕ) (answer : ℕ → ℕ) (q : Query) : Query → Type 0 where
  none : Steps n answer q q
  more : {q' q'' : Query} → Steps n answer q q' → Move n answer q' q'' → Steps n answer q q''

Reach-Steps :
    {n : ℕ} {answer : ℕ → ℕ} {q q' : Query}
    → Reach n answer q
    → Steps n answer q q'
    → Reach n answer q'
Reach-Steps r none = r
Reach-Steps r (more ss mv) = after (Reach-Steps r ss) mv

Move-is_lost :
    {n : ℕ} {answer : ℕ → ℕ} {q q' : Query} (i : ℕ)
    → Inv n answer q
    → Move n answer q q'
    → is_lost (q.solver i) ≡ true
    → is_lost (q'.solver i) ≡ true
Move-is_lost i inv (lock_entry w l h) lost = lost
Move-is_lost i inv mv lost = ground (arith, guard mv, inv.not_begun i, lost)

Steps-is_lost :
    {n : ℕ} {answer : ℕ → ℕ} {q q' : Query} (i : ℕ)
    → n < 2 ^ 31
    → Reach n answer q
    → Steps n answer q q'
    → is_lost (q.solver i) ≡ true
    → is_lost (q'.solver i) ≡ true
Steps-is_lost i few r none lost = lost
Steps-is_lost i few r (more ss mv) lost =
    Move-is_lost i (Reach-Inv few (Reach-Steps r ss)) mv (Steps-is_lost i few r ss lost)

-- One solver that was not created, or was cancelled before it was done, is enough: whatever happens
-- from then on, the worker does not come out of its wait.
pub Steps-ne-done :
    {n : ℕ} {answer : ℕ → ℕ} {q q' : Query} (i : ℕ)
    → n < 2 ^ 31
    → Reach n answer q
    → is_lost (q.solver i) ≡ true
    → Steps n answer q q'
    → q'.worker ≢ done
Steps-ne-done {q = q} {q'} i few r lost ss w =
    let r' = Reach-Steps r ss in
    let inv = Reach-Inv few r' in
    let lost' = Steps-is_lost i few r ss lost in
    let (e, _) = done-ended few r' w i (in_list few inv i (ground (arith, lost'))) in
    ground (arith, e, lost')
