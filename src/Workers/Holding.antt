-- ===== src/Workers/Holding.antt =====
-- The mutex of the counters: who holds it can go on.
use rblpolicyd.Prelude.{ℕ, ◌<◌, ◌≡◌, true, false, some, List, Bool-cases, inl, inr, ◌==◌, arith}
use mathlib.Core.Path.{subst}
use rblpolicyd.Address.{Octets}
use rblpolicyd.CfgFile.{CfgItem}
use rblpolicyd.Worker.{Env}
use rblpolicyd.Protocol
use rblpolicyd.Protocol.{Query, Move, lock_entry}
use rblpolicyd.Protocol.Family.{update}
use rblpolicyd.Protocol.Inv
use rblpolicyd.Tally
use rblpolicyd.Tally.{Shared, TallyStep, lock, unlock, TallyRun, all_at_head}
use rblpolicyd.Tally.Defs.{guard, has_mutex}
use rblpolicyd.Workers.{actor, Workers, in_query, in_tally, Run, begin, next}

-- Who holds the mutex is a worker in the body of its loop, and there is no other one there.
pub record Holds (m : ℕ) (q : Shared) : Type 0 where
  pub inside_it : (u : ℕ) → q.rblist_mutex ≡ some u → (u < m) × (has_mutex (q.worker u) ≡ true)
  pub alone : (w : ℕ) → has_mutex (q.worker w) ≡ true → q.rblist_mutex ≡ some w

module _ {m n : ℕ} {score : ℕ → ℕ → ℕ} {q : Shared} (h : Holds m q) where
  Step-inside_it :
      {q' : Shared}
      → TallyStep m n score q q'
      → (u : ℕ) → q'.rblist_mutex ≡ some u
      → (u < m) × (has_mutex (q'.worker u) ≡ true)
  Step-inside_it (lock w l e k free) u now = ground (arith, l, now)
  Step-inside_it (unlock w l e) u now = ground (arith, now)
  Step-inside_it st u now = ground (arith, guard st, h.inside_it u, now)

  Step-alone :
      {q' : Shared}
      → TallyStep m n score q q'
      → (w : ℕ) → has_mutex (q'.worker w) ≡ true
      → q'.rblist_mutex ≡ some w
  Step-alone (lock u l e k free) w b = ground (arith, h.alone w, free)
  Step-alone (unlock u l e) w b = ground (arith, h.alone w, h.alone u, e)
  Step-alone st w b = ground (arith, guard st, h.alone w)

pub TallyRun-Holds :
    {m n : ℕ} {score : ℕ → ℕ → ℕ} {items : ℕ → CfgItem} {q : Shared}
    → TallyRun m n score items q
    → Holds m q
TallyRun-Holds Tally.begin =
    unfold all_at_head in
    record { inside_it = λ u e. ground (arith, e); alone = λ w e. ground (arith, e) }
TallyRun-Holds (Tally.next r st) =
    let h = TallyRun-Holds r in record { inside_it = Step-inside_it h st; alone = Step-alone h st }

-- A worker that has come out of its wait stays there.
Move-done :
    {n : ℕ} {answer : ℕ → ℕ} {q q' : Query}
    → Move n answer q q'
    → q.worker ≡ Protocol.done
    → q'.worker ≡ Protocol.done
unfolding Protocol.broadcast_to
Move-done (lock_entry e l h) d = ground (arith, e, d)
Move-done mv d = ground (arith, Inv.guard mv, d)

update-done :
    {n : ℕ} {answer : ℕ → ℕ} (queries : ℕ → Query) (w : ℕ) {q : Query}
    → Move n answer (queries w) q
    → (u : ℕ) → (queries u).worker ≡ Protocol.done
    → (update queries w q u).worker ≡ Protocol.done
update-done queries w {q} mv u d = elim (Bool-cases (u == w)) [
  | inl here ↦
      let same : u ≡ w = ground (arith, here) in
      rw here (Move-done mv (subst (λ x. (queries x).worker ≡ Protocol.done) same d))
  | inr there ↦ rw there d
]

Step-other :
    {m n : ℕ} {score : ℕ → ℕ → ℕ} {q q' : Shared} (st : TallyStep m n score q q') (u : ℕ)
    → (u == actor st) ≡ false
    → has_mutex (q'.worker u) ≡ true
    → has_mutex (q.worker u) ≡ true
Step-other (lock w l e k h) u off b = ground (arith, off, b)
Step-other st u off b = ground (arith, off, b, guard st)

-- Who is in the body of the loop has come out of its wait.
pub Run-done :
    {m : ℕ} {env : Env} {rblist : List CfgItem} {client : ℕ → Octets} {s : Workers}
    → Run m env rblist client s
    → (u : ℕ) → has_mutex (s.shared.worker u) ≡ true
    → (s.queries u).worker ≡ Protocol.done
Run-done begin u h = unfold all_at_head in ground (arith, h)
Run-done (next {s} r (in_query w l mv)) u h = update-done s.queries w mv u (Run-done r u h)
Run-done (next {s} r (in_tally st d)) u h = elim (Bool-cases (u == actor st)) [
  | inl here ↦
      let same : actor st ≡ u = ground (arith, here) in
      subst (λ x. (s.queries x).worker ≡ Protocol.done) same d
  | inr there ↦ Run-done r u (Step-other st u there h)
]
