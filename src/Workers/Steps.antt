-- ===== src/Workers/Steps.antt =====
-- A run of several workers, seen from one query and from the counters.
use rblpolicyd.Prelude.{ℕ, ◌^◌, ◌<◌, ◌≡◌, List, length, Bool-cases, ◌≤◌, suc, inl, inr, ◌==◌, arith}
use mathlib.Core.Path.{subst}
use rblpolicyd.Address.{Octets}
use rblpolicyd.CfgFile.{CfgItem}
use rblpolicyd.Worker.{Env}
use rblpolicyd.Protocol.{Query, Move, Reach, at_start, after}
use rblpolicyd.Protocol.Done.{done-ended}
use rblpolicyd.Protocol.Family.{update}
use rblpolicyd.Tally.{
  TallyPc, head, holding, questions_read, asked, positive_read, tallied, Shared, TallyStep, lock,
  load_questions, store_questions, load_positive, store_positive, skip, unlock, TallyRun,
  all_at_head,
}
use rblpolicyd.Tally
use rblpolicyd.Tally.Defs.{guard}
use rblpolicyd.Workers.{actor, Workers, in_query, in_tally, entry, answer_to, Run, begin, next}

-- A step of one query leaves the others where they are.
update-Reach :
    {n : ℕ} {answer : ℕ → ℕ → ℕ} (queries : ℕ → Query) (w : ℕ) {q : Query}
    → ((u : ℕ) → Reach n (answer u) (queries u))
    → Move n (answer w) (queries w) q
    → (u : ℕ) → Reach n (answer u) (update queries w q u)
update-Reach {n} {answer} queries w {q} reached mv u = elim (Bool-cases (u == w)) [
  | inl here ↦
      let same : w ≡ u = ground (arith, here) in
      rw here (subst (λ x. Reach n (answer x) q) same (after (reached w) mv))
  | inr there ↦ rw there (reached u)
]

module _ {m : ℕ} {env : Env} {rblist : List CfgItem} {client : ℕ → Octets} where
  pub Run-Reach :
      {s : Workers}
      → Run m env rblist client s
      → (w : ℕ) → Reach (length rblist) (answer_to env rblist client w) (s.queries w)
  Run-Reach begin w = at_start
  Run-Reach (next {s} r (in_query u l mv)) w = update-Reach s.queries u (Run-Reach r) mv w
  Run-Reach (next r (in_tally st d)) w = Run-Reach r w

-- the entries that a worker has come to in its loop
abbrev pub inside : TallyPc → ℕ
inside (head i) = i
inside (holding i) = suc i
inside (questions_read i v) = suc i
inside (asked i) = suc i
inside (positive_read i v) = suc i
inside (tallied i) = suc i

Step-inside :
    {m n : ℕ} {score : ℕ → ℕ → ℕ} {q q' : Shared}
    → TallyStep m n score q q'
    → ((w : ℕ) → inside (q.worker w) ≤ n)
    → (w : ℕ) → inside (q'.worker w) ≤ n
Step-inside (lock u l e k h) bound w = ground (arith, bound w, k)
Step-inside st bound w = ground (arith, guard st, bound w, bound (actor st))

-- A worker is only ever in the body for an entry of the list.
pub TallyRun-inside :
    {m n : ℕ} {score : ℕ → ℕ → ℕ} {items : ℕ → CfgItem} {q : Shared}
    → TallyRun m n score items q
    → (w : ℕ) → inside (q.worker w) ≤ n
TallyRun-inside Tally.begin w = unfold all_at_head in omega arith
TallyRun-inside (Tally.next r st) w = Step-inside st (TallyRun-inside r) w

-- A step takes the scores of the worker that makes it, for the entries of the list.
rescored :
    {m n : ℕ} {score score' : ℕ → ℕ → ℕ} {q q' : Shared} (st : TallyStep m n score q q')
    → ((w : ℕ) → inside (q.worker w) ≤ n)
    → ((i : ℕ) → i < n → score (actor st) i ≡ score' (actor st) i)
    → TallyStep m n score' q q'
rescored (lock w l e k h) bound same = lock w l e k h
rescored (load_questions w l e) bound same = load_questions w l e
rescored (store_questions w l e) bound same = store_questions w l e
rescored (load_positive w {i} l e s) bound same =
    load_positive w l e (ground (arith, s, same i (ground (arith, bound w, e))))
rescored (store_positive w l e) bound same = store_positive w l e
rescored (skip w {i} l e s) bound same =
    skip w l e (ground (arith, s, same i (ground (arith, bound w, e))))
rescored (unlock w l e) bound same = unlock w l e

module _ {m : ℕ} {env : Env} {rblist : List CfgItem} {client : ℕ → Octets} where
  -- For the counters it is a run with the answers as the scores: no worker takes a score that its
  -- solver has not left yet.
  pub Run-TallyRun :
      {s : Workers}
      → length rblist < 2 ^ 31
      → Run m env rblist client s
      → TallyRun m (length rblist) (answer_to env rblist client) (entry rblist) s.shared
  Run-TallyRun few begin = Tally.begin
  Run-TallyRun few (next r (in_query u l mv)) = Run-TallyRun few r
  Run-TallyRun few (next r (in_tally st d)) =
      let t = Run-TallyRun few r in
      Tally.next t
        (rescored st (TallyRun-inside t) (λ i l. (done-ended few (Run-Reach r (actor st)) d i l).1))
