-- ===== src/Workers/Weight.antt =====
-- What the workers have before them, and which of them have not ended.
use rblpolicyd.Prelude.{
  ℕ, zero, suc, ◌+◌, ◌-◌, ◌*◌, ◌≤◌, ◌<◌, ◌≡◌, ◌≢◌, ◌⊎◌, ap, Bool, true, Bool-cases, inl, inr, ◌==◌,
  arith,
}
use mathlib.Core.Path.{subst}
use rblpolicyd.Protocol
use rblpolicyd.Protocol.{Query, Move}
use rblpolicyd.Protocol.Family.{update, total, total-update}
use rblpolicyd.Protocol.Weight.{goes_well, weight}
use rblpolicyd.Protocol.Progress.{is_sound, Move-is_sound, done-cases}
use rblpolicyd.Tally.{
  TallyPc, head, holding, questions_read, asked, positive_read, tallied, Shared, TallyStep, lock,
  load_questions, store_questions, load_positive, store_positive, skip, unlock,
}
use rblpolicyd.Workers.{Workers, Step, in_query, in_tally}
use rblpolicyd.Workers.Steps.{inside}
use rblpolicyd.Workers.InOrder.{HasEnded}

-- what a worker has before it in its loop over the results
abbrev tally_weight : ℕ → TallyPc → ℕ
tally_weight n (head i) = 6 * (n - i)
tally_weight n (holding i) = 6 * (n - i) - 1
tally_weight n (questions_read i v) = 6 * (n - i) - 2
tally_weight n (asked i) = 6 * (n - i) - 3
tally_weight n (positive_read i v) = 6 * (n - i) - 4
tally_weight n (tallied i) = 6 * (n - i) - 5

total-less :
    (n m : ℕ) (worker : ℕ → TallyPc) (w : ℕ) (pc' : TallyPc)
    → w < m
    → tally_weight n pc' < tally_weight n (worker w)
    → total (tally_weight n) m (update worker w pc') < total (tally_weight n) m worker
total-less n m worker w pc' l less =
    omega (arith, less, total-update (tally_weight n) m worker w pc' l)

pub TallyStep-weight :
    {m n : ℕ} {score : ℕ → ℕ → ℕ} {q q' : Shared} (st : TallyStep m n score q q')
    → ((w : ℕ) → inside (q.worker w) ≤ n)
    → total (tally_weight n) m q'.worker < total (tally_weight n) m q.worker
TallyStep-weight {m} {n} {q = q} (lock w {i} l e k h) bound =
    total-less n m q.worker w (holding i) l (ground (arith, e, k))
TallyStep-weight {m} {n} {q = q} (load_questions w {i} l e) bound =
    total-less n m q.worker w _ l (ground (arith, e, bound w))
TallyStep-weight {m} {n} {q = q} (store_questions w {i} l e) bound =
    total-less n m q.worker w (asked i) l (ground (arith, e, bound w))
TallyStep-weight {m} {n} {q = q} (load_positive w {i} l e s) bound =
    total-less n m q.worker w _ l (ground (arith, e, bound w))
TallyStep-weight {m} {n} {q = q} (store_positive w {i} l e) bound =
    total-less n m q.worker w (tallied i) l (ground (arith, e, bound w))
TallyStep-weight {m} {n} {q = q} (skip w {i} l e s) bound =
    total-less n m q.worker w (tallied i) l (ground (arith, e, bound w))
TallyStep-weight {m} {n} {q = q} (unlock w {i} l e) bound =
    total-less n m q.worker w (head (suc i)) l (ground (arith, e, bound w))

-- A step where no thread is refused or cancelled, and no wakeup is spurious.
abbrev pub is_well : {m n : ℕ} {answer : ℕ → ℕ → ℕ} {s s' : Workers} → Step m n answer s s' → Bool
is_well (in_query w l mv) = goes_well mv
is_well (in_tally st d) = true

abbrev pub IsSound : Workers → Type 0
IsSound s = (w i : ℕ) → is_sound ((s.queries w).solver i) ≡ true

abbrev pub whole_weight : ℕ → ℕ → Workers → ℕ
whole_weight n m s = total (weight n) m s.queries + total (tally_weight n) m s.shared.worker

pub Step-IsSound :
    {m n : ℕ} {answer : ℕ → ℕ → ℕ} {s s' : Workers} (st : Step m n answer s s')
    → is_well st ≡ true
    → IsSound s
    → IsSound s'
Step-IsSound (in_query w l mv) well sound u i = elim (Bool-cases (u == w)) [
  | inl here ↦ rw here (Move-is_sound mv well (sound w) i)
  | inr there ↦ rw there (sound u i)
]
Step-IsSound (in_tally st d) well sound u i = sound u i

head-cases : (n : ℕ) (pc : TallyPc) → (pc ≡ head n) ⊎ (pc ≢ head n)
head-cases n (head i) = elim (Bool-cases (i == n)) [
  | inl e ↦ inl (ap head (ground (arith, e)))
  | inr ne ↦ inr (λ e. ground (arith, e, ne))
]
head-cases n (holding i) = inr λ e. cc
head-cases n (questions_read i v) = inr λ e. cc
head-cases n (asked i) = inr λ e. cc
head-cases n (positive_read i v) = inr λ e. cc
head-cases n (tallied i) = inr λ e. cc

-- what keeps a worker from having ended
abbrev pub Waits : Workers → ℕ → ℕ → Type 0
Waits s n w =
    ((s.queries w).worker ≢ Protocol.done)
    ⊎ (((s.queries w).worker ≡ Protocol.done) × (s.shared.worker w ≢ head n))

HasEnded-cases : (s : Workers) (n w : ℕ) → HasEnded s n w ⊎ Waits s n w
HasEnded-cases s n w = elim (done-cases (s.queries w).worker) [
  | inl d ↦ elim (head-cases n (s.shared.worker w)) [
    | inl e ↦ inl (record { answered = d; tallied = e })
    | inr ne ↦ inr (inr (d, ne))
  ]
  | inr nd ↦ inr (inl nd)
]

-- All of the first `k` workers have ended, or one of them waits.
pub ended-cases :
    (s : Workers) (n k : ℕ) → ((w : ℕ) → w < k → HasEnded s n w) ⊎ ((w : ℕ) × (w < k) × Waits s n w)
ended-cases s n zero = inl λ w l. absurd (omega (arith, l))
ended-cases s n (suc k) = elim (ended-cases s n k) [
  | inr (w, l, waits) ↦ inr (w, omega (arith, l), waits)
  | inl ended ↦ elim (HasEnded-cases s n k) [
    | inr waits ↦ inr (k, omega arith, waits)
    | inl last ↦ inl λ w l. elim (Bool-cases (w == k)) [
      | inl here ↦ let same : k ≡ w = ground (arith, here) in subst (HasEnded s n) same last
      | inr there ↦ ended w (ground (arith, there, l))
    ]
  ]
]
