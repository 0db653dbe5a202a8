-- ===== src/Tally/Defs.antt =====
-- worker.c: what is claimed of the counters of the blacklists and of their mutex, in parts.
use mathlib.Core.Path.{subst}
use rblpolicyd.Prelude.{
  ℕ, zero, suc, ◌+◌, ◌%◌, ◌<◌, ◌≡◌, ◌≢◌, refl, ◌∙◌, Bool, true, false, none, some, ltb, leb, ◌==◌,
  ◌&&◌, not, if◌then◌else◌, arith, Bool-cases, inl, inr,
}
use rblpolicyd.Protocol.Family.{update}
use rblpolicyd.CfgFile.{CfgItem}
use rblpolicyd.Worker.{u32_mod}
use rblpolicyd.Tally.{
  TallyPc, head, holding, questions_read, asked, positive_read, tallied, Shared, TallyStep, lock,
  load_questions, store_questions, load_positive, store_positive, skip, unlock,
}

-- `f 0 + ... + f (n - 1)`
abbrev pub sum : (ℕ → ℕ) → ℕ → ℕ
sum f zero = 0
sum f (suc n) = sum f n + f n

sum-same : (f g : ℕ → ℕ) (n : ℕ) → ((j : ℕ) → j < n → f j ≡ g j) → sum f n ≡ sum g n
sum-same f g zero same = refl
sum-same f g (suc n) same =
    omega (arith, sum-same f g n (λ j l. same j (omega (arith, l))), same n (omega arith))

-- A sum changes by what its only changed summand does.
sum-change :
    (f g : ℕ → ℕ) (n i : ℕ) → i < n → ((j : ℕ) → j ≢ i → f j ≡ g j) → sum f n + g i ≡ sum g n + f i
sum-change f g zero i l same = absurd (omega (arith, l))
sum-change f g (suc n) i l same = elim (Bool-cases (i == n)) [
  | inl last ↦ ground (arith, last, sum-same f g n (λ j k. same j (ground (arith, last, k))))
  | inr before ↦ ground (
    arith,
    before,
    sum-change f g n i (ground (arith, before, l)) same,
    same n (ground (arith, before)),
  )
]

-- 1 where a worker has stored its addition to `questions` of the entry `i`
abbrev pub asked_by : ℕ → TallyPc → ℕ
asked_by i (head j) = if ltb i j then 1 else 0
asked_by i (holding j) = if ltb i j then 1 else 0
asked_by i (questions_read j v) = if ltb i j then 1 else 0
asked_by i (asked j) = if leb i j then 1 else 0
asked_by i (positive_read j v) = if leb i j then 1 else 0
asked_by i (tallied j) = if leb i j then 1 else 0

-- 1 where a worker with that score is past `positive` of the entry `i` and has added to it
abbrev pub found_by : ℕ → ℕ → TallyPc → ℕ
found_by score i (head j) = if ltb i j && not (score == 0) then 1 else 0
found_by score i (holding j) = if ltb i j && not (score == 0) then 1 else 0
found_by score i (questions_read j v) = if ltb i j && not (score == 0) then 1 else 0
found_by score i (asked j) = if ltb i j && not (score == 0) then 1 else 0
found_by score i (positive_read j v) = if ltb i j && not (score == 0) then 1 else 0
found_by score i (tallied j) = if leb i j && not (score == 0) then 1 else 0

abbrev pub has_mutex : TallyPc → Bool
has_mutex (head j) = false
has_mutex _ = true

module _ (weight : ℕ → TallyPc → ℕ) (worker : ℕ → TallyPc) (m w : ℕ) (pc : TallyPc) where
  moved_other : (u : ℕ) → u ≢ w → weight u (update worker w pc u) ≡ weight u (worker u)
  moved_other u ne = let off : (u == w) ≡ false = ground (arith, ne) in rw off refl

  moved_self : weight w (update worker w pc w) ≡ weight w pc
  moved_self = let on : (w == w) ≡ true = ground arith in rw on refl

  pub sum-kept :
      weight w pc ≡ weight w (worker w)
      → sum (λ u. weight u (update worker w pc u)) m ≡ sum (λ u. weight u (worker u)) m
  sum-kept e = sum-same _ _ m λ u l. elim (Bool-cases (u == w)) [
    | inl here ↦
        let i : w ≡ u = ground (arith, here) in
        subst (λ x. weight x (update worker w pc x) ≡ weight x (worker x)) i (moved_self ∙ e)
    | inr there ↦ moved_other u (ground (arith, there))
  ]

  pub sum-counted :
      w < m
      → weight w pc ≡ weight w (worker w) + 1
      → sum (λ u. weight u (update worker w pc u)) m ≡ sum (λ u. weight u (worker u)) m + 1
  sum-counted l e = omega (
    arith,
    sum-change (λ u. weight u (update worker w pc u)) (λ u. weight u (worker u)) m w l moved_other,
    moved_self,
    e,
  )

-- an item less its counters
abbrev pub uncounted : CfgItem → CfgItem
uncounted it = record it { questions = 0; positive = 0 }

module _ (m n : ℕ) (score : ℕ → ℕ → ℕ) (items : ℕ → CfgItem) where
  pub record TallyInv (q : Shared) : Type 0 where
    pub mutex_right : (w : ℕ) → has_mutex (q.worker w) ≡ true → q.rblist_mutex ≡ some w
    pub questions_right : (w i v : ℕ) → q.worker w ≡ questions_read i v → v ≡ (q.items i).questions
    pub positive_right : (w i v : ℕ) → q.worker w ≡ positive_read i v → v ≡ (q.items i).positive
    pub scored : (w i v : ℕ) → q.worker w ≡ positive_read i v → score w i ≢ 0
    pub questions_sum :
        (i : ℕ)
        → (q.items i).questions
          ≡ ((items i).questions + sum (λ w. asked_by i (q.worker w)) m) % u32_mod
    pub positive_sum :
        (i : ℕ)
        → (q.items i).positive
          ≡ ((items i).positive + sum (λ w. found_by (score w i) i (q.worker w)) m) % u32_mod
    pub others : (i : ℕ) → uncounted (q.items i) ≡ uncounted (items i)

-- The premises of a step, for the catch-all clauses below.
abbrev Guard : {m n : ℕ} {score : ℕ → ℕ → ℕ} {q q' : Shared} → TallyStep m n score q q' → Type 0
Guard {m} {n} {q = q} (lock w {i} _ _ _ _) =
    (w < m) × (q.worker w ≡ head i) × (i < n) × (q.rblist_mutex ≡ none)
Guard {m} {q = q} (load_questions w {i} _ _) = (w < m) × (q.worker w ≡ holding i)
Guard {m} {q = q} (store_questions w {i} {v} _ _) = (w < m) × (q.worker w ≡ questions_read i v)
Guard {m} {score = score} {q} (load_positive w {i} _ _ _) =
    (w < m) × (q.worker w ≡ asked i) × (score w i ≢ 0)
Guard {m} {q = q} (store_positive w {i} {v} _ _) = (w < m) × (q.worker w ≡ positive_read i v)
Guard {m} {score = score} {q} (skip w {i} _ _ _) =
    (w < m) × (q.worker w ≡ asked i) × (score w i ≡ 0)
Guard {m} {q = q} (unlock w {i} _ _) = (w < m) × (q.worker w ≡ tallied i)

pub guard : {m n : ℕ} {score : ℕ → ℕ → ℕ} {q q' : Shared} (st : TallyStep m n score q q') → Guard st
guard (lock w l e k h) = (l, e, k, h)
guard (load_questions w l e) = (l, e)
guard (store_questions w l e) = (l, e)
guard (load_positive w l e s) = (l, e, s)
guard (store_positive w l e) = (l, e)
guard (skip w l e s) = (l, e, s)
guard (unlock w l e) = (l, e)
