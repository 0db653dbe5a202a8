-- ===== src/Tally/Inv.antt =====
-- The mutex, and what the counters have come to.
use rblpolicyd.Tally.Defs.{
  sum, asked_by, found_by, has_mutex, sum-kept, sum-counted, uncounted, TallyInv, guard,
}
use rblpolicyd.Prelude.{
  ℕ, zero, suc, ◌+◌, ◌%◌, ◌<◌, ◌≡◌, ◌≢◌, refl, true, some, ◌==◌, arith, Bool-cases, inl, inr,
}
use rblpolicyd.Protocol.Family.{update}
use rblpolicyd.CfgFile.{CfgItem}
use rblpolicyd.Worker.{u32_mod}
use rblpolicyd.Tally.{
  TallyPc, questions_read, asked, positive_read, tallied, Shared, TallyStep, lock, load_questions,
  store_questions, load_positive, store_positive, skip, unlock, all_at_head, TallyRun, begin, next,
}

module _ {m n : ℕ} {score : ℕ → ℕ → ℕ} (items : ℕ → CfgItem) {q : Shared}
    (inv : TallyInv m n score items q) where
  open inv use {
    mutex_right, questions_right, positive_right, scored, questions_sum, positive_sum, others,
  }

  Step-mutex_right :
      {q' : Shared}
      → TallyStep m n score q q'
      → (w : ℕ) → has_mutex (q'.worker w) ≡ true
      → q'.rblist_mutex ≡ some w
  Step-mutex_right (lock u l e k h) w b = ground (arith, mutex_right w, h)
  Step-mutex_right (unlock u l e) w b = ground (arith, mutex_right w, mutex_right u, e)
  Step-mutex_right st w b = ground (arith, guard st, mutex_right w)

  Step-questions_right :
      {q' : Shared}
      → TallyStep m n score q q'
      → (w i v : ℕ) → q'.worker w ≡ questions_read i v
      → v ≡ (q'.items i).questions
  Step-questions_right (lock u l e k h) w i v b = ground (arith, questions_right w i v, b)
  Step-questions_right (store_questions u l e) w i v b =
      ground (arith, questions_right w i v, mutex_right w, mutex_right u, e, b)
  Step-questions_right (store_positive u l e) w i v b =
      ground (arith, questions_right w i v, mutex_right w, mutex_right u, e, b)
  Step-questions_right st w i v b = ground (arith, guard st, questions_right w i v, b)

  Step-positive_right :
      {q' : Shared}
      → TallyStep m n score q q'
      → (w i v : ℕ) → q'.worker w ≡ positive_read i v
      → v ≡ (q'.items i).positive
  Step-positive_right (lock u l e k h) w i v b = ground (arith, positive_right w i v, b)
  Step-positive_right (store_questions u l e) w i v b =
      ground (arith, positive_right w i v, mutex_right w, mutex_right u, e, b)
  Step-positive_right (store_positive u l e) w i v b =
      ground (arith, positive_right w i v, mutex_right w, mutex_right u, e, b)
  Step-positive_right st w i v b = ground (arith, guard st, positive_right w i v, b)

  Step-others :
      {q' : Shared}
      → TallyStep m n score q q'
      → (i : ℕ) → uncounted (q'.items i) ≡ uncounted (items i)
  Step-others (store_questions w {i} l e) j = elim (Bool-cases (j == i)) [
    | inl here ↦ let same : i ≡ j = ground (arith, here) in rw (here, same) (others j)
    | inr there ↦ rw there (others j)
  ]
  Step-others (store_positive w {i} l e) j = elim (Bool-cases (j == i)) [
    | inl here ↦ let same : i ≡ j = ground (arith, here) in rw (here, same) (others j)
    | inr there ↦ rw there (others j)
  ]
  Step-others st j = others j

  -- a step of `w` to `pc` that changes no counter of the entry `i`
  asked_kept :
      (i w : ℕ) (pc : TallyPc)
      → asked_by i pc ≡ asked_by i (q.worker w)
      → (q.items i).questions
        ≡ ((items i).questions + sum (λ u. asked_by i (update q.worker w pc u)) m) % u32_mod
  asked_kept i w pc e = omega (arith, questions_sum i, sum-kept (λ u. asked_by i) q.worker m w pc e)

  found_kept :
      (i w : ℕ) (pc : TallyPc)
      → found_by (score w i) i pc ≡ found_by (score w i) i (q.worker w)
      → (q.items i).positive
        ≡ ((items i).positive + sum (λ u. found_by (score u i) i (update q.worker w pc u)) m)
          % u32_mod
  found_kept i w pc e =
      omega (arith, positive_sum i, sum-kept (λ u. found_by (score u i) i) q.worker m w pc e)

  Step-questions_sum :
      {q' : Shared}
      → TallyStep m n score q q'
      → (i : ℕ)
      → (q'.items i).questions
        ≡ ((items i).questions + sum (λ w. asked_by i (q'.worker w)) m) % u32_mod
  Step-questions_sum (lock w l e k h) i = asked_kept i w _ (ground (arith, e))
  Step-questions_sum (load_questions w l e) i = asked_kept i w _ (ground (arith, e))
  Step-questions_sum (load_positive w l e s) i = asked_kept i w _ (ground (arith, e))
  Step-questions_sum (store_positive w {i = j} l e) i =
      ground (arith, asked_kept i w (tallied j) (ground (arith, e)))
  Step-questions_sum (skip w l e s) i = asked_kept i w _ (ground (arith, e))
  Step-questions_sum (unlock w l e) i = asked_kept i w _ (ground (arith, e))
  Step-questions_sum (store_questions w {i = j} {v} l e) i = elim (Bool-cases (i == j)) [
    | inl here ↦ ground (
      arith,
      here,
      questions_sum i,
      questions_right w j v e,
      sum-counted (λ u. asked_by i) q.worker m w (asked j) l (ground (arith, e, here)),
    )
    | inr there ↦ ground (arith, there, asked_kept i w (asked j) (ground (arith, e, there)))
  ]

  Step-scored :
      {q' : Shared}
      → TallyStep m n score q q'
      → (w i v : ℕ) → q'.worker w ≡ positive_read i v
      → score w i ≢ 0
  Step-scored (lock u l e k h) w i v b z = ground (arith, scored w i v, b, z)
  Step-scored (load_positive u {i = j} l e s) w i v b z = elim (Bool-cases (w == u)) [
    | inl here ↦
        let it : w ≡ u = ground (arith, here) in
        let entry : i ≡ j = ground (arith, b, here) in s (cc (z, it, entry))
    | inr there ↦ scored w i v (ground (arith, b, there)) z
  ]
  Step-scored st w i v b z = scored w i v (ground (arith, guard st, b)) z

  found_now :
      (w i j v : ℕ)
      → j ≡ i
      → q.worker w ≡ positive_read j v
      → found_by (score w i) i (tallied j) ≡ found_by (score w i) i (q.worker w) + 1
  found_now w i j v here e =
      let at_i : q.worker w ≡ positive_read i v = cc (here, e) in
      ground (arith, here, at_i, scored w i v at_i)

  Step-positive_sum :
      {q' : Shared}
      → TallyStep m n score q q'
      → (i : ℕ)
      → (q'.items i).positive
        ≡ ((items i).positive + sum (λ w. found_by (score w i) i (q'.worker w)) m) % u32_mod
  Step-positive_sum (lock w l e k h) i = found_kept i w _ (ground (arith, e))
  Step-positive_sum (load_questions w l e) i = found_kept i w _ (ground (arith, e))
  Step-positive_sum (load_positive w l e s) i = found_kept i w _ (ground (arith, e))
  Step-positive_sum (store_questions w {i = j} l e) i =
      ground (arith, found_kept i w (asked j) (ground (arith, e)))
  Step-positive_sum (skip w {i = j} l e s) i = found_kept i w _ (elim (Bool-cases (i == j)) [
    | inl here ↦
        let same : j ≡ i = ground (arith, here) in
        let none_found = s in ground (arith, e, same, none_found)
    | inr there ↦ ground (arith, e, there)
  ])
  Step-positive_sum (unlock w l e) i = found_kept i w _ (ground (arith, e))
  Step-positive_sum (store_positive w {i = j} {v} l e) i = elim (Bool-cases (i == j)) [
    | inl here ↦ ground (
      arith,
      here,
      positive_sum i,
      positive_right w j v e,
      sum-counted (λ u. found_by (score u i) i) q.worker m w (tallied j) l
          (found_now w i j v (ground (arith, here)) e),
    )
    | inr there ↦ ground (arith, there, found_kept i w (tallied j) (ground (arith, e, there)))
  ]

  Step-TallyInv : {q' : Shared} → TallyStep m n score q q' → TallyInv m n score items q'
  Step-TallyInv st = record {
    mutex_right = Step-mutex_right st;
    questions_right = Step-questions_right st;
    positive_right = Step-positive_right st;
    scored = Step-scored st;
    questions_sum = Step-questions_sum st;
    positive_sum = Step-positive_sum st;
    others = Step-others st;
  }

sum-zero : (m : ℕ) → sum (λ w. 0) m ≡ 0
sum-zero zero = refl
sum-zero (suc m) = omega (arith, sum-zero m)

-- counters that their type holds
abbrev pub AreCounts : CfgItem → Type 0
AreCounts it = (it.questions < u32_mod) × (it.positive < u32_mod)

TallyInv-all_at_head :
    (m n : ℕ) (score : ℕ → ℕ → ℕ) (items : ℕ → CfgItem)
    → ((i : ℕ) → AreCounts (items i))
    → TallyInv m n score items (all_at_head items)
unfolding all_at_head
TallyInv-all_at_head m n score items small = record {
  mutex_right = λ w e. ground (arith, e);
  questions_right = λ w i v e. ground (arith, e);
  positive_right = λ w i v e. ground (arith, e);
  scored = λ w i v e. ground (arith, e);
  questions_sum = λ i. ground (arith, sum-zero m, small i);
  positive_sum = λ i. ground (arith, sum-zero m, small i);
  others = λ i. refl;
}

pub TallyRun-TallyInv :
    {m n : ℕ} {score : ℕ → ℕ → ℕ} (items : ℕ → CfgItem) {q : Shared}
    → ((i : ℕ) → AreCounts (items i))
    → TallyRun m n score items q
    → TallyInv m n score items q
TallyRun-TallyInv {m} {n} {score} items small begin = TallyInv-all_at_head m n score items small
TallyRun-TallyInv items small (next r st) = Step-TallyInv items (TallyRun-TallyInv items small r) st
