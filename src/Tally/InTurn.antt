-- ===== src/Tally/InTurn.antt =====
-- Workers that change the counters at once leave what workers leave one after another.
use rblpolicyd.Prelude.{
  ℕ, zero, suc, ◌+◌, ◌%◌, ◌<◌, ◌≡◌, refl, sym, ◌∙◌, arith, ◌==◌, if◌then◌else◌,
}
use rblpolicyd.CfgFile.{CfgItem}
use rblpolicyd.Worker.{u32_mod, counted}
use rblpolicyd.Tally.{TallyPc, head, Shared, TallyRun}
use rblpolicyd.Tally.Defs.{sum, asked_by, found_by, uncounted}
use rblpolicyd.Tally.Inv.{AreCounts, TallyRun-TallyInv}

-- The entry `i` after `m` workers, each of which ran alone.
abbrev pub in_turn : (ℕ → ℕ → ℕ) → ℕ → ℕ → CfgItem → CfgItem
in_turn score i zero item = item
in_turn score i (suc w) item = counted (in_turn score i w item) (score w i)

-- the workers among the first `m` that have a score for the entry `i`
abbrev found_among : (ℕ → ℕ → ℕ) → ℕ → ℕ → ℕ
found_among score i m = sum (λ w. if score w i == 0 then 0 else 1) m

uncounted-in_turn :
    (score : ℕ → ℕ → ℕ) (i m : ℕ) (it : CfgItem) → uncounted (in_turn score i m it) ≡ uncounted it
unfolding counted
uncounted-in_turn score i zero it = refl
uncounted-in_turn score i (suc m) it = uncounted-in_turn score i m it

questions-in_turn :
    (score : ℕ → ℕ → ℕ) (i m : ℕ) (it : CfgItem)
    → AreCounts it
    → (in_turn score i m it).questions ≡ (it.questions + m) % u32_mod
unfolding counted
questions-in_turn score i zero it small = omega (arith, small)
questions-in_turn score i (suc m) it small = omega (arith, questions-in_turn score i m it small)

positive-in_turn :
    (score : ℕ → ℕ → ℕ) (i m : ℕ) (it : CfgItem)
    → AreCounts it
    → (in_turn score i m it).positive ≡ (it.positive + found_among score i m) % u32_mod
unfolding counted
positive-in_turn score i zero it small = omega (arith, small)
positive-in_turn score i (suc m) it small = ground (arith, positive-in_turn score i m it small)

asked_among :
    (i n m : ℕ) (worker : ℕ → TallyPc)
    → i < n
    → ((w : ℕ) → w < m → worker w ≡ head n)
    → sum (λ w. asked_by i (worker w)) m ≡ m
asked_among i n zero worker l ended = refl
asked_among i n (suc m) worker l ended = ground (
  arith,
  asked_among i n m worker l (λ w k. ended w (omega (arith, k))),
  ended m (omega arith),
  l,
)

found-found_among :
    (score : ℕ → ℕ → ℕ) (i n m : ℕ) (worker : ℕ → TallyPc)
    → i < n
    → ((w : ℕ) → w < m → worker w ≡ head n)
    → sum (λ w. found_by (score w i) i (worker w)) m ≡ found_among score i m
found-found_among score i n zero worker l ended = refl
found-found_among score i n (suc m) worker l ended = ground (
  arith,
  found-found_among score i n m worker l (λ w k. ended w (omega (arith, k))),
  ended m (omega arith),
  l,
)

same_item :
    (x y : CfgItem)
    → uncounted x ≡ uncounted y
    → x.questions ≡ y.questions
    → x.positive ≡ y.positive
    → x ≡ y
same_item x y o q p = λ t. record (o t) { questions = q t; positive = p t }

-- When all workers have come to the ends of their loops, whatever their interleaving was, each entry
-- has the counters that it has when the workers run their loops one after another: no addition is
-- lost, and nothing else of the entry changes.
pub items-in_turn :
    {m n : ℕ} {score : ℕ → ℕ → ℕ} (items : ℕ → CfgItem) {q : Shared} (i : ℕ)
    → ((j : ℕ) → AreCounts (items j))
    → TallyRun m n score items q
    → ((w : ℕ) → w < m → q.worker w ≡ head n)
    → i < n
    → q.items i ≡ in_turn score i m (items i)
items-in_turn {m} {n} {score} items {q} i small r ended l =
    let inv = TallyRun-TallyInv items small r in
    same_item (q.items i) (in_turn score i m (items i))
      (inv.others i ∙ sym (uncounted-in_turn score i m (items i)))
      (omega (
        arith,
        inv.questions_sum i,
        asked_among i n m q.worker l ended,
        questions-in_turn score i m (items i) (small i),
      ))
      (omega (
        arith,
        inv.positive_sum i,
        found-found_among score i n m q.worker l ended,
        positive-in_turn score i m (items i) (small i),
      ))
