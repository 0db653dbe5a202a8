-- ===== src/Stats/Average.antt =====
-- `ring_average`, and the parts of a running time.
use rblpolicyd.Prelude.{ℕ, zero, suc, ◌+◌, ◌*◌, ◌/◌, ◌%◌, ◌^◌, ◌≤◌, ◌<◌, ◌≡◌, arith}
use native.Mathlib.Nat.{suc-mul, le_refl, mul-le-mul, le-div_iff_mul-le, div-le_of_le-mul, mul_comm}
use rblpolicyd.Stats.{Ring, ull_mod, widened, sum_loop, ring_average, split}

-- The parts of a running time are in their ranges and add up to it.
pub split_lem :
    (s : ℕ)
    → let t = split s in
      (t.weeks * 604800 + t.days * 86400 + t.hours * 3600 + t.minutes * 60 + t.seconds ≡ s)
      × (t.days < 7)
      × (t.hours < 24)
      × (t.minutes < 60)
      × (t.seconds < 60)
unfolding split
split_lem s = omega arith

sum_loop-between :
    (n : ℕ) (val : ℕ → ℕ) (i sum low high : ℕ)
    → ((j : ℕ) → i ≤ j → j < i + n → (low ≤ val j) × (val j ≤ high))
    → high < 2 ^ 31
    → sum + n * high < ull_mod
    → (sum + n * low ≤ sum_loop n val i sum) × (sum_loop n val i sum ≤ sum + n * high)
unfolding sum_loop widened
sum_loop-between zero val i sum low high vals small fits = omega arith
sum_loop-between (suc n) val i sum low high vals small fits =
    let (l, u) = vals i (omega arith) (omega arith) in
    let step : (sum + widened (val i)) % ull_mod ≡ sum + val i = ground (arith, suc-mul n high) in
    let (lows, highs) =
      sum_loop-between n val (suc i) ((sum + widened (val i)) % ull_mod) low high
        (λ j a b. vals j (omega (arith, a)) (omega (arith, b))) small
        (omega (arith, step, suc-mul n high, u)) in
    (omega (arith, lows, step, suc-mul n low, l), omega (arith, highs, step, suc-mul n high, u))

-- Where the durations of a ring of up to 16 lie between `low` and `high`, and `high` is no negative
-- `int`, the average lies between them too. That of an empty ring is 0.
ring_average-between :
    (r : Ring) (low high : ℕ)
    → r.count ≤ 16
    → high < 2 ^ 31
    → ((j : ℕ) → j < r.count → (low ≤ r.val j) × (r.val j ≤ high))
    → (0 < r.count → (low ≤ ring_average r) × (ring_average r ≤ high))
      × (r.count ≡ 0 → ring_average r ≡ 0)
unfolding ring_average
ring_average-between r low high room small vals = (
  λ some_there.
      let (l, u) =
        sum_loop-between r.count r.val 0 0 low high (λ j a b. vals j (omega (arith, b))) small
          (omega (arith, mul-le-mul room (le_refl high), small)) in
      let lq : low ≤ sum_loop r.count r.val 0 0 / r.count =
        (le-div_iff_mul-le some_there).1 (omega (arith, l, mul_comm low r.count)) in
      let uq : sum_loop r.count r.val 0 0 / r.count ≤ high =
        div-le_of_le-mul r.count {n = high} (omega (arith, u)) in
      ground (arith, lq, uq, small),
  λ z. ground arith,
)
