-- ===== src/Protocol/Family.antt =====
-- Families of values, one for each thread: a change at one index, and sums.
use rblpolicyd.Prelude.{
  ℕ, zero, suc, ◌+◌, ◌≤◌, ◌<◌, ◌≡◌, refl, ◌≢◌, ◌==◌, if◌then◌else◌, arith, Bool-cases, inl, inr,
}

module _ {ℓ} {A : Type ℓ} where
  abbrev pub update : (ℕ → A) → ℕ → A → ℕ → A
  update f i x j = if j == i then x else f j

  abbrev pub total : (A → ℕ) → ℕ → (ℕ → A) → ℕ
  total w zero f = 0
  total w (suc n) f = total w n f + w (f n)

  total-update_ge :
      (w : A → ℕ) (n : ℕ) (f : ℕ → A) (i : ℕ) (x : A)
      → n ≤ i
      → total w n (update f i x) ≡ total w n f
  total-update_ge w zero f i x le = refl
  total-update_ge w (suc n) f i x le = ground (arith, total-update_ge w n f i x)

  -- A change at one index changes the sum by what the value there counts.
  pub total-update :
      (w : A → ℕ) (n : ℕ) (f : ℕ → A) (i : ℕ) (x : A)
      → i < n
      → total w n (update f i x) + w (f i) ≡ total w n f + w x
  total-update w zero f i x lt = absurd (omega (arith, lt))
  total-update w (suc n) f i x lt =
      ground (arith, total-update w n f i x, total-update_ge w n f i x)

  pub total-zero : (w : A → ℕ) (n : ℕ) (f : ℕ → A) → total w n f ≡ 0 → (i : ℕ) → i < n → w (f i) ≡ 0
  total-zero w zero f z i lt = absurd (omega (arith, lt))
  total-zero w (suc n) f z i lt = ground (arith, total-zero w n f (omega (arith, z)) i)

  pub total-le : (w : A → ℕ) → ((x : A) → w x ≤ 1) → (n : ℕ) (f : ℕ → A) → total w n f ≤ n
  total-le w one zero f = omega arith
  total-le w one (suc n) f = omega (arith, total-le w one n f, one (f n))

  -- A sum that is not 0 has a summand that is not.
  pub total-pos :
      (w : A → ℕ) (n : ℕ) (f : ℕ → A) → total w n f ≢ 0 → (i : ℕ) × (i < n) × (w (f i) ≢ 0)
  total-pos w zero f ne = absurd (ne refl)
  total-pos w (suc n) f ne = elim (Bool-cases (w (f n) == 0)) [
    | inl z ↦ let (i, l, p) = total-pos w n f (ground (arith, z, ne)) in (i, omega (arith, l), p)
    | inr p ↦ (n, omega arith, ground (arith, p))
  ]
