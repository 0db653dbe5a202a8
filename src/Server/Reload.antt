-- ===== src/Server/Reload.antt =====
-- When a reload takes the new configuration.
use rblpolicyd.Prelude.{ℕ, ◌<◌, ◌≡◌, true, false, Bool-cases, inl, inr, ◌==◌, arith}
use rblpolicyd.Threads.{Look, must_wait, wait_rounds}
use rblpolicyd.Server.{Server}

abbrev Busy : (ℕ → Look) → Type 0
Busy look = (i : ℕ) → i < 400 → must_wait (look i) ≡ true

left :
    (look : ℕ → Look) (i : ℕ)
    → (wait_rounds 400 look 0 ≡ 0 → Busy look)
    → i < 400
    → must_wait (look i) ≡ false
    → (wait_rounds 400 look 0 == 0) ≡ false
left look i zero_if l e = elim (Bool-cases (wait_rounds 400 look 0 == 0)) [
  | inl z ↦ absurd (ground (zero_if (ground (z, arith)) i l, e, arith))
  | inr n ↦ n
]
