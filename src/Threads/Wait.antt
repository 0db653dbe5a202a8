-- ===== src/Threads/Wait.antt =====
-- `thr_waitcomplete`, and the messages for the codes.
use rblpolicyd.Prelude.{
  ℕ, zero, suc, refl, ◌⊎◌, ◌+◌, ◌-◌, ◌≤◌, ◌<◌, ◌≡◌, ◌≢◌, ap, ◌↔◌, ◌==◌, true, false, Bool-cases,
  inl, inr, arith,
}
use rblpolicyd.Globals.{AppState, app_run, app_reload, app_exit, app_error, is_exit}
use rblpolicyd.Threads.{Look, must_wait, wait_rounds}

-- `r` of `err` rounds are left, from the look `k` on: each look before the end makes the loop wait,
-- and where rounds are left the look at the end does not.
abbrev pub Stopped : (ℕ → Look) → ℕ → ℕ → ℕ → Type 0
Stopped look k err r =
    (r ≤ err)
    × ((i : ℕ) → k ≤ i → i + r < k + err → must_wait (look i) ≡ true)
    × ((i : ℕ) → 0 < r → i + r ≡ k + err → must_wait (look i) ≡ false)

here-or_later :
    (look : ℕ → Look) (k i : ℕ)
    → must_wait (look k) ≡ true
    → k ≤ i
    → (suc k ≤ i → must_wait (look i) ≡ true)
    → must_wait (look i) ≡ true
here-or_later look k i here le later = elim (Bool-cases (i == k)) [
  | inl same ↦ let e : i ≡ k = ground arith in rw e here
  | inr other ↦ later (ground arith)
]

wait_rounds-Stopped :
    (err : ℕ) (look : ℕ → Look) (k : ℕ) → Stopped look k err (wait_rounds err look k)
unfolding wait_rounds
wait_rounds-Stopped zero look k = ground arith
wait_rounds-Stopped (suc err) look k = elim (Bool-cases (must_wait (look k))) [
  | inl more ↦
      let (le, before, end) = wait_rounds-Stopped err look (suc k) in
      rw more (
        omega (arith, le),
        λ i l m. here-or_later look k i more l (λ l'. before i l' (omega (arith, m))),
        λ i p e. end i p (omega (arith, e)),
      )
  | inr stop ↦ rw stop (
    omega arith,
    λ i l m. absurd (omega (arith, l, m)),
    λ i p e. let same : i ≡ k = omega (arith, e) in rw same stop,
  )
]

none_left :
    (look : ℕ → Look) {r : ℕ}
    → Stopped look 0 400 r
    → ((i : ℕ) → i < 400 → must_wait (look i) ≡ true)
    → r ≡ 0
none_left look {r} (le, before, end) all = elim (Bool-cases (r == 0)) [
  | inl z ↦ ground arith
  | inr left ↦
      let stop = end (400 - r) (ground arith) (omega (arith, le)) in
      let more = all (400 - r) (ground arith) in absurd (ground (stop, more, arith))
]

pub rounds-Stopped :
    (look : ℕ → Look)
    → Stopped look 0 400 (wait_rounds 400 look 0)
      × ((wait_rounds 400 look 0 ≡ 0) ↔ ((i : ℕ) → i < 400 → must_wait (look i) ≡ true))
rounds-Stopped look =
    let (le, before, end) = wait_rounds-Stopped 400 look 0 in
    (
      (le, before, end),
      (
        λ z i l. before i (omega arith) (omega (arith, z, l)),
        λ all. none_left look (le, before, end) all,
      ),
    )

-- A worker is there and no shutdown has begun; or not.
abbrev pub IsBusy : Look → Type 0
IsBusy l = (l.nthreads ≢ 0) × (l.appstate ≢ app_exit)

abbrev pub IsIdle : Look → Type 0
IsIdle l = (l.nthreads ≡ 0) ⊎ (l.appstate ≡ app_exit)

is_exit_iff : (a : AppState) → (is_exit a ≡ true) ↔ (a ≡ app_exit)
unfolding is_exit
is_exit_iff app_run = ((λ e. ground (arith, e)), λ e. ap is_exit e)
is_exit_iff app_reload = ((λ e. ground (arith, e)), λ e. ap is_exit e)
is_exit_iff app_exit = ((λ e. refl), λ e. refl)
is_exit_iff app_error = ((λ e. ground (arith, e)), λ e. ap is_exit e)

pub must_wait_iff : (l : Look) → (must_wait l ≡ true) ↔ IsBusy l
unfolding must_wait
must_wait_iff l = (
  λ e. ((λ z. ground (arith, e, z)), λ x. ground (arith, e, (is_exit_iff l.appstate).1 x)),
  λ (n, x).
      let other : is_exit l.appstate ≡ false = elim (Bool-cases (is_exit l.appstate)) [
        | inl e ↦ absurd (x ((is_exit_iff l.appstate).0 e))
        | inr e ↦ e
      ] in
      ground (arith, n, other),
)

pub must_wait-IsIdle_iff : (l : Look) → (must_wait l ≡ false) ↔ IsIdle l
unfolding must_wait
must_wait-IsIdle_iff l = (
  λ e. elim (Bool-cases (is_exit l.appstate)) [
    | inl x ↦ inr ((is_exit_iff l.appstate).0 x)
    | inr x ↦ inl (ground (arith, e, x))
  ],
  λ h. elim h [ inl z ↦ ground (arith, z) | inr x ↦ ground (arith, (is_exit_iff l.appstate).1 x) ],
)

-- `r` of 400 rounds are left: each look before the end saw a worker and no shutdown, and where rounds
-- are left the look at the end did not.
pub record StopsAt (look : ℕ → Look) (r : ℕ) : Type 0 where
  pub few : r ≤ 400
  pub before : (i : ℕ) → i + r < 400 → IsBusy (look i)
  pub end : (i : ℕ) → 0 < r → i + r ≡ 400 → IsIdle (look i)
