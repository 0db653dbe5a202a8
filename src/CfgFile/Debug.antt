-- ===== src/CfgFile/Debug.antt =====
-- cfgfile.c: `dbg`, from the text that `vsnprintf` makes of its arguments.
use rblpolicyd.Prelude.{
  ℕ, zero, suc, ◌≡◌, ◌≢◌, refl, Option, none, some, [], ◌∷◌, ◌++◌, Bytes, All, take, ◌==◌,
  if◌then◌else◌, false, Bool-cases, inl, inr, arith,
}
use rblpolicyd.CString.{c_string}

-- What is written to the log; `broken` is undefined behaviour.
pub data DebugOutput : Type 0 where
  quiet : DebugOutput
  line : Bytes → DebugOutput
  broken : DebugOutput

-- `syslog` with a format and no arguments; `none` is undefined behaviour.
abbrev Syslog : Type 0
Syslog = Bytes → Option Bytes

unfoldable pub output_of : Option Bytes → DebugOutput
output_of none = broken
output_of (some text) = line text

-- `vsnprintf` writes 4094 bytes at most, and what it wrote is the format.
unfoldable pub dbg : Syslog → (debug : ℕ) → Bytes → DebugOutput
dbg syslog debug text = if debug == 0 then quiet else output_of (syslog (take 4094 (c_string text)))

-- Documented of `syslog`: a format without `%` is written as it is; `%s` reads an argument, so that
-- behind a beginning without `%` it is undefined where there is none.
pub record Documented (syslog : Syslog) : Type 0 where
  pub plain : (s : Bytes) → All (λ c. c ≢ b'%') s → syslog s ≡ some s
  pub no_argument :
      (s rest : Bytes) → All (λ c. c ≢ b'%') s → syslog (s ++ b'%' ∷ b's' ∷ rest) ≡ none

All-take : (P : ℕ → Type 0) (n : ℕ) (s : Bytes) → All P s → All P (take n s)
All-take P zero s all = tt
All-take P (suc n) [] all = tt
All-take P (suc n) (c ∷ s) (h, all) = (h, All-take P n s all)

All-c_string : (P : ℕ → Type 0) (s : Bytes) → All P s → All P (c_string s)
unfolding c_string
All-c_string P [] all = tt
All-c_string P (c ∷ s) (h, all) = elim (Bool-cases (c == 0)) [
  | inl nul ↦ rw nul tt
  | inr other ↦ rw other (h, All-c_string P s all)
]

-- A text without `%` is written, its first 4094 bytes at most.
dbg-plain :
    (syslog : Syslog) (debug : ℕ) (text : Bytes)
    → Documented syslog
    → debug ≢ 0
    → All (λ c. c ≢ b'%') text
    → dbg syslog debug text ≡ line (take 4094 (c_string text))
unfolding dbg output_of
dbg-plain syslog debug text documented on all =
    let shown : (debug == 0) ≡ false = ground (arith, on) in
    let all_written =
      All-take (λ c. c ≢ b'%') 4094 (c_string text) (All-c_string (λ c. c ≢ b'%') text all) in
    rw (shown, documented.plain (take 4094 (c_string text)) all_written) refl

-- A text in which `%s` is the first `%`, within 4094 bytes, is undefined behaviour: it is taken as a
-- format.
dbg-percent :
    (syslog : Syslog) (debug : ℕ) (text s rest : Bytes)
    → Documented syslog
    → debug ≢ 0
    → take 4094 (c_string text) ≡ s ++ b'%' ∷ b's' ∷ rest
    → All (λ c. c ≢ b'%') s
    → dbg syslog debug text ≡ broken
unfolding dbg output_of
dbg-percent syslog debug text s rest documented on is all =
    let shown : (debug == 0) ≡ false = ground (arith, on) in
    rw (shown, is, documented.no_argument s rest all) refl
