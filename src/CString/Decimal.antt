-- ===== src/CString/Decimal.antt =====
-- What `print` writes: digits alone, none of them superfluous, and the number is read back.
use native.Mathlib.Nat.{pow-suc}
use rblpolicyd.Prelude.{
  ℕ, zero, suc, ◌+◌, ◌-◌, ◌*◌, ◌/◌, ◌%◌, ◌^◌, ◌≤◌, ◌<◌, ◌≡◌, [], ◌∷◌, ◌++◌, Bytes, length, All,
  append-nil, arith,
}
use rblpolicyd.Prelude.Int.{pos}
use rblpolicyd.CString.{is_space, drop_space, print_loop, print}
use rblpolicyd.CString.Strtol.{
  digit_value, scan_digits, scan_unsigned, convert, strtol_sign, signed, strtol, long_max,
}

abbrev pub IsDigit : ℕ → Type 0
IsDigit c = (b'0' ≤ c) × (c ≤ b'9')

-- a text that begins with a digit other than 0
abbrev pub Leads : Bytes → Type 0
Leads [] = ⊥
Leads (c ∷ cs) = (b'1' ≤ c) × (c ≤ b'9')

print_loop-All :
    (fuel n : ℕ) (out : Bytes) → n < fuel → All IsDigit out → All IsDigit (print_loop fuel n out)
unfolding print_loop
print_loop-All zero n out h d = elim h [ ]
print_loop-All (suc fuel) n out h d =
    ground (arith, print_loop-All fuel (n / 10) ((b'0' + n % 10) ∷ out))

pub print-All : (n : ℕ) → All IsDigit (print n)
unfolding print
print-All n = print_loop-All (suc n) n [] (omega arith) tt

print_loop-Leads : (fuel n : ℕ) (out : Bytes) → n < fuel → 0 < n → Leads (print_loop fuel n out)
unfolding print_loop
print_loop-Leads zero n out h p = elim h [ ]
print_loop-Leads (suc fuel) n out h p =
    ground (arith, print_loop-Leads fuel (n / 10) ((b'0' + n % 10) ∷ out))

pub print-Leads : (n : ℕ) → 0 < n → Leads (print n)
unfolding print
print-Leads n = print_loop-Leads (suc n) n [] (omega arith)

pub scan_digit :
    (a c : ℕ) (cs : Bytes)
    → IsDigit c
    → scan_digits 10 a (c ∷ cs) ≡ scan_digits 10 (a * 10 + (c - b'0')) cs
unfolding scan_digits digit_value
scan_digit a c cs d = ground arith

scan_digits-print_loop :
    (fuel n : ℕ) (out rest : Bytes)
    → n < fuel
    → scan_digits 10 0 (print_loop fuel n out ++ rest) ≡ scan_digits 10 n (out ++ rest)
unfolding print_loop
scan_digits-print_loop zero n out rest h = elim h [ ]
scan_digits-print_loop (suc fuel) n out rest h = ground (
  arith,
  scan_digits-print_loop fuel (n / 10) ((b'0' + n % 10) ∷ out) rest,
  scan_digit 0 (b'0' + n % 10) (out ++ rest),
  scan_digit (n / 10) (b'0' + n % 10) (out ++ rest),
)

-- Reading what was printed gives the number back, and goes on behind it.
pub scan_digits-print :
    (n : ℕ) (rest : Bytes) → scan_digits 10 0 (print n ++ rest) ≡ scan_digits 10 n rest
unfolding print
scan_digits-print n rest = scan_digits-print_loop (suc n) n [] rest (omega arith)

length-print_loop :
    (fuel n k : ℕ) (out : Bytes)
    → n < 10 ^ suc k
    → length (print_loop fuel n out) ≤ suc k + length out
unfolding print_loop
length-print_loop zero n k out h = omega arith
length-print_loop (suc fuel) n zero out h = ground (arith, pow-suc 10 0)
length-print_loop (suc fuel) n (suc k) out h =
    ground (arith, pow-suc 10 (suc k), length-print_loop fuel (n / 10) k ((b'0' + n % 10) ∷ out))

-- A number below 10 ^ k has at most k digits (one, if k is 0).
pub length-print : (n k : ℕ) → n < 10 ^ suc k → length (print n) ≤ suc k
unfolding print
length-print n k h = omega (arith, length-print_loop (suc n) n k [] h)

-- Base 0 reads a decimal print as decimal, since it does not begin with 0.
strtol-Leads :
    (s : Bytes) (n : ℕ)
    → Leads s
    → n ≤ long_max
    → scan_digits 10 0 s ≡ (n, [])
    → strtol s ≡ (pos n, [])
unfolding strtol strtol_sign convert signed scan_unsigned is_space digit_value drop_space
strtol-Leads [] n l m e = elim l [ ]
strtol-Leads (c ∷ []) n l m e = ground arith
strtol-Leads (c ∷ d ∷ []) n l m e = ground arith
strtol-Leads (c ∷ d ∷ f ∷ s) n l m e = ground arith

pub strtol-print : (n : ℕ) → 0 < n → n ≤ long_max → strtol (print n) ≡ (pos n, [])
unfolding scan_digits
strtol-print n p m =
    strtol-Leads (print n) n (print-Leads n p) m
      (rw (append-nil (print n)) at (scan_digits-print n []))
