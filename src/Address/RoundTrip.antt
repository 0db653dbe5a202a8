-- ===== src/Address/RoundTrip.antt =====
-- An address as `inet_ntop` writes it is read back, turned round and recognised.
use native.Mathlib.Decide.{dec_lt}
use rblpolicyd.Prelude.{
  ℕ, zero, suc, ◌+◌, ◌/◌, ◌%◌, ◌≤◌, ◌<◌, ◌≡◌, refl, ◌∙◌, ◌↔◌, true, [], ◌∷◌, ◌++◌, Bytes, codes,
  take, append-nil, arith,
}
use rblpolicyd.Prelude.Int.{pos}
use rblpolicyd.CString.{is_space, drop_space, print_loop, print}
use rblpolicyd.CString.Decimal.{IsDigit, scan_digits-print}
use rblpolicyd.CString.Strtol.{digit_value, scan_digits}
use rblpolicyd.Request.{equal}
use rblpolicyd.Address.{
  done, int_max, fit_int, scan_magnitude, scan_sign, scan_int, scan_dot, Octets, octets,
  scan_address, print_int, reverse_name, InAddr, inet_ntop, is_listed,
}

-- a text that begins with a digit
abbrev Digit : Bytes → Type 0
Digit [] = ⊥
Digit (c ∷ cs) = IsDigit c

print_loop-Digit : (fuel n : ℕ) (out : Bytes) → Digit (print_loop (suc fuel) n out)
unfolding print_loop
print_loop-Digit zero n out = ground arith
print_loop-Digit (suc fuel) n out =
    ground (arith, print_loop-Digit fuel (n / 10) ((b'0' + n % 10) ∷ out))

print-Digit : (n : ℕ) → Digit (print n)
unfolding print
print-Digit n = print_loop-Digit n n []

scan_int-Digit :
    (s rest : Bytes) (n : ℕ)
    → Digit s
    → n ≤ int_max
    → scan_digits 10 0 (s ++ rest) ≡ (n, rest)
    → scan_int (s ++ rest) ≡ done (pos n, rest)
unfolding scan_int scan_sign scan_magnitude fit_int drop_space is_space
scan_int-Digit [] rest n h m e = elim h [ ]
scan_int-Digit (c ∷ s) rest n h m e = ground arith

-- a text on which no number goes on
abbrev Stops : Bytes → Type 0
Stops [] = Unit
Stops (c ∷ cs) = c ≡ b'.'

scan_digits-Stops : (n : ℕ) (rest : Bytes) → Stops rest → scan_digits 10 n rest ≡ (n, rest)
unfolding scan_digits digit_value
scan_digits-Stops n [] h = refl
scan_digits-Stops n (c ∷ rest) h = ground arith

scan_int-print :
    (n : ℕ) (rest : Bytes)
    → n ≤ int_max
    → Stops rest
    → scan_int (print n ++ rest) ≡ done (pos n, rest)
scan_int-print n rest m h =
    scan_int-Digit (print n) rest n (print-Digit n) m
      (scan_digits-print n rest ∙ scan_digits-Stops n rest h)

scan_dot_lem : (s : Bytes) → scan_dot (b'.' ∷ s) ≡ done s
unfolding scan_dot
scan_dot_lem s = refl

record FitsInt (a : InAddr) : Type 0 where
  fit1 : a.b1 ≤ int_max
  fit2 : a.b2 ≤ int_max
  fit3 : a.b3 ≤ int_max
  fit4 : a.b4 ≤ int_max

scan_address-inet_ntop :
    (a : InAddr)
    → FitsInt a
    → scan_address (inet_ntop a) ≡ done (octets (pos a.b1) (pos a.b2) (pos a.b3) (pos a.b4))
unfolding scan_address inet_ntop
scan_address-inet_ntop a h = rw (scan_int-print a.b1 _ h.fit1 refl) (
    rw scan_dot_lem (
      rw (scan_int-print a.b2 _ h.fit2 refl) (
        rw scan_dot_lem (
          rw (scan_int-print a.b3 _ h.fit3 refl) (
            rw scan_dot_lem
              (rw (← (append-nil (print a.b4))) (rw (scan_int-print a.b4 [] h.fit4 tt))))))))

-- the address with its bytes in the other order
abbrev pub reversed : InAddr → InAddr
reversed a = record { b1 = a.b4; b2 = a.b3; b3 = a.b2; b4 = a.b1 }

reverse_name-inet_ntop :
    (a : InAddr)
    → reverse_name (octets (pos a.b1) (pos a.b2) (pos a.b3) (pos a.b4)) ≡ inet_ntop (reversed a)
unfolding reverse_name inet_ntop print_int
reverse_name-inet_ntop a = refl

pub record IsInAddr (a : InAddr) : Type 0 where
  pub byte1 : a.b1 < 256
  pub byte2 : a.b2 < 256
  pub byte3 : a.b3 < 256
  pub byte4 : a.b4 < 256

-- The text of an address of four bytes is read by `sscanf`, and the name that is built from it is the
-- text of the address with its bytes in the other order, as blacklists want it.
pub reverse_name-scan_address :
    (a : InAddr)
    → IsInAddr a
    → (o : Octets) × (scan_address (inet_ntop a) ≡ done o)
      × (reverse_name o ≡ inet_ntop (reversed a))
reverse_name-scan_address a h = (
  octets (pos a.b1) (pos a.b2) (pos a.b3) (pos a.b4),
  scan_address-inet_ntop a (omega arith),
  reverse_name-inet_ntop a,
)

print-short : (n : ℕ) → n < 10 → print n ≡ (b'0' + n) ∷ []
unfolding print print_loop
print-short n h = ground arith

print-two : (n : ℕ) → 10 ≤ n → n < 100 → print n ≡ (b'0' + n / 10) ∷ (b'0' + n % 10) ∷ []
unfolding print print_loop
print-two zero lo hi = elim lo [ ]
print-two (suc n) lo hi = ground arith

print-three :
    (n : ℕ)
    → 100 ≤ n
    → n < 1000
    → print n ≡ (b'0' + n / 100) ∷ (b'0' + n / 10 % 10) ∷ (b'0' + n % 10) ∷ []
unfolding print print_loop
print-three zero lo hi = elim lo [ ]
print-three (suc zero) lo hi = absurd (omega arith)
print-three (suc (suc n)) lo hi = ground arith

-- the three lengths of the first number
starts_127 :
    (n : ℕ) (s : Bytes)
    → n < 256
    → (equal (take 4 (print n ++ (b'.' ∷ s))) (codes "127.") ≡ true) ↔ (n ≡ 127)
unfolding equal
starts_127 n s h = elim (dec_lt n 10) [
  | yes short ↦ rw (print-short n short) (λ e. ground arith, λ e. absurd (omega arith))
  | no long ↦ elim (dec_lt n 100) [
    | yes two ↦ rw (print-two n (omega arith) two) (λ e. ground arith, λ e. absurd (omega arith))
    | no three ↦
        rw (print-three n (omega arith) (omega arith)) (λ e. ground arith, λ e. ground arith)
  ]
]

-- An answer counts exactly when it lies in 127.0.0.0/8.
pub is_listed_iff : (a : InAddr) → IsInAddr a → (is_listed a ≡ true) ↔ (a.b1 ≡ 127)
unfolding is_listed inet_ntop
is_listed_iff a h = starts_127 a.b1 _ h.byte1
