-- ===== src/Address/Bounds.antt =====
-- The reversed address fits the buffer that is as long as the client's text.
use native.Mathlib.Nat.{pow-suc}
use rblpolicyd.Prelude.{
  ℕ, zero, suc, ◌+◌, ◌*◌, ◌^◌, ◌≤◌, ◌<◌, ◌≡◌, refl, Bool, true, false, [], ◌∷◌, ◌++◌, Bytes, length,
  length-append, ltb, Bool-cases, inl, inr, arith,
}
use rblpolicyd.Prelude.Int.{ℤ, sub_ℕ}
use rblpolicyd.CString.{is_digit, drop_space, print}
use rblpolicyd.CString.Decimal.{length-print}
use rblpolicyd.CString.Space.{length-drop_space}
use rblpolicyd.CString.Strtol.{digit_value, scan_digits}
use rblpolicyd.Address.{
  done, >>=-eq-done, fit_int, scan_magnitude, scan_sign, scan_int, scan_dot, Octets, octets,
  scan_address, print_int, reverse_name,
}

-- `k` digits were read, and they spell `m` behind `n`.
scan_digits-lt :
    (n : ℕ) (s : Bytes)
    → (k : ℕ) × (length s ≡ k + length (scan_digits 10 n s).1)
      × ((scan_digits 10 n s).0 < (n + 1) * 10 ^ k)
unfolding scan_digits
scan_digits-lt n [] = (0, refl, omega arith)
scan_digits-lt n (c ∷ cs) = elim (Bool-cases (ltb (digit_value c) 10)) [
  | inl digit ↦
      let (k, e, bound) = scan_digits-lt (n * 10 + digit_value c) cs in
      (
        suc k,
        rw digit (omega arith),
        rw digit (step k (scan_digits 10 (n * 10 + digit_value c) cs).0 bound (ground arith)),
      )
  | inr other ↦ (0, rw other (omega arith), rw other (omega arith))
]
  where
    step :
        (k m : ℕ)
        → m < (n * 10 + digit_value c + 1) * 10 ^ k
        → digit_value c < 10
        → m < (n + 1) * 10 ^ suc k
    step k m bound d = rw pow-suc (grind arith)

scan_digits-first :
    (c : ℕ) (cs : Bytes)
    → is_digit c ≡ true
    → (digit_value c < 10) × (scan_digits 10 0 (c ∷ cs) ≡ scan_digits 10 (digit_value c) cs)
unfolding scan_digits digit_value
scan_digits-first c cs h = (ground arith, ground arith)

-- A number that was read prints in no more bytes than it took.
length-print-scan_digits :
    (c : ℕ) (cs : Bytes)
    → is_digit c ≡ true
    → length (print (scan_digits 10 0 (c ∷ cs)).0) + length (scan_digits 10 0 (c ∷ cs)).1
      ≤ suc (length cs)
length-print-scan_digits c cs h =
    let (d, e) = scan_digits-first c cs h in
    let (k, n, bound) = scan_digits-lt (digit_value c) cs in
    let r = scan_digits 10 (digit_value c) cs in
    let below : r.0 < 10 ^ suc k = rw pow-suc (grind arith) in
    rw e (omega (arith, length-print r.0 k below))

abbrev sign_length : Bool → ℕ
sign_length true = 1
sign_length false = 0

print-sub : (n : ℕ) → length (print_int (sub_ℕ 0 n)) ≤ suc (length (print n))
unfolding print_int
print-sub zero = omega arith
print-sub (suc n) = ground arith

fit_int-length :
    (negative : Bool) (r : ℕ × Bytes) {z : ℤ} {rest : Bytes}
    → fit_int negative r ≡ done (z, rest)
    → length (print_int z) + length rest ≤ length (print r.0) + length r.1 + sign_length negative
unfolding fit_int
fit_int-length true (n, t) e = ground (arith, print-sub n)
fit_int-length false (n, t) e = unfold print_int in ground arith

scan_magnitude-length :
    (negative : Bool) (s : Bytes) {z : ℤ} {rest : Bytes}
    → scan_magnitude negative s ≡ done (z, rest)
    → length (print_int z) + length rest ≤ length s + sign_length negative
unfolding scan_magnitude
scan_magnitude-length negative [] e = cc
scan_magnitude-length negative (c ∷ cs) e = elim (Bool-cases (is_digit c)) [
  | inl h ↦
      let fits = fit_int-length negative (scan_digits 10 0 (c ∷ cs)) (rw h at e) in
      omega (arith, length-print-scan_digits c cs h, fits)
  | inr h ↦ cc (rw h at e)
]

scan_sign-length :
    (s : Bytes) {z : ℤ} {rest : Bytes}
    → scan_sign s ≡ done (z, rest)
    → length (print_int z) + length rest ≤ length s
unfolding scan_sign
scan_sign-length [] e = cc
scan_sign-length (c ∷ cs) {z} {rest} e = ground (
  arith,
  scan_magnitude-length true cs {z = z} {rest = rest},
  scan_magnitude-length false cs {z = z} {rest = rest},
  scan_magnitude-length false (c ∷ cs) {z = z} {rest = rest},
)

scan_int-length :
    (s : Bytes) {z : ℤ} {rest : Bytes}
    → scan_int s ≡ done (z, rest)
    → length (print_int z) + length rest ≤ length s
unfolding scan_int
scan_int-length s e = omega (arith, length-drop_space s, scan_sign-length (drop_space s) e)

scan_dot-length : (s : Bytes) {t : Bytes} → scan_dot s ≡ done t → length s ≡ suc (length t)
unfolding scan_dot
scan_dot-length [] e = cc
scan_dot-length (c ∷ cs) e = ground arith

done-injective : {o o' : Octets} → done o ≡ done o' → o ≡ o'
done-injective e = cc

-- four numbers and three dots
length-reverse_name_sum :
    (a b c d : ℤ)
    → length (reverse_name (octets a b c d))
      ≡ length (print_int a)
        + length (print_int b)
        + length (print_int c)
        + length (print_int d)
        + 3
unfolding reverse_name
length-reverse_name_sum a b c d = omega (
  arith,
  length-append (print_int d)
      (b'.' ∷ (print_int c ++ (b'.' ∷ (print_int b ++ (b'.' ∷ print_int a))))),
  length-append (print_int c) (b'.' ∷ (print_int b ++ (b'.' ∷ print_int a))),
  length-append (print_int b) (b'.' ∷ print_int a),
)

-- `sprintf(rdn, ...)` stays inside the buffer of `strlen(client) + 1` bytes: wherever `sscanf` reads
-- four numbers that an `int` holds, the reversed text is no longer than the client's, so that its NUL
-- fits too.
pub length-reverse_name :
    (client : Bytes) {o : Octets}
    → scan_address client ≡ done o
    → length (reverse_name o) + 1 ≤ length client + 1
unfolding scan_address
length-reverse_name client e =
    let ((a, s1), e1, k1) = >>=-eq-done (scan_int client) _ e in
    let (s2, e2, k2) = >>=-eq-done (scan_dot s1) _ k1 in
    let ((b, s3), e3, k3) = >>=-eq-done (scan_int s2) _ k2 in
    let (s4, e4, k4) = >>=-eq-done (scan_dot s3) _ k3 in
    let ((c, s5), e5, k5) = >>=-eq-done (scan_int s4) _ k4 in
    let (s6, e6, k6) = >>=-eq-done (scan_dot s5) _ k5 in
    let ((d, s7), e7, k7) = >>=-eq-done (scan_int s6) _ k6 in
    rw (← done-injective k7) (
      omega (
        arith,
        length-reverse_name_sum a b c d,
        scan_int-length client e1,
        scan_dot-length s1 e2,
        scan_int-length s2 e3,
        scan_dot-length s3 e4,
        scan_int-length s4 e5,
        scan_dot-length s5 e6,
        scan_int-length s6 e7,
      ))
