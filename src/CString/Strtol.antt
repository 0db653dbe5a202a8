-- ===== src/CString/Strtol.antt =====
-- `strtol(s, &end, 0)`: white space, a sign, a prefix that chooses the base, digits; out of range it
-- returns LONG_MAX or LONG_MIN. With no digits it returns 0 and `end` is `s`.
use rblpolicyd.Prelude.{
  ℕ, ◌+◌, ◌-◌, ◌*◌, ◌^◌, ◌&&◌, ◌||◌, Bool, true, false, Option, none, some, [], ◌∷◌, Bytes, min,
  ltb, leb, ◌==◌, if◌then◌else◌,
}
use rblpolicyd.Prelude.Int.{ℤ, pos, sub_ℕ}
use rblpolicyd.CString.{drop_space}

abbrev pub within : ℕ → ℕ → ℕ → Bool
within lo hi c = leb lo c && leb c hi

-- 36 for a character that is a digit in no base.
unfoldable pub digit_value : ℕ → ℕ
digit_value c =
    if within b'0' b'9' c
    then c - b'0'
    else if within b'a' b'z' c
    then c - b'a' + 10
    else if within b'A' b'Z' c
    then c - b'A' + 10
    else 36

unfoldable pub scan_digits : ℕ → ℕ → Bytes → ℕ × Bytes
scan_digits base n [] = (n, [])
scan_digits base n (c ∷ cs) =
    let rest = scan_digits base (n * base + digit_value c) cs in
    if ltb (digit_value c) base then rest else (n, c ∷ cs)

abbrev has_hex_prefix : Bytes → Bool
has_hex_prefix (z ∷ x ∷ d ∷ _) = z == b'0' && (x == b'x' || x == b'X') && ltb (digit_value d) 16
has_hex_prefix _ = false

abbrev behind_two : Bytes → Bytes
behind_two (_ ∷ _ ∷ s) = s
behind_two s = s

-- `none` if no digit stands here
unfoldable pub scan_unsigned : Bytes → Option (ℕ × Bytes)
scan_unsigned [] = none
scan_unsigned (c ∷ cs) =
    if has_hex_prefix (c ∷ cs)
    then some (scan_digits 16 0 (behind_two (c ∷ cs)))
    else if c == b'0'
    then some (scan_digits 8 0 (c ∷ cs))
    else if ltb (digit_value c) 10
    then some (scan_digits 10 0 (c ∷ cs))
    else none

abbrev pub long_max : ℕ
long_max = 2 ^ 63 - 1

unfoldable pub signed : Bool → ℕ → ℤ
signed negative n = if negative then sub_ℕ 0 (min n (long_max + 1)) else pos (min n long_max)

-- the number and the text behind it
unfoldable pub convert : Bytes → Bool → Option (ℕ × Bytes) → ℤ × Bytes
convert s negative none = (pos 0, s)
convert s negative (some (n, end)) = (signed negative n, end)

unfoldable pub strtol_sign : Bytes → Bytes → ℤ × Bytes
strtol_sign s [] = (pos 0, s)
strtol_sign s (c ∷ cs) =
    if c == b'-'
    then convert s true (scan_unsigned cs)
    else if c == b'+'
    then convert s false (scan_unsigned cs)
    else convert s false (scan_unsigned (c ∷ cs))

unfoldable pub strtol : Bytes → ℤ × Bytes
strtol s = strtol_sign s (drop_space s)
