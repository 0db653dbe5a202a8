-- ===== src/CString.antt =====
-- What the C library does for the program with characters and numbers in text: `isspace` in the C
-- locale, `%d` for a number that is not negative, and `strtol` with base 0.
pub mod Decimal
pub mod Space
pub mod Strtol
use rblpolicyd.Prelude.{
  ℕ, zero, suc, ◌+◌, ◌/◌, ◌%◌, Bool, ◌&&◌, ◌||◌, [], ◌∷◌, Bytes, leb, ◌==◌, if◌then◌else◌,
}

unfoldable pub is_space : ℕ → Bool
is_space c = c == b' ' || (leb b'\t' c && leb c b'\r')

abbrev pub is_digit : ℕ → Bool
is_digit c = leb b'0' c && leb c b'9'

-- `while (isspace(*x)) x++`
unfoldable pub drop_space : Bytes → Bytes
drop_space [] = []
drop_space (c ∷ cs) = if is_space c then drop_space cs else c ∷ cs

-- The text up to the first NUL.
unfoldable pub c_string : Bytes → Bytes
c_string [] = []
c_string (c ∷ cs) = if c == 0 then [] else c ∷ c_string cs

-- Each round writes the last digit in front of the digits behind it.
unfoldable pub print_loop : ℕ → ℕ → Bytes → Bytes
print_loop zero n out = out
print_loop (suc fuel) n out =
    let rest = print_loop fuel (n / 10) ((b'0' + n % 10) ∷ out) in
    if n / 10 == 0 then (b'0' + n % 10) ∷ out else rest

-- A number has at most as many digits as its value plus one.
unfoldable pub print : ℕ → Bytes
print n = print_loop (suc n) n []
