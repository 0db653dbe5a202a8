-- ===== src/Address.antt =====
-- The client's address in worker.c: `sscanf(client, "%d.%d.%d.%d", ...)`, the `sprintf` that turns it
-- round, and what `inet_ntop` writes for the answers. server.c does the same.
pub mod Bounds
pub mod RoundTrip
use rblpolicyd.Prelude.{
  length, ltb, ℕ, ◌+◌, ◌-◌, ◌^◌, Bool, true, false, [], ◌∷◌, ◌++◌, Bytes, codes, take, leb, ◌==◌,
  if◌then◌else◌, suc, ◌≡◌, refl,
}
use rblpolicyd.Prelude.Int.{ℤ, pos, negsuc, sub_ℕ}
use rblpolicyd.CString.{is_digit, drop_space, print}
use rblpolicyd.CString.Strtol.{scan_digits}
use rblpolicyd.Request.{equal}

-- A conversion fails where the text does not match. C leaves it undefined what happens where the
-- number does not fit an `int`.
pub data Scanned (A : Type 0) : Type 0 where
  done : A → Scanned A
  mismatch : Scanned A
  undefined : Scanned A

infixl 5 ◌>>=◌
abbrev ◌>>=◌ : {A B : Type 0} → Scanned A → (A → Scanned B) → Scanned B
done a >>= f = f a
mismatch >>= f = mismatch
undefined >>= f = undefined

pub >>=-eq-done :
    {A B : Type 0} (m : Scanned A) (f : A → Scanned B) {b : B}
    → (m >>= f) ≡ done b
    → (a : A) × (m ≡ done a) × (f a ≡ done b)
>>=-eq-done (done a) f e = (a, refl, e)
>>=-eq-done mismatch f e = cc
>>=-eq-done undefined f e = cc

abbrev pub int_max : ℕ
int_max = 2 ^ 31 - 1

unfoldable pub fit_int : Bool → ℕ × Bytes → Scanned (ℤ × Bytes)
fit_int true (n, rest) = if leb n (int_max + 1) then done (sub_ℕ 0 n, rest) else undefined
fit_int false (n, rest) = if leb n int_max then done (pos n, rest) else undefined

-- one digit at least
unfoldable pub scan_magnitude : Bool → Bytes → Scanned (ℤ × Bytes)
scan_magnitude negative [] = mismatch
scan_magnitude negative (c ∷ cs) =
    if is_digit c then fit_int negative (scan_digits 10 0 (c ∷ cs)) else mismatch

unfoldable pub scan_sign : Bytes → Scanned (ℤ × Bytes)
scan_sign [] = mismatch
scan_sign (c ∷ cs) =
    if c == b'-'
    then scan_magnitude true cs
    else if c == b'+'
    then scan_magnitude false cs
    else scan_magnitude false (c ∷ cs)

-- `%d`
unfoldable pub scan_int : Bytes → Scanned (ℤ × Bytes)
scan_int s = scan_sign (drop_space s)

-- the `.` of the format
unfoldable pub scan_dot : Bytes → Scanned Bytes
scan_dot [] = mismatch
scan_dot (c ∷ cs) = if c == b'.' then done cs else mismatch

pub record Octets : Type 0 where
  pub o1 : ℤ
  pub o2 : ℤ
  pub o3 : ℤ
  pub o4 : ℤ

abbrev pub octets : ℤ → ℤ → ℤ → ℤ → Octets
octets a b c d = record { o1 = a; o2 = b; o3 = c; o4 = d }

-- `sscanf` returns 4 where this is `done`. What follows the fourth number is not looked at.
unfoldable pub scan_address : Bytes → Scanned Octets
scan_address client = do
  (a, s) ← scan_int client
  s ← scan_dot s
  (b, s) ← scan_int s
  s ← scan_dot s
  (c, s) ← scan_int s
  s ← scan_dot s
  (d, s) ← scan_int s
  done (octets a b c d)

-- `%d`
unfoldable pub print_int : ℤ → Bytes
print_int (pos n) = print n
print_int (negsuc n) = b'-' ∷ print (suc n)

-- `sprintf(rdn, "%d.%d.%d.%d", o4, o3, o2, o1)`
unfoldable pub reverse_name : Octets → Bytes
reverse_name o =
    print_int o.o4
    ++ (b'.' ∷ (print_int o.o3 ++ (b'.' ∷ (print_int o.o2 ++ (b'.' ∷ print_int o.o1)))))

-- `sprintf(rqname, "%s.%s", rdn, rbl->rbldomain)`
unfoldable pub query_name : Bytes → Bytes → Bytes
query_name rdn rbldomain = rdn ++ (b'.' ∷ rbldomain)

-- The name and its NUL are within `char rqname[1024]`.
unfoldable pub name_fits : Bytes → Bytes → Bool
name_fits rdn rbldomain = ltb (length (query_name rdn rbldomain)) 1024

-- an address of four bytes, and the text of `inet_ntop` for it
pub record InAddr : Type 0 where
  pub b1 : ℕ
  pub b2 : ℕ
  pub b3 : ℕ
  pub b4 : ℕ

unfoldable pub inet_ntop : InAddr → Bytes
inet_ntop a = print a.b1 ++ (b'.' ∷ (print a.b2 ++ (b'.' ∷ (print a.b3 ++ (b'.' ∷ print a.b4)))))

-- `strncmp(result, "127.", 4) == 0`
unfoldable pub is_listed : InAddr → Bool
is_listed a = equal (take 4 (inet_ntop a)) (codes "127.")
