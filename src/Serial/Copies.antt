-- ===== src/Serial/Copies.antt =====
-- server.c: the file's own copies of `read_request` and `parse_request`. The buffer, what the
-- connection does and the functions on strings are those of Request.
use rblpolicyd.Prelude.{
  ℕ, zero, suc, ◌+◌, ◌-◌, ◌≡◌, refl, Bool, not, ◌&&◌, ◌||◌, Option, none, some, List, [], ◌∷◌, ◌++◌,
  Bytes, length, take, drop, ltb, leb, ◌==◌, if◌then◌else◌,
}
use rblpolicyd.Request
use rblpolicyd.Request.{
  Event, select_error, timeout, read_error, arrived, Reading, null, buffer, fault, out_of_fuel,
  Round, stop, more, chunk, ends_request, returned, contents, push_back, rounds, int_realloc,
  behind, pattern, up_to,
}

-- `if (bufsize - bread < CHUNK)`, and whether there is memory for the buffer of that size
unfoldable pub buffer_size : ℕ → ℕ → ℕ
buffer_size bufsize bread = if ltb (bufsize - bread) chunk then bufsize + chunk else bufsize

unfoldable pub no_memory : (realloc : ℕ → Bool) → ℕ → ℕ → Bool
no_memory realloc bufsize size = ltb bufsize size && not (realloc size)

-- `bread += ret`, the NUL behind it and the two tests, for the contents `buf` with what has come
unfoldable pub tested_read : ℕ → Bytes → Bytes → Round
tested_read size buf left =
    if leb size (length buf) || ltb (length buf) 4
    then stop fault
    else if ends_request buf
    then stop (buffer buf)
    else more size buf left

-- The last branch of the loop, where `s` has arrived.
unfoldable pub read_round : (realloc : ℕ → Bool) → ℕ → Bytes → Bytes → Round
read_round realloc bufsize old s =
    let size = buffer_size bufsize (length old) in
    let room = size - length old - 1 in
    if no_memory realloc bufsize size
    then stop null
    else if length (take room s) == 0
    then stop (buffer old)
    else tested_read size (old ++ take room s) (drop room s)

unfoldable pub read_rounds : (realloc : ℕ → Bool) → ℕ → ℕ → Option Bytes → List Event → Reading
read_rounds realloc zero bufsize buf conn = out_of_fuel
read_rounds realloc (suc fuel) bufsize buf [] = returned buf
read_rounds realloc (suc fuel) bufsize buf (select_error ∷ conn) = null
read_rounds realloc (suc fuel) bufsize buf (timeout ∷ conn) = returned buf
read_rounds realloc (suc fuel) bufsize buf (read_error ∷ conn) =
    if no_memory realloc bufsize (buffer_size bufsize (length (contents buf)))
    then null
    else buffer (contents buf)
read_rounds realloc (suc fuel) bufsize buf (arrived s ∷ conn) =
    elim (read_round realloc bufsize (contents buf) s) [
      | stop r ↦ r
      | more size new left ↦ read_rounds realloc fuel size (some new) (push_back left conn)
    ]

unfoldable pub read_request : (realloc : ℕ → Bool) → List Event → Reading
read_request realloc conn = read_rounds (int_realloc realloc) (rounds conn) 0 none conn

-- `strchr(c, '\r')`, else `strchr(c, '\n')`
unfoldable pub client_value : Bytes → Option Bytes
client_value c = elim (up_to b'\r' c) [ some v ↦ some v | none ↦ up_to b'\n' c ]

-- `malloc(p - c + 1)` and the copy
unfoldable pub client_copy : (malloc : ℕ → Bool) → Option Bytes → Option Bytes
client_copy malloc none = none
client_copy malloc (some v) = if malloc (length v + 1) then some v else none

unfoldable pub client_in : (malloc : ℕ → Bool) → Option Bytes → Option Bytes
client_in malloc none = none
client_in malloc (some c) = client_copy malloc (client_value c)

unfoldable pub parse_request : (malloc : ℕ → Bool) → Bytes → Option Bytes
parse_request malloc req = client_in malloc (behind pattern req)

read_round-same :
    (realloc : ℕ → Bool) (bufsize : ℕ) (old s : Bytes)
    → read_round realloc bufsize old s
      ≡ Request.read_into realloc bufsize (Request.grown bufsize (length old)) old s
unfolding read_round no_memory tested_read buffer_size Request.read_into Request.received
    Request.grown
read_round-same realloc bufsize old s = refl

same_behind :
    {f g : ℕ → Bytes → Bytes → Reading} (r : Round)
    → ((size : ℕ) (new left : Bytes) → f size new left ≡ g size new left)
    → elim r as (λ _. Reading) [ stop x ↦ x | more size new left ↦ f size new left ]
      ≡ (elim r as (λ _. Reading) [ stop x ↦ x | more size new left ↦ g size new left ])
same_behind (stop x) same = refl
same_behind (more size new left) same = same size new left

read_rounds-same :
    (realloc : ℕ → Bool) (fuel bufsize : ℕ) (buf : Option Bytes) (conn : List Event)
    → read_rounds realloc fuel bufsize buf conn ≡ Request.read_loop realloc fuel bufsize buf conn
unfolding read_rounds no_memory buffer_size Request.read_loop Request.grown
read_rounds-same realloc zero bufsize buf conn = refl
read_rounds-same realloc (suc fuel) bufsize buf [] = refl
read_rounds-same realloc (suc fuel) bufsize buf (select_error ∷ conn) = refl
read_rounds-same realloc (suc fuel) bufsize buf (timeout ∷ conn) = refl
read_rounds-same realloc (suc fuel) bufsize buf (read_error ∷ conn) = refl
read_rounds-same realloc (suc fuel) bufsize buf (arrived s ∷ conn) =
    rw (read_rounds, read_round-same realloc bufsize (contents buf) s)
      (same_behind
        (Request.read_into realloc bufsize (Request.grown bufsize (length (contents buf)))
          (contents buf) s)
        (λ size new left. read_rounds-same realloc fuel size (some new) (push_back left conn)))

-- The two copies of `read_request` return the same on every connection.
pub read_request-same :
    (realloc : ℕ → Bool) (conn : List Event)
    → read_request realloc conn ≡ Request.read_request realloc conn
unfolding read_request Request.read_request
read_request-same realloc conn = read_rounds-same (int_realloc realloc) (rounds conn) 0 none conn

client_in-same :
    (malloc : ℕ → Bool) (c : Option Bytes) → client_in malloc c ≡ Request.address_in malloc c
unfolding client_in client_copy client_value Request.address_in Request.copied Request.value_of
client_in-same malloc none = refl
client_in-same malloc (some c) = elim (up_to b'\r' c) [
  | some v ↦ refl
  | none ↦ elim (up_to b'\n' c) [ some v ↦ refl | none ↦ refl ]
]

-- The two copies of `parse_request` return the same on every request.
pub parse_request-same :
    (malloc : ℕ → Bool) (req : Bytes) → parse_request malloc req ≡ Request.parse_request malloc req
unfolding parse_request Request.parse_request
parse_request-same malloc req = client_in-same malloc (behind pattern req)
