-- ===== src/Request.antt =====
-- worker.c: `read_request` and `parse_request`. server.c holds a copy of both, with the same text.
pub mod Bounds
pub mod Parse
pub mod Pieces
pub mod Whole
use rblpolicyd.Prelude.{
  ℕ, zero, suc, ◌+◌, ◌-◌, ◌^◌, Bool, not, true, false, ◌&&◌, ◌||◌, Option, none, some, List, [],
  ◌∷◌, ◌++◌, Bytes, codes, length, take, drop, ltb, leb, ◌==◌, if◌then◌else◌,
}

-- What the connection does when `select` is called on it; a read of 0 bytes or an error ends the
-- function. Of `arrived` a `read` takes as much as it
-- asks for, and leaves the rest; it is empty where the peer has closed.
pub data Event : Type 0 where
  select_error : Event
  timeout : Event
  read_error : Event
  arrived : Bytes → Event

-- What the function returns: NULL, or the buffer with the bytes read. `fault` is an access outside
-- the buffer, and `out_of_fuel` is the model's own.
pub data Reading : Type 0 where
  null : Reading
  buffer : Bytes → Reading
  fault : Reading
  out_of_fuel : Reading

abbrev pub chunk : ℕ
chunk = 1024

-- the bytes from `n` before the end on
abbrev pub last : ℕ → Bytes → Bytes
last n s = drop (length s - n) s

-- `strcmp(a, b) == 0`, where neither holds a NUL
unfoldable pub equal : Bytes → Bytes → Bool
equal [] [] = true
equal (x ∷ xs) (y ∷ ys) = x == y && equal xs ys
equal _ _ = false

-- The two tests for the end of a request, on the bytes read so far.
unfoldable pub ends_request : Bytes → Bool
ends_request s = equal (last 4 s) (codes "\r\n\r\n") || equal (last 2 s) (codes "\n\n")

-- `buf` may be NULL: that is no byte read.
unfoldable pub returned : Option Bytes → Reading
returned none = null
returned (some s) = buffer s

-- `if (bufsize - bread < CHUNK) bufsize += CHUNK`
unfoldable pub grown : ℕ → ℕ → ℕ
grown bufsize bread = if ltb (bufsize - bread) chunk then bufsize + chunk else bufsize

abbrev pub contents : Option Bytes → Bytes
contents none = []
contents (some s) = s

-- What a `read` did not take stays for the next one.
unfoldable pub push_back : Bytes → List Event → List Event
push_back [] conn = conn
push_back (c ∷ s) conn = arrived (c ∷ s) ∷ conn

-- A round ends the loop, or goes on with the new size and contents and the bytes not taken.
pub data Round : Type 0 where
  stop : Reading → Round
  more : ℕ → Bytes → Bytes → Round

-- The round from `realloc` on, where `read` brings `got` behind the bytes of `old` and leaves `left`.
-- The write of `buf[bread]` is checked against the size, and the `strcmp` from four bytes before the
-- end against the beginning.
unfoldable pub received : (realloc : ℕ → Bool) → ℕ → ℕ → Bytes → Bytes → Bytes → Round
received realloc bufsize size old got left =
    if ltb bufsize size && not (realloc size)
    then stop null
    else if length got == 0
    then stop (buffer old)
    else if leb size (length (old ++ got)) || ltb (length (old ++ got)) 4
    then stop fault
    else if ends_request (old ++ got)
    then stop (buffer (old ++ got))
    else more size (old ++ got) left

-- `read(sock, buf + bread, bufsize - bread - 1)`
unfoldable pub read_into : (realloc : ℕ → Bool) → ℕ → ℕ → Bytes → Bytes → Round
read_into realloc bufsize size old s =
    let space = size - length old - 1 in
    received realloc bufsize size old (take space s) (drop space s)

-- `while (1)`. `realloc` says for which sizes memory is there. A connection on which no event is left
-- stays silent, so that `select` runs into its timeout.
unfoldable pub read_loop : (realloc : ℕ → Bool) → ℕ → ℕ → Option Bytes → List Event → Reading
read_loop realloc zero bufsize buf conn = out_of_fuel
read_loop realloc (suc fuel) bufsize buf [] = returned buf
read_loop realloc (suc fuel) bufsize buf (select_error ∷ conn) = null
read_loop realloc (suc fuel) bufsize buf (timeout ∷ conn) = returned buf
read_loop realloc (suc fuel) bufsize buf (read_error ∷ conn) =
    let size = grown bufsize (length (contents buf)) in
    if ltb bufsize size && not (realloc size) then null else buffer (contents buf)
read_loop realloc (suc fuel) bufsize buf (arrived s ∷ conn) =
    let size = grown bufsize (length (contents buf)) in
    elim (read_into realloc bufsize size (contents buf) s) [
      | stop r ↦ r
      | more size' new left ↦ read_loop realloc fuel size' (some new) (push_back left conn)
    ]

-- The rounds that a connection can make the loop go: each takes an event or a byte away.
abbrev pub rounds : List Event → ℕ
rounds [] = 1
rounds (arrived s ∷ conn) = suc (length s + rounds conn)
rounds (_ ∷ conn) = suc (rounds conn)

-- `bufsize` is an `int`: from 2 ^ 31 on it is negative, on a machine with two's complement, and as a
-- `size_t` more than `realloc` can give.
unfoldable pub int_realloc : (realloc : ℕ → Bool) → ℕ → Bool
int_realloc realloc size = realloc size && ltb size (2 ^ 31)

unfoldable pub read_request : (realloc : ℕ → Bool) → List Event → Reading
read_request realloc conn = read_loop (int_realloc realloc) (rounds conn) 0 none conn

-- `s` without `prefix` at its beginning
unfoldable pub strip : Bytes → Bytes → Option Bytes
strip [] s = some s
strip (p ∷ ps) [] = none
strip (p ∷ ps) (c ∷ s) = if p == c then strip ps s else none

-- `strstr(req, pattern)`, and past the pattern
unfoldable pub behind : Bytes → Bytes → Option Bytes
behind pattern [] = strip pattern []
behind pattern (c ∷ s) = elim (strip pattern (c ∷ s)) [ some t ↦ some t | none ↦ behind pattern s ]

abbrev cons_some : ℕ → Option Bytes → Option Bytes
cons_some c none = none
cons_some c (some s) = some (c ∷ s)

-- `strchr(s, c)`: the bytes in front of it
unfoldable pub up_to : ℕ → Bytes → Option Bytes
up_to c [] = none
up_to c (d ∷ s) = if d == c then some [] else cons_some d (up_to c s)

abbrev pub pattern : Bytes
pattern = codes "client_address="

-- the terminator: the first `\r`, or if there is none the first `\n`
unfoldable pub value_of : Bytes → Option Bytes
value_of s = elim (up_to b'\r' s) [ some v ↦ some v | none ↦ up_to b'\n' s ]

-- `malloc` for the result
unfoldable pub copied : (malloc : ℕ → Bool) → Option Bytes → Option Bytes
copied malloc none = none
copied malloc (some v) = if malloc (length v + 1) then some v else none

unfoldable pub address_in : (malloc : ℕ → Bool) → Option Bytes → Option Bytes
address_in malloc none = none
address_in malloc (some s) = copied malloc (value_of s)

unfoldable pub parse_request : (malloc : ℕ → Bool) → Bytes → Option Bytes
parse_request malloc req = address_in malloc (behind pattern req)
