-- ===== src/Worker/Ready.antt =====
-- What a worker needs to come to its results: a request that names an address, memory, and names
-- that fit.
use rblpolicyd.Prelude.{
  suc, ◌*◌, Bool, ◌&&◌, false, length-append, ◌++◌, ℕ, ◌+◌, ◌^◌, ◌<◌, ◌≤◌, ◌≡◌, ◌≢◌, refl, ap, ◌∙◌,
  true, Option, none, some, List, [], ◌∷◌, Bytes, length, All, arith,
}
use rblpolicyd.CString.Space.{c_string_lem}
use rblpolicyd.Address.RoundTrip.{IsInAddr, reversed, reverse_name-scan_address}
use rblpolicyd.Address.{Octets, reverse_name, query_name, name_fits, InAddr, inet_ntop}
use rblpolicyd.CString.{print}
use rblpolicyd.CString.Decimal.{length-print}
use rblpolicyd.CfgFile.{CfgItem}
use rblpolicyd.Request.Parse.{Finds, IsValue, parse_request_iff}
use rblpolicyd.Request.Pieces.{delivers, joined, IsRequest}
use rblpolicyd.Request.Whole.{read_request-joined}
use rblpolicyd.Request.{Event, buffer, pattern, read_request, parse_request}
use rblpolicyd.Worker.{
  worker_with, prepares, has_slot, ready, too_long, create_solvers, ResData, Reply, extend, extends,
  has_memory, replies, Env, known, scanned_client, named_client, requested_client, client_address,
  no_reply, judge, worker_for, worker_th,
}

-- A connection on which a whole request arrives, in pieces, the first of four bytes at least.
pub record Sends (request : Bytes) (conn : List Event) : Type 0 where
  pub first : Bytes
  pub others : List Bytes
  pub later : List Event
  pub conn_is : conn ≡ delivers (first ∷ others) later
  pub request_is : joined (first ∷ others) ≡ request
  pub first_four : 4 ≤ length first
  pub others_ne : All (λ q. q ≢ []) others

abbrev pub HasMemory : Env → Type 0
HasMemory env =
    ((n : ℕ) → env.realloc n ≡ true)
    × ((n : ℕ) → env.malloc n ≡ true)
    × ((n : ℕ) → env.xmalloc n ≡ true)

pub client_address-Sends :
    (env : Env) (request : Bytes) (conn : List Event)
    → HasMemory env
    → length request + 2047 < 2 ^ 31
    → IsRequest request
    → All (λ c. c ≢ 0) request
    → Sends request conn
    → client_address env conn ≡ named_client env (parse_request env.malloc request)
unfolding client_address
client_address-Sends env request conn (m, _, _) short is no_nul s =
    let got : read_request env.realloc conn ≡ buffer request = rw s.conn_is (
      read_request-joined env.realloc s.first s.others s.later m (rw s.request_is short)
        (rw s.request_is is) s.first_four s.others_ne
      ∙ ap buffer s.request_is) in
    rw got (unfold requested_client in rw (c_string_lem request no_nul))

named_client-address :
    (env : Env) (a : InAddr)
    → IsInAddr a
    → HasMemory env
    → (o : Octets) × (named_client env (some (inet_ntop a)) ≡ known o)
      × (reverse_name o ≡ inet_ntop (reversed a))
unfolding named_client
named_client-address env a h (_, m, _) =
    let (o, read, name) = reverse_name-scan_address a h in
    (o, rw (m (length (inet_ntop a) + 1), read) (unfold scanned_client in refl), name)

-- The text of an address is at most 15 bytes long.
pub length-inet_ntop : (a : InAddr) → IsInAddr a → length (inet_ntop a) ≤ 15
unfolding inet_ntop
length-inet_ntop a h = omega (
  arith,
  h,
  length-print a.b1 2 (omega (arith, h)),
  length-print a.b2 2 (omega (arith, h)),
  length-print a.b3 2 (omega (arith, h)),
  length-print a.b4 2 (omega (arith, h)),
  length-append (print a.b1) (b'.' ∷ (print a.b2 ++ (b'.' ∷ (print a.b3 ++ (b'.' ∷ print a.b4))))),
  length-append (print a.b2) (b'.' ∷ (print a.b3 ++ (b'.' ∷ print a.b4))),
  length-append (print a.b3) (b'.' ∷ print a.b4),
)

-- Each name of the loop is within `rqname`.
abbrev pub names_fit : Bytes → List CfgItem → Bool
names_fit rdn [] = true
names_fit rdn (rbl ∷ rblist) = name_fits rdn rbl.rbldomain && names_fit rdn rblist

-- A domain that leaves room in `rqname` for the longest address, a dot and a NUL.
abbrev pub HasRoom : CfgItem → Type 0
HasRoom rbl = length rbl.rbldomain ≤ 1007

pub HasRoom-names_fit :
    (rdn : Bytes) (rblist : List CfgItem)
    → length rdn ≤ 15
    → All HasRoom rblist
    → names_fit rdn rblist ≡ true
unfolding name_fits query_name
HasRoom-names_fit rdn [] short room = refl
HasRoom-names_fit rdn (rbl ∷ rblist) short (r, room) = ground (
  arith,
  short,
  r,
  length-append rdn (b'.' ∷ rbl.rbldomain),
  HasRoom-names_fit rdn rblist short room,
)

pub client_address-known :
    (env : Env) (request : Bytes) (conn : List Event) (pre rest : Bytes) (a : InAddr)
    → HasMemory env
    → length request + 2047 < 2 ^ 31
    → IsRequest request
    → All (λ c. c ≢ 0) request
    → Sends request conn
    → Finds pattern request pre rest
    → IsValue rest (inet_ntop a)
    → IsInAddr a
    → (o : Octets) × (client_address env conn ≡ known o) × (reverse_name o ≡ inet_ntop (reversed a))
client_address-known env request conn pre rest a memory short is no_nul sends finds value h =
    let named =
      (parse_request_iff env.malloc request (inet_ntop a)).1
        (record { pre = pre; rest = rest; finds = finds; value = value; memory = memory.1 _ }) in
    let (o, known_o, name) = named_client-address env a h memory in
    (
      o,
      client_address-Sends env request conn memory short is no_nul sends
          ∙ ap (named_client env) named
          ∙ known_o,
      name,
    )

-- With memory the reply can be built.
has_memory-HasMemory :
    (env : Env) (text : Option Bytes) (size : ℕ) → HasMemory env → has_memory env text size ≡ true
unfolding has_memory
has_memory-HasMemory env none size (grows, begins, _) = begins size
has_memory-HasMemory env (some s) size (grows, begins, _) = grows size

pub extends-HasMemory :
    (env : Env) (reply : Reply) (domain : Bytes) → HasMemory env → extends env reply domain ≡ true
unfolding extends
extends-HasMemory env reply domain memory =
    has_memory-HasMemory env reply.text (extend reply domain).replen memory

pub replies-HasMemory :
    (env : Env) (reply : Reply) (resdata : List ResData)
    → HasMemory env
    → replies env reply resdata ≡ true
unfolding replies
replies-HasMemory env reply [] memory = refl
replies-HasMemory env reply (r ∷ resdata) memory = ground (
  arith,
  extends-HasMemory env reply r.rblitem.rbldomain memory,
  replies-HasMemory env reply resdata memory,
  replies-HasMemory env (extend reply r.rblitem.rbldomain) resdata memory,
)

-- With memory the loop ends early only at a name that is too long.
pub prepares-ready :
    (env : Env) (resdata_cnt : ℕ) (rdn : Bytes) (rblist : List CfgItem)
    → HasMemory env
    → names_fit rdn rblist ≡ true
    → prepares env resdata_cnt rdn rblist ≡ ready
unfolding prepares has_slot
prepares-ready env c rdn [] memory fit = refl
prepares-ready env c rdn (rbl ∷ rblist) memory fit = ground (
  arith,
  fit,
  memory.2 ((c + 2) * 8),
  memory.2 56,
  memory.2 (length (query_name rdn rbl.rbldomain) + 1),
  prepares-ready env (suc c) rdn rblist memory,
)

pub prepares-too_long :
    (env : Env) (resdata_cnt : ℕ) (rdn : Bytes) (rblist : List CfgItem)
    → HasMemory env
    → names_fit rdn rblist ≡ false
    → prepares env resdata_cnt rdn rblist ≡ too_long
unfolding prepares has_slot
prepares-too_long env c rdn [] memory long = absurd (ground (arith, long))
prepares-too_long env c rdn (rbl ∷ rblist) memory long = ground (
  arith,
  long,
  memory.2 ((c + 2) * 8),
  memory.2 56,
  memory.2 (length (query_name rdn rbl.rbldomain) + 1),
  prepares-too_long env (suc c) rdn rblist memory,
)

-- A request that names an address comes to the results.
pub worker_th-judge :
    (env : Env) (rblist : List CfgItem) (conn : List Event) (o : Octets)
    → HasMemory env
    → client_address env conn ≡ known o
    → names_fit (reverse_name o) rblist ≡ true
    → worker_th env rblist conn ≡ judge env rblist o
unfolding worker_th worker_for worker_with
worker_th-judge env rblist conn o memory names fits =
    let room_left =
      replies-HasMemory env no_reply (create_solvers env.answers 0 (reverse_name o) rblist)
        memory in
    let prepared = prepares-ready env 0 (reverse_name o) rblist memory fits in
    rw (names, prepared, room_left) refl
