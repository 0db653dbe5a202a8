-- ===== src/Tests/Queries.antt =====
-- A whole query at a concrete request, configuration and resolver.
use mathlib.Core.List.{cons-ne-nil}
use rblpolicyd.Prelude.{
  ap, ℕ, zero, suc, ◌*◌, ◌^◌, ◌<◌, ltb, ◌+◌, ◌≤◌, ◌≡◌, ◌≢◌, refl, true, Option, none, some, List,
  [], ◌∷◌, Bytes, codes, length, All, if◌then◌else◌, arith,
}
use rblpolicyd.Prelude.Int.{pos}
use rblpolicyd.CString.{print, print_loop, drop_space, is_space}
use rblpolicyd.CString.Strtol.{scan_digits, digit_value}
use rblpolicyd.Address.Bounds.{length-reverse_name}
use rblpolicyd.Address.RoundTrip.{reversed}
use rblpolicyd.Address.{
  done, Octets, octets, scan_address, scan_int, scan_sign, scan_magnitude, fit_int, scan_dot,
  reverse_name, InAddr, inet_ntop,
}
use rblpolicyd.CfgFile.{CfgItem, new_item}
use rblpolicyd.Request.Parse.{behind_sound}
use rblpolicyd.Request.Pieces.{delivers}
use rblpolicyd.Request.{Event, timeout, equal, pattern}
use rblpolicyd.Solver.Ends.{AnswersAt, Says127, solver_th_lem}
use rblpolicyd.Solver.{Hostent, Lookup, erange, answer, solver_th}
use rblpolicyd.Tests.Requests.{
  piece1, piece2, request, request-IsRequest, rest, request-behind, rest-IsValue,
}
use rblpolicyd.Worker.Score.{total}
use rblpolicyd.Worker.Ready.{
  names_fit, client_address-known, HasRoom-names_fit, length-inet_ntop, Sends,
}
use rblpolicyd.Worker.{known, client_address, Env}

abbrev client : InAddr
client = record { b1 = 192; b2 = 0; b3 = 2; b4 = 1 }

abbrev loopback : Hostent
loopback = record { is_inet = true; addr_list = record { b1 = 127; b2 = 0; b3 = 0; b4 = 2 } ∷ [] }

-- One blacklist knows the client.
abbrev answers : Bytes → Option Hostent
answers name = if equal name (codes "1.2.0.192.bl.org") then some loopback else none

abbrev pub env : Env
env = record { realloc = λ _. true; malloc = λ _. true; xmalloc = λ _. true; answers = answers }

abbrev pub rblist : List CfgItem
rblist = new_item (codes "bl.org") 100 ∷ new_item (codes "x.net") 30 ∷ []

abbrev pub conn : List Event
conn = delivers (piece1 ∷ piece2 ∷ []) (timeout ∷ [])

conn-Sends : Sends request conn
conn-Sends = record {
  first = piece1;
  others = piece2 ∷ [];
  later = timeout ∷ [];
  conn_is = refl;
  request_is = refl;
  first_four = omega arith;
  others_ne = (cons-ne-nil _ _, tt);
}

request-ne_nul : All (λ c. c ≢ 0) request
request-ne_nul = omega arith

rest-inet_ntop : inet_ntop client ≡ codes "192.0.2.1"
unfolding inet_ntop print print_loop
rest-inet_ntop = refl

abbrev before : Bytes
before = (behind_sound pattern request request-behind).0

pub light : total rblist < 2 ^ 31
unfolding total
light = omega arith

pub conn-names_fit :
    (o : Octets) → client_address env conn ≡ known o → names_fit (reverse_name o) rblist ≡ true
conn-names_fit o e =
    let (o', e', name) =
      client_address-known env request conn before rest client ((λ _. refl), (λ _. refl), λ _. refl)
        (omega arith) request-IsRequest request-ne_nul conn-Sends
        (behind_sound pattern request request-behind).1 (rw rest-inet_ntop rest-IsValue)
        (omega arith) in
    let same : o' ≡ o = cc (e, e') in
    let length_is = ap (λ x. length (reverse_name x)) same in
    HasRoom-names_fit (reverse_name o) rblist
      (omega (arith, length_is, ap length name, length-inet_ntop (reversed client) (omega arith)))
      (omega arith)

length-reverse_name_example :
    length (reverse_name (octets (pos 10) (pos 0) (pos 0) (pos 7))) + 1
    ≤ length (codes "10.0.0.7") + 1
length-reverse_name_example = length-reverse_name (codes "10.0.0.7") scanned
  where
    scanned : scan_address (codes "10.0.0.7") ≡ done (octets (pos 10) (pos 0) (pos 0) (pos 7))
    scanned =
        unfold scan_address scan_int scan_sign scan_magnitude fit_int scan_dot drop_space is_space
          scan_digits digit_value in
        refl

-- A resolver that is content with 2048 bytes.
abbrev resolver : Bytes → ℕ → Lookup
resolver name size = if ltb size 2048 then erange else answer (some loopback)

resolver-AnswersAt : AnswersAt resolver (codes "1.2.0.192.bl.org") 1 (some loopback)
resolver-AnswersAt = record { small = small; enough = refl }
  where
    small : (j : ℕ) → j < 1 → resolver (codes "1.2.0.192.bl.org") (1024 * 2 ^ j) ≡ erange
    small zero h = refl
    small (suc j) h = absurd (omega arith)

solver_th_lem_example :
    (Says127 (some loopback)
      → solver_th resolver 5 (codes "1.2.0.192.bl.org") (new_item (codes "bl.org") 100) ≡ some 100)
    × (¬ Says127 (some loopback)
        → solver_th resolver 5 (codes "1.2.0.192.bl.org") (new_item (codes "bl.org") 100) ≡ some 0)
solver_th_lem_example =
    solver_th_lem resolver 5 1 (codes "1.2.0.192.bl.org") (new_item (codes "bl.org") 100)
      (some loopback) resolver-AnswersAt (omega arith) (omega arith)
