-- ===== src/Serial.antt =====
-- server.c: `process_request`, which asks the blacklists one after the other in the calling thread.
-- The file's own copies of `read_request` and `parse_request` are in Copies.
pub mod Copies
pub mod Asking
pub mod Agrees
use rblpolicyd.Prelude.{
  ℕ, ◌+◌, ◌&&◌, Bool, true, false, Option, none, some, List, [], ◌∷◌, Bytes, codes, ltb, leb,
  if◌then◌else◌,
}
use rblpolicyd.CString.{c_string}
use rblpolicyd.Address.{Octets, reverse_name, query_name, name_fits}
use rblpolicyd.CfgFile.{CfgItem}
use rblpolicyd.Request.{Event, Reading, null, buffer, fault, out_of_fuel}
use rblpolicyd.Serial.Copies.{read_request, parse_request}
use rblpolicyd.Solver.{Hostent, found_in}
use rblpolicyd.Worker.{
  extends, Env, Client, refused, broken, known, named_client, Reply, no_reply, extend, verdict,
  dunno, Outcome, replied, crashed,
}

unfoldable pub requested_client : Env → Reading → Client
requested_client env null = refused
requested_client env (buffer request) =
    named_client env (parse_request env.malloc (c_string request))
requested_client env fault = broken
requested_client env out_of_fuel = broken

unfoldable pub client_address : Env → List Event → Client
client_address env conn = requested_client env (read_request env.realloc conn)

pub record Scored : Type 0 where
  pub score : ℕ
  pub reply : Reply

abbrev pub scored : ℕ → Reply → Scored
scored n r = record { score = n; reply = r }

-- one blacklist: the score and the reply grow where an address in 127.0.0.0/8 is among the answers
unfoldable pub ask : (Bytes → Option Hostent) → Bytes → CfgItem → Scored → Scored
ask answers rdn rbl s =
    if found_in (answers (query_name rdn rbl.rbldomain))
    then scored (s.score + rbl.weight) (extend s.reply rbl.rbldomain)
    else s

-- `for (rbl = rblist; rbl && score < 100; rbl = rbl->next)`, with the `break` at its end
unfoldable pub ask_all : (Bytes → Option Hostent) → Bytes → Scored → List CfgItem → Scored
ask_all answers rdn s [] = s
ask_all answers rdn s (rbl ∷ rblist) =
    let s' = ask answers rdn rbl s in
    let rest = ask_all answers rdn s' rblist in
    if ltb s.score 100 then (if leb 100 s'.score then s' else rest) else s

-- Each name that is asked for is within `rqname`, and there is memory for the reply; the code asks for
-- neither.
unfoldable pub asks_safely : Env → Bytes → Scored → List CfgItem → Bool
asks_safely env rdn s [] = true
asks_safely env rdn s (rbl ∷ rblist) =
    let s' = ask env.answers rdn rbl s in
    let rest = asks_safely env rdn s' rblist in
    let listed = found_in (env.answers (query_name rdn rbl.rbldomain)) in
    if ltb s.score 100
    then name_fits rdn rbl.rbldomain
      && ((if listed then extends env s.reply rbl.rbldomain else true)
          && (if leb 100 s'.score then true else rest))
    else true

unfoldable pub judged : List CfgItem → Scored → Outcome
judged rblist s = replied (verdict s.score s.reply.text) rblist

unfoldable pub process_for : Env → List CfgItem → Client → Outcome
process_for env rblist refused = replied dunno rblist
process_for env rblist broken = crashed
process_for env rblist (known o) =
    if asks_safely env (reverse_name o) (scored 0 no_reply) rblist
    then judged rblist (ask_all env.answers (reverse_name o) (scored 0 no_reply) rblist)
    else crashed

-- It changes no counter.
unfoldable pub process_request : Env → List CfgItem → List Event → Outcome
process_request env rblist conn = process_for env rblist (client_address env conn)
