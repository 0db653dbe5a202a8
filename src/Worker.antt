-- ===== src/Worker.antt =====
-- worker.c: `worker_th` as one thread runs it, with the scores that its solver threads leave. It waits
-- until all of them are done; the count and the condition that it waits on are in Protocol, the mutex
-- of the counters is in Tally.
pub mod Score
pub mod Judged
pub mod Ready
pub mod Verdict
use rblpolicyd.Prelude.{
  ℕ, zero, suc, ◌+◌, ◌*◌, ◌^◌, ◌%◌, ◌&&◌, Bool, true, false, Option, none, some, List, [], ◌∷◌,
  ◌++◌, Bytes, codes, length, take, ltb, leb, ◌==◌, if◌then◌else◌,
}
use rblpolicyd.CString.{c_string}
use rblpolicyd.Address.{
  Scanned, done, mismatch, undefined, Octets, scan_address, reverse_name, query_name, name_fits,
}
use rblpolicyd.CfgFile.{CfgItem}
use rblpolicyd.Request.{
  Event, Reading, null, buffer, fault, out_of_fuel, read_request, parse_request,
}
use rblpolicyd.Solver.{Hostent, score_of}

-- What the C library, the functions of xmalloc.c and the resolver do for a worker: for which sizes
-- memory is there, and the answer for each name. Without memory `xmalloc`, `xrealloc` and `xstrdup`
-- end the process.
pub record Env : Type 0 where
  pub realloc : ℕ → Bool
  pub malloc : ℕ → Bool
  pub xmalloc : ℕ → Bool
  pub answers : Bytes → Option Hostent

-- The part up to `endif(!err)`, which server.c repeats: `refused` is `err`, `broken` an access outside
-- a buffer or a number that C leaves undefined.
pub data Client : Type 0 where
  refused : Client
  broken : Client
  known : Octets → Client

unfoldable pub scanned_client : Scanned Octets → Client
scanned_client (done o) = known o
scanned_client mismatch = refused
scanned_client undefined = broken

-- `malloc` for `rdn`, and `sscanf`
unfoldable pub named_client : Env → Option Bytes → Client
named_client env none = refused
named_client env (some client) =
    if env.malloc (length client + 1) then scanned_client (scan_address client) else refused

unfoldable pub requested_client : Env → Reading → Client
requested_client env null = refused
requested_client env (buffer request) =
    named_client env (parse_request env.malloc (c_string request))
requested_client env fault = broken
requested_client env out_of_fuel = broken

unfoldable pub client_address : Env → List Event → Client
client_address env conn = requested_client env (read_request env.realloc conn)

-- `resdata_t`, less the pointers to the worker's counter, mutex and condition, and the time, which is
-- not used. `rblitem` is the entry of the list that the result is about.
pub record ResData : Type 0 where
  pub hostname : Bytes
  pub rblitem : CfgItem
  pub score : ℕ

-- `for (rbl = rblist; rbl && score < 100; rbl = rbl->next)`: the loop does not change `score`. Each
-- round creates a solver, whose score is entered here.
unfoldable pub create_solvers : (Bytes → Option Hostent) → ℕ → Bytes → List CfgItem → List ResData
create_solvers answers score rdn [] = []
create_solvers answers score rdn (rbl ∷ rblist) =
    let name = query_name rdn rbl.rbldomain in
    let data1 : ResData = record {
      hostname = name;
      rblitem = rbl;
      score = score_of (answers name) rbl;
    } in
    let others = create_solvers answers score rdn rblist in
    if ltb score 100 then data1 ∷ others else []

-- `reply` and `replen`
pub record Reply : Type 0 where
  pub text : Option Bytes
  pub replen : ℕ

abbrev pub no_reply : Reply
no_reply = record { text = none; replen = 0 }

-- The first domain makes the buffer, the others make it larger.
unfoldable pub extend_text : Option Bytes → ℕ → Bytes → Reply
extend_text none replen rbldomain = record {
  text = some rbldomain;
  replen = replen + (length rbldomain + 1);
}
extend_text (some reply) replen rbldomain = record {
  text = some ((reply ++ codes ", ") ++ rbldomain);
  replen = replen + (2 + length rbldomain);
}

unfoldable pub extend : Reply → Bytes → Reply
extend r rbldomain = extend_text r.text r.replen rbldomain

abbrev pub u32_mod : ℕ
u32_mod = 2 ^ 32

pub record Collected : Type 0 where
  pub score : ℕ
  pub reply : Reply
  pub rblist : List CfgItem

-- The counters of one entry: `questions++`, and `positive++` where the score is not 0.
unfoldable pub counted : CfgItem → ℕ → CfgItem
counted item score = record item {
  questions = (item.questions + 1) % u32_mod;
  positive = if score == 0 then item.positive else (item.positive + 1) % u32_mod;
}

-- `score += ...`: `score` is an `int`, kept here as the number from 0 to 2 ^ 32 - 1 that has its bits;
-- a sum beyond 2 ^ 31 - 1 turns negative, as on a machine with two's complement.
unfoldable pub int_sum : ℕ → ℕ → ℕ
int_sum score n = (score + n) % u32_mod

-- `for (i = 0; i < resdata_cnt; i++)`, with the entries whose counters it has changed
unfoldable pub collect : ℕ → Reply → List CfgItem → List ResData → Collected
collect score reply rblist [] = record { score = score; reply = reply; rblist = rblist }
collect score reply rblist (r ∷ resdata) =
    collect (int_sum score r.score)
      (if r.score == 0 then reply else extend reply r.rblitem.rbldomain)
      (rblist ++ counted r.rblitem r.score ∷ []) resdata

abbrev text_of : Option Bytes → Bytes
text_of none = []
text_of (some s) = s

-- The answers: each is one call of `write`, with its length.
unfoldable pub reject : Option Bytes → List Bytes
reject reply =
    take 30 (codes "action=REJECT Blocked through ") ∷ text_of reply ∷ take 2 (codes "\n\n") ∷ []

abbrev pub dunno : List Bytes
dunno = take 12 (codes "action=DUNNO") ∷ take 2 (codes "\n\n") ∷ []

-- `score >= 100`, where `score` from 2 ^ 31 on stands for a negative number
unfoldable pub verdict : ℕ → Option Bytes → List Bytes
verdict score reply = if leb 100 score && ltb score (2 ^ 31) then reject reply else dunno

-- What the thread does: the writes on its connection, and the list with its counters. `crashed`
-- stands for undefined behaviour, `died` for the end of the process with code 1.
pub data Outcome : Type 0 where
  replied : List Bytes → List CfgItem → Outcome
  crashed : Outcome
  died : Outcome

unfoldable pub judged : Collected → Outcome
judged c = replied (verdict c.score c.reply.text) c.rblist

unfoldable pub judge : Env → List CfgItem → Octets → Outcome
judge env rblist o =
    judged (collect 0 no_reply [] (create_solvers env.answers 0 (reverse_name o) rblist))

-- Memory for `resdata`, for an entry of it and for its name. A pointer has 8 bytes.
unfoldable pub has_slot : Env → ℕ → Bytes → Bool
has_slot env resdata_cnt rqname =
    env.xmalloc ((resdata_cnt + 2) * 8) && (env.xmalloc 56 && env.xmalloc (length rqname + 1))

-- How the loop that creates the solvers ends: at the end of the list, or with a name beyond `rqname`,
-- or with the process.
pub data Prepared : Type 0 where
  ready : Prepared
  too_long : Prepared
  exhausted : Prepared

unfoldable pub prepares : Env → ℕ → Bytes → List CfgItem → Prepared
prepares env resdata_cnt rdn [] = ready
prepares env resdata_cnt rdn (rbl ∷ rblist) =
    let rest = prepares env (suc resdata_cnt) rdn rblist in
    if name_fits rdn rbl.rbldomain
    then (if has_slot env resdata_cnt (query_name rdn rbl.rbldomain) then rest else exhausted)
    else too_long

-- Whether there is memory where the reply begins or gets longer; the code does not ask.
unfoldable pub has_memory : Env → Option Bytes → ℕ → Bool
has_memory env none size = env.malloc size
has_memory env (some reply) size = env.realloc size

unfoldable pub extends : Env → Reply → Bytes → Bool
extends env r rbldomain = has_memory env r.text (extend r rbldomain).replen

unfoldable pub replies : Env → Reply → List ResData → Bool
replies env reply [] = true
replies env reply (r ∷ resdata) =
    let domain = r.rblitem.rbldomain in
    let rest = replies env (if r.score == 0 then reply else extend reply domain) resdata in
    if r.score == 0 then rest else extends env reply domain && rest

-- from the end of that loop on
unfoldable pub worker_with : Env → List CfgItem → Octets → Prepared → Outcome
worker_with env rblist o ready =
    if replies env no_reply (create_solvers env.answers 0 (reverse_name o) rblist)
    then judge env rblist o
    else crashed
worker_with env rblist o too_long = crashed
worker_with env rblist o exhausted = died

unfoldable pub worker_for : Env → List CfgItem → Client → Outcome
worker_for env rblist refused = replied dunno rblist
worker_for env rblist broken = crashed
worker_for env rblist (known o) = worker_with env rblist o (prepares env 0 (reverse_name o) rblist)

-- After the writes the connection is closed, and the time is taken.
unfoldable pub worker_th : Env → List CfgItem → List Event → Outcome
worker_th env rblist conn = worker_for env rblist (client_address env conn)
