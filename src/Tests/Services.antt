-- ===== src/Tests/Services.antt =====
-- Two connections, from the start of the daemon until both workers have left.
use rblpolicyd.Prelude.{
  ℕ, suc, ◌+◌, ◌≡◌, refl, true, false, none, some, List, [], ◌∷◌, ◌++◌, codes, length, arith,
}
use rblpolicyd.Prelude.Int.{pos}
use rblpolicyd.Globals.{is_run}
use rblpolicyd.CString.{c_string, drop_space, is_space}
use rblpolicyd.CString.Strtol.{
  strtol, strtol_sign, convert, signed, scan_unsigned, scan_digits, digit_value,
}
use rblpolicyd.CfgFile.{
  cfg_read, cfg_pointer, cfg_loop, cfg_line, cfg_text, cfg_fields, check_weight, cfg_cleanline,
  before_hash, scan_word, fgets,
}
use rblpolicyd.PidFile.{pid_check}
use rblpolicyd.Startup.{
  Machine, Ready, goes, inet, defaults, option, option_loop, port_argument, pidfile_free,
  configured, opened_socket, at_slash, inet_address, host_address, address_of, bound, listening,
  background, open_server, start, main, initial,
}
use rblpolicyd.Tests.Daemon.{machine, flags, options, atoi}
use rblpolicyd.Tests.AtOnce.{one_list, clients, conns, conns-Asks, both_end}
use rblpolicyd.Tests.Managers.{attempt, free, look}
use rblpolicyd.Tests.Queries.{env}
use rblpolicyd.ThrMgr.{Heap, manager, null, thrd, write, thr_register, pushed, set_last}
use rblpolicyd.Threads.{opened, wait_slot, started_worker, registered_worker, wthread_create}
use rblpolicyd.Server
use rblpolicyd.Server.{Server, Turn, connection, running, turn, turn_with, dispatch, serve, created}
use rblpolicyd.Server.Crew.{Granted, hired, hired_in, newcomer}
use rblpolicyd.Server.Crew.Hiring.{Counted}
use rblpolicyd.Workers.{Workers, all_at_start, Run}
use rblpolicyd.Workers
use rblpolicyd.Workers.InOrder.{HasEnded, AreServed}
use rblpolicyd.Service.{
  Service, numbered, number_of, gone, Runs, accepts, works, leaves, begins, next,
}
use rblpolicyd.Server.Crew.Safe.{Lives-Safe}
use rblpolicyd.Service.Seen.{Runs-Lives, number_of-is_live}
use rblpolicyd.Service.Idle.{Runs-AreServed}
use rblpolicyd.Service.Empty.{AllLeave, IsDone, Runs-AllLeave}
use rblpolicyd.Workers.Weight.{IsSound}

abbrev one_machine : Machine
one_machine = record machine { read = λ _. some (codes "bl.org 100\n") }

abbrev ready : Ready
ready = record {
  flags = flags;
  rblist = one_list;
  sock = some 3;
  address = inet (codes "sixteen bytes...");
}

ready_runs : main one_machine atoi options (codes "localhost/10040" ∷ []) ≡ goes ready
unfolding main option_loop option defaults port_argument start pidfile_free pid_check configured
    cfg_pointer cfg_read cfg_loop cfg_line cfg_text cfg_fields check_weight cfg_cleanline
    before_hash scan_word fgets c_string drop_space is_space strtol strtol_sign convert signed
    scan_unsigned scan_digits digit_value open_server opened_socket address_of host_address at_slash
    inet_address bound listening background
ready_runs = refl

abbrev first : Turn
first = record {
  signal = false;
  accepted = connection (conns 0);
  attempt = attempt;
  looks = look;
  calloc = λ _. true;
  file = none;
  env = env;
  self = 1;
}

abbrev second : Turn
second = record first {
  accepted = connection (conns 1);
  attempt = record attempt { thread = some 10; node = some 400 };
}

first-Granted : Granted first free
first-Granted = record {
  memory = refl;
  stays = λ j e. e;
  node = 300;
  given = refl;
  exists = omega arith;
  unused = refl;
}

abbrev one_node : Heap
one_node = write free 300 (some (thrd 9 null null))

second-Granted : Granted second one_node
unfolding write
second-Granted = record {
  memory = refl;
  stays = λ j e. e;
  node = 400;
  given = refl;
  exists = omega arith;
  unused = refl;
}

abbrev with_one : Server
with_one = record (initial free ready) {
  num_requests = 1;
  workermgr = some (manager 1 300);
  heap = one_node;
}

abbrev with_two : Server
with_two = record with_one {
  num_requests = 2;
  workermgr = some (manager 2 400);
  heap = write (write one_node 400 (some (thrd 10 300 null))) 300 (some (thrd 9 null 400));
}

accepted_nine : turn (pos 10) first (initial free ready) ≡ running with_one
unfolding turn turn_with dispatch serve created initial wthread_create opened wait_slot
    started_worker is_run thr_register pushed registered_worker
accepted_nine = refl

accepted_ten : turn (pos 10) second with_one ≡ running with_two
unfolding turn turn_with dispatch serve created initial wthread_create opened wait_slot
    started_worker is_run thr_register pushed registered_worker set_last write
accepted_ten = refl

hired_nine : hired 10 first (initial free ready) ≡ 9 ∷ []
unfolding hired hired_in newcomer initial wthread_create opened wait_slot started_worker is_run
    thr_register pushed registered_worker
hired_nine = refl

hired_ten : hired 10 second with_one ≡ 10 ∷ []
unfolding hired hired_in newcomer initial wthread_create opened wait_slot started_worker is_run
    thr_register pushed registered_worker set_last write
hired_ten = refl

abbrev service : Server → List (ℕ × ℕ) → ℕ → Workers → Service
service server crew past workers = record {
  server = server;
  crew = crew;
  past = past;
  workers = workers;
}

abbrev IsRun : Service → Type 0
IsRun = Runs 10 env ready clients conns free

one_created : IsRun (service with_one ((9, 0) ∷ []) 0 (all_at_start one_list))
unfolding initial Server.goes_on
one_created =
    let new : IsRun (
        service with_one (numbered 0 (hired 10 first (initial free ready)) ++ []) 0
          (all_at_start one_list)) =
      next (begins refl) (accepts first first-Granted refl accepted_nine (λ some_new. refl)) in
    rw hired_nine at new

two_created : IsRun (service with_two ((10, 1) ∷ (9, 0) ∷ []) 0 (all_at_start one_list))
unfolding Server.goes_on initial
two_created =
    let new : IsRun (
        service with_two (numbered 1 (hired 10 second with_one) ++ (9, 0) ∷ []) 0
          (all_at_start one_list)) =
      next one_created (accepts second second-Granted refl accepted_ten (λ some_new. refl)) in
    rw hired_ten at new

-- the workers go on, and the accept loop waits
at_work :
    (server : Server) (crew : List (ℕ × ℕ)) (past : ℕ) {ws : Workers}
    → IsRun (service server crew past (all_at_start one_list))
    → Run (length crew + past) env one_list clients ws
    → IsRun (service server crew past ws)
at_work server crew past rs Workers.begin = rs
at_work server crew past rs (Workers.next r st) = next (at_work server crew past rs r) (works st)

both_ended : IsRun (service with_two ((10, 1) ∷ (9, 0) ∷ []) 0 both_end.0)
both_ended = at_work with_two ((10, 1) ∷ (9, 0) ∷ []) 0 two_created both_end.1

-- A live worker that has ended leaves.
left :
    {s : Service} (tid w : ℕ)
    → IsRun s
    → number_of tid s.crew ≡ some w
    → HasEnded s.workers 1 w
    → (server : Server) × IsRun (service server (gone tid s.crew) (suc s.past) s.workers)
left {s} tid w rs at end =
    let (_, _, _, exits, _) = Lives-Safe (Runs-Lives rs) (omega arith) (omega arith) in
    let (mgr, g, e) = exits tid (number_of-is_live tid w s.crew at) in
    (record s.server { workermgr = some mgr; heap = g }, next rs (leaves tid w at end e))

abbrev first_left : (server : Server) × IsRun (service server ((10, 1) ∷ []) 1 both_end.0)
first_left = left 9 0 both_ended refl (both_end.2 0 (omega arith))

abbrev both_left : (server : Server) × IsRun (service server [] 2 both_end.0)
both_left = left 10 1 first_left.1 refl (both_end.2 1 (omega arith))

Runs-AreServed_example :
    AreServed 2 env one_list clients conns both_end.0
    × (both_left.0.rblist ≡ one_list)
    × Counted both_left.0 2
Runs-AreServed_example =
    Runs-AreServed one_machine atoi options (codes "localhost/10040" ∷ []) ready_runs (omega arith)
      (omega arith) (omega arith) ((λ _. refl), (λ _. refl), λ _. refl) both_left.1 conns-Asks refl

-- no solver was created yet
created-IsSound : IsSound (all_at_start one_list)
created-IsSound w i = refl

Runs-AllLeave_example :
    AllLeave 10 env ready clients conns
      (IsDone env ready clients conns)
      (service with_two ((10, 1) ∷ (9, 0) ∷ []) 0 (all_at_start one_list))
Runs-AllLeave_example =
    Runs-AllLeave one_machine atoi options (codes "localhost/10040" ∷ []) ready_runs (omega arith)
      (omega arith) (omega arith) ((λ _. refl), (λ _. refl), λ _. refl) two_created conns-Asks
      created-IsSound
