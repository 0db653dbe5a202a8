-- ===== src/Tests/Daemon.antt =====
-- The accept loop, the start, and the serial query at concrete inputs.
use rblpolicyd.Prelude.{ℕ, ◌≡◌, refl, true, false, none, some, List, [], ◌∷◌, Bytes, codes}
use rblpolicyd.Prelude.Int.{ℤ, pos}
use rblpolicyd.CString.{c_string, drop_space, is_space}
use rblpolicyd.CString.Strtol.{
  strtol, strtol_sign, convert, signed, scan_unsigned, scan_digits, digit_value,
}
use rblpolicyd.Globals.{is_run, app_run, app_reload}
use rblpolicyd.CfgFile.{
  new_item, cfg_read, cfg_pointer, cfg_loop, cfg_line, cfg_text, cfg_fields, check_weight,
  cfg_cleanline, before_hash, scan_word, fgets,
}
use rblpolicyd.ThrMgr.{manager}
use rblpolicyd.PidFile.{pid_check}
use rblpolicyd.Server
use rblpolicyd.Server.{
  exited, goes_on, turn_with, refused, Server, connection, failure, Turn, server_loop,
}
use rblpolicyd.Server.Unthreaded.{server_loop-unthreaded}
use rblpolicyd.Startup.{
  goes, child, Machine, Ready, Flags, inet, defaults, option, option_loop, port_argument,
  pidfile_free, configured, opened_socket, at_slash, inet_address, host_address, address_of, bound,
  listening, background, open_server, start, main, initial, shut_down, daemon,
}
use rblpolicyd.Worker
use rblpolicyd.Request
use rblpolicyd.Request.{read_loop, timeout}
use rblpolicyd.Worker.{replied, dunno, worker_for, worker_th}
use rblpolicyd.Tests.Managers.{attempt, look, free}
use rblpolicyd.Tests.Queries.{env, rblist, conn}

abbrev pub server : Server
server = record {
  appstate = app_run;
  rblist = rblist;
  num_requests = 0;
  listening = true;
  closed = 0;
  workermgr = none;
  heap = free;
}

abbrev file : Bytes
file = codes "a.b 5\n"

abbrev turn : Turn
turn = record {
  signal = false;
  accepted = connection conn;
  attempt = attempt;
  looks = look;
  calloc = λ _. true;
  file = some file;
  env = env;
  self = 1;
}

abbrev reloading : Server
reloading = record server { appstate = app_reload; workermgr = some (manager 0 0) }

abbrev pub machine : Machine
machine = record {
  files = λ _. record { stat = none; contents = none; kill_succeeds = λ _. false };
  calloc = λ _. true;
  read = λ _. some file;
  res_init = true;
  socket = some 3;
  getaddrinfo = λ host service. some (codes "sixteen bytes...");
  bind = λ sock sa. true;
  listen = λ sock. true;
  fork = child;
}

abbrev pub flags : Flags
flags = record {
  verbose = 1;
  debug = 0;
  foreground = 0;
  cfgpath = codes "c";
  pidfile = codes "/var/run/rblpolicyd.pid";
  maxthreads = pos 10;
}

abbrev ready : Ready
ready = record {
  flags = flags;
  rblist = new_item (codes "a.b") 5 ∷ [];
  sock = some 3;
  address = inet (codes "sixteen bytes...");
}

abbrev pub options : List (ℕ × Bytes)
options = (b'v', []) ∷ (b'c', codes "c") ∷ []

abbrev pub atoi : Bytes → ℤ
atoi s = (strtol s).0

main_runs : main machine atoi options (codes "localhost/10040" ∷ []) ≡ goes ready
unfolding main option_loop option defaults port_argument start pidfile_free pid_check configured
    cfg_pointer cfg_read cfg_loop cfg_line cfg_text cfg_fields check_weight cfg_cleanline
    before_hash scan_word fgets c_string drop_space is_space strtol strtol_sign convert signed
    scan_unsigned scan_digits digit_value open_server opened_socket address_of host_address at_slash
    inet_address bound listening background
main_runs = refl

options_run : option_loop atoi options defaults ≡ goes flags
unfolding option_loop option defaults
options_run = refl

-- the daemon in its accept loop, before the first connection
abbrev waiting : Server
waiting = record {
  appstate = app_run;
  rblist = new_item (codes "a.b") 5 ∷ [];
  num_requests = 0;
  listening = true;
  closed = 0;
  workermgr = none;
  heap = free;
}

-- a signal that the accept loop does not look at interrupts it
abbrev interrupted : List Turn
interrupted = record turn { accepted = failure true } ∷ []

daemon_runs :
    daemon machine atoi options (codes "localhost/10040" ∷ []) free interrupted ≡ goes waiting
unfolding daemon initial shut_down server_loop goes_on Server.turn turn_with refused is_run
daemon_runs = rw main_runs refl

-- The request holds no address: it is answered without a question.
answered : worker_th env rblist (timeout ∷ []) ≡ replied dunno rblist
unfolding worker_th worker_for Worker.client_address Worker.requested_client Request.read_request
    read_loop Request.returned
answered = refl

server_loop-unthreaded_example :
    server_loop (pos 0) (record turn { accepted = connection (timeout ∷ []) } ∷ []) server
    ≡ exited 255
server_loop-unthreaded_example =
    server_loop-unthreaded (record turn { accepted = connection (timeout ∷ []) }) [] server
      (timeout ∷ []) dunno rblist refl refl refl refl answered
