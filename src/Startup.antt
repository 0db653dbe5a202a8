-- ===== src/Startup.antt =====
-- rblpolicyd.c: `main`. `getopt_long` and `atoi`, the resolver, the sockets and `fork` are given by what
-- they answer; messages, and memory that is freed before `exit`, are left out.
pub mod Options
pub mod Printed
pub mod Arguments
pub mod Starts
pub mod Serving
use rblpolicyd.Prelude.{
  ℕ, zero, suc, ◌+◌, ◌%◌, Bool, true, false, not, ◌&&◌, ◌||◌, Option, none, some, List, [], ◌∷◌,
  Bytes, codes, length, ltb, leb, ◌==◌, if◌then◌else◌,
}
use rblpolicyd.Prelude.Int.{ℤ, pos}
use rblpolicyd.Globals.{app_run}
use rblpolicyd.ThrMgr.{Heap}
use rblpolicyd.Server.{Server, Turn, Served, running, stopped, exited, broken, server_loop}
use rblpolicyd.CfgFile.{CfgItem, cfg_read, cfg_pointer}
use rblpolicyd.PidFile.{Files, Check, checked, undefined, pid_check}

-- A part of `main` goes on with a value, or ends the process with a code, or does what C leaves
-- undefined.
pub data Step {ℓ} (A : Type ℓ) : Type ℓ where
  goes : A → Step A
  exits : ℕ → Step A
  crashes : Step A

abbrev pub and_then {ℓ κ} : {A : Type ℓ} → {B : Type κ} → Step A → (A → Step B) → Step B
and_then (goes a) f = f a
and_then (exits n) f = exits n
and_then crashes f = crashes

-- The first three are of type `char`.
pub record Flags : Type 0 where
  pub verbose : ℕ
  pub debug : ℕ
  pub foreground : ℕ
  pub cfgpath : Bytes
  pub pidfile : Bytes
  pub maxthreads : ℤ

abbrev pub char_mod : ℕ
char_mod = 256

unfoldable pub defaults : Flags
defaults = record {
  verbose = 0;
  debug = 0;
  foreground = 0;
  cfgpath = codes "/etc/rbl-policyd.conf";
  pidfile = codes "/var/run/rblpolicyd.pid";
  maxthreads = pos 10;
}

-- `usage` exits; what it prints before is in Printed.
unfoldable pub usage {ℓ} : {A : Type ℓ} → ℕ → Step A
usage status = exits status

-- the `switch` on one result of `getopt_long`, with `optarg`
unfoldable pub option : (atoi : Bytes → ℤ) → ℕ → Bytes → Flags → Step Flags
option atoi c optarg o =
    if c == b'v'
    then goes (record o { verbose = (o.verbose + 1) % char_mod })
    else if c == b'd'
    then goes (record o { debug = (o.debug + 1) % char_mod })
    else if c == b'f'
    then goes (record o { foreground = (o.foreground + 1) % char_mod })
    else if c == b'c'
    then goes (record o { cfgpath = optarg })
    else if c == b'p'
    then goes (record o { pidfile = optarg })
    else if c == b'm'
    then goes (record o { maxthreads = atoi optarg })
    else if c == b'h'
    then usage 0
    else if c == b'V'
    then exits 0
    else usage 1

-- `while (1)`, over the results up to -1
unfoldable pub option_loop : (atoi : Bytes → ℤ) → List (ℕ × Bytes) → Flags → Step Flags
option_loop atoi [] o = goes o
option_loop atoi ((c, optarg) ∷ rest) o =
    and_then (option atoi c optarg o) (λ o'. option_loop atoi rest o')

-- `argc - optind != 1`
unfoldable pub port_argument : List Bytes → Step Bytes
port_argument [] = usage 1
port_argument (port ∷ []) = goes port
port_argument (port ∷ next ∷ more) = usage 1

pub data Address : Type 0 where
  unix_path : Bytes → Address
  inet : Bytes → Address

pub data Fork : Type 0 where
  parent : Fork
  child : Fork
  no_process : Fork

-- What the system answers. A socket is a descriptor, or -1 as `none`; an address of `getaddrinfo` is
-- given by its bytes.
pub record Machine : Type 0 where
  pub files : Bytes → Files
  pub calloc : ℕ → Bool
  pub read : Bytes → Option Bytes
  pub res_init : Bool
  pub socket : Option ℕ
  pub getaddrinfo : Option Bytes → Bytes → Option Bytes
  pub bind : Option ℕ → Address → Bool
  pub listen : Option ℕ → Bool
  pub fork : Fork

unfoldable pub pidfile_free : Check → Step {0} Unit
pidfile_free (checked true unlinked) = goes tt
pidfile_free (checked false unlinked) = exits 1
pidfile_free undefined = crashes

-- `(rblist = cfg_read(cfgpath)) == NULL`
unfoldable pub configured : List CfgItem → Step (List CfgItem)
configured [] = exits 1
configured (it ∷ rblist) = goes (it ∷ rblist)

-- `if (!sock)`: only descriptor 0 counts as an error.
unfoldable pub opened_socket : Option ℕ → Step (Option ℕ)
opened_socket none = goes none
opened_socket (some fd) = if fd == 0 then exits 1 else goes (some fd)

-- the part of the text before the first `/`, and the part behind it
unfoldable pub at_slash : Bytes → Option (Bytes × Bytes)
at_slash [] = none
at_slash (c ∷ cs) =
    let rest = at_slash cs in
    if c == b'/'
    then some ([], cs)
    else elim rest [ none ↦ none | some (host, port) ↦ some (c ∷ host, port) ]

-- `strcpy(saun.sun_path, port)`, into 108 bytes
unfoldable pub unix_address : Bytes → Step Address
unix_address port = if ltb (length port) 108 then goes (unix_path port) else crashes

-- `memcpy(&saip, addr->ai_addr, addr->ai_addrlen)`, into 16 bytes
unfoldable pub inet_address : Option Bytes → Step Address
inet_address none = exits 1
inet_address (some addr) = if leb (length addr) 16 then goes (inet addr) else crashes

-- an argument without a `/` at its front
unfoldable pub host_address : Machine → Bytes → Option (Bytes × Bytes) → Step Address
host_address m port none = inet_address (m.getaddrinfo none port)
host_address m port (some (host, service)) = inet_address (m.getaddrinfo (some host) service)

-- which kind of address the argument is
unfoldable pub address_of : Machine → Bytes → Step Address
address_of m [] = host_address m [] none
address_of m (c ∷ cs) =
    if c == b'/' then unix_address (c ∷ cs) else host_address m (c ∷ cs) (at_slash (c ∷ cs))

unfoldable pub bound : Machine → Option ℕ → Address → Step Address
bound m sock sa = if m.bind sock sa then goes sa else exits 1

unfoldable pub listening : Machine → Option ℕ → Step (Option ℕ)
listening m sock = if m.listen sock then goes sock else exits 1

-- The parent's process ends with 0.
unfoldable pub background : Machine → Flags → Step {0} Unit
background m o =
    if (o.foreground == 0) && (o.debug == 0)
    then elim m.fork [ parent ↦ exits 0 | child ↦ goes tt | no_process ↦ exits 1 ]
    else goes tt

-- what `server` is called with, and the globals that it reads
pub record Ready : Type 0 where
  pub flags : Flags
  pub rblist : List CfgItem
  pub sock : Option ℕ
  pub address : Address

-- from the socket on
unfoldable pub open_server : Machine → Flags → List CfgItem → Bytes → Step Ready
open_server m o rblist port = and_then (opened_socket m.socket) (λ sock.
    and_then (address_of m port) (λ sa. and_then (bound m sock sa) (λ sa'.
      and_then (listening m sock) (λ sock'.
        and_then (background m o)
          (λ _. goes (record { flags = o; rblist = rblist; sock = sock'; address = sa' }))))))

-- from the options on
unfoldable pub start : Machine → Flags → Bytes → Step Ready
start m o port = and_then (pidfile_free (pid_check (m.files o.pidfile))) (λ _.
    and_then (configured (cfg_pointer (cfg_read m.calloc (m.read o.cfgpath))))
      (λ rblist. if m.res_init then open_server m o rblist port else exits 1))

-- `main` up to `server(sock, sa, salen)`: the results of `getopt_long`, and the arguments behind them
unfoldable pub main : Machine → (atoi : Bytes → ℤ) → List (ℕ × Bytes) → List Bytes → Step Ready
main m atoi options arguments =
    and_then (option_loop atoi options defaults)
      (λ o. and_then (port_argument arguments) (λ port. start m o port))

-- the state that `server` begins with
unfoldable pub initial : Heap → Ready → Server
initial h r = record {
  appstate = app_run;
  rblist = r.rblist;
  num_requests = 0;
  listening = true;
  closed = 0;
  workermgr = none;
  heap = h;
}

-- What `main` does behind `server`: the socket is shut down and closed, and the process ends with 0.
unfoldable pub shut_down : Served → Step Server
shut_down (running s) = goes s
shut_down (stopped s) = exits 0
shut_down (exited code) = exits code
shut_down broken = crashes

-- the whole of `main`, with the turns of the accept loop; it `goes` on where the loop still waits
unfoldable pub daemon :
    Machine → (atoi : Bytes → ℤ) → List (ℕ × Bytes) → List Bytes → Heap → List Turn → Step Server
daemon m atoi options arguments h turns =
    and_then (main m atoi options arguments)
      (λ r. shut_down (server_loop r.flags.maxthreads turns (initial h r)))
