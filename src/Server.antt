-- ===== src/Server.antt =====
-- server.c: the loop that accepts connections, with its signal handler and the reload. What the system
-- does in one turn of the loop is given beforehand; the workers' own replies are in Worker.
pub mod Reload
pub mod Loop
pub mod Kept
pub mod Unthreaded
pub mod Signals
pub mod Crew
use rblpolicyd.Prelude.{
  ℕ, ◌+◌, ◌%◌, ◌^◌, Bool, true, false, not, ◌&&◌, ◌||◌, Option, none, some, List, [], ◌∷◌, Bytes,
  ltb, ◌==◌, if◌then◌else◌,
}
use rblpolicyd.Prelude.Int.{ℤ, pos, negsuc}
use rblpolicyd.Globals.{AppState, app_run, app_reload, app_exit, app_error, is_run}
use rblpolicyd.CfgFile.{CfgItem, CfgResult, cfg_read, cfg_pointer}
use rblpolicyd.Request.{Event}
use rblpolicyd.ThrMgr.{Heap, Manager}
use rblpolicyd.Threads.{
  Look, Attempt, Creation, ended, undefined, thr_waitcomplete, wthread_create, Exit, thread_left,
  process_exits, wthread_exit,
}
use rblpolicyd.Worker.{Env, Outcome, replied, crashed, died, worker_th}

-- The variables that the loop reads and writes. `listening` says whether the socket is open, `closed`
-- how many connections the loop closed itself. The counters in `rblist` are left to the
-- worker threads; a worker that is called changes them here.
pub record Server : Type 0 where
  pub appstate : AppState
  pub rblist : List CfgItem
  pub num_requests : ℕ
  pub listening : Bool
  pub closed : ℕ
  pub workermgr : Option Manager
  pub heap : Heap

-- what `accept` returns: a connection with what it will deliver, or an error, which is EINTR or not
pub data Accepted : Type 0 where
  connection : List Event → Accepted
  failure : Bool → Accepted

-- One turn: whether SIGTERM or SIGINT comes before `appstate` is looked at again, and what `accept`,
-- the creation of a thread, the wait for the workers and the configuration file give in it; `self` is
-- the id of the accepting thread.
pub record Turn : Type 0 where
  pub signal : Bool
  pub accepted : Accepted
  pub attempt : Attempt
  pub looks : ℕ → Look
  pub calloc : ℕ → Bool
  pub file : Option Bytes
  pub env : Env
  pub self : ℕ

-- The loop goes on, or the function returns, or the process ends with a code or with undefined
-- behaviour.
pub data Served : Type 0 where
  running : Server → Served
  stopped : Server → Served
  exited : ℕ → Served
  broken : Served

-- `sigterm`
unfoldable pub sigterm : Server → Server
sigterm s = record s { appstate = app_exit }

-- `accept` failed
unfoldable pub refused : Bool → Server → Served
refused true s = if is_run s.appstate then running s else stopped s
refused false s =
    stopped (record s {
      listening = false;
      appstate = if is_run s.appstate then app_error else s.appstate;
    })

unfoldable pub created : Server → Creation → Served
created s (ended (pos c) closed count mgr h) = running (record s {
  workermgr = some mgr;
  heap = h;
  closed = if c == 0 then s.closed else s.closed + 1;
})
created s (ended (negsuc c) closed count mgr h) = running (record s {
  workermgr = some mgr;
  heap = h;
  closed = if closed then s.closed + 2 else s.closed + 1;
})
created s undefined = broken

-- With no threads allowed, `worker_th` is a plain call, with `wthread_exit` at its end.
unfoldable pub exited_worker : Server → Exit → Served
exited_worker s (thread_left mgr h) = running (record s { workermgr = some mgr; heap = h })
exited_worker s process_exits = exited 255
exited_worker s Exit.broken = broken

unfoldable pub called : ℕ → Server → Outcome → Served
called self s (replied text rblist) =
    exited_worker (record s { rblist = rblist }) (wthread_exit s.workermgr self s.heap)
called self s crashed = broken
called self s died = exited 1

-- `case APP_RUN`
unfoldable pub serve : ℤ → Turn → List Event → Server → Served
serve (pos maxthreads) t conn s =
    if ltb 0 maxthreads
    then created s (wthread_create maxthreads t.attempt s.workermgr s.heap)
    else called t.self s (worker_th t.env s.rblist conn)
serve (negsuc n) t conn s = called t.self s (worker_th t.env s.rblist conn)

-- the list behind `cfg_read`: NULL keeps the old one
unfoldable pub replaced : List CfgItem → List CfgItem → List CfgItem
replaced rblist [] = rblist
replaced rblist (it ∷ newlist) = it ∷ newlist

-- behind `thr_waitcomplete`, which has returned `ret`
unfoldable pub reload_behind : Turn → Server → Option ℕ → Served
reload_behind t s none = exited 255
reload_behind t s (some ret) = running (
    if ret == 0
    then record s {
      appstate = app_run;
      rblist = replaced s.rblist (cfg_pointer (cfg_read t.calloc t.file));
    }
    else record s { appstate = app_run })

-- `case APP_RELOAD`
unfoldable pub reload : Turn → Server → Served
reload t s = reload_behind t s (thr_waitcomplete s.workermgr t.looks)

-- `switch (appstate)`
unfoldable pub dispatch : ℤ → Turn → List Event → Server → AppState → Served
dispatch maxthreads t conn s app_run =
    serve maxthreads t conn (record s { num_requests = (s.num_requests + 1) % 2 ^ 32 })
dispatch maxthreads t conn s app_reload = reload t s
dispatch maxthreads t conn s app_exit = running s
dispatch maxthreads t conn s app_error = running s

unfoldable pub turn_with : ℤ → Turn → Server → Accepted → Served
turn_with maxthreads t s (connection conn) = dispatch maxthreads t conn s s.appstate
turn_with maxthreads t s (failure eintr) = refused eintr s

-- the body of the loop
unfoldable pub turn : ℤ → Turn → Server → Served
turn maxthreads t s = turn_with maxthreads t (if t.signal then sigterm s else s) t.accepted

-- `appstate != APP_EXIT && appstate != APP_ERROR`
unfoldable pub goes_on : AppState → Bool
goes_on app_run = true
goes_on app_reload = true
goes_on app_exit = false
goes_on app_error = false

-- The loop for as many turns as are given.
unfoldable pub server_loop : ℤ → List Turn → Server → Served
server_loop maxthreads [] s = if goes_on s.appstate then running s else stopped s
server_loop maxthreads (t ∷ ts) s =
    if goes_on s.appstate
    then elim (turn maxthreads t s) [
      | running s' ↦ server_loop maxthreads ts s'
      | stopped s' ↦ stopped s'
      | exited code ↦ exited code
      | broken ↦ broken
    ]
    else stopped s
