-- ===== src/Server/Crew.antt =====
-- server.c, thrmgr.c: the accept loop of `server` with worker threads, and the workers that it has
-- created, which leave their manager when they end. `wthread_create` and `wthread_exit` change the
-- list with the manager's mutex held, so that a turn and the end of a worker come one after the
-- other. The walk along the list behind the mutex, which only counts for a message, is in
-- ThrMgr.Walk and left out here.
pub mod Listed
pub mod Hiring
pub mod Safe
use rblpolicyd.Prelude.{
  ℕ, zero, suc, ◌≡◌, ◌≢◌, Bool, true, false, ◌||◌, Option, none, some, List, [], ◌∷◌, ◌++◌, ◌==◌,
  if◌then◌else◌,
}
use rblpolicyd.Prelude.Int.{pos}
use rblpolicyd.Globals.{AppState, app_run}
use rblpolicyd.Request.{Event}
use rblpolicyd.ThrMgr.{Ptr, null, Heap, Manager}
use rblpolicyd.ThrMgr.Members.{without}
use rblpolicyd.Threads.{Creation, ended, wthread_create, Exit, thread_left, wthread_exit}
use rblpolicyd.Threads.Limit.{NoReturn}
use rblpolicyd.Startup.{Ready, initial}
use rblpolicyd.Server.{
  Server, Accepted, connection, Turn, Served, running, stopped, exited, broken, sigterm, turn,
  goes_on,
}

-- `live` are the workers that were created and have not left the manager, the latest in front, and
-- `past` is how many have left.
pub record Daemon : Type 0 where
  pub server : Server
  pub live : List ℕ
  pub past : ℕ

abbrev pub is_live : ℕ → List ℕ → Bool
is_live t [] = false
is_live t (u ∷ us) = (u == t) || is_live t us

-- the thread of a creation that returned 0
unfoldable pub newcomer : Creation → Option ℕ → List ℕ
newcomer (ended (pos zero) closed count mgr h) (some tid) = tid ∷ []
newcomer c thread = []

unfoldable pub hired_in : ℕ → Turn → Server → Accepted → AppState → List ℕ
hired_in maxthreads t s (connection conn) app_run =
    newcomer (wthread_create maxthreads t.attempt s.workermgr s.heap) t.attempt.thread
hired_in maxthreads t s accepted appstate = []

-- the worker that a turn creates, if it does
unfoldable pub hired : ℕ → Turn → Server → List ℕ
hired maxthreads t s =
    let s' = if t.signal then sigterm s else s in hired_in maxthreads t s' t.accepted s'.appstate

-- What the system grants in a turn: memory for the manager, and a free block for the node of a thread.
-- While a thread is created the state of the daemon does not return to APP_RUN.
pub record Granted (t : Turn) (h : Heap) : Type 0 where
  pub memory : t.attempt.memory ≡ true
  pub stays : NoReturn t.attempt.appstate
  pub node : Ptr
  pub given : t.attempt.node ≡ some node
  pub exists : node ≢ null
  pub unused : h node ≡ none

-- One turn of the accept loop, or the end of one worker.
pub data CrewStep (maxthreads : ℕ) (d : Daemon) : Daemon → Type 0 where
  accepts :
      {s : Server} (t : Turn)
      → Granted t d.server.heap
      → goes_on d.server.appstate ≡ true
      → turn (pos maxthreads) t d.server ≡ running s
      → CrewStep maxthreads d
          (record d { server = s; live = hired maxthreads t d.server ++ d.live })
  leaves :
      {mgr : Manager} {h : Heap} (tid : ℕ)
      → is_live tid d.live ≡ true
      → wthread_exit d.server.workermgr tid d.server.heap ≡ thread_left mgr h
      → CrewStep maxthreads d (record d {
        server = record d.server { workermgr = some mgr; heap = h };
        live = without tid d.live;
        past = suc d.past;
      })

-- The states that a daemon comes to from the end of `main` on.
pub data Lives (maxthreads : ℕ) (h : Heap) (r : Ready) : Daemon → Type 0 where
  begins :
      r.flags.maxthreads ≡ pos maxthreads
      → Lives maxthreads h r (record { server = initial h r; live = []; past = 0 })
  next :
      {d d' : Daemon} → Lives maxthreads h r d → CrewStep maxthreads d d' → Lives maxthreads h r d'

-- The loop goes on, or the function has returned for good.
abbrev pub Orderly : Served → Type 0
Orderly (running s) = Unit
Orderly (stopped s) = goes_on s.appstate ≡ false
Orderly (exited code) = ⊥
Orderly broken = ⊥
