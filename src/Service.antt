-- ===== src/Service.antt =====
-- The whole daemon behind the end of `main`: the accept loop of server.c and thrmgr.c as in
-- Server.Crew, and the calls of `worker_th` in worker.c as in Workers, which its workers make. The
-- workers are numbered in the order in which they were created.
pub mod Seen
pub mod Idle
pub mod Empty
use rblpolicyd.Prelude.{
  ℕ, suc, ◌+◌, ◌<◌, ◌≡◌, true, Option, none, some, List, [], ◌∷◌, ◌++◌, length, ◌==◌, if◌then◌else◌,
}
use rblpolicyd.Prelude.Int.{pos}
use rblpolicyd.Request.{Event}
use rblpolicyd.Address.{Octets}
use rblpolicyd.ThrMgr.{Heap, Manager}
use rblpolicyd.Threads.{thread_left, wthread_exit}
use rblpolicyd.Worker.{Env}
use rblpolicyd.Startup.{Ready, initial}
use rblpolicyd.Server.{Server, connection, Turn, running, turn, goes_on}
use rblpolicyd.Server.Crew.{Daemon, hired, Granted}
use rblpolicyd.Workers.{Workers, Step, answer_to, all_at_start}
use rblpolicyd.Workers.InOrder.{HasEnded}

-- `crew` has the thread and the number of each live worker, the latest in front; `past` workers have
-- left.
pub record Service : Type 0 where
  pub server : Server
  pub crew : List (ℕ × ℕ)
  pub past : ℕ
  pub workers : Workers

-- how many workers were created
abbrev pub total : Service → ℕ
total s = length s.crew + s.past

abbrev pub threads : List (ℕ × ℕ) → List ℕ
threads [] = []
threads ((t, w) ∷ crew) = t ∷ threads crew

abbrev pub daemon_of : Service → Daemon
daemon_of s = record { server = s.server; live = threads s.crew; past = s.past }

-- new threads with the numbers from `k` on
abbrev pub numbered : ℕ → List ℕ → List (ℕ × ℕ)
numbered k [] = []
numbered k (t ∷ ts) = (t, k + length ts) ∷ numbered k ts

-- the number of the worker that runs in a thread
abbrev pub number_of : ℕ → List (ℕ × ℕ) → Option ℕ
number_of t [] = none
number_of t ((u, w) ∷ crew) = if u == t then some w else number_of t crew

abbrev pub gone : ℕ → List (ℕ × ℕ) → List (ℕ × ℕ)
gone t [] = []
gone t ((u, w) ∷ crew) = if u == t then crew else (u, w) ∷ gone t crew

-- A turn of the accept loop; or a step of a worker that was created, or of one of its solvers; or a
-- worker that has come to the end of `worker_th` leaves. The connection of the worker number `k` brings
-- `conn k`, and asks for `client k`.
module _ (maxthreads : ℕ) (env : Env) (r : Ready) (client : ℕ → Octets)
    (conn : ℕ → List Event) where
  pub data ServiceStep (s : Service) : Service → Type 0 where
    accepts :
        {server : Server} (t : Turn)
        → Granted t s.server.heap
        → goes_on s.server.appstate ≡ true
        → turn (pos maxthreads) t s.server ≡ running server
        → (0 < length (hired maxthreads t s.server) → t.accepted ≡ connection (conn (total s)))
        → ServiceStep s (record s {
          server = server;
          crew = numbered (total s) (hired maxthreads t s.server) ++ s.crew;
        })
    works :
        {workers : Workers}
        → Step (total s) (length r.rblist) (answer_to env r.rblist client) s.workers workers
        → ServiceStep s (record s { workers = workers })
    leaves :
        {mgr : Manager} {h : Heap} (tid w : ℕ)
        → number_of tid s.crew ≡ some w
        → HasEnded s.workers (length r.rblist) w
        → wthread_exit s.server.workermgr tid s.server.heap ≡ thread_left mgr h
        → ServiceStep s (record s {
          server = record s.server { workermgr = some mgr; heap = h };
          crew = gone tid s.crew;
          past = suc s.past;
        })

  -- The states that the daemon comes to, with any interleaving.
  pub data Runs (h : Heap) : Service → Type 0 where
    begins :
        r.flags.maxthreads ≡ pos maxthreads
        → Runs h
            (record { server = initial h r; crew = []; past = 0; workers = all_at_start r.rblist })
    next : {s s' : Service} → Runs h s → ServiceStep s s' → Runs h s'
