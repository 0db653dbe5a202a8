-- ===== src/Threads.antt =====
-- thrmgr.c: the creation of threads, and the wait for them. The state that other threads and signals
-- change while a function looks at it is a sequence of what it sees, one entry for each look. The
-- count of a manager does not change while its mutex is held.
pub mod Wait
pub mod Limit
pub mod Reach
pub mod Ends
use rblpolicyd.Prelude.{
  ℕ, zero, suc, ◌+◌, Bool, true, false, not, ◌&&◌, Option, none, some, [], Bytes, codes, leb, ◌==◌,
  if◌then◌else◌,
}
use rblpolicyd.Prelude.Int.{ℤ, pos, negsuc}
use rblpolicyd.Globals.{AppState, is_run, is_exit}
use rblpolicyd.ThrMgr.{
  Ptr, null, Heap, Manager, manager, Run, returned, fault, out_of_fuel, thr_register,
  thr_unregister,
}

-- `-ERR_THR_TOOMANY`, `-ERR_THR_SYSERR` and `-ERR_THR_APPSTATE`
abbrev pub minus_toomany : ℤ
minus_toomany = negsuc 0

abbrev pub minus_syserr : ℤ
minus_syserr = negsuc 1

abbrev pub minus_appstate : ℤ
minus_appstate = negsuc 2

-- `thr_error`
unfoldable thr_error : ℤ → Bytes
thr_error (negsuc n) = []
thr_error (pos n) =
    if n == 0
    then codes "No error"
    else if n == 1
    then codes "Too many threads"
    else if n == 2
    then codes "Fatal OS error"
    else if n == 3
    then codes "Daemon is shutting down or reloading"
    else []

-- what `thr_waitcomplete` sees at one look: the number of workers and the state of the daemon
pub record Look : Type 0 where
  pub nthreads : ℕ
  pub appstate : AppState

unfoldable pub must_wait : Look → Bool
must_wait l = not (l.nthreads == 0) && not (is_exit l.appstate)

-- `for (err = 400; err > 0 && ...; --err)`
unfoldable pub wait_rounds : ℕ → (ℕ → Look) → ℕ → ℕ
wait_rounds zero look k = 0
wait_rounds (suc err) look k =
    let rest = wait_rounds err look (suc k) in if must_wait (look k) then rest else suc err

-- Without a manager it ends the process with 255, which is `none` here.
unfoldable pub thr_waitcomplete : Option Manager → (ℕ → Look) → Option ℕ
thr_waitcomplete none look = none
thr_waitcomplete (some mgr) look = some (wait_rounds 400 look 0)

-- What the system does for a new thread: memory for the manager, the states that are seen, the id of
-- the thread if it starts, and memory for its node.
pub record Attempt : Type 0 where
  pub memory : Bool
  pub appstate : ℕ → AppState
  pub thread : Option ℕ
  pub node : Option Ptr

-- A creation that ends: the code, whether the connection was closed, the count that the statistics
-- get, and the manager and the heap behind it. `undefined` is an access through NULL.
pub data Creation : Type 0 where
  ended : ℤ → Bool → Option ℕ → Manager → Heap → Creation
  undefined : Creation

-- `if (!workermgr)`
unfoldable pub opened : Bool → Option Manager → Option Manager
opened memory (some mgr) = some mgr
opened memory none = if memory then some (manager 0 null) else none

-- what the wait for a free thread leaves: `err`, and how often `appstate` was read
pub record Waited : Type 0 where
  pub err : ℕ
  pub reads : ℕ

abbrev pub waited : ℕ → ℕ → Waited
waited e k = record { err = e; reads = k }

-- `for (err = 20; err > 0 && full && appstate == APP_RUN; --err)`
unfoldable pub wait_slot : ℕ → Bool → (ℕ → AppState) → ℕ → Waited
wait_slot zero full app k = waited 0 k
wait_slot (suc err) full app k =
    let rest = wait_slot err full app (suc k) in
    if full then (if is_run (app k) then rest else waited (suc err) (suc k)) else waited (suc err) k

unfoldable pub registered_worker : Run → Creation
registered_worker (returned true mgr h) = ended (pos 0) false (some mgr.nthreads) mgr h
registered_worker (returned false mgr h) = ended minus_syserr true none mgr h
registered_worker fault = undefined
registered_worker out_of_fuel = undefined

-- from the second test of `appstate` on
unfoldable pub started_worker : Attempt → Waited → Manager → Heap → Creation
started_worker env w mgr h =
    if not (is_run (env.appstate w.reads))
    then ended minus_appstate false none mgr h
    else if w.err == 0
    then ended minus_toomany false none mgr h
    else elim env.thread [
      | none ↦ ended minus_syserr false none mgr h
      | some tid ↦ registered_worker (thr_register mgr tid env.node h)
    ]

unfoldable pub wthread_create : ℕ → Attempt → Option Manager → Heap → Creation
wthread_create maxthreads env workermgr h = elim (opened env.memory workermgr) [
  | none ↦ undefined
  | some mgr ↦ started_worker env (wait_slot 20 (leb maxthreads mgr.nthreads) env.appstate 0) mgr h
]

unfoldable pub registered_solver : Run → Creation
registered_solver (returned true mgr h) = ended (pos 0) false (some mgr.nthreads) mgr h
registered_solver (returned false mgr h) = ended minus_syserr false none mgr h
registered_solver fault = undefined
registered_solver out_of_fuel = undefined

unfoldable pub rthread_create : Attempt → Option Manager → Heap → Creation
rthread_create env solvermgr h = elim (opened env.memory solvermgr) [
  | none ↦ undefined
  | some mgr ↦ elim env.thread [
    | none ↦ ended minus_syserr false none mgr h
    | some tid ↦ registered_solver (thr_register mgr tid env.node h)
  ]
]

-- A thread that ends unregisters itself, whatever comes of it. Without a manager `wthread_exit` ends
-- the process; `rthread_exit` does not ask.
pub data Exit : Type 0 where
  thread_left : Manager → Heap → Exit
  process_exits : Exit
  broken : Exit

unfoldable pub after_unregister : Run → Exit
after_unregister (returned found mgr h) = thread_left mgr h
after_unregister fault = broken
after_unregister out_of_fuel = broken

unfoldable pub wthread_exit : Option Manager → ℕ → Heap → Exit
wthread_exit none tid h = process_exits
wthread_exit (some mgr) tid h = after_unregister (thr_unregister mgr tid h)

unfoldable pub rthread_exit : Option Manager → ℕ → Heap → Exit
rthread_exit none tid h = broken
rthread_exit (some mgr) tid h = after_unregister (thr_unregister mgr tid h)
