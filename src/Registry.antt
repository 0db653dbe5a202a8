-- ===== src/Registry.antt =====
-- thrmgr.c: the manager of the solver threads, as all callers of `rthread_create` and all solvers use
-- it at once. Each step is one access to what they share, or what a thread does while it holds a
-- mutex. A call of `rthread_create` has its own number, a solver its thread id. Memory for the manager
-- is always there; a node can be refused, so that `thr_register` fails. What `thr_register` and `thr_unregister` do under the mutex is in ThrMgr.
pub mod Inv
pub mod Listing
pub mod Safe
use rblpolicyd.Prelude.{ℕ, suc, ◌+◌, ◌<◌, ◌≡◌, ◌≢◌, Bool, true, false, Option, none, some}
use rblpolicyd.Protocol.Family.{update}
use rblpolicyd.ThrMgr.{
  Ptr, null, Heap, Manager, manager, returned, u32_mod, thr_register, thr_unregister,
}

-- Where a call of `rthread_create` stands: from `in_init` to `tested` it holds `solver_init_mutex`,
-- before the test for a manager, in its body, and behind it; in `in_manager`, `threaded` and
-- `finishing` it holds the manager's mutex, before and behind `pthread_create`, and behind
-- `thr_register`.
pub data CallerPc : Type 0 where
  outside : CallerPc
  in_init : CallerPc
  making : CallerPc
  tested : CallerPc
  past_init : CallerPc
  in_manager : CallerPc
  threaded : ℕ → CallerPc
  finishing : CallerPc
  left : CallerPc

-- Where a thread id stands. A solver runs from `pthread_create` on, not registered at first; in
-- `leaving` and `removed` it holds the manager's mutex in `thr_unregister`, with what that returns.
-- Then the id is free again. One that could not be registered is `cancelled`: it ends at a point where
-- it can be cancelled, or comes to `thr_unregister` before.
pub data ThreadPc : Type 0 where
  absent : ThreadPc
  unlisted : ThreadPc
  listed : ThreadPc
  cancelled : ThreadPc
  leaving : ThreadPc
  removed : Bool → ThreadPc

pub data Lock : Type 0 where
  unlocked : Lock
  of_caller : ℕ → Lock
  of_thread : ℕ → Lock

-- `made` counts the managers that were allocated; `lock` is the mutex of the one that `solvermgr`
-- points to; `short` says whether a registration has failed.
pub record Registry : Type 0 where
  pub solvermgr : Option Manager
  pub made : ℕ
  pub short : Bool
  pub heap : Heap
  pub init_mutex : Option ℕ
  pub lock : Lock
  pub caller : ℕ → CallerPc
  pub thread : ℕ → ThreadPc

-- what a registration does to its thread
unfoldable pub listed_as : ThreadPc → ThreadPc
listed_as unlisted = listed
listed_as t = t

-- a thread that has not come to `rthread_exit`
unfoldable pub is_running : ThreadPc → Bool
is_running unlisted = true
is_running listed = true
is_running cancelled = true
is_running _ = false

-- One step.
pub data Step (q : Registry) : Registry → Type 0 where
  enter :
      (k : ℕ)
      → q.caller k ≡ outside
      → q.init_mutex ≡ none
      → Step q (record q { init_mutex = some k; caller = update q.caller k in_init })
  miss :
      (k : ℕ)
      → q.caller k ≡ in_init
      → q.solvermgr ≡ none
      → Step q (record q { caller = update q.caller k making })
  make :
      (k : ℕ)
      → q.caller k ≡ making
      → Step q (record q {
        solvermgr = some (manager 0 null);
        made = suc q.made;
        lock = unlocked;
        caller = update q.caller k tested;
      })
  keep :
      (k : ℕ) {mgr : Manager}
      → q.caller k ≡ in_init
      → q.solvermgr ≡ some mgr
      → Step q (record q { caller = update q.caller k tested })
  leave_init :
      (k : ℕ)
      → q.caller k ≡ tested
      → Step q (record q { init_mutex = none; caller = update q.caller k past_init })
  lock_manager :
      (k : ℕ)
      → q.caller k ≡ past_init
      → q.lock ≡ unlocked
      → Step q (record q { lock = of_caller k; caller = update q.caller k in_manager })
  refuse :
      (k : ℕ) → q.caller k ≡ in_manager → Step q (record q { caller = update q.caller k finishing })
  spawn :
      (k tid : ℕ)
      → q.caller k ≡ in_manager
      → q.thread tid ≡ absent
      → Step q (record q {
        caller = update q.caller k (threaded tid);
        thread = update q.thread tid unlisted;
      })
  register :
      (k tid : ℕ) {mgr mgr' : Manager} {node : Ptr} {g : Heap}
      → q.caller k ≡ threaded tid
      → q.solvermgr ≡ some mgr
      → node ≢ null
      → q.heap node ≡ none
      → mgr.nthreads + 1 < u32_mod
      → thr_register mgr tid (some node) q.heap ≡ returned true mgr' g
      → Step q (record q {
        solvermgr = some mgr';
        heap = g;
        caller = update q.caller k finishing;
        thread = update q.thread tid (listed_as (q.thread tid));
      })
  fail_register :
      (k tid : ℕ) {mgr mgr' : Manager} {g : Heap}
      → q.caller k ≡ threaded tid
      → q.solvermgr ≡ some mgr
      → thr_register mgr tid none q.heap ≡ returned false mgr' g
      → Step q (record q {
        solvermgr = some mgr';
        short = true;
        heap = g;
        caller = update q.caller k finishing;
        thread = update q.thread tid cancelled;
      })
  die :
      (tid : ℕ)
      → q.thread tid ≡ cancelled
      → Step q (record q { thread = update q.thread tid absent })
  unlock_manager :
      (k : ℕ)
      → q.caller k ≡ finishing
      → Step q (record q { lock = unlocked; caller = update q.caller k left })
  leave :
      (tid : ℕ)
      → is_running (q.thread tid) ≡ true
      → q.lock ≡ unlocked
      → Step q (record q { lock = of_thread tid; thread = update q.thread tid leaving })
  remove :
      (tid : ℕ) {mgr mgr' : Manager} {found : Bool} {g : Heap}
      → q.thread tid ≡ leaving
      → q.solvermgr ≡ some mgr
      → thr_unregister mgr tid q.heap ≡ returned found mgr' g
      → Step q (record q {
        solvermgr = some mgr';
        heap = g;
        thread = update q.thread tid (removed found);
      })
  unlock_thread :
      (tid : ℕ) {found : Bool}
      → q.thread tid ≡ removed found
      → Step q (record q { lock = unlocked; thread = update q.thread tid absent })

unfoldable pub at_first : Heap → Registry
at_first h = record {
  solvermgr = none;
  made = 0;
  short = false;
  heap = h;
  init_mutex = none;
  lock = unlocked;
  caller = λ _. outside;
  thread = λ _. absent;
}

-- The states from the start of the daemon on, with any interleaving of the threads.
pub data Run (h : Heap) : Registry → Type 0 where
  begin : Run h (at_first h)
  next : {q q' : Registry} → Run h q → Step q q' → Run h q'
