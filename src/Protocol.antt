-- ===== src/Protocol.antt =====
-- worker.c: how a worker waits for its solvers. They share the count `resolvers`, its mutex and a
-- condition. Each step is one access to what is shared, or what a thread does by itself in between.
-- What the worker does for one entry of the list besides (memory, names) is in Worker, the lookup in
-- Solver, and the creation of a thread in Threads.
pub mod Family
pub mod Inv
pub mod Counting
pub mod Done
pub mod Weight
pub mod Progress
pub mod Refine
use rblpolicyd.Prelude.{ℕ, suc, ◌+◌, ◌-◌, ◌^◌, ◌%◌, ◌≤◌, ◌<◌, ◌≡◌, ◌≢◌, Bool, true, false}
use rblpolicyd.Protocol.Family.{update}

-- Where the worker stands. `creating i` is the head of the `for` at the entry `i`; in `locked`,
-- `counted` and `created` it holds the mutex for that entry. `testing` is the head of the `while`;
-- `sleeping` and `woken` are in `pthread_cond_wait`, before and after the wakeup.
pub data WorkerPc : Type 0 where
  creating : ℕ → WorkerPc
  locked : ℕ → WorkerPc
  counted : ℕ → WorkerPc
  created : ℕ → WorkerPc
  testing : WorkerPc
  sleeping : WorkerPc
  woken : WorkerPc
  done : WorkerPc

-- Where the solver of an entry stands. `uncreated`: `pthread_create` failed. `lookup true`: the thread
-- could not be registered, and was cancelled; `dead`: the cancellation came before the lookup ended.
pub data SolverPc : Type 0 where
  unstarted : SolverPc
  uncreated : SolverPc
  lookup : Bool → SolverPc
  dead : SolverPc
  found : SolverPc
  entered : SolverPc
  decremented : SolverPc
  announced : SolverPc
  ended : SolverPc

-- the mutex `resolvers_`
pub data Holder : Type 0 where
  nobody : Holder
  by_worker : Holder
  by_solver : ℕ → Holder

-- `score i` is `resdata[i]->score`.
pub record Query : Type 0 where
  pub resolvers : ℕ
  pub holder : Holder
  pub worker : WorkerPc
  pub solver : ℕ → SolverPc
  pub score : ℕ → ℕ

-- `resolvers` is an `int`, given by its 32 bits.
abbrev pub int_mod : ℕ
int_mod = 2 ^ 32

unfoldable pub incremented : ℕ → ℕ
incremented r = (r + 1) % int_mod

unfoldable pub decremented_by_one : ℕ → ℕ
decremented_by_one r = (r + (int_mod - 1)) % int_mod

-- what `pthread_cond_broadcast` does to the worker
unfoldable pub broadcast_to : WorkerPc → WorkerPc
broadcast_to sleeping = woken
broadcast_to w = w

-- One step, for `n` entries; `answer i` is the score that the lookup for the entry `i` comes to.
pub data Move (n : ℕ) (answer : ℕ → ℕ) (q : Query) : Query → Type 0 where
  lock_entry :
      {i : ℕ}
      → q.worker ≡ creating i
      → i < n
      → q.holder ≡ nobody
      → Move n answer q (record q { holder = by_worker; worker = locked i })
  count :
      {i : ℕ}
      → q.worker ≡ locked i
      → Move n answer q (record q { resolvers = incremented q.resolvers; worker = counted i })
  create :
      {i : ℕ} (cancelled : Bool)
      → q.worker ≡ counted i
      → Move n answer q
          (record q { worker = created i; solver = update q.solver i (lookup cancelled) })
  create_failed :
      {i : ℕ}
      → q.worker ≡ counted i
      → Move n answer q (record q { worker = created i; solver = update q.solver i uncreated })
  unlock_entry :
      {i : ℕ}
      → q.worker ≡ created i
      → Move n answer q (record q { holder = nobody; worker = creating (suc i) })
  lock_wait :
      {i : ℕ}
      → q.worker ≡ creating i
      → n ≤ i
      → q.holder ≡ nobody
      → Move n answer q (record q { holder = by_worker; worker = testing })
  pass : q.worker ≡ testing → q.resolvers ≡ 0 → Move n answer q (record q { worker = done })
  sleep :
      q.worker ≡ testing
      → q.resolvers ≢ 0
      → Move n answer q (record q { holder = nobody; worker = sleeping })
  wake_up : q.worker ≡ sleeping → Move n answer q (record q { worker = woken })
  lock_again :
      q.worker ≡ woken
      → q.holder ≡ nobody
      → Move n answer q (record q { holder = by_worker; worker = testing })
  find :
      (i : ℕ) {cancelled : Bool}
      → q.solver i ≡ lookup cancelled
      → Move n answer q
          (record q { solver = update q.solver i found; score = update q.score i (answer i) })
  cancel :
      (i : ℕ)
      → q.solver i ≡ lookup true
      → Move n answer q (record q { solver = update q.solver i dead })
  lock_solver :
      (i : ℕ)
      → q.solver i ≡ found
      → q.holder ≡ nobody
      → Move n answer q (record q { holder = by_solver i; solver = update q.solver i entered })
  decrement :
      (i : ℕ)
      → q.solver i ≡ entered
      → Move n answer q (record q {
        resolvers = decremented_by_one q.resolvers;
        solver = update q.solver i decremented;
      })
  broadcast :
      (i : ℕ)
      → q.solver i ≡ decremented
      → Move n answer q
          (record q { worker = broadcast_to q.worker; solver = update q.solver i announced })
  unlock_solver :
      (i : ℕ)
      → q.solver i ≡ announced
      → Move n answer q (record q { holder = nobody; solver = update q.solver i ended })

abbrev pub start : Query
start = record {
  resolvers = 0;
  holder = nobody;
  worker = creating 0;
  solver = λ _. unstarted;
  score = λ _. 0;
}

-- The states of a query, with any interleaving of the threads.
pub data Reach (n : ℕ) (answer : ℕ → ℕ) : Query → Type 0 where
  at_start : Reach n answer start
  after : {q q' : Query} → Reach n answer q → Move n answer q q' → Reach n answer q'
