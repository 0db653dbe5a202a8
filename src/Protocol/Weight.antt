-- ===== src/Protocol/Weight.antt =====
-- worker.c: what the worker and its solvers have before them, and which steps bring them nearer.
use rblpolicyd.Prelude.{ℕ, ◌+◌, ◌-◌, ◌*◌, Bool, true, false, not}
use rblpolicyd.Protocol.Family.{total}
use rblpolicyd.Protocol.{
  WorkerPc, creating, locked, counted, created, testing, sleeping, woken, done, SolverPc, unstarted,
  lookup, found, entered, decremented, announced, Query, Move, create, create_failed, wake_up,
  cancel,
}

-- what the threads have before them
abbrev pub solver_weight : SolverPc → ℕ
solver_weight unstarted = 10
solver_weight (lookup b) = 9
solver_weight found = 8
solver_weight entered = 7
solver_weight decremented = 6
solver_weight announced = 2
solver_weight _ = 0

abbrev worker_weight : ℕ → WorkerPc → ℕ
worker_weight n (creating i) = 4 * (n - i) + 10
worker_weight n (locked i) = 4 * (n - i) + 9
worker_weight n (counted i) = 4 * (n - i) + 8
worker_weight n (created i) = 4 * (n - i) + 7
worker_weight n testing = 2
worker_weight n sleeping = 1
worker_weight n woken = 3
worker_weight n done = 0

abbrev pub weight : ℕ → Query → ℕ
weight n q = total solver_weight n q.solver + worker_weight n q.worker

-- a step that goes well: no thread is refused or cancelled, and no wakeup is spurious
abbrev pub goes_well : {n : ℕ} {answer : ℕ → ℕ} {q q' : Query} → Move n answer q q' → Bool
goes_well (create cancelled w) = not cancelled
goes_well (create_failed w) = false
goes_well (wake_up w) = false
goes_well (cancel i s) = false
goes_well mv = true
