-- ===== src/Protocol/Inv.antt =====
-- The count, the mutex and the wakeups: the invariant of a query.
use rblpolicyd.Prelude.{ℕ, suc, ◌+◌, ◌≤◌, ◌<◌, ◌≡◌, ◌≢◌, Bool, true, false}
use rblpolicyd.Protocol.Family.{total}
use rblpolicyd.Protocol.{
  WorkerPc, creating, locked, counted, created, testing, sleeping, woken, done, SolverPc, unstarted,
  uncreated, lookup, dead, found, entered, decremented, announced, ended, nobody, by_worker,
  by_solver, Query, Move, lock_entry, count, create, create_failed, unlock_entry, lock_wait, pass,
  sleep, wake_up, lock_again, find, cancel, lock_solver, decrement, broadcast, unlock_solver,
}

-- a solver that is counted and has not taken itself off the count
abbrev pub pending : SolverPc → ℕ
pending unstarted = 0
pending decremented = 0
pending announced = 0
pending ended = 0
pending _ = 1

-- counted, but no solver yet
abbrev pub extra : WorkerPc → ℕ
extra (counted i) = 1
extra _ = 0

abbrev pub worker_holds : WorkerPc → Bool
worker_holds (locked i) = true
worker_holds (counted i) = true
worker_holds (created i) = true
worker_holds testing = true
worker_holds done = true
worker_holds _ = false

abbrev pub solver_holds : SolverPc → Bool
solver_holds entered = true
solver_holds decremented = true
solver_holds announced = true
solver_holds _ = false

-- The holder of the mutex, from where the threads stand.
abbrev HeldRight : Query → Type 0
HeldRight q =
    (worker_holds q.worker ≡ true → q.holder ≡ by_worker)
    × (q.holder ≡ by_worker → worker_holds q.worker ≡ true)
    × ((i : ℕ) → solver_holds (q.solver i) ≡ true → q.holder ≡ by_solver i)
    × ((i : ℕ) → q.holder ≡ by_solver i → solver_holds (q.solver i) ≡ true)

-- the entries that have their solver, or had it tried
abbrev pub started : ℕ → WorkerPc → ℕ
started n (creating i) = i
started n (locked i) = i
started n (counted i) = i
started n (created i) = suc i
started n _ = n

abbrev pub is_started : SolverPc → Bool
is_started unstarted = false
is_started _ = true

-- the worker is within the list, and in an entry if it holds the mutex for one
abbrev pub Within : ℕ → WorkerPc → Type 0
Within n (creating i) = i ≤ n
Within n (locked i) = i < n
Within n (counted i) = i < n
Within n (created i) = i < n
Within n _ = Unit

abbrev pub has_score : SolverPc → Bool
has_score unstarted = false
has_score uncreated = false
has_score (lookup b) = false
has_score dead = false
has_score _ = true

-- A sleeping worker will be woken: if the count is 0, the solver that took it there has yet to
-- announce it.
abbrev pub Expects : Query → Type 0
Expects q = q.worker ≡ sleeping → q.resolvers ≡ 0 → (i : ℕ) × (q.solver i ≡ decremented)

pub record Inv (n : ℕ) (answer : ℕ → ℕ) (q : Query) : Type 0 where
  pub counted_right : q.resolvers ≡ total pending n q.solver + extra q.worker
  pub held : HeldRight q
  pub within : Within n q.worker
  pub has_begun : (i : ℕ) → i < started n q.worker → is_started (q.solver i) ≡ true
  pub not_begun : (i : ℕ) → started n q.worker ≤ i → q.solver i ≡ unstarted
  pub scores : (i : ℕ) → has_score (q.solver i) ≡ true → q.score i ≡ answer i
  pub expects : Expects q
  pub passed : q.worker ≡ done → q.resolvers ≡ 0

-- The premises of a move, for the catch-all clauses below, which cannot name them.
abbrev pub Guard : {n : ℕ} {answer : ℕ → ℕ} {q q' : Query} → Move n answer q q' → Type 0
Guard {n} {q = q} (lock_entry {i} _ _ _) = (q.worker ≡ creating i) × (i < n) × (q.holder ≡ nobody)
Guard {n} {q = q} (count {i} _) = q.worker ≡ locked i
Guard {n} {q = q} (create {i} c _) = q.worker ≡ counted i
Guard {n} {q = q} (create_failed {i} _) = q.worker ≡ counted i
Guard {n} {q = q} (unlock_entry {i} _) = q.worker ≡ created i
Guard {n} {q = q} (lock_wait {i} _ _ _) = (q.worker ≡ creating i) × (n ≤ i) × (q.holder ≡ nobody)
Guard {n} {q = q} (pass _ _) = (q.worker ≡ testing) × (q.resolvers ≡ 0)
Guard {n} {q = q} (sleep _ _) = (q.worker ≡ testing) × (q.resolvers ≢ 0)
Guard {n} {q = q} (wake_up _) = q.worker ≡ sleeping
Guard {n} {q = q} (lock_again _ _) = (q.worker ≡ woken) × (q.holder ≡ nobody)
Guard {n} {q = q} (find i {cancelled} _) = q.solver i ≡ lookup cancelled
Guard {n} {q = q} (cancel i _) = q.solver i ≡ lookup true
Guard {n} {q = q} (lock_solver i _ _) = (q.solver i ≡ found) × (q.holder ≡ nobody)
Guard {n} {q = q} (decrement i _) = q.solver i ≡ entered
Guard {n} {q = q} (broadcast i _) = q.solver i ≡ decremented
Guard {n} {q = q} (unlock_solver i _) = q.solver i ≡ announced

pub guard : {n : ℕ} {answer : ℕ → ℕ} {q q' : Query} (mv : Move n answer q q') → Guard mv
guard (lock_entry w l h) = (w, l, h)
guard (count w) = w
guard (create c w) = w
guard (create_failed w) = w
guard (unlock_entry w) = w
guard (lock_wait w l h) = (w, l, h)
guard (pass w z) = (w, z)
guard (sleep w z) = (w, z)
guard (wake_up w) = w
guard (lock_again w h) = (w, h)
guard (find i s) = s
guard (cancel i s) = s
guard (lock_solver i s h) = (s, h)
guard (decrement i s) = s
guard (broadcast i s) = s
guard (unlock_solver i s) = s
