-- ===== src/Stats/Totals.antt =====
-- The numbers of threads that `stats_log` reports.
use rblpolicyd.Prelude.{
  ℕ, suc, ◌+◌, ◌%◌, ◌<◌, ◌≡◌, List, [], ◌∷◌, length, ltb, ◌++◌, Bytes, codes, if◌then◌else◌,
}
use rblpolicyd.Stats.{
  int_mod, Counts, Timeval, Stats, stats_worker_thr, stats_solver_thr, stats_worker_time,
  stats_solver_time, stats_request, stats_start,
}
use rblpolicyd.CString.{print}
use rblpolicyd.Address.{print_int}
use rblpolicyd.Prelude.Int.{pos}
use rblpolicyd.Stats.Log.{Float, signed}

-- one call of the file's functions
pub data Call : Type 0 where
  worker_thr : ℕ → Call
  solver_thr : ℕ → Call
  worker_time : Timeval → Timeval → Call
  solver_time : Timeval → Timeval → Call
  request : Call
  started : ℕ → Call

abbrev pub call : Call → Stats → Stats
call (worker_thr n) s = stats_worker_thr n s
call (solver_thr n) s = stats_solver_thr n s
call (worker_time b e) s = stats_worker_time b e s
call (solver_time b e) s = stats_solver_time b e s
call request s = stats_request s
call (started now) s = stats_start now s

abbrev pub calls : List Call → Stats → Stats
calls [] s = s
calls (c ∷ cs) s = calls cs (call c s)

-- the numbers of parallel workers that the calls report, those of solvers, and the requests
abbrev worker_counts : List Call → List ℕ
worker_counts [] = []
worker_counts (worker_thr n ∷ cs) = n ∷ worker_counts cs
worker_counts (_ ∷ cs) = worker_counts cs

abbrev solver_counts : List Call → List ℕ
solver_counts [] = []
solver_counts (solver_thr n ∷ cs) = n ∷ solver_counts cs
solver_counts (_ ∷ cs) = solver_counts cs

abbrev request_count : List Call → ℕ
request_count [] = 0
request_count (request ∷ cs) = suc (request_count cs)
request_count (_ ∷ cs) = request_count cs

abbrev pub greatest : ℕ → List ℕ → ℕ
greatest m [] = m
greatest m (n ∷ ns) = greatest (if ltb m n then n else m) ns

abbrev pub latest : ℕ → List ℕ → ℕ
latest m [] = m
latest m (n ∷ ns) = latest n ns

-- The counts behind the calls, from those before and the numbers that the calls report: how many were
-- reported, the last and the greatest of them.
abbrev Numbered : Counts → List ℕ → Counts → Type 0
Numbered before ns after =
    (after.num ≡ (before.num + length ns) % int_mod)
    × (after.now ≡ latest before.now ns)
    × (after.most ≡ greatest before.most ns)

-- the numbers that their types hold
abbrev AreInts : Stats → Type 0
AreInts s = (s.workers.num < int_mod) × (s.solvers.num < int_mod) × (s.requests < int_mod)

abbrev pub Counted : List Call → Stats → Counts → Counts → ℕ → Type 0
Counted cs s workers solvers requests =
    Numbered s.workers (worker_counts cs) workers
    × Numbered s.solvers (solver_counts cs) solvers
    × (requests ≡ (s.requests + request_count cs) % int_mod)

-- How the line shows the counts of one kind of threads, and their average time.
abbrev pub shown : Bytes → Counts → ℕ → Bytes
shown what c average =
    print c.num
    ++ what
    ++ print_int (signed average)
    ++ codes " ms avg, "
    ++ print_int (signed c.most)
    ++ codes " parallel, "
    ++ print_int (signed c.now)
    ++ codes " current)"

-- The line with these counts, from the running time and the requests per minute on.
abbrev pub line_with : Bytes → Bytes → ℕ → Bytes → Bytes → Bytes
line_with running rate requests workers solvers =
    codes "Running for "
    ++ running
    ++ codes "; "
    ++ print_int (signed requests)
    ++ codes " requests ("
    ++ rate
    ++ codes " req/min); "
    ++ workers
    ++ codes "; "
    ++ solvers

abbrev pub rate_of {ℓ} : {F : Type ℓ} → Float F → ℕ → ℕ → Bytes
rate_of float requests runtime = float.print_tenths (
    float.quotient (float.of_int (signed requests))
      (float.quotient (float.of_int (pos runtime)) (float.of_int (pos 60))))
