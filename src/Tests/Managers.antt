-- ===== src/Tests/Managers.antt =====
-- The thread managers, the statistics and the file with the process id at concrete states.
use rblpolicyd.Prelude.{
  List, ℕ, zero, suc, ◌+◌, ◌≡◌, refl, true, false, none, some, [], ◌∷◌, ◌==◌, ltb, ◌++◌, Bytes,
  codes, arith,
}
use rblpolicyd.Globals.{app_run}
use rblpolicyd.ThrMgr.{
  null, thrd, Heap, write, Manager, manager, returned, pushed, set_last, set_next, thr_register,
  unlink, unlinked, relink_next, unregister_loop, thr_unregister,
}
use rblpolicyd.ThrMgr.Bag.{register, unregister, registered, size, times}
use rblpolicyd.ThrMgr.History.{Managed, opened, registers, unregisters, answer, Managed-registered}
use rblpolicyd.ThrMgr.Links.{Nodes, nil, cons, IsManager, SameOutside, thr_register-IsManager}
use rblpolicyd.Threads.{Look, Attempt}
use rblpolicyd.Stats.Totals.{Call, worker_thr, solver_thr, request}
use rblpolicyd.Stats.{Stats, Ring, cleared, ring_average, sum_loop, widened, split}
use rblpolicyd.Address.{print_int}
use rblpolicyd.Stats.Log.{Float}
use rblpolicyd.PidFile.{Files, checked, pid_check, pid_write, Stream}
use rblpolicyd.PidFile.Written.{pid_check-pid_write}

abbrev pub free : Heap
free = λ _. none

empty-IsManager : IsManager free (manager 0 null) []
empty-IsManager = record { chain = nil refl; count = refl; small = omega arith }

thr_register-IsManager_example :
    ((mgr' : Manager) × (g : Heap) × (thr_register (manager 0 null) 7 (some 100) free
        ≡ returned true mgr' g)
      × IsManager g mgr' ((100, 7) ∷ [])
      × SameOutside 100 [] free g)
    × (thr_register (manager 0 null) 7 none free ≡ returned false (manager 1 null) free)
thr_register-IsManager_example =
    thr_register-IsManager 7 100 empty-IsManager (omega arith) refl (omega arith)

abbrev linked_twice : Heap
linked_twice =
    write (write (write free 100 (some (thrd 7 null null))) 200 (some (thrd 8 100 null))) 100
      (some (thrd 7 null 200))

-- two threads were registered
two-Managed : Managed (register 8 ∷ register 7 ∷ []) (manager 2 200) linked_twice
unfolding thr_register pushed set_last write
two-Managed =
    registers 8 200 (registers 7 100 opened (omega arith) refl refl) (omega arith) refl refl

-- and the first of them has left
one-Managed :
    Managed
      (unregister 7 ∷ register 8 ∷ register 7 ∷ [])
      (manager 1 200)
      (write (write linked_twice 200 (some (thrd 8 null null))) 100 none)
unfolding thr_unregister unregister_loop unlink unlinked relink_next set_next set_last write
one-Managed = unregisters 7 two-Managed refl

Managed-registered_example :
    let cs = unregister 7 ∷ register 8 ∷ register 7 ∷ [] in
    let h = write (write linked_twice 200 (some (thrd 8 null null))) 100 none in
    ((manager 1 200).nthreads ≡ size (registered cs))
    × ((tid : ℕ)
        → answer (thr_unregister (manager 1 200) tid h) ≡ some (ltb 0 (times tid (registered cs))))
Managed-registered_example = Managed-registered one-Managed (omega arith)

-- two threads, 8 in front of 7
abbrev pub two_threads : Heap
two_threads a = elim (a == 200) [
  | true ↦ some (thrd 8 100 null)
  | false ↦ elim (a == 100) [ true ↦ some (thrd 7 null 200) | false ↦ none ]
]

abbrev pub two_nodes : Nodes
two_nodes = (200, 8) ∷ (100, 7) ∷ []

pub two-IsManager : IsManager two_threads (manager 2 200) two_nodes
two-IsManager = record {
  chain = cons (omega arith) refl refl (cons (omega arith) refl refl (nil refl));
  count = refl;
  small = omega arith;
}

-- one worker, which ends after the third look
abbrev pub look : ℕ → Look
look zero = record { nthreads = 1; appstate = app_run }
look (suc zero) = record { nthreads = 1; appstate = app_run }
look (suc (suc zero)) = record { nthreads = 1; appstate = app_run }
look (suc (suc (suc i))) = record { nthreads = 0; appstate = app_run }

abbrev pub attempt : Attempt
attempt = record { memory = true; appstate = λ _. app_run; thread = some 9; node = some 300 }

abbrev ring : Ring
ring = record { count = 3; index = 3; val = λ i. i + 10 }

ring_runs : ring_average ring ≡ 11
unfolding ring_average sum_loop widened
ring_runs = refl

split_runs : split 694861 ≡ record { weeks = 1; days = 1; hours = 1; minutes = 1; seconds = 1 }
unfolding split
split_runs = refl

abbrev stream : Stream
stream = record { opens = true; prints = true; closes = true }

-- the file that process 42 wrote
abbrev files : Files
files = record {
  stat = some true;
  contents = (pid_write stream 42).contents;
  kill_succeeds = λ n. n == 1;
}

pid_check-pid_write_example : pid_check files ≡ checked true true
pid_check-pid_write_example =
    pid_check-pid_write stream 42 files true (omega arith) (omega arith) wrote refl refl
  where
    wrote : (pid_write stream 42).ok ≡ true
    wrote = unfold pid_write in refl

abbrev fresh : Stats
fresh = record {
  workers = record { num = 0; now = 0; most = 0 };
  solvers = record { num = 0; now = 0; most = 0 };
  workertime = record { init = false; ring = cleared };
  solvertime = record { init = false; ring = cleared };
  start = 1000;
  requests = 0;
}

abbrev reported : List Call
reported = worker_thr 1 ∷ solver_thr 5 ∷ worker_thr 3 ∷ request ∷ worker_thr 2 ∷ []

-- numbers as the texts of their quotients
abbrev float : Float Bytes
float = record { of_int = print_int; quotient = λ a b. a ++ codes "/" ++ b; print_tenths = λ t. t }
