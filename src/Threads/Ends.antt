-- ===== src/Threads/Ends.antt =====
-- worker.c, the end of `worker_th` and of `solver_th`: a thread records how long it took, and leaves
-- its manager.
use rblpolicyd.Prelude.{ℕ, ◌≡◌, refl, true, Option, some, List, ◌∷◌}
use rblpolicyd.ThrMgr.{Heap, Manager, thr_unregister}
use rblpolicyd.ThrMgr.Links.{Nodes, has_tid, IsManager}
use rblpolicyd.ThrMgr.Behind.{erase}
use rblpolicyd.ThrMgr.Unlink.{thr_unregister-IsManager}
use rblpolicyd.Stats.{
  Timeval, Times, Stats, duration, stats_time, stats_worker_time, stats_solver_time,
}
use rblpolicyd.Stats.Latest.{Holds, recorded-Holds}
use rblpolicyd.Threads.{Exit, thread_left, after_unregister, wthread_exit, rthread_exit}

-- behind `close(conn)`
unfoldable worker_ends : Timeval → Timeval → Stats → Option Manager → ℕ → Heap → Stats × Exit
worker_ends begin end stats workermgr self h =
    (stats_worker_time begin end stats, wthread_exit workermgr self h)

-- behind the unlocking of `resolvers_`
unfoldable solver_ends : Timeval → Timeval → Stats → Option Manager → ℕ → Heap → Stats × Exit
solver_ends begin end stats solvermgr self h =
    (stats_solver_time begin end stats, rthread_exit solvermgr self h)

-- The thread `self` left a manager whose list was `xs`, and `exit` is what became of the process.
abbrev Left : ℕ → Nodes → Exit → Type 0
Left self xs exit =
    (mgr : Manager) × (g : Heap) × (exit ≡ thread_left mgr g) × IsManager g mgr (erase self xs)

pub unregistered-Left :
    {h : Heap} {mgr : Manager} {xs : Nodes} (self : ℕ)
    → IsManager h mgr xs
    → has_tid self xs ≡ true
    → Left self xs (after_unregister (thr_unregister mgr self h))
unfolding after_unregister
unregistered-Left self is there =
    let (mgr, g, e, is', _, _) = (thr_unregister-IsManager self is).0 there in
    (mgr, g, rw (e, after_unregister) refl, is')

-- A ring in use holds one more time, in front.
stats_time-Holds :
    (t : Times) (begin end : Timeval) (ds : List ℕ)
    → t.init ≡ true
    → Holds t.ring ds
    → Holds (stats_time t begin end).ring (duration begin end ∷ ds)
unfolding stats_time
stats_time-Holds t begin end ds used holds =
    rw used ((recorded-Holds t.ring (duration begin end) ds).1 holds)

-- A worker that is registered leaves the list, and its time is the latest of the workers' times.
worker_ends-Left :
    {h : Heap} {mgr : Manager} {xs : Nodes} (begin end : Timeval) (stats : Stats) (self : ℕ)
    (ds : List ℕ)
    → IsManager h mgr xs
    → has_tid self xs ≡ true
    → stats.workertime.init ≡ true
    → Holds stats.workertime.ring ds
    → Left self xs (worker_ends begin end stats (some mgr) self h).1
      × Holds
          (worker_ends begin end stats (some mgr) self h).0.workertime.ring
          (duration begin end ∷ ds)
unfolding worker_ends wthread_exit stats_worker_time
worker_ends-Left begin end stats self ds is there used holds =
    (unregistered-Left self is there, stats_time-Holds stats.workertime begin end ds used holds)

-- A solver that is registered leaves the list, and its time is the latest of the solvers' times.
solver_ends-Left :
    {h : Heap} {mgr : Manager} {xs : Nodes} (begin end : Timeval) (stats : Stats) (self : ℕ)
    (ds : List ℕ)
    → IsManager h mgr xs
    → has_tid self xs ≡ true
    → stats.solvertime.init ≡ true
    → Holds stats.solvertime.ring ds
    → Left self xs (solver_ends begin end stats (some mgr) self h).1
      × Holds
          (solver_ends begin end stats (some mgr) self h).0.solvertime.ring
          (duration begin end ∷ ds)
unfolding solver_ends rthread_exit stats_solver_time
solver_ends-Left begin end stats self ds is there used holds =
    (unregistered-Left self is there, stats_time-Holds stats.solvertime begin end ds used holds)
