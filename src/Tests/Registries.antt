-- ===== src/Tests/Registries.antt =====
-- Two callers that use the solver manager for the first time, and a solver that ends at once.
use rblpolicyd.Prelude.{◌≡◌, refl, true, some, arith}
use rblpolicyd.ThrMgr.{
  Heap, Manager, returned, thr_register, thr_unregister, pushed, set_last, write,
}
use rblpolicyd.Registry.{
  Registry, listed_as, is_running, enter, miss, make, keep, leave_init, lock_manager, spawn,
  register, unlock_manager, leave, at_first, Run, begin, next,
}
use rblpolicyd.Registry.Safe.{leaving-found}
use rblpolicyd.Tests.Managers.{free}

-- up to the thread 7, which is not registered yet
abbrev spawned : (q : Registry) × Run free q
unfolding at_first
spawned = (
  _,
  next
      (next
        (next
          (next
            (next (next (next (next begin (enter 0 refl refl)) (miss 0 refl refl)) (make 0 refl))
              (leave_init 0 refl))
            (enter 1 refl refl))
          (keep 1 refl refl))
        (lock_manager 0 refl refl))
      (spawn 0 7 refl refl),
)

abbrev gone : (q : Registry) × Run free q
unfolding spawned at_first listed_as is_running thr_register pushed set_last write
gone = (
  _,
  next
      (next
        (next spawned.1 (register 0 7 {node = 100} refl refl (omega arith) refl (omega arith) refl))
        (unlock_manager 0 refl))
      (leave 7 refl refl),
)

leaving-found_example :
    (gone.0.made ≡ 1)
    × ((mgr : Manager) × (mgr' : Manager) × (g : Heap) × (gone.0.solvermgr ≡ some mgr)
        × (thr_unregister mgr 7 gone.0.heap ≡ returned true mgr' g))
unfolding gone
leaving-found_example = leaving-found 7 gone.1 refl refl
