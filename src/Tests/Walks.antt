-- ===== src/Tests/Walks.antt =====
-- The walk along the list of threads, while other threads register and unregister.
use rblpolicyd.Prelude.{◌≡◌, refl, length, arith}
use rblpolicyd.ThrMgr.{null, write, manager, thr_register, pushed, set_last}
use rblpolicyd.ThrMgr.Walk.{
  Walker, count_node, other_registers, Walks, begin, next, ReadsFreed, WalkStep,
}
use rblpolicyd.ThrMgr.Walked.{Walks-undisturbed, removal-ReadsFreed}
use rblpolicyd.Tests.Managers.{two_threads, two_nodes, two-IsManager}

abbrev head : Walker
head = record { heap = two_threads; mgr = manager 2 200; thr = 200; nthr = 0 }

-- The second of two nodes is counted behind a registration.
abbrev walk : (q : Walker) × Walks head q
unfolding thr_register pushed set_last write
walk = (
  _,
  next
      (next (next begin (count_node (omega arith) refl))
        (other_registers 9 300 (omega arith) refl refl))
      (count_node (omega arith) refl),
)

Walks-undisturbed_example :
    (¬ ReadsFreed walk.0) × (walk.0.thr ≡ null → walk.0.nthr ≡ length two_nodes)
unfolding walk
Walks-undisturbed_example = Walks-undisturbed walk.1 two-IsManager refl refl refl

-- The thread of the first node unregisters while the walk stands there.
freed_under : (q : Walker) × WalkStep head q × ReadsFreed q
freed_under = removal-ReadsFreed 8 two-IsManager refl (omega arith) refl refl
