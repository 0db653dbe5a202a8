-- ===== src/Tests/Crews.antt =====
-- A worker that is created and leaves, at concrete inputs.
use rblpolicyd.Prelude.{
  ℕ, ◌+◌, ◌≤◌, ◌≡◌, refl, true, false, none, some, [], ◌∷◌, ◌++◌, length, codes, arith,
}
use rblpolicyd.Prelude.Int.{pos}
use rblpolicyd.Globals.{is_run}
use rblpolicyd.ThrMgr.{
  Heap, Manager, manager, null, thrd, write, thr_register, pushed, thr_unregister, unregister_loop,
  unlink, unlinked, relink_next, set_next,
}
use rblpolicyd.Threads.{
  opened, wait_slot, started_worker, registered_worker, after_unregister, thread_left, wthread_exit,
  wthread_create,
}
use rblpolicyd.Startup.{Ready, inet, defaults, initial}
use rblpolicyd.Server
use rblpolicyd.Server.{Server, Turn, connection, running, turn, turn_with, dispatch, serve, created}
use rblpolicyd.ThrMgr.Members.{without}
use rblpolicyd.Server.Crew.{
  Daemon, is_live, Granted, Lives, begins, next, accepts, leaves, Orderly, hired, hired_in,
  newcomer,
}
use rblpolicyd.Server.Crew.Hiring.{Counted}
use rblpolicyd.Server.Crew.Safe.{Lives-Safe}
use rblpolicyd.Tests.Managers.{attempt, free, look}
use rblpolicyd.Tests.Queries.{rblist, conn, env}

abbrev ready : Ready
ready = record {
  flags = defaults;
  rblist = rblist;
  sock = some 3;
  address = inet (codes "sixteen bytes...");
}

abbrev first : Turn
first = record {
  signal = false;
  accepted = connection conn;
  attempt = attempt;
  looks = look;
  calloc = λ _. true;
  file = none;
  env = env;
  self = 1;
}

abbrev one_node : Heap
one_node = write free 300 (some (thrd 9 null null))

first-Granted : Granted first free
first-Granted = record {
  memory = refl;
  stays = λ j e. e;
  node = 300;
  given = refl;
  exists = omega arith;
  unused = refl;
}

abbrev busy : Server
busy = record (initial free ready) {
  num_requests = 1;
  workermgr = some (manager 1 300);
  heap = one_node;
}

first_turn : turn (pos 10) first (initial free ready) ≡ running busy
unfolding turn turn_with dispatch serve created initial wthread_create opened wait_slot
    started_worker is_run thr_register pushed registered_worker
first_turn = refl

first_hired : hired 10 first (initial free ready) ≡ 9 ∷ []
unfolding hired hired_in newcomer initial wthread_create opened wait_slot started_worker is_run
    thr_register pushed registered_worker
first_hired = refl

-- a worker is live
abbrev serving : Daemon
serving = record { server = busy; live = hired 10 first (initial free ready) ++ []; past = 0 }

serving-Lives : Lives 10 free ready serving
unfolding initial Server.goes_on defaults
serving-Lives = next (begins refl) (accepts first first-Granted refl first_turn)

abbrev after : Daemon
after = record {
  server = record busy { workermgr = some (manager 0 null); heap = write one_node 300 none };
  live = without 9 serving.live;
  past = 1;
}

nine_leaves :
    wthread_exit (some (manager 1 300)) 9 one_node
    ≡ thread_left (manager 0 null) (write one_node 300 none)
unfolding wthread_exit thr_unregister unregister_loop unlink after_unregister write relink_next
    unlinked set_next
nine_leaves = refl

after-Lives : Lives 10 free ready after
after-Lives = next serving-Lives (leaves 9 (rw first_hired refl) nine_leaves)

-- the address of the node is given again
first-Granted_again : Granted first after.server.heap
unfolding write
first-Granted_again = record {
  memory = refl;
  stays = λ j e. e;
  node = 300;
  given = refl;
  exists = omega arith;
  unused = refl;
}

abbrev busy_again : Server
busy_again = record after.server {
  num_requests = 2;
  workermgr = some (manager 1 300);
  heap = write after.server.heap 300 (some (thrd 9 null null));
}

second_turn : turn (pos 10) first after.server ≡ running busy_again
unfolding turn turn_with dispatch serve created initial wthread_create opened wait_slot
    started_worker is_run thr_register pushed registered_worker
second_turn = refl

-- one worker has left, and one is live
abbrev second : Daemon
second = record { server = busy_again; live = hired 10 first after.server ++ after.live; past = 1 }

second-Lives : Lives 10 free ready second
unfolding initial Server.goes_on defaults
second-Lives = next after-Lives (accepts first first-Granted_again refl second_turn)

Lives-Safe_example :
    (length second.live ≤ 10)
    × Counted second.server (length second.live + second.past)
    × (second.server.rblist ≡ ready.rblist)
    × ((tid : ℕ)
        → is_live tid second.live ≡ true
        → (mgr : Manager) × (g : Heap) × (wthread_exit second.server.workermgr tid
              second.server.heap
            ≡ thread_left mgr g))
    × ((t : Turn) → Granted t second.server.heap → Orderly (turn (pos 10) t second.server))
Lives-Safe_example = Lives-Safe second-Lives (omega arith) (omega arith)
