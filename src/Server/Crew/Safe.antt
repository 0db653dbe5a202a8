-- ===== src/Server/Crew/Safe.antt =====
-- The whole life of a daemon with worker threads: the accept loop with the ends of its workers.
use rblpolicyd.Prelude.{ℕ, ◌+◌, ◌≤◌, ◌<◌, ◌≡◌, refl, sym, ◌∙◌, true, some, List, length, arith}
use rblpolicyd.Prelude.Int.{pos}
use rblpolicyd.CfgFile.{CfgItem}
use rblpolicyd.ThrMgr.{Heap, Manager, u32_mod}
use rblpolicyd.Threads.{thread_left, wthread_exit}
use rblpolicyd.Startup.{Ready, initial}
use rblpolicyd.Startup.Serving.{begin-Kept}
use rblpolicyd.Server.{Server, Turn, Served, running, stopped, exited, broken, turn}
use rblpolicyd.Server.Kept.{Kept, Lasts, turn_with-Lasts, signalled}
use rblpolicyd.Server.Crew.{
  Daemon, is_live, hired, Granted, CrewStep, accepts, leaves, Lives, begins, next, Orderly,
}
use rblpolicyd.Server.Crew.Listed.{Listed, length-without, wthread_exit-Listed}
use rblpolicyd.Server.Crew.Hiring.{Counted, Crew, After, turn-After}

-- What holds all the time.
abbrev pub Holds : ℕ → List CfgItem → Daemon → Type 0
Holds maxthreads rblist d = Crew maxthreads d.live d.past d.server × Kept rblist d.server

turn-Kept :
    (maxthreads : ℕ) (rblist : List CfgItem) (t : Turn) (s : Server)
    → 0 < maxthreads
    → Kept rblist s
    → Lasts rblist (turn (pos maxthreads) t s)
unfolding turn
turn-Kept maxthreads rblist t s allowed k =
    turn_with-Lasts rblist maxthreads t _ t.accepted allowed (signalled rblist t.signal s k)

left-Listed :
    {mgr mgr' : Manager} {h h' : Heap} {live : List ℕ}
    → thread_left mgr h ≡ thread_left mgr' h'
    → Listed (some mgr) h live
    → Listed (some mgr') h' live
left-Listed {mgr} {mgr'} {h} {h'} e listed =
    let m : mgr ≡ mgr' = cc in let k : h ≡ h' = cc in rw (sym m, sym k) listed

step-Holds :
    (maxthreads : ℕ) (rblist : List CfgItem) {d d' : Daemon}
    → CrewStep maxthreads d d'
    → 0 < maxthreads
    → maxthreads < u32_mod
    → Holds maxthreads rblist d
    → Holds maxthreads rblist d'
step-Holds maxthreads rblist {d} (accepts t granted more e) allowed small (crew, kept) = (
  rw e at (turn-After maxthreads d.live d.past t d.server allowed small granted crew kept.1),
  rw e at (turn-Kept maxthreads rblist t d.server allowed kept),
)
step-Holds maxthreads rblist {d} (leaves {mgr} {h} tid there e) allowed small (crew, kept) =
    let (listed, room, counted) = crew in
    let (mgr', h', e', listed') =
      wthread_exit-Listed d.server.workermgr d.server.heap d.live tid listed there in
    let fewer = length-without tid d.live there in
    (
      (left-Listed (sym e' ∙ e) listed', omega (arith, room, fewer), omega (arith, counted, fewer)),
      kept,
    )

Lives-Holds :
    {maxthreads : ℕ} {h : Heap} {r : Ready} {d : Daemon}
    → Lives maxthreads h r d
    → 0 < maxthreads
    → maxthreads < u32_mod
    → Holds maxthreads r.rblist d
unfolding initial
Lives-Holds {h} {r} (begins limit) allowed small = ((refl, omega arith, refl), begin-Kept h r)
Lives-Holds {maxthreads} {r} (next l st) allowed small =
    step-Holds maxthreads r.rblist st allowed small (Lives-Holds l allowed small)

-- A turn goes on, or the function returns for good.
Lasts-Orderly :
    (maxthreads : ℕ) (rblist : List CfgItem) (live : List ℕ) (past : ℕ) (new : List ℕ) (w : Served)
    → Lasts rblist w
    → After maxthreads live past new w
    → Orderly w
Lasts-Orderly maxthreads rblist live past new (running s) l a = tt
Lasts-Orderly maxthreads rblist live past new (stopped s) l a = l.1
Lasts-Orderly maxthreads rblist live past new (exited code) l a = l
Lasts-Orderly maxthreads rblist live past new broken l a = a

-- However the turns of the accept loop and the ends of the workers alternate, from the end of `main`
-- on: at most `maxthreads` workers are live; the count of requests is, modulo 2 ^ 32, that of the
-- live workers, of those that have left, and of the connections that the loop closed; the list of
-- blacklists is the one that was read at the start; each live worker can leave; and each next turn
-- goes on, or ends the loop for good, without an access through NULL and without `exit`. The limit is
-- positive and below 2 ^ 32, and each turn finds what `Granted` says. The walk of `thr_unregister`
-- behind the mutex is left out.
pub Lives-Safe :
    {maxthreads : ℕ} {h : Heap} {r : Ready} {d : Daemon}
    → Lives maxthreads h r d
    → 0 < maxthreads
    → maxthreads < u32_mod
    → (length d.live ≤ maxthreads)
      × Counted d.server (length d.live + d.past)
      × (d.server.rblist ≡ r.rblist)
      × ((tid : ℕ)
          → is_live tid d.live ≡ true
          → (mgr : Manager) × (g : Heap) × (wthread_exit d.server.workermgr tid d.server.heap
              ≡ thread_left mgr g))
      × ((t : Turn) → Granted t d.server.heap → Orderly (turn (pos maxthreads) t d.server))
Lives-Safe {maxthreads} {r} {d} l allowed small =
    let ((listed, room, counted), kept) = Lives-Holds l allowed small in
    (
      room,
      counted,
      kept.0,
      (λ tid there.
          let (mgr, g, e, _) =
            wthread_exit-Listed d.server.workermgr d.server.heap d.live tid listed there in
          (mgr, g, e)),
      λ t granted.
          Lasts-Orderly maxthreads r.rblist d.live d.past (hired maxthreads t d.server)
            (turn (pos maxthreads) t d.server)
            (turn-Kept maxthreads r.rblist t d.server allowed kept)
            (turn-After maxthreads d.live d.past t d.server allowed small granted
              (listed, room, counted) kept.1),
    )
