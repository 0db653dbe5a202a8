-- ===== src/Server/Crew/Listed.antt =====
-- The manager's list is the list of the workers that are live.
use rblpolicyd.Prelude.{
  ℕ, ◌+◌, ◌≡◌, refl, sym, ap, ◌∙◌, true, Option, none, some, List, [], ◌∷◌, length, arith,
}
use rblpolicyd.ThrMgr.{null, Heap, Manager, manager}
use rblpolicyd.ThrMgr.Links.{Nodes, has_tid, nil, IsManager}
use rblpolicyd.ThrMgr.Behind.{erase}
use rblpolicyd.Threads.{Attempt, thread_left, opened, wthread_create, wthread_exit}
use rblpolicyd.Threads.Ends.{unregistered-Left}
use rblpolicyd.ThrMgr.Members.{tids, tids-erase, without}
use rblpolicyd.Server.Crew.{is_live}

-- the manager, where there is one, is well formed, with the threads `live` in this order
abbrev pub Listed : Option Manager → Heap → List ℕ → Type 0
Listed none h live = live ≡ []
Listed (some mgr) h live = (xs : Nodes) × IsManager h mgr xs × (tids xs ≡ live)

is_live-tids : (t : ℕ) (xs : Nodes) → is_live t (tids xs) ≡ has_tid t xs
is_live-tids t [] = refl
is_live-tids t ((p, u) ∷ xs) = ground (arith, is_live-tids t xs)

pub length-without :
    (t : ℕ) (live : List ℕ) → is_live t live ≡ true → length (without t live) + 1 ≡ length live
length-without t [] there = absurd (ground (there, arith))
length-without t (u ∷ us) there = ground (arith, length-without t us)

-- A live worker leaves, and the list of the manager is that of the others.
pub wthread_exit-Listed :
    (workermgr : Option Manager) (h : Heap) (live : List ℕ) (tid : ℕ)
    → Listed workermgr h live
    → is_live tid live ≡ true
    → (mgr : Manager) × (g : Heap) × (wthread_exit workermgr tid h ≡ thread_left mgr g)
      × Listed (some mgr) g (without tid live)
unfolding wthread_exit
wthread_exit-Listed none h live tid none_live there = absurd (ground (none_live, there, arith))
wthread_exit-Listed (some mgr) h live tid (xs, is, same) there =
    let found : has_tid tid xs ≡ true = sym (is_live-tids tid xs) ∙ ap (is_live tid) same ∙ there in
    let (mgr', g, e, is') = unregistered-Left tid is found in
    (mgr', g, e, (erase tid xs, is', tids-erase tid xs ∙ ap (without tid) same))

-- With memory for it there is a manager for the first thread, too.
pub opened-Listed :
    (workermgr : Option Manager) (h : Heap) (live : List ℕ) (maxthreads : ℕ) (env : Attempt)
    → env.memory ≡ true
    → Listed workermgr h live
    → (mgr : Manager) × Listed (some mgr) h live
      × (wthread_create maxthreads env workermgr h ≡ wthread_create maxthreads env (some mgr) h)
unfolding wthread_create opened
opened-Listed none h live maxthreads env memory none_live = (
  manager 0 null,
  ([], record { chain = nil refl; count = refl; small = omega arith }, sym none_live),
  rw (memory) refl,
)
opened-Listed (some mgr) h live maxthreads env memory listed = (mgr, listed, refl)
