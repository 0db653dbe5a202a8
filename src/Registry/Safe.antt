-- ===== src/Registry/Safe.antt =====
-- What callers of `rthread_create` and solvers can rely on.
use rblpolicyd.Prelude.{ℕ, ◌≡◌, refl, ◌∙◌, true, false, Option, none, some, arith}
use rblpolicyd.ThrMgr.{Heap, Manager, returned, thr_unregister}
use rblpolicyd.ThrMgr.Unlink.{thr_unregister-IsManager}
use rblpolicyd.Registry.{leaving, Registry, Run}
use rblpolicyd.Registry.Inv.{is_made, is_tested, Run-Inv}
use rblpolicyd.Registry.Listing.{Run-Lists}

made-some : (m : Option Manager) → is_made m ≡ true → (mgr : Manager) × (m ≡ some mgr)
made-some none e = absurd (ground (arith, e))
made-some (some mgr) e = (mgr, refl)

-- However calls of `rthread_create` and solvers are interleaved, also in the first use of the manager:
-- a caller that has left the initialisation finds a manager, the only one that was ever allocated.
tested-made :
    {h : Heap} {q : Registry} (k : ℕ)
    → Run h q
    → is_tested (q.caller k) ≡ true
    → (q.made ≡ 1) × ((mgr : Manager) × (q.solvermgr ≡ some mgr))
tested-made {q = q} k r c =
    let inv = Run-Inv r in
    let there = inv.caller_made k c in (inv.made_once.0 there, made-some q.solvermgr there)

-- However calls of `rthread_create` and solvers are interleaved, as long as the manager had memory and
-- no registration has failed for want of it: a solver that has come to `thr_unregister` is in the list of the only manager that was ever allocated, so that the call
-- succeeds. It was registered before it could unregister, however early it ends.
pub leaving-found :
    {h : Heap} {q : Registry} (tid : ℕ)
    → Run h q
    → q.short ≡ false
    → q.thread tid ≡ leaving
    → (q.made ≡ 1)
      × ((mgr : Manager) × (mgr' : Manager) × (g : Heap) × (q.solvermgr ≡ some mgr)
          × (thr_unregister mgr tid q.heap ≡ returned true mgr' g))
leaving-found {q = q} tid r n s =
    let inv = Run-Inv r in
    let there = inv.thread_made tid (ground (arith, s)) in
    let (mgr, m) = made-some q.solvermgr there in
    let (xs, is, _, l) = Run-Lists r n mgr m in
    let (mgr', g, e, _, _, _) = (thr_unregister-IsManager tid is).0 (l tid ∙ ground (arith, s)) in
    (inv.made_once.0 there, (mgr, mgr', g, m, e))
