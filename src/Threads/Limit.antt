-- ===== src/Threads/Limit.antt =====
-- `wthread_create` keeps the limit on the number of workers.
use rblpolicyd.Prelude.{
  ℕ, zero, suc, ◌+◌, ◌≤◌, ◌<◌, ◌≡◌, ◌≢◌, ◌⊎◌, refl, sym, ap, ◌∙◌, true, false, Option, none, some,
  ◌∷◌, length, Bool-cases, Option-cases, inl, inr, leb, ◌==◌, arith,
}
use rblpolicyd.Prelude.Int.{pos}
use rblpolicyd.Globals.{AppState, is_run}
use rblpolicyd.ThrMgr.{Ptr, null, Heap, Manager, returned, u32_mod, thr_register}
use rblpolicyd.ThrMgr.Links.{Nodes, IsManager, SameOutside, thr_register-IsManager}
use rblpolicyd.Threads.{
  Attempt, Creation, ended, registered_worker, minus_toomany, minus_syserr, minus_appstate, Waited,
  waited, wait_slot, started_worker, opened, wthread_create,
}

-- With all threads busy the wait ends with no rounds left or outside the state APP_RUN: the count
-- cannot fall while the mutex is held.
wait_slot-full :
    (err k : ℕ) (app : ℕ → AppState)
    → let w = wait_slot err true app k in
      (w.err ≡ 0) ⊎ ((j : ℕ) × (w.reads ≡ suc j) × (is_run (app j) ≡ false))
unfolding wait_slot
wait_slot-full zero k app = inl refl
wait_slot-full (suc err) k app = elim (Bool-cases (is_run (app k))) [
  | inl run ↦ rw run (wait_slot-full err (suc k) app)
  | inr other ↦ inr (k, rw other refl, other)
]

wait_slot-free :
    (err k : ℕ) (app : ℕ → AppState) → wait_slot (suc err) false app k ≡ waited (suc err) k
unfolding wait_slot
wait_slot-free err k app = refl

stopped :
    (env : Attempt) (w : Waited) (mgr : Manager) (h : Heap)
    → is_run (env.appstate w.reads) ≡ false
    → started_worker env w mgr h ≡ ended minus_appstate false none mgr h
unfolding started_worker
stopped env w mgr h e = rw e refl

no_round :
    (env : Attempt) (w : Waited) (mgr : Manager) (h : Heap)
    → is_run (env.appstate w.reads) ≡ true
    → w.err ≡ 0
    → started_worker env w mgr h ≡ ended minus_toomany false none mgr h
unfolding started_worker
no_round env w mgr h e z =
    let none_left : (w.err == 0) ≡ true = ground arith in rw (e, none_left) refl

no_thread :
    (env : Attempt) (w : Waited) (mgr : Manager) (h : Heap)
    → is_run (env.appstate w.reads) ≡ true
    → 0 < w.err
    → env.thread ≡ none
    → started_worker env w mgr h ≡ ended minus_syserr false none mgr h
unfolding started_worker
no_thread env w mgr h e z t = let left : (w.err == 0) ≡ false = ground arith in rw (e, left, t) refl

started :
    (env : Attempt) (w : Waited) (mgr : Manager) (h : Heap) (tid : ℕ)
    → is_run (env.appstate w.reads) ≡ true
    → 0 < w.err
    → env.thread ≡ some tid
    → started_worker env w mgr h ≡ registered_worker (thr_register mgr tid env.node h)
unfolding started_worker
started env w mgr h tid e z t =
    let left : (w.err == 0) ≡ false = ground arith in rw (e, left, t) refl

-- The thread runs and is registered, and there was room for it.
abbrev pub Registered : ℕ → Attempt → Ptr → Heap → Nodes → Creation → Type 0
Registered maxthreads env node h xs c =
    (tid : ℕ) × (mgr' : Manager) × (g : Heap) × (env.thread ≡ some tid)
    × (c ≡ ended (pos 0) false (some (length xs + 1)) mgr' g)
    × IsManager g mgr' ((node, tid) ∷ xs)
    × SameOutside node xs h g
    × (length xs < maxthreads)

-- Nothing changed, and why.
abbrev pub Refused : ℕ → Attempt → Manager → Heap → Nodes → Creation → Type 0
Refused maxthreads env mgr h xs c =
    (c ≡ ended minus_appstate false none mgr h)
    ⊎ ((c ≡ ended minus_toomany false none mgr h) × (maxthreads ≤ length xs))
    ⊎ ((c ≡ ended minus_syserr false none mgr h) × (env.thread ≡ none))

-- While the call runs, no other function sets the state back to APP_RUN.
abbrev pub NoReturn : (ℕ → AppState) → Type 0
NoReturn app = (j : ℕ) → is_run (app j) ≡ false → is_run (app (suc j)) ≡ false

started_worker-full :
    (xs : Nodes) (maxthreads : ℕ) (env : Attempt) (mgr : Manager) (h : Heap)
    → NoReturn env.appstate
    → maxthreads ≤ length xs
    → Refused maxthreads env mgr h xs (started_worker env (wait_slot 20 true env.appstate 0) mgr h)
started_worker-full xs maxthreads env mgr h stays full =
    let w = wait_slot 20 true env.appstate 0 in
    elim (Bool-cases (is_run (env.appstate w.reads))) [
      | inr other ↦ inl (stopped env w mgr h other)
      | inl run ↦ elim (wait_slot-full 20 0 env.appstate) [
        | inl z ↦ inr (inl (no_round env w mgr h run z, full))
        | inr (j, e, other) ↦
            absurd (ground (stays j other, sym (ap is_run (ap env.appstate e)), run, arith))
      ]
    ]

registered :
    {mgr' : Manager} {g : Heap} {n : ℕ} {node : Ptr} (mgr : Manager) (h : Heap) (tid : ℕ)
    (memory : Option Ptr)
    → memory ≡ some node
    → thr_register mgr tid (some node) h ≡ returned true mgr' g
    → mgr'.nthreads ≡ n
    → registered_worker (thr_register mgr tid memory h) ≡ ended (pos 0) false (some n) mgr' g
unfolding registered_worker
registered mgr h tid memory at e count = rw (at, e, count) refl

started_worker-free :
    {h : Heap} {mgr : Manager} {xs : Nodes} (maxthreads : ℕ) (env : Attempt) (node : Ptr)
    → IsManager h mgr xs
    → maxthreads < u32_mod
    → length xs < maxthreads
    → env.node ≡ some node
    → node ≢ null
    → h node ≡ none
    → let c = started_worker env (waited 20 0) mgr h in
      Registered maxthreads env node h xs c ⊎ Refused maxthreads env mgr h xs c
started_worker-free {h} {mgr} {xs} maxthreads env node is small room at ne unused =
    elim (Bool-cases (is_run (env.appstate 0))) [
      | inr other ↦ inr (inl (stopped env (waited 20 0) mgr h other))
      | inl run ↦ elim (Option-cases env.thread) [
        | inl t ↦ inr (inr (inr (no_thread env (waited 20 0) mgr h run (omega arith) t, t)))
        | inr (tid, t) ↦
            let ((mgr', g, e, is', same), _) =
              thr_register-IsManager tid node is ne unused (omega (arith, room, small)) in
            inl (
              tid,
              mgr',
              g,
              t,
              started env (waited 20 0) mgr h tid run (omega arith) t
                  ∙ registered mgr h tid env.node at e (ground (arith, is'.count)),
              is',
              same,
              room,
            )
      ]
    ]

pub wthread_create-Limit :
    {h : Heap} {mgr : Manager} {xs : Nodes} (maxthreads : ℕ) (env : Attempt) (node : Ptr)
    → IsManager h mgr xs
    → maxthreads < u32_mod
    → NoReturn env.appstate
    → env.node ≡ some node
    → node ≢ null
    → h node ≡ none
    → let c = wthread_create maxthreads env (some mgr) h in
      Registered maxthreads env node h xs c ⊎ Refused maxthreads env mgr h xs c
unfolding wthread_create opened wait_slot
wthread_create-Limit {h} {mgr} {xs} maxthreads env node is small stays at ne unused =
    elim (Bool-cases (leb maxthreads mgr.nthreads)) [
      | inl full ↦
          rw full
            (inr (started_worker-full xs maxthreads env mgr h stays (ground (arith, is.count))))
      | inr room ↦
          rw room (
            started_worker-free maxthreads env node is small (ground (arith, is.count)) at ne
              unused)
    ]
