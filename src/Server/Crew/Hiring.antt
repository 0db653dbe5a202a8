-- ===== src/Server/Crew/Hiring.antt =====
-- What one turn of the accept loop makes of the workers.
use rblpolicyd.Prelude.{
  ℕ, ◌+◌, ◌%◌, ◌^◌, ◌≤◌, ◌<◌, ◌≡◌, refl, sym, ap, true, false, Option, none, some, List, [], ◌∷◌,
  ◌++◌, length, ltb, Bool, Bool-cases, inl, inr, if◌then◌else◌, arith,
}
use rblpolicyd.Prelude.Int.{pos, negsuc}
use rblpolicyd.Globals.{AppState, app_run, app_reload, app_exit, app_error, is_run}
use rblpolicyd.Request.{Event}
use rblpolicyd.ThrMgr.{Heap, Manager, u32_mod}
use rblpolicyd.Threads.{Creation, ended, wthread_create}
use rblpolicyd.Threads.Limit.{wthread_create-Limit}
use rblpolicyd.Server.{
  Server, Accepted, connection, failure, Turn, Served, running, stopped, exited, broken, sigterm,
  refused, created, serve, dispatch, turn_with, turn, goes_on,
}
use rblpolicyd.Server.Kept.{NotReload, run-NotReload}
use rblpolicyd.ThrMgr.Members.{length-tids}
use rblpolicyd.Server.Crew.{newcomer, hired_in, hired, Granted}
use rblpolicyd.Server.Crew.Listed.{Listed, opened-Listed}

-- Every connection that was counted is with a live worker, or its worker has left, or it was closed.
abbrev pub Counted : Server → ℕ → Type 0
Counted s workers = s.num_requests ≡ (workers + s.closed) % 2 ^ 32

-- The list of the manager holds the workers `live`, within the limit; `past` have left.
abbrev pub Crew : ℕ → List ℕ → ℕ → Server → Type 0
Crew maxthreads live past s =
    Listed s.workermgr s.heap live × (length live ≤ maxthreads) × Counted s (length live + past)

-- what a turn leaves that hires the workers `new`
abbrev pub After : ℕ → List ℕ → ℕ → List ℕ → Served → Type 0
After maxthreads live past new (running s) = Crew maxthreads (new ++ live) past s
After maxthreads live past new (stopped s) = Unit
After maxthreads live past new (exited code) = Unit
After maxthreads live past new broken = ⊥

module _ (maxthreads : ℕ) (live : List ℕ) (past : ℕ) (s : Server) where
  -- the server whose requests are one more
  abbrev counting : Server
  counting = record s { num_requests = (s.num_requests + 1) % 2 ^ 32 }

  uncreated-After :
      {mgr : Manager} {h : Heap} {c : Creation} (code : ℕ) (thread : Option ℕ)
      → c ≡ ended (negsuc code) false none mgr h
      → Listed (some mgr) h live
      → length live ≤ maxthreads
      → Counted s (length live + past)
      → After maxthreads live past (newcomer c thread) (created counting c)
  unfolding created newcomer
  uncreated-After code thread e listed room counted = rw e (listed, room, omega (arith, counted))

  registered-After :
      {mgr : Manager} {h : Heap} {c : Creation} {count thread : Option ℕ} (tid : ℕ)
      → c ≡ ended (pos 0) false count mgr h
      → thread ≡ some tid
      → Listed (some mgr) h (tid ∷ live)
      → length live < maxthreads
      → Counted s (length live + past)
      → After maxthreads live past (newcomer c thread) (created counting c)
  unfolding created newcomer
  registered-After tid e t listed room counted =
      rw (e, t) (listed, omega (arith, room), omega (arith, counted))

  -- the creation of a worker, for a manager that is there
  created-After :
      (env : Turn) (mgr : Manager)
      → maxthreads < u32_mod
      → Granted env s.heap
      → Listed (some mgr) s.heap live
      → length live ≤ maxthreads
      → Counted s (length live + past)
      → let c = wthread_create maxthreads env.attempt (some mgr) s.heap in
        After maxthreads live past (newcomer c env.attempt.thread) (created counting c)
  created-After env mgr small granted (xs, is, same) room counted =
      elim (wthread_create-Limit maxthreads env.attempt granted.node is small granted.stays
        granted.given granted.exists granted.unused) [
          | inl (tid, mgr', g, t, e, is', outside, free) ↦
              registered-After tid e t ((granted.node, tid) ∷ xs, is', ap (λ us. tid ∷ us) same)
                (rw (sym same, length-tids xs) free) counted
          | inr (inl e) ↦ uncreated-After 2 env.attempt.thread e (xs, is, same) room counted
          | inr (inr (inl (e, full))) ↦
              uncreated-After 0 env.attempt.thread e (xs, is, same) room counted
          | inr (inr (inr (e, t))) ↦
              uncreated-After 1 env.attempt.thread e (xs, is, same) room counted
        ]

  serve-After :
      (t : Turn) (conn : List Event)
      → 0 < maxthreads
      → maxthreads < u32_mod
      → Granted t s.heap
      → Crew maxthreads live past s
      → After maxthreads live past
          (newcomer (wthread_create maxthreads t.attempt s.workermgr s.heap) t.attempt.thread)
          (serve (pos maxthreads) t conn counting)
  unfolding serve
  serve-After t conn allowed small granted (listed, room, counted) =
      let (mgr, listed', e) =
        opened-Listed s.workermgr s.heap live maxthreads t.attempt granted.memory listed in
      let threads : ltb 0 maxthreads ≡ true = ground arith in
      rw (threads, e) (created-After t mgr small granted listed' room counted)

  dispatch-After :
      (t : Turn) (conn : List Event) (a : AppState)
      → 0 < maxthreads
      → maxthreads < u32_mod
      → Granted t s.heap
      → Crew maxthreads live past s
      → NotReload a
      → After maxthreads live past
          (hired_in maxthreads t s (connection conn) a)
          (dispatch (pos maxthreads) t conn s a)
  unfolding dispatch hired_in
  dispatch-After t conn app_run allowed small granted crew n =
      serve-After t conn allowed small granted crew
  dispatch-After t conn app_reload allowed small granted crew n = absurd (n refl)
  dispatch-After t conn app_exit allowed small granted crew n = crew
  dispatch-After t conn app_error allowed small granted crew n = crew

refused-After :
    (maxthreads : ℕ) (live : List ℕ) (past : ℕ) (eintr : Bool) (s : Server)
    → Crew maxthreads live past s
    → After maxthreads live past [] (refused eintr s)
unfolding refused
refused-After maxthreads live past true s crew = elim (Bool-cases (is_run s.appstate)) [
  | inl run ↦ rw run crew
  | inr other ↦ rw other tt
]
refused-After maxthreads live past false s crew = tt

turn_with-After :
    (maxthreads : ℕ) (live : List ℕ) (past : ℕ) (t : Turn) (s : Server) (a : Accepted)
    → 0 < maxthreads
    → maxthreads < u32_mod
    → Granted t s.heap
    → Crew maxthreads live past s
    → NotReload s.appstate
    → After maxthreads live past
        (hired_in maxthreads t s a s.appstate)
        (turn_with (pos maxthreads) t s a)
unfolding turn_with hired_in
turn_with-After maxthreads live past t s (connection conn) allowed small granted crew n =
    dispatch-After maxthreads live past s t conn s.appstate allowed small granted crew n
turn_with-After maxthreads live past t s (failure eintr) allowed small granted crew n =
    refused-After maxthreads live past eintr s crew

-- SIGTERM leaves the crew alone.
signalled-Crew :
    (maxthreads : ℕ) (live : List ℕ) (past : ℕ) (t : Turn) (signal : Bool) (s : Server)
    → Granted t s.heap
    → Crew maxthreads live past s
    → NotReload s.appstate
    → let s' = if signal then sigterm s else s in
      Granted t s'.heap × Crew maxthreads live past s' × NotReload s'.appstate
unfolding sigterm goes_on
signalled-Crew maxthreads live past t true s granted crew n =
    (granted, crew, run-NotReload app_exit refl)
signalled-Crew maxthreads live past t false s granted crew n = (granted, crew, n)

-- What a turn makes of the crew.
pub turn-After :
    (maxthreads : ℕ) (live : List ℕ) (past : ℕ) (t : Turn) (s : Server)
    → 0 < maxthreads
    → maxthreads < u32_mod
    → Granted t s.heap
    → Crew maxthreads live past s
    → NotReload s.appstate
    → After maxthreads live past (hired maxthreads t s) (turn (pos maxthreads) t s)
unfolding turn hired
turn-After maxthreads live past t s allowed small granted crew n =
    let (granted', crew', n') = signalled-Crew maxthreads live past t t.signal s granted crew n in
    turn_with-After maxthreads live past t (if t.signal then sigterm s else s) t.accepted allowed
      small granted' crew' n'
