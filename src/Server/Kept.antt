-- ===== src/Server/Kept.antt =====
-- A daemon with worker threads that starts in APP_RUN.
use rblpolicyd.Prelude.{
  ℕ, ◌+◌, ◌%◌, ◌^◌, ◌<◌, ◌≡◌, ◌≢◌, refl, Bool, true, false, List, Bool-cases, inl, inr, ltb,
  if◌then◌else◌, arith,
}
use rblpolicyd.Prelude.Int.{pos, negsuc}
use rblpolicyd.Globals.{AppState, app_run, app_reload, app_exit, app_error, is_run}
use rblpolicyd.CfgFile.{CfgItem}
use rblpolicyd.Request.{Event}
use rblpolicyd.Threads.{Creation, ended, undefined}
use rblpolicyd.Server.{
  Server, Accepted, connection, failure, Turn, Served, running, stopped, exited, broken, sigterm,
  refused, created, serve, dispatch, turn_with, goes_on,
}

abbrev pub NotReload : AppState → Type 0
NotReload a = a ≢ app_reload

-- The list is the given one, and no reload is under way.
abbrev pub Kept : List CfgItem → Server → Type 0
Kept rblist s = (s.rblist ≡ rblist) × NotReload s.appstate

-- The loop goes on, or has returned behind a signal or an error of `accept`, with the list; it has not
-- left by `exit(255)`. Only an access through NULL, where memory for the manager is short or its list
-- is broken, is left open.
abbrev pub Lasts : List CfgItem → Served → Type 0
Lasts rblist (running s) = Kept rblist s
Lasts rblist (stopped s) = Kept rblist s × (goes_on s.appstate ≡ false)
Lasts rblist (exited code) = ⊥
Lasts rblist broken = Unit

pub run-NotReload : (a : AppState) → goes_on a ≡ false → NotReload a
unfolding goes_on
run-NotReload app_run e r = ground (e, arith)
run-NotReload app_reload e r = ground (e, arith)
run-NotReload app_exit e r = cc
run-NotReload app_error e r = cc

stops : (a : AppState) → NotReload a → is_run a ≡ false → goes_on a ≡ false
unfolding is_run goes_on
stops app_run n e = e
stops app_reload n e = absurd (n refl)
stops app_exit n e = refl
stops app_error n e = refl

created-Lasts :
    (rblist : List CfgItem) (s : Server) (c : Creation) → Kept rblist s → Lasts rblist (created s c)
unfolding created
created-Lasts rblist s (ended (pos c) closed count mgr h) k = k
created-Lasts rblist s (ended (negsuc c) closed count mgr h) k = k
created-Lasts rblist s undefined k = tt

serve-Lasts :
    (rblist : List CfgItem) (n : ℕ) (t : Turn) (conn : List Event) (s : Server)
    → 0 < n
    → Kept rblist s
    → Lasts rblist (serve (pos n) t conn s)
unfolding serve
serve-Lasts rblist n t conn s allowed k =
    let some_there : ltb 0 n ≡ true = ground arith in rw some_there (created-Lasts rblist s _ k)

dispatch-Lasts :
    (rblist : List CfgItem) (n : ℕ) (t : Turn) (conn : List Event) (s : Server) (a : AppState)
    → 0 < n
    → Kept rblist s
    → NotReload a
    → Lasts rblist (dispatch (pos n) t conn s a)
unfolding dispatch
dispatch-Lasts rblist n t conn s app_run allowed k no_reload =
    serve-Lasts rblist n t conn (record s { num_requests = (s.num_requests + 1) % 2 ^ 32 }) allowed
      k
dispatch-Lasts rblist n t conn s app_reload allowed k no_reload = absurd (no_reload refl)
dispatch-Lasts rblist n t conn s app_exit allowed k no_reload = k
dispatch-Lasts rblist n t conn s app_error allowed k no_reload = k

after_error :
    (a : AppState)
    → NotReload a
    → let b = if is_run a then app_error else a in NotReload b × (goes_on b ≡ false)
unfolding is_run goes_on
after_error app_run n = (λ e. absurd (run-NotReload app_error refl e), refl)
after_error app_reload n = absurd (n refl)
after_error app_exit n = (n, refl)
after_error app_error n = (n, refl)

refused-Lasts :
    (rblist : List CfgItem) (eintr : Bool) (s : Server)
    → Kept rblist s
    → Lasts rblist (refused eintr s)
unfolding refused
refused-Lasts rblist true s k = elim (Bool-cases (is_run s.appstate)) [
  | inl run ↦ rw run k
  | inr other ↦ rw other (k, stops s.appstate k.1 other)
]
refused-Lasts rblist false s k = let (n, e) = after_error s.appstate k.1 in ((k.0, n), e)

pub turn_with-Lasts :
    (rblist : List CfgItem) (n : ℕ) (t : Turn) (s : Server) (a : Accepted)
    → 0 < n
    → Kept rblist s
    → Lasts rblist (turn_with (pos n) t s a)
unfolding turn_with
turn_with-Lasts rblist n t s (connection conn) allowed k =
    dispatch-Lasts rblist n t conn s s.appstate allowed k k.1
turn_with-Lasts rblist n t s (failure eintr) allowed k = refused-Lasts rblist eintr s k

pub signalled :
    (rblist : List CfgItem) (signal : Bool) (s : Server)
    → Kept rblist s
    → Kept rblist (if signal then sigterm s else s)
unfolding sigterm goes_on
signalled rblist true s k = (k.0, run-NotReload app_exit refl)
signalled rblist false s k = k
