-- ===== src/Server/Signals.antt =====
-- server.c: the signals that the accepting thread sets up, and what one of them does.
use rblpolicyd.Prelude.{
  ℕ, ◌≡◌, ◌≢◌, Bool, true, false, ◌||◌, Option, none, some, ◌==◌, if◌then◌else◌, arith,
}
use rblpolicyd.Globals.{app_exit}
use rblpolicyd.Stats.{Stats, stats_start}
use rblpolicyd.Stats.Log.{Logged, stats_log}
use rblpolicyd.Server.{Server, sigterm}

-- a set of signals, by their numbers
abbrev SignalSet : Type 0
SignalSet = ℕ → Bool

abbrev sigfillset : SignalSet
sigfillset s = true

abbrev sigemptyset : SignalSet
sigemptyset s = false

abbrev sigaddset : SignalSet → ℕ → SignalSet
sigaddset set n s = (s == n) || set s

abbrev sigdelset : SignalSet → ℕ → SignalSet
sigdelset set n s = if s == n then false else set s

-- The numbers on the platform.
pub record Numbers : Type 0 where
  pub term : ℕ
  pub int : ℕ
  pub usr1 : ℕ
  pub kill : ℕ
  pub stop : ℕ

pub data Handler : Type 0 where
  by_default : Handler
  by_sigterm : Handler
  by_sigstatus : Handler

-- For each signal the handler and the signals that are blocked while it runs, and the signals that
-- are blocked always.
pub record Signals : Type 0 where
  pub handler : ℕ → Handler
  pub mask : ℕ → SignalSet
  pub blocked : SignalSet

abbrev sigaction : ℕ → Handler → SignalSet → Signals → Signals
sigaction n h m g = record g {
  handler = λ s. if s == n then h else g.handler s;
  mask = λ s. if s == n then m else g.mask s;
}

-- SIGKILL and SIGSTOP cannot be blocked.
abbrev sigprocmask : Numbers → SignalSet → Signals → Signals
sigprocmask n set g = record g {
  blocked = λ s. if s == n.kill || s == n.stop then false else set s;
}

-- the beginning of `server`
unfoldable pub set_up : Numbers → Signals → Signals
set_up n g =
    let term_mask = sigaddset (sigaddset sigemptyset n.term) n.int in
    let g₁ = sigaction n.int by_sigterm term_mask (sigaction n.term by_sigterm term_mask g) in
    let g₂ = sigaction n.usr1 by_sigstatus (sigaddset sigemptyset n.usr1) g₁ in
    sigprocmask n (sigdelset (sigdelset (sigdelset sigfillset n.term) n.int) n.usr1) g₂

-- `sigstatus`, at a time
unfoldable pub sigstatus : (strdup : ℕ → Bool) → ℕ → Stats → Logged
sigstatus strdup now stats = stats_log strdup now stats

-- what a handler gives to `syslog`: the signal that it received, or the statistics
pub data Notice : Type 0 where
  shutting_down : ℕ → Notice
  status : Logged → Notice

-- What a signal does: the state behind it, and the line that it writes; `none` is the default action
-- of the system.
abbrev Delivered : Type 0
Delivered = Option (Server × Option Notice)

unfoldable pub handled : Handler → ℕ → (strdup : ℕ → Bool) → ℕ → Stats → Server → Delivered
handled by_default signo strdup now stats s = none
handled by_sigterm signo strdup now stats s = some (sigterm s, some (shutting_down signo))
handled by_sigstatus signo strdup now stats s = some (s, some (status (sigstatus strdup now stats)))

-- A signal that somebody sends by `kill`; it waits if it is blocked. One that a fault of the thread
-- itself raises is another matter: where it is blocked, it ends the process.
unfoldable pub delivered : Signals → ℕ → (strdup : ℕ → Bool) → ℕ → Stats → Server → Delivered
delivered g n strdup now stats s =
    if g.blocked n then some (s, none) else handled (g.handler n) n strdup now stats s

-- `server` up to its loop, at a time
pub record Begun : Type 0 where
  pub signals : Signals
  pub stats : Stats
  pub start : ℕ

unfoldable pub begun : Numbers → ℕ → Signals → Stats → Begun
begun n now g stats = record { signals = set_up n g; stats = stats_start now stats; start = now }

-- After the beginning of `server`, of the signals but SIGKILL and SIGSTOP that are sent by `kill` none
-- ends the process by its default action, and none sets APP_RELOAD: SIGTERM and SIGINT write which of
-- them came and set APP_EXIT, SIGUSR1 writes the statistics and changes nothing, and every other
-- signal, SIGHUP among them, waits. SIGUSR1 differs from SIGTERM and SIGINT.
pub delivered-begun :
    (n : Numbers) (g : Signals) (strdup : ℕ → Bool) (signal at now : ℕ) (before stats : Stats)
    (s : Server)
    → n.term ≢ n.usr1
    → n.int ≢ n.usr1
    → signal ≢ n.kill
    → signal ≢ n.stop
    → delivered (begun n at g before).signals signal strdup now stats s
      ≡ some (
        (if signal == n.term || signal == n.int then record s { appstate = app_exit } else s),
        (if signal == n.usr1
            then some (status (stats_log strdup now stats))
            else if signal == n.term || signal == n.int
            then some (shutting_down signal)
            else none),
      )
unfolding delivered begun set_up handled sigterm sigstatus
delivered-begun n g strdup signal at now before stats s d e k t = ground arith
