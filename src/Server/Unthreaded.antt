-- ===== src/Server/Unthreaded.antt =====
-- A daemon that is started with 0 worker threads.
use rblpolicyd.Prelude.{
  Bytes, ◌+◌, ◌%◌, ◌^◌, ◌≡◌, refl, ap, ◌∙◌, true, false, none, List, ◌∷◌, ℕ, if◌then◌else◌,
}
use rblpolicyd.Prelude.Int.{pos}
use rblpolicyd.Globals.{app_run}
use rblpolicyd.Request.{Event}
use rblpolicyd.Threads.{wthread_exit}
use rblpolicyd.CfgFile.{CfgItem}
use rblpolicyd.Worker.{Outcome, replied, worker_th}
use rblpolicyd.Server.{
  Server, connection, Turn, exited, exited_worker, called, serve, dispatch, turn_with, turn,
  goes_on, sigterm, server_loop,
}

called-exits :
    (self : ℕ) (s : Server) (o : Outcome) (text : List Bytes) (after : List CfgItem)
    → s.workermgr ≡ none
    → o ≡ replied text after
    → called self s o ≡ exited 255
unfolding called exited_worker wthread_exit
called-exits self s o text after e n = rw (n, called, e, wthread_exit) refl

turn-exits :
    (t : Turn) (s : Server) (conn : List Event) (text : List Bytes) (after : List CfgItem)
    → s.workermgr ≡ none
    → s.appstate ≡ app_run
    → t.signal ≡ false
    → t.accepted ≡ connection conn
    → worker_th t.env s.rblist conn ≡ replied text after
    → turn (pos 0) t s ≡ exited 255
unfolding turn turn_with dispatch serve
turn-exits t s conn text after no_manager run no_signal accepted answered =
    ap (λ b. turn_with (pos 0) t (if b then sigterm s else s) t.accepted) no_signal
    ∙ ap (turn_with (pos 0) t s) accepted
    ∙ ap (dispatch (pos 0) t conn s) run
    ∙ called-exits t.self (record s { num_requests = (s.num_requests + 1) % 2 ^ 32 })
        (worker_th t.env s.rblist conn) text after no_manager answered

-- With a limit of 0 threads, the first connection that is accepted in the state APP_RUN ends the
-- daemon by `exit(255)` once `worker_th` has answered it.
pub server_loop-unthreaded :
    (t : Turn) (ts : List Turn) (s : Server) (conn : List Event) (text : List Bytes)
    (after : List CfgItem)
    → s.workermgr ≡ none
    → s.appstate ≡ app_run
    → t.signal ≡ false
    → t.accepted ≡ connection conn
    → worker_th t.env s.rblist conn ≡ replied text after
    → server_loop (pos 0) (t ∷ ts) s ≡ exited 255
unfolding server_loop goes_on
server_loop-unthreaded t ts s conn text after no_manager run no_signal accepted answered =
    let more : goes_on s.appstate ≡ true = ap goes_on run in
    rw (more, turn-exits t s conn text after no_manager run no_signal accepted answered) refl
