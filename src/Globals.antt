-- ===== src/Globals.antt =====
-- globals.h: the state of the daemon that its signal handler and its threads share.
use rblpolicyd.Prelude.{Bool, true, false}

-- `appstate_t`
pub data AppState : Type 0 where
  app_run : AppState
  app_reload : AppState
  app_exit : AppState
  app_error : AppState

unfoldable pub is_run : AppState → Bool
is_run app_run = true
is_run app_reload = false
is_run app_exit = false
is_run app_error = false

unfoldable pub is_exit : AppState → Bool
is_exit app_run = false
is_exit app_reload = false
is_exit app_exit = true
is_exit app_error = false
