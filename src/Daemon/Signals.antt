-- ===== src/Daemon/Signals.antt =====
-- `rh_sighandler` of src/rahunasd.c. The global `pid` is a 32-bit pattern: 0 in the daemon, the number
-- of the child in the parent that watches it, and negative where `fork` failed.
use rahunas.Prelude.{ℕ, ◌^◌, ltb, ◌==◌, if◌then◌else◌}

-- `SIGTERM` and `SIGHUP` are handled; the handler does nothing for another.
pub data Signal : Type 0 where
  sigterm sighup other_signal : Signal

pub data Reaction : Type 0 where
  -- `rh_exit` and `exit(EXIT_SUCCESS)`
  clean_exit : Reaction
  -- `rh_reload`
  reload : Reaction
  -- `kill`, with the process and the signal
  pass_on : ℕ → Signal → Reaction
  -- `exit(EXIT_FAILURE)`
  failure_exit : Reaction
  -- a message in the log, or nothing
  go_on : Reaction

unfoldable pub rh_sighandler : ℕ → Signal → Reaction
rh_sighandler pid sigterm =
    if pid == 0 then clean_exit else if ltb pid (2 ^ 31) then pass_on pid sigterm else failure_exit
rh_sighandler pid sighup =
    if pid == 0 then reload else if ltb pid (2 ^ 31) then pass_on pid sighup else go_on
rh_sighandler pid other_signal = go_on
