-- ===== src/Utils/Files.antt =====
-- The log file and the pid file: `rh_openlog`, `rh_closelog`, `rh_logselect` and `rh_writepid` of
-- src/rh-utils.c. `DEFAULT_PID`, which the build gives, is a parameter, and descriptors are 32-bit patterns.
use rahunas.Prelude.{ℕ, List, ◌∷◌, ◌++◌, ◌==◌, if◌then◌else◌}
use rahunas.Text.{Bytes, codes, show_d}

pub data FileCall : Type 0 where
  opens : Bytes → FileCall
  closes : ℕ → FileCall
  dup2 : ℕ → ℕ → FileCall
  -- to the standard output
  fprintf : Bytes → FileCall

-- The answers, by the whole history.
pub record FileHost : Type 0 where
  pub descriptor : List FileCall → ℕ
  pub closed : List FileCall → ℕ

unfoldable pub rh_openlog : FileHost → Bytes → List FileCall → List FileCall × ℕ
rh_openlog h filename log = let asked = opens filename ∷ log in (asked, h.descriptor asked)

unfoldable pub rh_closelog : FileHost → ℕ → List FileCall → List FileCall × ℕ
rh_closelog h fd log = let asked = closes fd ∷ log in (asked, if h.closed asked == 0 then 1 else 0)

-- 2 is `STDERR_FILENO`.
unfoldable pub rh_logselect : ℕ → List FileCall → List FileCall × ℕ
rh_logselect fd log = (dup2 fd 2 ∷ log, 0)

-- The name that is given is not read. Only a descriptor of 0 is taken for a failure. 1 is
-- `STDOUT_FILENO`.
unfoldable pub rh_writepid : FileHost → Bytes → Bytes → ℕ → List FileCall → List FileCall
rh_writepid h default_pid pidfile pid log =
    let asked = opens default_pid ∷ log in
    let pidfd = h.descriptor asked in
    if pidfd == 0
    then asked
    else closes pidfd ∷ fprintf (show_d pid ++ codes "\n") ∷ dup2 pidfd 1 ∷ asked
