-- ===== src/Daemon/Watch.antt =====
-- `watch_child` of src/rahunasd.c: the parent that starts the daemon again when it ends. A round is
-- what the system answers: `none` where `fork` fails, and otherwise how the child ended and when.
-- Times count the seconds since 1970, and are far from 2^63. The process that only writes the
-- number of the parent, the change of directory and the closed descriptors before the loop are left
-- out, as are log messages.
pub mod Failures
use rahunas.Prelude.{
  ℕ, zero, suc, ◌+◌, List, [], ◌∷◌, Option, none, some, Bool, true, false, ltb, ◌==◌, if◌then◌else◌,
}

-- `WIFEXITED`, `WIFSIGNALED`, or neither.
pub data ChildEnd : Type 0 where
  with_status : ℕ → ChildEnd
  by_signal : ℕ → ChildEnd
  otherwise : ChildEnd

pub record Round : Type 0 where
  pub start : ℕ
  pub stop : ℕ
  pub status : ChildEnd

-- The parent goes on with a count of failures, or exits with a status.
pub data Watch : Type 0 where
  watching : ℕ → Watch
  left : ℕ → Watch

unfoldable pub graceful : ChildEnd → Bool
graceful (with_status n) = n == 0
graceful (by_signal n) = false
graceful otherwise = false

unfoldable pub next_failcount : Round → ℕ → ℕ
next_failcount r failcount = if ltb r.stop (r.start + 10) then failcount + 1 else 0

-- From `fork` to `sleep`.
unfoldable pub watch_round : Option Round → ℕ → Watch
unfolding graceful next_failcount
watch_round none failcount = left 1
watch_round (some r) failcount =
    if next_failcount r failcount == 5
    then left 1
    else if graceful r.status
    then left 0
    else watching (next_failcount r failcount)

-- The loop over the answers of as many rounds as there are.
unfoldable pub watch_loop : List (Option Round) → ℕ → Watch
watch_loop [] failcount = watching failcount
watch_loop (r ∷ rs) failcount = elim (watch_round r failcount) [
  | watching n ↦ watch_loop rs n
  | left status ↦ left status
]

abbrev pub watch_child : List (Option Round) → Watch
watch_child rs = watch_loop rs 0
