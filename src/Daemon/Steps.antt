-- ===== src/Daemon/Steps.antt =====
-- What the daemon's two threads do between reloads, one step for each section of src/rh-xmlrpc-server.c
-- and src/rahunasd.c that holds `RHMtxLock`: the commands of the main thread, and of the polling thread
-- the stop in `expired_check`. The polling thread reads the clock, decides and calls the accounting
-- service before it takes the lock, so that the session that it decided on may be another by then: its
-- request may be any. The system may answer otherwise at every step.
pub mod Owned
pub mod Commands
pub mod Sessions
pub mod Ended
use rahunas.Daemon.{Daemon, vserver_get_by_id, enter, leave}
use rahunas.Host.{Host, Event}
use rahunas.Prelude.{ℕ, ◌≡◌, ◌⊎◌, ◌∷◌, Option, some}
use rahunas.Rpc.Stop.{do_stopsession}
use rahunas.Rpc.{do_startsession}
use rahunas.Session.Owners.Drawing.{InRange}
use rahunas.Session.Task.{rh_task_stopsess}
use rahunas.Session.{VServer, TaskReq}
use rahunas.Text.{Bytes}

-- The stop of a session in `expired_check`: causes 4 and 5 are the idle and the session time limit.
unfoldable pub expire_stop : Host → TaskReq → ℕ → Bytes → ℕ → ℕ → VServer → Daemon → Daemon
expire_stop h stack id mac cause vserver_id vs d = leave vserver_id d (
    rh_task_stopsess h d.task_list
      (enter d vs (record stack { id = id; mac_address = mac; req_opt = cause })))

pub data Step (d : Daemon) : Daemon → Type 0 where
  starts :
      {d' : Daemon} (h : Host) (fuel : ℕ) (stack : TaskReq) (param : Option Bytes) (reply : Bytes)
      → InRange h
      → do_startsession h fuel stack param d ≡ some (d', reply)
      → Step d d'
  stops :
      {d' : Daemon} (h : Host) (stack : TaskReq) (param : Option Bytes) (reply : Bytes)
      → do_stopsession h stack param d ≡ some (d', reply)
      → Step d d'
  expires :
      {d' : Daemon} (h : Host) (stack : TaskReq) (id : ℕ) (mac : Bytes) (cause vserver_id : ℕ)
      (vs : VServer)
      → vserver_get_by_id d.vserver_list vserver_id ≡ some vs
      → (cause ≡ 4) ⊎ (cause ≡ 5)
      → d' ≡ expire_stop h stack id mac cause vserver_id vs d
      → Step d d'
  asks : {d' : Daemon} (e : Event) → d' ≡ (record d { log = e ∷ d.log }) → Step d d'

pub data Reach (d : Daemon) : Daemon → Type 0 where
  here : Reach d d
  next : {e f : Daemon} → Reach d e → Step e f → Reach d f
