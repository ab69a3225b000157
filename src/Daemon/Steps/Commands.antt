-- ===== src/Daemon/Steps/Commands.antt =====
-- The steps of the two threads, and the bandwidth slots of all sessions.
use rahunas.Daemon.Steps.Owned.{Owned, leave-Owned}
use rahunas.Daemon.Steps.{Step, starts, stops, expires, asks, Reach, here, next, expire_stop}
use rahunas.Daemon.{Daemon, vserver_get_by_id, enter, leave}
use rahunas.Host.{Host}
use rahunas.Member.{member_get_node_by_id}
use rahunas.Prelude.{
  ℕ, ◌≡◌, refl, Option, none, some, Option-cases, Bool-cases, inl, inr, OnSome, OnSome->>=, ◌==◌,
  ◌>>=◌,
}
use rahunas.Rpc.Stop.{do_stopsession, stop_with, stop_with-Authorised}
use rahunas.Rpc.{
  StartParams, start_on, start_for, start_with, start_request, set_timeout, atol_or_zero,
  param_field, do_startsession,
}
use rahunas.Session.Owners.Drawing.{InRange}
use rahunas.Session.Owners.Tasks.{rh_task_startsess-Moves, rh_task_stopsess-Moves}
use rahunas.Session.Owners.{Sound, Moves, Moves-Keeping, unmoved}
use rahunas.Session.Task.{rh_task_startsess, rh_task_stopsess}
use rahunas.Session.{VServer, TaskReq, Sess}
use rahunas.Text.{Bytes, atoi}
use rahunas.Utils.Ip.{iptoid}

-- A server that is found is sound.
enter-Sound :
    (d : Daemon) (v : ℕ) (vs : VServer) (req : TaskReq)
    → vserver_get_by_id d.vserver_list v ≡ some vs
    → Owned d
    → Sound (enter d vs req)
enter-Sound d v vs req found o = record { pages = o.pages; distinct = o.distinct v vs found }

set_timeout-Moves :
    (h : Host) (session_timeout : Option Bytes) (s : Sess)
    → Moves s (set_timeout h session_timeout s)
unfolding set_timeout
set_timeout-Moves h session_timeout s = elim (Bool-cases (atol_or_zero session_timeout == 0)) [
  | inl e ↦ rw e (unmoved s s refl refl refl (λ j. refl) (λ x. x))
  | inr e ↦ rw e (unmoved s _ refl refl refl (λ j. refl) (λ x. x))
]

abbrev OwnedAfter : Daemon × Bytes → Type 0
OwnedAfter r = Owned r.0

start_for-Owned :
    (h : Host) (fuel : ℕ) (stack : TaskReq) (d : Daemon) (p : StartParams)
    (ip username session_id : Bytes) (v : ℕ)
    → InRange h
    → Owned d
    → OnSome OwnedAfter
        (start_for h fuel stack d p ip username session_id v (vserver_get_by_id d.vserver_list v))
unfolding start_for start_on
start_for-Owned h fuel stack d p ip username session_id v range o =
    elim (Option-cases (vserver_get_by_id d.vserver_list v)) [
      | inl e ↦ rw (e, start_for) o
      | inr (vs, found) ↦
          let id = iptoid h.inet_aton (some vs.v_map) (some ip) in
          let s = enter d vs (start_request stack p username session_id id v) in
          let u = set_timeout h p.session_timeout s in
          elim (Option-cases (member_get_node_by_id vs.v_map.members id)) [
            | inl absent ↦
                rw (found, start_for, absent, start_on)
                  (OnSome->>= (Moves u) OwnedAfter (rh_task_startsess h fuel d.task_list u) _
                    (rh_task_startsess-Moves h fuel d.task_list u range)
                    (λ t k. leave-Owned d v vs s.req t found o (
                      Moves-Keeping.chained s u t (set_timeout-Moves h p.session_timeout s) k
                        (enter-Sound d v vs s.req found o))))
            | inr (m, there) ↦ rw (found, start_for, there, start_on) o
          ]
    ]

start_with-Owned :
    (h : Host) (fuel : ℕ) (stack : TaskReq) (d : Daemon) (p : StartParams)
    (ip username session_id vserver_id : Option Bytes)
    → InRange h
    → Owned d
    → OnSome OwnedAfter (start_with h fuel stack d p ip username session_id vserver_id)
unfolding start_with
start_with-Owned h fuel stack d p none username session_id vserver_id range o = o
start_with-Owned h fuel stack d p (some ip) none session_id vserver_id range o = o
start_with-Owned h fuel stack d p (some ip) (some username) none vserver_id range o = o
start_with-Owned h fuel stack d p (some ip) (some username) (some session_id) none range o = o
start_with-Owned h fuel stack d p (some ip) (some username) (some session_id) (some v) range o =
    start_for-Owned h fuel stack d p ip username session_id (atoi v) range o

-- A parameter that is read, whatever it is.
pub with_field :
    (P : Daemon × Bytes → Type 0) (o : Option (Option Bytes))
    (f : Option Bytes → Option (Daemon × Bytes))
    → ((x : Option Bytes) → OnSome P (f x))
    → OnSome P (do x ← o; f x)
with_field P none f k = tt
with_field P (some x) f k = k x

do_startsession-Owned :
    (h : Host) (fuel : ℕ) (stack : TaskReq) (param : Option Bytes) (d : Daemon)
    → InRange h
    → Owned d
    → OnSome OwnedAfter (do_startsession h fuel stack param d)
unfolding do_startsession
do_startsession-Owned h fuel stack none d range o = o
do_startsession-Owned h fuel stack (some param) d range o =
    let field = with_field OwnedAfter in
    field (param_field h param 1) _ (λ ip. field (param_field h param 2) _ (λ username.
      field (param_field h param 3) _ (λ session_id. field (param_field h param 4) _ (λ mac_address.
        field (param_field h param 5) _ (λ session_timeout.
          field (param_field h param 6) _ (λ bandwidth_max_down.
            field (param_field h param 7) _ (λ bandwidth_max_up.
              field (param_field h param 8) _ (λ serviceclass_name.
                field (param_field h param 9) _ (λ vserver_id.
                  start_with-Owned h fuel stack d _ ip username session_id vserver_id range
                    o)))))))))

stop_on-Owned :
    (h : Host) (d : Daemon) (v : ℕ) (vs : VServer) (req : TaskReq)
    → vserver_get_by_id d.vserver_list v ≡ some vs
    → Owned d
    → Owned (leave v d (rh_task_stopsess h d.task_list (enter d vs req)))
stop_on-Owned h d v vs req found o =
    leave-Owned d v vs req _ found o
      (rh_task_stopsess-Moves h d.task_list (enter d vs req) (enter-Sound d v vs req found o))

stop_with-Owned :
    (h : Host) (stack : TaskReq) (d : Daemon) (ip mac cause vserver_id : Option Bytes)
    → Owned d
    → OwnedAfter (stop_with h stack d ip mac cause vserver_id)
stop_with-Owned h stack d ip mac cause vserver_id o =
    elim (stop_with-Authorised h stack d ip mac cause vserver_id) [
      | inl e ↦ rw e o
      | inr (a, e) ↦ rw e (stop_on-Owned h d (atoi a.vserver_text) a.vs _ a.found o)
    ]

do_stopsession-Owned :
    (h : Host) (stack : TaskReq) (param : Option Bytes) (d : Daemon)
    → Owned d
    → OnSome OwnedAfter (do_stopsession h stack param d)
unfolding do_stopsession
do_stopsession-Owned h stack none d o = o
do_stopsession-Owned h stack (some param) d o =
    let field = with_field OwnedAfter in
    field (param_field h param 1) _ (λ ip. field (param_field h param 2) _ (λ mac_address.
      field (param_field h param 3) _ (λ cause.
        field (param_field h param 4) _
          (λ vserver_id. stop_with-Owned h stack d ip mac_address cause vserver_id o))))

from_result :
    (o : Option (Daemon × Bytes)) (d : Daemon) (reply : Bytes)
    → o ≡ some (d, reply)
    → OnSome OwnedAfter o
    → Owned d
from_result o d reply e x = rw e at x

pub Step-Owned : {d e : Daemon} → Step d e → Owned d → Owned e
unfolding expire_stop
Step-Owned {d} (starts h fuel stack param reply range e) o =
    from_result _ _ reply e (do_startsession-Owned h fuel stack param d range o)
Step-Owned {d} (stops h stack param reply e) o =
    from_result _ _ reply e (do_stopsession-Owned h stack param d o)
Step-Owned {d} (expires h stack id mac cause v vs found limit e) o =
    rw e (stop_on-Owned h d v vs _ found o)
Step-Owned (asks event e) o =
    rw e (record { pages = o.pages; distinct = o.distinct; reserved = o.reserved; sole = o.sole })

-- Whatever commands come, whatever sessions the polling thread stops between them, and however the
-- system answers, if only `random` keeps to its range: where the slot flags have all their pages, every
-- slot that a session holds is reserved, no two sessions on any servers hold one slot, and no server
-- has two sessions under one identifier, it is so in every state that is reached.
pub Reach-Owned : {d e : Daemon} → Owned d → Reach d e → Owned e
Reach-Owned o here = o
Reach-Owned o (next r step) = Step-Owned step (Reach-Owned o r)
