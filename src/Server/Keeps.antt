-- ===== src/Server/Keeps.antt =====
-- What setting up and cleaning up leaves of a virtual server: its configuration, but for the pointer
-- to the interface, the configuration that waits, and the lists of tasks and service classes.
use rahunas.Prelude.{
  ℕ, ◌≡◌, refl, ◌∙◌, arith, Option-cases, ◌⊎◌, inl, inr, if-elim, List, [], ◌∷◌, Option, some, ◌==◌,
}
use rahunas.Host.{Host, Event, sql_select}
use rahunas.Interfaces.{append_interface}
use rahunas.Mac.{parse_mac}
use rahunas.Member.{Member, VMap}
use rahunas.Server.Firewall.{iptables_exec, iptables_start, iptables_stop}
use rahunas.Server.Restore.{
  DbsetRow, start_session, restore_rows, restore_set, restore, select_cmd, restored_req,
}
use rahunas.Server.Run.{Run, returned, exits, faults, unended, ◌>>=◌, OnReturn, OnReturn-map}
use rahunas.Server.Sets.{SetHost, Listing, read_listing, get_header_from_set, walk_through_set}
use rahunas.Server.Shaping.{
  bandwidth_init, bandwidth_cleanup, initial, command_done, bandwidth_command, write_init,
  remove_own, with_interfaces,
}
use rahunas.Server.Stopping.{
  World, memset_init, memset_cleanup, ipset_init, ipset_cleanup, stop_session, stop_members,
  set_cleanup, zero_map, with_map,
}
use rahunas.Server.Tasks.{
  dbset_init, init, cleanup, init_tasks, cleanup_tasks, rh_task_init, rh_task_cleanup,
}
use rahunas.Server.{
  Site, VServerConfig, Setting, session_back, config_of, log_of, with_log, ask_site, flag_of,
  setting, dev_internal, vs_reload,
}
use rahunas.ServiceClass.{ServiceClass}
use rahunas.Session.Task.{Task, iptables, memset, ipset, serviceclass, bandwidth, dbset}
use rahunas.Session.{TaskReq, Sess}
use rahunas.Text.{Bytes, atoi}

pub record Kept : Type 0 where
  pub name : Bytes
  pub number : ℕ
  pub flag : ℕ
  pub idle : ℕ
  pub settings : Setting → Option Bytes
  pub waiting : Option VServerConfig
  pub tasks : List Task
  pub classes : List ServiceClass

abbrev pub kept : Site → Kept
kept u = record {
  name = u.vs.vserver_config.vserver_name;
  number = u.vs.vserver_config.vserver_id;
  flag = u.vs.vserver_config.init_flag;
  idle = u.vs.vserver_config.idle_timeout;
  settings = u.vs.vserver_config.settings;
  waiting = u.vs.dummy_config;
  tasks = u.ms.task_list;
  classes = u.ms.serviceclass_list;
}

abbrev pub SameConfig : Site → Site → Type 0
SameConfig u v = kept v ≡ kept u

-- Two steps of which each keeps it.
pub chain :
    (u : Site) (r : Run Site) (f : Site → Run Site)
    → OnReturn (SameConfig u) r
    → ((v : Site) → OnReturn (SameConfig v) (f v))
    → OnReturn (SameConfig u) (r >>= f)
chain u (returned v) f h k = OnReturn-map (SameConfig v) (SameConfig u) (f v) (λ w e. e ∙ h) (k v)
chain u exits f h k = tt
chain u faults f h k = tt
chain u unended f h k = tt

session_back-SameConfig : (u : Site) (s : Sess) → SameConfig u (session_back u s)
unfolding session_back
session_back-SameConfig u s = refl

pub start_session-SameConfig :
    (h : Host) (fuel : ℕ) (req : TaskReq) (u : Site)
    → OnReturn (SameConfig u) (start_session h fuel req u)
unfolding start_session
start_session-SameConfig h fuel req u = ground arith

stop_session-SameConfig :
    (w : World) (id : ℕ) (mac : Bytes) (u : Site)
    → OnReturn (SameConfig u) (stop_session w id mac u)
unfolding stop_session
stop_session-SameConfig w id mac u = ground arith

pub walk_through_set-cases :
    (k : SetHost) (callback : Listing → Site → Run Site) (u : Site)
    → (log : List Event) × ((walk_through_set k callback u ≡ returned (with_log log u))
        ⊎ ((l : Listing) × (walk_through_set k callback u ≡ callback l (with_log log u))))
unfolding walk_through_set
walk_through_set-cases k callback u =
    let read = read_listing k (config_of u).vserver_name (log_of u) in
    (
      read.0,
      elim (Option-cases read.1) [
        | inl e ↦ inl (rw (e, walk_through_set) refl)
        | inr (found, e) ↦ elim (Option-cases found) [
          | inl f ↦ inl (rw (e, f, walk_through_set) refl)
          | inr (l, f) ↦ inr (l, rw (e, f, walk_through_set) refl)
        ]
      ],
    )

walk_through_set-SameConfig :
    (k : SetHost) (callback : Listing → Site → Run Site) (u : Site)
    → ((l : Listing) (v : Site) → OnReturn (SameConfig v) (callback l v))
    → OnReturn (SameConfig u) (walk_through_set k callback u)
walk_through_set-SameConfig k callback u keeps =
    let (log, ended) = walk_through_set-cases k callback u in
    elim ended [ inl e ↦ rw e refl | inr (l, e) ↦ rw e (keeps l (with_log log u)) ]

get_header-SameConfig :
    (k : SetHost) (map : VMap) (u : Site) → OnReturn (SameConfig u) (get_header_from_set k map u)
unfolding get_header_from_set
get_header-SameConfig k map u = ground arith

initial-SameConfig : (h : Host) (u : Site) → OnReturn (SameConfig u) (initial h u)
unfolding initial command_done bandwidth_command write_init
initial-SameConfig h u = ground arith

pub bandwidth_cleanup-SameConfig :
    (h : Host) (u : Site) → OnReturn (SameConfig u) (bandwidth_cleanup h u)
unfolding bandwidth_cleanup command_done bandwidth_command write_init remove_own
bandwidth_cleanup-SameConfig h u = ground arith

bandwidth_init-SameConfig : (h : Host) (u : Site) → OnReturn (SameConfig u) (bandwidth_init h u)
unfolding bandwidth_init
bandwidth_init-SameConfig h u =
    if-elim (OnReturn (SameConfig u)) (flag_of u == vs_reload) _ _ (initial-SameConfig h u)
      (elim (Option-cases
        (append_interface u.ms.interfaces_list (setting dev_internal u) u.ms.ifb_reserved)) [
          | inl e ↦ rw (e, bandwidth_init) tt
          | inr (new, e) ↦
              rw (e, bandwidth_init) (initial-SameConfig h (with_interfaces new.0 new.1 u))
        ])

stop_members-SameConfig :
    (w : World) (l : Listing) (ms : List Member) (u : Site)
    → OnReturn (SameConfig u) (stop_members w l ms u)
unfolding stop_members
stop_members-SameConfig w l [] u = refl
stop_members-SameConfig w l (m ∷ ms) u = elim (Option-cases (l.table m.id)) [
  | inl e ↦ rw (e, stop_members) tt
  | inr (mac, e) ↦
      rw (e, stop_members)
        (chain u (stop_session w m.id mac u) (stop_members w l ms)
          (stop_session-SameConfig w m.id mac u) (stop_members-SameConfig w l ms))
]

set_cleanup-SameConfig :
    (w : World) (l : Listing) (u : Site) → OnReturn (SameConfig u) (set_cleanup w l u)
unfolding set_cleanup
set_cleanup-SameConfig w l u = elim (Option-cases u.vs.v_map) [
  | inl e ↦ rw (e, set_cleanup) tt
  | inr (map, e) ↦ rw (e, set_cleanup) (stop_members-SameConfig w l map.members u)
]

restore_rows-SameConfig :
    (h : Host) (fuel : ℕ) (rows : List DbsetRow) (ethernet : Bytes) (req : TaskReq) (u : Site)
    → OnReturn (SameConfig u) (restore_rows h fuel rows ethernet req u)
unfolding restore_rows
restore_rows-SameConfig h fuel [] ethernet req u = refl
restore_rows-SameConfig h fuel (row ∷ rows) ethernet req u =
    let mac = parse_mac row.mac ethernet in
    let next = restored_req h u row mac req in
    if-elim (OnReturn (SameConfig u)) (atoi row.vserver_id == (config_of u).vserver_id) _ _
      (chain u (start_session h fuel next u) _ (start_session-SameConfig h fuel next u)
        (restore_rows-SameConfig h fuel rows mac next))
      (restore_rows-SameConfig h fuel rows ethernet req u)

init-SameConfig : (w : World) (t : Task) (u : Site) → OnReturn (SameConfig u) (init w t u)
unfolding init memset_init ipset_init dbset_init restore restore_set iptables_start iptables_exec
init-SameConfig w iptables u = refl
init-SameConfig w memset u =
    if-elim (OnReturn (SameConfig u)) (flag_of u == vs_reload) _ _ refl
      (get_header-SameConfig w.kernel zero_map (with_map (some zero_map) u))
init-SameConfig w ipset u = if-elim (OnReturn (SameConfig u)) (flag_of u == vs_reload) _ _ refl refl
init-SameConfig w serviceclass u = refl
init-SameConfig w bandwidth u = bandwidth_init-SameConfig w.host u
init-SameConfig w dbset u =
    if-elim (OnReturn (SameConfig u)) (flag_of u == vs_reload) _ _ refl
      (restore_rows-SameConfig w.host w.fuel _ _ _ (ask_site (sql_select (select_cmd u)) u))

pub cleanup-SameConfig : (w : World) (t : Task) (u : Site) → OnReturn (SameConfig u) (cleanup w t u)
unfolding cleanup memset_cleanup ipset_cleanup iptables_stop iptables_exec
cleanup-SameConfig w iptables u = refl
cleanup-SameConfig w memset u =
    if-elim (OnReturn (SameConfig u)) (flag_of u == vs_reload) _ _ refl refl
cleanup-SameConfig w ipset u = if-elim (OnReturn (SameConfig u)) (flag_of u == vs_reload) _ _ refl (
    chain u (walk_through_set w.kernel (set_cleanup w) u) _
      (walk_through_set-SameConfig w.kernel (set_cleanup w) u (set_cleanup-SameConfig w))
      (λ v. refl))
cleanup-SameConfig w serviceclass u = refl
cleanup-SameConfig w bandwidth u = bandwidth_cleanup-SameConfig w.host u
cleanup-SameConfig w dbset u = refl

init_tasks-SameConfig :
    (w : World) (ts : List Task) (u : Site) → OnReturn (SameConfig u) (init_tasks w ts u)
unfolding init_tasks
init_tasks-SameConfig w [] u = refl
init_tasks-SameConfig w (t ∷ ts) u =
    chain u (init w t u) (init_tasks w ts) (init-SameConfig w t u) (init_tasks-SameConfig w ts)

pub cleanup_tasks-SameConfig :
    (w : World) (ts : List Task) (u : Site) → OnReturn (SameConfig u) (cleanup_tasks w ts u)
unfolding cleanup_tasks
cleanup_tasks-SameConfig w [] u = refl
cleanup_tasks-SameConfig w (t ∷ ts) u =
    chain u (cleanup_tasks w ts u) (cleanup w t) (cleanup_tasks-SameConfig w ts u)
      (cleanup-SameConfig w t)

pub rh_task_init-SameConfig : (w : World) (u : Site) → OnReturn (SameConfig u) (rh_task_init w u)
unfolding rh_task_init
rh_task_init-SameConfig w u = init_tasks-SameConfig w u.ms.task_list u

pub rh_task_cleanup-SameConfig :
    (w : World) (u : Site) → OnReturn (SameConfig u) (rh_task_cleanup w u)
unfolding rh_task_cleanup
rh_task_cleanup-SameConfig w u = cleanup_tasks-SameConfig w u.ms.task_list u
