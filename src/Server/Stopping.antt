-- ===== src/Server/Stopping.antt =====
-- The functions `init` and `cleanup` of src/rh-task-memset.c and src/rh-task-ipset.c, and the stop of
-- all sessions that the latter makes.
use rahunas.Expiry.{send_xmlrpc_stopacct}
use rahunas.Host.{Host}
use rahunas.Member.{VMap, Member, member_get_node_by_id}
use rahunas.Prelude.{
  ℕ, Bool, false, ◌&&◌, List, [], ◌∷◌, Option, none, some, ltb, ◌==◌, if◌then◌else◌,
}
use rahunas.Server.Restore.{Database, Leftover}
use rahunas.Server.Run.{Run, returned, faults, ◌>>=◌}
use rahunas.Server.Sets.{
  SetHost, Listing, set_adt_get, set_flush, get_header_from_set, walk_through_set,
}
use rahunas.Server.{
  Server, Site, vs_reload, config_of, flag_of, log_of, with_log, deref_iface, session_view,
  session_back,
}
use rahunas.Session.Task.{bandwidth, find_task, rh_task_stopsess}
use rahunas.Session.{TaskReq, Sess}
use rahunas.Text.{Bytes}

-- The system that the set-up asks, the fuel of the search for a slot, and what memory holds that is
-- read before it is written.
pub record World : Type 0 where
  pub host : Host
  pub kernel : SetHost
  pub database : Database
  pub fuel : ℕ
  pub junk : Leftover

abbrev pub with_map : Option VMap → Site → Site
with_map map u = record u { vs = record v { v_map = map } }
  where
    v : Server
    v = u.vs

abbrev pub with_set : Option ℕ → Site → Site
with_set set u = record u { vs = record v { v_set = set } }
  where
    v : Server
    v = u.vs

-- `memset` of the map to zero.
abbrev pub zero_map : VMap
zero_map = record { members = []; first_ip = 0; last_ip = 0; size = 0 }

unfoldable pub memset_init : World → Site → Run Site
unfolding get_header_from_set
memset_init w u =
    if flag_of u == vs_reload
    then returned u
    else get_header_from_set w.kernel zero_map (with_map (some zero_map) u)

-- The members are freed with the map.
unfoldable pub memset_cleanup : Site → Run Site
memset_cleanup u = if flag_of u == vs_reload then returned u else returned (with_map none u)

unfoldable pub ipset_init : World → Site → Run Site
unfolding set_adt_get set_flush
ipset_init w u =
    let name = (config_of u).vserver_name in
    let (asked, index) = set_adt_get w.kernel name (log_of u) in
    if flag_of u == vs_reload
    then returned u
    else returned (with_set (some index) (with_log (set_flush name asked) u))

-- Whether `stopsess` of src/rh-task-bandwidth.c has a slot of the member to give back.
unfoldable pub holds_slot : ℕ → List Member → Bool
holds_slot id ms = elim (member_get_node_by_id ms id) [
  | none ↦ false
  | some m ↦ ltb 0 m.bandwidth_slot_id
]

-- `rh_task_stopsess` on a server, after the accounting service was told. The interface is read where
-- a slot is to be given back. Cause 11 is `RH_RADIUS_TERM_NAS_REBOOT`.
unfoldable pub stop_session : World → ℕ → Bytes → Site → Run Site
unfolding holds_slot session_view session_back send_xmlrpc_stopacct
stop_session w id mac u = elim u.vs.v_map [
  | none ↦ faults
  | some map ↦ elim (deref_iface u) [
    | none ↦
        if find_task u.ms.task_list bandwidth && holds_slot id map.members
        then faults
        else returned (session_back u (stopped (session_view map [] [] req u)))
    | some iface ↦
        returned
          (session_back u (stopped (session_view map iface.dev_internal iface.dev_ifb req u)))
  ]
]
  where
    req : TaskReq
    req = record r { id = id; mac_address = mac; req_opt = 11 }
      where
        r : TaskReq
        r = w.junk.req

    stopped : Sess → Sess
    stopped s = rh_task_stopsess w.host u.ms.task_list (send_xmlrpc_stopacct w.host id 11 s).0

-- `set_cleanup`: the loop over the members that there were. The listing is read as an array by the
-- identifier; beyond the buffer nothing is known to be readable.
unfoldable pub stop_members : World → Listing → List Member → Site → Run Site
unfolding stop_session
stop_members w l [] u = returned u
stop_members w l (m ∷ ms) u = elim (l.table m.id) [
  | none ↦ faults
  | some mac ↦ stop_session w m.id mac u >>= λ t. stop_members w l ms t
]

unfoldable pub set_cleanup : World → Listing → Site → Run Site
unfolding stop_members
set_cleanup w l u = elim u.vs.v_map [ none ↦ faults | some map ↦ stop_members w l map.members u ]

unfoldable pub ipset_cleanup : World → Site → Run Site
unfolding walk_through_set set_cleanup set_flush
ipset_cleanup w u = if flag_of u == vs_reload then returned u else (do
  t ← walk_through_set w.kernel (set_cleanup w) u
  returned (with_set none (with_log (set_flush (config_of t).vserver_name (log_of t)) t)))
