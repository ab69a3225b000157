-- ===== src/Server/Poll.antt =====
-- The poll of src/rahunasd.c: `polling_expired_check`, and the walk of `polling_service` over all
-- servers, with `expired_check` on a whole server.
pub mod Sessions
use rahunas.Expiry.{SetEntry, get_data_from_set, cause_of, check_member, expired_check}
use rahunas.Host.{Host, clock}
use rahunas.Member.{VMap, Member}
use rahunas.Prelude.{Bool, false, true, ◌&&◌, List, [], ◌∷◌, none, some, if◌then◌else◌}
use rahunas.Server.Reload.{walk_through_vserver}
use rahunas.Server.Run.{Run, returned, faults}
use rahunas.Server.Sets.{Listing, walk_through_set}
use rahunas.Server.Stopping.{World, holds_slot}
use rahunas.Server.{Server, Shared, Site, deref_iface, session_view, session_back}
use rahunas.Session.Task.{Task, bandwidth, find_task}
use rahunas.Session.{TaskReq, Sess, members}

-- Whether a visit stops the member's session.
unfoldable pub is_due : Host → List SetEntry → Member → Sess → Bool
is_due h list m s = elim (get_data_from_set list m.id s.vs.v_map.first_ip) [
  | none ↦ false
  | some d ↦ elim (cause_of (h.time (clock ∷ s.log)) s.vs.idle_timeout d m.session_timeout) [
    | none ↦ false
    | some cause ↦ true
  ]
]

-- Whether the walk comes to a member that is due and has a slot to give back, for which the interface
-- is read.
unfoldable pub needs_iface : Host → List SetEntry → List Task → TaskReq → List Member → Sess → Bool
unfolding is_due
needs_iface h list tasks stack [] s = false
needs_iface h list tasks stack (m ∷ ms) s =
    let rest = needs_iface h list tasks stack ms (check_member h list tasks stack m s) in
    if is_due h list m s && holds_slot m.id (members s) then true else rest

-- `expired_check` on a server. The request lies on the stack, and is not cleared.
unfoldable pub expire_on : World → Listing → VMap → Site → Run Site
unfolding needs_iface session_view session_back
expire_on w l map u = elim (deref_iface u) [
  | none ↦
      if find_task u.ms.task_list bandwidth
        && needs_iface w.host l.entries u.ms.task_list w.junk.req map.members
            (session_view map [] [] w.junk.req u)
      then faults
      else returned (checked (session_view map [] [] w.junk.req u))
  | some iface ↦ returned (checked (session_view map iface.dev_internal iface.dev_ifb w.junk.req u))
]
  where
    checked : Sess → Site
    checked s = session_back u (expired_check w.host l.entries u.ms.task_list w.junk.req s)

unfoldable pub expired_check_on : World → Listing → Site → Run Site
unfolding expire_on
expired_check_on w l u = elim u.vs.v_map [ none ↦ faults | some map ↦ expire_on w l map u ]

unfoldable pub polling_expired_check : World → Site → Run Site
unfolding expired_check_on
polling_expired_check w u = walk_through_set w.kernel (expired_check_on w) u

-- One round of the loop, after it was woken.
unfoldable pub polling_service : World → Shared → List Server → Run (Shared × List Server)
unfolding polling_expired_check
polling_service w m vs = walk_through_vserver (polling_expired_check w) m vs
