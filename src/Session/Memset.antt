-- ===== src/Session/Memset.antt =====
-- src/rh-task-memset.c: the task that keeps the session table.
pub mod Laws
use rahunas.Host.{Host, clock}
use rahunas.Member.{Member, blank, member_get_node_by_id, modify_node, delete_node, sorted_position}
use rahunas.Prelude.{ℕ, List, [], ◌∷◌, ◌++◌, Option, none, some, ◌==◌, if◌then◌else◌}
use rahunas.Session.{TaskReq, Sess, members, with_members, ask, minus_one}

-- What `startsess` writes into a member, new or found. `expired` and `bandwidth_slot_id` stay.
unfoldable pub fill : TaskReq → Member → Member
fill req m = record m {
  id = req.id;
  username = some req.username;
  session_id = some req.session_id;
  serviceclass_name = none;
  serviceclass_description = some [];
  serviceclass_slot_id = 0;
  mapping_ip = some [];
  session_start = req.session_start;
  mac_address = req.mac_address;
  session_timeout = req.session_timeout;
  bandwidth_max_down = req.bandwidth_max_down;
  bandwidth_max_up = req.bandwidth_max_up;
}

-- `time(&(req->session_start))` where it is 0.
unfoldable pub stamp : Host → Sess → Sess
stamp h s =
    if s.req.session_start == 0
    then (let asked = ask clock s in
        record asked { req = record r { session_start = h.time asked.log } })
    else s
  where
    r : TaskReq
    r = s.req

-- The place of a new member is chosen while its identifier is still 0.
unfoldable pub store : TaskReq → List Member → List Member
unfolding fill
store req ms = elim (member_get_node_by_id ms req.id) [
  | none ↦ let (front, back) = sorted_position blank ms in front ++ (fill req blank ∷ back)
  | some m ↦ modify_node req.id (fill req) ms
]

unfoldable pub startsess : Host → Sess → Sess × ℕ
startsess h s = let t = stamp h s in (with_members t (store t.req (members t)), 0)

-- The cause is only logged.
unfoldable pub stopsess : Sess → Sess × ℕ
stopsess s = elim (member_get_node_by_id (members s) s.req.id) [
  | none ↦ (s, minus_one)
  | some m ↦ (with_members s (delete_node s.req.id (members s)), 0)
]
