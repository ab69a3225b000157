-- ===== src/Session/Dbset.antt =====
-- The session part of src/rh-task-dbset.c: the statements that keep the table `dbset`. Opening and
-- closing the connection is left out.
use rahunas.Host.{Host, sql}
use rahunas.Mac.{mac_tostring}
use rahunas.Member.{Member, member_get_node_by_id}
use rahunas.Prelude.{ℕ, List, [], ◌∷◌, ◌++◌, Option, none, some, take}
use rahunas.Session.{Sess, members, ask, minus_one}
use rahunas.Text.{Bytes, codes, show_d, show_u}
use rahunas.Utils.Ip.{idtoip}

-- `%s` of a pointer: glibc prints `(null)` for the null pointer.
abbrev pub show_s : Option Bytes → Bytes
show_s none = codes "(null)"
show_s (some s) = s

-- The pieces of a format, one behind the other.
unfoldable pub pieces : List Bytes → Bytes
pieces [] = []
pieces (p ∷ ps) = p ++ pieces ps

unfoldable pub startsess_cmd : Host → Member → Sess → Bytes
unfolding pieces
startsess_cmd h member s = take 511 (
    pieces (
      codes "INSERT INTO dbset(session_id,vserver_id,username,ip,mac,session_start,"
      ∷ codes "session_timeout,bandwidth_slot_id,bandwidth_max_down,"
      ∷ codes "bandwidth_max_up,service_class,service_class_slot_id) VALUES('"
      ∷ s.req.session_id
      ∷ codes "','"
      ∷ show_d s.vs.vserver_id
      ∷ codes "','"
      ∷ s.req.username
      ∷ codes "','"
      ∷ idtoip h.inet_ntoa (some s.vs.v_map) s.req.id
      ∷ codes "','"
      ∷ mac_tostring s.req.mac_address
      ∷ codes "',"
      ∷ take 31 (h.epoch s.req.session_start)
      ∷ codes ","
      ∷ take 31 (h.epoch s.req.session_timeout)
      ∷ codes ","
      ∷ show_u member.bandwidth_slot_id
      ∷ codes ","
      ∷ show_u s.req.bandwidth_max_down
      ∷ codes ","
      ∷ show_u s.req.bandwidth_max_up
      ∷ codes ",'"
      ∷ show_s member.serviceclass_name
      ∷ codes "',"
      ∷ show_u member.serviceclass_slot_id
      ∷ codes ")"
      ∷ []))

unfoldable pub startsess : Host → Sess → Sess × ℕ
startsess h s = elim (member_get_node_by_id (members s) s.req.id) [
  | none ↦ (s, minus_one)
  | some member ↦ (ask (sql (startsess_cmd h member s)) s, 0)
]

unfoldable pub stopsess_cmd : Member → Sess → Bytes
unfolding pieces
stopsess_cmd member s = take 255 (
    pieces (
      codes "DELETE FROM dbset WHERE session_id='"
      ∷ show_s member.session_id
      ∷ codes "' AND username='"
      ∷ show_s member.username
      ∷ codes "' AND vserver_id='"
      ∷ show_d s.vs.vserver_id
      ∷ codes "'"
      ∷ []))

unfoldable pub stopsess : Sess → Sess × ℕ
stopsess s = elim (member_get_node_by_id (members s) s.req.id) [
  | none ↦ (s, minus_one)
  | some member ↦ (ask (sql (stopsess_cmd member s)) s, 0)
]
