-- ===== src/Rpc/Info.antt =====
-- `do_getsessioninfo` of src/rh-xmlrpc-server.c.
use rahunas.Daemon.{Daemon, vserver_get_by_id}
use rahunas.Host.{Host}
use rahunas.Mac.{mac_tostring}
use rahunas.Member.{Member, member_get_node_by_id}
use rahunas.Prelude.{◌%◌, ◌^◌, [], ◌∷◌, Option, none, some, ◌>>=◌}
use rahunas.Session.Dbset.{show_s, pieces}
use rahunas.Session.{VServer}
use rahunas.Text.{Bytes, codes, atoi, show_d}
use rahunas.Utils.Ip.{iptoid}
use rahunas.Rpc.{param_field, invalid_parameters}

-- `%d` of a `time_t` prints its low half.
unfoldable pub session_info : Bytes → Bytes → Bytes → Member → Bytes
session_info ip username session_id m = pieces (
    ip
    ∷ codes "|"
    ∷ username
    ∷ codes "|"
    ∷ session_id
    ∷ codes "|"
    ∷ show_d (m.session_start % 2 ^ 32)
    ∷ codes "|"
    ∷ mac_tostring m.mac_address
    ∷ codes "|"
    ∷ show_d (m.session_timeout % 2 ^ 32)
    ∷ codes "|"
    ∷ show_s m.serviceclass_description
    ∷ [])

unfoldable pub info_named : Bytes → Option Bytes → Option Bytes → Member → Bytes
info_named ip none session_id m = codes "Invalid Username"
info_named ip (some username) none m = codes "Invalid Session ID"
info_named ip (some username) (some session_id) m = session_info ip username session_id m

unfoldable pub info_member : Bytes → Option Member → Bytes
unfolding info_named
info_member ip none = ip
info_member ip (some m) = info_named ip m.username m.session_id m

unfoldable pub info_for : Host → Bytes → Option VServer → Bytes
unfolding info_member
info_for h ip none = invalid_parameters
info_for h ip (some vs) =
    info_member ip
      (member_get_node_by_id vs.v_map.members (iptoid h.inet_aton (some vs.v_map) (some ip)))

unfoldable pub info_with : Host → Daemon → Option Bytes → Option Bytes → Bytes
unfolding info_for
info_with h d (some ip) (some vserver_id) =
    info_for h ip (vserver_get_by_id d.vserver_list (atoi vserver_id))
info_with h d _ _ = invalid_parameters

-- The command reads the state only.
unfoldable pub do_getsessioninfo : Host → Option Bytes → Daemon → Option Bytes
unfolding info_with
do_getsessioninfo h none d = some invalid_parameters
do_getsessioninfo h (some param) d = do
  ip ← param_field h param 1
  vserver_id ← param_field h param 2
  some (info_with h d ip vserver_id)
