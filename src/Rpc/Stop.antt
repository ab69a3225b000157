-- ===== src/Rpc/Stop.antt =====
-- `do_stopsession` of src/rh-xmlrpc-server.c, and which sessions it may stop.
use rahunas.Daemon.{Daemon, vserver_get_by_id, enter, leave}
use rahunas.Host.{Host}
use rahunas.Mac.{parse_mac}
use rahunas.Member.{Member, member_get_node_by_id}
use rahunas.Prelude.{ℕ, ◌&&◌, [], ◌∷◌, Option, none, some, leb, if◌then◌else◌, ◌>>=◌}
use rahunas.Session.Dbset.{pieces}
use rahunas.Session.Task.{rh_task_stopsess}
use rahunas.Session.{VServer, TaskReq, Sess}
use rahunas.Text.{Bytes, codes, atoi, strcmp_eq}
use rahunas.Utils.Ip.{iptoid, idtoip}
use rahunas.Rpc.{param_field, zero_mac, or_default, invalid_parameters}
use rahunas.Prelude.{◌≤◌, ◌≡◌, refl, sym, ◌⊎◌, inl, inr, arith, Option-cases, Bool-cases}
use rahunas.Text.{eq_of_strcmp_eq}

-- `RH_RADIUS_TERM_USER_REQUEST` is 1 and `RH_RADIUS_TERM_HOST_REQUEST` is 18. A negative `int` is a
-- pattern above both.
unfoldable pub stop_cause : Option Bytes → ℕ
stop_cause none = 1
stop_cause (some cause) = if leb 1 (atoi cause) && leb (atoi cause) 18 then atoi cause else 1

abbrev pub removed_reply : Host → VServer → ℕ → Bytes
removed_reply h vs id =
    pieces (codes "Client IP " ∷ idtoip h.inet_ntoa (some vs.v_map) id ∷ codes " was removed!" ∷ [])

-- `rh_task_stopsess` returns 0.
unfoldable pub stop_member :
    Host
    → TaskReq
    → Daemon
    → Bytes
    → Bytes
    → Option Bytes
    → ℕ
    → VServer
    → ℕ
    → Option Member
    → Daemon × Bytes
stop_member h stack d ip ethernet cause vserver_id vs id none = (d, ip)
stop_member h stack d ip ethernet cause vserver_id vs id (some m) =
    let req = record stack { id = id; mac_address = ethernet; req_opt = stop_cause cause } in
    let t = rh_task_stopsess h d.task_list (enter d vs req) in
    if strcmp_eq ethernet m.mac_address
    then (leave vserver_id d t, removed_reply h t.vs id)
    else (d, ip)

unfoldable pub stop_for :
    Host
    → TaskReq
    → Daemon
    → Bytes
    → Option Bytes
    → Option Bytes
    → ℕ
    → Option VServer
    → Daemon × Bytes
stop_for h stack d ip mac_address cause vserver_id none = (d, invalid_parameters)
stop_for h stack d ip mac_address cause vserver_id (some vs) =
    let id = iptoid h.inet_aton (some vs.v_map) (some ip) in
    stop_member h stack d ip (parse_mac (or_default mac_address) zero_mac) cause vserver_id vs id
      (member_get_node_by_id vs.v_map.members id)

unfoldable pub stop_with :
    Host
    → TaskReq
    → Daemon
    → Option Bytes
    → Option Bytes
    → Option Bytes
    → Option Bytes
    → Daemon × Bytes
stop_with h stack d (some ip) mac_address cause (some vserver_id) =
    stop_for h stack d ip mac_address cause (atoi vserver_id)
      (vserver_get_by_id d.vserver_list (atoi vserver_id))
stop_with h stack d _ mac_address cause _ = (d, invalid_parameters)

unfoldable pub do_stopsession : Host → TaskReq → Option Bytes → Daemon → Option (Daemon × Bytes)
do_stopsession h stack none d = some (d, invalid_parameters)
do_stopsession h stack (some param) d = do
  ip ← param_field h param 1
  mac_address ← param_field h param 2
  cause ← param_field h param 3
  vserver_id ← param_field h param 4
  some (stop_with h stack d ip mac_address cause vserver_id)

-- The cause that a stop is logged with is one of RADIUS, from 1 to 18.
pub stop_cause_bounds : (cause : Option Bytes) → (1 ≤ stop_cause cause) × (stop_cause cause ≤ 18)
unfolding stop_cause
stop_cause_bounds none = omega arith
stop_cause_bounds (some cause) = ground arith

-- What authorises a stop: the virtual server is there, and the session of the address on it has
-- the hardware address that the command names.
pub record Authorised (h : Host) (d : Daemon) (ip mac vserver_id : Option Bytes) : Type 0 where
  pub ip_text : Bytes
  pub vserver_text : Bytes
  pub vs : VServer
  pub member : Member
  pub ip_given : ip ≡ some ip_text
  pub vserver_given : vserver_id ≡ some vserver_text
  pub found : vserver_get_by_id d.vserver_list (atoi vserver_text) ≡ some vs
  pub session :
      member_get_node_by_id vs.v_map.members (iptoid h.inet_aton (some vs.v_map) (some ip_text))
      ≡ some member
  pub same_mac : member.mac_address ≡ parse_mac (or_default mac) zero_mac

-- The stop that is then made.
abbrev pub stopped :
    (h : Host) (stack : TaskReq) (d : Daemon) (ip mac cause vserver_id : Option Bytes)
    → Authorised h d ip mac vserver_id
    → Sess
stopped h stack d ip mac cause vserver_id a = rh_task_stopsess h d.task_list (
    enter d a.vs (record stack {
      id = iptoid h.inet_aton (some a.vs.v_map) (some a.ip_text);
      mac_address = parse_mac (or_default mac) zero_mac;
      req_opt = stop_cause cause;
    }))

-- Whatever the parameters: either the daemon is as before, or the stop was authorised and is the
-- one that the tasks make of that session, with the reply that says so.
pub stop_with-Authorised :
    (h : Host) (stack : TaskReq) (d : Daemon) (ip mac cause vserver_id : Option Bytes)
    → ((stop_with h stack d ip mac cause vserver_id).0 ≡ d)
      ⊎ ((a : Authorised h d ip mac vserver_id) × (stop_with h stack d ip mac cause vserver_id ≡ (
        leave (atoi a.vserver_text) d (stopped h stack d ip mac cause vserver_id a),
        removed_reply h
            (stopped h stack d ip mac cause vserver_id a).vs
            (iptoid h.inet_aton (some a.vs.v_map) (some a.ip_text)),
      )))
unfolding stop_with
stop_with-Authorised h stack d none mac cause none = inl refl
stop_with-Authorised h stack d none mac cause (some v) = inl refl
stop_with-Authorised h stack d (some ip) mac cause none = inl refl
stop_with-Authorised h stack d (some ip) mac cause (some v) =
    elim (Option-cases (vserver_get_by_id d.vserver_list (atoi v))) [
      | inl e ↦ inl (rw e (unfold stop_for in refl))
      | inr (vs, e) ↦
          let id = iptoid h.inet_aton (some vs.v_map) (some ip) in
          elim (Option-cases (member_get_node_by_id vs.v_map.members id)) [
            | inl e' ↦ inl (rw e (unfold stop_for in rw e' (unfold stop_member in refl)))
            | inr (m, e') ↦
                elim (Bool-cases (strcmp_eq (parse_mac (or_default mac) zero_mac) m.mac_address)) [
                  | inl same ↦ inr (
                    record {
                      ip_text = ip;
                      vserver_text = v;
                      vs = vs;
                      member = m;
                      ip_given = refl;
                      vserver_given = refl;
                      found = e;
                      session = e';
                      same_mac = sym (eq_of_strcmp_eq _ _ same);
                    },
                    rw e (unfold stop_for in rw e' (unfold stop_member in rw same refl)),
                  )
                  | inr other ↦
                      inl (rw e (unfold stop_for in rw e' (unfold stop_member in rw other refl)))
                ]
          ]
    ]
