-- ===== src/Rpc.antt =====
-- src/rh-xmlrpc-server.c: the commands of the XML-RPC server. A handler takes the parameter text and
-- returns the new state and the reply; `none` says that it reads behind the end of the text, or
-- that a task does not return. The mutex is held from beginning to end, so a command is one step.
-- `stack` is what the uninitialised request holds.
pub mod Params
pub mod Stop
pub mod Start
pub mod Info
use rahunas.Daemon.{Daemon, vserver_get_by_id, enter, leave}
use rahunas.Host.{Host, clock}
use rahunas.Mac.{parse_mac, mac_tostring}
use rahunas.Member.{Member, member_get_node_by_id}
use rahunas.Prelude.{
  ℕ, ◌+◌, ◌%◌, ◌^◌, Bool, ◌&&◌, List, [], ◌∷◌, ◌++◌, Option, none, some, leb, ◌==◌, if◌then◌else◌,
  ◌>>=◌,
}
use rahunas.Session.Dbset.{show_s, pieces}
use rahunas.Session.Task.{rh_task_startsess, rh_task_stopsess}
use rahunas.Session.{VServer, TaskReq, Sess, members}
use rahunas.Text.{Bytes, codes, atoi, atol, show_d, strcmp_eq}
use rahunas.Utils.Ip.{iptoid, idtoip}
use rahunas.Utils.Sep.{Fetch, null, str, overrun, no_fuel, rh_string_get_sep}

unfoldable pub fetch : Fetch → Option (Option Bytes)
fetch null = some none
fetch (str s) = some (some s)
fetch overrun = none
fetch no_fuel = none

unfoldable pub param_field : Host → Bytes → ℕ → Option (Option Bytes)
unfolding fetch
param_field h param idx = fetch (rh_string_get_sep h.trim (some param) b'|' idx)

abbrev pub zero_mac : Bytes
zero_mac = 0 ∷ 0 ∷ 0 ∷ 0 ∷ 0 ∷ 0 ∷ []

-- `DEFAULT_MAC` where there is none.
abbrev pub or_default : Option Bytes → Bytes
or_default none = codes "00:00:00:00:00:00"
or_default (some mac) = mac

abbrev pub atol_or_zero : Option Bytes → ℕ
atol_or_zero none = 0
atol_or_zero (some s) = atol s

abbrev pub invalid_parameters : Bytes
invalid_parameters = codes "Invalid input parameters"

-- The parameters of `startsession`.
pub record StartParams : Type 0 where
  pub ip : Option Bytes
  pub username : Option Bytes
  pub session_id : Option Bytes
  pub mac_address : Option Bytes
  pub session_timeout : Option Bytes
  pub bandwidth_max_down : Option Bytes
  pub bandwidth_max_up : Option Bytes
  pub serviceclass_name : Option Bytes
  pub vserver_id : Option Bytes

unfoldable pub greeting : Bytes → Member → Bytes
greeting ip m = pieces (
    codes "Greeting! Got: IP "
    ∷ ip
    ∷ codes ", User "
    ∷ show_s m.username
    ∷ codes ", ID "
    ∷ show_s m.session_id
    ∷ codes ", Service Class "
    ∷ show_s m.serviceclass_name
    ∷ codes ", Mapping "
    ∷ show_s m.mapping_ip
    ∷ [])

-- From `greeting` on.
unfoldable pub greet : Bytes → Option Member → Bytes
greet ip none = invalid_parameters
greet ip (some m) = greeting ip m

-- `req.session_timeout`: 0, or the time to end at, for which the clock is asked.
unfoldable pub set_timeout : Host → Option Bytes → Sess → Sess
set_timeout h session_timeout s = if atol_or_zero session_timeout == 0 then s else record s {
  log = clock ∷ s.log;
  req = record r {
    session_timeout = (h.time (clock ∷ s.log) + atol_or_zero session_timeout) % 2 ^ 64;
  };
}
  where
    r : TaskReq
    r = s.req

unfoldable pub start_request : TaskReq → StartParams → Bytes → Bytes → ℕ → ℕ → TaskReq
start_request stack p username session_id id vserver_id = record stack {
  id = id;
  vserver_id = vserver_id;
  username = username;
  session_id = session_id;
  mac_address = parse_mac (or_default p.mac_address) zero_mac;
  session_start = 0;
  session_timeout = 0;
  bandwidth_max_down = atol_or_zero p.bandwidth_max_down;
  bandwidth_max_up = atol_or_zero p.bandwidth_max_up;
  serviceclass_name = p.serviceclass_name;
  serviceclass_slot_id = 0;
}

-- For a virtual server that is there. `id < 0` is never true of a `uint32_t`.
unfoldable pub start_on :
    Host
    → ℕ
    → TaskReq
    → Daemon
    → StartParams
    → Bytes
    → Bytes
    → Bytes
    → ℕ
    → VServer
    → Option (Daemon × Bytes)
start_on h fuel stack d p ip username session_id vserver_id vs =
    let id = iptoid h.inet_aton (some vs.v_map) (some ip) in
    let req = start_request stack p username session_id id vserver_id in
    elim (member_get_node_by_id vs.v_map.members id) [
      | some m ↦ some (d, greet ip (some m))
      | none ↦ do
        t ← rh_task_startsess h fuel d.task_list (set_timeout h p.session_timeout (enter d vs req))
        some (leave vserver_id d t, greet ip (member_get_node_by_id (members t) id))
    ]

unfoldable pub start_for :
    Host
    → ℕ
    → TaskReq
    → Daemon
    → StartParams
    → Bytes
    → Bytes
    → Bytes
    → ℕ
    → Option VServer
    → Option (Daemon × Bytes)
start_for h fuel stack d p ip username session_id vserver_id none = some (d, invalid_parameters)
start_for h fuel stack d p ip username session_id vserver_id (some vs) =
    start_on h fuel stack d p ip username session_id vserver_id vs

-- The parameters that must be there.
unfoldable pub start_with :
    Host
    → ℕ
    → TaskReq
    → Daemon
    → StartParams
    → Option Bytes
    → Option Bytes
    → Option Bytes
    → Option Bytes
    → Option (Daemon × Bytes)
start_with h fuel stack d p (some ip) (some username) (some session_id) (some vserver_id) =
    start_for h fuel stack d p ip username session_id (atoi vserver_id)
      (vserver_get_by_id d.vserver_list (atoi vserver_id))
start_with h fuel stack d p _ _ _ _ = some (d, invalid_parameters)

unfoldable pub do_startsession :
    Host → ℕ → TaskReq → Option Bytes → Daemon → Option (Daemon × Bytes)
do_startsession h fuel stack none d = some (d, invalid_parameters)
do_startsession h fuel stack (some param) d = do
  ip ← param_field h param 1
  username ← param_field h param 2
  session_id ← param_field h param 3
  mac_address ← param_field h param 4
  session_timeout ← param_field h param 5
  bandwidth_max_down ← param_field h param 6
  bandwidth_max_up ← param_field h param 7
  serviceclass_name ← param_field h param 8
  vserver_id ← param_field h param 9
  let p : StartParams = record {
    ip = ip;
    username = username;
    session_id = session_id;
    mac_address = mac_address;
    session_timeout = session_timeout;
    bandwidth_max_down = bandwidth_max_down;
    bandwidth_max_up = bandwidth_max_up;
    serviceclass_name = serviceclass_name;
    vserver_id = vserver_id;
  }
  start_with h fuel stack d p ip username session_id vserver_id
