-- ===== src/Server.antt =====
-- A virtual server with its configuration: `struct vserver` of src/rh-server.h and `struct
-- rahunas_vserver_config` of src/rh-config.h, as they are set up, reloaded and cleaned up, and what all
-- virtual servers share.
pub mod Run
pub mod Sets
pub mod Firewall
pub mod Restore
pub mod Shaping
pub mod Stopping
pub mod Tasks
pub mod Registry
pub mod Reload
pub mod Program
pub mod Keeps
pub mod Release
pub mod Poll
use rahunas.Host.{Event}
use rahunas.Interfaces.{Interface, get_interface}
use rahunas.Member.{VMap}
use rahunas.Prelude.{ℕ, List, [], ◌∷◌, Option, none, some, if◌then◌else◌, ◌>>=◌}
use rahunas.ServiceClass.{ServiceClass}
use rahunas.Session.Task.{Task}
use rahunas.Session.{Sess, TaskReq}
use rahunas.Text.{Bytes, strcmp_eq}

-- The fields that are texts and may be null.
pub data Setting : Type 0 where
  dev_external dev_internal vlan vlan_raw_dev_external vlan_raw_dev_internal bridge : Setting
  masquerade ignore_mac vserver_ip vserver_fqdn vserver_ports_allow : Setting
  vserver_ports_intercept clients excluded dns ssh proxy proxy_host proxy_port : Setting
  bittorrent bittorrent_allow radius_host radius_secret radius_encrypt : Setting
  radius_auth_port radius_account_port nas_identifier nas_port nas_login_title : Setting
  nas_default_redirect nas_default_language nas_weblogin_template : Setting

-- A server has a name, since `strcmp` takes no null pointer. `iface` points to an interface of the
-- list; it is told by the ifb device, which no two interfaces share.
pub record VServerConfig : Type 0 where
  pub vserver_name : Bytes
  pub vserver_id : ℕ
  pub init_flag : ℕ
  pub idle_timeout : ℕ
  pub settings : Setting → Option Bytes
  pub iface : Option Bytes

pub record Server : Type 0 where
  pub vserver_config : VServerConfig
  pub dummy_config : Option VServerConfig
  pub v_map : Option VMap
  pub v_set : Option ℕ

-- What the virtual servers share.
pub record Shared : Type 0 where
  pub log : List Event
  pub task_list : List Task
  pub serviceclass_list : List ServiceClass
  pub serviceclass_set : Option ℕ
  pub slot_flags : List ℕ
  pub slot_count : ℕ
  pub interfaces_list : List Interface
  pub ifb_reserved : ℕ

-- What a task works on.
pub record Site : Type 0 where
  pub vs : Server
  pub ms : Shared

-- `VS_NONE` to `VS_DONE`.
abbrev pub vs_none : ℕ
vs_none = 0

abbrev pub vs_init : ℕ
vs_init = 1

abbrev pub vs_reload : ℕ
vs_reload = 2

abbrev pub vs_reset : ℕ
vs_reset = 3

abbrev pub vs_done : ℕ
vs_done = 4

abbrev pub config_of : Site → VServerConfig
config_of u = u.vs.vserver_config

abbrev pub flag_of : Site → ℕ
flag_of u = u.vs.vserver_config.init_flag

abbrev pub setting : Setting → Site → Option Bytes
setting key u = u.vs.vserver_config.settings key

abbrev pub log_of : Site → List Event
log_of u = u.ms.log

abbrev pub with_log : List Event → Site → Site
with_log log u = record u { ms = record m { log = log } }
  where
    m : Shared
    m = u.ms

abbrev pub ask_site : Event → Site → Site
ask_site e u = with_log (e ∷ u.ms.log) u

-- Reading through the pointer: none where it is null or what it points to was freed.
unfoldable pub pointed : List Interface → Bytes → Option Interface
pointed [] device = none
pointed (x ∷ xs) device = if strcmp_eq x.dev_ifb device then some x else pointed xs device

unfoldable pub deref_iface : Site → Option Interface
unfolding pointed
deref_iface u = do device ← u.vs.vserver_config.iface; pointed u.ms.interfaces_list device

-- What the session functions of the tasks see of the server. `dev_internal` and `dev_ifb` are those
-- of the interface.
unfoldable pub session_view : VMap → Bytes → Bytes → TaskReq → Site → Sess
session_view map device_internal device_ifb req u = record {
  log = u.ms.log;
  vs = record {
    vserver_name = u.vs.vserver_config.vserver_name;
    vserver_id = u.vs.vserver_config.vserver_id;
    idle_timeout = u.vs.vserver_config.idle_timeout;
    dev_internal = device_internal;
    dev_ifb = device_ifb;
    v_map = map;
    v_set = u.vs.v_set;
  };
  req = req;
  serviceclass_list = u.ms.serviceclass_list;
  serviceclass_set = u.ms.serviceclass_set;
  slot_flags = u.ms.slot_flags;
  slot_count = u.ms.slot_count;
}

-- What they change.
unfoldable pub session_back : Site → Sess → Site
session_back u s = record u {
  vs = record v { v_map = some s.vs.v_map };
  ms = record m {
    log = s.log;
    serviceclass_set = s.serviceclass_set;
    slot_flags = s.slot_flags;
    slot_count = s.slot_count;
  };
}
  where
    v : Server
    v = u.vs

    m : Shared
    m = u.ms
