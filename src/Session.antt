-- ===== src/Session.antt =====
-- The state that starting and stopping a session changes: `struct task_req` of src/rh-task.h, the
-- parts of `struct vserver` and `struct main_server` of src/rh-server.h that the tasks read, and the
-- variables of src/rh-task-bandwidth.c and src/rh-task-serviceclass.c. Each task of src/rh-task-*.c
-- is a child.
pub mod Memset
pub mod Ipset
pub mod Slots
pub mod Bandwidth
pub mod Mapping
pub mod Dbset
pub mod Task
pub mod Keeps
pub mod Refinement
pub mod Owners
use rahunas.Host.{Event}
use rahunas.Member.{Member, VMap, modify_node}
use rahunas.Prelude.{ℕ, List, ◌∷◌, Option}
use rahunas.ServiceClass.{ServiceClass}
use rahunas.Text.{Bytes}

-- `username` and `session_id` are never null here: `strdup` takes no null pointer.
pub record TaskReq : Type 0 where
  pub id : ℕ
  pub vserver_id : ℕ
  pub username : Bytes
  pub session_id : Bytes
  pub mac_address : Bytes
  pub session_start : ℕ
  pub session_timeout : ℕ
  pub bandwidth_slot_id : ℕ
  pub bandwidth_max_down : ℕ
  pub bandwidth_max_up : ℕ
  pub serviceclass_name : Option Bytes
  pub serviceclass_slot_id : ℕ
  pub req_opt : ℕ

-- A virtual server that is set up: the map is there, and the interface is reserved. `v_set` is the
-- index of its set in the kernel. `int` and `time_t` fields are bit patterns.
pub record VServer : Type 0 where
  pub vserver_name : Bytes
  pub vserver_id : ℕ
  pub idle_timeout : ℕ
  pub dev_internal : Bytes
  pub dev_ifb : Bytes
  pub v_map : VMap
  pub v_set : Option ℕ

-- The session being started or stopped, and all that the tasks share.
pub record Sess : Type 0 where
  pub log : List Event
  pub vs : VServer
  pub req : TaskReq
  pub serviceclass_list : List ServiceClass
  pub serviceclass_set : Option ℕ
  pub slot_flags : List ℕ
  pub slot_count : ℕ

abbrev pub members : Sess → List Member
members s = s.vs.v_map.members

abbrev pub with_members : Sess → List Member → Sess
with_members s ms = record s { vs = record v { v_map = record m { members = ms } } }
  where
    v : VServer
    v = s.vs

    m : VMap
    m = s.vs.v_map

-- A write through the member with the identifier.
abbrev pub modify_member : ℕ → (Member → Member) → Sess → Sess
modify_member id f s = with_members s (modify_node id f (members s))

-- A request to the system.
abbrev pub ask : Event → Sess → Sess
ask e s = record s { log = e ∷ s.log }

-- What a handler returns, -1 as a 32-bit pattern.
abbrev pub minus_one : ℕ
minus_one = 4294967295
