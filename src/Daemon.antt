-- ===== src/Daemon.antt =====
-- The daemon's state between requests: `struct main_server` of src/rh-server.h with the variables of
-- the tasks, and the search for a virtual server of src/rh-server.c.
pub mod Watch
pub mod Signals
pub mod Steps
pub mod Walk
use rahunas.Host.{Event}
use rahunas.Prelude.{ℕ, List, [], ◌∷◌, Option, none, some, ◌==◌, if◌then◌else◌}
use rahunas.ServiceClass.{ServiceClass}
use rahunas.Session.Task.{Task}
use rahunas.Session.{VServer, TaskReq, Sess}

pub record Daemon : Type 0 where
  pub log : List Event
  pub vserver_list : List VServer
  pub serviceclass_list : List ServiceClass
  pub task_list : List Task
  pub serviceclass_set : Option ℕ
  pub slot_flags : List ℕ
  pub slot_count : ℕ

unfoldable pub vserver_get_by_id : List VServer → ℕ → Option VServer
vserver_get_by_id [] search_id = none
vserver_get_by_id (vs ∷ vss) search_id =
    if vs.vserver_id == search_id then some vs else vserver_get_by_id vss search_id

-- A write through the pointer that the search returns.
unfoldable pub put_vserver : ℕ → VServer → List VServer → List VServer
put_vserver search_id new [] = []
put_vserver search_id new (vs ∷ vss) =
    if vs.vserver_id == search_id then new ∷ vss else vs ∷ put_vserver search_id new vss

-- A task works on one virtual server and one request, and on what all share.
abbrev pub enter : Daemon → VServer → TaskReq → Sess
enter d vs req = record {
  log = d.log;
  vs = vs;
  req = req;
  serviceclass_list = d.serviceclass_list;
  serviceclass_set = d.serviceclass_set;
  slot_flags = d.slot_flags;
  slot_count = d.slot_count;
}

abbrev pub leave : ℕ → Daemon → Sess → Daemon
leave search_id d s = record d {
  log = s.log;
  vserver_list = put_vserver search_id s.vs d.vserver_list;
  serviceclass_set = s.serviceclass_set;
  slot_flags = s.slot_flags;
  slot_count = s.slot_count;
}
