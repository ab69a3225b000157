-- ===== src/Tests/Worlds.antt =====
-- A world in which every request is answered, and a virtual server in it.
use rahunas.Member.{Member, VMap}
use rahunas.Prelude.{ℕ, true, [], ◌∷◌, Option, none, some}
use rahunas.Server.Restore.{DbsetRow}
use rahunas.Server.Sets.{Listing, answered}
use rahunas.Server.Stopping.{World}
use rahunas.Server.{Server, VServerConfig, Site, Shared, Setting, dev_internal, clients}
use rahunas.Session.Task.{rh_task_register}
use rahunas.Tests.Inputs.{toy_host, request, alice, bob}
use rahunas.Text.{Bytes, codes}

-- The listing of ten addresses, without entries.
abbrev pub toy_listing : Listing
toy_listing = record {
  from = 167772161;
  to = 167772170;
  entries = [];
  table = λ id. some (1 ∷ 1 ∷ 1 ∷ 1 ∷ 1 ∷ 1 ∷ []);
}

abbrev pub blank_row : DbsetRow
blank_row = record {
  session_id = [];
  vserver_id = [];
  username = [];
  ip = [];
  mac = [];
  session_start = 0;
  session_timeout = 0;
  bandwidth_slot_id = 0;
  bandwidth_max_down = 0;
  bandwidth_max_up = 0;
  service_class = [];
  service_class_slot_id = 0;
}

abbrev pub toy_world : World
toy_world = record {
  host = toy_host;
  kernel = record {
    index = λ log. 3;
    sets = λ log. (1, 3);
    size = λ log. answered true 100;
    listing = λ log. answered true toy_listing;
  };
  database = record { rows = λ log. []; mktime = λ s. 0 };
  fuel = 9;
  junk = record { row = blank_row; req = request 0 };
}

abbrev pub hall_settings : Setting → Option Bytes
hall_settings dev_internal = some (codes "eth1")
hall_settings clients = some (codes "10.0.0.0/28")
hall_settings _ = none

abbrev pub hall_config : ℕ → VServerConfig
hall_config flag = record {
  vserver_name = codes "hall";
  vserver_id = 1;
  init_flag = flag;
  idle_timeout = 600;
  settings = hall_settings;
  iface = some (codes "ifb0");
}

-- Alice holds slot 4.
abbrev pub shaped_alice : Member
shaped_alice = record m { bandwidth_slot_id = 4 }
  where
    m : Member
    m = alice

abbrev pub two_members : VMap
two_members = record {
  members = shaped_alice ∷ bob ∷ [];
  first_ip = 167772161;
  last_ip = 167772170;
  size = 10;
}

-- The hall, with a flag, and a file that gives it another time to be idle.
abbrev pub hall_server : ℕ → Server
hall_server flag = record {
  vserver_config = hall_config flag;
  dummy_config = some (record (hall_config 1) { idle_timeout = 60; iface = none });
  v_map = some two_members;
  v_set = some 3;
}

abbrev pub shared : Shared
shared = record {
  log = [];
  task_list = rh_task_register true true [];
  serviceclass_list = [];
  serviceclass_set = none;
  slot_flags = 1 ∷ 0 ∷ 0 ∷ 0 ∷ [];
  slot_count = 1;
  interfaces_list =
      record { dev_internal = codes "eth1"; dev_ifb = codes "ifb0"; hit = 1; init = 1 } ∷ [];
  ifb_reserved = 1;
}

abbrev pub hall_site : ℕ → Site
hall_site flag = record { vs = hall_server flag; ms = shared }
