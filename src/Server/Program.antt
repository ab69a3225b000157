-- ===== src/Server/Program.antt =====
-- The daemon from its start to its end: `rh_reload` and `rh_exit` of src/rahunasd.c, and the part of its
-- `main` that sets the servers up. The commands of the fake ARP daemon that a service class runs, the
-- log file, the loop of GLib and the thread that polls are left out.
use rahunas.Config.Keys.{MainConfig}
use rahunas.Prelude.{ℕ, not, ◌==◌, Bool, List, [], ◌∷◌, Option, none, some, map, if◌then◌else◌}
use rahunas.Server.Registry.{get_vservers_config, unregister_vserver_all}
use rahunas.Server.Reload.{
  vserver_reload, vserver_init_done, vserver_unused_cleanup, walk_through_vserver,
}
use rahunas.Server.Run.{Run, returned, exits, unended, ◌>>=◌}
use rahunas.Server.Stopping.{World}
use rahunas.Server.Tasks.{rh_task_init, rh_task_cleanup, rh_task_startservice, rh_task_stopservice}
use rahunas.Server.{Server, Shared, VServerConfig}
use rahunas.ServiceClass.Registry.{
  register_serviceclass, serviceclass_reload, serviceclass_unused_cleanup, serviceclass_init,
}
use rahunas.ServiceClass.{ServiceClass, ServiceClassConfig}
use rahunas.Session.Task.{rh_task_register}
use rahunas.Text.{Bytes}

-- `struct main_server`, with what the tasks share.
pub record Program : Type 0 where
  pub shared : Shared
  pub vserver_list : List Server

-- The file system: `readdir` of a directory, and what `get_config` reads from a file.
pub record Files : Type 0 where
  pub directory : Bytes → Option (List Bytes)
  pub vserver : Bytes → Option VServerConfig
  pub serviceclasses : Bytes → List (Option ServiceClassConfig)

unfoldable pub register_classes :
    List (Option ServiceClassConfig) → List ServiceClass → List ServiceClass
unfolding register_serviceclass
register_classes [] scs = scs
register_classes (c ∷ cs) scs = register_classes cs (register_serviceclass c scs).0

abbrev pub with_classes : List ServiceClass → Shared → Shared
with_classes scs m = record m { serviceclass_list = scs }

-- `walk_through_serviceclass(do_serviceclass_reload, ...)`; three rounds are enough.
unfoldable pub reload_classes : List ServiceClass → Run (List ServiceClass)
unfolding serviceclass_reload
reload_classes [] = returned []
reload_classes (sc ∷ scs) = elim (serviceclass_reload 3 sc) [
  | none ↦ unended
  | some new ↦ reload_classes scs >>= λ rest. returned (new ∷ rest)
]

-- An `int` as a test.
abbrev on : ℕ → Bool
on n = not (n == 0)

abbrev pub or_unended {ℓ} : {A : Type ℓ} → Option A → Run A
or_unended none = unended
or_unended (some a) = returned a

abbrev pub or_exits {ℓ} : {A : Type ℓ} → Option A → Run A
or_exits none = exits
or_exits (some a) = returned a

-- A directory that is not set ends the program.
unfoldable pub read_servers : MainConfig → Files → List Server → Run (List Server)
unfolding get_vservers_config
read_servers c files vs =
    or_exits c.conf_dir >>= λ dir. get_vservers_config files.vserver dir (files.directory dir) vs

unfoldable pub read_classes : MainConfig → Files → List ServiceClass → Run (List ServiceClass)
unfolding register_classes
read_classes c files scs = or_exits c.serviceclass_conf_dir >>= λ dir.
    returned (register_classes (files.serviceclasses dir) scs)

-- The classes come before the servers.
unfoldable pub rh_reload : World → MainConfig → Files → Program → Run Program
unfolding read_servers read_classes reload_classes serviceclass_unused_cleanup
rh_reload w c files p = do
  registered ← read_servers c files p.vserver_list
  classes ← read_classes c files p.shared.serviceclass_list
  reloaded ← reload_classes classes
  kept ← or_unended (serviceclass_unused_cleanup reloaded)
  walked ← walk_through_vserver (vserver_reload 3 w) (with_classes kept p.shared) registered
  left ← vserver_unused_cleanup w walked.0 walked.1
  returned (record { shared = left.0; vserver_list = left.1 })

unfoldable pub rh_exit : World → Program → Run Program
unfolding rh_task_stopservice unregister_vserver_all
rh_exit w p = do
  walked ← walk_through_vserver (rh_task_cleanup w) p.shared p.vserver_list
  let stopped = rh_task_stopservice walked.0
  returned (record {
    shared = record stopped { task_list = [] };
    vserver_list = unregister_vserver_all walked.1;
  })

-- From the reading of the configuration to the main loop, without the servers of GLib.
unfoldable pub set_up : World → MainConfig → Files → Program → Run Program
unfolding read_servers read_classes rh_task_startservice vserver_init_done
set_up w c files p = do
  registered ← read_servers c files p.vserver_list
  classes ←
      (if on c.serviceclass
        then read_classes c files p.shared.serviceclass_list
        else returned p.shared.serviceclass_list)
  let m = p.shared
  let tasked = record m {
    serviceclass_list = classes;
    task_list = rh_task_register (on c.serviceclass) (on c.bandwidth_shape) m.task_list;
  }
  let started = rh_task_startservice w tasked
  let classed = record started {
    serviceclass_list =
        if on c.serviceclass
        then map serviceclass_init started.serviceclass_list
        else started.serviceclass_list;
  }
  walked ← walk_through_vserver (rh_task_init w) classed registered
  done ← walk_through_vserver (λ u. returned (vserver_init_done u)) walked.0 walked.1
  returned (record { shared = done.0; vserver_list = done.1 })
