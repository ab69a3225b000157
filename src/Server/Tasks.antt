-- ===== src/Server/Tasks.antt =====
-- `rh_task_init`, `rh_task_cleanup`, `rh_task_startservice` and `rh_task_stopservice` of src/rh-task.c:
-- what the registered tasks do to a virtual server and to the service as a whole. SERVICECLASS has
-- nothing to set up on a server, DBSET nothing to clean up, and only SERVICECLASS has a service.
use rahunas.Prelude.{List, [], ◌∷◌, none, some, if◌then◌else◌, ◌==◌}
use rahunas.Server.Firewall.{iptables_start, iptables_stop}
use rahunas.Server.Restore.{restore}
use rahunas.Server.Run.{Run, returned, ◌>>=◌}
use rahunas.Server.Sets.{set_adt_get, set_flush}
use rahunas.Server.Shaping.{bandwidth_init, bandwidth_cleanup}
use rahunas.Server.Stopping.{World, memset_init, memset_cleanup, ipset_init, ipset_cleanup}
use rahunas.Server.{Site, Shared, vs_reload, flag_of}
use rahunas.Session.Task.{Task, iptables, memset, ipset, serviceclass, bandwidth, dbset}
use rahunas.Text.{Bytes, codes}

unfoldable pub dbset_init : World → Site → Run Site
unfolding restore
dbset_init w u =
    if flag_of u == vs_reload then returned u else restore w.host w.database w.fuel w.junk u

-- `init` and `cleanup` of a task.
unfoldable pub init : World → Task → Site → Run Site
init w iptables u = returned (iptables_start w.host u).0
init w memset u = memset_init w u
init w ipset u = ipset_init w u
init w serviceclass u = returned u
init w bandwidth u = bandwidth_init w.host u
init w dbset u = dbset_init w u

unfoldable pub cleanup : World → Task → Site → Run Site
cleanup w iptables u = returned (iptables_stop w.host u).0
cleanup w memset u = memset_cleanup u
cleanup w ipset u = ipset_cleanup w u
cleanup w serviceclass u = returned u
cleanup w bandwidth u = bandwidth_cleanup w.host u
cleanup w dbset u = returned u

-- From the first task on, and from the last task on.
unfoldable pub init_tasks : World → List Task → Site → Run Site
unfolding init
init_tasks w [] u = returned u
init_tasks w (t ∷ ts) u = init w t u >>= λ v. init_tasks w ts v

unfoldable pub cleanup_tasks : World → List Task → Site → Run Site
unfolding cleanup
cleanup_tasks w [] u = returned u
cleanup_tasks w (t ∷ ts) u = cleanup_tasks w ts u >>= λ v. cleanup w t v

unfoldable pub rh_task_init : World → Site → Run Site
unfolding init_tasks
rh_task_init w u = init_tasks w u.ms.task_list u

unfoldable pub rh_task_cleanup : World → Site → Run Site
unfolding cleanup_tasks
rh_task_cleanup w u = cleanup_tasks w u.ms.task_list u

-- `SERVICECLASS_SET_NAME`.
abbrev pub serviceclass_set_name : Bytes
serviceclass_set_name = codes "rahunas_serviceclass"

unfoldable pub startservice : World → Task → Shared → Shared
startservice w serviceclass m =
    let (asked, index) = set_adt_get w.kernel serviceclass_set_name m.log in
    record m { log = set_flush serviceclass_set_name asked; serviceclass_set = some index }
startservice w _ m = m

unfoldable pub stopservice : Task → Shared → Shared
stopservice serviceclass m = elim m.serviceclass_set [
  | none ↦ m
  | some index ↦ record m { log = set_flush serviceclass_set_name m.log; serviceclass_set = none }
]
stopservice _ m = m

unfoldable pub start_services : World → List Task → Shared → Shared
unfolding startservice
start_services w [] m = m
start_services w (t ∷ ts) m = start_services w ts (startservice w t m)

unfoldable pub stop_services : List Task → Shared → Shared
unfolding stopservice
stop_services [] m = m
stop_services (t ∷ ts) m = stopservice t (stop_services ts m)

unfoldable pub rh_task_startservice : World → Shared → Shared
unfolding start_services
rh_task_startservice w m = start_services w m.task_list m

unfoldable pub rh_task_stopservice : Shared → Shared
unfolding stop_services
rh_task_stopservice m = stop_services m.task_list m
