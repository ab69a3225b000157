-- ===== src/Tests/Servers.antt =====
-- A virtual server that is reloaded and cleaned up, and servers that are registered and removed.
use rahunas.Host.{Event}
use rahunas.Interfaces.{
  get_interface, remove_interface, remove_loop, ifb_ifno, ifb_interface_release, without_bit,
}
use rahunas.Member.{member_get_node_by_id}
use rahunas.Prelude.{All, ◌≡◌, refl, true, [], ◌∷◌, none, some, arith}
use rahunas.Server.Registry.Numbers.{Apart, get_vservers_config-Apart}
use rahunas.Server.Registry.{get_vservers_config}
use rahunas.Server.Release.{rh_task_cleanup-dangling}
use rahunas.Server.Reload.Effective.{Runs, effective, vserver_reload-Runs}
use rahunas.Server.Reload.Ends.{reloaded, vserver_reload_lem}
use rahunas.Server.Reload.Sessions.{lasting, Ready, vserver_reload-lasting}
use rahunas.Server.Reload.Unused.{used, clean_unused, vserver_unused_cleanup_lem}
use rahunas.Server.Reload.{vserver_reload, vserver_unused_cleanup}
use rahunas.Server.Run.{returned, faults, OnReturn, ◌>>=◌}
use rahunas.Server.Sets.{read_listing, load_set_list, load_tries, load_try}
use rahunas.Server.Shaping.{
  bandwidth_cleanup, command_done, bandwidth_command, write_init, set_init, remove_own,
}
use rahunas.Server.Stopping.{holds_slot}
use rahunas.Server.Tasks.{rh_task_cleanup}
use rahunas.Server.{Server, VServerConfig, Site, Shared, dev_internal, deref_iface, pointed}
use rahunas.Session.Task.{
  rh_task_register, task_register, insert_by_prio, taskprio, find_task, same_task,
}
use rahunas.Tests.Inputs.{toy_host, bob}
use rahunas.Session.Bandwidth.{bandwidth_exec_result, not_completed, first_line}
use rahunas.Text.{
  codes, strncmp_eq, strcmp_eq, atoi, atol, skip_spaces, read_signed, read_digits, is_digit,
  is_space,
}
use rahunas.Tests.Worlds.{
  toy_listing, toy_world, hall_config, shaped_alice, two_members, hall_server, shared, hall_site,
}

vserver_reload_lem_example :
    vserver_reload 3 toy_world (hall_site 3) ≡ reloaded toy_world (hall_site 3)
vserver_reload_lem_example = vserver_reload_lem 0 toy_world (hall_site 3)

vserver_reload-Runs_example :
    OnReturn (Runs (effective (hall_site 2))) (vserver_reload 3 toy_world (hall_site 2))
vserver_reload-Runs_example = vserver_reload-Runs 0 toy_world (hall_site 2) refl

hall-Ready :
    All
      (Ready shared.interfaces_list ((effective (hall_site 2)).settings dev_internal))
      shared.task_list
unfolding rh_task_register task_register insert_by_prio taskprio find_task same_task get_interface
    strncmp_eq
hall-Ready = (tt, (tt, (tt, (tt, ((_, refl), (tt, tt))))))

vserver_reload-lasting_example :
    (v : Site) × (vserver_reload 3 toy_world (hall_site 2) ≡ returned v)
    × (lasting v ≡ lasting (hall_site 2))
vserver_reload-lasting_example = vserver_reload-lasting 0 toy_world (hall_site 2) refl hall-Ready

-- What the clean-up of BANDWIDTH leaves of the hall.
abbrev hall_freed : Site
hall_freed = record {
  vs = hall_server 3;
  ms = record m {
    log = Event.bandwidth (codes "stop" ∷ codes "eth1" ∷ codes "ifb0" ∷ []) ∷ [];
    interfaces_list = [];
    ifb_reserved = 0;
  };
}
  where
    m : Shared
    m = shared

hall_is_freed : bandwidth_cleanup toy_host (hall_site 3) ≡ returned hall_freed
unfolding bandwidth_cleanup command_done bandwidth_command write_init set_init remove_own
    deref_iface pointed remove_interface remove_loop strncmp_eq strcmp_eq ifb_ifno
    ifb_interface_release without_bit atoi atol skip_spaces read_signed read_digits is_digit
    is_space bandwidth_exec_result not_completed first_line
hall_is_freed = refl

no_iface : deref_iface hall_freed ≡ none
unfolding deref_iface pointed strcmp_eq
no_iface = refl

alice_holds : holds_slot 2 two_members.members ≡ true
unfolding holds_slot member_get_node_by_id
alice_holds = refl

hall_listed :
    (read_listing toy_world.kernel (codes "hall") hall_freed.ms.log).1 ≡ some (some toy_listing)
unfolding read_listing load_set_list load_tries load_try
hall_listed = refl

rh_task_cleanup-dangling_example : rh_task_cleanup toy_world (hall_site 3) ≡ faults
rh_task_cleanup-dangling_example =
    rh_task_cleanup-dangling toy_world true (hall_site 3) hall_freed two_members shaped_alice
      (bob ∷ []) toy_listing refl refl hall_is_freed no_iface refl refl alice_holds hall_listed

get_vservers_config-Apart_example : OnReturn Apart (
    get_vservers_config
      (λ path. some (hall_config 1))
      (codes "/etc")
      (some (codes "a.conf" ∷ codes "b.conf" ∷ codes "README" ∷ []))
      (hall_server 4 ∷ []))
get_vservers_config-Apart_example =
    get_vservers_config-Apart (λ path. some (hall_config 1)) (codes "/etc")
      (some (codes "a.conf" ∷ codes "b.conf" ∷ codes "README" ∷ [])) (hall_server 4 ∷ []) (tt, tt)

-- A second server, which is not in use.
abbrev attic : Server
attic = record {
  vserver_config = record c { vserver_name = codes "attic"; vserver_id = 2; init_flag = 0 };
  dummy_config = none;
  v_map = none;
  v_set = none;
}
  where
    c : VServerConfig
    c = hall_config 0

vserver_unused_cleanup_lem_example :
    vserver_unused_cleanup toy_world shared (attic ∷ hall_server 4 ∷ [])
    ≡ clean_unused toy_world shared (attic ∷ hall_server 4 ∷ []) >>= λ n.
        returned (n, used (attic ∷ hall_server 4 ∷ []))
vserver_unused_cleanup_lem_example =
    vserver_unused_cleanup_lem toy_world shared (attic ∷ hall_server 4 ∷ [])
      ((λ e. omega arith, tt), (tt, tt))
