-- ===== src/Server/Shaping.antt =====
-- The functions `init` and `cleanup` of src/rh-task-bandwidth.c, with `bandwidth_start` and
-- `bandwidth_stop`. The wrapper's own path, which is the first argument of every call, is left out.
use rahunas.Host.{Host, bandwidth}
use rahunas.Interfaces.{Interface, get_interface, append_interface, remove_interface}
use rahunas.Prelude.{
  ℕ, ◌^◌, not, ◌&&◌, List, [], ◌∷◌, Option, none, some, ltb, leb, ◌==◌, if◌then◌else◌,
}
use rahunas.Server.Run.{Run, returned, faults}
use rahunas.Server.{
  Server, Site, Shared, VServerConfig, dev_internal, vs_reload, flag_of, setting, log_of, ask_site,
  deref_iface,
}
use rahunas.Session.Bandwidth.{bandwidth_exec_result}
use rahunas.Text.{Bytes, codes, strcmp_eq}

abbrev pub with_interfaces : List Interface → ℕ → Site → Site
with_interfaces interfaces mask u = record u {
  ms = record m { interfaces_list = interfaces; ifb_reserved = mask };
}
  where
    m : Shared
    m = u.ms

abbrev pub with_iface : Option Bytes → Site → Site
with_iface iface u = record u { vs = record v { vserver_config = record c { iface = iface } } }
  where
    v : Server
    v = u.vs

    c : VServerConfig
    c = u.vs.vserver_config

-- A write of `init` through a pointer.
unfoldable pub set_init : Bytes → ℕ → List Interface → List Interface
set_init device n [] = []
set_init device n (x ∷ xs) =
    if strcmp_eq x.dev_ifb device then record x { init = n } ∷ xs else x ∷ set_init device n xs

unfoldable pub write_init : Bytes → ℕ → Site → Site
unfolding set_init
write_init device n u = with_interfaces (set_init device n u.ms.interfaces_list) u.ms.ifb_reserved u

-- `bandwidth_start` and `bandwidth_stop`, by the name of the command.
unfoldable pub bandwidth_command : Host → Bytes → Interface → Site → Site × ℕ
bandwidth_command h command iface u =
    let asked = ask_site (bandwidth (command ∷ iface.dev_internal ∷ iface.dev_ifb ∷ [])) u in
    (asked, bandwidth_exec_result (h.child (log_of asked)))

-- The command, and the new value of `init` where it did not return a negative number.
unfoldable pub command_done : Host → Bytes → ℕ → Interface → Site → Site
unfolding bandwidth_command write_init
command_done h command n iface u =
    let (asked, ret) = bandwidth_command h command iface u in
    if ltb ret (2 ^ 31) then write_init iface.dev_ifb n asked else asked

-- From the label `initial` on. An interface that is not found is read all the same.
unfoldable pub initial : Host → Site → Run Site
unfolding command_done
initial h u = elim (get_interface u.ms.interfaces_list (setting dev_internal u)) [
  | none ↦ faults
  | some iface ↦
      let pointing = with_iface (some iface.dev_ifb) u in
      if iface.init == 0
      then returned (command_done h (codes "start") 1 iface pointing)
      else returned pointing
]

-- A shift beyond C's bounds is a fault.
unfoldable pub bandwidth_init : Host → Site → Run Site
unfolding initial
bandwidth_init h u =
    if flag_of u == vs_reload
    then initial h u
    else elim (append_interface u.ms.interfaces_list (setting dev_internal u) u.ms.ifb_reserved) [
      | none ↦ faults
      | some (interfaces, mask) ↦ initial h (with_interfaces interfaces mask u)
    ]

-- The pointer stays as it is.
unfoldable pub remove_own : Site → Site
remove_own u =
    let (interfaces, mask) =
      remove_interface u.ms.interfaces_list (setting dev_internal u) u.ms.ifb_reserved in
    with_interfaces interfaces mask u

unfoldable pub bandwidth_cleanup : Host → Site → Run Site
unfolding command_done remove_own
bandwidth_cleanup h u = if flag_of u == vs_reload then returned u else elim (deref_iface u) [
  | none ↦ faults
  | some iface ↦
      if not (iface.init == 0) && leb iface.hit 1
      then returned (remove_own (command_done h (codes "stop") 0 iface u))
      else returned (remove_own u)
]
