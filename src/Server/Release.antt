-- ===== src/Server/Release.antt =====
-- What a clean-up of a virtual server releases, and in which order.
use rahunas.Host.{Event}
use rahunas.Member.{VMap, Member}
use rahunas.Prelude.{
  ℕ, ◌≡◌, refl, ap, ◌∙◌, Bool, true, false, List, [], ◌∷◌, ◌++◌, none, some, ◌==◌, Option-cases,
  inl, inr, if◌then◌else◌,
}
use rahunas.Server.Keeps.{SameConfig, Kept, bandwidth_cleanup-SameConfig}
use rahunas.Server.Run.{Run, returned, faults, OnReturn}
use rahunas.Server.Sets.{Listing, read_listing, walk_through_set}
use rahunas.Server.Shaping.{bandwidth_cleanup}
use rahunas.Server.Stopping.{
  World, memset_cleanup, ipset_cleanup, set_cleanup, stop_members, stop_session, holds_slot,
}
use rahunas.Server.Tasks.{cleanup, cleanup_tasks, rh_task_cleanup}
use rahunas.Server.{Site, vs_reload, flag_of, config_of, log_of, with_log, deref_iface}
use rahunas.Session.Task.Order.{rh_task_register_lem}
use rahunas.Session.Task.{
  Task, iptables, memset, ipset, serviceclass, bandwidth, dbset, find_task, rh_task_register,
  same_task,
}
use rahunas.Text.{Bytes}

memset_cleanup-map :
    (u : Site)
    → (flag_of u == vs_reload) ≡ false
    → OnReturn (λ v. (v.vs.v_map ≡ none) × (v.vs.v_set ≡ u.vs.v_set)) (memset_cleanup u)
unfolding memset_cleanup
memset_cleanup-map u e = rw e (refl, refl)

flag_same :
    (u v : Site)
    → SameConfig u v
    → (flag_of u == vs_reload) ≡ false
    → (flag_of v == vs_reload) ≡ false
flag_same u v e f = rw (ap (λ (k : Kept). k.flag) e) f

deref_log : (log : List Event) (u : Site) → deref_iface (with_log log u) ≡ deref_iface u
unfolding deref_iface
deref_log log u = refl

stop_session-dangling :
    (w : World) (id : ℕ) (mac : Bytes) (u : Site) (map : VMap)
    → find_task u.ms.task_list bandwidth ≡ true
    → deref_iface u ≡ none
    → u.vs.v_map ≡ some map
    → holds_slot id map.members ≡ true
    → stop_session w id mac u ≡ faults
unfolding stop_session
stop_session-dangling w id mac u map shaped freed mapped slot =
    rw (mapped, freed, shaped, slot, stop_session) refl

-- The set is listed, and its first member is stopped.
set_cleanup-dangling :
    (w : World) (l : Listing) (u : Site) (map : VMap) (m : Member) (ms : List Member)
    → find_task u.ms.task_list bandwidth ≡ true
    → deref_iface u ≡ none
    → u.vs.v_map ≡ some map
    → map.members ≡ m ∷ ms
    → holds_slot m.id map.members ≡ true
    → set_cleanup w l u ≡ faults
unfolding set_cleanup stop_members
set_cleanup-dangling w l u map m ms shaped freed mapped first slot =
    rw (mapped, first, set_cleanup)
      (elim (Option-cases (l.table m.id)) [
        | inl e ↦ rw (e, stop_members) refl
        | inr (mac, e) ↦
            rw (e, stop_members, stop_session-dangling w m.id mac u map shaped freed mapped slot)
              refl
      ])

ipset_cleanup-dangling :
    (w : World) (t : Site) (map : VMap) (m : Member) (ms : List Member) (l : Listing)
    → (flag_of t == vs_reload) ≡ false
    → find_task t.ms.task_list bandwidth ≡ true
    → deref_iface t ≡ none
    → t.vs.v_map ≡ some map
    → map.members ≡ m ∷ ms
    → holds_slot m.id map.members ≡ true
    → (read_listing w.kernel (config_of t).vserver_name (log_of t)).1 ≡ some (some l)
    → ipset_cleanup w t ≡ faults
unfolding ipset_cleanup walk_through_set
ipset_cleanup-dangling w t map m ms l e shaped freed mapped first slot listed =
    let log = (read_listing w.kernel (config_of t).vserver_name (log_of t)).0 in
    let stop : set_cleanup w l (with_log log t) ≡ faults =
      set_cleanup-dangling w l (with_log log t) map m ms shaped (deref_log log t ∙ freed) mapped
        first slot in
    let walk : walk_through_set w.kernel (set_cleanup w) t ≡ faults =
      rw (listed, walk_through_set) stop in
    rw (e, walk, ipset_cleanup) refl

-- The clean-ups of the tasks behind IPSET are over.
cleanup_tasks-dangling :
    (w : World) (ts rest : List Task) (u t : Site)
    → ts ≡ iptables ∷ memset ∷ ipset ∷ rest
    → cleanup_tasks w rest u ≡ returned t
    → ipset_cleanup w t ≡ faults
    → cleanup_tasks w ts u ≡ faults
unfolding cleanup_tasks cleanup
cleanup_tasks-dangling w ts rest u t whole done fault = rw (whole, cleanup_tasks, done, fault) refl

tail_tasks :
    (w : World) (use_serviceclass : Bool) (u t : Site)
    → bandwidth_cleanup w.host u ≡ returned t
    → cleanup_tasks w
        ((if use_serviceclass then serviceclass ∷ [] else []) ++ (bandwidth ∷ dbset ∷ []))
        u
      ≡ returned t
unfolding cleanup_tasks cleanup
tail_tasks w true u t e = rw e refl
tail_tasks w false u t e = e

has_bandwidth :
    (use_serviceclass : Bool)
    → find_task (rh_task_register use_serviceclass true []) bandwidth ≡ true
unfolding rh_task_register find_task same_task
has_bandwidth true = refl
has_bandwidth false = refl

-- Where the tasks are those that the daemon registers, with BANDWIDTH among them, the flag asks for no
-- reload, the clean-up of BANDWIDTH has freed the interface, the kernel lists the set, and the first
-- member of the table holds a slot, the clean-up reads the freed interface.
pub rh_task_cleanup-dangling :
    (w : World) (use_serviceclass : Bool) (u t : Site) (map : VMap) (m : Member) (ms : List Member)
    (l : Listing)
    → u.ms.task_list ≡ rh_task_register use_serviceclass true []
    → (flag_of u == vs_reload) ≡ false
    → bandwidth_cleanup w.host u ≡ returned t
    → deref_iface t ≡ none
    → t.vs.v_map ≡ some map
    → map.members ≡ m ∷ ms
    → holds_slot m.id map.members ≡ true
    → (read_listing w.kernel (config_of t).vserver_name (log_of t)).1 ≡ some (some l)
    → rh_task_cleanup w u ≡ faults
unfolding rh_task_cleanup
rh_task_cleanup-dangling w use_serviceclass u t map m ms l tasks e cleaned freed mapped first slot
      listed =
    let same : SameConfig u t = rw cleaned at (bandwidth_cleanup-SameConfig w.host u) in
    let shaped : find_task t.ms.task_list bandwidth ≡ true =
      ap (λ (k : Kept). find_task k.tasks bandwidth) same
      ∙ (ap (λ ts. find_task ts bandwidth) tasks ∙ has_bandwidth use_serviceclass) in
    cleanup_tasks-dangling w u.ms.task_list _ u t
      (tasks ∙ rh_task_register_lem use_serviceclass true)
      (tail_tasks w use_serviceclass u t cleaned)
      (ipset_cleanup-dangling w t map m ms l (flag_same u t same e) shaped freed mapped first slot
        listed)
