-- ===== src/Server/Reload/Sessions.antt =====
-- A reload keeps every session.
use rahunas.Host.{Host, Event}
use rahunas.Interfaces.{Interface, get_interface, is_named}
use rahunas.Member.{VMap}
use rahunas.Prelude.{
  ℕ, suc, true, false, ◌∙◌, ◌≡◌, refl, arith, ◌==◌, Bool-cases, inl, inr, Option, none, some,
  if-elim, if-true, All, All-map, List, [], ◌∷◌, ltb, ◌^◌,
}
use rahunas.Server.Shaping.{
  bandwidth_init, bandwidth_cleanup, initial, command_done, bandwidth_command, with_iface,
  write_init, set_init,
}
use rahunas.Server.Stopping.{World, memset_init, memset_cleanup, ipset_init, ipset_cleanup}
use rahunas.Server.Tasks.{
  dbset_init, init, cleanup, init_tasks, cleanup_tasks, rh_task_init, rh_task_cleanup,
}
use rahunas.Server.Run.{Run, returned, ◌>>=◌}
use rahunas.Server.Firewall.{iptables_start, iptables_stop, iptables_exec}
use rahunas.Server.Reload.Effective.{effective}
use rahunas.Server.Reload.Ends.{reloaded, vserver_reload_lem}
use rahunas.Server.Reload.{set_flag, take_dummy, vserver_reload}
use rahunas.Server.{
  Site, dev_internal, setting, vs_reload, vs_init, vs_done, flag_of, with_log, ask_site,
}
use rahunas.Session.Task.{Task, iptables, memset, ipset, serviceclass, bandwidth, dbset}
use rahunas.Text.{Bytes, codes, strcmp_eq}

-- The sessions of a server, its set, and the slots in use.
pub record Lasting : Type 0 where
  pub v_map : Option VMap
  pub v_set : Option ℕ
  pub serviceclass_set : Option ℕ
  pub slot_flags : List ℕ
  pub slot_count : ℕ

abbrev pub lasting : Site → Lasting
lasting u = record {
  v_map = u.vs.v_map;
  v_set = u.vs.v_set;
  serviceclass_set = u.ms.serviceclass_set;
  slot_flags = u.ms.slot_flags;
  slot_count = u.ms.slot_count;
}

-- What a task needs to be set up again: BANDWIDTH has to find an interface with the name.
abbrev pub Ready : List Interface → Option Bytes → Task → Type 0
Ready interfaces name bandwidth = (i : Interface) × (get_interface interfaces name ≡ some i)
Ready interfaces name _ = Unit

abbrev ReadySite : Task → Site → Type 0
ReadySite t u = Ready u.ms.interfaces_list (setting dev_internal u) t

-- A run returns, with what lasts as it was, a flag that still asks for a reload, and the tasks as
-- ready as they were.
record Lasts (u : Site) (r : Run Site) : Type 0 where
  pub site : Site
  pub returns : r ≡ returned site
  pub lasts : lasting site ≡ lasting u
  pub flagged : flag_of site ≡ vs_reload
  pub ready : (t : Task) → ReadySite t u → ReadySite t site

still : (u : Site) (log : List Event) → flag_of u ≡ vs_reload → Lasts u (returned (with_log log u))
still u log e = record {
  site = with_log log u;
  returns = refl;
  lasts = refl;
  flagged = e;
  ready = λ t r. r;
}

Lasts->>= :
    (u : Site) (r : Run Site) (f : Site → Run Site)
    → Lasts u r
    → ((v : Site)
        → flag_of v ≡ vs_reload
        → ((t : Task) → ReadySite t u → ReadySite t v)
        → Lasts v (f v))
    → Lasts u (r >>= f)
Lasts->>= u r f a b =
    let c = b a.site a.flagged a.ready in
    rw a.returns (record {
      site = c.site;
      returns = c.returns;
      lasts = c.lasts ∙ a.lasts;
      flagged = c.flagged;
      ready = λ t r. c.ready t (a.ready t r);
    })

-- A clean-up changes no more than the log.
cleanup_log :
    (w : World) (t : Task) (u : Site)
    → flag_of u ≡ vs_reload
    → (log : List Event) × (cleanup w t u ≡ returned (with_log log u))
unfolding cleanup memset_cleanup ipset_cleanup bandwidth_cleanup iptables_stop iptables_exec
cleanup_log w iptables u e = (_, refl)
cleanup_log w memset u e = (u.ms.log, rw e refl)
cleanup_log w ipset u e = (u.ms.log, rw e refl)
cleanup_log w serviceclass u e = (u.ms.log, refl)
cleanup_log w bandwidth u e = (u.ms.log, rw e refl)
cleanup_log w dbset u e = (u.ms.log, refl)

cleanup_tasks_log :
    (w : World) (ts : List Task) (u : Site)
    → flag_of u ≡ vs_reload
    → (log : List Event) × (cleanup_tasks w ts u ≡ returned (with_log log u))
unfolding cleanup_tasks
cleanup_tasks_log w [] u e = (u.ms.log, refl)
cleanup_tasks_log w (t ∷ ts) u e =
    let (log, done) = cleanup_tasks_log w ts u e in rw done (cleanup_log w t (with_log log u) e)

get_interface-set_init :
    (device : Bytes) (n : ℕ) (xs : List Interface) (name : Option Bytes) (i : Interface)
    → get_interface xs name ≡ some i
    → (j : Interface) × (get_interface (set_init device n xs) name ≡ some j)
unfolding get_interface set_init
get_interface-set_init device n xs none i e = absurd cc
get_interface-set_init device n [] (some name) i e = absurd cc
get_interface-set_init device n (x ∷ xs) (some name) i e =
    elim (Bool-cases (strcmp_eq x.dev_ifb device)) [
      | inl d ↦ elim (Bool-cases (is_named name x)) [
        | inl m ↦ rw (d, m) (record x { init = n }, refl)
        | inr m ↦ rw (d, m) (i, rw m at e)
      ]
      | inr d ↦ elim (Bool-cases (is_named name x)) [
        | inl m ↦ rw (d, m) (x, refl)
        | inr m ↦ rw (d, m) (get_interface-set_init device n xs (some name) i (rw m at e))
      ]
    ]

repoint :
    (u : Site) (iface : Option Bytes) (r : Run Site) → Lasts (with_iface iface u) r → Lasts u r
repoint u iface r l = record {
  site = l.site;
  returns = l.returns;
  lasts = l.lasts;
  flagged = l.flagged;
  ready = l.ready;
}

write_init-Lasts :
    (device : Bytes) (n : ℕ) (u : Site)
    → flag_of u ≡ vs_reload
    → Lasts u (returned (write_init device n u))
unfolding write_init
write_init-Lasts device n u e = record {
  site = write_init device n u;
  returns = refl;
  lasts = refl;
  flagged = e;
  ready = ready;
}
  where
    ready : (t : Task) → ReadySite t u → ReadySite t (write_init device n u)
    ready bandwidth (i, found) =
        get_interface-set_init device n u.ms.interfaces_list (setting dev_internal u) i found
    ready iptables r = tt
    ready memset r = tt
    ready ipset r = tt
    ready serviceclass r = tt
    ready dbset r = tt

command_done-Lasts :
    (h : Host) (i : Interface) (u : Site)
    → flag_of u ≡ vs_reload
    → Lasts u (returned (command_done h (codes "start") 1 i u))
unfolding command_done bandwidth_command
command_done-Lasts h i u e =
    let args = codes "start" ∷ i.dev_internal ∷ i.dev_ifb ∷ [] in
    let asked = ask_site (Event.bandwidth args) u in
    let l = write_init-Lasts i.dev_ifb 1 asked e in
    if-elim (λ v. Lasts u (returned v)) (ltb (bandwidth_command h (codes "start") i u).1 (2 ^ 31)) _
      _
      (record {
        site = l.site;
        returns = l.returns;
        lasts = l.lasts;
        flagged = l.flagged;
        ready = l.ready;
      })
      (still u asked.ms.log e)

initial-Lasts :
    (h : Host) (u : Site) → flag_of u ≡ vs_reload → ReadySite bandwidth u → Lasts u (initial h u)
unfolding initial
initial-Lasts h u e (i, found) =
    let pointing = with_iface (some i.dev_ifb) u in
    rw (found, initial)
      (repoint u (some i.dev_ifb) _ (
        if-elim (Lasts pointing) (i.init == 0) _ _ (command_done-Lasts h i pointing e)
          (still pointing pointing.ms.log e)))

init-Lasts :
    (w : World) (t : Task) (u : Site) → flag_of u ≡ vs_reload → ReadySite t u → Lasts u (init w t u)
unfolding init memset_init ipset_init bandwidth_init dbset_init iptables_start iptables_exec
init-Lasts w iptables u e r = still u _ e
init-Lasts w memset u e r =
    if-true (Lasts u) (flag_of u == vs_reload) _ _ (ground arith) (still u u.ms.log e)
init-Lasts w ipset u e r =
    if-true (Lasts u) (flag_of u == vs_reload) _ _ (ground arith) (still u u.ms.log e)
init-Lasts w serviceclass u e r = still u u.ms.log e
init-Lasts w bandwidth u e r =
    if-true (Lasts u) (flag_of u == vs_reload) _ _ (ground arith) (initial-Lasts w.host u e r)
init-Lasts w dbset u e r =
    if-true (Lasts u) (flag_of u == vs_reload) _ _ (ground arith) (still u u.ms.log e)

init_tasks-Lasts :
    (w : World) (ts : List Task) (u : Site)
    → flag_of u ≡ vs_reload
    → All (λ t. ReadySite t u) ts
    → Lasts u (init_tasks w ts u)
unfolding init_tasks
init_tasks-Lasts w [] u e all = still u u.ms.log e
init_tasks-Lasts w (t ∷ ts) u e all =
    Lasts->>= u (init w t u) (init_tasks w ts) (init-Lasts w t u e all.0)
      (λ v f keeps. init_tasks-Lasts w ts v f (All-map _ _ ts keeps all.1))

-- What a reload sets up again.
abbrev begun : List Event → Site → Site
begun log u = set_flag vs_reload (take_dummy (with_log log u))

begun-lasting : (log : List Event) (u : Site) → lasting (begun log u) ≡ lasting u
unfolding take_dummy
begun-lasting log u = ground arith

begun-shared :
    (log : List Event) (u : Site)
    → ((begun log u).ms.interfaces_list ≡ u.ms.interfaces_list)
      × ((begun log u).ms.task_list ≡ u.ms.task_list)
unfolding take_dummy
begun-shared log u = (ground arith, ground arith)

begun-setting :
    (log : List Event) (u : Site)
    → flag_of u ≡ vs_reload
    → setting dev_internal (begun log u) ≡ (effective u).settings dev_internal
unfolding take_dummy
begun-setting log u e = ground arith

reloaded_reload :
    (w : World) (u : Site)
    → flag_of u ≡ vs_reload
    → reloaded w u ≡ (do
      t ← rh_task_cleanup w u
      v ← rh_task_init w (set_flag vs_reload (take_dummy t))
      returned (set_flag vs_done v))
reloaded_reload w u e =
    let a : (flag_of u == vs_done) ≡ false = ground arith in
    let b : (flag_of u == vs_init) ≡ false = ground arith in
    let c : (flag_of u == vs_reload) ≡ true = ground arith in rw (a, b, c) refl

-- A reload, in three rounds or more, of a server whose flag asks for one, for which BANDWIDTH, if it
-- is registered, finds an interface with the name in the configuration that waits, comes to its end,
-- and leaves the sessions, the set, and the slots as they were.
pub vserver_reload-lasting :
    (n : ℕ) (w : World) (u : Site)
    → flag_of u ≡ vs_reload
    → All (Ready u.ms.interfaces_list ((effective u).settings dev_internal)) u.ms.task_list
    → (v : Site) × (vserver_reload (suc (suc (suc n))) w u ≡ returned v) × (lasting v ≡ lasting u)
unfolding rh_task_cleanup rh_task_init
vserver_reload-lasting n w u e all =
    let (log, cleaned) = cleanup_tasks_log w u.ms.task_list u e in
    let (interfaces, tasks) = begun-shared log u in
    let ready : All (λ t. ReadySite t (begun log u)) u.ms.task_list =
      rw (interfaces, begun-setting log u e) all in
    let l = init_tasks-Lasts w u.ms.task_list (begun log u) refl ready in
    let run : vserver_reload (suc (suc (suc n))) w u ≡ returned (set_flag vs_done l.site) =
      vserver_reload_lem n w u ∙ (reloaded_reload w u e ∙ rw (cleaned, tasks, l.returns) refl) in
    (set_flag vs_done l.site, run, l.lasts ∙ begun-lasting log u)
