-- ===== src/Server/Reload.antt =====
-- `vserver_reload`, `vserver_init_done`, `vserver_unused_cleanup` and `walk_through_vserver` of
-- src/rh-server.c. Freed configurations are dropped, and log messages are left out.
pub mod Ends
pub mod Effective
pub mod Unused
pub mod Sessions
use rahunas.Prelude.{
  ℕ, zero, suc, List, [], ◌∷◌, ◌++◌, Option, none, some, ◌==◌, if◌then◌else◌, length,
}
use rahunas.Server.Registry.{id_of, with_flag, unregister_vserver}
use rahunas.Server.Run.{Run, returned, unended, ◌>>=◌}
use rahunas.Server.Stopping.{World}
use rahunas.Server.Tasks.{rh_task_init, rh_task_cleanup}
use rahunas.Server.{
  Server, Site, Shared, VServerConfig, vs_none, vs_init, vs_reload, vs_reset, vs_done, flag_of,
  config_of,
}

abbrev pub with_config : VServerConfig → Site → Site
with_config c u = record u { vs = record v { vserver_config = c } }
  where
    v : Server
    v = u.vs

abbrev pub set_flag : ℕ → Site → Site
set_flag flag u = with_config (with_flag flag (config_of u)) u

unfoldable pub vserver_init_done : Site → Site
vserver_init_done u = set_flag vs_done u

-- The configuration that waits, where there is one.
unfoldable pub take_dummy : Site → Site
take_dummy u = elim u.vs.dummy_config [ none ↦ u | some config ↦ with_config config u ]

unfoldable pub drop_dummy : Site → Site
drop_dummy u = record u { vs = record v { dummy_config = none } }
  where
    v : Server
    v = u.vs

-- One round of the loop. A reload keeps the pointer to the configuration that it has taken, a reset
-- frees it.
unfoldable pub reload_round : World → Site → Run Site
unfolding take_dummy drop_dummy
reload_round w u =
    if flag_of u == vs_init
    then (rh_task_init w u >>= λ v. returned (set_flag vs_done v))
    else if flag_of u == vs_reload
    then (do
      t ← rh_task_cleanup w u
      v ← rh_task_init w (set_flag vs_reload (take_dummy t))
      returned (set_flag vs_done v))
    else if flag_of u == vs_reset
    then (rh_task_cleanup w u >>= λ t. returned (set_flag vs_init (drop_dummy (take_dummy t))))
    else returned (set_flag vs_done u)

unfoldable pub reload_loop : ℕ → World → Site → Run Site
reload_loop zero w u = unended
reload_loop (suc fuel) w u =
    if flag_of u == vs_done then returned u else (reload_round w u >>= λ v. reload_loop fuel w v)

-- A server that no file was read for is still at `VS_DONE`.
unfoldable pub vserver_reload : ℕ → World → Site → Run Site
vserver_reload fuel w u =
    if flag_of u == vs_done then returned (set_flag vs_none u) else reload_loop fuel w u

-- The walk over the servers, each with what all share.
unfoldable pub walk_through_vserver :
    (Site → Run Site) → Shared → List Server → Run (Shared × List Server)
walk_through_vserver callback m [] = returned (m, [])
walk_through_vserver callback m (v ∷ vs) = do
  u ← callback (record { vs = v; ms = m })
  rest ← walk_through_vserver callback u.ms vs
  returned (rest.0, u.vs ∷ rest.1)

-- The walk of `vserver_unused_cleanup` from the head of the list: the servers in front of the first
-- unused one, this one, and those behind it.
unfoldable pub first_unused : List Server → Option (List Server × Server × List Server)
first_unused [] = none
first_unused (v ∷ vs) =
    if v.vserver_config.init_flag == vs_none
    then some ([], v, vs)
    else elim (first_unused vs) [ none ↦ none | some found ↦ some (v ∷ found.0, found.1, found.2) ]

-- After a removal the walk begins anew.
unfoldable pub cleanup_loop : ℕ → World → Shared → List Server → Run (Shared × List Server)
cleanup_loop zero w m vs = unended
cleanup_loop (suc fuel) w m vs = elim (first_unused vs) [
  | none ↦ returned (m, vs)
  | some found ↦ rh_task_cleanup w (record { vs = found.1; ms = m }) >>= λ u.
      cleanup_loop fuel w u.ms (unregister_vserver (id_of u.vs) (found.0 ++ (u.vs ∷ found.2)))
]

-- There are at most as many removals as servers.
unfoldable pub vserver_unused_cleanup : World → Shared → List Server → Run (Shared × List Server)
unfolding cleanup_loop
vserver_unused_cleanup w m vs = cleanup_loop (suc (length vs)) w m vs
