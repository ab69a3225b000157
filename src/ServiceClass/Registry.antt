-- ===== src/ServiceClass/Registry.antt =====
-- src/rh-serviceclass.c: the list of service classes as it is registered, reloaded and cleaned up
-- when the daemon reads its configuration again. What `get_config` reads from a file is an argument,
-- `none` where the file cannot be opened or read; it has a name, since `strcmp` takes no null pointer.
-- Freed configurations are dropped, and log messages are left out.
pub mod Reload
pub mod Cleanup
use rahunas.Prelude.{
  ℕ, zero, suc, List, [], ◌∷◌, ◌++◌, Option, none, some, ◌==◌, if◌then◌else◌, length, ◌>>=◌, ◌||◌,
}
use rahunas.ServiceClass.{ServiceClassConfig, ServiceClass, serviceclass_exists}
use rahunas.Session.{minus_one}
use rahunas.Text.{Bytes, strcmp_eq, strncmp_eq}

-- `SC_NONE` to `SC_DONE`; the `VS_` flags that `register_serviceclass` uses have the same values.
abbrev pub sc_none : ℕ
sc_none = 0

abbrev pub sc_init : ℕ
sc_init = 1

abbrev pub sc_reload : ℕ
sc_reload = 2

abbrev pub sc_reset : ℕ
sc_reset = 3

abbrev pub sc_done : ℕ
sc_done = 4

abbrev pub flag : ServiceClass → ℕ
flag sc = sc.serviceclass_config.init_flag

abbrev pub id_of : ServiceClass → ℕ
id_of sc = sc.serviceclass_config.serviceclass_id

unfoldable pub set_flag : ℕ → ServiceClass → ServiceClass
set_flag f sc = record sc { serviceclass_config = record c { init_flag = f } }
  where
    c : ServiceClassConfig
    c = sc.serviceclass_config

-- The class that the configuration is for keeps it until the reload.
unfoldable pub offer : ServiceClassConfig → ServiceClass → ServiceClass
unfolding set_flag
offer config sc =
    let kept = record sc { dummy_config = some config } in
    if strncmp_eq config.serviceclass_name sc.serviceclass_config.serviceclass_name 32
    then set_flag sc_reload kept
    else set_flag sc_reset kept

-- A write through the pointer that `serviceclass_exists` returns.
unfoldable pub modify_existing :
    ℕ → Bytes → (ServiceClass → ServiceClass) → List ServiceClass → List ServiceClass
modify_existing id name f [] = []
modify_existing id name f (sc ∷ scs) =
    if sc.serviceclass_config.serviceclass_id == id
    then f sc ∷ scs
    else if strcmp_eq sc.serviceclass_config.serviceclass_name name
    then f sc ∷ scs
    else sc ∷ modify_existing id name f scs

unfoldable pub register_serviceclass :
    Option ServiceClassConfig → List ServiceClass → List ServiceClass × ℕ
unfolding offer
register_serviceclass none scs = (scs, minus_one)
register_serviceclass (some config) scs =
    elim (serviceclass_exists scs config.serviceclass_id config.serviceclass_name) [
      | none ↦ (
        scs
            ++ ((record {
              serviceclass_config = record config { init_flag = sc_init };
              dummy_config = none;
            })
                ∷ []),
        0,
      )
      | some old ↦
          (modify_existing config.serviceclass_id config.serviceclass_name (offer config) scs, 1)
    ]

unfoldable pub unregister_serviceclass : ℕ → List ServiceClass → List ServiceClass
unregister_serviceclass id [] = []
unregister_serviceclass id (sc ∷ scs) =
    if sc.serviceclass_config.serviceclass_id == id
    then scs
    else sc ∷ unregister_serviceclass id scs

-- The configuration that waits, where there is one.
unfoldable pub take_dummy : ServiceClass → ServiceClass
take_dummy sc = elim sc.dummy_config [
  | none ↦ sc
  | some config ↦ record sc { serviceclass_config = config }
]

-- One round of the loop of `serviceclass_reload`. A reload keeps the pointer to the configuration
-- that it has taken, a reset frees it.
unfoldable pub reload_round : ServiceClass → ServiceClass
unfolding set_flag take_dummy
reload_round sc =
    if flag sc == sc_init
    then set_flag sc_done sc
    else if flag sc == sc_reload
    then set_flag sc_done (take_dummy sc)
    else if flag sc == sc_reset
    then set_flag sc_init (record t { dummy_config = none })
    else set_flag sc_done sc
  where
    t : ServiceClass
    t = take_dummy sc

unfoldable pub reload_loop : ℕ → ServiceClass → Option ServiceClass
reload_loop zero sc = none
reload_loop (suc fuel) sc =
    let more = reload_loop fuel (reload_round sc) in if flag sc == sc_done then some sc else more

-- A class that no file was read for is still at `SC_DONE`.
unfoldable pub serviceclass_reload : ℕ → ServiceClass → Option ServiceClass
serviceclass_reload fuel sc =
    if flag sc == sc_done then some (set_flag sc_none sc) else reload_loop fuel sc

-- The walk of `serviceclass_unused_cleanup` from the head of the list.
unfoldable pub first_unused : List ServiceClass → Option ServiceClass
first_unused [] = none
first_unused (sc ∷ scs) = if flag sc == sc_none then some sc else first_unused scs

-- After a removal the walk begins anew.
unfoldable pub cleanup_loop : ℕ → List ServiceClass → Option (List ServiceClass)
cleanup_loop zero scs = none
cleanup_loop (suc fuel) scs = elim (first_unused scs) [
  | none ↦ some scs
  | some sc ↦ cleanup_loop fuel (unregister_serviceclass (id_of sc) scs)
]

-- There are at most as many removals as classes.
unfoldable pub serviceclass_unused_cleanup : List ServiceClass → Option (List ServiceClass)
unfolding cleanup_loop
serviceclass_unused_cleanup scs = cleanup_loop (suc (length scs)) scs

-- The search by number alone, which nothing calls.
unfoldable pub serviceclass_get_by_id : List ServiceClass → ℕ → Option ServiceClass
serviceclass_get_by_id [] search_id = none
serviceclass_get_by_id (sc ∷ scs) search_id =
    if id_of sc == search_id then some sc else serviceclass_get_by_id scs search_id

-- Node after node is deleted.
unfoldable pub unregister_serviceclass_all : List ServiceClass → List ServiceClass
unregister_serviceclass_all [] = []
unregister_serviceclass_all (sc ∷ scs) = unregister_serviceclass_all scs

-- What `serviceclass_do_init` prints is left out.
unfoldable pub serviceclass_init : ServiceClass → ServiceClass
unfolding set_flag
serviceclass_init sc = set_flag sc_done sc
