-- ===== src/Config.antt =====
-- `rahunas_visitor` and `get_config` of src/rh-config.c: how the settings of a configuration file get
-- into `union rahunas_config`. The library that reads the file is an argument: the keys with their
-- values, in order, or nothing where the file cannot be parsed. Freed texts are dropped; memory does
-- not run out.
pub mod Keys
pub mod Texts
pub mod Class
use rahunas.Config.Keys.{
  MainConfig, ServerSettings, main_target, server_target, write_main, write_server, prefix,
}
use rahunas.Config.Class.{ClassSettings, visit_class}
use rahunas.Prelude.{ℕ, Bool, List, [], ◌∷◌, Option, none, some, ◌==◌, if◌then◌else◌}
use rahunas.Server.Run.{Run, returned, faults, ◌>>=◌}
use rahunas.Text.{Bytes, codes}

-- The member of the union that the caller has set up.
pub data RahunasConfig : Type 0 where
  rh_main : MainConfig → RahunasConfig
  rh_vserver : ServerSettings → RahunasConfig
  rh_serviceclass : ClassSettings → RahunasConfig

-- The parts in front of and behind the first dot.
unfoldable pub split_key : Bytes → Option (Bytes × Bytes)
split_key [] = none
split_key (c ∷ cs) =
    let rest = split_key cs in
    if c == b'.'
    then some ([], cs)
    else elim rest [ none ↦ none | some parts ↦ some (c ∷ parts.0, parts.1) ]

pub data ConfigType : Type 0 where
  main serviceclass vserver : ConfigType

unfoldable pub config_type : Bytes → ConfigType
config_type main_key =
    if prefix (codes "main") main_key
    then main
    else if prefix (codes "service_class") main_key
    then serviceclass
    else vserver

-- A server without a name takes that of the section.
unfoldable pub name_server : Bytes → ServerSettings → ServerSettings
name_server main_key s = elim s.vserver_name [
  | none ↦ record s { vserver_name = some main_key }
  | some name ↦ s
]

-- What a section of another kind than the caller's makes of the caller's member of the union, by the
-- section's kind, its name, the key and the value: it writes, and frees, at the addresses of the other
-- member's fields, and which of the caller's fields lie there is the compiler's layout, a parameter.
abbrev pub Overlap : Type 0
Overlap = ConfigType → Bytes → Bytes → Bytes → RahunasConfig → Run RahunasConfig

unfoldable pub visit_as :
    Overlap
    → (Bytes → Option ℕ)
    → ConfigType
    → Bytes
    → Bytes
    → Bytes
    → RahunasConfig
    → Run RahunasConfig
unfolding name_server
visit_as overlap inet_aton main main_key sub_key value (rh_main c) =
    returned (rh_main (write_main (main_target sub_key) value c))
visit_as overlap inet_aton vserver main_key sub_key value (rh_vserver c) =
    returned (rh_vserver (write_server (server_target sub_key) value (name_server main_key c)))
visit_as overlap inet_aton serviceclass main_key sub_key value (rh_serviceclass c) =
    visit_class inet_aton sub_key value c >>= λ d. returned (rh_serviceclass d)
visit_as overlap inet_aton kind main_key sub_key value config =
    overlap kind main_key sub_key value config

-- A key without a dot leaves a null pointer to write the terminator through.
unfoldable pub rahunas_visitor :
    Overlap → (Bytes → Option ℕ) → Bytes → Bytes → RahunasConfig → Run RahunasConfig
unfolding split_key visit_as config_type
rahunas_visitor overlap inet_aton key value config = elim (split_key key) [
  | none ↦ faults
  | some parts ↦ visit_as overlap inet_aton (config_type parts.0) parts.0 parts.1 value config
]

unfoldable pub lcfg_accept :
    Overlap → (Bytes → Option ℕ) → List (Bytes × Bytes) → RahunasConfig → Run RahunasConfig
unfolding rahunas_visitor
lcfg_accept overlap inet_aton [] config = returned config
lcfg_accept overlap inet_aton (v ∷ vs) config =
    rahunas_visitor overlap inet_aton v.0 v.1 config >>= λ next.
    lcfg_accept overlap inet_aton vs next

-- The configuration as it is left, and what is returned: 0 is `true` here.
unfoldable pub get_config :
    Overlap
    → (Bytes → Option ℕ)
    → Option (List (Bytes × Bytes))
    → RahunasConfig
    → Run (RahunasConfig × Bool)
unfolding lcfg_accept
get_config overlap inet_aton none config = returned (config, Bool.false)
get_config overlap inet_aton (some visits) config =
    lcfg_accept overlap inet_aton visits config >>= λ read. returned (read, Bool.true)
