-- ===== src/ServiceClass.antt =====
-- src/rh-serviceclass.c and `struct rahunas_serviceclass_config` of src/rh-config.h: the list of
-- service classes and the search in it.
pub mod Registry
use rahunas.Prelude.{ℕ, List, [], ◌∷◌, Option, none, some, ◌==◌, if◌then◌else◌}
use rahunas.Text.{Bytes, strcmp_eq}

-- `start_addr` is kept in host order.
pub record ServiceClassConfig : Type 0 where
  pub serviceclass_name : Bytes
  pub serviceclass_id : ℕ
  pub init_flag : ℕ
  pub description : Option Bytes
  pub network : Option Bytes
  pub start_addr : ℕ
  pub network_size : ℕ
  pub fake_arpd : Option Bytes
  pub fake_arpd_iface : Option Bytes

pub record ServiceClass : Type 0 where
  pub serviceclass_config : ServiceClassConfig
  pub dummy_config : Option ServiceClassConfig

-- `serviceclass_exists`: the first class with the identifier or the name.
unfoldable pub serviceclass_exists : List ServiceClass → ℕ → Bytes → Option ServiceClass
serviceclass_exists [] id name = none
serviceclass_exists (sc ∷ scs) id name =
    if sc.serviceclass_config.serviceclass_id == id
    then some sc
    else if strcmp_eq sc.serviceclass_config.serviceclass_name name
    then some sc
    else serviceclass_exists scs id name
