-- ===== src/Tests/Settings.antt =====
-- Keys of a configuration file.
use rahunas.Config.Keys.Shadowed.{InServer, raw_devices, get_config-raw_devices}
use rahunas.Config.Keys.{ServerSettings, idle_timeout, prefix}
use rahunas.Config.{Overlap, split_key, rh_vserver, vserver, config_type, get_config}
use rahunas.Prelude.{true, ◌≡◌, refl, [], ◌∷◌, none, some}
use rahunas.Server.Run.{returned}
use rahunas.Tests.Inputs.{toy_aton}
use rahunas.Text.{codes, strncmp_eq}

abbrev empty_settings : ServerSettings
empty_settings = record {
  vserver_name = none;
  vserver_id = 99;
  idle_timeout = 600;
  settings = λ s. none;
}

of_server : config_type (codes "hall") ≡ vserver
unfolding config_type prefix strncmp_eq
of_server = refl

-- A layout of the union by which no field of a server's configuration is overlaid.
abbrev apart : Overlap
apart kind main_key sub_key value config = returned config

raw_key : InServer (codes "hall.vlan_raw_dev_external")
unfolding split_key
raw_key = record {
  name = codes "hall";
  sub_key = codes "vlan_raw_dev_external";
  parts = refl;
  kind = of_server;
}

get_config-raw_devices_example :
    (d : ServerSettings) × (get_config apart toy_aton
        (some ((codes "hall.vlan_raw_dev_external", codes "eth7") ∷ []))
        (rh_vserver empty_settings)
      ≡ returned (rh_vserver d, true))
    × (raw_devices d ≡ raw_devices empty_settings)
get_config-raw_devices_example =
    get_config-raw_devices apart toy_aton ((codes "hall.vlan_raw_dev_external", codes "eth7") ∷ [])
      empty_settings (raw_key, tt)
