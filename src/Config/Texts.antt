-- ===== src/Config/Texts.antt =====
-- The texts of configurations as blocks of the heap, and their freeing: the clean-up functions of
-- src/rh-config.c, and those of src/rh-server.c and src/rh-serviceclass.c that call them. A field is the
-- address of its text or null.
pub mod Freed
pub mod Unregistered
use mathlib.Core.Logic.{ite}
use rahunas.Config.Keys.{Setting-discrete}
use rahunas.Prelude.{ℕ, List, [], ◌∷◌, Option, none, some, map}
use rahunas.Server.Run.{Run, returned, ◌>>=◌}
use rahunas.Server.{
  Setting, dev_external, dev_internal, vlan, vlan_raw_dev_external, vlan_raw_dev_internal, bridge,
  masquerade, ignore_mac, vserver_ip, vserver_fqdn, vserver_ports_allow, vserver_ports_intercept,
  clients, excluded, dns, ssh, proxy, proxy_host, proxy_port, bittorrent, bittorrent_allow,
  radius_host, radius_secret, radius_encrypt, radius_auth_port, radius_account_port, nas_identifier,
  nas_port, nas_login_title, nas_default_redirect, nas_default_language, nas_weblogin_template,
}
use rahunas.Utils.Log.{Memory, rh_free}

-- The `char *` fields of the three configurations.
pub record VServerTexts : Type 0 where
  pub vserver_name : Option ℕ
  pub settings : Setting → Option ℕ

pub record ServiceClassTexts : Type 0 where
  pub serviceclass_name : Option ℕ
  pub description : Option ℕ
  pub network : Option ℕ
  pub fake_arpd : Option ℕ
  pub fake_arpd_iface : Option ℕ

pub record MainTexts : Type 0 where
  pub conf_dir : Option ℕ
  pub serviceclass_conf_dir : Option ℕ
  pub log_file : Option ℕ
  pub dhcp : Option ℕ

-- `rh_free` of one field after another.
unfoldable pub free_all : List (Option ℕ) → Memory → Run Memory
unfolding rh_free
free_all [] m = returned m
free_all (p ∷ ps) m = rh_free p m >>= free_all ps

-- The order in which `cleanup_vserver_config` frees the fields behind the name.
abbrev pub freed_settings : List Setting
freed_settings =
    dev_external ∷ dev_internal ∷ vlan ∷ vlan_raw_dev_external ∷ vlan_raw_dev_internal ∷ bridge
    ∷ masquerade ∷ ignore_mac ∷ vserver_ip ∷ vserver_fqdn ∷ vserver_ports_allow
    ∷ vserver_ports_intercept ∷ clients ∷ excluded ∷ dns ∷ ssh ∷ proxy ∷ proxy_host ∷ proxy_port
    ∷ bittorrent ∷ bittorrent_allow ∷ radius_host ∷ radius_secret ∷ radius_encrypt
    ∷ radius_auth_port ∷ radius_account_port ∷ nas_identifier ∷ nas_port ∷ nas_login_title
    ∷ nas_default_redirect ∷ nas_default_language ∷ nas_weblogin_template ∷ []

-- `rh_free` leaves null behind.
unfoldable pub nulled : List Setting → (Setting → Option ℕ) → Setting → Option ℕ
nulled [] settings t = settings t
nulled (s ∷ ss) settings t = ite (Setting-discrete s t) none (nulled ss settings t)

unfoldable pub cleanup_vserver_config : VServerTexts → Memory → Run (VServerTexts × Memory)
unfolding free_all nulled
cleanup_vserver_config c m = free_all (c.vserver_name ∷ map c.settings freed_settings) m >>= λ left.
    returned (record { vserver_name = none; settings = nulled freed_settings c.settings }, left)

unfoldable pub cleanup_serviceclass_config :
    ServiceClassTexts → Memory → Run (ServiceClassTexts × Memory)
unfolding free_all
cleanup_serviceclass_config c m =
    free_all
      (c.serviceclass_name ∷ c.description ∷ c.network ∷ c.fake_arpd ∷ c.fake_arpd_iface ∷ []) m
    >>= λ left. returned (
      record {
        serviceclass_name = none;
        description = none;
        network = none;
        fake_arpd = none;
        fake_arpd_iface = none;
      },
      left,
    )

unfoldable pub cleanup_mainserver_config : MainTexts → Memory → Run (MainTexts × Memory)
unfolding free_all
cleanup_mainserver_config c m =
    free_all (c.conf_dir ∷ c.serviceclass_conf_dir ∷ c.log_file ∷ c.dhcp ∷ []) m >>= λ left.
    returned
      (record { conf_dir = none; serviceclass_conf_dir = none; log_file = none; dhcp = none }, left)

-- A configuration of each server or class of a list is cleaned up, by the clean-up function of its
-- server or class, and then cleaned up again.
unfoldable pub unregister_all {ℓ} :
    {C : Type ℓ} → (C → Memory → Run (C × Memory)) → List C → Memory → Run Memory
unregister_all cleanup [] m = returned m
unregister_all cleanup (c ∷ cs) m = do
  cleaned ← cleanup c m
  again ← cleanup cleaned.0 cleaned.1
  unregister_all cleanup cs again.1

-- The texts in `unregister_vserver_all`, with `vserver_cleanup`, and in `unregister_serviceclass_all`,
-- with `serviceclass_cleanup`.
abbrev pub unregister_vserver_texts : List VServerTexts → Memory → Run Memory
unregister_vserver_texts = unregister_all cleanup_vserver_config

abbrev pub unregister_class_texts : List ServiceClassTexts → Memory → Run Memory
unregister_class_texts = unregister_all cleanup_serviceclass_config
