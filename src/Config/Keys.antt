-- ===== src/Config/Keys.antt =====
-- The keys of the sections for the daemon and for a virtual server: the branches `MAIN` and `VSERVER` of
-- `rahunas_visitor`. A key is compared up to the length of the name that it is tested for, so that it
-- may go on behind it, and the first test that it passes decides.
pub mod Own
pub mod Shadowed
use rahunas.Prelude.{ℕ, Bool, List, [], ◌∷◌, Option, none, some, if◌then◌else◌, length}
use rahunas.Server.{
  Setting, dev_external, dev_internal, vlan, vlan_raw_dev_external, vlan_raw_dev_internal, bridge,
  masquerade, ignore_mac, vserver_ip, vserver_fqdn, vserver_ports_allow, vserver_ports_intercept,
  clients, excluded, dns, ssh, proxy, proxy_host, proxy_port, bittorrent, bittorrent_allow,
  radius_host, radius_secret, radius_encrypt, radius_auth_port, radius_account_port, nas_identifier,
  nas_port, nas_login_title, nas_default_redirect, nas_default_language, nas_weblogin_template,
}
use rahunas.Text.{Bytes, codes, strncmp_eq, atoi}
use mathlib.Core.Logic.{ite}

-- `strncmp(s, name, strlen(name)) == 0`.
unfoldable pub prefix : Bytes → Bytes → Bool
prefix name s = strncmp_eq s name (length name)

-- The first of a list of tests that the key passes.
unfoldable pub first_match {ℓ} : {A : Type ℓ} → Bytes → List (Bytes × A) → Option A
unfolding prefix
first_match key [] = none
first_match key (t ∷ ts) =
    let rest = first_match key ts in if prefix t.0 key then some t.1 else rest

-- `struct rahunas_main_config`.
pub record MainConfig : Type 0 where
  pub conf_dir : Option Bytes
  pub serviceclass_conf_dir : Option Bytes
  pub log_file : Option Bytes
  pub dhcp : Option Bytes
  pub serviceclass : ℕ
  pub bandwidth_shape : ℕ
  pub bittorrent_download_max : ℕ
  pub bittorrent_upload_max : ℕ
  pub polling_interval : ℕ

pub data MainTarget : Type 0 where
  conf_dir serviceclass_conf_dir log_file dhcp nothing serviceclass bandwidth_shape : MainTarget
  bittorrent_download_max bittorrent_upload_max polling_interval : MainTarget

unfoldable pub main_target : Bytes → Option MainTarget
unfolding first_match
main_target sub_key = first_match sub_key (
    (codes "conf_dir", conf_dir)
    ∷ (codes "serviceclass_conf_dir", serviceclass_conf_dir)
    ∷ (codes "log_file", log_file)
    ∷ (codes "dhcp", dhcp)
    ∷ (codes "serviceclass_attribute", nothing)
    ∷ (codes "serviceclass", serviceclass)
    ∷ (codes "bandwidth_shape", bandwidth_shape)
    ∷ (codes "bittorrent_download_max", bittorrent_download_max)
    ∷ (codes "bittorrent_upload_max", bittorrent_upload_max)
    ∷ (codes "polling_interval", polling_interval)
    ∷ [])

-- `strncmp(value, "yes", 3) == 0 ? 1 : 0`.
unfoldable pub yes : Bytes → ℕ
unfolding prefix
yes value = if prefix (codes "yes") value then 1 else 0

unfoldable pub write_main : Option MainTarget → Bytes → MainConfig → MainConfig
unfolding yes
write_main none value c = c
write_main (some conf_dir) value c = record c { conf_dir = some value }
write_main (some serviceclass_conf_dir) value c = record c { serviceclass_conf_dir = some value }
write_main (some log_file) value c = record c { log_file = some value }
write_main (some dhcp) value c = record c { dhcp = some value }
write_main (some nothing) value c = c
write_main (some serviceclass) value c = record c { serviceclass = yes value }
write_main (some bandwidth_shape) value c = record c { bandwidth_shape = yes value }
write_main (some bittorrent_download_max) value c = record c {
  bittorrent_download_max = atoi value;
}
write_main (some bittorrent_upload_max) value c = record c { bittorrent_upload_max = atoi value }
write_main (some polling_interval) value c = record c { polling_interval = atoi value }

-- `struct rahunas_vserver_config`, as a file fills it.
pub record ServerSettings : Type 0 where
  pub vserver_name : Option Bytes
  pub vserver_id : ℕ
  pub idle_timeout : ℕ
  pub settings : Setting → Option Bytes

pub data ServerTarget : Type 0 where
  vserver_id idle_timeout : ServerTarget
  text : Setting → ServerTarget

-- The tests behind those for the VLAN, in their order; `proxy_host` and `proxy_port` are tested inside
-- `proxy`, and `bittorrent_allow` inside `bittorrent`.
abbrev pub later_keys : List (Bytes × ServerTarget)
later_keys =
    (codes "bridge", text bridge)
    ∷ (codes "masquerade", text masquerade)
    ∷ (codes "ignore_mac", text ignore_mac)
    ∷ (codes "vserver_ip", text vserver_ip)
    ∷ (codes "vserver_fqdn", text vserver_fqdn)
    ∷ (codes "vserver_ports_allow", text vserver_ports_allow)
    ∷ (codes "vserver_ports_intercept", text vserver_ports_intercept)
    ∷ (codes "clients", text clients)
    ∷ (codes "excluded", text excluded)
    ∷ (codes "idle_timeout", idle_timeout)
    ∷ (codes "dns", text dns)
    ∷ (codes "ssh", text ssh)
    ∷ (codes "proxy_host", text proxy_host)
    ∷ (codes "proxy_port", text proxy_port)
    ∷ (codes "proxy", text proxy)
    ∷ (codes "bittorrent_allow", text bittorrent_allow)
    ∷ (codes "bittorrent", text bittorrent)
    ∷ (codes "radius_host", text radius_host)
    ∷ (codes "radius_secret", text radius_secret)
    ∷ (codes "radius_encrypt", text radius_encrypt)
    ∷ (codes "radius_auth_port", text radius_auth_port)
    ∷ (codes "radius_account_port", text radius_account_port)
    ∷ (codes "nas_identifier", text nas_identifier)
    ∷ (codes "nas_port", text nas_port)
    ∷ (codes "nas_login_title", text nas_login_title)
    ∷ (codes "nas_default_redirect", text nas_default_redirect)
    ∷ (codes "nas_default_language", text nas_default_language)
    ∷ (codes "nas_weblogin_template", text nas_weblogin_template)
    ∷ []

unfoldable pub server_target : Bytes → Option ServerTarget
unfolding first_match
server_target sub_key = first_match sub_key (
    (codes "vserver_id", vserver_id)
    ∷ (codes "dev_external", text dev_external)
    ∷ (codes "dev_internal", text dev_internal)
    ∷ (codes "vlan", text vlan)
    ∷ (codes "vlan_raw_dev_external", text vlan_raw_dev_external)
    ∷ (codes "vlan_raw_dev_internal", text vlan_raw_dev_internal)
    ∷ later_keys)

pub Setting-discrete : Discrete Setting
Setting-discrete = hlevel

unfoldable pub set_text : Setting → Bytes → (Setting → Option Bytes) → Setting → Option Bytes
unfolding Setting-discrete
set_text s value settings t = ite (Setting-discrete s t) (some value) (settings t)

unfoldable pub write_server : Option ServerTarget → Bytes → ServerSettings → ServerSettings
unfolding set_text
write_server none value c = c
write_server (some vserver_id) value c = record c { vserver_id = atoi value }
write_server (some idle_timeout) value c = record c { idle_timeout = atoi value }
write_server (some (text s)) value c = record c { settings = set_text s value c.settings }
