-- ===== src/Config/Keys/Own.antt =====
-- The keys of a virtual server, by the names of the fields.
use mathlib.Core.Logic.{ite}
use rahunas.Config.Keys.{
  ServerSettings, ServerTarget, vserver_id, idle_timeout, text, Setting-discrete,
}
use rahunas.Prelude.{Bool, true, false, some}
use rahunas.Server.{
  dev_external, dev_internal, vlan, vlan_raw_dev_external, vlan_raw_dev_internal, bridge,
  masquerade, ignore_mac, vserver_ip, vserver_fqdn, vserver_ports_allow, vserver_ports_intercept,
  clients, excluded, dns, ssh, proxy, proxy_host, proxy_port, bittorrent, bittorrent_allow,
  radius_host, radius_secret, radius_encrypt, radius_auth_port, radius_account_port, nas_identifier,
  nas_port, nas_login_title, nas_default_redirect, nas_default_language, nas_weblogin_template,
}
use rahunas.Text.{Bytes, codes, atoi}

-- The names of the fields.
unfoldable pub key_of : ServerTarget → Bytes
key_of vserver_id = codes "vserver_id"
key_of idle_timeout = codes "idle_timeout"
key_of (text dev_external) = codes "dev_external"
key_of (text dev_internal) = codes "dev_internal"
key_of (text vlan) = codes "vlan"
key_of (text vlan_raw_dev_external) = codes "vlan_raw_dev_external"
key_of (text vlan_raw_dev_internal) = codes "vlan_raw_dev_internal"
key_of (text bridge) = codes "bridge"
key_of (text masquerade) = codes "masquerade"
key_of (text ignore_mac) = codes "ignore_mac"
key_of (text vserver_ip) = codes "vserver_ip"
key_of (text vserver_fqdn) = codes "vserver_fqdn"
key_of (text vserver_ports_allow) = codes "vserver_ports_allow"
key_of (text vserver_ports_intercept) = codes "vserver_ports_intercept"
key_of (text clients) = codes "clients"
key_of (text excluded) = codes "excluded"
key_of (text dns) = codes "dns"
key_of (text ssh) = codes "ssh"
key_of (text proxy) = codes "proxy"
key_of (text proxy_host) = codes "proxy_host"
key_of (text proxy_port) = codes "proxy_port"
key_of (text bittorrent) = codes "bittorrent"
key_of (text bittorrent_allow) = codes "bittorrent_allow"
key_of (text radius_host) = codes "radius_host"
key_of (text radius_secret) = codes "radius_secret"
key_of (text radius_encrypt) = codes "radius_encrypt"
key_of (text radius_auth_port) = codes "radius_auth_port"
key_of (text radius_account_port) = codes "radius_account_port"
key_of (text nas_identifier) = codes "nas_identifier"
key_of (text nas_port) = codes "nas_port"
key_of (text nas_login_title) = codes "nas_login_title"
key_of (text nas_default_redirect) = codes "nas_default_redirect"
key_of (text nas_default_language) = codes "nas_default_language"
key_of (text nas_weblogin_template) = codes "nas_weblogin_template"

-- Whether the test for another key comes first.
abbrev pub shadowed : ServerTarget → Bool
shadowed (text vlan_raw_dev_external) = true
shadowed (text vlan_raw_dev_internal) = true
shadowed _ = false

-- One field that gets a value: a number as `atoi` reads it, or the text itself.
unfoldable pub with_field : ServerTarget → Bytes → ServerSettings → ServerSettings
with_field vserver_id value c = record c { vserver_id = atoi value }
with_field idle_timeout value c = record c { idle_timeout = atoi value }
with_field (text s) value c = record c {
  settings = λ t. ite (Setting-discrete s t) (some value) (c.settings t);
}
