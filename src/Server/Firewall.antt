-- ===== src/Server/Firewall.antt =====
-- src/rh-task-iptables.c: the task that has the rules of a virtual server set up and taken down by the
-- firewall wrapper. The wrapper's own path, which is the first argument of every call, is left out.
use rahunas.Host.{Host, firewall, ChildReply, no_pipe, no_fork, exited, killed}
use rahunas.Prelude.{ℕ, List, [], ◌∷◌, ◌++◌, Option, ◌==◌, if◌then◌else◌}
use rahunas.Server.{
  VServerConfig, Site, dev_external, dev_internal, bridge, masquerade, ignore_mac, vserver_ip,
  clients, excluded, dns, ssh, proxy, proxy_host, proxy_port, bittorrent, bittorrent_allow,
  vserver_ports_allow, vserver_ports_intercept, vs_reload, ask_site, config_of, log_of,
}
use rahunas.Session.Dbset.{show_s}
use rahunas.Session.{minus_one}
use rahunas.Text.{Bytes, codes, show_d}

-- One entry of the environment, a name with a text that may be null.
abbrev pub entry : Bytes → Option Bytes → Bytes
entry name value = name ++ show_s value

-- The array `env` up to its null pointer.
unfoldable pub environment : VServerConfig → List Bytes
environment c =
    codes "ENV_OVERRIDE=yes"
    ∷ (codes "SETNAME=" ++ c.vserver_name)
    ∷ (codes "VSERVER_ID=" ++ show_d c.vserver_id)
    ∷ entry (codes "DEV_EXTERNAL=") (c.settings dev_external)
    ∷ entry (codes "DEV_INTERNAL=") (c.settings dev_internal)
    ∷ entry (codes "BRIDGE=") (c.settings bridge)
    ∷ entry (codes "MASQUERADE=") (c.settings masquerade)
    ∷ entry (codes "IGNORE_MAC=") (c.settings ignore_mac)
    ∷ entry (codes "VSERVER_IP=") (c.settings vserver_ip)
    ∷ entry (codes "CLIENTS=") (c.settings clients)
    ∷ entry (codes "EXCLUDED=") (c.settings excluded)
    ∷ entry (codes "DNS=") (c.settings dns)
    ∷ entry (codes "SSH=") (c.settings ssh)
    ∷ entry (codes "PROXY=") (c.settings proxy)
    ∷ entry (codes "PROXY_HOST=") (c.settings proxy_host)
    ∷ entry (codes "PROXY_PORT=") (c.settings proxy_port)
    ∷ entry (codes "BITTORRENT=") (c.settings bittorrent)
    ∷ entry (codes "BITTORRENT_ALLOW=") (c.settings bittorrent_allow)
    ∷ entry (codes "VSERVER_PORTS_ALLOW=") (c.settings vserver_ports_allow)
    ∷ entry (codes "VSERVER_PORTS_INTERCEPT=") (c.settings vserver_ports_intercept)
    ∷ (if c.init_flag == vs_reload then codes "KEEP_SET=yes" else codes "KEEP_SET=no")
    ∷ []

-- What the wrapper prints is not read.
unfoldable pub iptables_result : ChildReply → ℕ
iptables_result no_pipe = minus_one
iptables_result no_fork = minus_one
iptables_result (exited status buffer) = status
iptables_result (killed buffer) = minus_one

unfoldable pub iptables_exec : Host → List Bytes → Site → Site × ℕ
unfolding environment iptables_result
iptables_exec h args u =
    let asked = ask_site (firewall args (environment (config_of u))) u in
    (asked, iptables_result (h.child (log_of asked)))

unfoldable pub iptables_start : Host → Site → Site × ℕ
unfolding iptables_exec
iptables_start h u = iptables_exec h (codes "start-config" ∷ []) u

unfoldable pub iptables_stop : Host → Site → Site × ℕ
unfolding iptables_exec
iptables_stop h u = iptables_exec h (codes "stop-config" ∷ []) u
