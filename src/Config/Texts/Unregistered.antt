-- ===== src/Config/Texts/Unregistered.antt =====
-- The clean-ups of all virtual servers and of all service classes.
use mathlib.Core.Logic.{ite}
use mathlib.Core.Option.{some-injective}
use rahunas.Config.Keys.{Setting-discrete}
use rahunas.Config.Texts.{
  VServerTexts, ServiceClassTexts, freed_settings, nulled, cleanup_vserver_config,
  cleanup_serviceclass_config, unregister_vserver_texts, unregister_class_texts,
}
use rahunas.Prelude.{
  ℕ, zero, suc, get_elem?, All, ◌≡◌, refl, List, [], ◌∷◌, Option, none, some, map,
}
use rahunas.Server.{
  Setting, dev_external, dev_internal, vlan, vlan_raw_dev_external, vlan_raw_dev_internal, bridge,
  masquerade, ignore_mac, vserver_ip, vserver_fqdn, vserver_ports_allow, vserver_ports_intercept,
  clients, excluded, dns, ssh, proxy, proxy_host, proxy_port, bittorrent, bittorrent_allow,
  radius_host, radius_secret, radius_encrypt, radius_auth_port, radius_account_port, nas_identifier,
  nas_port, nas_login_title, nas_default_redirect, nas_default_language, nas_weblogin_template,
}
use rahunas.Utils.Log.{Memory}
use rahunas.Config.Texts.Freed.{Blocks, Texts, Frees, Cleanup, all_texts, Cleanup-Frees}

-- The place of each field among those that are freed.
freed_at : (s : Setting) → (i : ℕ) × (get_elem? freed_settings i ≡ some s)
freed_at dev_external = (0, refl)
freed_at dev_internal = (1, refl)
freed_at vlan = (2, refl)
freed_at vlan_raw_dev_external = (3, refl)
freed_at vlan_raw_dev_internal = (4, refl)
freed_at bridge = (5, refl)
freed_at masquerade = (6, refl)
freed_at ignore_mac = (7, refl)
freed_at vserver_ip = (8, refl)
freed_at vserver_fqdn = (9, refl)
freed_at vserver_ports_allow = (10, refl)
freed_at vserver_ports_intercept = (11, refl)
freed_at clients = (12, refl)
freed_at excluded = (13, refl)
freed_at dns = (14, refl)
freed_at ssh = (15, refl)
freed_at proxy = (16, refl)
freed_at proxy_host = (17, refl)
freed_at proxy_port = (18, refl)
freed_at bittorrent = (19, refl)
freed_at bittorrent_allow = (20, refl)
freed_at radius_host = (21, refl)
freed_at radius_secret = (22, refl)
freed_at radius_encrypt = (23, refl)
freed_at radius_auth_port = (24, refl)
freed_at radius_account_port = (25, refl)
freed_at nas_identifier = (26, refl)
freed_at nas_port = (27, refl)
freed_at nas_login_title = (28, refl)
freed_at nas_default_redirect = (29, refl)
freed_at nas_default_language = (30, refl)
freed_at nas_weblogin_template = (31, refl)

ite-none {ℓ} : {P : Type ℓ} (d : Dec P) (o : Option ℕ) → o ≡ none → ite d none o ≡ none
ite-none (yes p) o e = refl
ite-none (no n) o e = e

ite-yes {ℓ} : {P : Type ℓ} (d : Dec P) (o : Option ℕ) → P → ite d none o ≡ none
ite-yes (yes p) o q = refl
ite-yes (no n) o q = absurd (n q)

nulled_at :
    (ss : List Setting) (settings : Setting → Option ℕ) (t : Setting) (i : ℕ)
    → get_elem? ss i ≡ some t
    → nulled ss settings t ≡ none
unfolding nulled
nulled_at [] settings t i e = cc
nulled_at (s ∷ ss) settings t zero e =
    ite-yes (Setting-discrete s t) (nulled ss settings t) (some-injective _ _ e)
nulled_at (s ∷ ss) settings t (suc i) e =
    ite-none (Setting-discrete s t) (nulled ss settings t) (nulled_at ss settings t i e)

all_nulled : (settings : Setting → Option ℕ) (s : Setting) → nulled freed_settings settings s ≡ none
all_nulled settings s = nulled_at freed_settings settings s (freed_at s).0 (freed_at s).1

-- The texts of a virtual server, in the order in which they are freed.
abbrev pub texts_of : VServerTexts → List (Option ℕ)
texts_of c = c.vserver_name ∷ map c.settings freed_settings

map_null :
    (settings : Setting → Option ℕ) (ss : List Setting)
    → ((s : Setting) → settings s ≡ none)
    → All (λ p. p ≡ none) (map settings ss)
map_null settings [] null = tt
map_null settings (s ∷ ss) null = (null s, map_null settings ss null)

-- The texts of a virtual server, and of a service class, in the order in which they are freed.
abbrev pub vserver_texts : VServerTexts → List (Option ℕ)
vserver_texts c = c.vserver_name ∷ map c.settings freed_settings

abbrev pub class_texts : ServiceClassTexts → List (Option ℕ)
class_texts c =
    c.serviceclass_name ∷ c.description ∷ c.network ∷ c.fake_arpd ∷ c.fake_arpd_iface ∷ []

VServer-Cleanup : Cleanup VServerTexts cleanup_vserver_config vserver_texts
unfolding cleanup_vserver_config
VServer-Cleanup = record {
  cleaned = λ c. record { vserver_name = none; settings = nulled freed_settings c.settings };
  frees = λ c m. refl;
  null = λ c.
      (refl, map_null (nulled freed_settings c.settings) freed_settings (all_nulled c.settings));
}

ServiceClass-Cleanup : Cleanup ServiceClassTexts cleanup_serviceclass_config class_texts
unfolding cleanup_serviceclass_config
ServiceClass-Cleanup = record {
  cleaned = λ c. record {
    serviceclass_name = none;
    description = none;
    network = none;
    fake_arpd = none;
    fake_arpd_iface = none;
  };
  frees = λ c m. refl;
  null = λ c. (refl, (refl, (refl, (refl, (refl, tt)))));
}

-- Where every text of a virtual server is a live block that no other field of a virtual server has, and
-- so for the service classes, the clean-up of all virtual servers, which goes twice over each
-- configuration, returns: it frees each of their texts exactly once and no other block, and prints
-- nothing; and the clean-up of all service classes does so with theirs.
pub unregister_all-Frees :
    (cs : List VServerTexts) (ks : List ServiceClassTexts) (m : Memory)
    → Blocks m.live
    → Texts m.live (all_texts vserver_texts cs)
    → Texts m.live (all_texts class_texts ks)
    → Frees (all_texts vserver_texts cs) m (unregister_vserver_texts cs m)
      × Frees (all_texts class_texts ks) m (unregister_class_texts ks m)
unregister_all-Frees cs ks m u servers classes = (
  Cleanup-Frees cleanup_vserver_config vserver_texts VServer-Cleanup cs m u servers,
  Cleanup-Frees cleanup_serviceclass_config class_texts ServiceClass-Cleanup ks m u classes,
)
