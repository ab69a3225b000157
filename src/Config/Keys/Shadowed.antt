-- ===== src/Config/Keys/Shadowed.antt =====
-- No key of a virtual server sets the raw devices of a VLAN.
use rahunas.Config.Keys.{
  ServerSettings, ServerTarget, vserver_id, idle_timeout, text, server_target, first_match, prefix,
  write_server, set_text, later_keys, Setting-discrete,
}
use rahunas.Config.{
  Overlap, rh_vserver, vserver, config_type, split_key, name_server, visit_as, rahunas_visitor,
  lcfg_accept, get_config,
}
use rahunas.Prelude.{
  ℕ, ◌≡◌, refl, ◌≢◌, ◌∙◌, Bool, true, false, not, ◌&&◌, List, [], ◌∷◌, ◌++◌, Option, none, some,
  arith, All, OnSome, if-elim, Bool-cases, inl, inr,
}
use rahunas.Server.Run.{returned}
use mathlib.Core.Logic.{ite}
use rahunas.Server.{Setting, vlan, vlan_raw_dev_external, vlan_raw_dev_internal}
use rahunas.Text.{Bytes, codes, strncmp_eq}

abbrev is_raw : ServerTarget → Bool
is_raw (text vlan_raw_dev_external) = true
is_raw (text vlan_raw_dev_internal) = true
is_raw _ = false

abbrev Clear : ServerTarget → Type 0
Clear t = is_raw t ≡ false

-- A key that goes on as a longer name does passes the test for its beginning.
prefix-shorter : (p q s : Bytes) → prefix (p ++ q) s ≡ true → prefix p s ≡ true
unfolding prefix strncmp_eq
prefix-shorter [] q s e = refl
prefix-shorter (c ∷ p) q [] e = cc
prefix-shorter (c ∷ p) q (d ∷ s) e = ground (arith, prefix-shorter p q s)

not_longer : (p q s : Bytes) → prefix p s ≡ false → prefix (p ++ q) s ≡ false
not_longer p q s e = elim (Bool-cases (prefix (p ++ q) s)) [
  | inl h ↦ let short : true ≡ false = rw (prefix-shorter p q s h) at e in absurd cc
  | inr h ↦ h
]

abbrev none_raw : List (Bytes × ServerTarget) → Bool
none_raw [] = true
none_raw (t ∷ ts) = not (is_raw t.1) && none_raw ts

first_match-Clear :
    (key : Bytes) (ts : List (Bytes × ServerTarget))
    → none_raw ts ≡ true
    → OnSome Clear (first_match key ts)
unfolding first_match
first_match-Clear key [] e = tt
first_match-Clear key (t ∷ ts) e =
    if-elim (OnSome Clear) (prefix t.0 key) _ _ (ground arith)
      (first_match-Clear key ts (ground arith))

-- The test for the VLAN comes before those for its raw devices.
first_match-shadow :
    (key : Bytes) (ts : List (Bytes × ServerTarget))
    → none_raw ts ≡ true
    → OnSome Clear (
        first_match key (
          (codes "vlan", text vlan)
          ∷ (codes "vlan_raw_dev_external", text vlan_raw_dev_external)
          ∷ (codes "vlan_raw_dev_internal", text vlan_raw_dev_internal)
          ∷ ts))
unfolding first_match
first_match-shadow key ts e = elim (Bool-cases (prefix (codes "vlan") key)) [
  | inl h ↦ rw h refl
  | inr h ↦
      let external : prefix (codes "vlan_raw_dev_external") key ≡ false =
        not_longer (codes "vlan") (codes "_raw_dev_external") key h in
      let internal : prefix (codes "vlan_raw_dev_internal") key ≡ false =
        not_longer (codes "vlan") (codes "_raw_dev_internal") key h in
      rw (h, external, internal) (first_match-Clear key ts e)
]

server_target-Clear : (key : Bytes) → OnSome Clear (server_target key)
unfolding server_target first_match
server_target-Clear key = if-elim (OnSome Clear) (prefix (codes "vserver_id") key) _ _ refl (
    if-elim (OnSome Clear) (prefix (codes "dev_external") key) _ _ refl (
      if-elim (OnSome Clear) (prefix (codes "dev_internal") key) _ _ refl
        (first_match-shadow key later_keys refl)))

-- The raw devices of a server's configuration.
abbrev pub raw_devices : ServerSettings → Option Bytes × Option Bytes
raw_devices c = (c.settings vlan_raw_dev_external, c.settings vlan_raw_dev_internal)

set_text-other :
    (s t : Setting) (value : Bytes) (settings : Setting → Option Bytes)
    → s ≢ t
    → set_text s value settings t ≡ settings t
unfolding set_text
set_text-other s t value settings other =
    elim (Setting-discrete s t) as (λ d. ite d (some value) (settings t) ≡ settings t) [
      | yes e ↦ absurd (other e)
      | no n ↦ refl
    ]

write_server-raw :
    (t : Option ServerTarget) (value : Bytes) (c : ServerSettings)
    → OnSome Clear t
    → raw_devices (write_server t value c) ≡ raw_devices c
unfolding write_server
write_server-raw none value c clear = refl
write_server-raw (some vserver_id) value c clear = refl
write_server-raw (some idle_timeout) value c clear = refl
write_server-raw (some (text s)) value c clear =
    let external : s ≢ vlan_raw_dev_external = λ e. let bad : true ≡ false = rw e at clear in cc in
    let internal : s ≢ vlan_raw_dev_internal = λ e. let bad : true ≡ false = rw e at clear in cc in
    rw
      (
        set_text-other s vlan_raw_dev_external value c.settings external,
        set_text-other s vlan_raw_dev_internal value c.settings internal,
      )
      refl

name_server-raw :
    (name : Bytes) (c : ServerSettings) → raw_devices (name_server name c) ≡ raw_devices c
unfolding name_server
name_server-raw name c = ground arith

-- A key of a section for a virtual server.
pub record InServer (key : Bytes) : Type 0 where
  pub name : Bytes
  pub sub_key : Bytes
  pub parts : split_key key ≡ some (name, sub_key)
  pub kind : config_type name ≡ vserver

-- A visit of such a key returns, and leaves the raw devices.
rahunas_visitor-raw :
    (overlap : Overlap) (inet_aton : Bytes → Option ℕ) (key value : Bytes) (c : ServerSettings)
    → InServer key
    → (d : ServerSettings) × (rahunas_visitor overlap inet_aton key value (rh_vserver c)
        ≡ returned (rh_vserver d))
      × (raw_devices d ≡ raw_devices c)
unfolding rahunas_visitor visit_as
rahunas_visitor-raw overlap inet_aton key value c p = (
  write_server (server_target p.sub_key) value (name_server p.name c),
  rw (p.parts, rahunas_visitor, p.kind, visit_as) refl,
  write_server-raw (server_target p.sub_key) value (name_server p.name c)
        (server_target-Clear p.sub_key)
      ∙ name_server-raw p.name c,
)

lcfg_accept-raw :
    (overlap : Overlap) (inet_aton : Bytes → Option ℕ) (visits : List (Bytes × Bytes))
    (c : ServerSettings)
    → All (λ v. InServer v.0) visits
    → (d : ServerSettings) × (lcfg_accept overlap inet_aton visits (rh_vserver c)
        ≡ returned (rh_vserver d))
      × (raw_devices d ≡ raw_devices c)
unfolding lcfg_accept
lcfg_accept-raw overlap inet_aton [] c all = (c, refl, refl)
lcfg_accept-raw overlap inet_aton (v ∷ vs) c (p, all) =
    let (next, here, same) = rahunas_visitor-raw overlap inet_aton v.0 v.1 c p in
    let (d, rest, later) = lcfg_accept-raw overlap inet_aton vs next all in
    (d, rw (here, rest) refl, later ∙ same)

-- Reading a file into the configuration of a virtual server, where all keys of the file are in
-- sections for virtual servers, returns a configuration with the raw devices of a VLAN as they were,
-- whatever the keys are.
pub get_config-raw_devices :
    (overlap : Overlap) (inet_aton : Bytes → Option ℕ) (visits : List (Bytes × Bytes))
    (c : ServerSettings)
    → All (λ v. InServer v.0) visits
    → (d : ServerSettings) × (get_config overlap inet_aton (some visits) (rh_vserver c)
        ≡ returned (rh_vserver d, true))
      × (raw_devices d ≡ raw_devices c)
unfolding get_config
get_config-raw_devices overlap inet_aton visits c all =
    let (d, read, same) = lcfg_accept-raw overlap inet_aton visits c all in (d, rw read refl, same)
