-- ===== src/Config/Class.antt =====
-- The keys of the section for a service class: the branch `SERVICECLASS` of `rahunas_visitor`.
use rahunas.Config.Keys.{prefix}
use rahunas.Prelude.{ℕ, ◌+◌, ◌-◌, ◌%◌, ◌^◌, [], ◌∷◌, Option, none, some, ltb, ◌==◌, if◌then◌else◌}
use rahunas.Server.Run.{Run, returned, faults, ◌>>=◌}
use rahunas.Text.{Bytes, codes, atoi}

-- `struct rahunas_serviceclass_config`, as a file fills it. `start_addr` is kept in host order.
pub record ClassSettings : Type 0 where
  pub serviceclass_name : Option Bytes
  pub serviceclass_id : ℕ
  pub description : Option Bytes
  pub network : Option Bytes
  pub start_addr : ℕ
  pub network_size : ℕ
  pub fake_arpd : Option Bytes
  pub fake_arpd_iface : Option Bytes

-- The parts in front of and behind the first slash.
unfoldable pub split_slash : Bytes → Option (Bytes × Bytes)
split_slash [] = none
split_slash (c ∷ cs) =
    let rest = split_slash cs in
    if c == b'/'
    then some ([], cs)
    else elim rest [ none ↦ none | some parts ↦ some (c ∷ parts.0, parts.1) ]

-- `(1 << (32 - n)) - 2` of an `int`, as a `uint32_t`, for a length that is not 0. C defines the shift
-- of 1 by less than 31.
unfoldable pub addresses : ℕ → Run ℕ
addresses n =
    if n == 0
    then returned 0
    else if ltb n 2
    then faults
    else if ltb 32 n
    then faults
    else returned ((2 ^ (32 - n) + 2 ^ 32 - 2) % 2 ^ 32)

-- A network that is not valid is only logged; what was written by then stays.
unfoldable pub visit_network : (Bytes → Option ℕ) → Bytes → ClassSettings → Run ClassSettings
unfolding split_slash addresses
visit_network inet_aton value c = elim (split_slash value) [
  | none ↦ returned c
  | some parts ↦ addresses (atoi parts.1) >>= λ n. returned (
      let sized = record c { network = some value; network_size = n } in
      elim (inet_aton parts.0) [ none ↦ sized | some ip ↦ record sized { start_addr = ip } ])
]

unfoldable pub visit_class : (Bytes → Option ℕ) → Bytes → Bytes → ClassSettings → Run ClassSettings
unfolding visit_network
visit_class inet_aton sub_key value c =
    if prefix (codes "serviceclass_id") sub_key
    then returned (record c { serviceclass_id = atoi value })
    else if prefix (codes "serviceclass_name") sub_key
    then returned (record c { serviceclass_name = some value })
    else if prefix (codes "description") sub_key
    then returned (record c { description = some value })
    else if prefix (codes "network") sub_key
    then visit_network inet_aton value c
    else if prefix (codes "fake_arpd_iface") sub_key
    then returned (record c { fake_arpd_iface = some value })
    else if prefix (codes "fake_arpd") sub_key
    then returned (record c { fake_arpd = some value })
    else returned c
