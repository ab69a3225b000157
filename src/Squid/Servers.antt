-- ===== src/Squid/Servers.antt =====
-- The networks that tools/squid-auth-helper.c reads from the configurations of the virtual servers.
-- What lcfg reads from a file is an argument. A `guint` and a `gushort` have 32 and 16 bits.
use rahunas.Prelude.{
  ℕ, ◌%◌, ◌^◌, Bool, true, false, List, [], ◌∷◌, ◌++◌, Option, none, some, if◌then◌else◌,
}
use rahunas.Server.Run.{Run, returned, faults, ◌>>=◌}
use rahunas.Squid.{VserverInfo}
use rahunas.Text.{Bytes, codes, strcmp_eq, atoi}
use rahunas.Utils.Sep.{find_sep}

module _ (inet_aton : Bytes → Option ℕ) where
  -- `none` is `lcfg_status_error`.
  unfoldable pub read_clients : Bytes → VserverInfo → Option VserverInfo
  read_clients value info = elim (find_sep b'/' value).1 [
    | none ↦ none
    | some len ↦ elim (inet_aton (find_sep b'/' value).0) [
      | none ↦ none
      | some ip ↦ some (record info { net_ip = ip; mask = atoi len % 2 ^ 16 })
    ]
  ]

  -- A key without a dot is read behind a null pointer.
  unfoldable pub lcfg_visitor_read_vserver : Bytes → Bytes → VserverInfo → Run (Option VserverInfo)
  unfolding read_clients
  lcfg_visitor_read_vserver key value info = elim (find_sep b'.' key).1 [
    | none ↦ faults
    | some name ↦
        if strcmp_eq name (codes "vserver_id")
        then returned (some (record info { id = atoi value }))
        else if strcmp_eq name (codes "clients")
        then returned (read_clients value info)
        else returned (some info)
  ]

  -- `lcfg_accept` stops at the first error.
  unfoldable pub visit_keys : List (Bytes × Bytes) → VserverInfo → Run (Option VserverInfo)
  unfolding lcfg_visitor_read_vserver
  visit_keys [] info = returned (some info)
  visit_keys ((key, value) ∷ keys) info = lcfg_visitor_read_vserver key value info >>= λ o. elim o [
    | none ↦ returned none
    | some next ↦ visit_keys keys next
  ]

  -- `ftw` over the directory, with whether each entry is a file, and its keys where it could be parsed.
  -- It stops at the first file that cannot be read. `malloc` does not clear the memory.
  unfoldable pub ftw_read_vserver :
      VserverInfo
      → List (Bool × Option (List (Bytes × Bytes)))
      → List VserverInfo
      → Run (List VserverInfo)
  unfolding visit_keys
  ftw_read_vserver garbage [] vservers = returned vservers
  ftw_read_vserver garbage ((false, parsed) ∷ files) vservers =
      ftw_read_vserver garbage files vservers
  ftw_read_vserver garbage ((true, none) ∷ files) vservers = returned vservers
  ftw_read_vserver garbage ((true, some keys) ∷ files) vservers = visit_keys keys garbage >>= λ o.
      elim o [
        | none ↦ returned vservers
        | some info ↦ ftw_read_vserver garbage files (vservers ++ (info ∷ []))
      ]
