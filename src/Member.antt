-- ===== src/Member.antt =====
-- The table of sessions: `struct rahunas_member` and `struct rahunas_map` of src/rahunasd.h, and the
-- list operations of src/rh-task-memset.c on them. A `GList` is a list, and a pointer to a node is
-- the position of the first member with the identifier that was searched for.
-- Addresses are kept in host order: the code converts with `htonl` where it stores one and with
-- `ntohl` where it reads it.
pub mod Lookup
pub mod Ident
pub mod Freed
use rahunas.Prelude.{
  ℕ, ◌+◌, ◌-◌, ◌%◌, ◌^◌, Bool, true, false, ◌&&◌, List, [], ◌∷◌, ◌++◌, Option, none, some, ltb,
  ◌==◌, if◌then◌else◌,
}
use rahunas.Text.{Bytes}

-- The strings are owned copies; `none` is the null pointer. `time_t` and `long` are 64-bit patterns.
pub record Member : Type 0 where
  pub id : ℕ
  pub expired : ℕ
  pub session_start : ℕ
  pub session_timeout : ℕ
  pub bandwidth_max_down : ℕ
  pub bandwidth_max_up : ℕ
  pub bandwidth_slot_id : ℕ
  pub serviceclass_name : Option Bytes
  pub serviceclass_description : Option Bytes
  pub serviceclass_slot_id : ℕ
  pub mapping_ip : Option Bytes
  pub username : Option Bytes
  pub session_id : Option Bytes
  pub mac_address : Bytes

pub record VMap : Type 0 where
  pub members : List Member
  pub first_ip : ℕ
  pub last_ip : ℕ
  pub size : ℕ

-- What `memset` leaves in a new member.
abbrev pub blank : Member
blank = record {
  id = 0;
  expired = 0;
  session_start = 0;
  session_timeout = 0;
  bandwidth_max_down = 0;
  bandwidth_max_up = 0;
  bandwidth_slot_id = 0;
  serviceclass_name = none;
  serviceclass_description = none;
  serviceclass_slot_id = 0;
  mapping_ip = none;
  username = none;
  session_id = none;
  mac_address = 0 ∷ 0 ∷ 0 ∷ 0 ∷ 0 ∷ 0 ∷ [];
}

-- `member_get_node_by_id`.
unfoldable pub member_get_node_by_id : List Member → ℕ → Option Member
member_get_node_by_id [] id = none
member_get_node_by_id (m ∷ ms) id = if m.id == id then some m else member_get_node_by_id ms id

-- A write through the node that the search returns.
unfoldable pub modify_node : ℕ → (Member → Member) → List Member → List Member
modify_node id f [] = []
modify_node id f (m ∷ ms) = if m.id == id then f m ∷ ms else m ∷ modify_node id f ms

-- `g_list_delete_link` of that node.
unfoldable pub delete_node : ℕ → List Member → List Member
delete_node id [] = []
delete_node id (m ∷ ms) = if m.id == id then ms else m ∷ delete_node id ms

-- `idcmp`: the difference as a `gint`, of which a positive value says that the first member comes
-- after the second.
unfoldable pub idcmp_positive : Member → Member → Bool
idcmp_positive a b =
    let difference = (a.id + 2 ^ 32 - b.id) % 2 ^ 32 in ltb 0 difference && ltb difference (2 ^ 31)

-- Where `g_list_insert_sorted` puts a member: in front of the first that it does not come after.
unfoldable pub sorted_position : Member → List Member → List Member × List Member
unfolding idcmp_positive
sorted_position new [] = ([], [])
sorted_position new (m ∷ ms) =
    let later = sorted_position new ms in
    if idcmp_positive new m then (m ∷ later.0, later.1) else ([], m ∷ ms)
