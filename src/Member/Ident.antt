-- ===== src/Member/Ident.antt =====
-- What a member says of its session, without the fields that the tasks behind MEMSET set: the view
-- of the table in which a search, an insertion and a deletion are those of a finite map.
use rahunas.Member.Lookup.{Distinct}
use rahunas.Member.{Member, member_get_node_by_id, modify_node, delete_node}
use rahunas.Prelude.{
  ℕ, ◌≡◌, refl, ◌∙◌, sym, List, [], ◌∷◌, Option, none, some, arith, map, ◌==◌, if◌then◌else◌,
}
use rahunas.Text.{Bytes}

pub record Ident : Type 0 where
  pub id : ℕ
  pub session_start : ℕ
  pub session_timeout : ℕ
  pub bandwidth_max_down : ℕ
  pub bandwidth_max_up : ℕ
  pub username : Option Bytes
  pub session_id : Option Bytes
  pub mac_address : Bytes

abbrev pub ident : Member → Ident
ident m = record {
  id = m.id;
  session_start = m.session_start;
  session_timeout = m.session_timeout;
  bandwidth_max_down = m.bandwidth_max_down;
  bandwidth_max_up = m.bandwidth_max_up;
  username = m.username;
  session_id = m.session_id;
  mac_address = m.mac_address;
}

pub find_ident : List Ident → ℕ → Option Ident
find_ident [] id = none
find_ident (i ∷ is) id = if i.id == id then some i else find_ident is id

abbrev pub DistinctIds : List Ident → Type 0
DistinctIds [] = Unit
DistinctIds (i ∷ is) = (find_ident is i.id ≡ none) × DistinctIds is

abbrev pub map_ident : Option Member → Option Ident
map_ident none = none
map_ident (some m) = some (ident m)

pub find_ident-map :
    (ms : List Member) (j : ℕ)
    → find_ident (map ident ms) j ≡ map_ident (member_get_node_by_id ms j)
unfolding find_ident member_get_node_by_id
find_ident-map [] j = refl
find_ident-map (m ∷ ms) j = ground (arith, find_ident-map ms j)

pub DistinctIds-map : (ms : List Member) → Distinct ms → DistinctIds (map ident ms)
DistinctIds-map [] d = tt
DistinctIds-map (m ∷ ms) d = (ground (arith, find_ident-map ms m.id), DistinctIds-map ms d.1)

none_of_map_ident : (o : Option Member) → map_ident o ≡ none → o ≡ none
none_of_map_ident none h = refl
none_of_map_ident (some m) h = cc

pub Distinct-of_ids : (ms : List Member) → DistinctIds (map ident ms) → Distinct ms
Distinct-of_ids [] d = tt
Distinct-of_ids (m ∷ ms) d =
    (none_of_map_ident _ (sym (find_ident-map ms m.id) ∙ d.0), Distinct-of_ids ms d.1)

-- A write that leaves the view of each member leaves that of the table.
pub map-ident-modify_node :
    (id : ℕ) (f : Member → Member) (ms : List Member)
    → ((m : Member) → ident (f m) ≡ ident m)
    → map ident (modify_node id f ms) ≡ map ident ms
unfolding modify_node
map-ident-modify_node id f [] keeps = refl
map-ident-modify_node id f (m ∷ ms) keeps =
    ground (arith, keeps m, map-ident-modify_node id f ms keeps)

pub delete_ident : ℕ → List Ident → List Ident
delete_ident id [] = []
delete_ident id (i ∷ is) = if i.id == id then is else i ∷ delete_ident id is

pub map-ident-delete_node :
    (id : ℕ) (ms : List Member) → map ident (delete_node id ms) ≡ delete_ident id (map ident ms)
unfolding delete_node delete_ident
map-ident-delete_node id [] = refl
map-ident-delete_node id (m ∷ ms) = ground (arith, map-ident-delete_node id ms)
