-- ===== src/Member/Lookup.antt =====
-- The laws of the session table: searches after a write, an insertion and a deletion, while no two
-- members have one identifier.
use rahunas.Prelude.{ℕ, ◌≡◌, refl, ◌≢◌, List, [], ◌∷◌, ◌++◌, none, some, arith, ◌==◌, if◌then◌else◌}
use rahunas.Member.{Member, member_get_node_by_id, modify_node, delete_node, sorted_position}

-- No two members have one identifier.
abbrev pub Distinct : List Member → Type 0
Distinct [] = Unit
Distinct (m ∷ ms) = (member_get_node_by_id ms m.id ≡ none) × Distinct ms

pub sorted_position-append :
    (new : Member) (ms : List Member)
    → (sorted_position new ms).0 ++ (sorted_position new ms).1 ≡ ms
unfolding sorted_position
sorted_position-append new [] = refl
sorted_position-append new (m ∷ ms) = ground (arith, sorted_position-append new ms)

pub get-insert :
    (xs ys : List Member) (m : Member) (j : ℕ)
    → member_get_node_by_id (xs ++ ys) m.id ≡ none
    → member_get_node_by_id (xs ++ (m ∷ ys)) j
      ≡ (if m.id == j then some m else member_get_node_by_id (xs ++ ys) j)
unfolding member_get_node_by_id
get-insert [] ys m j h = refl
get-insert (x ∷ xs) ys m j h = ground (arith, get-insert xs ys m j)

pub get-modify :
    (id j : ℕ) (f : Member → Member) (ms : List Member)
    → ((m : Member) → (f m).id ≡ m.id)
    → (id ≢ j)
    → member_get_node_by_id (modify_node id f ms) j ≡ member_get_node_by_id ms j
unfolding member_get_node_by_id modify_node
get-modify id j f [] keeps ne = refl
get-modify id j f (m ∷ ms) keeps ne = ground (arith, keeps m, get-modify id j f ms keeps)

pub get-delete :
    (id j : ℕ) (ms : List Member)
    → Distinct ms
    → member_get_node_by_id (delete_node id ms) j
      ≡ (if id == j then none else member_get_node_by_id ms j)
unfolding member_get_node_by_id delete_node
get-delete id j [] d = ground arith
get-delete id j (m ∷ ms) d = ground (arith, get-delete id j ms d.1)

pub delete-insert :
    (xs ys : List Member) (m : Member)
    → member_get_node_by_id (xs ++ ys) m.id ≡ none
    → delete_node m.id (xs ++ (m ∷ ys)) ≡ xs ++ ys
unfolding member_get_node_by_id delete_node
delete-insert [] ys m h = ground arith
delete-insert (x ∷ xs) ys m h = ground (arith, delete-insert xs ys m)
