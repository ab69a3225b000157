-- ===== src/Session/Memset/Laws.antt =====
-- The task MEMSET, as a map from identifiers to sessions.
use rahunas.Member.Ident.{Ident, ident, map_ident}
use rahunas.Member.Lookup.{Distinct, sorted_position-append, get-insert, get-delete, delete-insert}
use rahunas.Member.{Member, blank, member_get_node_by_id, modify_node, delete_node, sorted_position}
use rahunas.Prelude.{
  ℕ, ◌≡◌, ◌≢◌, refl, ap, ◌∙◌, List, [], ◌∷◌, ◌++◌, none, some, arith, ◌==◌, false, Option-cases,
  Bool-cases, inl, inr, if◌then◌else◌,
}
use rahunas.Session.Memset.{fill, store}
use rahunas.Session.{TaskReq}

-- What the new or renewed session is, for a request with its start time filled in.
abbrev pub requested : TaskReq → Ident
requested req = record {
  id = req.id;
  session_start = req.session_start;
  session_timeout = req.session_timeout;
  bandwidth_max_down = req.bandwidth_max_down;
  bandwidth_max_up = req.bandwidth_max_up;
  username = some req.username;
  session_id = some req.session_id;
  mac_address = req.mac_address;
}

fill-ident : (req : TaskReq) (m : Member) → ident (fill req m) ≡ requested req
unfolding fill
fill-ident req m = refl

get-modify_self :
    (id j : ℕ) (f : Member → Member) (ms : List Member) (m : Member)
    → ((m : Member) → (f m).id ≡ id)
    → member_get_node_by_id ms id ≡ some m
    → member_get_node_by_id (modify_node id f ms) j
      ≡ (if id == j then some (f m) else member_get_node_by_id ms j)
unfolding member_get_node_by_id modify_node
get-modify_self id j f [] m same e = cc
get-modify_self id j f (x ∷ xs) m same e = ground (arith, same x, get-modify_self id j f xs m same)

pub fill-id : (req : TaskReq) (m : Member) → (fill req m).id ≡ req.id
unfolding fill
fill-id req m = refl

pub store_new :
    (req : TaskReq) (ms : List Member)
    → member_get_node_by_id ms req.id ≡ none
    → store req ms ≡ (sorted_position blank ms).0 ++ (fill req blank ∷ (sorted_position blank ms).1)
unfolding store
store_new req ms e = rw (e, store)

store_found :
    (req : TaskReq) (ms : List Member) (m : Member)
    → member_get_node_by_id ms req.id ≡ some m
    → store req ms ≡ modify_node req.id (fill req) ms
unfolding store
store_found req ms m e = rw (e, store)

get-store_member :
    (req : TaskReq) (ms : List Member)
    → member_get_node_by_id ms req.id ≡ none
    → (j : ℕ)
    → member_get_node_by_id (store req ms) j
      ≡ (if req.id == j then some (fill req blank) else member_get_node_by_id ms j)
get-store_member req ms e j =
    let absent : member_get_node_by_id
          ((sorted_position blank ms).0 ++ (sorted_position blank ms).1) (fill req blank).id
        ≡ none =
      rw (sorted_position-append blank ms, fill-id req blank) e in
    rw (store_new req ms e) (
      get-insert _ _ (fill req blank) j absent
      ∙ rw (sorted_position-append blank ms, fill-id req blank))

-- The session of the request is found under its identifier, and all others as before.
pub get-store :
    (req : TaskReq) (ms : List Member) (j : ℕ)
    → map_ident (member_get_node_by_id (store req ms) j)
      ≡ (if req.id == j then some (requested req) else map_ident (member_get_node_by_id ms j))
get-store req ms j = elim (Option-cases (member_get_node_by_id ms req.id)) [
  | inl e ↦ ground (arith, get-store_member req ms e j, fill-ident req blank)
  | inr (m, e) ↦ ground (
    arith,
    store_found req ms m e,
    get-modify_self req.id j (fill req) ms m (fill-id req) e,
    fill-ident req m,
  )
]

get_none_tail :
    (m : Member) (ms : List Member) (j : ℕ)
    → member_get_node_by_id (m ∷ ms) j ≡ none
    → (member_get_node_by_id ms j ≡ none) × ((j == m.id) ≡ false)
unfolding member_get_node_by_id
get_none_tail m ms j h = ground arith

Distinct-insert :
    (xs ys : List Member) (m : Member)
    → member_get_node_by_id (xs ++ ys) m.id ≡ none
    → Distinct (xs ++ ys)
    → Distinct (xs ++ (m ∷ ys))
Distinct-insert [] ys m h d = (h, d)
Distinct-insert (x ∷ xs) ys m h d =
    let (absent, other) = get_none_tail x (xs ++ ys) m.id h in
    (get-insert xs ys m x.id absent ∙ rw other d.0, Distinct-insert xs ys m absent d.1)

get-modify_ne :
    (id j : ℕ) (f : Member → Member) (ms : List Member)
    → ((m : Member) → (f m).id ≡ id)
    → (id == j) ≡ false
    → member_get_node_by_id (modify_node id f ms) j ≡ member_get_node_by_id ms j
unfolding member_get_node_by_id modify_node
get-modify_ne id j f [] same ne = refl
get-modify_ne id j f (m ∷ ms) same ne = ground (arith, same m, get-modify_ne id j f ms same ne)

Distinct-modify :
    (id : ℕ) (f : Member → Member) (ms : List Member)
    → ((m : Member) → (f m).id ≡ id)
    → Distinct ms
    → Distinct (modify_node id f ms)
unfolding modify_node
Distinct-modify id f [] same d = d
Distinct-modify id f (m ∷ ms) same d = elim (Bool-cases (m.id == id)) [
  | inl e ↦ let here : (f m).id ≡ m.id = ground (arith, same m) in rw e (rw here d.0, d.1)
  | inr e ↦
      let other : (id == m.id) ≡ false = ground arith in
      rw e (get-modify_ne id m.id f ms same other ∙ d.0, Distinct-modify id f ms same d.1)
]

pub store-Distinct : (req : TaskReq) (ms : List Member) → Distinct ms → Distinct (store req ms)
store-Distinct req ms d = elim (Option-cases (member_get_node_by_id ms req.id)) [
  | inl e ↦ rw (store_new req ms e) (
      Distinct-insert _ _ (fill req blank)
        (rw (sorted_position-append blank ms, fill-id req blank) e)
        (rw (sorted_position-append blank ms) d))
  | inr (m, e) ↦ rw (store_found req ms m e) (Distinct-modify req.id (fill req) ms (fill-id req) d)
]

pub delete-Distinct : (id : ℕ) (ms : List Member) → Distinct ms → Distinct (delete_node id ms)
unfolding delete_node
delete-Distinct id [] d = d
delete-Distinct id (m ∷ ms) d = elim (Bool-cases (m.id == id)) [
  | inl e ↦ rw e d.1
  | inr e ↦
      let other : (id == m.id) ≡ false = ground arith in
      rw e (get-delete id m.id ms d.1 ∙ rw other d.0, delete-Distinct id ms d.1)
]

-- A new session that ends leaves the table as it was.
pub delete-store :
    (req : TaskReq) (ms : List Member)
    → member_get_node_by_id ms req.id ≡ none
    → delete_node req.id (store req ms) ≡ ms
unfolding fill
delete-store req ms e = rw (store_new req ms e) (
    delete-insert _ _ (fill req blank) (rw (sorted_position-append blank ms) e)
    ∙ sorted_position-append blank ms)

-- Another member than that of the request.
get-insert_other :
    (xs ys : List Member) (m : Member) (j : ℕ)
    → m.id ≢ j
    → member_get_node_by_id (xs ++ (m ∷ ys)) j ≡ member_get_node_by_id (xs ++ ys) j
unfolding member_get_node_by_id
get-insert_other [] ys m j ne = ground arith
get-insert_other (x ∷ xs) ys m j ne = ground (arith, get-insert_other xs ys m j ne)

pub get-store_other :
    (req : TaskReq) (ms : List Member) (j : ℕ)
    → req.id ≢ j
    → member_get_node_by_id (store req ms) j ≡ member_get_node_by_id ms j
get-store_other req ms j ne = elim (Option-cases (member_get_node_by_id ms req.id)) [
  | inl e ↦ rw (store_new req ms e) (
      get-insert_other _ _ (fill req blank) j (rw (fill-id req blank) ne)
      ∙ ap (λ xs. member_get_node_by_id xs j) (sorted_position-append blank ms))
  | inr (m, e) ↦
      rw (store_found req ms m e)
        (get-modify_self req.id j (fill req) ms m (fill-id req) e ∙ ground arith)
]
