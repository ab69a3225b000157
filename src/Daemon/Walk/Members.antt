-- ===== src/Daemon/Walk/Members.antt =====
-- The nodes of a walk are those of the list of members: a removal and an insertion do the same to both.
use rahunas.Daemon.Walk.{Node, remove_id, insert_at}
use rahunas.Member.Lookup.{sorted_position-append}
use rahunas.Member.{Member, blank, delete_node, member_get_node_by_id, sorted_position}
use rahunas.Prelude.{
  ℕ, ◌≡◌, refl, Option-cases, none, sym, Bool-cases, inl, inr, true, false, List, [], ◌∷◌, ◌++◌,
  arith, length, ◌==◌,
}
use rahunas.Session.Memset
use rahunas.Session.Memset.Laws.{store_new, fill-id}
use rahunas.Session.{Sess, TaskReq, members}

-- Node by node, the identifiers are those of the members.
abbrev pub Carries : List Node → List Member → Type 0
Carries [] [] = Unit
Carries [] (m ∷ ms) = ⊥
Carries (x ∷ xs) [] = ⊥
Carries (x ∷ xs) (m ∷ ms) = (x.id ≡ m.id) × Carries xs ms

Carries-remove_id :
    (j : ℕ) (xs : List Node) (ms : List Member)
    → Carries xs ms
    → Carries (remove_id j xs) (delete_node j ms)
unfolding remove_id delete_node
Carries-remove_id j [] [] c = tt
Carries-remove_id j [] (m ∷ ms) c = absurd c
Carries-remove_id j (x ∷ xs) [] c = absurd c
Carries-remove_id j (x ∷ xs) (m ∷ ms) (same, c) = elim (Bool-cases (m.id == j)) [
  | inl e ↦ let own : (x.id == j) ≡ true = rw same e in rw (own, e) c
  | inr e ↦
      let other : (x.id == j) ≡ false = rw same e in
      rw (other, e) (same, Carries-remove_id j xs ms c)
]

-- A member behind those of `before`, as `g_list_insert_sorted` finds its place.
Carries-insert_at :
    (new : Node) (member : Member) (before after : List Member) (xs : List Node)
    → new.id ≡ member.id
    → Carries xs (before ++ after)
    → Carries (insert_at (length before) new xs) (before ++ (member ∷ after))
unfolding insert_at
Carries-insert_at new member [] after xs e c = (e, c)
Carries-insert_at new member (b ∷ before) after [] e c = absurd c
Carries-insert_at new member (b ∷ before) after (x ∷ xs) e (same, c) =
    (same, Carries-insert_at new member before after xs e c)

delete_missing :
    (j : ℕ) (ms : List Member) → member_get_node_by_id ms j ≡ none → delete_node j ms ≡ ms
unfolding delete_node member_get_node_by_id
delete_missing j [] e = refl
delete_missing j (m ∷ ms) e = ground (arith, delete_missing j ms)

-- What the session table does at a stop is a removal from the nodes.
Carries-stopsess :
    (xs : List Node) (s : Sess)
    → Carries xs (members s)
    → Carries (remove_id s.req.id xs) (members (Memset.stopsess s).0)
unfolding Memset.stopsess
Carries-stopsess xs s c =
    let removed = Carries-remove_id s.req.id xs (members s) c in
    elim (Option-cases (member_get_node_by_id (members s) s.req.id)) [
      | inl none_there ↦
          rw (none_there, Memset.stopsess)
            (rw (delete_missing s.req.id (members s) none_there) at removed)
      | inr (m, there) ↦ rw (there, Memset.stopsess) removed
    ]

-- What it does at the start of a session that is not there is an insertion.
Carries-store :
    (number : ℕ) (req : TaskReq) (xs : List Node) (ms : List Member)
    → member_get_node_by_id ms req.id ≡ none
    → Carries xs ms
    → Carries
        (insert_at
          (length (sorted_position blank ms).0)
          (record { number = number; id = req.id })
          xs)
        (Memset.store req ms)
Carries-store number req xs ms absent c = rw (store_new req ms absent) (
    Carries-insert_at _ (Memset.fill req blank) (sorted_position blank ms).0
      (sorted_position blank ms).1 xs (sym (fill-id req blank))
      (rw (sorted_position-append blank ms) c))
