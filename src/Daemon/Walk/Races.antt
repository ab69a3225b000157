-- ===== src/Daemon/Walk/Races.antt =====
-- Which removals a walk runs into.
use mathlib.Core.Option.{some-injective}
use rahunas.Daemon.Walk.Nodes.{
  Numbered, listed, valid, Found, node_at-Found, Numbered-remove_id, Numbered-insert_at,
  listed-insert_at,
}
use rahunas.Daemon.Walk.{
  Node, Walk, Action, visits, removes, inserts, node_at, remove_id, insert_at, started_walk,
  visit_at, visit, act, act_all,
}
use rahunas.Prelude.{
  ℕ, ◌<◌, ◌≡◌, refl, inl, inr, Bool, true, false, List, [], ◌∷◌, Option, none, some, arith,
  Option-cases, ◌==◌, not, ◌∙◌, if◌then◌else◌,
}
use rahunas.Server.Run.{Run, returned, faults, OnReturn}

-- No node of the list has the identifier.
abbrev pub lacks : ℕ → List Node → Bool
lacks j [] = true
lacks j (x ∷ xs) = let rest = lacks j xs in if x.id == j then false else rest

-- No identifier twice.
abbrev pub ApartIds : List Node → Type 0
ApartIds [] = Unit
ApartIds (x ∷ xs) = (lacks x.id xs ≡ true) × ApartIds xs

unlisted : (n : ℕ) (xs : List Node) → listed n xs ≡ false → node_at n xs ≡ none
unfolding node_at
unlisted n [] h = refl
unlisted n (x ∷ []) h = ground arith
unlisted n (x ∷ y ∷ xs) h = ground (arith, unlisted n (y ∷ xs))

-- Whether the node of a number has an identifier.
abbrev pub pointed : ℕ → ℕ → List Node → Bool
pointed n j [] = false
pointed n j (x ∷ xs) = let rest = pointed n j xs in if x.number == n then x.id == j else rest

lacks-pointed : (n j : ℕ) (xs : List Node) → lacks j xs ≡ true → pointed n j xs ≡ false
lacks-pointed n j [] h = refl
lacks-pointed n j (x ∷ xs) h = ground (arith, lacks-pointed n j xs)

-- A removal takes a node off the list where the node has the identifier.
removed :
    (n j b : ℕ) (xs : List Node)
    → Numbered b xs
    → ApartIds xs
    → listed n xs ≡ true
    → pointed n j xs ≡ true
    → listed n (remove_id j xs) ≡ false
unfolding remove_id
removed n j b [] u d h hit = cc
removed n j b (x ∷ xs) u d h hit =
    ground (arith, removed n j b xs u.1.1 d.1, lacks-pointed n j xs, u.1.0, d.0)

remains :
    (n j : ℕ) (xs : List Node)
    → listed n xs ≡ true
    → pointed n j xs ≡ false
    → listed n (remove_id j xs) ≡ true
unfolding remove_id
remains n j [] h miss = cc
remains n j (x ∷ xs) h miss = ground (arith, remains n j xs)

found_nowhere : (n : ℕ) (xs : List Node) → node_at n xs ≡ none → listed n xs ≡ false
unfolding node_at
found_nowhere n [] e = refl
found_nowhere n (x ∷ []) e = ground arith
found_nowhere n (x ∷ y ∷ xs) e = ground (arith, found_nowhere n (y ∷ xs))

-- The null pointer is at no node.
abbrev pub hit : Option ℕ → ℕ → List Node → Bool
hit none j xs = false
hit (some r) j xs = pointed r j xs

-- What a schedule must not do: remove the node that `runner` points to.
abbrev pub spared : Action → Walk → Bool
spared visits w = true
spared (removes j) w = not (hit w.runner j w.nodes)
spared (inserts k j) w = true

abbrev pub Spares : List Action → Walk → Type 0
Spares [] w = Unit
Spares (a ∷ rest) w = (spared a w ≡ true) × OnReturn (Spares rest) (act a w)

-- A pointer that may be read.
record Sound (w : Walk) : Type 0 where
  numbered : Numbered w.fresh w.nodes
  bound : (r : ℕ) → w.runner ≡ some r → r < w.fresh
  pointer : valid w.runner w.nodes ≡ true

data Returns (P : Walk → Type 0) (r : Run Walk) : Type 0 where
  gives : (v : Walk) → r ≡ returned v → P v → Returns P r

visit_at-Sound : (o : Option ℕ) (w : Walk) → w.runner ≡ o → Sound w → Returns Sound (visit_at o w)
unfolding visit_at
visit_at-Sound none w at s = gives w refl s
visit_at-Sound (some r) w at s = elim (Option-cases (node_at r w.nodes)) [
  | inl gone ↦
      let there : listed r w.nodes ≡ true = rw at at s.pointer in
      let not_there = found_nowhere r w.nodes gone in absurd cc
  | inr (p, found) ↦
      let f : Found r w.fresh p w.nodes =
        rw found at (node_at-Found r w.fresh w.nodes s.numbered) in
      gives (record w { runner = p.1; visited = p.0.number ∷ w.visited })
        (rw (visit_at, found) refl)
        (record { numbered = s.numbered; bound = f.bound; pointer = f.next })
]

remains_valid :
    (o : Option ℕ) (j : ℕ) (xs : List Node)
    → valid o xs ≡ true
    → not (hit o j xs) ≡ true
    → valid o (remove_id j xs) ≡ true
remains_valid none j xs v h = refl
remains_valid (some r) j xs v h = remains r j xs v (ground arith)

inserted_valid :
    (o : Option ℕ) (k : ℕ) (new : Node) (xs : List Node)
    → valid o xs ≡ true
    → valid o (insert_at k new xs) ≡ true
inserted_valid none k new xs v = refl
inserted_valid (some r) k new xs v = listed-insert_at k r new xs ∙ ground arith

act-Sound : (a : Action) (w : Walk) → spared a w ≡ true → Sound w → Returns Sound (act a w)
unfolding act visit
act-Sound visits w miss s = visit_at-Sound w.runner w refl s
act-Sound (removes j) w miss s =
    gives (record w { nodes = remove_id j w.nodes }) refl
      (record {
        numbered = Numbered-remove_id j w.fresh w.nodes s.numbered;
        bound = s.bound;
        pointer = remains_valid w.runner j w.nodes s.pointer miss;
      })
act-Sound (inserts k j) w miss s = gives _ refl (record {
  numbered = Numbered-insert_at k j w.fresh w.nodes s.numbered;
  bound = λ r at. omega (arith, s.bound r at);
  pointer = inserted_valid w.runner k (record { number = w.fresh; id = j }) w.nodes s.pointer;
})

act_all-Sound :
    (actions : List Action) (w : Walk)
    → Sound w
    → Spares actions w
    → Returns Sound (act_all actions w)
unfolding act_all
act_all-Sound [] w s spares = gives w refl s
act_all-Sound (a ∷ rest) w s (miss, later) = elim (act-Sound a w miss s) [
  | gives v e next ↦ rw (act_all, e) (act_all-Sound rest v next (rw e at later))
]

started-Sound :
    (start : ℕ) (nodes : List Node) → Numbered start nodes → Sound (started_walk nodes start)
unfolding started_walk
started-Sound start [] u = record { numbered = tt; bound = λ r at. cc; pointer = refl }
started-Sound start (x ∷ xs) u = record {
  numbered = u;
  bound = λ r at. rw (some-injective _ _ at) at u.0;
  pointer = ground arith;
}

-- A walk among commands that start and stop sessions as they will reads no freed node, if only none of
-- the stops is of the session whose node `runner` points to at that moment. The walk's own stops, of the
-- member that it visited last, are among the stops.
pub act_all-returns :
    (actions : List Action) (nodes : List Node) (start : ℕ)
    → Numbered start nodes
    → Spares actions (started_walk nodes start)
    → (w : Walk) × (act_all actions (started_walk nodes start) ≡ returned w)
act_all-returns actions nodes start u spares =
    elim (act_all-Sound actions _ (started-Sound start nodes u) spares) [ gives w e s ↦ (w, e) ]

-- Where no two members have one identifier and `runner` points to a node that is there, a stop of the
-- session of this node, before the walk goes on, makes the next visit read the freed node.
pub act_all-dangling :
    (w : Walk) (r j : ℕ) (rest : List Action)
    → Numbered w.fresh w.nodes
    → ApartIds w.nodes
    → w.runner ≡ some r
    → listed r w.nodes ≡ true
    → pointed r j w.nodes ≡ true
    → act_all (removes j ∷ visits ∷ rest) w ≡ faults
unfolding act_all act visit
act_all-dangling w r j rest u d at there own =
    let gone : node_at r (remove_id j w.nodes) ≡ none =
      unlisted r (remove_id j w.nodes) (removed r j w.fresh w.nodes u d there own) in
    rw at (rw (visit_at, gone) refl)
