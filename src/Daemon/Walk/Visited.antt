-- ===== src/Daemon/Walk/Visited.antt =====
-- Which members a walk comes to.
use mathlib.Core.Option.{some-injective}
use rahunas.Daemon.Walk.{
  Node, Walk, Action, visits, removes, inserts, node_at, remove_id, insert_at, started_walk,
  visit_at, visit, act, act_all,
}
use rahunas.Prelude.{
  ℕ, ◌<◌, ◌≤◌, ◌≡◌, refl, ◌⊎◌, inl, inr, Bool, true, false, List, [], ◌∷◌, Option, none, some,
  arith, Option-cases, ◌==◌, if◌then◌else◌,
}
use rahunas.Server.Run.{returned, OnReturn, OnReturn->>=}
use rahunas.Daemon.Walk.Nodes.{
  Found, Numbered, Numbered-insert_at, Numbered-remove_id, ahead-insert_at, ahead-remove_id,
  ahead_of, listed, listed-insert_at, listed-remove_id, node_at-Found, valid,
}

abbrev pub has : ℕ → List ℕ → Bool
has n [] = false
has n (x ∷ xs) = let rest = has n xs in if x == n then true else rest

-- Where `runner` is null or points to a node that is there, each node from before `start` was visited
-- or is ahead.
pub record Covers (start : ℕ) (w : Walk) : Type 0 where
  pub numbered : Numbered w.fresh w.nodes
  pub bound : (r : ℕ) → w.runner ≡ some r → r < w.fresh
  pub old : start ≤ w.fresh
  pub covered :
      (n : ℕ)
      → n < start
      → listed n w.nodes ≡ true
      → valid w.runner w.nodes ≡ true
      → (has n w.visited ≡ true) ⊎ (ahead_of w.runner n w.nodes ≡ true)

abbrev to_next : Node × Option ℕ → Walk → Walk
to_next p w = record w { runner = p.1; visited = p.0.number ∷ w.visited }

to_next-Covers :
    (start r : ℕ) (w : Walk) (p : Node × Option ℕ)
    → w.runner ≡ some r
    → Found r w.fresh p w.nodes
    → Covers start w
    → Covers start (to_next p w)
to_next-Covers start r w p at f c = record {
  numbered = c.numbered;
  bound = f.bound;
  old = c.old;
  covered = λ n early there v. come n (c.covered n early there (rw at f.there));
}
  where
    come :
        (n : ℕ)
        → (has n w.visited ≡ true) ⊎ (ahead_of w.runner n w.nodes ≡ true)
        → (has n (p.0.number ∷ w.visited) ≡ true) ⊎ (ahead_of p.1 n w.nodes ≡ true)
    come n (inl seen) = inl (ground arith)
    come n (inr later) = elim (f.moves n (rw at at later)) [
      | inl own ↦ inl (ground (arith, f.same))
      | inr there ↦ inr there
    ]

visit_at-Covers :
    (start : ℕ) (o : Option ℕ) (w : Walk)
    → w.runner ≡ o
    → Covers start w
    → OnReturn (Covers start) (visit_at o w)
unfolding visit_at
visit_at-Covers start none w at c = c
visit_at-Covers start (some r) w at c = elim (Option-cases (node_at r w.nodes)) [
  | inl gone ↦ rw (visit_at, gone) tt
  | inr (p, found) ↦
      let f : Found r w.fresh p w.nodes =
        rw found at (node_at-Found r w.fresh w.nodes c.numbered) in
      rw (visit_at, found) (to_next-Covers start r w p at f c)
]

kept_ahead :
    (o : Option ℕ) (j n b : ℕ) (xs : List Node)
    → Numbered b xs
    → listed n (remove_id j xs) ≡ true
    → valid o (remove_id j xs) ≡ true
    → ahead_of o n xs ≡ true
    → ahead_of o n (remove_id j xs) ≡ true
kept_ahead none j n b xs u there v h = cc
kept_ahead (some r) j n b xs u there v h = ahead-remove_id j r n b xs u v there h

valid-remove_id :
    (o : Option ℕ) (j : ℕ) (xs : List Node) → valid o (remove_id j xs) ≡ true → valid o xs ≡ true
valid-remove_id none j xs v = refl
valid-remove_id (some r) j xs v = listed-remove_id j r xs v

removes-Covers :
    (start j : ℕ) (w : Walk) → Covers start w → OnReturn (Covers start) (act (removes j) w)
unfolding act
removes-Covers start j w c = record {
  numbered = Numbered-remove_id j w.fresh w.nodes c.numbered;
  bound = c.bound;
  old = c.old;
  covered = λ n early there v.
      elim (c.covered n early (listed-remove_id j n w.nodes there)
        (valid-remove_id w.runner j w.nodes v)) [
          | inl seen ↦ inl seen
          | inr later ↦ inr (kept_ahead w.runner j n w.fresh w.nodes c.numbered there v later)
        ];
}

pub valid-insert_at :
    (o : Option ℕ) (k : ℕ) (new : Node) (xs : List Node)
    → ((r : ℕ) → o ≡ some r → r < new.number)
    → valid o (insert_at k new xs) ≡ true
    → valid o xs ≡ true
valid-insert_at none k new xs below v = refl
valid-insert_at (some r) k new xs below v =
    ground (arith, listed-insert_at k r new xs, below r refl)

ahead_of-insert_at :
    (o : Option ℕ) (k n : ℕ) (new : Node) (xs : List Node)
    → ((r : ℕ) → o ≡ some r → r < new.number)
    → ahead_of o n xs ≡ true
    → ahead_of o n (insert_at k new xs) ≡ true
ahead_of-insert_at none k n new xs below h = cc
ahead_of-insert_at (some r) k n new xs below h =
    let early = below r refl in ahead-insert_at k r n new xs (omega arith) h

inserts-Covers :
    (start k j : ℕ) (w : Walk) → Covers start w → OnReturn (Covers start) (act (inserts k j) w)
unfolding act
inserts-Covers start k j w c =
    let new : Node = record { number = w.fresh; id = j } in
    record {
      numbered = Numbered-insert_at k j w.fresh w.nodes c.numbered;
      bound = λ r at. omega (arith, c.bound r at);
      old = omega (arith, c.old);
      covered = λ n early there v.
          let listed_before : listed n w.nodes ≡ true =
            ground (arith, listed-insert_at k n new w.nodes, c.old) in
          elim (c.covered n early listed_before
            (valid-insert_at w.runner k new w.nodes c.bound v)) [
              | inl seen ↦ inl seen
              | inr later ↦ inr (ahead_of-insert_at w.runner k n new w.nodes c.bound later)
            ];
    }

act-Covers :
    (start : ℕ) (a : Action) (w : Walk) → Covers start w → OnReturn (Covers start) (act a w)
unfolding act visit
act-Covers start visits w c = visit_at-Covers start w.runner w refl c
act-Covers start (removes j) w c = removes-Covers start j w c
act-Covers start (inserts k j) w c = inserts-Covers start k j w c

act_all-Covers :
    (start : ℕ) (actions : List Action) (w : Walk)
    → Covers start w
    → OnReturn (Covers start) (act_all actions w)
unfolding act_all
act_all-Covers start [] w c = c
act_all-Covers start (a ∷ rest) w c =
    OnReturn->>= (Covers start) (Covers start) (act a w) (act_all rest) (act-Covers start a w c)
      (λ v d. act_all-Covers start rest v d)

started-Covers :
    (start : ℕ) (nodes : List Node) → Numbered start nodes → Covers start (started_walk nodes start)
unfolding started_walk
started-Covers start [] u = record {
  numbered = tt;
  bound = λ r at. cc;
  old = omega arith;
  covered = λ n early there v. cc;
}
started-Covers start (x ∷ xs) u = record {
  numbered = u;
  bound = λ r at. rw (some-injective _ _ at) at u.0;
  old = omega arith;
  covered = λ n early there v. inr (ground arith);
}

-- However commands stop and start sessions between the visits of a walk, if no visit reads a freed node
-- and the walk comes to its end, every node that was in the list when it began, and still is in it at the
-- end, was visited.
pub act_all-visited :
    (actions : List Action) (nodes : List Node) (start n : ℕ) (w : Walk)
    → Numbered start nodes
    → act_all actions (started_walk nodes start) ≡ returned w
    → w.runner ≡ none
    → listed n nodes ≡ true
    → listed n w.nodes ≡ true
    → has n w.visited ≡ true
act_all-visited actions nodes start n w u run over before after =
    let c : Covers start w =
      rw run at (act_all-Covers start actions _ (started-Covers start nodes u)) in
    elim (c.covered n (listed_bound nodes u before) after (rw over refl)) [
      | inl seen ↦ seen
      | inr later ↦ let no : false ≡ true = rw over at later in cc
    ]
  where
    listed_bound : (xs : List Node) → Numbered start xs → listed n xs ≡ true → n < start
    listed_bound [] v h = cc
    listed_bound (x ∷ xs) v h = ground (arith, v.0, listed_bound xs v.1.1)
