-- ===== src/Daemon/Walk/Nodes.antt =====
-- What a removal and an insertion do to the nodes of a list, and to what is ahead of one.
use mathlib.Core.Option.{some-injective}
use rahunas.Daemon.Walk.{Node, node_at, remove_id, insert_at}
use rahunas.Prelude.{
  ℕ, zero, suc, ◌+◌, ◌<◌, ◌≡◌, refl, ◌⊎◌, inl, inr, Bool, true, false, List, [], ◌∷◌, Option, none,
  some, arith, Bool-cases, OnSome, OnSome-map, if-elim, ◌∙◌, ◌≢◌, ◌==◌, if◌then◌else◌,
}

abbrev pub listed : ℕ → List Node → Bool
listed n [] = false
listed n (x ∷ xs) = let rest = listed n xs in if x.number == n then true else rest

-- At or behind the node `r`.
abbrev pub ahead : ℕ → ℕ → List Node → Bool
ahead r n [] = false
ahead r n (x ∷ xs) = let rest = ahead r n xs in if x.number == r then listed n (x ∷ xs) else rest

-- No number twice, and each below the bound.
abbrev pub Numbered : ℕ → List Node → Type 0
Numbered b [] = Unit
Numbered b (x ∷ xs) = (x.number < b) × ((listed x.number xs ≡ false) × Numbered b xs)

pub ahead-listed : (r n : ℕ) (xs : List Node) → ahead r n xs ≡ true → listed n xs ≡ true
ahead-listed r n [] h = cc
ahead-listed r n (x ∷ xs) h = ground (arith, ahead-listed r n xs)

pub listed-remove_id :
    (j n : ℕ) (xs : List Node) → listed n (remove_id j xs) ≡ true → listed n xs ≡ true
unfolding remove_id
listed-remove_id j n [] h = cc
listed-remove_id j n (x ∷ xs) h = ground (arith, listed-remove_id j n xs)

pub ahead-remove_id :
    (j r n b : ℕ) (xs : List Node)
    → Numbered b xs
    → listed r (remove_id j xs) ≡ true
    → listed n (remove_id j xs) ≡ true
    → ahead r n xs ≡ true
    → ahead r n (remove_id j xs) ≡ true
unfolding remove_id
ahead-remove_id j r n b [] u hr hn h = cc
ahead-remove_id j r n b (x ∷ xs) u hr hn h =
    ground
      (arith, ahead-remove_id j r n b xs u.1.1, ahead-listed r n xs, listed-remove_id j r xs, u.1.0)

pub listed-insert_at :
    (k r : ℕ) (new : Node) (xs : List Node)
    → listed r (insert_at k new xs) ≡ (if new.number == r then true else listed r xs)
unfolding insert_at
listed-insert_at zero r new xs = refl
listed-insert_at (suc k) r new [] = refl
listed-insert_at (suc k) r new (x ∷ xs) = ground (arith, listed-insert_at k r new xs)

pub ahead-insert_at :
    (k r n : ℕ) (new : Node) (xs : List Node)
    → new.number ≢ r
    → ahead r n xs ≡ true
    → ahead r n (insert_at k new xs) ≡ true
unfolding insert_at
ahead-insert_at zero r n new xs ne h = ground arith
ahead-insert_at (suc k) r n new [] ne h = cc
ahead-insert_at (suc k) r n new (x ∷ xs) ne h =
    ground (arith, ahead-insert_at k r n new xs ne, listed-insert_at k n new xs)

pub Numbered-remove_id : (j b : ℕ) (xs : List Node) → Numbered b xs → Numbered b (remove_id j xs)
unfolding remove_id
Numbered-remove_id j b [] u = tt
Numbered-remove_id j b (x ∷ xs) u =
    if-elim (Numbered b) (x.id == j) xs (x ∷ remove_id j xs) u.1.1 (
      u.0,
      (ground (arith, listed-remove_id j x.number xs, u.1.0), Numbered-remove_id j b xs u.1.1),
    )

pub Numbered-suc : (b : ℕ) (xs : List Node) → Numbered b xs → Numbered (b + 1) xs
Numbered-suc b [] u = tt
Numbered-suc b (x ∷ xs) u = (omega (arith, u.0), (u.1.0, Numbered-suc b xs u.1.1))

pub fresh_number : (b : ℕ) (xs : List Node) → Numbered b xs → listed b xs ≡ false
fresh_number b [] u = refl
fresh_number b (x ∷ xs) u = ground (arith, fresh_number b xs u.1.1, u.0)

pub Numbered-insert_at :
    (k j b : ℕ) (xs : List Node)
    → Numbered b xs
    → Numbered (b + 1) (insert_at k (record { number = b; id = j }) xs)
unfolding insert_at
Numbered-insert_at zero j b xs u = (omega arith, (fresh_number b xs u, Numbered-suc b xs u))
Numbered-insert_at (suc k) j b [] u = (omega arith, (refl, tt))
Numbered-insert_at (suc k) j b (x ∷ xs) u = (
  omega (arith, u.0),
  (
    listed-insert_at k x.number (record { number = b; id = j }) xs ∙ ground (arith, u.0, u.1.0),
    Numbered-insert_at k j b xs u.1.1,
  ),
)

-- The null pointer is valid, and has nothing ahead.
abbrev pub valid : Option ℕ → List Node → Bool
valid none xs = true
valid (some r) xs = listed r xs

abbrev pub ahead_of : Option ℕ → ℕ → List Node → Bool
ahead_of none n xs = false
ahead_of (some r) n xs = ahead r n xs

pub ahead_cons :
    (r n : ℕ) (x : Node) (xs : List Node) → ahead r n xs ≡ true → ahead r n (x ∷ xs) ≡ true
ahead_cons r n x xs h = ground (arith, ahead-listed r n xs)

pub ahead_of_cons :
    (o : Option ℕ) (n : ℕ) (x : Node) (xs : List Node)
    → ahead_of o n xs ≡ true
    → ahead_of o n (x ∷ xs) ≡ true
ahead_of_cons none n x xs h = cc
ahead_of_cons (some r) n x xs h = ahead_cons r n x xs h

pub valid_cons :
    (o : Option ℕ) (x : Node) (xs : List Node) → valid o xs ≡ true → valid o (x ∷ xs) ≡ true
valid_cons none x xs v = refl
valid_cons (some r) x xs v = ground arith

-- What is found at a number, with the node behind it.
pub record Found (r b : ℕ) (p : Node × Option ℕ) (xs : List Node) : Type 0 where
  pub same : p.0.number ≡ r
  pub there : listed r xs ≡ true
  pub bound : (y : ℕ) → p.1 ≡ some y → y < b
  pub next : valid p.1 xs ≡ true
  pub moves : (n : ℕ) → ahead r n xs ≡ true → (n ≡ r) ⊎ (ahead_of p.1 n xs ≡ true)

pub node_at-Found :
    (r b : ℕ) (xs : List Node) → Numbered b xs → OnSome (λ p. Found r b p xs) (node_at r xs)
unfolding node_at
node_at-Found r b [] u = tt
node_at-Found r b (x ∷ []) u = elim (Bool-cases (x.number == r)) [
  | inl e ↦ rw e (record {
    same = ground arith;
    there = ground arith;
    bound = λ y no. cc;
    next = refl;
    moves = λ n h. inl (ground arith);
  })
  | inr e ↦ rw e tt
]
node_at-Found r b (x ∷ y ∷ xs) u = elim (Bool-cases (x.number == r)) [
  | inl e ↦ rw e (record {
    same = ground arith;
    there = ground arith;
    bound = λ z h. bound_of z h;
    next = ground arith;
    moves = λ n h. moved n h e;
  })
  | inr e ↦ rw e (
      OnSome-map (λ p. Found r b p (y ∷ xs)) (λ p. Found r b p (x ∷ y ∷ xs)) _
        (λ p f. record {
          same = f.same;
          there = rw e f.there;
          bound = f.bound;
          next = valid_cons p.1 x (y ∷ xs) f.next;
          moves = λ n h. later p n f (rw e at h);
        })
        (node_at-Found r b (y ∷ xs) u.1.1))
]
  where
    bound_of : (z : ℕ) → some y.number ≡ some z → z < b
    bound_of z h = rw (some-injective _ _ h) at u.1.1.0

    moved :
        (n : ℕ)
        → ahead r n (x ∷ y ∷ xs) ≡ true
        → (x.number == r) ≡ true
        → (n ≡ r) ⊎ (ahead y.number n (x ∷ y ∷ xs) ≡ true)
    moved n h e = ground arith

    later :
        (p : Node × Option ℕ) (n : ℕ)
        → Found r b p (y ∷ xs)
        → ahead r n (y ∷ xs) ≡ true
        → (n ≡ r) ⊎ (ahead_of p.1 n (x ∷ y ∷ xs) ≡ true)
    later p n f h = elim (f.moves n h) [
      | inl same ↦ inl same
      | inr there ↦ inr (ahead_of_cons p.1 n x (y ∷ xs) there)
    ]
