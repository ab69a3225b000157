-- ===== src/Config/Texts/Freed.antt =====
-- What freeing does to the heap, and what a clean-up that comes twice frees.
use rahunas.Config.Texts.{free_all, unregister_all}
use rahunas.Prelude.{
  ℕ, All, sym, ◌≡◌, refl, ap, ◌∙◌, Bool, true, false, List, [], ◌∷◌, ◌++◌, Option, none, some,
  arith, ◌==◌, if◌then◌else◌, if-elim,
}
use rahunas.Server.Run.{Run, returned, ◌>>=◌, >>=_assoc, >>=_ext, any_return}
use rahunas.Utils.Log.{Memory, free, rh_free, is_live, without}

-- Whether an address is among the fields.
abbrev pub among : ℕ → List (Option ℕ) → Bool
among a [] = false
among a (none ∷ ps) = among a ps
among a (some b ∷ ps) = let rest = among a ps in if a == b then true else rest

-- No block is allocated twice.
abbrev pub Blocks : List ℕ → Type 0
Blocks [] = Unit
Blocks (a ∷ xs) = (is_live a xs ≡ false) × Blocks xs

-- Every text is a live block, and no two fields share one.
abbrev pub Texts : List ℕ → List (Option ℕ) → Type 0
Texts live [] = Unit
Texts live (none ∷ ps) = Texts live ps
Texts live (some a ∷ ps) = (is_live a live ≡ true) × ((among a ps ≡ false) × Texts live ps)

is_live-without :
    (a b : ℕ) (xs : List ℕ)
    → Blocks xs
    → is_live b (without a xs) ≡ (if b == a then false else is_live b xs)
unfolding is_live without
is_live-without a b [] u = ground arith
is_live-without a b (x ∷ xs) u = ground (arith, is_live-without a b xs u.1, u.0)

Blocks-without : (a : ℕ) (xs : List ℕ) → Blocks xs → Blocks (without a xs)
unfolding is_live without
Blocks-without a [] u = tt
Blocks-without a (x ∷ xs) u =
    if-elim Blocks (a == x) xs (x ∷ without a xs) u.1
      (is_live-without a x xs u.1 ∙ ground (arith, u.0), Blocks-without a xs u.1)

-- What freeing does to the heap.
pub record Frees (ps : List (Option ℕ)) (m : Memory) (r : Run Memory) : Type 0 where
  pub left : Memory
  pub runs : r ≡ returned left
  pub blocks : Blocks left.live
  pub printed : left.printed ≡ m.printed
  pub live : (b : ℕ) → is_live b left.live ≡ (if among b ps then false else is_live b m.live)

-- The fields that are left, when a text of another block was freed.
Texts-without :
    (a : ℕ) (live : List ℕ) (ps : List (Option ℕ))
    → Blocks live
    → among a ps ≡ false
    → Texts live ps
    → Texts (without a live) ps
Texts-without a live [] u apart t = tt
Texts-without a live (none ∷ ps) u apart t = Texts-without a live ps u apart t
Texts-without a live (some b ∷ ps) u apart t = (
  is_live-without a b live u ∙ ground (arith, t.0),
  (t.1.0, Texts-without a live ps u (ground arith) t.1.1),
)

freed_live :
    (a b : ℕ) (ps : List (Option ℕ)) (m : Memory)
    → Blocks m.live
    → (if among b ps then false else is_live b (without a m.live))
      ≡ (if among b (some a ∷ ps) then false else is_live b m.live)
freed_live a b ps m u = ground (arith, is_live-without a b m.live u)

pub free_all-Frees :
    (ps : List (Option ℕ)) (m : Memory)
    → Blocks m.live
    → Texts m.live ps
    → Frees ps m (free_all ps m)
unfolding free_all rh_free free
free_all-Frees [] m u t = record {
  left = m;
  runs = refl;
  blocks = u;
  printed = refl;
  live = λ b. refl;
}
free_all-Frees (none ∷ ps) m u t =
    let f = free_all-Frees ps m u t in
    record { left = f.left; runs = f.runs; blocks = f.blocks; printed = f.printed; live = f.live }
free_all-Frees (some a ∷ ps) m u t =
    let next : Memory = record m { live = without a m.live } in
    let f =
      free_all-Frees ps next (Blocks-without a m.live u)
        (Texts-without a m.live ps u t.1.0 t.1.1) in
    record {
      left = f.left;
      runs = rw (t.0) f.runs;
      blocks = f.blocks;
      printed = f.printed;
      live = λ b. f.live b ∙ freed_live a b ps m u;
    }

free_null :
    (ps : List (Option ℕ)) (m : Memory) → All (λ p. p ≡ none) ps → free_all ps m ≡ returned m
unfolding free_all rh_free
free_null [] m all = refl
free_null (p ∷ ps) m all = rw (all.0, free_all, rh_free) (free_null ps m all.1)

pub free_all-append :
    (ps qs : List (Option ℕ)) (m : Memory) → free_all (ps ++ qs) m ≡ free_all ps m >>= free_all qs
unfolding free_all
free_all-append [] qs m = refl
free_all-append (p ∷ ps) qs m =
    >>=_ext (λ left. Unit) (rh_free p m) (free_all (ps ++ qs))
      (λ left. free_all ps left >>= free_all qs) (any_return (rh_free p m))
      (λ left u. free_all-append ps qs left)
    ∙ sym (>>=_assoc (rh_free p m) (free_all ps) (free_all qs))

-- A kind of configuration: what a clean-up leaves of it, and that the clean-up frees its texts and
-- leaves null fields.
pub record Cleanup {ℓ} (C : Type ℓ) (cleanup : C → Memory → Run (C × Memory))
    (texts : C → List (Option ℕ)) : Type ℓ where
  pub cleaned : C → C
  pub frees :
      (c : C) (m : Memory)
      → cleanup c m ≡ free_all (texts c) m >>= λ left. returned (cleaned c, left)
  pub null : (c : C) → All (λ p. p ≡ none) (texts (cleaned c))

abbrev pub all_texts {ℓ} : {C : Type ℓ} → (C → List (Option ℕ)) → List C → List (Option ℕ)
all_texts texts [] = []
all_texts texts (c ∷ cs) = texts c ++ all_texts texts cs

module _ {ℓ} {C : Type ℓ} (cleanup : C → Memory → Run (C × Memory)) (texts : C → List (Option ℕ))
    (k : Cleanup C cleanup texts) where
  abbrev then_again : List C → C × Memory → Run Memory
  then_again cs r = cleanup r.0 r.1 >>= λ again. unregister_all cleanup cs again.1

  -- The second clean-up of a configuration finds null fields only.
  then_free :
      (c : C) (cs : List C) (left : Memory)
      → unregister_all cleanup cs left ≡ free_all (all_texts texts cs) left
      → then_again cs (k.cleaned c, left) ≡ free_all (all_texts texts cs) left
  then_free c cs left h =
      rw (k.frees (k.cleaned c) left, free_null (texts (k.cleaned c)) left (k.null c)) h

  -- The two clean-ups of each configuration are one freeing of all texts, in order.
  unregister_all-free_all :
      (cs : List C) (m : Memory) → unregister_all cleanup cs m ≡ free_all (all_texts texts cs) m
  unfolding unregister_all free_all
  unregister_all-free_all [] m = refl
  unregister_all-free_all (c ∷ cs) m =
      ap (λ r. r >>= then_again cs) (k.frees c m)
      ∙ (>>=_assoc (free_all (texts c) m) (λ left. returned (k.cleaned c, left)) (then_again cs)
          ∙ (>>=_ext (λ left. Unit) (free_all (texts c) m)
                (λ left. then_again cs (k.cleaned c, left)) (free_all (all_texts texts cs))
                (any_return (free_all (texts c) m))
                (λ left u. then_free c cs left (unregister_all-free_all cs left))
              ∙ sym (free_all-append (texts c) (all_texts texts cs) m)))

  pub Cleanup-Frees :
      (cs : List C) (m : Memory)
      → Blocks m.live
      → Texts m.live (all_texts texts cs)
      → Frees (all_texts texts cs) m (unregister_all cleanup cs m)
  Cleanup-Frees cs m u t =
      rw (unregister_all-free_all cs m) (free_all-Frees (all_texts texts cs) m u t)
