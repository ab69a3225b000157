-- ===== src/ServiceClass/Registry/Cleanup.antt =====
-- Registration keeps the numbers of the classes apart, and then the clean-up removes exactly the
-- unused classes.
use mathlib.Core.Option.{some-injective}
use rahunas.Prelude.{
  ℕ, zero, suc, false, ==_refl, ◌<◌, ◌≡◌, refl, ◌≢◌, sym, ap, ◌∙◌, List, [], ◌∷◌, ◌++◌, Option,
  none, some, arith, ◌==◌, if◌then◌else◌, Bool-cases, Option-cases, inl, inr, All, All-append,
  length,
}
use rahunas.ServiceClass.Registry.{
  flag, id_of, sc_none, set_flag, offer, modify_existing, register_serviceclass,
  unregister_serviceclass, first_unused, cleanup_loop, serviceclass_unused_cleanup,
}
use rahunas.ServiceClass.{ServiceClassConfig, ServiceClass, serviceclass_exists}
use rahunas.Text.{Bytes, strcmp_eq}

-- No two classes have one number.
abbrev pub DistinctNumbers : List ServiceClass → Type 0
DistinctNumbers [] = Unit
DistinctNumbers (sc ∷ scs) = All (λ x. id_of x ≢ id_of sc) scs × DistinctNumbers scs

-- The classes in use.
pub used : List ServiceClass → List ServiceClass
used [] = []
used (sc ∷ scs) = let rest = used scs in if flag sc == sc_none then rest else sc ∷ rest

first_unused-All {ℓ} :
    (P : ServiceClass → Type ℓ) (scs : List ServiceClass) (sc : ServiceClass)
    → All P scs
    → first_unused scs ≡ some sc
    → P sc
unfolding first_unused
first_unused-All P [] sc all e = cc
first_unused-All P (x ∷ xs) sc all e = elim (Bool-cases (flag x == sc_none)) [
  | inl h ↦ let same : sc ≡ x = sym (some-injective x sc (rw h at e)) in rw same all.0
  | inr h ↦ first_unused-All P xs sc all.1 (rw h at e)
]

used_whole : (scs : List ServiceClass) → first_unused scs ≡ none → used scs ≡ scs
unfolding first_unused used
used_whole [] e = refl
used_whole (x ∷ xs) e = ground (arith, used_whole xs)

All-unregister {ℓ} :
    (P : ServiceClass → Type ℓ) (id : ℕ) (scs : List ServiceClass)
    → All P scs
    → All P (unregister_serviceclass id scs)
unfolding unregister_serviceclass
All-unregister P id [] all = tt
All-unregister P id (x ∷ xs) all = elim (Bool-cases (id_of x == id)) [
  | inl h ↦ rw h all.1
  | inr h ↦ rw h (all.0, All-unregister P id xs all.1)
]

unregister-Distinct :
    (id : ℕ) (scs : List ServiceClass)
    → DistinctNumbers scs
    → DistinctNumbers (unregister_serviceclass id scs)
unfolding unregister_serviceclass
unregister-Distinct id [] d = tt
unregister-Distinct id (x ∷ xs) d = elim (Bool-cases (id_of x == id)) [
  | inl h ↦ rw h d.1
  | inr h ↦ rw h (All-unregister (λ y. id_of y ≢ id_of x) id xs d.0, unregister-Distinct id xs d.1)
]

used-unregister :
    (scs : List ServiceClass) (sc : ServiceClass)
    → DistinctNumbers scs
    → first_unused scs ≡ some sc
    → (used (unregister_serviceclass (id_of sc) scs) ≡ used scs)
      × (suc (length (unregister_serviceclass (id_of sc) scs)) ≡ length scs)
unfolding first_unused used unregister_serviceclass
used-unregister [] sc d e = cc
used-unregister (x ∷ xs) sc d e = elim (Bool-cases (flag x == sc_none)) [
  | inl h ↦
      let same : sc ≡ x = sym (some-injective x sc (rw h at e)) in
      rw (same, ==_refl (id_of x), h) (refl, refl)
  | inr h ↦
      let later : first_unused xs ≡ some sc = rw h at e in
      let other : id_of sc ≢ id_of x = first_unused-All (λ y. id_of y ≢ id_of x) xs sc d.0 later in
      let apart : (id_of x == id_of sc) ≡ false = ground arith in
      let (same, shorter) = used-unregister xs sc d.1 later in
      rw (apart, h) (ap (◌∷◌ x) same, ap suc shorter)
]

cleanup_loop-used :
    (fuel : ℕ) (scs : List ServiceClass)
    → DistinctNumbers scs
    → length scs < fuel
    → cleanup_loop fuel scs ≡ some (used scs)
unfolding cleanup_loop
cleanup_loop-used zero scs d lt = absurd (omega arith)
cleanup_loop-used (suc fuel) scs d lt = elim (Option-cases (first_unused scs)) [
  | inl e ↦ rw (e, cleanup_loop) (ap some (sym (used_whole scs e)))
  | inr (sc, e) ↦
      let (same, shorter) = used-unregister scs sc d e in
      rw (e, cleanup_loop)
        (cleanup_loop-used fuel _ (unregister-Distinct (id_of sc) scs d) (omega arith)
          ∙ ap some same)
]

-- Where no two classes have one number, the clean-up ends, and leaves the classes in use, in order.
pub serviceclass_unused_cleanup-used :
    (scs : List ServiceClass)
    → DistinctNumbers scs
    → serviceclass_unused_cleanup scs ≡ some (used scs)
unfolding serviceclass_unused_cleanup
serviceclass_unused_cleanup-used scs d = cleanup_loop-used (suc (length scs)) scs d (omega arith)

modify_existing-All {ℓ} :
    (P : ServiceClass → Type ℓ) (id : ℕ) (name : Bytes) (f : ServiceClass → ServiceClass)
    (scs : List ServiceClass)
    → ((x : ServiceClass) → P x → P (f x))
    → All P scs
    → All P (modify_existing id name f scs)
unfolding modify_existing
modify_existing-All P id name f [] keeps all = tt
modify_existing-All P id name f (x ∷ xs) keeps all =
    let here : All P (f x ∷ xs) = (keeps x all.0, all.1) in
    elim (Bool-cases (id_of x == id)) [
      | inl h ↦ rw h here
      | inr h ↦ elim (Bool-cases (strcmp_eq x.serviceclass_config.serviceclass_name name)) [
        | inl n ↦ rw (h, n) here
        | inr n ↦ rw (h, n) (all.0, modify_existing-All P id name f xs keeps all.1)
      ]
    ]

offer-id_of : (config : ServiceClassConfig) (sc : ServiceClass) → id_of (offer config sc) ≡ id_of sc
unfolding offer set_flag
offer-id_of config sc = ground arith

modify_existing-Distinct :
    (id : ℕ) (name : Bytes) (config : ServiceClassConfig) (scs : List ServiceClass)
    → DistinctNumbers scs
    → DistinctNumbers (modify_existing id name (offer config) scs)
unfolding modify_existing
modify_existing-Distinct id name config [] d = tt
modify_existing-Distinct id name config (x ∷ xs) d =
    let here : DistinctNumbers (offer config x ∷ xs) = rw (offer-id_of config x) d in
    elim (Bool-cases (id_of x == id)) [
      | inl h ↦ rw h here
      | inr h ↦ elim (Bool-cases (strcmp_eq x.serviceclass_config.serviceclass_name name)) [
        | inl n ↦ rw (h, n) here
        | inr n ↦
            rw (h, n)
              (
                modify_existing-All (λ y. id_of y ≢ id_of x) id name (offer config) xs
                    (λ y ne. rw (offer-id_of config y) ne) d.0,
                modify_existing-Distinct id name config xs d.1,
              )
      ]
    ]

missing-All :
    (id : ℕ) (name : Bytes) (scs : List ServiceClass)
    → serviceclass_exists scs id name ≡ none
    → All (λ x. id_of x ≢ id) scs
unfolding serviceclass_exists
missing-All id name [] e = tt
missing-All id name (x ∷ xs) e = elim (Bool-cases (id_of x == id)) [
  | inl h ↦ let found : some x ≡ none = rw h at e in absurd cc
  | inr h ↦ elim (Bool-cases (strcmp_eq x.serviceclass_config.serviceclass_name name)) [
    | inl n ↦ let found : some x ≡ none = rw (h, n) at e in absurd cc
    | inr n ↦ (ground arith, missing-All id name xs (rw (h, n) at e))
  ]
]

append-Distinct :
    (scs : List ServiceClass) (new : ServiceClass)
    → DistinctNumbers scs
    → All (λ x. id_of x ≢ id_of new) scs
    → DistinctNumbers (scs ++ (new ∷ []))
append-Distinct [] new d all = (tt, tt)
append-Distinct (x ∷ xs) new d all = (
  All-append (λ y. id_of y ≢ id_of x) xs (new ∷ []) d.0 (λ e. all.0 (sym e), tt),
  append-Distinct xs new d.1 all.1,
)

-- Registering what was read from a file keeps the numbers of the classes apart, whether the file is
-- for a new class, for one that is there, or cannot be read.
pub register_serviceclass-Distinct :
    (config : Option ServiceClassConfig) (scs : List ServiceClass)
    → DistinctNumbers scs
    → DistinctNumbers (register_serviceclass config scs).0
unfolding register_serviceclass
register_serviceclass-Distinct none scs d = d
register_serviceclass-Distinct (some config) scs d =
    let id = config.serviceclass_id in
    let name = config.serviceclass_name in
    elim (Option-cases (serviceclass_exists scs id name)) [
      | inl e ↦ rw (e, register_serviceclass) (append-Distinct scs _ d (missing-All id name scs e))
      | inr (old, e) ↦ rw (e, register_serviceclass) (modify_existing-Distinct id name config scs d)
    ]
