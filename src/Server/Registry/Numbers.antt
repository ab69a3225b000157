-- ===== src/Server/Registry/Numbers.antt =====
-- Registration keeps the numbers of the virtual servers apart.
use rahunas.Prelude.{
  ℕ, ◌≡◌, refl, ◌≢◌, sym, ap, List, [], ◌∷◌, ◌++◌, Option, none, some, arith, ◌==◌, Bool-cases,
  Option-cases, inl, inr, All, All-append, if-elim, map,
}
use rahunas.Server.Registry.{
  id_of, name_of, vserver_exists, strncmp_read, offer, modify_existing, register_vserver,
  load_files, get_vservers_config, conf_file, contains,
}
use rahunas.Server.Run.{Run, returned, ◌>>=◌, OnReturn, OnReturn->>=, any_return}
use rahunas.Server.{Server, VServerConfig}
use rahunas.Text.{Bytes, strcmp_eq, codes}

-- No two servers have one number.
abbrev pub Apart : List Server → Type 0
Apart [] = Unit
Apart (v ∷ vs) = All (λ x. id_of x ≢ id_of v) vs × Apart vs

-- A list has the same numbers as another, one by one.
abbrev SameNumbers : List Server → List Server → Type 0
SameNumbers vs ws = map id_of ws ≡ map id_of vs

offer-id_of :
    (config : VServerConfig) (v : Server) → OnReturn (λ w. id_of w ≡ id_of v) (offer config v)
unfolding offer strncmp_read
offer-id_of config v = ground arith

modify_existing-SameNumbers :
    (id : ℕ) (name : Bytes) (f : Server → Run Server) (vs : List Server)
    → ((v : Server) → OnReturn (λ w. id_of w ≡ id_of v) (f v))
    → OnReturn (SameNumbers vs) (modify_existing id name f vs)
unfolding modify_existing
modify_existing-SameNumbers id name f [] keeps = refl
modify_existing-SameNumbers id name f (v ∷ vs) keeps =
    if-elim (OnReturn (SameNumbers (v ∷ vs))) (id_of v == id) _ _ changed (
      if-elim (OnReturn (SameNumbers (v ∷ vs))) (strcmp_eq (name_of v) name) _ _ changed (
        OnReturn->>= (SameNumbers vs) (SameNumbers (v ∷ vs)) (modify_existing id name f vs) _
          (modify_existing-SameNumbers id name f vs keeps) (λ ws e. ap (◌∷◌ (id_of v)) e)))
  where
    changed : OnReturn (SameNumbers (v ∷ vs)) (f v >>= λ w. returned (w ∷ vs))
    changed =
        OnReturn->>= (λ w. id_of w ≡ id_of v) (SameNumbers (v ∷ vs)) (f v) _ (keeps v)
          (λ w e. ap (λ n. n ∷ map id_of vs) e)

-- That the numbers are apart is a matter of the numbers.
ApartNumbers : List ℕ → Type 0
ApartNumbers [] = Unit
ApartNumbers (n ∷ ns) = All (λ x. x ≢ n) ns × ApartNumbers ns

All-numbers :
    (n : ℕ) (vs : List Server)
    → (All (λ x. id_of x ≢ n) vs → All (λ x. x ≢ n) (map id_of vs))
      × (All (λ x. x ≢ n) (map id_of vs) → All (λ x. id_of x ≢ n) vs)
All-numbers n [] = (λ h. h, λ h. h)
All-numbers n (v ∷ vs) =
    let (to, from) = All-numbers n vs in (λ h. (h.0, to h.1), λ h. (h.0, from h.1))

Apart-numbers :
    (vs : List Server)
    → (Apart vs → ApartNumbers (map id_of vs)) × (ApartNumbers (map id_of vs) → Apart vs)
unfolding ApartNumbers
Apart-numbers [] = (λ h. h, λ h. h)
Apart-numbers (v ∷ vs) =
    let (to, from) = Apart-numbers vs in
    let others = All-numbers (id_of v) vs in
    (λ h. (others.0 h.0, to h.1), λ h. (others.1 h.0, from h.1))

SameNumbers-Apart : (vs ws : List Server) → SameNumbers vs ws → Apart vs → Apart ws
SameNumbers-Apart vs ws e d = (Apart-numbers ws).1 (rw e ((Apart-numbers vs).0 d))

missing-All :
    (id : ℕ) (name : Bytes) (vs : List Server)
    → vserver_exists vs id name ≡ none
    → All (λ x. id_of x ≢ id) vs
unfolding vserver_exists
missing-All id name [] e = tt
missing-All id name (v ∷ vs) e = elim (Bool-cases (id_of v == id)) [
  | inl h ↦ let found : some v ≡ none = rw h at e in absurd cc
  | inr h ↦ elim (Bool-cases (strcmp_eq (name_of v) name)) [
    | inl n ↦ let found : some v ≡ none = rw (h, n) at e in absurd cc
    | inr n ↦ (ground arith, missing-All id name vs (rw (h, n) at e))
  ]
]

append-Apart :
    (vs : List Server) (new : Server)
    → Apart vs
    → All (λ x. id_of x ≢ id_of new) vs
    → Apart (vs ++ (new ∷ []))
append-Apart [] new d all = (tt, tt)
append-Apart (v ∷ vs) new d all = (
  All-append (λ y. id_of y ≢ id_of v) vs (new ∷ []) d.0 (λ e. all.0 (sym e), tt),
  append-Apart vs new d.1 all.1,
)

-- Registering what was read from a file keeps the numbers of the servers apart, whether the file is
-- for a new server, for one that is there, or cannot be read.
pub register_vserver-Apart :
    (config : Option VServerConfig) (vs : List Server)
    → Apart vs
    → OnReturn (λ r. Apart r.0) (register_vserver config vs)
unfolding register_vserver
register_vserver-Apart none vs d = d
register_vserver-Apart (some config) vs d =
    let id = config.vserver_id in
    let name = config.vserver_name in
    elim (Option-cases (vserver_exists vs id name)) [
      | inl e ↦ rw (e, register_vserver) (append-Apart vs _ d (missing-All id name vs e))
      | inr (old, e) ↦
          rw (e, register_vserver)
            (OnReturn->>= (SameNumbers vs) (λ r. Apart r.0)
              (modify_existing id name (offer config) vs) _
              (modify_existing-SameNumbers id name (offer config) vs (offer-id_of config))
              (λ ws same. SameNumbers-Apart vs ws same d))
    ]

load_files-Apart :
    (read : Bytes → Option VServerConfig) (conf_dir : Bytes) (names : List Bytes) (vs : List Server)
    → Apart vs
    → OnReturn Apart (load_files read conf_dir names vs)
unfolding load_files
load_files-Apart read conf_dir [] vs d = d
load_files-Apart read conf_dir (name ∷ names) vs d =
    if-elim (OnReturn Apart) (contains (codes ".conf") name) _ _
      (OnReturn->>= (λ p. Unit) Apart (conf_file conf_dir name) _ (any_return _)
        (λ path x.
          OnReturn->>= (λ r. Apart r.0) Apart (register_vserver (read path) vs) _
            (register_vserver-Apart (read path) vs d)
            (λ r d'. load_files-Apart read conf_dir names r.0 d')))
      (load_files-Apart read conf_dir names vs d)

-- After all files of the configuration directory were read, the numbers of the servers are apart if
-- they were before, whatever the files say and whether or not the directory can be opened.
pub get_vservers_config-Apart :
    (read : Bytes → Option VServerConfig) (conf_dir : Bytes) (names : Option (List Bytes))
    (vs : List Server)
    → Apart vs
    → OnReturn Apart (get_vservers_config read conf_dir names vs)
unfolding get_vservers_config
get_vservers_config-Apart read conf_dir none vs d = d
get_vservers_config-Apart read conf_dir (some names) vs d =
    load_files-Apart read conf_dir names vs d
