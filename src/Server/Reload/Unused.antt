-- ===== src/Server/Reload/Unused.antt =====
-- The servers that no file was read for are cleaned up, and the others are left.
use rahunas.Prelude.{
  ℕ, zero, suc, ◌+◌, false, ==_refl, ◌<◌, ◌≡◌, refl, ◌≢◌, sym, ap, ◌∙◌, List, [], ◌∷◌, ◌++◌, none,
  some, arith, ◌==◌, if◌then◌else◌, Bool-cases, inl, inr, ◌⊎◌, All, All-split, length-append,
  All-append, length,
}
use rahunas.Server.Keeps.{SameConfig, Kept, rh_task_cleanup-SameConfig}
use rahunas.Server.Registry.Numbers.{Apart}
use rahunas.Server.Registry.{id_of, unregister_vserver}
use rahunas.Server.Reload.{first_unused, cleanup_loop, vserver_unused_cleanup}
use rahunas.Server.Run.{Run, returned, ◌>>=◌, >>=_assoc, >>=_ext}
use rahunas.Server.Stopping.{World}
use rahunas.Server.Tasks.{rh_task_cleanup}
use rahunas.Server.{Server, Site, Shared, vs_none}

-- The servers in use, in order.
pub used : List Server → List Server
used [] = []
used (v ∷ vs) =
    let rest = used vs in if v.vserver_config.init_flag == vs_none then rest else v ∷ rest

-- Each server that is not in use is cleaned up once, from the first to the last.
pub clean_unused : World → Shared → List Server → Run Shared
clean_unused w m [] = returned m
clean_unused w m (v ∷ vs) =
    if v.vserver_config.init_flag == vs_none
    then (rh_task_cleanup w (record { vs = v; ms = m }) >>= λ u. clean_unused w u.ms vs)
    else clean_unused w m vs

-- The list is split at the first server that is not in use, and what is to be done is split with it.
record Split (w : World) (vs : List Server) : Type 0 where
  pub front : List Server
  pub unused : Server
  pub back : List Server
  pub found : first_unused vs ≡ some (front, unused, back)
  pub whole : vs ≡ front ++ (unused ∷ back)
  pub clean :
      (m : Shared)
      → clean_unused w m vs
        ≡ rh_task_cleanup w (record { vs = unused; ms = m }) >>= λ u.
            clean_unused w u.ms (front ++ back)
  pub kept : used vs ≡ used (front ++ back)

record Clean (w : World) (vs : List Server) : Type 0 where
  pub found : first_unused vs ≡ none
  pub clean : (m : Shared) → clean_unused w m vs ≡ returned m
  pub kept : used vs ≡ vs

first_unused-cases : (w : World) (vs : List Server) → Clean w vs ⊎ Split w vs
unfolding first_unused clean_unused used
first_unused-cases w [] = inl (record { found = refl; clean = λ m. refl; kept = refl })
first_unused-cases w (v ∷ vs) = elim (Bool-cases (v.vserver_config.init_flag == vs_none)) [
  | inl h ↦ inr (record {
    front = [];
    unused = v;
    back = vs;
    found = rw h refl;
    whole = refl;
    clean = λ m. rw h refl;
    kept = rw h refl;
  })
  | inr h ↦ elim (first_unused-cases w vs) [
    | inl c ↦ inl (record {
      found = rw (h, c.found) refl;
      clean = λ m. rw h (c.clean m);
      kept = rw h (ap (◌∷◌ v) c.kept);
    })
    | inr s ↦ inr (record {
      front = v ∷ s.front;
      unused = s.unused;
      back = s.back;
      found = rw (h, s.found) refl;
      whole = ap (◌∷◌ v) s.whole;
      clean = λ m. rw h (s.clean m);
      kept = rw h (ap (◌∷◌ v) s.kept);
    })
  ]
]

-- The first server with the number is the one that was cleaned up.
unregister-split :
    (front back : List Server) (v : Server) (id : ℕ)
    → id_of v ≡ id
    → All (λ x. id_of x ≢ id) front
    → unregister_vserver id (front ++ (v ∷ back)) ≡ front ++ back
unfolding unregister_vserver
unregister-split [] back v id e all = rw e (rw (==_refl id) refl)
unregister-split (x ∷ xs) back v id e all =
    let apart : (id_of x == id) ≡ false = ground arith in
    rw apart (ap (◌∷◌ x) (unregister-split xs back v id e all.1))

Apart-split :
    (front back : List Server) (v : Server)
    → Apart (front ++ (v ∷ back))
    → All (λ x. id_of x ≢ id_of v) front × Apart (front ++ back)
Apart-split [] back v d = (tt, d.1)
Apart-split (x ∷ xs) back v d =
    let (others, rest) = Apart-split xs back v d.1 in
    let (before, after) = All-split (λ y. id_of y ≢ id_of x) xs (v ∷ back) d.0 in
    ((λ e. after.0 (sym e), others), (All-append _ xs back before after.1, rest))

Split-shorter :
    (w : World) (vs : List Server) (s : Split w vs) (fuel : ℕ)
    → length vs < suc fuel
    → length (s.front ++ s.back) < fuel
Split-shorter w vs s fuel small =
    let long : length vs ≡ length s.front + suc (length s.back) =
      ap length s.whole ∙ length-append s.front (s.unused ∷ s.back) in
    rw (length-append s.front s.back) (omega arith)

cleanup_loop_lem :
    (fuel : ℕ) (w : World) (m : Shared) (vs : List Server)
    → Apart vs
    → length vs < fuel
    → cleanup_loop fuel w m vs ≡ clean_unused w m vs >>= λ n. returned (n, used vs)
unfolding cleanup_loop
cleanup_loop_lem zero w m vs d small = absurd (omega arith)
cleanup_loop_lem (suc fuel) w m vs d small = elim (first_unused-cases w vs) [
  | inl c ↦ rw (c.found, c.clean m, c.kept, cleanup_loop) refl
  | inr s ↦
      let (others, rest) = Apart-split s.front s.back s.unused (rw s.whole at d) in
      let begin : Site = record { vs = s.unused; ms = m } in
      let left = s.front ++ s.back in
      let next : Site → Run (Shared × List Server) = λ u.
        cleanup_loop fuel w u.ms (unregister_vserver (id_of u.vs) (s.front ++ (u.vs ∷ s.back))) in
      let ideal : Site → Run (Shared × List Server) =
        λ u. clean_unused w u.ms left >>= λ n. returned (n, used left) in
      let shorter : length left < fuel = Split-shorter w vs s fuel small in
      let agree : (u : Site) → SameConfig begin u → next u ≡ ideal u = λ u same.
        let numbered : id_of u.vs ≡ id_of s.unused = ap (λ (k : Kept). k.number) same in
        let apart : All (λ x. id_of x ≢ id_of u.vs) s.front = rw numbered others in
        rw (unregister-split s.front s.back u.vs (id_of u.vs) refl apart)
          (cleanup_loop_lem fuel w u.ms left rest shorter) in
      let run = rh_task_cleanup w begin in
      rw (s.found, s.clean m, s.kept, cleanup_loop)
        (>>=_ext (SameConfig begin) run next ideal (rh_task_cleanup-SameConfig w begin) agree
          ∙ sym (>>=_assoc run (λ u. clean_unused w u.ms left) (λ n. returned (n, used left))))
]

-- Where no two servers have one number, the clean-up of the servers that are not in use ends if the
-- clean-ups of their tasks do: each is cleaned up once, in order, and those in use are left, in order.
pub vserver_unused_cleanup_lem :
    (w : World) (m : Shared) (vs : List Server)
    → Apart vs
    → vserver_unused_cleanup w m vs ≡ clean_unused w m vs >>= λ n. returned (n, used vs)
unfolding vserver_unused_cleanup
vserver_unused_cleanup_lem w m vs d = cleanup_loop_lem (suc (length vs)) w m vs d (omega arith)
