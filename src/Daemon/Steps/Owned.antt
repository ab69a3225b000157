-- ===== src/Daemon/Steps/Owned.antt =====
-- Who holds which bandwidth slot, on all virtual servers together.
use mathlib.Core.Option.{some-injective}
use mathlib.Core.Path.{subst}
use rahunas.Daemon.{Daemon, vserver_get_by_id, put_vserver, enter, leave}
use rahunas.Member.Lookup.{Distinct}
use rahunas.Prelude.{
  ℕ, ◌≡◌, ◌≢◌, refl, sym, ap, ◌∙◌, true, false, List, [], ◌∷◌, Option, none, some, arith, length,
  inl, inr, Bool-cases, ==_refl, ◌==◌, if◌then◌else◌,
}
use rahunas.Session.Owners.{slot_in, slot_at, Moved, lost, held, gained, Owns}
use rahunas.Session.Slots.{is_reserved, max_slot_page}
use rahunas.Session.{VServer, TaskReq, Sess}

abbrev pub slot_on : Option VServer → ℕ → ℕ
slot_on none id = 0
slot_on (some vs) id = slot_in vs.v_map.members id

-- The slot of a session, by the number of its virtual server and its identifier; 0 is none.
abbrev pub slot_of : Daemon → ℕ → ℕ → ℕ
slot_of d vserver_id id = slot_on (vserver_get_by_id d.vserver_list vserver_id) id

-- Every slot that a session holds is reserved, and no other session on any server holds it; a server
-- has one session under an identifier.
pub record Owned (d : Daemon) : Type 0 where
  pub pages : length d.slot_flags ≡ max_slot_page
  pub distinct :
      (v : ℕ) (vs : VServer)
      → vserver_get_by_id d.vserver_list v ≡ some vs
      → Distinct vs.v_map.members
  pub reserved : (v j : ℕ) → slot_of d v j ≢ 0 → is_reserved d.slot_flags (slot_of d v j) ≡ true
  pub sole : (v w j k : ℕ) → slot_of d v j ≢ 0 → slot_of d v j ≡ slot_of d w k → (v ≡ w) × (j ≡ k)

pub get-put :
    (v w : ℕ) (old new : VServer) (vss : List VServer)
    → vserver_get_by_id vss v ≡ some old
    → new.vserver_id ≡ old.vserver_id
    → vserver_get_by_id (put_vserver v new vss) w
      ≡ (if v == w then some new else vserver_get_by_id vss w)
unfolding vserver_get_by_id put_vserver
get-put v w old new [] e same = cc
get-put v w old new (vs ∷ vss) e same = elim (Bool-cases (vs.vserver_id == v)) [
  | inl here ↦
      let first : some vs ≡ some old = rw here at e in
      let same_id : new.vserver_id ≡ vs.vserver_id = ground arith in
      rw (here, same_id) (ground arith)
  | inr there ↦ rw there (ground (arith, get-put v w old new vss (rw there at e) same))
]

get-id :
    (v : ℕ) (vs : VServer) (vss : List VServer)
    → vserver_get_by_id vss v ≡ some vs
    → vs.vserver_id ≡ v
unfolding vserver_get_by_id
get-id v vs [] e = cc
get-id v vs (x ∷ xs) e = ground (arith, get-id v vs xs)

-- Where the slot of a session comes from that is there behind a change.
data Origin (d e : Daemon) (v id w j : ℕ) : Type 0 where
  free : slot_of e w j ≡ 0 → Origin d e v id w j
  old : slot_of e w j ≡ slot_of d w j → Origin d e v id w j
  new :
      v ≡ w
      → id ≡ j
      → is_reserved d.slot_flags (slot_of e w j) ≡ false
      → is_reserved e.slot_flags (slot_of e w j) ≡ true
      → Origin d e v id w j

Origin-reserved :
    (d e : Daemon) (v id w j : ℕ)
    → Owned d
    → ((k : ℕ) → is_reserved d.slot_flags k ≡ true → is_reserved e.slot_flags k ≡ true)
    → Origin d e v id w j
    → slot_of e w j ≢ 0
    → is_reserved e.slot_flags (slot_of e w j) ≡ true
Origin-reserved d e v id w j o up (free z) ne = absurd (ne z)
Origin-reserved d e v id w j o up (old same) ne =
    up (slot_of e w j) (rw same (o.reserved w j (λ z. ne (same ∙ z))))
Origin-reserved d e v id w j o up (new here own f r) ne = r

-- A slot from before is not one that was free before.
not_both :
    (d e : Daemon) (w j w' j' : ℕ)
    → Owned d
    → slot_of e w j ≢ 0
    → slot_of e w j ≡ slot_of d w j
    → slot_of e w j ≡ slot_of e w' j'
    → is_reserved d.slot_flags (slot_of e w' j') ≡ false
    → ⊥
not_both d e w j w' j' o ne same shared f =
    let kept : is_reserved d.slot_flags (slot_of d w j) ≡ true =
      o.reserved w j (λ z. ne (same ∙ z)) in
    let equal : slot_of d w j ≡ slot_of e w' j' = sym same ∙ shared in
    let clash : is_reserved d.slot_flags (slot_of e w' j') ≡ true =
      subst (λ x. is_reserved d.slot_flags x ≡ true) equal kept in
    cc

Origin-sole :
    (d e : Daemon) (v id w w' j j' : ℕ)
    → Owned d
    → Origin d e v id w j
    → Origin d e v id w' j'
    → slot_of e w j ≢ 0
    → slot_of e w j ≡ slot_of e w' j'
    → (w ≡ w') × (j ≡ j')
Origin-sole d e v id w w' j j' o (free z) q ne shared = absurd (ne z)
Origin-sole d e v id w w' j j' o (old same) (free z) ne shared = absurd (ne (shared ∙ z))
Origin-sole d e v id w w' j j' o (old same) (old same') ne shared =
    o.sole w w' j j' (λ z. ne (same ∙ z)) (sym same ∙ (shared ∙ same'))
Origin-sole d e v id w w' j j' o (old same) (new here own f r) ne shared =
    absurd (not_both d e w j w' j' o ne same shared f)
Origin-sole d e v id w w' j j' o (new here own f r) (free z) ne shared = absurd (ne (shared ∙ z))
Origin-sole d e v id w w' j j' o (new here own f r) (old same') ne shared =
    absurd (not_both d e w' j' w j o (λ z. ne (shared ∙ z)) same' (sym shared) f)
Origin-sole d e v id w w' j j' o (new here own f r) (new here' own' f' r') ne shared =
    (sym here ∙ here', sym own ∙ own')

module _ (d : Daemon) (v : ℕ) (vs : VServer) (req : TaskReq) (t : Sess)
    (found : vserver_get_by_id d.vserver_list v ≡ some vs) (o : Owned d)
    (a : Owns (enter d vs req) t) where
  get_left :
      (w : ℕ)
      → vserver_get_by_id (leave v d t).vserver_list w
        ≡ (if v == w then some t.vs else vserver_get_by_id d.vserver_list w)
  get_left w = get-put v w vs t.vs d.vserver_list found a.number

  slot_here : (j : ℕ) → slot_of (leave v d t) v j ≡ slot_at t j
  slot_here j =
      let own : vserver_get_by_id (leave v d t).vserver_list v ≡ some t.vs =
        get_left v ∙ rw (==_refl v) in
      ap (λ x. slot_on x j) own

  slot_there : (w j : ℕ) → v ≢ w → slot_of (leave v d t) w j ≡ slot_of d w j
  slot_there w j ne =
      let other : (v == w) ≡ false = ground arith in
      let same : vserver_get_by_id (leave v d t).vserver_list w
          ≡ vserver_get_by_id d.vserver_list w =
        get_left w ∙ rw other in
      ap (λ x. slot_on x j) same

  slot_before : (j : ℕ) → slot_of d v j ≡ slot_in vs.v_map.members j
  slot_before j = ap (λ x. slot_on x j) found

  Moved-Origin :
      (j : ℕ) → req.id ≡ j → Moved (enter d vs req) t j → Origin d (leave v d t) v req.id v j
  Moved-Origin j own (lost z) = free (slot_here j ∙ z)
  Moved-Origin j own (held same) = old (slot_here j ∙ (same ∙ sym (slot_before j)))
  Moved-Origin j own (gained f r) = new refl own (rw (slot_here j) f) (rw (slot_here j) r)

  origin : (w j : ℕ) → Origin d (leave v d t) v req.id w j
  origin w j = elim (Bool-cases (v == w)) [
    | inl here ↦
        let same : v ≡ w = ground arith in
        subst (λ x. Origin d (leave v d t) v req.id x j) same
          (elim (Bool-cases (req.id == j)) [
            | inl own ↦
                let mine : req.id ≡ j = ground arith in
                Moved-Origin j mine (subst (λ x. Moved (enter d vs req) t x) mine a.own)
            | inr other ↦ old (slot_here j ∙ (a.others j (ground arith) ∙ sym (slot_before j)))
          ])
    | inr there ↦ old (slot_there w j (ground arith))
  ]

  leave-Distinct :
      (w : ℕ) (x : VServer)
      → vserver_get_by_id (leave v d t).vserver_list w ≡ some x
      → Distinct x.v_map.members
  leave-Distinct w x e = elim (Bool-cases (v == w)) [
    | inl here ↦
        let last : some t.vs ≡ some x = sym (get_left w ∙ rw here) ∙ e in
        subst (λ (y : VServer). Distinct y.v_map.members) (some-injective t.vs x last)
          a.sound.distinct
    | inr there ↦ o.distinct w x (sym (get_left w ∙ rw there) ∙ e)
  ]

  -- A change of one session leaves the slots owned.
  pub leave-Owned : Owned (leave v d t)
  leave-Owned = record {
    pages = a.sound.pages;
    distinct = leave-Distinct;
    reserved = λ w j. Origin-reserved d (leave v d t) v req.id w j o a.reserved (origin w j);
    sole =
        λ w w' j j'. Origin-sole d (leave v d t) v req.id w w' j j' o (origin w j) (origin w' j');
  }
