-- ===== src/Session/Owners.antt =====
-- Which member holds which bandwidth slot, and what a task may do to that: it changes the slot of the
-- session that it works on only, which loses it, keeps it, or gets one that was not reserved.
pub mod Drawing
pub mod Shaping
pub mod Tasks
use mathlib.Core.Path.{subst}
use rahunas.Member.Ident.{Ident, ident, map-ident-modify_node}
use rahunas.Member.Lookup.{Distinct}
use rahunas.Member.{Member, modify_node}
use rahunas.Prelude.{
  ℕ, ◌≡◌, ◌≢◌, refl, sym, ap, ◌∙◌, Bool, true, false, List, [], ◌∷◌, arith, length, ◌⊎◌, inl, inr,
  ◌==◌, if◌then◌else◌,
}
use rahunas.Session.Keeps.{Keeping}
use rahunas.Session.Refinement.{Distinct-idents}
use rahunas.Session.Slots.{is_reserved, max_slot_page}
use rahunas.Session.{Sess, members, modify_member}

-- The slot of the first member with the identifier; 0 is none.
unfoldable pub slot_in : List Member → ℕ → ℕ
slot_in [] id = 0
slot_in (m ∷ ms) id = if m.id == id then m.bandwidth_slot_id else slot_in ms id

abbrev pub slot_at : Sess → ℕ → ℕ
slot_at s id = slot_in (members s) id

-- Every page of the array is there, and no two members have one identifier.
pub record Sound (s : Sess) : Type 0 where
  pub pages : length s.slot_flags ≡ max_slot_page
  pub distinct : Distinct (members s)

-- The slot that a session has behind a task.
pub data Moved (s t : Sess) (id : ℕ) : Type 0 where
  lost : slot_at t id ≡ 0 → Moved s t id
  held : slot_at t id ≡ slot_at s id → Moved s t id
  gained :
      is_reserved s.slot_flags (slot_at t id) ≡ false
      → is_reserved t.slot_flags (slot_at t id) ≡ true
      → Moved s t id

pub record Owns (s t : Sess) : Type 0 where
  pub sound : Sound t
  pub req_id : t.req.id ≡ s.req.id
  pub number : t.vs.vserver_id ≡ s.vs.vserver_id
  pub own : Moved s t s.req.id
  pub others : (j : ℕ) → s.req.id ≢ j → slot_at t j ≡ slot_at s j
  pub reserved : (k : ℕ) → is_reserved s.slot_flags k ≡ true → is_reserved t.slot_flags k ≡ true

abbrev pub Moves : Sess → Sess → Type 0
Moves s t = Sound s → Owns s t

not_before :
    (s u : Sess) (k : ℕ)
    → (is_reserved s.slot_flags k ≡ true → is_reserved u.slot_flags k ≡ true)
    → is_reserved u.slot_flags k ≡ false
    → is_reserved s.slot_flags k ≡ false
not_before s u k up free = ground (arith, up)

Moved-trans :
    (s t u : Sess) (id : ℕ)
    → ((k : ℕ) → is_reserved s.slot_flags k ≡ true → is_reserved t.slot_flags k ≡ true)
    → ((k : ℕ) → is_reserved t.slot_flags k ≡ true → is_reserved u.slot_flags k ≡ true)
    → Moved s t id
    → Moved t u id
    → Moved s u id
Moved-trans s t u id up up' a (lost e) = lost e
Moved-trans s t u id up up' (lost e') (held e) = lost (e ∙ e')
Moved-trans s t u id up up' (held e') (held e) = held (e ∙ e')
Moved-trans s t u id up up' (gained f r) (held e) = gained (rw e f) (rw e (up' (slot_at t id) r))
Moved-trans s t u id up up' a (gained f r) =
    gained (not_before s t (slot_at u id) (up (slot_at u id)) f) r

pub Owns-trans : (s t u : Sess) → Owns s t → Owns t u → Owns s u
Owns-trans s t u a b = record {
  sound = b.sound;
  req_id = b.req_id ∙ a.req_id;
  number = b.number ∙ a.number;
  own =
      Moved-trans s t u s.req.id a.reserved b.reserved a.own
        (subst (λ i. Moved t u i) a.req_id b.own);
  others = λ j ne. b.others j (λ e. ne (sym a.req_id ∙ e)) ∙ a.others j ne;
  reserved = λ k r. b.reserved k (a.reserved k r);
}

-- A step that leaves the slots as they are.
pub unmoved :
    (s t : Sess)
    → t.slot_flags ≡ s.slot_flags
    → t.req.id ≡ s.req.id
    → t.vs.vserver_id ≡ s.vs.vserver_id
    → ((j : ℕ) → slot_at t j ≡ slot_at s j)
    → (Distinct (members s) → Distinct (members t))
    → Moves s t
unmoved s t flags req_id number slots distinct sound = record {
  sound = record { pages = rw flags sound.pages; distinct = distinct sound.distinct };
  req_id = req_id;
  number = number;
  own = held (slots s.req.id);
  others = λ j ne. slots j;
  reserved = λ k r. rw flags r;
}

slot-modify :
    (id : ℕ) (f : Member → Member) (ms : List Member) (j : ℕ)
    → ((m : Member) → (f m).id ≡ m.id)
    → ((m : Member) → (f m).bandwidth_slot_id ≡ m.bandwidth_slot_id)
    → slot_in (modify_node id f ms) j ≡ slot_in ms j
unfolding slot_in modify_node
slot-modify id f [] j same slot = refl
slot-modify id f (m ∷ ms) j same slot =
    ground (arith, same m, slot m, slot-modify id f ms j same slot)

pub Moves-Keeping : Keeping Moves
Moves-Keeping = record {
  same = λ s. unmoved s s refl refl refl (λ j. refl) (λ d. d);
  chained = λ s t u a b sound. let first = a sound in Owns-trans s t u first (b first.sound);
  asked = λ e s. unmoved s _ refl refl refl (λ j. refl) (λ d. d);
  drawn = λ slot_id s. unmoved s _ refl refl refl (λ j. refl) (λ d. d);
  written = λ f s keeps.
      unmoved s (modify_member s.req.id f s) refl refl refl
        (λ j.
          slot-modify s.req.id f (members s) j (λ m. ap (λ (i : Ident). i.id) (keeps m).0)
            (λ m. (keeps m).1))
        (Distinct-idents s (modify_member s.req.id f s)
          (map-ident-modify_node s.req.id f (members s) (λ m. (keeps m).0)));
}
