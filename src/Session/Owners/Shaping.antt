-- ===== src/Session/Owners/Shaping.antt =====
-- The task BANDWIDTH moves slots as every task may.
use rahunas.Host.{Host}
use rahunas.Member.Ident.{map-ident-modify_node}
use rahunas.Member.{Member, member_get_node_by_id, modify_node}
use rahunas.Prelude.{
  ℕ, zero, suc, ◌≡◌, refl, ap, ◌∙◌, ==_refl, Bool, ◌/◌, ◌<◌, true, false, List, [], ◌∷◌, Option,
  none, some, arith, length, ◌⊎◌, inl, inr, Option-cases, OnSome, OnSome->>=, if-elim, ltb, ◌&&◌,
  ◌==◌, if◌then◌else◌,
}
use rahunas.Session.Bandwidth
use rahunas.Session.Bandwidth.{
  set_slot, give_back, try_add, bandwidth_add, bandwidth_del, take_slot, startsess_member,
}
use rahunas.Session.Owners.{slot_in, slot_at, Moved, lost, gained, Moves, unmoved}
use rahunas.Session.Refinement.{Distinct-idents}
use rahunas.Session.Slots.Bounds.{is_reserved-mark_reserved_slot_id}
use rahunas.Session.Slots.{is_reserved, mark_reserved_slot_id, mark_page, page_size, max_slot_page}
use rahunas.Session.{Sess, members, modify_member}
use rahunas.Session.Owners.Drawing.{InRange, Grantable, or_none, try_add-Grantable}

slot-set :
    (id k : ℕ) (ms : List Member) (m : Member) (j : ℕ)
    → member_get_node_by_id ms id ≡ some m
    → slot_in (modify_node id (set_slot k) ms) j ≡ (if id == j then k else slot_in ms j)
unfolding slot_in modify_node member_get_node_by_id
slot-set id k [] m j e = cc
slot-set id k (x ∷ xs) m j e = ground (arith, slot-set id k xs m j)

length-mark_page : (pages : List ℕ) (i k : ℕ) → length (mark_page pages i k) ≡ length pages
unfolding mark_page
length-mark_page [] i k = refl
length-mark_page (x ∷ xs) zero k = refl
length-mark_page (x ∷ xs) (suc i) k = omega (arith, length-mark_page xs i k)

fits_array :
    (s t : Sess) (slot_id : ℕ)
    → Grantable s slot_id t
    → length s.slot_flags ≡ max_slot_page
    → slot_id / page_size < length t.slot_flags
fits_array s t slot_id g pages =
    let all : length t.slot_flags ≡ 619 = ap length g.flags ∙ pages in
    elim g.slot [ inl e ↦ ground arith | inr (free, fits) ↦ ground arith ]

set_slots :
    (s t : Sess) (slot_id : ℕ) (m : Member)
    → member_get_node_by_id (members s) s.req.id ≡ some m
    → Grantable s slot_id t
    → (j : ℕ)
    → slot_in (modify_node t.req.id (set_slot slot_id) (members t)) j
      ≡ (if s.req.id == j then slot_id else slot_at s j)
set_slots s t slot_id m e g j = rw (g.table, g.req_id) (slot-set s.req.id slot_id (members s) m j e)

own-Moved :
    (s u : Sess) (slot_id : ℕ)
    → slot_at u s.req.id ≡ slot_id
    → is_reserved u.slot_flags slot_id ≡ true
    → (slot_id ≡ 0)
      ⊎ ((is_reserved s.slot_flags slot_id ≡ false) × (slot_id / page_size < max_slot_page))
    → Moved s u s.req.id
own-Moved s u slot_id at marked (inl e) = lost (at ∙ e)
own-Moved s u slot_id at marked (inr (free, fits)) = gained (rw at free) (rw at marked)

still_reserved :
    (slot_id k : ℕ) (before : Bool) → before ≡ true → (if slot_id == k then true else before) ≡ true
still_reserved slot_id k before e = ground arith

-- The slot is marked and written.
granted :
    (s t : Sess) (slot_id : ℕ) (m : Member)
    → member_get_node_by_id (members s) s.req.id ≡ some m
    → Grantable s slot_id t
    → Moves s (modify_member t.req.id (set_slot slot_id) (mark_reserved_slot_id slot_id t))
unfolding mark_reserved_slot_id
granted s t slot_id m e g sound =
    let u = modify_member t.req.id (set_slot slot_id) (mark_reserved_slot_id slot_id t) in
    let fits : slot_id / page_size < length t.slot_flags = fits_array s t slot_id g sound.pages in
    let set : (j : ℕ) → slot_at u j ≡ (if s.req.id == j then slot_id else slot_at s j) =
      λ j. set_slots s t slot_id m e g j in
    let marked = λ (j : ℕ). is_reserved-mark_reserved_slot_id slot_id j t fits in
    record {
      sound = record {
        pages = length-mark_page t.slot_flags _ _ ∙ (ap length g.flags ∙ sound.pages);
        distinct =
            Distinct-idents t u
              (map-ident-modify_node t.req.id (set_slot slot_id) (members t) (λ x. refl))
              (rw g.table sound.distinct);
      };
      req_id = g.req_id;
      number = g.number;
      own =
          own-Moved s u slot_id (set s.req.id ∙ rw (==_refl s.req.id))
            (marked slot_id ∙ rw (==_refl slot_id)) g.slot;
      others = λ j ne. set j ∙ (let apart : (s.req.id == j) ≡ false = ground arith in rw apart);
      reserved =
          λ k r. marked k ∙ rw g.flags (still_reserved slot_id k (is_reserved s.slot_flags k) r);
    }

take_slot-Moves :
    (s t : Sess) (o : Option ℕ) (m : Member)
    → member_get_node_by_id (members s) s.req.id ≡ some m
    → Grantable s (or_none o) t
    → Moves s (take_slot o t).0
unfolding take_slot
take_slot-Moves s t none m e g =
    unmoved s t g.flags g.req_id g.number (λ j. ap (λ ms. slot_in ms j) g.table) (λ d. rw g.table d)
take_slot-Moves s t (some slot_id) m e g = granted s t slot_id m e g

still :
    (s t : Sess)
    → t.slot_flags ≡ s.slot_flags
    → members t ≡ members s
    → t.req.id ≡ s.req.id
    → t.vs.vserver_id ≡ s.vs.vserver_id
    → Moves s t
still s t flags table req_id number =
    unmoved s t flags req_id number (λ j. ap (λ ms. slot_in ms j) table) (λ d. rw table d)

startsess_member-Moves :
    (h : Host) (fuel : ℕ) (m : Member) (s : Sess)
    → InRange h
    → member_get_node_by_id (members s) s.req.id ≡ some m
    → OnSome (λ r. Moves s r.0) (startsess_member h fuel m s)
unfolding startsess_member
startsess_member-Moves h fuel m s range e =
    if-elim (OnSome {A = Sess × ℕ} (λ r. Moves s r.0))
      (m.bandwidth_max_down == 0 && m.bandwidth_max_up == 0) _ _ (still s s refl refl refl refl)
      (if-elim (OnSome {A = Sess × ℕ} (λ r. Moves s r.0)) (ltb 0 m.bandwidth_slot_id) _ _
        (still s s refl refl refl refl)
        (OnSome->>= (λ r. Grantable s (or_none r.0) r.1) (λ r. Moves s r.0) (try_add h fuel 3 m s) _
          (try_add-Grantable h range fuel 3 m s) (λ r g. take_slot-Moves s r.1 r.0 m e g)))

pub bandwidth_startsess-Moves :
    (h : Host) (fuel : ℕ) (s : Sess)
    → InRange h
    → OnSome (λ r. Moves s r.0) (Bandwidth.startsess h fuel s)
unfolding Bandwidth.startsess
bandwidth_startsess-Moves h fuel s range =
    elim (Option-cases (member_get_node_by_id (members s) s.req.id)) [
      | inl e ↦ rw (e, Bandwidth.startsess) (still s s refl refl refl refl)
      | inr (m, e) ↦ rw (e, Bandwidth.startsess) (startsess_member-Moves h fuel m s range e)
    ]

given_back :
    (s : Sess) (slot_id : ℕ) (h : Host) (m : Member)
    → member_get_node_by_id (members s) s.req.id ≡ some m
    → let t = (bandwidth_del h slot_id s).0 in
      Moves s (give_back (modify_member t.req.id (set_slot 0) t))
unfolding bandwidth_del
given_back s slot_id h m e sound =
    let t = (bandwidth_del h slot_id s).0 in
    let u = give_back (modify_member t.req.id (set_slot 0) t) in
    let set : (j : ℕ) → slot_at u j ≡ (if s.req.id == j then 0 else slot_at s j) =
      λ j. slot-set s.req.id 0 (members s) m j e in
    record {
      sound = record {
        pages = sound.pages;
        distinct =
            Distinct-idents s u
              (map-ident-modify_node s.req.id (set_slot 0) (members s) (λ x. refl)) sound.distinct;
      };
      req_id = refl;
      number = refl;
      own = lost (set s.req.id ∙ rw (==_refl s.req.id));
      others = λ j ne. set j ∙ (let apart : (s.req.id == j) ≡ false = ground arith in rw apart);
      reserved = λ k r. r;
    }

pub bandwidth_stopsess-Moves : (h : Host) (s : Sess) → Moves s (Bandwidth.stopsess h s).0
unfolding Bandwidth.stopsess bandwidth_del
bandwidth_stopsess-Moves h s = elim (Option-cases (member_get_node_by_id (members s) s.req.id)) [
  | inl e ↦ rw (e, Bandwidth.stopsess) (still s s refl refl refl refl)
  | inr (m, e) ↦
      rw (e, Bandwidth.stopsess)
        (if-elim (λ (r : Sess × ℕ). Moves s r.0) (ltb m.bandwidth_slot_id 1) _ _
          (still s s refl refl refl refl)
          (if-elim (λ (r : Sess × ℕ). Moves s r.0) ((bandwidth_del h m.bandwidth_slot_id s).1 == 0)
            _ _ (given_back s m.bandwidth_slot_id h m e) (still s _ refl refl refl refl)))
]
