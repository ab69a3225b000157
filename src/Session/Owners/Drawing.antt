-- ===== src/Session/Owners/Drawing.antt =====
-- What the search for a bandwidth slot gives.
use rahunas.Host.{Host, Event, clock, draw, sleep}
use rahunas.Member.{Member}
use rahunas.Prelude.{
  ℕ, zero, suc, ◌≡◌, refl, ◌∙◌, ◌/◌, ◌<◌, ◌^◌, false, List, Option, none, some, ◌⊎◌, inl, inr,
  Bool-cases, OnSome, OnSome->>=, OnSome-map, if-elim, leb, ◌==◌,
}
use rahunas.Session.Bandwidth.{try_add, bandwidth_add}
use rahunas.Session.Slots.Bounds.{drawn_slot-page}
use rahunas.Session.Slots.{
  is_reserved, drawn_slot, draw_loop, get_slot_id, page_size, max_slot_page, max_slot_id,
}
use rahunas.Session.{Sess, members, ask}

-- What `random` promises.
abbrev pub InRange : Host → Type 0
InRange h = (log : List Event) → h.random log < 2 ^ 31

-- A slot that may be written into a member: none, or one of the array that is not reserved.
pub record Grantable (s : Sess) (slot_id : ℕ) (t : Sess) : Type 0 where
  pub slot :
      (slot_id ≡ 0)
      ⊎ ((is_reserved s.slot_flags slot_id ≡ false) × (slot_id / page_size < max_slot_page))
  pub flags : t.slot_flags ≡ s.slot_flags
  pub table : members t ≡ members s
  pub req_id : t.req.id ≡ s.req.id
  pub number : t.vs.vserver_id ≡ s.vs.vserver_id

abbrev pub or_none : Option ℕ → ℕ
or_none none = 0
or_none (some slot_id) = slot_id

Grantable-trans :
    (s t u : Sess) (slot_id : ℕ)
    → t.slot_flags ≡ s.slot_flags
    → members t ≡ members s
    → t.req.id ≡ s.req.id
    → t.vs.vserver_id ≡ s.vs.vserver_id
    → Grantable t slot_id u
    → Grantable s slot_id u
Grantable-trans s t u slot_id flags table req_id number g = record {
  slot = rw flags at g.slot;
  flags = g.flags ∙ flags;
  table = g.table ∙ table;
  req_id = g.req_id ∙ req_id;
  number = g.number ∙ number;
}

module _ (h : Host) (range : InRange h) where
  draw_loop-Grantable :
      (fuel : ℕ) (s : Sess) → OnSome (λ r. Grantable s r.0 r.1) (draw_loop h fuel s)
  unfolding draw_loop
  draw_loop-Grantable zero s = tt
  draw_loop-Grantable (suc fuel) s =
      let asked = ask draw (ask clock s) in
      let slot_id = drawn_slot (h.random asked.log) in
      elim (Bool-cases (is_reserved s.slot_flags slot_id)) [
        | inl e ↦ rw e (
            OnSome-map (λ r. Grantable asked r.0 r.1) (λ r. Grantable s r.0 r.1) _
              (λ r g. record {
                slot = g.slot;
                flags = g.flags;
                table = g.table;
                req_id = g.req_id;
                number = g.number;
              })
              (draw_loop-Grantable fuel asked))
        | inr e ↦ rw e (record {
          slot = inr (e, drawn_slot-page _ (range asked.log));
          flags = refl;
          table = refl;
          req_id = refl;
          number = refl;
        })
      ]

  get_slot_id-Grantable :
      (fuel : ℕ) (s : Sess) → OnSome (λ r. Grantable s r.0 r.1) (get_slot_id h fuel s)
  unfolding get_slot_id
  get_slot_id-Grantable fuel s =
      if-elim (OnSome {A = ℕ × Sess} (λ r. Grantable s r.0 r.1)) (leb max_slot_id s.slot_count) _ _
        (record { slot = inl refl; flags = refl; table = refl; req_id = refl; number = refl })
        (draw_loop-Grantable fuel s)

  pub try_add-Grantable :
      (fuel tries : ℕ) (m : Member) (s : Sess)
      → OnSome (λ r. Grantable s (or_none r.0) r.1) (try_add h fuel tries m s)
  unfolding try_add bandwidth_add
  try_add-Grantable fuel zero m s = record {
    slot = inl refl;
    flags = refl;
    table = refl;
    req_id = refl;
    number = refl;
  }
  try_add-Grantable fuel (suc tries) m s =
      OnSome->>= (λ r. Grantable s r.0 r.1) (λ r. Grantable s (or_none r.0) r.1)
        (get_slot_id h fuel s) _ (get_slot_id-Grantable fuel s)
        λ r g.
          let added = bandwidth_add h r.0 m r.1 in
          elim (Bool-cases (added.1 == 0)) [
            | inl e ↦ rw e (record {
              slot = g.slot;
              flags = g.flags;
              table = g.table;
              req_id = g.req_id;
              number = g.number;
            })
            | inr e ↦ rw e (
                OnSome-map (λ q. Grantable (ask (sleep 1) added.0) (or_none q.0) q.1)
                  (λ q. Grantable s (or_none q.0) q.1) _
                  (λ q later.
                    Grantable-trans s (ask (sleep 1) added.0) q.1 (or_none q.0) g.flags g.table
                      g.req_id g.number later)
                  (try_add-Grantable fuel tries m (ask (sleep 1) added.0)))
          ]
