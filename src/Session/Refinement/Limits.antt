-- ===== src/Session/Refinement/Limits.antt =====
-- The start of a session with bandwidth limits comes to its end.
use rahunas.Host.{Host, Event, SetOp, sleep}
use rahunas.Member.{Member, member_get_node_by_id}
use rahunas.Prelude.{
  ℕ, zero, suc, ◌<◌, ◌≡◌, refl, ◌∙◌, ◌⊎◌, inl, inr, Bool, true, false, List, [], Option, none, some,
  Bool-cases, Option-cases, ltb, ◌==◌, ◌&&◌,
}
use rahunas.Session.Bandwidth
use rahunas.Session.Bandwidth.{bandwidth_add, try_add, startsess_member, take_slot}
use rahunas.Session.Dbset
use rahunas.Session.Ipset
use rahunas.Session.Ipset.{set_adtip_nb}
use rahunas.Session.Mapping
use rahunas.Session.Memset
use rahunas.Session.Memset.{stamp}
use rahunas.Session.Refinement.Returns.{entered, entered_class}
use rahunas.Session.Refinement.Start.{start_tasks}
use rahunas.Session.Refinement.{rest}
use rahunas.Session.Slots.Bounds.{draws, get_slot_id-returns, get_slot_id-flags}
use rahunas.Session.Slots.{is_reserved, drawn_slot}
use rahunas.Session.Task.{rh_task_register, rh_task_startsess, startsess}
use rahunas.Session.{Sess, members, ask, minus_one}
use rahunas.Text.{Bytes}

-- After whatever history, one of the next draws that the fuel allows hits a free slot.
unfoldable pub HitsFree : Host → ℕ → List ℕ → Type 0
HitsFree h fuel slot_flags =
    (log : List Event)
    → (i : ℕ) × (i < fuel)
      × (is_reserved slot_flags (drawn_slot (h.random (draws (suc i) log))) ≡ false)

module _ (h : Host) (fuel : ℕ) where
  added_flags :
      (slot_id : ℕ) (member : Member) (s : Sess)
      → (bandwidth_add h slot_id member s).0.slot_flags ≡ s.slot_flags
  unfolding bandwidth_add
  added_flags slot_id member s = refl

  try_add-returns :
      (tries : ℕ) (member : Member) (s : Sess)
      → HitsFree h fuel s.slot_flags
      → (r : Option ℕ × Sess) × (try_add h fuel tries member s ≡ some r)
  unfolding try_add HitsFree
  try_add-returns zero member s hits = ((none, s), refl)
  try_add-returns (suc tries) member s hits =
      let (i, lt, free) = hits s.log in
      let (slot_id, t, e) = get_slot_id-returns h fuel i s lt free in
      let flags = added_flags slot_id member t ∙ get_slot_id-flags h fuel s t slot_id e in
      let added = bandwidth_add h slot_id member t in
      let (r, again) = try_add-returns tries member (ask (sleep 1) added.0) (rw flags hits) in
      elim (Bool-cases (added.1 == 0)) [
        | inl ok ↦ ((some slot_id, added.0), rw e (rw ok refl))
        | inr failed ↦ (r, rw e (rw failed again))
      ]

  member_returns :
      (member : Member) (s : Sess)
      → HitsFree h fuel s.slot_flags
      → (r : Sess × ℕ) × (startsess_member h fuel member s ≡ some r)
  unfolding startsess_member
  member_returns member s hits =
      elim (Bool-cases (member.bandwidth_max_down == 0 && member.bandwidth_max_up == 0)) [
        | inl free ↦ ((s, 0), rw free refl)
        | inr limited ↦ elim (Bool-cases (ltb 0 member.bandwidth_slot_id)) [
          | inl has ↦ ((s, 0), rw (limited, has) refl)
          | inr new ↦
              let (r, e) = try_add-returns 3 member s hits in
              (take_slot r.0 r.1, rw (limited, new) (rw e refl))
        ]
      ]

  startsess-returns :
      (s : Sess)
      → HitsFree h fuel s.slot_flags
      → (r : Sess × ℕ) × (Bandwidth.startsess h fuel s ≡ some r)
  unfolding Bandwidth.startsess
  startsess-returns s hits = elim (Option-cases (member_get_node_by_id (members s) s.req.id)) [
    | inl e ↦ ((s, minus_one), rw (e, Bandwidth.startsess) refl)
    | inr (m, e) ↦ let (r, e') = member_returns m s hits in (r, rw (e, Bandwidth.startsess) e')
  ]

  rest_returns :
      (sc bw : Bool) (s t : Sess)
      → (Ipset.startsess h s).0 ≡ t
      → (sc ≡ false) ⊎ (Mapping.startsess h t ≡ some (t, 0))
      → HitsFree h fuel t.slot_flags
      → (u : Sess) × (rh_task_startsess h fuel (rest sc bw) s ≡ some u)
  unfolding rh_task_startsess startsess
  rest_returns true true s t e (inl c) hits = cc
  rest_returns true true s t e (inr c) hits =
      let (r, done) = startsess-returns t hits in ((Dbset.startsess h r.0).0, rw (e, c, done))
  rest_returns true false s t e (inl c) hits = cc
  rest_returns true false s t e (inr c) hits = ((Dbset.startsess h t).0, rw (e, c))
  rest_returns false true s t e c hits =
      let (r, done) = startsess-returns t hits in ((Dbset.startsess h r.0).0, rw (e, done))
  rest_returns false false s t e c hits = ((Dbset.startsess h t).0, rw e)

  adtip_flags :
      (set : Option ℕ) (ip : ℕ) (mac : Bytes) (op : SetOp) (s : Sess)
      → (set_adtip_nb h set ip mac op s).0.slot_flags ≡ s.slot_flags
  unfolding set_adtip_nb
  adtip_flags none ip mac op s = refl
  adtip_flags (some index) ip mac op s = refl

  entered_flags : (s : Sess) → (entered h s).slot_flags ≡ s.slot_flags
  unfolding entered Ipset.startsess Memset.startsess stamp
  entered_flags s =
      adtip_flags _ _ _ _ (Memset.startsess h s).0
      ∙ elim (Bool-cases (s.req.session_start == 0)) [ inl e ↦ rw e refl | inr e ↦ rw e refl ]

  -- With no service class in play, and with bandwidth limits or without: where from every history on
  -- one of the next draws that the fuel allows hits a slot that is not reserved, the start of a
  -- session by all tasks comes to its end, however the system calls go.
  pub rh_task_startsess-ends :
      (use_serviceclass bandwidth_shape : Bool) (s : Sess)
      → (use_serviceclass ≡ false) ⊎ (s.req.serviceclass_name ≡ none)
      → HitsFree h fuel s.slot_flags
      → (t : Sess) × (rh_task_startsess h fuel
            (rh_task_register use_serviceclass bandwidth_shape [])
            s
          ≡ some t)
  unfolding entered
  rh_task_startsess-ends sc bw s class hits =
      let (t, e) =
        rest_returns sc bw (Memset.startsess h s).0 (entered h s) refl
          (elim class [ inl e ↦ inl e | inr e ↦ inr (entered_class h s e) ])
          (rw (entered_flags s) hits) in
      (t, start_tasks h fuel sc bw s ∙ e)
