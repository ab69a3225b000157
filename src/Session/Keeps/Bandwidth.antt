-- ===== src/Session/Keeps/Bandwidth.antt =====
-- The task BANDWIDTH leaves alone what `Keeps` says.
use rahunas.Host.{Host, clock, draw, sleep}
use rahunas.Member.{Member, member_get_node_by_id}
use rahunas.Prelude.{
  ℕ, zero, suc, refl, Option, none, some, Option-cases, Bool-cases, inl, inr, leb, ltb, ◌&&◌,
  OnSome, OnSome->>=, OnSome-map, ◌==◌,
}
use rahunas.Session.Bandwidth
use rahunas.Session.Bandwidth.{
  set_slot, give_back, try_add, bandwidth_add, bandwidth_del, take_slot, startsess_member,
}
use rahunas.Session.Slots.{
  is_reserved, drawn_slot, max_slot_id, draw_loop, get_slot_id, mark_reserved_slot_id,
}
use rahunas.Session.{Sess, members, modify_member, ask, minus_one}
use rahunas.Session.Keeps.{Keeps, Keeps-refl, Keeps-trans, ask-Keeps, modify-Keeps, kept_if}

draw_loop-Keeps : (h : Host) (fuel : ℕ) (s : Sess) → OnSome (λ r. Keeps s r.1) (draw_loop h fuel s)
unfolding draw_loop
draw_loop-Keeps h zero s = tt
draw_loop-Keeps h (suc fuel) s =
    let asked = ask draw (ask clock s) in
    let k : Keeps s asked = Keeps-trans (ask-Keeps clock s) (ask-Keeps draw (ask clock s)) in
    elim (Bool-cases (is_reserved s.slot_flags (drawn_slot (h.random asked.log)))) [
      | inl e ↦ rw e (
          OnSome-map (λ r. Keeps asked r.1) (λ r. Keeps s r.1) _ (λ r. Keeps-trans k)
            (draw_loop-Keeps h fuel asked))
      | inr e ↦ rw e k
    ]

get_slot_id-Keeps :
    (h : Host) (fuel : ℕ) (s : Sess) → OnSome (λ r. Keeps s r.1) (get_slot_id h fuel s)
unfolding get_slot_id
get_slot_id-Keeps h fuel s = elim (Bool-cases (leb max_slot_id s.slot_count)) [
  | inl e ↦ rw e (Keeps-refl s)
  | inr e ↦ rw e (draw_loop-Keeps h fuel s)
]

bandwidth_add-Keeps :
    (h : Host) (slot_id : ℕ) (member : Member) (s : Sess)
    → Keeps s (bandwidth_add h slot_id member s).0
unfolding bandwidth_add
bandwidth_add-Keeps h slot_id member s = ask-Keeps _ s

try_add-Keeps :
    (h : Host) (fuel n : ℕ) (m : Member) (s : Sess)
    → OnSome (λ r. Keeps s r.1) (try_add h fuel n m s)
unfolding try_add
try_add-Keeps h fuel zero m s = Keeps-refl s
try_add-Keeps h fuel (suc n) m s =
    OnSome->>= (λ r. Keeps s r.1) (λ r. Keeps s r.1) (get_slot_id h fuel s) _
      (get_slot_id-Keeps h fuel s)
      λ r k.
        let added = bandwidth_add h r.0 m r.1 in
        let k' : Keeps s added.0 = Keeps-trans k (bandwidth_add-Keeps h r.0 m r.1) in
        elim (Bool-cases (added.1 == 0)) [
          | inl e ↦ rw e k'
          | inr e ↦ rw e (
              OnSome-map (λ r. Keeps (ask (sleep 1) added.0) r.1) (λ r. Keeps s r.1) _
                (λ r k. Keeps-trans k' (Keeps-trans (ask-Keeps (sleep 1) added.0) k))
                (try_add-Keeps h fuel n m (ask (sleep 1) added.0)))
        ]

take_slot-Keeps : (o : Option ℕ) (s : Sess) → Keeps s (take_slot o s).0
unfolding take_slot mark_reserved_slot_id
take_slot-Keeps none s = Keeps-refl s
take_slot-Keeps (some slot_id) s =
    let k = modify-Keeps (set_slot slot_id) s (λ m. refl) in
    record {
      idents = k.idents;
      req_id = refl;
      mac = refl;
      server = record {
        vs_id = refl;
        first_ip = refl;
        last_ip = refl;
        size = refl;
        set = refl;
        idle = refl;
      };
      others = k.others;
    }

startsess_member-Keeps :
    (h : Host) (fuel : ℕ) (m : Member) (s : Sess)
    → OnSome (λ r. Keeps s r.0) (startsess_member h fuel m s)
unfolding startsess_member
startsess_member-Keeps h fuel m s =
    let added =
      OnSome->>= (λ r. Keeps s r.1) (λ r. Keeps s r.0) (try_add h fuel 3 m s)
        (λ r. some (take_slot r.0 r.1)) (try_add-Keeps h fuel 3 m s)
        (λ r k. Keeps-trans k (take_slot-Keeps r.0 r.1)) in
    elim (Bool-cases (m.bandwidth_max_down == 0 && m.bandwidth_max_up == 0)) [
      | inl e ↦ rw e (Keeps-refl s)
      | inr e ↦ rw e (elim (Bool-cases (ltb 0 m.bandwidth_slot_id)) [
        | inl e ↦ rw e (Keeps-refl s)
        | inr e ↦ rw e added
      ])
    ]

pub bandwidth_startsess-Keeps :
    (h : Host) (fuel : ℕ) (s : Sess) → OnSome (λ r. Keeps s r.0) (Bandwidth.startsess h fuel s)
unfolding Bandwidth.startsess
bandwidth_startsess-Keeps h fuel s =
    elim (member_get_node_by_id (members s) s.req.id)
      as (λ o.
        OnSome {A = Sess × ℕ} (λ r. Keeps s r.0)
          (elim o [
            | none ↦ some (s, minus_one)
            | some member ↦ startsess_member h fuel member s
          ])) [ none ↦ Keeps-refl s | some m ↦ startsess_member-Keeps h fuel m s ]

bandwidth_del-Keeps : (h : Host) (slot_id : ℕ) (s : Sess) → Keeps s (bandwidth_del h slot_id s).0
unfolding bandwidth_del
bandwidth_del-Keeps h slot_id s = ask-Keeps _ s

give_back-Keeps :
    (h : Host) (slot_id : ℕ) (s : Sess)
    → Keeps s (
        give_back (
          modify_member
            (bandwidth_del h slot_id s).0.req.id
            (set_slot 0)
            (bandwidth_del h slot_id s).0))
give_back-Keeps h slot_id s =
    let t = (bandwidth_del h slot_id s).0 in
    let written = modify-Keeps (set_slot 0) t (λ m. refl) in
    let k : Keeps t (give_back (modify_member t.req.id (set_slot 0) t)) = record {
      idents = written.idents;
      req_id = refl;
      mac = refl;
      server = record {
        vs_id = refl;
        first_ip = refl;
        last_ip = refl;
        size = refl;
        set = refl;
        idle = refl;
      };
      others = written.others;
    } in
    Keeps-trans (bandwidth_del-Keeps h slot_id s) k

pub bandwidth_stopsess-Keeps : (h : Host) (s : Sess) → Keeps s (Bandwidth.stopsess h s).0
unfolding Bandwidth.stopsess
bandwidth_stopsess-Keeps h s = elim (Option-cases (member_get_node_by_id (members s) s.req.id)) [
  | inl e ↦ rw (e, Bandwidth.stopsess) (Keeps-refl s)
  | inr (m, e) ↦
      rw (e, Bandwidth.stopsess)
        (kept_if s (ltb m.bandwidth_slot_id 1) _ _ (Keeps-refl s) (
          kept_if s ((bandwidth_del h m.bandwidth_slot_id s).1 == 0) _ _
            (give_back-Keeps h m.bandwidth_slot_id s)
            (bandwidth_del-Keeps h m.bandwidth_slot_id s)))
]
