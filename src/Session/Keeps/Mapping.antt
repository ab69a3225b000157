-- ===== src/Session/Keeps/Mapping.antt =====
-- The task SERVICECLASS stays in every relation that `Keeping` is about.
use rahunas.Host.{Host, clock, draw, sql_select, add_ip, del_ip}
use rahunas.Member.Ident.{ident}
use rahunas.Member.{Member, member_get_node_by_id}
use rahunas.Prelude.{
  ℕ, zero, suc, ◌≡◌, refl, Option, none, some, Option-cases, inl, inr, leb, OnSome, OnSome->>=,
  if-elim, ◌%◌, ◌+◌, ◌^◌, ◌==◌, if◌then◌else◌,
}
use rahunas.ServiceClass.{ServiceClassConfig, serviceclass_exists}
use rahunas.Session.Ipset.{sess_ip, set_ipiphash_adtip_nb}
use rahunas.Session.Mapping
use rahunas.Session.Mapping.{
  slot_query, sc_slot_loop, sc_get_slot_id, drop_class, start_failed, set_class, start_mapping,
  with_slot, start_class, start_drawn, start_named, stop_mapping,
}
use rahunas.Session.{Sess, members, ask, minus_one}
use rahunas.Text.{Bytes}
use rahunas.Session.Keeps.{Keeping, set_ipiphash_adtip_nb-kept}

drop_class-kept :
    (m : Member)
    → (ident (drop_class m) ≡ ident m) × ((drop_class m).bandwidth_slot_id ≡ m.bandwidth_slot_id)
drop_class-kept m = elim (Option-cases m.serviceclass_name) [
  | inl e ↦ rw (e, drop_class) (refl, refl)
  | inr (n, e) ↦ rw (e, drop_class) (refl, refl)
]

module _ (R : Sess → Sess → Type 0) (keep : Keeping R) where
  start_failed-kept : (s : Sess) → R s (start_failed s).0
  start_failed-kept s = keep.written drop_class s drop_class-kept

  sc_slot_loop-kept :
      (h : Host) (c : ServiceClassConfig) (n : ℕ) (s : Sess) → R s (sc_slot_loop h c n s).0
  unfolding sc_slot_loop
  sc_slot_loop-kept h c zero s = keep.same s
  sc_slot_loop-kept h c (suc n) s =
      let drawn = ask draw (ask clock s) in
      let slot_id = h.random drawn.log % c.network_size in
      let queried = ask (sql_select (slot_query c.serviceclass_name slot_id)) drawn in
      let next = if slot_id == 0 then drawn else queried in
      let k : R s drawn = keep.chained _ _ _ (keep.asked clock s) (keep.asked draw (ask clock s)) in
      let k' : R s queried = keep.chained _ _ _ k (keep.asked _ drawn) in
      let later : R s (sc_slot_loop h c n next).0 =
        keep.chained _ _ _ (if-elim (R s) (slot_id == 0) drawn queried k k')
          (sc_slot_loop-kept h c n next) in
      if-elim (λ (r : Sess × ℕ). R s r.0) (slot_id == 0) _ _ later
        (if-elim (λ (r : Sess × ℕ). R s r.0) (h.has_rows queried.log) _ _ later k')

  start_mapping-kept :
      (h : Host) (name : Bytes) (c : ServiceClassConfig) (s : Sess)
      → R s (start_mapping h name c s).0
  unfolding start_mapping
  start_mapping-kept h name c s =
      let slot_id = s.req.serviceclass_slot_id in
      let ip = sess_ip h s in
      let ip1 = (c.start_addr + slot_id) % 2 ^ 32 in
      let there = set_ipiphash_adtip_nb h s.serviceclass_set ip ip1 add_ip s in
      let back = set_ipiphash_adtip_nb h there.0.serviceclass_set ip1 ip add_ip there.0 in
      let k : R s there.0 = set_ipiphash_adtip_nb-kept R keep h _ ip ip1 add_ip s in
      let k' : R s back.0 =
        keep.chained _ _ _ k (set_ipiphash_adtip_nb-kept R keep h _ ip1 ip add_ip there.0) in
      if-elim (λ (r : Sess × ℕ). R s r.0) (leb slot_id c.network_size) _ _
        (if-elim (λ (r : Sess × ℕ). R s r.0) (there.1 == 0) _ _
          (if-elim (λ (r : Sess × ℕ). R s r.0) (back.1 == 0) _ _
            (keep.chained _ _ _ k' (
              keep.written (set_class name c slot_id (h.inet_ntoa ip1)) back.0 (λ m. (refl, refl))))
            (keep.chained _ _ _
              (keep.chained _ _ _ k' (set_ipiphash_adtip_nb-kept R keep h _ ip ip1 del_ip back.0))
              (start_failed-kept _)))
          (keep.chained _ _ _ k (start_failed-kept there.0)))
        (start_failed-kept s)

  start_drawn-kept :
      (h : Host) (name : Bytes) (c : ServiceClassConfig) (t : Sess) (slot_id : ℕ)
      → R t (start_drawn h name c (t, slot_id)).0
  unfolding start_drawn
  start_drawn-kept h name c t slot_id =
      if-elim (λ (r : Sess × ℕ). R t r.0) (slot_id == 0) _ _
        (keep.chained _ _ _ (keep.drawn slot_id t) (start_failed-kept (with_slot slot_id t)))
        (keep.chained _ _ _ (keep.drawn slot_id t)
          (start_mapping-kept h name c (with_slot slot_id t)))

  sc_get_slot_id-kept :
      (h : Host) (c : ServiceClassConfig) (s : Sess) → OnSome (λ r. R s r.0) (sc_get_slot_id h c s)
  unfolding sc_get_slot_id
  sc_get_slot_id-kept h c s =
      if-elim (OnSome {A = Sess × ℕ} (λ r. R s r.0)) (c.network_size == 0) none _ tt
        (sc_slot_loop-kept h c 29 s)

  start_class-kept :
      (h : Host) (name : Bytes) (c : ServiceClassConfig) (s : Sess)
      → OnSome (λ r. R s r.0) (start_class h name c s)
  unfolding start_class
  start_class-kept h name c s =
      if-elim (OnSome {A = Sess × ℕ} (λ r. R s r.0)) (s.req.serviceclass_slot_id == 0) _ _
        (OnSome->>= (λ r. R s r.0) (λ r. R s r.0) (sc_get_slot_id h c s) _
          (sc_get_slot_id-kept h c s)
          (λ r k. keep.chained _ _ _ k (start_drawn-kept h name c r.0 r.1)))
        (start_mapping-kept h name c s)

  start_named-kept :
      (h : Host) (name : Option Bytes) (s : Sess) → OnSome (λ r. R s r.0) (start_named h name s)
  unfolding start_named
  start_named-kept h none s = keep.same s
  start_named-kept h (some name) s =
      elim (Option-cases (member_get_node_by_id (members s) s.req.id)) [
        | inl m ↦ rw (m, start_named) (keep.same s)
        | inr (member, m) ↦
            elim (Option-cases (serviceclass_exists s.serviceclass_list minus_one name)) [
              | inl c ↦ rw (m, c, start_named) (start_failed-kept s)
              | inr (sc, c) ↦
                  rw (m, c, start_named) (start_class-kept h name sc.serviceclass_config s)
            ]
      ]

  pub mapping_startsess-kept : (h : Host) (s : Sess) → OnSome (λ r. R s r.0) (Mapping.startsess h s)
  unfolding Mapping.startsess
  mapping_startsess-kept h s = start_named-kept h s.req.serviceclass_name s

  stop_mapping-kept :
      (h : Host) (c : ServiceClassConfig) (member : Member) (s : Sess)
      → R s (stop_mapping h c member s)
  unfolding stop_mapping
  stop_mapping-kept h c member s =
      let ip = sess_ip h s in
      let ip1 = (c.start_addr + member.serviceclass_slot_id) % 2 ^ 32 in
      let there = set_ipiphash_adtip_nb h s.serviceclass_set ip ip1 del_ip s in
      let k : R s there.0 = set_ipiphash_adtip_nb-kept R keep h _ ip ip1 del_ip s in
      if-elim (R s) (member.serviceclass_slot_id == 0) _ _ (keep.same s) (
        if-elim (R s) (leb member.serviceclass_slot_id c.network_size) _ _
          (if-elim (R s) (there.1 == 0) _ _
            (keep.chained _ _ _ k (set_ipiphash_adtip_nb-kept R keep h _ ip1 ip del_ip there.0)) k)
          (keep.same s))

  pub mapping_stopsess-kept : (h : Host) (s : Sess) → R s (Mapping.stopsess h s).0
  unfolding Mapping.stopsess
  mapping_stopsess-kept h s = elim (Option-cases (member_get_node_by_id (members s) s.req.id)) [
    | inl m ↦ rw (m, Mapping.stopsess) (keep.same s)
    | inr (member, m) ↦ elim (Option-cases member.serviceclass_name) [
      | inl e ↦ rw (m, Mapping.stopsess) (rw e (keep.same s))
      | inr (name, e) ↦
          elim (Option-cases (serviceclass_exists s.serviceclass_list minus_one name)) [
            | inl c ↦ rw (m, e, c, Mapping.stopsess) (keep.same s)
            | inr (sc, c) ↦
                rw (m, e, c, Mapping.stopsess) (stop_mapping-kept h sc.serviceclass_config member s)
          ]
    ]
  ]
