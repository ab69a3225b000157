-- ===== src/Session/Keeps.antt =====
-- What the tasks other than MEMSET leave alone, when they start and when they stop a session: the
-- sessions of the table, the request's identifier and hardware address, and the virtual server's
-- range and set, and every member but that of the request.
pub mod Bandwidth
pub mod Mapping
use rahunas.Host.{Host, Event, clock, draw, sleep, sql_select, SetOp, add_ip, del_ip}
use rahunas.Member.Ident.{Ident, ident, map-ident-modify_node}
use rahunas.Member.{Member, member_get_node_by_id, modify_node}
use rahunas.Prelude.{
  ℕ, zero, suc, ◌≡◌, ◌≢◌, refl, sym, ap, ◌∙◌, List, [], ◌∷◌, Option, none, some, arith, map,
  Option-cases, Bool-cases, inl, inr, leb, ltb, ◌&&◌, OnSome, OnSome->>=, OnSome-map, if-elim, Bool,
  ◌%◌, ◌+◌, ◌^◌, ◌==◌, if◌then◌else◌,
}
use rahunas.ServiceClass.{ServiceClassConfig, serviceclass_exists}
use rahunas.Session.Bandwidth.{
  set_slot, give_back, try_add, bandwidth_add, bandwidth_del, take_slot, startsess_member,
}
use rahunas.Session.Dbset
use rahunas.Session.Ipset
use rahunas.Session.Ipset.{sess_ip, set_adtip_nb, set_ipiphash_adtip_nb}
use rahunas.Session.Mapping.{
  slot_query, sc_slot_loop, sc_get_slot_id, drop_class, start_failed, set_class, start_mapping,
  with_slot, start_class, start_drawn, start_named, stop_mapping,
}
use rahunas.Session.Slots.{
  is_reserved, drawn_slot, max_slot_id, draw_loop, get_slot_id, mark_reserved_slot_id,
}
use rahunas.Session.{Sess, members, modify_member, ask, minus_one}
use rahunas.Text.{Bytes}

pub record SameServer (s t : Sess) : Type 0 where
  pub vs_id : t.vs.vserver_id ≡ s.vs.vserver_id
  pub first_ip : t.vs.v_map.first_ip ≡ s.vs.v_map.first_ip
  pub last_ip : t.vs.v_map.last_ip ≡ s.vs.v_map.last_ip
  pub size : t.vs.v_map.size ≡ s.vs.v_map.size
  pub set : t.vs.v_set ≡ s.vs.v_set
  pub idle : t.vs.idle_timeout ≡ s.vs.idle_timeout

pub SameServer-trans : {s t u : Sess} → SameServer s t → SameServer t u → SameServer s u
SameServer-trans a b = record {
  vs_id = b.vs_id ∙ a.vs_id;
  first_ip = b.first_ip ∙ a.first_ip;
  last_ip = b.last_ip ∙ a.last_ip;
  size = b.size ∙ a.size;
  set = b.set ∙ a.set;
  idle = b.idle ∙ a.idle;
}

pub record Keeps (s t : Sess) : Type 0 where
  pub idents : map ident (members t) ≡ map ident (members s)
  pub req_id : t.req.id ≡ s.req.id
  pub mac : t.req.mac_address ≡ s.req.mac_address
  pub server : SameServer s t
  pub others :
      (j : ℕ)
      → s.req.id ≢ j
      → member_get_node_by_id (members t) j ≡ member_get_node_by_id (members s) j

pub Keeps-refl : (s : Sess) → Keeps s s
Keeps-refl s = record {
  idents = refl;
  req_id = refl;
  mac = refl;
  server = record {
    vs_id = refl;
    first_ip = refl;
    last_ip = refl;
    size = refl;
    set = refl;
    idle = refl;
  };
  others = λ j ne. refl;
}

pub Keeps-trans : {s t u : Sess} → Keeps s t → Keeps t u → Keeps s u
Keeps-trans a b = record {
  idents = b.idents ∙ a.idents;
  req_id = b.req_id ∙ a.req_id;
  mac = b.mac ∙ a.mac;
  server = SameServer-trans a.server b.server;
  others = λ j ne. b.others j (λ e. ne (sym a.req_id ∙ e)) ∙ a.others j ne;
}

pub kept_if :
    (s : Sess) (b : Bool) (x y : Sess × ℕ)
    → Keeps s x.0
    → Keeps s y.0
    → Keeps s (if b then x else y).0
kept_if s = if-elim (λ (r : Sess × ℕ). Keeps s r.0)

pub ask-Keeps : (e : Event) (s : Sess) → Keeps s (ask e s)
ask-Keeps e s = record {
  idents = refl;
  req_id = refl;
  mac = refl;
  server = record {
    vs_id = refl;
    first_ip = refl;
    last_ip = refl;
    size = refl;
    set = refl;
    idle = refl;
  };
  others = λ j ne. refl;
}

get-modify_other :
    (id : ℕ) (f : Member → Member) (ms : List Member) (j : ℕ)
    → ((m : Member) → (f m).id ≡ m.id)
    → id ≢ j
    → member_get_node_by_id (modify_node id f ms) j ≡ member_get_node_by_id ms j
unfolding member_get_node_by_id modify_node
get-modify_other id f [] j same ne = refl
get-modify_other id f (m ∷ ms) j same ne =
    ground (arith, same m, get-modify_other id f ms j same ne)

-- A write to the member of the request.
pub modify-Keeps :
    (f : Member → Member) (s : Sess)
    → ((m : Member) → ident (f m) ≡ ident m)
    → Keeps s (modify_member s.req.id f s)
modify-Keeps f s keeps = record {
  idents = map-ident-modify_node s.req.id f (members s) keeps;
  req_id = refl;
  mac = refl;
  server = record {
    vs_id = refl;
    first_ip = refl;
    last_ip = refl;
    size = refl;
    set = refl;
    idle = refl;
  };
  others = λ j ne.
      get-modify_other s.req.id f (members s) j (λ m. ap (λ (i : Ident). i.id) (keeps m)) ne;
}

-- A relation between states that the tasks other than MEMSET and BANDWIDTH stay in: it holds of no
-- step and of two in a row, of a request to the system, of a service class's slot that is written
-- into the request, and of a write to the request's own member that leaves its session and its
-- bandwidth slot.
pub record Keeping (R : Sess → Sess → Type 0) : Type 0 where
  pub same : (s : Sess) → R s s
  pub chained : (s t u : Sess) → R s t → R t u → R s u
  pub asked : (e : Event) (s : Sess) → R s (ask e s)
  pub drawn : (slot_id : ℕ) (s : Sess) → R s (with_slot slot_id s)
  pub written :
      (f : Member → Member) (s : Sess)
      → ((m : Member) → (ident (f m) ≡ ident m) × ((f m).bandwidth_slot_id ≡ m.bandwidth_slot_id))
      → R s (modify_member s.req.id f s)

pub Keeps-Keeping : Keeping Keeps
Keeps-Keeping = record {
  same = Keeps-refl;
  chained = λ s t u. Keeps-trans;
  asked = ask-Keeps;
  drawn = λ slot_id s. record {
    idents = refl;
    req_id = refl;
    mac = refl;
    server = record {
      vs_id = refl;
      first_ip = refl;
      last_ip = refl;
      size = refl;
      set = refl;
      idle = refl;
    };
    others = λ j ne. refl;
  };
  written = λ f s keeps. modify-Keeps f s (λ m. (keeps m).0);
}

module _ (R : Sess → Sess → Type 0) (keep : Keeping R) where
  set_adtip_nb-kept :
      (h : Host) (set : Option ℕ) (ip : ℕ) (mac : Bytes) (op : SetOp) (s : Sess)
      → R s (set_adtip_nb h set ip mac op s).0
  unfolding set_adtip_nb
  set_adtip_nb-kept h none ip mac op s = keep.same s
  set_adtip_nb-kept h (some index) ip mac op s = keep.asked _ s

  pub set_ipiphash_adtip_nb-kept :
      (h : Host) (set : Option ℕ) (ip ip1 : ℕ) (op : SetOp) (s : Sess)
      → R s (set_ipiphash_adtip_nb h set ip ip1 op s).0
  unfolding set_ipiphash_adtip_nb
  set_ipiphash_adtip_nb-kept h none ip ip1 op s = keep.same s
  set_ipiphash_adtip_nb-kept h (some index) ip ip1 op s = keep.asked _ s

  pub ipset_startsess-kept : (h : Host) (s : Sess) → R s (Ipset.startsess h s).0
  unfolding Ipset.startsess
  ipset_startsess-kept h s = set_adtip_nb-kept h _ _ _ _ s

  pub ipset_stopsess-kept : (h : Host) (s : Sess) → R s (Ipset.stopsess h s).0
  unfolding Ipset.stopsess
  ipset_stopsess-kept h s = set_adtip_nb-kept h _ _ _ _ s

  pub dbset_startsess-kept : (h : Host) (s : Sess) → R s (Dbset.startsess h s).0
  unfolding Dbset.startsess
  dbset_startsess-kept h s = elim (Option-cases (member_get_node_by_id (members s) s.req.id)) [
    | inl e ↦ rw (e, Dbset.startsess) (keep.same s)
    | inr (m, e) ↦ rw (e, Dbset.startsess) (keep.asked _ s)
  ]

  pub dbset_stopsess-kept : (s : Sess) → R s (Dbset.stopsess s).0
  unfolding Dbset.stopsess
  dbset_stopsess-kept s = elim (Option-cases (member_get_node_by_id (members s) s.req.id)) [
    | inl e ↦ rw (e, Dbset.stopsess) (keep.same s)
    | inr (m, e) ↦ rw (e, Dbset.stopsess) (keep.asked _ s)
  ]
