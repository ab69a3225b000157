-- ===== src/Session/Refinement/Start.antt =====
-- What starting a session does to the map of sessions.
use rahunas.Host.{Host, clock}
use rahunas.Member.Ident.{Ident}
use rahunas.Member.Lookup.{Distinct}
use rahunas.Member.{member_get_node_by_id}
use rahunas.Prelude.{
  ℕ, ◌≡◌, ◌≢◌, refl, ap, ◌∙◌, Bool, [], ◌∷◌, some, Bool-cases, inl, inr, OnSome, OnSome-map, ◌==◌,
  if◌then◌else◌,
}
use rahunas.Session.Keeps.{Keeps, SameServer, SameServer-trans}
use rahunas.Session.Memset
use rahunas.Session.Memset.Laws.{requested, get-store, get-store_other, store-Distinct}
use rahunas.Session.Memset.{stamp, store}
use rahunas.Session.Task.Order.{rh_task_register_lem}
use rahunas.Session.Task.{startsess, rh_task_register, rh_task_startsess}
use rahunas.Session.{Sess, members}
use rahunas.Session.Refinement.{
  session_at, member_at, session_at-idents, Distinct-idents, start_rest-Keeps, rest, memset_absent,
}

-- The session that a request asks for: it starts now unless the request says when.
abbrev pub started : Host → Sess → Ident
started h s = record {
  id = s.req.id;
  session_start = if s.req.session_start == 0 then h.time (clock ∷ s.log) else s.req.session_start;
  session_timeout = s.req.session_timeout;
  bandwidth_max_down = s.req.bandwidth_max_down;
  bandwidth_max_up = s.req.bandwidth_max_up;
  username = some s.req.username;
  session_id = some s.req.session_id;
  mac_address = s.req.mac_address;
}

pub stamp-started :
    (h : Host) (s : Sess)
    → (requested (stamp h s).req ≡ started h s)
      × (members (stamp h s) ≡ members s)
      × ((stamp h s).req.id ≡ s.req.id)
unfolding stamp
stamp-started h s = elim (Bool-cases (s.req.session_start == 0)) [
  | inl e ↦ rw e (refl, refl, refl)
  | inr e ↦ rw e (refl, refl, refl)
]

pub memset-Distinct :
    (h : Host) (s : Sess) → Distinct (members s) → Distinct (members (Memset.startsess h s).0)
unfolding Memset.startsess
memset-Distinct h s d =
    store-Distinct (stamp h s).req (members (stamp h s)) (rw (stamp-started h s).1 d)

-- After MEMSET.
pub memset_started :
    (h : Host) (s : Sess) (j : ℕ)
    → session_at (Memset.startsess h s).0 j
      ≡ (if s.req.id == j then some (started h s) else session_at s j)
unfolding Memset.startsess
memset_started h s j =
    let (new, same, id) = stamp-started h s in
    get-store (stamp h s).req (members (stamp h s)) j ∙ rw (new, same, id)

memset_vserver_id : (h : Host) (s : Sess) → (Memset.startsess h s).0.vs.vserver_id ≡ s.vs.vserver_id
unfolding Memset.startsess stamp
memset_vserver_id h s = elim (Bool-cases (s.req.session_start == 0)) [
  | inl e ↦ rw e refl
  | inr e ↦ rw e refl
]

pub start_tasks :
    (h : Host) (fuel : ℕ) (sc bw : Bool) (s : Sess)
    → rh_task_startsess h fuel (rh_task_register sc bw []) s
      ≡ rh_task_startsess h fuel (rest sc bw) (Memset.startsess h s).0
unfolding rh_task_startsess startsess
start_tasks h fuel sc bw s = rw (rh_task_register_lem sc bw)

memset_others :
    (h : Host) (s : Sess) (j : ℕ)
    → s.req.id ≢ j
    → member_at (Memset.startsess h s).0 j ≡ member_at s j
unfolding Memset.startsess
memset_others h s j ne =
    let (_, same, id) = stamp-started h s in
    get-store_other (stamp h s).req (members (stamp h s)) j (rw id ne)
    ∙ ap (λ ms. member_get_node_by_id ms j) same

memset_req_id : (h : Host) (s : Sess) → (Memset.startsess h s).0.req.id ≡ s.req.id
unfolding Memset.startsess
memset_req_id h s = (stamp-started h s).2

-- When all registered tasks have started a session, the one under the request's identifier is the
-- session that the request asks for, by all that identifies it, its times and its limits; and every
-- other member is as before in all its fields, with its bandwidth slot, its class and its mapping. Two
-- members never get one identifier, and the virtual server keeps its number.
pub rh_task_startsess-session_at :
    (h : Host) (fuel : ℕ) (use_serviceclass bandwidth_shape : Bool) (s : Sess)
    → OnSome
        (λ t.
          ((j : ℕ)
            → session_at t j ≡ (if s.req.id == j then some (started h s) else session_at s j))
          × (Distinct (members s) → Distinct (members t))
          × (t.vs.vserver_id ≡ s.vs.vserver_id)
          × ((j : ℕ) → s.req.id ≢ j → member_at t j ≡ member_at s j))
        (rh_task_startsess h fuel (rh_task_register use_serviceclass bandwidth_shape []) s)
rh_task_startsess-session_at h fuel sc bw s = rw (start_tasks h fuel sc bw s) (
    OnSome-map (Keeps (Memset.startsess h s).0) _ _
      (λ t k. (
        λ j. session_at-idents (Memset.startsess h s).0 t k.idents j ∙ memset_started h s j,
        λ d. Distinct-idents (Memset.startsess h s).0 t k.idents (memset-Distinct h s d),
        k.server.vs_id ∙ memset_vserver_id h s,
        λ j ne. k.others j (rw (memset_req_id h s) ne) ∙ memset_others h s j ne,
      ))
      (start_rest-Keeps h fuel (rest sc bw) _ (memset_absent sc bw)))

memset_start-SameServer : (h : Host) (s : Sess) → SameServer s (Memset.startsess h s).0
unfolding Memset.startsess stamp
memset_start-SameServer h s = elim (Bool-cases (s.req.session_start == 0)) [
  | inl e ↦ rw e (record {
    vs_id = refl;
    first_ip = refl;
    last_ip = refl;
    size = refl;
    set = refl;
    idle = refl;
  })
  | inr e ↦ rw e (record {
    vs_id = refl;
    first_ip = refl;
    last_ip = refl;
    size = refl;
    set = refl;
    idle = refl;
  })
]

-- Starting a session leaves the virtual server alone, but for its members.
pub rh_task_startsess-SameServer :
    (h : Host) (fuel : ℕ) (use_serviceclass bandwidth_shape : Bool) (s : Sess)
    → OnSome
        (SameServer s)
        (rh_task_startsess h fuel (rh_task_register use_serviceclass bandwidth_shape []) s)
rh_task_startsess-SameServer h fuel sc bw s = rw (start_tasks h fuel sc bw s) (
    OnSome-map (Keeps (Memset.startsess h s).0) (SameServer s) _
      (λ t k. SameServer-trans (memset_start-SameServer h s) k.server)
      (start_rest-Keeps h fuel (rest sc bw) _ (memset_absent sc bw)))
