-- ===== src/Session/Refinement/Returns.antt =====
-- When the start of a session comes to its end.
use rahunas.Host.{Host, SetOp}
use rahunas.Member.Ident.{Ident, map_ident}
use rahunas.Member.{member_get_node_by_id}
use rahunas.Prelude.{
  ℕ, ◌≡◌, refl, ap, ◌∙◌, Bool, true, false, [], Option, none, some, arith, Bool-cases, inl, inr,
  ◌⊎◌, ==_refl, ◌==◌,
}
use rahunas.Session.Bandwidth
use rahunas.Session.Mapping
use rahunas.Session.Mapping.{start_named}
use rahunas.Session.Ipset
use rahunas.Session.Ipset.{set_adtip_nb}
use rahunas.Session.Dbset
use rahunas.Session.Bandwidth.{startsess_member}
use rahunas.Session.Memset
use rahunas.Session.Memset.{stamp, store}
use rahunas.Session.Task.{startsess, rh_task_register, rh_task_startsess}
use rahunas.Text.{Bytes}
use rahunas.Session.{Sess, TaskReq, members}
use rahunas.Session.Refinement.{session_at, rest}
use rahunas.Session.Refinement.Start.{started, stamp-started, memset_started, start_tasks}

mapping_skips :
    (h : Host) (s : Sess) → s.req.serviceclass_name ≡ none → Mapping.startsess h s ≡ some (s, 0)
unfolding Mapping.startsess start_named
mapping_skips h s e = ap (λ n. start_named h n s) e

bandwidth_skips :
    (h : Host) (fuel : ℕ) (s : Sess) (i : Ident)
    → session_at s s.req.id ≡ some i
    → i.bandwidth_max_down ≡ 0
    → i.bandwidth_max_up ≡ 0
    → Bandwidth.startsess h fuel s ≡ some (s, 0)
unfolding Bandwidth.startsess startsess_member
bandwidth_skips h fuel s i e down up = ground arith

-- After MEMSET and IPSET.
unfoldable pub entered : Host → Sess → Sess
entered h s = (Ipset.startsess h (Memset.startsess h s).0).0

adtip_req :
    (h : Host) (set : Option ℕ) (ip : ℕ) (mac : Bytes) (op : SetOp) (s : Sess)
    → ((set_adtip_nb h set ip mac op s).0.req ≡ s.req)
      × (members (set_adtip_nb h set ip mac op s).0 ≡ members s)
unfolding set_adtip_nb
adtip_req h none ip mac op s = (refl, refl)
adtip_req h (some index) ip mac op s = (refl, refl)

entered_req :
    (h : Host) (s : Sess)
    → ((entered h s).req ≡ (stamp h s).req)
      × (members (entered h s) ≡ members (Memset.startsess h s).0)
unfolding entered Ipset.startsess Memset.startsess
entered_req h s = adtip_req h _ _ _ _ (Memset.startsess h s).0

stamp_class : (h : Host) (s : Sess) → (stamp h s).req.serviceclass_name ≡ s.req.serviceclass_name
unfolding stamp
stamp_class h s = elim (Bool-cases (s.req.session_start == 0)) [
  | inl e ↦ rw e refl
  | inr e ↦ rw e refl
]

pub entered_class :
    (h : Host) (s : Sess)
    → s.req.serviceclass_name ≡ none
    → Mapping.startsess h (entered h s) ≡ some (entered h s, 0)
entered_class h s e =
    mapping_skips h (entered h s)
      (ap (λ (r : TaskReq). r.serviceclass_name) (entered_req h s).0 ∙ (stamp_class h s ∙ e))

entered_session :
    (h : Host) (s : Sess) → session_at (entered h s) (entered h s).req.id ≡ some (started h s)
entered_session h s =
    let (req, same) = entered_req h s in
    let id : (entered h s).req.id ≡ s.req.id =
      ap (λ (r : TaskReq). r.id) req ∙ (stamp-started h s).2 in
    ap (session_at (entered h s)) id
    ∙ (ap (λ ms. map_ident (member_get_node_by_id ms s.req.id)) same
        ∙ (memset_started h s s.req.id ∙ rw (==_refl s.req.id)))

entered_limits :
    (h : Host) (fuel : ℕ) (s : Sess)
    → s.req.bandwidth_max_down ≡ 0
    → s.req.bandwidth_max_up ≡ 0
    → Bandwidth.startsess h fuel (entered h s) ≡ some (entered h s, 0)
entered_limits h fuel s down up =
    bandwidth_skips h fuel (entered h s) (started h s) (entered_session h s) down up

-- What is left of the list, when the tasks of the two options do nothing.
rest_skips :
    (h : Host) (fuel : ℕ) (sc bw : Bool) (s t : Sess)
    → (Ipset.startsess h s).0 ≡ t
    → (sc ≡ false) ⊎ (Mapping.startsess h t ≡ some (t, 0))
    → (bw ≡ false) ⊎ (Bandwidth.startsess h fuel t ≡ some (t, 0))
    → rh_task_startsess h fuel (rest sc bw) s ≡ some (Dbset.startsess h t).0
unfolding rh_task_startsess startsess
rest_skips h fuel true true s t e (inl c) l = cc
rest_skips h fuel true true s t e (inr c) (inl l) = cc
rest_skips h fuel true true s t e (inr c) (inr l) = rw (e, c, l)
rest_skips h fuel true false s t e (inl c) l = cc
rest_skips h fuel true false s t e (inr c) l = rw (e, c)
rest_skips h fuel false true s t e c (inl l) = cc
rest_skips h fuel false true s t e c (inr l) = rw (e, l)
rest_skips h fuel false false s t e c l = rw e

-- With a request for no service class and no bandwidth limit, or with the tasks for them switched
-- off, the start of a session comes to its end: with the state that MEMSET, IPSET and DBSET leave.
pub rh_task_startsess-returns :
    (h : Host) (fuel : ℕ) (use_serviceclass bandwidth_shape : Bool) (s : Sess)
    → (use_serviceclass ≡ false) ⊎ (s.req.serviceclass_name ≡ none)
    → (bandwidth_shape ≡ false) ⊎ ((s.req.bandwidth_max_down ≡ 0) × (s.req.bandwidth_max_up ≡ 0))
    → rh_task_startsess h fuel (rh_task_register use_serviceclass bandwidth_shape []) s
      ≡ some (Dbset.startsess h (Ipset.startsess h (Memset.startsess h s).0).0).0
unfolding entered
rh_task_startsess-returns h fuel sc bw s class limits =
    start_tasks h fuel sc bw s
    ∙ rest_skips h fuel sc bw _ (entered h s) refl
        (elim class [ inl e ↦ inl e | inr e ↦ inr (entered_class h s e) ])
        (elim limits [ inl e ↦ inl e | inr (down, up) ↦ inr (entered_limits h fuel s down up) ])
