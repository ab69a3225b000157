-- ===== src/Rpc/Start.antt =====
-- What the command that starts a session leaves, and what is then said of the session.
use mathlib.Core.Option.{some-injective}
use rahunas.Daemon.{Daemon, vserver_get_by_id, put_vserver, enter, leave}
use rahunas.Host.{Host, clock}
use rahunas.Mac.{parse_mac}
use rahunas.Member.Ident.{Ident, map_ident}
use rahunas.Member.{member_get_node_by_id}
use rahunas.Prelude.{
  ℕ, OnSome, ◌+◌, ◌%◌, ◌^◌, ◌≡◌, refl, sym, ap, ◌∙◌, ◌⊎◌, inl, inr, Bool, false, List, [], ◌∷◌,
  Option, none, some, arith, Bool-cases, ◌==◌, if◌then◌else◌,
}
use rahunas.Rpc.{
  StartParams, start_on, start_for, start_with, start_request, set_timeout, atol_or_zero,
  or_default, zero_mac, greet,
}
use rahunas.Session.Dbset
use rahunas.Session.Ipset
use rahunas.Session.Memset
use rahunas.Session.Ipset.{set_adtip_nb}
use rahunas.Session.Refinement.Start.{started, rh_task_startsess-session_at}
use rahunas.Session.Refinement.Returns.{rh_task_startsess-returns}
use rahunas.Session.Task.{rh_task_register, rh_task_startsess}
use rahunas.Session.{VServer, TaskReq, Sess, members}
use rahunas.Text.{Bytes, atoi}
use rahunas.Utils.Ip.{iptoid}

-- The session that a request of the command stands for.
abbrev pub requested_session : Host → Daemon → StartParams → Bytes → Bytes → ℕ → Ident
requested_session h d p username session_id id =
    let timed = if atol_or_zero p.session_timeout == 0 then d.log else clock ∷ d.log in
    record {
      id = id;
      session_start = h.time (clock ∷ timed);
      session_timeout =
          if atol_or_zero p.session_timeout == 0
          then 0
          else (h.time (clock ∷ d.log) + atol_or_zero p.session_timeout) % 2 ^ 64;
      bandwidth_max_down = atol_or_zero p.bandwidth_max_down;
      bandwidth_max_up = atol_or_zero p.bandwidth_max_up;
      username = some username;
      session_id = some session_id;
      mac_address = parse_mac (or_default p.mac_address) zero_mac;
    }

pub started_request :
    (h : Host) (stack : TaskReq) (d : Daemon) (p : StartParams) (username session_id : Bytes)
    (id vserver_id : ℕ) (vs : VServer)
    → let s =
        set_timeout h p.session_timeout
          (enter d vs (start_request stack p username session_id id vserver_id)) in
      (started h s ≡ requested_session h d p username session_id id)
      × (members s ≡ vs.v_map.members)
      × (s.req.id ≡ id)
      × (s.req.serviceclass_name ≡ p.serviceclass_name)
      × (s.req.bandwidth_max_down ≡ atol_or_zero p.bandwidth_max_down)
      × (s.req.bandwidth_max_up ≡ atol_or_zero p.bandwidth_max_up)
      × (s.vs.vserver_id ≡ vs.vserver_id)
unfolding set_timeout start_request
started_request h stack d p username session_id id vserver_id vs =
    elim (Bool-cases (atol_or_zero p.session_timeout == 0)) [
      | inl e ↦ rw e (refl, refl, refl, refl, refl, refl, refl)
      | inr e ↦ rw e (refl, refl, refl, refl, refl, refl, refl)
    ]

on_returned : (P : Sess → Type 0) (o : Option Sess) (t : Sess) → o ≡ some t → OnSome P o → P t
on_returned P o t e x = rw e at x

put-get :
    (search_id : ℕ) (old new : VServer) (vss : List VServer)
    → vserver_get_by_id vss search_id ≡ some old
    → new.vserver_id ≡ old.vserver_id
    → vserver_get_by_id (put_vserver search_id new vss) search_id ≡ some new
unfolding vserver_get_by_id put_vserver
put-get search_id old new [] e same = cc
put-get search_id old new (vs ∷ vss) e same = elim (Bool-cases (vs.vserver_id == search_id)) [
  | inl here ↦
      let first : vs ≡ old = some-injective vs old (rw here at e) in
      let same_id : new.vserver_id ≡ vs.vserver_id =
        same ∙ ap (λ (v : VServer). v.vserver_id) (sym first) in
      rw (here, same_id, here) refl
  | inr there ↦ rw there (ground (arith, put-get search_id old new vss (rw there at e) same))
]

-- The session that the tasks are asked to start.
abbrev pub asked :
    Host → TaskReq → Daemon → StartParams → Bytes → Bytes → Bytes → ℕ → VServer → Sess
asked h stack d p ip username session_id vserver_id vs = set_timeout h p.session_timeout (
    enter d vs (
      start_request stack p username session_id (iptoid h.inet_aton (some vs.v_map) (some ip))
        vserver_id))

start_for-absent :
    (h : Host) (fuel : ℕ) (stack : TaskReq) (d : Daemon) (p : StartParams)
    (ip username session_id : Bytes) (vserver_id : ℕ) (vs : VServer) (t : Sess)
    → let id = iptoid h.inet_aton (some vs.v_map) (some ip) in
      member_get_node_by_id vs.v_map.members id ≡ none
      → rh_task_startsess h fuel d.task_list
          (asked h stack d p ip username session_id vserver_id vs)
        ≡ some t
      → start_for h fuel stack d p ip username session_id vserver_id (some vs)
        ≡ some (leave vserver_id d t, greet ip (member_get_node_by_id (members t) id))
unfolding start_for start_on
start_for-absent h fuel stack d p ip username session_id vserver_id vs t absent returns =
    rw (absent, start_for, start_on) (rw returns refl)

-- On a virtual server that has no session under the identifier of the address, with the service
-- class and the bandwidth limits not asked for or switched off, the command comes to its end and
-- greets with the session that the virtual server then has: the one that the parameters ask for,
-- beside the sessions that were there. The identifier may be the one of an invalid address.
pub start_with-session_at :
    (h : Host) (fuel : ℕ) (stack : TaskReq) (d : Daemon) (p : StartParams)
    (ip username session_id vserver_id : Bytes) (vs : VServer)
    (use_serviceclass bandwidth_shape : Bool)
    → d.task_list ≡ rh_task_register use_serviceclass bandwidth_shape []
    → vserver_get_by_id d.vserver_list (atoi vserver_id) ≡ some vs
    → let id = iptoid h.inet_aton (some vs.v_map) (some ip) in
      member_get_node_by_id vs.v_map.members id ≡ none
      → (use_serviceclass ≡ false) ⊎ (p.serviceclass_name ≡ none)
      → (bandwidth_shape ≡ false)
        ⊎ ((atol_or_zero p.bandwidth_max_down ≡ 0) × (atol_or_zero p.bandwidth_max_up ≡ 0))
      → (d' : Daemon) × (vs' : VServer) × (start_with h fuel stack d p
            (some ip)
            (some username)
            (some session_id)
            (some vserver_id)
          ≡ some (d', greet ip (member_get_node_by_id vs'.v_map.members id)))
        × (vserver_get_by_id d'.vserver_list (atoi vserver_id) ≡ some vs')
        × ((j : ℕ)
            → map_ident (member_get_node_by_id vs'.v_map.members j) ≡ (
                if id == j
                then some (requested_session h d p username session_id id)
                else map_ident (member_get_node_by_id vs.v_map.members j)))
unfolding start_with
start_with-session_at h fuel stack d p ip username session_id vserver_id vs sc bw tasks found absent
      class limits =
    let id = iptoid h.inet_aton (some vs.v_map) (some ip) in
    let v = atoi vserver_id in
    let s = asked h stack d p ip username session_id v vs in
    let (new, same, req_id, name, down, up, vs_id) =
      started_request h stack d p username session_id id v vs in
    let t = (Dbset.startsess h (Ipset.startsess h (Memset.startsess h s).0).0).0 in
    let returns : rh_task_startsess h fuel (rh_task_register sc bw []) s ≡ some t =
      rh_task_startsess-returns h fuel sc bw s
        (elim class [ inl e ↦ inl e | inr e ↦ inr (name ∙ e) ])
        (elim limits [ inl e ↦ inl e | inr (e, e') ↦ inr (down ∙ e, up ∙ e') ]) in
    let (at, _, kept, _) =
      on_returned _ _ _ returns (rh_task_startsess-session_at h fuel sc bw s) in
    (
      leave v d t,
      t.vs,
      rw found (
          start_for-absent h fuel stack d p ip username session_id v vs t absent
            (ap (λ ts. rh_task_startsess h fuel ts s) tasks ∙ returns)),
      put-get v vs t.vs d.vserver_list found (kept ∙ vs_id),
      λ j. at j ∙ rw (new, same, req_id) refl,
    )
