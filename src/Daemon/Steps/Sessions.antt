-- ===== src/Daemon/Steps/Sessions.antt =====
-- What the steps of the two threads do to a session that there is.
use mathlib.Core.Path.{subst}
use rahunas.Daemon.Steps.Owned.{get-put}
use rahunas.Daemon.{Daemon, vserver_get_by_id, enter, leave}
use rahunas.Host.{Host}
use rahunas.Member.Lookup.{Distinct}
use rahunas.Member.{Member, member_get_node_by_id}
use rahunas.Prelude.{
  ℕ, ◌≡◌, ◌≢◌, refl, sym, ap, ◌∙◌, inl, inr, Bool, true, false, [], Option, none, some, arith,
  Option-cases, Bool-cases, OnSome, OnSome->>=, ◌==◌, if◌then◌else◌,
}
use rahunas.Rpc.Start.{asked, started_request}
use rahunas.Rpc.{StartParams, start_on, start_for}
use rahunas.Session.Refinement.Start.{rh_task_startsess-session_at}
use rahunas.Session.Refinement.Stop.{rh_task_stopsess-session_at, rh_task_stopsess-SameServer}
use rahunas.Session.Refinement.{member_at}
use rahunas.Session.Task.{rh_task_register, rh_task_startsess, rh_task_stopsess}
use rahunas.Session.{VServer, TaskReq, Sess, members}
use rahunas.Text.{Bytes}
use rahunas.Utils.Ip.{iptoid}

abbrev pub session_on : Option VServer → ℕ → Option Member
session_on none id = none
session_on (some vs) id = member_get_node_by_id vs.v_map.members id

-- All that is kept of the session under an identifier, on the virtual server with a number.
abbrev pub session_of : Daemon → ℕ → ℕ → Option Member
session_of d vserver_id id = session_on (vserver_get_by_id d.vserver_list vserver_id) id

-- No session is changed or ended.
abbrev pub Lasting : Daemon → Daemon → Type 0
Lasting d e = (w j : ℕ) (i : Member) → session_of d w j ≡ some i → session_of e w j ≡ some i

session_on-if :
    (b : Bool) (vs : VServer) (o : Option VServer) (j : ℕ)
    → session_on (if b then some vs else o) j
      ≡ (if b then member_get_node_by_id vs.v_map.members j else session_on o j)
session_on-if true vs o j = refl
session_on-if false vs o j = refl

session_left :
    (d : Daemon) (v : ℕ) (vs : VServer) (t : Sess)
    → vserver_get_by_id d.vserver_list v ≡ some vs
    → t.vs.vserver_id ≡ vs.vserver_id
    → (w j : ℕ)
    → session_of (leave v d t) w j ≡ (if v == w then member_at t j else session_of d w j)
session_left d v vs t found same w j =
    ap (λ o. session_on o j) (get-put v w vs t.vs d.vserver_list found same)
    ∙ session_on-if (v == w) t.vs (vserver_get_by_id d.vserver_list w) j

-- The tasks that start a session that there is not leave all others.
started-Lasting :
    (d : Daemon) (v : ℕ) (vs : VServer) (s t : Sess)
    → vserver_get_by_id d.vserver_list v ≡ some vs
    → t.vs.vserver_id ≡ vs.vserver_id
    → members s ≡ vs.v_map.members
    → member_get_node_by_id vs.v_map.members s.req.id ≡ none
    → ((j : ℕ) → s.req.id ≢ j → member_at t j ≡ member_at s j)
    → Lasting d (leave v d t)
started-Lasting d v vs s t found same table absent at w j i e =
    session_left d v vs t found same w j ∙ elim (Bool-cases (v == w)) [
      | inl here ↦
          let w_is : v ≡ w = ground arith in
          let before : member_get_node_by_id vs.v_map.members j ≡ some i =
            ap (λ o. session_on o j) (sym found)
            ∙ subst (λ x. session_of d x j ≡ some i) (sym w_is) e in
          rw here (elim (Bool-cases (s.req.id == j)) [
            | inl own ↦
                let id_is : s.req.id ≡ j = ground arith in
                let clash : none ≡ some i =
                  sym (subst (λ x. member_get_node_by_id vs.v_map.members x ≡ none) id_is absent)
                  ∙ before in
                absurd cc
            | inr other ↦ at j (ground arith) ∙ rw table before
          ])
      | inr there ↦ rw there e
    ]

pub start_for-Lasting :
    (h : Host) (fuel : ℕ) (stack : TaskReq) (d : Daemon) (p : StartParams)
    (ip username session_id : Bytes) (v : ℕ) (use_serviceclass bandwidth_shape : Bool)
    → d.task_list ≡ rh_task_register use_serviceclass bandwidth_shape []
    → OnSome
        (λ r. Lasting d r.0)
        (start_for h fuel stack d p ip username session_id v (vserver_get_by_id d.vserver_list v))
unfolding start_for start_on
start_for-Lasting h fuel stack d p ip username session_id v sc bw tasks =
    elim (Option-cases (vserver_get_by_id d.vserver_list v)) [
      | inl e ↦ rw (e, start_for) (λ w j i x. x)
      | inr (vs, found) ↦
          let id = iptoid h.inet_aton (some vs.v_map) (some ip) in
          let s = asked h stack d p ip username session_id v vs in
          let (_, table, req_id, _, _, _, number) =
            started_request h stack d p username session_id id v vs in
          elim (Option-cases (member_get_node_by_id vs.v_map.members id)) [
            | inl absent ↦
                rw (found, start_for, absent, start_on, tasks)
                  (OnSome->>= _ (λ r. Lasting d r.0)
                    (rh_task_startsess h fuel (rh_task_register sc bw []) s) _
                    (rh_task_startsess-session_at h fuel sc bw s)
                    (λ t k.
                      started-Lasting d v vs s t found (k.2 ∙ number) table (rw req_id absent) k.3))
            | inr (m, there) ↦ rw (found, start_for, there, start_on) (λ w j i x. x)
          ]
    ]

-- The stop of a session ends it and no other.
pub stopped-others :
    (h : Host) (d : Daemon) (v : ℕ) (vs : VServer) (req : TaskReq)
    (use_serviceclass bandwidth_shape : Bool)
    → d.task_list ≡ rh_task_register use_serviceclass bandwidth_shape []
    → vserver_get_by_id d.vserver_list v ≡ some vs
    → Distinct vs.v_map.members
    → (w j : ℕ)
    → session_of (leave v d (rh_task_stopsess h d.task_list (enter d vs req))) w j
      ≡ (if v == w then (if req.id == j then none else session_of d w j) else session_of d w j)
stopped-others h d v vs req sc bw tasks found distinct w j =
    let s = enter d vs req in
    let t = rh_task_stopsess h (rh_task_register sc bw []) s in
    let at = (rh_task_stopsess-session_at h sc bw s distinct).2 j in
    rw tasks (
      session_left d v vs t found (rh_task_stopsess-SameServer h sc bw s).vs_id w j
      ∙ elim (Bool-cases (v == w)) [
        | inl here ↦
            let w_is : v ≡ w = ground arith in
            let before : member_at s j ≡ session_of d w j =
              ap (λ o. session_on o j) (sym found) ∙ ap (λ x. session_of d x j) w_is in
            rw here (at ∙ rw before refl)
        | inr there ↦ rw there refl
      ])
