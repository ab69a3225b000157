-- ===== src/Session/Refinement/Stop.antt =====
-- What stopping a session does to the map of sessions.
use rahunas.Host.{Host}
use rahunas.Member.Ident.{ident, map_ident, delete_ident, map-ident-delete_node}
use rahunas.Member.Lookup.{Distinct, get-delete}
use rahunas.Member.{Member, member_get_node_by_id, delete_node}
use rahunas.Prelude.{
  ℕ, ◌≡◌, ◌≢◌, Option, Bool-cases, refl, sym, ap, ◌∙◌, Bool, List, [], ◌∷◌, none, arith, map,
  Option-cases, inl, inr, OnSome, OnSome-map, ◌==◌, if◌then◌else◌,
}
use rahunas.Session.Keeps.{SameServer, SameServer-trans, Keeps-refl, Keeps}
use rahunas.Session.Memset
use rahunas.Session.Memset.Laws.{delete-Distinct, delete-store}
use rahunas.Session.Memset.{stamp, store}
use rahunas.Session.Task.Order.{rh_task_register_lem}
use rahunas.Session.Task.{stopsess, rh_task_register, rh_task_startsess, rh_task_stopsess}
use rahunas.Session.{Sess, TaskReq, members}
use rahunas.Session.Refinement.{
  session_at, member_at, session_at-idents, Distinct-idents, start_rest-Keeps, stop_rest-Keeps,
  rest, memset_absent,
}
use rahunas.Session.Refinement.Start.{start_tasks, stamp-started}

delete_none :
    (id : ℕ) (ms : List Member) → member_get_node_by_id ms id ≡ none → delete_node id ms ≡ ms
unfolding member_get_node_by_id delete_node
delete_none id [] e = refl
delete_none id (m ∷ ms) e = ground (arith, delete_none id ms)

memset_stopped : (s : Sess) → members (Memset.stopsess s).0 ≡ delete_node s.req.id (members s)
unfolding Memset.stopsess
memset_stopped s = elim (Option-cases (member_get_node_by_id (members s) s.req.id)) [
  | inl e ↦ rw (e, Memset.stopsess) (sym (delete_none s.req.id (members s) e))
  | inr (m, e) ↦ rw (e, Memset.stopsess) refl
]

-- The tasks behind MEMSET stop first, then MEMSET.
stop_tasks :
    (h : Host) (sc bw : Bool) (s : Sess)
    → rh_task_stopsess h (rh_task_register sc bw []) s
      ≡ (Memset.stopsess (rh_task_stopsess h (rest sc bw) s)).0
unfolding rh_task_stopsess stopsess
stop_tasks h sc bw s = rw (rh_task_register_lem sc bw)

get-delete_ident :
    (id j : ℕ) (ms : List Member)
    → Distinct ms
    → map_ident (member_get_node_by_id (delete_node id ms) j)
      ≡ (if id == j then none else map_ident (member_get_node_by_id ms j))
get-delete_ident id j ms d = ground (arith, get-delete id j ms d)

left_member :
    (id id' j : ℕ) (before after : Option Member)
    → id' ≡ id
    → (id ≢ j → after ≡ before)
    → (if id' == j then none else after) ≡ (if id == j then none else before)
left_member id id' j before after same kept =
    rw same (elim (Bool-cases (id == j)) [ inl e ↦ rw e refl | inr e ↦ rw e (kept (ground arith)) ])

-- When all registered tasks have stopped a session, none is left under its identifier, and every
-- other session is as before, its whole member with the bandwidth slot, the class and the mapping,
-- where no two members had one identifier; and then no two have.
pub rh_task_stopsess-session_at :
    (h : Host) (use_serviceclass bandwidth_shape : Bool) (s : Sess)
    → Distinct (members s)
    → let t = rh_task_stopsess h (rh_task_register use_serviceclass bandwidth_shape []) s in
      ((j : ℕ) → session_at t j ≡ (if s.req.id == j then none else session_at s j))
      × Distinct (members t)
      × ((j : ℕ) → member_at t j ≡ (if s.req.id == j then none else member_at s j))
rh_task_stopsess-session_at h sc bw s d =
    let u = rh_task_stopsess h (rest sc bw) s in
    let k = stop_rest-Keeps h (rest sc bw) s (memset_absent sc bw) in
    let d' = Distinct-idents s u k.idents d in
    rw (stop_tasks h sc bw s) (
      λ j.
          ap (λ ms. map_ident (member_get_node_by_id ms j)) (memset_stopped u)
          ∙ (get-delete_ident u.req.id j (members u) d'
              ∙ rw (k.req_id, session_at-idents s u k.idents j)),
      rw (memset_stopped u) (delete-Distinct u.req.id (members u) d'),
      λ j.
          ap (λ ms. member_get_node_by_id ms j) (memset_stopped u)
          ∙ (get-delete u.req.id j (members u) d'
              ∙ left_member s.req.id u.req.id j _ _ k.req_id (k.others j)),
    )

memset_server : (s : Sess) → SameServer s (Memset.stopsess s).0
unfolding Memset.stopsess
memset_server s = elim (Option-cases (member_get_node_by_id (members s) s.req.id)) [
  | inl e ↦ rw (e, Memset.stopsess) ((Keeps-refl s).server)
  | inr (m, e) ↦
      rw (e, Memset.stopsess)
        (record {
          vs_id = refl;
          first_ip = refl;
          last_ip = refl;
          size = refl;
          set = refl;
          idle = refl;
        })
]

-- Stopping a session leaves the virtual server's number, range, set and time limit.
pub rh_task_stopsess-SameServer :
    (h : Host) (sc bw : Bool) (s : Sess)
    → SameServer s (rh_task_stopsess h (rh_task_register sc bw []) s)
rh_task_stopsess-SameServer h sc bw s = rw (stop_tasks h sc bw s) (
    SameServer-trans (stop_rest-Keeps h (rest sc bw) s (memset_absent sc bw)).server
      (memset_server _))

memset_undone :
    (h : Host) (s : Sess) (req : TaskReq)
    → member_get_node_by_id (members s) s.req.id ≡ none
    → req.id ≡ s.req.id
    → delete_node req.id (members (Memset.startsess h s).0) ≡ members s
unfolding Memset.startsess
memset_undone h s req e same =
    let (_, kept, id) = stamp-started h s in
    ap (λ n. delete_node n (store (stamp h s).req (members (stamp h s)))) (same ∙ sym id)
    ∙ (delete-store (stamp h s).req (members (stamp h s)) (rw (kept, id) e) ∙ kept)

-- A session that did not exist and is started, and then stopped by a request with its identifier,
-- leaves the sessions of the table, by all that identifies them, as they were, in their order too.
pub stop-start :
    (h : Host) (fuel : ℕ) (use_serviceclass bandwidth_shape : Bool) (s : Sess) (req : TaskReq)
    → member_get_node_by_id (members s) s.req.id ≡ none
    → req.id ≡ s.req.id
    → let tasks = rh_task_register use_serviceclass bandwidth_shape [] in
      OnSome
        (λ t.
          map ident (members (rh_task_stopsess h tasks (record t { req = req })))
          ≡ map ident (members s))
        (rh_task_startsess h fuel tasks s)
stop-start h fuel sc bw s req e same = rw (start_tasks h fuel sc bw s) (
    OnSome-map (Keeps (Memset.startsess h s).0) _ _
      (λ t k.
        let t' = record t { req = req } in
        let v = rh_task_stopsess h (rest sc bw) t' in
        let kept = stop_rest-Keeps h (rest sc bw) t' (memset_absent sc bw) in
        rw (stop_tasks h sc bw t') (
          rw (memset_stopped v, kept.req_id)
            (map-ident-delete_node req.id (members v)
              ∙ (ap (delete_ident req.id) (kept.idents ∙ k.idents)
                  ∙ (sym (map-ident-delete_node req.id _)
                      ∙ ap (map ident) (memset_undone h s req e same))))))
      (start_rest-Keeps h fuel (rest sc bw) _ (memset_absent sc bw)))
