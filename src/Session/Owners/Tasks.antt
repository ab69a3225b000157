-- ===== src/Session/Owners/Tasks.antt =====
-- All tasks together move slots as each may.
use rahunas.Host.{Host}
use rahunas.Member.Lookup.{Distinct, sorted_position-append}
use rahunas.Member.{Member, blank, member_get_node_by_id, modify_node, delete_node, sorted_position}
use rahunas.Prelude.{
  ℕ, ◌≡◌, refl, ap, ◌∙◌, List, [], ◌∷◌, ◌++◌, none, arith, inl, inr, Bool-cases, Option-cases,
  OnSome, OnSome->>=, OnSome-map, ◌==◌, if◌then◌else◌,
}
use rahunas.Session.Bandwidth
use rahunas.Session.Keeps.Mapping.{mapping_startsess-kept, mapping_stopsess-kept}
use rahunas.Session.Keeps.{
  ipset_startsess-kept, ipset_stopsess-kept, dbset_startsess-kept, dbset_stopsess-kept,
}
use rahunas.Session.Mapping
use rahunas.Session.Memset
use rahunas.Session.Memset.Laws.{delete-Distinct}
use rahunas.Session.Memset.{fill, stamp, store}
use rahunas.Session.Owners.Drawing.{InRange}
use rahunas.Session.Owners.Shaping.{bandwidth_startsess-Moves, bandwidth_stopsess-Moves}
use rahunas.Session.Owners.{slot_in, lost, Moves, Moves-Keeping, unmoved}
use rahunas.Session.Refinement.Start.{stamp-started, memset-Distinct}
use rahunas.Session.Task.{
  Task, iptables, memset, ipset, serviceclass, bandwidth, dbset, startsess, stopsess,
  rh_task_startsess, rh_task_stopsess,
}
use rahunas.Session.{TaskReq, Sess, members}

slot_in-none : (ms : List Member) (id : ℕ) → member_get_node_by_id ms id ≡ none → slot_in ms id ≡ 0
unfolding slot_in member_get_node_by_id
slot_in-none [] id e = refl
slot_in-none (m ∷ ms) id e = ground (arith, slot_in-none ms id)

-- A member without a slot is inserted.
slot-insert :
    (xs ys : List Member) (m : Member) (j : ℕ)
    → m.bandwidth_slot_id ≡ 0
    → member_get_node_by_id (xs ++ ys) m.id ≡ none
    → slot_in (xs ++ (m ∷ ys)) j ≡ slot_in (xs ++ ys) j
unfolding slot_in member_get_node_by_id
slot-insert [] ys m j free e = ground (arith, slot_in-none ys j)
slot-insert (x ∷ xs) ys m j free e = ground (arith, slot-insert xs ys m j free)

-- A member is written over that keeps its slot.
slot-fill :
    (req : TaskReq) (ms : List Member) (j : ℕ)
    → slot_in (modify_node req.id (fill req) ms) j ≡ slot_in ms j
unfolding slot_in modify_node fill
slot-fill req [] j = refl
slot-fill req (m ∷ ms) j = ground (arith, slot-fill req ms j)

slot-store : (req : TaskReq) (ms : List Member) (j : ℕ) → slot_in (store req ms) j ≡ slot_in ms j
unfolding store fill
slot-store req ms j = elim (Option-cases (member_get_node_by_id ms req.id)) [
  | inl e ↦
      rw (e, store)
        (slot-insert (sorted_position blank ms).0 (sorted_position blank ms).1 (fill req blank) j
            refl (rw (sorted_position-append blank ms) e)
          ∙ ap (λ xs. slot_in xs j) (sorted_position-append blank ms))
  | inr (m, e) ↦ rw (e, store) (slot-fill req ms j)
]

stamp_number : (h : Host) (s : Sess) → (stamp h s).vs.vserver_id ≡ s.vs.vserver_id
unfolding stamp
stamp_number h s = elim (Bool-cases (s.req.session_start == 0)) [
  | inl e ↦ rw e refl
  | inr e ↦ rw e refl
]

stamp_flags : (h : Host) (s : Sess) → (stamp h s).slot_flags ≡ s.slot_flags
unfolding stamp
stamp_flags h s = elim (Bool-cases (s.req.session_start == 0)) [
  | inl e ↦ rw e refl
  | inr e ↦ rw e refl
]

memset_startsess-Moves : (h : Host) (s : Sess) → Moves s (Memset.startsess h s).0
unfolding Memset.startsess
memset_startsess-Moves h s =
    let (_, same, id) = stamp-started h s in
    unmoved s (Memset.startsess h s).0 (stamp_flags h s) id (stamp_number h s)
      (λ j. slot-store (stamp h s).req (members (stamp h s)) j ∙ ap (λ ms. slot_in ms j) same)
      (memset-Distinct h s)

slot-delete :
    (id : ℕ) (ms : List Member) (j : ℕ)
    → Distinct ms
    → slot_in (delete_node id ms) j ≡ (if id == j then 0 else slot_in ms j)
unfolding slot_in delete_node
slot-delete id [] j d = ground arith
slot-delete id (m ∷ ms) j d = ground (arith, slot-delete id ms j d.1, slot_in-none ms m.id d.0)

deleted :
    (s : Sess)
    → Moves s (record s {
      vs = record s.vs { v_map = record s.vs.v_map { members = delete_node s.req.id (members s) } };
    })
deleted s sound = record {
  sound = record {
    pages = sound.pages;
    distinct = delete-Distinct s.req.id (members s) sound.distinct;
  };
  req_id = refl;
  number = refl;
  own = lost (slot-delete s.req.id (members s) s.req.id sound.distinct ∙ ground arith);
  others = λ j ne. slot-delete s.req.id (members s) j sound.distinct ∙ ground arith;
  reserved = λ k r. r;
}

memset_stopsess-Moves : (s : Sess) → Moves s (Memset.stopsess s).0
unfolding Memset.stopsess
memset_stopsess-Moves s = elim (Option-cases (member_get_node_by_id (members s) s.req.id)) [
  | inl e ↦ rw (e, Memset.stopsess) (Moves-Keeping.same s)
  | inr (m, e) ↦ rw (e, Memset.stopsess) (deleted s)
]

start_task-Moves :
    (h : Host) (fuel : ℕ) (t : Task) (s : Sess)
    → InRange h
    → OnSome (Moves s) (startsess h fuel t s)
unfolding startsess
start_task-Moves h fuel iptables s range = Moves-Keeping.same s
start_task-Moves h fuel memset s range = memset_startsess-Moves h s
start_task-Moves h fuel ipset s range = ipset_startsess-kept Moves Moves-Keeping h s
start_task-Moves h fuel serviceclass s range =
    OnSome->>= (λ r. Moves s r.0) (Moves s) (Mapping.startsess h s) _
      (mapping_startsess-kept Moves Moves-Keeping h s) (λ r k. k)
start_task-Moves h fuel bandwidth s range =
    OnSome->>= (λ r. Moves s r.0) (Moves s) (Bandwidth.startsess h fuel s) _
      (bandwidth_startsess-Moves h fuel s range) (λ r k. k)
start_task-Moves h fuel dbset s range = dbset_startsess-kept Moves Moves-Keeping h s

stop_task-Moves : (h : Host) (t : Task) (s : Sess) → Moves s (stopsess h t s)
unfolding stopsess
stop_task-Moves h iptables s = Moves-Keeping.same s
stop_task-Moves h memset s = memset_stopsess-Moves s
stop_task-Moves h ipset s = ipset_stopsess-kept Moves Moves-Keeping h s
stop_task-Moves h serviceclass s = mapping_stopsess-kept Moves Moves-Keeping h s
stop_task-Moves h bandwidth s = bandwidth_stopsess-Moves h s
stop_task-Moves h dbset s = dbset_stopsess-kept Moves Moves-Keeping s

-- Whatever tasks are registered.
pub rh_task_startsess-Moves :
    (h : Host) (fuel : ℕ) (ts : List Task) (s : Sess)
    → InRange h
    → OnSome (Moves s) (rh_task_startsess h fuel ts s)
unfolding rh_task_startsess
rh_task_startsess-Moves h fuel [] s range = Moves-Keeping.same s
rh_task_startsess-Moves h fuel (t ∷ ts) s range =
    OnSome->>= (Moves s) (Moves s) (startsess h fuel t s) _ (start_task-Moves h fuel t s range)
      λ u k.
        OnSome-map (Moves u) (Moves s) _ (λ v later. Moves-Keeping.chained s u v k later)
          (rh_task_startsess-Moves h fuel ts u range)

pub rh_task_stopsess-Moves :
    (h : Host) (ts : List Task) (s : Sess) → Moves s (rh_task_stopsess h ts s)
unfolding rh_task_stopsess
rh_task_stopsess-Moves h [] s = Moves-Keeping.same s
rh_task_stopsess-Moves h (t ∷ ts) s =
    Moves-Keeping.chained s (rh_task_stopsess h ts s) _ (rh_task_stopsess-Moves h ts s)
      (stop_task-Moves h t (rh_task_stopsess h ts s))
