-- ===== src/Session/Refinement.antt =====
-- Starting and stopping a session by all registered tasks, seen as a finite map from identifiers to
-- sessions.
pub mod Start
pub mod Returns
pub mod Stop
pub mod Limits
use rahunas.Host.{Host, Event, clock}
use rahunas.Member.Ident.{
  Ident, ident, map_ident, find_ident, find_ident-map, DistinctIds, DistinctIds-map,
  Distinct-of_ids,
}
use rahunas.Member.Lookup.{Distinct, get-delete}
use rahunas.Member.{Member, member_get_node_by_id, delete_node}
use rahunas.Prelude.{
  ℕ, ◌≡◌, refl, sym, ap, ◌∙◌, Bool, true, false, List, [], ◌∷◌, ◌++◌, Option, none, some, arith,
  map, Option-cases, Bool-cases, inl, inr, OnSome, OnSome->>=, OnSome-map, ◌==◌, if◌then◌else◌,
  ◌>>=◌,
}
use rahunas.Session.Bandwidth
use rahunas.Session.Keeps.Bandwidth.{bandwidth_startsess-Keeps, bandwidth_stopsess-Keeps}
use rahunas.Session.Keeps.Mapping.{mapping_startsess-kept, mapping_stopsess-kept}
use rahunas.Session.Keeps.{
  Keeps, Keeps-Keeping, Keeps-refl, Keeps-trans, ipset_startsess-kept, ipset_stopsess-kept,
  dbset_startsess-kept, dbset_stopsess-kept,
}
use rahunas.Session.Mapping
use rahunas.Session.Memset
use rahunas.Session.Memset.Laws.{
  requested, get-store, store-Distinct, delete-Distinct, delete-store,
}
use rahunas.Session.Memset.{stamp, store}
use rahunas.Session.Task.Order.{rh_task_register_lem}
use rahunas.Session.Task.{
  Task, iptables, memset, ipset, serviceclass, bandwidth, dbset, find_task, same_task, startsess,
  stopsess, rh_task_register, rh_task_startsess, rh_task_stopsess,
}
use rahunas.Session.{Sess, TaskReq, members, with_members}

-- The session under an identifier.
abbrev pub session_at : Sess → ℕ → Option Ident
session_at s j = map_ident (member_get_node_by_id (members s) j)

-- Its member, with the bandwidth slot, the class and the mapping, which the answers of the system decide.
abbrev pub member_at : Sess → ℕ → Option Member
member_at s j = member_get_node_by_id (members s) j

pub session_at-idents :
    (s t : Sess)
    → map ident (members t) ≡ map ident (members s)
    → (j : ℕ) → session_at t j ≡ session_at s j
session_at-idents s t e j =
    sym (find_ident-map (members t) j)
    ∙ (ap (λ is. find_ident is j) e ∙ find_ident-map (members s) j)

pub Distinct-idents :
    (s t : Sess)
    → map ident (members t) ≡ map ident (members s)
    → Distinct (members s)
    → Distinct (members t)
Distinct-idents s t e d = Distinct-of_ids (members t) (rw e (DistinctIds-map (members s) d))

-- The tasks other than MEMSET.
start_task-Keeps :
    (h : Host) (fuel : ℕ) (t : Task) (s : Sess)
    → same_task t memset ≡ false
    → OnSome (Keeps s) (startsess h fuel t s)
unfolding startsess same_task
start_task-Keeps h fuel iptables s e = Keeps-refl s
start_task-Keeps h fuel memset s e = cc
start_task-Keeps h fuel ipset s e = ipset_startsess-kept Keeps Keeps-Keeping h s
start_task-Keeps h fuel serviceclass s e =
    OnSome->>= (λ r. Keeps s r.0) (Keeps s) (Mapping.startsess h s) _
      (mapping_startsess-kept Keeps Keeps-Keeping h s) (λ r k. k)
start_task-Keeps h fuel bandwidth s e =
    OnSome->>= (λ r. Keeps s r.0) (Keeps s) (Bandwidth.startsess h fuel s) _
      (bandwidth_startsess-Keeps h fuel s) (λ r k. k)
start_task-Keeps h fuel dbset s e = dbset_startsess-kept Keeps Keeps-Keeping h s

stop_task-Keeps :
    (h : Host) (t : Task) (s : Sess) → same_task t memset ≡ false → Keeps s (stopsess h t s)
unfolding stopsess same_task
stop_task-Keeps h iptables s e = Keeps-refl s
stop_task-Keeps h memset s e = cc
stop_task-Keeps h ipset s e = ipset_stopsess-kept Keeps Keeps-Keeping h s
stop_task-Keeps h serviceclass s e = mapping_stopsess-kept Keeps Keeps-Keeping h s
stop_task-Keeps h bandwidth s e = bandwidth_stopsess-Keeps h s
stop_task-Keeps h dbset s e = dbset_stopsess-kept Keeps Keeps-Keeping s

pub start_rest-Keeps :
    (h : Host) (fuel : ℕ) (ts : List Task) (s : Sess)
    → find_task ts memset ≡ false
    → OnSome (Keeps s) (rh_task_startsess h fuel ts s)
unfolding rh_task_startsess find_task
start_rest-Keeps h fuel [] s e = Keeps-refl s
start_rest-Keeps h fuel (t ∷ ts) s e =
    let absent : (same_task t memset ≡ false) × (find_task ts memset ≡ false) = ground arith in
    OnSome->>= (Keeps s) (Keeps s) (startsess h fuel t s) _ (start_task-Keeps h fuel t s absent.0)
      λ u k.
        OnSome-map (Keeps u) (Keeps s) _ (λ v. Keeps-trans k)
          (start_rest-Keeps h fuel ts u absent.1)

pub stop_rest-Keeps :
    (h : Host) (ts : List Task) (s : Sess)
    → find_task ts memset ≡ false
    → Keeps s (rh_task_stopsess h ts s)
unfolding rh_task_stopsess find_task
stop_rest-Keeps h [] s e = Keeps-refl s
stop_rest-Keeps h (t ∷ ts) s e =
    let absent : (same_task t memset ≡ false) × (find_task ts memset ≡ false) = ground arith in
    Keeps-trans (stop_rest-Keeps h ts s absent.1) (stop_task-Keeps h t _ absent.0)

-- The registered tasks behind MEMSET.
abbrev pub rest : Bool → Bool → List Task
rest use_serviceclass bandwidth_shape =
    ipset
    ∷ ((if use_serviceclass then serviceclass ∷ [] else [])
        ++ ((if bandwidth_shape then bandwidth ∷ [] else []) ++ (dbset ∷ [])))

pub memset_absent : (sc bw : Bool) → find_task (rest sc bw) memset ≡ false
unfolding find_task same_task
memset_absent true true = refl
memset_absent true false = refl
memset_absent false true = refl
memset_absent false false = refl
