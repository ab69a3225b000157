-- ===== src/Server/Poll/Sessions.antt =====
-- What a poll makes of the sessions of all servers.
use rahunas.Expiry.Stale.{remaining, Stamps, Endings, expired_check-member_at}
use rahunas.Expiry.{expired_check}
use rahunas.Host.{Event}
use rahunas.Interfaces.{Interface}
use rahunas.Member.Lookup.{Distinct}
use rahunas.Member.{VMap, member_get_node_by_id}
use rahunas.Prelude.{
  ℕ, ◌^◌, ◌<◌, ◌≡◌, refl, ap, ◌∙◌, Bool, List, [], ◌∷◌, Option, none, some, Option-cases, inl, inr,
  All,
}
use rahunas.Server.Poll.{expire_on, expired_check_on, polling_expired_check, polling_service}
use rahunas.Server.Reload.{walk_through_vserver}
use rahunas.Server.Run.{Run, returned, faults}
use rahunas.Server.Sets.{Listing, read_listing, walk_through_set}
use rahunas.Server.Stopping.{World}
use rahunas.Server.{
  Server, Shared, Site, config_of, with_log, pointed, deref_iface, session_view, session_back,
}
use rahunas.Session.Keeps.{SameServer}
use rahunas.Session.Refinement.{member_at}
use rahunas.Session.Task.{Task, rh_task_register}
use rahunas.Session.{Sess, members}
use rahunas.Text.{Bytes}

-- A server that is set up: it has a session table, in which no two members have one identifier, its
-- limit is an `int` that is not negative, and its interface is in the list. No session ends beyond the clock.
pub record Pollable (interfaces : List Interface) (v : Server) : Type 0 where
  pub map : VMap
  pub mapped : v.v_map ≡ some map
  pub distinct : Distinct map.members
  pub limit : v.vserver_config.idle_timeout < 2 ^ 31
  pub endings : Endings map.members
  pub device : Bytes
  pub named : v.vserver_config.iface ≡ some device
  pub iface : Interface
  pub found : pointed interfaces device ≡ some iface

-- No entry has a time beyond the clock.
abbrev pub Timed : Option (Option Listing) → Type 0
Timed none = Unit
Timed (some none) = Unit
Timed (some (some l)) = Stamps l.entries

-- The members that the listing spares are left, as they were; nothing else of the server changes, nor
-- of its map.
pub record Spared (now : ℕ) (l : Listing) (map : VMap) (u v : Server) : Type 0 where
  pub left : VMap
  pub only : v ≡ (record u { v_map = some left })
  pub kept : left ≡ (record map { members = left.members })
  pub sessions :
      (j : ℕ)
      → member_get_node_by_id left.members j
        ≡ remaining now u.vserver_config.idle_timeout map.first_ip l.entries
            (member_get_node_by_id map.members j)
  pub distinct : Distinct left.members

-- By the answer to the request for the set: where there is no listing, nothing changes.
abbrev pub Outcome : ℕ → Option (Option Listing) → VMap → Server → Server → Type 0
Outcome now none map u v = v ≡ u
Outcome now (some none) map u v = v ≡ u
Outcome now (some (some l)) map u v = Spared now l map u v

abbrev pub Unchanged : Shared → Shared → Type 0
Unchanged m n = (n.task_list ≡ m.task_list) × (n.interfaces_list ≡ m.interfaces_list)

abbrev pub asked_set : World → Site → Option (Option Listing)
asked_set w u = (read_listing w.kernel (config_of u).vserver_name u.ms.log).1

-- The servers one after the other, each with what the polls of those before it left of what all
-- share.
pub data Polls (w : World) (now : ℕ) : Shared → List Server → List Server → Type 0 where
  no_server : {m : Shared} → Polls w now m [] []
  server :
      {m n : Shared} {v v' : Server} {vs vs' : List Server} (map : VMap)
      → v.v_map ≡ some map
      → Outcome now (asked_set w (record { vs = v; ms = m })) map v v'
      → Unchanged m n
      → Polls w now n vs vs'
      → Polls w now m (v ∷ vs) (v' ∷ vs')

expired_check_on_map :
    (w : World) (l : Listing) (map : VMap) (u : Site)
    → u.vs.v_map ≡ some map
    → expired_check_on w l u ≡ expire_on w l map u
unfolding expired_check_on
expired_check_on_map w l map u mapped =
    ap (λ o. elim o as (λ x. Run Site) [ none ↦ faults | some m ↦ expire_on w l m u ]) mapped

same_map :
    (left map : VMap)
    → left.first_ip ≡ map.first_ip
    → left.last_ip ≡ map.last_ip
    → left.size ≡ map.size
    → left ≡ (record map { members = left.members })
same_map left map first last size = cc

module _ (w : World) (use_serviceclass bandwidth_shape : Bool) (now : ℕ)
    (steady : (log : List Event) → w.host.time log ≡ now) (early : now < 2 ^ 63) where
  walked :
      (l : Listing) (ts : List Task) (s : Sess)
      → ts ≡ rh_task_register use_serviceclass bandwidth_shape []
      → Distinct (members s)
      → s.vs.idle_timeout < 2 ^ 31
      → Stamps l.entries
      → Endings (members s)
      → let t = expired_check w.host l.entries ts w.junk.req s in
        ((j : ℕ)
          → member_at t j
            ≡ remaining now s.vs.idle_timeout s.vs.v_map.first_ip l.entries (member_at s j))
        × Distinct (members t)
        × SameServer s t
  walked l ts s tasks d limit stamps endings = rw tasks (
      expired_check-member_at w.host l.entries use_serviceclass bandwidth_shape w.junk.req now
        steady s d early limit stamps endings)

  deref_found : (u : Site) (p : Pollable u.ms.interfaces_list u.vs) → deref_iface u ≡ some p.iface
  unfolding deref_iface
  deref_found u p = rw (p.named, p.found) refl

  expire_on-Spared :
      (l : Listing) (u : Site) (p : Pollable u.ms.interfaces_list u.vs)
      → u.ms.task_list ≡ rh_task_register use_serviceclass bandwidth_shape []
      → Stamps l.entries
      → (v : Site) × (expire_on w l p.map u ≡ returned v)
        × Spared now l p.map u.vs v.vs
        × Unchanged u.ms v.ms
  unfolding expire_on session_view session_back
  expire_on-Spared l u p tasks stamps =
      let s = session_view p.map p.iface.dev_internal p.iface.dev_ifb w.junk.req u in
      let t = expired_check w.host l.entries u.ms.task_list w.junk.req s in
      let (at, distinct, same_server) =
        walked l u.ms.task_list s tasks p.distinct p.limit stamps p.endings in
      rw (deref_found u p, expire_on)
        (
          session_back u t,
          refl,
          record {
            left = t.vs.v_map;
            only = refl;
            kept =
                same_map t.vs.v_map p.map same_server.first_ip same_server.last_ip same_server.size;
            sessions = at;
            distinct = distinct;
          },
          (refl, refl),
        )

  polling_expired_check-Outcome :
      (u : Site) (p : Pollable u.ms.interfaces_list u.vs)
      → u.ms.task_list ≡ rh_task_register use_serviceclass bandwidth_shape []
      → Timed (asked_set w u)
      → (v : Site) × (polling_expired_check w u ≡ returned v)
        × Outcome now (asked_set w u) p.map u.vs v.vs
        × Unchanged u.ms v.ms
  unfolding polling_expired_check walk_through_set
  polling_expired_check-Outcome u p tasks timed =
      let log = (read_listing w.kernel (config_of u).vserver_name u.ms.log).0 in
      elim (Option-cases (asked_set w u)) [
        | inl e ↦ rw (e, walk_through_set) (with_log log u, refl, refl, (refl, refl))
        | inr (answer, e) ↦ elim (Option-cases answer) [
          | inl f ↦ rw (e, f, walk_through_set) (with_log log u, refl, refl, (refl, refl))
          | inr (l, f) ↦
              let (v, ended, left, same) =
                expire_on-Spared l (with_log log u) p tasks
                  (let stamps : Stamps l.entries = rw (e, f) at timed in stamps) in
              rw (e, f, walk_through_set)
                (v, expired_check_on_map w l p.map (with_log log u) p.mapped ∙ ended, left, same)
        ]
      ]

  -- While the clock stands still, where the tasks are those that the daemon registers, no time is
  -- beyond the end of a signed 64-bit clock, and every server is set up, with a limit that is an `int`
  -- and not negative and with its interface in the list, a poll ends. Of each server it leaves, one
  -- after the other, the members that the listing of its set spares, with all their fields: those
  -- without an entry, and those whose first entry is not older than the limit and whose session has no
  -- end or is not past it. Where there is no listing, and beside the members, the server is as it was,
  -- its map included.
  pub polling_service-Polls :
      (m : Shared) (vs : List Server)
      → m.task_list ≡ rh_task_register use_serviceclass bandwidth_shape []
      → ((name : Bytes) (log : List Event) → Timed (read_listing w.kernel name log).1)
      → All (Pollable m.interfaces_list) vs
      → (n : Shared) × (vs' : List Server) × (polling_service w m vs ≡ returned (n, vs'))
        × Polls w now m vs vs'
  unfolding polling_service walk_through_vserver
  polling_service-Polls m [] tasks timed all = (m, [], refl, no_server)
  polling_service-Polls m (v ∷ vs) tasks timed (p, all) =
      let (u, here, outcome, same) =
        polling_expired_check-Outcome (record { vs = v; ms = m }) p tasks
          (timed v.vserver_config.vserver_name m.log) in
      let (n, vs', rest, polls) =
        polling_service-Polls u.ms vs (same.0 ∙ tasks) timed (rw same.1 all) in
      (n, u.vs ∷ vs', rw (here, rest) refl, server p.map p.mapped outcome same polls)
