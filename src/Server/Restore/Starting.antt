-- ===== src/Server/Restore/Starting.antt =====
-- The sessions of a virtual server as a finite map, and what a start of one makes of it.
use rahunas.Host.{Host}
use rahunas.Mac.{parse_mac}
use rahunas.Member.Ident.{Ident, map_ident}
use rahunas.Member.{VMap, member_get_node_by_id}
use rahunas.Prelude.{
  ℕ, ◌≡◌, ◌≢◌, refl, ap, ◌∙◌, Bool, false, List, [], ◌∷◌, Option, none, some, ◌==◌, ◌&&◌, arith,
  OnSome, Option-cases, inl, inr, if-elim, if◌then◌else◌,
}
use rahunas.Server.Restore.{DbsetRow, start_session, wants_slot, run_start, start_on}
use rahunas.Server.Run.{Run, faults, OnReturn}
use rahunas.Server.{Site, session_view, session_back, deref_iface}
use rahunas.Session.Keeps.{SameServer}
use rahunas.Session.Memset.Laws.{requested}
use rahunas.Session.Refinement.Start.{
  started, rh_task_startsess-session_at, rh_task_startsess-SameServer,
}
use rahunas.Session.Refinement.{member_at, session_at}
use rahunas.Member.Lookup.{Distinct}
use rahunas.Session.Task.{Task, bandwidth, find_task, rh_task_register, rh_task_startsess}
use rahunas.Session.{Sess, TaskReq, members}
use rahunas.Text.{Bytes, atoi}

-- A finite map of sessions, by identifier.
abbrev pub Table : Type 0
Table = ℕ → Option Ident

abbrev pub table : VMap → Table
table map j = map_ident (member_get_node_by_id map.members j)

abbrev pub insert : Ident → Table → Table
insert i t j = if i.id == j then some i else t j

-- The session of a row, with the hardware address that was read from it.
abbrev pub row_ident : (Bytes → ℕ) → DbsetRow → Bytes → Ident
row_ident locate row mac = record {
  id = locate row.ip;
  session_start = row.session_start;
  session_timeout = row.session_timeout;
  bandwidth_max_down = row.bandwidth_max_down;
  bandwidth_max_up = row.bandwidth_max_up;
  username = some row.username;
  session_id = some row.session_id;
  mac_address = mac;
}

-- The rows of a server are inserted in their order; a hardware address that cannot be read leaves
-- that of the row before.
unfoldable pub restored : ℕ → (Bytes → ℕ) → List DbsetRow → Bytes → Table → Table
restored number locate [] ethernet t = t
restored number locate (row ∷ rows) ethernet t =
    let mac = parse_mac row.mac ethernet in
    if atoi row.vserver_id == number
    then restored number locate rows mac (insert (row_ident locate row mac) t)
    else restored number locate rows ethernet t

-- A server has a map of the same range, with a table of sessions.
pub record Holds (map : VMap) (t : Table) (v : Site) : Type 0 where
  pub now : VMap
  pub mapped : v.vs.v_map ≡ some now
  pub first : now.first_ip ≡ map.first_ip
  pub size : now.size ≡ map.size
  pub sessions : (j : ℕ) → table now j ≡ t j

started-requested : (h : Host) (s : Sess) → s.req.session_start ≢ 0 → started h s ≡ requested s.req
started-requested h s e =
    let later : (s.req.session_start == 0) ≡ false = ground arith in rw later refl

-- What all tasks make of the part of the server that they see.
run_start-Holds :
    (h : Host) (fuel : ℕ) (use_serviceclass bandwidth_shape : Bool) (ts : List Task) (u : Site)
    (map : VMap) (s : Sess)
    → ts ≡ rh_task_register use_serviceclass bandwidth_shape []
    → s.vs.v_map ≡ map
    → s.req.session_start ≢ 0
    → OnReturn
        (Holds map (insert (requested s.req) (table map)))
        (run_start u (rh_task_startsess h fuel ts s))
unfolding run_start session_back
run_start-Holds h fuel sc bw ts u map s whole same begun = rw whole (
    go _ (rh_task_startsess-session_at h fuel sc bw s)
      (rh_task_startsess-SameServer h fuel sc bw s))
  where
    go :
        (o : Option Sess)
        → OnSome
            (λ t.
              ((j : ℕ)
                → session_at t j ≡ (if s.req.id == j then some (started h s) else session_at s j))
              × (Distinct (members s) → Distinct (members t))
              × (t.vs.vserver_id ≡ s.vs.vserver_id)
              × ((j : ℕ) → s.req.id ≢ j → member_at t j ≡ member_at s j))
            o
        → OnSome (SameServer s) o
        → OnReturn (Holds map (insert (requested s.req) (table map))) (run_start u o)
    go none p q = tt
    go (some t) p q = record {
      now = t.vs.v_map;
      mapped = refl;
      first = q.first_ip ∙ ap (λ (m : VMap). m.first_ip) same;
      size = q.size ∙ ap (λ (m : VMap). m.size) same;
      sessions = λ j. rw (p.0 j, started-requested h s begun, same) refl;
    }

pub start_session_map :
    (h : Host) (fuel : ℕ) (req : TaskReq) (u : Site) (map : VMap)
    → u.vs.v_map ≡ some map
    → start_session h fuel req u ≡ start_on h fuel req map u
unfolding start_session
start_session_map h fuel req u map mapped =
    ap (λ o. elim o as (λ x. Run Site) [ none ↦ faults | some m ↦ start_on h fuel req m u ]) mapped

pub start_on-Holds :
    (h : Host) (fuel : ℕ) (use_serviceclass bandwidth_shape : Bool) (req : TaskReq) (map : VMap)
    (u : Site)
    → u.ms.task_list ≡ rh_task_register use_serviceclass bandwidth_shape []
    → req.session_start ≢ 0
    → OnReturn (Holds map (insert (requested req) (table map))) (start_on h fuel req map u)
unfolding start_on session_view
start_on-Holds h fuel sc bw req map u tasks begun = elim (Option-cases (deref_iface u)) [
  | inl e ↦
      rw (e, start_on)
        (if-elim (OnReturn (Holds map (insert (requested req) (table map))))
          (find_task u.ms.task_list bandwidth && wants_slot req map.members) faults _ tt
          (run_start-Holds h fuel sc bw u.ms.task_list u map (session_view map [] [] req u) tasks
            refl begun))
  | inr (iface, e) ↦
      rw (e, start_on)
        (run_start-Holds h fuel sc bw u.ms.task_list u map
          (session_view map iface.dev_internal iface.dev_ifb req u) tasks refl begun)
]
