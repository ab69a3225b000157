-- ===== src/Server/Restore/Sessions.antt =====
-- Which sessions a virtual server has when those of the database were restored.
use rahunas.Host.{Host}
use rahunas.Mac.{parse_mac}
use rahunas.Member.Ident.{Ident}
use rahunas.Member.{VMap}
use rahunas.Prelude.{
  ℕ, ◌≡◌, ◌≢◌, refl, ap, ◌∙◌, Bool, true, false, List, [], ◌∷◌, Option, some, ◌==◌, arith, All,
  Bool-cases, inl, inr,
}
use rahunas.Server.Keeps.{SameConfig, Kept, start_session-SameConfig}
use rahunas.Server.Restore.{
  DbsetRow, start_session, restored_req, restore_rows, restore_set, start_on,
}
use rahunas.Server.Run.{Run, returned, exits, faults, unended, OnReturn, OnReturn->>=, OnReturn-map}
use rahunas.Server.{Site, config_of}
use rahunas.Session.Memset.Laws.{requested}
use rahunas.Session.Task.{rh_task_register}
use rahunas.Session.{TaskReq}
use rahunas.Text.{Bytes, atoi}
use rahunas.Utils.Ip.{iptoid}
use rahunas.Server.Restore.Starting.{
  Table, table, insert, row_ident, restored, Holds, start_session_map, start_on-Holds,
}

iptoid-range :
    (inet_aton : Bytes → Option ℕ) (map now : VMap) (ip : Bytes)
    → now.first_ip ≡ map.first_ip
    → now.size ≡ map.size
    → iptoid inet_aton (some now) (some ip) ≡ iptoid inet_aton (some map) (some ip)
unfolding iptoid
iptoid-range inet_aton map now ip first size = rw (first, size) refl

-- What the request of a row asks for.
requested-row :
    (h : Host) (map now : VMap) (u : Site) (row : DbsetRow) (mac : Bytes) (req : TaskReq)
    → u.vs.v_map ≡ some now
    → now.first_ip ≡ map.first_ip
    → now.size ≡ map.size
    → requested (restored_req h u row mac req)
      ≡ row_ident (λ ip. iptoid h.inet_aton (some map) (some ip)) row mac
unfolding restored_req
requested-row h map now u row mac req mapped first size =
    ap (λ id. row_ident (λ ip. id) row mac)
      (ap (λ m. iptoid h.inet_aton m (some row.ip)) mapped
        ∙ iptoid-range h.inet_aton map now row.ip first size)

insert-ext : (i k : Ident) (s t : Table) (j : ℕ) → i ≡ k → s j ≡ t j → insert i s j ≡ insert k t j
insert-ext i k s t j e f = rw (e, f) refl

-- A row of the server is inserted.
pub start_row-Holds :
    (h : Host) (fuel : ℕ) (use_serviceclass bandwidth_shape : Bool) (map : VMap) (row : DbsetRow)
    (mac : Bytes) (req : TaskReq) (t : Table) (u : Site)
    → Holds map t u
    → u.ms.task_list ≡ rh_task_register use_serviceclass bandwidth_shape []
    → row.session_start ≢ 0
    → OnReturn
        (Holds map (insert (row_ident (λ ip. iptoid h.inet_aton (some map) (some ip)) row mac) t))
        (start_session h fuel (restored_req h u row mac req) u)
unfolding restored_req
start_row-Holds h fuel sc bw map row mac req t u holds tasks begun =
    let next = restored_req h u row mac req in
    let asked = requested-row h map holds.now u row mac req holds.mapped holds.first holds.size in
    rw (start_session_map h fuel next u holds.now holds.mapped) (
      OnReturn-map (Holds holds.now (insert (requested next) (table holds.now))) _
        (start_on h fuel next holds.now u)
        (λ v p. record {
          now = p.now;
          mapped = p.mapped;
          first = p.first ∙ holds.first;
          size = p.size ∙ holds.size;
          sessions =
              λ j. p.sessions j ∙ insert-ext _ _ (table holds.now) t j asked (holds.sessions j);
        })
        (start_on-Holds h fuel sc bw next holds.now u tasks begun))

-- A fact with what does not change.
pub with_kept :
    (P : Site → Type 0) (u : Site) (r : Run Site)
    → OnReturn P r
    → OnReturn (SameConfig u) r
    → OnReturn (λ v. P v × SameConfig u v) r
with_kept P u (returned v) p q = (p, q)
with_kept P u exits p q = tt
with_kept P u faults p q = tt
with_kept P u unended p q = tt

-- The server holds what the rows leave of the table that it held.
restore_rows-Holds :
    (h : Host) (fuel : ℕ) (use_serviceclass bandwidth_shape : Bool) (map : VMap) (number : ℕ)
    (rows : List DbsetRow) (ethernet : Bytes) (req : TaskReq) (t : Table) (u : Site)
    → Holds map t u
    → u.ms.task_list ≡ rh_task_register use_serviceclass bandwidth_shape []
    → (config_of u).vserver_id ≡ number
    → All (λ r. r.session_start ≢ 0) rows
    → OnReturn
        (Holds map
          (restored number (λ ip. iptoid h.inet_aton (some map) (some ip)) rows ethernet t))
        (restore_rows h fuel rows ethernet req u)
unfolding restore_rows restored
restore_rows-Holds h fuel sc bw map number [] ethernet req t u holds tasks same begun = holds
restore_rows-Holds h fuel sc bw map number (row ∷ rows) ethernet req t u holds tasks same begun =
    let mac = parse_mac row.mac ethernet in
    let next = restored_req h u row mac req in
    elim (Bool-cases (atoi row.vserver_id == number)) [
      | inl own ↦
          let here : (atoi row.vserver_id == (config_of u).vserver_id) ≡ true = ground arith in
          rw (here, own)
            (OnReturn->>= _ _ (start_session h fuel next u) _
              (with_kept _ u (start_session h fuel next u)
                (start_row-Holds h fuel sc bw map row mac req t u holds tasks begun.0)
                (start_session-SameConfig h fuel next u))
              (λ v p.
                restore_rows-Holds h fuel sc bw map number rows mac next _ v p.0
                  (ap (λ (k : Kept). k.tasks) p.1 ∙ tasks) (ap (λ (k : Kept). k.number) p.1 ∙ same)
                  begun.1))
      | inr other ↦
          let there : (atoi row.vserver_id == (config_of u).vserver_id) ≡ false = ground arith in
          rw (there, other)
            (restore_rows-Holds h fuel sc bw map number rows ethernet req t u holds tasks same
              begun.1)
    ]

-- Where the tasks are those that the daemon registers, the server has a session table, and each row
-- says when its session began, a restoring that returns leaves the sessions that were there with those
-- of the rows of this server inserted in their order, each under the identifier of its address.
pub restore_set-restored :
    (h : Host) (fuel : ℕ) (use_serviceclass bandwidth_shape : Bool) (map : VMap)
    (rows : List DbsetRow) (req : TaskReq) (u : Site)
    → u.vs.v_map ≡ some map
    → u.ms.task_list ≡ rh_task_register use_serviceclass bandwidth_shape []
    → All (λ r. r.session_start ≢ 0) rows
    → OnReturn
        (Holds map (
          restored
            (config_of u).vserver_id
            (λ ip. iptoid h.inet_aton (some map) (some ip))
            rows
            (0 ∷ 0 ∷ 0 ∷ 0 ∷ 0 ∷ 0 ∷ [])
            (table map)))
        (restore_set h fuel rows req u)
unfolding restore_set
restore_set-restored h fuel sc bw map rows req u mapped tasks begun =
    restore_rows-Holds h fuel sc bw map (config_of u).vserver_id rows _ req (table map) u
      (record { now = map; mapped = mapped; first = refl; size = refl; sessions = λ j. refl }) tasks
      refl begun
