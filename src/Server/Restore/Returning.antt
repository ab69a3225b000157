-- ===== src/Server/Restore/Returning.antt =====
-- When the restoring of the sessions of a virtual server comes to its end.
use rahunas.Host.{Host}
use rahunas.Mac.{parse_mac}
use rahunas.Member.Ident.{Ident}
use rahunas.Member.{VMap}
use rahunas.Prelude.{
  ℕ, ◌≡◌, ◌≢◌, refl, ap, ◌∙◌, Bool, false, List, [], ◌∷◌, Option, some, ◌==◌, ◌&&◌, ◌⊎◌, arith, All,
  All-map, Option-cases, Bool-cases, inl, inr,
}
use rahunas.Server.Keeps.{Kept, start_session-SameConfig}
use rahunas.Server.Restore.{
  DbsetRow, start_session, restored_req, restore_rows, restore_set, wants_slot, run_start, start_on,
}
use rahunas.Server.Restore.Sessions.{start_row-Holds, restore_set-restored, with_kept}
use rahunas.Server.Restore.Starting.{table, restored, Holds, start_session_map}
use rahunas.Server.Run.{Run, returned, exits, faults, unended, ◌>>=◌, OnReturn}
use rahunas.Server.{Site, config_of, session_view, deref_iface}
use rahunas.Session.Refinement.Returns.{rh_task_startsess-returns}
use rahunas.Session.Task.{bandwidth, find_task, same_task, rh_task_register, rh_task_startsess}
use rahunas.Session.Task.Order.{rh_task_register_lem}
use rahunas.Session.{Sess, TaskReq}
use rahunas.Text.{Bytes, atoi}
use rahunas.Utils.Ip.{iptoid}

abbrev pub Returns : Run Site → Type 0
Returns r = (v : Site) × (r ≡ returned v)

Returns->>= :
    (P : Site → Type 0) (r : Run Site) (f : Site → Run Site)
    → Returns r
    → OnReturn P r
    → ((v : Site) → P v → Returns (f v))
    → Returns (r >>= f)
Returns->>= P (returned v) f ends p next = next v p
Returns->>= P exits f (v, e) p next = cc
Returns->>= P faults f (v, e) p next = cc
Returns->>= P unended f (v, e) p next = cc

Returns-OnReturn :
    (P : Site → Type 0) (r : Run Site)
    → Returns r
    → OnReturn P r
    → (v : Site) × (r ≡ returned v) × P v
Returns-OnReturn P (returned v) ends p = (v, refl, p)
Returns-OnReturn P exits (v, e) p = cc
Returns-OnReturn P faults (v, e) p = cc
Returns-OnReturn P unended (v, e) p = cc

-- No limit is put on a session: there is none, or the task for limits is switched off.
abbrev pub Unlimited : Bool → ℕ → ℕ → Type 0
Unlimited bandwidth_shape down up = (bandwidth_shape ≡ false) ⊎ ((down ≡ 0) × (up ≡ 0))

no-bandwidth : find_task (rh_task_register false false []) bandwidth ≡ false
unfolding find_task same_task
no-bandwidth = rw (rh_task_register_lem false false) refl

wants_no_slot :
    (bandwidth_shape : Bool) (req : TaskReq) (map : VMap)
    → Unlimited bandwidth_shape req.bandwidth_max_down req.bandwidth_max_up
    → (find_task (rh_task_register false bandwidth_shape []) bandwidth
        && wants_slot req map.members)
      ≡ false
unfolding wants_slot
wants_no_slot bw req map (inl off) = rw (off, no-bandwidth) refl
wants_no_slot bw req map (inr (down, up)) = ground arith

run_start-Returns :
    (h : Host) (fuel : ℕ) (bandwidth_shape : Bool) (u : Site) (s : Sess)
    → u.ms.task_list ≡ rh_task_register false bandwidth_shape []
    → Unlimited bandwidth_shape s.req.bandwidth_max_down s.req.bandwidth_max_up
    → Returns (run_start u (rh_task_startsess h fuel u.ms.task_list s))
unfolding run_start
run_start-Returns h fuel bw u s tasks light =
    rw (tasks, rh_task_startsess-returns h fuel false bw s (inl refl) light) (_, refl)

start_on-Returns :
    (h : Host) (fuel : ℕ) (bandwidth_shape : Bool) (req : TaskReq) (map : VMap) (u : Site)
    → u.ms.task_list ≡ rh_task_register false bandwidth_shape []
    → Unlimited bandwidth_shape req.bandwidth_max_down req.bandwidth_max_up
    → Returns (start_on h fuel req map u)
unfolding start_on session_view
start_on-Returns h fuel bw req map u tasks light = elim (Option-cases (deref_iface u)) [
  | inl e ↦
      let free : (find_task u.ms.task_list bandwidth && wants_slot req map.members) ≡ false =
        rw tasks (wants_no_slot bw req map light) in
      rw (e, start_on, free)
        (run_start-Returns h fuel bw u (session_view map [] [] req u) tasks light)
  | inr (iface, e) ↦
      rw (e, start_on)
        (run_start-Returns h fuel bw u (session_view map iface.dev_internal iface.dev_ifb req u)
          tasks light)
]

-- What is asked of each row.
abbrev pub Restorable : Bool → DbsetRow → Type 0
Restorable bandwidth_shape row =
    (row.session_start ≢ 0) × Unlimited bandwidth_shape row.bandwidth_max_down row.bandwidth_max_up

start_session-Returns :
    (h : Host) (fuel : ℕ) (bandwidth_shape : Bool) (req : TaskReq) (map : VMap) (u : Site)
    → u.vs.v_map ≡ some map
    → u.ms.task_list ≡ rh_task_register false bandwidth_shape []
    → Unlimited bandwidth_shape req.bandwidth_max_down req.bandwidth_max_up
    → Returns (start_session h fuel req u)
start_session-Returns h fuel bw req map u mapped tasks light =
    rw (start_session_map h fuel req u map mapped)
      (start_on-Returns h fuel bw req map u tasks light)

restore_rows-Returns :
    (h : Host) (fuel : ℕ) (bandwidth_shape : Bool) (map : VMap) (rows : List DbsetRow)
    (ethernet : Bytes) (req : TaskReq) (t : ℕ → Option Ident) (u : Site)
    → Holds map t u
    → u.ms.task_list ≡ rh_task_register false bandwidth_shape []
    → All (Restorable bandwidth_shape) rows
    → Returns (restore_rows h fuel rows ethernet req u)
unfolding restore_rows restored_req
restore_rows-Returns h fuel bw map [] ethernet req t u holds tasks light = (u, refl)
restore_rows-Returns h fuel bw map (row ∷ rows) ethernet req t u holds tasks light =
    let mac = parse_mac row.mac ethernet in
    let next = restored_req h u row mac req in
    elim (Bool-cases (atoi row.vserver_id == (config_of u).vserver_id)) [
      | inl own ↦ rw own (
          Returns->>= _ (start_session h fuel next u) _
            (start_session-Returns h fuel bw next holds.now u holds.mapped tasks light.0.1)
            (with_kept _ u (start_session h fuel next u)
              (start_row-Holds h fuel false bw map row mac req t u holds tasks light.0.0)
              (start_session-SameConfig h fuel next u))
            (λ v p.
              restore_rows-Returns h fuel bw map rows mac next _ v p.0
                (ap (λ (k : Kept). k.tasks) p.1 ∙ tasks) light.1))
      | inr other ↦
          rw other (restore_rows-Returns h fuel bw map rows ethernet req t u holds tasks light.1)
    ]

-- Where the tasks are those that the daemon registers without SERVICECLASS, the server has a session
-- table, and each row says when its session began and puts no limit on it (or BANDWIDTH is switched
-- off too), the restoring ends, and leaves the sessions that were there with those of the rows of this
-- server inserted in their order, each under the identifier of its address.
pub restore_set-returns :
    (h : Host) (fuel : ℕ) (bandwidth_shape : Bool) (map : VMap) (rows : List DbsetRow)
    (req : TaskReq) (u : Site)
    → u.vs.v_map ≡ some map
    → u.ms.task_list ≡ rh_task_register false bandwidth_shape []
    → All (Restorable bandwidth_shape) rows
    → (v : Site) × (restore_set h fuel rows req u ≡ returned v)
      × Holds map
          (restored
            (config_of u).vserver_id
            (λ ip. iptoid h.inet_aton (some map) (some ip))
            rows
            (0 ∷ 0 ∷ 0 ∷ 0 ∷ 0 ∷ 0 ∷ [])
            (table map))
          v
unfolding restore_set
restore_set-returns h fuel bw map rows req u mapped tasks light =
    Returns-OnReturn _ (restore_set h fuel rows req u)
      (restore_rows-Returns h fuel bw map rows _ req (table map) u
        (record { now = map; mapped = mapped; first = refl; size = refl; sessions = λ j. refl })
        tasks light)
      (restore_set-restored h fuel false bw map rows req u mapped tasks
        (All-map (Restorable bw) (λ r. r.session_start ≢ 0) rows (λ r p. p.0) light))
