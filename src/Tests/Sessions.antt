-- ===== src/Tests/Sessions.antt =====
-- Sessions on the virtual server with ten addresses, and bandwidth slots.
use rahunas.Expiry.Stale.{remaining, stale, expired_check-member_at}
use rahunas.Expiry.{SetEntry, cause_of, expired_check}
use rahunas.Host.{clock, draw}
use rahunas.Member.Ident.{ident}
use rahunas.Member.Lookup.{Distinct}
use rahunas.Member.{member_get_node_by_id}
use rahunas.Prelude.{
  List, [], ◌∷◌, none, ℕ, ◌≡◌, refl, ◌≢◌, ◌≤◌, ◌⊎◌, inr, true, false, [], none, some, arith, map,
  OnSome, ◌==◌, if◌then◌else◌,
}
use rahunas.Session.Keeps.{SameServer}
use rahunas.Session.Refinement.Limits.{HitsFree, rh_task_startsess-ends}
use rahunas.Session.Refinement.Start.{started, rh_task_startsess-session_at}
use rahunas.Session.Refinement.Stop.{rh_task_stopsess-session_at, stop-start}
use rahunas.Session.Refinement.{session_at, member_at}
use rahunas.Session.Slots.Bounds.{get_slot_id-free}
use rahunas.Session.Slots.{is_reserved, get_slot_id, draw_loop, drawn_slot, max_slot_id}
use rahunas.Session.Task.{rh_task_register, rh_task_startsess, rh_task_stopsess}
use rahunas.Session.{Sess, members, ask}
use rahunas.Tests.Inputs.{toy_host, on_hall, request}

no_seven : member_get_node_by_id (members (on_hall 7)) 7 ≡ none
unfolding member_get_node_by_id
no_seven = refl

two_members-Distinct : Distinct (members (on_hall 2))
unfolding member_get_node_by_id
two_members-Distinct = (refl, (refl, tt))

rh_task_startsess-session_at_example :
    OnSome
      (λ t.
        ((j : ℕ)
          → session_at t j
            ≡ (if 7 == j then some (started toy_host (on_hall 7)) else session_at (on_hall 7) j))
        × (Distinct (members (on_hall 7)) → Distinct (members t))
        × (t.vs.vserver_id ≡ 1)
        × ((j : ℕ) → 7 ≢ j → member_at t j ≡ member_at (on_hall 7) j))
      (rh_task_startsess toy_host 5 (rh_task_register true true []) (on_hall 7))
rh_task_startsess-session_at_example = rh_task_startsess-session_at toy_host 5 true true (on_hall 7)

rh_task_stopsess-session_at_example :
    let t = rh_task_stopsess toy_host (rh_task_register true true []) (on_hall 2) in
    ((j : ℕ) → session_at t j ≡ (if 2 == j then none else session_at (on_hall 2) j))
    × Distinct (members t)
    × ((j : ℕ) → member_at t j ≡ (if 2 == j then none else member_at (on_hall 2) j))
rh_task_stopsess-session_at_example =
    rh_task_stopsess-session_at toy_host true true (on_hall 2) two_members-Distinct

stop-start_example :
    OnSome
      (λ t.
        map ident (
          members (
            rh_task_stopsess toy_host
              (rh_task_register true true [])
              (record t { req = request 7 })))
        ≡ map ident (members (on_hall 7)))
      (rh_task_startsess toy_host 5 (rh_task_register true true []) (on_hall 7))
stop-start_example = stop-start toy_host 5 true true (on_hall 7) (request 7) no_seven refl

zero_reserved : is_reserved (on_hall 7).slot_flags 0 ≡ true
unfolding is_reserved
zero_reserved = refl

four_free : is_reserved (on_hall 7).slot_flags (drawn_slot (toy_host.random [])) ≡ false
unfolding is_reserved drawn_slot
four_free = refl

abbrev slot_four : ℕ
slot_four = 4

four_drawn : (t : Sess) × (get_slot_id toy_host 3 (on_hall 7) ≡ some (slot_four, t))
unfolding get_slot_id draw_loop is_reserved drawn_slot
four_drawn = (ask draw (ask clock (on_hall 7)), refl)

get_slot_id-free_example :
    (((slot_four ≡ 0) × (max_slot_id ≤ (on_hall 7).slot_count))
      ⊎ ((slot_four ≢ 0) × (is_reserved (on_hall 7).slot_flags slot_four ≡ false)))
    × (four_drawn.0.slot_flags ≡ (on_hall 7).slot_flags)
    × (four_drawn.0.slot_count ≡ (on_hall 7).slot_count)
get_slot_id-free_example =
    get_slot_id-free toy_host 3 (on_hall 7) four_drawn.0 slot_four zero_reserved four_drawn.1

-- Both sessions have an entry; the first was idle for longer than the limit.
abbrev entries : List SetEntry
entries =
    (record { ip = 167772163; ethernet = 0 ∷ 1 ∷ 2 ∷ 3 ∷ 4 ∷ 5 ∷ []; timestamp = 100 })
    ∷ (record { ip = 167772166; ethernet = 9 ∷ 9 ∷ 9 ∷ 9 ∷ 9 ∷ 9 ∷ []; timestamp = 999 })
    ∷ []

expired_check-member_at_example :
    let t =
      expired_check toy_host entries (rh_task_register true true []) (request 0) (on_hall 2) in
    ((j : ℕ) → member_at t j ≡ remaining 1000 600 167772161 entries (member_at (on_hall 2) j))
    × Distinct (members t)
    × SameServer (on_hall 2) t
expired_check-member_at_example =
    expired_check-member_at toy_host entries true true (request 0) 1000 (λ log. refl) (on_hall 2)
      two_members-Distinct (omega arith) (omega arith) (omega arith, (omega arith, tt))
      (omega arith, (omega arith, tt))

-- The first session is gone, the second is not.
alice_stale : stale 1000 600 167772163 0 entries ≡ true
unfolding stale
alice_stale = refl

bob_spared : stale 1000 600 167772166 0 entries ≡ false
unfolding stale
bob_spared = refl

alice_idle : cause_of 1000 600 (record { ip = 0; ethernet = []; timestamp = 100 }) 0 ≡ some 4
unfolding cause_of
alice_idle = refl

bob_active : cause_of 1000 600 (record { ip = 0; ethernet = []; timestamp = 999 }) 0 ≡ none
unfolding cause_of
bob_active = refl

random_hits : HitsFree toy_host 3 (on_hall 7).slot_flags
unfolding HitsFree
random_hits log = (0, omega arith, four_free)

rh_task_startsess-ends_example :
    (t : Sess) × (rh_task_startsess toy_host 3 (rh_task_register true true []) (on_hall 7) ≡ some t)
rh_task_startsess-ends_example =
    rh_task_startsess-ends toy_host 3 true true (on_hall 7) (inr refl) random_hits
