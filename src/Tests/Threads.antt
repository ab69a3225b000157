-- ===== src/Tests/Threads.antt =====
-- The two threads on a daemon with two sessions, of which one holds bandwidth slot 4.
use rahunas.Daemon.Steps.Commands.{Reach-Owned}
use rahunas.Daemon.Steps.Ended.{Ends, Step-session}
use rahunas.Daemon.Steps.Owned.{Owned, slot_of}
use rahunas.Daemon.Steps.Sessions.{session_of}
use rahunas.Daemon.Steps.{Step, stops, expires, here, next, expire_stop}
use rahunas.Daemon.{Daemon, vserver_get_by_id}
use rahunas.Member.Lookup.{Distinct}
use rahunas.Member.{Member, member_get_node_by_id}
use rahunas.Prelude.{
  ℕ, zero, suc, ◌≡◌, ◌≢◌, refl, ◌⊎◌, inl, inr, true, List, [], ◌∷◌, none, some, arith, All,
  Bool-cases, ◌==◌,
}
use rahunas.Rpc.Params.{do_stopsession-join}
use rahunas.Rpc.Stop.{stop_with}
use rahunas.Session.Owners.{slot_in}
use rahunas.Session.Slots.{is_reserved, has_bit, page_at}
use rahunas.Session.{VServer}
use rahunas.Tests.Inputs.{
  toy_host, request, alice, bob, ten_addresses, hall, running, is_free, are_free, is_free-Without,
  are_free-All,
}
use rahunas.Text.{Bytes, codes}
use rahunas.Utils.Sep.Fields.{join, Without}

abbrev zeros : ℕ → List ℕ
zeros zero = []
zeros (suc n) = 0 ∷ zeros n

abbrev limited_alice : Member
limited_alice = record alice { bandwidth_slot_id = 4 }

abbrev shaped_hall : VServer
shaped_hall = record hall { v_map = record ten_addresses { members = limited_alice ∷ bob ∷ [] } }

-- Slots 0 and 4 are reserved.
abbrev shaped : Daemon
shaped = record running { vserver_list = shaped_hall ∷ []; slot_flags = 17 ∷ zeros 618 }

slots : (v j : ℕ) → slot_of shaped v j ≢ 0 → (v ≡ 1) × (j ≡ 2) × (slot_of shaped v j ≡ 4)
unfolding vserver_get_by_id slot_in
slots v j ne = ground arith

four_reserved : is_reserved (17 ∷ zeros 618) 4 ≡ true
unfolding is_reserved has_bit page_at
four_reserved = refl

two-Distinct : Distinct (limited_alice ∷ bob ∷ [])
unfolding member_get_node_by_id
two-Distinct = (refl, (refl, tt))

hall_only :
    (v : ℕ) (vs : VServer)
    → vserver_get_by_id shaped.vserver_list v ≡ some vs
    → Distinct vs.v_map.members
unfolding vserver_get_by_id
hall_only v vs e = elim (Bool-cases (1 == v)) [
  | inl hit ↦
      let first : some shaped_hall ≡ some vs = rw hit at e in
      let same : shaped_hall ≡ vs = cc in rw (← same) two-Distinct
  | inr there ↦ let no : none ≡ some vs = rw there at e in absurd cc
]

shaped-Owned : Owned shaped
shaped-Owned = record {
  pages = refl;
  distinct = hall_only;
  reserved = λ v j ne. rw ((slots v j ne).2) four_reserved;
  sole = λ v w j k ne same. sole_holder v w j k ne same;
}
  where
    sole_holder :
        (v w j k : ℕ)
        → slot_of shaped v j ≢ 0
        → slot_of shaped v j ≡ slot_of shaped w k
        → (v ≡ w) × (j ≡ k)
    sole_holder v w j k ne same =
        let a = slots v j ne in
        let b = slots w k (λ z. ne (rw same z)) in (ground arith, ground arith)

abbrev alice_address : Bytes
alice_address = 10 ∷ 0 ∷ 0 ∷ 3 ∷ []

abbrev alice_fields : List Bytes
alice_fields = codes "00:01:02:03:04:05" ∷ codes "2" ∷ codes "1" ∷ []

fields_free : Without b'|' alice_address × All (Without b'|') alice_fields
unfolding is_free are_free
fields_free = (is_free-Without b'|' alice_address refl, are_free-All b'|' alice_fields refl)

-- The polling thread stops the session of bob, and alice logs out.
abbrev without_bob : Daemon
without_bob = expire_stop toy_host (request 0) 5 (9 ∷ 9 ∷ 9 ∷ 9 ∷ 9 ∷ 9 ∷ []) 4 1 shaped_hall shaped

hall_found : vserver_get_by_id shaped.vserver_list 1 ≡ some shaped_hall
unfolding vserver_get_by_id
hall_found = refl

bob_expires : Step shaped without_bob
bob_expires =
    expires toy_host (request 0) 5 (9 ∷ 9 ∷ 9 ∷ 9 ∷ 9 ∷ 9 ∷ []) 4 1 shaped_hall hall_found
      (inl refl) refl

abbrev after_logout : Daemon → Daemon
after_logout d =
    (stop_with toy_host (request 0) d (some alice_address) (some (codes "00:01:02:03:04:05"))
      (some (codes "2")) (some (codes "1"))).0

alice_stops : (d : Daemon) → Step d (after_logout d)
alice_stops d =
    stops toy_host (request 0) (some (join b'|' alice_address alice_fields))
      (stop_with toy_host (request 0) d (some alice_address) (some (codes "00:01:02:03:04:05"))
        (some (codes "2")) (some (codes "1"))).1
      (do_stopsession-join toy_host (request 0) d alice_address (codes "00:01:02:03:04:05")
        (codes "2") (codes "1") fields_free.0 fields_free.1 (λ e. cc))

Reach-Owned_example : Owned (after_logout without_bob)
Reach-Owned_example =
    Reach-Owned shaped-Owned (next (next here bob_expires) (alice_stops without_bob))

alice_there : session_of shaped 1 2 ≡ some limited_alice
unfolding vserver_get_by_id member_get_node_by_id
alice_there = refl

Step-session_example :
    (session_of (after_logout shaped) 1 2 ≡ some limited_alice)
    ⊎ ((session_of (after_logout shaped) 1 2 ≡ none)
        × Ends shaped (after_logout shaped) (alice_stops shaped) 1 2 limited_alice)
Step-session_example =
    Step-session (alice_stops shaped) true true 1 2 limited_alice shaped-Owned refl alice_there
