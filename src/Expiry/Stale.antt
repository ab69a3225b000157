-- ===== src/Expiry/Stale.antt =====
-- What the walk over the sessions leaves, in terms of plain numbers.
use rahunas.Expiry.Due.{verdict, spared, after}
use rahunas.Expiry.Times.{cause_of_lem}
use rahunas.Expiry.Verdict.{expired_check-after}
use rahunas.Expiry.{SetEntry, find_entry, get_data_from_set, cause_of, expired_check}
use rahunas.Host.{Host, Event}
use rahunas.Member.Lookup.{Distinct}
use rahunas.Member.{Member, member_get_node_by_id}
use rahunas.Prelude.{
  ℕ, ◌+◌, ◌%◌, ◌^◌, ◌<◌, ◌≡◌, refl, ◌∙◌, Bool, true, false, not, ◌&&◌, ◌||◌, List, [], ◌∷◌, Option,
  none, some, ltb, Bool-cases, inl, inr, All, OnSome, ◌==◌, if◌then◌else◌,
}
use rahunas.Session.Keeps.{SameServer}
use rahunas.Session.Refinement.{member_at}
use rahunas.Session.Task.{rh_task_register}
use rahunas.Session.{Sess, TaskReq, members}

-- A session that was idle for longer than the limit, or has an end and is past it.
abbrev pub overdue : (now idle_timeout timestamp session_timeout : ℕ) → Bool
overdue now idle_timeout timestamp session_timeout =
    ltb (timestamp + idle_timeout) now || (not (session_timeout == 0) && ltb session_timeout now)

-- Whether the first entry of an address in the listing makes its session overdue.
unfoldable pub stale : (now idle_timeout address session_timeout : ℕ) → List SetEntry → Bool
stale now idle_timeout address session_timeout [] = false
stale now idle_timeout address session_timeout (d ∷ ds) =
    let rest = stale now idle_timeout address session_timeout ds in
    if address == d.ip then overdue now idle_timeout d.timestamp session_timeout else rest

-- What is left of a member: all of it, or nothing.
unfoldable pub remaining :
    (now idle_timeout first_ip : ℕ) → List SetEntry → Option Member → Option Member
remaining now idle_timeout first_ip list none = none
remaining now idle_timeout first_ip list (some m) =
    if stale now idle_timeout ((first_ip + m.id) % 2 ^ 32) m.session_timeout list
    then none
    else some m

-- Times before the end of a signed 64-bit clock.
abbrev pub Stamps : List SetEntry → Type 0
Stamps list = All (λ d. d.timestamp < 2 ^ 63) list

abbrev pub Endings : List Member → Type 0
Endings ms = All (λ m. m.session_timeout < 2 ^ 63) ms

two_causes :
    (idle ended : Bool) (m : Member)
    → spared (if idle then some 4 else if ended then some 5 else none) m
      ≡ (if idle || ended then none else some m)
unfolding spared
two_causes true ended m = refl
two_causes false true m = refl
two_causes false false m = refl

find_entry-stale :
    (now idle address : ℕ) (m : Member) (list : List SetEntry)
    → now < 2 ^ 63
    → idle < 2 ^ 31
    → m.session_timeout < 2 ^ 63
    → Stamps list
    → spared
        (elim (find_entry list address) [
          | none ↦ none
          | some d ↦ cause_of now idle d m.session_timeout
        ])
        m
      ≡ (if stale now idle address m.session_timeout list then none else some m)
unfolding find_entry stale spared
find_entry-stale now idle address m [] n l t stamps = refl
find_entry-stale now idle address m (d ∷ ds) n l t stamps = elim (Bool-cases (address == d.ip)) [
  | inl here ↦
      rw (here, cause_of_lem now idle d m.session_timeout n stamps.0 l t)
        (two_causes (ltb (d.timestamp + idle) now)
          (not (m.session_timeout == 0) && ltb m.session_timeout now) m)
  | inr there ↦ rw there (find_entry-stale now idle address m ds n l t stamps.1)
]

-- A member that is found has an end in time.
ending_found :
    (ms : List Member) (j : ℕ)
    → Endings ms
    → OnSome (λ m. m.session_timeout < 2 ^ 63) (member_get_node_by_id ms j)
unfolding member_get_node_by_id
ending_found [] j e = tt
ending_found (m ∷ ms) j e = elim (Bool-cases (m.id == j)) [
  | inl here ↦ rw here e.0
  | inr there ↦ rw there (ending_found ms j e.1)
]

after-remaining :
    (now : ℕ) (list : List SetEntry) (s : Sess) (o : Option Member)
    → now < 2 ^ 63
    → s.vs.idle_timeout < 2 ^ 31
    → Stamps list
    → OnSome (λ m. m.session_timeout < 2 ^ 63) o
    → after now list s o ≡ remaining now s.vs.idle_timeout s.vs.v_map.first_ip list o
unfolding after remaining verdict get_data_from_set
after-remaining now list s none n l stamps t = refl
after-remaining now list s (some m) n l stamps t =
    find_entry-stale now s.vs.idle_timeout ((s.vs.v_map.first_ip + m.id) % 2 ^ 32) m list n l t
      stamps

-- While the clock stands still, no two members have one identifier and no time is beyond the end of
-- a signed 64-bit clock, and the limit is an `int` that is not negative: the walk leaves exactly the
-- members that are not overdue. These are the members with no entry of their address in the listing,
-- and those whose first entry is not older than the limit and whose session has no end or is not past
-- it. They are left with all their fields. The virtual server keeps its number, range, set and limit,
-- and no two members have one identifier then either.
pub expired_check-member_at :
    (h : Host) (list : List SetEntry) (use_serviceclass bandwidth_shape : Bool) (stack : TaskReq)
    (now : ℕ)
    → ((log : List Event) → h.time log ≡ now)
    → (s : Sess) → Distinct (members s)
    → now < 2 ^ 63
    → s.vs.idle_timeout < 2 ^ 31
    → Stamps list
    → Endings (members s)
    → let t = expired_check h list (rh_task_register use_serviceclass bandwidth_shape []) stack s in
      ((j : ℕ)
        → member_at t j ≡ remaining now s.vs.idle_timeout s.vs.v_map.first_ip list (member_at s j))
      × Distinct (members t)
      × SameServer s t
expired_check-member_at h list sc bw stack now steady s d n l stamps ends =
    let (at, distinct, server) = expired_check-after h list sc bw stack now steady s d in
    (
      λ j.
          at j
          ∙ after-remaining now list s (member_at s j) n l stamps (ending_found (members s) j ends),
      distinct,
      server,
    )
