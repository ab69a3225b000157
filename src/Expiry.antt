-- ===== src/Expiry.antt =====
-- `expired_check` of src/rahunasd.c, which stops the sessions that were idle too long or have come to
-- their end, with `get_data_from_set` of src/rh-ipset.c and `send_xmlrpc_stopacct` of
-- src/rh-xmlrpc-cmd.c. The listing of the kernel's set is an argument. A `time_t` is a 64-bit pattern.
-- No command runs between the steps of one walk.
pub mod Due
pub mod Verdict
pub mod Times
pub mod Stale
use rahunas.Host.{Host, clock, connect, call}
use rahunas.Mac.{mac_tostring}
use rahunas.Member.{Member, VMap, member_get_node_by_id}
use rahunas.Prelude.{
  ℕ, ◌+◌, ◌-◌, ◌%◌, ◌^◌, Bool, List, [], ◌∷◌, Option, none, some, ltb, ◌==◌, ◌&&◌, not,
  if◌then◌else◌,
}
use rahunas.Session.Dbset.{show_s, pieces}
use rahunas.Session.Task.{Task, rh_task_stopsess}
use rahunas.Session.{TaskReq, Sess, members, ask, minus_one}
use rahunas.Text.{Bytes, codes, show_d}
use rahunas.Utils.Ip.{idtoip}

-- `struct ip_set_req_rahunas`, as the kernel lists it; the address is in host order.
pub record SetEntry : Type 0 where
  pub ip : ℕ
  pub ethernet : Bytes
  pub timestamp : ℕ

unfoldable pub find_entry : List SetEntry → ℕ → Option SetEntry
find_entry [] ip = none
find_entry (d ∷ ds) ip = let rest = find_entry ds ip in if ip == d.ip then some d else rest

unfoldable pub get_data_from_set : List SetEntry → ℕ → ℕ → Option SetEntry
unfolding find_entry
get_data_from_set list id first_ip = find_entry list ((first_ip + id) % 2 ^ 32)

-- `a > b` of signed 64-bit patterns, and the sign extension of an `int`.
unfoldable pub signed_gt : ℕ → ℕ → Bool
signed_gt a b = ltb ((b + 2 ^ 63) % 2 ^ 64) ((a + 2 ^ 63) % 2 ^ 64)

unfoldable pub sign_extend : ℕ → ℕ
sign_extend n = if ltb n (2 ^ 31) then n else n + (2 ^ 64 - 2 ^ 32)

-- The cause to stop for: 4 is `RH_RADIUS_TERM_IDLE_TIMEOUT`, 5 is `RH_RADIUS_TERM_SESSION_TIMEOUT`.
unfoldable pub cause_of : ℕ → ℕ → SetEntry → ℕ → Option ℕ
unfolding signed_gt sign_extend
cause_of time_now idle_timeout d session_timeout =
    if signed_gt ((time_now + 2 ^ 64 - d.timestamp) % 2 ^ 64) (sign_extend idle_timeout)
    then some 4
    else if not (session_timeout == 0) && signed_gt time_now session_timeout
    then some 5
    else none

unfoldable pub stopacct_params : Host → ℕ → ℕ → Member → Sess → Bytes
stopacct_params h id cause member s = pieces (
    idtoip h.inet_ntoa (some s.vs.v_map) id
    ∷ codes "|"
    ∷ show_s member.username
    ∷ codes "|"
    ∷ show_s member.session_id
    ∷ codes "|"
    ∷ show_d (member.session_start % 2 ^ 32)
    ∷ codes "|"
    ∷ mac_tostring member.mac_address
    ∷ codes "|"
    ∷ show_d cause
    ∷ [])

-- `id < 0` is never true of a `uint32_t`.
unfoldable pub send_xmlrpc_stopacct : Host → ℕ → ℕ → Sess → Sess × ℕ
unfolding stopacct_params
send_xmlrpc_stopacct h id cause s =
    let asked = ask connect s in
    if ltb ((s.vs.v_map.size + 2 ^ 32 - 1) % 2 ^ 32) id
    then (s, minus_one)
    else elim (member_get_node_by_id (members s) id) [
      | none ↦ (s, minus_one)
      | some member ↦
          let called = ask (call (codes "stopacct") (stopacct_params h id cause member s)) asked in
          if h.connected asked.log
          then (called, if h.called called.log then 0 else minus_one)
          else (asked, minus_one)
    ]

-- What is done with a session that is to be stopped. What the two calls return is dropped.
unfoldable pub expire : Host → List Task → TaskReq → ℕ → SetEntry → ℕ → Sess → Sess
expire h tasks stack id d cause s =
    let told = (send_xmlrpc_stopacct h id cause s).0 in
    rh_task_stopsess h tasks
      (record told { req = record stack { id = id; mac_address = d.ethernet; req_opt = cause } })

-- One round of the walk, with the clock asked first.
unfoldable pub check_member : Host → List SetEntry → List Task → TaskReq → Member → Sess → Sess
check_member h list tasks stack member s =
    let asked = ask clock s in
    elim (get_data_from_set list member.id s.vs.v_map.first_ip) [
      | none ↦ asked
      | some d ↦ elim (cause_of (h.time asked.log) s.vs.idle_timeout d member.session_timeout) [
        | none ↦ asked
        | some cause ↦ expire h tasks stack member.id d cause asked
      ]
    ]

-- The members still to visit. A visit removes no member but its own, nor changes another's fields
-- that are read here.
unfoldable pub check_members :
    Host → List SetEntry → List Task → TaskReq → List Member → Sess → Sess
unfolding check_member
check_members h list tasks stack [] s = s
check_members h list tasks stack (m ∷ ms) s =
    check_members h list tasks stack ms (check_member h list tasks stack m s)

unfoldable pub expired_check : Host → List SetEntry → List Task → TaskReq → Sess → Sess
expired_check h list tasks stack s = check_members h list tasks stack (members s) s
