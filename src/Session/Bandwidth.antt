-- ===== src/Session/Bandwidth.antt =====
-- The session part of src/rh-task-bandwidth.c, and `bandwidth_exec`. The wrapper's own path, which is
-- the first argument of every call, is left out.
use rahunas.Host.{Host, bandwidth, sleep, ChildReply, no_pipe, no_fork, exited, killed}
use rahunas.Member.{Member, member_get_node_by_id}
use rahunas.Prelude.{
  ℕ, zero, suc, ◌-◌, ◌&&◌, List, [], ◌∷◌, Option, none, some, take, ltb, ◌==◌, if◌then◌else◌, ◌>>=◌,
}
use rahunas.Session.Slots.{get_slot_id, mark_reserved_slot_id}
use rahunas.Session.{Sess, members, modify_member, ask, minus_one}
use rahunas.Text.{Bytes, codes, strncmp_eq, show_d, show_u}
use rahunas.Utils.Ip.{idtoip}

abbrev pub minus_two : ℕ
minus_two = 4294967294

-- The text up to the first line feed.
unfoldable pub first_line : Bytes → Bytes
first_line [] = []
first_line (c ∷ cs) = let rest = first_line cs in if c == b'\n' then [] else c ∷ rest

-- The last test: the tool asks for another try.
unfoldable pub not_completed : Bytes → ℕ → ℕ
unfolding first_line strncmp_eq
not_completed buffer ret =
    if strncmp_eq (first_line (take 150 buffer)) (codes "NOT COMPLETED") 13 then minus_two else ret

unfoldable pub bandwidth_exec_result : ChildReply → ℕ
unfolding not_completed
bandwidth_exec_result no_pipe = minus_one
bandwidth_exec_result no_fork = not_completed [] minus_one
bandwidth_exec_result (exited status buffer) = not_completed buffer status
bandwidth_exec_result (killed buffer) = not_completed buffer minus_one

unfoldable pub bandwidth_exec : Host → List Bytes → Sess → Sess × ℕ
unfolding bandwidth_exec_result
bandwidth_exec h args s =
    let asked = ask (bandwidth args) s in (asked, bandwidth_exec_result (h.child asked.log))

-- `snprintf` into the fields of `struct bandwidth_req` keeps what fits.
unfoldable pub bandwidth_add : Host → ℕ → Member → Sess → Sess × ℕ
unfolding bandwidth_exec
bandwidth_add h slot_id member s =
    bandwidth_exec h
      (codes "add"
        ∷ take 4 (show_d slot_id)
        ∷ take 15 (idtoip h.inet_ntoa (some s.vs.v_map) s.req.id)
        ∷ take 14 (show_u member.bandwidth_max_down)
        ∷ take 14 (show_u member.bandwidth_max_up)
        ∷ s.vs.dev_internal
        ∷ s.vs.dev_ifb
        ∷ [])
      s

unfoldable pub bandwidth_del : Host → ℕ → Sess → Sess × ℕ
unfolding bandwidth_exec
bandwidth_del h slot_id s =
    bandwidth_exec h (codes "del" ∷ take 4 (show_d slot_id) ∷ s.vs.dev_internal ∷ s.vs.dev_ifb ∷ [])
      s

-- The loop over the tries that are left: the slot that was added, if any.
unfoldable pub try_add : Host → ℕ → ℕ → Member → Sess → Option (Option ℕ × Sess)
try_add h fuel zero member s = some (none, s)
try_add h fuel (suc max_try) member s = do
  r ← get_slot_id h fuel s
  let added = bandwidth_add h r.0 member r.1
  let retry = try_add h fuel max_try member (ask (sleep 1) added.0)
  if added.1 == 0 then some (some r.0, added.0) else retry

abbrev pub set_slot : ℕ → Member → Member
set_slot slot_id m = record m { bandwidth_slot_id = slot_id }

-- Behind the loop.
unfoldable pub take_slot : Option ℕ → Sess → Sess × ℕ
take_slot none t = (t, minus_one)
take_slot (some slot_id) t =
    (modify_member t.req.id (set_slot slot_id) (mark_reserved_slot_id slot_id t), 0)

-- `none`: the search for a slot did not end within the fuel.
unfoldable pub startsess_member : Host → ℕ → Member → Sess → Option (Sess × ℕ)
startsess_member h fuel member s =
    if member.bandwidth_max_down == 0 && member.bandwidth_max_up == 0
    then some (s, 0)
    else if ltb 0 member.bandwidth_slot_id
    then some (s, 0)
    else (do r ← try_add h fuel 3 member s; some (take_slot r.0 r.1))

unfoldable pub startsess : Host → ℕ → Sess → Option (Sess × ℕ)
startsess h fuel s = elim (member_get_node_by_id (members s) s.req.id) [
  | none ↦ some (s, minus_one)
  | some member ↦ startsess_member h fuel member s
]

-- The flags keep the slot reserved; only the count goes down.
abbrev pub give_back : Sess → Sess
give_back s = record s {
  slot_count = if ltb 0 s.slot_count then s.slot_count - 1 else s.slot_count;
}

unfoldable pub stopsess : Host → Sess → Sess × ℕ
unfolding bandwidth_del
stopsess h s = elim (member_get_node_by_id (members s) s.req.id) [
  | none ↦ (s, minus_one)
  | some member ↦
      if ltb member.bandwidth_slot_id 1
      then (s, 0)
      else (let (deleted, ret) = bandwidth_del h member.bandwidth_slot_id s in
          if ret == 0
          then (give_back (modify_member deleted.req.id (set_slot 0) deleted), 0)
          else (deleted, minus_one))
]
