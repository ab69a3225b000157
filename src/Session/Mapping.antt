-- ===== src/Session/Mapping.antt =====
-- src/rh-task-serviceclass.c: the task that maps a session to an address of a service class.
use rahunas.Host.{Host, sql_select, clock, draw, add_ip, del_ip}
use rahunas.Member.{Member, member_get_node_by_id}
use rahunas.Prelude.{
  ℕ, zero, suc, ◌+◌, ◌%◌, ◌^◌, ◌++◌, Option, none, some, take, leb, ◌==◌, if◌then◌else◌, ◌>>=◌,
}
use rahunas.ServiceClass.{ServiceClassConfig, serviceclass_exists}
use rahunas.Session.Ipset.{set_ipiphash_adtip_nb, sess_ip}
use rahunas.Session.{Sess, TaskReq, members, modify_member, ask, minus_one}
use rahunas.Text.{Bytes, codes, show_u}

-- The query of a slot, cut to the buffer.
unfoldable pub slot_query : Bytes → ℕ → Bytes
slot_query name slot_id = take 254 (
    codes "SELECT * FROM dbset WHERE service_class = '"
    ++ (name ++ (codes "' AND service_class_slot_id = " ++ show_u slot_id)))

-- The rounds that are left of the loop of `_sc_get_slot_id`, over a network that is not empty.
unfoldable pub sc_slot_loop : Host → ServiceClassConfig → ℕ → Sess → Sess × ℕ
sc_slot_loop h config zero s = (s, 0)
sc_slot_loop h config (suc rounds) s =
    let drawn = ask draw (ask clock s) in
    let slot_id = h.random drawn.log % config.network_size in
    let queried = ask (sql_select (slot_query config.serviceclass_name slot_id)) drawn in
    let retry = sc_slot_loop h config rounds (if slot_id == 0 then drawn else queried) in
    if slot_id == 0 then retry else (if h.has_rows queried.log then retry else (queried, slot_id))

-- `retry` counts down from 30 before each round. `none`: a remainder by zero, which stops the
-- process.
unfoldable pub sc_get_slot_id : Host → ServiceClassConfig → Sess → Option (Sess × ℕ)
unfolding sc_slot_loop
sc_get_slot_id h config s =
    if config.network_size == 0 then none else some (sc_slot_loop h config 29 s)

-- At `failed` and `out`: a name that the member still has is dropped.
abbrev pub drop_class : Member → Member
drop_class m = elim m.serviceclass_name [
  | none ↦ m
  | some name ↦ record m { serviceclass_name = none; serviceclass_slot_id = 0 }
]

abbrev pub start_failed : Sess → Sess × ℕ
start_failed s = (modify_member s.req.id drop_class s, 0)

-- What a mapping that succeeds writes into the member. The text of the mapped address is given.
abbrev pub set_class : Bytes → ServiceClassConfig → ℕ → Bytes → Member → Member
set_class name config slot_id ip1 m = record m {
  serviceclass_name = some name;
  serviceclass_description = config.description;
  serviceclass_slot_id = slot_id;
  mapping_ip = some ip1;
}

-- With a slot: both directions of the mapping go into the set, or neither.
unfoldable pub start_mapping : Host → Bytes → ServiceClassConfig → Sess → Sess × ℕ
start_mapping h name config s =
    let slot_id = s.req.serviceclass_slot_id in
    let ip = sess_ip h s in
    let ip1 = (config.start_addr + slot_id) % 2 ^ 32 in
    let (there, res) = set_ipiphash_adtip_nb h s.serviceclass_set ip ip1 add_ip s in
    let (back, res1) = set_ipiphash_adtip_nb h there.serviceclass_set ip1 ip add_ip there in
    let (reverted, _) = set_ipiphash_adtip_nb h back.serviceclass_set ip ip1 del_ip back in
    if leb slot_id config.network_size
    then (if res == 0
        then (if res1 == 0
            then (
              modify_member back.req.id (set_class name config slot_id (h.inet_ntoa ip1)) back,
              0,
            )
            else start_failed reverted)
        else start_failed there)
    else start_failed s

abbrev pub with_slot : ℕ → Sess → Sess
with_slot slot_id s = record s { req = record r { serviceclass_slot_id = slot_id } }
  where
    r : TaskReq
    r = s.req

-- With the slot that was drawn, 0 if none was.
unfoldable pub start_drawn : Host → Bytes → ServiceClassConfig → Sess × ℕ → Sess × ℕ
start_drawn h name config (t, slot_id) =
    if slot_id == 0
    then start_failed (with_slot slot_id t)
    else start_mapping h name config (with_slot slot_id t)

unfoldable pub start_class : Host → Bytes → ServiceClassConfig → Sess → Option (Sess × ℕ)
start_class h name config s =
    if s.req.serviceclass_slot_id == 0
    then (do r ← sc_get_slot_id h config s; some (start_drawn h name config r))
    else some (start_mapping h name config s)

-- With the name of the request, which may be null. The search is by name: no class has the
-- identifier -1.
unfoldable pub start_named : Host → Option Bytes → Sess → Option (Sess × ℕ)
start_named h none s = some (s, 0)
start_named h (some name) s = elim (member_get_node_by_id (members s) s.req.id) [
  | none ↦ some (s, minus_one)
  | some member ↦ elim (serviceclass_exists s.serviceclass_list minus_one name) [
    | none ↦ some (start_failed s)
    | some sc ↦ start_class h name sc.serviceclass_config s
  ]
]

unfoldable pub startsess : Host → Sess → Option (Sess × ℕ)
startsess h s = start_named h s.req.serviceclass_name s

unfoldable pub stop_mapping : Host → ServiceClassConfig → Member → Sess → Sess
stop_mapping h config member s =
    let ip = sess_ip h s in
    let ip1 = (config.start_addr + member.serviceclass_slot_id) % 2 ^ 32 in
    let (there, res) = set_ipiphash_adtip_nb h s.serviceclass_set ip ip1 del_ip s in
    let (back, _) = set_ipiphash_adtip_nb h there.serviceclass_set ip1 ip del_ip there in
    if member.serviceclass_slot_id == 0
    then s
    else (if leb member.serviceclass_slot_id config.network_size
        then (if res == 0 then back else there)
        else s)

-- A failure is only logged.
unfoldable pub stopsess : Host → Sess → Sess × ℕ
unfolding stop_mapping
stopsess h s = elim (member_get_node_by_id (members s) s.req.id) [
  | none ↦ (s, minus_one)
  | some member ↦ elim member.serviceclass_name [
    | none ↦ (s, 0)
    | some name ↦ elim (serviceclass_exists s.serviceclass_list minus_one name) [
      | none ↦ (s, 0)
      | some sc ↦ (stop_mapping h sc.serviceclass_config member s, 0)
    ]
  ]
]
