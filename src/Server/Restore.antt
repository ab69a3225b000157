-- ===== src/Server/Restore.antt =====
-- The start of src/rh-task-dbset.c on a virtual server: the rows of the table `dbset` are read, and
-- their sessions started again. A row of the database is a list of columns, each a title and a text.
pub mod Returning
pub mod Sessions
pub mod Starting
pub mod Rows
use rahunas.Host.{Host, Event, sql_select}
use rahunas.Mac.{parse_mac}
use rahunas.Member.{VMap, Member, member_get_node_by_id}
use rahunas.Prelude.{
  ℕ, ◌%◌, ◌^◌, Bool, true, not, ◌&&◌, List, [], ◌∷◌, Option, none, some, take, ◌==◌, if◌then◌else◌,
  length,
}
use rahunas.Server.Run.{Run, returned, faults, unended, ◌>>=◌}
use rahunas.Server.{Site, config_of, ask_site, log_of, deref_iface, session_view, session_back}
use rahunas.Session.Dbset.{pieces}
use rahunas.Session.Task.{bandwidth, find_task, rh_task_startsess}
use rahunas.Session.{TaskReq, Sess}
use rahunas.Text.{Bytes, codes, strncmp_eq, show_d, atoi, atol}
use rahunas.Utils.Ip.{iptoid}

-- What the database answers, by the whole history of requests, and `mktime` of what `strptime` reads
-- with `%s`.
pub record Database : Type 0 where
  pub rows : List Event → List (List (Bytes × Bytes))
  pub mktime : Bytes → ℕ

pub record DbsetRow : Type 0 where
  pub session_id : Bytes
  pub vserver_id : Bytes
  pub username : Bytes
  pub ip : Bytes
  pub mac : Bytes
  pub session_start : ℕ
  pub session_timeout : ℕ
  pub bandwidth_slot_id : ℕ
  pub bandwidth_max_down : ℕ
  pub bandwidth_max_up : ℕ
  pub service_class : Bytes
  pub service_class_slot_id : ℕ

-- `strncmp(name, title, strlen(name)) == 0`, where the length is written as a number. `bandwidth_max_up`
-- is compared up to 18 characters.
abbrev pub titled : Bytes → Bytes → Bool
titled name title = strncmp_eq name title (length name)

-- One column, written into the row. A `time_t` and a `long` have 64 bits, the slots 16 and 32.
unfoldable pub parse_column : Database → Bytes × Bytes → DbsetRow → DbsetRow
parse_column db (title, str) row =
    if titled (codes "session_id") title
    then record row { session_id = str }
    else if titled (codes "vserver_id") title
    then record row { vserver_id = str }
    else if titled (codes "username") title
    then record row { username = str }
    else if titled (codes "ip") title
    then record row { ip = str }
    else if titled (codes "mac") title
    then record row { mac = str }
    else if titled (codes "session_start") title
    then record row { session_start = db.mktime str }
    else if titled (codes "session_timeout") title
    then record row { session_timeout = db.mktime str }
    else if titled (codes "bandwidth_slot_id") title
    then record row { bandwidth_slot_id = atoi str % 2 ^ 16 }
    else if titled (codes "bandwidth_max_down") title
    then record row { bandwidth_max_down = atol str }
    else if strncmp_eq (codes "bandwidth_max_up") title 18
    then record row { bandwidth_max_up = atol str }
    else if titled (codes "service_class_slot_id") title
    then record row { service_class_slot_id = atol str % 2 ^ 32 }
    else if titled (codes "service_class") title
    then record row { service_class = str }
    else row

unfoldable pub parse_row : Database → List (Bytes × Bytes) → DbsetRow → DbsetRow
unfolding parse_column
parse_row db [] row = row
parse_row db (column ∷ columns) row = parse_row db columns (parse_column db column row)

-- The rows that are read, each on memory that `g_malloc` does not clear.
unfoldable pub parse_dm_to_struct :
    Database → DbsetRow → List (List (Bytes × Bytes)) → List DbsetRow
unfolding parse_row
parse_dm_to_struct db garbage [] = []
parse_dm_to_struct db garbage (columns ∷ rows) =
    parse_row db columns garbage ∷ parse_dm_to_struct db garbage rows

-- Whether `startsess` of src/rh-task-bandwidth.c has something to add for the request: a limit is
-- set, and the member has no slot.
unfoldable pub wants_slot : TaskReq → List Member → Bool
wants_slot req ms =
    not (req.bandwidth_max_down == 0 && req.bandwidth_max_up == 0)
    && elim (member_get_node_by_id ms req.id) [ none ↦ true | some m ↦ m.bandwidth_slot_id == 0 ]

-- A search for a slot without end leaves the call without end.
unfoldable pub run_start : Site → Option Sess → Run Site
unfolding session_back
run_start u none = unended
run_start u (some s) = returned (session_back u s)

-- `rh_task_startsess` on a server. The map and, to add a limit, the interface are read through their
-- pointers.
unfoldable pub start_on : Host → ℕ → TaskReq → VMap → Site → Run Site
unfolding wants_slot session_view run_start
start_on h fuel req map u = elim (deref_iface u) [
  | none ↦
      if find_task u.ms.task_list bandwidth && wants_slot req map.members
      then faults
      else run_start u (rh_task_startsess h fuel u.ms.task_list (session_view map [] [] req u))
  | some iface ↦ run_start u (
      rh_task_startsess h fuel u.ms.task_list
        (session_view map iface.dev_internal iface.dev_ifb req u))
]

unfoldable pub start_session : Host → ℕ → TaskReq → Site → Run Site
unfolding start_on
start_session h fuel req u = elim u.vs.v_map [
  | none ↦ faults
  | some map ↦ start_on h fuel req map u
]

-- The request of a row. What is not written stays from the row before.
unfoldable pub restored_req : Host → Site → DbsetRow → Bytes → TaskReq → TaskReq
restored_req h u row ethernet req = record req {
  id = iptoid h.inet_aton u.vs.v_map (some row.ip);
  vserver_id = atoi row.vserver_id;
  username = row.username;
  session_id = row.session_id;
  mac_address = ethernet;
  session_start = row.session_start;
  session_timeout = row.session_timeout;
  bandwidth_slot_id = row.bandwidth_slot_id;
  bandwidth_max_down = row.bandwidth_max_down;
  bandwidth_max_up = row.bandwidth_max_up;
  serviceclass_name = some row.service_class;
  serviceclass_slot_id = row.service_class_slot_id;
}

-- The loop over the rows. `ethernet` is not cleared between them; `id < 0` is never true of a
-- `uint32_t`.
unfoldable pub restore_rows : Host → ℕ → List DbsetRow → Bytes → TaskReq → Site → Run Site
unfolding start_session restored_req
restore_rows h fuel [] ethernet req u = returned u
restore_rows h fuel (row ∷ rows) ethernet req u =
    let mac = parse_mac row.mac ethernet in
    let next = restored_req h u row mac req in
    if atoi row.vserver_id == (config_of u).vserver_id
    then (start_session h fuel next u >>= λ t. restore_rows h fuel rows mac next t)
    else restore_rows h fuel rows ethernet req u

unfoldable pub restore_set : Host → ℕ → List DbsetRow → TaskReq → Site → Run Site
unfolding restore_rows
restore_set h fuel rows req u = restore_rows h fuel rows (0 ∷ 0 ∷ 0 ∷ 0 ∷ 0 ∷ 0 ∷ []) req u

unfoldable pub select_cmd : Site → Bytes
unfolding pieces
select_cmd u = take 255 (
    pieces (
      codes "SELECT * FROM dbset WHERE vserver_id='"
      ∷ show_d (config_of u).vserver_id
      ∷ codes "'"
      ∷ []))

-- What the memory of a row and of the request holds before it is written.
pub record Leftover : Type 0 where
  pub row : DbsetRow
  pub req : TaskReq

-- `init`, where it is no reload.
unfoldable pub restore : Host → Database → ℕ → Leftover → Site → Run Site
unfolding select_cmd parse_dm_to_struct restore_set
restore h db fuel junk u =
    let asked = ask_site (sql_select (select_cmd u)) u in
    restore_set h fuel (parse_dm_to_struct db junk.row (db.rows (log_of asked))) junk.req asked
