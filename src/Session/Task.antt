-- ===== src/Session/Task.antt =====
-- src/rh-task.c: the list of tasks, and starting and stopping a session by all of them. A task is
-- named; its priority and its functions are looked up by the name, for the fields of `struct task`.
pub mod Order
use rahunas.Host.{Host}
use rahunas.Prelude.{
  ℕ, Bool, true, false, List, [], ◌∷◌, ◌++◌, Option, none, some, leb, if◌then◌else◌, ◌>>=◌,
}
use rahunas.Session.Bandwidth
use rahunas.Session.Dbset
use rahunas.Session.Ipset
use rahunas.Session.Mapping
use rahunas.Session.Memset
use rahunas.Session.{Sess}

pub data Task : Type 0 where
  iptables memset ipset serviceclass bandwidth dbset : Task

unfoldable pub taskprio : Task → ℕ
taskprio iptables = 50
taskprio memset = 40
taskprio ipset = 30
taskprio serviceclass = 25
taskprio bandwidth = 20
taskprio dbset = 10

-- Tasks are compared by their addresses.
unfoldable pub same_task : Task → Task → Bool
same_task iptables iptables = true
same_task memset memset = true
same_task ipset ipset = true
same_task serviceclass serviceclass = true
same_task bandwidth bandwidth = true
same_task dbset dbset = true
same_task _ _ = false

-- `g_list_find`.
unfoldable pub find_task : List Task → Task → Bool
find_task [] task = false
find_task (t ∷ ts) task = if same_task t task then true else find_task ts task

-- The loop over the list, and `g_list_insert_before` the node where it stops, or at the end.
unfoldable pub insert_by_prio : Task → List Task → List Task
insert_by_prio task [] = task ∷ []
insert_by_prio task (t ∷ ts) =
    let later = insert_by_prio task ts in
    if leb (taskprio t) (taskprio task) then task ∷ t ∷ ts else t ∷ later

unfoldable pub task_register : List Task → Task → List Task
task_register task_list task =
    if find_task task_list task then task_list else insert_by_prio task task_list

-- The registrations of the first call, in their order.
unfoldable pub rh_task_register : Bool → Bool → List Task → List Task
unfolding task_register find_task insert_by_prio same_task taskprio
rh_task_register use_serviceclass bandwidth_shape task_list =
    let basic = task_register (task_register (task_register task_list iptables) memset) ipset in
    let mapped = if use_serviceclass then task_register basic serviceclass else basic in
    let shaped = if bandwidth_shape then task_register mapped bandwidth else mapped in
    task_register shaped dbset

-- The start function of a task. What it returns is dropped.
unfoldable pub startsess : Host → ℕ → Task → Sess → Option Sess
startsess h fuel iptables s = some s
startsess h fuel memset s = some (Memset.startsess h s).0
startsess h fuel ipset s = some (Ipset.startsess h s).0
startsess h fuel serviceclass s = do r ← Mapping.startsess h s; some r.0
startsess h fuel bandwidth s = do r ← Bandwidth.startsess h fuel s; some r.0
startsess h fuel dbset s = some (Dbset.startsess h s).0

unfoldable pub stopsess : Host → Task → Sess → Sess
stopsess h iptables s = s
stopsess h memset s = (Memset.stopsess s).0
stopsess h ipset s = (Ipset.stopsess h s).0
stopsess h serviceclass s = (Mapping.stopsess h s).0
stopsess h bandwidth s = (Bandwidth.stopsess h s).0
stopsess h dbset s = (Dbset.stopsess s).0

-- From the first task on.
unfoldable pub rh_task_startsess : Host → ℕ → List Task → Sess → Option Sess
rh_task_startsess h fuel [] s = some s
rh_task_startsess h fuel (t ∷ ts) s = do u ← startsess h fuel t s; rh_task_startsess h fuel ts u

-- From the last task on.
unfoldable pub rh_task_stopsess : Host → List Task → Sess → Sess
rh_task_stopsess h [] s = s
rh_task_stopsess h (t ∷ ts) s = stopsess h t (rh_task_stopsess h ts s)
