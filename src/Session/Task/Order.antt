-- ===== src/Session/Task/Order.antt =====
-- The order in which the tasks run.
use rahunas.Prelude.{
  ℕ, ◌≤◌, ◌≡◌, refl, Bool, true, false, ◌||◌, List, [], ◌∷◌, ◌++◌, All, arith, leb, Bool-cases, inl,
  inr, if◌then◌else◌,
}
use rahunas.Session.Task.{
  Task, iptables, memset, ipset, serviceclass, bandwidth, dbset, taskprio, same_task, find_task,
  insert_by_prio, task_register, rh_task_register,
}

-- No task behind another has a higher priority, and none is there twice.
abbrev pub IsOrdered : List Task → Type 0
IsOrdered [] = Unit
IsOrdered (t ∷ ts) = All (λ u. taskprio u ≤ taskprio t) ts × (find_task ts t ≡ false) × IsOrdered ts

same_task_refl : (t : Task) → same_task t t ≡ true
unfolding same_task
same_task_refl iptables = refl
same_task_refl _ = refl

same_task_comm : (t u : Task) → same_task t u ≡ same_task u t
unfolding same_task
same_task_comm iptables iptables = refl
same_task_comm t u = ground arith

eq_of_same_task : (t u : Task) → same_task t u ≡ true → t ≡ u
unfolding same_task
eq_of_same_task iptables iptables h = refl
eq_of_same_task memset memset h = refl
eq_of_same_task ipset ipset h = refl
eq_of_same_task serviceclass serviceclass h = refl
eq_of_same_task bandwidth bandwidth h = refl
eq_of_same_task dbset dbset h = refl
eq_of_same_task _ _ h = cc

find_task-insert_by_prio :
    (ts : List Task) (t u : Task)
    → find_task (insert_by_prio t ts) u ≡ (same_task t u || find_task ts u)
unfolding find_task insert_by_prio
find_task-insert_by_prio [] t u = ground arith
find_task-insert_by_prio (x ∷ xs) t u = ground (arith, find_task-insert_by_prio xs t u)

-- Registering adds the task where it is missing, and no other.
find_task-task_register :
    (ts : List Task) (t u : Task)
    → find_task (task_register ts t) u ≡ (same_task t u || find_task ts u)
unfolding task_register
find_task-task_register ts t u = elim (Bool-cases (same_task t u)) [
  | inl e ↦ ground (arith, find_task-insert_by_prio ts t u, eq_of_same_task t u)
  | inr e ↦ ground (arith, find_task-insert_by_prio ts t u)
]

All-insert_by_prio :
    (n : ℕ) (t : Task) (ts : List Task)
    → taskprio t ≤ n
    → All (λ u. taskprio u ≤ n) ts
    → All (λ u. taskprio u ≤ n) (insert_by_prio t ts)
unfolding insert_by_prio
All-insert_by_prio n t [] h all = (h, tt)
All-insert_by_prio n t (x ∷ xs) h all = elim (Bool-cases (leb (taskprio x) (taskprio t))) [
  | inl e ↦ rw e (h, all)
  | inr e ↦ rw e (all.0, All-insert_by_prio n t xs h all.1)
]

All-le_trans :
    (m n : ℕ) (ts : List Task) → m ≤ n → All (λ u. taskprio u ≤ m) ts → All (λ u. taskprio u ≤ n) ts
All-le_trans m n [] h all = tt
All-le_trans m n (x ∷ xs) h all = (omega arith, All-le_trans m n xs h all.1)

insert_by_prio-IsOrdered :
    (t : Task) (ts : List Task)
    → find_task ts t ≡ false
    → IsOrdered ts
    → IsOrdered (insert_by_prio t ts)
unfolding insert_by_prio
insert_by_prio-IsOrdered t [] h o = (tt, unfold find_task in refl, tt)
insert_by_prio-IsOrdered t (x ∷ xs) h o =
    let absent : (same_task x t ≡ false) × (find_task xs t ≡ false) =
      unfold find_task in ground arith in
    elim (Bool-cases (leb (taskprio x) (taskprio t))) [
      | inl e ↦
          let le : taskprio x ≤ taskprio t = ground arith in
          rw e ((le, All-le_trans _ _ xs le o.0), h, o)
      | inr e ↦ rw e (
        All-insert_by_prio _ t xs (ground arith) o.0,
        ground (arith, find_task-insert_by_prio xs t x, same_task_comm t x),
        insert_by_prio-IsOrdered t xs absent.1 o.2,
      )
    ]

-- Whatever tasks are registered, in whatever order and however often: the list is in descending
-- order of priority with no task twice, and it has exactly the tasks of the list before and the new
-- one.
pub task_register-IsOrdered :
    (ts : List Task) (t : Task)
    → IsOrdered ts
    → IsOrdered (task_register ts t)
      × ((u : Task) → find_task (task_register ts t) u ≡ (same_task t u || find_task ts u))
task_register-IsOrdered ts t o = (
  elim (Bool-cases (find_task ts t)) [
    | inl e ↦ unfold task_register in rw e o
    | inr e ↦ unfold task_register in rw e (insert_by_prio-IsOrdered t ts e o)
  ],
  find_task-task_register ts t,
)

-- The tasks in the order in which they start a session, for each setting of the two options.
pub rh_task_register_lem :
    (use_serviceclass bandwidth_shape : Bool)
    → rh_task_register use_serviceclass bandwidth_shape []
      ≡ iptables
        ∷ memset
        ∷ ipset
        ∷ ((if use_serviceclass then serviceclass ∷ [] else [])
            ++ ((if bandwidth_shape then bandwidth ∷ [] else []) ++ (dbset ∷ [])))
unfolding rh_task_register
rh_task_register_lem true true = refl
rh_task_register_lem true false = refl
rh_task_register_lem false true = refl
rh_task_register_lem false false = refl
