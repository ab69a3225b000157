-- ===== src/Daemon/Walk.antt =====
-- The pointer `runner` with which `expired_check` of src/rahunasd.c walks over the list of members while
-- commands change the list: the walk holds no lock but in `rh_task_stopsess`, and takes the next node
-- before it visits a member. Of a node the model keeps its number, which is never given again, and the
-- identifier of its member. A visit is one step: that the member is freed in the midst of it is left out.
pub mod Members
pub mod Nodes
pub mod Visited
pub mod Races
use rahunas.Prelude.{
  ℕ, zero, suc, ◌+◌, Bool, true, false, List, [], ◌∷◌, Option, none, some, ◌==◌, if◌then◌else◌,
}
use rahunas.Server.Run.{Run, returned, faults, ◌>>=◌}

pub record Node : Type 0 where
  pub number : ℕ
  pub id : ℕ

-- `visited` has the numbers of the nodes whose members were looked at, newest first; `fresh` is the
-- number of the next node.
pub record Walk : Type 0 where
  pub nodes : List Node
  pub runner : Option ℕ
  pub visited : List ℕ
  pub fresh : ℕ

-- `removes`: a stop, by either thread, of the session with an identifier. `inserts`: a start, which puts
-- a member of an identifier at any place of the list.
pub data Action : Type 0 where
  visits : Action
  removes : ℕ → Action
  inserts : ℕ → ℕ → Action

-- A node in the list, with the number of the one behind it.
unfoldable pub node_at : ℕ → List Node → Option (Node × Option ℕ)
node_at n [] = none
node_at n (x ∷ []) = if x.number == n then some (x, none) else none
node_at n (x ∷ y ∷ xs) =
    let rest = node_at n (y ∷ xs) in if x.number == n then some (x, some y.number) else rest

unfoldable pub remove_id : ℕ → List Node → List Node
remove_id j [] = []
remove_id j (x ∷ xs) = let rest = remove_id j xs in if x.id == j then xs else x ∷ rest

unfoldable pub insert_at : ℕ → Node → List Node → List Node
insert_at zero new xs = new ∷ xs
insert_at (suc k) new [] = new ∷ []
insert_at (suc k) new (x ∷ xs) = x ∷ insert_at k new xs

-- `g_list_first`.
unfoldable pub started_walk : List Node → ℕ → Walk
started_walk nodes fresh = record {
  nodes = nodes;
  runner = elim nodes [ [] ↦ none | x ∷ xs ↦ some x.number ];
  visited = [];
  fresh = fresh;
}

-- One round of the loop, up to the lock. The loop is over where `runner` is null.
unfoldable pub visit_at : Option ℕ → Walk → Run Walk
unfolding node_at
visit_at none w = returned w
visit_at (some n) w = elim (node_at n w.nodes) [
  | none ↦ faults
  | some found ↦ returned (record w { runner = found.1; visited = found.0.number ∷ w.visited })
]

unfoldable pub visit : Walk → Run Walk
unfolding visit_at
visit w = visit_at w.runner w

unfoldable pub act : Action → Walk → Run Walk
unfolding visit remove_id insert_at
act visits w = visit w
act (removes j) w = returned (record w { nodes = remove_id j w.nodes })
act (inserts k j) w = returned (record w {
  nodes = insert_at k (record { number = w.fresh; id = j }) w.nodes;
  fresh = w.fresh + 1;
})

-- Both threads, in the order in which they act.
unfoldable pub act_all : List Action → Walk → Run Walk
unfolding act
act_all [] w = returned w
act_all (a ∷ rest) w = act a w >>= act_all rest
