-- ===== src/Tests/Walks.antt =====
-- A walk over three members, of which the first is stopped by the walk, while a fourth comes in.
use rahunas.Daemon.Walk.Races.{Spares, act_all-returns, act_all-dangling}
use rahunas.Daemon.Walk.Nodes.{Numbered}
use rahunas.Daemon.Walk.Visited.{has, act_all-visited}
use rahunas.Daemon.Walk.{
  Node, Walk, Action, visits, removes, inserts, node_at, remove_id, insert_at, started_walk,
  visit_at, visit, act, act_all,
}
use rahunas.Prelude.{◌≡◌, refl, true, List, [], ◌∷◌, none, some, arith}
use rahunas.Server.Run.{returned, faults}

abbrev three_nodes : List Node
three_nodes =
    (record { number = 0; id = 2 })
    ∷ (record { number = 1; id = 5 })
    ∷ (record { number = 2; id = 7 })
    ∷ []

abbrev busy : List Action
busy = visits ∷ removes 2 ∷ inserts 2 9 ∷ visits ∷ visits ∷ visits ∷ []

abbrev ended : Walk
ended = record {
  nodes =
      (record { number = 1; id = 5 })
      ∷ (record { number = 2; id = 7 })
      ∷ (record { number = 3; id = 9 })
      ∷ [];
  runner = none;
  visited = 3 ∷ 2 ∷ 1 ∷ 0 ∷ [];
  fresh = 4;
}

three_nodes-Numbered : Numbered 3 three_nodes
three_nodes-Numbered = (omega arith, (refl, (omega arith, (refl, (omega arith, (refl, tt))))))

busy_ends : act_all busy (started_walk three_nodes 3) ≡ returned ended
unfolding act_all act visit visit_at node_at remove_id insert_at started_walk
busy_ends = refl

busy-Spares : Spares busy (started_walk three_nodes 3)
unfolding act visit visit_at node_at remove_id insert_at started_walk
busy-Spares = (refl, (refl, (refl, (refl, (refl, (refl, tt))))))

act_all-returns_example : (w : Walk) × (act_all busy (started_walk three_nodes 3) ≡ returned w)
act_all-returns_example = act_all-returns busy three_nodes 3 three_nodes-Numbered busy-Spares

act_all-visited_example : has 2 ended.visited ≡ true
act_all-visited_example =
    act_all-visited busy three_nodes 3 2 ended three_nodes-Numbered busy_ends refl refl refl

-- The second member logs out between the first visit and the second.
abbrev after_first : Walk
after_first = record { nodes = three_nodes; runner = some 1; visited = 0 ∷ []; fresh = 3 }

act_all-dangling_example : act_all (removes 5 ∷ visits ∷ []) after_first ≡ faults
act_all-dangling_example =
    act_all-dangling after_first 1 5 [] three_nodes-Numbered (refl, (refl, (refl, tt))) refl refl
      refl
