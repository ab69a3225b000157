-- ===== src/Tests/Polls.antt =====
-- A poll of two servers. The set of the first lists two sessions, of which one was idle for too long.
use rahunas.Member.{member_get_node_by_id}
use rahunas.Host.{Event}
use rahunas.Prelude.{arith, ◌≡◌, refl, true, List, [], ◌∷◌}
use rahunas.Server.Poll.Sessions.{Pollable, Timed, Polls, polling_service-Polls}
use rahunas.Server.Poll.{polling_service}
use rahunas.Server.Run.{returned}
use rahunas.Server.Sets.{
  SetHost, Listing, read_listing, load_set_list, load_tries, load_try, answered,
}
use rahunas.Server.Stopping.{World}
use rahunas.Server.{Server, Shared, pointed}
use rahunas.Tests.Worlds.{toy_listing, toy_world, two_members, hall_server, shared}
use rahunas.Text.{Bytes, codes, strcmp_eq}

abbrev busy_listing : Listing
busy_listing = record toy_listing {
  entries =
      (record { ip = 167772163; ethernet = 0 ∷ 1 ∷ 2 ∷ 3 ∷ 4 ∷ 5 ∷ []; timestamp = 100 })
      ∷ (record { ip = 167772166; ethernet = 9 ∷ 9 ∷ 9 ∷ 9 ∷ 9 ∷ 9 ∷ []; timestamp = 999 })
      ∷ [];
}

abbrev busy_world : World
busy_world = record toy_world { kernel = record k { listing = λ log. answered true busy_listing } }
  where
    k : SetHost
    k = toy_world.kernel

hall-Pollable : Pollable shared.interfaces_list (hall_server 4)
unfolding pointed strcmp_eq member_get_node_by_id
hall-Pollable = record {
  map = two_members;
  mapped = refl;
  distinct = (refl, (refl, tt));
  limit = omega arith;
  endings = (omega arith, (omega arith, tt));
  device = codes "ifb0";
  named = refl;
  iface = record { dev_internal = codes "eth1"; dev_ifb = codes "ifb0"; hit = 1; init = 1 };
  found = refl;
}

busy-Timed : (name : Bytes) (log : List Event) → Timed (read_listing busy_world.kernel name log).1
unfolding read_listing load_set_list load_tries load_try
busy-Timed name log = (omega arith, (omega arith, tt))

polling_service-Polls_example :
    (n : Shared) × (vs : List Server) × (polling_service busy_world shared
        (hall_server 4 ∷ hall_server 4 ∷ [])
      ≡ returned (n, vs))
    × Polls busy_world 1000 shared (hall_server 4 ∷ hall_server 4 ∷ []) vs
polling_service-Polls_example =
    polling_service-Polls busy_world true true 1000 (λ log. refl) (omega arith) shared
      (hall_server 4 ∷ hall_server 4 ∷ []) refl busy-Timed (hall-Pollable, (hall-Pollable, tt))
