-- ===== src/Tests/Texts.antt =====
-- Fields, addresses, hardware addresses and the order of the tasks.
use rahunas.Mac.RoundTrip.{parse_mac-mac_tostring}
use rahunas.Mac.{parse_mac, mac_tostring}
use rahunas.Prelude.{◌-◌, ◌≤◌, ◌<◌, ◌⊎◌, ◌≡◌, refl, inl, [], ◌∷◌, some, arith, ◌||◌, All}
use rahunas.Session.Task.Order.{IsOrdered, task_register-IsOrdered}
use rahunas.Session.Task.{Task, memset, dbset, ipset, find_task, task_register, same_task, taskprio}
use rahunas.Tests.Inputs.{
  toy_aton, toy_ntoa, toy_laws, ten_addresses, ten_addresses-IsRange, is_free, are_free,
  is_free-Without, are_free-All,
}
use rahunas.Text.{codes}
use rahunas.Utils.Ip.RoundTrip.{iptoid-idtoip, iptoid_cases}
use rahunas.Utils.Ip.{iptoid, idtoip, invalid_id}
use rahunas.Utils.Sep.Fields.{
  split, pick, rh_string_get_sep-pick, join, rh_string_get_sep-join, Without,
}
use rahunas.Utils.Sep.{str, overrun, rh_string_get_sep}

rh_string_get_sep-pick_example :
    rh_string_get_sep (λ s. s) (some (codes "a|b")) b'|' 3
    ≡ pick (λ s. s) (split b'|' (codes "a|b")).0 (split b'|' (codes "a|b")).1 2
rh_string_get_sep-pick_example = rh_string_get_sep-pick (λ s. s) b'|' 2 (codes "a|b") (omega arith)

behind_the_end : pick (λ s. s) (codes "a") (codes "b" ∷ []) 2 ≡ overrun
unfolding pick
behind_the_end = refl

bars_free : Without b'|' (codes "a") × All (Without b'|') (codes "b" ∷ codes "c" ∷ [])
unfolding is_free are_free
bars_free =
    (is_free-Without b'|' (codes "a") refl, are_free-All b'|' (codes "b" ∷ codes "c" ∷ []) refl)

rh_string_get_sep-join_example :
    rh_string_get_sep (λ s. s) (some (join b'|' (codes "a") (codes "b" ∷ codes "c" ∷ []))) b'|' 2
    ≡ str (codes "b")
rh_string_get_sep-join_example =
    rh_string_get_sep-join (λ s. s) b'|' 1 (codes "a") (codes "b" ∷ codes "c" ∷ []) (codes "b")
      (omega arith) bars_free.0 bars_free.1 (refl, inl (omega arith))

iptoid-idtoip_example :
    iptoid toy_aton (some ten_addresses) (some (idtoip toy_ntoa (some ten_addresses) 4)) ≡ 4
iptoid-idtoip_example =
    iptoid-idtoip toy_aton toy_ntoa toy_laws ten_addresses ten_addresses-IsRange 4 (omega arith)

at_third : toy_aton (10 ∷ 0 ∷ 0 ∷ 3 ∷ []) ≡ some 167772163
unfolding toy_aton
at_third = refl

iptoid_cases_example :
    (167772161 ≤ 167772163)
      × (167772163 ≤ 167772170)
      × (iptoid toy_aton (some ten_addresses) (some (10 ∷ 0 ∷ 0 ∷ 3 ∷ []))
          ≡ 167772163 - ten_addresses.first_ip)
      × (idtoip toy_ntoa (some ten_addresses) (167772163 - ten_addresses.first_ip)
          ≡ toy_ntoa 167772163)
    ⊎ (((167772163 < ten_addresses.first_ip) ⊎ (ten_addresses.last_ip < 167772163))
        × (iptoid toy_aton (some ten_addresses) (some (10 ∷ 0 ∷ 0 ∷ 3 ∷ [])) ≡ invalid_id))
iptoid_cases_example =
    iptoid_cases toy_aton toy_ntoa toy_laws ten_addresses ten_addresses-IsRange
      (10 ∷ 0 ∷ 0 ∷ 3 ∷ []) 167772163 at_third

parse_mac-mac_tostring_example :
    parse_mac (mac_tostring (0 ∷ 27 ∷ 68 ∷ 17 ∷ 58 ∷ 183 ∷ [])) (0 ∷ 0 ∷ 0 ∷ 0 ∷ 0 ∷ 0 ∷ [])
    ≡ 0 ∷ 27 ∷ 68 ∷ 17 ∷ 58 ∷ 183 ∷ []
parse_mac-mac_tostring_example =
    parse_mac-mac_tostring 0 27 68 17 58 183 (0 ∷ 0 ∷ 0 ∷ 0 ∷ 0 ∷ 0 ∷ [])
      (omega arith, (omega arith, (omega arith, (omega arith, (omega arith, (omega arith, tt))))))
      refl

two_tasks-IsOrdered : IsOrdered (memset ∷ dbset ∷ [])
unfolding taskprio find_task same_task
two_tasks-IsOrdered = ((omega arith, tt), refl, (tt, refl, tt))

task_register-IsOrdered_example :
    IsOrdered (task_register (memset ∷ dbset ∷ []) ipset)
    × ((u : Task)
        → find_task (task_register (memset ∷ dbset ∷ []) ipset) u
          ≡ (same_task ipset u || find_task (memset ∷ dbset ∷ []) u))
task_register-IsOrdered_example =
    task_register-IsOrdered (memset ∷ dbset ∷ []) ipset two_tasks-IsOrdered
