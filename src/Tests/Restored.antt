-- ===== src/Tests/Restored.antt =====
-- A virtual server whose sessions are restored from two rows, of which one is its own.
use rahunas.Prelude.{List, ◌≡◌, refl, true, false, inr, [], ◌∷◌, some, arith}
use rahunas.Server.Restore.Returning.{restore_set-returns}
use rahunas.Server.Restore.Starting.{table, restored, Holds}
use rahunas.Server.Restore.{DbsetRow, restore_set}
use rahunas.Utils.Ip.{iptoid}
use rahunas.Server.Run.{returned}
use rahunas.Server.{Site, Shared}
use rahunas.Session.Task.{rh_task_register}
use rahunas.Tests.Inputs.{toy_host, request}
use rahunas.Text.{Bytes, codes}
use rahunas.Tests.Worlds.{blank_row, two_members, hall_server, shared}

-- The tasks of a daemon without service classes.
abbrev without_classes : Site
without_classes = record { vs = hall_server 1; ms = m }
  where
    m : Shared
    m = record shared { task_list = rh_task_register false true [] }

abbrev kept_row : Bytes → DbsetRow
kept_row number = record blank_row {
  vserver_id = number;
  username = codes "carol";
  ip = codes "10.0.0.5";
  session_start = 5;
}

abbrev kept_rows : List DbsetRow
kept_rows = kept_row (codes "1") ∷ kept_row (codes "2") ∷ []

restore_set-returns_example :
    (v : Site) × (restore_set toy_host 9 kept_rows (request 0) without_classes ≡ returned v)
    × Holds two_members
        (restored 1
          (λ ip. iptoid toy_host.inet_aton (some two_members) (some ip))
          kept_rows
          (0 ∷ 0 ∷ 0 ∷ 0 ∷ 0 ∷ 0 ∷ [])
          (table two_members))
        v
restore_set-returns_example =
    restore_set-returns toy_host 9 true two_members kept_rows (request 0) without_classes refl refl
      ((λ e. omega arith, inr (refl, refl)), ((λ e. omega arith, inr (refl, refl)), tt))
