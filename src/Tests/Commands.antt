-- ===== src/Tests/Commands.antt =====
-- Commands on the daemon with one virtual server.
use rahunas.Daemon.{Daemon, vserver_get_by_id, leave}
use rahunas.Member.Ident.{map_ident}
use rahunas.Member.{member_get_node_by_id}
use rahunas.Prelude.{
  ℕ, suc, ◌≤◌, ◌<◌, All, length, ◌≡◌, refl, ◌≢◌, ◌⊎◌, inr, true, [], ◌∷◌, none, some, arith, ◌==◌,
  if◌then◌else◌,
}
use rahunas.Rpc.Params.{last_field, do_stopsession-join, do_startsession-overrun}
use rahunas.Rpc.Start.{requested_session, start_with-session_at}
use rahunas.Rpc.Stop.{
  Authorised, stopped, stop_with-Authorised, stop_with, removed_reply, do_stopsession,
}
use rahunas.Rpc.{StartParams, start_with, greet, do_startsession}
use rahunas.Session.{VServer}
use rahunas.Tests.Inputs.{
  toy_host, hall, request, running, ten_addresses, toy_aton, is_free, are_free, is_free-Without,
  are_free-All,
}
use rahunas.Text.{
  Bytes, codes, atoi, atol, skip_spaces, read_signed, read_digits, is_digit, is_space,
}
use rahunas.Utils.Ip.{iptoid}
use rahunas.Utils.Sep.{str, overrun, rh_string_get_sep}
use rahunas.Utils.Sep.Fields.{join, split, Without}

-- 10.0.0.3, of which the identifier is 2, and 10.0.0.8, which has no session.
abbrev third_address : Bytes
third_address = 10 ∷ 0 ∷ 0 ∷ 3 ∷ []

abbrev eighth_address : Bytes
eighth_address = 10 ∷ 0 ∷ 0 ∷ 8 ∷ []

stop_with-Authorised_example :
    ((stop_with toy_host
        (request 0)
        running
        (some third_address)
        (some (codes "00:01:02:03:04:05"))
        none
        (some (codes "1"))).0
      ≡ running)
    ⊎ ((a : Authorised toy_host running
          (some third_address)
          (some (codes "00:01:02:03:04:05"))
          (some (codes "1")))
        × (stop_with toy_host
              (request 0)
              running
              (some third_address)
              (some (codes "00:01:02:03:04:05"))
              none
              (some (codes "1"))
            ≡ (
              leave (atoi a.vserver_text) running (
                  stopped toy_host
                    (request 0)
                    running
                    (some third_address)
                    (some (codes "00:01:02:03:04:05"))
                    none
                    (some (codes "1"))
                    a),
              removed_reply toy_host
                  (stopped toy_host
                    (request 0)
                    running
                    (some third_address)
                    (some (codes "00:01:02:03:04:05"))
                    none
                    (some (codes "1"))
                    a).vs
                  (iptoid toy_host.inet_aton (some a.vs.v_map) (some a.ip_text)),
            )))
stop_with-Authorised_example =
    stop_with-Authorised toy_host (request 0) running (some third_address)
      (some (codes "00:01:02:03:04:05")) none (some (codes "1"))

-- User carol, with no limit and no service class.
abbrev carol : StartParams
carol = record {
  ip = some eighth_address;
  username = some (codes "carol");
  session_id = some (codes "s3");
  mac_address = some (codes "00:01:02:03:04:06");
  session_timeout = some (codes "60");
  bandwidth_max_down = none;
  bandwidth_max_up = none;
  serviceclass_name = none;
  vserver_id = some (codes "1");
}

hall_found : vserver_get_by_id running.vserver_list (atoi (codes "1")) ≡ some hall
unfolding vserver_get_by_id atoi atol skip_spaces read_signed read_digits is_digit is_space
hall_found = refl

nobody_there :
    member_get_node_by_id ten_addresses.members
      (iptoid toy_host.inet_aton (some ten_addresses) (some eighth_address))
    ≡ none
unfolding member_get_node_by_id iptoid toy_aton
nobody_there = refl

start_with-session_at_example :
    let id = iptoid toy_host.inet_aton (some ten_addresses) (some eighth_address) in
    (d' : Daemon) × (vs' : VServer) × (start_with toy_host 9
        (request 0)
        running
        carol
        (some eighth_address)
        (some (codes "carol"))
        (some (codes "s3"))
        (some (codes "1"))
      ≡ some (d', greet eighth_address (member_get_node_by_id vs'.v_map.members id)))
    × (vserver_get_by_id d'.vserver_list (atoi (codes "1")) ≡ some vs')
    × ((j : ℕ)
        → map_ident (member_get_node_by_id vs'.v_map.members j) ≡ (
            if id == j
            then some (requested_session toy_host running carol (codes "carol") (codes "s3") id)
            else map_ident (member_get_node_by_id ten_addresses.members j)))
start_with-session_at_example =
    start_with-session_at toy_host 9 (request 0) running carol eighth_address (codes "carol")
      (codes "s3") (codes "1") hall true true refl hall_found nobody_there (inr refl)
      (inr (refl, refl))

bars_free :
    Without b'|' third_address
    × All (Without b'|') (codes "00:01:02:03:04:05" ∷ codes "2" ∷ codes "1" ∷ [])
unfolding is_free are_free
bars_free = (
  is_free-Without b'|' third_address refl,
  are_free-All b'|' (codes "00:01:02:03:04:05" ∷ codes "2" ∷ codes "1" ∷ []) refl,
)

do_stopsession-join_example :
    do_stopsession toy_host
      (request 0)
      (some (join b'|' third_address (codes "00:01:02:03:04:05" ∷ codes "2" ∷ codes "1" ∷ [])))
      running
    ≡ some (
        stop_with toy_host
          (request 0)
          running
          (some third_address)
          (some (codes "00:01:02:03:04:05"))
          (some (codes "2"))
          (some (codes "1")))
do_stopsession-join_example =
    do_stopsession-join toy_host (request 0) running third_address (codes "00:01:02:03:04:05")
      (codes "2") (codes "1") bars_free.0 bars_free.1 (λ e. cc)

few_fields : length (split b'|' (codes "10|carol")).1 < 8
unfolding split
few_fields = omega arith

carol_last : last_field (split b'|' (codes "10|carol")).0 (split b'|' (codes "10|carol")).1 ≢ []
unfolding split
carol_last e = cc

do_startsession-overrun_example :
    ((k : ℕ)
      → k ≤ 1
      → (x : Bytes) × (rh_string_get_sep toy_host.trim (some (codes "10|carol")) b'|' (suc k)
          ≡ str x))
    × (rh_string_get_sep toy_host.trim (some (codes "10|carol")) b'|' 3 ≡ overrun)
    × (do_startsession toy_host 9 (request 0) (some (codes "10|carol")) running ≡ none)
unfolding split
do_startsession-overrun_example =
    do_startsession-overrun toy_host 9 (request 0) running (codes "10|carol") few_fields carol_last
