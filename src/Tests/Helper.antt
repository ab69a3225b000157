-- ===== src/Tests/Helper.antt =====
-- The Squid helper with two networks, on a line with an address of the second.
use rahunas.Prelude.{◌≡◌, ◌≢◌, refl, true, List, [], ◌∷◌, All, none, some, arith}
use rahunas.Rpc.Info.{session_info}
use rahunas.Squid.Lookup.{IsNetwork, first_containing, covers}
use rahunas.Squid.Reply.{answer-username}
use rahunas.Squid.{VserverInfo, Client, no_vserver, ok_user, answer, second_token, strtok, skip_sep}
use rahunas.Tests.Inputs.{alice, is_free, is_free-Without}
use rahunas.Text.{Bytes, codes}
use rahunas.Utils.Sep.Fields.{Without}
use rahunas.Utils.Sep.{find_sep}

abbrev networks : List VserverInfo
networks =
    (record { id = 2; net_ip = 167837696; mask = 16 })
    ∷ (record { id = 1; net_ip = 167772160; mask = 28 })
    ∷ []

networks-IsNetwork : All IsNetwork networks
networks-IsNetwork = (
  record { some_length = omega arith; fits = omega arith; aligned = refl },
  (record { some_length = omega arith; fits = omega arith; aligned = refl }, tt),
)

abbrev asked_line : Bytes
asked_line = codes "10.0.0.3"

abbrev toy_rpc : Client
toy_rpc = record {
  client = true;
  getsessioninfo = λ q. some (session_info asked_line (codes "alice") (codes "s1") alice);
}

in_hall : first_containing 167772163 networks ≡ 1
unfolding first_containing covers
in_hall = refl

hall_numbered : first_containing 167772163 networks ≢ no_vserver
hall_numbered e = let one = in_hall in absurd (omega arith)

fields_free : Without b'|' asked_line × Without b'|' (codes "alice")
unfolding is_free
fields_free = (is_free-Without b'|' asked_line refl, is_free-Without b'|' (codes "alice") refl)

answer-username_example :
    answer (λ line. some 167772163) networks toy_rpc asked_line ≡ some (ok_user (codes "alice"))
answer-username_example =
    answer-username (λ line. some 167772163) networks toy_rpc asked_line 167772163 asked_line
      (codes "alice") (codes "s1") alice networks-IsNetwork refl hall_numbered refl refl (λ e. cc)
      (λ e. cc) fields_free.0 fields_free.1

-- The answer for an address without a session has one field.
no_second_token : second_token (codes "10.0.0.3") ≡ none
unfolding second_token strtok skip_sep find_sep
no_second_token = refl
