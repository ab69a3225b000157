-- ===== src/Tests/Inputs.antt =====
-- A system that prints an address as four characters, whose sets answer every request and whose
-- processes end well, and a virtual server of ten addresses with two sessions on it.
use rahunas.Daemon.{Daemon}
use rahunas.Host.{Host, sent, exited}
use rahunas.Member.{Member, VMap, blank}
use rahunas.Prelude.{
  ℕ, ◌≡◌, refl, ◌<◌, not, ◌==◌, Bool, All, ◌+◌, ◌*◌, ◌/◌, ◌%◌, ◌^◌, true, ◌&&◌, List, [], ◌∷◌,
  Option, none, some, arith, ltb, if◌then◌else◌,
}
use rahunas.Session.Task.{rh_task_register}
use rahunas.Session.{TaskReq, VServer, Sess}
use rahunas.Text.{Bytes, codes}
use rahunas.Utils.Ip.RoundTrip.{InetLaws, IsRange}
use rahunas.Utils.Sep.Fields.{Without}

unfoldable pub toy_ntoa : ℕ → Bytes
toy_ntoa n = n / 2 ^ 24 ∷ n / 2 ^ 16 % 256 ∷ n / 256 % 256 ∷ n % 256 ∷ []

unfoldable pub toy_aton : Bytes → Option ℕ
toy_aton (a ∷ b ∷ c ∷ d ∷ []) =
    if ltb a 256 && ltb b 256 && ltb c 256 && ltb d 256
    then some (a * 2 ^ 24 + b * 2 ^ 16 + c * 256 + d)
    else none
toy_aton _ = none

pub toy_laws : InetLaws toy_aton toy_ntoa
unfolding toy_aton toy_ntoa
toy_laws = record { aton_lt = aton_lt; aton-ntoa = λ n h. ground arith }
  where
    aton_lt : (s : Bytes) (n : ℕ) → toy_aton s ≡ some n → n < 2 ^ 32
    aton_lt [] n e = cc
    aton_lt (a ∷ []) n e = cc
    aton_lt (a ∷ b ∷ []) n e = cc
    aton_lt (a ∷ b ∷ c ∷ []) n e = cc
    aton_lt (a ∷ b ∷ c ∷ d ∷ []) n e = ground arith
    aton_lt (a ∷ b ∷ c ∷ d ∷ x ∷ s) n e = cc

abbrev pub toy_host : Host
toy_host = record {
  trim = λ s. s;
  inet_aton = toy_aton;
  inet_ntoa = toy_ntoa;
  epoch = λ t. codes "0";
  time = λ log. 1000;
  random = λ log. 2 ^ 20;
  setsockopt = λ log. sent;
  child = λ log. exited 0 [];
  has_rows = λ log. true;
  connected = λ log. true;
  called = λ log. true;
}

abbrev pub alice : Member
alice = record b {
  id = 2;
  session_start = 900;
  username = some (codes "alice");
  session_id = some (codes "s1");
  serviceclass_description = some [];
  mapping_ip = some [];
  mac_address = 0 ∷ 1 ∷ 2 ∷ 3 ∷ 4 ∷ 5 ∷ [];
}
  where
    b : Member
    b = blank

abbrev pub bob : Member
bob = record b {
  id = 5;
  session_start = 950;
  username = some (codes "bob");
  session_id = some (codes "s2");
  serviceclass_description = some [];
  mapping_ip = some [];
  mac_address = 9 ∷ 9 ∷ 9 ∷ 9 ∷ 9 ∷ 9 ∷ [];
}
  where
    b : Member
    b = blank

-- From 10.0.0.1 to 10.0.0.10.
abbrev pub ten_addresses : VMap
ten_addresses = record {
  members = alice ∷ bob ∷ [];
  first_ip = 167772161;
  last_ip = 167772170;
  size = 10;
}

pub ten_addresses-IsRange : IsRange ten_addresses
ten_addresses-IsRange = record { last_lt = omega arith; ordered = omega arith; counted = refl }

abbrev pub hall : VServer
hall = record {
  vserver_name = codes "hall";
  vserver_id = 1;
  idle_timeout = 600;
  dev_internal = codes "eth1";
  dev_ifb = codes "ifb1";
  v_map = ten_addresses;
  v_set = some 3;
}

abbrev pub request : ℕ → TaskReq
request id = record {
  id = id;
  vserver_id = 1;
  username = codes "carol";
  session_id = codes "s3";
  mac_address = 7 ∷ 7 ∷ 7 ∷ 7 ∷ 7 ∷ 7 ∷ [];
  session_start = 0;
  session_timeout = 0;
  bandwidth_slot_id = 0;
  bandwidth_max_down = 0;
  bandwidth_max_up = 0;
  serviceclass_name = none;
  serviceclass_slot_id = 0;
  req_opt = 1;
}

-- Slot 0 is reserved.
abbrev pub on_hall : ℕ → Sess
on_hall id = record {
  log = [];
  vs = hall;
  req = request id;
  serviceclass_list = [];
  serviceclass_set = none;
  slot_flags = 1 ∷ 0 ∷ 0 ∷ 0 ∷ [];
  slot_count = 1;
}

abbrev pub running : Daemon
running = record {
  log = [];
  vserver_list = hall ∷ [];
  serviceclass_list = [];
  task_list = rh_task_register true true [];
  serviceclass_set = none;
  slot_flags = 1 ∷ 0 ∷ 0 ∷ 0 ∷ [];
  slot_count = 1;
}

-- Whether a text is free of a character, and whether all texts are.
unfoldable pub is_free : ℕ → Bytes → Bool
is_free sep [] = true
is_free sep (c ∷ cs) = not (c == sep) && is_free sep cs

unfoldable pub are_free : ℕ → List Bytes → Bool
are_free sep [] = true
are_free sep (f ∷ fs) = is_free sep f && are_free sep fs

pub is_free-Without : (sep : ℕ) (f : Bytes) → is_free sep f ≡ true → Without sep f
unfolding is_free
is_free-Without sep [] h = tt
is_free-Without sep (c ∷ cs) h = (ground arith, is_free-Without sep cs (ground arith))

pub are_free-All : (sep : ℕ) (fs : List Bytes) → are_free sep fs ≡ true → All (Without sep) fs
unfolding are_free
are_free-All sep [] h = tt
are_free-All sep (f ∷ fs) h =
    (is_free-Without sep f (ground arith), are_free-All sep fs (ground arith))
