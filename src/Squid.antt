-- ===== src/Squid.antt =====
-- tools/squid-auth-helper.c: a program beside the daemon, which tells the Squid proxy the user of an
-- address. What the daemon answers is an argument.
pub mod Servers
pub mod Lookup
pub mod Reply
use rahunas.Prelude.{
  ℕ, zero, suc, ◌+◌, ◌-◌, ◌%◌, ◌^◌, Bool, true, false, ◌||◌, List, [], ◌∷◌, ◌++◌, Option, none,
  some, length, get_elem?, take, ltb, ◌==◌, if◌then◌else◌, ◌>>=◌,
}
use rahunas.Session.Dbset.{show_s, pieces}
use rahunas.Text.{Bytes, codes, strcmp_eq, atoi, show_d}
use rahunas.Utils.Sep.{find_sep}

pub record VserverInfo : Type 0 where
  pub id : ℕ
  pub net_ip : ℕ
  pub mask : ℕ

-- `~0`, which no server may have as its number.
abbrev pub no_vserver : ℕ
no_vserver = 2 ^ 32 - 1

-- Whether the address is in the network; a shift by 32 or more, or by less than 0, is undefined.
unfoldable pub in_network : ℕ → VserverInfo → Option Bool
in_network src_ip info =
    if info.mask == 0 || ltb 32 info.mask
    then none
    else some (src_ip - src_ip % 2 ^ (32 - info.mask) == info.net_ip)

unfoldable pub find_vserver : ℕ → List VserverInfo → Option ℕ
unfolding in_network
find_vserver src_ip [] = some no_vserver
find_vserver src_ip (info ∷ vs) =
    let rest = find_vserver src_ip vs in
    elim (in_network src_ip info) [ none ↦ none | some hit ↦ if hit then some info.id else rest ]

-- `line[i]`, with the NUL at the end.
abbrev pub char_at : Bytes → ℕ → ℕ
char_at line i = elim (get_elem? line i) [ none ↦ 0 | some c ↦ c ]

-- The newline is looked for at `line[strlen (line)]`.
unfoldable pub without_newline : Bytes → Bytes
without_newline line =
    let len = length line in if char_at line len == 10 then take len line else line

-- The line that is printed for a user.
abbrev pub ok_user : Bytes → Bytes
ok_user user = codes "OK user=" ++ user ++ (10 ∷ [])

-- `strtok`: the next token and what is left behind it.
unfoldable pub skip_sep : ℕ → Bytes → Bytes
skip_sep sep [] = []
skip_sep sep (c ∷ cs) = let rest = skip_sep sep cs in if c == sep then rest else c ∷ cs

abbrev rest_of : Option Bytes → Bytes
rest_of none = []
rest_of (some rest) = rest

unfoldable pub strtok : ℕ → Bytes → Option (Bytes × Bytes)
unfolding skip_sep
strtok sep s = elim (skip_sep sep s) [
  | [] ↦ none
  | c ∷ cs ↦ some ((find_sep sep (c ∷ cs)).0, rest_of (find_sep sep (c ∷ cs)).1)
]

unfoldable pub second_token : Bytes → Option Bytes
unfolding strtok
second_token reply = do first ← strtok b'|' reply; second ← strtok b'|' first.1; some second.0

-- The daemon, for one line: whether a client is made, and what the call gives.
pub record Client : Type 0 where
  pub client : Bool
  pub getsessioninfo : Bytes → Option Bytes

-- `query` has 32 bytes.
unfoldable pub query : Bytes → ℕ → Bytes
query line vserver_id = take 31 (pieces (line ∷ codes "|" ∷ show_d vserver_id ∷ []))

unfoldable pub ask_user : Client → Bytes → ℕ → Bytes
unfolding query second_token
ask_user rpc line vserver_id =
    if rpc.client
    then elim (rpc.getsessioninfo (query line vserver_id)) [
      | none ↦ ok_user line
      | some reply ↦ ok_user (show_s (second_token reply))
    ]
    else ok_user line

-- What is printed for a line; none where a shift is undefined.
unfoldable pub answer_line : (Bytes → Option ℕ) → List VserverInfo → Client → Bytes → Option Bytes
unfolding find_vserver ask_user
answer_line inet_aton vservers rpc line = elim (inet_aton line) [
  | none ↦ some (ok_user line)
  | some src_ip ↦ elim (find_vserver src_ip vservers) [
    | none ↦ none
    | some vserver_id ↦
        some (if vserver_id == no_vserver then ok_user line else ask_user rpc line vserver_id)
  ]
]

unfoldable pub answer : (Bytes → Option ℕ) → List VserverInfo → Client → Bytes → Option Bytes
unfolding without_newline answer_line
answer inet_aton vservers rpc input = answer_line inet_aton vservers rpc (without_newline input)
