-- ===== src/Squid/Reply.antt =====
-- What the helper makes of the answer of the daemon.
use rahunas.Member.{Member}
use rahunas.Prelude.{
  ℕ, ◌≡◌, ◌≢◌, refl, ap, ◌∙◌, true, false, List, [], ◌∷◌, ◌++◌, Option, some, arith, All, ◌==◌,
  ==_refl, if◌then◌else◌, length, take,
}
use rahunas.Rpc.Info.{session_info}
use rahunas.Session.Dbset.{pieces}
use rahunas.Squid.Lookup.{IsNetwork, first_containing, find_vserver-first_containing}
use rahunas.Squid.{
  VserverInfo, Client, no_vserver, without_newline, ok_user, query, ask_user, second_token, strtok,
  skip_sep, answer, answer_line, char_at,
}
use rahunas.Text.{Bytes}
use rahunas.Utils.Sep.Fields.{Without}
use rahunas.Utils.Sep.{find_sep}

at_end : (line : Bytes) → char_at line (length line) ≡ 0
at_end [] = refl
at_end (c ∷ cs) = at_end cs

-- The newline is never found.
pub without_newline_lem : (line : Bytes) → without_newline line ≡ line
unfolding without_newline
without_newline_lem line = ap (λ c. if c == 10 then take (length line) line else line) (at_end line)

-- A token that a separator ends.
find_sep-field :
    (sep : ℕ) (f rest : Bytes) → Without sep f → find_sep sep (f ++ (sep ∷ rest)) ≡ (f, some rest)
unfolding find_sep
find_sep-field sep [] rest w = rw (==_refl sep) refl
find_sep-field sep (c ∷ f) rest w = ground (arith, find_sep-field sep f rest w.1)

strtok-field :
    (sep : ℕ) (f rest : Bytes)
    → f ≢ []
    → Without sep f
    → strtok sep (f ++ (sep ∷ rest)) ≡ some (f, rest)
unfolding strtok skip_sep
strtok-field sep [] rest ne w = absurd (ne refl)
strtok-field sep (c ∷ f) rest ne w =
    let other : (c == sep) ≡ false = let a = w.0 in ground arith in
    rw (other, skip_sep, strtok, find_sep-field sep (c ∷ f) rest w) refl

second_token-fields :
    (f g rest : Bytes)
    → f ≢ []
    → g ≢ []
    → Without b'|' f
    → Without b'|' g
    → second_token (f ++ (b'|' ∷ (g ++ (b'|' ∷ rest)))) ≡ some g
unfolding second_token
second_token-fields f g rest nf ng wf wg =
    rw (strtok-field b'|' f (g ++ (b'|' ∷ rest)) nf wf, strtok-field b'|' g rest ng wg) refl

session_info-second_token :
    (ip username session_id : Bytes) (m : Member)
    → ip ≢ []
    → username ≢ []
    → Without b'|' ip
    → Without b'|' username
    → second_token (session_info ip username session_id m) ≡ some username
unfolding session_info pieces
session_info-second_token ip username session_id m ni nu wi wu =
    second_token-fields ip username _ ni nu wi wu

-- Where every network has a length from 1 to 32 and no bits behind it, a line with an address that is
-- in a network, of which the first has the number of a virtual server, is answered with the user of
-- the session that the daemon describes for it, if a client can be made, and neither the address in
-- the description nor the name is empty or has a bar in it.
pub answer-username :
    (inet_aton : Bytes → Option ℕ) (vservers : List VserverInfo) (rpc : Client) (line : Bytes)
    (src_ip : ℕ) (ip username session_id : Bytes) (m : Member)
    → All IsNetwork vservers
    → inet_aton line ≡ some src_ip
    → first_containing src_ip vservers ≢ no_vserver
    → rpc.client ≡ true
    → rpc.getsessioninfo (query line (first_containing src_ip vservers))
      ≡ some (session_info ip username session_id m)
    → ip ≢ []
    → username ≢ []
    → Without b'|' ip
    → Without b'|' username
    → answer inet_aton vservers rpc line ≡ some (ok_user username)
unfolding answer answer_line ask_user
answer-username inet_aton vservers rpc line src_ip ip username session_id m nets read known made
      told ni nu wi wu =
    let found : (first_containing src_ip vservers == no_vserver) ≡ false = ground arith in
    ap (answer_line inet_aton vservers rpc) (without_newline_lem line)
    ∙ rw
        (
          read,
          answer_line,
          find_vserver-first_containing src_ip vservers nets,
          found,
          made,
          told,
          session_info-second_token ip username session_id m ni nu wi wu,
        )
        refl
