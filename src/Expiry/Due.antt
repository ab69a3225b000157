-- ===== src/Expiry/Due.antt =====
-- When a session is due.
use rahunas.Expiry.{SetEntry, get_data_from_set, cause_of}
use rahunas.Member.{Member}
use rahunas.Prelude.{ℕ, ◌≡◌, refl, List, Option, none, some}
use rahunas.Session.Keeps.{SameServer}
use rahunas.Session.{Sess}

-- The cause to stop a session for at a time: it has an entry in the set, and was idle for longer than
-- the limit, or is past its end.
unfoldable pub verdict : ℕ → List SetEntry → Sess → Member → Option ℕ
verdict now list s i = elim (get_data_from_set list i.id s.vs.v_map.first_ip) [
  | none ↦ none
  | some d ↦ cause_of now s.vs.idle_timeout d i.session_timeout
]

unfoldable pub spared : Option ℕ → Member → Option Member
spared none i = some i
spared (some cause) i = none

-- What is left of a session.
unfoldable pub after : ℕ → List SetEntry → Sess → Option Member → Option Member
after now list s none = none
after now list s (some i) = spared (verdict now list s i) i

pub verdict-SameServer :
    (now : ℕ) (list : List SetEntry) (s u : Sess) (i : Member)
    → SameServer s u
    → verdict now list u i ≡ verdict now list s i
unfolding verdict
verdict-SameServer now list s u i same = rw (same.first_ip, same.idle) refl
