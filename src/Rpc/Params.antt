-- ===== src/Rpc/Params.antt =====
-- What the commands make of their parameter texts.
use rahunas.Daemon.{Daemon}
use rahunas.Host.{Host}
use rahunas.Prelude.{
  ℕ, zero, suc, ◌<◌, ◌≤◌, ◌≡◌, refl, ◌≢◌, ◌∙◌, ap, List, [], ◌∷◌, Option, none, some, arith, All,
  length, ◌>>=◌, inl, inr,
}
use rahunas.Rpc.Stop.{stop_with, do_stopsession}
use rahunas.Rpc.Info.{info_with, do_getsessioninfo}
use rahunas.Rpc.{fetch, param_field, StartParams, start_with, do_startsession}
use rahunas.Session.{TaskReq}
use rahunas.Text.{Bytes}
use rahunas.Utils.Sep.Fields.{
  join, Without, Found, rh_string_get_sep-join, rh_string_get_sep-pick, pick, split,
}
use rahunas.Utils.Sep.{str, overrun, rh_string_get_sep}

-- A field that is there is handed on trimmed.
pub param_field-join :
    (h : Host) (i : ℕ) (f : Bytes) (fs : List Bytes) (x : Bytes)
    → suc i < 65536
    → Without b'|' f
    → All (Without b'|') fs
    → Found f fs i x
    → param_field h (join b'|' f fs) (suc i) ≡ some (some (h.trim x))
unfolding param_field
param_field-join h i f fs x small w ws found =
    ap fetch (rh_string_get_sep-join h.trim b'|' i f fs x small w ws found)

bind_none {ℓ κ} :
    {A : Type ℓ} {B : Type κ} (o : Option A) (f : A → Option B)
    → ((a : A) → f a ≡ none)
    → (o >>= f) ≡ none
bind_none none f h = refl
bind_none (some a) f h = h a

-- The command that stops a session reads its four parameters, each trimmed, where the last is not
-- empty and none has a bar in it.
pub do_stopsession-join :
    (h : Host) (stack : TaskReq) (d : Daemon) (ip mac cause vserver_id : Bytes)
    → Without b'|' ip
    → All (Without b'|') (mac ∷ cause ∷ vserver_id ∷ [])
    → vserver_id ≢ []
    → do_stopsession h stack (some (join b'|' ip (mac ∷ cause ∷ vserver_id ∷ []))) d
      ≡ some (
          stop_with h stack d
            (some (h.trim ip))
            (some (h.trim mac))
            (some (h.trim cause))
            (some (h.trim vserver_id)))
unfolding do_stopsession
do_stopsession-join h stack d ip mac cause vid w ws ne =
    let fs = mac ∷ cause ∷ vid ∷ [] in
    rw (
      param_field-join h 0 ip fs ip (omega arith) w ws (refl, inl (omega arith)),
      param_field-join h 1 ip fs mac (omega arith) w ws (refl, inl (omega arith)),
      param_field-join h 2 ip fs cause (omega arith) w ws (refl, inl (omega arith)),
      param_field-join h 3 ip fs vid (omega arith) w ws (refl, inr ne),
    )

-- The command that asks for a session reads its two parameters, each trimmed, where the last is not
-- empty and none has a bar in it.
pub do_getsessioninfo-join :
    (h : Host) (d : Daemon) (ip vserver_id : Bytes)
    → Without b'|' ip
    → Without b'|' vserver_id
    → vserver_id ≢ []
    → do_getsessioninfo h (some (join b'|' ip (vserver_id ∷ []))) d
      ≡ some (info_with h d (some (h.trim ip)) (some (h.trim vserver_id)))
unfolding do_getsessioninfo
do_getsessioninfo-join h d ip vid w w' ne =
    let fs = vid ∷ [] in
    rw (
      param_field-join h 0 ip fs ip (omega arith) w (w', tt) (refl, inl (omega arith)),
      param_field-join h 1 ip fs vid (omega arith) w (w', tt) (refl, inr ne),
    )

-- The parameters of the command that starts a session, as it hands them on.
abbrev pub params :
    Host → Bytes → Bytes → Bytes → Bytes → Bytes → Bytes → Bytes → Bytes → Bytes → StartParams
params h ip username session_id mac timeout down up class vserver_id = record {
  ip = some (h.trim ip);
  username = some (h.trim username);
  session_id = some (h.trim session_id);
  mac_address = some (h.trim mac);
  session_timeout = some (h.trim timeout);
  bandwidth_max_down = some (h.trim down);
  bandwidth_max_up = some (h.trim up);
  serviceclass_name = some (h.trim class);
  vserver_id = some (h.trim vserver_id);
}

-- The command that starts a session reads its nine parameters, each trimmed, where the last is not
-- empty and none has a bar in it.
pub do_startsession-join :
    (h : Host) (fuel : ℕ) (stack : TaskReq) (d : Daemon)
    (ip username session_id mac timeout down up class vserver_id : Bytes)
    → Without b'|' ip
    → All
        (Without b'|')
        (username ∷ session_id ∷ mac ∷ timeout ∷ down ∷ up ∷ class ∷ vserver_id ∷ [])
    → vserver_id ≢ []
    → do_startsession h fuel stack
        (some (
          join b'|' ip
            (username ∷ session_id ∷ mac ∷ timeout ∷ down ∷ up ∷ class ∷ vserver_id ∷ [])))
        d
      ≡ start_with h fuel stack d
          (params h ip username session_id mac timeout down up class vserver_id)
          (some (h.trim ip))
          (some (h.trim username))
          (some (h.trim session_id))
          (some (h.trim vserver_id))
unfolding do_startsession
do_startsession-join h fuel stack d ip user sid mac timeout down up class vid w ws ne =
    let fs = user ∷ sid ∷ mac ∷ timeout ∷ down ∷ up ∷ class ∷ vid ∷ [] in
    rw (
      param_field-join h 0 ip fs ip (omega arith) w ws (refl, inl (omega arith)),
      param_field-join h 1 ip fs user (omega arith) w ws (refl, inl (omega arith)),
      param_field-join h 2 ip fs sid (omega arith) w ws (refl, inl (omega arith)),
      param_field-join h 3 ip fs mac (omega arith) w ws (refl, inl (omega arith)),
      param_field-join h 4 ip fs timeout (omega arith) w ws (refl, inl (omega arith)),
      param_field-join h 5 ip fs down (omega arith) w ws (refl, inl (omega arith)),
      param_field-join h 6 ip fs up (omega arith) w ws (refl, inl (omega arith)),
      param_field-join h 7 ip fs class (omega arith) w ws (refl, inl (omega arith)),
      param_field-join h 8 ip fs vid (omega arith) w ws (refl, inr ne),
    )

abbrev pub last_field : Bytes → List Bytes → Bytes
last_field f [] = f
last_field f (g ∷ fs) = last_field g fs

pick-overrun :
    (trim : Bytes → Bytes) (f : Bytes) (fs : List Bytes) (i : ℕ)
    → length fs < i
    → last_field f fs ≢ []
    → pick trim f fs i ≡ overrun
unfolding pick
pick-overrun trim [] [] i h ne = absurd (ne refl)
pick-overrun trim (c ∷ f) [] zero h ne = absurd (omega arith)
pick-overrun trim (c ∷ f) [] (suc i) h ne = refl
pick-overrun trim f (g ∷ fs) zero h ne = absurd (omega arith)
pick-overrun trim f (g ∷ fs) (suc i) h ne = pick-overrun trim g fs i (omega arith) ne

pick-read :
    (trim : Bytes → Bytes) (f : Bytes) (fs : List Bytes) (i : ℕ)
    → i ≤ length fs
    → last_field f fs ≢ []
    → (x : Bytes) × (pick trim f fs i ≡ str x)
unfolding pick
pick-read trim [] [] i h ne = absurd (ne refl)
pick-read trim (c ∷ f) [] zero h ne = (trim (c ∷ f), refl)
pick-read trim (c ∷ f) [] (suc i) h ne = absurd (omega arith)
pick-read trim f (g ∷ fs) zero h ne = (trim f, refl)
pick-read trim f (g ∷ fs) (suc i) h ne = pick-read trim g fs i (omega arith) ne

no_result :
    (h : Host) (fuel : ℕ) (stack : TaskReq) (d : Daemon) (param : Bytes)
    → length (split b'|' param).1 < 8
    → last_field (split b'|' param).0 (split b'|' param).1 ≢ []
    → do_startsession h fuel stack (some param) d ≡ none
unfolding do_startsession
no_result h fuel stack d param few ne =
    let ninth : param_field h param 9 ≡ none =
      unfold param_field in
      ap fetch (
        rh_string_get_sep-pick h.trim b'|' 8 param (omega arith)
        ∙ pick-overrun h.trim _ _ 8 few ne) in
    bind_none (param_field h param 1) _ λ a1. bind_none (param_field h param 2) _ λ a2.
      bind_none (param_field h param 3) _ λ a3. bind_none (param_field h param 4) _ λ a4.
        bind_none (param_field h param 5) _ λ a5. bind_none (param_field h param 6) _ λ a6.
          bind_none (param_field h param 7) _
            λ a7. bind_none (param_field h param 8) _ λ a8. rw ninth

-- The command that starts a session fetches nine fields, one after the other. On a text of fewer than
-- nine fields, of which the last is not empty, the fetches of all fields that there are come back
-- with a text, and the next one, which is one of the nine, reads behind the end of the text. The
-- command has no result then.
pub do_startsession-overrun :
    (h : Host) (fuel : ℕ) (stack : TaskReq) (d : Daemon) (param : Bytes)
    → length (split b'|' param).1 < 8
    → last_field (split b'|' param).0 (split b'|' param).1 ≢ []
    → ((k : ℕ)
        → k ≤ length (split b'|' param).1
        → (x : Bytes) × (rh_string_get_sep h.trim (some param) b'|' (suc k) ≡ str x))
      × (rh_string_get_sep h.trim (some param) b'|' (suc (suc (length (split b'|' param).1)))
          ≡ overrun)
      × (do_startsession h fuel stack (some param) d ≡ none)
do_startsession-overrun h fuel stack d param few ne = (
  λ k l.
      let (x, e) = pick-read h.trim _ _ k l ne in
      (x, rh_string_get_sep-pick h.trim b'|' k param (omega arith) ∙ e),
  rh_string_get_sep-pick h.trim b'|' _ param (omega arith)
      ∙ pick-overrun h.trim _ _ _ (omega arith) ne,
  no_result h fuel stack d param few ne,
)
