-- ===== src/Daemon/Steps/Ended.antt =====
-- Which steps of the two threads may end a session.
use mathlib.Core.Option.{some-injective}
use rahunas.Daemon.Steps.Commands.{with_field}
use rahunas.Daemon.Steps.Owned.{Owned}
use rahunas.Daemon.Steps.Sessions.{
  session_of, session_on, Lasting, start_for-Lasting, stopped-others,
}
use rahunas.Daemon.Steps.{Step, starts, stops, expires, asks, expire_stop}
use rahunas.Daemon.{Daemon, vserver_get_by_id, enter, leave}
use rahunas.Host.{Host}
use rahunas.Mac.{parse_mac}
use rahunas.Member.{Member, member_get_node_by_id}
use rahunas.Prelude.{
  ℕ, ◌≡◌, refl, sym, ap, ◌∙◌, ◌⊎◌, inl, inr, Bool, true, false, List, [], Option, none, some, arith,
  OnSome, ◌==◌, if◌then◌else◌, ◌>>=◌,
}
use rahunas.Rpc.Stop.{do_stopsession, stop_with, stop_with-Authorised, Authorised}
use rahunas.Rpc.{StartParams, start_with, param_field, or_default, zero_mac, do_startsession}
use rahunas.Session.Task.{rh_task_register, rh_task_stopsess}
use rahunas.Session.{VServer, TaskReq}
use rahunas.Text.{Bytes, atoi}
use rahunas.Utils.Ip.{iptoid}

-- A stop command that names a session, by its virtual server, its address and its hardware address.
pub record Names (h : Host) (param : Option Bytes) (d : Daemon) (v j : ℕ) (i : Member)
    : Type 0 where
  pub text : Bytes
  pub given : param ≡ some text
  pub ip : Option Bytes
  pub mac : Option Bytes
  pub vserver_id : Option Bytes
  pub read_ip : param_field h text 1 ≡ some ip
  pub read_mac : param_field h text 2 ≡ some mac
  pub read_server : param_field h text 4 ≡ some vserver_id
  pub authorised : Authorised h d ip mac vserver_id
  pub number : atoi authorised.vserver_text ≡ v
  pub identifier : iptoid h.inet_aton (some authorised.vs.v_map) (some authorised.ip_text) ≡ j
  pub same_mac : i.mac_address ≡ parse_mac (or_default mac) zero_mac

-- What a step must be to end a session.
abbrev pub Ends : (d e : Daemon) → Step d e → ℕ → ℕ → Member → Type 0
Ends d e (starts h fuel stack param reply range r) v j i = ⊥
Ends d e (stops h stack param reply r) v j i = Names h param d v j i
Ends d e (expires h stack id mac cause vserver_id vs found limit r) v j i =
    (vserver_id ≡ v) × (id ≡ j)
Ends d e (asks event r) v j i = ⊥

start_with-Lasting :
    (h : Host) (fuel : ℕ) (stack : TaskReq) (d : Daemon) (p : StartParams)
    (ip username session_id vserver_id : Option Bytes) (use_serviceclass bandwidth_shape : Bool)
    → d.task_list ≡ rh_task_register use_serviceclass bandwidth_shape []
    → OnSome (λ r. Lasting d r.0) (start_with h fuel stack d p ip username session_id vserver_id)
unfolding start_with
start_with-Lasting h fuel stack d p none username session_id vserver_id sc bw tasks = λ w j i x. x
start_with-Lasting h fuel stack d p (some ip) none session_id vserver_id sc bw tasks = λ w j i x. x
start_with-Lasting h fuel stack d p (some ip) (some username) none vserver_id sc bw tasks =
    λ w j i x. x
start_with-Lasting h fuel stack d p (some ip) (some username) (some session_id) none sc bw tasks =
    λ w j i x. x
start_with-Lasting h fuel stack d p (some ip) (some username) (some session_id) (some v) sc bw
      tasks =
    start_for-Lasting h fuel stack d p ip username session_id (atoi v) sc bw tasks

do_startsession-Lasting :
    (h : Host) (fuel : ℕ) (stack : TaskReq) (param : Option Bytes) (d : Daemon)
    (use_serviceclass bandwidth_shape : Bool)
    → d.task_list ≡ rh_task_register use_serviceclass bandwidth_shape []
    → OnSome (λ r. Lasting d r.0) (do_startsession h fuel stack param d)
unfolding do_startsession
do_startsession-Lasting h fuel stack none d sc bw tasks = λ w j i x. x
do_startsession-Lasting h fuel stack (some param) d sc bw tasks =
    let field = with_field (λ r. Lasting d r.0) in
    field (param_field h param 1) _ (λ ip. field (param_field h param 2) _ (λ username.
      field (param_field h param 3) _ (λ session_id. field (param_field h param 4) _ (λ mac_address.
        field (param_field h param 5) _ (λ session_timeout.
          field (param_field h param 6) _ (λ bandwidth_max_down.
            field (param_field h param 7) _ (λ bandwidth_max_up.
              field (param_field h param 8) _ (λ serviceclass_name.
                field (param_field h param 9) _ (λ vserver_id.
                  start_with-Lasting h fuel stack d _ ip username session_id vserver_id sc bw
                    tasks)))))))))

pub >>=-eq-some {ℓ κ} :
    {A : Type ℓ} {B : Type κ} (m : Option A) (f : A → Option B) {b : B}
    → (m >>= f) ≡ some b
    → (a : A) × (m ≡ some a) × (f a ≡ some b)
>>=-eq-some none f h = cc
>>=-eq-some (some a) f h = (a, refl, h)

-- A stop that ends a session, of the one that the command names.
stop_ended :
    (b own : Bool) (x : Option Member) (i : Member)
    → x ≡ some i
    → ((if b then (if own then none else x) else x) ≡ some i)
      ⊎ (((if b then (if own then none else x) else x) ≡ none) × (b ≡ true) × (own ≡ true))
stop_ended true true x i e = inr (refl, refl, refl)
stop_ended true false x i e = inl e
stop_ended false own x i e = inl e

stopped_or_kept :
    (h : Host) (d : Daemon) (v' : ℕ) (vs : VServer) (req : TaskReq)
    (use_serviceclass bandwidth_shape : Bool) (v j : ℕ) (i : Member)
    → d.task_list ≡ rh_task_register use_serviceclass bandwidth_shape []
    → vserver_get_by_id d.vserver_list v' ≡ some vs
    → Owned d
    → session_of d v j ≡ some i
    → let e = leave v' d (rh_task_stopsess h d.task_list (enter d vs req)) in
      (session_of e v j ≡ some i) ⊎ ((session_of e v j ≡ none) × (v' ≡ v) × (req.id ≡ j))
stopped_or_kept h d v' vs req sc bw v j i tasks found o x =
    let at = stopped-others h d v' vs req sc bw tasks found (o.distinct v' vs found) v j in
    elim (stop_ended (v' == v) (req.id == j) (session_of d v j) i x) [
      | inl kept ↦ inl (at ∙ kept)
      | inr (gone, here, own) ↦ inr (at ∙ gone, ground arith, ground arith)
    ]

-- The session that the command was authorised for is the one that was there.
mac_of :
    (vs : VServer) (vss : List VServer) (v v' id j : ℕ) (m i : Member)
    → vserver_get_by_id vss v' ≡ some vs
    → v' ≡ v
    → member_get_node_by_id vs.v_map.members id ≡ some m
    → id ≡ j
    → session_on (vserver_get_by_id vss v) j ≡ some i
    → i.mac_address ≡ m.mac_address
mac_of vs vss v v' id j m i found here there own x =
    let at : session_on (vserver_get_by_id vss v) j ≡ some m =
      ap (λ w. session_on (vserver_get_by_id vss w) j) (sym here)
      ∙ (ap (λ o. session_on o j) found
          ∙ (ap (λ k. member_get_node_by_id vs.v_map.members k) (sym own) ∙ there)) in
    ap (λ (k : Member). k.mac_address) (some-injective i m (sym x ∙ at))

stop_text :
    (h : Host) (stack : TaskReq) (text reply : Bytes) (d e : Daemon)
    (use_serviceclass bandwidth_shape : Bool) (v j : ℕ) (i : Member)
    → do_stopsession h stack (some text) d ≡ some (e, reply)
    → d.task_list ≡ rh_task_register use_serviceclass bandwidth_shape []
    → Owned d
    → session_of d v j ≡ some i
    → (session_of e v j ≡ some i) ⊎ ((session_of e v j ≡ none) × Names h (some text) d v j i)
unfolding do_stopsession
stop_text h stack text reply d e sc bw v j i r tasks o x =
    let (ip, read_ip, r1) = >>=-eq-some (param_field h text 1) _ r in
    let (mac, read_mac, r2) = >>=-eq-some (param_field h text 2) _ r1 in
    let (cause, read_cause, r3) = >>=-eq-some (param_field h text 3) _ r2 in
    let (vserver_id, read_server, r4) = >>=-eq-some (param_field h text 4) _ r3 in
    let result : stop_with h stack d ip mac cause vserver_id ≡ (e, reply) = some-injective _ _ r4 in
    elim (stop_with-Authorised h stack d ip mac cause vserver_id) [
      | inl same ↦
          let left : e ≡ d = ap (λ (q : Daemon × Bytes). q.0) (sym result) ∙ same in
          inl (ap (λ w. session_of w v j) left ∙ x)
      | inr (a, done) ↦
          let left = ap (λ (q : Daemon × Bytes). q.0) (sym result ∙ done) in
          elim (stopped_or_kept h d (atoi a.vserver_text) a.vs _ sc bw v j i tasks a.found o x) [
            | inl kept ↦ inl (ap (λ w. session_of w v j) left ∙ kept)
            | inr (gone, number, identifier) ↦ inr (
              ap (λ w. session_of w v j) left ∙ gone,
              record {
                text = text;
                given = refl;
                ip = ip;
                mac = mac;
                vserver_id = vserver_id;
                read_ip = read_ip;
                read_mac = read_mac;
                read_server = read_server;
                authorised = a;
                number = number;
                identifier = identifier;
                same_mac =
                    mac_of a.vs d.vserver_list v (atoi a.vserver_text) _ j a.member i a.found number
                      a.session identifier x
                    ∙ a.same_mac;
              },
            )
          ]
    ]

-- A step of either thread, from a state in which slots and identifiers are owned and the tasks are
-- those that the daemon registers, leaves a session exactly as it is, all its fields, or ends it; and then it is a stop
-- by the polling thread of this session, or a stop command whose text names the session's virtual
-- server, its address and its hardware address. No start command touches a session that there is.
pub Step-session :
    {d e : Daemon} (s : Step d e) (use_serviceclass bandwidth_shape : Bool) (v j : ℕ) (i : Member)
    → Owned d
    → d.task_list ≡ rh_task_register use_serviceclass bandwidth_shape []
    → session_of d v j ≡ some i
    → (session_of e v j ≡ some i) ⊎ ((session_of e v j ≡ none) × Ends d e s v j i)
unfolding expire_stop do_stopsession
Step-session {d} {e} (starts h fuel stack param reply range r) sc bw v j i o tasks x =
    let kept : Lasting d e = rw r at (do_startsession-Lasting h fuel stack param d sc bw tasks) in
    inl (kept v j i x)
Step-session {d} {e} (stops h stack none reply r) sc bw v j i o tasks x =
    let left : e ≡ d = ap (λ (q : Daemon × Bytes). q.0) (sym (some-injective _ _ r)) in
    inl (ap (λ w. session_of w v j) left ∙ x)
Step-session {d} {e} (stops h stack (some text) reply r) sc bw v j i o tasks x =
    stop_text h stack text reply d e sc bw v j i r tasks o x
Step-session {d} {e} (expires h stack id mac cause v' vs found limit r) sc bw v j i o tasks x =
    elim (stopped_or_kept h d v' vs _ sc bw v j i tasks found o x) [
      | inl kept ↦ inl (ap (λ w. session_of w v j) r ∙ kept)
      | inr (gone, here, own) ↦ inr (ap (λ w. session_of w v j) r ∙ gone, (here, own))
    ]
Step-session {d} {e} (asks event r) sc bw v j i o tasks x = inl (ap (λ w. session_of w v j) r ∙ x)
