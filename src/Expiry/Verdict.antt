-- ===== src/Expiry/Verdict.antt =====
-- The walk over the sessions stops exactly those that are due.
use rahunas.Expiry.Due.{verdict, spared, after, verdict-SameServer}
use rahunas.Expiry.{
  SetEntry, get_data_from_set, cause_of, send_xmlrpc_stopacct, expire, check_member, check_members,
  expired_check,
}
use rahunas.Host.{Host, Event, clock, connect}
use rahunas.Member.Lookup.{Distinct}
use rahunas.Member.{Member, member_get_node_by_id}
use rahunas.Prelude.{
  ℕ, ◌+◌, ◌-◌, ◌%◌, ◌^◌, ◌≡◌, refl, ap, ◌∙◌, ◌≢◌, Bool, false, List, [], ◌∷◌, Option, none, some,
  arith, ltb, Bool-cases, Option-cases, inl, inr, All, if-elim, ◌==◌, ==_refl, if◌then◌else◌,
}
use rahunas.Session.Keeps.{Keeps-refl, SameServer, SameServer-trans}
use rahunas.Session.Refinement.Stop.{rh_task_stopsess-session_at, rh_task_stopsess-SameServer}
use rahunas.Session.Refinement.{member_at}
use rahunas.Session.Task.{rh_task_register}
use rahunas.Session.{Sess, VServer, TaskReq, members, ask}

-- The session of a member that is visited, and otherwise what there was.
visited : ℕ → List SetEntry → Sess → Option Member → Option Member → Option Member
visited now list s none o = o
visited now list s (some m) o = spared (verdict now list s m) m

visited-SameServer :
    (now : ℕ) (list : List SetEntry) (s u : Sess) (m : Option Member) (o : Option Member)
    → SameServer s u
    → visited now list u m o ≡ visited now list s m o
unfolding visited
visited-SameServer now list s u none o same = refl
visited-SameServer now list s u (some m) o same =
    ap (λ v. spared v m) (verdict-SameServer now list s u m same)

others : (id : ℕ) (ms : List Member) → member_get_node_by_id ms id ≡ none → All (λ x. id ≢ x.id) ms
unfolding member_get_node_by_id
others id [] e = tt
others id (m ∷ ms) e = elim (Bool-cases (m.id == id)) [
  | inl h ↦ let found : some m ≡ none = rw h at e in absurd cc
  | inr h ↦ (ground arith, others id ms (rw h at e))
]

behind :
    (m : Member) (ms xs : List Member)
    → All (λ x. m.id ≢ x.id) xs
    → All (λ x. member_get_node_by_id ms x.id ≡ some x) xs
    → All (λ x. member_get_node_by_id (m ∷ ms) x.id ≡ some x) xs
unfolding member_get_node_by_id
behind m ms [] other there = tt
behind m ms (x ∷ xs) other there =
    let apart : (m.id == x.id) ≡ false = let ne = other.0 in ground arith in
    (rw apart there.0, behind m ms xs other.1 there.1)

own_member : (ms : List Member) → Distinct ms → All (λ x. member_get_node_by_id ms x.id ≡ some x) ms
unfolding member_get_node_by_id
own_member [] d = tt
own_member (m ∷ ms) d =
    (rw (==_refl m.id) refl, behind m ms ms (others m.id ms d.0) (own_member ms d.1))

visited-after :
    (now : ℕ) (list : List SetEntry) (s : Sess) (m : Option Member)
    → visited now list s m m ≡ after now list s m
unfolding visited after
visited-after now list s none = refl
visited-after now list s (some m) = refl

-- A visit leaves `o` under the identifier.
record Visit (s u : Sess) (id : ℕ) (o : Option Member) : Type 0 where
  at : (j : ℕ) → member_at u j ≡ (if id == j then o else member_at s j)
  distinct : Distinct (members u)
  server : SameServer s u

send-vs : (h : Host) (id cause : ℕ) (s : Sess) → (send_xmlrpc_stopacct h id cause s).0.vs ≡ s.vs
unfolding send_xmlrpc_stopacct
send-vs h id cause s =
    if-elim (λ (r : Sess × ℕ). r.0.vs ≡ s.vs) (ltb ((s.vs.v_map.size + 2 ^ 32 - 1) % 2 ^ 32) id) _ _
      refl
      (elim (Option-cases (member_get_node_by_id (members s) id)) [
        | inl e ↦ rw e refl
        | inr (m, e) ↦ rw e (
            if-elim (λ (r : Sess × ℕ). r.0.vs ≡ s.vs) (h.connected (connect ∷ s.log)) _ _ refl refl)
      ])

unchanged :
    (s : Sess) (id : ℕ) (i : Member)
    → Distinct (members s)
    → member_at s id ≡ some i
    → Visit s (ask clock s) id (some i)
unchanged s id i d e = record {
  at = λ j. ground (arith, e);
  distinct = d;
  server = record {
    vs_id = refl;
    first_ip = refl;
    last_ip = refl;
    size = refl;
    set = refl;
    idle = refl;
  };
}

module _ (h : Host) (list : List SetEntry) (use_serviceclass bandwidth_shape : Bool)
    (stack : TaskReq) (now : ℕ) (steady : (log : List Event) → h.time log ≡ now) where
  expire-Visit :
      (s : Sess) (id cause : ℕ) (d : SetEntry)
      → Distinct (members s)
      → Visit s
          (expire h
            (rh_task_register use_serviceclass bandwidth_shape [])
            stack
            id
            d
            cause
            (ask clock s))
          id
          none
  unfolding expire
  expire-Visit s id cause d distinct =
      let told = (send_xmlrpc_stopacct h id cause (ask clock s)).0 in
      let same : told.vs ≡ s.vs = send-vs h id cause (ask clock s) in
      let s' : Sess = record told {
        req = record stack { id = id; mac_address = d.ethernet; req_opt = cause };
      } in
      let (_, d', at) =
        rh_task_stopsess-session_at h use_serviceclass bandwidth_shape s' (rw same distinct) in
      record {
        at = λ j. at j ∙ rw same refl;
        distinct = d';
        server =
            SameServer-trans
              (record {
                vs_id = ap (λ (v : VServer). v.vserver_id) same;
                first_ip = ap (λ (v : VServer). v.v_map.first_ip) same;
                last_ip = ap (λ (v : VServer). v.v_map.last_ip) same;
                size = ap (λ (v : VServer). v.v_map.size) same;
                set = ap (λ (v : VServer). v.v_set) same;
                idle = ap (λ (v : VServer). v.idle_timeout) same;
              })
              (rh_task_stopsess-SameServer h use_serviceclass bandwidth_shape s');
      }

  check_member-Visit :
      (m : Member) (s : Sess)
      → Distinct (members s)
      → member_at s m.id ≡ some m
      → Visit s
          (check_member h list (rh_task_register use_serviceclass bandwidth_shape []) stack m s)
          m.id
          (spared (verdict now list s m) m)
  unfolding check_member verdict spared
  check_member-Visit m s d e =
      elim (Option-cases (get_data_from_set list m.id s.vs.v_map.first_ip)) [
        | inl gone ↦ rw (gone, check_member, verdict) (unchanged s m.id m d e)
        | inr (entry, found) ↦
            elim (Option-cases (cause_of now s.vs.idle_timeout entry m.session_timeout)) [
              | inl spare ↦
                  rw (found, check_member, verdict)
                    (rw (steady (clock ∷ s.log), spare) (unchanged s m.id m d e))
              | inr (cause, due) ↦
                  rw (found, check_member, verdict)
                    (rw (steady (clock ∷ s.log), due) (expire-Visit s m.id cause entry d))
            ]
      ]

  still_there :
      (s u : Sess) (id : ℕ) (o : Option Member) (ms : List Member)
      → ((j : ℕ) → member_at u j ≡ (if id == j then o else member_at s j))
      → All (λ x. id ≢ x.id) ms
      → All (λ x. member_at s x.id ≡ some x) ms
      → All (λ x. member_at u x.id ≡ some x) ms
  still_there s u id o [] at other there = tt
  still_there s u id o (x ∷ xs) at other there =
      let apart : (id == x.id) ≡ false = let ne = other.0 in ground arith in
      (at x.id ∙ rw apart there.0, still_there s u id o xs at other.1 there.1)

  check_members-visited :
      (ms : List Member) (s : Sess)
      → Distinct (members s)
      → Distinct ms
      → All (λ x. member_at s x.id ≡ some x) ms
      → let t =
          check_members h list (rh_task_register use_serviceclass bandwidth_shape []) stack ms s in
        ((j : ℕ) → member_at t j ≡ visited now list s (member_get_node_by_id ms j) (member_at s j))
        × Distinct (members t)
        × SameServer s t
  unfolding check_members member_get_node_by_id visited
  check_members-visited [] s d dms there = (λ j. refl, d, (Keeps-refl s).server)
  check_members-visited (m ∷ ms) s d dms there =
      let u =
        check_member h list (rh_task_register use_serviceclass bandwidth_shape []) stack m s in
      let visit = check_member-Visit m s d there.0 in
      let (rest, distinct, server) =
        check_members-visited ms u visit.distinct dms.1
          (still_there s u m.id _ ms visit.at (others m.id ms dms.0) there.1) in
      (
        λ j.
            rest j
            ∙ (visited-SameServer now list s u (member_get_node_by_id ms j) (member_at u j)
                  visit.server
                ∙ elim (Bool-cases (m.id == j)) [
                  | inl here ↦
                      let same : m.id ≡ j = ground arith in
                      let none_later : member_get_node_by_id ms j ≡ none = rw same at dms.0 in
                      rw (none_later, here) (visit.at j ∙ rw here refl)
                  | inr apart ↦ rw (visit.at j, apart) refl
                ]),
        distinct,
        SameServer-trans visit.server server,
      )

  -- The walk leaves the members that it has no cause to stop.
  pub expired_check-after :
      (s : Sess)
      → Distinct (members s)
      → let t =
          expired_check h list (rh_task_register use_serviceclass bandwidth_shape []) stack s in
        ((j : ℕ) → member_at t j ≡ after now list s (member_at s j))
        × Distinct (members t)
        × SameServer s t
  unfolding expired_check
  expired_check-after s d =
      let (at, distinct, server) =
        check_members-visited (members s) s d d (own_member (members s) d) in
      (λ j. at j ∙ visited-after now list s (member_get_node_by_id (members s) j), distinct, server)
