-- ===== src/Daemon/Watch/Failures.antt =====
-- When the parent that watches the daemon gives up.
use rahunas.Daemon.Watch.{
  ChildEnd, with_status, by_signal, otherwise, Round, watching, left, graceful, next_failcount,
  watch_round, watch_loop, watch_child,
}
use rahunas.Prelude.{
  ℕ, ◌+◌, ◌<◌, ◌≤◌, ◌≡◌, refl, ap, sym, ◌∙◌, List, [], ◌∷◌, ◌++◌, Option, none, some, arith, ltb,
  true, Bool-cases, inl, inr, ◌⊎◌, All, All-append, length, length-append,
}
use mathlib.Core.List.{append_assoc, append-nil}

-- A child that ran for less than ten seconds, or that was not started.
abbrev pub Quick : Option Round → Type 0
Quick none = Unit
Quick (some r) = r.stop < r.start + 10

-- The last rounds of a history, as many as are said, were quick.
pub record Trail (n : ℕ) (history : List (Option Round)) : Type 0 where
  pub front : List (Option Round)
  pub tail : List (Option Round)
  pub whole : history ≡ front ++ tail
  pub counted : length tail ≡ n
  pub quick : All Quick tail

-- Why the parent leaves after a history of rounds, with its exit status.
pub data Reason : List (Option Round) → ℕ → Type 0 where
  fork_failed : (earlier : List (Option Round)) → Reason (earlier ++ (none ∷ [])) 1
  five_failures : (history : List (Option Round)) → Trail 5 history → Reason history 1
  child_done :
      (earlier : List (Option Round)) (r : Round)
      → r.status ≡ with_status 0
      → Reason (earlier ++ (some r ∷ [])) 0

graceful-status : (s : ChildEnd) → graceful s ≡ true → s ≡ with_status 0
unfolding graceful
graceful-status (with_status n) e = let zero : n ≡ 0 = ground arith in ap with_status zero
graceful-status (by_signal n) e = cc
graceful-status otherwise e = cc

no-Trail : (history : List (Option Round)) → Trail 0 history
no-Trail history = record {
  front = history;
  tail = [];
  whole = sym (append-nil history);
  counted = refl;
  quick = tt;
}

grow-Trail :
    (n : ℕ) (history : List (Option Round)) (r : Round)
    → Trail n history
    → Trail (next_failcount r n) (history ++ (some r ∷ []))
unfolding next_failcount
grow-Trail n history r t = elim (Bool-cases (ltb r.stop (r.start + 10))) [
  | inl q ↦ rw q (record {
    front = t.front;
    tail = t.tail ++ (some r ∷ []);
    whole = rw t.whole (append_assoc t.front t.tail (some r ∷ []));
    counted = length-append t.tail (some r ∷ []) ∙ omega arith;
    quick = All-append Quick t.tail (some r ∷ []) t.quick (ground arith, tt);
  })
  | inr q ↦ rw q (no-Trail (history ++ (some r ∷ [])))
]

-- A round goes on with a count below five, or ends the watch for a reason.
watch_round-cases :
    (r : Round) (n : ℕ)
    → n < 5
    → ((next_failcount r n < 5) × (watch_round (some r) n ≡ watching (next_failcount r n)))
      ⊎ ((next_failcount r n ≡ 5) × (watch_round (some r) n ≡ left 1))
      ⊎ ((graceful r.status ≡ true) × (watch_round (some r) n ≡ left 0))
unfolding watch_round next_failcount
watch_round-cases r n small = ground arith

watch_loop_next :
    (r : Option Round) (rs : List (Option Round)) (n m : ℕ)
    → watch_round r n ≡ watching m
    → watch_loop (r ∷ rs) n ≡ watch_loop rs m
unfolding watch_loop
watch_loop_next r rs n m e = rw (e, watch_loop) refl

watch_loop_end :
    (r : Option Round) (rs : List (Option Round)) (n status : ℕ)
    → watch_round r n ≡ left status
    → watch_loop (r ∷ rs) n ≡ left status
unfolding watch_loop
watch_loop_end r rs n status e = rw (e, watch_loop) refl

left-injective : (m n : ℕ) → left m ≡ left n → m ≡ n
left-injective m n e = cc

watch_loop-Reason :
    (rs past : List (Option Round)) (n status : ℕ)
    → n < 5
    → Trail n past
    → watch_loop rs n ≡ left status
    → (seen : List (Option Round)) × (rest : List (Option Round)) × (rs ≡ seen ++ rest)
      × Reason (past ++ seen) status
unfolding watch_loop watch_round
watch_loop-Reason [] past n status small t e = absurd cc
watch_loop-Reason (none ∷ rs) past n status small t e =
    (none ∷ [], rs, refl, rw (← left-injective 1 status e) (fork_failed past))
watch_loop-Reason (some r ∷ rs) past n status small t e = elim (watch_round-cases r n small) [
  | inl (small', w) ↦
      let (seen, rest, whole, reason) =
        watch_loop-Reason rs (past ++ (some r ∷ [])) (next_failcount r n) status small'
          (grow-Trail n past r t) (sym (watch_loop_next (some r) rs n _ w) ∙ e) in
      (
        some r ∷ seen,
        rest,
        ap (◌∷◌ (some r)) whole,
        rw (← append_assoc past (some r ∷ []) seen) reason,
      )
  | inr (inl (five, w)) ↦
      let code : 1 ≡ status =
        left-injective 1 status (sym (watch_loop_end (some r) rs n 1 w) ∙ e) in
      let trail : Trail 5 (past ++ (some r ∷ [])) = rw five at (grow-Trail n past r t) in
      (some r ∷ [], rs, refl, rw (← code) (five_failures (past ++ (some r ∷ [])) trail))
  | inr (inr (done, w)) ↦
      let code : 0 ≡ status =
        left-injective 0 status (sym (watch_loop_end (some r) rs n 0 w) ∙ e) in
      (some r ∷ [], rs, refl, rw (← code) (child_done past r (graceful-status r.status done)))
]

-- The parent leaves only where a `fork` fails, where the last five children ran for less than ten
-- seconds each, with status 1, or where a child ends with status 0, with status 0.
pub watch_child-Reason :
    (rs : List (Option Round)) (status : ℕ)
    → watch_child rs ≡ left status
    → (seen : List (Option Round)) × (rest : List (Option Round)) × (rs ≡ seen ++ rest)
      × Reason seen status
watch_child-Reason rs status e = watch_loop-Reason rs [] 0 status (omega arith) (no-Trail []) e

watch_loop-Quick :
    (rs : List (Option Round)) (n : ℕ)
    → n < 5
    → All Quick rs
    → 5 ≤ n + length rs
    → (status : ℕ) × (watch_loop rs n ≡ left status)
unfolding watch_loop watch_round next_failcount
watch_loop-Quick [] n small quick long = absurd (omega arith)
watch_loop-Quick (none ∷ rs) n small quick long = (1, refl)
watch_loop-Quick (some r ∷ rs) n small quick long = elim (watch_round-cases r n small) [
  | inl (small', w) ↦
      let more : next_failcount r n ≡ n + 1 = ground arith in
      rw (watch_loop_next (some r) rs n _ w)
        (watch_loop-Quick rs (next_failcount r n) small' quick.1 (omega arith))
  | inr (inl (five, w)) ↦ (1, watch_loop_end (some r) rs n 1 w)
  | inr (inr (done, w)) ↦ (0, watch_loop_end (some r) rs n 0 w)
]

-- After a first part the watch is over, or it goes on with a count below five.
watch_loop-cases :
    (past : List (Option Round)) (n : ℕ) (rs : List (Option Round))
    → n < 5
    → ((m : ℕ) × (m < 5) × (watch_loop (past ++ rs) n ≡ watch_loop rs m))
      ⊎ ((status : ℕ) × (watch_loop (past ++ rs) n ≡ left status))
unfolding watch_loop watch_round
watch_loop-cases [] n rs small = inl (n, small, refl)
watch_loop-cases (none ∷ past) n rs small = inr (1, refl)
watch_loop-cases (some r ∷ past) n rs small = elim (watch_round-cases r n small) [
  | inl (small', w) ↦
      rw (watch_loop_next (some r) (past ++ rs) n _ w)
        (watch_loop-cases past (next_failcount r n) rs small')
  | inr (inl (five, w)) ↦ inr (1, watch_loop_end (some r) (past ++ rs) n 1 w)
  | inr (inr (done, w)) ↦ inr (0, watch_loop_end (some r) (past ++ rs) n 0 w)
]

-- Five rounds in a row of which each is quick end the watch, whatever went before.
pub watch_child-frequent_failures :
    (past five : List (Option Round))
    → length five ≡ 5
    → All Quick five
    → (status : ℕ) × (watch_child (past ++ five) ≡ left status)
watch_child-frequent_failures past five counted quick =
    elim (watch_loop-cases past 0 five (omega arith)) [
      | inl (n, small, e) ↦ rw e (watch_loop-Quick five n small quick (omega arith))
      | inr (status, e) ↦ (status, e)
    ]
