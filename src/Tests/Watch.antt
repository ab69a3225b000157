-- ===== src/Tests/Watch.antt =====
-- Children of the parent that end soon.
use rahunas.Daemon.Watch.Failures.{Quick, Reason, watch_child-Reason, watch_child-frequent_failures}
use rahunas.Daemon.Watch.{
  Round, with_status, by_signal, left, watch_child, watch_loop, watch_round, next_failcount,
  graceful,
}
use rahunas.Prelude.{ℕ, ◌≡◌, refl, List, [], ◌∷◌, ◌++◌, Option, some, arith}

-- Three seconds, killed by a signal; an hour, with an error; a second, with success.
abbrev crash : Option Round
crash = some (record { start = 100; stop = 103; status = by_signal 11 })

abbrev long_run : Option Round
long_run = some (record { start = 100; stop = 3700; status = with_status 1 })

abbrev farewell : Option Round
farewell = some (record { start = 100; stop = 101; status = with_status 0 })

abbrev five_crashes : List (Option Round)
five_crashes = crash ∷ crash ∷ crash ∷ crash ∷ crash ∷ []

crash-Quick : Quick crash
crash-Quick = omega arith

watch_child-frequent_failures_example :
    (status : ℕ) × (watch_child ((crash ∷ long_run ∷ crash ∷ []) ++ five_crashes) ≡ left status)
watch_child-frequent_failures_example =
    watch_child-frequent_failures (crash ∷ long_run ∷ crash ∷ []) five_crashes refl
      (crash-Quick, (crash-Quick, (crash-Quick, (crash-Quick, (crash-Quick, tt)))))

farewell_taken : watch_child (crash ∷ farewell ∷ crash ∷ []) ≡ left 0
unfolding watch_loop watch_round next_failcount graceful
farewell_taken = refl

watch_child-Reason_example :
    (seen : List (Option Round)) × (rest : List (Option Round)) × ((crash ∷ farewell ∷ crash ∷ [])
      ≡ seen ++ rest)
    × Reason seen 0
watch_child-Reason_example = watch_child-Reason (crash ∷ farewell ∷ crash ∷ []) 0 farewell_taken
