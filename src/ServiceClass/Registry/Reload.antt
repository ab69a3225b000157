-- ===== src/ServiceClass/Registry/Reload.antt =====
-- The state machine of a reload comes to its end.
use rahunas.Prelude.{
  ℕ, suc, false, ◌∙◌, ◌≡◌, refl, none, some, arith, ◌==◌, if◌then◌else◌, Bool-cases, inl, inr,
}
use rahunas.ServiceClass.Registry.{
  flag, sc_none, sc_init, sc_reload, sc_reset, sc_done, set_flag, take_dummy, reload_round,
  reload_loop, serviceclass_reload,
}
use rahunas.ServiceClass.{ServiceClass}

-- What a reload makes of a class.
abbrev pub reloaded : ServiceClass → ServiceClass
reloaded sc =
    if flag sc == sc_done
    then set_flag sc_none sc
    else if flag sc == sc_reload
    then set_flag sc_done (take_dummy sc)
    else if flag sc == sc_reset
    then set_flag sc_done (record t { dummy_config = none })
    else set_flag sc_done sc
  where
    t : ServiceClass
    t = take_dummy sc

loop_done :
    (n : ℕ) (sc : ServiceClass)
    → reload_loop (suc n) (set_flag sc_done sc) ≡ some (set_flag sc_done sc)
unfolding reload_loop set_flag
loop_done n sc = refl

loop_round :
    (n : ℕ) (sc : ServiceClass)
    → (flag sc == sc_done) ≡ false
    → reload_loop (suc n) sc ≡ reload_loop n (reload_round sc)
unfolding reload_loop
loop_round n sc e = rw e refl

-- The two rounds of a reset.
loop_init :
    (n : ℕ) (sc : ServiceClass)
    → reload_loop (suc (suc n)) (set_flag sc_init sc) ≡ some (set_flag sc_done sc)
unfolding reload_loop reload_round set_flag
loop_init n sc = refl

reload_loop_lem :
    (n : ℕ) (sc : ServiceClass)
    → (flag sc == sc_done) ≡ false
    → reload_loop (suc (suc (suc n))) sc ≡ some (reloaded sc)
unfolding reload_round
reload_loop_lem n sc e = loop_round (suc (suc n)) sc e ∙ elim (Bool-cases (flag sc == sc_init)) [
  | inl i ↦
      let first : (flag sc == sc_reload) ≡ false = ground arith in
      let second : (flag sc == sc_reset) ≡ false = ground arith in
      rw (e, first, second, i) (loop_done (suc n) sc)
  | inr i ↦ elim (Bool-cases (flag sc == sc_reload)) [
    | inl l ↦ rw (e, i, l) (loop_done (suc n) (take_dummy sc))
    | inr l ↦ elim (Bool-cases (flag sc == sc_reset)) [
      | inl r ↦
          let t = take_dummy sc in rw (e, i, l, r) (loop_init n (record t { dummy_config = none }))
      | inr r ↦ rw (e, i, l, r) (loop_done (suc n) sc)
    ]
  ]
]

-- With three rounds or more the loop of a reload ends, whatever the flag: a class that is done
-- becomes unused, and any other is done, with the waiting configuration if it was to be reloaded or
-- reset; a reset leaves no configuration waiting.
pub serviceclass_reload_lem :
    (n : ℕ) (sc : ServiceClass) → serviceclass_reload (suc (suc (suc n))) sc ≡ some (reloaded sc)
unfolding serviceclass_reload
serviceclass_reload_lem n sc = elim (Bool-cases (flag sc == sc_done)) [
  | inl e ↦ rw e refl
  | inr e ↦ let more = reload_loop_lem n sc e in rw e (rw e at more)
]
