-- ===== src/Server/Reload/Ends.antt =====
-- The state machine of a reload comes to its end.
use rahunas.Prelude.{ℕ, suc, false, ◌∙◌, ◌≡◌, refl, ◌==◌, if◌then◌else◌, Bool-cases, inl, inr}
use rahunas.Server.Reload.{
  set_flag, take_dummy, drop_dummy, reload_round, reload_loop, vserver_reload,
}
use rahunas.Server.Run.{Run, returned, exits, faults, unended, ◌>>=◌}
use rahunas.Server.Stopping.{World}
use rahunas.Server.Tasks.{rh_task_init, rh_task_cleanup}
use rahunas.Server.{Site, vs_none, vs_init, vs_reload, vs_reset, vs_done, flag_of}

-- What a reload is to do, without the loop.
abbrev pub reloaded : World → Site → Run Site
reloaded w u =
    if flag_of u == vs_done
    then returned (set_flag vs_none u)
    else if flag_of u == vs_init
    then (rh_task_init w u >>= λ v. returned (set_flag vs_done v))
    else if flag_of u == vs_reload
    then (do
      t ← rh_task_cleanup w u
      v ← rh_task_init w (set_flag vs_reload (take_dummy t))
      returned (set_flag vs_done v))
    else if flag_of u == vs_reset
    then (do
      t ← rh_task_cleanup w u
      v ← rh_task_init w (set_flag vs_init (drop_dummy (take_dummy t)))
      returned (set_flag vs_done v))
    else returned (set_flag vs_done u)

bind_assoc : (r : Run Site) (f g : Site → Run Site) → (r >>= f) >>= g ≡ r >>= λ v. f v >>= g
bind_assoc (returned u) f g = refl
bind_assoc exits f g = refl
bind_assoc faults f g = refl
bind_assoc unended f g = refl

bind_ext : (r : Run Site) (f g : Site → Run Site) → ((v : Site) → f v ≡ g v) → r >>= f ≡ r >>= g
bind_ext (returned u) f g e = e u
bind_ext exits f g e = refl
bind_ext faults f g e = refl
bind_ext unended f g e = refl

loop_done :
    (n : ℕ) (w : World) (u : Site)
    → reload_loop (suc n) w (set_flag vs_done u) ≡ returned (set_flag vs_done u)
unfolding reload_loop
loop_done n w u = refl

-- The rounds end where what was set up is marked as done.
loop_after :
    (n : ℕ) (w : World) (r : Run Site)
    → ((r >>= λ v. returned (set_flag vs_done v)) >>= reload_loop (suc n) w)
      ≡ r >>= λ v. returned (set_flag vs_done v)
loop_after n w r = bind_assoc r _ _ ∙ bind_ext r _ _ (loop_done n w)

loop_round :
    (n : ℕ) (w : World) (u : Site)
    → (flag_of u == vs_done) ≡ false
    → reload_loop (suc n) w u ≡ reload_round w u >>= reload_loop n w
unfolding reload_loop
loop_round n w u e = rw e refl

loop_init :
    (n : ℕ) (w : World) (u : Site)
    → reload_loop (suc (suc n)) w (set_flag vs_init u)
      ≡ rh_task_init w (set_flag vs_init u) >>= λ v. returned (set_flag vs_done v)
unfolding reload_round
loop_init n w u =
    loop_round (suc n) w (set_flag vs_init u) refl
    ∙ loop_after n w (rh_task_init w (set_flag vs_init u))

reload_loop_lem :
    (n : ℕ) (w : World) (u : Site)
    → (flag_of u == vs_done) ≡ false
    → reload_loop (suc (suc (suc n))) w u ≡ reloaded w u
unfolding reload_round
reload_loop_lem n w u e =
    loop_round (suc (suc n)) w u e ∙ elim (Bool-cases (flag_of u == vs_init)) [
      | inl i ↦ rw (e, i) (loop_after (suc n) w (rh_task_init w u))
      | inr i ↦ elim (Bool-cases (flag_of u == vs_reload)) [
        | inl l ↦
            rw (e, i, l)
              (bind_assoc (rh_task_cleanup w u) _ _
                ∙ bind_ext (rh_task_cleanup w u) _ _ (λ t.
                  loop_after (suc n) w (rh_task_init w (set_flag vs_reload (take_dummy t)))))
        | inr l ↦ elim (Bool-cases (flag_of u == vs_reset)) [
          | inl r ↦
              rw (e, i, l, r)
                (bind_assoc (rh_task_cleanup w u) _ _
                  ∙ bind_ext (rh_task_cleanup w u) _ _
                      (λ t. loop_init n w (drop_dummy (take_dummy t))))
          | inr r ↦ rw (e, i, l, r) (loop_done (suc n) w u)
        ]
      ]
    ]

-- With three rounds or more the loop of a reload ends, whatever the flag and whatever the tasks do: a
-- server that is done becomes unused; any other is cleaned up and set up as its flag asks for, with
-- the waiting configuration if it was to be reloaded or reset, and is done, unless a task ended the
-- process.
pub vserver_reload_lem :
    (n : ℕ) (w : World) (u : Site) → vserver_reload (suc (suc (suc n))) w u ≡ reloaded w u
unfolding vserver_reload
vserver_reload_lem n w u = elim (Bool-cases (flag_of u == vs_done)) [
  | inl e ↦ rw e refl
  | inr e ↦ let more = reload_loop_lem n w u e in rw e (rw e at more)
]
