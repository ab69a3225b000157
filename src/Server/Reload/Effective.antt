-- ===== src/Server/Reload/Effective.antt =====
-- Which configuration runs after a reload.
use rahunas.Prelude.{
  ℕ, suc, false, ◌∙◌, ◌≡◌, refl, ap, arith, ◌==◌, ◌||◌, if◌then◌else◌, Bool-cases, inl, inr, Option,
  none, some,
}
use rahunas.Server.Keeps.{SameConfig, Kept, rh_task_init-SameConfig, rh_task_cleanup-SameConfig}
use rahunas.Server.Reload.Ends.{vserver_reload_lem}
use rahunas.Server.Reload.{set_flag, take_dummy, drop_dummy, vserver_reload}
use rahunas.Server.Run.{returned, ◌>>=◌, OnReturn, OnReturn->>=, OnReturn-map}
use rahunas.Server.Stopping.{World}
use rahunas.Server.Tasks.{rh_task_init, rh_task_cleanup}
use rahunas.Server.{
  Site, VServerConfig, Setting, vs_init, vs_reload, vs_reset, vs_done, flag_of, config_of,
}
use rahunas.Text.{Bytes}

-- The configuration that waits or, where there is none, its own.
abbrev pub waiting_or : Option VServerConfig → VServerConfig → VServerConfig
waiting_or none c = c
waiting_or (some config) c = config

-- The configuration that a reload or a reset is for, and otherwise the server's own.
abbrev pub effective : Site → VServerConfig
effective u =
    if flag_of u == vs_reload || flag_of u == vs_reset
    then waiting_or u.vs.dummy_config (config_of u)
    else config_of u

-- What a configuration file says.
pub record Said : Type 0 where
  pub name : Bytes
  pub number : ℕ
  pub idle : ℕ
  pub settings : Setting → Option Bytes

abbrev pub said : VServerConfig → Said
said c = record {
  name = c.vserver_name;
  number = c.vserver_id;
  idle = c.idle_timeout;
  settings = c.settings;
}

-- A server runs a configuration, and is done.
abbrev pub Runs : VServerConfig → Site → Type 0
Runs c v = (said (config_of v) ≡ said c) × (flag_of v ≡ vs_done)

said-kept : (u v : Site) → SameConfig u v → said (config_of v) ≡ said (config_of u)
said-kept u v e = ap kept_part e
  where
    kept_part : Kept → Said
    kept_part k = record { name = k.name; number = k.number; idle = k.idle; settings = k.settings }

-- What was set up and is then marked as done runs its configuration.
init_done-Runs :
    (w : World) (u : Site)
    → OnReturn (Runs (config_of u)) (rh_task_init w u >>= λ v. returned (set_flag vs_done v))
init_done-Runs w u =
    OnReturn->>= (SameConfig u) (Runs (config_of u)) (rh_task_init w u) _
      (rh_task_init-SameConfig w u) (λ v e. (said-kept u v e, refl))

said-waiting :
    (d : Option VServerConfig) (c c' : VServerConfig)
    → said c ≡ said c'
    → said (waiting_or d c) ≡ said (waiting_or d c')
said-waiting none c c' e = e
said-waiting (some config) c c' e = refl

said-take_dummy :
    (t : Site) → said (config_of (take_dummy t)) ≡ said (waiting_or t.vs.dummy_config (config_of t))
unfolding take_dummy
said-take_dummy t = ground arith

-- A clean-up, the waiting configuration, and another set-up.
cleaned-Runs :
    (w : World) (u : Site) (f : Site → Site)
    → ((t : Site) → said (config_of (f t)) ≡ said (config_of (take_dummy t)))
    → OnReturn
        (Runs (waiting_or u.vs.dummy_config (config_of u)))
        (rh_task_cleanup w u >>= λ t. rh_task_init w (f t) >>= λ v. returned (set_flag vs_done v))
cleaned-Runs w u f taken =
    OnReturn->>= (SameConfig u) _ (rh_task_cleanup w u) _ (rh_task_cleanup-SameConfig w u) λ t e.
      let same : t.vs.dummy_config ≡ u.vs.dummy_config = ap (λ (k : Kept). k.waiting) e in
      let begun : said (config_of (f t)) ≡ said (waiting_or u.vs.dummy_config (config_of u)) =
        taken t
        ∙ (said-take_dummy t
            ∙ (ap (λ d. said (waiting_or d (config_of t))) same
                ∙ said-waiting u.vs.dummy_config _ _ (said-kept u t e))) in
      OnReturn-map (Runs (config_of (f t))) _
        (rh_task_init w (f t) >>= λ v. returned (set_flag vs_done v)) (λ v r. (r.0 ∙ begun, r.1))
        (init_done-Runs w (f t))

-- After a reload that was asked for, in three rounds or more, a server that returns from its tasks is
-- done, and has the name, the number, the idle time and the settings of the configuration that was
-- read for it; a server whose flag asks for neither a reload nor a reset keeps its own.
pub vserver_reload-Runs :
    (n : ℕ) (w : World) (u : Site)
    → (flag_of u == vs_done) ≡ false
    → OnReturn (Runs (effective u)) (vserver_reload (suc (suc (suc n))) w u)
unfolding take_dummy drop_dummy
vserver_reload-Runs n w u e =
    rw (vserver_reload_lem n w u, e)
      (elim (Bool-cases (flag_of u == vs_init)) [
        | inl i ↦
            let first : (flag_of u == vs_reload) ≡ false = ground arith in
            let second : (flag_of u == vs_reset) ≡ false = ground arith in
            rw (i, first, second) (init_done-Runs w u)
        | inr i ↦ elim (Bool-cases (flag_of u == vs_reload)) [
          | inl l ↦
              rw (i, l) (cleaned-Runs w u (λ t. set_flag vs_reload (take_dummy t)) (λ t. refl))
          | inr l ↦ elim (Bool-cases (flag_of u == vs_reset)) [
            | inl r ↦
                rw (i, l, r)
                  (cleaned-Runs w u (λ t. set_flag vs_init (drop_dummy (take_dummy t))) (λ t. refl))
            | inr r ↦ rw (i, l, r) (refl, refl)
          ]
        ]
      ])
