-- ===== src/Scenario/Trace/Loops.antt =====
-- The hooks and the main loop leave the trace level.
use fox_runner_server.Prelude.{
  ℕ, ◌+◌, String, ◌≡◌, refl, none, some, Bool, true, false, not, ◌&&◌, List, inl, inr,
}
use fox_runner_server.Prelude.Dict.{get-put}
use fox_runner_server.Scenario.Step.{Step, Steps, nil, cons, type_name, options_of}
use fox_runner_server.Scenario.Effects.{
  Result, return, raise, Result-cases, Value, Driver, State, Engine, StepEvent,
}
use fox_runner_server.Scenario.When.{should_execute}
use fox_runner_server.Scenario.Attempts.{ensure_driver}
use fox_runner_server.Scenario.Engine.{announce, skipped_event}
use fox_runner_server.Scenario.Runner.Loops.{
  Frame, hook_step_id, step_requires_driver, hook_step, hook_loop, keep_driver, after_hooks,
  after_acquire, main_step, main_round, main_loop,
}
use fox_runner_server.Scenario.Trace.{Level, Assumed}
use fox_runner_server.Scenario.Trace.Attempts.{Levels, emit_neutral-Level}
use fox_runner_server.Scenario.Trace.Steps.{
  tidy_step, tidy_steps, both, bind-Levels, Short, announce-Short, observed_scenario_step-Levels,
  reported_step-Level,
}

module _ {W : Type 0} (e : Engine W) (a : Assumed e) where
  hook_step-Levels :
      (collection : String) (index : ℕ) (s : Step) (d : Driver)
      → tidy_step s ≡ true
      → Levels e a (hook_step e collection index s d)
  unfolding hook_step skipped_event
  hook_step-Levels collection index s d t = record {
    at = λ xs st h. elim (Result-cases (should_execute e (options_of s).condition st.context)) [
      | inl (true, runs) ↦
          let id = some (hook_step_id collection index) in
          rw (runs, hook_step) ((observed_scenario_step-Levels e a s id id d t).at xs st h)
      | inl (false, skips) ↦
          rw (skips, hook_step)
            (emit_neutral-Level e a (skipped_event (hook_step_id collection index) (type_name s)) xs
              st refl refl h)
      | inr (m, fails) ↦ rw (fails, hook_step) h
    ];
  }

  pub hook_loop-Levels :
      (steps : Steps) (collection : String) (index : ℕ) (d : Driver)
      → tidy_steps steps ≡ true
      → Levels e a (hook_loop e collection index steps d)
  unfolding hook_loop tidy_steps
  hook_loop-Levels nil collection index d t = record { at = λ xs s h. h }
  hook_loop-Levels (cons s rest) collection index d t =
      let (ts, tr) = both (tidy_step s) (tidy_steps rest) t in
      bind-Levels e a _ _ (hook_step-Levels collection index s d ts)
        (λ d'. hook_loop-Levels rest collection (index + 1) d' tr)

  pub after_hooks-Level :
      (r : Result Driver) (xs : List StepEvent) (s : State W)
      → Level xs s
      → Level xs (after_hooks r s).1
  unfolding after_hooks keep_driver
  after_hooks-Level (raise m) xs s h = h
  after_hooks-Level (return none) xs s h = h
  after_hooks-Level (return (some v)) xs s h = (rw get-put h.0, h.1)

  -- The browser can always be started.
  abbrev pub Creates : Type 0
  Creates = (w : W) → (v : Value) × ((e.create_driver w).0 ≡ return v)

  after_acquire-Level :
      (id : String) (s : Step) (started : ℕ) (d d' : Driver) (xs : List StepEvent) (st : State W)
      → tidy_step s ≡ true
      → Short e a xs st.events
      → Level xs (after_acquire e id s (return d') started d st).2
  unfolding after_acquire
  after_acquire-Level id s started d d' xs st t short =
      reported_step-Level e a s id started d' xs st t short

  ensure_driver-events :
      (needed : Bool) (d : Driver) (s : State W)
      → Creates
      → ((d' : Driver) × ((ensure_driver e needed d s).0 ≡ return d'))
        × ((ensure_driver e needed d s).1.events ≡ s.events)
  unfolding ensure_driver
  ensure_driver-events needed (some v) s c = ((some v, refl), refl)
  ensure_driver-events false none s c = ((none, refl), refl)
  ensure_driver-events true none s c =
      let (v, made) = c s.world in ((some v, rw (made, ensure_driver)), refl)

  main_step-Level :
      (id : String) (s : Step) (d : Driver) (xs : List StepEvent) (st : State W)
      → Creates
      → tidy_step s ≡ true
      → Level xs st
      → Level xs (main_step e id s d st).2
  unfolding main_step
  main_step-Level id s d xs st c t h =
      let begun = announce e id (type_name s) st in
      let needed = not e.dry_run && step_requires_driver s in
      let ((d', acquired), same) = ensure_driver-events needed d begun c in
      rw acquired (
        after_acquire-Level id s _ d d' xs (ensure_driver e needed d begun).1 t
          (rw same (announce-Short e a id (type_name s) xs st h)))

  main_round-Level :
      (index : ℕ) (s : Step) (f : Frame) (xs : List StepEvent) (st : State W)
      → Creates
      → tidy_step s ≡ true
      → Level xs st
      → Level xs (main_round e index s f st).2
  unfolding main_round skipped_event
  main_round-Level index s f xs st c t h =
      elim (Result-cases (should_execute e (options_of s).condition st.context)) [
        | inl (false, skips) ↦
            rw (skips, main_round)
              (emit_neutral-Level e a (skipped_event (hook_step_id "steps" index) (type_name s)) xs
                st refl refl h)
        | inr (m, fails) ↦ rw (fails, main_round) h
        | inl (true, runs) ↦
            let g = main_step-Level (hook_step_id "steps" index) s f.driver xs st c t h in
            elim (Result-cases (main_step e (hook_step_id "steps" index) s f.driver st).0) [
              | inl (d, works) ↦ rw (runs, works, main_round) g
              | inr (m, fails) ↦ rw (runs, fails, main_round) g
            ]
      ]

  pub main_loop-Level :
      (steps : Steps) (index : ℕ) (f : Frame) (xs : List StepEvent) (st : State W)
      → Creates
      → tidy_steps steps ≡ true
      → Level xs st
      → Level xs (main_loop e index steps f st).2
  unfolding main_loop tidy_steps
  main_loop-Level nil index f xs st c t h = h
  main_loop-Level (cons s rest) index f xs st c t h =
      let (ts, tr) = both (tidy_step s) (tidy_steps rest) t in
      let g = main_round-Level index s f xs st c ts h in
      elim (Result-cases (main_round e index s f st).0) [
        | inl (u, works) ↦ rw (works, main_loop) (main_loop-Level rest (index + 1) _ xs _ c tr g)
        | inr (m, fails) ↦ rw (fails, main_loop) g
      ]
