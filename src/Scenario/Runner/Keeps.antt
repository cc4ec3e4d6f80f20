-- ===== src/Scenario/Runner/Keeps.antt =====
-- The hooks, the main loop and `run_task` keep what every step keeps.
use fox_runner_server.Prelude.{
  ℕ, ◌+◌, String, ◌≡◌, none, some, Bool, true, false, not, ◌&&◌, List, inl, inr, arith,
}
use fox_runner_server.Scenario.Step.{Step, Steps, nil, cons, type_name, options_of}
use fox_runner_server.Scenario.Effects.{
  Result, return, raise, Result-cases, Driver, Context, State, Engine, StepEvent,
}
use fox_runner_server.Scenario.When.{should_execute}
use fox_runner_server.Scenario.Engine.{announce}
use fox_runner_server.Scenario.Engine.Keeps.{OnReturn, Inv, Rules, Keeps, Good}
use fox_runner_server.Scenario.Engine.Keeps.Attempts.{emit-Inv, ensure_driver-Keeps}
use fox_runner_server.Scenario.Engine.Keeps.Steps.{
  bind-Keeps, pure-Keeps, observed_step-Keeps, run_reported-Keeps, execute_scenario_step-Keeps,
}
use fox_runner_server.Scenario.Runner.Loops.{
  Frame, hook_step_id, step_requires_driver, hook_step, hook_loop, keep_driver, after_hooks,
  execute_hook_steps, after_acquire, main_step, main_round, main_loop,
}

module _ {W : Type 0} (e : Engine W) (C : Context → Type 0) (S : List StepEvent → W → Type 0)
    (D : Driver → Type 0) (rules : Rules e C S D) where
  hook_step-Keeps :
      (collection : String) (index : ℕ) (s : Step) (d : Driver)
      → D d
      → Keeps e C S D (hook_step e collection index s d)
  unfolding hook_step
  hook_step-Keeps collection index s d hd = record {
    at = λ st h. elim (Result-cases (should_execute e (options_of s).condition st.context)) [
      | inl (true, runs) ↦
          rw (runs, hook_step)
            ((observed_step-Keeps e C S D rules (some (hook_step_id collection index)) (type_name s)
                _
                (execute_scenario_step-Keeps e C S D rules s (some (hook_step_id collection index))
                  d hd)).at
              st h)
      | inl (false, skips) ↦ rw (skips, hook_step) (hd, emit-Inv e C S D rules _ st h)
      | inr (m, fails) ↦ rw (fails, hook_step) (tt, h)
    ];
  }

  hook_loop-Keeps :
      (steps : Steps) (collection : String) (index : ℕ) (d : Driver)
      → D d
      → Keeps e C S D (hook_loop e collection index steps d)
  unfolding hook_loop
  hook_loop-Keeps nil collection index d hd = pure-Keeps e C S D rules d hd
  hook_loop-Keeps (cons s rest) collection index d hd =
      bind-Keeps e C S D rules _ _ (hook_step-Keeps collection index s d hd)
        (hook_loop-Keeps rest collection (index + 1))

  after_hooks-Inv :
      (r : Result Driver) (s : State W) → Good e C S D (r, s) → Inv e C S D (after_hooks r s).1
  unfolding after_hooks keep_driver
  after_hooks-Inv (raise m) s g = g.1
  after_hooks-Inv (return none) s g = g.1
  after_hooks-Inv (return (some v)) s g = (rules.held v _ g.0 g.1.0, g.1.1)

  pub execute_hook_steps-Inv :
      (steps : Steps) (collection : String) (d : Driver) (s : State W)
      → D d
      → Inv e C S D s
      → Inv e C S D (execute_hook_steps e steps collection d s).1
  unfolding execute_hook_steps
  execute_hook_steps-Inv steps collection d s hd h =
      after_hooks-Inv _ _ ((hook_loop-Keeps steps collection 0 d hd).at s h)

  -- the locals and the state after a part of `run_task`
  abbrev pub Kept : {A : Type 0} → Result A × Frame × State W → Type 0
  Kept o = D (o.1).driver × Inv e C S D o.2

  after_acquire-Good :
      (id : String) (s : Step) (started : ℕ) (d : Driver)
      → D d
      → (r : Result Driver) (st : State W) → Good e C S D (r, st)
      → OnReturn D (after_acquire e id s r started d st).0
        × D (after_acquire e id s r started d st).1
        × Inv e C S D (after_acquire e id s r started d st).2
  unfolding after_acquire
  after_acquire-Good id s started d hd (raise m) st g = (tt, hd, g.1)
  after_acquire-Good id s started d hd (return d') st g =
      let k =
        (run_reported-Keeps e C S D rules id (type_name s) started _
            (execute_scenario_step-Keeps e C S D rules s (some id) d' g.0)).at
          st g.1 in
      (k.0, g.0, k.1)

  needs_driver : (b : Bool) → (not e.dry_run && b) ≡ true → e.dry_run ≡ false
  needs_driver b h = ground arith

  main_step-Good :
      (id : String) (s : Step) (d : Driver) (st : State W)
      → D d
      → Inv e C S D st
      → OnReturn D (main_step e id s d st).0
        × D (main_step e id s d st).1
        × Inv e C S D (main_step e id s d st).2
  unfolding main_step announce
  main_step-Good id s d st hd h = after_acquire-Good id s _ d hd _ _ (
      (ensure_driver-Keeps e C S D rules _ d (needs_driver (step_requires_driver s)) hd).at _
        (emit-Inv e C S D rules _ st h))

  main_round-Kept :
      (index : ℕ) (s : Step) (f : Frame) (st : State W)
      → D f.driver
      → Inv e C S D st
      → Kept (main_round e index s f st)
  unfolding main_round
  main_round-Kept index s f st hd h =
      elim (Result-cases (should_execute e (options_of s).condition st.context)) [
        | inl (false, skips) ↦ rw (skips, main_round) (hd, emit-Inv e C S D rules _ st h)
        | inr (m, fails) ↦ rw (fails, main_round) (hd, h)
        | inl (true, runs) ↦
            let g = main_step-Good (hook_step_id "steps" index) s f.driver st hd h in
            elim (Result-cases (main_step e (hook_step_id "steps" index) s f.driver st).0) [
              | inl (d, works) ↦ rw (runs, works, main_round) (rw works at g.0, g.2)
              | inr (m, fails) ↦ rw (runs, fails, main_round) (g.1, g.2)
            ]
      ]

  pub main_loop-Kept :
      (steps : Steps) (index : ℕ) (f : Frame) (st : State W)
      → D f.driver
      → Inv e C S D st
      → Kept (main_loop e index steps f st)
  unfolding main_loop
  main_loop-Kept nil index f st hd h = (hd, h)
  main_loop-Kept (cons s rest) index f st hd h =
      let k = main_round-Kept index s f st hd h in
      elim (Result-cases (main_round e index s f st).0) [
        | inl (u, works) ↦ rw (works, main_loop) (main_loop-Kept rest (index + 1) _ _ k.0 k.1)
        | inr (m, fails) ↦ rw (fails, main_loop) k
      ]
