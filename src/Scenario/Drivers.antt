-- ===== src/Scenario/Drivers.antt =====
-- Where the runner (scenarios/runner.py) loses sight of a browser that is still open.
use fox_runner_server.Prelude.{
  ℕ, zero, suc, get_or, String, ◌≡◌, refl, Option, none, true, false, arith, ap, ◌∙◌,
}
use fox_runner_server.Scenario.Step.{
  Options, Step, Steps, group, step, nil, cons, options_of, type_name, body_name,
}
use fox_runner_server.Scenario.Effects.{Result, return, raise, Driver, State, Engine, emit}
use fox_runner_server.Scenario.When.{should_execute}
use fox_runner_server.Scenario.Attempts.{guarded, attempts, conclude, block_attempt}
use fox_runner_server.Scenario.Engine.{
  announce, pop_flag, report, run_reported, observed_step, execute_scenario_step,
  execute_steps_sequence, child_step_id,
}

module _ {W : Type 0} (e : Engine W) where
  skipped_child :
      (child : Step) (id : Option String) (d : Driver) (s : State W)
      → should_execute e (options_of child).condition s.context ≡ return false
      → execute_scenario_step e child id d s ≡ (return none, s)
  unfolding execute_scenario_step guarded
  skipped_child (step o body) id d s skips = rw (skips, guarded)

  report-return :
      (id name : String) (started : ℕ) (d : Driver) (s : State W)
      → (report e id name started (return d) s).0 ≡ return d
  unfolding report
  report-return id name started d s = ground arith

  announce-context : (id name : String) (s : State W) → (announce e id name s).context ≡ s.context
  unfolding announce emit
  announce-context id name s = ground arith

  observed_step-return :
      (id : Option String) (name : String) (run : State W → Result Driver × State W) (d : Driver)
      (s : State W)
      → ((t : State W) → t.context ≡ pop_flag s.context → (run t).0 ≡ return d)
      → (observed_step e id name run s).0 ≡ return d
  unfolding observed_step run_reported
  observed_step-return id name run d s gives =
      rw
        (gives
          (record (announce e (get_or id "") name s) {
            context = pop_flag (announce e (get_or id "") name s).context;
          })
          (ap pop_flag (announce-context (get_or id "") name s)))
        (report-return _ _ _ d _)

  sequence_skip :
      (child : Step) (label : String) (id : Option String) (d : Driver) (s : State W)
      → should_execute e (options_of child).condition (pop_flag s.context) ≡ return false
      → (execute_steps_sequence e (cons child nil) label 0 id d s).0 ≡ return none
  unfolding execute_steps_sequence
  sequence_skip child label id d s skips =
      let gives =
        observed_step-return (child_step_id id label 0) (type_name child)
          (execute_scenario_step e child (child_step_id id label 0) d) none s
          (λ t same.
            ap (λ (out : Result Driver × State W). out.0)
              (skipped_child child _ d t
                (ap (should_execute e (options_of child).condition) same ∙ skips))) in
      rw gives

  attempts-return :
      (o : Options) (id name : String) (run : Driver → State W → Result Driver × State W) (left : ℕ)
      (d d' : Driver) (s : State W)
      → (run d s).0 ≡ return d'
      → (attempts e o id name (block_attempt run) left 0 d s).0 ≡ return d'
  unfolding attempts block_attempt
  attempts-return o id name run zero d d' s h = h
  attempts-return o id name run (suc n) d d' s h = rw (h, attempts)

  conclude-return :
      (o : Options) (id : Option String) (name : String) (out : Result Driver × Driver × State W)
      (d : Driver)
      → out.0 ≡ return d
      → (conclude e o id name out).0 ≡ return d
  unfolding conclude
  conclude-return o id name (return d', x, s) d h = h
  conclude-return o id name (raise m, x, s) d h = cc

  group_step :
      (o : Options) (steps : Steps) (id : Option String) (d : Driver) (s : State W)
      → execute_scenario_step e (step o (group steps)) id d s
        ≡ guarded e o id "group" (block_attempt (execute_steps_sequence e steps "group" 0 id)) d s
  unfolding execute_scenario_step body_name
  group_step o steps id d s = refl

  -- A group that is executed and whose only step is left out by its condition, in the context in
  -- which the group is reached less the key of swallowed errors, gives `None` as the driver, whatever
  -- driver it was handed: `_execute_scenario_step` returns nothing for a step that it does not
  -- execute, and the sequence takes that for the driver. The caller's browser is then lost to it.
  pub group-loses_driver :
      (o : Options) (child : Step) (id : Option String) (d : Driver) (s : State W)
      → should_execute e o.condition s.context ≡ return true
      → should_execute e (options_of child).condition (pop_flag s.context) ≡ return false
      → (execute_scenario_step e (step o (group (cons child nil))) id d s).0 ≡ return none
  unfolding guarded
  group-loses_driver o child id d s runs skips = rw group_step (
      rw (runs, guarded)
        (conclude-return o id "group" _ none (
          attempts-return o _ "group" (execute_steps_sequence e (cons child nil) "group" 0 id)
            o.retry d none s (sequence_skip child "group" id d s skips))))
