-- ===== src/Scenario/Engine.antt =====
-- scenarios/engine.py: blocks, sequences of child steps and their events.
mod Loops
pub mod Keeps
pub use Loops.{Runner}
unfoldable pub use Loops.{
  started_event, failed_event, succeeded_event, skipped_event, child_step_id, report, run_reported,
  announce, observed_step, repeat_loop, catch_with, driver_after, settle, finally_do, try_block,
  refusal, parallel_block, first_failure, contained, pop_flag, insert_name, sorted_set, join,
}
use fox_runner_server.Prelude.{ℕ, suc, ◌+◌, String, Option, Bool, true, false, List, [], ◌∷◌, ◌++◌}
use fox_runner_server.Scenario.Step.{
  Options, Body, Step, Steps, atomic, group, repeat, parallel, try_catch, step, nil, cons,
  body_name, type_name, AtomicType, is_parallel_safe, options_of,
}
use fox_runner_server.Scenario.Effects.{Result, Driver, State, Action, Job, Engine, pure, ◌>>=◌}
use fox_runner_server.Scenario.Attempts.{Attempt, atomic_attempt, block_attempt, guarded}

-- `[child.type for child in steps if child.type not in engine.parallel_safe_steps]`
unfoldable pub body_is_safe : Body → Bool
body_is_safe (atomic kind _) = is_parallel_safe kind
body_is_safe _ = false

unfoldable pub unsupported : Steps → List String
unsupported nil = []
unsupported (cons (step o body) rest) =
    let others = unsupported rest in
    elim (body_is_safe body) [ true ↦ others | false ↦ body_name body ∷ others ]

abbrev pub is_empty : Steps → Bool
is_empty nil = true
is_empty (cons _ _) = false

module _ {W : Type 0} (e : Engine W) where
  unfoldable mutual
    -- `execute_block_step`, and the atomic case, as one attempt of `_execute_scenario_step`
    pub body_attempt : Body → Options → Option String → Attempt W
    body_attempt (atomic kind fields) o id = atomic_attempt e kind fields o
    body_attempt (group steps) o id = block_attempt (execute_steps_sequence steps "group" 0 id)
    body_attempt (repeat times steps) o id =
        block_attempt (repeat_loop times (execute_steps_sequence steps "repeat" 0 id))
    body_attempt (parallel steps) o id =
        block_attempt (parallel_block e (unsupported steps) (λ s. parallel_jobs steps 0 id s))
    body_attempt (try_catch try_steps catch_steps finally_steps) o id = block_attempt (
        try_block (execute_steps_sequence try_steps "try" 0 id) (is_empty catch_steps)
          (execute_steps_sequence catch_steps "catch" 0 id) (is_empty finally_steps)
          (execute_steps_sequence finally_steps "finally" 0 id))

    -- `_execute_scenario_step`
    pub execute_scenario_step : Step → Option String → Driver → Action W Driver
    execute_scenario_step (step o body) id =
        guarded e o id (body_name body) (body_attempt body o id)

    -- `execute_steps_sequence`, from the child with the given index on
    pub execute_steps_sequence : Steps → String → ℕ → Option String → Driver → Action W Driver
    execute_steps_sequence nil label index id driver = pure driver
    execute_steps_sequence (cons child rest) label index id driver =
        observed_step e (child_step_id id label index) (type_name child)
          (execute_scenario_step child (child_step_id id label index) driver)
        >>= execute_steps_sequence rest label (index + 1) id

    -- the futures of `execute_parallel_steps`: each child has a copy of the context and no driver
    pub parallel_jobs : Steps → ℕ → Option String → State W → List (Job W)
    parallel_jobs nil index id s = []
    parallel_jobs (cons child rest) index id s =
        contained s.context
          (execute_scenario_step child (child_step_id id "parallel" index) Option.none)
        ∷ parallel_jobs rest (index + 1) id s
