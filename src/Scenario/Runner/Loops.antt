-- ===== src/Scenario/Runner/Loops.antt =====
-- scenarios/runner.py: `_execute_hook_steps`, and the loop of `run_task` over the steps of a scenario.
use fox_runner_server.Prelude.{
  ℕ, ◌+◌, String, Option, none, some, Bool, true, false, not, ◌&&◌, append_str,
}
use fox_runner_server.Prelude.Dict.{get, put}
use fox_runner_server.Prelude.Decimal.{show}
use fox_runner_server.Scenario.Step.{
  Step, Steps, atomic, step, nil, cons, type_name, requires_driver, options_of,
}
use fox_runner_server.Scenario.Effects.{
  Result, return, raise, Value, Driver, Context, State, Action, Engine, emit, ◌>>=◌, pure,
}
use fox_runner_server.Scenario.When.{should_execute}
use fox_runner_server.Scenario.Attempts.{ensure_driver}
use fox_runner_server.Scenario.Engine.{
  skipped_event, announce, run_reported, observed_step, execute_scenario_step,
}

-- `f"{collection}[{index}]"`
unfoldable pub hook_step_id : String → ℕ → String
hook_step_id collection index = append_str collection (append_str "[" (append_str (show index) "]"))

-- `f"{index}:{step.type}"`, the index counted from 1
unfoldable pub step_label : ℕ → Step → String
step_label index s = append_str (show (index + 1)) (append_str ":" (type_name s))

-- `_requires_driver(step.type)`: no block type is in its set
unfoldable pub step_requires_driver : Step → Bool
step_requires_driver (step _ (atomic kind _)) = requires_driver kind
step_requires_driver _ = false

unfoldable pub held_driver : Option Value → Driver → Driver
held_driver none driver = driver
held_driver (some v) driver = some v

-- The locals of `run_task` that its `except` and `finally` parts read.
pub record Frame : Type 0 where
  pub driver : Driver
  pub current_step : String

-- `driver = context.get("__driver__", driver)`
unfoldable pub fetch_driver : Context → Frame → Frame
fetch_driver context f = record f { driver = held_driver (get context "__driver__") f.driver }

module _ {W : Type 0} where
  -- `if driver_ref["driver"] is not None: context["__driver__"] = ...`
  unfoldable pub keep_driver : Driver → State W → State W
  keep_driver none s = s
  keep_driver (some v) s = record s { context = put s.context "__driver__" v }

  unfoldable pub after_hooks : Result Driver → State W → Result (Unit {0}) × State W
  after_hooks (raise m) s = (raise m, s)
  after_hooks (return driver) s = (return tt, keep_driver driver s)

module _ {W : Type 0} (e : Engine W) where
  -- one round of the loop of `_execute_hook_steps`
  unfoldable pub hook_step : String → ℕ → Step → Driver → Action W Driver
  hook_step collection index s driver st =
      elim (should_execute e (options_of s).condition st.context) [
        | raise m ↦ (raise m, st)
        | return false ↦
            (return driver, emit e (skipped_event (hook_step_id collection index) (type_name s)) st)
        | return true ↦
            observed_step e (some (hook_step_id collection index)) (type_name s)
              (execute_scenario_step e s (some (hook_step_id collection index)) driver) st
      ]

  unfoldable pub hook_loop : String → ℕ → Steps → Driver → Action W Driver
  hook_loop collection index nil driver = pure driver
  hook_loop collection index (cons s rest) driver =
      hook_step collection index s driver >>= hook_loop collection (index + 1) rest

  -- `_execute_hook_steps`
  unfoldable pub execute_hook_steps : Steps → String → Driver → Action W (Unit {0})
  execute_hook_steps steps collection driver s =
      let (r, s') = hook_loop collection 0 steps driver s in after_hooks r s'

  unfoldable pub after_acquire :
      String → Step → Result Driver → ℕ → Driver → State W → Result Driver × Driver × State W
  after_acquire id s (raise m) started driver st = (raise m, driver, st)
  after_acquire id s (return d) started driver st =
      let (r, st') =
        run_reported e id (type_name s) started (execute_scenario_step e s (some id) d) st in
      (r, d, st')

  -- A step of the main loop that is executed: `create_driver` stands behind `step_started` and
  -- before the `try`. Gives the local `driver` as it is where the step raises.
  unfoldable pub main_step : String → Step → Driver → State W → Result Driver × Driver × State W
  main_step id s driver st =
      let begun = announce e id (type_name s) st in
      let (acquired, ready) =
        ensure_driver e (not e.dry_run && step_requires_driver s) driver begun in
      after_acquire id s acquired (e.now begun.world) driver ready

  unfoldable pub main_round : ℕ → Step → Frame → State W → Result (Unit {0}) × Frame × State W
  main_round index s f st =
      let id = hook_step_id "steps" index in
      let label = step_label index s in
      elim (should_execute e (options_of s).condition st.context) [
        | raise m ↦ (raise m, record f { current_step = label }, st)
        | return false ↦ (
          return tt,
          record f { current_step = label },
          emit e (skipped_event id (type_name s)) st,
        )
        | return true ↦
            let (r, driver, st') = main_step id s f.driver st in
            elim r [
              | return d ↦ (return tt, record { driver = d; current_step = label }, st')
              | raise m ↦ (raise m, record { driver = driver; current_step = label }, st')
            ]
      ]

  -- `for index, step in enumerate(scenario.steps, start=1)`
  unfoldable pub main_loop : ℕ → Steps → Frame → State W → Result (Unit {0}) × Frame × State W
  main_loop index nil f s = (return tt, f, s)
  main_loop index (cons s rest) f st =
      let (r, f', st') = main_round index s f st in
      elim r [ return _ ↦ main_loop (index + 1) rest f' st' | raise m ↦ (raise m, f', st') ]
