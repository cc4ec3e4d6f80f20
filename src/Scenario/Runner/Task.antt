-- ===== src/Scenario/Runner/Task.antt =====
-- `run_task` of scenarios/runner.py, and the captures that it makes after a failure.
use fox_runner_server.Prelude.{
  String, Option, none, some, Bool, true, false, get_or, append_str, if◌then◌else◌,
}
use fox_runner_server.Prelude.Dict.{get, put}
use fox_runner_server.Scenario.Step.{Steps, ScenarioDefinition}
use fox_runner_server.Scenario.Effects.{Result, return, raise, Value, text, State, Engine}
use fox_runner_server.Scenario.When.{value_text}
use fox_runner_server.Scenario.Runner.Loops.{Frame, fetch_driver, execute_hook_steps, main_loop}

-- `TaskRunResult`
pub record TaskRunResult : Type 0 where
  pub success : Bool
  pub step : String
  pub message : String
  pub execution_id : Option Value
  pub screenshot_path : Option String
  pub page_source_path : Option String

-- A part of `run_task`: it may raise, and it changes the locals.
abbrev pub Framed : Type 0 → Type 0 → Type 0
Framed W A = Frame → State W → Result A × Frame × State W

module _ {W A B : Type 0} where
  abbrev pub continue : Result A → (A → Framed W B) → Framed W B
  continue (return a) k f s = k a f s
  continue (raise m) k f s = (raise m, f, s)

  infixl 5 ◌>>=◌
  abbrev pub ◌>>=◌ : Framed W A → (A → Framed W B) → Framed W B
  ◌>>=◌ m k f s = let (r, f', s') = m f s in continue r k f' s'

module _ {W B : Type 0} where
  infixl 5 ◌>>◌
  abbrev pub ◌>>◌ : Framed W (Unit {0}) → Framed W B → Framed W B
  m >> k = m >>= λ _. k

module _ {W A : Type 0} where
  abbrev pub pure : A → Framed W A
  pure a f s = (return a, f, s)

  -- `except Exception as exc`
  unfoldable pub recover : Result A → (String → Framed W A) → Framed W A
  recover (return a) handler f s = (return a, f, s)
  recover (raise m) handler f s = handler m f s

unfoldable pub execution_id_text : (Value → String) → Option Value → String
execution_id_text to_text none = "manual"
execution_id_text to_text (some v) = to_text v

module _ {W : Type 0} (e : Engine W) where
  -- `context[key] = value`
  unfoldable pub assign : String → String → Framed W (Unit {0})
  assign key value f s = (return tt, f, record s { context = put s.context key (text value) })

  -- `context["current_step"] = current_step`
  unfoldable pub note_step : Framed W (Unit {0})
  note_step f = assign "current_step" f.current_step f

  -- `_execute_hook_steps` with `driver_ref={"driver": driver}`
  unfoldable pub hooks : Steps → String → Framed W (Unit {0})
  hooks steps collection f s =
      let (r, s') = execute_hook_steps e steps collection f.driver s in (r, f, s')

  -- `driver = context.get("__driver__", driver)`
  unfoldable pub fetch : Framed W (Unit {0})
  fetch f s = (return tt, fetch_driver s.context f, s)

  -- `_capture_failure_screenshot` and `_capture_failure_page_source`, with the call of the driver
  -- that they make; an exception of it is only logged.
  unfoldable pub capture :
      (Value → String → W → Result (Unit {0}) × W)
      → (folder extension : String) → Framed W (Option String)
  capture save folder extension f s = elim f.driver [
    | none ↦ (return none, f, s)
    | some d ↦
        if e.dry_run
        then (return none, f, s)
        else let id =
            execution_id_text (λ v. value_text e (some v)) (get s.context "execution_id") in
          let root = get_or e.artifacts_dir ".runtime/artifacts" in
          let path = append_str root (append_str folder (append_str id extension)) in
          let (r, world) = save d path s.world in
          let saved : Option String = elim r [ return _ ↦ some path | raise _ ↦ none ] in
          (return saved, f, record s { world = world })
  ]

  unfoldable pub succeeded : Framed W TaskRunResult
  succeeded f s = (
    return (record {
      success = true;
      step = f.current_step;
      message =
          if e.dry_run
          then "Dry-run complet du scenario execute."
          else "Tache executee avec succes.";
      execution_id = get s.context "execution_id";
      screenshot_path = none;
      page_source_path = none;
    }),
    f,
    s,
  )

  unfoldable pub failed : String → Option String → Option String → Framed W TaskRunResult
  failed message screenshot page_source f s = (
    return (record {
      success = false;
      step = f.current_step;
      message = message;
      execution_id = get s.context "execution_id";
      screenshot_path = screenshot;
      page_source_path = page_source;
    }),
    f,
    s,
  )

  -- the `try` suite
  unfoldable pub task_body : ScenarioDefinition → Framed W TaskRunResult
  task_body scenario = do
    hooks scenario.before_steps "before_steps"
    fetch
    main_loop e 0 scenario.steps
    note_step
    hooks scenario.on_success_steps "on_success"
    fetch
    succeeded

  -- the `except Exception as exc` suite
  unfoldable pub task_failure : ScenarioDefinition → String → Framed W TaskRunResult
  task_failure scenario message = do
    note_step
    assign "error_message" message
    screenshot ← capture e.save_screenshot "/screenshots/" ".png"
    page_source ← capture e.save_page_source "/pages/" ".html"
    hooks scenario.on_failure_steps "on_failure"
    fetch
    failed message screenshot page_source

  -- `if driver is not None: driver.quit()`
  unfoldable pub quit_held : Framed W (Unit {0})
  quit_held f s = elim f.driver [
    | none ↦ (return tt, f, s)
    | some d ↦ let (r, world) = e.quit_driver d s.world in (r, f, record s { world = world })
  ]

  -- the `finally` suite
  unfoldable pub task_finally : ScenarioDefinition → Framed W (Unit {0})
  task_finally scenario = do
    note_step
    hooks scenario.finally_steps "finally_steps"
    fetch
    quit_held

  unfoldable pub first_frame : Frame
  first_frame = record {
    driver = none;
    current_step = if e.dry_run then "dry_run" else "driver_created";
  }

  -- `try` and `except`
  unfoldable pub task_outcome :
      ScenarioDefinition → State W → Result TaskRunResult × Frame × State W
  task_outcome scenario s =
      let (r, f, s') = task_body scenario first_frame s in recover r (task_failure scenario) f s'

  unfoldable pub run_task : ScenarioDefinition → State W → Result TaskRunResult × State W
  run_task scenario s =
      let (outcome, f, s') = task_outcome scenario s in
      let (closing, _, s'') = task_finally scenario f s' in
      (elim closing [ return _ ↦ outcome | raise m ↦ raise m ], s'')
