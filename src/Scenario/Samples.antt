-- ===== src/Scenario/Samples.antt =====
-- A small world and scenarios over it: what the definitions compute, and inputs for the theorems.
use fox_runner_server.Prelude.{
  ℕ, ◌+◌, ◌≡◌, refl, String, none, Bool, true, false, List, [], ◌∷◌, ◌++◌, map, str_eq,
  if◌then◌else◌,
}
use fox_runner_server.Scenario.Step.{
  AtomicType, open_url, notify, Options, Step, Steps, atomic, group, step, nil, cons,
  ScenarioDefinition, requires_driver, is_parallel_safe, type_name,
}
use fox_runner_server.Scenario.Effects.{
  Result, return, raise, Value, browser, Driver, Context, State, Shared, Job, Engine, StepEvent,
  EventType, step_started, step_succeeded, step_failed, step_retrying, emit,
}
use fox_runner_server.Prelude.Dict.{get, put, pop}
use fox_runner_server.Prelude.Decimal.{show}
use fox_runner_server.Scenario.When.{should_execute}
use fox_runner_server.Scenario.Attempts.{
  execute_step, run_with_timeout, timed, ensure_driver, after_driver, atomic_attempt, block_attempt,
  retry_event, retry_delay, pause, before_retry, attempts, swallow_event, swallow, conclude,
  guarded,
}
use fox_runner_server.Scenario.Engine.{
  started_event, failed_event, succeeded_event, skipped_event, child_step_id, report, run_reported,
  announce, observed_step, repeat_loop, catch_with, finally_do, try_block, refusal, parallel_block,
  first_failure, contained, pop_flag, insert_name, sorted_set, join, body_is_safe, unsupported,
  execute_scenario_step,
}
use fox_runner_server.Scenario.Runner.Loops.{
  hook_step_id, step_label, step_requires_driver, held_driver, fetch_driver, hook_step, hook_loop,
  keep_driver, after_hooks, execute_hook_steps, after_acquire, main_step, main_round, main_loop,
}
use fox_runner_server.Scenario.Runner.Task.{
  recover, execution_id_text, assign, note_step, hooks, fetch, capture, succeeded, failed,
  task_body, task_failure, quit_held, task_finally, first_frame, task_outcome, run_task,
}

pub record World : Type 0 where
  pub clock : ℕ
  pub opened : ℕ
  pub closed : List Value
  pub calls : List String

-- An operation fails where its payload is "fail".
abbrev pub handle :
    AtomicType → String → Bool → Driver → Context → World → Result Driver × Context × World
handle kind fields dry driver context w = (
  if str_eq fields "fail" then raise "boom" else return driver,
  context,
  record w { clock = w.clock + 10; calls = w.calls ++ fields ∷ [] },
)

abbrev pub run_jobs : List (Job World) → Shared World → List (Result Driver) × Shared World
run_jobs [] s = ([], s)
run_jobs (job ∷ jobs) s = let (r, s') = job s in let (rs, s'') = run_jobs jobs s' in (r ∷ rs, s'')

abbrev pub engine : Bool → Engine World
engine dry = record {
  dry_run = dry;
  observed = true;
  handle = handle;
  create_driver = λ w. (return (browser w.opened), record w { opened = w.opened + 1 });
  quit_driver = λ d w. (return tt, record w { closed = w.closed ++ d ∷ [] });
  now = λ w. w.clock;
  sleep = λ n w. record w { clock = w.clock + n };
  pool = run_jobs;
  save_screenshot = λ d path w. (return tt, w);
  save_page_source = λ d path w. (return tt, w);
  artifacts_dir = none;
  search = λ pattern subject. return (str_eq pattern subject);
  repr = λ n. "<driver>";
  seconds_text = λ n. "1.0";
}

abbrev pub initial : State World
initial = record {
  context = [];
  events = [];
  world = record { clock = 0; opened = 0; closed = []; calls = [] };
}

abbrev pub plain : Options
plain = record {
  condition = none;
  retry = 0;
  retry_delay = 0;
  retry_backoff = 1000;
  timeout = none;
  continue_on_error = false;
}

abbrev pub op : AtomicType → String → Step
op kind fields = step plain (atomic kind fields)

abbrev pub failing : Step
failing =
    step
      (record plain {
        retry = 2;
        retry_delay = 100;
        retry_backoff = 2000;
        continue_on_error = true;
      })
      (atomic notify "fail")

abbrev pub scenario : Steps → ScenarioDefinition
scenario steps = record {
  scenario_id = "s";
  steps = steps;
  before_steps = nil;
  on_success_steps = nil;
  on_failure_steps = nil;
  finally_steps = nil;
  requires_enterprise_network = false;
}

-- The whole program, for a test that runs it.
unfoldable pub program : Unit {0}
unfolding get put pop show should_execute requires_driver is_parallel_safe type_name emit
    execute_step run_with_timeout timed ensure_driver after_driver atomic_attempt block_attempt
    retry_event retry_delay pause before_retry attempts swallow_event swallow conclude guarded
    started_event failed_event succeeded_event skipped_event child_step_id report run_reported
    announce observed_step repeat_loop catch_with finally_do try_block refusal parallel_block
    first_failure contained pop_flag insert_name sorted_set join body_is_safe unsupported
    execute_scenario_step hook_step_id step_label step_requires_driver held_driver fetch_driver
    hook_step hook_loop keep_driver after_hooks execute_hook_steps after_acquire main_step
    main_round main_loop recover execution_id_text assign note_step hooks fetch capture succeeded
    failed task_body task_failure quit_held task_finally first_frame task_outcome run_task
program = tt

-- A first step opens the browser, a group swallows a failure of its child.
abbrev pub mixed : ScenarioDefinition
mixed = scenario (cons (op open_url "a") (cons (step plain (group (cons failing nil))) nil))

abbrev kinds : List StepEvent → List EventType
kinds events = map (λ ev. ev.event_type) events

run_task-mixed :
    kinds (run_task (engine false) mixed initial).1.events
    ≡ step_started ∷ step_succeeded ∷ step_started ∷ step_started ∷ step_retrying ∷ step_retrying
      ∷ step_failed ∷ step_succeeded ∷ []
unfolding program
run_task-mixed = refl

-- retries after 100 ms and 200 ms
run_task-mixed_clock : (run_task (engine false) mixed initial).1.world.clock ≡ 340
unfolding program
run_task-mixed_clock = refl

run_task-mixed_closed : (run_task (engine false) mixed initial).1.world.closed ≡ browser 0 ∷ []
unfolding program
run_task-mixed_closed = refl
