-- ===== src/Scenario/Witnesses.antt =====
-- The theorems about scenarios/ at small inputs.
use fox_runner_server.Prelude.{
  ◌+◌, ◌≡◌, refl, none, some, true, false, List, [], ◌∷◌, All, Bool-cases, str_eq, inl, inr,
  split_once, split_all, strip, length, length-append,
}
use fox_runner_server.Scenario.Step.{
  notify, Options, Step, atomic, group, step, nil, cons, atomic_name,
}
use fox_runner_server.Scenario.Effects.{return, browser, Driver, Shared, Job}
use fox_runner_server.Scenario.Attempts.{atomic_attempt}
use fox_runner_server.Scenario.Engine.{pop_flag, execute_scenario_step}
use fox_runner_server.Scenario.Runner.Task.{
  run_task, task_body, task_outcome, first_frame, TaskRunResult,
}
use fox_runner_server.Scenario.Trace.{total, begins, ends, Assumed}
use fox_runner_server.Scenario.Trace.Steps.{tidy_steps}
use fox_runner_server.Scenario.Trace.Task.{tidy, run_task-total}
use fox_runner_server.Scenario.DryRun.{DryHandlers, run_task-dry_run}
use fox_runner_server.Scenario.Reports.{Report, run_task-Report}
use fox_runner_server.Scenario.Retries.{
  Retried, Counts, execute_scenario_step-Retried, execute_scenario_step-continues,
}
use fox_runner_server.Scenario.Drivers.{group-loses_driver}
use fox_runner_server.Prelude.Dict.{get}
use fox_runner_server.Scenario.When.{should_execute}
use fox_runner_server.Scenario.Samples.{
  World, run_jobs, engine, initial, plain, failing, mixed, program,
}

run_jobs-keeps :
    (Q : Shared World → Type 0) (jobs : List (Job World)) (sh : Shared World)
    → All (λ (job : Job World). (sh : Shared World) → Q sh → Q (job sh).1) jobs
    → Q sh
    → Q (run_jobs jobs sh).1
run_jobs-keeps Q [] sh ks h = h
run_jobs-keeps Q (job ∷ jobs) sh ks h = run_jobs-keeps Q jobs (job sh).1 ks.1 (ks.0 sh h)

assumed : Assumed (engine false)
assumed = record {
  observed = refl;
  untouched = λ kind fields d c w h. h;
  runs_jobs = run_jobs-keeps;
}

mixed-tidy : tidy mixed ≡ true
unfolding tidy tidy_steps
mixed-tidy = refl

clear : get initial.context "__step_swallowed_error__" ≡ none
unfolding get
clear = refl

run_task-total_example :
    total begins (run_task (engine false) mixed initial).1.events + total ends initial.events
    ≡ total begins initial.events + total ends (run_task (engine false) mixed initial).1.events
run_task-total_example =
    run_task-total (engine false) assumed mixed initial (λ w. (browser w.opened, refl)) mixed-tidy
      clear

no_driver : get initial.context "__driver__" ≡ none
unfolding get
no_driver = refl

dry_handlers : DryHandlers (engine true) (λ w. w.opened ≡ 0)
dry_handlers kind fields c w h absent = (
  elim (Bool-cases (str_eq fields "fail")) [ inl bad ↦ rw bad tt | inr good ↦ rw good refl ],
  absent,
  h,
)

run_task-dry_run_example : (run_task (engine true) mixed initial).1.world.opened ≡ 0
run_task-dry_run_example =
    run_task-dry_run (engine true) (λ w. w.opened ≡ 0) refl dry_handlers (λ n w h. h)
      (λ jobs sh. run_jobs-keeps (λ s. s.1.opened ≡ 0) jobs sh) mixed initial no_driver refl

abbrev mixed_result : TaskRunResult
mixed_result = record {
  success = true;
  step = "2:group";
  message = "Tache executee avec succes.";
  execution_id = none;
  screenshot_path = none;
  page_source_path = none;
}

mixed_returns : (run_task (engine false) mixed initial).0 ≡ return mixed_result
unfolding program
mixed_returns = refl

run_task-Report_example :
    Report (task_body (engine false) mixed (first_frame (engine false)) initial).0 mixed_result
    × (none ≡ get (task_outcome (engine false) mixed initial).2.context "execution_id")
run_task-Report_example = run_task-Report (engine false) mixed initial mixed_result mixed_returns

abbrev twice : Options
twice = record plain { retry = 2 }

runs_always : should_execute (engine false) none initial.context ≡ return true
unfolding should_execute
runs_always = refl

calls_counted : Counts (engine false) (λ w. length w.calls)
calls_counted = record {
  handled = λ kind fields d c w. length-append w.calls (fields ∷ []);
  started = λ w v h. refl;
  unstarted = λ w m h. cc;
  slept = λ n w. refl;
}

execute_scenario_step-Retried_example :
    Retried
      (engine false)
      (λ w. length w.calls)
      (atomic_attempt (engine false) notify "fail" twice)
      "a"
      "notify"
      2
      0
      initial
      (execute_scenario_step
        (engine false)
        (step twice (atomic notify "fail"))
        (some "a")
        none
        initial).0
      (execute_scenario_step
        (engine false)
        (step twice (atomic notify "fail"))
        (some "a")
        none
        initial).1
unfolding atomic_name
execute_scenario_step-Retried_example =
    execute_scenario_step-Retried (engine false) (λ w. length w.calls) twice notify "fail"
      (some "a") none initial calls_counted refl refl runs_always

execute_scenario_step-continues_example :
    (d : Driver) × ((execute_scenario_step (engine false) failing none none initial).0 ≡ return d)
execute_scenario_step-continues_example =
    execute_scenario_step-continues (engine false) failing none none initial true refl runs_always

-- its condition asks for a member of the empty set
abbrev left_out : Step
left_out = step (record plain { condition = some "context_in:k=" }) (atomic notify "x")

never :
    should_execute (engine false) (some "context_in:k=") (pop_flag initial.context) ≡ return false
unfolding should_execute split_once split_all strip
never = refl

group-loses_driver_example :
    (execute_scenario_step
      (engine false)
      (step plain (group (cons left_out nil)))
      none
      (some (browser 0))
      initial).0
    ≡ return none
group-loses_driver_example =
    group-loses_driver (engine false) plain left_out none (some (browser 0)) initial runs_always
      never
