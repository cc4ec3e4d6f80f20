-- ===== src/Scenario/DryRun.antt =====
-- What a dry run of scenarios/runner.py leaves alone.
use fox_runner_server.Prelude.{ℕ, String, ◌≡◌, refl, none, true, List, All}
use fox_runner_server.Prelude.Dict.{get, put, get-put, get-pop}
use fox_runner_server.Scenario.Step.{AtomicType, ScenarioDefinition}
use fox_runner_server.Scenario.Effects.{text, Context, State, Shared, Job, Engine, StepEvent}
use fox_runner_server.Scenario.Engine.{pop_flag}
use fox_runner_server.Scenario.Engine.Keeps.{OnReturn, Rules, EngineKey, key_name}
use fox_runner_server.Scenario.Runner.Task.{run_task}
use fox_runner_server.Scenario.Runner.TaskKeeps.{Closing, run_task-Inv}

module _ {W : Type 0} (e : Engine W) where
  -- The thread pool only runs its jobs: what each job keeps, it keeps.
  abbrev pub RunsJobs : (List StepEvent → W → Type 0) → Type 0
  RunsJobs S =
      (jobs : List (Job W)) (sh : Shared W)
      → All (λ (job : Job W). (sh : Shared W) → S sh.0 sh.1 → S (job sh).1.0 (job sh).1.1) jobs
      → S sh.0 sh.1
      → S (e.pool jobs sh).1.0 (e.pool jobs sh).1.1

  -- In a dry run an operation starts from no driver, gives none, and keeps `P`.
  abbrev pub DryHandlers : (W → Type 0) → Type 0
  DryHandlers P =
      (kind : AtomicType) (fields : String) (c : Context) (w : W)
      → P w
      → get c "__driver__" ≡ none
      → OnReturn (λ d. d ≡ none) (e.handle kind fields true none c w).0
        × (get (e.handle kind fields true none c w).1 "__driver__" ≡ none)
        × P (e.handle kind fields true none c w).2

  noted_driver :
      (key : EngineKey) (value : String) (c : Context)
      → get c "__driver__" ≡ none
      → get (put c (key_name key) (text value)) "__driver__" ≡ none
  noted_driver EngineKey.error_message value c h = rw get-put h
  noted_driver EngineKey.last_error_message value c h = rw get-put h
  noted_driver EngineKey.last_error_step value c h = rw get-put h
  noted_driver EngineKey.current_step value c h = rw get-put h
  noted_driver EngineKey.swallowed value c h = rw get-put h

  module _ (P : W → Type 0) (dry : e.dry_run ≡ true) (handlers : DryHandlers P)
      (sleeps : (n : ℕ) (w : W) → P w → P (e.sleep n w)) (pooled : RunsJobs (λ _ w. P w)) where
    dry_rules : Rules e (λ c. get c "__driver__" ≡ none) (λ _ w. P w) (λ d. d ≡ none)
    unfolding pop_flag
    dry_rules = record {
      missing = refl;
      emitted = λ _ _ w h. h;
      slept = λ n _ w h. sleeps n w h;
      handled =
          λ kind fields d s hd h. rw (hd, dry) (handlers kind fields s.context s.world h.1 h.0);
      created = λ live events w h. cc;
      noted = noted_driver;
      popped = λ c h. rw get-pop h;
      held = λ v c h _. cc;
      fetched = λ v c h found. cc;
      pooled = pooled;
    }

    dry_closing : Closing e (λ _ w. P w) (λ d. d ≡ none)
    dry_closing = record {
      screenshot = λ live v path events w h. cc;
      page_source = λ live v path events w h. cc;
      quits = λ v events w held h. cc;
    }

    -- Whatever the operations and the sleeps of a dry run keep of the world, `run_task` keeps, on
    -- every path of the scenario: it starts no browser, quits none and saves no screenshot or page
    -- source. Assumed: no operation puts a value under `__driver__` or gives a driver, and the
    -- thread pool only runs its jobs.
    pub run_task-dry_run :
        (scenario : ScenarioDefinition) (s : State W)
        → get s.context "__driver__" ≡ none
        → P s.world
        → P (run_task e scenario s).1.world
    run_task-dry_run scenario s absent h =
        (run_task-Inv e (λ c. get c "__driver__" ≡ none) (λ _ w. P w) (λ d. d ≡ none) dry_rules
          dry_closing scenario s (absent, h)).1
