-- ===== src/Scenario/Trace/Task.antt =====
-- A whole run ends every step that it began.
use fox_runner_server.Prelude.{
  ◌+◌, String, ◌≡◌, none, Bool, true, ◌&&◌, List, Option-cases, Bool-cases, inl, inr, arith,
}
use fox_runner_server.Prelude.Dict.{get-put}
use fox_runner_server.Scenario.Step.{Steps, ScenarioDefinition}
use fox_runner_server.Scenario.Effects.{Result, return, raise, Value, State, Engine, StepEvent}
use fox_runner_server.Scenario.Runner.Loops.{Frame, execute_hook_steps}
use fox_runner_server.Scenario.Runner.Task.{
  TaskRunResult, Framed, continue, ◌>>=◌, recover, assign, note_step, hooks, fetch, capture,
  succeeded, failed, task_body, task_failure, quit_held, task_finally, first_frame, task_outcome,
  run_task,
}
use fox_runner_server.Scenario.Trace.{total, begins, ends, Level, flag, Assumed}
use fox_runner_server.Scenario.Trace.Steps.{tidy_steps, both}
use fox_runner_server.Scenario.Trace.Loops.{
  Creates, hook_loop-Levels, after_hooks-Level, main_loop-Level,
}

-- Every step group of the scenario is tidy.
unfoldable pub tidy : ScenarioDefinition → Bool
tidy scenario =
    tidy_steps scenario.before_steps
    && (tidy_steps scenario.steps
        && (tidy_steps scenario.on_success_steps
            && (tidy_steps scenario.on_failure_steps && tidy_steps scenario.finally_steps)))

module _ {W : Type 0} (e : Engine W) (a : Assumed e) where
  record LevelsFramed {A : Type 0} (m : Framed W A) : Type 0 where
    at : (f : Frame) (xs : List StepEvent) (s : State W) → Level xs s → Level xs (m f s).2

  bind-LevelsFramed :
      {A B : Type 0} (m : Framed W A) (k : A → Framed W B)
      → LevelsFramed m
      → ((x : A) → LevelsFramed (k x))
      → LevelsFramed (m >>= k)
  bind-LevelsFramed {A} {B} m k km kk = record {
    at = λ f xs s h. go (m f s).0 (m f s).1 xs (m f s).2 (km.at f xs s h);
  }
    where
      go :
          (r : Result A) (f : Frame) (xs : List StepEvent) (s : State W)
          → Level xs s
          → Level xs (continue r k f s).2
      go (return x) f xs s h = (kk x).at f xs s h
      go (raise m) f xs s h = h

  hooks-LevelsFramed :
      (steps : Steps) (collection : String)
      → tidy_steps steps ≡ true
      → LevelsFramed (hooks e steps collection)
  unfolding hooks execute_hook_steps
  hooks-LevelsFramed steps collection t = record {
    at = λ f xs s h.
        after_hooks-Level e a _ xs _
          ((hook_loop-Levels e a steps collection 0 f.driver t).at xs s h);
  }

  fetch-LevelsFramed : LevelsFramed (fetch e)
  unfolding fetch
  fetch-LevelsFramed = record { at = λ f xs s h. h }

  note_step-LevelsFramed : LevelsFramed (note_step e)
  unfolding note_step assign
  note_step-LevelsFramed = record { at = λ f xs s h. (rw get-put h.0, h.1) }

  note_error-LevelsFramed : (message : String) → LevelsFramed (assign e "error_message" message)
  unfolding assign
  note_error-LevelsFramed message = record { at = λ f xs s h. (rw get-put h.0, h.1) }

  capture-LevelsFramed :
      (save : Value → String → W → Result (Unit {0}) × W) (folder extension : String)
      → LevelsFramed (capture e save folder extension)
  unfolding capture
  capture-LevelsFramed save folder extension = record {
    at = λ f xs s h. elim (Option-cases f.driver) [
      | inl absent ↦ rw (absent, capture) h
      | inr (v, present) ↦ elim (Bool-cases e.dry_run) [
        | inl dry ↦ rw (present, dry, capture) h
        | inr live ↦ rw (present, live, capture) h
      ]
    ];
  }

  quit_held-LevelsFramed : LevelsFramed (quit_held e)
  unfolding quit_held
  quit_held-LevelsFramed = record {
    at = λ f xs s h. elim (Option-cases f.driver) [
      | inl absent ↦ rw (absent, quit_held) h
      | inr (v, present) ↦ rw (present, quit_held) h
    ];
  }

  task_body-LevelsFramed :
      (scenario : ScenarioDefinition)
      → Creates e a
      → tidy_steps scenario.before_steps ≡ true
      → tidy_steps scenario.steps ≡ true
      → tidy_steps scenario.on_success_steps ≡ true
      → LevelsFramed (task_body e scenario)
  unfolding task_body succeeded
  task_body-LevelsFramed scenario c tb ts to =
      bind-LevelsFramed _ _ (hooks-LevelsFramed scenario.before_steps "before_steps" tb) λ _.
        bind-LevelsFramed _ _ fetch-LevelsFramed λ _.
          bind-LevelsFramed _ _
            (record { at = λ f xs s h. main_loop-Level e a scenario.steps 0 f xs s c ts h })
            λ _. bind-LevelsFramed _ _ note_step-LevelsFramed λ _.
              bind-LevelsFramed _ _ (hooks-LevelsFramed scenario.on_success_steps "on_success" to)
                λ _. bind-LevelsFramed _ _ fetch-LevelsFramed λ _. record { at = λ f xs s h. h }

  task_failure-LevelsFramed :
      (scenario : ScenarioDefinition) (message : String)
      → tidy_steps scenario.on_failure_steps ≡ true
      → LevelsFramed (task_failure e scenario message)
  unfolding task_failure failed
  task_failure-LevelsFramed scenario message t = bind-LevelsFramed _ _ note_step-LevelsFramed λ _.
      bind-LevelsFramed _ _ (note_error-LevelsFramed message) λ _.
        bind-LevelsFramed _ _ (capture-LevelsFramed e.save_screenshot "/screenshots/" ".png") λ _.
          bind-LevelsFramed _ _ (capture-LevelsFramed e.save_page_source "/pages/" ".html") λ _.
            bind-LevelsFramed _ _ (hooks-LevelsFramed scenario.on_failure_steps "on_failure" t)
              λ _. bind-LevelsFramed _ _ fetch-LevelsFramed λ _. record { at = λ f xs s h. h }

  task_finally-LevelsFramed :
      (scenario : ScenarioDefinition)
      → tidy_steps scenario.finally_steps ≡ true
      → LevelsFramed (task_finally e scenario)
  unfolding task_finally
  task_finally-LevelsFramed scenario t = bind-LevelsFramed _ _ note_step-LevelsFramed λ _.
      bind-LevelsFramed _ _ (hooks-LevelsFramed scenario.finally_steps "finally_steps" t)
        λ _. bind-LevelsFramed _ _ fetch-LevelsFramed λ _. quit_held-LevelsFramed

  recover-Level :
      (scenario : ScenarioDefinition)
      → tidy_steps scenario.on_failure_steps ≡ true
      → (r : Result TaskRunResult) (f : Frame) (xs : List StepEvent) (s : State W) → Level xs s
      → Level xs (recover r (task_failure e scenario) f s).2
  unfolding recover
  recover-Level scenario t (return x) f xs s h = h
  recover-Level scenario t (raise m) f xs s h = (task_failure-LevelsFramed scenario m t).at f xs s h

  run_task-Level :
      (scenario : ScenarioDefinition) (xs : List StepEvent) (s : State W)
      → Creates e a
      → tidy scenario ≡ true
      → Level xs s
      → Level xs (run_task e scenario s).1
  unfolding run_task task_outcome tidy
  run_task-Level scenario xs s c t h =
      let (tb, t1) = both (tidy_steps scenario.before_steps) _ t in
      let (ts, t2) = both (tidy_steps scenario.steps) _ t1 in
      let (to, t3) = both (tidy_steps scenario.on_success_steps) _ t2 in
      let (tf, tl) = both (tidy_steps scenario.on_failure_steps) _ t3 in
      (task_finally-LevelsFramed scenario tl).at _ xs _ (
        recover-Level scenario tf _ _ xs _
          ((task_body-LevelsFramed scenario c tb ts to).at (first_frame e) xs s h))

  -- For a scenario in which no child of a `parallel` block continues on an error, and where there
  -- is a sink, a browser can always be started, no operation writes the key of swallowed errors and
  -- the thread pool only runs its jobs: a run that begins with no swallowed error noted adds to the
  -- trace as many ends of steps (succeeded or failed) as beginnings, however it ends.
  pub run_task-total :
      (scenario : ScenarioDefinition) (s : State W)
      → Creates e a
      → tidy scenario ≡ true
      → flag s.context ≡ none
      → total begins (run_task e scenario s).1.events + total ends s.events
        ≡ total begins s.events + total ends (run_task e scenario s).1.events
  run_task-total scenario s c t clear =
      (run_task-Level scenario s.events s c t (clear, omega arith)).1
