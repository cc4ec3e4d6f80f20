-- ===== src/Scenario/Runner/TaskKeeps.antt =====
-- `run_task` keeps what every step, capture and `quit` keeps.
use fox_runner_server.Prelude.{String, ◌≡◌, some, false, List, Bool-cases, Option-cases, inl, inr}
use fox_runner_server.Prelude.Dict.{get}
use fox_runner_server.Scenario.Step.{Steps, ScenarioDefinition}
use fox_runner_server.Scenario.Effects.{
  Result, return, raise, Value, Driver, Context, State, Engine, StepEvent,
}
use fox_runner_server.Scenario.Engine.Keeps.{Inv, Rules, current_step, error_message}
use fox_runner_server.Scenario.Runner.Loops.{Frame, held_driver, fetch_driver}
use fox_runner_server.Scenario.Runner.Keeps.{execute_hook_steps-Inv, main_loop-Kept}
use fox_runner_server.Scenario.Runner.Task.{
  TaskRunResult, Framed, continue, ◌>>=◌, recover, assign, note_step, hooks, fetch, capture,
  succeeded, failed, task_body, task_failure, quit_held, task_finally, first_frame, task_outcome,
  run_task,
}

-- What the captures and `driver.quit()` have to keep.
pub record Closing {W : Type 0} (e : Engine W) (S : List StepEvent → W → Type 0)
    (D : Driver → Type 0) : Type 0 where
  pub screenshot :
      e.dry_run ≡ false
      → (v : Value) (path : String) (events : List StepEvent) (w : W) → S events w
      → S events (e.save_screenshot v path w).1
  pub page_source :
      e.dry_run ≡ false
      → (v : Value) (path : String) (events : List StepEvent) (w : W) → S events w
      → S events (e.save_page_source v path w).1
  pub quits :
      (v : Value) (events : List StepEvent) (w : W)
      → D (some v)
      → S events w
      → S events (e.quit_driver v w).1

module _ {W : Type 0} (e : Engine W) (C : Context → Type 0) (S : List StepEvent → W → Type 0)
    (D : Driver → Type 0) (rules : Rules e C S D) (closing : Closing e S D) where
  record KeepsFramed {A : Type 0} (m : Framed W A) : Type 0 where
    at :
        (f : Frame) (s : State W)
        → D f.driver
        → Inv e C S D s
        → D (m f s).1.driver × Inv e C S D (m f s).2

  bind-KeepsFramed :
      {A B : Type 0} (m : Framed W A) (k : A → Framed W B)
      → KeepsFramed m
      → ((a : A) → KeepsFramed (k a))
      → KeepsFramed (m >>= k)
  bind-KeepsFramed {A} {B} m k km kk = record {
    at = λ f s hd h. let g = km.at f s hd h in go (m f s).0 (m f s).1 (m f s).2 g.0 g.1;
  }
    where
      go :
          (r : Result A) (f : Frame) (s : State W)
          → D f.driver
          → Inv e C S D s
          → D (continue r k f s).1.driver × Inv e C S D (continue r k f s).2
      go (return a) f s hd h = (kk a).at f s hd h
      go (raise m) f s hd h = (hd, h)

  hooks-KeepsFramed : (steps : Steps) (collection : String) → KeepsFramed (hooks e steps collection)
  unfolding hooks
  hooks-KeepsFramed steps collection = record {
    at = λ f s hd h. (hd, execute_hook_steps-Inv e C S D rules steps collection f.driver s hd h);
  }

  held_driver-D : (c : Context) (f : Frame) → C c → D f.driver → D (fetch_driver c f).driver
  unfolding fetch_driver held_driver
  held_driver-D c f hc hd = elim (Option-cases (get c "__driver__")) [
    | inl absent ↦ rw (absent, held_driver) hd
    | inr (v, present) ↦ rw (present, held_driver) (rules.fetched v c hc present)
  ]

  fetch-KeepsFramed : KeepsFramed (fetch e)
  unfolding fetch
  fetch-KeepsFramed = record { at = λ f s hd h. (held_driver-D s.context f h.0 hd, h) }

  note_step-KeepsFramed : KeepsFramed (note_step e)
  unfolding note_step assign
  note_step-KeepsFramed = record {
    at = λ f s hd h. (hd, (rules.noted current_step f.current_step _ h.0, h.1));
  }

  note_error-KeepsFramed : (message : String) → KeepsFramed (assign e "error_message" message)
  unfolding assign
  note_error-KeepsFramed message = record {
    at = λ f s hd h. (hd, (rules.noted error_message message _ h.0, h.1));
  }

  capture-KeepsFramed :
      (save : Value → String → W → Result (Unit {0}) × W) (folder extension : String)
      → (e.dry_run ≡ false
          → (v : Value) (path : String) (events : List StepEvent) (w : W) → S events w
          → S events (save v path w).1)
      → KeepsFramed (capture e save folder extension)
  unfolding capture
  capture-KeepsFramed save folder extension keeps = record {
    at = λ f s hd h. elim (Option-cases f.driver) [
      | inl absent ↦ rw (absent, capture) (hd, h)
      | inr (v, present) ↦ elim (Bool-cases e.dry_run) [
        | inl dry ↦ rw (present, dry, capture) (hd, h)
        | inr live ↦ rw (present, live, capture) (hd, (h.0, keeps live v _ _ _ h.1))
      ]
    ];
  }

  task_body-KeepsFramed : (scenario : ScenarioDefinition) → KeepsFramed (task_body e scenario)
  unfolding task_body succeeded
  task_body-KeepsFramed scenario =
      bind-KeepsFramed _ _ (hooks-KeepsFramed scenario.before_steps "before_steps") λ _.
        bind-KeepsFramed _ _ fetch-KeepsFramed λ _.
          bind-KeepsFramed _ _ (record { at = main_loop-Kept e C S D rules scenario.steps 0 })
            λ _. bind-KeepsFramed _ _ note_step-KeepsFramed λ _.
              bind-KeepsFramed _ _ (hooks-KeepsFramed scenario.on_success_steps "on_success")
                λ _. bind-KeepsFramed _ _ fetch-KeepsFramed λ _. record { at = λ f s hd h. (hd, h) }

  task_failure-KeepsFramed :
      (scenario : ScenarioDefinition) (message : String)
      → KeepsFramed (task_failure e scenario message)
  unfolding task_failure failed
  task_failure-KeepsFramed scenario message = bind-KeepsFramed _ _ note_step-KeepsFramed λ _.
      bind-KeepsFramed _ _ (note_error-KeepsFramed message) λ _.
        bind-KeepsFramed _ _ (capture-KeepsFramed _ "/screenshots/" ".png" closing.screenshot) λ _.
          bind-KeepsFramed _ _ (capture-KeepsFramed _ "/pages/" ".html" closing.page_source) λ _.
            bind-KeepsFramed _ _ (hooks-KeepsFramed scenario.on_failure_steps "on_failure")
              λ _. bind-KeepsFramed _ _ fetch-KeepsFramed λ _. record { at = λ f s hd h. (hd, h) }

  quit_held-KeepsFramed : KeepsFramed (quit_held e)
  unfolding quit_held
  quit_held-KeepsFramed = record {
    at = λ f s hd h. elim (Option-cases f.driver) [
      | inl absent ↦ rw (absent, quit_held) (hd, h)
      | inr (v, present) ↦
          rw (present, quit_held)
            (hd, (h.0, closing.quits v s.events s.world (rw present at hd) h.1))
    ];
  }

  task_finally-KeepsFramed : (scenario : ScenarioDefinition) → KeepsFramed (task_finally e scenario)
  unfolding task_finally
  task_finally-KeepsFramed scenario = bind-KeepsFramed _ _ note_step-KeepsFramed λ _.
      bind-KeepsFramed _ _ (hooks-KeepsFramed scenario.finally_steps "finally_steps")
        λ _. bind-KeepsFramed _ _ fetch-KeepsFramed λ _. quit_held-KeepsFramed

  pub task_outcome-Kept :
      (scenario : ScenarioDefinition) (s : State W)
      → Inv e C S D s
      → D (task_outcome e scenario s).1.driver × Inv e C S D (task_outcome e scenario s).2
  unfolding task_outcome first_frame recover
  task_outcome-Kept scenario s h =
      let g = (task_body-KeepsFramed scenario).at (first_frame e) s rules.missing h in
      go (task_body e scenario (first_frame e) s).0 _ _ g.0 g.1
    where
      go :
          (r : Result TaskRunResult) (f : Frame) (s : State W)
          → D f.driver
          → Inv e C S D s
          → D (recover r (task_failure e scenario) f s).1.driver
            × Inv e C S D (recover r (task_failure e scenario) f s).2
      go (return a) f s hd h = (hd, h)
      go (raise m) f s hd h = (task_failure-KeepsFramed scenario m).at f s hd h

  pub run_task-Inv :
      (scenario : ScenarioDefinition) (s : State W)
      → Inv e C S D s
      → Inv e C S D (run_task e scenario s).1
  unfolding run_task
  run_task-Inv scenario s h =
      let g = task_outcome-Kept scenario s h in
      ((task_finally-KeepsFramed scenario).at _ _ g.0 g.1).1
