-- ===== src/Scenario/Reports.antt =====
-- What the result of `run_task` (scenarios/runner.py) says of the run.
use fox_runner_server.Prelude.{String, ◌≡◌, refl, ◌∙◌, ap, Option, Bool, true, false, arith}
use fox_runner_server.Prelude.Dict.{get}
use fox_runner_server.Scenario.Step.{ScenarioDefinition}
use fox_runner_server.Scenario.Effects.{Result, return, raise, State, Engine}
use fox_runner_server.Scenario.Runner.Loops.{Frame, main_loop}
use fox_runner_server.Scenario.Runner.Task.{
  TaskRunResult, Framed, continue, ◌>>=◌, recover, assign, note_step, capture, hooks, fetch,
  succeeded, failed, task_body, task_failure, first_frame, task_outcome, run_task,
}

module _ {W A : Type 0} where
  -- `P` holds of what `m` returns, with the locals and the state that it leaves.
  record Returns (P : A → Frame → State W → Type 0) (m : Framed W A) : Type 0 where
    at : (f : Frame) (s : State W) (x : A) → (m f s).0 ≡ return x → P x (m f s).1 (m f s).2

module _ {W A B : Type 0} (P : B → Frame → State W → Type 0) where
  bind-Returns :
      (m : Framed W A) (k : A → Framed W B) → ((a : A) → Returns P (k a)) → Returns P (m >>= k)
  bind-Returns m k kk = record { at = λ f s. go (m f s).0 (m f s).1 (m f s).2 }
    where
      go :
          (r : Result A) (f : Frame) (s : State W) (x : B)
          → (continue r k f s).0 ≡ return x
          → P x (continue r k f s).1 (continue r k f s).2
      go (return a) f s x h = (kk a).at f s x h
      go (raise m') f s x h = cc

module _ {W : Type 0} where
  -- The result names the step begun last and the execution id that the context holds.
  abbrev pub Describes : Bool → TaskRunResult → Frame → State W → Type 0
  Describes done r f s =
      (r.success ≡ done)
      × (r.step ≡ f.current_step)
      × (r.execution_id ≡ get s.context "execution_id")

-- What a result says of the `try` suite that led to it.
abbrev pub Report : Result TaskRunResult → TaskRunResult → Type 0
Report (return b) r = (r ≡ b) × (r.success ≡ true)
Report (raise m) r = (r.success ≡ false) × (r.message ≡ m)

module _ {W : Type 0} (e : Engine W) (scenario : ScenarioDefinition) where
  succeeded-Returns : Returns (Describes true) (succeeded e)
  unfolding succeeded
  succeeded-Returns = record { at = λ f s x h. ground arith }

  task_body-Returns : Returns (Describes true) (task_body e scenario)
  unfolding task_body
  task_body-Returns = bind-Returns _ (hooks e scenario.before_steps "before_steps") _ λ _.
      bind-Returns _ (fetch e) _ λ _. bind-Returns _ (main_loop e 0 scenario.steps) _ λ _.
        bind-Returns _ (note_step e) _ λ _.
          bind-Returns _ (hooks e scenario.on_success_steps "on_success") _
            λ _. bind-Returns _ (fetch e) _ λ _. succeeded-Returns

  failed-Returns :
      (message : String) (screenshot page_source : Option String)
      → Returns
          (λ x f s. Describes false x f s × (x.message ≡ message))
          (failed e message screenshot page_source)
  unfolding failed
  failed-Returns message screenshot page_source = record { at = λ f s x h. ground arith }

  task_failure-Returns :
      (message : String)
      → Returns
          (λ x f s. Describes false x f s × (x.message ≡ message))
          (task_failure e scenario message)
  unfolding task_failure
  task_failure-Returns message = bind-Returns _ (note_step e) _ λ _.
      bind-Returns _ (assign e "error_message" message) _ λ _.
        bind-Returns _ (capture e e.save_screenshot "/screenshots/" ".png") _ λ shot.
          bind-Returns _ (capture e e.save_page_source "/pages/" ".html") _ λ source.
            bind-Returns _ (hooks e scenario.on_failure_steps "on_failure") _
              λ _. bind-Returns _ (fetch e) _ λ _. failed-Returns message shot source

  recover-Report :
      (out : Result TaskRunResult × Frame × State W)
      → ((b : TaskRunResult) → out.0 ≡ return b → Describes true b out.1 out.2)
      → (r : TaskRunResult) → (recover out.0 (task_failure e scenario) out.1 out.2).0 ≡ return r
      → Report out.0 r
        × (r.execution_id
            ≡ get (recover out.0 (task_failure e scenario) out.1 out.2).2.context "execution_id")
  unfolding recover
  recover-Report (return b, f, s) body r h =
      let d = body b refl in
      let same : r ≡ b = cc in
      (
        (same, ap (λ (x : TaskRunResult). x.success) same ∙ d.0),
        ap (λ (x : TaskRunResult). x.execution_id) same ∙ d.2,
      )
  recover-Report (raise m, f, s) body r h =
      let d = (task_failure-Returns m).at f s r h in ((d.0.0, d.1), d.0.2)

  closed_result :
      (closing : Result (Unit {0})) (outcome : Result TaskRunResult) (r : TaskRunResult)
      → (elim closing [ return _ ↦ outcome | raise m ↦ raise m ]) ≡ return r
      → outcome ≡ return r
  closed_result (return u) outcome r h = h
  closed_result (raise m) outcome r h = cc

  -- When `run_task` returns a result, that result reports success exactly if the `try` suite
  -- (before hooks, steps and success hooks) ran to its end, and it is then the suite's own result;
  -- otherwise it reports failure with the text of the exception that ended the suite. Its execution
  -- id is the one that the context held when the `try` statement was left.
  pub run_task-Report :
      (s : State W) (r : TaskRunResult)
      → (run_task e scenario s).0 ≡ return r
      → Report (task_body e scenario (first_frame e) s).0 r
        × (r.execution_id ≡ get (task_outcome e scenario s).2.context "execution_id")
  unfolding run_task task_outcome
  run_task-Report s r h =
      recover-Report (task_body e scenario (first_frame e) s)
        (λ b. task_body-Returns.at (first_frame e) s b) r (closed_result _ _ r h)
