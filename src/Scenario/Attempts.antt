-- ===== src/Scenario/Attempts.antt =====
-- The retry loop of `_execute_scenario_step` (scenarios/runner.py), around one attempt at a step.
-- The local variable `driver` outlives a failed attempt, so an attempt gives its value as well.
use fox_runner_server.Prelude.{
  ℕ, zero, suc, ◌+◌, ◌*◌, ◌-◌, ◌/◌, ◌^◌, String, Option, none, some, Bool, true, false, not, ◌&&◌,
  ltb, get_or, append_str, if◌then◌else◌,
}
use fox_runner_server.Prelude.Dict.{put}
use fox_runner_server.Scenario.Step.{Options, AtomicType, requires_driver}
use fox_runner_server.Scenario.Effects.{
  Result, return, raise, text, Driver, State, Action, Engine, StepEvent, step_failed, step_retrying,
  warning, attempt, continued, emit,
}
use fox_runner_server.Scenario.When.{should_execute}

-- result, the local `driver`, state
abbrev pub Attempt : Type 0 → Type 0
Attempt W = Driver → State W → Result Driver × Driver × State W

-- `step_id if step_id is not None else f"steps[?]:{step.type}"`
abbrev pub event_id : Option String → String → String
event_id none name = append_str "steps[?]:" name
event_id (some id) name = id

module _ {W : Type 0} where
  unfoldable pub after_driver : Driver → Result Driver → (Driver → Action W Driver) → Attempt W
  after_driver old (raise m) run _ s = (raise m, old, s)
  after_driver old (return d) run _ s = let (r, s') = run d s in (r, d, s')

  -- one attempt at a block: the local `driver` is not assigned
  unfoldable pub block_attempt : (Driver → Action W Driver) → Attempt W
  block_attempt run driver s = let (r, s') = run driver s in (r, driver, s')

unfoldable pub retry_event : String → String → String → ℕ → StepEvent
retry_event id name message index = record {
  step_id = id;
  event_type = step_retrying;
  step_type = name;
  level = warning;
  message = message;
  traceback = false;
  payload = attempt (index + 1);
  duration_ms = none;
}

-- `step.retry_delay_seconds * step.retry_backoff_seconds ** attempt_index`
unfoldable pub retry_delay : Options → ℕ → ℕ
retry_delay o index = o.retry_delay * o.retry_backoff ^ index / 1000 ^ index

unfoldable pub swallow_event : String → String → String → StepEvent
swallow_event id name message = record {
  step_id = id;
  event_type = step_failed;
  step_type = name;
  level = warning;
  message = message;
  traceback = false;
  payload = continued;
  duration_ms = none;
}

module _ {W : Type 0} (e : Engine W) where
  -- `handler(op_context, payload); return op_context.driver`
  unfoldable pub execute_step : AtomicType → String → Driver → Action W Driver
  execute_step kind fields driver s =
      let (r, context, world) = e.handle kind fields e.dry_run driver s.context s.world in
      (r, record s { context = context; world = world })

  -- `_run_with_timeout`: the pool is left only when the handler has ended, so its effects stay.
  -- (Its `except` clause also renames a `TimeoutError` that the handler itself raises in time.)
  unfoldable pub run_with_timeout : Action W Driver → ℕ → Action W Driver
  run_with_timeout fn limit s =
      let (r, s') = fn s in
      if ltb limit (e.now s'.world - e.now s.world)
      then (raise (append_str "Etape depassee apres " (append_str (e.seconds_text limit) "s.")), s')
      else (r, s')

  unfoldable pub timed : Option ℕ → Action W Driver → Action W Driver
  timed none fn = fn
  timed (some limit) fn = run_with_timeout fn limit

  -- `driver = create_driver(config)` where the step needs one that is missing
  unfoldable pub ensure_driver : Bool → Driver → Action W Driver
  ensure_driver needed (some d) s = (return (some d), s)
  ensure_driver false none s = (return none, s)
  ensure_driver true none s =
      let (r, world) = e.create_driver s.world in
      (elim r [ return d ↦ return (some d) | raise m ↦ raise m ], record s { world = world })

  -- one attempt at an atomic step
  unfoldable pub atomic_attempt : AtomicType → String → Options → Attempt W
  atomic_attempt kind fields o driver s =
      let (acquired, s') = ensure_driver (not e.dry_run && requires_driver kind) driver s in
      after_driver driver acquired (λ d. timed o.timeout (execute_step kind fields d)) driver s'

  unfoldable pub pause : Options → ℕ → State W → State W
  pause o index s =
      if ltb 0 o.retry_delay then record s { world = e.sleep (retry_delay o index) s.world } else s

  -- what stands between a failed attempt and the next one
  unfoldable pub before_retry : Options → String → String → String → ℕ → State W → State W
  before_retry o id name message index s =
      pause o index (emit e (retry_event id name message index) s)

  -- The loop with `left` retries left, at `attempt_index = index`.
  unfoldable pub attempts : Options → String → String → Attempt W → (left index : ℕ) → Attempt W
  attempts o id name body zero index driver s = body driver s
  attempts o id name body (suc left) index driver s =
      let (r, driver', s') = body driver s in
      elim r [
        | return d ↦ (return d, driver', s')
        | raise m ↦
            attempts o id name body left (index + 1) driver' (before_retry o id name m index s')
      ]

  -- `except` part after the last attempt: a `continue_on_error` step gives the local `driver`.
  unfoldable pub swallow : Option String → String → String → State W → State W
  swallow id name message s =
      let noted = put s.context "error_message" (text message) in
      let noted' = put noted "last_error_message" (text message) in
      let noted'' = put noted' "last_error_step" (text name) in
      let shown =
        emit e (swallow_event (event_id id name) name message) (record s { context = noted'' }) in
      record shown {
        context = put shown.context "__step_swallowed_error__" (text (get_or id name));
      }

  unfoldable pub conclude :
      Options → Option String → String → Result Driver × Driver × State W → Result Driver × State W
  conclude o id name (return d, driver, s) = (return d, s)
  conclude o id name (raise m, driver, s) =
      if o.continue_on_error then (return driver, swallow id name m s) else (raise m, s)

  -- `_execute_scenario_step` around the attempt: the guard, the loop, the swallowed error. A step
  -- that is not executed gives `None`, not the driver that it was handed.
  unfoldable pub guarded : Options → Option String → String → Attempt W → Driver → Action W Driver
  guarded o id name body driver s = elim (should_execute e o.condition s.context) [
    | raise m ↦ (raise m, s)
    | return false ↦ (return none, s)
    | return true ↦ conclude o id name (attempts o (event_id id name) name body o.retry 0 driver s)
  ]
