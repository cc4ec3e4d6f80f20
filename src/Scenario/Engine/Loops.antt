-- ===== src/Scenario/Engine/Loops.antt =====
-- The loops and the exception handling of scenarios/engine.py, each over the action that it runs.
use Prim.Native.Nat.{Ordering}
use Prim.Native.String.{compare}
use fox_runner_server.Prelude.{
  ℕ, zero, suc, ◌-◌, String, Option, none, some, Bool, true, false, List, [], ◌∷◌, append_str,
  get_or, if◌then◌else◌,
}
use fox_runner_server.Prelude.Dict.{get, put, pop}
use fox_runner_server.Prelude.Decimal.{show}
use fox_runner_server.Scenario.Effects.{
  Result, return, raise, text, Driver, Context, State, Job, Action, Engine, StepEvent, step_started,
  step_succeeded, step_failed, step_skipped, info, error, empty, pure, throw, except,
  modify_context, emit, ◌>>=◌, ◌>>◌,
}

-- what runs steps from a driver
abbrev pub Runner : Type 0 → Type 0
Runner W = Driver → Action W Driver

unfoldable pub started_event : String → String → StepEvent
started_event id name = record {
  step_id = id;
  event_type = step_started;
  step_type = name;
  level = info;
  message = "";
  traceback = false;
  payload = empty;
  duration_ms = none;
}

unfoldable pub failed_event : String → String → String → ℕ → StepEvent
failed_event id name message duration = record {
  step_id = id;
  event_type = step_failed;
  step_type = name;
  level = error;
  message = message;
  traceback = true;
  payload = empty;
  duration_ms = some duration;
}

unfoldable pub succeeded_event : String → String → ℕ → StepEvent
succeeded_event id name duration = record {
  step_id = id;
  event_type = step_succeeded;
  step_type = name;
  level = info;
  message = "";
  traceback = false;
  payload = empty;
  duration_ms = some duration;
}

unfoldable pub skipped_event : String → String → StepEvent
skipped_event id name = record {
  step_id = id;
  event_type = step_skipped;
  step_type = name;
  level = info;
  message = "Étape ignorée (condition when=faux).";
  traceback = false;
  payload = empty;
  duration_ms = none;
}

-- `_child_step_id`
unfoldable pub child_step_id : Option String → String → ℕ → Option String
child_step_id none label index = none
child_step_id (some id) label index = some (
    append_str id
      (append_str ">" (append_str label (append_str "[" (append_str (show index) "]")))))

-- `context.pop("__step_swallowed_error__", None)`
unfoldable pub pop_flag : Context → Context
pop_flag c = pop c "__step_swallowed_error__"

-- `updated_driver` after the `try` and its `except`, for the `finally` part
abbrev pub driver_after : Driver → Result Driver → Driver
driver_after driver (return d) = d
driver_after driver (raise m) = driver

-- A `finally` suite: what it raises replaces the outcome; else the outcome stands, with the
-- driver that the suite gave.
abbrev pub settle : Result Driver → Result Driver → Result Driver
settle (return d) (return d') = return d'
settle (raise m) (return d') = raise m
settle r (raise m) = raise m

module _ {W : Type 0} (e : Engine W) where
  -- what the loop does with the outcome of a step that began at `started`
  unfoldable pub report : String → String → ℕ → Result Driver → Action W Driver
  report id name started (raise m) s =
      (raise m, emit e (failed_event id name m (e.now s.world - started)) s)
  report id name started (return d) s = elim (get s.context "__step_swallowed_error__") [
    | some _ ↦ (return d, record s { context = pop_flag s.context })
    | none ↦ (
      return d,
      emit e (succeeded_event id name (e.now s.world - started))
          (record s { context = pop_flag s.context }),
    )
  ]

  -- `context.pop(flag)`, the step, and its end
  unfoldable pub run_reported : String → String → ℕ → Action W Driver → Action W Driver
  run_reported id name started run s =
      let (r, after) = run (record s { context = pop_flag s.context }) in
      report id name started r after

  -- `_emit(step_started)`
  unfoldable pub announce : String → String → State W → State W
  announce id name = emit e (started_event id name)

  -- One round of the loops over steps: announce the step, run it, announce its end.
  unfoldable pub observed_step : Option String → String → Action W Driver → Action W Driver
  observed_step id name run s =
      let begun = announce (get_or id "") name s in
      run_reported (get_or id "") name (e.now begun.world) run begun

module _ {W : Type 0} where
  -- `for _ in range(times)`
  unfoldable pub repeat_loop : ℕ → Runner W → Runner W
  repeat_loop zero run driver = pure driver
  repeat_loop (suc left) run driver = run driver >>= repeat_loop left run

  -- `except Exception as exc` of `execute_try_step`: `driver` is the one that the `try` began with
  unfoldable pub catch_with : Bool → Runner W → Driver → String → Action W Driver
  catch_with no_catch catch driver m = do
    modify_context (λ c. put c "error_message" (text m))
    if no_catch then throw m else catch driver

  unfoldable pub finally_do : Bool → Runner W → Driver → Action W Driver → Action W Driver
  finally_do no_finally last driver body s =
      let (r, s') = body s in
      if no_finally
      then (r, s')
      else let (r', s'') = last (driver_after driver r) s' in (settle r r', s'')

  -- `execute_try_step`
  unfoldable pub try_block : Runner W → Bool → Runner W → Bool → Runner W → Runner W
  try_block body no_catch catch no_finally last driver =
      finally_do no_finally last driver
        (λ s. let (r, s') = body driver s in except r (catch_with no_catch catch driver) s')

  -- a job of the pool: its own context, the shared events and world
  unfoldable pub contained : Context → Action W Driver → Job W
  contained context run (events, world) =
      let (r, s) = run (record { context = context; events = events; world = world }) in
      (r, (s.events, s.world))

-- `for future in futures: future.result()`
unfoldable pub first_failure : List (Result Driver) → Option String
first_failure [] = none
first_failure (return d ∷ rest) = first_failure rest
first_failure (raise m ∷ rest) = some m

-- `sorted(set(...))`, one name at a time
unfoldable pub insert_name : String → List String → List String
insert_name name [] = name ∷ []
insert_name name (other ∷ rest) =
    let more = insert_name name rest in
    elim (compare name other) [
      | Ordering.lt ↦ name ∷ other ∷ rest
      | Ordering.eq ↦ other ∷ rest
      | Ordering.gt ↦ other ∷ more
    ]

unfoldable pub sorted_set : List String → List String
sorted_set [] = []
sorted_set (name ∷ names) = insert_name name (sorted_set names)

-- `", ".join(...)`
unfoldable pub join : List String → String
join [] = ""
join (name ∷ []) = name
join (name ∷ names) = append_str name (append_str ", " (join names))

unfoldable pub refusal : List String → String
refusal unsafe =
    append_str "Le bloc 'parallel' ne supporte pas ces types: " (join (sorted_set unsafe))

module _ {W : Type 0} (e : Engine W) where
  -- `execute_parallel_steps`
  unfoldable pub parallel_block : List String → (State W → List (Job W)) → Runner W
  parallel_block (name ∷ names) jobs driver s = (raise (refusal (name ∷ names)), s)
  parallel_block [] jobs driver s =
      let (results, (events, world)) = e.pool (jobs s) (s.events, s.world) in
      let after = record s { events = events; world = world } in
      elim (first_failure results) [ none ↦ (return driver, after) | some m ↦ (raise m, after) ]
