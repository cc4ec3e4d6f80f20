-- ===== src/Scenario/Step.antt =====
-- scenarios/loader.py (`ScenarioStep`, `ScenarioDefinition`) and scenarios/schema.py: the steps of a
-- scenario. The payload of an atomic step is opaque to the engine; that of a block holds its steps.
use fox_runner_server.Prelude.{ℕ, String, Option, Bool, true, false, ◌||◌}

-- `ATOMIC_STEP_TYPES`
pub data AtomicType : Type 0 where
  open_url click wait_for_element input_text assert_text assert_attribute : AtomicType
  extract_text_to_context extract_attribute_to_context screenshot select_option : AtomicType
  wait_until_url_contains wait_until_title_contains close_browser : AtomicType
  sleep sleep_random notify http_request require_enterprise_network : AtomicType
  set_context format_context : AtomicType

unfoldable pub atomic_name : AtomicType → String
atomic_name open_url = "open_url"
atomic_name click = "click"
atomic_name wait_for_element = "wait_for_element"
atomic_name input_text = "input_text"
atomic_name assert_text = "assert_text"
atomic_name assert_attribute = "assert_attribute"
atomic_name extract_text_to_context = "extract_text_to_context"
atomic_name extract_attribute_to_context = "extract_attribute_to_context"
atomic_name screenshot = "screenshot"
atomic_name select_option = "select_option"
atomic_name wait_until_url_contains = "wait_until_url_contains"
atomic_name wait_until_title_contains = "wait_until_title_contains"
atomic_name close_browser = "close_browser"
atomic_name sleep = "sleep"
atomic_name sleep_random = "sleep_random"
atomic_name notify = "notify"
atomic_name http_request = "http_request"
atomic_name require_enterprise_network = "require_enterprise_network"
atomic_name set_context = "set_context"
atomic_name format_context = "format_context"

-- `_requires_driver`
unfoldable pub requires_driver : AtomicType → Bool
requires_driver sleep = false
requires_driver sleep_random = false
requires_driver notify = false
requires_driver http_request = false
requires_driver require_enterprise_network = false
requires_driver set_context = false
requires_driver format_context = false
requires_driver _ = true

-- `build_parallel_safe_steps`
unfoldable pub is_parallel_safe : AtomicType → Bool
is_parallel_safe sleep = true
is_parallel_safe sleep_random = true
is_parallel_safe notify = true
is_parallel_safe http_request = true
is_parallel_safe require_enterprise_network = true
is_parallel_safe set_context = true
is_parallel_safe format_context = true
is_parallel_safe _ = false

-- The fields of `ScenarioStep` beside `type` and `payload`. Durations are in milliseconds, and the
-- backoff in thousandths; `_build_step` refuses a negative `retry`.
pub record Options : Type 0 where
  pub condition : Option String
  pub retry : ℕ
  pub retry_delay : ℕ
  pub retry_backoff : ℕ
  pub timeout : Option ℕ
  pub continue_on_error : Bool

mutual
  -- `type` and `payload`
  pub data Body : Type 0 where
    atomic : AtomicType → (fields : String) → Body
    group : Steps → Body
    repeat : (times : ℕ) → Steps → Body
    parallel : Steps → Body
    try_catch : (try_steps catch_steps finally_steps : Steps) → Body

  pub data Step : Type 0 where
    step : Options → Body → Step

  pub data Steps : Type 0 where
    nil : Steps
    cons : Step → Steps → Steps

unfoldable pub body_name : Body → String
unfolding atomic_name
body_name (atomic kind _) = atomic_name kind
body_name (group _) = "group"
body_name (repeat _ _) = "repeat"
body_name (parallel _) = "parallel"
body_name (try_catch _ _ _) = "try"

-- `step.type`
unfoldable pub type_name : Step → String
unfolding body_name
type_name (step _ body) = body_name body

abbrev pub options_of : Step → Options
options_of (step options _) = options

pub record ScenarioDefinition : Type 0 where
  pub scenario_id : String
  pub steps : Steps
  pub before_steps : Steps
  pub on_success_steps : Steps
  pub on_failure_steps : Steps
  pub finally_steps : Steps
  pub requires_enterprise_network : Bool

-- `_step_requires_enterprise_network`, and `any` of it over a tuple of steps
unfoldable mutual
  pub body_requires_network : Body → Bool
  body_requires_network (atomic require_enterprise_network _) = true
  body_requires_network (atomic _ _) = false
  body_requires_network (group steps) = any_requires_network steps
  body_requires_network (repeat _ steps) = any_requires_network steps
  body_requires_network (parallel steps) = any_requires_network steps
  body_requires_network (try_catch try_steps catch_steps finally_steps) =
      any_requires_network try_steps
      || any_requires_network catch_steps
      || any_requires_network finally_steps

  pub step_requires_network : Step → Bool
  step_requires_network (step _ body) = body_requires_network body

  pub any_requires_network : Steps → Bool
  any_requires_network nil = false
  any_requires_network (cons s rest) = step_requires_network s || any_requires_network rest
