-- ===== src/Documents/Steps.antt =====
-- `_validate_step_document` and `_validate_step_payload_document` of scenarios/loader.py.
use fox_runner_server.Prelude.{
  String, ℤ, Option, none, some, Bool, ◌||◌, List, [], ◌∷◌, str_eq, if◌then◌else◌,
}
use fox_runner_server.Prelude.Json as Json
use fox_runner_server.Prelude.Json.{Json, Items, Fields, field_of, has_field}
use fox_runner_server.Scenario.Effects.{Result, return, raise}
use fox_runner_server.Documents.Checks.{say, ◌then◌, demand, require_keys, has_some, is_positive}
use fox_runner_server.Scenario.Engine.{join, sorted_set}

-- `SUPPORTED_STEP_TYPES`
unfoldable pub is_atomic_type : String → Bool
is_atomic_type kind =
    str_eq kind "open_url"
    || str_eq kind "click"
    || str_eq kind "wait_for_element"
    || str_eq kind "input_text"
    || str_eq kind "assert_text"
    || str_eq kind "assert_attribute"
    || str_eq kind "extract_text_to_context"
    || str_eq kind "extract_attribute_to_context"
    || str_eq kind "screenshot"
    || str_eq kind "select_option"
    || str_eq kind "wait_until_url_contains"
    || str_eq kind "wait_until_title_contains"
    || str_eq kind "close_browser"
    || str_eq kind "sleep"
    || str_eq kind "sleep_random"
    || str_eq kind "notify"
    || str_eq kind "http_request"
    || str_eq kind "require_enterprise_network"
    || str_eq kind "set_context"
    || str_eq kind "format_context"

-- `step_type in {"group", "parallel", "repeat"}`
unfoldable pub is_sequence : String → Bool
is_sequence kind = str_eq kind "group" || str_eq kind "parallel" || str_eq kind "repeat"

unfoldable pub is_supported : String → Bool
is_supported kind = is_atomic_type kind || is_sequence kind || str_eq kind "try"

-- the step types that a parallel block may hold
unfoldable pub may_run_parallel : String → Bool
may_run_parallel kind =
    str_eq kind "sleep"
    || str_eq kind "sleep_random"
    || str_eq kind "notify"
    || str_eq kind "http_request"
    || str_eq kind "require_enterprise_network"
    || str_eq kind "set_context"
    || str_eq kind "format_context"

-- the keys that a step of the type needs
unfoldable pub required_keys : String → List String
required_keys kind =
    if str_eq kind "open_url" || str_eq kind "http_request"
    then "url" ∷ []
    else if str_eq kind "click" || str_eq kind "wait_for_element" || str_eq kind "select_option"
    then "by" ∷ "locator" ∷ []
    else if str_eq kind "input_text" || str_eq kind "assert_text"
    then "by" ∷ "locator" ∷ "text" ∷ []
    else if str_eq kind "assert_attribute"
    then "by" ∷ "locator" ∷ "attribute" ∷ "value" ∷ []
    else if str_eq kind "extract_text_to_context"
    then "key" ∷ "by" ∷ "locator" ∷ []
    else if str_eq kind "extract_attribute_to_context"
    then "key" ∷ "by" ∷ "locator" ∷ "attribute" ∷ []
    else if str_eq kind "screenshot"
    then "path" ∷ []
    else if str_eq kind "wait_until_url_contains" || str_eq kind "wait_until_title_contains"
    then "value" ∷ []
    else if str_eq kind "sleep"
    then "seconds" ∷ []
    else if str_eq kind "sleep_random"
    then "min_seconds" ∷ "max_seconds" ∷ []
    else if str_eq kind "notify"
    then "message" ∷ []
    else if str_eq kind "set_context"
    then "key" ∷ []
    else if str_eq kind "format_context"
    then "key" ∷ "template" ∷ []
    else []

-- the types of the steps of a list that a parallel block may not hold; the steps have been checked
unfoldable pub not_parallel : Items → List String
not_parallel Json.nil = []
not_parallel (Json.cons (Json.obj fs) rest) =
    let others = not_parallel rest in
    elim (field_of fs "type") [
      | some (Json.text kind) ↦ if may_run_parallel kind then others else kind ∷ others
      | _ ↦ others
    ]
not_parallel (Json.cons _ rest) = not_parallel rest

unfoldable pub not_parallel_in : Option Json → List String
not_parallel_in (some (Json.arr xs)) = not_parallel xs
not_parallel_in _ = []

unfoldable pub none_listed : List String → String → Result (Unit {0})
none_listed [] message = return tt
none_listed (kind ∷ kinds) message = raise message

unfoldable pub text_or_blank : Option Json → String
text_or_blank (some (Json.text s)) = s
text_or_blank _ = ""

-- What Python does with values: `str` of one, and `int` of a text.
pub record Texts : Type 0 where
  pub shown : Json → String
  pub int_of_text : String → Option ℤ

module _ (t : Texts) where
  -- `int(value) <= 0` raises the message; a value that is no number raises by itself
  unfoldable pub demand_positive : Option Json → String → Result (Unit {0})
  demand_positive (some (Json.num n)) message = demand (is_positive n) message
  demand_positive (some (Json.bool b)) message = demand b message
  demand_positive (some (Json.text s)) message = elim (t.int_of_text s) [
    | none ↦ raise "ValueError: invalid literal for int()"
    | some n ↦ demand (is_positive n) message
  ]
  demand_positive (some Json.null) message = raise "TypeError: int() argument"
  demand_positive (some (Json.arr xs)) message = raise "TypeError: int() argument"
  demand_positive (some (Json.obj fs)) message = raise "TypeError: int() argument"
  demand_positive none message = raise "KeyError: 'times'"

  -- the type of a step, which is a supported one
  unfoldable pub checked_type : (filename : String) → Option Json → Result String
  checked_type filename (some (Json.text kind)) =
      if is_supported kind
      then return kind
      else raise (say (filename ∷ ": type d'etape non supporte: " ∷ kind ∷ []))
  checked_type filename (some (Json.arr xs)) = raise "TypeError: unhashable type: 'list'"
  checked_type filename (some (Json.obj fs)) = raise "TypeError: unhashable type: 'dict'"
  checked_type filename (some Json.null) =
      raise (say (filename ∷ ": type d'etape non supporte: " ∷ t.shown Json.null ∷ []))
  checked_type filename (some (Json.bool b)) =
      raise (say (filename ∷ ": type d'etape non supporte: " ∷ t.shown (Json.bool b) ∷ []))
  checked_type filename (some (Json.num n)) =
      raise (say (filename ∷ ": type d'etape non supporte: " ∷ t.shown (Json.num n) ∷ []))
  checked_type filename none = raise "KeyError: 'type'"

  unfoldable pub step_context : (filename scenario_id kind : String) → String
  step_context filename scenario_id kind =
      say (filename ∷ " scenario '" ∷ scenario_id ∷ "' step '" ∷ kind ∷ "'" ∷ [])

  -- `_validate_step_payload_document`
  unfoldable pub validate_step_payload_document :
      (filename scenario_id kind : String) → Fields → Result (Unit {0})
  validate_step_payload_document filename scenario_id kind fs =
      require_keys fs (required_keys kind) (step_context filename scenario_id kind)
      then (if str_eq kind "select_option"
          then demand (has_some fs ("value" ∷ "visible_text" ∷ "index" ∷ []))
              (say (filename ∷ ": select_option exige 'value', 'visible_text' ou 'index'." ∷ []))
          else return tt)
      then (if str_eq kind "repeat"
          then demand_positive (field_of fs "times")
              (say (filename ∷ ": 'repeat.times' doit etre > 0." ∷ []))
          else return tt)
      then (if str_eq kind "parallel"
          then none_listed (not_parallel_in (field_of fs "steps")) (
              say (
                filename
                ∷ ": bloc parallel non supporte pour: "
                ∷ join (sorted_set (not_parallel_in (field_of fs "steps")))
                ∷ []))
          else return tt)

  -- the checks of a step of the type, with what its lists of steps answered
  unfoldable pub validate_body :
      (filename scenario_id : String)
      → Fields
      → (steps try_steps catch_steps finally_steps : Result (Unit {0})) → Result String
      → Result (Unit {0})
  validate_body filename scenario_id fs steps try_steps catch_steps finally_steps (raise message) =
      raise message
  validate_body filename scenario_id fs steps try_steps catch_steps finally_steps (return kind) =
      (if is_sequence kind
        then require_keys fs ("steps" ∷ []) (step_context filename scenario_id kind)
        then steps
        else return tt)
      then (if str_eq kind "repeat"
          then require_keys fs ("times" ∷ []) (step_context filename scenario_id kind)
          else return tt)
      then (if str_eq kind "try"
          then require_keys fs ("try_steps" ∷ []) (step_context filename scenario_id kind)
          then try_steps
          then catch_steps
          then finally_steps
          else return tt)
      then validate_step_payload_document filename scenario_id kind fs

  unfoldable pub invalid_step : (filename scenario_id : String) → Result (Unit {0})
  invalid_step filename scenario_id =
      raise (say (filename ∷ ": scenario '" ∷ scenario_id ∷ "' contient une etape invalide." ∷ []))

  unfoldable mutual
    -- `_validate_step_document`
    pub validate_step_document : (filename scenario_id : String) → Json → Result (Unit {0})
    validate_step_document filename scenario_id (Json.obj fs) =
        let steps =
          validate_children filename scenario_id fs "steps"
            (say (text_or_blank (field_of fs "type") ∷ ".steps" ∷ [])) in
        let try_steps = validate_children filename scenario_id fs "try_steps" "try_steps" in
        let catch_steps = validate_children filename scenario_id fs "catch_steps" "catch_steps" in
        let finally_steps =
          validate_children filename scenario_id fs "finally_steps" "finally_steps" in
        require_keys fs ("type" ∷ []) (say (filename ∷ " scenario '" ∷ scenario_id ∷ "' step" ∷ []))
        then validate_body filename scenario_id fs steps try_steps catch_steps finally_steps
            (checked_type filename (field_of fs "type"))
    validate_step_document filename scenario_id Json.null = invalid_step filename scenario_id
    validate_step_document filename scenario_id (Json.bool b) = invalid_step filename scenario_id
    validate_step_document filename scenario_id (Json.num n) = invalid_step filename scenario_id
    validate_step_document filename scenario_id (Json.text s) = invalid_step filename scenario_id
    validate_step_document filename scenario_id (Json.arr xs) = invalid_step filename scenario_id

    -- the steps under a key, if it is there; an error calls it `label`
    pub validate_children :
        (filename scenario_id : String) → Fields → (key label : String) → Result (Unit {0})
    validate_children filename scenario_id Json.end key label = return tt
    validate_children filename scenario_id (Json.field k v rest) key label =
        let first = validate_list filename scenario_id label v in
        let others = validate_children filename scenario_id rest key label in
        if str_eq k key then first else others

    pub validate_list : (filename scenario_id label : String) → Json → Result (Unit {0})
    validate_list filename scenario_id label (Json.arr xs) = validate_items filename scenario_id xs
    validate_list filename scenario_id label _ =
        raise (say (filename ∷ ": '" ∷ label ∷ "' doit etre une liste." ∷ []))

    pub validate_items : (filename scenario_id : String) → Items → Result (Unit {0})
    validate_items filename scenario_id Json.nil = return tt
    validate_items filename scenario_id (Json.cons x xs) =
        validate_step_document filename scenario_id x then validate_items filename scenario_id xs
