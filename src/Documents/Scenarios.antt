-- ===== src/Documents/Scenarios.antt =====
-- `validate_scenarios_document` and `validate_slots_document` of scenarios/loader.py.
use fox_runner_server.Prelude.{
  zero, suc, String, ℤ, pos, negsuc, Option, none, some, Bool, true, false, List, [], ◌∷◌,
  if◌then◌else◌,
}
use fox_runner_server.Prelude.Json as Json
use fox_runner_server.Prelude.Json.{Json, Items, Fields, field_of, fields_of}
use fox_runner_server.Scenario.Effects.{Result, return, raise}
use fox_runner_server.Documents.Checks.{say, ◌then◌, demand, require_keys}
use fox_runner_server.Documents.Steps.{Texts, validate_items}

-- the check of a document against a JSON schema, by a third-party validator; an error's text
abbrev pub Schema : Type 0
Schema = Fields → Option String

unfoldable pub validate_json_document : Schema → Fields → Result (Unit {0})
validate_json_document schema root = elim (schema root) [
  | none ↦ return tt
  | some message ↦ raise message
]

unfoldable pub is_list_or_absent : Option Json → Bool
is_list_or_absent none = true
is_list_or_absent (some (Json.arr xs)) = true
is_list_or_absent (some _) = false

-- the fields of a value that is an object
unfoldable pub object_fields : Option Json → Option Fields
object_fields (some (Json.obj fs)) = some fs
object_fields _ = none

unfoldable pub items_under : Option Json → Items
items_under (some (Json.arr xs)) = xs
items_under _ = Json.nil

-- `int(data["schema_version"]) != DSL_SCHEMA_VERSION`
unfoldable pub is_version_one : ℤ → Bool
is_version_one (pos zero) = false
is_version_one (pos (suc zero)) = true
is_version_one (pos (suc (suc n))) = false
is_version_one (negsuc n) = false

abbrev pub document_collections : List String
document_collections = "before_steps" ∷ "steps" ∷ "on_success" ∷ "on_failure" ∷ "finally_steps" ∷ []

module _ (t : Texts) where
  unfoldable pub check_version : (filename : String) → Option Json → Result (Unit {0})
  check_version filename (some (Json.num n)) = demand (is_version_one n) (
      say
        (filename ∷ ": schema_version=" ∷ t.shown (Json.num n) ∷ " non supporte, attendu 1." ∷ []))
  check_version filename (some (Json.bool b)) = demand b (
      say
        (filename ∷ ": schema_version=" ∷ t.shown (Json.bool b) ∷ " non supporte, attendu 1." ∷ []))
  check_version filename (some (Json.text s)) = elim (t.int_of_text s) [
    | none ↦ raise "ValueError: invalid literal for int()"
    | some n ↦
        demand (is_version_one n)
          (say (filename ∷ ": schema_version=" ∷ s ∷ " non supporte, attendu 1." ∷ []))
  ]
  check_version filename (some Json.null) = raise "TypeError: int() argument"
  check_version filename (some (Json.arr xs)) = raise "TypeError: int() argument"
  check_version filename (some (Json.obj fs)) = raise "TypeError: int() argument"
  check_version filename none = raise "KeyError: 'schema_version'"

  unfoldable pub lists_only :
      (filename scenario_id : String) → List String → Fields → Result (Unit {0})
  lists_only filename scenario_id [] fs = return tt
  lists_only filename scenario_id (key ∷ keys) fs =
      demand (is_list_or_absent (field_of fs key)) (
        say (
          filename ∷ ": '" ∷ key ∷ "' du scenario '" ∷ scenario_id ∷ "' doit etre une liste." ∷ []))
      then lists_only filename scenario_id keys fs

  unfoldable pub steps_checked :
      (filename scenario_id : String) → List String → Fields → Result (Unit {0})
  steps_checked filename scenario_id [] fs = return tt
  steps_checked filename scenario_id (key ∷ keys) fs =
      validate_items t filename scenario_id (items_under (field_of fs key))
      then steps_checked filename scenario_id keys fs

  -- one scenario of the document
  unfoldable pub validate_scenario : (filename scenario_id : String) → Fields → Result (Unit {0})
  validate_scenario filename scenario_id fs =
      require_keys fs ("steps" ∷ []) (say (filename ∷ " scenario '" ∷ scenario_id ∷ "'" ∷ []))
      then lists_only filename scenario_id document_collections fs
      then steps_checked filename scenario_id document_collections fs

  unfoldable pub validate_scenario_value :
      (filename scenario_id : String) → Json → Result (Unit {0})
  validate_scenario_value filename scenario_id (Json.obj fs) =
      validate_scenario filename scenario_id fs
  validate_scenario_value filename scenario_id _ =
      raise (say (filename ∷ ": scenario '" ∷ scenario_id ∷ "' invalide." ∷ []))

  unfoldable pub validate_scenario_map : (filename : String) → Fields → Result (Unit {0})
  validate_scenario_map filename Json.end = return tt
  validate_scenario_map filename (Json.field scenario_id v rest) =
      validate_scenario_value filename scenario_id v then validate_scenario_map filename rest

  unfoldable pub validate_scenarios_field : (filename : String) → Option Fields → Result (Unit {0})
  validate_scenarios_field filename none =
      raise (say (filename ∷ ": 'scenarios' doit etre un objet." ∷ []))
  validate_scenarios_field filename (some fs) = validate_scenario_map filename fs

  unfoldable pub demand_object : Option Fields → String → Result (Unit {0})
  demand_object none message = raise message
  demand_object (some fs) message = return tt

  unfoldable pub validate_scenarios_document :
      Schema → Fields → (filename : String) → Result (Unit {0})
  validate_scenarios_document schema root filename =
      validate_json_document schema root
      then require_keys root ("schema_version" ∷ "data" ∷ "scenarios" ∷ [])
          (say (filename ∷ " root" ∷ []))
      then check_version filename (field_of root "schema_version")
      then demand_object (object_fields (field_of root "data"))
          (say (filename ∷ ": 'data' doit etre un objet." ∷ []))
      then validate_scenarios_field filename (object_fields (field_of root "scenarios"))

  unfoldable pub validate_slots_document : Schema → Fields → (filename : String) → Result (Unit {0})
  validate_slots_document schema root filename =
      validate_json_document schema root
      then require_keys root ("slots" ∷ []) (say (filename ∷ " root" ∷ []))
      then demand (is_list_or_absent (field_of root "slots"))
          (say (filename ∷ ": 'slots' doit etre une liste." ∷ []))
