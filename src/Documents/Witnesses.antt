-- ===== src/Documents/Witnesses.antt =====
-- Tests of the loader's checks (scenarios/loader.py) at small documents.
use fox_runner_server.Prelude.{
  String, ◌≡◌, refl, Option, none, some, Bool, true, false, List, [], ◌∷◌, pos,
}
use fox_runner_server.Prelude.Dict.{Dict}
use fox_runner_server.Prelude.Json as Json
use fox_runner_server.Prelude.Json.{Json, Fields, fields_of, object}
use fox_runner_server.Backend.Exec.{done}
use fox_runner_server.Scenario.Effects.{Result, return}
use fox_runner_server.Catalog.Tables.{Scenario}
use fox_runner_server.Catalog.Summary.{scenario_summary}
use fox_runner_server.Documents.Steps.{Texts}
use fox_runner_server.Documents.Scenarios.{validate_scenario}
use fox_runner_server.Documents.Summaries.{scenario_summary-returns}
use fox_runner_server.Documents.Data.{ScenarioData, PushoverConfig, load_scenario_data}
use fox_runner_server.Documents.Defaults.{IsNamed, load_scenario_data-IsNamed}

abbrev texts : Texts
texts = record { shown = λ j. ""; int_of_text = λ s. none }

abbrev wait : Json
wait = object (("type", Json.text "sleep") ∷ ("seconds", Json.num (pos 1)) ∷ [])

abbrev scenario : Scenario
scenario = record {
  pk = 1;
  scenario_id = "demo";
  owner_id = "1";
  description = "";
  definition =
      (
        "steps",
        Json.arr (
            Json.cons
              (object
                (("type", Json.text "group") ∷ ("steps", Json.arr (Json.cons wait Json.nil)) ∷ []))
              Json.nil),
      )
      ∷ [];
}

scenario_passes :
    validate_scenario texts "scenarios.json" "demo" (fields_of scenario.definition) ≡ return tt
unfolding validate_scenario fox_runner_server.Documents.Checks.◌then◌
    fox_runner_server.Documents.Checks.require_keys fox_runner_server.Documents.Checks.none_missing
    fox_runner_server.Documents.Checks.missing_keys fox_runner_server.Documents.Checks.demand
    Json.has_field fields_of Json.field_of fox_runner_server.Documents.Scenarios.lists_only
    fox_runner_server.Documents.Scenarios.is_list_or_absent
    fox_runner_server.Documents.Scenarios.steps_checked
    fox_runner_server.Documents.Scenarios.items_under
    fox_runner_server.Documents.Steps.validate_items fox_runner_server.Documents.Steps.validate_body
    fox_runner_server.Documents.Steps.checked_type fox_runner_server.Documents.Steps.is_supported
    fox_runner_server.Documents.Steps.is_atomic_type fox_runner_server.Documents.Steps.is_sequence
    fox_runner_server.Documents.Steps.required_keys fox_runner_server.Documents.Steps.step_context
    fox_runner_server.Documents.Steps.validate_step_payload_document
scenario_passes = refl

scenario_summary-returns_example :
    (summary : Dict Json) × (scenario_summary ("steps" ∷ "finally_steps" ∷ []) scenario
      ≡ done summary)
unfolding fox_runner_server.Catalog.Access.contains
scenario_summary-returns_example =
    scenario_summary-returns texts "scenarios.json" ("steps" ∷ "finally_steps" ∷ []) scenario
      ((refl, (refl, tt))) scenario_passes

abbrev float_of : Json → Result (Unit {0})
float_of j = return tt

abbrev raw : Fields
raw = fields_of (
    (
      "pushovers",
      object (("phone", object (("token", Json.text "t") ∷ ("user_key", Json.text "u") ∷ [])) ∷ []),
    )
    ∷ ("default_pushover", Json.text "phone")
    ∷ [])

abbrev loaded : ScenarioData (Unit {0})
loaded = record {
  pushovers =
      (
        "phone",
        record {
          token = Json.text "t";
          user_key = Json.text "u";
          sound = Json.text "vibrate";
          timeout_seconds = tt;
        },
      )
      ∷ [];
  networks = [];
  default_pushover_key = some "phone";
  default_network_key = none;
}

raw_loads : load_scenario_data float_of raw "scenarios.json" ≡ return loaded
unfolding load_scenario_data fox_runner_server.Documents.Data.◌>>=◌
    fox_runner_server.Documents.Data.load_pushover_map
    fox_runner_server.Documents.Scenarios.object_fields fox_runner_server.Documents.Data.or_value
    fox_runner_server.Prelude.Json.field_of fields_of
    fox_runner_server.Documents.Data.load_pushovers fox_runner_server.Documents.Data.load_pushover
    fox_runner_server.Documents.Data.is_filled_field fox_runner_server.Prelude.Json.truth
    fox_runner_server.Documents.Data.load_network_map fox_runner_server.Documents.Data.load_networks
    fox_runner_server.Documents.Data.resolve_default_key fox_runner_server.Prelude.Dict.has
    fox_runner_server.Documents.Data.value_at fox_runner_server.Documents.Data.first_key
raw_loads = refl

load_scenario_data-IsNamed_example :
    IsNamed (some "phone") loaded.pushovers × IsNamed none loaded.networks
load_scenario_data-IsNamed_example =
    load_scenario_data-IsNamed float_of raw "scenarios.json" loaded raw_loads
