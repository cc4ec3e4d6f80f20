-- ===== src/Catalog/Steps.antt =====
-- The operations on step collections, of catalog/services.py and catalog/api.py.
use fox_runner_server.Prelude.{ℕ, String, Option, none, List, [], ◌∷◌, ℤ, pos}
use fox_runner_server.Prelude.Dict.{Dict}
use fox_runner_server.Prelude.Json.{Json, object}
use fox_runner_server.Backend.Exec.{Action, ◌>>=◌, ◌>>◌, pure, reply}
use fox_runner_server.Backend.Users.{User, require_user_scope}
use fox_runner_server.Catalog.Tables.{Scenario, Db, Store, transaction}
use fox_runner_server.Catalog.Files.{Outside}
use fox_runner_server.Catalog.Access.{get_scenario_for_user}
use fox_runner_server.Catalog.Scenarios.{ask, owned_scenario, save_scenario_definition, write_audit}
use fox_runner_server.Catalog.Edits.{
  ensure_step_collection, step_collection_view, step_at, insert_step, replace_step, remove_step,
}

-- the scenario whose steps a user may change, after the checks on the path
unfoldable pub editable : (user_id scenario_id collection : String) → User → Action Store Scenario
editable user_id scenario_id collection user = do
  ask (λ (db : Db). require_user_scope db.users user_id user)
  reply (ensure_step_collection collection)
  owned_scenario scenario_id user

-- the scenario whose steps a user may read
unfoldable pub readable : (user_id scenario_id collection : String) → User → Action Store Scenario
readable user_id scenario_id collection user = do
  ask (λ (db : Db). require_user_scope db.users user_id user)
  reply (ensure_step_collection collection)
  ask (get_scenario_for_user scenario_id user)

unfoldable pub list_steps :
    (user_id scenario_id collection : String) → User → Action Store (List Json)
list_steps user_id scenario_id collection user = do
  scenario ← readable user_id scenario_id collection user
  reply (step_collection_view scenario.definition collection)

unfoldable pub get_step : (user_id scenario_id collection : String) → ℤ → User → Action Store Json
get_step user_id scenario_id collection index user = do
  scenario ← readable user_id scenario_id collection user
  steps ← reply (step_collection_view scenario.definition collection)
  reply (step_at steps index)

-- `{"collection": collection, "index": index, "step": step}`
unfoldable pub audited : String → ℤ → Json → Dict Json
audited collection index step =
    ("collection", Json.text collection) ∷ ("index", Json.num index) ∷ ("step", step) ∷ []

module _ (c : Outside) where
  -- the index and the step
  unfoldable pub create_step :
      (user_id scenario_id collection : String)
      → Dict Json
      → Option ℕ
      → User
      → Action Store (ℕ × Json)
  create_step user_id scenario_id collection step insert_at user = transaction (do
    scenario ← editable user_id scenario_id collection user
    inserted ← reply (insert_step scenario.definition collection insert_at step)
    saved ← save_scenario_definition c scenario inserted.1 none
    write_audit user "step.create" "scenario" scenario_id []
        (audited collection (pos inserted.0) (object step))
    pure (inserted.0, object step))

  unfoldable pub update_step :
      (user_id scenario_id collection : String) → ℤ → Dict Json → User → Action Store (ℤ × Json)
  update_step user_id scenario_id collection index step user = transaction (do
    scenario ← editable user_id scenario_id collection user
    replaced ← reply (replace_step scenario.definition collection index step)
    saved ← save_scenario_definition c scenario replaced.1 none
    write_audit user "step.update" "scenario" scenario_id (audited collection index replaced.0)
        (audited collection index (object step))
    pure (index, object step))

  -- the index and the deleted step
  unfoldable pub delete_step :
      (user_id scenario_id collection : String) → ℤ → User → Action Store (ℤ × Json)
  delete_step user_id scenario_id collection index user = transaction (do
    scenario ← editable user_id scenario_id collection user
    removed ← reply (remove_step scenario.definition collection index)
    saved ← save_scenario_definition c scenario removed.1 none
    write_audit user "step.delete" "scenario" scenario_id (audited collection index removed.0) []
    pure (index, removed.0))
