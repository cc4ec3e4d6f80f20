-- ===== src/Catalog/Requests.antt =====
-- The requests that change scenarios, shares, slots and steps, each with its operation of
-- catalog/services.py.
use fox_runner_server.Prelude.{ℕ, String, Option, ℤ}
use fox_runner_server.Prelude.Dict.{Dict}
use fox_runner_server.Prelude.Json.{Json}
use fox_runner_server.Backend.Exec.{Action, ◌>>=◌, pure}
use fox_runner_server.Backend.Users.{User}
use fox_runner_server.Catalog.Tables.{Slot, Store}
use fox_runner_server.Catalog.Files.{Outside}
use fox_runner_server.Catalog.Scenarios.{
  create_owned_scenario, update_owned_scenario, duplicate_owned_scenario, delete_owned_scenario,
  share_owned_scenario, unshare_owned_scenario,
}
use fox_runner_server.Catalog.Steps.{create_step, update_step, delete_step}
use fox_runner_server.Catalog.Slots.{
  SlotPatch, create_owned_slot, update_owned_slot, delete_owned_slot,
}

pub data Request : Type 0 where
  new_scenario : (scenario_id owner_user_id description : String) → Option (Dict Json) → Request
  change_scenario :
      (scenario_id : String)
      → (new_id owner_user_id description : Option String) → Option (Dict Json)
      → Request
  copy_scenario : (scenario_id new_scenario_id : String) → Request
  drop_scenario : String → Request
  share unshare : (scenario_id share_user_id : String) → Request
  new_step : (user_id scenario_id collection : String) → Dict Json → Option ℕ → Request
  change_step : (user_id scenario_id collection : String) → ℤ → Dict Json → Request
  drop_step : (user_id scenario_id collection : String) → ℤ → Request
  new_slot : Slot → Request
  change_slot : String → SlotPatch → Request
  drop_slot : String → Request

module _ {A : Type 0} where
  -- the answer's body does not matter here
  abbrev ended : Action Store A → Action Store (Unit {0})
  ended f = f >>= λ _. pure tt

unfoldable pub serve_request : Outside → Request → User → Action Store (Unit {0})
serve_request c (new_scenario scenario_id owner description definition) user =
    ended (create_owned_scenario c scenario_id owner description definition user)
serve_request c (change_scenario scenario_id new_id owner description definition) user =
    ended (update_owned_scenario c scenario_id new_id owner description definition user)
serve_request c (copy_scenario scenario_id new_id) user =
    ended (duplicate_owned_scenario c scenario_id new_id user)
serve_request c (drop_scenario scenario_id) user = ended (delete_owned_scenario c scenario_id user)
serve_request c (share scenario_id share_user_id) user =
    ended (share_owned_scenario scenario_id share_user_id user)
serve_request c (unshare scenario_id share_user_id) user =
    ended (unshare_owned_scenario scenario_id share_user_id user)
serve_request c (new_step user_id scenario_id collection step insert_at) user =
    ended (create_step c user_id scenario_id collection step insert_at user)
serve_request c (change_step user_id scenario_id collection index step) user =
    ended (update_step c user_id scenario_id collection index step user)
serve_request c (drop_step user_id scenario_id collection index) user =
    ended (delete_step c user_id scenario_id collection index user)
serve_request c (new_slot payload) user = ended (create_owned_slot c payload user)
serve_request c (change_slot slot_id payload) user =
    ended (update_owned_slot c slot_id payload user)
serve_request c (drop_slot slot_id) user = ended (delete_owned_slot c slot_id user)
