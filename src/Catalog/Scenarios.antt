-- ===== src/Catalog/Scenarios.antt =====
-- The operations on scenarios and their shares, of catalog/services.py.
use fox_runner_server.Prelude.{
  String, Option, none, some, Bool, not, ◌&&◌, ◌||◌, ◌==◌, List, [], ◌∷◌, ◌++◌, map, keep, any,
  get_or, str_eq, is_truthy, if◌then◌else◌,
}
use fox_runner_server.Prelude.Dict.{Dict, get, put}
use fox_runner_server.Prelude.Json as Json
use fox_runner_server.Prelude.Json.{Json, put_default}
use fox_runner_server.Backend.Exec.{
  Reply, done, http, Action, ◌>>=◌, ◌>>◌, pure, reply, query, change, require,
}
use fox_runner_server.Backend.Users.{User, resolve_user, require_user_scope}
use fox_runner_server.Catalog.Tables.{
  Scenario, ScenarioShare, Slot, Db, Store, scenario_exists, save_row, set_db, set_scenarios,
  set_shares, set_slots, add_audit, add_scenario, atomic, transaction,
}
use fox_runner_server.Catalog.Files.{Outside, write_scenarios_file}
use fox_runner_server.Catalog.Access.{get_scenario, get_scenario_for_user, require_scenario_owner}
use fox_runner_server.Catalog.Summary.{scenario_summary}

-- a change of the rows
unfoldable pub on_db : (Db → Db) → Action Store (Unit {0})
on_db f = change (λ (s : Store). set_db (f s.db) s)

module _ {A : Type 0} where
  -- a query of the rows
  unfoldable pub ask : (Db → Reply A) → Action Store A
  ask q = query (λ (s : Store). q s.db)

-- `write_audit` of ops/services.py
unfoldable pub write_audit :
    User
    → (action target_type target_id : String) → (before after : Dict Json) → Action Store (Unit {0})
write_audit actor action target_type target_id before after = on_db (
    add_audit record {
      actor = actor.id;
      action = action;
      target_type = target_type;
      target_id = target_id;
      before = before;
      after = after;
    })

-- the scenario, for a user who may write it
unfoldable pub owned_scenario : String → User → Action Store Scenario
owned_scenario scenario_id user = do
  r ← ask (get_scenario_for_user scenario_id user)
  reply (require_scenario_owner r user)
  pure r

unfoldable pub update_row : Scenario → Dict Json → String → Scenario
update_row r definition description = record {
  pk = r.pk;
  scenario_id = r.scenario_id;
  owner_id = r.owner_id;
  description = description;
  definition = definition;
}

unfoldable pub is_shared_with : List ScenarioShare → ScenarioShare → Bool
is_shared_with shares share =
    any
      (λ (x : ScenarioShare).
        str_eq x.scenario_id share.scenario_id && str_eq x.user_id share.user_id)
      shares

-- `str(value)`
unfoldable pub text_of : (Json → String) → Json → String
text_of repr (Json.text s) = s
text_of repr Json.null = repr Json.null
text_of repr (Json.bool b) = repr (Json.bool b)
text_of repr (Json.num n) = repr (Json.num n)
text_of repr (Json.arr xs) = repr (Json.arr xs)
text_of repr (Json.obj fs) = repr (Json.obj fs)

-- `definition or {"description": description, "steps": []}`
unfoldable pub initial_definition : String → Option (Dict Json) → Dict Json
initial_definition description none =
    ("description", Json.text description) ∷ ("steps", Json.arr Json.nil) ∷ []
initial_definition description (some []) =
    ("description", Json.text description) ∷ ("steps", Json.arr Json.nil) ∷ []
initial_definition description (some (item ∷ d)) = item ∷ d

unfoldable pub new_definition : String → String → Option (Dict Json) → Dict Json
new_definition owner_id description definition =
    put
      (put_default
        (put_default (initial_definition description definition) "description"
          (Json.text description))
        "steps" (Json.arr Json.nil))
      "owner_user_id" (Json.text owner_id)

-- `current_user if owner_user_id in {str(current_user.id), current_user.email} else ...`, its id
unfoldable pub owner_for : String → User → Db → Reply String
owner_for owner_user_id user db =
    if str_eq owner_user_id user.id || str_eq owner_user_id user.email
    then done user.id
    else elim (resolve_user db.users owner_user_id) [
      | http code message ↦ http code message
      | done u ↦ done u.id
    ]

-- the new name of a scenario: `payload.scenario_id and payload.scenario_id != record.scenario_id`
unfoldable pub new_name : Option String → Scenario → Option String
new_name none r = none
new_name (some name) r =
    if is_truthy name && not (str_eq name r.scenario_id) then some name else none

unfoldable pub rename_slots : (old new : String) → Db → Db
rename_slots old new db =
    set_slots
      (map
        (λ (x : Slot).
          if str_eq x.scenario_id old
          then record {
            slot_id = x.slot_id;
            scenario_id = new;
            days = x.days;
            start = x.start;
            end_at = x.end_at;
            enabled = x.enabled;
          }
          else x)
        db.slots)
      db

unfoldable pub renamed : String → Scenario → Scenario
renamed name r = record {
  pk = r.pk;
  scenario_id = name;
  owner_id = r.owner_id;
  description = r.description;
  definition = r.definition;
}

unfoldable pub owned_by : String → Scenario → Scenario
owned_by owner_id r = record {
  pk = r.pk;
  scenario_id = r.scenario_id;
  owner_id = owner_id;
  description = r.description;
  definition = r.definition;
}

-- the definition that an update saves
unfoldable pub updated_definition :
    Dict Json → (description : Option String) → Option (Dict Json) → Dict Json
updated_definition old description (some new) = new
updated_definition old none none = old
updated_definition old (some description) none = put old "description" (Json.text description)

-- the step that renames the row and its slots
unfoldable pub rename : Option String → Scenario → Action Store Scenario
rename none r = pure r
rename (some name) r = do
  exists ← ask (λ (db : Db). done (scenario_exists db.scenarios name))
  require (not exists) 409 "Scenario deja existant."
  on_db (rename_slots r.scenario_id name)
  pure (renamed name r)

-- the step that gives the row another owner
unfoldable pub change_owner : Option String → User → Scenario → Action Store Scenario
change_owner none user r = pure r
change_owner (some owner_user_id) user r = do
  ask (λ (db : Db). require_user_scope db.users owner_user_id user)
  owner ← ask (owner_for owner_user_id user)
  pure (owned_by owner r)

unfoldable pub remove_shares : String → Db → Db
remove_shares scenario_id db =
    set_shares (keep (λ (x : ScenarioShare). not (str_eq x.scenario_id scenario_id)) db.shares) db

-- the row with what refers to it: `on_delete=CASCADE`
unfoldable pub remove_row : Scenario → Db → Db
remove_row r db =
    set_slots (keep (λ (x : Slot). not (str_eq x.scenario_id r.scenario_id)) db.slots) (
      set_scenarios (keep (λ (x : Scenario). not (x.pk == r.pk)) db.scenarios)
        (remove_shares r.scenario_id db))

unfoldable pub delete_scenario : String → Action Store (Unit {0})
delete_scenario scenario_id = atomic (do
  r ← ask (get_scenario scenario_id)
  on_db (remove_shares r.scenario_id)
  on_db (remove_row r))

unfoldable pub add_share : ScenarioShare → Db → Db
add_share share db =
    if is_shared_with db.shares share then db else set_shares (db.shares ++ share ∷ []) db

-- `share_scenario`, which gives the id of the user
unfoldable pub share_scenario : (scenario_id user_id : String) → Action Store String
share_scenario scenario_id user_id = atomic (do
  r ← ask (get_scenario scenario_id)
  target ← ask (λ (db : Db). resolve_user db.users user_id)
  on_db (add_share (record { scenario_id = r.scenario_id; user_id = target.id }))
  pure target.id)

unfoldable pub remove_share : (scenario_id user_id : String) → Db → Db
remove_share scenario_id user_id db = elim (resolve_user db.users user_id) [
  | http code message ↦ db
  | done target ↦
      set_shares
        (keep
          (λ (x : ScenarioShare).
            not (str_eq x.scenario_id scenario_id && str_eq x.user_id target.id))
          db.shares)
        db
]

unfoldable pub unshare_scenario : (scenario_id user_id : String) → Action Store (Unit {0})
unshare_scenario scenario_id user_id = atomic (on_db (remove_share scenario_id user_id))

module _ (c : Outside) where
  unfoldable pub create_scenario :
      (scenario_id owner_id description : String) → Option (Dict Json) → Action Store Scenario
  create_scenario scenario_id owner_id description definition = atomic (do
    exists ← ask (λ (db : Db). done (scenario_exists db.scenarios scenario_id))
    require (not exists) 409 "Scenario deja existant."
    pk ← ask (λ (db : Db). done db.next_pk)
    let payload = new_definition owner_id description definition
    let row : Scenario = record {
      pk = pk;
      scenario_id = scenario_id;
      owner_id = owner_id;
      description = text_of c.repr (get_or (get payload "description") (Json.text ""));
      definition = payload;
    }
    on_db (add_scenario row)
    pure row)

  unfoldable pub save_scenario_definition :
      Scenario → Dict Json → Option String → Action Store Scenario
  save_scenario_definition scenario definition description = atomic (do
    let row = update_row scenario definition (get_or description scenario.description)
    on_db (λ (db : Db). set_scenarios (save_row row db.scenarios) db)
    write_scenarios_file c
    pure row)

  abbrev summary_of : Scenario → Action Store (Dict Json)
  summary_of r = reply (scenario_summary c.collections r)

  -- `create_owned_scenario`: the payload's fields
  unfoldable pub create_owned_scenario :
      (scenario_id owner_user_id description : String)
      → Option (Dict Json)
      → User
      → Action Store (Dict Json)
  create_owned_scenario scenario_id owner_user_id description definition user = transaction (do
    ask (λ (db : Db). require_user_scope db.users owner_user_id user)
    owner ← ask (owner_for owner_user_id user)
    row ← create_scenario scenario_id owner description definition
    saved ← save_scenario_definition row row.definition none
    result ← summary_of saved
    write_audit user "scenario.create" "scenario" saved.scenario_id [] result
    pure result)

  -- `update_owned_scenario`: the fields of the payload are optional
  unfoldable pub update_owned_scenario :
      (scenario_id : String)
      → (new_id owner_user_id description : Option String) → Option (Dict Json)
      → User
      → Action Store (Dict Json)
  update_owned_scenario scenario_id new_id owner_user_id description definition user =
      transaction (do
        r ← owned_scenario scenario_id user
        before ← summary_of r
        moved ← rename (new_name new_id r) r
        owned ← change_owner owner_user_id user moved
        let new = updated_definition owned.definition description definition
        saved ← save_scenario_definition owned new none
        result ← summary_of saved
        write_audit user "scenario.update" "scenario" saved.scenario_id before result
        pure result)

  unfoldable pub duplicate_owned_scenario :
      (scenario_id new_scenario_id : String) → User → Action Store (Dict Json)
  duplicate_owned_scenario scenario_id new_scenario_id user = transaction (do
    source ← owned_scenario scenario_id user
    row ←
        create_scenario new_scenario_id source.owner_id source.description (some source.definition)
    saved ← save_scenario_definition row row.definition none
    result ← summary_of saved
    write_audit user "scenario.duplicate" "scenario" new_scenario_id
        (("source", Json.text scenario_id) ∷ []) result
    pure result)

  unfoldable pub delete_owned_scenario : String → User → Action Store (Dict Json)
  delete_owned_scenario scenario_id user = transaction (do
    r ← owned_scenario scenario_id user
    used ← ask (λ (db : Db). done (any (λ (x : Slot). str_eq x.scenario_id r.scenario_id) db.slots))
    require (not used) 409 "Supprime ou deplace les slots avant le scenario."
    before ← summary_of r
    delete_scenario scenario_id
    write_scenarios_file c
    write_audit user "scenario.delete" "scenario" scenario_id before []
    pure (("deleted", Json.text scenario_id) ∷ []))

unfoldable pub share_owned_scenario :
    (scenario_id share_user_id : String) → User → Action Store (Dict Json)
share_owned_scenario scenario_id share_user_id user = transaction (do
  r ← owned_scenario scenario_id user
  target ← share_scenario scenario_id share_user_id
  write_audit user "scenario.share" "scenario" scenario_id [] (("user_id", Json.text target) ∷ [])
  pure (("scenario_id", Json.text scenario_id) ∷ ("user_id", Json.text target) ∷ []))

unfoldable pub unshare_owned_scenario :
    (scenario_id share_user_id : String) → User → Action Store (Dict Json)
unshare_owned_scenario scenario_id share_user_id user = transaction (do
  r ← owned_scenario scenario_id user
  unshare_scenario scenario_id share_user_id
  write_audit user "scenario.unshare" "scenario" scenario_id
      (("user_id", Json.text share_user_id) ∷ []) []
  pure (("deleted", Json.text share_user_id) ∷ []))
