-- ===== src/Catalog/Slots.antt =====
-- The operations on slots, of catalog/services.py, and the checks of their payloads, of
-- catalog/schemas.py.
use fox_runner_server.Prelude.{
  ℕ, String, Option, none, some, Bool, not, List, [], ◌∷◌, ◌++◌, map, any, keep, find, get_or,
  str_eq, pos, if◌then◌else◌,
}
use fox_runner_server.Prelude.Dict.{Dict}
use fox_runner_server.Prelude.Json.{Json, of_list}
use fox_runner_server.Backend.Exec.{Reply, done, http, Action, ◌>>=◌, ◌>>◌, pure, require}
use fox_runner_server.Backend.Users.{User}
use fox_runner_server.Catalog.Tables.{Slot, Db, Store, set_slots, atomic, transaction}
use fox_runner_server.Catalog.Files.{Outside, sync_slots_file}
use fox_runner_server.Catalog.Access.{get_scenario}
use fox_runner_server.Catalog.Scenarios.{ask, on_db, owned_scenario, write_audit}

unfoldable pub slot_summary : Slot → Dict Json
slot_summary r =
    ("slot_id", Json.text r.slot_id)
    ∷ ("days", Json.arr (of_list (map (λ (d : ℕ). Json.num (pos d)) r.days)))
    ∷ ("start", Json.text r.start)
    ∷ ("end", Json.text r.end_at)
    ∷ ("scenario_id", Json.text r.scenario_id)
    ∷ ("enabled", Json.bool r.enabled)
    ∷ []

unfoldable pub find_slot : List Slot → String → Option Slot
find_slot rows slot_id = find (λ (x : Slot). str_eq x.slot_id slot_id) rows

unfoldable pub get_slot : String → Db → Reply Slot
get_slot slot_id db = elim (find_slot db.slots slot_id) [
  | none ↦ http 404 "Slot introuvable."
  | some r ↦ done r
]

unfoldable pub add_slot : Slot → Db → Db
add_slot slot db = set_slots (db.slots ++ slot ∷ []) db

-- `record.save()`: slots keep their id
unfoldable pub save_slot : Slot → Db → Db
save_slot slot db =
    set_slots (map (λ (x : Slot). if str_eq x.slot_id slot.slot_id then slot else x) db.slots) db

unfoldable pub remove_slot : Slot → Db → Db
remove_slot slot db =
    set_slots (keep (λ (x : Slot). not (str_eq x.slot_id slot.slot_id)) db.slots) db

-- `create_slot`; the payload is the row to be
unfoldable pub create_slot : Slot → Action Store Slot
create_slot payload = atomic (do
  scenario ← ask (get_scenario payload.scenario_id)
  exists ← ask (λ (db : Db). done (any (λ (x : Slot). str_eq x.slot_id payload.slot_id) db.slots))
  require (not exists) 409 "Slot deja existant."
  on_db (add_slot payload)
  pure payload)

-- `SlotPatchIn`
pub record SlotPatch : Type 0 where
  pub scenario_id : Option String
  pub days : Option (List ℕ)
  pub start : Option String
  pub end_at : Option String
  pub enabled : Option Bool

-- the row after the patch, on the scenario `scenario_id`
unfoldable pub patched : SlotPatch → String → Slot → Slot
patched p scenario_id r = record {
  slot_id = r.slot_id;
  scenario_id = scenario_id;
  days = get_or p.days r.days;
  start = get_or p.start r.start;
  end_at = get_or p.end_at r.end_at;
  enabled = get_or p.enabled r.enabled;
}

-- `payload.scenario_id is not None and payload.scenario_id != record.scenario_id`
unfoldable pub move : Option String → Slot → User → Action Store String
move none r user = pure r.scenario_id
move (some scenario_id) r user =
    if str_eq scenario_id r.scenario_id
    then pure r.scenario_id
    else (do target ← owned_scenario scenario_id user; pure target.scenario_id)

module _ (c : Outside) where
  unfoldable pub create_owned_slot : Slot → User → Action Store (Dict Json)
  create_owned_slot payload user = transaction (do
    scenario ← owned_scenario payload.scenario_id user
    r ← create_slot payload
    sync_slots_file c
    write_audit user "slot.create" "slot" r.slot_id [] (slot_summary r)
    pure (slot_summary r))

  unfoldable pub update_owned_slot : String → SlotPatch → User → Action Store (Dict Json)
  update_owned_slot slot_id payload user = transaction (do
    r ← ask (get_slot slot_id)
    scenario ← owned_scenario r.scenario_id user
    scenario_id ← move payload.scenario_id r user
    let new = patched payload scenario_id r
    on_db (save_slot new)
    sync_slots_file c
    write_audit user "slot.update" "slot" new.slot_id (slot_summary r) (slot_summary new)
    pure (slot_summary new))

  unfoldable pub delete_owned_slot : String → User → Action Store (Dict Json)
  delete_owned_slot slot_id user = transaction (do
    r ← ask (get_slot slot_id)
    scenario ← owned_scenario r.scenario_id user
    on_db (remove_slot r)
    sync_slots_file c
    write_audit user "slot.delete" "slot" slot_id (slot_summary r) []
    pure (("deleted", Json.text slot_id) ∷ []))
