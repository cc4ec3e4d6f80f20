-- ===== src/Catalog/Files.antt =====
-- The files that mirror the catalog for the scheduler's command line: `_write_scenarios_file` and
-- `sync_slots_file` of catalog/services.py.
use fox_runner_server.Prelude.{
  String, Option, none, some, Bool, true, false, List, [], ◌∷◌, map, keep, ℕ, is_truthy,
  if◌then◌else◌,
}
use fox_runner_server.Prelude.{pos}
use fox_runner_server.Prelude.Dict.{Dict, put}
use fox_runner_server.Prelude.Json.{Json, object, of_list, dict_of, put_default}
use fox_runner_server.Store.Executed.{before}
use fox_runner_server.Backend.Exec.{Reply, done, http, Action, ◌>>=◌, ◌>>◌, query, change}
use fox_runner_server.Catalog.Tables.{
  Scenario, Slot, CatalogConfig, Db, JsonFile, missing, unreadable, document, Store,
}

-- What the services use of code that is not modelled here: the two validators of
-- scenarios/loader.py, which give the error's text, the text of a JSON value that is no string, and
-- the order in which Python goes through the set `STEP_COLLECTIONS`.
pub record Outside : Type 0 where
  pub check_scenarios : Dict Json → Option String
  pub check_slots : Dict Json → Option String
  pub repr : Json → String
  pub collections : List String

module _ {A : Type 0} (key : A → String) where
  unfoldable pub insert_by : A → List A → List A
  insert_by x [] = x ∷ []
  insert_by x (y ∷ ys) =
      let rest = insert_by x ys in if before (key y) (key x) then y ∷ rest else x ∷ y ∷ ys

  -- `order_by(...)`
  unfoldable pub order_by : List A → List A
  order_by [] = []
  order_by (x ∷ xs) = insert_by x (order_by xs)

unfoldable pub has_no_items : Dict Json → Bool
has_no_items [] = true
has_no_items (x ∷ d) = false

unfoldable pub put_unless_empty : Dict Json → String → Dict Json → Dict Json
put_unless_empty d key value = if has_no_items value then d else put d key (object value)

unfoldable pub put_unless_blank : Dict Json → String → String → Dict Json
put_unless_blank d key value = if is_truthy value then put d key (Json.text value) else d

unfoldable pub catalog_data_for_document : CatalogConfig → Dict Json
catalog_data_for_document cfg =
    put_unless_blank
      (put_unless_blank
        (put_unless_empty
          (put_unless_empty [] "pushovers"
            (map (λ ((key, entry) : String × Dict Json). (key, object entry)) cfg.pushovers))
          "networks" cfg.networks)
        "default_pushover" cfg.default_pushover)
      "default_network" cfg.default_network

unfoldable pub load_json_dict : JsonFile → Reply (Dict Json)
load_json_dict missing = done []
load_json_dict unreadable = http 500 "JSONDecodeError"
load_json_dict (document (Json.obj fields)) = done (dict_of fields)
load_json_dict (document Json.null) = http 500 "document racine invalide."
load_json_dict (document (Json.bool b)) = http 500 "document racine invalide."
load_json_dict (document (Json.num n)) = http 500 "document racine invalide."
load_json_dict (document (Json.text s)) = http 500 "document racine invalide."
load_json_dict (document (Json.arr xs)) = http 500 "document racine invalide."

unfoldable pub scenarios_map : List Scenario → Dict Json
scenarios_map rows =
    map (λ (r : Scenario). (r.scenario_id, object r.definition))
      (order_by (λ (r : Scenario). r.scenario_id) rows)

-- the file's other keys stay
unfoldable pub scenarios_document : Dict Json → Db → Dict Json
scenarios_document old db =
    put
      (put (put_default old "schema_version" (Json.num (pos 1))) "data"
        (object (catalog_data_for_document db.config)))
      "scenarios" (object (scenarios_map db.scenarios))

unfoldable pub set_scenarios_file : Dict Json → Store → Store
set_scenarios_file d s = record {
  db = s.db;
  scenarios_file = document (object d);
  slots_file = s.slots_file;
}

unfoldable pub set_slots_file : Dict Json → Store → Store
set_slots_file d s = record {
  db = s.db;
  scenarios_file = s.scenarios_file;
  slots_file = document (object d);
}

-- `except Exception as exc: raise HttpError(422, str(exc))`
unfoldable pub reject : Option String → Action Store (Unit {0})
reject none s = (done tt, s)
reject (some message) s = (http 422 message, s)

unfoldable pub slot_item : Slot → Json
slot_item slot = object (
    ("id", Json.text slot.slot_id)
    ∷ ("days", Json.arr (of_list (map (λ (d : ℕ). Json.num (pos d)) slot.days)))
    ∷ ("start", Json.text slot.start)
    ∷ ("end", Json.text slot.end_at)
    ∷ ("scenario", Json.text slot.scenario_id)
    ∷ [])

unfoldable pub slots_document : Db → Dict Json
slots_document db =
    (
      "slots",
      Json.arr (
          of_list (
            map slot_item
              (order_by (λ (x : Slot). x.slot_id) (keep (λ (x : Slot). x.enabled) db.slots)))),
    )
    ∷ []

module _ (c : Outside) where
  unfoldable pub write_scenarios_file : Action Store (Unit {0})
  write_scenarios_file = do
    old ← query (λ (s : Store). load_json_dict s.scenarios_file)
    new ← query (λ (s : Store). done (scenarios_document old s.db))
    reject (c.check_scenarios new)
    change (set_scenarios_file new)

  unfoldable pub sync_slots_file : Action Store (Unit {0})
  sync_slots_file = do
    new ← query (λ (s : Store). done (slots_document s.db))
    reject (c.check_slots new)
    change (set_slots_file new)
