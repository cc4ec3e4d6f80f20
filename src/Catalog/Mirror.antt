-- ===== src/Catalog/Mirror.antt =====
-- The file of scenarios is what the rows say: a property of the operations of catalog/services.py.
use fox_runner_server.Prelude.{String, ◌≡◌, refl, ◌∙◌, Option, none, some, List, arith}
use fox_runner_server.Prelude.Dict.{Dict, get, get-put}
use fox_runner_server.Prelude.Json.{Json, object}
use fox_runner_server.Backend.Exec.{
  Reply, done, http, Action, ◌>>=◌, and_then, pure, query, reply, change, require,
}
use fox_runner_server.Backend.Laws.{
  Gives, Returned, Anything, Gives-seq, Gives-skip_seq, Gives-query, Gives-pure, Gives-change,
}
use fox_runner_server.Backend.Users.{User}
use fox_runner_server.Catalog.Tables.{
  Scenario, CatalogConfig, Db, JsonFile, document, Store, transaction, atomic, set_db, commit,
  roll_back, add_audit,
}
use fox_runner_server.Catalog.Files.{
  Outside, scenarios_map, catalog_data_for_document, scenarios_document, load_json_dict,
  set_scenarios_file, reject, write_scenarios_file,
}
use fox_runner_server.Catalog.Scenarios.{ask, on_db, write_audit, save_scenario_definition}

Matches : JsonFile → List Scenario → CatalogConfig → Type 0
Matches file rows config =
    (d : Dict Json) × (file ≡ document (object d))
    × (get d "scenarios" ≡ some (object (scenarios_map rows)))
    × (get d "data" ≡ some (object (catalog_data_for_document config)))

-- the file of scenarios holds the scenarios and the configuration of the tables
unfoldable pub Mirrors : Store → Type 0
unfolding Matches
Mirrors s = Matches s.scenarios_file s.db.scenarios s.db.config

module _ {A : Type 0} where
  commit_keeps :
      (db : Db) (r : Reply A × Store) → Returned Mirrors r → Returned Mirrors (commit db r)
  unfolding commit
  commit_keeps db (done a, s) h = ground arith
  commit_keeps db (http code message, s) h = tt

  roll_back_keeps :
      (db : Db) (r : Reply A × Store) → Returned Mirrors r → Returned Mirrors (roll_back db r)
  unfolding roll_back
  roll_back_keeps db (done a, s) h = h
  roll_back_keeps db (http code message, s) h = tt

  pub Gives-transaction :
      (P : Store → Type 0) (f : Action Store A)
      → Gives P f Mirrors
      → Gives P (transaction f) Mirrors
  unfolding transaction
  Gives-transaction P f h = record { after = λ s p. commit_keeps s.db (f s) (h.after s p) }

  pub Gives-atomic :
      (P : Store → Type 0) (f : Action Store A) → Gives P f Mirrors → Gives P (atomic f) Mirrors
  unfolding atomic
  Gives-atomic P f h = record { after = λ s p. roll_back_keeps s.db (f s) (h.after s p) }

document-Matches :
    (s : Store) (old : Dict Json) → Mirrors (set_scenarios_file (scenarios_document old s.db) s)
unfolding Mirrors Matches set_scenarios_file scenarios_document
document-Matches s old = (
  scenarios_document old s.db,
  refl,
  get-put _ "scenarios" "scenarios" _,
  get-put _ "scenarios" "data" _ ∙ get-put _ "data" "data" _,
)

module _ (c : Outside) where
  finished :
      (s : Store) (old : Dict Json) (o : Option String)
      → Returned Mirrors
          ((reject o >>= λ _. change (set_scenarios_file (scenarios_document old s.db))) s)
  unfolding reject ◌>>=◌ Mirrors change
  finished s old none = document-Matches s old
  finished s old (some message) = tt

  loaded :
      (s : Store) (r : Reply (Dict Json))
      → Returned Mirrors (
          and_then r
            (λ old. query (λ (t : Store). done (scenarios_document old t.db)) >>= λ new.
              reject (c.check_scenarios new) >>= λ _. change (set_scenarios_file new))
            s)
  unfolding query reject ◌>>=◌ change
  loaded s (done old) = finished s old (c.check_scenarios (scenarios_document old s.db))
  loaded s (http code message) = tt

  pub Gives-write_scenarios_file : (P : Store → Type 0) → Gives P (write_scenarios_file c) Mirrors
  unfolding write_scenarios_file ◌>>=◌ load_json_dict query fox_runner_server.Backend.Exec.◌>>◌
      reject
  Gives-write_scenarios_file P = record {
    after = λ s p. loaded s (load_json_dict s.scenarios_file);
  }

  pub Gives-save_scenario_definition :
      (P : Store → Type 0)
      → (r : Scenario) → (definition : Dict Json) → (description : Option String)
      → Gives P (save_scenario_definition c r definition description) Mirrors
  unfolding save_scenario_definition
  Gives-save_scenario_definition P r definition description = Gives-atomic P _ (
      Gives-skip_seq P Mirrors _ _ (
        Gives-seq Anything Mirrors Mirrors (write_scenarios_file c) _
          (Gives-write_scenarios_file Anything) (Gives-pure Mirrors _)))

pub Gives-write_audit :
    (user : User) (action target_type target_id : String) (before after : Dict Json)
    → Gives Mirrors (write_audit user action target_type target_id before after) Mirrors
unfolding write_audit on_db set_db add_audit Mirrors
Gives-write_audit user action target_type target_id before after =
    Gives-change Mirrors Mirrors _ (λ s h. h)

pub Gives-ask : {A : Type 0} (q : Db → Reply A) → Gives Mirrors (ask q) Mirrors
unfolding ask
Gives-ask q = Gives-query Mirrors (λ (s : Store). q s.db)
