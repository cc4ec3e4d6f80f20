-- ===== src/Catalog/Tables.antt =====
-- catalog/models.py and the audit table of ops/models.py: the rows, the two files that mirror them,
-- and the transactions of the services.
use fox_runner_server.Prelude.{
  ℕ, String, Bool, ◌&&◌, List, [], ◌∷◌, ◌++◌, str_eq, any, every, ◌+◌, if◌then◌else◌, ◌==◌,
}
use fox_runner_server.Prelude.Dict.{Dict}
use fox_runner_server.Prelude.Json.{Json}
use fox_runner_server.Backend.Exec.{Reply, done, http, Action}
use fox_runner_server.Backend.Users.{User}

-- `pk` is the row's number, which stays when the scenario is renamed
pub record Scenario : Type 0 where
  pub pk : ℕ
  pub scenario_id : String
  pub owner_id : String
  pub description : String
  pub definition : Dict Json

pub record ScenarioShare : Type 0 where
  pub scenario_id : String
  pub user_id : String

pub record Slot : Type 0 where
  pub slot_id : String
  pub scenario_id : String
  pub days : List ℕ
  pub start : String
  pub end_at : String
  pub enabled : Bool

-- each pushover is an object
pub record CatalogConfig : Type 0 where
  pub pushovers : Dict (Dict Json)
  pub networks : Dict Json
  pub default_pushover : String
  pub default_network : String

pub record AuditEntry : Type 0 where
  pub actor : String
  pub action : String
  pub target_type : String
  pub target_id : String
  pub before : Dict Json
  pub after : Dict Json

pub record Db : Type 0 where
  pub users : List User
  pub scenarios : List Scenario
  pub shares : List ScenarioShare
  pub slots : List Slot
  pub config : CatalogConfig
  pub audit : List AuditEntry
  pub next_pk : ℕ

-- A file that is not there, that is not JSON, or a JSON document.
pub data JsonFile : Type 0 where
  missing unreadable : JsonFile
  document : Json → JsonFile

pub record Store : Type 0 where
  pub db : Db
  pub scenarios_file : JsonFile
  pub slots_file : JsonFile

-- `filter(scenario_id=...).exists()`
unfoldable pub scenario_exists : List Scenario → String → Bool
scenario_exists rows scenario_id = any (λ (r : Scenario). str_eq r.scenario_id scenario_id) rows

-- the row's `save()`
unfoldable pub save_row : Scenario → List Scenario → List Scenario
save_row row [] = []
save_row row (r ∷ rs) = let rest = save_row row rs in if r.pk == row.pk then row ∷ rs else r ∷ rest

unfoldable pub set_db : Db → Store → Store
set_db db s = record { db = db; scenarios_file = s.scenarios_file; slots_file = s.slots_file }

unfoldable pub set_scenarios : List Scenario → Db → Db
set_scenarios rows db = record {
  users = db.users;
  scenarios = rows;
  shares = db.shares;
  slots = db.slots;
  config = db.config;
  audit = db.audit;
  next_pk = db.next_pk;
}

unfoldable pub set_shares : List ScenarioShare → Db → Db
set_shares rows db = record {
  users = db.users;
  scenarios = db.scenarios;
  shares = rows;
  slots = db.slots;
  config = db.config;
  audit = db.audit;
  next_pk = db.next_pk;
}

unfoldable pub set_slots : List Slot → Db → Db
set_slots rows db = record {
  users = db.users;
  scenarios = db.scenarios;
  shares = db.shares;
  slots = rows;
  config = db.config;
  audit = db.audit;
  next_pk = db.next_pk;
}

unfoldable pub set_config : CatalogConfig → Db → Db
set_config config db = record {
  users = db.users;
  scenarios = db.scenarios;
  shares = db.shares;
  slots = db.slots;
  config = config;
  audit = db.audit;
  next_pk = db.next_pk;
}

unfoldable pub add_audit : AuditEntry → Db → Db
add_audit entry db = record {
  users = db.users;
  scenarios = db.scenarios;
  shares = db.shares;
  slots = db.slots;
  config = db.config;
  audit = db.audit ++ entry ∷ [];
  next_pk = db.next_pk;
}

-- the row is added with a new number
unfoldable pub add_scenario : Scenario → Db → Db
add_scenario row db = record {
  users = db.users;
  scenarios = db.scenarios ++ row ∷ [];
  shares = db.shares;
  slots = db.slots;
  config = db.config;
  audit = db.audit;
  next_pk = 1 + db.next_pk;
}

-- the change of a service's `with transaction.atomic()`: a raise takes the rows back, not the files
unfoldable pub roll_back {ℓ} : {A : Type ℓ} → Db → Reply A × Store → Reply A × Store
unfolding set_db
roll_back db (done a, s) = (done a, s)
roll_back db (http code message, s) = (http code message, set_db db s)

-- Every share and every slot names a scenario, as their foreign keys ask.
unfoldable pub references_hold : Db → Bool
unfolding scenario_exists
references_hold db =
    every (λ (x : ScenarioShare). scenario_exists db.scenarios x.scenario_id) db.shares
    && every (λ (x : Slot). scenario_exists db.scenarios x.scenario_id) db.slots

-- The foreign keys are checked when the outermost transaction commits.
unfoldable pub commit {ℓ} : {A : Type ℓ} → Db → Reply A × Store → Reply A × Store
unfolding references_hold set_db
commit db (done a, s) =
    if references_hold s.db
    then (done a, s)
    else (http 500 "FOREIGN KEY constraint failed", set_db db s)
commit db (http code message, s) = (http code message, set_db db s)

module _ {A : Type 0} where
  -- `@transaction.atomic` inside another transaction
  unfoldable pub atomic : Action Store A → Action Store A
  unfolding roll_back
  atomic f s = roll_back s.db (f s)

  -- the outermost `@transaction.atomic`
  unfoldable pub transaction : Action Store A → Action Store A
  unfolding commit
  transaction f s = commit s.db (f s)
