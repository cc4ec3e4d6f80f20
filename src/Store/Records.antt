-- ===== src/Store/Records.antt =====
-- `NextExecutionStore` and `LastRunStore` of state/store.py: what their files hold. The time
-- `updated_at` of a record is not modelled; an instant is a number of seconds in UTC.
use fox_runner_server.Prelude.{ℕ, String, Option, none, some, is_truthy, if◌then◌else◌}

pub record NextExecution : Type 0 where
  pub slot_key : String
  pub scheduled_for : ℕ
  pub status : String
  pub slot_id : Option String
  pub scenario_id : Option String
  pub execution_id : Option String
  pub details : Option String

pub record LastRun : Type 0 where
  pub slot_key : String
  pub executed_at : ℕ
  pub status : String
  pub step : String
  pub message : String
  pub slot_id : Option String
  pub scenario_id : Option String
  pub execution_id : Option String

-- `if value: payload[...] = value`
unfoldable pub given : Option String → Option String
given none = none
given (some s) = if is_truthy s then some s else none

-- `NextExecutionStore.save`: the file is replaced whole
unfoldable pub next_execution :
    (slot_key : String) (scheduled_for : ℕ) (status : String)
    (details slot_id scenario_id execution_id : Option String)
    → NextExecution
next_execution slot_key scheduled_for status details slot_id scenario_id execution_id = record {
  slot_key = slot_key;
  scheduled_for = scheduled_for;
  status = status;
  slot_id = given slot_id;
  scenario_id = given scenario_id;
  execution_id = given execution_id;
  details = given details;
}

-- `LastRunStore.save`
unfoldable pub last_run :
    (slot_key : String) (slot_id scenario_id execution_id : Option String) (executed_at : ℕ)
    (status step message : String)
    → LastRun
last_run slot_key slot_id scenario_id execution_id executed_at status step message = record {
  slot_key = slot_key;
  executed_at = executed_at;
  status = status;
  step = step;
  message = message;
  slot_id = given slot_id;
  scenario_id = given scenario_id;
  execution_id = given execution_id;
}
