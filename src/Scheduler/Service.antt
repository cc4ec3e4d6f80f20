-- ===== src/Scheduler/Service.antt =====
-- `SchedulerService` of scheduler/service.py: the runs of a slot or a scenario, and the records of
-- their results. Logging is not modelled, nor are errors of the store's files.
use fox_runner_server.Prelude.{
  ℕ, ◌+◌, String, Option, none, some, Bool, true, List, [], ◌∷◌, get_or, append_str, is_truthy, leb,
  if◌then◌else◌,
}
use fox_runner_server.Prelude.Dict.{Dict}
use fox_runner_server.Scenario.Step.{ScenarioDefinition}
use fox_runner_server.Scenario.Effects.{Result, Value, text, browser, StepEvent, Engine}
use fox_runner_server.Scenario.Runner.Task.{TaskRunResult, run_task}
use fox_runner_server.Store.Executed.{SlotFile, mark_executed}
use fox_runner_server.Store.Records.{NextExecution, LastRun, next_execution, last_run}
use fox_runner_server.Store.History.{Row, HistoryFile, append}
use fox_runner_server.Scheduler.Calendar.{Time}
use fox_runner_server.Scheduler.Slots.{TimeSlot}

-- The configuration of the service, and what it calls outside the stores and the runner.
pub record Ports (W : Type 0) : Type 0 where
  pub slots : List TimeSlot
  pub scenarios : Dict ScenarioDefinition
  pub planning_notification_cooldown_seconds : ℕ
  pub network_retry_seconds : ℕ
  pub check_interval_seconds : ℕ
  pub countdown_threshold_seconds : ℕ
  pub engine : (dry_run observed : Bool) → Engine W
  -- `datetime.now(timezone).replace(microsecond=0)`
  pub wall : W → Time
  -- the UTC second of a local time, as `_isoformat` writes it
  pub instant : Time → ℕ
  -- `isoformat()` of a local time
  pub iso : Time → String
  -- the date of `datetime.now(UTC)`
  pub utc_date : W → String
  -- `uuid4().hex`
  pub uuid : W → String × W
  -- `random.randint(0, top)`
  pub randint : W → ℕ → ℕ × W
  -- `time.sleep`, in seconds
  pub sleep : ℕ → W → W
  -- `NetworkGuard.is_default_network_available`
  pub network_available : W → Bool × W
  -- `self._notifier_for(scenario).send(message)`
  pub notify : ScenarioDefinition → String → W → W

-- the files of the stores
pub record Files : Type 0 where
  pub executed : SlotFile
  pub next : Option NextExecution
  pub last : Option LastRun
  pub history : HistoryFile

pub record Machine (W : Type 0) : Type 0 where
  pub files : Files
  pub heartbeat_state : String
  pub world : W

-- The execution id of a result, which is the text that `_run_once` puts into the context.
unfoldable pub id_text : Option Value → Option String
id_text none = none
id_text (some (text s)) = some s
id_text (some (browser n)) = none

unfoldable pub with_part : String → Option String → String → String
with_part message none label = message
with_part message (some path) label =
    if is_truthy path then append_str message (append_str label path) else message

-- `_build_failure_message`
unfoldable pub build_failure_message : TaskRunResult → String
unfolding with_part
build_failure_message result =
    with_part (with_part result.message result.screenshot_path " | screenshot=")
      result.page_source_path " | page_source="

-- `_should_send_network_alert`
unfoldable pub should_send_network_alert : Time → Option Time → ℕ → Bool
should_send_network_alert now none cooldown_seconds = true
should_send_network_alert now (some last_sent_at) cooldown_seconds =
    leb (last_sent_at + cooldown_seconds) now

unfoldable pub exit_code : TaskRunResult → ℕ
exit_code result = if result.success then 0 else 2

module _ {W : Type 0} (p : Ports W) where
  unfoldable pub save_next :
      (slot_key : String) (scheduled_for : Time) (status : String) (details : Option String)
      (slot : TimeSlot) (scenario : ScenarioDefinition) (execution_id : Option String)
      → Machine W
      → Machine W
  save_next slot_key scheduled_for status details slot scenario execution_id m =
      let saved =
        next_execution slot_key (p.instant scheduled_for) status details (some slot.slot_id)
          (some scenario.scenario_id) execution_id in
      record m { files = record m.files { next = some saved } }

  -- `execution_id or uuid4().hex`
  unfoldable pub fresh_id : Option String → W → String × W
  fresh_id none w = p.uuid w
  fresh_id (some s) w = if is_truthy s then (s, w) else p.uuid w

  -- `_run_once`, with the events of the run
  unfoldable pub run_once :
      (slot : TimeSlot) (scenario : ScenarioDefinition) (slot_key : String) (execution_time : Time)
      (dry_run observed : Bool) (scheduled_for : Option Time) (execution_id : Option String)
      → Machine W
      → Result TaskRunResult × List StepEvent × Machine W
  run_once slot scenario slot_key execution_time dry_run observed scheduled_for execution_id m =
      let (id, world) = fresh_id execution_id m.world in
      let m' =
        save_next slot_key execution_time "running" none slot scenario (some id)
          (record m { world = world }) in
      let context : Dict Value =
        ("slot_key", text slot_key)
        ∷ ("slot_id", text slot.slot_id)
        ∷ ("scenario_id", text scenario.scenario_id)
        ∷ ("execution_id", text id)
        ∷ ("scheduled_for", text (p.iso (get_or scheduled_for execution_time)))
        ∷ ("executed_at", text (p.iso execution_time))
        ∷ [] in
      let (r, s) =
        run_task (p.engine dry_run observed) scenario
          (record { context = context; events = []; world = world }) in
      (r, s.events, record m' { world = s.world })

  unfoldable pub history_row :
      TaskRunResult
      → Time
      → TimeSlot
      → ScenarioDefinition
      → (slot_key status message : String) → Row
  history_row result now slot scenario slot_key status message = record {
    slot_key = slot_key;
    slot_id = slot.slot_id;
    scenario_id = scenario.scenario_id;
    execution_id = id_text result.execution_id;
    executed_at = p.instant now;
    status = status;
    step = result.step;
    message = message;
  }

  unfoldable pub record_run :
      TaskRunResult
      → Time
      → TimeSlot
      → ScenarioDefinition
      → (slot_key status message : String) → Machine W
      → Machine W
  record_run result now slot scenario slot_key status message m =
      let last =
        last_run slot_key (some slot.slot_id) (some scenario.scenario_id)
          (id_text result.execution_id) (p.instant now) status result.step message in
      let row = history_row result now slot scenario slot_key status message in
      record m { files = record m.files { last = some last; history = append m.files.history row } }

  -- `self.state_store.mark_executed(...)` and `self.next_execution_store.clear()`
  unfoldable pub mark_and_clear : String → Time → Machine W → Machine W
  mark_and_clear slot_key now m = record m {
    files = record m.files {
      executed = mark_executed (p.utc_date m.world) m.files.executed slot_key (p.instant now);
      next = none;
    };
  }

  -- `_handle_task_result`
  unfoldable pub handle_task_result :
      TaskRunResult
      → Time
      → TimeSlot
      → ScenarioDefinition
      → (slot_key : String) → Machine W
      → Machine W
  handle_task_result result now slot scenario slot_key m =
      if result.success
      then record_run result now slot scenario slot_key "success" result.message
          (mark_and_clear slot_key now m)
      else record_run result now slot scenario slot_key "failed" (build_failure_message result) (
          save_next slot_key now "failed" (some result.message) slot scenario
            (id_text result.execution_id) m)
