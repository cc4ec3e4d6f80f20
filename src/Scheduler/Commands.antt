-- ===== src/Scheduler/Commands.antt =====
-- The single runs of `SchedulerService` (scheduler/service.py): of a slot, of a scenario, and of the
-- next pending slot, each with the exit code of its command.
use fox_runner_server.Prelude.{
  ℕ, ◌/◌, ◌%◌, String, Option, none, some, Bool, false, List, [], ◌∷◌, find, any, keep, str_eq,
}
use fox_runner_server.Prelude.Dict.{get}
use fox_runner_server.Scenario.Step.{ScenarioDefinition}
use fox_runner_server.Scenario.Runner.Task.{TaskRunResult}
use fox_runner_server.Scheduler.Calendar.{Time}
use fox_runner_server.Scheduler.Slots.{TimeSlot, to_key}
use fox_runner_server.Scheduler.Service.{Ports, run_once, exit_code}
use fox_runner_server.Scheduler.Rounds.{
  Round, ◌>>=◌, pure, read_clock, choose_next_slot, scenario_of, run_and_record,
}

module _ {W : Type 0} (p : Ports W) where
  -- `_run_once` without a record of its result
  unfoldable pub run_only :
      TimeSlot
      → ScenarioDefinition
      → (slot_key : String) → Time
      → (dry_run observed : Bool) → Option String
      → Round W TaskRunResult
  run_only slot scenario slot_key t dry_run observed execution_id l m =
      let (r, events, m') =
        run_once p slot scenario slot_key t dry_run observed none execution_id m in
      (r, l, m')

  -- `run_slot`
  unfoldable pub run_slot : (slot_id : String) → (dry_run : Bool) → Round W ℕ
  run_slot slot_id dry_run = elim (find (λ (s : TimeSlot). str_eq s.slot_id slot_id) p.slots) [
    | none ↦ pure 1
    | some slot ↦ do
      scenario ← scenario_of p slot
      t ← read_clock p
      result ← run_only slot scenario (to_key slot t) t dry_run false none
      pure (exit_code result)
  ]

  -- the slot that `run_scenario` makes up: from now to the end of the day, on every day
  unfoldable pub synthetic_slot : Time → (scenario_id : String) → TimeSlot
  synthetic_slot t scenario_id = record {
    slot_id = "__manual__";
    days = 0 ∷ 1 ∷ 2 ∷ 3 ∷ 4 ∷ 5 ∷ 6 ∷ [];
    start_hour = t % 86400 / 3600;
    start_minute = t % 3600 / 60;
    end_hour = 23;
    end_minute = 59;
    scenario_id = scenario_id;
  }

  -- `run_scenario`
  unfoldable pub run_scenario :
      (scenario_id : String)
      → (dry_run observed : Bool) → (execution_id : Option String) → Round W ℕ
  run_scenario scenario_id dry_run observed execution_id = elim (get p.scenarios scenario_id) [
    | none ↦ pure 1
    | some scenario ↦ do
      t ← read_clock p
      result ←
          run_only (synthetic_slot t scenario_id) scenario (to_key (synthetic_slot t scenario_id) t)
            t dry_run observed execution_id
      pure (exit_code result)
  ]

  -- `run_next`
  unfoldable pub run_next : (dry_run : Bool) → Round W ℕ
  run_next dry_run = do
    t ← read_clock p
    c ← choose_next_slot p t
    scenario ← scenario_of p c.slot
    result ← run_and_record p c scenario dry_run t
    pure (exit_code result)

-- `run_next_for_scenarios`: `run_next` over the slots of some scenarios
unfoldable pub run_next_for_scenarios :
    {W : Type 0} (p : Ports W) → (scenario_ids : List String) → (dry_run : Bool) → Round W ℕ
run_next_for_scenarios p scenario_ids dry_run =
    let eligible =
      keep (λ (s : TimeSlot). any (λ (id : String). str_eq id s.scenario_id) scenario_ids)
        p.slots in
    elim eligible [
      | [] ↦ pure 1
      | slot ∷ slots ↦ run_next (record p { slots = slot ∷ slots }) dry_run
    ]
