-- ===== src/Scheduler/CommandRuns.antt =====
-- What the single runs of scheduler/service.py do to the executed slots and the history.
use fox_runner_server.Prelude.{
  ℕ, String, Option, none, Bool, false, find, str_eq, Option-cases, inl, inr,
}
use fox_runner_server.Scenario.Step.{ScenarioDefinition}
use fox_runner_server.Scheduler.Calendar.{Time}
use fox_runner_server.Scheduler.Slots.{TimeSlot, to_key, Candidate}
use fox_runner_server.Scheduler.Service.{Ports, Machine, exit_code}
use fox_runner_server.Scheduler.Rounds.{Locals, Round, ◌>>=◌, pure, scenario_of, run_and_record}
use fox_runner_server.Scheduler.Outcomes.{Untouched, same, IsQuiet, IsQuiet-pure, IsQuiet-bind}
use fox_runner_server.Scheduler.Parts.{run_once-Untouched, read_clock-IsQuiet, scenario_of-IsQuiet}
use fox_runner_server.Scheduler.Commands.{run_only, run_slot}

module _ {W : Type 0} (p : Ports W) where
  run_only-IsQuiet :
      (slot : TimeSlot) (scenario : ScenarioDefinition) (key : String) (t : Time)
      (dry observed : Bool) (id : Option String)
      → IsQuiet (run_only p slot scenario key t dry observed id)
  unfolding run_only
  run_only-IsQuiet slot scenario key t dry observed id = record {
    at = λ l m. run_once-Untouched p slot scenario key t dry observed none id m;
  }

  -- A run of one slot by its id, whatever comes of it, leaves the executed slots and the history
  -- alone: the slot is run again at its time, and the history does not show the run.
  pub run_slot-Untouched :
      (slot_id : String) (dry_run : Bool) (l : Locals) (m : Machine W)
      → Untouched m.files (run_slot p slot_id dry_run l m).2.files
  unfolding run_slot
  run_slot-Untouched slot_id dry l m =
      elim (Option-cases (find (λ (s : TimeSlot). str_eq s.slot_id slot_id) p.slots)) [
        | inl missing ↦ rw (missing, run_slot) (same m.files)
        | inr (slot, found) ↦
            rw (found, run_slot)
              ((IsQuiet-bind _ _ (scenario_of-IsQuiet p slot) (λ scenario.
                  IsQuiet-bind _ _ (read_clock-IsQuiet p) (λ t.
                    IsQuiet-bind _ _
                      (run_only-IsQuiet slot scenario (to_key slot t) t dry false none)
                      (λ result. IsQuiet-pure (exit_code result))))).at
                l m)
      ]

  -- what `run_next` does with its candidate
  run_chosen : Time → Bool → Candidate → Round W ℕ
  run_chosen t dry c = scenario_of p c.slot >>= λ scenario.
      run_and_record p c scenario dry t >>= λ result. pure (exit_code result)
