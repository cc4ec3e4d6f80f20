-- ===== src/Scheduler/Parts.antt =====
-- What the parts of a round of the scheduler's loop (scheduler/service.py) do to the executed slots
-- and the history: all but the run itself leave them alone.

use fox_runner_server.Prelude.{
  ℕ, String, ◌≡◌, refl, ap, ◌∙◌, inl, inr, Option, none, some, Bool, true, false, not, Option-cases,
  if◌then◌else◌,
}
use fox_runner_server.Prelude.Dict.{get}
use fox_runner_server.Scenario.Step.{ScenarioDefinition}
use fox_runner_server.Scenario.Effects.{Result-cases}
use fox_runner_server.Scenario.Runner.Task.{TaskRunResult}
use fox_runner_server.Store.Executed.{SlotFile, has_executed}
use fox_runner_server.Store.History.{rows_of, append}
use fox_runner_server.Scheduler.Calendar.{Time}
use fox_runner_server.Scheduler.Slots.{TimeSlot, to_key, Candidate}
use fox_runner_server.Scheduler.Service.{
  Ports, Files, Machine, save_next, run_once, record_run, mark_and_clear, handle_task_result,
  history_row, build_failure_message, should_send_network_alert,
}
use fox_runner_server.Scheduler.Rounds.{
  again, exit, Round, ◌>>◌, pure, change, beat, sent_alert, planned, sleep_for, tell, read_clock,
  check_network, scenario_of, check_before_run, is_blocked, alert, suspend, announce_plan, wait_for,
  run_and_record, skip_executed, lose_network, is_new_plan, plan_message,
}
use fox_runner_server.Scheduler.Outcomes.{
  Untouched, HasRun, Returned, same, HasRun-before, IsQuiet, Settles, IsQuiet-pure, IsQuiet-world,
  IsQuiet-if, IsQuiet-bind,
}

abbrev pub Pending : String → Files → Type 0
Pending key f = has_executed f.executed key ≡ false

pub Pending-stable : (key : String) (f g : Files) → Untouched f g → Pending key f → Pending key g
Pending-stable key f g u h = ap (λ (x : SlotFile). has_executed x key) u.executed ∙ h

module _ {W : Type 0} (p : Ports W) where
  pub run_once-Untouched :
      (slot : TimeSlot) (scenario : ScenarioDefinition) (key : String) (t : Time)
      (dry observed : Bool) (due : Option Time) (id : Option String) (m : Machine W)
      → Untouched m.files (run_once p slot scenario key t dry observed due id m).2.files
  unfolding run_once save_next
  run_once-Untouched slot scenario key t dry observed due id m = record {
    executed = refl;
    history = refl;
  }

  HasRun-if :
      (key : String) (f : Files) (b : Bool) (x y : Machine W)
      → (b ≡ true → HasRun p key f x.files)
      → (b ≡ false → HasRun p key f y.files)
      → HasRun p key f (if b then x else y).files
  HasRun-if key f true x y hx hy = hx refl
  HasRun-if key f false x y hx hy = hy refl

  -- The record of a result that a run of the key returned appends one row, for the key, and marks
  -- the slot as executed exactly when the result is a success.
  pub handle_task_result-HasRun :
      (result : TaskRunResult) (now : Time) (slot : TimeSlot) (scenario : ScenarioDefinition)
      (key : String) (m : Machine W)
      → has_executed m.files.executed key ≡ false
      → Returned p key result
      → HasRun p key m.files (handle_task_result p result now slot scenario key m).files
  unfolding handle_task_result record_run mark_and_clear save_next append rows_of history_row
  handle_task_result-HasRun result now slot scenario key m pending returned =
      HasRun-if key m.files result.success _ _
        (λ e. record {
          pending = pending;
          result = result;
          returned = returned;
          row = history_row p result now slot scenario key "success" result.message;
          row_key = refl;
          row_step = refl;
          history = refl;
          marked = inl (e, refl, p.utc_date m.world, p.instant now, refl);
        })
        (λ e. record {
          pending = pending;
          result = result;
          returned = returned;
          row = history_row p result now slot scenario key "failed" (build_failure_message result);
          row_key = refl;
          row_step = refl;
          history = refl;
          marked = inr (e, refl, refl);
        })

  pub save_next-IsQuiet :
      (key : String) (t : Time) (status : String) (details : Option String) (slot : TimeSlot)
      (scenario : ScenarioDefinition) (id : Option String)
      → IsQuiet (change (save_next p key t status details slot scenario id))
  unfolding save_next
  save_next-IsQuiet key t status details slot scenario id = record {
    at = λ l m. record { executed = refl; history = refl };
  }

  pub run_and_record-Settles :
      (c : Candidate) (scenario : ScenarioDefinition) (dry : Bool) (t : Time)
      → Settles p
          (Pending (to_key c.slot c.day))
          (to_key c.slot c.day)
          (run_and_record p c scenario dry t)
  unfolding run_and_record
  run_and_record-Settles c scenario dry t = record {
    at = λ l m pending.
        let key = to_key c.slot c.day in
        let out = run_once p c.slot scenario key t dry false (some c.next_run) none m in
        let u = run_once-Untouched c.slot scenario key t dry false (some c.next_run) none m in
        elim (Result-cases out.0) [
          | inr (e, fails) ↦ rw (fails, run_and_record) (inl u)
          | inl (result, runs) ↦
              rw (runs, run_and_record)
                (inr (
                  HasRun-before key m.files out.2.files _ u (
                    handle_task_result-HasRun result t c.slot scenario key out.2
                      (Pending-stable key m.files out.2.files u pending)
                      (record {
                        slot = c.slot;
                        scenario = scenario;
                        at = t;
                        due = c.next_run;
                        dry_run = dry;
                        before = m;
                        gives = runs;
                      }))))
        ];
  }

  pub sleep_for-IsQuiet : (seconds : ℕ) → IsQuiet (sleep_for p seconds)
  unfolding sleep_for
  sleep_for-IsQuiet seconds = IsQuiet-world (p.sleep seconds)

  pub tell-IsQuiet :
      (scenario : ScenarioDefinition) (message : String) → IsQuiet (tell p scenario message)
  unfolding tell
  tell-IsQuiet scenario message = IsQuiet-world (p.notify scenario message)

  pub beat-IsQuiet : (state : String) → IsQuiet {W = W} (beat state)
  unfolding beat
  beat-IsQuiet state = record { at = λ l m. same m.files }

  pub read_clock-IsQuiet : IsQuiet (read_clock p)
  unfolding read_clock
  read_clock-IsQuiet = record { at = λ l m. same m.files }

  pub check_network-IsQuiet : IsQuiet (check_network p)
  unfolding check_network
  check_network-IsQuiet = record { at = λ l m. same m.files }

  pub sleep_again-IsQuiet : (seconds : ℕ) → IsQuiet (sleep_for p seconds >> pure again)
  sleep_again-IsQuiet seconds =
      IsQuiet-bind _ _ (sleep_for-IsQuiet seconds) (λ _. IsQuiet-pure again)

  pub is_blocked-IsQuiet :
      (scenario : ScenarioDefinition) (check : Round W Bool)
      → IsQuiet check
      → IsQuiet (is_blocked p scenario check)
  unfolding is_blocked
  is_blocked-IsQuiet scenario check q =
      IsQuiet-if scenario.requires_enterprise_network _ _
        (IsQuiet-bind check _ q (λ ok. IsQuiet-pure (not ok))) (IsQuiet-pure false)

  pub check_before_run-IsQuiet :
      (scenario : ScenarioDefinition) → IsQuiet (check_before_run p scenario)
  unfolding check_before_run
  check_before_run-IsQuiet scenario = IsQuiet-bind _ _ check_network-IsQuiet (λ ok.
      IsQuiet-if ok _ _ (IsQuiet-pure true)
        (IsQuiet-bind _ _ (tell-IsQuiet scenario _) (λ _. IsQuiet-pure false)))

  pub skip_executed-IsQuiet : IsQuiet (skip_executed p)
  unfolding skip_executed
  skip_executed-IsQuiet =
      IsQuiet-bind (change (λ m. record m { files = record m.files { next = none } })) _
        (record { at = λ l m. record { executed = refl; history = refl } })
        (λ _. sleep_again-IsQuiet p.check_interval_seconds)

  pub lose_network-IsQuiet :
      (c : Candidate) (scenario : ScenarioDefinition) (once : Bool)
      → IsQuiet (lose_network p c scenario once)
  unfolding lose_network
  lose_network-IsQuiet c scenario once =
      IsQuiet-bind _ _ (save_next-IsQuiet _ _ _ _ _ scenario _) (λ _.
        IsQuiet-if once _ _ (IsQuiet-pure (exit 2)) (sleep_again-IsQuiet p.network_retry_seconds))

  pub sent_alert-IsQuiet : (t : Option Time) → IsQuiet {W = W} (sent_alert t)
  unfolding sent_alert
  sent_alert-IsQuiet t = record { at = λ l m. same m.files }

  pub planned-IsQuiet : (key : String) → IsQuiet {W = W} (planned key)
  unfolding planned
  planned-IsQuiet key = record { at = λ l m. same m.files }

  pub wait_for-IsQuiet : (target : Time) → IsQuiet (wait_for p target)
  unfolding wait_for
  wait_for-IsQuiet target = IsQuiet-world _

  pub scenario_of-IsQuiet : (slot : TimeSlot) → IsQuiet (scenario_of p slot)
  unfolding scenario_of
  scenario_of-IsQuiet slot = record {
    at = λ l m. elim (Option-cases (get p.scenarios slot.scenario_id)) [
      | inl missing ↦ rw (missing, scenario_of) (same m.files)
      | inr (scenario, found) ↦ rw (found, scenario_of) (same m.files)
    ];
  }

  pub alert-IsQuiet : (now : Time) (scenario : ScenarioDefinition) → IsQuiet (alert p now scenario)
  unfolding alert
  alert-IsQuiet now scenario = record {
    at = λ l m.
        (IsQuiet-if
            (should_send_network_alert now l.network_alert_sent_at
              p.planning_notification_cooldown_seconds)
            _ _
            (IsQuiet-bind _ _
              (tell-IsQuiet scenario
                "Planification suspendue: machine non connectee au reseau d'entreprise ou au VPN.")
              (λ _. sent_alert-IsQuiet (some now)))
            (IsQuiet-pure tt)).at
          l m;
  }

  pub announce_plan-IsQuiet :
      (c : Candidate) (scenario : ScenarioDefinition) → IsQuiet (announce_plan p c scenario)
  unfolding announce_plan
  announce_plan-IsQuiet c scenario = record {
    at = λ l m.
        (IsQuiet-if (is_new_plan (to_key c.slot c.day) l.last_planned_slot_key) _ _
            (IsQuiet-bind _ _
              (save_next-IsQuiet (to_key c.slot c.day) c.next_run "planned" none c.slot scenario
                none)
              (λ _.
                IsQuiet-bind _ _ (tell-IsQuiet scenario (plan_message c scenario))
                  (λ _. planned-IsQuiet (to_key c.slot c.day))))
            (IsQuiet-pure tt)).at
          l m;
  }

  pub suspend-IsQuiet :
      (now : Time) (c : Candidate) (scenario : ScenarioDefinition)
      → IsQuiet (suspend p now c scenario)
  unfolding suspend
  suspend-IsQuiet now c scenario = IsQuiet-bind _ _ (save_next-IsQuiet _ _ _ _ _ scenario _) (λ _.
      IsQuiet-bind _ _ (alert-IsQuiet now scenario)
        (λ _. sleep_again-IsQuiet p.network_retry_seconds))
