-- ===== src/Scheduler/Samples.antt =====
-- A small configuration of the scheduler: what a round of its loop computes, and inputs for the
-- theorems.
use fox_runner_server.Prelude.{
  ℕ, ◌+◌, ◌≡◌, refl, none, true, false, [], ◌∷◌, ◌++◌, map, min, split_once,
}
use fox_runner_server.Prelude.Dict.{has}
use fox_runner_server.Prelude.Decimal.{two_digits}
use fox_runner_server.Scenario.Effects.{return}
use fox_runner_server.Scenario.Samples.{World, engine, mixed, program}
use fox_runner_server.Store.Executed.{
  missing, load, slots_of, has_executed, date_part, before, stale_keys, pop_all, prune_old_entries,
  mark_executed,
}
use fox_runner_server.Store.Records.{given, next_execution, last_run}
use fox_runner_server.Store.History.{Row, rows_of, append}
use fox_runner_server.Scheduler.Calendar.{Time, day_of, midnight, weekday, make_dt, civil, iso_date}
use fox_runner_server.Scheduler.Slots.{
  TimeSlot, contains_weekday, to_key, draw, window_start, random_datetime_in_slot, add_candidate,
  candidates_of, earliest, pick_from, pick_next_execution, search_pending,
  find_next_pending_execution, format_remaining,
}
use fox_runner_server.Scheduler.Service.{
  Ports, Machine, id_text, with_part, build_failure_message, should_send_network_alert, exit_code,
  save_next, fresh_id, run_once, history_row, record_run, mark_and_clear, handle_task_result,
}
use fox_runner_server.Scheduler.Rounds.{
  Locals, exit, beat, sent_alert, planned, is_new_plan, date_time_text, plan_message, countdown,
  sleep_for, tell, read_clock, check_network, settle_choice, choose_next_slot, scenario_of,
  check_before_run, is_blocked, alert, suspend, announce_plan, wait_for, run_and_record,
  skip_executed, lose_network, perform, is_executed, run_unless_executed, proceed, round_body,
  after_round, round,
}

-- every day from nine to ten
abbrev pub morning : TimeSlot
morning = record {
  slot_id = "morning";
  days = 0 ∷ 1 ∷ 2 ∷ 3 ∷ 4 ∷ 5 ∷ 6 ∷ [];
  start_hour = 9;
  start_minute = 0;
  end_hour = 10;
  end_minute = 0;
  scenario_id = "s";
}

-- 2024-02-29 08:00:00
abbrev pub eight : Time
eight = 63844876800

abbrev pub five : {R : Type 0} → R → ℕ → ℕ × R
five r top = (min 5 top, r)

abbrev pub at : Time → World
at t = record { clock = t; opened = 0; closed = []; calls = [] }

abbrev pub ports : Ports World
ports = record {
  slots = morning ∷ [];
  scenarios = ("s", mixed) ∷ [];
  planning_notification_cooldown_seconds = 600;
  network_retry_seconds = 60;
  check_interval_seconds = 30;
  countdown_threshold_seconds = 0;
  engine = λ dry observed. engine dry;
  wall = λ w. w.clock;
  instant = λ t. t;
  iso = λ t. "";
  utc_date = λ w. "2024-02-29";
  uuid = λ w. ("id", w);
  randint = five;
  sleep = λ n w. record w { clock = w.clock + n };
  network_available = λ w. (true, w);
  notify = λ scenario message w. record w { calls = w.calls ++ message ∷ [] };
}

abbrev pub machine : Machine World
machine = record {
  files = record { executed = missing; next = none; last = none; history = none };
  heartbeat_state = "starting";
  world = at eight;
}

abbrev pub locals : Locals
locals = record { network_alert_sent_at = none; last_planned_slot_key = none }

-- The definitions of the scheduler, for a test that runs them.
unfoldable pub service : Unit {0}
unfolding program split_once has two_digits load slots_of has_executed date_part before stale_keys
    pop_all prune_old_entries mark_executed given next_execution last_run rows_of append day_of
    midnight weekday make_dt civil iso_date contains_weekday to_key draw window_start
    random_datetime_in_slot add_candidate candidates_of earliest pick_from pick_next_execution
    search_pending find_next_pending_execution format_remaining id_text with_part
    build_failure_message should_send_network_alert exit_code save_next fresh_id run_once
    history_row record_run mark_and_clear handle_task_result beat sent_alert planned is_new_plan
    date_time_text plan_message countdown sleep_for tell read_clock check_network settle_choice
    choose_next_slot scenario_of check_before_run is_blocked alert suspend announce_plan wait_for
    run_and_record skip_executed lose_network perform is_executed run_unless_executed proceed
    round_body after_round round
service = tt

to_key-morning : to_key morning eight ≡ "2024-02-29|morning|09:00-10:00"
unfolding service
to_key-morning = refl

-- A poll at eight waits for the time drawn, runs the slot, and ends with the code 0 after `once`.
round-once : (round ports false true locals machine).0 ≡ return (exit 0)
unfolding service
round-once = refl

round-once_history :
    map (λ (r : Row). r.status) (rows_of (round ports false true locals machine).2.files.history)
    ≡ "success" ∷ []
unfolding service
round-once_history = refl

round-once_executed :
    has_executed
      (round ports false true locals machine).2.files.executed
      "2024-02-29|morning|09:00-10:00"
    ≡ true
unfolding service
round-once_executed = refl
