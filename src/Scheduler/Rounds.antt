-- ===== src/Scheduler/Rounds.antt =====
-- `SchedulerService.loop` of scheduler/service.py, one round of its `while` at a time, and
-- `run_next`. An interrupt from the keyboard is not modelled.
use Prim.Native.String.{◌++◌}
use fox_runner_server.Prelude.{
  ◌%◌, ℕ, zero, suc, ◌-◌, String, Option, none, some, Bool, true, false, not, str_eq, ltb,
  if◌then◌else◌,
}
use fox_runner_server.Prelude.Dict.{get}
use fox_runner_server.Scenario.Step.{ScenarioDefinition}
use fox_runner_server.Scenario.Effects.{Result, return, raise}
use fox_runner_server.Scenario.Runner.Task.{TaskRunResult}
use fox_runner_server.Store.Executed.{has_executed}
use fox_runner_server.Scheduler.Calendar.{Time, day_of, iso_date}
use fox_runner_server.Scheduler.Slots.{
  TimeSlot, to_key, Candidate, Choice, chosen, value_error, runtime_error,
  find_next_pending_execution, format_remaining,
}
use fox_runner_server.Scheduler.Service.{
  Ports, Machine, save_next, run_once, handle_task_result, should_send_network_alert, exit_code,
}

-- the locals that a round leaves to the next one
pub record Locals : Type 0 where
  pub network_alert_sent_at : Option Time
  pub last_planned_slot_key : Option String

-- How a round ends: `continue`, or the end of its suite; or the `return` of an exit code.
pub data Next : Type 0 where
  again : Next
  exit : ℕ → Next

-- A part of a round: it may raise; the locals and the files keep what was done before.
abbrev pub Round : Type 0 → Type 0 → Type 0
Round W A = Locals → Machine W → Result A × Locals × Machine W

module _ {W A B : Type 0} where
  abbrev pub and_then : Result A → (A → Round W B) → Round W B
  and_then (return a) k l m = k a l m
  and_then (raise e) k l m = (raise e, l, m)

  infixl 5 ◌>>=◌
  abbrev pub ◌>>=◌ : Round W A → (A → Round W B) → Round W B
  ◌>>=◌ f k l m = let (r, l', m') = f l m in and_then r k l' m'

module _ {W B : Type 0} where
  infixl 5 ◌>>◌
  abbrev pub ◌>>◌ : Round W (Unit {0}) → Round W B → Round W B
  f >> k = f >>= λ _. k

module _ {W A : Type 0} where
  abbrev pub pure : A → Round W A
  pure a l m = (return a, l, m)

  abbrev pub throw : String → Round W A
  throw e l m = (raise e, l, m)

module _ {W : Type 0} where
  -- a part that only changes the machine
  abbrev pub change : (Machine W → Machine W) → Round W (Unit {0})
  change f l m = (return tt, l, f m)

  abbrev pub change_world : (W → W) → Round W (Unit {0})
  change_world f = change (λ m. record m { world = f m.world })

  unfoldable pub beat : String → Round W (Unit {0})
  beat state = change (λ m. record m { heartbeat_state = state })

  unfoldable pub sent_alert : Option Time → Round W (Unit {0})
  sent_alert t l m = (return tt, record l { network_alert_sent_at = t }, m)

  unfoldable pub planned : String → Round W (Unit {0})
  planned key l m = (return tt, record l { last_planned_slot_key = some key }, m)

-- `slot_key != last_planned_slot_key`
unfoldable pub is_new_plan : String → Option String → Bool
is_new_plan key none = true
is_new_plan key (some last) = not (str_eq key last)

-- `strftime('%Y-%m-%d %H:%M:%S')`
unfoldable pub date_time_text : Time → String
date_time_text t = iso_date (day_of t) ++ " " ++ format_remaining (t % 86400)

unfoldable pub plan_message : Candidate → ScenarioDefinition → String
plan_message c scenario =
    "Prochaine execution planifiee: "
    ++ date_time_text c.next_run
    ++ " ("
    ++ c.slot.slot_id
    ++ " -> "
    ++ scenario.scenario_id
    ++ ")"

module _ {W : Type 0} (p : Ports W) where
  -- `countdown_console`, for at most `fuel` pauses
  unfoldable pub countdown : ℕ → Time → W → W
  countdown zero target w = w
  countdown (suc fuel) target w =
      let remaining = target - p.wall w in
      elim (ltb 0 remaining) [
        | false ↦ w
        | true ↦
            if ltb p.countdown_threshold_seconds remaining
            then countdown fuel target (p.sleep (remaining - p.countdown_threshold_seconds) w)
            else countdown fuel target (p.sleep 1 w)
      ]

  unfoldable pub sleep_for : ℕ → Round W (Unit {0})
  sleep_for seconds = change_world (p.sleep seconds)

  unfoldable pub tell : ScenarioDefinition → String → Round W (Unit {0})
  tell scenario message = change_world (p.notify scenario message)

  unfoldable pub read_clock : Round W Time
  read_clock l m = (return (p.wall m.world), l, m)

  unfoldable pub check_network : Round W Bool
  check_network l m =
      let (ok, w) = p.network_available m.world in (return ok, l, record m { world = w })

  unfoldable pub settle_choice : Choice W → Round W Candidate
  settle_choice (chosen c w) l m = (return c, l, record m { world = w })
  settle_choice value_error l m = (raise "ValueError", l, m)
  settle_choice (runtime_error message) l m = (raise message, l, m)

  -- `choose_next_slot`
  unfoldable pub choose_next_slot : Time → Round W Candidate
  choose_next_slot now l m =
      settle_choice
        (find_next_pending_execution p.randint m.world now p.slots (has_executed m.files.executed)
          10)
        l m

  -- `self.scenarios[slot.scenario_id]`
  unfoldable pub scenario_of : TimeSlot → Round W ScenarioDefinition
  scenario_of slot = elim (get p.scenarios slot.scenario_id) [
    | none ↦ throw slot.scenario_id
    | some scenario ↦ pure scenario
  ]

  -- `NetworkGuard.check_before_run`
  unfoldable pub check_before_run : ScenarioDefinition → Round W Bool
  check_before_run scenario = do
    ok ← check_network
    if ok then pure true else (do
      tell scenario "Execution annulee: machine non connectee au reseau d'entreprise ou au VPN."
      pure false)

  -- `scenario.requires_enterprise_network and not check()`
  unfoldable pub is_blocked : ScenarioDefinition → Round W Bool → Round W Bool
  is_blocked scenario check =
      if scenario.requires_enterprise_network then (do ok ← check; pure (not ok)) else pure false

  unfoldable pub alert : Time → ScenarioDefinition → Round W (Unit {0})
  alert now scenario l m =
      (if should_send_network_alert now l.network_alert_sent_at
            p.planning_notification_cooldown_seconds
          then (do
            tell scenario
                "Planification suspendue: machine non connectee au reseau d'entreprise ou au VPN."
            sent_alert (some now))
          else pure tt)
        l m

  -- the network is absent at planning
  unfoldable pub suspend : Time → Candidate → ScenarioDefinition → Round W Next
  suspend now c scenario = do
    change (
        save_next p (to_key c.slot c.day) c.next_run "blocked_no_network"
          (some "Connexion au reseau d'entreprise ou VPN absente.") c.slot scenario none)
    alert now scenario
    sleep_for p.network_retry_seconds
    pure again

  unfoldable pub announce_plan : Candidate → ScenarioDefinition → Round W (Unit {0})
  announce_plan c scenario l m =
      let key = to_key c.slot c.day in
      (if is_new_plan key l.last_planned_slot_key
          then (do
            change (save_next p key c.next_run "planned" none c.slot scenario none)
            tell scenario (plan_message c scenario)
            planned key)
          else pure tt)
        l m

  unfoldable pub wait_for : Time → Round W (Unit {0})
  wait_for target = change_world (λ w. countdown (target - p.wall w) target w)

  -- the run itself, and the record of its result
  unfoldable pub run_and_record :
      Candidate → ScenarioDefinition → (dry_run : Bool) → Time → Round W TaskRunResult
  run_and_record c scenario dry_run execution_time l m =
      let key = to_key c.slot c.day in
      let (r, events, m') =
        run_once p c.slot scenario key execution_time dry_run false (some c.next_run) none m in
      elim r [
        | raise e ↦ (raise e, l, m')
        | return result ↦
            (return result, l, handle_task_result p result execution_time c.slot scenario key m')
      ]

  unfoldable pub skip_executed : Round W Next
  skip_executed = do
    change (λ m. record m { files = record m.files { next = none } })
    sleep_for p.check_interval_seconds
    pure again

  unfoldable pub lose_network : Candidate → ScenarioDefinition → Bool → Round W Next
  lose_network c scenario once = do
    change (
        save_next p (to_key c.slot c.day) c.next_run "blocked_no_network"
          (some "Connexion perdue juste avant execution.") c.slot scenario none)
    if once then pure (exit 2) else (do sleep_for p.network_retry_seconds; pure again)

  unfoldable pub perform : Candidate → ScenarioDefinition → (dry_run once : Bool) → Round W Next
  perform c scenario dry_run once = do
    execution_time ← read_clock
    beat "running"
    result ← run_and_record c scenario dry_run execution_time
    beat "planning"
    if once
        then pure (exit (exit_code result))
        else (do sleep_for p.check_interval_seconds; pure again)

  unfoldable pub is_executed : Candidate → Round W Bool
  is_executed c l m = (return (has_executed m.files.executed (to_key c.slot c.day)), l, m)

  unfoldable pub run_unless_executed :
      Candidate → ScenarioDefinition → (dry_run once : Bool) → Round W Next
  run_unless_executed c scenario dry_run once = do
    executed ← is_executed c
    if executed then skip_executed else (do
      blocked ← is_blocked scenario (check_before_run scenario)
      if blocked then lose_network c scenario once else perform c scenario dry_run once)

  unfoldable pub proceed : Candidate → ScenarioDefinition → (dry_run once : Bool) → Round W Next
  proceed c scenario dry_run once = do
    sent_alert none
    announce_plan c scenario
    wait_for c.next_run
    run_unless_executed c scenario dry_run once

  -- the `try` suite
  unfoldable pub round_body : (dry_run once : Bool) → Round W Next
  round_body dry_run once = do
    now ← read_clock
    beat "planning"
    c ← choose_next_slot now
    scenario ← scenario_of c.slot
    blocked ← is_blocked scenario check_network
    if blocked then suspend now c scenario else proceed c scenario dry_run once

  -- `except Exception`: ten seconds, and another round
  unfoldable pub after_round : Result Next → Round W Next
  after_round (return n) = pure n
  after_round (raise e) = do sleep_for 10; pure again

  unfoldable pub round : (dry_run once : Bool) → Round W Next
  round dry_run once l m = let (r, l', m') = round_body dry_run once l m in after_round r l' m'
