-- ===== src/Scheduler/Runs.antt =====
-- What a round of the scheduler's loop (scheduler/service.py) runs, and what it records of it.

use fox_runner_server.Prelude.{◌⊎◌, Bool, if◌then◌else◌}
use fox_runner_server.Scheduler.Calendar.{Time}
use fox_runner_server.Scheduler.Slots.{to_key, Candidate}
use fox_runner_server.Scheduler.Choices.{IsServed}
use fox_runner_server.Scheduler.Service.{Ports, Files}
use fox_runner_server.Scheduler.Rounds.{
  Next, Round, ◌>>=◌, check_network, scenario_of, is_blocked, suspend, proceed,
}
use fox_runner_server.Scheduler.Outcomes.{Untouched, HasRun}

module _ {W : Type 0} (p : Ports W) where
  abbrev Anyhow : Files → Type 0
  Anyhow f = Unit

  -- what a round does once its candidate is chosen
  follow : Time → (dry once : Bool) → Candidate → Round W Next
  follow now dry once c = scenario_of p c.slot >>= λ scenario.
      is_blocked p scenario (check_network p) >>= λ blocked.
      if blocked then suspend p now c scenario else proceed p c scenario dry once

  -- Nothing was recorded, or a run of one of the slots that was due after `now`.
  abbrev pub RanAtMostOne : Time → Files → Files → Type 0
  RanAtMostOne now f g =
      Untouched f g ⊎ (c : Candidate) × IsServed now p.slots c × HasRun p (to_key c.slot c.day) f g
