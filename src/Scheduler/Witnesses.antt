-- ===== src/Scheduler/Witnesses.antt =====
-- The theorems about scheduler/ at small inputs.

use mathlib.Core.List.Memᴰ.{head}
use fox_runner_server.Prelude.{ℕ, ◌+◌, ◌-◌, ◌*◌, ◌≤◌, ◌≡◌, refl, some, false, [], ◌∷◌, arith}
use fox_runner_server.Scheduler.Calendar.{midnight, make_dt}
use fox_runner_server.Scheduler.Slots.{
  Candidate, chosen, candidates_of, pick_next_execution, find_next_pending_execution,
}
use fox_runner_server.Scheduler.Choices.{IsServed, find_next_pending_execution-IsServed}
use fox_runner_server.Scheduler.Progress.{
  IsClock, IsOpen, pick_next_execution-chooses, candidates_of-misses_open_slot,
}
use fox_runner_server.Scheduler.Rounds.{countdown}
use fox_runner_server.Scheduler.Outcomes.{Untouched}
use fox_runner_server.Scheduler.Commands.{run_slot}
use fox_runner_server.Scheduler.CommandRuns.{run_slot-Untouched}
use fox_runner_server.Scheduler.Waiting.{countdown-reaches}
use fox_runner_server.Scheduler.Samples.{morning, eight, five, at, ports, machine, locals, service}

five-le : {R : Type 0} (r : R) (top : ℕ) → (five r top).0 ≤ top
five-le r top = omega arith

chooses :
    find_next_pending_execution five tt eight (morning ∷ []) (λ _. false) 10
    ≡ chosen (record { next_run = eight + 3605; slot = morning; day = midnight eight }) tt
unfolding service
chooses = refl

find_next_pending_execution-IsServed_example :
    IsServed eight
      (morning ∷ [])
      (record { next_run = eight + 3605; slot = morning; day = midnight eight })
    × (false ≡ false)
find_next_pending_execution-IsServed_example =
    find_next_pending_execution-IsServed five five-le tt eight (morning ∷ []) (λ _. false) 10
      (record { next_run = eight + 3605; slot = morning; day = midnight eight }) tt chooses

morning-IsClock : IsClock morning
morning-IsClock = record {
  start_hour = omega arith;
  start_minute = omega arith;
  end_hour = omega arith;
  end_minute = omega arith;
}

tomorrow : IsOpen eight (midnight eight + 1 * 86400) morning
unfolding service
tomorrow = record { on_weekday = refl; not_empty = omega arith; begins_later = omega arith }

pick_next_execution-chooses_example :
    (c : Candidate) × (r : Unit {0}) × (pick_next_execution five tt eight (morning ∷ []) 10
      ≡ chosen c r)
pick_next_execution-chooses_example =
    pick_next_execution-chooses five tt eight (morning ∷ []) 10 morning 1 (morning-IsClock, tt)
      (head refl) (omega arith) tomorrow

opens : make_dt (midnight (eight + 5400)) 9 0 0 ≡ some (eight + 3600)
unfolding service
opens = refl

closes : make_dt (midnight (eight + 5400)) 10 0 0 ≡ some (eight + 7200)
unfolding service
closes = refl

candidates_of-misses_open_slot_example :
    (r : Unit {0}) × (candidates_of
        (λ r _. (0, r))
        tt
        (eight + 5400)
        (midnight (eight + 5400))
        (morning ∷ [])
      ≡ some ([], r))
candidates_of-misses_open_slot_example =
    candidates_of-misses_open_slot (λ r _. (0, r)) tt (eight + 5400) (eight + 3600) (eight + 7200)
      morning opens closes (omega arith) (omega arith) refl

countdown-reaches_example :
    eight + 30 ≤ (countdown ports (eight + 30 - eight) (eight + 30) (at eight)).clock
countdown-reaches_example = countdown-reaches ports (λ n w. omega arith) (eight + 30) (at eight)

run_slot-Untouched_example :
    Untouched machine.files (run_slot ports "morning" false locals machine).2.files
run_slot-Untouched_example = run_slot-Untouched ports "morning" false locals machine
