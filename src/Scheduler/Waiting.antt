-- ===== src/Scheduler/Waiting.antt =====
-- `countdown_console` of scheduler/service.py ends, and not before its time.
use fox_runner_server.Prelude.{
  ℕ, zero, suc, ◌+◌, ◌-◌, ◌≤◌, Bool-cases, inl, inr, ltb, ltb→lt, arith,
}
use fox_runner_server.Scheduler.Calendar.{Time}
use fox_runner_server.Scheduler.Service.{Ports}
use fox_runner_server.Scheduler.Rounds.{countdown}

module _ {W : Type 0} (p : Ports W)
    (sleeps : (n : ℕ) (w : W) → p.wall w + n ≤ p.wall (p.sleep n w)) where
  countdown-le :
      (fuel : ℕ) (target : Time) (w : W)
      → target - p.wall w ≤ fuel
      → target ≤ p.wall (countdown p fuel target w)
  unfolding countdown
  countdown-le zero target w enough = omega (arith, enough)
  countdown-le (suc fuel) target w enough = elim (Bool-cases (ltb 0 (target - p.wall w))) [
    | inr over ↦ rw (over, countdown) (ground (arith, over))
    | inl more ↦ elim (Bool-cases (ltb p.countdown_threshold_seconds (target - p.wall w))) [
      | inl long ↦
          rw (more, long, countdown)
            (countdown-le fuel target
              (p.sleep (target - p.wall w - p.countdown_threshold_seconds) w)
              (omega (
                arith,
                enough,
                ltb→lt 0 (target - p.wall w) more,
                ltb→lt p.countdown_threshold_seconds (target - p.wall w) long,
                sleeps (target - p.wall w - p.countdown_threshold_seconds) w,
              )))
      | inr short ↦
          rw (more, short, countdown)
            (countdown-le fuel target (p.sleep 1 w)
              (omega (arith, enough, ltb→lt 0 (target - p.wall w) more, sleeps 1 w)))
    ]
  ]

  -- If `time.sleep` lasts at least as long as it is asked to, then the countdown, which pauses at
  -- most once for each second that is left at its start, has reached its target when it returns.
  pub countdown-reaches :
      (target : Time) (w : W) → target ≤ p.wall (countdown p (target - p.wall w) target w)
  countdown-reaches target w = countdown-le (target - p.wall w) target w (omega arith)
