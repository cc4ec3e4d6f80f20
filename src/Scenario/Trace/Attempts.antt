-- ===== src/Scenario/Trace/Attempts.antt =====
-- One attempt, the retries and the swallowed error: what they add to the trace.
use fox_runner_server.Prelude.{
  ℕ, zero, suc, ◌+◌, ◌-◌, String, ◌≡◌, refl, inl, inr, Option, none, some, Bool, true, false, not,
  ◌&&◌, List, ltb, Bool-cases, arith,
}
use fox_runner_server.Prelude.Dict.{get-put}
use fox_runner_server.Scenario.Step.{AtomicType, Options, requires_driver}
use fox_runner_server.Scenario.Effects.{
  Result, return, raise, Result-cases, Driver, State, Action, Engine, StepEvent, emit,
}
use fox_runner_server.Scenario.When.{should_execute}
use fox_runner_server.Scenario.Attempts.{
  Attempt, execute_step, run_with_timeout, timed, ensure_driver, after_driver, atomic_attempt,
  block_attempt, retry_event, pause, before_retry, attempts, swallow_event, swallow, conclude,
  guarded, event_id,
}
use fox_runner_server.Scenario.Trace.{
  begins, ends, Owes, Level, Settled, flag, IsFlagged, Assumed, total-emit, context-emit,
}

module _ {W : Type 0} (e : Engine W) (a : Assumed e) where
  -- `Levels m`: whatever `m` gives, it leaves the trace level and no error swallowed.
  pub record Levels (m : Action W Driver) : Type 0 where
    pub at : (xs : List StepEvent) (s : State W) → Level xs s → Level xs (m s).1

  pub record LevelsAttempt (m : Attempt W) : Type 0 where
    pub at : (d : Driver) (xs : List StepEvent) (s : State W) → Level xs s → Level xs (m d s).2

  timed-Levels : (limit : Option ℕ) (m : Action W Driver) → Levels m → Levels (timed e limit m)
  unfolding timed run_with_timeout
  timed-Levels none m k = k
  timed-Levels (some limit) m k = record {
    at = λ xs s h. elim (Bool-cases (ltb limit (e.now (m s).1.world - e.now s.world))) [
      | inl late ↦ rw (late, run_with_timeout) (k.at xs s h)
      | inr in_time ↦ rw (in_time, run_with_timeout) (k.at xs s h)
    ];
  }

  execute_step-Levels :
      (kind : AtomicType) (fields : String) (d : Driver) → Levels (execute_step e kind fields d)
  unfolding execute_step
  execute_step-Levels kind fields d = record {
    at = λ xs s h. (a.untouched kind fields d s.context s.world h.0, h.1);
  }

  ensure_driver-Levels : (needed : Bool) (d : Driver) → Levels (ensure_driver e needed d)
  unfolding ensure_driver
  ensure_driver-Levels needed (some v) = record { at = λ xs s h. h }
  ensure_driver-Levels false none = record { at = λ xs s h. h }
  ensure_driver-Levels true none = record { at = λ xs s h. h }

  after_driver-Level :
      (d : Driver) (run : Driver → Action W Driver)
      → ((d' : Driver) → Levels (run d'))
      → (r : Result Driver) (xs : List StepEvent) (s : State W) → Level xs s
      → Level xs (after_driver d r run d s).2
  unfolding after_driver
  after_driver-Level d run k (return d') xs s h = (k d').at xs s h
  after_driver-Level d run k (raise m) xs s h = h

  pub atomic_attempt-Levels :
      (kind : AtomicType) (fields : String) (o : Options)
      → LevelsAttempt (atomic_attempt e kind fields o)
  unfolding atomic_attempt
  atomic_attempt-Levels kind fields o = record {
    at = λ d xs s h.
        after_driver-Level d _ (λ d'. timed-Levels o.timeout _ (execute_step-Levels kind fields d'))
          _ xs _ ((ensure_driver-Levels (not e.dry_run && requires_driver kind) d).at xs s h);
  }

  pub block_attempt-Levels :
      (m : Driver → Action W Driver)
      → ((d : Driver) → Levels (m d))
      → LevelsAttempt (block_attempt m)
  unfolding block_attempt
  block_attempt-Levels m k = record { at = λ d xs s h. (k d).at xs s h }

  -- an event of no weight leaves the trace level
  pub emit_neutral-Level :
      (event : StepEvent) (xs : List StepEvent) (s : State W)
      → begins event.event_type ≡ 0
      → ends event.event_type ≡ 0
      → Level xs s
      → Level xs (emit e event s)
  emit_neutral-Level event xs s hb he h = (
    rw context-emit h.0,
    omega
        (arith, h.1, total-emit e begins event s a.observed, total-emit e ends event s a.observed),
  )

  before_retry-Level :
      (o : Options) (id name message : String) (index : ℕ) (xs : List StepEvent) (s : State W)
      → Level xs s
      → Level xs (before_retry e o id name message index s)
  unfolding before_retry pause retry_event
  before_retry-Level o id name message index xs s h =
      let shown = emit_neutral-Level (retry_event id name message index) xs s refl refl h in
      elim (Bool-cases (ltb 0 o.retry_delay)) [
        | inl waits ↦ rw (waits, pause) shown
        | inr at_once ↦ rw (at_once, pause) shown
      ]

  attempts-Levels :
      (o : Options) (id name : String) (m : Attempt W) (left index : ℕ)
      → LevelsAttempt m
      → LevelsAttempt (attempts e o id name m left index)
  unfolding attempts
  attempts-Levels o id name m zero index k = k
  attempts-Levels o id name m (suc left) index k = record {
    at = λ d xs s h. elim (Result-cases (m d s).0) [
      | inl (d', works) ↦ rw (works, attempts) (k.at d xs s h)
      | inr (msg, fails) ↦
          rw (fails, attempts)
            ((attempts-Levels o id name m left (index + 1) k).at (m d s).1 xs _
              (before_retry-Level o id name msg index xs _ (k.at d xs s h)))
    ];
  }

  swallow-Owes :
      (id : Option String) (name message : String) (xs : List StepEvent) (s : State W)
      → Level xs s
      → IsFlagged (flag (swallow e id name message s).context)
        × Owes xs (swallow e id name message s).events
  unfolding swallow swallow_event
  swallow-Owes id name message xs s h =
      let event = swallow_event (event_id id name) name message in
      (
        rw get-put tt,
        omega (
          arith,
          h.1,
          total-emit e begins event _ a.observed,
          total-emit e ends event _ a.observed,
        ),
      )

  conclude-Settled :
      (o : Options) (id : Option String) (name : String) (xs : List StepEvent)
      (out : Result Driver × Driver × State W)
      → Level xs out.2
      → Settled xs (conclude e o id name out)
  unfolding conclude
  conclude-Settled o id name xs (return d, d', s) h = inl h
  conclude-Settled o id name xs (raise m, d', s) h = elim (Bool-cases o.continue_on_error) [
    | inl goes_on ↦ rw (goes_on, conclude) (inr (swallow-Owes id name m xs s h))
    | inr stops ↦ rw (stops, conclude) h
  ]

  pub guarded-Settled :
      (o : Options) (id : Option String) (name : String) (m : Attempt W) (d : Driver)
      → LevelsAttempt m
      → (xs : List StepEvent) (s : State W) → Level xs s
      → Settled xs (guarded e o id name m d s)
  unfolding guarded
  guarded-Settled o id name m d k xs s h =
      elim (Result-cases (should_execute e o.condition s.context)) [
        | inl (true, runs) ↦
            rw (runs, guarded)
              (conclude-Settled o id name xs _
                ((attempts-Levels o (event_id id name) name m o.retry 0 k).at d xs s h))
        | inl (false, skips) ↦ rw (skips, guarded) (inl h)
        | inr (msg, fails) ↦ rw (fails, guarded) h
      ]

  conclude-Level :
      (o : Options) (id : Option String) (name : String) (xs : List StepEvent)
      (out : Result Driver × Driver × State W)
      → o.continue_on_error ≡ false
      → Level xs out.2
      → Level xs (conclude e o id name out).1
  unfolding conclude
  conclude-Level o id name xs (return d, d', s) stops h = h
  conclude-Level o id name xs (raise m, d', s) stops h = rw (stops, conclude) h

  -- A step that does not continue on an error swallows none.
  pub guarded-Levels :
      (o : Options) (id : Option String) (name : String) (m : Attempt W) (d : Driver)
      → LevelsAttempt m
      → o.continue_on_error ≡ false
      → Levels (guarded e o id name m d)
  unfolding guarded
  guarded-Levels o id name m d k stops = record {
    at = λ xs s h. elim (Result-cases (should_execute e o.condition s.context)) [
      | inl (true, runs) ↦
          rw (runs, guarded)
            (conclude-Level o id name xs _ stops
              ((attempts-Levels o (event_id id name) name m o.retry 0 k).at d xs s h))
      | inl (false, skips) ↦ rw (skips, guarded) h
      | inr (msg, fails) ↦ rw (fails, guarded) h
    ];
  }
