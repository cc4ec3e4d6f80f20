-- ===== src/Scenario/Engine/Keeps/Attempts.antt =====
-- One attempt at a step, the retries around it, and the swallowed error keep an invariant.
use fox_runner_server.Prelude.{
  ℕ, zero, suc, ◌+◌, String, ◌≡◌, refl, Option, none, some, Bool, true, false, not, ◌&&◌, List,
  Bool-cases, inl, inr, arith, ltb, ◌-◌,
}
use fox_runner_server.Scenario.Step.{AtomicType, Options, requires_driver}
use fox_runner_server.Scenario.Effects.{
  Result, return, raise, Value, Driver, Context, State, Action, Engine, StepEvent, emit,
  Result-cases,
}
use fox_runner_server.Scenario.When.{should_execute}
use fox_runner_server.Scenario.Attempts.{
  Attempt, execute_step, run_with_timeout, timed, ensure_driver, atomic_attempt, block_attempt,
  before_retry, after_driver, retry_event, retry_delay, pause, swallow_event, attempts, swallow,
  conclude, guarded, event_id,
}
use fox_runner_server.Scenario.Engine.{Runner}
use fox_runner_server.Scenario.Engine.Keeps.{
  OnReturn, error_message, last_error_message, last_error_step, swallowed, Inv, Rules, Keeps,
  KeepsAttempt, Good, GoodAttempt,
}

module _ {W : Type 0} (e : Engine W) (C : Context → Type 0) (S : List StepEvent → W → Type 0)
    (D : Driver → Type 0) (rules : Rules e C S D) where
  pub emit-Inv : (event : StepEvent) (s : State W) → Inv e C S D s → Inv e C S D (emit e event s)
  unfolding emit
  emit-Inv event s h = elim (Bool-cases e.observed) [
    | inl on ↦ rw on (h.0, rules.emitted event s.events s.world h.1)
    | inr off ↦ rw off h
  ]

  execute_step-Keeps :
      (kind : AtomicType) (fields : String) (d : Driver)
      → D d
      → Keeps e C S D (execute_step e kind fields d)
  unfolding execute_step
  execute_step-Keeps kind fields d hd = record {
    at = λ s h. let (g, c, i) = rules.handled kind fields d s hd h in (g, (c, i));
  }

  timed-Keeps :
      (limit : Option ℕ) (m : Action W Driver) → Keeps e C S D m → Keeps e C S D (timed e limit m)
  unfolding timed run_with_timeout
  timed-Keeps none m k = k
  timed-Keeps (some limit) m k = record {
    at = λ s h. elim (Bool-cases (ltb limit (e.now (m s).1.world - e.now s.world))) [
      | inl late ↦ rw (late, run_with_timeout) (tt, (k.at s h).1)
      | inr in_time ↦ rw (in_time, run_with_timeout) (k.at s h)
    ];
  }

  created-Given :
      (d : Driver)
      → (r : Result Value) → OnReturn (λ v. D (some v)) r
      → OnReturn D (elim r [ return v ↦ return (some v) | raise m ↦ raise m ])
  created-Given d (return v) h = h
  created-Given d (raise m) h = tt

  pub ensure_driver-Keeps :
      (needed : Bool) (d : Driver)
      → (needed ≡ true → e.dry_run ≡ false)
      → D d
      → Keeps e C S D (ensure_driver e needed d)
  unfolding ensure_driver
  ensure_driver-Keeps needed (some v) live hd = record { at = λ s h. (hd, h) }
  ensure_driver-Keeps false none live hd = record { at = λ s h. (hd, h) }
  ensure_driver-Keeps true none live hd = record {
    at = λ s h.
        let made = rules.created (live refl) s.events s.world h.1 in
        (created-Given none (e.create_driver s.world).0 made.0, (h.0, made.1));
  }

  needs_driver : (b : Bool) → (not e.dry_run && b) ≡ true → e.dry_run ≡ false
  needs_driver b h = ground arith

  after_driver-Good :
      (kind : AtomicType) (fields : String) (o : Options) (d : Driver)
      → D d
      → (r : Result Driver) (s : State W) → Good e C S D (r, s)
      → GoodAttempt e C S D
          (after_driver d r (λ d'. timed e o.timeout (execute_step e kind fields d')) d s)
  unfolding after_driver
  after_driver-Good kind fields o d hd (return d') s g =
      let k = (timed-Keeps o.timeout _ (execute_step-Keeps kind fields d' g.0)).at s g.1 in
      (k.0, g.0, k.1)
  after_driver-Good kind fields o d hd (raise m) s g = (tt, hd, g.1)

  pub atomic_attempt-Keeps :
      (kind : AtomicType) (fields : String) (o : Options)
      → KeepsAttempt e C S D (atomic_attempt e kind fields o)
  unfolding atomic_attempt
  atomic_attempt-Keeps kind fields o = record {
    at = λ d s hd h.
        let first =
          (ensure_driver-Keeps (not e.dry_run && requires_driver kind) d (needs_driver _) hd).at s
            h in
        after_driver-Good kind fields o d hd _ _ first;
  }

  pub block_attempt-Keeps :
      (m : Runner W)
      → ((d : Driver) → D d → Keeps e C S D (m d))
      → KeepsAttempt e C S D (block_attempt m)
  unfolding block_attempt
  block_attempt-Keeps m k = record { at = λ d s hd h. let g = (k d hd).at s h in (g.0, hd, g.1) }

  before_retry-Inv :
      (o : Options) (id name message : String) (index : ℕ) (s : State W)
      → Inv e C S D s
      → Inv e C S D (before_retry e o id name message index s)
  unfolding before_retry pause
  before_retry-Inv o id name message index s h =
      let shown = emit-Inv (retry_event id name message index) s h in
      elim (Bool-cases (ltb 0 o.retry_delay)) [
        | inl waits ↦ rw (waits, pause) (shown.0, rules.slept (retry_delay o index) _ _ shown.1)
        | inr at_once ↦ rw (at_once, pause) shown
      ]

  attempts-Keeps :
      (o : Options) (id name : String) (m : Attempt W) (left index : ℕ)
      → KeepsAttempt e C S D m
      → KeepsAttempt e C S D (attempts e o id name m left index)
  unfolding attempts
  attempts-Keeps o id name m zero index k = k
  attempts-Keeps o id name m (suc left) index k = record {
    at = λ d s hd h.
        let g = k.at d s hd h in
        elim (Result-cases (m d s).0) [
          | inl (d', works) ↦ rw (works, attempts) (rw works at g.0, g.1, g.2)
          | inr (msg, fails) ↦
              rw (fails, attempts)
                ((attempts-Keeps o id name m left (index + 1) k).at (m d s).1
                  (before_retry e o id name msg index (m d s).2) g.1
                  (before_retry-Inv o id name msg index (m d s).2 g.2))
        ];
  }

  swallow-Inv :
      (id : Option String) (name message : String) (s : State W)
      → Inv e C S D s
      → Inv e C S D (swallow e id name message s)
  unfolding swallow
  swallow-Inv id name message s h =
      let noted =
        rules.noted last_error_step name _
          (rules.noted last_error_message message _ (rules.noted error_message message _ h.0)) in
      let shown = emit-Inv (swallow_event (event_id id name) name message) _ (noted, h.1) in
      (rules.noted swallowed _ _ shown.0, shown.1)

  conclude-Good :
      (o : Options) (id : Option String) (name : String) (out : Result Driver × Driver × State W)
      → GoodAttempt e C S D out
      → Good e C S D (conclude e o id name out)
  unfolding conclude
  conclude-Good o id name (return d, d', s) g = (g.0, g.2)
  conclude-Good o id name (raise m, d', s) g = elim (Bool-cases o.continue_on_error) [
    | inl goes_on ↦ rw (goes_on, conclude) (g.1, swallow-Inv id name m s g.2)
    | inr stops ↦ rw (stops, conclude) (tt, g.2)
  ]

  pub guarded-Keeps :
      (o : Options) (id : Option String) (name : String) (m : Attempt W) (d : Driver)
      → KeepsAttempt e C S D m
      → D d
      → Keeps e C S D (guarded e o id name m d)
  unfolding guarded
  guarded-Keeps o id name m d k hd = record {
    at = λ s h. elim (Result-cases (should_execute e o.condition s.context)) [
      | inl (true, runs) ↦
          rw (runs, guarded)
            (conclude-Good o id name _
              ((attempts-Keeps o (event_id id name) name m o.retry 0 k).at d s hd h))
      | inl (false, skips) ↦ rw (skips, guarded) (rules.missing, h)
      | inr (msg, fails) ↦ rw (fails, guarded) (tt, h)
    ];
  }
