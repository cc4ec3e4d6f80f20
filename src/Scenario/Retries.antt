-- ===== src/Scenario/Retries.antt =====
-- The retries of a step and `continue_on_error` (`_execute_scenario_step` of scenarios/runner.py).
use fox_runner_server.Prelude.{
  ℕ, zero, suc, ◌+◌, ◌≤◌, String, ◌≡◌, refl, sym, ◌∙◌, ap, Option, none, some, All, Bool, true,
  false, not, ◌&&◌, List, [], ◌∷◌, ◌++◌, length, inl, inr, arith,
}
use mathlib.Core.List.{append_assoc, append-nil}
use fox_runner_server.Scenario.Step.{
  AtomicType, Options, Step, atomic, step, options_of, requires_driver, atomic_name, body_name,
}
use fox_runner_server.Scenario.Effects.{
  Result, return, raise, Result-cases, Driver, Value, Context, State, Engine, StepEvent, emit,
}
use fox_runner_server.Scenario.When.{should_execute}
use fox_runner_server.Scenario.Attempts.{
  Attempt, execute_step, run_with_timeout, timed, ensure_driver, after_driver, atomic_attempt,
  retry_event, pause, retry_delay, before_retry, attempts, conclude, guarded, event_id,
}
use fox_runner_server.Scenario.Engine.{body_attempt, execute_scenario_step}

-- the events of retries, one for each failed attempt, numbered from `index`
unfoldable pub retry_events : String → String → ℕ → List String → List StepEvent
retry_events id name index [] = []
retry_events id name index (message ∷ messages) =
    retry_event id name message index ∷ retry_events id name (index + 1) messages

module _ {W : Type 0} (e : Engine W) where
  -- An attempt that emits nothing of its own.
  record IsSilent (m : Attempt W) : Type 0 where
    at : (d : Driver) (s : State W) → (m d s).2.events ≡ s.events

  after_driver-events :
      (kind : AtomicType) (fields : String) (o : Options) (d : Driver) (r : Result Driver)
      (s : State W)
      → (after_driver d r (λ d'. timed e o.timeout (execute_step e kind fields d')) d s).2.events
        ≡ s.events
  unfolding after_driver timed execute_step run_with_timeout
  after_driver-events kind fields o d r s = ground arith

  ensure_driver-events :
      (needed : Bool) (d : Driver) (s : State W) → (ensure_driver e needed d s).1.events ≡ s.events
  unfolding ensure_driver
  ensure_driver-events needed d s = ground arith

  atomic_attempt-IsSilent :
      (kind : AtomicType) (fields : String) (o : Options)
      → IsSilent (atomic_attempt e kind fields o)
  unfolding atomic_attempt
  atomic_attempt-IsSilent kind fields o = record {
    at = λ d s.
        after_driver-events kind fields o d _ _
        ∙ ensure_driver-events (not e.dry_run && requires_driver kind) d s;
  }

  -- What `tries` counts goes up by one with a call of an operation or a browser that does not start.
  pub record Counts (tries : W → ℕ) : Type 0 where
    pub handled :
        (kind : AtomicType) (fields : String) (d : Driver) (c : Context) (w : W)
        → tries (e.handle kind fields e.dry_run d c w).2 ≡ tries w + 1
    pub started :
        (w : W) (v : Value)
        → (e.create_driver w).0 ≡ return v
        → tries (e.create_driver w).1 ≡ tries w
    pub unstarted :
        (w : W) (m : String)
        → (e.create_driver w).0 ≡ raise m
        → tries (e.create_driver w).1 ≡ tries w + 1
    pub slept : (n : ℕ) (w : W) → tries (e.sleep n w) ≡ tries w

  -- a result of starting a browser, as the result of asking for one
  handed_on :
      (r : Result Value) (n k : ℕ)
      → ((v : Value) → r ≡ return v → k ≡ n)
      → ((m : String) → r ≡ raise m → k ≡ n + 1)
      → ((d : Driver)
          → elim r as (λ x. Result Driver) [ return v ↦ return (some v) | raise m ↦ raise m ]
            ≡ return d
          → k ≡ n)
        × ((m : String)
            → elim r as (λ x. Result Driver) [ return v ↦ return (some v) | raise x ↦ raise x ]
              ≡ raise m
            → k ≡ n + 1)
  handed_on (return v) n k f g = (λ d h. f v refl, λ m h. cc)
  handed_on (raise x) n k f g = (λ d h. cc, λ m h. g x refl)

  module _ (tries : W → ℕ) (c : Counts tries) where
    -- an attempt after the browser was asked for
    driven-tries :
        (kind : AtomicType) (fields : String) (o : Options) (d : Driver) (r : Result Driver)
        (s : State W) (n : ℕ)
        → ((d' : Driver) → r ≡ return d' → tries s.world ≡ n)
        → ((m : String) → r ≡ raise m → tries s.world ≡ n + 1)
        → tries
            (after_driver d r (λ d'. timed e o.timeout (execute_step e kind fields d')) d s).2.world
          ≡ n + 1
    unfolding after_driver timed execute_step run_with_timeout
    driven-tries kind fields o d (raise m) s n h g = g m refl
    driven-tries kind fields o d (return d') s n h g =
        ground (arith, c.handled kind fields d' s.context s.world, h d' refl)

    -- what asking for a browser counts
    Asked : Bool → State W → Type 0
    Asked needed s =
        ((d' : Driver)
          → (ensure_driver e needed none s).0 ≡ return d'
          → tries (ensure_driver e needed none s).1.world ≡ tries s.world)
        × ((m : String)
            → (ensure_driver e needed none s).0 ≡ raise m
            → tries (ensure_driver e needed none s).1.world ≡ tries s.world + 1)

    ensure_driver-tries : (needed : Bool) (s : State W) → Asked needed s
    unfolding ensure_driver Asked
    ensure_driver-tries false s = (λ d' h. refl, λ m h. cc)
    ensure_driver-tries true s =
        handed_on (e.create_driver s.world).0 (tries s.world) (tries (e.create_driver s.world).1)
          (c.started s.world) (c.unstarted s.world)

    atomic_attempt-tries :
        (kind : AtomicType) (fields : String) (o : Options) (d : Driver) (s : State W)
        → tries (atomic_attempt e kind fields o d s).2.world ≡ tries s.world + 1
    unfolding atomic_attempt ensure_driver Asked
    atomic_attempt-tries kind fields o (some v) s =
        driven-tries kind fields o (some v) (return (some v)) s (tries s.world) (λ _ _. refl)
          (λ m h. cc)
    atomic_attempt-tries kind fields o none s =
        let needed = not e.dry_run && requires_driver kind in
        let asked = ensure_driver-tries needed s in
        driven-tries kind fields o none (ensure_driver e needed none s).0
          (ensure_driver e needed none s).1 (tries s.world) asked.0 asked.1

    before_retry-tries :
        (o : Options) (id name message : String) (index : ℕ) (s : State W)
        → tries (before_retry e o id name message index s).world ≡ tries s.world
    unfolding before_retry pause emit
    before_retry-tries o id name message index s =
        ground (arith, c.slept (retry_delay o index) s.world)

  before_retry-events :
      (o : Options) (id name message : String) (index : ℕ) (s : State W)
      → e.observed ≡ true
      → (before_retry e o id name message index s).events
        ≡ s.events ++ retry_event id name message index ∷ []
  unfolding before_retry pause emit
  before_retry-events o id name message index s on = ground arith

  -- Between none and `left` failed attempts were retried; all of them, if the last one failed too.
  -- The messages are errors that the attempt `m` raises, and there was one try more than messages.
  abbrev pub Retried :
      (W → ℕ) → Attempt W → String → String → ℕ → ℕ → State W → Result Driver → State W → Type 0
  Retried tries attempt id name left index s r t =
      (messages : List String) × (length messages ≤ left)
      × (t.events ≡ s.events ++ retry_events id name index messages)
      × ((m : String) → r ≡ raise m → length messages ≡ left)
      × (tries t.world ≡ tries s.world + (length messages + 1))
      × All (λ (m : String). (d : Driver) × (s' : State W) × ((attempt d s').0 ≡ raise m)) messages

  attempts-Retried :
      (tries : W → ℕ) (o : Options) (id name : String) (m : Attempt W) (left index : ℕ) (d : Driver)
      (s : State W)
      → IsSilent m
      → ((d' : Driver) → (s' : State W) → tries (m d' s').2.world ≡ tries s'.world + 1)
      → Counts tries
      → e.observed ≡ true
      → Retried tries m id name left index s
          (attempts e o id name m left index d s).0
          (attempts e o id name m left index d s).2
  unfolding attempts retry_events
  attempts-Retried tries o id name m zero index d s k once c on =
      ([], omega arith, k.at d s ∙ sym (append-nil s.events), λ _ _. refl, once d s, tt)
  attempts-Retried tries o id name m (suc left) index d s k once c on =
      elim (Result-cases (m d s).0) [
        | inl (d', works) ↦
            rw (works, attempts)
              ([], omega arith, k.at d s ∙ sym (append-nil s.events), λ m' h. cc, once d s, tt)
        | inr (msg, fails) ↦
            let again = before_retry e o id name msg index (m d s).2 in
            let (messages, few, trace, all, counted, errors) =
              attempts-Retried tries o id name m left (index + 1) (m d s).1 again k once c on in
            rw (fails, attempts)
              (
                msg ∷ messages,
                omega arith,
                trace
                    ∙ ap (λ (es : List StepEvent). es ++ retry_events id name (index + 1) messages)
                        (before_retry-events o id name msg index (m d s).2 on
                          ∙ ap (λ (es : List StepEvent). es ++ retry_event id name msg index ∷ [])
                              (k.at d s))
                    ∙ append_assoc s.events (retry_event id name msg index ∷ [])
                        (retry_events id name (index + 1) messages),
                λ m' h. ap suc (all m' h),
                omega (
                  arith,
                  counted,
                  before_retry-tries tries c o id name msg index (m d s).2,
                  once d s,
                ),
                ((d, s, fails), errors),
              )
      ]

  conclude-stops :
      (o : Options) (id : Option String) (name : String) (out : Result Driver × Driver × State W)
      → o.continue_on_error ≡ false
      → conclude e o id name out ≡ (out.0, out.2)
  unfolding conclude
  conclude-stops o id name (return d, d', s) stops = refl
  conclude-stops o id name (raise m, d', s) stops = rw (stops, conclude)

  -- An atomic step that is executed with a sink, and does not continue on an error, emits one
  -- `step_retrying` event for each attempt that failed and was retried, numbered from 1 in order, and
  -- no other event. Each carries an error that an attempt at the step raises. There are at most
  -- `retry` of them, and exactly `retry` if the step raises. The step is tried one time more than
  -- there are events, where a count of the calls of operations and of the browsers that did not start
  -- is supposed to tell the tries.
  pub execute_scenario_step-Retried :
      (tries : W → ℕ) (o : Options) (kind : AtomicType) (fields : String) (id : Option String)
      (d : Driver) (s : State W)
      → Counts tries
      → e.observed ≡ true
      → o.continue_on_error ≡ false
      → should_execute e o.condition s.context ≡ return true
      → Retried tries
          (atomic_attempt e kind fields o)
          (event_id id (atomic_name kind))
          (atomic_name kind)
          o.retry
          0
          s
          (execute_scenario_step e (step o (atomic kind fields)) id d s).0
          (execute_scenario_step e (step o (atomic kind fields)) id d s).1
  unfolding execute_scenario_step guarded body_name
  execute_scenario_step-Retried tries o kind fields id d s c on stops runs =
      let name = atomic_name kind in
      let tried =
        attempts-Retried tries o (event_id id name) name (atomic_attempt e kind fields o) o.retry 0
          d s (atomic_attempt-IsSilent kind fields o) (atomic_attempt-tries tries c kind fields o) c
          on in
      rw (runs, guarded)
        (rw
          (conclude-stops o id name
            (attempts e o (event_id id name) name (atomic_attempt e kind fields o) o.retry 0 d s)
            stops)
          tried)

  -- A step with `continue_on_error` whose condition can be evaluated never raises, whatever its
  -- operations, its blocks and their steps do.
  pub execute_scenario_step-continues :
      (s : Step) (id : Option String) (d : Driver) (st : State W) (b : Bool)
      → (options_of s).continue_on_error ≡ true
      → should_execute e (options_of s).condition st.context ≡ return b
      → (d' : Driver) × ((execute_scenario_step e s id d st).0 ≡ return d')
  unfolding execute_scenario_step guarded
  execute_scenario_step-continues (step o body) id d st false on skips =
      rw (skips, guarded) (none, refl)
  execute_scenario_step-continues (step o body) id d st true on runs =
      rw (runs, guarded)
        (concluded (
          attempts e o (event_id id (body_name body)) (body_name body) (body_attempt e body o id)
            o.retry 0 d st))
    where
      concluded :
          (out : Result Driver × Driver × State W)
          → (d' : Driver) × ((conclude e o id (body_name body) out).0 ≡ return d')
      concluded (return d', _, _) = (d', unfold conclude in refl)
      concluded (raise m, d', s') = (d', unfold conclude in rw on)
