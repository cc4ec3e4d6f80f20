-- ===== src/Scenario/Trace.antt =====
-- How many steps a trace of events has begun and ended, and the outcomes that keep the two level.
mod Attempts
pub mod Steps
mod Loops
pub mod Task
use fox_runner_server.Prelude.{
  ℕ, ◌+◌, String, ◌≡◌, ◌⊎◌, Option, none, some, true, All, List, [], ◌∷◌, ◌++◌, arith,
}
use fox_runner_server.Prelude.Dict.{get}
use fox_runner_server.Scenario.Step.{AtomicType}
use fox_runner_server.Scenario.Effects.{
  Result, return, raise, Value, Driver, Context, State, Shared, Job, Engine, StepEvent, EventType,
  step_started, step_succeeded, step_failed, emit,
}

-- a step begins
abbrev pub begins : EventType → ℕ
begins step_started = 1
begins _ = 0

-- a step has ended, well or not
abbrev pub ends : EventType → ℕ
ends step_succeeded = 1
ends step_failed = 1
ends _ = 0

unfoldable pub total : (EventType → ℕ) → List StepEvent → ℕ
total weight [] = 0
total weight (event ∷ events) = weight event.event_type + total weight events

pub total-append :
    (weight : EventType → ℕ) (xs ys : List StepEvent)
    → total weight (xs ++ ys) ≡ total weight xs + total weight ys
unfolding total
total-append weight [] ys = omega arith
total-append weight (x ∷ xs) ys = omega (arith, total-append weight xs ys)

-- As many steps ended as began between two traces.
abbrev pub Even : List StepEvent → List StepEvent → Type 0
Even xs ys = total begins ys + total ends xs ≡ total begins xs + total ends ys

-- One more ended than began: the step that swallowed its error, announced by its caller.
abbrev pub Owes : List StepEvent → List StepEvent → Type 0
Owes xs ys = total begins ys + total ends xs + 1 ≡ total begins xs + total ends ys

abbrev pub flag : Context → Option Value
flag c = get c "__step_swallowed_error__"

abbrev pub IsFlagged : Option Value → Type 0
IsFlagged none = ⊥
IsFlagged (some v) = Unit

module _ {W : Type 0} where
  abbrev pub Level : List StepEvent → State W → Type 0
  Level xs t = (flag t.context ≡ none) × Even xs t.events

  -- The outcome of one step, for what stood in the trace before it.
  abbrev pub Settled : List StepEvent → Result Driver × State W → Type 0
  Settled xs (return d, t) = Level xs t ⊎ IsFlagged (flag t.context) × Owes xs t.events
  Settled xs (raise m, t) = Level xs t

module _ {W : Type 0} (e : Engine W) where
  -- What is assumed: there is a sink, no operation touches the key of swallowed errors, and the
  -- pool only runs its jobs.
  pub record Assumed : Type 1 where
    pub observed : e.observed ≡ true
    pub untouched :
        (kind : AtomicType) (fields : String) (driver : Driver) (c : Context) (w : W)
        → flag c ≡ none
        → flag (e.handle kind fields e.dry_run driver c w).1 ≡ none
    pub runs_jobs :
        (Q : Shared W → Type 0) (jobs : List (Job W)) (sh : Shared W)
        → All (λ (job : Job W). (sh : Shared W) → Q sh → Q (job sh).1) jobs
        → Q sh
        → Q (e.pool jobs sh).1

  pub total-emit :
      (weight : EventType → ℕ) (event : StepEvent) (s : State W)
      → e.observed ≡ true
      → total weight (emit e event s).events ≡ total weight s.events + weight event.event_type
  unfolding emit total
  total-emit weight event s on = rw on (omega (arith, total-append weight s.events (event ∷ [])))

  pub context-emit : (event : StepEvent) (s : State W) → (emit e event s).context ≡ s.context
  unfolding emit
  context-emit event s = ground arith
