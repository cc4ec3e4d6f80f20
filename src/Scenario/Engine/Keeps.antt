-- ===== src/Scenario/Engine/Keeps.antt =====
-- Invariants of whole runs: what every operation, event and pause keeps is kept by every step. The
-- invariant is a product of one of the context and one of the events and the world.
pub mod Attempts
pub mod Steps
use fox_runner_server.Prelude.{
  ℕ, String, ◌≡◌, none, some, false, List, [], ◌∷◌, ◌++◌, All, if◌then◌else◌,
}
use fox_runner_server.Prelude.Dict.{get, put}
use fox_runner_server.Scenario.Step.{AtomicType, step}
use fox_runner_server.Scenario.Effects.{
  Result, return, raise, Value, text, Driver, Context, State, Shared, Job, Action, Engine,
  StepEvent,
}
use fox_runner_server.Scenario.Attempts.{Attempt}
use fox_runner_server.Scenario.Engine.{pop_flag}

-- `P` holds of what a step returned, if it returned.
abbrev pub OnReturn : {A : Type 0} → (A → Type 0) → Result A → Type 0
OnReturn P (return a) = P a
OnReturn P (raise m) = Unit

-- the keys that the engine itself writes, beside `__driver__`
pub data EngineKey : Type 0 where
  error_message last_error_message last_error_step current_step swallowed : EngineKey

abbrev pub key_name : EngineKey → String
key_name error_message = "error_message"
key_name last_error_message = "last_error_message"
key_name last_error_step = "last_error_step"
key_name current_step = "current_step"
key_name swallowed = "__step_swallowed_error__"

module _ {W : Type 0} (e : Engine W) (C : Context → Type 0) (S : List StepEvent → W → Type 0)
    (D : Driver → Type 0) where
  abbrev pub Inv : State W → Type 0
  Inv s = C s.context × S s.events s.world

  -- What the outside world, the operations and the bookkeeping have to keep.
  pub record Rules : Type 0 where
    pub missing : D none
    pub emitted :
        (event : StepEvent) (events : List StepEvent) (w : W)
        → S events w
        → S (events ++ event ∷ []) w
    pub slept : (n : ℕ) (events : List StepEvent) (w : W) → S events w → S events (e.sleep n w)
    pub handled :
        (kind : AtomicType) (fields : String) (driver : Driver) (s : State W)
        → D driver
        → Inv s
        → OnReturn D (e.handle kind fields e.dry_run driver s.context s.world).0
          × C (e.handle kind fields e.dry_run driver s.context s.world).1
          × S s.events (e.handle kind fields e.dry_run driver s.context s.world).2
    pub created :
        e.dry_run ≡ false
        → (events : List StepEvent) (w : W) → S events w
        → OnReturn (λ v. D (some v)) (e.create_driver w).0 × S events (e.create_driver w).1
    pub noted :
        (key : EngineKey) (value : String) (c : Context)
        → C c
        → C (put c (key_name key) (text value))
    pub popped : (c : Context) → C c → C (pop_flag c)
    pub held : (v : Value) (c : Context) → D (some v) → C c → C (put c "__driver__" v)
    pub fetched : (v : Value) (c : Context) → C c → get c "__driver__" ≡ some v → D (some v)
    pub pooled :
        (jobs : List (Job W)) (sh : Shared W)
        → All (λ (job : Job W). (sh : Shared W) → S sh.0 sh.1 → S (job sh).1.0 (job sh).1.1) jobs
        → S sh.0 sh.1
        → S (e.pool jobs sh).1.0 (e.pool jobs sh).1.1

  -- the outcome of a run of steps
  abbrev pub Good : Result Driver × State W → Type 0
  Good o = OnReturn D o.0 × Inv o.1

  pub record Keeps (m : Action W Driver) : Type 0 where
    pub at : (s : State W) → Inv s → Good (m s)

  abbrev pub GoodAttempt : Result Driver × Driver × State W → Type 0
  GoodAttempt o = OnReturn D o.0 × D o.1 × Inv o.2

  pub record KeepsAttempt (m : Attempt W) : Type 0 where
    pub at : (d : Driver) (s : State W) → D d → Inv s → GoodAttempt (m d s)
