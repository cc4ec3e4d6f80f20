-- ===== src/Scenario/Effects.antt =====
-- The state that a run threads through the engine, and the actions over it. A Python exception is
-- the text that `str(exc)` gives; what was done before a raise stays done.
use fox_runner_server.Prelude.{
  ℕ, String, Option, Bool, ◌≡◌, refl, ◌⊎◌, inl, inr, List, [], ◌∷◌, ◌++◌, if◌then◌else◌,
}
use fox_runner_server.Prelude.Dict.{Dict}
use fox_runner_server.Scenario.Step.{AtomicType}

pub data Result {ℓ} (A : Type ℓ) : Type ℓ where
  return : A → Result A
  raise : String → Result A

pub Result-cases {ℓ} :
    {A : Type ℓ} (r : Result A) → ((a : A) × (r ≡ return a)) ⊎ ((m : String) × (r ≡ raise m))
Result-cases (return a) = inl (a, refl)
Result-cases (raise m) = inr (m, refl)

-- A value of the context dict: a text, or the browser session held under `__driver__`.
pub data Value : Type 0 where
  text : String → Value
  browser : ℕ → Value

-- What the local variable `driver` holds: `None`, or a value.
abbrev pub Driver : Type 0
Driver = Option Value

abbrev pub Context : Type 0
Context = Dict Value

pub data EventType : Type 0 where
  step_started step_succeeded step_failed step_skipped step_retrying : EventType

pub data Level : Type 0 where
  info warning error : Level

-- the `payload` dict of an event
pub data Details : Type 0 where
  empty : Details
  attempt : ℕ → Details
  continued : Details

-- `StepEvent`; the text of the traceback is not modelled, only that there is one
pub record StepEvent : Type 0 where
  pub step_id : String
  pub event_type : EventType
  pub step_type : String
  pub level : Level
  pub message : String
  pub traceback : Bool
  pub payload : Details
  pub duration_ms : Option ℕ

-- `events` are the calls of the sink so far, oldest first.
pub record State (W : Type 0) : Type 0 where
  pub context : Context
  pub events : List StepEvent
  pub world : W

abbrev pub Action : Type 0 → Type 0 → Type 0
Action W A = State W → Result A × State W

-- What concurrent jobs share: the events of the sink, and the world.
abbrev pub Shared : Type 0 → Type 0
Shared W = List StepEvent × W

abbrev pub Job : Type 0 → Type 0
Job W = Shared W → Result Driver × Shared W

-- What the engine is given: `EngineContext` without the driver, the context and the step id, and
-- the outside world (Selenium, clocks, threads, `re`) as functions on a type of worlds.
pub record Engine (W : Type 0) : Type 0 where
  pub dry_run : Bool
  pub observed : Bool
  pub handle : AtomicType → String → Bool → Driver → Context → W → Result Driver × Context × W
  pub create_driver : W → Result Value × W
  pub quit_driver : Value → W → Result (Unit {0}) × W
  pub now : W → ℕ
  pub sleep : ℕ → W → W
  -- the thread pool: runs jobs in an order of its own, and gives their results in the jobs' order
  pub pool : List (Job W) → Shared W → List (Result Driver) × Shared W
  pub save_screenshot : Value → (path : String) → W → Result (Unit {0}) × W
  pub save_page_source : Value → (path : String) → W → Result (Unit {0}) × W
  pub artifacts_dir : Option String
  pub search : (pattern subject : String) → Result Bool
  pub repr : ℕ → String
  pub seconds_text : ℕ → String

module _ {W A : Type 0} where
  abbrev pub pure : A → Action W A
  pure a s = (return a, s)

  abbrev pub throw : String → Action W A
  throw e s = (raise e, s)

  abbrev pub lift : Result A → Action W A
  lift r s = (r, s)

  -- what `except Exception` does with the outcome of a `try` body
  abbrev pub except : Result A → (String → Action W A) → Action W A
  except (return a) handler s = (return a, s)
  except (raise e) handler s = handler e s

  abbrev pub try_except : Action W A → (String → Action W A) → Action W A
  try_except body handler s = let (r, s') = body s in except r handler s'

module _ {W A B : Type 0} where
  abbrev pub and_then : Result A → (A → Action W B) → Action W B
  and_then (return a) f s = f a s
  and_then (raise e) f s = (raise e, s)

  infixl 5 ◌>>=◌
  abbrev pub ◌>>=◌ : Action W A → (A → Action W B) → Action W B
  ◌>>=◌ m f s = let (r, s') = m s in and_then r f s'

module _ {W B : Type 0} where
  infixl 5 ◌>>◌
  abbrev pub ◌>>◌ : Action W (Unit {0}) → Action W B → Action W B
  m >> n = m >>= λ _. n

module _ {W : Type 0} where
  abbrev pub get_state : Action W (State W)
  get_state s = (return s, s)

  abbrev pub modify_context : (Context → Context) → Action W (Unit {0})
  modify_context f s = (return tt, record s { context = f s.context })

  -- `_emit`: nothing where there is no sink. A sink that raises is ignored.
  unfoldable pub emit : Engine W → StepEvent → State W → State W
  emit e event s = if e.observed then record s { events = s.events ++ event ∷ [] } else s
