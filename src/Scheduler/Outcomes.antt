-- ===== src/Scheduler/Outcomes.antt =====
-- How the parts of a round of the scheduler's loop (scheduler/service.py) compose in what they do
-- to the executed slots and the history.
use fox_runner_server.Prelude.{
  ℕ, String, ◌≡◌, refl, sym, ap, ◌∙◌, subst, ◌⊎◌, inl, inr, some, none, Bool, true, false, [], ◌∷◌,
  ◌++◌, if◌then◌else◌,
}
use fox_runner_server.Scenario.Effects.{Result, return, raise}
use fox_runner_server.Store.Executed.{SlotFile, has_executed, mark_executed}
use fox_runner_server.Store.History.{Row, HistoryFile, rows_of}
use fox_runner_server.Scenario.Step.{ScenarioDefinition}
use fox_runner_server.Scenario.Runner.Task.{TaskRunResult}
use fox_runner_server.Scheduler.Calendar.{Time}
use fox_runner_server.Scheduler.Slots.{TimeSlot}
use fox_runner_server.Scheduler.Service.{Files, Machine, Ports, run_once}
use fox_runner_server.Scheduler.Rounds.{Locals, Round, and_then, ◌>>=◌, pure, change_world}

-- The executed slots and the history are what they were.
pub record Untouched (f g : Files) : Type 0 where
  pub executed : g.executed ≡ f.executed
  pub history : g.history ≡ f.history

-- A run of the slot with the key `key` that returned the result.
pub record Returned {W : Type 0} (p : Ports W) (key : String) (result : TaskRunResult)
    : Type 0 where
  pub slot : TimeSlot
  pub scenario : ScenarioDefinition
  pub at : Time
  pub due : Time
  pub dry_run : Bool
  pub before : Machine W
  pub gives :
      (run_once p slot scenario key at dry_run false (some due) none before).0 ≡ return result

-- A run of `key` has left its mark: it was pending, a run of it has returned a result, one row has
-- been appended to the history that names its step and its success or failure, and the slot has been
-- marked as executed if and only if the result is a success.
pub record HasRun {W : Type 0} (p : Ports W) (key : String) (f g : Files) : Type 0 where
  pub pending : has_executed f.executed key ≡ false
  pub result : TaskRunResult
  pub returned : Returned p key result
  pub row : Row
  pub row_key : row.slot_key ≡ key
  pub row_step : row.step ≡ result.step
  pub history : rows_of g.history ≡ rows_of f.history ++ row ∷ []
  pub marked :
      ((result.success ≡ true)
        × (row.status ≡ "success")
        × (today : String) × (at : ℕ) × (g.executed ≡ mark_executed today f.executed key at))
      ⊎ ((result.success ≡ false) × (row.status ≡ "failed") × (g.executed ≡ f.executed))

abbrev pub Outcome : {W : Type 0} → Ports W → String → Files → Files → Type 0
Outcome p key f g = Untouched f g ⊎ HasRun p key f g

pub same : (f : Files) → Untouched f f
same f = record { executed = refl; history = refl }

pub Untouched-trans : (f g h : Files) → Untouched f g → Untouched g h → Untouched f h
Untouched-trans f g h a b = record {
  executed = b.executed ∙ a.executed;
  history = b.history ∙ a.history;
}

pub HasRun-before :
    {W : Type 0} {p : Ports W} (key : String) (f g h : Files)
    → Untouched f g
    → HasRun p key g h
    → HasRun p key f h
HasRun-before key f g h u r = record {
  pending = ap (λ (x : SlotFile). has_executed x key) (sym u.executed) ∙ r.pending;
  result = r.result;
  returned = r.returned;
  row = r.row;
  row_key = r.row_key;
  row_step = r.row_step;
  history = r.history ∙ ap (λ (x : HistoryFile). rows_of x ++ r.row ∷ []) u.history;
  marked =
      subst
        (λ (x : SlotFile).
          ((r.result.success ≡ true)
            × (r.row.status ≡ "success")
            × (today : String) × (at : ℕ) × (h.executed ≡ mark_executed today x key at))
          ⊎ ((r.result.success ≡ false) × (r.row.status ≡ "failed") × (h.executed ≡ x)))
        u.executed r.marked;
}

pub HasRun-after :
    {W : Type 0} {p : Ports W} (key : String) (f g h : Files)
    → HasRun p key f g
    → Untouched g h
    → HasRun p key f h
HasRun-after key f g h r u = record {
  pending = r.pending;
  result = r.result;
  returned = r.returned;
  row = r.row;
  row_key = r.row_key;
  row_step = r.row_step;
  history = ap rows_of u.history ∙ r.history;
  marked =
      subst
        (λ (x : SlotFile).
          ((r.result.success ≡ true)
            × (r.row.status ≡ "success")
            × (today : String) × (at : ℕ) × (x ≡ mark_executed today f.executed key at))
          ⊎ ((r.result.success ≡ false) × (r.row.status ≡ "failed") × (x ≡ f.executed)))
        (sym u.executed) r.marked;
}

pub Outcome-before :
    {W : Type 0} {p : Ports W} (key : String) (f g h : Files)
    → Untouched f g
    → Outcome p key g h
    → Outcome p key f h
Outcome-before key f g h u (inl v) = inl (Untouched-trans f g h u v)
Outcome-before key f g h u (inr r) = inr (HasRun-before key f g h u r)

pub Outcome-after :
    {W : Type 0} {p : Ports W} (key : String) (f g h : Files)
    → Outcome p key f g
    → Untouched g h
    → Outcome p key f h
Outcome-after key f g h (inl v) u = inl (Untouched-trans f g h v u)
Outcome-after key f g h (inr r) u = inr (HasRun-after key f g h r u)

module _ {W : Type 0} where
  -- A part of a round that leaves the executed slots and the history alone.
  pub record IsQuiet {A : Type 0} (a : Round W A) : Type 0 where
    pub at : (l : Locals) (m : Machine W) → Untouched m.files (a l m).2.files

  -- A part of a round that runs nothing, or the slot of `key`, where `pre` holds of the files.
  pub record Settles {A : Type 0} (p : Ports W) (pre : Files → Type 0) (key : String)
      (a : Round W A) : Type 0 where
    pub at : (l : Locals) (m : Machine W) → pre m.files → Outcome p key m.files (a l m).2.files

  pub IsQuiet-pure : {A : Type 0} (x : A) → IsQuiet (pure x)
  IsQuiet-pure x = record { at = λ l m. same m.files }

  pub IsQuiet-world : (f : W → W) → IsQuiet (change_world f)
  IsQuiet-world f = record { at = λ l m. same m.files }

  pub IsQuiet-if :
      {A : Type 0} (b : Bool) (x y : Round W A)
      → IsQuiet x
      → IsQuiet y
      → IsQuiet (if b then x else y)
  IsQuiet-if true x y hx hy = hx
  IsQuiet-if false x y hx hy = hy

  module _ {A B : Type 0} (a : Round W A) (k : A → Round W B) where
    and_then-quiet :
        (f : Files) (r : Result A) (l : Locals) (m : Machine W)
        → Untouched f m.files
        → ((x : A) → IsQuiet (k x))
        → Untouched f (and_then r k l m).2.files
    and_then-quiet f (return x) l m u q = Untouched-trans f m.files _ u ((q x).at l m)
    and_then-quiet f (raise e) l m u q = u

    pub IsQuiet-bind : IsQuiet a → ((x : A) → IsQuiet (k x)) → IsQuiet (a >>= k)
    IsQuiet-bind qa qk = record {
      at = λ l m. and_then-quiet m.files (a l m).0 (a l m).1 (a l m).2 (qa.at l m) qk;
    }

    and_then-settles :
        {p : Ports W} (pre : Files → Type 0) (key : String) (f : Files) (r : Result A) (l : Locals)
        (m : Machine W)
        → Untouched f m.files
        → pre m.files
        → ((x : A) → Settles p pre key (k x))
        → Outcome p key f (and_then r k l m).2.files
    and_then-settles pre key f (return x) l m u h s =
        Outcome-before key f m.files _ u ((s x).at l m h)
    and_then-settles pre key f (raise e) l m u h s = inl u

    -- something quiet first
    pub Settles-quiet :
        {p : Ports W} (pre : Files → Type 0) (key : String)
        → ((f g : Files) → Untouched f g → pre f → pre g)
        → IsQuiet a
        → ((x : A) → Settles p pre key (k x))
        → Settles p pre key (a >>= k)
    Settles-quiet pre key stable q s = record {
      at = λ l m h.
          and_then-settles pre key m.files (a l m).0 (a l m).1 (a l m).2 (q.at l m)
            (stable m.files _ (q.at l m) h) s;
    }

    and_then-after :
        {p : Ports W} (key : String) (f : Files) (r : Result A) (l : Locals) (m : Machine W)
        → Outcome p key f m.files
        → ((x : A) → IsQuiet (k x))
        → Outcome p key f (and_then r k l m).2.files
    and_then-after key f (return x) l m o q = Outcome-after key f m.files _ o ((q x).at l m)
    and_then-after key f (raise e) l m o q = o

    -- something quiet afterwards
    pub Settles-then :
        {p : Ports W} (pre : Files → Type 0) (key : String)
        → Settles p pre key a
        → ((x : A) → IsQuiet (k x))
        → Settles p pre key (a >>= k)
    Settles-then pre key s q = record {
      at = λ l m h. and_then-after key m.files (a l m).0 (a l m).1 (a l m).2 (s.at l m h) q;
    }

  pub Settles-if :
      {A : Type 0} {p : Ports W} (pre : Files → Type 0) (key : String) (b : Bool) (x y : Round W A)
      → Settles p pre key x
      → Settles p pre key y
      → Settles p pre key (if b then x else y)
  Settles-if pre key true x y hx hy = hx
  Settles-if pre key false x y hx hy = hy

  pub Settles-of_IsQuiet :
      {A : Type 0} {p : Ports W} (pre : Files → Type 0) (key : String) (a : Round W A)
      → IsQuiet a
      → Settles p pre key a
  Settles-of_IsQuiet pre key a q = record { at = λ l m h. inl (q.at l m) }
