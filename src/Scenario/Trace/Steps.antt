-- ===== src/Scenario/Trace/Steps.antt =====
-- Every step that is announced ends once: sequences, blocks and whole steps leave the trace level.
use fox_runner_server.Prelude.{
  ℕ, zero, suc, ◌+◌, ◌-◌, String, ◌≡◌, inl, inr, Option, none, some, Bool, true, false, not, ◌&&◌,
  List, [], ◌∷◌, All, Option-cases, get_or, arith,
}
use fox_runner_server.Prelude.Dict.{get-put, get-pop}
use fox_runner_server.Scenario.Step.{
  Options, Body, Step, Steps, atomic, group, repeat, parallel, try_catch, step, nil, cons,
  body_name, type_name,
}
use fox_runner_server.Scenario.Effects.{
  Result, return, raise, Driver, Context, State, Shared, Job, Action, Engine, StepEvent, ◌>>=◌,
  and_then, except,
}
use fox_runner_server.Scenario.Engine.{
  Runner, report, run_reported, announce, observed_step, child_step_id, repeat_loop, catch_with,
  finally_do, try_block, parallel_block, first_failure, contained, pop_flag, unsupported, is_empty,
  started_event, failed_event, succeeded_event, body_attempt, execute_scenario_step,
  execute_steps_sequence, parallel_jobs,
}
use fox_runner_server.Scenario.Trace.{
  total, begins, ends, Even, Level, Settled, flag, Assumed, total-emit, context-emit,
}
use fox_runner_server.Scenario.Trace.Attempts.{
  Levels, LevelsAttempt, atomic_attempt-Levels, block_attempt-Levels, guarded-Settled,
  guarded-Levels,
}

-- No child of a `parallel` block has `continue_on_error`: the block announces none of its children.
unfoldable mutual
  pub tidy_body : Body → Bool
  tidy_body (atomic _ _) = true
  tidy_body (group steps) = tidy_steps steps
  tidy_body (repeat _ steps) = tidy_steps steps
  tidy_body (parallel steps) = tidy_children steps
  tidy_body (try_catch x y z) = tidy_steps x && (tidy_steps y && tidy_steps z)

  pub tidy_step : Step → Bool
  tidy_step (step _ body) = tidy_body body

  pub tidy_steps : Steps → Bool
  tidy_steps nil = true
  tidy_steps (cons s rest) = tidy_step s && tidy_steps rest

  pub tidy_children : Steps → Bool
  tidy_children nil = true
  tidy_children (cons (step o body) rest) =
      not o.continue_on_error && (tidy_body body && tidy_children rest)

pub both : (x y : Bool) → (x && y) ≡ true → (x ≡ true) × (y ≡ true)
both x y h = ground arith

false_of_negation : (x : Bool) → not x ≡ true → x ≡ false
false_of_negation x h = ground arith

module _ {W : Type 0} (e : Engine W) (a : Assumed e) where
  -- what a step that began from a level trace gives
  abbrev Settles : Action W Driver → Type 0
  Settles run = (xs : List StepEvent) (s : State W) → Level xs s → Settled xs (run s)

  flag-pop : (c : Context) → flag (pop_flag c) ≡ none
  unfolding pop_flag
  flag-pop c = rw get-pop

  -- The caller has announced the step, so the trace is one end short.
  abbrev pub Short : List StepEvent → List StepEvent → Type 0
  Short xs ys = total begins ys + total ends xs ≡ total begins xs + total ends ys + 1

  report-Level :
      (id name : String) (started : ℕ) (r : Result Driver) (xs ys : List StepEvent) (s : State W)
      → Short xs ys
      → Settled ys (r, s)
      → Level xs (report e id name started r s).1
  unfolding report failed_event succeeded_event
  report-Level id name started (raise m) xs ys s short h =
      let event = failed_event id name m (e.now s.world - started) in
      (
        rw context-emit h.0,
        omega (
          arith,
          h.1,
          short,
          total-emit e begins event s a.observed,
          total-emit e ends event s a.observed,
        ),
      )
  report-Level id name started (return d) xs ys s short (inl h) =
      let event = succeeded_event id name (e.now s.world - started) in
      let cleared : State W = record s { context = pop_flag s.context } in
      rw (h.0, report)
        (
          rw context-emit (flag-pop s.context),
          omega (
            arith,
            h.1,
            short,
            total-emit e begins event cleared a.observed,
            total-emit e ends event cleared a.observed,
          ),
        )
  report-Level id name started (return d) xs ys s short (inr h) =
      elim (Option-cases (flag s.context)) [
        | inl clear ↦ absurd (rw clear at h.0)
        | inr (v, flagged) ↦ rw (flagged, report) (flag-pop s.context, omega (arith, h.1, short))
      ]

  -- the rest of a round, from where the step has been announced
  run_reported-Level :
      (id name : String) (started : ℕ) (run : Action W Driver) (xs : List StepEvent) (s : State W)
      → Settles run
      → Short xs s.events
      → Level xs (run_reported e id name started run s).1
  unfolding run_reported
  run_reported-Level id name started run xs s k short =
      report-Level id name started _ xs s.events _ short
        (k s.events (record s { context = pop_flag s.context }) (flag-pop s.context, omega arith))

  pub announce-Short :
      (id name : String) (xs : List StepEvent) (s : State W)
      → Level xs s
      → Short xs (announce e id name s).events
  unfolding announce started_event
  announce-Short id name xs s h =
      let event = started_event id name in
      omega
        (arith, h.1, total-emit e begins event s a.observed, total-emit e ends event s a.observed)

  observed_step-Levels :
      (id : Option String) (name : String) (run : Action W Driver)
      → Settles run
      → Levels e a (observed_step e id name run)
  unfolding observed_step
  observed_step-Levels id name run k = record {
    at = λ xs s h.
        run_reported-Level (get_or id "") name _ run xs _ k
          (announce-Short (get_or id "") name xs s h);
  }

  and_then-Level :
      (next : Runner W)
      → ((d : Driver) → Levels e a (next d))
      → (r : Result Driver) (xs : List StepEvent) (s : State W) → Level xs s
      → Level xs (and_then r next s).1
  and_then-Level next k (return d) xs s h = (k d).at xs s h
  and_then-Level next k (raise m) xs s h = h

  abbrev pub LevelsRunner : Runner W → Type 0
  LevelsRunner m = (d : Driver) → Levels e a (m d)

  pub bind-Levels :
      (run : Action W Driver) (next : Runner W)
      → Levels e a run
      → LevelsRunner next
      → Levels e a (run >>= next)
  bind-Levels run next k kn = record {
    at = λ xs s h. and_then-Level next kn (run s).0 xs (run s).1 (k.at xs s h);
  }

  repeat_loop-Levels :
      (times : ℕ) (m : Runner W) → LevelsRunner m → LevelsRunner (repeat_loop times m)
  unfolding repeat_loop
  repeat_loop-Levels zero m k = λ d. record { at = λ xs s h. h }
  repeat_loop-Levels (suc n) m k = λ d. bind-Levels _ _ (k d) (repeat_loop-Levels n m k)

  caught-Level :
      (no_catch : Bool) (catch : Runner W) (d : Driver)
      → LevelsRunner catch
      → (r : Result Driver) (xs : List StepEvent) (s : State W) → Level xs s
      → Level xs (except r (catch_with no_catch catch d) s).1
  unfolding catch_with
  caught-Level no_catch catch d k (return d') xs s h = h
  caught-Level true catch d k (raise m) xs s h = (rw get-put h.0, h.1)
  caught-Level false catch d k (raise m) xs s h = (k d).at xs _ (rw get-put h.0, h.1)

  finally_do-Levels :
      (no_finally : Bool) (last : Runner W) (d : Driver) (body : Action W Driver)
      → LevelsRunner last
      → Levels e a body
      → Levels e a (finally_do no_finally last d body)
  unfolding finally_do
  finally_do-Levels true last d body kl k = k
  finally_do-Levels false last d body kl k = record { at = λ xs s h. (kl _).at xs _ (k.at xs s h) }

  try_block-Levels :
      (body : Runner W) (no_catch : Bool) (catch : Runner W) (no_finally : Bool) (last : Runner W)
      → LevelsRunner body
      → LevelsRunner catch
      → LevelsRunner last
      → LevelsRunner (try_block body no_catch catch no_finally last)
  unfolding try_block
  try_block-Levels body no_catch catch no_finally last kb kc kl d =
      finally_do-Levels no_finally last d _ kl
        (record { at = λ xs s h. caught-Level no_catch catch d kc _ xs _ ((kb d).at xs s h) })

  abbrev KeepsEven : List StepEvent → List (Job W) → Type 0
  KeepsEven xs = All (λ (job : Job W). (sh : Shared W) → Even xs sh.0 → Even xs (job sh).1.0)

  pooled-Level :
      (out : List (Result Driver) × Shared W) (d : Driver) (xs : List StepEvent) (s : State W)
      → flag s.context ≡ none
      → Even xs out.1.0
      → Level xs (
          let (r, t) : Result Driver × State W = elim (first_failure out.0) [
            | none ↦ (return d, record s { events = out.1.0; world = out.1.1 })
            | some m ↦ (raise m, record s { events = out.1.0; world = out.1.1 })
          ] in
          t)
  pooled-Level out d xs s hc h = elim (Option-cases (first_failure out.0)) [
    | inl all ↦ rw all (hc, h)
    | inr (m, one) ↦ rw one (hc, h)
  ]

  parallel_block-Levels :
      (unsafe : List String) (jobs : State W → List (Job W))
      → ((xs : List StepEvent) (s : State W) → flag s.context ≡ none → KeepsEven xs (jobs s))
      → LevelsRunner (parallel_block e unsafe jobs)
  unfolding parallel_block
  parallel_block-Levels [] jobs k d = record {
    at = λ xs s h.
        pooled-Level (e.pool (jobs s) (s.events, s.world)) d xs s h.0
          (a.runs_jobs (λ sh. Even xs sh.0) (jobs s) (s.events, s.world) (k xs s h.0) h.1);
  }
  parallel_block-Levels (name ∷ names) jobs k d = record { at = λ xs s h. h }

  mutual
    unfolding body_attempt contained tidy_body

    body_attempt-Levels :
        (body : Body) (o : Options) (id : Option String)
        → tidy_body body ≡ true
        → LevelsAttempt e a (body_attempt e body o id)
    body_attempt-Levels (atomic kind fields) o id t = atomic_attempt-Levels e a kind fields o
    body_attempt-Levels (group steps) o id t =
        block_attempt-Levels e a _ (sequence-Levels steps "group" 0 id t)
    body_attempt-Levels (repeat times steps) o id t =
        block_attempt-Levels e a _
          (repeat_loop-Levels times _ (sequence-Levels steps "repeat" 0 id t))
    body_attempt-Levels (parallel steps) o id t =
        block_attempt-Levels e a _ (
          parallel_block-Levels (unsupported steps) _
            (λ xs s h. jobs-KeepsEven steps 0 id s xs t h))
    body_attempt-Levels (try_catch x y z) o id t =
        let (tx, tyz) = both (tidy_steps x) (tidy_steps y && tidy_steps z) t in
        let (ty, tz) = both (tidy_steps y) (tidy_steps z) tyz in
        block_attempt-Levels e a _ (
          try_block-Levels _ (is_empty y) _ (is_empty z) _ (sequence-Levels x "try" 0 id tx)
            (sequence-Levels y "catch" 0 id ty) (sequence-Levels z "finally" 0 id tz))

    step-Settles :
        (s : Step) (id : Option String) (d : Driver)
        → tidy_step s ≡ true
        → Settles (execute_scenario_step e s id d)
    step-Settles (step o body) id d t =
        guarded-Settled e a o id (body_name body) _ d (body_attempt-Levels body o id t)

    sequence-Levels :
        (steps : Steps) (label : String) (index : ℕ) (id : Option String)
        → tidy_steps steps ≡ true
        → LevelsRunner (execute_steps_sequence e steps label index id)
    sequence-Levels nil label index id t d = record { at = λ xs s h. h }
    sequence-Levels (cons s rest) label index id t d =
        let (ts, tr) = both (tidy_step s) (tidy_steps rest) t in
        bind-Levels _ _
          (observed_step-Levels (child_step_id id label index) (type_name s) _
            (step-Settles s (child_step_id id label index) d ts))
          (sequence-Levels rest label (index + 1) id tr)

    jobs-KeepsEven :
        (steps : Steps) (index : ℕ) (id : Option String) (s : State W) (xs : List StepEvent)
        → tidy_children steps ≡ true
        → flag s.context ≡ none
        → KeepsEven xs (parallel_jobs e steps index id s)
    jobs-KeepsEven nil index id s xs t h = tt
    jobs-KeepsEven (cons (step o body) rest) index id s xs t h =
        let (stops, tbr) =
          both (not o.continue_on_error) (tidy_body body && tidy_children rest) t in
        let (tb, tr) = both (tidy_body body) (tidy_children rest) tbr in
        let child = child_step_id id "parallel" index in
        (
          (λ sh even.
              ((guarded-Levels e a o child (body_name body) _ none
                  (body_attempt-Levels body o child tb) (false_of_negation _ stops)).at
                xs (record { context = s.context; events = sh.0; world = sh.1 }) (h, even)).1),
          jobs-KeepsEven rest (index + 1) id s xs tr h,
        )

  pub observed_scenario_step-Levels :
      (s : Step) (id child : Option String) (d : Driver)
      → tidy_step s ≡ true
      → Levels e a (observed_step e id (type_name s) (execute_scenario_step e s child d))
  observed_scenario_step-Levels s id child d t =
      observed_step-Levels id (type_name s) _ (step-Settles s child d t)

  pub reported_step-Level :
      (s : Step) (id : String) (started : ℕ) (d : Driver) (xs : List StepEvent) (st : State W)
      → tidy_step s ≡ true
      → Short xs st.events
      → Level xs
          (run_reported e id (type_name s) started (execute_scenario_step e s (some id) d) st).1
  reported_step-Level s id started d xs st t =
      run_reported-Level id (type_name s) started _ xs st (step-Settles s (some id) d t)
