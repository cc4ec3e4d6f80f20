-- ===== src/Scenario/Engine/Keeps/Steps.antt =====
-- Sequences, blocks and whole steps keep an invariant.
use fox_runner_server.Prelude.{
  ℕ, zero, suc, ◌+◌, String, Option, none, some, Bool, true, false, List, [], ◌∷◌, All,
  Option-cases, inl, inr,
}
use fox_runner_server.Prelude.Dict.{get}
use fox_runner_server.Scenario.Step.{
  Options, Body, Step, Steps, atomic, group, repeat, parallel, try_catch, step, nil, cons,
  body_name, type_name,
}
use fox_runner_server.Scenario.Effects.{
  Result, return, raise, Driver, Context, State, Shared, Job, Action, Engine, StepEvent, ◌>>=◌,
  and_then, pure, except,
}
use fox_runner_server.Scenario.Engine.{
  Runner, report, run_reported, announce, observed_step, child_step_id, repeat_loop, catch_with,
  finally_do, try_block, driver_after, settle, parallel_block, first_failure, contained, pop_flag,
  unsupported, is_empty, body_attempt, execute_scenario_step, execute_steps_sequence, parallel_jobs,
}
use fox_runner_server.Scenario.Engine.Keeps.{
  OnReturn, error_message, Rules, Keeps, KeepsAttempt, Good,
}
use fox_runner_server.Scenario.Engine.Keeps.Attempts.{
  emit-Inv, atomic_attempt-Keeps, block_attempt-Keeps, guarded-Keeps,
}

module _ {W : Type 0} (e : Engine W) (C : Context → Type 0) (S : List StepEvent → W → Type 0)
    (D : Driver → Type 0) (rules : Rules e C S D) where
  report-Good :
      (id name : String) (started : ℕ) (r : Result Driver) (s : State W)
      → Good e C S D (r, s)
      → Good e C S D (report e id name started r s)
  unfolding report
  report-Good id name started (raise m) s g = (tt, emit-Inv e C S D rules _ s g.1)
  report-Good id name started (return d) s g =
      elim (Option-cases (get s.context "__step_swallowed_error__")) [
        | inl clear ↦
            rw (clear, report)
              (
                g.0,
                emit-Inv e C S D rules _ (record s { context = pop_flag s.context })
                    (rules.popped _ g.1.0, g.1.1),
              )
        | inr (v, flagged) ↦ rw (flagged, report) (g.0, (rules.popped _ g.1.0, g.1.1))
      ]

  pub run_reported-Keeps :
      (id name : String) (started : ℕ) (run : Action W Driver)
      → Keeps e C S D run
      → Keeps e C S D (run_reported e id name started run)
  unfolding run_reported
  run_reported-Keeps id name started run k = record {
    at = λ s h.
        report-Good id name started _ _
          (k.at (record s { context = pop_flag s.context }) (rules.popped _ h.0, h.1));
  }

  pub observed_step-Keeps :
      (id : Option String) (name : String) (run : Action W Driver)
      → Keeps e C S D run
      → Keeps e C S D (observed_step e id name run)
  unfolding observed_step announce
  observed_step-Keeps id name run k = record {
    at = λ s h. (run_reported-Keeps _ name _ run k).at _ (emit-Inv e C S D rules _ s h);
  }

  -- `run` and then what goes on from its driver
  pub bind-Keeps :
      (run : Action W Driver) (next : Runner W)
      → Keeps e C S D run
      → ((d : Driver) → D d → Keeps e C S D (next d))
      → Keeps e C S D (run >>= next)
  bind-Keeps run next k kn = record {
    at = λ s h. and_then-Good next kn (run s).0 (run s).1 (k.at s h);
  }
    where
      and_then-Good :
          (next : Runner W)
          → ((d : Driver) → D d → Keeps e C S D (next d))
          → (r : Result Driver) (s : State W) → Good e C S D (r, s)
          → Good e C S D (and_then r next s)
      and_then-Good next kn (return d) s g = (kn d g.0).at s g.1
      and_then-Good next kn (raise m) s g = g

  abbrev pub KeepsRunner : Runner W → Type 0
  KeepsRunner m = (d : Driver) → D d → Keeps e C S D (m d)

  pub pure-Keeps : KeepsRunner pure
  pure-Keeps d hd = record { at = λ s h. (hd, h) }

  repeat_loop-Keeps : (times : ℕ) (m : Runner W) → KeepsRunner m → KeepsRunner (repeat_loop times m)
  unfolding repeat_loop
  repeat_loop-Keeps zero m k = pure-Keeps
  repeat_loop-Keeps (suc n) m k = λ d hd. bind-Keeps _ _ (k d hd) (repeat_loop-Keeps n m k)

  caught-Good :
      (no_catch : Bool) (catch : Runner W) (d : Driver)
      → KeepsRunner catch
      → D d
      → (r : Result Driver) (s : State W) → Good e C S D (r, s)
      → Good e C S D (except r (catch_with no_catch catch d) s)
  unfolding catch_with
  caught-Good no_catch catch d k hd (return d') s g = g
  caught-Good true catch d k hd (raise m) s g = (tt, (rules.noted error_message m _ g.1.0, g.1.1))
  caught-Good false catch d k hd (raise m) s g =
      (k d hd).at _ (rules.noted error_message m _ g.1.0, g.1.1)

  driver_after-D : (d : Driver) (r : Result Driver) → D d → OnReturn D r → D (driver_after d r)
  driver_after-D d (return d') hd g = g
  driver_after-D d (raise m) hd g = hd

  settle-D : (r r' : Result Driver) → OnReturn D r → OnReturn D r' → OnReturn D (settle r r')
  settle-D (return d) (return d') g g' = g'
  settle-D (raise m) (return d') g g' = tt
  settle-D (return d) (raise m) g g' = tt
  settle-D (raise m) (raise m') g g' = tt

  finally_do-Keeps :
      (no_finally : Bool) (last : Runner W) (d : Driver) (body : Action W Driver)
      → KeepsRunner last
      → D d
      → Keeps e C S D body
      → Keeps e C S D (finally_do no_finally last d body)
  unfolding finally_do
  finally_do-Keeps true last d body kl hd k = k
  finally_do-Keeps false last d body kl hd k = record {
    at = λ s h.
        let g = k.at s h in
        let g' = (kl _ (driver_after-D d (body s).0 hd g.0)).at (body s).1 g.1 in
        (settle-D (body s).0 _ g.0 g'.0, g'.1);
  }

  try_block-Keeps :
      (body : Runner W) (no_catch : Bool) (catch : Runner W) (no_finally : Bool) (last : Runner W)
      → KeepsRunner body
      → KeepsRunner catch
      → KeepsRunner last
      → KeepsRunner (try_block body no_catch catch no_finally last)
  unfolding try_block
  try_block-Keeps body no_catch catch no_finally last kb kc kl d hd =
      finally_do-Keeps no_finally last d _ kl hd
        (record { at = λ s h. caught-Good no_catch catch d kc hd _ _ ((kb d hd).at s h) })

  -- every job keeps the part of the invariant that the jobs share
  abbrev KeepsJobs : List (Job W) → Type 0
  KeepsJobs = All (λ (job : Job W). (sh : Shared W) → S sh.0 sh.1 → S (job sh).1.0 (job sh).1.1)

  pooled-Good :
      (out : List (Result Driver) × Shared W) (d : Driver) (s : State W)
      → D d
      → C s.context
      → S out.1.0 out.1.1
      → Good e C S D (elim (first_failure out.0) [
        | none ↦ (return d, record s { events = out.1.0; world = out.1.1 })
        | some m ↦ (raise m, record s { events = out.1.0; world = out.1.1 })
      ])
  pooled-Good out d s hd hc h = elim (Option-cases (first_failure out.0)) [
    | inl all ↦ rw all (hd, (hc, h))
    | inr (m, one) ↦ rw one (tt, (hc, h))
  ]

  parallel_block-Keeps :
      (unsafe : List String) (jobs : State W → List (Job W))
      → ((s : State W) → C s.context → KeepsJobs (jobs s))
      → KeepsRunner (parallel_block e unsafe jobs)
  unfolding parallel_block
  parallel_block-Keeps [] jobs k d hd = record {
    at = λ s h.
        pooled-Good (e.pool (jobs s) (s.events, s.world)) d s hd h.0
          (rules.pooled (jobs s) (s.events, s.world) (k s h.0) h.1);
  }
  parallel_block-Keeps (name ∷ names) jobs k d hd = record { at = λ s h. (tt, h) }

  mutual
    unfolding body_attempt contained

    body_attempt-Keeps :
        (body : Body) (o : Options) (id : Option String)
        → KeepsAttempt e C S D (body_attempt e body o id)
    body_attempt-Keeps (atomic kind fields) o id = atomic_attempt-Keeps e C S D rules kind fields o
    body_attempt-Keeps (group steps) o id =
        block_attempt-Keeps e C S D rules _ (sequence-Keeps steps "group" 0 id)
    body_attempt-Keeps (repeat times steps) o id =
        block_attempt-Keeps e C S D rules _
          (repeat_loop-Keeps times _ (sequence-Keeps steps "repeat" 0 id))
    body_attempt-Keeps (parallel steps) o id =
        block_attempt-Keeps e C S D rules _
          (parallel_block-Keeps (unsupported steps) _ (jobs-Keeps steps 0 id))
    body_attempt-Keeps (try_catch a b c) o id = block_attempt-Keeps e C S D rules _ (
        try_block-Keeps _ (is_empty b) _ (is_empty c) _ (sequence-Keeps a "try" 0 id)
          (sequence-Keeps b "catch" 0 id) (sequence-Keeps c "finally" 0 id))

    step-Keeps : (s : Step) (id : Option String) → KeepsRunner (execute_scenario_step e s id)
    step-Keeps (step o body) id d hd =
        guarded-Keeps e C S D rules o id (body_name body) _ d (body_attempt-Keeps body o id) hd

    sequence-Keeps :
        (steps : Steps) (label : String) (index : ℕ) (id : Option String)
        → KeepsRunner (execute_steps_sequence e steps label index id)
    sequence-Keeps nil label index id d hd = pure-Keeps d hd
    sequence-Keeps (cons s rest) label index id d hd =
        bind-Keeps _ _
          (observed_step-Keeps (child_step_id id label index) (type_name s) _
            (step-Keeps s (child_step_id id label index) d hd))
          (sequence-Keeps rest label (index + 1) id)

    jobs-Keeps :
        (steps : Steps) (index : ℕ) (id : Option String) (s : State W)
        → C s.context
        → KeepsJobs (parallel_jobs e steps index id s)
    jobs-Keeps nil index id s hc = tt
    jobs-Keeps (cons c rest) index id s hc = (
      (λ sh h.
          ((step-Keeps c (child_step_id id "parallel" index) none rules.missing).at
            (record { context = s.context; events = sh.0; world = sh.1 }) (hc, h)).1.1),
      jobs-Keeps rest (index + 1) id s hc,
    )

  pub execute_scenario_step-Keeps :
      (s : Step) (id : Option String) (d : Driver)
      → D d
      → Keeps e C S D (execute_scenario_step e s id d)
  execute_scenario_step-Keeps = step-Keeps
