-- ===== src/Ops/TurnLaws.antt =====
-- Whatever the turns of requests, workers and the reconciliation (ops/services.py,
-- ops/runner_bridge.py, ops/management/commands/reconcile_jobs.py), no status of a job is without an
-- event that tells it.
use fox_runner_server.Prelude.{
  ℕ, String, ℤ, ◌≡◌, refl, sym, subst, ◌⊎◌, inl, inr, some, Bool, true, false, ◌||◌, List, [], ◌∷◌,
  ◌++◌, any, str_eq, eq_refl, arith, Bool-cases, Option-cases,
}
use fox_runner_server.Prelude.Dict.{Dict}
use fox_runner_server.Prelude.Json.{Json}
use fox_runner_server.Backend.Exec.{
  Reply, done, http, Action, ◌>>=◌, ◌>>◌, pure, query, change, require, Reply-cases,
}
use fox_runner_server.Ops.Board.{
  Status, status_name, JobRow, JobEvent, Board, find_job, job_exists, change_job, set_jobs,
  add_event,
}
use fox_runner_server.Ops.Jobs.{
  append_job_event, plain_event, new_job, create_job, atomically, all_or_nothing, with_task,
  set_celery_task_id, may_cancel, as_cancelled, mark_job_cancelled,
}
use fox_runner_server.Ops.Worker.{
  save_job, as_running, outcome, as_finished, as_failed, begin_start, begin_finish, begin_failure,
  begin_reconcile,
}
use fox_runner_server.Ops.Turns.{
  System, Turn, create, cancel, set_task, tell, start, finish, crash, reconcile, append_next, nth,
  without, acted, saved, append_pending, take_turn, take_turns,
}
use fox_runner_server.Ops.Rows.{append_job_event-does, save_job-does, find_job-absent}
use fox_runner_server.Ops.Noted.{
  says, noted, HasEvents, any-append, any-without, same_jobs, moved_row-HasEvents, unchanged_status,
  created-HasEvents,
}

-- the run of an action saves the row and gives the event, or it raises and changes nothing
abbrev Saves : String → (JobRow → JobRow) → JobEvent → Board → Reply JobEvent × Board → Type 0
Saves job_id f e b r =
    (r ≡ (done e, set_jobs (change_job job_id f b.jobs) b))
    ⊎ (code : ℕ) × (message : String) × (r ≡ (http code message, b))

module _ (job_id : String) (f : JobRow → JobRow) (e : JobEvent) (b : Board) where
  save_job-Saves : Saves job_id f e b ((save_job job_id f >> pure e) b)
  unfolding ◌>>◌ ◌>>=◌ pure
  save_job-Saves = elim (Bool-cases (job_exists b.jobs job_id)) [
    | inl there ↦ inl (rw (save_job-does job_id f b, there) refl)
    | inr gone ↦ inr (500, "DatabaseError", rw (save_job-does job_id f b, gone) refl)
  ]

  query-Saves :
      {A : Type 0} (q : Board → Reply A) (k : A → Action Board JobEvent)
      → ((a : A) → Saves job_id f e b (k a b))
      → Saves job_id f e b ((query q >>= k) b)
  unfolding query ◌>>=◌
  query-Saves q k h = elim (Reply-cases (q b)) [
    | inl (a, works) ↦ rw works (h a)
    | inr (code, message, fails) ↦ rw fails (inr (code, message, refl))
  ]

  require-Saves :
      (test : Bool) (code : ℕ) (message : String) (k : Action Board JobEvent)
      → Saves job_id f e b (k b)
      → Saves job_id f e b ((require test code message >> k) b)
  unfolding require ◌>>=◌ ◌>>◌
  require-Saves true code message k h = h
  require-Saves false code message k h = inr (code, message, refl)

says-event :
    (e : JobEvent) (job_id : String) (status : Status)
    → e.job_id ≡ job_id
    → e.event_type ≡ status_name status
    → says job_id status e ≡ true
unfolding says
says-event e job_id status i t =
    rw (i, t) (ground (arith, eq_refl job_id, eq_refl (status_name status)))

module _ (test : JobEvent → Bool) (xs : List JobEvent) (e : JobEvent) (p : Bool) where
  in_longer : any test xs || p ≡ true → any test (xs ++ e ∷ []) || p ≡ true
  in_longer h = ground (arith, any-append test xs (e ∷ []), h)

  at_end : test e ≡ true → any test (xs ++ e ∷ []) || p ≡ true
  at_end h = ground (arith, any-append test xs (e ∷ []), h)

  in_longer_pending : p || any test xs ≡ true → p || any test (xs ++ e ∷ []) ≡ true
  in_longer_pending h = ground (arith, any-append test xs (e ∷ []), h)

  at_end_pending : test e ≡ true → p || any test (xs ++ e ∷ []) ≡ true
  at_end_pending h = ground (arith, any-append test xs (e ∷ []), h)

-- a change of the row that its event tells
record Tells (job_id : String) (f : JobRow → JobRow) (e : JobEvent) (status : Status) : Type 0 where
  same_id : (j : JobRow) → (f j).job_id ≡ j.job_id
  new_status : (j : JobRow) → (f j).status ≡ status
  its_event : says job_id status e ≡ true

saved-HasEvents :
    (job_id : String) (f : JobRow → JobRow) (e : JobEvent) (status : Status) (s : System)
    (r : Reply JobEvent × Board)
    → Tells job_id f e status
    → Saves job_id f e s.board r
    → HasEvents s
    → HasEvents (saved r s)
unfolding saved noted set_jobs
saved-HasEvents job_id f e status s r t (inl works) h = rw works (
    moved_row-HasEvents job_id f status s
      (record {
        board = set_jobs (change_job job_id f s.board.jobs) s.board;
        pending = s.pending ++ e ∷ [];
      })
      t.same_id t.new_status refl
      (λ k status' j q g. in_longer_pending (says k status') s.pending e _ g)
      (at_end_pending (says job_id status) s.pending e _ t.its_event) h)
saved-HasEvents job_id f e status s r t (inr (code, message, fails)) h = rw fails h

told_event :
    (job_id event_type level message : String) (payload : Dict Json) (now : ℕ) (status : Status)
    → event_type ≡ status_name status
    → says job_id status (plain_event job_id event_type level message payload now) ≡ true
unfolding plain_event
told_event job_id event_type level message payload now status t =
    says-event (plain_event job_id event_type level message payload now) job_id status refl t

start-HasEvents :
    (job_id : String) (now : ℕ) (s : System)
    → HasEvents s
    → HasEvents (saved (begin_start job_id now s.board) s)
unfolding begin_start as_running status_name
start-HasEvents job_id now s h =
    saved-HasEvents job_id (as_running now) _ Status.running s _
      (record {
        same_id = λ j. refl;
        new_status = λ j. refl;
        its_event = told_event job_id _ _ _ _ now Status.running refl;
      })
      (query-Saves job_id _ _ s.board _ _ (λ exists.
        require-Saves job_id _ _ s.board exists _ _ _ (save_job-Saves job_id _ _ s.board)))
      h

finish-HasEvents :
    (job_id : String) (exit_code : ℤ) (scenario_id : String) (dry_run : Bool) (now : ℕ) (s : System)
    → HasEvents s
    → HasEvents (saved (begin_finish job_id exit_code scenario_id dry_run now s.board) s)
unfolding begin_finish as_finished
finish-HasEvents job_id exit_code scenario_id dry_run now s h =
    saved-HasEvents job_id _ _ (outcome exit_code) s _
      (record {
        same_id = λ j. refl;
        new_status = λ j. refl;
        its_event = told_event job_id _ _ _ _ now (outcome exit_code) refl;
      })
      (query-Saves job_id _ _ s.board _ _ (λ job. save_job-Saves job_id _ _ s.board)) h

failed-Tells :
    (job_id error level message : String) (payload : Dict Json) (now : ℕ)
    → Tells job_id
        (as_failed error now)
        (plain_event job_id "failed" level message payload now)
        Status.failed
unfolding as_failed status_name
failed-Tells job_id error level message payload now = record {
  same_id = λ j. refl;
  new_status = λ j. refl;
  its_event = told_event job_id "failed" level message payload now Status.failed refl;
}

crash-HasEvents :
    (job_id message traceback : String) (now : ℕ) (s : System)
    → HasEvents s
    → HasEvents (saved (begin_failure job_id message traceback now s.board) s)
unfolding begin_failure
crash-HasEvents job_id message traceback now s h =
    saved-HasEvents job_id _ _ Status.failed s _
      (failed-Tells job_id traceback "error" message [] now)
      (query-Saves job_id _ _ s.board _ _ (λ job. save_job-Saves job_id _ _ s.board)) h

reconcile-HasEvents :
    (job : JobRow) (now minutes : ℕ) (s : System)
    → HasEvents s
    → HasEvents (saved (begin_reconcile job now minutes s.board) s)
unfolding begin_reconcile
reconcile-HasEvents job now minutes s h =
    saved-HasEvents job.job_id _ _ Status.failed s _ (failed-Tells job.job_id _ _ _ _ now)
      (save_job-Saves job.job_id _ _ s.board) h

tell-HasEvents :
    (e : JobEvent) (s : System)
    → HasEvents s
    → HasEvents (record { board = (append_job_event e s.board).1; pending = s.pending })
unfolding noted add_event
tell-HasEvents e s h = elim (Bool-cases (job_exists s.board.jobs e.job_id)) [
  | inl there ↦
      rw (append_job_event-does e s.board, there)
        (same_jobs s (record { board = add_event e s.board; pending = s.pending }) refl
          (λ k status j q g. in_longer (says k status) s.board.events e _ g) h)
  | inr gone ↦ rw (append_job_event-does e s.board, gone) h
]

set_task-HasEvents :
    (job_id task_id : String) (s : System)
    → HasEvents s
    → HasEvents (acted (set_celery_task_id job_id task_id s.board) s)
unfolding set_celery_task_id acted query require change ◌>>=◌ ◌>>◌ set_jobs with_task noted
set_task-HasEvents job_id task_id s h = elim (Bool-cases (job_exists s.board.jobs job_id)) [
  | inl there ↦ rw there (
      unchanged_status job_id (with_task task_id) s
        (record {
          board = set_jobs (change_job job_id (with_task task_id) s.board.jobs) s.board;
          pending = s.pending;
        })
        (λ i. refl) (λ i. refl) refl (λ k status j q g. g) h)
  | inr gone ↦ rw gone (
      unchanged_status job_id (with_task task_id) s
        (record {
          board = set_jobs (change_job job_id (with_task task_id) s.board.jobs) s.board;
          pending = s.pending;
        })
        (λ i. refl) (λ i. refl) refl (λ k status j q g. g) h)
]

-- what a transaction ends in that appends an event to a changed board
stored_or_undone :
    (e : JobEvent) (b c : Board)
    → ((all_or_nothing b (append_job_event e c)).1 ≡ add_event e c)
      ⊎ ((all_or_nothing b (append_job_event e c)).1 ≡ b)
unfolding all_or_nothing
stored_or_undone e b c = elim (Bool-cases (job_exists c.jobs e.job_id)) [
  | inl there ↦ inl (rw (append_job_event-does e c, there) refl)
  | inr gone ↦ inr (rw (append_job_event-does e c, gone) refl)
]

stored_or_undone_then :
    {A : Type 0} (e : JobEvent) (b c : Board) (x : A)
    → ((all_or_nothing b ((append_job_event e >> pure x) c)).1 ≡ add_event e c)
      ⊎ ((all_or_nothing b ((append_job_event e >> pure x) c)).1 ≡ b)
unfolding all_or_nothing ◌>>◌ ◌>>=◌ pure
stored_or_undone_then e b c x = elim (Bool-cases (job_exists c.jobs e.job_id)) [
  | inl there ↦ inl (rw (append_job_event-does e c, there) refl)
  | inr gone ↦ inr (rw (append_job_event-does e c, gone) refl)
]

one_of-HasEvents :
    (s : System) (b c : Board)
    → (b ≡ c) ⊎ (b ≡ s.board)
    → HasEvents s
    → HasEvents (record { board = c; pending = s.pending })
    → HasEvents (record { board = b; pending = s.pending })
one_of-HasEvents s b c (inl stored) h g =
    subst (λ (x : Board). HasEvents (record { board = x; pending = s.pending })) (sym stored) g
one_of-HasEvents s b c (inr undone) h g =
    subst (λ (x : Board). HasEvents (record { board = x; pending = s.pending })) (sym undone) h

cancelled-Tells :
    (job_id : String) (now : ℕ)
    → Tells job_id
        (as_cancelled now)
        (plain_event job_id "cancelled" "warning" "Job annule." [] now)
        Status.cancelled
unfolding as_cancelled status_name
cancelled-Tells job_id now = record {
  same_id = λ j. refl;
  new_status = λ j. refl;
  its_event = told_event job_id "cancelled" "warning" "Job annule." [] now Status.cancelled refl;
}

-- the row and its event in one transaction
moved_at_once :
    (job_id : String) (f : JobRow → JobRow) (e : JobEvent) (status : Status) (s : System)
    → Tells job_id f e status
    → HasEvents s
    → HasEvents (record {
      board = add_event e (set_jobs (change_job job_id f s.board.jobs) s.board);
      pending = s.pending;
    })
unfolding add_event set_jobs noted
moved_at_once job_id f e status s t h =
    moved_row-HasEvents job_id f status s
      (record {
        board = add_event e (set_jobs (change_job job_id f s.board.jobs) s.board);
        pending = s.pending;
      })
      t.same_id t.new_status refl
      (λ k status' j q g. in_longer (says k status') s.board.events e _ g)
      (at_end (says job_id status) s.board.events e _ t.its_event) h

cancel-HasEvents :
    (job : JobRow) (now : ℕ) (s : System)
    → HasEvents s
    → HasEvents (acted (mark_job_cancelled job now s.board) s)
unfolding mark_job_cancelled acted atomically require change ◌>>=◌ ◌>>◌ all_or_nothing
cancel-HasEvents job now s h = elim (Bool-cases (may_cancel job.status)) [
  | inl may ↦ rw may (
      one_of-HasEvents s _ _
        (stored_or_undone (plain_event job.job_id "cancelled" "warning" "Job annule." [] now)
          s.board (set_jobs (change_job job.job_id (as_cancelled now) s.board.jobs) s.board))
        h
        (moved_at_once job.job_id (as_cancelled now) _ Status.cancelled s
          (cancelled-Tells job.job_id now) h))
  | inr ended ↦ rw ended h
]

-- an event goes over from the pending ones to the stored ones
moved_over :
    (test : JobEvent → Bool) (n : ℕ) (xs ps : List JobEvent) (e : JobEvent)
    → nth n ps ≡ some e
    → any test xs || any test ps ≡ true
    → any test (xs ++ e ∷ []) || any test (without n ps) ≡ true
moved_over test n xs ps e found h =
    ground (arith, any-append test xs (e ∷ []), any-without test n ps e found, h)

-- an event of a job that is gone is lost
lost :
    (n : ℕ) (e : JobEvent) (s : System) (k : String) (status : Status) (j : JobRow)
    → nth n s.pending ≡ some e
    → job_exists s.board.jobs e.job_id ≡ false
    → find_job s.board.jobs k ≡ some j
    → any (says k status) s.board.events || any (says k status) s.pending ≡ true
    → any (says k status) s.board.events || any (says k status) (without n s.pending) ≡ true
unfolding says
lost n e s k status j found gone there h = elim (Bool-cases (str_eq e.job_id k)) [
  | inl same ↦ let absent = find_job-absent s.board.jobs e.job_id k gone same in cc
  | inr other ↦ ground (arith, any-without (says k status) n s.pending e found, other, h)
]

append_next-HasEvents : (n : ℕ) (s : System) → HasEvents s → HasEvents (append_pending n s)
unfolding append_pending noted add_event
append_next-HasEvents n s h = elim (Option-cases (nth n s.pending)) [
  | inl beyond ↦ rw (beyond, append_pending) h
  | inr (e, found) ↦
      rw (found, append_pending)
        (elim (Bool-cases (job_exists s.board.jobs e.job_id)) [
          | inl there ↦
              rw (append_job_event-does e s.board, there)
                (same_jobs s (record { board = add_event e s.board; pending = without n s.pending })
                  refl
                  (λ k status j q g.
                    moved_over (says k status) n s.board.events s.pending e found g)
                  h)
          | inr gone ↦
              rw (append_job_event-does e s.board, gone)
                (same_jobs s (record { board = s.board; pending = without n s.pending }) refl
                  (λ k status j q g. lost n e s k status j found gone q g) h)
        ])
]

create-HasEvents :
    (job_id kind user_id target_id : String) (dry_run : Bool) (payload : Dict Json) (now : ℕ)
    (s : System)
    → HasEvents s
    → HasEvents (acted (create_job job_id kind user_id target_id dry_run payload now s.board) s)
unfolding create_job acted atomically query ◌>>=◌ ◌>>◌ require change all_or_nothing pure new_job
    noted add_event set_jobs status_name
create-HasEvents job_id kind user_id target_id dry_run payload now s h =
    elim (Bool-cases (job_exists s.board.jobs job_id)) [
      | inl taken ↦ rw taken h
      | inr free ↦
          let job = new_job job_id kind user_id target_id dry_run payload now in
          rw free (
            one_of-HasEvents s _ _ (stored_or_undone_then _ s.board _ job) h (
              created-HasEvents job s
                (record {
                  board = add_event _ (set_jobs (s.board.jobs ++ job ∷ []) s.board);
                  pending = s.pending;
                })
                refl (λ k status j q g. in_longer (says k status) s.board.events _ _ g)
                (at_end (says job_id Status.queued) s.board.events _ _
                  (told_event job_id _ _ _ _ now Status.queued refl))
                h))
    ]

take_turn-HasEvents : (t : Turn) (s : System) → HasEvents s → HasEvents (take_turn t s)
unfolding take_turn acted
take_turn-HasEvents (create job_id kind user_id target_id dry_run payload now) s h =
    create-HasEvents job_id kind user_id target_id dry_run payload now s h
take_turn-HasEvents (cancel job now) s h = cancel-HasEvents job now s h
take_turn-HasEvents (set_task job_id task_id) s h = set_task-HasEvents job_id task_id s h
take_turn-HasEvents (tell event) s h = tell-HasEvents event s h
take_turn-HasEvents (start job_id now) s h = start-HasEvents job_id now s h
take_turn-HasEvents (finish job_id exit_code scenario_id dry_run now) s h =
    finish-HasEvents job_id exit_code scenario_id dry_run now s h
take_turn-HasEvents (crash job_id message traceback now) s h =
    crash-HasEvents job_id message traceback now s h
take_turn-HasEvents (reconcile job now minutes) s h = reconcile-HasEvents job now minutes s h
take_turn-HasEvents (append_next n) s h = append_next-HasEvents n s h

-- If the status of every job is told by an event of the job that is stored, or that the process which
-- saved the row is about to append, then it is so after any turns of requests, workers and the
-- reconciliation, whether a turn returns or raises and whatever comes between the save of a row and
-- its event.
pub take_turns-HasEvents :
    (turns : List Turn) (s : System) → HasEvents s → HasEvents (take_turns turns s)
unfolding take_turns
take_turns-HasEvents [] s h = h
take_turns-HasEvents (t ∷ turns) s h =
    take_turns-HasEvents turns (take_turn t s) (take_turn-HasEvents t s h)
