-- ===== src/Ops/Turns.antt =====
-- Requests, workers and the reconciliation (ops/services.py, ops/runner_bridge.py and
-- ops/management/commands/reconcile_jobs.py) take turns on the tables of jobs. A worker and the
-- reconciliation save a row and append its event in two turns, and others can come between.
use fox_runner_server.Prelude.{
  ℕ, zero, suc, String, ℤ, Option, none, some, Bool, List, [], ◌∷◌, ◌++◌,
}
use fox_runner_server.Prelude.Dict.{Dict}
use fox_runner_server.Prelude.Json.{Json}
use fox_runner_server.Backend.Exec.{Reply, done, http}
use fox_runner_server.Ops.Board.{JobRow, JobEvent, Board}
use fox_runner_server.Ops.Jobs.{
  create_job, set_celery_task_id, mark_job_cancelled, append_job_event,
}
use fox_runner_server.Ops.Worker.{begin_start, begin_finish, begin_failure, begin_reconcile}

-- the tables, and the events of rows that are saved, which their processes append next
pub record System : Type 0 where
  pub board : Board
  pub pending : List JobEvent

pub data Turn : Type 0 where
  -- a request creates a job; a job is cancelled as it was read; a job gets the id of its task
  create : (job_id kind user_id target_id : String) → Bool → Dict Json → ℕ → Turn
  cancel : JobRow → ℕ → Turn
  set_task : (job_id task_id : String) → Turn
  -- any other event, as that of a submission or of a step
  tell : JobEvent → Turn
  -- a worker, and the reconciliation with one job as it was read, save a row
  start : String → ℕ → Turn
  finish : String → ℤ → (scenario_id : String) → Bool → ℕ → Turn
  crash : (job_id message traceback : String) → ℕ → Turn
  reconcile : JobRow → (now older_than_minutes : ℕ) → Turn
  -- the process that saved a row appends its event
  append_next : ℕ → Turn

unfoldable pub nth : ℕ → List JobEvent → Option JobEvent
nth n [] = none
nth zero (e ∷ events) = some e
nth (suc n) (e ∷ events) = nth n events

unfoldable pub without : ℕ → List JobEvent → List JobEvent
without n [] = []
without zero (e ∷ events) = events
without (suc n) (e ∷ events) = e ∷ without n events

module _ {A : Type 0} where
  unfoldable pub acted : Reply A × Board → System → System
  acted (r, b) s = record { board = b; pending = s.pending }

unfoldable pub saved : Reply JobEvent × Board → System → System
saved (done event, b) s = record { board = b; pending = s.pending ++ event ∷ [] }
saved (http code message, b) s = record { board = b; pending = s.pending }

-- an event that its foreign key refuses is lost with the process
unfoldable pub append_pending : ℕ → System → System
append_pending n s = elim (nth n s.pending) [
  | none ↦ s
  | some event ↦ record {
    board = (append_job_event event s.board).1;
    pending = without n s.pending;
  }
]

unfoldable pub take_turn : Turn → System → System
take_turn (create job_id kind user_id target_id dry_run payload now) s =
    acted (create_job job_id kind user_id target_id dry_run payload now s.board) s
take_turn (cancel job now) s = acted (mark_job_cancelled job now s.board) s
take_turn (set_task job_id task_id) s = acted (set_celery_task_id job_id task_id s.board) s
take_turn (tell event) s = acted (append_job_event event s.board) s
take_turn (start job_id now) s = saved (begin_start job_id now s.board) s
take_turn (finish job_id exit_code scenario_id dry_run now) s =
    saved (begin_finish job_id exit_code scenario_id dry_run now s.board) s
take_turn (crash job_id message traceback now) s =
    saved (begin_failure job_id message traceback now s.board) s
take_turn (reconcile job now minutes) s = saved (begin_reconcile job now minutes s.board) s
take_turn (append_next n) s = append_pending n s

unfoldable pub take_turns : List Turn → System → System
take_turns [] s = s
take_turns (t ∷ turns) s = take_turns turns (take_turn t s)
