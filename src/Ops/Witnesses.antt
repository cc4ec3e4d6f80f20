-- ===== src/Ops/Witnesses.antt =====
-- Tests of the jobs (ops/services.py, ops/runner_bridge.py) on one job.
use fox_runner_server.Prelude.{pos, none, map, ◌*◌, ◌≡◌, refl, some, true, List, [], ◌∷◌}
use fox_runner_server.Ops.Retention.{Records, Removed, prune_database_records, day}
use fox_runner_server.Ops.Retained.{HasJobs, prune_database_records-HasJobs}
use fox_runner_server.Ops.Board.{Status, JobRow, JobEvent, Board, find_job, job_exists}
use fox_runner_server.Ops.Jobs.{new_job, as_cancelled, plain_event}
use fox_runner_server.Ops.Worker.{finish_job, outcome}
use fox_runner_server.Backend.Exec.{done}
use fox_runner_server.Ops.Turns.{System, Turn, create, cancel, start, append_next, take_turns}
use fox_runner_server.Ops.Noted.{HasEvents}
use fox_runner_server.Ops.TurnLaws.{take_turns-HasEvents}
use fox_runner_server.Ops.Overrides.{status_of, finish_job-overrides}
use fox_runner_server.Catalog.Samples.{db}

abbrev idle : System
idle = record { board = record { catalog = db; jobs = []; events = [] }; pending = [] }

abbrev queued_job : JobRow
queued_job = new_job "j" "run_scenario" "1" "demo" true [] 1

-- the job is cancelled between the save of the worker's row and its event
abbrev turns : List Turn
turns =
    create "j" "run_scenario" "1" "demo" true [] 1
    ∷ start "j" 3
    ∷ cancel queued_job 4
    ∷ append_next 0
    ∷ []

idle-HasEvents : HasEvents idle
unfolding find_job
idle-HasEvents job_id j e = cc

take_turns-HasEvents_example : HasEvents (take_turns turns idle)
take_turns-HasEvents_example = take_turns-HasEvents turns idle idle-HasEvents

-- the status is not the one that the last event tells
event_types :
    map (λ (e : JobEvent). e.event_type) (take_turns turns idle).board.events
    ≡ "queued" ∷ "cancelled" ∷ "running" ∷ []
unfolding take_turns find_job job_exists new_job as_cancelled plain_event
    fox_runner_server.Ops.Turns.take_turn fox_runner_server.Ops.Turns.append_pending
    fox_runner_server.Ops.Turns.nth fox_runner_server.Ops.Turns.without
    fox_runner_server.Ops.Turns.acted fox_runner_server.Ops.Turns.saved
    fox_runner_server.Ops.Worker.begin_start fox_runner_server.Ops.Worker.save_job
    fox_runner_server.Ops.Worker.as_running fox_runner_server.Ops.Jobs.create_job
    fox_runner_server.Ops.Jobs.atomically fox_runner_server.Ops.Jobs.all_or_nothing
    fox_runner_server.Ops.Jobs.append_job_event fox_runner_server.Ops.Jobs.mark_job_cancelled
    fox_runner_server.Ops.Jobs.may_cancel fox_runner_server.Ops.Board.change_job
    fox_runner_server.Ops.Board.set_jobs fox_runner_server.Ops.Board.add_event
    fox_runner_server.Backend.Exec.◌>>=◌ fox_runner_server.Backend.Exec.◌>>◌
    fox_runner_server.Backend.Exec.query fox_runner_server.Backend.Exec.require
    fox_runner_server.Backend.Exec.change fox_runner_server.Backend.Exec.pure
event_types = refl

cancelled_status : status_of (take_turns turns idle).board "j" ≡ some Status.cancelled
unfolding take_turns find_job job_exists new_job as_cancelled plain_event
    fox_runner_server.Ops.Turns.take_turn fox_runner_server.Ops.Turns.append_pending
    fox_runner_server.Ops.Turns.nth fox_runner_server.Ops.Turns.without
    fox_runner_server.Ops.Turns.acted fox_runner_server.Ops.Turns.saved
    fox_runner_server.Ops.Worker.begin_start fox_runner_server.Ops.Worker.save_job
    fox_runner_server.Ops.Worker.as_running fox_runner_server.Ops.Jobs.create_job
    fox_runner_server.Ops.Jobs.atomically fox_runner_server.Ops.Jobs.all_or_nothing
    fox_runner_server.Ops.Jobs.append_job_event fox_runner_server.Ops.Jobs.mark_job_cancelled
    fox_runner_server.Ops.Jobs.may_cancel fox_runner_server.Ops.Board.change_job
    fox_runner_server.Ops.Board.set_jobs fox_runner_server.Ops.Board.add_event
    fox_runner_server.Backend.Exec.◌>>=◌ fox_runner_server.Backend.Exec.◌>>◌
    fox_runner_server.Backend.Exec.query fox_runner_server.Backend.Exec.require
    fox_runner_server.Backend.Exec.change fox_runner_server.Backend.Exec.pure
cancelled_status = refl

abbrev cancelled_job : JobRow
cancelled_job = as_cancelled 4 (new_job "j" "run_scenario" "1" "demo" true [] 1)

abbrev cancelled_board : Board
cancelled_board = record { catalog = db; jobs = cancelled_job ∷ []; events = [] }

finish_job-overrides_example :
    status_of (finish_job "j" (pos 0) "demo" true 5 cancelled_board).1 "j" ≡ some (outcome (pos 0))
unfolding find_job as_cancelled new_job
finish_job-overrides_example =
    finish_job-overrides cancelled_board "j" cancelled_job (pos 0) "demo" true 5 refl

-- a job that is queued, one that was cancelled on the first day, and an event of each
abbrev records : Records
records = record {
  board = record {
    catalog = db;
    jobs = new_job "i" "run_scenario" "1" "demo" true [] 1 ∷ cancelled_job ∷ [];
    events = plain_event "i" "queued" "info" "" [] 1 ∷ plain_event "j" "queued" "info" "" [] 1 ∷ [];
  };
  audit = [];
  notifications = [];
}

records-HasJobs : HasJobs records.board.jobs records.board.events
unfolding HasJobs job_exists new_job as_cancelled plain_event
records-HasJobs = (refl, (refl, tt))

-- the second job and its event are removed, and the cutoff of the audit is before every date
prune_database_records-HasJobs_example :
    HasJobs
      (prune_database_records (9 * day) (some 2) (some 10) none records).1.board.jobs
      (prune_database_records (9 * day) (some 2) (some 10) none records).1.board.events
prune_database_records-HasJobs_example =
    prune_database_records-HasJobs (9 * day) (some 2) (some 10) none records records-HasJobs

retention_run :
    (prune_database_records (9 * day) (some 2) none (some 1) records).0
    ≡ done (record { jobs = 1; job_events = 1; audit = 0; graph_notifications = 0 })
unfolding prune_database_records fox_runner_server.Backend.Exec.◌>>=◌
    fox_runner_server.Ops.Retention.prune_jobs fox_runner_server.Backend.Exec.query
    fox_runner_server.Ops.Retention.cutoff_at fox_runner_server.Ops.Retention.delete_old_jobs
    fox_runner_server.Ops.Retention.old_jobs fox_runner_server.Ops.Retention.finished_before new_job
    as_cancelled fox_runner_server.Backend.Exec.change fox_runner_server.Backend.Exec.pure
    fox_runner_server.Ops.Retention.prune_audit fox_runner_server.Ops.Retention.prune_notifications
    fox_runner_server.Ops.Retention.listed_jobs fox_runner_server.Ops.Retention.listed_events
    fox_runner_server.Ops.Retention.delete_jobs fox_runner_server.Ops.Retention.is_listed
    plain_event
retention_run = refl
