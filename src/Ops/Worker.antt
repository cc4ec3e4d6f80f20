-- ===== src/Ops/Worker.antt =====
-- What a worker does to a job: `execute_scenario_job` of ops/runner_bridge.py, whose parts other
-- requests can come between, and `reconcile_stale_jobs` of
-- ops/management/commands/reconcile_jobs.py.
use fox_runner_server.Prelude.{
  ℕ, zero, suc, String, ℤ, pos, negsuc, some, Bool, true, false, ◌&&◌, List, [], ◌∷◌, keep, ltb,
  ◌-◌, ◌*◌, append_str, if◌then◌else◌,
}
use fox_runner_server.Prelude.Dict.{Dict}
use fox_runner_server.Prelude.Decimal.{show}
use fox_runner_server.Prelude.Json.{Json}
use fox_runner_server.Backend.Exec.{done, Action, ◌>>=◌, ◌>>◌, pure, query, change, require}
use fox_runner_server.Ops.Board.{
  Status, status_name, JobRow, JobEvent, Board, job_exists, change_job, set_jobs,
}
use fox_runner_server.Ops.Jobs.{append_job_event, plain_event, refreshed}

unfoldable pub as_running : ℕ → JobRow → JobRow
as_running now j = record {
  job_id = j.job_id;
  celery_task_id = j.celery_task_id;
  user_id = j.user_id;
  kind = j.kind;
  target_id = j.target_id;
  status = Status.running;
  dry_run = j.dry_run;
  exit_code = j.exit_code;
  error = j.error;
  payload = j.payload;
  result = j.result;
  updated_at = now;
  started_at = some now;
  finished_at = j.finished_at;
}

-- `exit_code == 0`
unfoldable pub is_zero : ℤ → Bool
is_zero (pos zero) = true
is_zero (pos (suc n)) = false
is_zero (negsuc n) = false

unfoldable pub outcome : ℤ → Status
outcome exit_code = if is_zero exit_code then Status.success else Status.failed

unfoldable pub as_finished : ℤ → Dict Json → ℕ → JobRow → JobRow
as_finished exit_code result now j = record {
  job_id = j.job_id;
  celery_task_id = j.celery_task_id;
  user_id = j.user_id;
  kind = j.kind;
  target_id = j.target_id;
  status = outcome exit_code;
  dry_run = j.dry_run;
  exit_code = some exit_code;
  error = j.error;
  payload = j.payload;
  result = result;
  updated_at = now;
  started_at = j.started_at;
  finished_at = some now;
}

unfoldable pub as_failed : String → ℕ → JobRow → JobRow
as_failed error now j = record {
  job_id = j.job_id;
  celery_task_id = j.celery_task_id;
  user_id = j.user_id;
  kind = j.kind;
  target_id = j.target_id;
  status = Status.failed;
  dry_run = j.dry_run;
  exit_code = j.exit_code;
  error = some error;
  payload = j.payload;
  result = j.result;
  updated_at = now;
  started_at = j.started_at;
  finished_at = some now;
}

-- `record.save(update_fields=...)`, which raises if the row is gone
unfoldable pub save_job : String → (JobRow → JobRow) → Action Board (Unit {0})
save_job job_id f = do
  exists ← query (λ (b : Board). done (job_exists b.jobs job_id))
  require exists 500 "DatabaseError"
  change (λ (b : Board). set_jobs (change_job job_id f b.jobs) b)

-- The first part of `execute_scenario_job`: it saves the row and gives the event that it appends
-- then. There is no transaction, so others can come between.
unfoldable pub begin_start : String → ℕ → Action Board JobEvent
begin_start job_id now = do
  exists ← query (λ (b : Board). done (job_exists b.jobs job_id))
  require exists 500 (append_str "Job introuvable: " job_id)
  save_job job_id (as_running now)
  pure (plain_event job_id "running" "info" "Exécution démarrée." [] now)

unfoldable pub start_job : String → ℕ → Action Board (Unit {0})
start_job job_id now = do event ← begin_start job_id now; append_job_event event

-- `sink`, for an event of the run
unfoldable pub sink : JobEvent → Action Board (Unit {0})
sink event = append_job_event event

unfoldable pub show_code : ℤ → String
show_code (pos n) = show n
show_code (negsuc n) = append_str "-" (show (suc n))

-- the end of a run that returned an exit code: the row, and then the event
unfoldable pub begin_finish : String → ℤ → (scenario_id : String) → Bool → ℕ → Action Board JobEvent
begin_finish job_id exit_code scenario_id dry_run now = do
  job ← query (refreshed job_id)
  save_job job_id (
      as_finished exit_code
        (("scenario_id", Json.text scenario_id) ∷ ("dry_run", Json.bool dry_run) ∷ []) now)
  pure (
      plain_event job_id (status_name (outcome exit_code))
        (if is_zero exit_code then "info" else "error")
        (append_str "Exécution terminée (exit_code=" (append_str (show_code exit_code) ")."))
        (("exit_code", Json.num exit_code) ∷ []) now)

unfoldable pub finish_job : String → ℤ → (scenario_id : String) → Bool → ℕ → Action Board (Unit {0})
finish_job job_id exit_code scenario_id dry_run now = do
  event ← begin_finish job_id exit_code scenario_id dry_run now
  append_job_event event

-- the end of a run that raised
unfoldable pub begin_failure : (job_id message traceback : String) → ℕ → Action Board JobEvent
begin_failure job_id message traceback now = do
  job ← query (refreshed job_id)
  save_job job_id (as_failed traceback now)
  pure (plain_event job_id "failed" "error" message [] now)

unfoldable pub fail_job : (job_id message traceback : String) → ℕ → Action Board (Unit {0})
fail_job job_id message traceback now = do
  event ← begin_failure job_id message traceback now
  append_job_event event

unfoldable pub is_open : Status → Bool
is_open Status.queued = true
is_open Status.running = true
is_open Status.success = false
is_open Status.failed = false
is_open Status.cancelled = false

-- `updated_at` before the cutoff; minutes are 60 ticks of the clock, which does not go below 0
unfoldable pub is_stale_job : ℕ → ℕ → JobRow → Bool
is_stale_job now older_than_minutes j =
    is_open j.status && ltb j.updated_at (now - older_than_minutes * 60)

unfoldable pub orphan_message : Status → ℕ → String
orphan_message status minutes = append_str "Job orphelin reconcilie: bloque en '" (
    append_str (status_name status)
      (append_str "' depuis plus de " (append_str (show minutes) " min.")))

-- one job of the list that was read: the row, and then the event
unfoldable pub begin_reconcile : JobRow → (now older_than_minutes : ℕ) → Action Board JobEvent
begin_reconcile j now minutes = do
  save_job j.job_id (as_failed (orphan_message j.status minutes) now)
  pure (
      plain_event j.job_id "failed" "error" (orphan_message j.status minutes)
        (("reconciled", Json.bool true) ∷ ("older_than_minutes", Json.num (pos minutes)) ∷ []) now)

unfoldable pub reconcile_all : ℕ → ℕ → List JobRow → Action Board (List String)
reconcile_all now minutes [] = pure []
reconcile_all now minutes (j ∷ jobs) =
    let rest = reconcile_all now minutes jobs in
    (do
      event ← begin_reconcile j now minutes
      append_job_event event
      ids ← rest
      pure (j.job_id ∷ ids))

-- the ids of the jobs that are failed
unfoldable pub reconcile_stale_jobs : ℕ → ℕ → Action Board (List String)
reconcile_stale_jobs now older_than_minutes = do
  stale ← query (λ (b : Board). done (keep (is_stale_job now older_than_minutes) b.jobs))
  reconcile_all now older_than_minutes stale
