-- ===== src/Ops/Jobs.antt =====
-- The services of jobs, of ops/services.py.
use fox_runner_server.Prelude.{
  ℕ, String, Option, none, some, Bool, true, false, not, ◌&&◌, List, [], ◌∷◌, ◌++◌, length, keep,
  take, str_eq, is_truthy, append_str, if◌then◌else◌,
}
use fox_runner_server.Prelude.Dict.{Dict, put}
use fox_runner_server.Prelude.Json.{Json}
use fox_runner_server.Api.Pages.{drop}
use fox_runner_server.Backend.Exec.{
  Reply, done, http, Action, ◌>>=◌, ◌>>◌, pure, fail, query, change, require,
}
use fox_runner_server.Backend.Users.{User, resolve_user}
use fox_runner_server.Catalog.Tables.{Db, add_audit}
use fox_runner_server.Catalog.Access.{get_scenario_for_user}
use fox_runner_server.Ops.Board.{
  Status, status_name, JobRow, JobEvent, Board, find_job, job_exists, change_job, set_jobs,
  add_event, set_catalog,
}

-- a query of the catalog's tables
module _ {A : Type 0} where
  unfoldable pub from_catalog : (Db → Reply A) → Action Board A
  from_catalog q = query (λ (b : Board). q b.catalog)

  -- `@transaction.atomic`: a raise takes the changes back
  unfoldable pub all_or_nothing : Board → Reply A × Board → Reply A × Board
  all_or_nothing before (done a, b) = (done a, b)
  all_or_nothing before (http code message, b) = (http code message, before)

  unfoldable pub atomically : Action Board A → Action Board A
  atomically f b = all_or_nothing b (f b)

-- an event for a job that is gone is refused by its foreign key
unfoldable pub append_job_event : JobEvent → Action Board (Unit {0})
append_job_event event = do
  exists ← query (λ (b : Board). done (job_exists b.jobs event.job_id))
  require exists 500 "FOREIGN KEY constraint failed"
  change (add_event event)

unfoldable pub plain_event : (job_id event_type level message : String) → Dict Json → ℕ → JobEvent
plain_event job_id event_type level message payload now = record {
  job_id = job_id;
  event_type = event_type;
  level = level;
  message = message;
  step = none;
  payload = payload;
  created_at = now;
}

unfoldable pub new_job : (job_id kind user_id target_id : String) → Bool → Dict Json → ℕ → JobRow
new_job job_id kind user_id target_id dry_run payload now = record {
  job_id = job_id;
  celery_task_id = none;
  user_id = user_id;
  kind = kind;
  target_id = target_id;
  status = Status.queued;
  dry_run = dry_run;
  exit_code = none;
  error = none;
  payload = payload;
  result = [];
  updated_at = now;
  started_at = none;
  finished_at = none;
}

-- `create_job`; `job_id` is the new UUID, and the table takes an id once
unfoldable pub create_job :
    (job_id kind user_id target_id : String) → Bool → Dict Json → ℕ → Action Board JobRow
create_job job_id kind user_id target_id dry_run payload now = atomically (do
  let job = new_job job_id kind user_id target_id dry_run payload now
  taken ← query (λ (b : Board). done (job_exists b.jobs job_id))
  require (not taken) 500 "UNIQUE constraint failed"
  change (λ (b : Board). set_jobs (b.jobs ++ job ∷ []) b)
  append_job_event (
      plain_event job_id "queued" "info" (append_str "Job " (append_str kind " mis en file."))
        (("target_id", Json.text target_id) ∷ ("dry_run", Json.bool dry_run) ∷ []) now)
  pure job)

unfoldable pub get_job_for_user : String → User → Bool → Board → Reply JobRow
get_job_for_user job_id user is_superuser b = elim (find_job b.jobs job_id) [
  | none ↦ http 404 "Job introuvable."
  | some j ↦
      if not is_superuser && not (str_eq j.user_id user.id)
      then http 403 "Acces job refuse."
      else done j
]

-- a filter that is given and, where it is a text, not empty
unfoldable pub passes : Option String → String → Bool
passes none value = true
passes (some wanted) value = if is_truthy wanted then str_eq value wanted else true

unfoldable pub of_user : Option User → JobRow → Bool
of_user none j = true
of_user (some user) j = str_eq j.user_id user.id

module _ {A : Type 0} where
  unfoldable pub reversed : List A → List A
  reversed [] = []
  reversed (x ∷ xs) = reversed xs ++ x ∷ []

-- the newest first: rows are added in the order of their ids
unfoldable pub list_jobs :
    Option User
    → (status_filter scenario_id : Option String) → (limit offset : ℕ) → Board
    → List JobRow × ℕ
list_jobs user status_filter scenario_id limit offset b =
    let rows =
      keep
        (λ (j : JobRow).
          of_user user j
          && passes status_filter (status_name j.status)
          && passes scenario_id j.target_id)
        (reversed b.jobs) in
    (take limit (drop offset rows), length rows)

-- the events in the order of their times, which is the one of their ids
unfoldable pub list_job_events : String → Board → List JobEvent
list_job_events job_id b = keep (λ (e : JobEvent). str_eq e.job_id job_id) b.events

unfoldable pub with_task : String → JobRow → JobRow
with_task task_id j = record {
  job_id = j.job_id;
  celery_task_id = some task_id;
  user_id = j.user_id;
  kind = j.kind;
  target_id = j.target_id;
  status = j.status;
  dry_run = j.dry_run;
  exit_code = j.exit_code;
  error = j.error;
  payload = j.payload;
  result = j.result;
  updated_at = j.updated_at;
  started_at = j.started_at;
  finished_at = j.finished_at;
}

unfoldable pub set_celery_task_id : (job_id celery_task_id : String) → Action Board (Unit {0})
set_celery_task_id job_id celery_task_id = do
  exists ← query (λ (b : Board). done (job_exists b.jobs job_id))
  change (λ (b : Board). set_jobs (change_job job_id (with_task celery_task_id) b.jobs) b)
  require exists 500 (append_str "Job introuvable: " job_id)

unfoldable pub may_cancel : Status → Bool
may_cancel Status.queued = true
may_cancel Status.running = true
may_cancel Status.success = false
may_cancel Status.failed = false
may_cancel Status.cancelled = false

unfoldable pub as_cancelled : ℕ → JobRow → JobRow
as_cancelled now j = record {
  job_id = j.job_id;
  celery_task_id = j.celery_task_id;
  user_id = j.user_id;
  kind = j.kind;
  target_id = j.target_id;
  status = Status.cancelled;
  dry_run = j.dry_run;
  exit_code = j.exit_code;
  error = j.error;
  payload = j.payload;
  result = j.result;
  updated_at = now;
  started_at = j.started_at;
  finished_at = some now;
}

-- `mark_job_cancelled`, of the job as it was read
unfoldable pub mark_job_cancelled : JobRow → ℕ → Action Board (Unit {0})
mark_job_cancelled job now = atomically (do
  require (may_cancel job.status) 409 "Seuls les jobs queued/running peuvent etre annules."
  change (λ (b : Board). set_jobs (change_job job.job_id (as_cancelled now) b.jobs) b)
  append_job_event (plain_event job.job_id "cancelled" "warning" "Job annule." [] now))

-- How a job is sent off: to a worker, which gives a task id; in the server's own process; or the
-- broker cannot be reached.
pub data Transport : Type 0 where
  celery : String → Transport
  inline unreachable : Transport

-- `_dispatch_job`
unfoldable pub dispatch_job :
    Transport → String → (celery_message : String) → Dict Json → ℕ → Action Board (Unit {0})
dispatch_job (Transport.celery task_id) job_id celery_message extra now = do
  set_celery_task_id job_id task_id
  append_job_event (
      plain_event job_id "submitted" "info" celery_message
        (("celery_task_id", Json.text task_id) ∷ extra) now)
dispatch_job Transport.inline job_id celery_message extra now =
    append_job_event
      (plain_event job_id "submitted" "info" "Exécution inline (sans Celery)." extra now)
dispatch_job Transport.unreachable job_id celery_message extra now = fail 500 "OperationalError"

-- the row as it is now: `refresh_from_db`
unfoldable pub refreshed : String → Board → Reply JobRow
refreshed job_id b = elim (find_job b.jobs job_id) [
  | none ↦ http 500 "DoesNotExist"
  | some j ↦ done j
]

unfoldable pub enqueue_scenario_job :
    Transport → (job_id user_id scenario_id : String) → Bool → ℕ → Action Board JobRow
enqueue_scenario_job transport job_id user_id scenario_id dry_run now = do
  target ← from_catalog (λ (db : Db). resolve_user db.users user_id)
  scenario ← from_catalog (get_scenario_for_user scenario_id target)
  job ←
      create_job job_id "run_scenario" target.id scenario_id dry_run
        (("scenario_id", Json.text scenario_id) ∷ []) now
  dispatch_job transport job.job_id "Tâche Celery soumise." [] now
  query (refreshed job.job_id)

unfoldable pub audit_job :
    User → (action target_id : String) → (before after : Dict Json) → Action Board (Unit {0})
audit_job actor action target_id before after = change (λ (b : Board).
    set_catalog
      (add_audit
        record {
          actor = actor.id;
          action = action;
          target_type = "job";
          target_id = target_id;
          before = before;
          after = after;
        }
        b.catalog)
      b)

-- `serialize` gives the payload of a job; revoking its task is a message to the broker
module _ (serialize : JobRow → Dict Json) where
  unfoldable pub cancel_job_for_user :
      (job_id user_id : String) → User → ℕ → Action Board (Dict Json)
  cancel_job_for_user job_id user_id current_user now = do
    target ← from_catalog (λ (db : Db). resolve_user db.users user_id)
    job ← query (get_job_for_user job_id target current_user.is_superuser)
    mark_job_cancelled job now
    after ← query (refreshed job_id)
    audit_job current_user "job.cancel" job_id (serialize job) (serialize after)
    pure (serialize after)

  unfoldable pub retry_job_for_user :
      Transport → (new_id job_id user_id : String) → User → ℕ → Action Board (Dict Json)
  retry_job_for_user transport new_id job_id user_id current_user now = do
    target ← from_catalog (λ (db : Db). resolve_user db.users user_id)
    source ← query (get_job_for_user job_id target current_user.is_superuser)
    require (str_eq source.kind "run_scenario") 409 "Retry non supporte pour ce type de job."
    scenario ← from_catalog (get_scenario_for_user source.target_id target)
    job ←
        create_job new_id source.kind target.id source.target_id source.dry_run
          (put source.payload "retry_of" (Json.text source.job_id)) now
    dispatch_job transport job.job_id "Retry Celery soumis."
        (("retry_of", Json.text source.job_id) ∷ []) now
    after ← query (refreshed job.job_id)
    audit_job current_user "job.retry" source.job_id [] (("new_job_id", Json.text job.job_id) ∷ [])
    pure (serialize after)
