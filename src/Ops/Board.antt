-- ===== src/Ops/Board.antt =====
-- ops/models.py: the jobs, their events, and the changes of a row.
use fox_runner_server.Prelude.{
  ℕ, String, ℤ, Option, Bool, List, [], ◌∷◌, ◌++◌, find, any, str_eq, if◌then◌else◌,
}
use fox_runner_server.Prelude.Dict.{Dict}
use fox_runner_server.Prelude.Json.{Json}
use fox_runner_server.Catalog.Tables.{Db}

-- the texts that are stored in `JobRow.status`
pub data Status : Type 0 where
  queued running success failed cancelled : Status

unfoldable pub status_name : Status → String
status_name Status.queued = "queued"
status_name Status.running = "running"
status_name Status.success = "success"
status_name Status.failed = "failed"
status_name Status.cancelled = "cancelled"

pub record JobRow : Type 0 where
  pub job_id : String
  pub celery_task_id : Option String
  pub user_id : String
  pub kind : String
  pub target_id : String
  pub status : Status
  pub dry_run : Bool
  pub exit_code : Option ℤ
  pub error : Option String
  pub payload : Dict Json
  pub result : Dict Json
  pub updated_at : ℕ
  pub started_at : Option ℕ
  pub finished_at : Option ℕ

pub record JobEvent : Type 0 where
  pub job_id : String
  pub event_type : String
  pub level : String
  pub message : String
  pub step : Option String
  pub payload : Dict Json
  pub created_at : ℕ

-- the tables of jobs, with the catalog's
pub record Board : Type 0 where
  pub catalog : Db
  pub jobs : List JobRow
  pub events : List JobEvent

unfoldable pub find_job : List JobRow → String → Option JobRow
find_job jobs job_id = find (λ (j : JobRow). str_eq j.job_id job_id) jobs

unfoldable pub job_exists : List JobRow → String → Bool
job_exists jobs job_id = any (λ (j : JobRow). str_eq j.job_id job_id) jobs

-- `filter(job_id=...)` with a change of the row; job ids are unique
unfoldable pub change_job : String → (JobRow → JobRow) → List JobRow → List JobRow
change_job job_id f [] = []
change_job job_id f (j ∷ jobs) =
    let rest = change_job job_id f jobs in if str_eq j.job_id job_id then f j ∷ rest else j ∷ rest

unfoldable pub set_jobs : List JobRow → Board → Board
set_jobs jobs b = record { catalog = b.catalog; jobs = jobs; events = b.events }

unfoldable pub add_event : JobEvent → Board → Board
add_event event b = record { catalog = b.catalog; jobs = b.jobs; events = b.events ++ event ∷ [] }

unfoldable pub set_catalog : Db → Board → Board
set_catalog db b = record { catalog = db; jobs = b.jobs; events = b.events }
