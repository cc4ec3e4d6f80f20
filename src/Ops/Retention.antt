-- ===== src/Ops/Retention.antt =====
-- The retention of ops/services.py. A time is a number of microseconds since the first one that a
-- datetime can have.
use fox_runner_server.Prelude.{
  ℕ, String, Option, none, some, Bool, false, not, List, [], ◌∷◌, ◌*◌, ◌-◌, length, keep, map, any,
  str_eq, ltb, if◌then◌else◌,
}
use fox_runner_server.Prelude.Dict.{Dict}
use fox_runner_server.Prelude.Json.{Json}
use fox_runner_server.Backend.Exec.{Reply, done, http, Action, ◌>>=◌, pure, query, change}
use fox_runner_server.Catalog.Tables.{AuditEntry}
use fox_runner_server.Ops.Board.{JobRow, JobEvent, Board}

pub record DatedEntry : Type 0 where
  pub entry : AuditEntry
  pub created_at : ℕ

pub record GraphNotification : Type 0 where
  pub subscription_id : String
  pub change_type : String
  pub resource : String
  pub tenant_id : Option String
  pub client_state : Option String
  pub lifecycle_event : Option String
  pub raw_payload : Dict Json
  pub created_at : ℕ

-- the tables that are pruned
pub record Records : Type 0 where
  pub board : Board
  pub audit : List DatedEntry
  pub notifications : List GraphNotification

pub record Removed : Type 0 where
  pub jobs : ℕ
  pub job_events : ℕ
  pub audit : ℕ
  pub graph_notifications : ℕ

-- `timedelta(days=1)`
abbrev pub day : ℕ
day = 86400000000

-- `now - timedelta(days=days)`, an OverflowError where no datetime is that early
unfoldable pub cutoff_at : (now days : ℕ) → Reply ℕ
cutoff_at now days =
    if ltb now (days * day) then http 500 "date value out of range" else done (now - days * day)

-- `finished_at__isnull=False, finished_at__lt=cutoff`
unfoldable pub finished_before : ℕ → JobRow → Bool
finished_before cutoff j = elim j.finished_at [ none ↦ false | some t ↦ ltb t cutoff ]

-- `job_id__in=job_ids`
unfoldable pub is_listed : List String → String → Bool
is_listed job_ids job_id = any (λ (i : String). str_eq i job_id) job_ids

unfoldable pub old_jobs : ℕ → Records → List String
old_jobs cutoff s = map (λ (j : JobRow). j.job_id) (keep (finished_before cutoff) s.board.jobs)

unfoldable pub delete_jobs : List String → Records → Records
delete_jobs job_ids s = record {
  board = record {
    catalog = s.board.catalog;
    jobs = keep (λ (j : JobRow). not (is_listed job_ids j.job_id)) s.board.jobs;
    events = keep (λ (e : JobEvent). not (is_listed job_ids e.job_id)) s.board.events;
  };
  audit = s.audit;
  notifications = s.notifications;
}

unfoldable pub listed_jobs : List String → Records → ℕ
listed_jobs job_ids s = length (keep (λ (j : JobRow). is_listed job_ids j.job_id) s.board.jobs)

unfoldable pub listed_events : List String → Records → ℕ
listed_events job_ids s =
    length (keep (λ (e : JobEvent). is_listed job_ids e.job_id) s.board.events)

-- the numbers of jobs and events that are deleted; without an old job nothing is
unfoldable pub delete_old_jobs : List String → Action Records (ℕ × ℕ)
delete_old_jobs [] = pure (0, 0)
delete_old_jobs (job_id ∷ job_ids) = do
  counts ←
      query (λ (s : Records).
        done (listed_jobs (job_id ∷ job_ids) s, listed_events (job_id ∷ job_ids) s))
  done_ ← change (delete_jobs (job_id ∷ job_ids))
  pure counts

unfoldable pub prune_jobs : (now : ℕ) → Option ℕ → Action Records (ℕ × ℕ)
prune_jobs now none = pure (0, 0)
prune_jobs now (some days) = do
  cutoff ← query (λ (s : Records). cutoff_at now days)
  job_ids ← query (λ (s : Records). done (old_jobs cutoff s))
  delete_old_jobs job_ids

unfoldable pub delete_entries : ℕ → Records → Records
delete_entries cutoff s = record {
  board = s.board;
  audit = keep (λ (e : DatedEntry). not (ltb e.created_at cutoff)) s.audit;
  notifications = s.notifications;
}

unfoldable pub prune_audit : (now : ℕ) → Option ℕ → Action Records ℕ
prune_audit now none = pure 0
prune_audit now (some days) = do
  cutoff ← query (λ (s : Records). cutoff_at now days)
  count ←
      query (λ (s : Records).
        done (length (keep (λ (e : DatedEntry). ltb e.created_at cutoff) s.audit)))
  done_ ← change (delete_entries cutoff)
  pure count

unfoldable pub delete_notifications : ℕ → Records → Records
delete_notifications cutoff s = record {
  board = s.board;
  audit = s.audit;
  notifications = keep (λ (n : GraphNotification). not (ltb n.created_at cutoff)) s.notifications;
}

unfoldable pub prune_notifications : (now : ℕ) → Option ℕ → Action Records ℕ
prune_notifications now none = pure 0
prune_notifications now (some days) = do
  cutoff ← query (λ (s : Records). cutoff_at now days)
  count ← query (λ (s : Records).
      done (length (keep (λ (n : GraphNotification). ltb n.created_at cutoff) s.notifications)))
  done_ ← change (delete_notifications cutoff)
  pure count

unfoldable pub prune_database_records :
    (now : ℕ) → (jobs_days audit_days graph_notifications_days : Option ℕ) → Action Records Removed
prune_database_records now jobs_days audit_days graph_notifications_days = do
  (jobs, job_events) ← prune_jobs now jobs_days
  audit ← prune_audit now audit_days
  graph_notifications ← prune_notifications now graph_notifications_days
  pure (record {
    jobs = jobs;
    job_events = job_events;
    audit = audit;
    graph_notifications = graph_notifications;
  })
