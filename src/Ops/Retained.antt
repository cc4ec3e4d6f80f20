-- ===== src/Ops/Retained.antt =====
-- The retention of ops/services.py deletes no job that an event is left of.
use fox_runner_server.Prelude.{
  ℕ, String, ◌≡◌, refl, Option, none, some, Bool, true, false, not, List, [], ◌∷◌, keep, All,
  str_eq, eq_iff, arith, if◌then◌else◌, ap, ◌∙◌, Bool-cases, inl, inr,
}
use fox_runner_server.Backend.Frame.{
  Within, Preorder, Within-bind, Within-query, Within-pure, Within-change,
}
use fox_runner_server.Ops.Board.{JobRow, JobEvent, job_exists}
use fox_runner_server.Ops.Retention.{
  Records, is_listed, delete_jobs, delete_old_jobs, prune_jobs, delete_entries, prune_audit,
  delete_notifications, prune_notifications, prune_database_records,
}

-- every event has its job
unfoldable pub HasJobs : List JobRow → List JobEvent → Type 0
HasJobs jobs events = All (λ (e : JobEvent). job_exists jobs e.job_id ≡ true) events

unfoldable pub Stays : Records → Records → Type 0
Stays s t = HasJobs s.board.jobs s.board.events → HasJobs t.board.jobs t.board.events

Stays-Preorder : Preorder Stays
unfolding Stays
Stays-Preorder = record { same = λ s h. h; joined = λ s t u f g h. g (f h) }

kept_job :
    (j : JobRow) (rest : List JobRow) (job_id : String) (b : Bool)
    → (str_eq j.job_id job_id ≡ true → b ≡ false)
    → (str_eq j.job_id job_id ≡ false → job_exists rest job_id ≡ true)
    → job_exists (if not b then j ∷ rest else rest) job_id ≡ true
unfolding job_exists
kept_job j rest job_id b h k = elim (Bool-cases (str_eq j.job_id job_id)) [
  | inl e ↦ ground (arith, h e)
  | inr e ↦ ground (arith, k e)
]

other_exists :
    (j : JobRow) (jobs : List JobRow) (job_id : String)
    → job_exists (j ∷ jobs) job_id ≡ true
    → str_eq j.job_id job_id ≡ false
    → job_exists jobs job_id ≡ true
unfolding job_exists
other_exists j jobs job_id h e = ground arith

-- a job that is not listed is still there
job_exists-keep :
    (job_ids : List String) (jobs : List JobRow) (job_id : String)
    → is_listed job_ids job_id ≡ false
    → job_exists jobs job_id ≡ true
    → job_exists (keep (λ (j : JobRow). not (is_listed job_ids j.job_id)) jobs) job_id ≡ true
unfolding job_exists
job_exists-keep job_ids [] job_id h e = e
job_exists-keep job_ids (j ∷ jobs) job_id h e =
    kept_job j (keep (λ (x : JobRow). not (is_listed job_ids x.job_id)) jobs) job_id
      (is_listed job_ids j.job_id) (λ s. ap (is_listed job_ids) ((eq_iff j.job_id job_id).0 s) ∙ h)
      (λ s. job_exists-keep job_ids jobs job_id h (other_exists j jobs job_id e s))

kept_event :
    (jobs : List JobRow) (e : JobEvent) (rest : List JobEvent) (b : Bool)
    → (b ≡ false → job_exists jobs e.job_id ≡ true)
    → HasJobs jobs rest
    → HasJobs jobs (if not b then e ∷ rest else rest)
unfolding HasJobs
kept_event jobs e rest true h hs = hs
kept_event jobs e rest false h hs = (h refl, hs)

HasJobs-keep :
    (job_ids : List String) (jobs : List JobRow) (events : List JobEvent)
    → HasJobs jobs events
    → HasJobs
        (keep (λ (j : JobRow). not (is_listed job_ids j.job_id)) jobs)
        (keep (λ (e : JobEvent). not (is_listed job_ids e.job_id)) events)
unfolding HasJobs
HasJobs-keep job_ids jobs [] h = tt
HasJobs-keep job_ids jobs (e ∷ events) h =
    kept_event (keep (λ (j : JobRow). not (is_listed job_ids j.job_id)) jobs) e
      (keep (λ (x : JobEvent). not (is_listed job_ids x.job_id)) events)
      (is_listed job_ids e.job_id) (λ s. job_exists-keep job_ids jobs e.job_id s h.0)
      (HasJobs-keep job_ids jobs events h.1)

delete_old_jobs-Stays : (job_ids : List String) → Within Stays (delete_old_jobs job_ids)
unfolding delete_old_jobs delete_jobs Stays
delete_old_jobs-Stays [] = Within-pure Stays Stays-Preorder _
delete_old_jobs-Stays (i ∷ job_ids) =
    Within-bind Stays Stays-Preorder _ _ (Within-query Stays Stays-Preorder _) (λ counts.
      Within-bind Stays Stays-Preorder _ _
        (Within-change Stays Stays-Preorder _
          (λ s. HasJobs-keep (i ∷ job_ids) s.board.jobs s.board.events))
        (λ u. Within-pure Stays Stays-Preorder counts))

prune_jobs-Stays : (now : ℕ) (days : Option ℕ) → Within Stays (prune_jobs now days)
unfolding prune_jobs
prune_jobs-Stays now none = Within-pure Stays Stays-Preorder _
prune_jobs-Stays now (some days) =
    Within-bind Stays Stays-Preorder _ _ (Within-query Stays Stays-Preorder _) (λ cutoff.
      Within-bind Stays Stays-Preorder _ _ (Within-query Stays Stays-Preorder _)
        (λ job_ids. delete_old_jobs-Stays job_ids))

prune_audit-Stays : (now : ℕ) (days : Option ℕ) → Within Stays (prune_audit now days)
unfolding prune_audit delete_entries Stays
prune_audit-Stays now none = Within-pure Stays Stays-Preorder _
prune_audit-Stays now (some days) =
    Within-bind Stays Stays-Preorder _ _ (Within-query Stays Stays-Preorder _) (λ cutoff.
      Within-bind Stays Stays-Preorder _ _ (Within-query Stays Stays-Preorder _) (λ count.
        Within-bind Stays Stays-Preorder _ _ (Within-change Stays Stays-Preorder _ (λ s h. h))
          (λ u. Within-pure Stays Stays-Preorder count)))

prune_notifications-Stays :
    (now : ℕ) (days : Option ℕ) → Within Stays (prune_notifications now days)
unfolding prune_notifications delete_notifications Stays
prune_notifications-Stays now none = Within-pure Stays Stays-Preorder _
prune_notifications-Stays now (some days) =
    Within-bind Stays Stays-Preorder _ _ (Within-query Stays Stays-Preorder _) (λ cutoff.
      Within-bind Stays Stays-Preorder _ _ (Within-query Stays Stays-Preorder _) (λ count.
        Within-bind Stays Stays-Preorder _ _ (Within-change Stays Stays-Preorder _ (λ s h. h))
          (λ u. Within-pure Stays Stays-Preorder count)))

-- If every event has its job, then so it is after the retention has run, also where it raises halfway.
pub prune_database_records-HasJobs :
    (now : ℕ) (jobs_days audit_days graph_notifications_days : Option ℕ) (s : Records)
    → HasJobs s.board.jobs s.board.events
    → HasJobs
        (prune_database_records now jobs_days audit_days graph_notifications_days s).1.board.jobs
        (prune_database_records now jobs_days audit_days graph_notifications_days s).1.board.events
unfolding prune_database_records Stays
prune_database_records-HasJobs now jobs_days audit_days graph_notifications_days s h =
    (Within-bind Stays Stays-Preorder _ _ (prune_jobs-Stays now jobs_days) (λ counts.
        Within-bind Stays Stays-Preorder _ _ (prune_audit-Stays now audit_days) (λ audit.
          Within-bind Stays Stays-Preorder _ _
            (prune_notifications-Stays now graph_notifications_days)
            (λ n. Within-pure Stays Stays-Preorder _)))).run
      s h
