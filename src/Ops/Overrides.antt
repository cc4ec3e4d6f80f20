-- ===== src/Ops/Overrides.antt =====
-- The end of a run sets the status of its job whatever it is by then: `execute_scenario_job` of
-- ops/runner_bridge.py.
use fox_runner_server.Prelude.{
  ℕ, String, ℤ, ◌≡◌, refl, ap, ◌∙◌, Option, none, some, Bool, true, List, [], ◌∷◌, eq_refl, arith,
  if◌then◌else◌,
}
use fox_runner_server.Backend.Exec.{Reply, done, http, Action, ◌>>=◌, ◌>>◌, and_then, pure, query}
use fox_runner_server.Ops.Board.{
  Status, JobRow, JobEvent, Board, find_job, job_exists, set_jobs, add_event,
}
use fox_runner_server.Ops.Jobs.{refreshed, append_job_event, plain_event}
use fox_runner_server.Ops.Worker.{save_job, outcome, as_finished, begin_finish, finish_job}
use fox_runner_server.Ops.Rows.{changed, find_job-change_job, save_job-append_job_event, moved_row}

-- the stored status of a job
abbrev pub status_of : Board → String → Option Status
status_of b job_id = elim (find_job b.jobs job_id) [ none ↦ none | some j ↦ some j.status ]

job_exists-found :
    (jobs : List JobRow) (job_id : String) (j : JobRow)
    → find_job jobs job_id ≡ some j
    → job_exists jobs job_id ≡ true
unfolding find_job job_exists
job_exists-found [] job_id j h = cc
job_exists-found (x ∷ jobs) job_id j h = ground (arith, job_exists-found jobs job_id j)

-- the row after the change
status_of-moved_row :
    (job_id : String) (f : JobRow → JobRow) (e : JobEvent) (b : Board) (j : JobRow)
    → ((i : JobRow) → (f i).job_id ≡ i.job_id)
    → find_job b.jobs job_id ≡ some j
    → status_of (moved_row job_id f e b) job_id ≡ some (f j).status
unfolding moved_row add_event set_jobs
status_of-moved_row job_id f e b j h q =
    ap (λ (o : Option JobRow). elim o [ none ↦ none | some i ↦ some i.status ])
      (find_job-change_job job_id f b.jobs job_id h
        ∙ ap
            (λ (t : Bool). if t then changed f (find_job b.jobs job_id) else find_job b.jobs job_id)
            (eq_refl job_id)
        ∙ ap (changed f) q)

refreshed_then :
    {A : Type 0} (k : JobRow → Action Board A) (job_id : String) (b : Board) (j : JobRow)
    → find_job b.jobs job_id ≡ some j
    → (query (refreshed job_id) >>= k) b ≡ k j b
unfolding refreshed query ◌>>=◌
refreshed_then k job_id b j q =
    ap
      (λ (o : Option JobRow).
        and_then
          (elim o as (λ x. Reply JobRow) [ none ↦ http 500 "DoesNotExist" | some i ↦ done i ]) k b)
      q

handed_over :
    (r : Reply (Unit {0})) (e : JobEvent) (b : Board)
    → and_then
        (and_then r (λ (x : Unit {0}). pure e) b).0
        append_job_event
        (and_then r (λ (x : Unit {0}). pure e) b).1
      ≡ and_then r (λ (x : Unit {0}). append_job_event e) b
unfolding pure
handed_over (done u) e b = refl
handed_over (http code message) e b = refl

-- the event that an action gives is appended right away
appended_next :
    (f : Action Board (Unit {0})) (e : JobEvent) (b : Board)
    → ((f >> pure e) >>= append_job_event) b ≡ (f >> append_job_event e) b
unfolding ◌>>◌ ◌>>=◌ pure
appended_next f e b = handed_over (f b).0 e (f b).1

-- a change of the row that is saved and told sets the status
saved_status :
    (job_id : String) (f : JobRow → JobRow) (e : JobEvent) (b : Board) (j : JobRow)
    → e.job_id ≡ job_id
    → ((i : JobRow) → (f i).job_id ≡ i.job_id)
    → find_job b.jobs job_id ≡ some j
    → status_of ((save_job job_id f >> append_job_event e) b).1 job_id ≡ some (f j).status
saved_status job_id f e b j i h q =
    ap (λ (c : Board). status_of c job_id)
      (save_job-append_job_event job_id f e b i h
        ∙ ap (λ (t : Bool). if t then moved_row job_id f e b else b)
            (job_exists-found b.jobs job_id j q))
    ∙ status_of-moved_row job_id f e b j h q

ended_status :
    (g : Action Board JobEvent) (job_id : String) (f : JobRow → JobRow) (e : JobEvent) (b : Board)
    (j : JobRow)
    → e.job_id ≡ job_id
    → ((i : JobRow) → (f i).job_id ≡ i.job_id)
    → find_job b.jobs job_id ≡ some j
    → g b ≡ (save_job job_id f >> pure e) b
    → status_of ((g >>= append_job_event) b).1 job_id ≡ some (f j).status
unfolding ◌>>=◌
ended_status g job_id f e b j i h q same =
    ap (λ (r : Reply JobEvent × Board). status_of (and_then r.0 append_job_event r.1).1 job_id) same
    ∙ ap (λ (r : Reply (Unit {0}) × Board). status_of r.1 job_id)
        (appended_next (save_job job_id f) e b)
    ∙ saved_status job_id f e b j i h q

-- The end of a run sets the status of its job, if the job is there, to the one of the exit code,
-- whatever the status was: so a job that was cancelled meanwhile becomes a success or a failure.
pub finish_job-overrides :
    (b : Board)
    → (job_id : String) → (j : JobRow) → (exit_code : ℤ) → (scenario_id : String) → (dry_run : Bool)
    → (now : ℕ) → find_job b.jobs job_id ≡ some j
    → status_of (finish_job job_id exit_code scenario_id dry_run now b).1 job_id
      ≡ some (outcome exit_code)
unfolding finish_job begin_finish as_finished plain_event
finish_job-overrides b job_id j exit_code scenario_id dry_run now q =
    ended_status _ job_id _ _ b j refl (λ i. refl) q (refreshed_then _ job_id b j q)
