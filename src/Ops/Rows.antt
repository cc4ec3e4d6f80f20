-- ===== src/Ops/Rows.antt =====
-- What the changes of a row and of the events do to the tables of ops/models.py.
use fox_runner_server.Prelude.{
  String, ◌≡◌, refl, ap, ◌∙◌, Option, none, some, Bool, true, false, List, [], ◌∷◌, ◌++◌, str_eq,
  eq_iff, arith, if◌then◌else◌,
}
use fox_runner_server.Backend.Exec.{
  Reply, done, http, ◌>>=◌, ◌>>◌, and_then, query, change, require,
}
use fox_runner_server.Ops.Board.{
  JobRow, JobEvent, Board, find_job, job_exists, change_job, set_jobs, add_event,
}
use fox_runner_server.Ops.Jobs.{append_job_event}
use fox_runner_server.Ops.Worker.{save_job}

abbrev pub changed : (JobRow → JobRow) → Option JobRow → Option JobRow
changed f none = none
changed f (some j) = some (f j)

pub find_job-change_job :
    (job_id : String) (f : JobRow → JobRow) (jobs : List JobRow) (k : String)
    → ((j : JobRow) → (f j).job_id ≡ j.job_id)
    → find_job (change_job job_id f jobs) k
      ≡ (if str_eq job_id k then changed f (find_job jobs k) else find_job jobs k)
unfolding find_job change_job
find_job-change_job job_id f [] k h = ground arith
find_job-change_job job_id f (x ∷ jobs) k h = ground (
  arith,
  find_job-change_job job_id f jobs k h,
  h x,
  eq_iff x.job_id job_id,
  eq_iff x.job_id k,
  eq_iff job_id k,
  eq_iff (f x).job_id k,
)

job_exists-change_job :
    (job_id : String) (f : JobRow → JobRow) (jobs : List JobRow) (k : String)
    → ((j : JobRow) → (f j).job_id ≡ j.job_id)
    → job_exists (change_job job_id f jobs) k ≡ job_exists jobs k
unfolding job_exists change_job
job_exists-change_job job_id f [] k h = refl
job_exists-change_job job_id f (x ∷ jobs) k h =
    ground (arith, job_exists-change_job job_id f jobs k h, ap (λ (i : String). str_eq i k) (h x))

-- the row is changed and the event says so
unfoldable pub moved_row : String → (JobRow → JobRow) → JobEvent → Board → Board
moved_row job_id f e b = add_event e (set_jobs (change_job job_id f b.jobs) b)

abbrev pub Ended : Type 0
Ended = Reply (Unit {0}) × Board

abbrev pub pick : Bool → Ended → Ended → Ended
pick t x y = if t then x else y

pub save_job-does :
    (job_id : String) (f : JobRow → JobRow) (b : Board)
    → save_job job_id f b ≡ (
        if job_exists b.jobs job_id
        then (done tt, set_jobs (change_job job_id f b.jobs) b)
        else (http 500 "DatabaseError", b))
unfolding save_job ◌>>=◌ ◌>>◌ query require change
save_job-does job_id f b = ground arith

pub append_job_event-does :
    (e : JobEvent) (b : Board)
    → append_job_event e b ≡ (
        if job_exists b.jobs e.job_id
        then (done tt, add_event e b)
        else (http 500 "FOREIGN KEY constraint failed", b))
unfolding append_job_event ◌>>=◌ ◌>>◌ query require change
append_job_event-does e b = ground arith

appended :
    (e : JobEvent) (b : Board)
    → job_exists b.jobs e.job_id ≡ true
    → (append_job_event e b).1 ≡ add_event e b
appended e b h =
    ap (λ (r : Ended). r.1) (append_job_event-does e b)
    ∙ ap
        (λ (t : Bool).
          (pick t (done tt, add_event e b) (http 500 "FOREIGN KEY constraint failed", b)).1)
        h

saved_and_told :
    (t : Bool) (b c : Board) (e : JobEvent)
    → (t ≡ true → (append_job_event e c).1 ≡ add_event e c)
    → (and_then
        (pick t (done tt, c) (http 500 "DatabaseError", b)).0
        (λ (x : Unit {0}). append_job_event e)
        (pick t (done tt, c) (http 500 "DatabaseError", b)).1).1
      ≡ (if t then add_event e c else b)
saved_and_told true b c e h = h refl
saved_and_told false b c e h = refl

-- the row is saved and the event appended, if the job is there
pub save_job-append_job_event :
    (job_id : String)
    → (f : JobRow → JobRow) → (e : JobEvent) → (b : Board) → e.job_id ≡ job_id
    → ((j : JobRow) → (f j).job_id ≡ j.job_id)
    → ((save_job job_id f >> append_job_event e) b).1
      ≡ (if job_exists b.jobs job_id then moved_row job_id f e b else b)
unfolding moved_row ◌>>◌ ◌>>=◌ set_jobs change_job
save_job-append_job_event job_id f e b i h =
    ap (λ (r : Ended). (and_then r.0 (λ (x : Unit {0}). append_job_event e) r.1).1)
      (save_job-does job_id f b)
    ∙ saved_and_told (job_exists b.jobs job_id) b (set_jobs (change_job job_id f b.jobs) b) e (λ t.
      appended e (set_jobs (change_job job_id f b.jobs) b) (
        ap (job_exists (change_job job_id f b.jobs)) i
        ∙ job_exists-change_job job_id f b.jobs job_id h
        ∙ t))

abbrev pub first_of : Option JobRow → Option JobRow → Option JobRow
first_of none o = o
first_of (some j) o = some j

pub find_job-append :
    (jobs : List JobRow) (x : JobRow) (k : String)
    → find_job (jobs ++ x ∷ []) k
      ≡ first_of (find_job jobs k) (if str_eq x.job_id k then some x else none)
unfolding find_job
find_job-append [] x k = refl
find_job-append (y ∷ jobs) x k = ground (arith, find_job-append jobs x k)

pub find_job-absent :
    (jobs : List JobRow) (job_id k : String)
    → job_exists jobs job_id ≡ false
    → str_eq job_id k ≡ true
    → find_job jobs k ≡ none
unfolding find_job job_exists
find_job-absent [] job_id k h e = refl
find_job-absent (y ∷ jobs) job_id k h e = ground (
  arith,
  find_job-absent jobs job_id k,
  h,
  e,
  eq_iff job_id k,
  eq_iff y.job_id job_id,
  eq_iff y.job_id k,
)
