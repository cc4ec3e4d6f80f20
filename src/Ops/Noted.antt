-- ===== src/Ops/Noted.antt =====
-- The status of every job is told by an event of it that is stored, or that the process which saved
-- the row is about to append: what changes of the tables of ops/models.py keep that.
use fox_runner_server.Prelude.{
  ℕ, zero, suc, String, ◌≡◌, refl, sym, ap, ◌∙◌, Option, none, some, Bool, true, false, ◌&&◌, ◌||◌,
  List, [], ◌∷◌, ◌++◌, any, str_eq, eq_iff, arith, if◌then◌else◌,
}
use fox_runner_server.Ops.Board.{Status, status_name, JobRow, JobEvent, find_job, change_job}
use fox_runner_server.Ops.Turns.{System, nth, without}
use fox_runner_server.Ops.Rows.{changed, find_job-change_job, first_of, find_job-append}

-- the event is one of the job, and its type is the status
unfoldable pub says : String → Status → JobEvent → Bool
says job_id status e = str_eq e.job_id job_id && str_eq e.event_type (status_name status)

-- such an event is stored, or about to be
unfoldable pub noted : System → (JobEvent → Bool) → Bool
noted s test = any test s.board.events || any test s.pending

abbrev pub HasEvents : System → Type 0
HasEvents s =
    (job_id : String) (j : JobRow)
    → find_job s.board.jobs job_id ≡ some j
    → noted s (says job_id j.status) ≡ true

-- no event of a job gets lost
abbrev pub Grows : System → System → Type 0
Grows s t =
    (job_id : String) (status : Status) (j : JobRow)
    → find_job s.board.jobs job_id ≡ some j
    → noted s (says job_id status) ≡ true
    → noted t (says job_id status) ≡ true

pub any-append :
    (test : JobEvent → Bool) (xs ys : List JobEvent)
    → any test (xs ++ ys) ≡ any test xs || any test ys
any-append test [] ys = refl
any-append test (x ∷ xs) ys = ground (arith, any-append test xs ys)

pub any-without :
    (test : JobEvent → Bool) (n : ℕ) (xs : List JobEvent) (e : JobEvent)
    → nth n xs ≡ some e
    → any test xs ≡ test e || any test (without n xs)
unfolding nth without
any-without test n [] e h = cc
any-without test zero (x ∷ xs) e h = ground (arith, h)
any-without test (suc n) (x ∷ xs) e h = ground (arith, any-without test n xs e h)

pub same_jobs : (s t : System) → t.board.jobs ≡ s.board.jobs → Grows s t → HasEvents s → HasEvents t
same_jobs s t same g h job_id j q =
    let q' = sym (ap (λ (jobs : List JobRow). find_job jobs job_id) same) ∙ q in
    g job_id j.status j q' (h job_id j q')

-- a row gets a status that an event tells
moved_job :
    (k : String) (test : Bool) (f : JobRow → JobRow) (o : Option JobRow) (n : Status → Bool)
    (status : Status) (j : JobRow)
    → ((i : JobRow) → (f i).status ≡ status)
    → (test ≡ true → n status ≡ true)
    → ((i : JobRow) → o ≡ some i → n i.status ≡ true)
    → (if test then changed f o else o) ≡ some j
    → n j.status ≡ true
moved_job k true f none n status j h a g e = cc
moved_job k true f (some i) n status j h a g e = ground (arith, h i, e, a refl)
moved_job k false f o n status j h a g e = g j e

pub moved_row-HasEvents :
    (job_id : String) (f : JobRow → JobRow) (status : Status) (s t : System)
    → ((i : JobRow) → (f i).job_id ≡ i.job_id)
    → ((i : JobRow) → (f i).status ≡ status)
    → t.board.jobs ≡ change_job job_id f s.board.jobs
    → Grows s t
    → noted t (says job_id status) ≡ true
    → HasEvents s
    → HasEvents t
moved_row-HasEvents job_id f status s t i n moved g told h k j q =
    moved_job k (str_eq job_id k) f (find_job s.board.jobs k) (λ x. noted t (says k x)) status j n
      (λ same. ap (λ (x : String). noted t (says x status)) (sym ((eq_iff job_id k).0 same)) ∙ told)
      (λ x found. g k x.status x found (h k x found))
      (sym (find_job-change_job job_id f s.board.jobs k i)
        ∙ sym (ap (λ (jobs : List JobRow). find_job jobs k) moved)
        ∙ q)

same_status :
    (test : Bool) (f : JobRow → JobRow) (o : Option JobRow) (n : Status → Bool) (j : JobRow)
    → ((i : JobRow) → (f i).status ≡ i.status)
    → ((i : JobRow) → o ≡ some i → n i.status ≡ true)
    → (if test then changed f o else o) ≡ some j
    → n j.status ≡ true
same_status true f none n j h g e = cc
same_status true f (some i) n j h g e = ground (arith, h i, e, g i refl)
same_status false f o n j h g e = g j e

-- a change of a row that leaves its status
pub unchanged_status :
    (job_id : String) (f : JobRow → JobRow) (s t : System)
    → ((i : JobRow) → (f i).job_id ≡ i.job_id)
    → ((i : JobRow) → (f i).status ≡ i.status)
    → t.board.jobs ≡ change_job job_id f s.board.jobs
    → Grows s t
    → HasEvents s
    → HasEvents t
unchanged_status job_id f s t i n moved g h k j q =
    same_status (str_eq job_id k) f (find_job s.board.jobs k) (λ x. noted t (says k x)) j n
      (λ x found. g k x.status x found (h k x found))
      (sym (find_job-change_job job_id f s.board.jobs k i)
        ∙ sym (ap (λ (jobs : List JobRow). find_job jobs k) moved)
        ∙ q)

new_or_old :
    (test : Bool) (job : JobRow) (o : Option JobRow) (n : Status → Bool) (j : JobRow)
    → (test ≡ true → n job.status ≡ true)
    → ((i : JobRow) → o ≡ some i → n i.status ≡ true)
    → first_of o (if test then some job else none) ≡ some j
    → n j.status ≡ true
new_or_old true job none n j a g e = ground (arith, a refl, e)
new_or_old true job (some i) n j a g e = ground (arith, g i refl, e)
new_or_old false job none n j a g e = cc
new_or_old false job (some i) n j a g e = ground (arith, g i refl, e)

-- a new row
pub created-HasEvents :
    (job : JobRow) (s t : System)
    → t.board.jobs ≡ s.board.jobs ++ job ∷ []
    → Grows s t
    → noted t (says job.job_id job.status) ≡ true
    → HasEvents s
    → HasEvents t
created-HasEvents job s t added g told h k j q =
    new_or_old (str_eq job.job_id k) job (find_job s.board.jobs k) (λ x. noted t (says k x)) j
      (λ same.
        ap (λ (x : String). noted t (says x job.status)) (sym ((eq_iff job.job_id k).0 same))
        ∙ told)
      (λ x found. g k x.status x found (h k x found))
      (sym (find_job-append s.board.jobs job k)
        ∙ sym (ap (λ (jobs : List JobRow). find_job jobs k) added)
        ∙ q)
