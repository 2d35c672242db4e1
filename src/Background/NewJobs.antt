-- ===== src/Background/NewJobs.antt =====
-- The status of a job that Enqueue of background/store.go has made, among the jobs that are there.
use videocms.Base.{
  ℕ, suc, ◌≤◌, ◌<◌, ◌≡◌, refl, sym, ap, ap₂, subst, ◌∙◌, inl, inr, ◌≢◌, Bool, true, false, none,
  String, List, [], ◌∷◌, ◌++◌, arith, All, All-map, All-append, select-append, select_none,
  select-All, append-nil,
}
use videocms.Background.Types.{Job, JobStatus, Task, JobSpec}
use videocms.Background.Text.{Library}
use videocms.Background.Database.{Db, ok, in_job, tasks_of}
use videocms.Background.Reduce.{
  Tally, no_tasks, count_task, count_status, tally_from, is_terminal, reduced_status,
}
use videocms.Background.Enqueue.{new_job, create_job, enqueue}
use videocms.Background.Consistent.{IsReduced, IsConsistent}
use videocms.Background.Intake.{IsNew, create_job-Gains, enqueue-cases}

-- A tally over new tasks counts them as queued, and nothing else.
tally_from-new :
    (n : Tally) (id : ℕ) (tasks : List Task)
    → All (IsNew id) tasks
    → let n' = tally_from n tasks in
      (n'.running ≡ n.running) × (n'.waiting ≡ n.waiting) × (n.queued ≤ n'.queued)
unfolding tally_from
tally_from-new n id [] h = (refl, refl, omega arith)
tally_from-new n id (task ∷ tasks) h =
    let (r, w, q) = tally_from-new (count_task n task) id tasks h.1 in
    let (r', w', q') = step in (r ∙ r', w ∙ w', omega arith)
  where
    step :
        ((count_task n task).running ≡ n.running)
        × ((count_task n task).waiting ≡ n.waiting)
        × ((count_task n task).queued ≡ suc n.queued)
    step = unfold count_task in rw (h.0.0, count_status) (refl, refl, refl)

new_tasks-status :
    (id : ℕ) (task : Task) (tasks : List Task)
    → All (IsNew id) (task ∷ tasks)
    → reduced_status none none (tally_from no_tasks (task ∷ tasks)) ≡ JobStatus.queued
unfolding tally_from
new_tasks-status id task tasks h =
    let (r, w, q) = tally_from-new (count_task no_tasks task) id tasks h.1 in
    status _ (r ∙ start.0) (w ∙ start.1) (omega (arith, start.2))
  where
    start :
        ((count_task no_tasks task).running ≡ 0)
        × ((count_task no_tasks task).waiting ≡ 0)
        × ((count_task no_tasks task).queued ≡ 1)
    start = unfold count_task no_tasks in rw (h.0.0, count_status) (refl, refl, refl)

    status :
        (n : Tally)
        → n.running ≡ 0
        → n.waiting ≡ 0
        → 0 < n.queued
        → reduced_status none none n ≡ JobStatus.queued
    status n r w q = unfold reduced_status is_terminal in ground arith

tasks_of-other :
    (id j : ℕ) (old new : List Task)
    → j ≢ id
    → All (IsNew id) new
    → tasks_of j (old ++ new) ≡ tasks_of j old
unfolding tasks_of in_job
tasks_of-other id j old new other h =
    select-append (in_job j) old new
    ∙ ap (λ ts. tasks_of j old ++ ts)
        (select_none (in_job j) new
          (All-map {P = IsNew id} {Q = λ t. in_job j t ≡ false} (λ t n. ground arith) new h))
    ∙ append-nil (tasks_of j old)

tasks_of-new :
    (id : ℕ) (old new : List Task)
    → All (λ t. t.job_id ≢ id) old
    → All (IsNew id) new
    → tasks_of id (old ++ new) ≡ new
unfolding tasks_of in_job
tasks_of-new id old new fresh h =
    select-append (in_job id) old new
    ∙ ap₂ (λ (xs ys : List Task). xs ++ ys)
        (select_none (in_job id) old (
          All-map {P = λ t. t.job_id ≢ id} {Q = λ t. in_job id t ≡ false} (λ t n. ground arith) old
            fresh))
        (select-All (in_job id) new
          (All-map {P = IsNew id} {Q = λ t. in_job id t ≡ true} (λ t n. ground arith) new h))

-- The identifier is one that no job and no task's job has.
abbrev pub IsFresh : ℕ → Db → Type 0
IsFresh id db = All (λ (j : Job). j.id ≢ id) db.jobs × All (λ t. t.job_id ≢ id) db.tasks

-- New tasks of another job change nothing for the jobs that are there.
IsReduced-others :
    (id : ℕ) (old new : List Task) (jobs : List Job)
    → All (IsNew id) new
    → All (λ (j : Job). j.id ≢ id) jobs
    → All (λ job. IsReduced (tasks_of job.id old) job) jobs
    → All (λ job. IsReduced (tasks_of job.id (old ++ new)) job) jobs
IsReduced-others id old new [] hn fresh h = tt
IsReduced-others id old new (job ∷ jobs) hn fresh h = (
  subst (λ ts. IsReduced ts job) (sym (tasks_of-other id job.id old new fresh.0 hn)) h.0,
  IsReduced-others id old new jobs hn fresh.1 h.1,
)

new_job-IsReduced :
    (lib : Library) (now id : ℕ) (spec : JobSpec) (key : String) (tasks : List Task)
    → All (IsNew id) tasks
    → IsReduced tasks (new_job lib now id spec key)
unfolding new_job
new_job-IsReduced lib now id spec key [] h = inl refl
new_job-IsReduced lib now id spec key (task ∷ tasks) h =
    inr (sym (new_tasks-status id task tasks h))

create_job-IsConsistent :
    (lib : Library) (now id : ℕ) (uuid : ℕ → ℕ) (spec : JobSpec) (key : String) (db : Db)
    {job : Job} {reused : Bool} {db' : Db}
    → IsFresh id db
    → IsConsistent db
    → create_job lib now id uuid spec key db ≡ ok (job, reused, db')
    → IsConsistent db'
create_job-IsConsistent lib now id uuid spec key db {db' = db'} fresh h e =
    let (new, t, hn, j) = create_job-Gains lib now id uuid spec key db e in
    let made = new_job lib now id spec key in
    rw (j, t)
      (All-append (λ (k : Job). IsReduced (tasks_of k.id (db.tasks ++ new)) k) db.jobs (made ∷ [])
        (IsReduced-others id db.tasks new db.jobs hn fresh.0 h)
        (
          subst (λ ts. IsReduced ts made) (sym (mine new hn))
              (new_job-IsReduced lib now id spec key new hn),
          tt,
        ))
  where
    mine :
        (new : List Task)
        → All (IsNew id) new
        → tasks_of (new_job lib now id spec key).id (db.tasks ++ new) ≡ new
    mine new hn = unfold new_job in tasks_of-new id db.tasks new fresh.1 hn

-- If each job has the status that its tasks and its two requests reduce to, and the new identifier
-- is one that no job has and no task belongs to, then this is so after Enqueue, which makes the job
-- and its tasks or finds the job of the idempotency key.
pub enqueue-IsConsistent :
    (lib : Library) (now id : ℕ) (uuid : ℕ → ℕ) (spec : JobSpec) (db : Db) {job : Job}
    {reused : Bool} {db' : Db}
    → IsFresh id db
    → IsConsistent db
    → enqueue lib now id uuid spec db ≡ ok (job, reused, db')
    → IsConsistent db'
enqueue-IsConsistent lib now id uuid spec db fresh h e =
    elim (enqueue-cases lib now id uuid spec db e).1 [
      | inl (_, _, same) ↦ rw same h
      | inr (_, made) ↦ create_job-IsConsistent lib now id uuid spec _ db fresh h made
    ]
