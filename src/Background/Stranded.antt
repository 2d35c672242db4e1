-- ===== src/Background/Stranded.antt =====
-- A task whose cancellation was requested while it ran, and whose handler then ends in an error that
-- puts it back in its queue (finish and claim of background/runtime.go).
use videocms.Base.{
  ℕ, ◌<◌, ◌≡◌, refl, sym, ap, subst, ◌∙◌, ◌⊎◌, inl, inr, true, false, some, String, List, [], ◌∷◌,
  arith, ◌==◌, ==_iff, is_some, All, All-update_where, count_where, Bool-cases,
}
use videocms.Background.Types.{Job, Task, TaskStatus, Attempt, Result, held_status, waiting_status}
use videocms.Background.Text.{Library}
use videocms.Background.Errors.{ErrorClass, TaskError}
use videocms.Background.Database.{
  Db, ok, find_task, has_id, tasks_of, update_jobs, update_tasks, update_attempts, add_event,
}
use videocms.Background.Reduce.{reduce_job, recompute_job}
use videocms.Background.Claim.{is_eligible, is_dispatchable}
use videocms.Background.Finish.{
  finish, finish_current, finish_failed, failed_edit, finish_event, failure_verdict, class_verdict,
  transient_verdict, effective_error,
}
use videocms.Background.Consistent.{recompute_job-ok, reduce_job-id}
use videocms.Background.Fence.{reduce_job-cancel}
use videocms.Background.Endings.{finish_failed-first, current-first, refound, finish-held}

-- Every job of the identifier has its cancellation requested.
abbrev pub IsCanceling : ℕ → List Job → Type 0
IsCanceling id jobs = All (λ job. job.id ≡ id → is_some job.cancel_requested_at ≡ true) jobs

is_dispatchable-IsCanceling :
    (id : ℕ) (jobs : List Job) → IsCanceling id jobs → is_dispatchable jobs id ≡ false
unfolding is_dispatchable count_where
is_dispatchable-IsCanceling id [] h = refl
is_dispatchable-IsCanceling id (job ∷ jobs) h = elim (Bool-cases (job.id == id)) [
  | inl same ↦
      ground (arith, h.0 ((==_iff job.id id).0 same), is_dispatchable-IsCanceling id jobs h.1)
  | inr other ↦ ground (arith, is_dispatchable-IsCanceling id jobs h.1)
]

-- The errors after which a task waits again.
abbrev pub Requeues : TaskError → Task → Type 0
Requeues e task =
    (e.class ≡ ErrorClass.interrupted)
    ⊎ (e.class ≡ ErrorClass.deferred)
    ⊎ ((e.class ≡ ErrorClass.transient) × (task.attempt_count < task.max_attempts))

requeued-waiting :
    (lib : Library) (now number : ℕ) (e : TaskError) (task : Task)
    → Requeues e task
    → let after = (failure_verdict lib now number e task).task in
      (waiting_status after.status ≡ true) × (after.job_id ≡ task.job_id)
unfolding failure_verdict class_verdict transient_verdict waiting_status
requeued-waiting lib now number e task h = (ground arith, ground arith)

requeued-effective :
    (e : TaskError) (task : Task) → Requeues e task → effective_error task (some e) ≡ some e
unfolding effective_error
requeued-effective e task h = ground arith

recompute_job-IsCanceling :
    (lib : Library) (now id : ℕ) (db : Db) {db' : Db}
    → IsCanceling id db.jobs
    → recompute_job lib now id db ≡ ok db'
    → IsCanceling id db'.jobs
unfolding update_jobs
recompute_job-IsCanceling lib now id db h e =
    subst (λ (d : Db). IsCanceling id d.jobs) (recompute_job-ok lib now id db e)
      (All-update_where {P = λ j. j.id ≡ id → is_some j.cancel_requested_at ≡ true}
        {Q = λ j. j.id ≡ id → is_some j.cancel_requested_at ≡ true} (has_id id)
        (reduce_job lib now (tasks_of id db.tasks)) hit (λ j p miss. p) db.jobs h)
  where
    hit :
        (j : Job)
        → (j.id ≡ id → is_some j.cancel_requested_at ≡ true)
        → has_id id j ≡ true
        → let j' = reduce_job lib now (tasks_of id db.tasks) j in
          j'.id ≡ id → is_some j'.cancel_requested_at ≡ true
    hit j p same e' =
        ap is_some (reduce_job-cancel lib now (tasks_of id db.tasks) j)
        ∙ p (sym (reduce_job-id lib now (tasks_of id db.tasks) j) ∙ e')

module _ (lib : Library) (now : ℕ) (uuid : ℕ → ℕ) (task_id : ℕ) (attempt : Attempt)
    (result : Result) (db : Db) {current : Task} (found : find_task task_id db ≡ ok current) where
  -- If the cancellation of a job was requested while a task of it ran, and the handler ends in an
  -- interruption, a deferral, or a transient error with attempts left, then finish makes the task
  -- wait again, and no queue at any time has it eligible: it is neither run nor ended.
  pub finish-strands :
      (e : TaskError) {db' : Db}
      → current.status ≡ TaskStatus.cancel_requested
      → IsCanceling current.job_id db.jobs
      → Requeues e current
      → finish lib now uuid task_id attempt result (some e) db ≡ ok db'
      → (after : Task) × (find_task task_id db' ≡ ok after)
        × (waiting_status after.status ≡ true)
        × ((queue : String) (at : ℕ) → is_eligible queue at db' after ≡ false)
  unfolding finish_current
  finish-strands e {db'} stopping canceling again ended =
      let failed : finish_failed lib now current attempt e db ≡ ok db' =
        rw (requeued-effective e current again) at
          (finish-held lib now uuid task_id attempt result db found (some e) held ended) in
      let (waits, same_job) = requeued-waiting lib now attempt.number e current again in
      let off = is_dispatchable-IsCanceling current.job_id db'.jobs (still failed) in
      (
        _,
        refound lib now uuid task_id attempt result db found db' _ (
            finish_failed-first lib now current attempt e db {db' = db'}
              (current-first lib now uuid task_id attempt result db found) failed),
        waits,
        λ queue at. never _ same_job off queue at,
      )
    where
      held : held_status current.status ≡ true
      held = unfold held_status in ground arith

      still :
          finish_failed lib now current attempt e db ≡ ok db' → IsCanceling current.job_id db'.jobs
      still failed =
          unfold finish_failed failed_edit finish_event add_event update_tasks update_attempts in
          recompute_job-IsCanceling lib now current.job_id
            (failed_edit lib now current attempt e db) {db' = db'} canceling failed

      never :
          (after : Task)
          → after.job_id ≡ current.job_id
          → is_dispatchable db'.jobs current.job_id ≡ false
          → (queue : String) (at : ℕ) → is_eligible queue at db' after ≡ false
      never after same off queue at =
          let off' = subst (λ (k : ℕ). is_dispatchable db'.jobs k ≡ false) (sym same) off in
          closed after queue at off'
        where
          closed :
              (after : Task) (queue : String) (at : ℕ)
              → is_dispatchable db'.jobs after.job_id ≡ false
              → is_eligible queue at db' after ≡ false
          closed after queue at h = unfold is_eligible in ground (arith, h)
