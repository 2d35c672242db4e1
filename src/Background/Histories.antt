-- ===== src/Background/Histories.antt =====
-- Sequences of transactions of background/runtime.go, in any order, each on the tables that the one
-- before left. A transaction that fails changes nothing, so a step is one that succeeds.
use videocms.Base.{ℕ, ◌≡◌, refl, sym, subst, String, arith}
use videocms.Background.Types.{Task, Attempt}
use videocms.Background.Text.{Library}
use videocms.Background.Errors.{TaskError}
use videocms.Background.Database.{
  Db, ok, ok->>=, find_task, update_tasks, update_jobs, update_attempts, add_event,
}
use videocms.Background.Reduce.{recompute_job}
use videocms.Background.Control.{
  pause_tx, pause_edit, resume_job, resume_edit, run_job_now, run_now_edit, release, cancel_tx,
  cancel_edit, cancel_tasks, cancel_waiting, request_task_cancel, job_event,
}
use videocms.Background.TaskControl.{
  retry_job, retry_job_edit, requeue, cancel_task_tx, cancel_task_edit, stop_task, retry_task,
  retry_task_edit, task_event,
}
use videocms.Background.Commit.{commit_tx, commit_edit}
use videocms.Background.Finish.{
  finish_failed, failed_edit, failure_verdict, class_verdict, transient_verdict, finish_event,
}
use videocms.Background.Consistent.{IsConsistent}
use videocms.Background.Local.{local_recompute-IsConsistent}
use videocms.Background.Operations.{
  pause_tx-ok, resume_job-ok, run_job_now-ok, cancel_tx-ok, retry_job-ok, pause_tx-IsConsistent,
  resume_job-IsConsistent, run_job_now-IsConsistent, cancel_tx-IsConsistent, retry_job-IsConsistent,
}
use videocms.Background.Lookup.{IsKeyed, recompute_job-tasks}
use videocms.Background.TaskEdits.{
  IsKeyed-update_where, cancel_task_edit-IsLocal, retry_task_edit-IsLocal, commit_edit-IsLocal,
  failed_edit-IsLocal,
}

-- The controls of jobs and tasks, the start of a commit, and the end of a task that failed.
pub data Step (lib : Library) : Db → Db → Type 0 where
  pauses :
      {db db' : Db} (now id actor : ℕ) (name : String)
      → pause_tx lib now id actor name db ≡ ok db'
      → Step lib db db'
  resumes :
      {db db' : Db} (now id actor : ℕ) (name : String)
      → resume_job lib now id actor name db ≡ ok db'
      → Step lib db db'
  runs_now :
      {db db' : Db} (now id actor : ℕ) (name : String)
      → run_job_now lib now id actor name db ≡ ok db'
      → Step lib db db'
  cancels :
      {db db' : Db} (now id actor : ℕ) (name : String)
      → cancel_tx lib now id actor name db ≡ ok db'
      → Step lib db db'
  retries :
      {db db' : Db} (now id actor : ℕ) (name : String)
      → retry_job lib now id actor name db ≡ ok db'
      → Step lib db db'
  cancels_task :
      {db db' : Db} (now id actor : ℕ) (name : String)
      → cancel_task_tx lib now id actor name db ≡ ok db'
      → Step lib db db'
  retries_task :
      {db db' : Db} (now id actor : ℕ) (name : String)
      → retry_task lib now id actor name db ≡ ok db'
      → Step lib db db'
  commits :
      {db db' : Db} (now id : ℕ) (phase : String)
      → commit_tx lib now id phase db ≡ ok db'
      → Step lib db db'
  fails :
      {db db' : Db} (now id : ℕ) (current : Task) (attempt : Attempt) (e : TaskError)
      → find_task id db ≡ ok current
      → finish_failed lib now current attempt e db ≡ ok db'
      → Step lib db db'

pub data History (lib : Library) (db : Db) : Db → Type 0 where
  none_yet : History lib db db
  then : {mid db' : Db} → History lib db mid → Step lib mid db' → History lib db db'

-- The statuses are reduced from the tasks, and a task's identifier is its key.
pub record IsSound (db : Db) : Type 0 where
  pub consistent : IsConsistent db
  pub keyed : IsKeyed db.tasks

module _ (lib : Library) (now id : ℕ) (mid : Db) {db' : Db} where
  IsKeyed-recompute_job :
      recompute_job lib now id mid ≡ ok db' → IsKeyed mid.tasks → IsKeyed db'.tasks
  IsKeyed-recompute_job e h = subst IsKeyed (sym (recompute_job-tasks lib now id mid e)) h

module _ (lib : Library) (now id actor : ℕ) (name : String) (db : Db) {db' : Db} where
  cancel_task_tx-ok :
      cancel_task_tx lib now id actor name db ≡ ok db'
      → (task : Task) × (find_task id db ≡ ok task)
        × (recompute_job lib now task.job_id (cancel_task_edit lib now task actor name db) ≡ ok db')
  unfolding cancel_task_tx
  cancel_task_tx-ok e =
      let (task, found, rest) = ok->>= (find_task id db) _ e in (task, found, ground arith)

  retry_task-ok :
      retry_task lib now id actor name db ≡ ok db'
      → (task : Task) × (find_task id db ≡ ok task)
        × (recompute_job lib now task.job_id (retry_task_edit lib task actor name db) ≡ ok db')
  unfolding retry_task
  retry_task-ok e =
      let (task, found, rest) = ok->>= (find_task id db) _ e in (task, found, ground arith)

commit_tx-found :
    (lib : Library) (now id : ℕ) (phase : String) (db : Db) {db' : Db}
    → commit_tx lib now id phase db ≡ ok db'
    → (task : Task) × (find_task id db ≡ ok task)
      × (recompute_job lib now task.job_id (commit_edit lib now id phase db) ≡ ok db')
unfolding commit_tx
commit_tx-found lib now id phase db e =
    let (task, found, rest) = ok->>= (find_task id db) _ e in (task, found, ground arith)

-- One step from sound tables leaves the identifiers unique.
Step-IsKeyed :
    {lib : Library} {db db' : Db} → Step lib db db' → IsKeyed db.tasks → IsKeyed db'.tasks
unfolding pause_edit resume_edit run_now_edit cancel_edit cancel_tasks retry_job_edit
    cancel_task_edit retry_task_edit commit_edit failed_edit finish_failed job_event task_event
    finish_event add_event update_jobs update_tasks update_attempts
Step-IsKeyed {lib} {db} (pauses now id actor name e) k =
    IsKeyed-recompute_job lib now id _ (pause_tx-ok lib now id actor name db e) k
Step-IsKeyed {lib} {db} (resumes now id actor name e) k =
    IsKeyed-recompute_job lib now id _ (resume_job-ok lib now id actor name db e) k
Step-IsKeyed {lib} {db} (runs_now now id actor name e) k =
    IsKeyed-recompute_job lib now id _ (run_job_now-ok lib now id actor name db e)
      (IsKeyed-update_where _ release (λ t. refl) db.tasks k)
Step-IsKeyed {lib} {db} (cancels now id actor name e) k =
    IsKeyed-recompute_job lib now id _ (cancel_tx-ok lib now id actor name db e) (
      IsKeyed-update_where _ (request_task_cancel now) (λ t. refl) _
        (IsKeyed-update_where _ (cancel_waiting now) (λ t. refl) db.tasks k))
Step-IsKeyed {lib} {db} (retries now id actor name e) k =
    IsKeyed-recompute_job lib now id _ (retry_job-ok lib now id actor name db e)
      (IsKeyed-update_where _ requeue (λ t. unfold requeue in refl) db.tasks k)
Step-IsKeyed {lib} {db} (cancels_task now id actor name e) k =
    let (task, _, done) = cancel_task_tx-ok lib now id actor name db e in
    IsKeyed-recompute_job lib now task.job_id _ done
      (IsKeyed-update_where _ (stop_task now) (λ t. unfold stop_task in ground arith) db.tasks k)
Step-IsKeyed {lib} {db} (retries_task now id actor name e) k =
    let (task, _, done) = retry_task-ok lib now id actor name db e in
    IsKeyed-recompute_job lib now task.job_id _ done
      (IsKeyed-update_where _ requeue (λ t. unfold requeue in refl) db.tasks k)
Step-IsKeyed {lib} {db} (commits now id phase e) k =
    let (task, _, done) = commit_tx-found lib now id phase db e in
    IsKeyed-recompute_job lib now task.job_id _ done
      (IsKeyed-update_where _ _ (λ t. refl) db.tasks k)
Step-IsKeyed {lib} {db} (fails now id current attempt e found done) k =
    IsKeyed-recompute_job lib now current.job_id _ done (
      IsKeyed-update_where _ (λ t. (failure_verdict lib now attempt.number e t).task)
        (λ t. unfold failure_verdict class_verdict transient_verdict in ground arith) db.tasks k)

-- One step from sound tables leaves each job in the status that its tasks reduce to.
Step-IsConsistent : {lib : Library} {db db' : Db} → Step lib db db' → IsSound db → IsConsistent db'
unfolding finish_failed
Step-IsConsistent {lib} {db} (pauses now id actor name e) h =
    pause_tx-IsConsistent lib now id actor name db h.consistent e
Step-IsConsistent {lib} {db} (resumes now id actor name e) h =
    resume_job-IsConsistent lib now id actor name db h.consistent e
Step-IsConsistent {lib} {db} (runs_now now id actor name e) h =
    run_job_now-IsConsistent lib now id actor name db h.consistent e
Step-IsConsistent {lib} {db} (cancels now id actor name e) h =
    cancel_tx-IsConsistent lib now id actor name db h.consistent e
Step-IsConsistent {lib} {db} (retries now id actor name e) h =
    retry_job-IsConsistent lib now id actor name db h.consistent e
Step-IsConsistent {lib} {db} (cancels_task now id actor name e) h =
    let (task, found, done) = cancel_task_tx-ok lib now id actor name db e in
    local_recompute-IsConsistent lib now task.job_id db _ h.consistent
      (cancel_task_edit-IsLocal db id h.keyed found lib now actor name) done
Step-IsConsistent {lib} {db} (retries_task now id actor name e) h =
    let (task, found, done) = retry_task-ok lib now id actor name db e in
    local_recompute-IsConsistent lib now task.job_id db _ h.consistent
      (retry_task_edit-IsLocal db id h.keyed found lib now actor name) done
Step-IsConsistent {lib} {db} (commits now id phase e) h =
    let (task, found, done) = commit_tx-found lib now id phase db e in
    local_recompute-IsConsistent lib now task.job_id db _ h.consistent
      (commit_edit-IsLocal db id h.keyed found lib now phase) done
Step-IsConsistent {lib} {db} (fails now id current attempt e found done) h =
    local_recompute-IsConsistent lib now current.job_id db _ h.consistent
      (failed_edit-IsLocal db id h.keyed found lib now attempt e) done

-- Whatever sequence of controls, commits and failures the tables go through, each job keeps the
-- status that its tasks and its two requests reduce to, and task identifiers stay unique, if it was
-- so at the start.
pub History-IsSound : {lib : Library} {db db' : Db} → History lib db db' → IsSound db → IsSound db'
History-IsSound none_yet h = h
History-IsSound (then before step) h =
    let h' = History-IsSound before h in
    record { consistent = Step-IsConsistent step h'; keyed = Step-IsKeyed step h'.keyed }
