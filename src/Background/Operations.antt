-- ===== src/Background/Operations.antt =====
-- Every control of background/runtime.go keeps the tables consistent.
use videocms.Base.{ℕ, ◌≡◌, refl, Bool, true, ◌&&◌, String, arith, All-intro}
use videocms.Background.Types.{Task}
use videocms.Background.Text.{Library}
use videocms.Background.Database.{Db, ok, in_job, update_tasks}
use videocms.Background.Reduce.{recompute_job}
use videocms.Background.Control.{
  job_event, pause_tx, pause_edit, request_pause, resume_job, resume_edit, run_job_now,
  run_now_edit, is_postponed, cancel_tx, cancel_edit, cancel_tasks, end_pause, release,
  request_job_cancel, cancel_waiting, request_task_cancel,
}
use videocms.Background.TaskControl.{retry_job, retry_job_edit, requeue, reopen, is_retryable}
use videocms.Background.Consistent.{IsConsistent}
use videocms.Background.Local.{
  IsLocal, IsLocal-refl, IsLocal-update_jobs, IsLocal-update_tasks, IsLocal-add_event,
  local_recompute-IsConsistent,
}

module _ (lib : Library) (now job_id actor_id : ℕ) (actor_name : String) (db : Db) where
  -- What a transaction that succeeds has returned.
  pub pause_tx-ok :
      {db' : Db}
      → pause_tx lib now job_id actor_id actor_name db ≡ ok db'
      → recompute_job lib now job_id (pause_edit lib now job_id actor_id actor_name db) ≡ ok db'
  unfolding pause_tx
  pause_tx-ok e = ground arith

  pub cancel_tx-ok :
      {db' : Db}
      → cancel_tx lib now job_id actor_id actor_name db ≡ ok db'
      → recompute_job lib now job_id (cancel_edit lib now job_id actor_id actor_name db) ≡ ok db'
  unfolding cancel_tx
  cancel_tx-ok e = ground arith

  pub resume_job-ok :
      {db' : Db}
      → resume_job lib now job_id actor_id actor_name db ≡ ok db'
      → recompute_job lib now job_id (resume_edit lib job_id actor_id actor_name db) ≡ ok db'
  unfolding resume_job
  resume_job-ok e = ground arith

  pub run_job_now-ok :
      {db' : Db}
      → run_job_now lib now job_id actor_id actor_name db ≡ ok db'
      → recompute_job lib now job_id (run_now_edit lib now job_id actor_id actor_name db) ≡ ok db'
  unfolding run_job_now
  run_job_now-ok e = ground arith

  pub retry_job-ok :
      {db' : Db}
      → retry_job lib now job_id actor_id actor_name db ≡ ok db'
      → recompute_job lib now job_id (retry_job_edit lib job_id actor_id actor_name db) ≡ ok db'
  unfolding retry_job
  retry_job-ok e = ground arith

  job_event-IsLocal :
      (type message : String) (mid : Db)
      → IsLocal job_id db mid
      → IsLocal job_id db (job_event lib job_id actor_id actor_name type message mid)
  unfolding job_event
  job_event-IsLocal type message mid local = IsLocal-add_event job_id db mid local lib _

  pause_edit-IsLocal : IsLocal job_id db (pause_edit lib now job_id actor_id actor_name db)
  unfolding pause_edit
  pause_edit-IsLocal =
      job_event-IsLocal _ _ _ (
        IsLocal-update_jobs job_id db db (IsLocal-refl job_id db) (request_pause now) (λ job. refl))

  pub pause_tx-IsConsistent :
      {db' : Db}
      → IsConsistent db
      → pause_tx lib now job_id actor_id actor_name db ≡ ok db'
      → IsConsistent db'
  pause_tx-IsConsistent h e =
      local_recompute-IsConsistent lib now job_id db _ h pause_edit-IsLocal (pause_tx-ok e)

  resume_edit-IsLocal : IsLocal job_id db (resume_edit lib job_id actor_id actor_name db)
  unfolding resume_edit
  resume_edit-IsLocal =
      job_event-IsLocal _ _ _
        (IsLocal-update_jobs job_id db db (IsLocal-refl job_id db) end_pause (λ job. refl))

  pub resume_job-IsConsistent :
      {db' : Db}
      → IsConsistent db
      → resume_job lib now job_id actor_id actor_name db ≡ ok db'
      → IsConsistent db'
  resume_job-IsConsistent h e =
      local_recompute-IsConsistent lib now job_id db _ h resume_edit-IsLocal (resume_job-ok e)

  -- An update of tasks under a condition that begins with the job's identifier.
  own_tasks-IsLocal :
      (q : Task → Bool) (f : Task → Task) (mid : Db)
      → ((task : Task) → (f task).job_id ≡ task.job_id)
      → IsLocal job_id db mid
      → IsLocal job_id db (update_tasks (λ task. in_job job_id task && q task) f mid)
  unfolding in_job
  own_tasks-IsLocal q f mid keep local =
      IsLocal-update_tasks job_id db mid local (λ task. in_job job_id task && q task) f keep
        (All-intro
          {P = λ (task : Task). (in_job job_id task && q task) ≡ true → task.job_id ≡ job_id}
          (λ (task : Task) (hit : (in_job job_id task && q task) ≡ true). ground arith) mid.tasks)

  run_now_edit-IsLocal : IsLocal job_id db (run_now_edit lib now job_id actor_id actor_name db)
  unfolding run_now_edit is_postponed
  run_now_edit-IsLocal =
      job_event-IsLocal _ _ _
        (own_tasks-IsLocal _ release db (λ task. refl) (IsLocal-refl job_id db))

  pub run_job_now-IsConsistent :
      {db' : Db}
      → IsConsistent db
      → run_job_now lib now job_id actor_id actor_name db ≡ ok db'
      → IsConsistent db'
  run_job_now-IsConsistent h e =
      local_recompute-IsConsistent lib now job_id db _ h run_now_edit-IsLocal (run_job_now-ok e)

  cancel_edit-IsLocal : IsLocal job_id db (cancel_edit lib now job_id actor_id actor_name db)
  unfolding cancel_edit cancel_tasks
  cancel_edit-IsLocal = job_event-IsLocal _ _ _ (
      own_tasks-IsLocal _ (request_task_cancel now) _ (λ task. refl)
        (own_tasks-IsLocal _ (cancel_waiting now) _ (λ task. refl)
          (IsLocal-update_jobs job_id db db (IsLocal-refl job_id db) (request_job_cancel now)
            (λ job. refl))))

  pub cancel_tx-IsConsistent :
      {db' : Db}
      → IsConsistent db
      → cancel_tx lib now job_id actor_id actor_name db ≡ ok db'
      → IsConsistent db'
  cancel_tx-IsConsistent h e =
      local_recompute-IsConsistent lib now job_id db _ h cancel_edit-IsLocal (cancel_tx-ok e)

  retry_job_edit-IsLocal : IsLocal job_id db (retry_job_edit lib job_id actor_id actor_name db)
  unfolding retry_job_edit is_retryable requeue
  retry_job_edit-IsLocal = job_event-IsLocal _ _ _ (
      IsLocal-update_jobs job_id db _
        (own_tasks-IsLocal _ requeue db (λ task. refl) (IsLocal-refl job_id db)) reopen
        (λ job. refl))

  pub retry_job-IsConsistent :
      {db' : Db}
      → IsConsistent db
      → retry_job lib now job_id actor_id actor_name db ≡ ok db'
      → IsConsistent db'
  retry_job-IsConsistent h e =
      local_recompute-IsConsistent lib now job_id db _ h retry_job_edit-IsLocal (retry_job-ok e)
