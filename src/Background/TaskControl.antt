-- ===== src/Background/TaskControl.antt =====
-- RetryJob, CancelTask, RetryTask and CancelKinds of background/runtime.go.
use videocms.Base.{
  pos, ℕ, ◌+◌, Bool, true, false, not, ◌&&◌, Option, none, some, String, List, [], ◌∷◌, ◌==◌,
  if◌then◌else◌, is_some, count_where,
}
use videocms.Background.Types.{Job, JobStatus, Task, TaskStatus, terminal_task_status, held_status}
use videocms.Background.Text.{Library, is_empty, bounded_message}
use videocms.Background.Errors.{Cause}
use videocms.Background.Database.{
  Db, Error, Outcome, ok, err, ◌>>=◌, ◌>>◌, refuse_if, find_job, find_task, has_id, task_has_id,
  in_job, update_jobs, update_tasks, add_event,
}
use videocms.Background.Reduce.{recompute_job}
use videocms.Background.Runtime.{Runtime, cancel_where}
use videocms.Background.Control.{optional_actor, job_event, cancel_job}

abbrev can_retry_job : JobStatus → Bool
can_retry_job JobStatus.failed = true
can_retry_job JobStatus.canceled = true
can_retry_job JobStatus.succeeded_with_warnings = true
can_retry_job _ = false

unfoldable pub can_retry_task : TaskStatus → Bool
can_retry_task TaskStatus.failed = true
can_retry_task TaskStatus.canceled = true
can_retry_task _ = false

-- A manual retry gives the task four more attempts.
unfoldable pub requeue : Task → Task
requeue task = record task {
  status = TaskStatus.queued;
  run_after = none;
  finished_at = none;
  cancel_requested_at = none;
  error_code = "";
  error_message = "";
  commit_started_at = none;
  progress = pos 0;
  progress_message = "";
  max_attempts = task.attempt_count + 4;
}

abbrev pub reopen : Job → Job
reopen job = record job {
  status = JobStatus.queued;
  finished_at = none;
  cancel_requested_at = none;
  pause_requested_at = none;
  paused_at = none;
  error_code = "";
  error_message = "";
}

unfoldable pub is_retryable : ℕ → Task → Bool
unfolding in_job can_retry_task
is_retryable job_id task = in_job job_id task && can_retry_task task.status

unfoldable pub retry_job_edit : Library → ℕ → ℕ → String → Db → Db
retry_job_edit lib job_id actor_id actor_name db =
    job_event lib job_id actor_id actor_name "job_retried" "Job queued for manual retry"
      (update_jobs (has_id job_id) reopen (update_tasks (is_retryable job_id) requeue db))

unfoldable pub retry_job : Library → ℕ → ℕ → ℕ → String → Db → Outcome Db
retry_job lib now job_id actor_id actor_name db = do
  job ← find_job job_id db
  refuse_if (not (can_retry_job job.status)) Error.conflict
  refuse_if (count_where (is_retryable job_id) db.tasks == 0) Error.conflict
  recompute_job lib now job_id (retry_job_edit lib job_id actor_id actor_name db)

unfoldable pub task_event : Library → Task → ℕ → String → String → String → Db → Db
unfolding optional_actor add_event
task_event lib task actor_id actor_name type message = add_event lib (record {
  job_id = task.job_id;
  task_id = some task.id;
  type = type;
  actor_id = optional_actor actor_id;
  actor_name = actor_name;
  message = message;
  metadata = "";
})

-- A task that a worker holds is asked to stop; one that waits is canceled at once.
unfoldable pub stop_task : ℕ → Task → Task
unfolding held_status
stop_task now task =
    if held_status task.status
    then record task { status = TaskStatus.cancel_requested; cancel_requested_at = some now }
    else record task {
      status = TaskStatus.canceled;
      finished_at = some now;
      error_code = "canceled";
      error_message = "Canceled by administrator";
    }

unfoldable pub cancel_task_edit : Library → ℕ → Task → ℕ → String → Db → Db
cancel_task_edit lib now task actor_id actor_name db =
    task_event lib task actor_id actor_name "task_cancel_requested" "Task cancellation requested"
      (update_tasks (task_has_id task.id) (stop_task now) db)

unfoldable pub cancel_task_tx : Library → ℕ → ℕ → ℕ → String → Db → Outcome Db
unfolding terminal_task_status
cancel_task_tx lib now task_id actor_id actor_name db = do
  task ← find_task task_id db
  refuse_if (terminal_task_status task.status) Error.conflict
  refuse_if (is_some task.commit_started_at) Error.commit_started
  recompute_job lib now task.job_id (cancel_task_edit lib now task actor_id actor_name db)

unfoldable pub cancel_task : Library → ℕ → ℕ → ℕ → String → Runtime → Outcome Runtime
unfolding cancel_task_tx cancel_where
cancel_task lib now task_id actor_id actor_name r = do
  db ← cancel_task_tx lib now task_id actor_id actor_name r.db
  ok (cancel_where (λ a. a.task_id == task_id) Cause.user_canceled (record r { db = db }))

abbrev pub reopen_for_task : Job → Job
reopen_for_task job = record job { finished_at = none; cancel_requested_at = none }

unfoldable pub retry_task_edit : Library → Task → ℕ → String → Db → Db
retry_task_edit lib task actor_id actor_name db = update_jobs (has_id task.job_id) reopen_for_task (
    task_event lib task actor_id actor_name "task_retried" "Task queued for manual retry"
      (update_tasks (task_has_id task.id) requeue db))

unfoldable pub retry_task : Library → ℕ → ℕ → ℕ → String → Db → Outcome Db
unfolding can_retry_task
retry_task lib now task_id actor_id actor_name db = do
  task ← find_task task_id db
  refuse_if (not (can_retry_task task.status)) Error.conflict
  recompute_job lib now task.job_id (retry_task_edit lib task actor_id actor_name db)

-- errors.Is(err, ErrConflict): ErrCommitStarted wraps ErrConflict.
unfoldable pub is_conflict : Error → Bool
is_conflict Error.conflict = true
is_conflict Error.commit_started = true
is_conflict _ = false

abbrev reason_event : Library → ℕ → ℕ → String → String → Runtime → Runtime
reason_event lib job_id actor_id actor_name reason r = if is_empty reason then r else record r {
  db =
      job_event lib job_id actor_id actor_name "feature_disabled" (bounded_message lib reason 512)
        r.db;
}

-- The loop of CancelKinds over the jobs found; what was done before an error stays.
unfoldable pub cancel_jobs :
    Library → ℕ → ℕ → String → String → List ℕ → Runtime → Runtime × Option Error
unfolding is_conflict
cancel_jobs lib now actor_id actor_name reason [] r = (r, none)
cancel_jobs lib now actor_id actor_name reason (id ∷ ids) r =
    elim (cancel_job lib now id actor_id actor_name r) [
      | ok r' ↦
          cancel_jobs lib now actor_id actor_name reason ids
            (reason_event lib id actor_id actor_name reason r')
      | err e ↦ elim (is_conflict e) [
        | true ↦
            cancel_jobs lib now actor_id actor_name reason ids
              (reason_event lib id actor_id actor_name reason r)
        | false ↦ (r, some e)
      ]
    ]
