-- ===== src/Background/Control.antt =====
-- The controls of a job in background/runtime.go: PauseJob, ResumeJob, RunJobNow, CancelJob, RetryJob.
-- Each has a transaction on the tables (`_tx`) and the signals to the workers that follow it.
use videocms.Base.{
  ℕ, Bool, true, false, not, ◌&&◌, ◌||◌, Option, none, some, String, ◌==◌, ltb, if◌then◌else◌,
  is_some, count_where,
}
use videocms.Background.Types.{
  Job, JobStatus, Task, TaskStatus, terminal_job_status, held_status, waiting_status,
}
use videocms.Background.Text.{Library}
use videocms.Background.Errors.{Cause}
use videocms.Background.Database.{
  Db, Error, Outcome, ok, ◌>>=◌, ◌>>◌, refuse_if, find_job, has_id, in_job, update_jobs,
  update_tasks, add_event,
}
use videocms.Background.Reduce.{recompute_job}
use videocms.Background.Runtime.{Runtime, cancel_where}

unfoldable pub optional_actor : ℕ → Option ℕ
optional_actor id = if id == 0 then none else some id

unfoldable pub job_event : Library → ℕ → ℕ → String → String → String → Db → Db
unfolding optional_actor add_event
job_event lib job_id actor_id actor_name type message = add_event lib (record {
  job_id = job_id;
  task_id = none;
  type = type;
  actor_id = optional_actor actor_id;
  actor_name = actor_name;
  message = message;
  metadata = "";
})

unfoldable pub pausable_job_status : JobStatus → Bool
pausable_job_status JobStatus.queued = true
pausable_job_status JobStatus.running = true
pausable_job_status JobStatus.retry_wait = true
pausable_job_status _ = false

-- A worker has begun irreversible work: commit_started_at IS NOT NULL and a worker holds the task.
unfoldable pub is_committing : Task → Bool
unfolding held_status
is_committing task = is_some task.commit_started_at && held_status task.status

unfoldable pub committing_count : ℕ → Db → ℕ
unfolding is_committing in_job
committing_count id db = count_where (λ task. in_job id task && is_committing task) db.tasks

abbrev pub request_pause : ℕ → Job → Job
request_pause now job = record job { pause_requested_at = some now; paused_at = none }

-- The edits of a pause, before the recomputation.
unfoldable pub pause_edit : Library → ℕ → ℕ → ℕ → String → Db → Db
pause_edit lib now job_id actor_id actor_name db =
    job_event lib job_id actor_id actor_name "job_pause_requested" "Pause requested"
      (update_jobs (has_id job_id) (request_pause now) db)

unfoldable pub pause_tx : Library → ℕ → ℕ → ℕ → String → Db → Outcome Db
unfolding pausable_job_status
pause_tx lib now job_id actor_id actor_name db = do
  job ← find_job job_id db
  refuse_if
      (not job.pausable
        || (not (pausable_job_status job.status)
            || (is_some job.pause_requested_at || is_some job.cancel_requested_at)))
      Error.conflict
  refuse_if (ltb 0 (committing_count job_id db)) Error.commit_started
  recompute_job lib now job_id (pause_edit lib now job_id actor_id actor_name db)

unfoldable pub pause_job : Library → ℕ → ℕ → ℕ → String → Runtime → Outcome Runtime
unfolding pause_tx cancel_where
pause_job lib now job_id actor_id actor_name r = do
  db ← pause_tx lib now job_id actor_id actor_name r.db
  ok (cancel_where (λ a. a.job_id == job_id) Cause.user_paused (record r { db = db }))

abbrev pub is_pause_status : JobStatus → Bool
is_pause_status JobStatus.pause_requested = true
is_pause_status JobStatus.paused = true
is_pause_status _ = false

abbrev pub end_pause : Job → Job
end_pause job = record job { pause_requested_at = none; paused_at = none }

unfoldable pub resume_edit : Library → ℕ → ℕ → String → Db → Db
resume_edit lib job_id actor_id actor_name db =
    job_event lib job_id actor_id actor_name "job_resumed" "Job resumed"
      (update_jobs (has_id job_id) end_pause db)

-- Nothing is signalled: the dispatcher is only woken.
unfoldable pub resume_job : Library → ℕ → ℕ → ℕ → String → Db → Outcome Db
resume_job lib now job_id actor_id actor_name db = do
  job ← find_job job_id db
  refuse_if (not (is_pause_status job.status)) Error.conflict
  recompute_job lib now job_id (resume_edit lib job_id actor_id actor_name db)

abbrev is_queued_task : TaskStatus → Bool
is_queued_task TaskStatus.queued = true
is_queued_task _ = false

abbrev is_queued_job : JobStatus → Bool
is_queued_job JobStatus.queued = true
is_queued_job _ = false

abbrev is_later : ℕ → Option ℕ → Bool
is_later now none = false
is_later now (some at) = ltb now at

-- The queued tasks of a job that wait for their time.
unfoldable pub is_postponed : ℕ → ℕ → Task → Bool
unfolding in_job
is_postponed job_id now task =
    in_job job_id task && (is_queued_task task.status && is_later now task.run_after)

abbrev pub release : Task → Task
release task = record task { run_after = none }

unfoldable pub run_now_edit : Library → ℕ → ℕ → ℕ → String → Db → Db
run_now_edit lib now job_id actor_id actor_name db =
    job_event lib job_id actor_id actor_name "job_run_requested"
      "Scheduled wait skipped; job released for immediate execution"
      (update_tasks (is_postponed job_id now) release db)

unfoldable pub run_job_now : Library → ℕ → ℕ → ℕ → String → Db → Outcome Db
run_job_now lib now job_id actor_id actor_name db = do
  job ← find_job job_id db
  refuse_if
      (not (is_queued_job job.status)
        || (is_some job.pause_requested_at || is_some job.cancel_requested_at))
      Error.conflict
  refuse_if (count_where (is_postponed job_id now) db.tasks == 0) Error.conflict
  recompute_job lib now job_id (run_now_edit lib now job_id actor_id actor_name db)

abbrev pub request_job_cancel : ℕ → Job → Job
request_job_cancel now job = record job {
  status = JobStatus.cancel_requested;
  cancel_requested_at = some now;
  pause_requested_at = none;
  paused_at = none;
}

abbrev pub cancel_waiting : ℕ → Task → Task
cancel_waiting now task = record task {
  status = TaskStatus.canceled;
  finished_at = some now;
  error_code = "canceled";
  error_message = "Canceled before execution";
}

abbrev pub request_task_cancel : ℕ → Task → Task
request_task_cancel now task = record task {
  status = TaskStatus.cancel_requested;
  cancel_requested_at = some now;
}

abbrev pub is_running_task : TaskStatus → Bool
is_running_task TaskStatus.running = true
is_running_task _ = false

-- The two updates of the job's tasks, in the source's order.
unfoldable pub cancel_tasks : ℕ → ℕ → Db → Db
unfolding waiting_status
cancel_tasks now job_id db =
    update_tasks (λ task. in_job job_id task && is_running_task task.status)
      (request_task_cancel now)
      (update_tasks (λ task. in_job job_id task && waiting_status task.status) (cancel_waiting now)
        db)

unfoldable pub cancel_edit : Library → ℕ → ℕ → ℕ → String → Db → Db
cancel_edit lib now job_id actor_id actor_name db =
    job_event lib job_id actor_id actor_name "job_cancel_requested" "Cancellation requested"
      (cancel_tasks now job_id (update_jobs (has_id job_id) (request_job_cancel now) db))

unfoldable pub cancel_tx : Library → ℕ → ℕ → ℕ → String → Db → Outcome Db
unfolding terminal_job_status
cancel_tx lib now job_id actor_id actor_name db = do
  job ← find_job job_id db
  refuse_if (terminal_job_status job.status) Error.conflict
  refuse_if (ltb 0 (committing_count job_id db)) Error.commit_started
  recompute_job lib now job_id (cancel_edit lib now job_id actor_id actor_name db)

abbrev is_cancel_requested : TaskStatus → Bool
is_cancel_requested TaskStatus.cancel_requested = true
is_cancel_requested _ = false

-- The workers of the tasks that are now asked to stop.
unfoldable pub must_stop : ℕ → Db → ℕ → Bool
unfolding in_job
must_stop job_id db task_id = ltb 0 (
    count_where
      (λ (task : Task).
        task.id == task_id && (in_job job_id task && is_cancel_requested task.status))
      db.tasks)

unfoldable pub cancel_job : Library → ℕ → ℕ → ℕ → String → Runtime → Outcome Runtime
unfolding cancel_tx must_stop cancel_where
cancel_job lib now job_id actor_id actor_name r = do
  db ← cancel_tx lib now job_id actor_id actor_name r.db
  ok (cancel_where (λ a. must_stop job_id db a.task_id) Cause.user_canceled (record r { db = db }))
