-- ===== src/Background/Recovery.antt =====
-- Recover and recoverStaleTasks of background/runtime.go: work that a stopped worker left behind.
use videocms.Base.{
  ℕ, ◌+◌, Bool, true, false, not, ◌&&◌, Option, none, some, String, List, [], ◌∷◌, ◌==◌, ltb,
  if◌then◌else◌, is_some, count_where, select, map,
}
use videocms.Background.Types.{
  Job, JobStatus, Task, TaskStatus, Attempt, AttemptStatus, held_status,
}
use videocms.Background.Text.{Library}
use videocms.Background.Database.{
  Db, Outcome, ok, ◌>>=◌, task_has_id, update_tasks, update_attempts, add_event,
}
use videocms.Background.Reduce.{recompute_job}
use videocms.Background.Runtime.{ActiveTask}

abbrev pub is_running_attempt : AttemptStatus → Bool
is_running_attempt AttemptStatus.running = true
is_running_attempt _ = false

abbrev pub interrupt_attempt : ℕ → Attempt → Attempt
interrupt_attempt now attempt = record attempt {
  status = AttemptStatus.interrupted;
  error_code = "worker_interrupted";
  error_message = "The worker stopped before the attempt completed";
  finished_at = some now;
}

-- The three updates of the tasks. A task that had begun irreversible work fails, one that was asked
-- to stop is canceled, and any other is queued again, with one more attempt allowed.
unfoldable pub was_committing : Task → Bool
unfolding held_status
was_committing task = held_status task.status && is_some task.commit_started_at

unfoldable pub was_stopping : Task → Bool
was_stopping task = elim task.status [
  | TaskStatus.cancel_requested ↦ not (is_some task.commit_started_at)
  | _ ↦ false
]

unfoldable pub was_running : Task → Bool
was_running task = elim task.status [
  | TaskStatus.running ↦ not (is_some task.commit_started_at)
  | _ ↦ false
]

abbrev pub fail_interrupted : ℕ → Task → Task
fail_interrupted now task = record task {
  status = TaskStatus.failed;
  error_code = "commit_interrupted";
  error_message = "The worker stopped after irreversible work began; review before retrying";
  finished_at = some now;
  heartbeat_at = none;
}

abbrev pub cancel_interrupted : ℕ → Task → Task
cancel_interrupted now task = record task {
  status = TaskStatus.canceled;
  error_code = "canceled";
  error_message = "Canceled before application restart";
  finished_at = some now;
  heartbeat_at = none;
}

abbrev pub requeue_interrupted : Task → Task
requeue_interrupted task = record task {
  status = TaskStatus.queued;
  max_attempts = task.max_attempts + 1;
  run_after = none;
  heartbeat_at = none;
  error_code = "worker_interrupted";
  error_message = "Interrupted by application restart; queued again";
  cancel_requested_at = none;
}

unfoldable pub recover_tasks : ℕ → Db → Db
unfolding update_tasks was_committing was_stopping was_running
recover_tasks now db = update_tasks was_running requeue_interrupted (
    update_tasks was_stopping (cancel_interrupted now)
      (update_tasks was_committing (fail_interrupted now) db))

unfoldable pub is_unsettled : JobStatus → Bool
is_unsettled JobStatus.running = true
is_unsettled JobStatus.retry_wait = true
is_unsettled JobStatus.pause_requested = true
is_unsettled JobStatus.paused = true
is_unsettled JobStatus.cancel_requested = true
is_unsettled _ = false

abbrev pub recovered_event : Library → ℕ → Option ℕ → String → String → Db → Db
recovered_event lib job_id task_id type message = add_event lib (record {
  job_id = job_id;
  task_id = task_id;
  type = type;
  actor_id = none;
  actor_name = "";
  message = message;
  metadata = "";
})

unfoldable pub recompute_recovered : Library → ℕ → List Job → Db → Outcome Db
unfolding add_event
recompute_recovered lib now [] db = ok db
recompute_recovered lib now (job ∷ jobs) db = recompute_job lib now job.id db >>= λ db'.
    recompute_recovered lib now jobs
      (recovered_event lib job.id none "job_recovered" "Recovered after application restart" db')

unfoldable pub recover : Library → ℕ → Db → Outcome Db
unfolding recover_tasks update_attempts recompute_recovered is_unsettled
recover lib now db =
    let db' =
      recover_tasks now
        (update_attempts (λ a. is_running_attempt a.status) (interrupt_attempt now) db) in
    recompute_recovered lib now (select (λ job. is_unsettled job.status) db'.jobs) db'

abbrev is_before : ℕ → Option ℕ → Bool
is_before before none = true
is_before before (some at) = ltb at before

-- A held task whose heartbeat is old.
unfoldable pub is_stale : ℕ → Task → Bool
unfolding held_status
is_stale before task = held_status task.status && is_before before task.heartbeat_at

unfoldable pub is_active : List ActiveTask → ℕ → Bool
is_active active id = ltb 0 (count_where (λ a. a.task_id == id) active)

pub record StaleVerdict : Type 0 where
  pub task_status : TaskStatus
  pub attempt_status : AttemptStatus
  pub code : String
  pub message : String

unfoldable pub stale_verdict : Task → StaleVerdict
stale_verdict task =
    if is_some task.commit_started_at
    then record {
      task_status = TaskStatus.failed;
      attempt_status = AttemptStatus.interrupted;
      code = "commit_interrupted";
      message = "The worker stopped after irreversible work began; review before retrying";
    }
    else elim task.status [
      | TaskStatus.cancel_requested ↦ record {
        task_status = TaskStatus.canceled;
        attempt_status = AttemptStatus.canceled;
        code = "canceled";
        message = "Cancellation completed after the worker heartbeat expired";
      }
      | _ ↦ record {
        task_status = TaskStatus.queued;
        attempt_status = AttemptStatus.interrupted;
        code = "worker_stale";
        message = "Worker heartbeat expired; queued again";
      }
    ]

abbrev is_queued : TaskStatus → Bool
is_queued TaskStatus.queued = true
is_queued _ = false

unfoldable pub reclaim : ℕ → StaleVerdict → Task → Task
reclaim now verdict task = record task {
  status = verdict.task_status;
  run_after = none;
  heartbeat_at = none;
  finished_at = if is_queued verdict.task_status then none else some now;
  cancel_requested_at = none;
  error_code = verdict.code;
  error_message = verdict.message;
  max_attempts = if is_queued verdict.task_status then task.max_attempts + 1 else task.max_attempts;
}

abbrev end_stale_attempt : ℕ → StaleVerdict → Attempt → Attempt
end_stale_attempt now verdict attempt = record attempt {
  status = verdict.attempt_status;
  error_code = verdict.code;
  error_message = verdict.message;
  finished_at = some now;
}

unfoldable pub reclaim_task : Library → ℕ → ℕ → Task → Db → Db
unfolding stale_verdict reclaim is_stale task_has_id update_tasks update_attempts add_event
reclaim_task lib now before task db =
    let verdict = stale_verdict task in
    recovered_event lib task.job_id (some task.id) "task_recovered" verdict.message (
      update_attempts (λ a. a.task_id == task.id && is_running_attempt a.status)
        (end_stale_attempt now verdict)
        (update_tasks (λ t. task_has_id task.id t && is_stale before t) (reclaim now verdict) db))

-- The loop over the candidates. The tasks are read and written in one transaction, so the update
-- finds the task as it was read.
unfoldable pub reclaim_tasks : Library → ℕ → ℕ → List Task → Db → Db
unfolding reclaim_task
reclaim_tasks lib now before [] db = db
reclaim_tasks lib now before (task ∷ tasks) db =
    reclaim_tasks lib now before tasks (reclaim_task lib now before task db)

unfoldable pub recompute_jobs : Library → ℕ → List ℕ → Db → Outcome Db
recompute_jobs lib now [] db = ok db
recompute_jobs lib now (id ∷ ids) db = recompute_job lib now id db >>= recompute_jobs lib now ids

unfoldable pub recover_stale_tasks : Library → ℕ → ℕ → List ActiveTask → Db → Outcome Db
unfolding is_stale is_active reclaim_tasks recompute_jobs
recover_stale_tasks lib now before active db =
    let candidates =
      select (λ task. is_stale before task && not (is_active active task.id)) db.tasks in
    recompute_jobs lib now (map (λ task. task.job_id) candidates)
      (reclaim_tasks lib now before candidates db)
