-- ===== src/Background/Finish.antt =====
-- finish and retryDelay of background/runtime.go: what a handler's end does to its task and job.
use videocms.Base.{
  ℤ, pos, negsuc, ℕ, suc, ◌+◌, ◌*◌, Bool, true, false, not, ◌&&◌, Option, none, some, String, List,
  [], ◌∷◌, ◌==◌, ltb, if◌then◌else◌, is_some,
}
use videocms.Background.Types.{
  Job, Task, TaskStatus, Attempt, AttemptStatus, TaskSpec, Result, held_status,
}
use videocms.Background.Text.{Library, is_empty, bounded_message, redact_diagnostic}
use videocms.Background.Errors.{ErrorClass, TaskError}
use videocms.Background.Database.{
  Db, Error, Outcome, ok, err, ◌>>=◌, find_job, find_task, has_id, task_has_id, update_jobs,
  update_tasks, update_attempts, add_event,
}
use videocms.Background.Reduce.{recompute_job}
use videocms.Background.Enqueue.{create_task, with_dedupe_key}

abbrev pub second : ℕ
second = 1000000000

abbrev pub max_delay : ℕ
max_delay = 15 * 60 * second

-- The backoff by the number of the attempt.
unfoldable pub default_delay : ℕ → ℕ
default_delay attempt =
    if attempt == 1 then 5 * second else if attempt == 2 then 30 * second else 120 * second

unfoldable pub retry_delay : ℕ → ℤ → ℕ
unfolding default_delay
retry_delay attempt (negsuc _) = default_delay attempt
retry_delay attempt (pos requested) =
    if ltb 0 requested
    then (if ltb max_delay requested then max_delay else requested)
    else default_delay attempt

abbrev is_plain_stop : Option TaskError → Bool
is_plain_stop none = true
is_plain_stop (some e) = elim e.class [ ErrorClass.paused ↦ true | _ ↦ false ]

abbrev pub is_cancel_requested : TaskStatus → Bool
is_cancel_requested TaskStatus.cancel_requested = true
is_cancel_requested _ = false

abbrev pub user_canceled_error : TaskError
user_canceled_error = record {
  code = "canceled";
  public = "Canceled";
  diagnostic = "";
  class = ErrorClass.canceled;
  retry_after = pos 0;
}

-- A success or a pause gives way to a requested cancellation, unless the commit has begun.
unfoldable pub effective_error : Task → Option TaskError → Option TaskError
effective_error current task_error =
    if is_plain_stop task_error
      && (is_cancel_requested current.status && not (is_some current.commit_started_at))
    then some user_canceled_error
    else task_error

-- What a failed attempt comes to: the statuses, the event, and the remaining columns of the update.
pub record Verdict : Type 0 where
  pub attempt_status : AttemptStatus
  pub event_type : String
  pub event_message : String
  pub task : Task

-- The columns that every failure sets; `finished_at` is the default that some classes clear.
abbrev failed_task : ℕ → String → String → Task → Task
failed_task now code public task = record task {
  heartbeat_at = none;
  finished_at = some now;
  error_code = code;
  error_message = public;
}

abbrev requeued_task : Task → Task
requeued_task task = record task {
  status = TaskStatus.queued;
  run_after = none;
  finished_at = none;
  cancel_requested_at = none;
  max_attempts = task.max_attempts + 1;
}

abbrev delayed_task : ℕ → Task → Task
delayed_task at task = record task {
  status = TaskStatus.retry_wait;
  run_after = some at;
  finished_at = none;
}

unfoldable pub transient_verdict : Library → ℕ → ℕ → ℤ → Task → Verdict
unfolding retry_delay
transient_verdict lib now number requested task =
    let delay = retry_delay task.attempt_count requested in
    if ltb task.attempt_count task.max_attempts
    then record {
      attempt_status = AttemptStatus.failed;
      event_type = "task_retry_scheduled";
      event_message = lib.sprintf "Attempt %d failed; retry scheduled in %s" (number ∷ delay ∷ []);
      task = delayed_task (now + delay) task;
    }
    else record {
      attempt_status = AttemptStatus.failed;
      event_type = "task_failed";
      event_message = lib.sprintf "Attempt %d failed; automatic retries exhausted" (number ∷ []);
      task = record task { status = TaskStatus.failed };
    }

-- The switch on the error's class.
unfoldable pub class_verdict : Library → ℕ → ℕ → ErrorClass → ℤ → Task → Verdict
unfolding transient_verdict
class_verdict lib now number ErrorClass.paused requested task = record {
  attempt_status = AttemptStatus.interrupted;
  event_type = "task_paused";
  event_message = "Task paused at a safe checkpoint";
  task = requeued_task task;
}
class_verdict lib now number ErrorClass.interrupted requested task = record {
  attempt_status = AttemptStatus.interrupted;
  event_type = "task_interrupted";
  event_message = "Task interrupted and queued again";
  task = requeued_task task;
}
class_verdict lib now number ErrorClass.deferred requested task = record {
  attempt_status = AttemptStatus.interrupted;
  event_type = "task_deferred";
  event_message =
      lib.sprintf "Task deferred for %s" (retry_delay task.attempt_count requested ∷ []);
  task = record (delayed_task (now + retry_delay task.attempt_count requested) task) {
    max_attempts = task.max_attempts + 1;
  };
}
class_verdict lib now number ErrorClass.canceled requested task = record {
  attempt_status = AttemptStatus.canceled;
  event_type = "task_canceled";
  event_message = "Task canceled";
  task = record task { status = TaskStatus.canceled };
}
class_verdict lib now number ErrorClass.transient requested task =
    transient_verdict lib now number requested task
class_verdict lib now number ErrorClass.permanent requested task = record {
  attempt_status = AttemptStatus.failed;
  event_type = "task_failed";
  event_message = lib.sprintf "Attempt %d failed" (number ∷ []);
  task = record task { status = TaskStatus.failed };
}

abbrev or_default : String → String → String
or_default value default = if is_empty value then default else value

unfoldable pub failure_verdict : Library → ℕ → ℕ → TaskError → Task → Verdict
unfolding class_verdict bounded_message
failure_verdict lib now number e task = class_verdict lib now number e.class e.retry_after (
    failed_task now (or_default (bounded_message lib e.code 80) "task_failed")
      (or_default (bounded_message lib e.public 512) "The background task failed") task)

unfoldable pub succeed : Library → ℕ → Result → Option String → Task → Task
unfolding bounded_message
succeed lib now result encoded task = record task {
  status = TaskStatus.succeeded;
  progress = pos 10000;
  heartbeat_at = none;
  finished_at = some now;
  error_code = "";
  error_message = "";
  result = elim encoded [ none ↦ task.result | some text ↦ text ];
  phase = if is_empty result.phase then task.phase else bounded_message lib result.phase 120;
}

abbrev is_failed_attempt : AttemptStatus → Bool
is_failed_attempt AttemptStatus.failed = true
is_failed_attempt _ = false

unfoldable pub finish_event : Library → Task → String → String → String → Db → Db
unfolding add_event
finish_event lib task type message metadata = add_event lib (record {
  job_id = task.job_id;
  task_id = some task.id;
  type = type;
  actor_id = none;
  actor_name = "";
  message = message;
  metadata = metadata;
})

unfoldable pub end_attempt : Library → ℕ → TaskError → AttemptStatus → Attempt → Attempt
unfolding bounded_message redact_diagnostic
end_attempt lib now e status attempt = record attempt {
  status = status;
  error_code = or_default (bounded_message lib e.code 80) "task_failed";
  error_message = or_default (bounded_message lib e.public 512) "The background task failed";
  diagnostics = redact_diagnostic lib e.diagnostic;
  finished_at = some now;
}

-- The path of an error. The row updated is the one that was read, so the update is a function of it.
unfoldable pub failed_edit : Library → ℕ → Task → Attempt → TaskError → Db → Db
failed_edit lib now current attempt e db =
    let verdict = failure_verdict lib now attempt.number e current in
    (finish_event lib current verdict.event_type verdict.event_message
      (if is_failed_attempt verdict.attempt_status then redact_diagnostic lib e.diagnostic else "")
      (update_tasks (task_has_id current.id)
        (λ task. (failure_verdict lib now attempt.number e task).task)
        (update_attempts (λ a. a.id == attempt.id) (end_attempt lib now e verdict.attempt_status)
          db)))

unfoldable pub finish_failed : Library → ℕ → Task → Attempt → TaskError → Db → Outcome Db
finish_failed lib now current attempt e db =
    recompute_job lib now current.job_id (failed_edit lib now current attempt e db)

abbrev pub encode_value : Library → Option String → Outcome (Option String)
encode_value lib none = ok none
encode_value lib (some value) = elim (lib.marshal value) [
  | none ↦ err Error.encode_failed
  | some text ↦ ok (some text)
]

-- A child that is there already is skipped.
unfoldable pub skip_duplicate : Db → Outcome Db → Outcome Db
skip_duplicate db (ok db') = ok db'
skip_duplicate db (err Error.duplicate_key) = ok db
skip_duplicate db (err e) = err e

unfoldable pub create_child : Library → ℕ → (ℕ → ℕ) → Task → ℕ → TaskSpec → Db → Outcome Db
unfolding skip_duplicate with_dedupe_key
create_child lib now uuid parent index spec db = skip_duplicate db (
    create_task lib now (uuid index) parent.job_id
      (with_dedupe_key lib (some parent.id) index (record spec { parent_task_id = some parent.id }))
      db)

unfoldable pub create_children : Library → ℕ → (ℕ → ℕ) → Task → ℕ → List TaskSpec → Db → Outcome Db
unfolding create_child
create_children lib now uuid parent index [] db = ok db
create_children lib now uuid parent index (spec ∷ specs) db =
    create_child lib now uuid parent index spec db
    >>= create_children lib now uuid parent (suc index) specs

unfoldable pub set_result : Library → Result → Job → Job
unfolding bounded_message
set_result lib result job = record job {
  result_type =
      if is_empty result.result_type
      then job.result_type
      else bounded_message lib result.result_type 64;
  result_id =
      if is_empty result.result_id then job.result_id else bounded_message lib result.result_id 128;
}

unfoldable pub succeeded_edit : Library → ℕ → Task → Attempt → Result → Option String → Db → Db
succeeded_edit lib now current attempt result encoded db =
    update_tasks (task_has_id current.id) (succeed lib now result encoded) (
      update_attempts (λ a. a.id == attempt.id)
        (λ a. record a { status = AttemptStatus.succeeded; finished_at = some now }) db)

unfoldable pub result_edit : Library → Task → Result → Db → Db
result_edit lib current result db =
    update_jobs (has_id current.job_id) (set_result lib result)
      (finish_event lib current "task_succeeded" "Task completed" "" db)

unfoldable pub finish_succeeded : Library → ℕ → (ℕ → ℕ) → Task → Attempt → Result → Db → Outcome Db
finish_succeeded lib now uuid current attempt result db = do
  encoded ← encode_value lib result.value
  db' ←
      create_children lib now uuid current 0 result.children
        (succeeded_edit lib now current attempt result encoded db)
  _ ← find_job current.job_id db'
  recompute_job lib now current.job_id (result_edit lib current result db')

unfoldable pub finish_current :
    Library → ℕ → (ℕ → ℕ) → Task → Attempt → Result → Option TaskError → Db → Outcome Db
unfolding finish_failed finish_succeeded
finish_current lib now uuid current attempt result (some e) db =
    finish_failed lib now current attempt e db
finish_current lib now uuid current attempt result none db =
    finish_succeeded lib now uuid current attempt result db

-- A task that no worker holds any more is left alone.
unfoldable pub finish :
    Library → ℕ → (ℕ → ℕ) → ℕ → Attempt → Result → Option TaskError → Db → Outcome Db
unfolding effective_error
finish lib now uuid task_id attempt result task_error db = do
  current ← find_task task_id db
  elim (held_status current.status) [
    | false ↦ ok db
    | true ↦
        finish_current lib now uuid current attempt result (effective_error current task_error) db
  ]
