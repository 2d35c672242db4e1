-- ===== src/Samples.antt =====
-- The tables, tasks, errors and schedules that the concrete runs of Examples.antt start from.
use videocms.Base.{
  pos, ◌+◌, ◌-◌, true, false, none, some, [], ◌∷◌, select, first, update_where, count_where,
}
use videocms.Background.Types.{
  Job, JobStatus, Task, TaskStatus, Attempt, AttemptStatus, Visibility, QueueState, TaskSpec,
  JobSpec, Result, held_status, waiting_status, terminal_job_status, terminal_task_status,
}
use videocms.Background.Text.{
  Library, is_empty, bounded_message, redact_diagnostic, marshal_payload,
}
use videocms.Background.Errors.{ErrorClass, TaskError}
use videocms.Background.Database.{
  Db, Outcome, ok, err, find_job, find_task, has_id, task_has_id, in_job, tasks_of, update_jobs,
  update_tasks, update_attempts, add_event,
}
use videocms.Background.Reduce.{reduce_job, recompute_job}
use videocms.Background.Control.{
  pause_tx, pause_edit, cancel_tx, cancel_edit, cancel_tasks, job_event, committing_count,
  is_committing, pausable_job_status,
}
use videocms.Background.Commit.{begin_commit, commit_tx, commit_edit, may_commit}
use videocms.Background.Claim.{
  claim, claim_task, claim_edit, next_task, is_eligible, is_claimable, start,
}
use videocms.Background.Finish.{
  finish, finish_current, finish_succeeded, succeeded_edit, result_edit, create_children, succeed,
  set_result, finish_event, effective_error,
}
use videocms.Background.Recovery.{recover, recover_tasks, recompute_recovered, is_unsettled}
use videocms.Background.Schedules.{ScheduleState, ScheduleDefinition, Scheduled, Outside}
use videocms.Background.Enqueue.{
  enqueue, validate_job_spec, task_specs_complete, task_spec_complete, normalize_idempotency_key,
  find_key, validate_idempotent_reuse, create_job, new_job, create_tasks, create_task, new_task,
  with_dedupe_key, same_dedupe, same_visibility, same_owner, same_flag, match_tasks,
}

abbrev pub library : Library
library = record {
  trim_space = λ s. s;
  sprintf = λ format _. format;
  dedupe_format = λ _ kind _. kind;
  marshal = λ value. some value;
  sha256_hex = λ s. s;
  redact_urls = λ s. s;
  redact_secrets = λ s. s;
  lower_contains = λ _ _. false;
  age_minutes = λ now created. now - created;
}

abbrev pub waiting_task : Task
waiting_task = record {
  id = 7;
  job_id = 1;
  parent_task_id = none;
  kind = "media.encode";
  queue = "ffmpeg";
  status = TaskStatus.queued;
  phase = "Encoding";
  payload_version = 1;
  payload = "{}";
  result = "";
  dedupe_key = "encode";
  priority = 10;
  required = true;
  weight = 3;
  progress = pos 2500;
  progress_message = "";
  attempt_count = 0;
  max_attempts = 4;
  run_after = none;
  heartbeat_at = none;
  error_code = "";
  error_message = "";
  cancel_requested_at = none;
  commit_started_at = none;
  started_at = none;
  finished_at = none;
  created_at = 1;
}

abbrev pub running_task : Task
running_task = record waiting_task { status = TaskStatus.running; attempt_count = 1 }

abbrev pub committing_task : Task
committing_task = record running_task { commit_started_at = some 3 }

abbrev pub queued_job : Job
queued_job = record {
  id = 1;
  kind = "media.import";
  status = JobStatus.queued;
  visibility = Visibility.user;
  owner_id = some 4;
  subject_type = "";
  subject_id = "";
  idempotency_key = "";
  label = "Import";
  phase = "";
  progress = 0;
  result_type = "";
  result_id = "";
  error_code = "";
  error_message = "";
  pausable = true;
  pause_requested_at = none;
  paused_at = none;
  cancel_requested_at = none;
  started_at = none;
  finished_at = none;
  created_at = 1;
}

abbrev pub running_job : Job
running_job = record queued_job { status = JobStatus.running }

abbrev pub open_queue : QueueState
open_queue = record { name = "ffmpeg"; paused = false; paused_by = none; paused_at = none }

abbrev pub tables : Job → Task → Db
tables job task = record {
  jobs = job ∷ [];
  tasks = task ∷ [];
  attempts = [];
  events = [];
  queues = open_queue ∷ [];
}

abbrev pub first_attempt : Attempt
first_attempt = record {
  id = 30;
  task_id = 7;
  number = 1;
  status = AttemptStatus.running;
  worker = "embedded";
  error_code = "";
  error_message = "";
  diagnostics = "";
  started_at = 2;
  finished_at = none;
}

abbrev pub empty_result : Result
empty_result = record { value = none; result_type = ""; result_id = ""; phase = ""; children = [] }

abbrev pub network_error : TaskError
network_error = record {
  code = "network_error";
  public = "A temporary network error occurred";
  diagnostic = "";
  class = ErrorClass.transient;
  retry_after = pos 0;
}

abbrev pub deferral : TaskError
deferral = record network_error { class = ErrorClass.deferred }

-- What a run of the code unfolds to.
unfoldable pub running_code : Unit {0}
unfolding is_empty bounded_message redact_diagnostic find_job find_task has_id task_has_id in_job
    tasks_of update_jobs update_tasks update_attempts add_event select first update_where
    count_where recompute_job reduce_job pause_tx pause_edit cancel_tx cancel_edit cancel_tasks
    job_event committing_count is_committing pausable_job_status begin_commit commit_tx commit_edit
    may_commit held_status waiting_status terminal_job_status terminal_task_status claim claim_task
    claim_edit next_task is_eligible is_claimable start finish finish_current finish_succeeded
    succeeded_edit result_edit create_children succeed set_result finish_event effective_error
    recover recover_tasks recompute_recovered is_unsettled
running_code = tt

unfoldable pub after : Db → Outcome Db → Db
after db (ok db') = db'
after db (err _) = db

abbrev pub encode_spec : TaskSpec
encode_spec = record {
  kind = "media.encode";
  queue = "ffmpeg";
  phase = "";
  payload_version = 0;
  payload = some "{}";
  dedupe_key = "";
  priority = 10;
  required = true;
  weight = 0;
  max_attempts = 0;
  run_after = none;
  parent_task_id = none;
}

abbrev pub import_spec : JobSpec
import_spec = record {
  kind = "media.import";
  visibility = none;
  owner_id = some 4;
  subject_type = "file";
  subject_id = "12";
  idempotency_key = "import-12";
  label = "Import";
  pausable = true;
  tasks = encode_spec ∷ [];
}

unfoldable pub enqueuing_code : Unit {0}
unfolding running_code enqueue validate_job_spec task_specs_complete task_spec_complete
    normalize_idempotency_key find_key validate_idempotent_reuse create_job new_job create_tasks
    create_task new_task with_dedupe_key same_dedupe same_visibility same_owner same_flag
    match_tasks marshal_payload
enqueuing_code = tt

abbrev pub names : Outside
names = record {
  error_text = λ _. "refused";
  due_key = λ key _. key;
  manual_key = λ key. key;
  job_id = λ _. 9;
  task_id = λ _ index. index + 90;
}

abbrev pub cleanup : ScheduleDefinition
cleanup = record {
  key = "cleanup";
  kind = "media.import";
  queue = "ffmpeg";
  interval = 10;
  run_on_start = true;
  build = import_spec;
}

abbrev pub due_cleanup : ScheduleState
due_cleanup = record {
  key = "cleanup";
  kind = "media.import";
  queue = "ffmpeg";
  enabled = true;
  last_job_id = none;
  last_status = none;
  last_error = "";
  last_run_at = none;
  last_success_at = none;
  next_run_at = some 20;
}

abbrev pub due : Scheduled
due = record { db = tables running_job running_task; states = due_cleanup ∷ [] }
