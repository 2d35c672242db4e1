-- ===== src/Background/Types.antt =====
-- background/types.go: jobs, tasks, attempts, events, and the tables that hold them. An identifier is
-- a number, since the code compares identifiers only; a time is a number of nanoseconds. A pointer
-- that may be nil is an `Option`. What a column's hook fills in (updated_at) is left out.
use videocms.Base.{ℤ, ℕ, Bool, true, false, Option, String, List}

pub data JobStatus : Type 0 where
  queued running retry_wait pause_requested paused cancel_requested : JobStatus
  succeeded succeeded_with_warnings failed canceled : JobStatus

pub data TaskStatus : Type 0 where
  queued running retry_wait cancel_requested succeeded failed canceled : TaskStatus

pub data Visibility : Type 0 where
  user admin system : Visibility

pub data AttemptStatus : Type 0 where
  running succeeded failed canceled interrupted : AttemptStatus

pub record Job : Type 0 where
  pub id : ℕ
  pub kind : String
  pub status : JobStatus
  pub visibility : Visibility
  pub owner_id : Option ℕ
  pub subject_type : String
  pub subject_id : String
  pub idempotency_key : String
  pub label : String
  pub phase : String
  pub progress : ℕ
  pub result_type : String
  pub result_id : String
  pub error_code : String
  pub error_message : String
  pub pausable : Bool
  pub pause_requested_at : Option ℕ
  pub paused_at : Option ℕ
  pub cancel_requested_at : Option ℕ
  pub started_at : Option ℕ
  pub finished_at : Option ℕ
  pub created_at : ℕ

pub record Task : Type 0 where
  pub id : ℕ
  pub job_id : ℕ
  pub parent_task_id : Option ℕ
  pub kind : String
  pub queue : String
  pub status : TaskStatus
  pub phase : String
  pub payload_version : ℕ
  pub payload : String
  pub result : String
  pub dedupe_key : String
  pub priority : ℕ
  pub required : Bool
  pub weight : ℕ
  pub progress : ℤ
  pub progress_message : String
  pub attempt_count : ℕ
  pub max_attempts : ℕ
  pub run_after : Option ℕ
  pub heartbeat_at : Option ℕ
  pub error_code : String
  pub error_message : String
  pub cancel_requested_at : Option ℕ
  pub commit_started_at : Option ℕ
  pub started_at : Option ℕ
  pub finished_at : Option ℕ
  pub created_at : ℕ

pub record Attempt : Type 0 where
  pub id : ℕ
  pub task_id : ℕ
  pub number : ℕ
  pub status : AttemptStatus
  pub worker : String
  pub error_code : String
  pub error_message : String
  pub diagnostics : String
  pub started_at : ℕ
  pub finished_at : Option ℕ

pub record Event : Type 0 where
  pub job_id : ℕ
  pub task_id : Option ℕ
  pub type : String
  pub actor_id : Option ℕ
  pub actor_name : String
  pub message : String
  pub metadata : String

pub record QueueState : Type 0 where
  pub name : String
  pub paused : Bool
  pub paused_by : Option ℕ
  pub paused_at : Option ℕ

pub record TaskSpec : Type 0 where
  pub kind : String
  pub queue : String
  pub phase : String
  pub payload_version : ℕ
  pub payload : Option String
  pub dedupe_key : String
  pub priority : ℕ
  pub required : Bool
  pub weight : ℕ
  pub max_attempts : ℕ
  pub run_after : Option ℕ
  pub parent_task_id : Option ℕ

pub record JobSpec : Type 0 where
  pub kind : String
  pub visibility : Option Visibility
  pub owner_id : Option ℕ
  pub subject_type : String
  pub subject_id : String
  pub idempotency_key : String
  pub label : String
  pub pausable : Bool
  pub tasks : List TaskSpec

-- What a handler returns when it succeeds.
pub record Result : Type 0 where
  pub value : Option String
  pub result_type : String
  pub result_id : String
  pub phase : String
  pub children : List TaskSpec

unfoldable pub terminal_job_status : JobStatus → Bool
terminal_job_status JobStatus.succeeded = true
terminal_job_status JobStatus.succeeded_with_warnings = true
terminal_job_status JobStatus.failed = true
terminal_job_status JobStatus.canceled = true
terminal_job_status _ = false

unfoldable pub terminal_task_status : TaskStatus → Bool
terminal_task_status TaskStatus.succeeded = true
terminal_task_status TaskStatus.failed = true
terminal_task_status TaskStatus.canceled = true
terminal_task_status _ = false

-- `status IN (running, cancel_requested)`: a worker holds the task.
unfoldable pub held_status : TaskStatus → Bool
held_status TaskStatus.running = true
held_status TaskStatus.cancel_requested = true
held_status _ = false

-- `status IN (queued, retry_wait)`: the task waits for a worker.
unfoldable pub waiting_status : TaskStatus → Bool
waiting_status TaskStatus.queued = true
waiting_status TaskStatus.retry_wait = true
waiting_status _ = false
