-- ===== src/Background/Reduce.antt =====
-- recomputeJob of background/runtime.go: a job's status and progress are reduced from its tasks.
use videocms.Base.{
  ℤ, pos, negsuc, ℕ, suc, Bool, true, false, not, ◌&&◌, ◌||◌, Option, none, some, String, List, [],
  ◌∷◌, ◌==◌, ltb, if◌then◌else◌, is_some, add64, mul64, div64, gt64,
}
use videocms.Background.Types.{Job, JobStatus, Task, TaskStatus, terminal_job_status}
use videocms.Background.Text.{Library, is_empty, bounded_message}
use videocms.Background.Database.{Db, Outcome, ok, ◌>>=◌, find_job, has_id, tasks_of, update_jobs}

-- The local variables of the loop over the tasks. The two weights are int64s, as bit patterns; the
-- counts stay below the number of the tasks.
pub record Tally : Type 0 where
  pub phase : String
  pub last_phase : String
  pub total_weight : ℕ
  pub completed_weight : ℕ
  pub running : ℕ
  pub waiting : ℕ
  pub queued : ℕ
  pub failed_required : ℕ
  pub failed_optional : ℕ
  pub canceled_required : ℕ
  pub canceled_optional : ℕ
  pub error_code : String
  pub error_message : String

unfoldable pub no_tasks : Tally
no_tasks = record {
  phase = "";
  last_phase = "";
  total_weight = 0;
  completed_weight = 0;
  running = 0;
  waiting = 0;
  queued = 0;
  failed_required = 0;
  failed_optional = 0;
  canceled_required = 0;
  canceled_optional = 0;
  error_code = "";
  error_message = "";
}

unfoldable pub effective_weight : ℕ → ℕ
effective_weight weight = if ltb weight 1 then 1 else weight

unfoldable pub clamp_progress : ℤ → ℕ
clamp_progress (negsuc _) = 0
clamp_progress (pos progress) = if ltb 10000 progress then 10000 else progress

-- A succeeded task counts as complete.
unfoldable pub effective_progress : TaskStatus → ℤ → ℕ
unfolding clamp_progress
effective_progress TaskStatus.succeeded progress = 10000
effective_progress _ progress = clamp_progress progress

abbrev first_phase : Tally → Task → String
first_phase n task = if is_empty n.phase then task.phase else n.phase

abbrev with_error : Tally → Task → Tally
with_error n task =
    if is_empty n.error_code
    then record n { error_code = task.error_code; error_message = task.error_message }
    else n

-- The switch on the task's status.
unfoldable pub count_status : TaskStatus → Task → Tally → Tally
count_status TaskStatus.running task n = record n {
  running = suc n.running;
  phase = first_phase n task;
}
count_status TaskStatus.cancel_requested task n = record n {
  running = suc n.running;
  phase = first_phase n task;
}
count_status TaskStatus.retry_wait task n = record n {
  waiting = suc n.waiting;
  phase = first_phase n task;
}
count_status TaskStatus.queued task n = record n {
  queued = suc n.queued;
  phase = first_phase n task;
}
count_status TaskStatus.failed task n =
    with_error
      (if task.required
        then record n { failed_required = suc n.failed_required }
        else record n { failed_optional = suc n.failed_optional })
      task
count_status TaskStatus.canceled task n =
    with_error
      (if task.required
        then record n { canceled_required = suc n.canceled_required }
        else record n { canceled_optional = suc n.canceled_optional })
      task
count_status TaskStatus.succeeded task n = n

unfoldable pub count_task : Tally → Task → Tally
unfolding add64 mul64 effective_weight effective_progress count_status
count_task n task =
    let weight = effective_weight task.weight in
    let progress = effective_progress task.status task.progress in
    count_status task.status task (record n {
      last_phase = if is_empty task.phase then n.last_phase else task.phase;
      total_weight = add64 n.total_weight (mul64 weight 10000);
      completed_weight = add64 n.completed_weight (mul64 weight progress);
    })

unfoldable pub tally_from : Tally → List Task → Tally
tally_from n [] = n
tally_from n (task ∷ tasks) = tally_from (count_task n task) tasks

unfoldable pub is_terminal : Tally → Bool
is_terminal n = n.running == 0 && (n.waiting == 0 && n.queued == 0)

-- The status of a job by its two requests and its tally.
unfoldable pub reduced_status : Option ℕ → Option ℕ → Tally → JobStatus
unfolding is_terminal
reduced_status cancel pause n =
    if not (is_terminal n)
    then (if is_some cancel
        then JobStatus.cancel_requested
        else if is_some pause && ltb 0 n.running
        then JobStatus.pause_requested
        else if is_some pause
        then JobStatus.paused
        else if ltb 0 n.running
        then JobStatus.running
        else if ltb 0 n.waiting
        then JobStatus.retry_wait
        else JobStatus.queued)
    else if ltb 0 n.failed_required
    then JobStatus.failed
    else if is_some cancel || ltb 0 n.canceled_required
    then JobStatus.canceled
    else if ltb 0 n.failed_optional || ltb 0 n.canceled_optional
    then JobStatus.succeeded_with_warnings
    else JobStatus.succeeded

-- The outcomes that report a job as complete.
abbrev pub is_success : JobStatus → Bool
is_success JobStatus.succeeded = true
is_success JobStatus.succeeded_with_warnings = true
is_success _ = false

unfoldable pub reduced_progress : JobStatus → Tally → ℕ
unfolding gt64 div64
reduced_progress status n =
    if is_success status
    then 10000
    else if gt64 n.total_weight 0
    then div64 n.completed_weight (div64 n.total_weight 10000)
    else 0

-- paused_at by the new status: COALESCE(paused_at, now), kept, or cleared.
abbrev paused_since : JobStatus → ℕ → Option ℕ → Option ℕ
paused_since JobStatus.paused now none = some now
paused_since JobStatus.paused now (some since) = some since
paused_since JobStatus.pause_requested now since = since
paused_since _ now since = none

abbrev starts : JobStatus → Bool
starts JobStatus.running = true
starts JobStatus.retry_wait = true
starts _ = false

-- The updates, when the job has tasks.
unfoldable pub save_tally : Library → ℕ → Tally → Job → Job
unfolding reduced_status reduced_progress terminal_job_status
save_tally lib now n job =
    let status = reduced_status job.cancel_requested_at job.pause_requested_at n in
    record job {
      status = status;
      phase = bounded_message lib (if is_empty n.phase then n.last_phase else n.phase) 120;
      progress = reduced_progress status n;
      error_code = bounded_message lib n.error_code 80;
      error_message = bounded_message lib n.error_message 512;
      pause_requested_at = if terminal_job_status status then none else job.pause_requested_at;
      paused_at = paused_since status now job.paused_at;
      started_at =
          if starts status && not (is_some job.started_at) then some now else job.started_at;
      finished_at = if terminal_job_status status then some now else none;
    }

-- A job without tasks is left alone.
unfoldable pub reduce_job : Library → ℕ → List Task → Job → Job
unfolding tally_from count_task no_tasks save_tally
reduce_job lib now [] job = job
reduce_job lib now (task ∷ tasks) job = save_tally lib now (tally_from no_tasks (task ∷ tasks)) job

unfoldable pub recompute_job : Library → ℕ → ℕ → Db → Outcome Db
unfolding find_job update_jobs reduce_job
recompute_job lib now id db = do
  _ ← find_job id db
  ok (update_jobs (has_id id) (reduce_job lib now (tasks_of id db.tasks)) db)
