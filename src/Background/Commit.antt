-- ===== src/Background/Commit.antt =====
-- ReportProgress and BeginCommit of background/runtime.go, which a handler calls while it runs.
use videocms.Base.{
  ℤ, pos, negsuc, ℕ, ◌+◌, Bool, true, false, not, ◌&&◌, ◌||◌, Option, none, some, String, ◌==◌, ltb,
  if◌then◌else◌, is_some, count_where,
}
use videocms.Background.Types.{Task, TaskStatus, held_status}
use videocms.Background.Text.{Library, is_empty, bounded_message}
use videocms.Background.Database.{
  Db, Error, Outcome, ok, err, ◌>>=◌, ◌>>◌, refuse_if, find_job, find_task, task_has_id,
  update_tasks,
}
use videocms.Background.Reduce.{recompute_job}

-- executionReporter.
pub record Reporter : Type 0 where
  pub task_id : ℕ
  pub last_at : Option ℕ
  pub last : ℤ

-- `int(progress * 10000)`, held to 0 … 9999: only the end of a task reports 10000.
unfoldable pub report_value : ℤ → ℕ
report_value (negsuc _) = 0
report_value (pos value) = if ltb 9999 value then 9999 else value

-- value - last < 100.
abbrev is_small_step : ℕ → ℤ → Bool
is_small_step value (pos last) = ltb value (last + 100)
is_small_step value (negsuc last) = ltb (value + last + 1) 100

abbrev is_recent : ℕ → Option ℕ → Bool
is_recent now none = false
is_recent now (some at) = ltb now (at + 500000000)

unfoldable pub is_throttled : ℕ → ℕ → Reporter → Bool
is_throttled now value reporter =
    is_recent now reporter.last_at && is_small_step value reporter.last

abbrev pub is_held_task : ℕ → Task → Bool
is_held_task id task = task_has_id id task && held_status task.status

abbrev pub set_progress : Library → ℕ → ℕ → String → Task → Task
set_progress lib now value message task = record task {
  progress = pos value;
  progress_message = bounded_message lib message 255;
  heartbeat_at = some now;
}

unfoldable pub progress_tx : Library → ℕ → ℕ → ℕ → String → Db → Outcome Db
progress_tx lib now task_id value message db =
    elim (count_where (is_held_task task_id) db.tasks == 0) [
      | true ↦ ok db
      | false ↦
          let db' = update_tasks (is_held_task task_id) (set_progress lib now value message) db in
          find_task task_id db' >>= λ task. recompute_job lib now task.job_id db'
    ]

-- An error of the transaction is logged, and the report dropped.
unfoldable pub report_progress : Library → ℕ → ℤ → String → Reporter → Db → Reporter × Db
unfolding report_value is_throttled progress_tx
report_progress lib now progress message reporter db =
    let value = report_value progress in
    if is_throttled now value reporter then (reporter, db) else (
      record reporter { last_at = some now; last = pos value },
      elim (progress_tx lib now reporter.task_id value message db) [ ok db' ↦ db' | err _ ↦ db ],
    )

abbrev pub is_running : TaskStatus → Bool
is_running TaskStatus.running = true
is_running _ = false

unfoldable pub may_commit : ℕ → Task → Bool
unfolding task_has_id
may_commit id task =
    task_has_id id task && (is_running task.status && not (is_some task.cancel_requested_at))

abbrev pub begin_commit_task : Library → ℕ → String → Task → Task
begin_commit_task lib now phase task = record task {
  phase = bounded_message lib phase 120;
  commit_started_at = some now;
}

unfoldable pub commit_edit : Library → ℕ → ℕ → String → Db → Db
commit_edit lib now task_id phase db =
    update_tasks (may_commit task_id) (begin_commit_task lib now phase) db

unfoldable pub commit_tx : Library → ℕ → ℕ → String → Db → Outcome Db
commit_tx lib now task_id phase db = do
  task ← find_task task_id db
  refuse_if (not (is_running task.status)) Error.conflict
  job ← find_job task.job_id db
  refuse_if (is_some job.cancel_requested_at || is_some job.pause_requested_at) Error.conflict
  refuse_if (not (count_where (may_commit task_id) db.tasks == 1)) Error.conflict
  recompute_job lib now task.job_id (commit_edit lib now task_id phase db)

-- With a reporter in the context; the answer is whether the commit may go on.
unfoldable pub begin_commit : Library → ℕ → ℕ → String → Db → Bool × Db
unfolding is_empty commit_tx
begin_commit lib now task_id phase db =
    if is_empty (lib.trim_space phase)
    then (false, db)
    else elim (commit_tx lib now task_id phase db) [ ok db' ↦ (true, db') | err _ ↦ (false, db) ]
