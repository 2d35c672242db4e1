-- ===== src/Background/Claim.antt =====
-- claim, launch and dispatchAvailable of background/runtime.go: which task starts next. uuid.NewString
-- is an argument, the identifier that it returns.
use text.Mathlib.Text.{◌==◌ as str_eq}
use videocms.Base.{
  ℕ, zero, suc, ◌+◌, Bool, true, false, not, ◌&&◌, Option, none, some, String, List, [], ◌∷◌, ◌++◌,
  ◌==◌, ltb, leb, if◌then◌else◌, is_some, count_where, select,
}
use videocms.Background.Types.{
  Job, Task, TaskStatus, Attempt, AttemptStatus, QueueState, waiting_status,
}
use videocms.Background.Text.{Library}
use videocms.Background.Database.{
  Db, Error, Outcome, ok, err, ◌>>=◌, ◌>>◌, refuse_if, or_error, task_has_id, update_tasks,
  add_event,
}
use videocms.Background.Reduce.{recompute_job}
use videocms.Background.Runtime.{Runtime, available}

unfoldable pub is_due : ℕ → Option ℕ → Bool
is_due now none = true
is_due now (some at) = leb at now

-- job_id IN (SELECT id … WHERE pause_requested_at IS NULL AND cancel_requested_at IS NULL).
unfoldable pub is_dispatchable : List Job → ℕ → Bool
is_dispatchable jobs id = ltb 0 (
    count_where
      (λ (job : Job).
        job.id == id
        && (not (is_some job.pause_requested_at) && not (is_some job.cancel_requested_at)))
      jobs)

unfoldable pub is_eligible : String → ℕ → Db → Task → Bool
unfolding waiting_status is_due is_dispatchable
is_eligible queue now db task =
    str_eq task.queue queue
    && (waiting_status task.status
        && (is_due now task.run_after && is_dispatchable db.jobs task.job_id))

-- A waiting task gains one point of priority a minute.
unfoldable pub score : Library → ℕ → Task → ℕ
score lib now task = task.priority + lib.age_minutes now task.created_at

-- ORDER BY the score DESC, created_at ASC, id ASC.
unfoldable pub goes_before : Library → ℕ → Task → Task → Bool
unfolding score
goes_before lib now a b =
    if ltb (score lib now b) (score lib now a)
    then true
    else if ltb (score lib now a) (score lib now b)
    then false
    else if ltb a.created_at b.created_at
    then true
    else if ltb b.created_at a.created_at
    then false
    else ltb a.id b.id

unfoldable pub best_of : Library → ℕ → Task → List Task → Task
unfolding goes_before
best_of lib now best [] = best
best_of lib now best (task ∷ tasks) =
    best_of lib now (if goes_before lib now task best then task else best) tasks

unfoldable pub next_task : Library → ℕ → List Task → Option Task
unfolding best_of
next_task lib now [] = none
next_task lib now (task ∷ tasks) = some (best_of lib now task tasks)

abbrev or_now : ℕ → Option ℕ → Option ℕ
or_now now none = some now
or_now now (some at) = some at

unfoldable pub start : ℕ → Task → Task
start now task = record task {
  status = TaskStatus.running;
  attempt_count = task.attempt_count + 1;
  started_at = or_now now task.started_at;
  heartbeat_at = some now;
  run_after = none;
  commit_started_at = none;
  error_code = "";
  error_message = "";
  finished_at = none;
}

-- The update's condition: the task chosen, still waiting, of a job still dispatchable.
unfoldable pub is_claimable : ℕ → Db → Task → Bool
unfolding task_has_id waiting_status is_dispatchable
is_claimable id db task =
    task_has_id id task && (waiting_status task.status && is_dispatchable db.jobs task.job_id)

-- The struct that the worker gets: `attempt_count` and the status as in the table.
abbrev pub started_copy : ℕ → Task → Task
started_copy now task = record task {
  status = TaskStatus.running;
  attempt_count = task.attempt_count + 1;
  started_at = some now;
}

abbrev pub new_attempt : ℕ → String → ℕ → Task → Attempt
new_attempt id worker now task = record {
  id = id;
  task_id = task.id;
  number = task.attempt_count + 1;
  status = AttemptStatus.running;
  worker = worker;
  error_code = "";
  error_message = "";
  diagnostics = "";
  started_at = now;
  finished_at = none;
}

-- The task is started, and its attempt recorded.
unfoldable pub claim_edit : ℕ → Attempt → Task → Db → Db
claim_edit now attempt task db =
    let claimed = update_tasks (is_claimable task.id db) (start now) db in
    record claimed { attempts = db.attempts ++ attempt ∷ [] }

unfoldable pub claim_task : Library → String → ℕ → ℕ → Task → Db → Outcome (Task × Attempt × Db)
unfolding add_event
claim_task lib worker attempt_id now task db = do
  refuse_if (not (count_where (is_claimable task.id db) db.tasks == 1)) Error.not_found
  let attempt = new_attempt attempt_id worker now task
  db' ← recompute_job lib now task.job_id (claim_edit now attempt task db)
  ok (
    started_copy now task,
    attempt,
    add_event lib
        (record {
          job_id = task.job_id;
          task_id = some task.id;
          type = "task_started";
          actor_id = none;
          actor_name = "";
          message = lib.sprintf "Attempt %d started" (attempt.number ∷ []);
          metadata = "";
        })
        db',
  )

-- ErrRecordNotFound means that no task is ready.
abbrev pub found {ℓ} : {A : Type ℓ} → Outcome A → Outcome (Option A)
found (ok a) = ok (some a)
found (err Error.not_found) = ok none
found (err e) = err e

unfoldable pub claim :
    Library → String → ℕ → ℕ → String → Db → Outcome (Option (Task × Attempt × Db))
unfolding claim_task
claim lib worker attempt_id now queue db = found do
  task ← or_error (next_task lib now (select (is_eligible queue now db) db.tasks)) Error.not_found
  claim_task lib worker attempt_id now task db

-- r.active[task.ID] = …: an entry of the same key is replaced.
unfoldable pub launch : Task → Runtime → Runtime
launch task r = record r {
  active =
      record { task_id = task.id; queue = task.queue; job_id = task.job_id; cause = none }
      ∷ select (λ a. not (a.task_id == task.id)) r.active;
}

-- The worker's last step: delete(r.active, task.ID).
unfoldable pub retire : ℕ → Runtime → Runtime
retire task_id r = record r { active = select (λ a. not (a.task_id == task_id)) r.active }

-- The loop of dispatchAvailable over the free places of a queue, with the tasks that it starts. An
-- error or an empty queue ends it. Attempt identifiers come from `uuid`.
unfoldable pub dispatch_rounds :
    Library → String → (ℕ → ℕ) → ℕ → String → ℕ → Runtime → Runtime × List Task
unfolding claim launch
dispatch_rounds lib worker uuid now queue zero r = (r, [])
dispatch_rounds lib worker uuid now queue (suc rounds) r =
    elim (claim lib worker (uuid rounds) now queue r.db) [
      | err e ↦ (r, [])
      | ok none ↦ (r, [])
      | ok (some (task, attempt, db)) ↦
          let (r', started) =
            dispatch_rounds lib worker uuid now queue rounds (launch task (record r { db = db })) in
          (r', task ∷ started)
    ]

-- queuePaused: a queue without a row is not dispatched.
unfoldable pub queue_open : String → Db → Bool
queue_open queue db =
    ltb 0
      (count_where (λ (state : QueueState). str_eq state.name queue && not state.paused) db.queues)

unfoldable pub dispatch_queue :
    Library → String → (ℕ → ℕ) → Option (String → ℕ) → ℕ → String → Runtime → Runtime × List Task
unfolding dispatch_rounds queue_open
dispatch_queue lib worker uuid configured now queue r =
    if queue_open queue r.db
    then dispatch_rounds lib worker uuid now queue (available configured queue r) r
    else (r, [])
