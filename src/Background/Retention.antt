-- ===== src/Background/Retention.antt =====
-- Retain, SetQueuePaused and ensureQueues of background/runtime.go.
use text.Mathlib.Text.{◌==◌ as str_eq}
use videocms.Base.{
  ℕ, ◌-◌, Bool, false, not, ◌&&◌, ◌||◌, Option, none, some, String, List, [], ◌∷◌, ◌++◌, ◌==◌, ltb,
  if◌then◌else◌, count_where, select, update_where,
}
use videocms.Background.Types.{Job, Task, Attempt, QueueState, terminal_job_status}
use videocms.Background.Database.{Db, Error, Outcome, ok, err}
use videocms.Background.Reduce.{is_success}

abbrev pub day : ℕ
day = 86400000000000

abbrev finished_before : ℕ → Option ℕ → Bool
finished_before before none = false
finished_before before (some at) = ltb at before

-- A terminal job that ended before the limit; an audit record that succeeded, after a day.
unfoldable pub is_expired : ℕ → ℕ → Job → Bool
unfolding terminal_job_status
is_expired now before job =
    terminal_job_status job.status
    && (finished_before before job.finished_at
        || (str_eq job.kind "audit.record"
            && (is_success job.status && finished_before (now - day) job.finished_at)))

unfoldable pub job_expired : ℕ → ℕ → List Job → ℕ → Bool
unfolding is_expired
job_expired now before jobs id =
    ltb 0 (count_where (λ (job : Job). is_expired now before job && job.id == id) jobs)

unfoldable pub task_expired : ℕ → ℕ → Db → ℕ → Bool
unfolding job_expired
task_expired now before db id = ltb 0 (
    count_where (λ (task : Task). task.id == id && job_expired now before db.jobs task.job_id)
      db.tasks)

-- The rows that stay, and how many jobs go.
unfoldable pub retain : ℕ → ℕ → Db → Db × ℕ
unfolding is_expired job_expired task_expired
retain now before db = (
  record db {
    attempts = select (λ (a : Attempt). not (task_expired now before db a.task_id)) db.attempts;
    events = select (λ e. not (job_expired now before db.jobs e.job_id)) db.events;
    tasks = select (λ (t : Task). not (job_expired now before db.jobs t.job_id)) db.tasks;
    jobs = select (λ (j : Job). not (job_expired now before db.jobs j.id)) db.jobs;
  },
  count_where (is_expired now before) db.jobs,
)

unfoldable pub set_queue_paused : ℕ → String → Bool → ℕ → Db → Outcome Db
set_queue_paused now queue paused actor_id db =
    if count_where (λ (q : QueueState). str_eq q.name queue) db.queues == 1
    then ok (record db {
      queues =
          update_where (λ (q : QueueState). str_eq q.name queue)
            (λ q. record q {
              paused = paused;
              paused_by = if paused then some actor_id else none;
              paused_at = if paused then some now else none;
            })
            db.queues;
    })
    else err Error.not_found

abbrev pub queue_names : List String
queue_names = "ffmpeg" ∷ "network" ∷ "storage" ∷ "maintenance" ∷ "audit" ∷ []

-- FirstOrCreate for each name.
unfoldable pub ensure_queues : List String → List QueueState → List QueueState
ensure_queues [] queues = queues
ensure_queues (name ∷ names) queues = ensure_queues names (
    if ltb 0 (count_where (λ (q : QueueState). str_eq q.name name) queues)
    then queues
    else queues ++ record { name = name; paused = false; paused_by = none; paused_at = none } ∷ [])
