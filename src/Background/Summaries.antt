-- ===== src/Background/Summaries.antt =====
-- Summary of background/store.go and QueueSummaries of background/runtime.go, the latter for one
-- queue: what they count, and what the counts mean for the dispatch.
use text.Mathlib.Text.{◌==◌ as str_eq}
use videocms.Base.{
  ℕ, ◌+◌, ◌-◌, ◌≡◌, refl, inl, inr, Bool, true, false, ◌&&◌, Option, none, some, String, List, [],
  ◌∷◌, arith, leb, length, count_where, first, select, select_none, All, All-map, Bool-cases,
}
use videocms.Background.Types.{
  Job, JobStatus, Task, QueueState, waiting_status, terminal_job_status,
}
use videocms.Background.Text.{Library}
use videocms.Background.Database.{Db, ok}
use videocms.Background.Runtime.{Runtime, capacity, active_count}
use videocms.Background.Retention.{day}
use videocms.Background.Claim.{is_dispatchable, is_eligible, next_task, claim}

pub record Summary : Type 0 where
  pub running : ℕ
  pub waiting : ℕ
  pub paused : ℕ
  pub failed_24h : ℕ
  pub paused_queues : ℕ

abbrev is_running_status : JobStatus → Bool
is_running_status JobStatus.running = true
is_running_status _ = false

abbrev is_waiting_status : JobStatus → Bool
is_waiting_status JobStatus.queued = true
is_waiting_status JobStatus.retry_wait = true
is_waiting_status JobStatus.cancel_requested = true
is_waiting_status _ = false

abbrev is_paused_status : JobStatus → Bool
is_paused_status JobStatus.pause_requested = true
is_paused_status JobStatus.paused = true
is_paused_status _ = false

abbrev is_failed_status : JobStatus → Bool
is_failed_status JobStatus.failed = true
is_failed_status _ = false

-- A NULL is not at or after any time.
abbrev finished_since : ℕ → Option ℕ → Bool
finished_since from none = false
finished_since from (some at) = leb from at

unfoldable pub summary : ℕ → Db → Summary
summary now db = record {
  running = count_where (λ (job : Job). is_running_status job.status) db.jobs;
  waiting = count_where (λ (job : Job). is_waiting_status job.status) db.jobs;
  paused = count_where (λ (job : Job). is_paused_status job.status) db.jobs;
  failed_24h =
      count_where
        (λ (job : Job). is_failed_status job.status && finished_since (now - day) job.finished_at)
        db.jobs;
  paused_queues = count_where (λ (state : QueueState). state.paused) db.queues;
}

pub record QueueSummary : Type 0 where
  pub state : QueueState
  pub capacity : ℕ
  pub active : ℕ
  pub waiting : ℕ
  pub oldest_at : Option ℕ

unfoldable pub is_waiting_in : String → Db → Task → Bool
unfolding waiting_status is_dispatchable
is_waiting_in queue db task =
    str_eq task.queue queue && (waiting_status task.status && is_dispatchable db.jobs task.job_id)

abbrev created : Option Task → Option ℕ
created none = none
created (some task) = some task.created_at

-- One turn of the loop of QueueSummaries.
unfoldable pub queue_summary : Option (String → ℕ) → Runtime → QueueState → QueueSummary
unfolding capacity active_count is_waiting_in
queue_summary configured r state = record {
  state = state;
  capacity = capacity configured state.name;
  active = active_count state.name r;
  waiting = count_where (is_waiting_in state.name r.db) r.db.tasks;
  oldest_at = created (first (is_waiting_in state.name r.db) r.db.tasks);
}

count_statuses :
    (jobs : List Job)
    → count_where (λ (job : Job). is_running_status job.status) jobs
        + count_where (λ (job : Job). is_waiting_status job.status) jobs
        + count_where (λ (job : Job). is_paused_status job.status) jobs
        + count_where (λ (job : Job). terminal_job_status job.status) jobs
      ≡ length jobs
unfolding count_where terminal_job_status
count_statuses [] = refl
count_statuses (job ∷ jobs) = ground (arith, count_statuses jobs)

-- Each job is counted exactly once: as running, waiting or paused by Summary, or it is in a final
-- status.
pub summary-length :
    (now : ℕ) (db : Db)
    → let s = summary now db in
      s.running
        + s.waiting
        + s.paused
        + count_where (λ (job : Job). terminal_job_status job.status) db.jobs
      ≡ length db.jobs
unfolding summary
summary-length now db = count_statuses db.jobs

count_where-none {ℓ} :
    {A : Type ℓ} (p : A → Bool) (xs : List A) → count_where p xs ≡ 0 → All (λ x. p x ≡ false) xs
unfolding count_where
count_where-none p [] e = tt
count_where-none p (x ∷ xs) e = elim (Bool-cases (p x)) [
  | inl hit ↦ absurd (ground arith)
  | inr miss ↦ (miss, count_where-none p xs (ground arith))
]

-- If the summary of a queue counts nothing as waiting, then claim finds no task in it, at any time.
pub queue_summary-claim :
    (configured : Option (String → ℕ)) (r : Runtime) (state : QueueState)
    → (queue_summary configured r state).waiting ≡ 0
    → (lib : Library) (worker : String) (attempt_id now : ℕ)
    → claim lib worker attempt_id now state.name r.db ≡ ok none
unfolding queue_summary claim next_task
queue_summary-claim configured r state idle lib worker attempt_id now =
    let none_ready : select (is_eligible state.name now r.db) r.db.tasks ≡ [] =
      select_none (is_eligible state.name now r.db) r.db.tasks (
        All-map {P = λ t. is_waiting_in state.name r.db t ≡ false}
          {Q = λ t. is_eligible state.name now r.db t ≡ false}
          (λ t h. unfold is_eligible is_waiting_in in ground arith) r.db.tasks
          (count_where-none (is_waiting_in state.name r.db) r.db.tasks idle)) in
    rw none_ready refl
