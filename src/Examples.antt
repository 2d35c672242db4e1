-- ===== src/Examples.antt =====
-- Concrete tables and runs of the background runtime: each theorem at an input that it is about.
use videocms.Base.{
  negsuc, ℕ, ◌+◌, ◌≤◌, ◌<◌, ◌≡◌, refl, inr, ◌↔◌, ◌⊎◌, Bool, true, false, Option, none, some, String,
  [], ◌∷◌, arith, All, count_where, ◌==◌,
}
use videocms.Background.Types.{
  Job, JobStatus, Task, TaskStatus, Attempt, held_status, waiting_status, terminal_job_status,
  terminal_task_status,
}
use videocms.Background.Database.{Db, Error, Outcome, ok, err, find_task}
use videocms.Background.Reduce.{reduce_job, effective_weight}
use videocms.Base.{sum_of}
use videocms.Background.Runtime.{active_count, capacity}
use videocms.Background.Control.{pause_tx, cancel_tx}
use videocms.Background.TaskControl.{cancel_task_tx}
use videocms.Background.Commit.{begin_commit}
use videocms.Background.Capabilities.{listed_capabilities, detail_capabilities}
use videocms.Background.Claim.{claim, score, is_eligible, start, dispatch_queue}
use videocms.Background.Finish.{finish, failed_edit, failure_verdict, retry_delay, max_delay}
use videocms.Background.Recovery.{recover, is_running_attempt}
use videocms.Background.Retention.{retain}
use videocms.Background.Fence.{begin_commit-fences, cancel_tx-fences}
use videocms.Background.Histories.{none_yet, then, cancels, IsSound, History-IsSound}
use videocms.Background.Offers.{listed-pause, listed-cancel, detail-pause-refused}
use videocms.Background.Status.{
  reduce_job_finished, reduce_job-succeeded, reduce_job-progress_le, is_succeeded,
}
use videocms.Background.Retries.{retry_delay_bounds, transient-retry, claim-finish-budget}
use videocms.Background.Endings.{finish-free, finish-success}
use videocms.Background.Scheduling.{claim-best, dispatch_queue-capacity}
use videocms.Background.Restart.{recover-free}
use videocms.Background.Cleanup.{retain-no_orphans}
use videocms.Background.Consistent.{IsConsistent}
use videocms.Background.Stranded.{finish-strands}
use videocms.Background.NewJobs.{enqueue-IsConsistent}
use videocms.Background.Idempotent.{enqueue-again}
use videocms.Background.Schedules.{ScheduleDefinition, Outside, run_due_schedules}
use videocms.Background.Timely.{IsQuiet, run_due_schedules-again}
use videocms.Background.Enqueue.{enqueue}
use videocms.Background.Summaries.{
  summary, queue_summary, is_waiting_in, summary-length, queue_summary-claim,
}
use videocms.Samples.{
  open_queue, library, waiting_task, running_task, committing_task, queued_job, running_job, tables,
  first_attempt, empty_result, network_error, deferral, running_code, after, import_spec,
  enqueuing_code, names, cleanup, due,
}
pub mod Uploads
pub mod Folders
pub mod Downloads

abbrev committed : Db
committed = (begin_commit library 5 7 "Saving" (tables running_job running_task)).1

begin_commit-fences_example :
    (cancel_tx library 6 1 4 "ada" committed ≡ err Error.commit_started)
    × (cancel_task_tx library 6 7 4 "ada" committed ≡ err Error.commit_started)
    × ((pause_tx library 6 1 4 "ada" committed ≡ err Error.commit_started)
        ⊎ (pause_tx library 6 1 4 "ada" committed ≡ err Error.conflict))
unfolding running_code
begin_commit-fences_example =
    begin_commit-fences library 5 7 "Saving" (tables running_job running_task) running_task
      {db' = committed} (tt, tt) refl {job = running_job} refl refl 6 4 "ada"

abbrev stopped : Db
unfolding after
stopped =
    after (tables running_job running_task)
      (cancel_tx library 5 1 4 "ada" (tables running_job running_task))

abbrev stopping_task : Task
stopping_task = record running_task {
  status = TaskStatus.cancel_requested;
  cancel_requested_at = some 5;
}

cancel_tx-fences_example : begin_commit library 6 7 "Saving" stopped ≡ (false, stopped)
unfolding running_code after
cancel_tx-fences_example =
    cancel_tx-fences library 5 1 4 "ada" (tables running_job running_task) {job = running_job}
      {task = stopping_task} {db' = stopped} refl refl 6 7 "Saving" refl refl

tables-IsSound : IsSound (tables running_job running_task)
unfolding running_code
tables-IsSound = record { consistent = (inr refl, tt); keyed = (tt, tt) }

History-IsSound_example : IsSound stopped
unfolding running_code after
History-IsSound_example =
    History-IsSound {lib = library}
      (then none_yet
        (cancels {db = tables running_job running_task} {db' = stopped} 5 1 4 "ada" refl))
      tables-IsSound

abbrev PausedOutcome : Type 0
PausedOutcome =
    (db' : Db) × (pause_tx library 5 1 4 "ada" (tables running_job running_task) ≡ ok db')

listed-pause_example :
    ((listed_capabilities (tables running_job running_task) running_job).can_pause ≡ true)
    ↔ PausedOutcome
unfolding running_code
listed-pause_example =
    listed-pause library 5 4 "ada" (tables running_job running_task) {job = running_job} refl
      tables-IsSound.consistent (λ e. cc)

listed-cancel_example :
    (db' : Db) × (cancel_tx library 5 1 4 "ada" (tables running_job running_task) ≡ ok db')
unfolding running_code listed_capabilities
listed-cancel_example =
    listed-cancel library 5 4 "ada" (tables running_job running_task) {job = running_job} refl refl

detail-pause-refused_example :
    ((detail_capabilities (tables running_job committing_task) running_job).can_pause ≡ true)
    × ((listed_capabilities (tables running_job committing_task) running_job).can_pause ≡ false)
    × (pause_tx library 5 1 4 "ada" (tables running_job committing_task) ≡ err Error.commit_started)
unfolding running_code
detail-pause-refused_example =
    detail-pause-refused library 5 4 "ada" (tables running_job committing_task) {job = running_job}
      refl (inr refl, tt) (λ e. cc) refl refl (omega arith)

reduce_job_finished_example :
    (terminal_job_status (reduce_job library 5 (running_task ∷ []) running_job).status ≡ true)
    ↔ All (λ t. terminal_task_status t.status ≡ true) (running_task ∷ [])
reduce_job_finished_example = reduce_job_finished library 5 running_task [] running_job

reduce_job-succeeded_example :
    ((reduce_job library 5 (running_task ∷ []) running_job).status ≡ JobStatus.succeeded)
    ↔ (All (λ t. is_succeeded t.status ≡ true) (running_task ∷ []) × ◌≡◌ {A = Bool} false false)
reduce_job-succeeded_example = reduce_job-succeeded library 5 running_task [] running_job

reduce_job-progress_le_example :
    (reduce_job library 5 (running_task ∷ waiting_task ∷ []) running_job).progress ≤ 10000
unfolding sum_of effective_weight
reduce_job-progress_le_example =
    reduce_job-progress_le library 5 running_task (waiting_task ∷ []) running_job (omega arith)

retry_delay_bounds_example : (0 < retry_delay 3 (negsuc 4)) × (retry_delay 3 (negsuc 4) ≤ max_delay)
retry_delay_bounds_example = retry_delay_bounds 3 (negsuc 4)

abbrev failed_once : Task
failed_once = (failure_verdict library 9 1 network_error running_task).task

transient-retry_example :
    (running_task.attempt_count < running_task.max_attempts
      → (failed_once.status ≡ TaskStatus.retry_wait)
        × ((at : ℕ) × (failed_once.run_after ≡ some at) × (9 < at) × (at ≤ 9 + max_delay)))
    × (running_task.max_attempts ≤ running_task.attempt_count
        → failed_once.status ≡ TaskStatus.failed)
transient-retry_example = transient-retry library 9 1 network_error running_task refl

claim-finish-budget_example :
    (failure_verdict library 9 1 deferral (start 5 waiting_task)).task.max_attempts + 0
    ≡ 4 + (failure_verdict library 9 1 deferral (start 5 waiting_task)).task.attempt_count
claim-finish-budget_example = claim-finish-budget library 5 9 1 deferral waiting_task refl

abbrev ended : Outcome Db
ended =
    finish library 9 (λ i. i + 50) 7 first_attempt empty_result none
      (tables running_job running_task)

abbrev ended_db : Db
unfolding after
ended_db = after (tables running_job running_task) ended

finish-free_example : (t : Task) × (find_task 7 ended_db ≡ ok t) × (held_status t.status ≡ false)
unfolding running_code after
finish-free_example =
    finish-free library 9 (λ i. i + 50) 7 first_attempt empty_result
      (tables running_job running_task) {current = running_task} refl none {db' = ended_db} refl

finish-success_example :
    (t : Task) × (find_task 7 ended_db ≡ ok t) × (t.status ≡ TaskStatus.succeeded)
unfolding running_code after
finish-success_example =
    finish-success library 9 (λ i. i + 50) 7 first_attempt empty_result
      (tables running_job running_task) {current = running_task} refl {db' = ended_db} refl refl

abbrev started_task : Task
started_task = record waiting_task {
  status = TaskStatus.running;
  attempt_count = 1;
  started_at = some 5;
}

abbrev claimed : Outcome (Option (Task × Attempt × Db))
claimed = claim library "embedded" 30 5 "ffmpeg" (tables queued_job waiting_task)

abbrev attempt_of : Outcome (Option (Task × Attempt × Db)) → Attempt
attempt_of (ok (some (_, attempt, _))) = attempt
attempt_of _ = first_attempt

abbrev db_of : Outcome (Option (Task × Attempt × Db)) → Db
db_of (ok (some (_, _, db))) = db
db_of _ = tables queued_job waiting_task

claim-best_example :
    (task : Task) × (started_task ≡ record task {
      status = TaskStatus.running;
      attempt_count = task.attempt_count + 1;
      started_at = some 5;
    })
    × (is_eligible "ffmpeg" 5 (tables queued_job waiting_task) task ≡ true)
    × All
        (λ t.
          is_eligible "ffmpeg" 5 (tables queued_job waiting_task) t ≡ true
          → score library 5 t ≤ score library 5 task)
        (waiting_task ∷ [])
unfolding running_code
claim-best_example =
    claim-best library "embedded" 30 5 "ffmpeg" (tables queued_job waiting_task)
      {started = started_task} {attempt = attempt_of claimed} {db' = db_of claimed} refl

dispatch_queue-capacity_example :
    active_count "ffmpeg"
      (dispatch_queue library "embedded"
        (λ i. i + 30)
        none
        5
        "ffmpeg"
        (record { db = tables queued_job waiting_task; active = [] })).0
    ≤ capacity none "ffmpeg"
dispatch_queue-capacity_example =
    dispatch_queue-capacity library "embedded" (λ i. i + 30) none 5 "ffmpeg"
      (record { db = tables queued_job waiting_task; active = [] })
      (unfold active_count capacity count_where in omega arith)

abbrev restarted : Db
unfolding after
restarted =
    after (tables running_job committing_task)
      (recover library 9 (tables running_job committing_task))

recover-free_example :
    All (λ task. held_status task.status ≡ false) restarted.tasks
    × All (λ a. is_running_attempt a.status ≡ false) restarted.attempts
unfolding running_code after
recover-free_example =
    recover-free library 9 (tables running_job committing_task) {db' = restarted} refl

retain-no_orphans_example :
    let db' = (retain 500 400 (tables queued_job waiting_task)).0 in
    All (λ t. 0 < count_where (λ (j : Job). j.id == t.job_id) db'.jobs) db'.tasks
unfolding count_where
retain-no_orphans_example =
    retain-no_orphans 500 400 (tables queued_job waiting_task) (omega arith, tt)

abbrev canceled_job : Job
canceled_job = record running_job {
  status = JobStatus.cancel_requested;
  cancel_requested_at = some 5;
}

abbrev requeued : Outcome Db
requeued =
    finish library 9 (λ i. i + 50) 7 first_attempt empty_result (some network_error)
      (tables canceled_job stopping_task)

abbrev requeued_db : Db
unfolding after
requeued_db = after (tables canceled_job stopping_task) requeued

finish-strands_example :
    (t : Task) × (find_task 7 requeued_db ≡ ok t)
    × (waiting_status t.status ≡ true)
    × ((queue : String) (at : ℕ) → is_eligible queue at requeued_db t ≡ false)
unfolding running_code after failed_edit
finish-strands_example =
    finish-strands library 9 (λ i. i + 50) 7 first_attempt empty_result
      (tables canceled_job stopping_task) {current = stopping_task} refl network_error
      {db' = requeued_db} refl ((λ _. refl), tt) (inr (inr (refl, omega arith))) refl

abbrev enqueued : Outcome (Job × Bool × Db)
enqueued = enqueue library 3 2 (λ i. i + 60) import_spec (tables running_job running_task)

abbrev enqueued_db : Outcome (Job × Bool × Db) → Db
enqueued_db (ok (_, _, db)) = db
enqueued_db (err _) = tables running_job running_task

abbrev enqueued_job : Outcome (Job × Bool × Db) → Job
enqueued_job (ok (job, _, _)) = job
enqueued_job (err _) = running_job

enqueue-IsConsistent_example : IsConsistent (enqueued_db enqueued)
unfolding enqueuing_code
enqueue-IsConsistent_example =
    enqueue-IsConsistent library 3 2 (λ i. i + 60) import_spec (tables running_job running_task)
      {job = enqueued_job enqueued} {reused = false} {db' = enqueued_db enqueued}
      ((omega arith, tt), (omega arith, tt)) (inr refl, tt) refl

enqueue-again_example :
    enqueue library 8 3 (λ i. i + 70) import_spec (enqueued_db enqueued)
    ≡ ok (enqueued_job enqueued, true, enqueued_db enqueued)
unfolding enqueuing_code
enqueue-again_example =
    enqueue-again library 3 2 (λ i. i + 60) import_spec (tables running_job running_task)
      {job = enqueued_job enqueued} {reused = false} {db' = enqueued_db enqueued}
      ((omega arith, tt), (omega arith, tt)) refl (refl, tt) refl 8 3 (λ i. i + 70)

run_due_schedules-again_example :
    let s' = run_due_schedules library names 25 (cleanup ∷ []) due in
    All (λ (d : ScheduleDefinition). IsQuiet 25 d.key s'.states) (cleanup ∷ [])
    × ((outside : Outside) → run_due_schedules library outside 25 (cleanup ∷ []) s' ≡ s')
run_due_schedules-again_example =
    run_due_schedules-again library names 25 (cleanup ∷ []) due (omega arith, tt)

summary-length_example :
    let s = summary 9 (tables running_job running_task) in
    s.running
      + s.waiting
      + s.paused
      + count_where (λ (job : Job). terminal_job_status job.status) (running_job ∷ [])
    ≡ 1
summary-length_example = summary-length 9 (tables running_job running_task)

queue_summary-claim_example :
    claim library "embedded" 30 5 "ffmpeg" (tables running_job running_task) ≡ ok none
unfolding running_code queue_summary is_waiting_in
queue_summary-claim_example =
    queue_summary-claim none (record { db = tables running_job running_task; active = [] })
      open_queue refl library "embedded" 30 5
