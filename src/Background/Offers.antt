-- ===== src/Background/Offers.antt =====
-- What background/store.go offers a client (CanPause, CanCancel) against what the controls of
-- background/runtime.go then do.
use videocms.Base.{
  ℕ, ◌≡◌, refl, inl, inr, ◌↔◌, ◌≢◌, ◌<◌, true, false, Option, String, List, [], arith, is_some,
  All-first,
}
use videocms.Background.Types.{Job, Task, terminal_job_status}
use videocms.Background.Text.{Library}
use videocms.Background.Database.{
  Db, Error, ok, err, find_job, has_id, tasks_of, update_jobs, update_tasks, add_event,
}
use videocms.Background.Reduce.{
  Tally, no_tasks, tally_from, reduced_status, is_terminal, recompute_job, reduce_job,
}
use videocms.Background.Control.{
  pausable_job_status, committing_count, pause_tx, pause_edit, request_pause, job_event, cancel_tx,
  cancel_edit, cancel_tasks, request_job_cancel,
}
use videocms.Background.Capabilities.{
  listed_capabilities, detail_capabilities, job_capabilities, cancellable_job_status,
}
use videocms.Background.Consistent.{IsConsistent, IsReduced}
use videocms.Background.Lookup.{find_job-first, find_job-update_jobs}

reduced_status-pausable :
    (cancel pause : Option ℕ) (n : Tally)
    → pausable_job_status (reduced_status cancel pause n) ≡ true
    → (is_some pause ≡ false) × (is_some cancel ≡ false)
unfolding reduced_status pausable_job_status is_terminal
reduced_status-pausable cancel pause n h = (ground arith, ground arith)

-- A job whose status allows a pause has neither request.
IsReduced-pausable :
    (tasks : List Task) (job : Job)
    → tasks ≢ []
    → IsReduced tasks job
    → pausable_job_status job.status ≡ true
    → (is_some job.pause_requested_at ≡ false) × (is_some job.cancel_requested_at ≡ false)
IsReduced-pausable tasks job busy (inl none_) h = absurd (busy none_)
IsReduced-pausable tasks job busy (inr e) h =
    reduced_status-pausable job.cancel_requested_at job.pause_requested_at
      (tally_from no_tasks tasks) (rw e at h)

recompute_job-total :
    (lib : Library) (now id : ℕ) (db : Db) {job : Job}
    → find_job id db ≡ ok job
    → (db' : Db) × (recompute_job lib now id db ≡ ok db')
unfolding recompute_job
recompute_job-total lib now id db found =
    (update_jobs (has_id id) (reduce_job lib now (tasks_of id db.tasks)) db, ground (arith, found))

module _ (lib : Library) (now actor_id : ℕ) (actor_name : String) (db : Db) {job : Job}
    (found : find_job job.id db ≡ ok job) where
  pause_edit-job :
      find_job job.id (pause_edit lib now job.id actor_id actor_name db)
      ≡ ok (request_pause now job)
  unfolding pause_edit job_event find_job add_event
  pause_edit-job = find_job-update_jobs job.id (request_pause now) db (λ j. refl) found

  cancel_edit-job :
      find_job job.id (cancel_edit lib now job.id actor_id actor_name db)
      ≡ ok (request_job_cancel now job)
  unfolding cancel_edit job_event cancel_tasks update_tasks find_job add_event
  cancel_edit-job = find_job-update_jobs job.id (request_job_cancel now) db (λ j. refl) found

  -- ListJobs offers a pause exactly if PauseJob then succeeds. The tables are consistent, and the job
  -- has a task.
  pub listed-pause :
      IsConsistent db
      → tasks_of job.id db.tasks ≢ []
      → ((listed_capabilities db job).can_pause ≡ true)
        ↔ ((db' : Db) × (pause_tx lib now job.id actor_id actor_name db ≡ ok db'))
  unfolding pause_tx listed_capabilities job_capabilities
  listed-pause consistent busy =
      let reduced : IsReduced (tasks_of job.id db.tasks) job =
        All-first (λ j. IsReduced (tasks_of j.id db.tasks) j) (has_id job.id) db.jobs consistent
          (find_job-first job.id db found) in
      let (db', done) = recompute_job-total lib now job.id _ pause_edit-job in
      (
        λ h. (
          db',
          ground
              (arith, found, done, IsReduced-pausable (tasks_of job.id db.tasks) job busy reduced),
        ),
        λ h. ground (arith, found, h.1),
      )

  -- A job that ListJobs offers to cancel is canceled by CancelJob without an error.
  pub listed-cancel :
      (listed_capabilities db job).can_cancel ≡ true
      → (db' : Db) × (cancel_tx lib now job.id actor_id actor_name db ≡ ok db')
  unfolding cancel_tx listed_capabilities job_capabilities terminal_job_status
      cancellable_job_status
  listed-cancel h =
      let (db', done) = recompute_job-total lib now job.id _ cancel_edit-job in
      (db', ground (arith, found, done))

  -- The detail view goes on to offer a pause while a task commits, and PauseJob then refuses it with
  -- ErrCommitStarted: for every pausable job with a task, in a status that can be paused, that is
  -- committing, in consistent tables. The list does not offer it.
  pub detail-pause-refused :
      IsConsistent db
      → tasks_of job.id db.tasks ≢ []
      → job.pausable ≡ true
      → pausable_job_status job.status ≡ true
      → 0 < committing_count job.id db
      → ((detail_capabilities db job).can_pause ≡ true)
        × ((listed_capabilities db job).can_pause ≡ false)
        × (pause_tx lib now job.id actor_id actor_name db ≡ err Error.commit_started)
  unfolding pause_tx listed_capabilities detail_capabilities job_capabilities
  detail-pause-refused consistent busy pausable open_ committing =
      let reduced : IsReduced (tasks_of job.id db.tasks) job =
        All-first (λ j. IsReduced (tasks_of j.id db.tasks) j) (has_id job.id) db.jobs consistent
          (find_job-first job.id db found) in
      let free = IsReduced-pausable (tasks_of job.id db.tasks) job busy reduced open_ in
      (ground arith, ground arith, ground (arith, found, free))
