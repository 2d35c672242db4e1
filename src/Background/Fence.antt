-- ===== src/Background/Fence.antt =====
-- The fence between cancellation and irreversible work: BeginCommit against CancelJob, PauseJob and
-- CancelTask of background/runtime.go.
use videocms.Base.{
  ℕ, ◌<◌, ◌≡◌, refl, ◌⊎◌, true, false, some, String, List, [], ◌∷◌, arith, ==_iff, All, first,
  first-update_where,
}
use videocms.Background.Types.{Job, Task, held_status, terminal_job_status, terminal_task_status}
use videocms.Background.Text.{Library}
use videocms.Background.Database.{
  Db, Error, ok, err, find_job, find_task, task_has_id, in_job, tasks_of, update_tasks, add_event,
}
use videocms.Background.Reduce.{recompute_job, reduce_job, save_tally}
use videocms.Background.Control.{
  committing_count, is_committing, cancel_tx, cancel_edit, cancel_tasks, pause_tx, job_event,
  request_job_cancel,
}
use videocms.Background.TaskControl.{cancel_task_tx}
use videocms.Background.Commit.{
  begin_commit, begin_commit_task, commit_tx, commit_edit, may_commit, is_running,
}
use videocms.Background.Operations.{cancel_tx-ok}
use videocms.Background.Status.{reduce_job_open}
use videocms.Background.Lookup.{
  find_task-first, find_job-recompute_job, find_job-update_jobs, recompute_job-tasks,
  count_where_pos, All-select-first, IsKeyed, count_one-first,
}

module _ (lib : Library) (now task_id : ℕ) (phase : String) (db : Db) (task : Task) where
  -- What a successful commit has checked and done.
  commit_tx-ok :
      {db' : Db}
      → find_task task_id db ≡ ok task
      → commit_tx lib now task_id phase db ≡ ok db'
      → (recompute_job lib now task.job_id (commit_edit lib now task_id phase db) ≡ ok db')
        × (is_running task.status ≡ true)
  unfolding commit_tx
  commit_tx-ok found e = (ground arith, ground arith)

  begin_commit-ok :
      {db' : Db}
      → begin_commit lib now task_id phase db ≡ (true, db')
      → commit_tx lib now task_id phase db ≡ ok db'
  unfolding begin_commit
  begin_commit-ok e = ground arith

  module _ {db' : Db} (keyed : IsKeyed db.tasks) (found : find_task task_id db ≡ ok task) where
    commit_tx-allowed : commit_tx lib now task_id phase db ≡ ok db' → may_commit task_id task ≡ true
    unfolding commit_tx
    commit_tx-allowed e =
        count_one-first task_id (may_commit task_id) db.tasks keyed
          (find_task-first task_id db found) (λ t h. own t h) (ground arith)
      where
        own : (t : Task) → may_commit task_id t ≡ true → task_has_id task_id t ≡ true
        own t h = unfold may_commit in ground arith

    find_task-committed :
        commit_tx lib now task_id phase db ≡ ok db'
        → first (task_has_id task_id) db'.tasks ≡ some (begin_commit_task lib now phase task)
    unfolding commit_edit update_tasks may_commit task_has_id
    find_task-committed e = ground (
      arith,
      recompute_job-tasks lib now task.job_id (commit_edit lib now task_id phase db)
          (commit_tx-ok found e).0,
      first-update_where (task_has_id task_id) (may_commit task_id)
          (begin_commit_task lib now phase) (λ t. refl) db.tasks {x = task}
          (find_task-first task_id db found),
      commit_tx-allowed e,
    )

    -- The job counts as committing.
    commit_tx-committing :
        commit_tx lib now task_id phase db ≡ ok db' → 0 < committing_count task.job_id db'
    unfolding committing_count is_committing in_job held_status
    commit_tx-committing e =
        count_where_pos (task_has_id task_id) _ db'.tasks {x = begin_commit_task lib now phase task}
          (find_task-committed e)
          (ground (arith, (commit_tx-ok found e).1, ==_iff task.job_id task.job_id))

    -- The job is not finished.
    commit_tx-open :
        {job : Job}
        → find_job task.job_id db ≡ ok job
        → commit_tx lib now task_id phase db ≡ ok db'
        → (job' : Job) × (find_job task.job_id db' ≡ ok job')
          × (terminal_job_status job'.status ≡ false)
    unfolding commit_edit update_tasks find_job
    commit_tx-open {job} has_job e = (
      _,
      find_job-recompute_job lib now task.job_id (commit_edit lib now task_id phase db) has_job
          (commit_tx-ok found e).0,
      reduce_job_open lib now _ job open_,
    )
      where
        open_ :
            ¬ All
              (λ t. terminal_task_status t.status ≡ true)
              (tasks_of task.job_id (commit_edit lib now task_id phase db).tasks)
        open_ all =
            let same =
              recompute_job-tasks lib now task.job_id (commit_edit lib now task_id phase db)
                (commit_tx-ok found e).0 in
            let running = (commit_tx-ok found e).1 in
            let finished : terminal_task_status (begin_commit_task lib now phase task).status
                ≡ true =
              All-select-first (λ (t : Task). terminal_task_status t.status ≡ true)
                (task_has_id task_id) (in_job task.job_id)
                (commit_edit lib now task_id phase db).tasks
                {x = begin_commit_task lib now phase task} (unfold tasks_of in all)
                (rw same at (find_task-committed e))
                (unfold in_job in (==_iff task.job_id task.job_id).1 refl) in
            unfold terminal_task_status in ground arith

    -- Once BeginCommit has answered true, the task and its job can no longer be canceled, and the job
    -- cannot be paused: CancelJob and CancelTask answer ErrCommitStarted, and PauseJob refuses. The
    -- task identifiers are unique, and the job is there.
    pub begin_commit-fences :
        {job : Job}
        → find_job task.job_id db ≡ ok job
        → begin_commit lib now task_id phase db ≡ (true, db')
        → (later actor_id : ℕ) (actor_name : String)
        → (cancel_tx lib later task.job_id actor_id actor_name db' ≡ err Error.commit_started)
          × (cancel_task_tx lib later task_id actor_id actor_name db' ≡ err Error.commit_started)
          × ((pause_tx lib later task.job_id actor_id actor_name db' ≡ err Error.commit_started)
              ⊎ (pause_tx lib later task.job_id actor_id actor_name db' ≡ err Error.conflict))
    unfolding cancel_tx cancel_task_tx pause_tx find_task terminal_task_status
    begin_commit-fences has_job b later actor_id actor_name =
        let e = begin_commit-ok b in
        let (job', there, open_) = commit_tx-open has_job e in
        (
          ground (arith, commit_tx-committing e, there, open_),
          ground (arith, find_task-committed e, commit_tx-ok found e),
          grind (arith, commit_tx-committing e, there),
        )

-- A recompute does not touch the request to cancel.
pub reduce_job-cancel :
    (lib : Library) (later : ℕ) (tasks : List Task) (job : Job)
    → (reduce_job lib later tasks job).cancel_requested_at ≡ job.cancel_requested_at
unfolding reduce_job save_tally
reduce_job-cancel lib later [] job = refl
reduce_job-cancel lib later (task ∷ tasks) job = refl

module _ (lib : Library) (now job_id actor_id : ℕ) (actor_name : String) (db : Db) where
  cancel_edit-job :
      {job : Job}
      → find_job job_id db ≡ ok job
      → find_job job_id (cancel_edit lib now job_id actor_id actor_name db)
        ≡ ok (request_job_cancel now job)
  unfolding cancel_edit job_event cancel_tasks update_tasks find_job add_event
  cancel_edit-job found = find_job-update_jobs job_id (request_job_cancel now) db (λ j. refl) found

  -- After CancelJob has succeeded, BeginCommit answers false for every task of the job, and changes
  -- nothing.
  pub cancel_tx-fences :
      {job : Job} {task : Task} {db' : Db}
      → find_job job_id db ≡ ok job
      → cancel_tx lib now job_id actor_id actor_name db ≡ ok db'
      → (later task_id : ℕ) (phase : String) → find_task task_id db' ≡ ok task
      → task.job_id ≡ job_id
      → begin_commit lib later task_id phase db' ≡ (false, db')
  unfolding begin_commit commit_tx
  cancel_tx-fences {job} {task} has_job e later task_id phase found own = ground (
    arith,
    find_job-recompute_job lib now job_id (cancel_edit lib now job_id actor_id actor_name db)
        (cancel_edit-job has_job) (cancel_tx-ok lib now job_id actor_id actor_name db e),
    reduce_job-cancel lib now
        (tasks_of job_id (cancel_edit lib now job_id actor_id actor_name db).tasks)
        (request_job_cancel now job),
  )
