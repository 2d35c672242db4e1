-- ===== src/Background/Restart.antt =====
-- After Recover of background/runtime.go nothing is left that only a live worker could hold.
use videocms.Base.{
  ℕ, ◌≡◌, refl, sym, ap, subst, ◌∙◌, ◌⊎◌, inr, true, false, List, [], ◌∷◌, arith, is_some,
  update_where, All, All-update_where, All-intro,
}
use videocms.Background.Types.{Job, Task, Attempt, held_status}
use videocms.Background.Text.{Library}
use videocms.Background.Database.{
  Db, ok, ok->>=, update_tasks, update_attempts, update_jobs, add_event,
}
use videocms.Background.Reduce.{recompute_job}
use videocms.Background.Recovery.{
  was_committing, was_stopping, was_running, recover_tasks, recompute_recovered, recover,
  fail_interrupted, cancel_interrupted, requeue_interrupted, interrupt_attempt, is_running_attempt,
}
use videocms.Background.Consistent.{recompute_job-ok}

recompute_job-rest :
    (lib : Library) (now id : ℕ) (db : Db) {db' : Db}
    → recompute_job lib now id db ≡ ok db'
    → (db'.tasks ≡ db.tasks) × (db'.attempts ≡ db.attempts)
unfolding update_jobs
recompute_job-rest lib now id db e =
    let same = sym (recompute_job-ok lib now id db e) in
    (ap (λ (d : Db). d.tasks) same, ap (λ (d : Db). d.attempts) same)

recompute_recovered-rest :
    (lib : Library) (now : ℕ) (jobs : List Job) (db : Db) {db' : Db}
    → recompute_recovered lib now jobs db ≡ ok db'
    → (db'.tasks ≡ db.tasks) × (db'.attempts ≡ db.attempts)
unfolding recompute_recovered add_event
recompute_recovered-rest lib now [] db {db'} e =
    let same : db' ≡ db = cc in (ap (λ (d : Db). d.tasks) same, ap (λ (d : Db). d.attempts) same)
recompute_recovered-rest lib now (job ∷ jobs) db {db'} e =
    let (mid, made, rest) = ok->>= (recompute_job lib now job.id db) _ e in
    let one = recompute_job-rest lib now job.id db made in
    let more = recompute_recovered-rest lib now jobs _ rest in (more.0 ∙ one.0, more.1 ∙ one.1)

-- After the first update: what a worker holds has not begun irreversible work.
abbrev IsUncommitted : Task → Type 0
IsUncommitted task = held_status task.status ≡ true → is_some task.commit_started_at ≡ false

-- After the second: what a worker holds is running.
abbrev IsPlainlyHeld : Task → Type 0
IsPlainlyHeld task = (was_running task ≡ true) ⊎ (held_status task.status ≡ false)

fail_committing :
    (now : ℕ) (tasks : List Task)
    → All IsUncommitted (update_where was_committing (fail_interrupted now) tasks)
fail_committing now tasks =
    All-update_where {P = λ (_ : Task). Unit {0}} {Q = IsUncommitted} was_committing
      (fail_interrupted now) (λ t _ c held. absurd (unfold held_status in ground arith))
      (λ t _ c held. unfold was_committing held_status in ground arith) tasks
      (All-intro (λ _. tt) tasks)

cancel_stopping :
    (now : ℕ) (tasks : List Task)
    → All IsUncommitted tasks
    → All IsPlainlyHeld (update_where was_stopping (cancel_interrupted now) tasks)
cancel_stopping now tasks h =
    All-update_where {P = IsUncommitted} {Q = IsPlainlyHeld} was_stopping (cancel_interrupted now)
      (λ t u s. inr (unfold held_status in refl)) plain tasks h
  where
    plain : (t : Task) → IsUncommitted t → was_stopping t ≡ false → IsPlainlyHeld t
    plain t u s = unfold was_stopping was_running held_status in ground arith

-- The three updates leave no task held.
recover_tasks-free :
    (now : ℕ) (db : Db) → All (λ task. held_status task.status ≡ false) (recover_tasks now db).tasks
unfolding recover_tasks update_tasks
recover_tasks-free now db =
    All-update_where {P = IsPlainlyHeld} {Q = λ t. held_status t.status ≡ false} was_running
      requeue_interrupted (λ t h r. unfold held_status in refl) (λ t h r. ground arith)
      (update_where was_stopping (cancel_interrupted now)
        (update_where was_committing (fail_interrupted now) db.tasks))
      (cancel_stopping now (update_where was_committing (fail_interrupted now) db.tasks)
        (fail_committing now db.tasks))

interrupted-free :
    (now : ℕ) (attempts : List Attempt)
    → All
        (λ a. is_running_attempt a.status ≡ false)
        (update_where (λ a. is_running_attempt a.status) (interrupt_attempt now) attempts)
interrupted-free now attempts =
    All-update_where (λ (a : Attempt). is_running_attempt a.status) (interrupt_attempt now)
      (λ (a : Attempt) (_ : Unit {0}) (r : is_running_attempt a.status ≡ true). refl)
      (λ (a : Attempt) (_ : Unit {0}) (r : is_running_attempt a.status ≡ false). r) attempts
      (All-intro (λ _. tt) attempts)

-- After Recover no task is held by a worker, and no attempt is running.
pub recover-free :
    (lib : Library) (now : ℕ) (db : Db) {db' : Db}
    → recover lib now db ≡ ok db'
    → All (λ task. held_status task.status ≡ false) db'.tasks
      × All (λ attempt. is_running_attempt attempt.status ≡ false) db'.attempts
unfolding recover
recover-free lib now db {db'} e =
    let (tasks, attempts) = recompute_recovered-rest lib now _ _ e in
    (
      subst (λ ts. All (λ task. held_status task.status ≡ false) ts) (sym tasks)
          (recover_tasks-free now
            (update_attempts (λ a. is_running_attempt a.status) (interrupt_attempt now) db)),
      subst (λ as_. All (λ attempt. is_running_attempt attempt.status ≡ false) as_) (sym attempts)
          (unfold recover_tasks update_tasks update_attempts in interrupted-free now db.attempts),
    )
