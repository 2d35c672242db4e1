-- ===== src/Background/TaskEdits.antt =====
-- The edits of CancelTask, RetryTask, BeginCommit, ReportProgress and of a failing finish
-- (background/runtime.go) touch one job only, since a task's identifier is its primary key.
use videocms.Base.{
  ℕ, ◌≡◌, refl, sym, ap, subst, ◌∙◌, inl, inr, ◌≢◌, Bool, true, List, [], ◌∷◌, String, arith, All,
  All-map, All-update_where, update_where, Bool-cases,
}
use videocms.Background.Types.{Task, Attempt}
use videocms.Background.Text.{Library}
use videocms.Background.Errors.{TaskError}
use videocms.Background.Database.{Db, ok, find_task, task_has_id, update_tasks, update_attempts}
use videocms.Background.TaskControl.{
  cancel_task_edit, retry_task_edit, stop_task, requeue, reopen_for_task, task_event,
}
use videocms.Background.Commit.{commit_edit, may_commit, begin_commit_task}
use videocms.Background.Finish.{
  failed_edit, failure_verdict, class_verdict, transient_verdict, finish_event,
}
use videocms.Background.Local.{
  IsLocal, IsLocal-refl, IsLocal-update_jobs, IsLocal-update_tasks, IsLocal-add_event,
  IsLocal-update_attempts,
}
use videocms.Background.Lookup.{IsKeyed, IsKeyed-first, find_task-first, find_task-id}

-- An update that keeps the identifiers keeps them unique.
IsKeyed-away :
    (id : ℕ) (p : Task → Bool) (f : Task → Task)
    → ((t : Task) → (f t).id ≡ t.id)
    → (tasks : List Task) → All (λ t. t.id ≢ id) tasks
    → All (λ t. t.id ≢ id) (update_where p f tasks)
IsKeyed-away id p f keep tasks away =
    All-update_where {P = λ t. t.id ≢ id} {Q = λ t. t.id ≢ id} p f
      (λ t other hit same. other (sym (keep t) ∙ same)) (λ t other miss. other) tasks away

pub IsKeyed-update_where :
    (p : Task → Bool) (f : Task → Task)
    → ((t : Task) → (f t).id ≡ t.id)
    → (tasks : List Task) → IsKeyed tasks
    → IsKeyed (update_where p f tasks)
unfolding update_where
IsKeyed-update_where p f keep [] h = tt
IsKeyed-update_where p f keep (t ∷ tasks) h = elim (Bool-cases (p t)) [
  | inl hit ↦ rw hit (
    subst (λ i. All (λ u. u.id ≢ i) (update_where p f tasks)) (sym (keep t))
        (IsKeyed-away t.id p f keep tasks h.0),
    IsKeyed-update_where p f keep tasks h.1,
  )
  | inr miss ↦
      rw miss (IsKeyed-away t.id p f keep tasks h.0, IsKeyed-update_where p f keep tasks h.1)
]

module _ (db : Db) (task_id : ℕ) {task : Task} (keyed : IsKeyed db.tasks)
    (found : find_task task_id db ≡ ok task) where
  -- Each row of the identifier is one of the task's job.
  own :
      (p : Task → Bool)
      → ((t : Task) → p t ≡ true → task_has_id task_id t ≡ true)
      → All (λ t. p t ≡ true → t.job_id ≡ task.job_id) db.tasks
  own p narrow =
      All-map {P = λ t. task_has_id task_id t ≡ true → t ≡ task}
        {Q = λ t. p t ≡ true → t.job_id ≡ task.job_id}
        (λ t same hit. ap (λ (u : Task). u.job_id) (same (narrow t hit))) db.tasks
        (IsKeyed-first task_id db.tasks keyed (find_task-first task_id db found))

  edit-IsLocal :
      (p : Task → Bool) (f : Task → Task) (mid : Db)
      → mid.tasks ≡ db.tasks
      → IsLocal task.job_id db mid
      → ((t : Task) → p t ≡ true → task_has_id task_id t ≡ true)
      → ((t : Task) → (f t).job_id ≡ t.job_id)
      → IsLocal task.job_id db (update_tasks p f mid)
  edit-IsLocal p f mid same local narrow keep =
      IsLocal-update_tasks task.job_id db mid local p f keep
        (subst (λ ts. All (λ t. p t ≡ true → t.job_id ≡ task.job_id) ts) (sym same) (own p narrow))

  same_id : (t : Task) → task_has_id task.id t ≡ true → task_has_id task_id t ≡ true
  same_id t h = subst (λ (k : ℕ). task_has_id k t ≡ true) (find_task-id task_id db found) h

  module _ (lib : Library) (now actor_id : ℕ) (actor_name : String) where
    pub cancel_task_edit-IsLocal :
        IsLocal task.job_id db (cancel_task_edit lib now task actor_id actor_name db)
    unfolding cancel_task_edit task_event
    cancel_task_edit-IsLocal =
        IsLocal-add_event task.job_id db _
          (edit-IsLocal (task_has_id task.id) (stop_task now) db refl (IsLocal-refl task.job_id db)
            same_id (λ t. unfold stop_task in ground arith))
          lib _

    pub retry_task_edit-IsLocal :
        IsLocal task.job_id db (retry_task_edit lib task actor_id actor_name db)
    unfolding retry_task_edit task_event
    retry_task_edit-IsLocal =
        IsLocal-update_jobs task.job_id db _
          (IsLocal-add_event task.job_id db _
            (edit-IsLocal (task_has_id task.id) requeue db refl (IsLocal-refl task.job_id db)
              same_id (λ t. unfold requeue in refl))
            lib _)
          reopen_for_task (λ job. refl)

  module _ (lib : Library) (now : ℕ) where
    pub commit_edit-IsLocal :
        (phase : String) → IsLocal task.job_id db (commit_edit lib now task_id phase db)
    unfolding commit_edit
    commit_edit-IsLocal phase =
        edit-IsLocal (may_commit task_id) (begin_commit_task lib now phase) db refl
          (IsLocal-refl task.job_id db) narrow (λ t. refl)
      where
        narrow : (t : Task) → may_commit task_id t ≡ true → task_has_id task_id t ≡ true
        narrow t h = unfold may_commit in ground arith

    failure_verdict-job :
        (number : ℕ) (e : TaskError) (t : Task)
        → (failure_verdict lib now number e t).task.job_id ≡ t.job_id
    unfolding failure_verdict class_verdict transient_verdict
    failure_verdict-job number e t = ground arith

    pub failed_edit-IsLocal :
        (attempt : Attempt) (e : TaskError)
        → IsLocal task.job_id db (failed_edit lib now task attempt e db)
    unfolding failed_edit finish_event update_attempts
    failed_edit-IsLocal attempt e =
        IsLocal-add_event task.job_id db _
          (edit-IsLocal (task_has_id task.id)
            (λ t. (failure_verdict lib now attempt.number e t).task) _ refl
            (IsLocal-update_attempts task.job_id db db (IsLocal-refl task.job_id db) _ _) same_id
            (failure_verdict-job attempt.number e))
          lib _
