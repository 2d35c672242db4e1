-- ===== src/Background/Consistent.antt =====
-- A job's status is always the one that its tasks and requests reduce to: the invariant, and what
-- recomputeJob (background/runtime.go) does for it.
use videocms.Base.{
  ℕ, ◌≡◌, refl, sym, subst, ◌∙◌, ◌⊎◌, inl, inr, true, false, Option, none, List, [], ◌∷◌, arith,
  ==_iff, All, All-update_where, first, Bool-cases, Option-cases,
}
use videocms.Background.Types.{Job, Task, terminal_job_status}
use videocms.Background.Text.{Library}
use videocms.Background.Database.{Db, ok, find_job, has_id, tasks_of, update_jobs}
use videocms.Background.Reduce.{
  Tally, no_tasks, tally_from, is_terminal, reduced_status, save_tally, reduce_job, recompute_job,
}

abbrev pub IsReduced : List Task → Job → Type 0
IsReduced tasks job =
    (tasks ≡ [])
    ⊎ (job.status
        ≡ reduced_status job.cancel_requested_at job.pause_requested_at (tally_from no_tasks tasks))

-- Every job has the status that its tasks reduce to.
abbrev pub IsConsistent : Db → Type 0
IsConsistent db = All (λ job. IsReduced (tasks_of job.id db.tasks) job) db.jobs

-- The same, but for the jobs of one identifier.
abbrev pub IsConsistentOff : ℕ → Db → Type 0
IsConsistentOff id db =
    All (λ job. (job.id ≡ id) ⊎ IsReduced (tasks_of job.id db.tasks) job) db.jobs

-- A finished job's status does not look at the pause request, which is then cleared.
reduced_status-clear_pause :
    (cancel pause : Option ℕ) (n : Tally)
    → terminal_job_status (reduced_status cancel pause n) ≡ true
    → reduced_status cancel pause n ≡ reduced_status cancel none n
unfolding reduced_status terminal_job_status is_terminal
reduced_status-clear_pause cancel pause n h = ground arith

save_tally-status :
    (lib : Library) (now : ℕ) (n : Tally) (job : Job)
    → let saved = save_tally lib now n job in
      saved.status ≡ reduced_status saved.cancel_requested_at saved.pause_requested_at n
unfolding save_tally
save_tally-status lib now n job =
    elim (Bool-cases
      (terminal_job_status (reduced_status job.cancel_requested_at job.pause_requested_at n))) [
        | inl done ↦
            rw done
              (reduced_status-clear_pause job.cancel_requested_at job.pause_requested_at n done)
        | inr open_ ↦ rw open_ refl
      ]

pub reduce_job-IsReduced :
    (lib : Library) (now : ℕ) (tasks : List Task) (job : Job)
    → IsReduced tasks (reduce_job lib now tasks job)
unfolding reduce_job
reduce_job-IsReduced lib now [] job = inl refl
reduce_job-IsReduced lib now (task ∷ tasks) job =
    inr (save_tally-status lib now (tally_from no_tasks (task ∷ tasks)) job)

pub reduce_job-id :
    (lib : Library) (now : ℕ) (tasks : List Task) (job : Job)
    → (reduce_job lib now tasks job).id ≡ job.id
unfolding reduce_job save_tally
reduce_job-id lib now [] job = refl
reduce_job-id lib now (task ∷ tasks) job = refl

-- What a successful recompute returns.
pub recompute_job-ok :
    (lib : Library) (now id : ℕ) (db : Db) {db' : Db}
    → recompute_job lib now id db ≡ ok db'
    → update_jobs (has_id id) (reduce_job lib now (tasks_of id db.tasks)) db ≡ db'
unfolding recompute_job find_job
recompute_job-ok lib now id db e = elim (Option-cases (first (has_id id) db.jobs)) [
  | inl missing ↦ absurd (ground arith)
  | inr (job, found) ↦ ground arith
]

-- Recomputing a job makes it consistent again, and the others stay so.
pub recompute_job-IsConsistent :
    (lib : Library) (now id : ℕ) (db : Db) {db' : Db}
    → IsConsistentOff id db
    → recompute_job lib now id db ≡ ok db'
    → IsConsistent db'
unfolding update_jobs has_id
recompute_job-IsConsistent lib now id db h e =
    rw (← recompute_job-ok lib now id db e)
      (All-update_where (has_id id) (reduce_job lib now (tasks_of id db.tasks)) hit miss db.jobs h)
  where
    hit :
        (job : Job)
        → (job.id ≡ id) ⊎ IsReduced (tasks_of job.id db.tasks) job
        → has_id id job ≡ true
        → let job' = reduce_job lib now (tasks_of id db.tasks) job in
          IsReduced (tasks_of job'.id db.tasks) job'
    hit job _ same =
        let job' = reduce_job lib now (tasks_of id db.tasks) job in
        subst (λ i. IsReduced (tasks_of i db.tasks) job')
          (sym (reduce_job-id lib now (tasks_of id db.tasks) job ∙ (==_iff job.id id).0 same))
          (reduce_job-IsReduced lib now (tasks_of id db.tasks) job)

    miss :
        (job : Job)
        → (job.id ≡ id) ⊎ IsReduced (tasks_of job.id db.tasks) job
        → has_id id job ≡ false
        → IsReduced (tasks_of job.id db.tasks) job
    miss job (inl same) other = absurd (ground (arith, same))
    miss job (inr reduced) other = reduced
