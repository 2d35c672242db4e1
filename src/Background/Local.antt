-- ===== src/Background/Local.antt =====
-- Edits that touch the rows of one job only, as the transactions of background/runtime.go make them
-- before they call recomputeJob, and the one lemma by which each of them keeps the tables consistent.
use videocms.Base.{
  ℕ, ◌≡◌, refl, sym, subst, ◌∙◌, ◌⊎◌, inl, inr, ◌≢◌, Bool, true, false, List, [], ◌∷◌, arith, ◌==◌,
  ==_iff, All, update_where, select-update_where, All-map, Bool-cases,
}
use videocms.Background.Types.{Job, Task, Event, Attempt}
use videocms.Background.Text.{Library}
use videocms.Background.Database.{
  Db, ok, has_id, in_job, tasks_of, update_jobs, update_tasks, update_attempts, add_event,
}
use videocms.Background.Reduce.{recompute_job}
use videocms.Background.Consistent.{IsReduced, IsConsistent, recompute_job-IsConsistent}

-- The jobs stay in place, and those with another identifier stay as they are.
abbrev pub JobsOff : ℕ → List Job → List Job → Type 0
JobsOff id [] [] = Unit
JobsOff id [] (_ ∷ _) = ⊥
JobsOff id (_ ∷ _) [] = ⊥
JobsOff id (x ∷ xs) (y ∷ ys) = (y.id ≡ x.id) × ((x.id ≡ id) ⊎ (y ≡ x)) × JobsOff id xs ys

pub record IsLocal (id : ℕ) (db db' : Db) : Type 0 where
  pub jobs_off : JobsOff id db.jobs db'.jobs
  pub tasks_off : (j : ℕ) → j ≢ id → tasks_of j db'.tasks ≡ tasks_of j db.tasks

JobsOff-refl : (id : ℕ) (xs : List Job) → JobsOff id xs xs
JobsOff-refl id [] = tt
JobsOff-refl id (x ∷ xs) = (refl, inr refl, JobsOff-refl id xs)

JobsOff-update_where :
    (id : ℕ) (f : Job → Job)
    → ((job : Job) → (f job).id ≡ job.id)
    → (xs ys : List Job) → JobsOff id xs ys
    → JobsOff id xs (update_where (has_id id) f ys)
unfolding update_where has_id
JobsOff-update_where id f keep [] [] off = tt
JobsOff-update_where id f keep [] (y ∷ ys) off = off
JobsOff-update_where id f keep (x ∷ xs) [] off = off
JobsOff-update_where id f keep (x ∷ xs) (y ∷ ys) off = elim (Bool-cases (y.id == id)) [
  | inl hit ↦ rw hit (
    keep y ∙ off.0,
    inl (sym off.0 ∙ (==_iff y.id id).0 hit),
    JobsOff-update_where id f keep xs ys off.2,
  )
  | inr miss ↦ rw miss (off.0, off.1, JobsOff-update_where id f keep xs ys off.2)
]

pub IsLocal-refl : (id : ℕ) (db : Db) → IsLocal id db db
IsLocal-refl id db = record { jobs_off = JobsOff-refl id db.jobs; tasks_off = λ j _. refl }

module _ (id : ℕ) (db mid : Db) (local : IsLocal id db mid) where
  pub IsLocal-update_jobs :
      (f : Job → Job)
      → ((job : Job) → (f job).id ≡ job.id)
      → IsLocal id db (update_jobs (has_id id) f mid)
  unfolding update_jobs
  IsLocal-update_jobs f keep = record {
    jobs_off = JobsOff-update_where id f keep db.jobs mid.jobs local.jobs_off;
    tasks_off = local.tasks_off;
  }

  -- The rows that an update of tasks touches belong to the job, and stay with it.
  pub IsLocal-update_tasks :
      (p : Task → Bool) (f : Task → Task)
      → ((task : Task) → (f task).job_id ≡ task.job_id)
      → All (λ task. p task ≡ true → task.job_id ≡ id) mid.tasks
      → IsLocal id db (update_tasks p f mid)
  unfolding update_tasks tasks_of
  IsLocal-update_tasks p f keep within = record {
    jobs_off = local.jobs_off;
    tasks_off = λ j other.
        select-update_where (in_job j) p f mid.tasks
          (All-map (λ task own hit. off j other task (own hit)) mid.tasks within)
        ∙ local.tasks_off j other;
  }
    where
      off :
          (j : ℕ)
          → j ≢ id
          → (task : Task) → task.job_id ≡ id
          → (in_job j task ≡ false) × (in_job j (f task) ≡ false)
      off j other task own = ground (arith, keep task)

  pub IsLocal-add_event : (lib : Library) (event : Event) → IsLocal id db (add_event lib event mid)
  unfolding add_event
  IsLocal-add_event lib event = record { jobs_off = local.jobs_off; tasks_off = local.tasks_off }

  pub IsLocal-update_attempts :
      (p : Attempt → Bool) (f : Attempt → Attempt) → IsLocal id db (update_attempts p f mid)
  unfolding update_attempts
  IsLocal-update_attempts p f = record { jobs_off = local.jobs_off; tasks_off = local.tasks_off }

IsReduced-off :
    (id : ℕ) (db db' : Db)
    → IsLocal id db db'
    → (xs ys : List Job) → JobsOff id xs ys
    → All (λ job. IsReduced (tasks_of job.id db.tasks) job) xs
    → All (λ job. (job.id ≡ id) ⊎ IsReduced (tasks_of job.id db'.tasks) job) ys
IsReduced-off id db db' local [] [] off h = tt
IsReduced-off id db db' local [] (y ∷ ys) off h = absurd off
IsReduced-off id db db' local (x ∷ xs) [] off h = tt
IsReduced-off id db db' local (x ∷ xs) (y ∷ ys) off h =
    (here off.1, IsReduced-off id db db' local xs ys off.2 h.1)
  where
    kept : (y.id ≡ id) ⊎ (y.id ≢ id)
    kept = elim (Bool-cases (y.id == id)) [
      | inl e ↦ inl ((==_iff y.id id).0 e)
      | inr e ↦ inr (λ (same : y.id ≡ id). ground arith)
    ]

    here : (x.id ≡ id) ⊎ (y ≡ x) → (y.id ≡ id) ⊎ IsReduced (tasks_of y.id db'.tasks) y
    here (inl same) = inl (off.0 ∙ same)
    here (inr e) = elim kept [
      | inl same ↦ inl same
      | inr other ↦ inr (
          subst (λ ts. IsReduced ts y) (sym (local.tasks_off y.id other))
            (subst (λ job. IsReduced (tasks_of job.id db.tasks) job) (sym e) h.0))
    ]

-- A transaction that edits one job's rows and then recomputes that job keeps the tables consistent.
pub local_recompute-IsConsistent :
    (lib : Library) (now id : ℕ) (db mid : Db) {db' : Db}
    → IsConsistent db
    → IsLocal id db mid
    → recompute_job lib now id mid ≡ ok db'
    → IsConsistent db'
local_recompute-IsConsistent lib now id db mid h local e =
    recompute_job-IsConsistent lib now id mid
      (IsReduced-off id db mid local db.jobs mid.jobs local.jobs_off h) e
