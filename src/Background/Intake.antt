-- ===== src/Background/Intake.antt =====
-- What Enqueue of background/store.go adds to the tables.
use videocms.Base.{
  ℕ, suc, ◌≡◌, refl, sym, ap, subst, ◌∙◌, ◌⊎◌, inl, inr, Bool, true, none, some, String, List, [],
  ◌∷◌, ◌++◌, arith, All, All-append, Option-cases, append_assoc, append-nil,
}
use videocms.Background.Types.{Job, Task, TaskStatus, TaskSpec, JobSpec}
use videocms.Background.Text.{Library, marshal_payload}
use videocms.Background.Database.{Db, Outcome, ok, ok->>=, add_event}
use videocms.Background.Enqueue.{
  new_task, create_task, create_tasks, with_dedupe_key, new_job, create_job, validate_job_spec,
  normalize_idempotency_key, find_key, enqueue, validate_idempotent_reuse,
}

-- A task as Enqueue leaves it.
abbrev pub IsNew : ℕ → Task → Type 0
IsNew id task = (task.status ≡ TaskStatus.queued) × (task.job_id ≡ id)

-- The tables gain new tasks of the job, and no job.
abbrev Gains : ℕ → Db → Db → Type 0
Gains id db db' =
    (new : List Task) × (db'.tasks ≡ db.tasks ++ new) × All (IsNew id) new × (db'.jobs ≡ db.jobs)

create_task-Gains :
    (lib : Library) (now task_id id : ℕ) (spec : TaskSpec) (db : Db) {db' : Db}
    → create_task lib now task_id id spec db ≡ ok db'
    → Gains id db db'
unfolding create_task add_event new_task
create_task-Gains lib now task_id id spec db e =
    elim (Option-cases (marshal_payload lib spec.payload)) [
      | inl missing ↦ absurd (ground arith)
      | inr (payload, m) ↦ (
        new_task lib now task_id id spec payload ∷ [],
        ground arith,
        ((refl, refl), tt),
        ground arith,
      )
    ]

create_tasks-Gains :
    (lib : Library) (now : ℕ) (uuid : ℕ → ℕ) (id index : ℕ) (specs : List TaskSpec) (db : Db)
    {db' : Db}
    → create_tasks lib now uuid id index specs db ≡ ok db'
    → Gains id db db'
unfolding create_tasks
create_tasks-Gains lib now uuid id index [] db {db'} e =
    let same : db ≡ db' = cc in
    (
      [],
      sym (append-nil db.tasks ∙ ap (λ (d : Db). d.tasks) same),
      tt,
      sym (ap (λ (d : Db). d.jobs) same),
    )
create_tasks-Gains lib now uuid id index (spec ∷ specs) db e =
    let (mid, made, rest) =
      ok->>= (create_task lib now (uuid index) id (with_dedupe_key lib none index spec) db)
        (create_tasks lib now uuid id (suc index) specs) e in
    let (one, t₁, new₁, j₁) =
      create_task-Gains lib now (uuid index) id (with_dedupe_key lib none index spec) db made in
    let (more, t₂, new₂, j₂) = create_tasks-Gains lib now uuid id (suc index) specs mid rest in
    (
      one ++ more,
      t₂ ∙ ap (λ ts. ts ++ more) t₁ ∙ append_assoc db.tasks one more,
      All-append (IsNew id) one more new₁ new₂,
      j₂ ∙ j₁,
    )

pub created-tables :
    {job job' : Job} {reused reused' : Bool} {mid db' : Db}
    → ◌≡◌ {A = Outcome (Job × Bool × Db)} (ok (job', reused', mid)) (ok (job, reused, db'))
    → (db'.tasks ≡ mid.tasks) × (db'.jobs ≡ mid.jobs)
created-tables {mid = mid} {db' = db'} e =
    let same : mid ≡ db' = cc in
    (sym (ap (λ (d : Db). d.tasks) same), sym (ap (λ (d : Db). d.jobs) same))

-- What Enqueue adds when it makes a job: the job, and tasks of it.
pub create_job-Gains :
    (lib : Library) (now id : ℕ) (uuid : ℕ → ℕ) (spec : JobSpec) (key : String) (db : Db)
    {job : Job} {reused : Bool} {db' : Db}
    → create_job lib now id uuid spec key db ≡ ok (job, reused, db')
    → (new : List Task) × (db'.tasks ≡ db.tasks ++ new)
      × All (IsNew id) new
      × (db'.jobs ≡ db.jobs ++ new_job lib now id spec key ∷ [])
unfolding create_job add_event
create_job-Gains lib now id uuid spec key db {db' = db'} e =
    let with_job : Db = record db { jobs = db.jobs ++ new_job lib now id spec key ∷ [] } in
    let (mid, made, rest) =
      ok->>= (create_tasks lib now uuid id 0 spec.tasks with_job) (λ _. _) e in
    let (new, t, h, j) = create_tasks-Gains lib now uuid id 0 spec.tasks with_job made in
    let (t', j') = created-tables rest in (new, t' ∙ t, h, j' ∙ j)

-- What a successful Enqueue does: it answers with a job that is there, or it makes one.
pub enqueue-cases :
    (lib : Library) (now id : ℕ) (uuid : ℕ → ℕ) (spec : JobSpec) (db : Db) {job : Job}
    {reused : Bool} {db' : Db}
    → enqueue lib now id uuid spec db ≡ ok (job, reused, db')
    → let key = normalize_idempotency_key lib spec.idempotency_key in
      (validate_job_spec lib spec ≡ ok tt)
      × (((find_key key db ≡ some job)
            × (validate_idempotent_reuse lib job spec db ≡ ok tt)
            × (db' ≡ db))
          ⊎ ((find_key key db ≡ none)
              × (create_job lib now id uuid spec key db ≡ ok (job, reused, db'))))
unfolding enqueue
enqueue-cases lib now id uuid spec db {job} {reused} {db'} e =
    let (_, valid, rest) = ok->>= (validate_job_spec lib spec) (λ _. _) e in
    (
      valid,
      elim (Option-cases (find_key (normalize_idempotency_key lib spec.idempotency_key) db)) [
        | inl missing ↦ inr (missing, rw missing at rest)
        | inr (there, found) ↦
            let (_, fits, kept) =
              ok->>= (validate_idempotent_reuse lib there spec db) (λ _. ok (there, true, db))
                (rw found at rest) in
            let (same_job, same_db) = answered kept in
            inl (
              found ∙ ap some same_job,
              subst (λ (j : Job). validate_idempotent_reuse lib j spec db ≡ ok tt) same_job fits,
              same_db,
            )
      ],
    )
  where
    answered :
        {there : Job}
        → ◌≡◌ {A = Outcome (Job × Bool × Db)} (ok (there, true, db)) (ok (job, reused, db'))
        → (there ≡ job) × (db' ≡ db)
    answered kept = (cc, cc)
