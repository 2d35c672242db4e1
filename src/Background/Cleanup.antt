-- ===== src/Background/Cleanup.antt =====
-- What Retain of background/runtime.go leaves behind.
use videocms.Base.{
  ℕ, ◌≡◌, sym, subst, ◌<◌, inl, inr, Bool, false, not, List, [], ◌∷◌, arith, ◌==◌, ==_iff,
  count_where, select, All, Bool-cases,
}
use videocms.Background.Types.{Job, Task}
use videocms.Background.Database.{Db}
use videocms.Background.Retention.{job_expired, retain}

abbrev HasJob : ℕ → List Job → Type 0
HasJob id jobs = 0 < count_where (λ (j : Job). j.id == id) jobs

-- A job that no expired job shares its identifier with stays.
select-HasJob :
    (gone : ℕ → Bool) (id : ℕ) (jobs : List Job)
    → gone id ≡ false
    → HasJob id jobs
    → HasJob id (select (λ j. not (gone j.id)) jobs)
unfolding count_where select
select-HasJob gone id [] kept h = h
select-HasJob gone id (j ∷ jobs) kept h = elim (Bool-cases (j.id == id)) [
  | inl same ↦
      let e : j.id ≡ id = (==_iff j.id id).0 same in
      let stays : gone j.id ≡ false = subst (λ k. gone k ≡ false) (sym e) kept in
      rw (stays, same) (omega arith)
  | inr other ↦ elim (Bool-cases (gone j.id)) [
    | inl out ↦ rw out (select-HasJob gone id jobs kept (rw other at h))
    | inr stays ↦ rw (stays, other) (select-HasJob gone id jobs kept (rw other at h))
  ]
]

select-tasks :
    (gone : ℕ → Bool) (jobs : List Job) (tasks : List Task)
    → All (λ t. HasJob t.job_id jobs) tasks
    → All
        (λ t. HasJob t.job_id (select (λ j. not (gone j.id)) jobs))
        (select (λ t. not (gone t.job_id)) tasks)
unfolding select
select-tasks gone jobs [] h = tt
select-tasks gone jobs (t ∷ tasks) h = elim (Bool-cases (gone t.job_id)) [
  | inl out ↦ rw out (select-tasks gone jobs tasks h.1)
  | inr stays ↦
      rw stays (select-HasJob gone t.job_id jobs stays h.0, select-tasks gone jobs tasks h.1)
]

-- Retain leaves no task without its job, if none was without one before.
pub retain-no_orphans :
    (now before : ℕ) (db : Db)
    → All (λ t. HasJob t.job_id db.jobs) db.tasks
    → let db' = (retain now before db).0 in All (λ t. HasJob t.job_id db'.jobs) db'.tasks
unfolding retain
retain-no_orphans now before db h = select-tasks (job_expired now before db.jobs) db.jobs db.tasks h
