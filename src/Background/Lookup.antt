-- ===== src/Background/Lookup.antt =====
-- What a row looks like after the edits of a transaction of background/runtime.go: the job found by
-- its identifier after recomputeJob, and how many tasks are committing.
use videocms.Base.{
  ℕ, ◌<◌, ◌≡◌, refl, sym, ap, subst, inl, inr, Bool, true, Option, none, some, List, [], ◌∷◌, arith,
  ◌==◌, ==_iff, first, first-hit, first-update_where, count_where, select, All, All-map, ◌≢◌,
  Bool-cases,
}
use videocms.Background.Types.{Job, Task}
use videocms.Background.Text.{Library}
use videocms.Background.Database.{
  Db, ok, find_job, find_task, has_id, task_has_id, tasks_of, update_jobs,
}
use videocms.Background.Reduce.{reduce_job, recompute_job}
use videocms.Background.Consistent.{reduce_job-id, recompute_job-ok}

-- The job found by `find_job` has the identifier asked for.
pub find_job-id : (id : ℕ) (db : Db) {job : Job} → find_job id db ≡ ok job → job.id ≡ id
unfolding find_job has_id
find_job-id id db {job} e =
    (==_iff job.id id).0 (first-hit (has_id id) db.jobs (row (first (has_id id) db.jobs) refl))
  where
    row : (o : Option Job) → first (has_id id) db.jobs ≡ o → first (has_id id) db.jobs ≡ some job
    row none p = absurd (ground arith)
    row (some j) p = ground arith

pub find_job-first :
    (id : ℕ) (db : Db) {job : Job} → find_job id db ≡ ok job → first (has_id id) db.jobs ≡ some job
unfolding find_job
find_job-first id db e = ground arith

pub find_task-first :
    (id : ℕ) (db : Db) {task : Task}
    → find_task id db ≡ ok task
    → first (task_has_id id) db.tasks ≡ some task
unfolding find_task
find_task-first id db e = ground arith

pub find_task-id : (id : ℕ) (db : Db) {task : Task} → find_task id db ≡ ok task → task.id ≡ id
unfolding task_has_id
find_task-id id db {task} e =
    (==_iff task.id id).0 (first-hit (task_has_id id) db.tasks (find_task-first id db e))

-- An update of jobs that keeps the identifiers, seen through `find_job`.
pub find_job-update_jobs :
    (id : ℕ) (f : Job → Job) (db : Db) {job : Job}
    → ((j : Job) → (f j).id ≡ j.id)
    → find_job id db ≡ ok job
    → find_job id (update_jobs (has_id id) f db) ≡ ok (f job)
unfolding update_jobs find_job has_id
find_job-update_jobs id f db {job} keep e = ground (
  arith,
  find_job-id id db e,
  first-update_where (has_id id) (has_id id) f (λ (j : Job). ap (λ (k : ℕ). k == id) (keep j))
      db.jobs {x = job} (find_job-first id db e),
)

-- The job that a recompute leaves behind is the reduction of the one that it found.
pub find_job-recompute_job :
    (lib : Library) (now id : ℕ) (db : Db) {job : Job} {db' : Db}
    → find_job id db ≡ ok job
    → recompute_job lib now id db ≡ ok db'
    → find_job id db' ≡ ok (reduce_job lib now (tasks_of id db.tasks) job)
find_job-recompute_job lib now id db {job} found e =
    subst (λ d. find_job id d ≡ ok (reduce_job lib now (tasks_of id db.tasks) job))
      (recompute_job-ok lib now id db e)
      (find_job-update_jobs id _ db (reduce_job-id lib now (tasks_of id db.tasks)) found)

-- A recompute leaves the tasks alone.
pub recompute_job-tasks :
    (lib : Library) (now id : ℕ) (db : Db) {db' : Db}
    → recompute_job lib now id db ≡ ok db'
    → db'.tasks ≡ db.tasks
unfolding update_jobs
recompute_job-tasks lib now id db e =
    ap (λ (d : Db). d.tasks) (sym (recompute_job-ok lib now id db e))

module _ {A : Type 0} where
  -- A row found that satisfies a further condition is counted.
  pub count_where_pos :
      (q p : A → Bool) (xs : List A) {x : A}
      → first q xs ≡ some x
      → p x ≡ true
      → 0 < count_where p xs
  unfolding first count_where
  count_where_pos q p [] e h = absurd (cc)
  count_where_pos q p (y ∷ xs) {x} e h = elim (Bool-cases (q y)) [
    | inl hit ↦ let same : y ≡ x = ground arith in rw same (rw h (omega arith))
    | inr miss ↦ ground (arith, count_where_pos q p xs {x = x} (ground arith) h)
  ]

  -- What holds of all rows that a query keeps holds of a row found that it keeps.
  pub All-select-first {κ} :
      (P : A → Type κ) (q r : A → Bool) (xs : List A) {x : A}
      → All P (select r xs)
      → first q xs ≡ some x
      → r x ≡ true
      → P x
  unfolding first select
  All-select-first P q r [] all e h = absurd (cc)
  All-select-first P q r (y ∷ xs) {x} all e h = elim (Bool-cases (q y)) [
    | inl hit ↦
        let same : y ≡ x = ground arith in
        let kept : r y ≡ true = rw same h in subst P same ((rw kept at all).0)
    | inr miss ↦ elim (Bool-cases (r y)) [
      | inl kept ↦ All-select-first P q r xs (rw kept at all).1 (ground arith) h
      | inr off ↦ All-select-first P q r xs (rw off at all) (ground arith) h
    ]
  ]

  -- A condition that counts some row holds of a row, with what holds of all rows.
  pub count_where-witness {κ} :
      (P : A → Type κ) (p : A → Bool) (xs : List A)
      → All P xs
      → 0 < count_where p xs
      → (x : A) × P x × (p x ≡ true)
  unfolding count_where
  count_where-witness P p [] all h = elim h [ ]
  count_where-witness P p (y ∷ xs) all h = elim (Bool-cases (p y)) [
    | inl hit ↦ (y, all.0, hit)
    | inr miss ↦ count_where-witness P p xs all.1 (rw miss at h)
  ]

-- The identifier is the primary key of the tasks.
abbrev pub IsKeyed : List Task → Type 0
IsKeyed [] = Unit
IsKeyed (task ∷ tasks) = All (λ t. t.id ≢ task.id) tasks × IsKeyed tasks

-- The task found is the only one of its identifier.
pub IsKeyed-first :
    (id : ℕ) (tasks : List Task) {task : Task}
    → IsKeyed tasks
    → first (task_has_id id) tasks ≡ some task
    → All (λ t. task_has_id id t ≡ true → t ≡ task) tasks
unfolding first task_has_id
IsKeyed-first id [] keyed e = tt
IsKeyed-first id (y ∷ tasks) {task} keyed e = elim (Bool-cases (y.id == id)) [
  | inl hit ↦
      let same : y ≡ task = ground arith in
      (
        λ _. same,
        All-map {Q = λ (t : Task). (t.id == id) ≡ true → t ≡ task}
            (λ (t : Task) (other : t.id ≢ y.id) (h : (t.id == id) ≡ true). absurd (ground arith))
            tasks keyed.0,
      )
  | inr miss ↦
      (λ h. absurd (ground arith), IsKeyed-first id tasks {task = task} keyed.1 (ground arith))
]

-- What an update of the rows of one identifier comes to, on the row found.
pub count_one-first :
    (id : ℕ) (p : Task → Bool) (tasks : List Task) {task : Task}
    → IsKeyed tasks
    → first (task_has_id id) tasks ≡ some task
    → ((t : Task) → p t ≡ true → task_has_id id t ≡ true)
    → 0 < count_where p tasks
    → p task ≡ true
count_one-first id p tasks {task} keyed e own h =
    let (t, same, hit) = count_where-witness _ p tasks (IsKeyed-first id tasks keyed e) h in
    rw (← same (own t hit)) hit
