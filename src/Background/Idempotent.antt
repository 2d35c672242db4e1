-- ===== src/Background/Idempotent.antt =====
-- A repeated Enqueue of background/store.go with the same idempotency key.
use text.Mathlib.Text.{◌==◌ as str_eq}
use text.Mathlib.TextPositions.{eq_refl}
use videocms.Base.{
  ℕ, suc, ◌≡◌, refl, sym, ap, ap₂, subst, ◌∙◌, inl, inr, ◌≢◌, Bool, true, false, Option, none, some,
  String, List, [], ◌∷◌, ◌++◌, arith, ==_iff, All, All-map, first, length, select, select-append,
  select_none, select-All, first-append_miss, Option-cases, append_assoc, append-nil,
}
use videocms.Background.Types.{Job, Task, TaskSpec, JobSpec, Visibility}
use videocms.Background.Text.{Library, is_empty, bounded_message, marshal_payload}
use videocms.Background.Database.{Db, Outcome, ok, ok->>=, in_job, add_event}
use videocms.Background.Enqueue.{
  new_task, create_task, create_tasks, with_dedupe_key, new_job, create_job, validate_job_spec,
  normalize_idempotency_key, find_key, enqueue, validate_idempotent_reuse, match_tasks, is_root_of,
  same_visibility, same_owner, same_flag, or_user,
}
use videocms.Background.Intake.{create_job-Gains, created-tables, enqueue-cases}
use videocms.Background.NewJobs.{IsFresh}

-- The task made for a description, which a later comparison finds to fit it.
abbrev Fits : Library → ℕ → Db → TaskSpec → Db → Task → Type 0
Fits lib id db spec mid task =
    (mid.tasks ≡ db.tasks ++ task ∷ [])
    × (is_root_of id task ≡ true)
    × ((tasks : List Task) (specs : List TaskSpec)
        → match_tasks lib tasks specs ≡ ok tt
        → match_tasks lib (task ∷ tasks) (spec ∷ specs) ≡ ok tt)

create_task-Fits :
    (lib : Library) (now task_id id index : ℕ) (spec : TaskSpec) (db : Db) {mid : Db}
    → spec.parent_task_id ≡ none
    → create_task lib now task_id id (with_dedupe_key lib none index spec) db ≡ ok mid
    → (task : Task) × Fits lib id db spec mid task
unfolding create_task with_dedupe_key
create_task-Fits lib now task_id id index spec db root e =
    elim (Option-cases (marshal_payload lib spec.payload)) [
      | inl missing ↦ absurd (ground arith)
      | inr (payload, m) ↦
          let task = new_task lib now task_id id (with_dedupe_key lib none index spec) payload in
          (task, (unfold add_event in ground arith, unfold new_task in_job in ground arith, fit m))
    ]
  where
    fit :
        {payload : String}
        → marshal_payload lib spec.payload ≡ some payload
        → (tasks : List Task) (specs : List TaskSpec) → match_tasks lib tasks specs ≡ ok tt
        → match_tasks lib
            (new_task lib now task_id id (with_dedupe_key lib none index spec) payload ∷ tasks)
            (spec ∷ specs)
          ≡ ok tt
    fit {payload} m tasks specs rest =
        unfold match_tasks new_task in
        rw (m, eq_refl spec.kind, eq_refl spec.queue, eq_refl payload) rest

-- The tasks made for a list of descriptions, which a later comparison finds to fit them.
abbrev Fit : Library → ℕ → Db → List TaskSpec → Db → Type 0
Fit lib id db specs db' =
    (new : List Task) × (db'.tasks ≡ db.tasks ++ new)
    × All (λ t. is_root_of id t ≡ true) new
    × (match_tasks lib new specs ≡ ok tt)
    × (length new ≡ length specs)

create_tasks-Fit :
    (lib : Library) (now : ℕ) (uuid : ℕ → ℕ) (id index : ℕ) (specs : List TaskSpec) (db : Db)
    {db' : Db}
    → All (λ spec. spec.parent_task_id ≡ none) specs
    → create_tasks lib now uuid id index specs db ≡ ok db'
    → Fit lib id db specs db'
unfolding create_tasks
create_tasks-Fit lib now uuid id index [] db {db'} roots e =
    let same : db ≡ db' = cc in
    (
      [],
      sym (append-nil db.tasks ∙ ap (λ (d : Db). d.tasks) same),
      tt,
      unfold match_tasks in refl,
      refl,
    )
create_tasks-Fit lib now uuid id index (spec ∷ specs) db roots e =
    let (mid, made, rest) =
      ok->>= (create_task lib now (uuid index) id (with_dedupe_key lib none index spec) db)
        (create_tasks lib now uuid id (suc index) specs) e in
    let (task, (t₁, root, fit)) =
      create_task-Fits lib now (uuid index) id index spec db roots.0 made in
    let (more, t₂, roots', fits, size) =
      create_tasks-Fit lib now uuid id (suc index) specs mid roots.1 rest in
    (
      task ∷ more,
      t₂ ∙ ap (λ ts. ts ++ more) t₁ ∙ append_assoc db.tasks (task ∷ []) more,
      (root, roots'),
      fit more specs fits,
      ap suc size,
    )

create_job-Fit :
    (lib : Library) (now id : ℕ) (uuid : ℕ → ℕ) (spec : JobSpec) (key : String) (db : Db)
    {job : Job} {reused : Bool} {db' : Db}
    → All (λ s. s.parent_task_id ≡ none) spec.tasks
    → create_job lib now id uuid spec key db ≡ ok (job, reused, db')
    → Fit lib id db spec.tasks db' × (job ≡ new_job lib now id spec key)
unfolding create_job add_event
create_job-Fit lib now id uuid spec key db {job} {db' = db'} roots e =
    let with_job : Db = record db { jobs = db.jobs ++ new_job lib now id spec key ∷ [] } in
    let (mid, made, rest) =
      ok->>= (create_tasks lib now uuid id 0 spec.tasks with_job) (λ _. _) e in
    let (new, t, root, fits, size) =
      create_tasks-Fit lib now uuid id 0 spec.tasks with_job roots made in
    ((new, (created-tables rest).0 ∙ t, root, fits, size), same_job rest)
  where
    same_job :
        {job' : Job} {mid : Db} {reused reused' : Bool}
        → ◌≡◌ {A = Outcome (Job × Bool × Db)} (ok (job', reused', mid)) (ok (job, reused, db'))
        → job ≡ job'
    same_job e = cc

-- The root tasks of the new job are those that were made for it.
roots-new :
    (id : ℕ) (old new : List Task)
    → All (λ t. t.job_id ≢ id) old
    → All (λ t. is_root_of id t ≡ true) new
    → select (is_root_of id) (old ++ new) ≡ new
roots-new id old new fresh h =
    select-append (is_root_of id) old new
    ∙ ap₂ (λ (xs ys : List Task). xs ++ ys)
        (select_none (is_root_of id) old (
          All-map {P = λ t. t.job_id ≢ id} {Q = λ t. is_root_of id t ≡ false}
            (λ t n. unfold in_job in ground arith) old fresh))
        (select-All (is_root_of id) new h)

same_visibility_refl : (v : Visibility) → same_visibility v v ≡ true
unfolding same_visibility
same_visibility_refl Visibility.user = refl
same_visibility_refl Visibility.admin = refl
same_visibility_refl Visibility.system = refl

same_owner_refl : (owner : Option ℕ) → same_owner owner owner ≡ true
unfolding same_owner
same_owner_refl none = refl
same_owner_refl (some a) = (==_iff a a).1 refl

same_flag_refl : (b : Bool) → same_flag b b ≡ true
unfolding same_flag
same_flag_refl true = refl
same_flag_refl false = refl

module _ (lib : Library) (spec : JobSpec) (db : Db) where
  -- A job that fits its description passes the comparison.
  new_job-reuse :
      (now id : ℕ) (key : String)
      → let roots = select (is_root_of id) db.tasks in
        (length roots ≡ length spec.tasks)
        → match_tasks lib roots spec.tasks ≡ ok tt
        → validate_idempotent_reuse lib (new_job lib now id spec key) spec db ≡ ok tt
  unfolding validate_idempotent_reuse new_job
  new_job-reuse now id key size fits =
      rw
        (
          eq_refl spec.kind,
          same_visibility_refl (or_user spec.visibility),
          same_flag_refl spec.pausable,
          same_owner_refl spec.owner_id,
          eq_refl (bounded_message lib spec.subject_type 64),
          eq_refl (bounded_message lib spec.subject_id 128),
          size,
          (==_iff (length spec.tasks) (length spec.tasks)).1 refl,
        )
        fits

  new_job-find_key :
      (now id : ℕ) (key : String) (db' : Db)
      → is_empty key ≡ false
      → find_key key db ≡ none
      → db'.jobs ≡ db.jobs ++ new_job lib now id spec key ∷ []
      → find_key key db' ≡ some (new_job lib now id spec key)
  unfolding find_key
  new_job-find_key now id key db' named missing grown =
      rw
        (
          named,
          grown,
          first-append_miss (λ (j : Job). str_eq j.idempotency_key key) db.jobs
              (new_job lib now id spec key ∷ []) (rw named at missing),
        )
        (unfold first new_job in rw (eq_refl key) refl)

  -- Enqueue answers with the job of the key, where it passes the comparison.
  enqueue-reuse :
      (job : Job) (now id : ℕ) (uuid : ℕ → ℕ)
      → validate_job_spec lib spec ≡ ok tt
      → find_key (normalize_idempotency_key lib spec.idempotency_key) db ≡ some job
      → validate_idempotent_reuse lib job spec db ≡ ok tt
      → enqueue lib now id uuid spec db ≡ ok (job, true, db)
  unfolding enqueue
  enqueue-reuse job now id uuid valid found fits = rw (valid, found, fits) refl

-- If Enqueue succeeds with an idempotency key that is not empty and without tasks that name a parent,
-- and the new identifier is one that no job has and no task belongs to, then the same call made
-- again, whatever its time and its new identifiers, answers with the same job, as one that was
-- there, and changes nothing.
pub enqueue-again :
    (lib : Library) (now id : ℕ) (uuid : ℕ → ℕ) (spec : JobSpec) (db : Db) {job : Job}
    {reused : Bool} {db' : Db}
    → IsFresh id db
    → is_empty (normalize_idempotency_key lib spec.idempotency_key) ≡ false
    → All (λ s. s.parent_task_id ≡ none) spec.tasks
    → enqueue lib now id uuid spec db ≡ ok (job, reused, db')
    → (now' id' : ℕ) (uuid' : ℕ → ℕ) → enqueue lib now' id' uuid' spec db' ≡ ok (job, true, db')
enqueue-again lib now id uuid spec db {job} {db' = db'} fresh named roots e now' id' uuid' =
    let (valid, how) = enqueue-cases lib now id uuid spec db e in
    elim how [
      | inl (found, fits, same) ↦
          subst (λ (d : Db). enqueue lib now' id' uuid' spec d ≡ ok (job, true, d)) (sym same)
            (enqueue-reuse lib spec db job now' id' uuid' valid found fits)
      | inr (missing, made) ↦
          let ((new, t, root, fits, size), same) =
            create_job-Fit lib now id uuid spec _ db roots made in
          let (_, _, _, jobs) = create_job-Gains lib now id uuid spec _ db made in
          let all_new = roots-new id db.tasks new fresh.1 root in
          let mine : select (is_root_of id) db'.tasks ≡ new =
            ap (λ ts. select (is_root_of id) ts) t ∙ all_new in
          rw same (
            enqueue-reuse lib spec db' (new_job lib now id spec _) now' id' uuid' valid
              (new_job-find_key lib spec db now id _ db' named missing jobs)
              (new_job-reuse lib spec db' now id _ (ap length mine ∙ size) (rw mine fits)))
    ]
