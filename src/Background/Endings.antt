-- ===== src/Background/Endings.antt =====
-- The task after finish of background/runtime.go has succeeded: it is found again, no worker holds
-- it, and its status follows from what the handler reported.
use videocms.Base.{
  ℕ, suc, ◌≡◌, refl, sym, ap, subst, inl, inr, Bool, true, false, not, ◌&&◌, Option, none, some,
  String, List, [], ◌∷◌, arith, ◌==◌, if◌then◌else◌, is_some, first, first-append,
  first-update_where, Bool-cases, Option-cases,
}
use videocms.Background.Types.{Task, TaskStatus, TaskSpec, Attempt, Result, held_status}
use videocms.Background.Text.{Library, marshal_payload}
use videocms.Background.Errors.{TaskError}
use videocms.Background.Database.{
  Db, Error, Outcome, ok, err, find_job, find_task, task_has_id, update_tasks, update_attempts,
  update_jobs, add_event, ok->>=,
}
use videocms.Background.Enqueue.{create_task, new_task}
use videocms.Background.Finish.{
  transient_verdict, class_verdict, failure_verdict, effective_error, failed_edit, finish_failed,
  finish_succeeded, finish_current, finish, succeed, create_child, create_children, skip_duplicate,
  succeeded_edit, result_edit, finish_event, is_cancel_requested, encode_value, user_canceled_error,
}
use videocms.Background.Lookup.{find_task-first, find_task-id, recompute_job-tasks}

failure_verdict-free :
    (lib : Library) (now number : ℕ) (e : TaskError) (task : Task)
    → let after = (failure_verdict lib now number e task).task in
      (held_status after.status ≡ false) × (after.id ≡ task.id)
unfolding failure_verdict class_verdict transient_verdict held_status
failure_verdict-free lib now number e task = (ground arith, ground arith)

create_task-first :
    (lib : Library) (now id job_id : ℕ) (spec : TaskSpec) (q : Task → Bool) (db : Db) {task : Task}
    {db' : Db}
    → first q db.tasks ≡ some task
    → create_task lib now id job_id spec db ≡ ok db'
    → first q db'.tasks ≡ some task
unfolding create_task add_event
create_task-first lib now id job_id spec q db {task} found e =
    elim (Option-cases (marshal_payload lib spec.payload)) [
      | inl missing ↦ absurd (ground arith)
      | inr (payload, m) ↦ ground (
        arith,
        first-append q db.tasks (new_task lib now id job_id spec payload ∷ []) {x = task} found,
      )
    ]

skip_duplicate-first :
    (q : Task → Bool) (db : Db) (created : Outcome Db) {task : Task} {db' : Db}
    → first q db.tasks ≡ some task
    → ((d : Db) → created ≡ ok d → first q d.tasks ≡ some task)
    → skip_duplicate db created ≡ ok db'
    → first q db'.tasks ≡ some task
unfolding skip_duplicate
skip_duplicate-first q db (ok d) {task} {db'} found made e =
    let same : d ≡ db' = cc in subst (λ (x : Db). first q x.tasks ≡ some task) same (made d refl)
skip_duplicate-first q db (err Error.duplicate_key) {task} {db'} found made e =
    let same : db ≡ db' = cc in subst (λ (x : Db). first q x.tasks ≡ some task) same found
skip_duplicate-first q db (err _) found made e = absurd (cc)

create_child-first :
    (lib : Library) (now : ℕ) (uuid : ℕ → ℕ) (parent : Task) (index : ℕ) (spec : TaskSpec)
    (q : Task → Bool) (db : Db) {task : Task} {db' : Db}
    → first q db.tasks ≡ some task
    → create_child lib now uuid parent index spec db ≡ ok db'
    → first q db'.tasks ≡ some task
unfolding create_child
create_child-first lib now uuid parent index spec q db {task} found e =
    skip_duplicate-first q db _ found
      (λ d c.
        create_task-first lib now (uuid index) parent.job_id _ q db {task = task} {db' = d} found c)
      e

create_children-first :
    (lib : Library) (now : ℕ) (uuid : ℕ → ℕ) (parent : Task) (index : ℕ) (specs : List TaskSpec)
    (q : Task → Bool) (db : Db) {task : Task} {db' : Db}
    → first q db.tasks ≡ some task
    → create_children lib now uuid parent index specs db ≡ ok db'
    → first q db'.tasks ≡ some task
unfolding create_children
create_children-first lib now uuid parent index [] q db {task} {db'} found e =
    let same : db ≡ db' = cc in subst (λ (x : Db). first q x.tasks ≡ some task) same found
create_children-first lib now uuid parent index (spec ∷ specs) q db {task} found e =
    let (mid, made, rest) =
      ok->>= (create_child lib now uuid parent index spec db)
        (create_children lib now uuid parent (suc index) specs) e in
    create_children-first lib now uuid parent (suc index) specs q mid
      (create_child-first lib now uuid parent index spec q db found made) rest

-- The row found after a failure, a success.
pub finish_failed-first :
    (lib : Library) (now : ℕ) (current : Task) (attempt : Attempt) (e : TaskError) (db : Db)
    {db' : Db}
    → first (task_has_id current.id) db.tasks ≡ some current
    → finish_failed lib now current attempt e db ≡ ok db'
    → first (task_has_id current.id) db'.tasks
      ≡ some (failure_verdict lib now attempt.number e current).task
unfolding finish_failed failed_edit update_tasks update_attempts finish_event add_event task_has_id
finish_failed-first lib now current attempt e db found ended = ground (
  arith,
  recompute_job-tasks lib now current.job_id (failed_edit lib now current attempt e db) ended,
  first-update_where (task_has_id current.id) (task_has_id current.id)
      (λ (t : Task). (failure_verdict lib now attempt.number e t).task)
      (λ (t : Task).
        ap (λ (k : ℕ). k == current.id) (failure_verdict-free lib now attempt.number e t).1)
      db.tasks {x = current} found,
)

finish_succeeded-first :
    (lib : Library) (now : ℕ) (uuid : ℕ → ℕ) (current : Task) (attempt : Attempt) (result : Result)
    (db : Db) {db' : Db}
    → first (task_has_id current.id) db.tasks ≡ some current
    → finish_succeeded lib now uuid current attempt result db ≡ ok db'
    → (encoded : Option String) × (first (task_has_id current.id) db'.tasks
        ≡ some (succeed lib now result encoded current))
unfolding finish_succeeded
finish_succeeded-first lib now uuid current attempt result db found e =
    let (encoded, _, e₁) = ok->>= (encode_value lib result.value) _ e in
    let (mid, made, e₂) =
      ok->>=
        (create_children lib now uuid current 0 result.children
          (succeeded_edit lib now current attempt result encoded db))
        _ e₁ in
    let (_, _, e₃) = ok->>= (find_job current.job_id mid) _ e₂ in
    let start : first (task_has_id current.id)
          (succeeded_edit lib now current attempt result encoded db).tasks
        ≡ some (succeed lib now result encoded current) =
      unfold succeeded_edit update_tasks update_attempts task_has_id succeed in
      ground (
        arith,
        first-update_where (task_has_id current.id) (task_has_id current.id)
            (succeed lib now result encoded) (λ t. refl) db.tasks {x = current} found,
      ) in
    (
      encoded,
      unfold result_edit update_jobs finish_event add_event in
          ground (
            arith,
            recompute_job-tasks lib now current.job_id (result_edit lib current result mid) e₃,
            create_children-first lib now uuid current 0 result.children (task_has_id current.id)
                (succeeded_edit lib now current attempt result encoded db) start made,
          ),
    )

finish_current-first :
    (lib : Library) (now : ℕ) (uuid : ℕ → ℕ) (current : Task) (attempt : Attempt) (result : Result)
    (task_error : Option TaskError) (db : Db) {db' : Db}
    → first (task_has_id current.id) db.tasks ≡ some current
    → finish_current lib now uuid current attempt result task_error db ≡ ok db'
    → (after : Task) × (first (task_has_id current.id) db'.tasks ≡ some after)
      × (held_status after.status ≡ false)
unfolding finish_current
finish_current-first lib now uuid current attempt result (some e) db found ended = (
  _,
  finish_failed-first lib now current attempt e db found ended,
  (failure_verdict-free lib now attempt.number e current).0,
)
finish_current-first lib now uuid current attempt result none db found ended =
    let (encoded, there) =
      finish_succeeded-first lib now uuid current attempt result db found ended in
    (_, there, unfold succeed held_status in refl)

effective_error-stop :
    (current : Task)
    → (is_cancel_requested current.status && not (is_some current.commit_started_at)) ≡ true
    → effective_error current none ≡ some user_canceled_error
unfolding effective_error
effective_error-stop current h = rw h refl

effective_error-go :
    (current : Task)
    → (is_cancel_requested current.status && not (is_some current.commit_started_at)) ≡ false
    → effective_error current none ≡ none
unfolding effective_error
effective_error-go current h = rw h refl

canceled_verdict :
    (lib : Library) (now number : ℕ) (task : Task)
    → (failure_verdict lib now number user_canceled_error task).task.status ≡ TaskStatus.canceled
unfolding failure_verdict class_verdict
canceled_verdict lib now number task = refl

succeed-status :
    (lib : Library) (now : ℕ) (result : Result) (encoded : Option String) (task : Task)
    → (succeed lib now result encoded task).status ≡ TaskStatus.succeeded
unfolding succeed
succeed-status lib now result encoded task = refl

module _ (lib : Library) (now : ℕ) (uuid : ℕ → ℕ) (task_id : ℕ) (attempt : Attempt)
    (result : Result) (db : Db) {current : Task} (found : find_task task_id db ≡ ok current) where
  pub current-first : first (task_has_id current.id) db.tasks ≡ some current
  current-first =
      subst (λ (k : ℕ). first (task_has_id k) db.tasks ≡ some current)
        (sym (find_task-id task_id db found)) (find_task-first task_id db found)

  pub refound :
      (db' : Db) (after : Task)
      → first (task_has_id current.id) db'.tasks ≡ some after
      → find_task task_id db' ≡ ok after
  unfolding find_task
  refound db' after e =
      let e' : first (task_has_id task_id) db'.tasks ≡ some after =
        subst (λ (k : ℕ). first (task_has_id k) db'.tasks ≡ some after)
          (find_task-id task_id db found) e in
      ground (arith, e')

  pub finish-held :
      (task_error : Option TaskError) {db' : Db}
      → held_status current.status ≡ true
      → finish lib now uuid task_id attempt result task_error db ≡ ok db'
      → finish_current lib now uuid current attempt result (effective_error current task_error) db
        ≡ ok db'
  unfolding finish
  finish-held task_error held ended = ground (arith, found)

  -- Whatever a handler reports, once finish has succeeded the task is there and no worker holds it.
  pub finish-free :
      (task_error : Option TaskError) {db' : Db}
      → finish lib now uuid task_id attempt result task_error db ≡ ok db'
      → (after : Task) × (find_task task_id db' ≡ ok after) × (held_status after.status ≡ false)
  unfolding finish
  finish-free task_error {db'} ended = elim (Bool-cases (held_status current.status)) [
    | inl held ↦
        let (after, there, free) =
          finish_current-first lib now uuid current attempt result
            (effective_error current task_error) db current-first
            (finish-held task_error held ended) in
        (after, refound db' after there, free)
    | inr free ↦
        let same : db ≡ db' = ground (arith, found) in
        (current, subst (λ (d : Db). find_task task_id d ≡ ok current) same found, free)
  ]

  -- A handler that reports success for a task that a worker holds: the task is canceled if its
  -- cancellation was requested before the commit began, and has succeeded otherwise, so also when the
  -- cancellation came after the commit.
  pub finish-success :
      {db' : Db}
      → held_status current.status ≡ true
      → finish lib now uuid task_id attempt result none db ≡ ok db'
      → (after : Task) × (find_task task_id db' ≡ ok after)
        × (after.status ≡ (
            if is_cancel_requested current.status && not (is_some current.commit_started_at)
            then TaskStatus.canceled
            else TaskStatus.succeeded))
  unfolding finish_current
  finish-success {db'} held ended =
      elim (Bool-cases
        (is_cancel_requested current.status && not (is_some current.commit_started_at))) [
          | inl stop ↦ (
            _,
            refound db' _ (
                finish_failed-first lib now current attempt user_canceled_error db {db' = db'}
                  current-first
                  (rw (effective_error-stop current stop) at (finish-held none held ended))),
            rw stop (canceled_verdict lib now attempt.number current),
          )
          | inr go ↦
              let (encoded, there) =
                finish_succeeded-first lib now uuid current attempt result db {db' = db'}
                  current-first
                  (rw (effective_error-go current go) at (finish-held none held ended)) in
              (_, refound db' _ there, rw go (succeed-status lib now result encoded current))
        ]
