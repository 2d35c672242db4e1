-- ===== src/Background/Enqueue.antt =====
-- background/store.go: Enqueue with its validation, the reuse of an idempotency key, and createTask.
use Prim.Native.String.{len}
use text.Mathlib.Text.{◌==◌ as str_eq}
use videocms.Base.{
  pos, ℕ, suc, Bool, true, false, not, ◌&&◌, Option, none, some, String, List, [], ◌∷◌, ◌++◌, ◌==◌,
  ltb, leb, if◌then◌else◌, is_some, count_where, first, select, length,
}
use videocms.Background.Types.{Job, JobStatus, Task, TaskStatus, Visibility, TaskSpec, JobSpec}
use videocms.Background.Text.{Library, is_empty, bounded_message, marshal_payload}
use videocms.Background.Database.{
  Db, Error, Outcome, ok, err, ◌>>=◌, ◌>>◌, refuse_if, or_error, in_job, add_event,
}

unfoldable pub task_spec_complete : Library → TaskSpec → Bool
unfolding is_empty
task_spec_complete lib spec =
    not (is_empty (lib.trim_space spec.kind)) && not (is_empty (lib.trim_space spec.queue))

unfoldable pub task_specs_complete : Library → List TaskSpec → Bool
unfolding task_spec_complete
task_specs_complete lib [] = true
task_specs_complete lib (spec ∷ specs) =
    let rest = task_specs_complete lib specs in task_spec_complete lib spec && rest

unfoldable pub validate_job_spec : Library → JobSpec → Outcome (Unit {0})
unfolding task_specs_complete
validate_job_spec lib spec = do
  refuse_if (is_empty (lib.trim_space spec.kind)) Error.invalid_spec
  refuse_if (length spec.tasks == 0) Error.invalid_spec
  refuse_if (not (task_specs_complete lib spec.tasks)) Error.invalid_spec

-- A long key is replaced by its digest.
unfoldable pub normalize_idempotency_key : Library → String → String
normalize_idempotency_key lib value =
    let value' = lib.trim_space value in
    if leb (len value') 255 then value' else lib.sha256_hex value'

abbrev at_least_one : ℕ → ℕ → ℕ
at_least_one value default = if ltb value 1 then default else value

unfoldable pub new_task : Library → ℕ → ℕ → ℕ → TaskSpec → String → Task
unfolding bounded_message
new_task lib now id job_id spec payload = record {
  id = id;
  job_id = job_id;
  parent_task_id = spec.parent_task_id;
  kind = spec.kind;
  queue = spec.queue;
  status = TaskStatus.queued;
  phase = spec.phase;
  payload_version = at_least_one spec.payload_version 1;
  payload = payload;
  result = "";
  dedupe_key = bounded_message lib spec.dedupe_key 255;
  priority = spec.priority;
  required = spec.required;
  weight = at_least_one spec.weight 1;
  progress = pos 0;
  progress_message = "";
  attempt_count = 0;
  max_attempts = at_least_one spec.max_attempts 4;
  run_after = spec.run_after;
  heartbeat_at = none;
  error_code = "";
  error_message = "";
  cancel_requested_at = none;
  commit_started_at = none;
  started_at = none;
  finished_at = none;
  created_at = now;
}

-- The unique index idx_background_task_dedupe.
unfoldable pub same_dedupe : Task → Task → Bool
same_dedupe a b = a.job_id == b.job_id && str_eq a.dedupe_key b.dedupe_key

unfoldable pub create_task : Library → ℕ → ℕ → ℕ → TaskSpec → Db → Outcome Db
unfolding marshal_payload new_task same_dedupe add_event
create_task lib now id job_id spec db = do
  payload ← or_error (marshal_payload lib spec.payload) Error.encode_failed
  let task = new_task lib now id job_id spec payload
  refuse_if (ltb 0 (count_where (same_dedupe task) db.tasks)) Error.duplicate_key
  ok (
      add_event lib
        (record {
          job_id = job_id;
          task_id = some id;
          type = "task_created";
          actor_id = none;
          actor_name = "";
          message = "Task queued";
          metadata = "";
        })
        (record db { tasks = db.tasks ++ task ∷ [] }))

abbrev or_default : String → String → String
or_default value default = if is_empty value then default else value

-- A default dedupe key names the parent task, if any, the kind and the position.
unfoldable pub with_dedupe_key : Library → Option ℕ → ℕ → TaskSpec → TaskSpec
with_dedupe_key lib parent index spec = record spec {
  dedupe_key = or_default spec.dedupe_key (lib.dedupe_format parent spec.kind index);
}

-- The loop of Enqueue over the tasks; `uuid index` is the identifier of the task at `index`.
unfoldable pub create_tasks : Library → ℕ → (ℕ → ℕ) → ℕ → ℕ → List TaskSpec → Db → Outcome Db
unfolding create_task with_dedupe_key
create_tasks lib now uuid job_id index [] db = ok db
create_tasks lib now uuid job_id index (spec ∷ specs) db =
    create_task lib now (uuid index) job_id (with_dedupe_key lib none index spec) db
    >>= create_tasks lib now uuid job_id (suc index) specs

abbrev pub or_user : Option Visibility → Visibility
or_user none = Visibility.user
or_user (some v) = v

unfoldable pub same_visibility : Visibility → Visibility → Bool
same_visibility Visibility.user Visibility.user = true
same_visibility Visibility.admin Visibility.admin = true
same_visibility Visibility.system Visibility.system = true
same_visibility _ _ = false

unfoldable pub same_owner : Option ℕ → Option ℕ → Bool
same_owner none none = true
same_owner (some a) (some b) = a == b
same_owner _ _ = false

unfoldable pub same_flag : Bool → Bool → Bool
same_flag true b = b
same_flag false b = not b

-- The comparison of the stored root tasks with the tasks asked for.
unfoldable pub match_tasks : Library → List Task → List TaskSpec → Outcome (Unit {0})
unfolding marshal_payload
match_tasks lib [] [] = ok tt
match_tasks lib (task ∷ tasks) (spec ∷ specs) =
    or_error (marshal_payload lib spec.payload) Error.encode_failed >>= λ payload.
    refuse_if
      (not (
        str_eq task.kind spec.kind
        && (str_eq task.queue spec.queue && str_eq task.payload payload)))
      Error.idempotency_conflict
    >> match_tasks lib tasks specs
match_tasks lib _ _ = err Error.idempotency_conflict

abbrev pub is_root_of : ℕ → Task → Bool
is_root_of id task = in_job id task && not (is_some task.parent_task_id)

unfoldable pub validate_idempotent_reuse : Library → Job → JobSpec → Db → Outcome (Unit {0})
unfolding same_visibility same_owner same_flag bounded_message in_job match_tasks
validate_idempotent_reuse lib job spec db = do
  refuse_if
      (not (
        str_eq job.kind spec.kind
        && (same_visibility job.visibility (or_user spec.visibility)
            && (same_flag job.pausable spec.pausable
                && (same_owner job.owner_id spec.owner_id
                    && (str_eq job.subject_type (bounded_message lib spec.subject_type 64)
                        && str_eq job.subject_id (bounded_message lib spec.subject_id 128)))))))
      Error.idempotency_conflict
  let roots = select (is_root_of job.id) db.tasks
  refuse_if (not (length roots == length spec.tasks)) Error.idempotency_conflict
  match_tasks lib roots spec.tasks

unfoldable pub new_job : Library → ℕ → ℕ → JobSpec → String → Job
unfolding bounded_message
new_job lib now id spec key = record {
  id = id;
  kind = spec.kind;
  status = JobStatus.queued;
  visibility = or_user spec.visibility;
  owner_id = spec.owner_id;
  subject_type = bounded_message lib spec.subject_type 64;
  subject_id = bounded_message lib spec.subject_id 128;
  idempotency_key = key;
  label = bounded_message lib spec.label 255;
  phase = "";
  progress = 0;
  result_type = "";
  result_id = "";
  error_code = "";
  error_message = "";
  pausable = spec.pausable;
  pause_requested_at = none;
  paused_at = none;
  cancel_requested_at = none;
  started_at = none;
  finished_at = none;
  created_at = now;
}

unfoldable pub find_key : String → Db → Option Job
find_key key db =
    if is_empty key then none else first (λ (job : Job). str_eq job.idempotency_key key) db.jobs

unfoldable pub create_job :
    Library → ℕ → ℕ → (ℕ → ℕ) → JobSpec → String → Db → Outcome (Job × Bool × Db)
unfolding new_job create_tasks add_event
create_job lib now id uuid spec key db = do
  let job = new_job lib now id spec key
  db' ← create_tasks lib now uuid id 0 spec.tasks (record db { jobs = db.jobs ++ job ∷ [] })
  ok (
    job,
    false,
    add_event lib
        (record {
          job_id = id;
          task_id = none;
          type = "job_created";
          actor_id = none;
          actor_name = "";
          message = "Background job queued";
          metadata = "";
        })
        db',
  )

-- The job, whether it is one that was there, and the tables.
unfoldable pub enqueue : Library → ℕ → ℕ → (ℕ → ℕ) → JobSpec → Db → Outcome (Job × Bool × Db)
unfolding validate_job_spec normalize_idempotency_key find_key validate_idempotent_reuse create_job
enqueue lib now id uuid spec db = do
  validate_job_spec lib spec
  let key = normalize_idempotency_key lib spec.idempotency_key
  elim (find_key key db) [
    | some job ↦ validate_idempotent_reuse lib job spec db >>= λ _. ok (job, true, db)
    | none ↦ create_job lib now id uuid spec key db
  ]
