-- ===== src/Background/Schedules.antt =====
-- The schedules of background/runtime.go: ensureSchedules, runDueSchedules, refreshScheduleOutcomes
-- and RunSchedule. A job's identifiers, the text of an error and the keys that fmt.Sprintf and
-- uuid.NewString make are arguments. Go visits its map of definitions in any order, here a list's.
use text.Mathlib.Text.{◌==◌ as str_eq}
use videocms.Base.{
  ℕ, ◌+◌, ◌/◌, Bool, true, ◌&&◌, ◌||◌, ltb, Option, none, some, String, List, [], ◌∷◌, ◌++◌, ◌==◌,
  if◌then◌else◌, count_where, first, update_where,
}
use videocms.Background.Types.{Job, JobStatus, JobSpec, Visibility}
use videocms.Background.Text.{Library, bounded_message, is_empty}
use videocms.Background.Database.{Db, Error, Outcome, ok, err, ◌>>=◌, or_error, find_job}
use videocms.Background.Reduce.{is_success}
use videocms.Background.Claim.{is_due}
use videocms.Background.Control.{job_event}
use videocms.Background.Enqueue.{enqueue}

-- `last_job_id` and `last_status` are none where the column is empty.
pub record ScheduleState : Type 0 where
  pub key : String
  pub kind : String
  pub queue : String
  pub enabled : Bool
  pub last_job_id : Option ℕ
  pub last_status : Option JobStatus
  pub last_error : String
  pub last_run_at : Option ℕ
  pub last_success_at : Option ℕ
  pub next_run_at : Option ℕ

-- `build` is what the function Build returns.
pub record ScheduleDefinition : Type 0 where
  pub key : String
  pub kind : String
  pub queue : String
  pub interval : ℕ
  pub run_on_start : Bool
  pub build : JobSpec

-- The tables, with that of the schedules.
pub record Scheduled : Type 0 where
  pub db : Db
  pub states : List ScheduleState

-- What stands outside of the code.
pub record Outside : Type 0 where
  pub error_text : Error → String
  pub due_key : String → ℕ → String
  pub manual_key : String → String
  pub job_id : String → ℕ
  pub task_id : String → ℕ → ℕ

unfoldable pub of_key : String → ScheduleState → Bool
of_key key state = str_eq state.key key

unfoldable pub is_due_schedule : ℕ → String → ScheduleState → Bool
unfolding is_due of_key
is_due_schedule now key state = of_key key state && (state.enabled && is_due now state.next_run_at)

unfoldable pub new_schedule : ℕ → ScheduleDefinition → ScheduleState
new_schedule now definition = record {
  key = definition.key;
  kind = definition.kind;
  queue = definition.queue;
  enabled = true;
  last_job_id = none;
  last_status = none;
  last_error = "";
  last_run_at = none;
  last_success_at = none;
  next_run_at = some (if definition.run_on_start then now else now + definition.interval);
}

-- FirstOrCreate for each definition.
unfoldable pub ensure_schedules :
    ℕ → List ScheduleDefinition → List ScheduleState → List ScheduleState
unfolding of_key new_schedule
ensure_schedules now [] states = states
ensure_schedules now (definition ∷ definitions) states =
    ensure_schedules now definitions (elim (first (of_key definition.key) states) [
      | some _ ↦ states
      | none ↦ states ++ new_schedule now definition ∷ []
    ])

-- The job of a schedule: the key tells apart the intervals in which it is due.
unfoldable pub due_spec : Outside → ℕ → ScheduleDefinition → JobSpec
due_spec outside now definition = record definition.build {
  visibility = some Visibility.system;
  idempotency_key = outside.due_key definition.key (now / definition.interval);
}

-- The update that makes the schedule wait for its next run.
unfoldable pub claim_schedule : ℕ → ℕ → ScheduleState → ScheduleState
claim_schedule now interval state = record state {
  next_run_at = some (now + interval);
  last_run_at = some now;
}

unfoldable pub record_failure : String → ScheduleState → ScheduleState
record_failure message state = record state {
  last_status = some JobStatus.failed;
  last_error = message;
}

unfoldable pub record_job : Job → ScheduleState → ScheduleState
record_job job state = record state {
  last_job_id = some job.id;
  last_status = some job.status;
  last_error = "";
}

unfoldable pub enqueue_due : Library → Outside → ℕ → ScheduleDefinition → Scheduled → Scheduled
unfolding bounded_message due_spec enqueue of_key record_failure record_job
enqueue_due lib outside now definition s =
    elim (enqueue lib now (outside.job_id definition.key) (outside.task_id definition.key)
      (due_spec outside now definition) s.db) [
        | err e ↦ record s {
          states =
              update_where (of_key definition.key)
                (record_failure (bounded_message lib (outside.error_text e) 512)) s.states;
        }
        | ok (job, _, db) ↦ record {
          db = db;
          states = update_where (of_key definition.key) (record_job job) s.states;
        }
      ]

-- One turn of the loop of runDueSchedules.
unfoldable pub run_due : Library → Outside → ℕ → ScheduleDefinition → Scheduled → Scheduled
unfolding is_due_schedule claim_schedule enqueue_due
run_due lib outside now definition s =
    let due = is_due_schedule now definition.key in
    elim (first due s.states) [
      | none ↦ s
      | some _ ↦
          let claimed : Scheduled = record s {
            states = update_where due (claim_schedule now definition.interval) s.states;
          } in
          if count_where due s.states == 1
          then enqueue_due lib outside now definition claimed
          else claimed
    ]

unfoldable pub run_due_schedules :
    Library → Outside → ℕ → List ScheduleDefinition → Scheduled → Scheduled
unfolding run_due
run_due_schedules lib outside now [] s = s
run_due_schedules lib outside now (definition ∷ definitions) s =
    run_due_schedules lib outside now definitions (run_due lib outside now definition s)

unfoldable pub record_outcome : Job → ScheduleState → ScheduleState
record_outcome job state =
    let seen : ScheduleState = record state {
      last_status = some job.status;
      last_error = job.error_message;
    } in
    if is_success job.status then record seen { last_success_at = job.finished_at } else seen

-- The loop of refreshScheduleOutcomes over the states that it has read.
unfoldable pub refresh_outcomes : Db → List ScheduleState → List ScheduleState → List ScheduleState
unfolding find_job of_key record_outcome
refresh_outcomes db [] states = states
refresh_outcomes db (state ∷ read) states = refresh_outcomes db read (elim state.last_job_id [
  | none ↦ states
  | some id ↦ elim (find_job id db) [
    | err _ ↦ states
    | ok job ↦ update_where (of_key state.key) (record_outcome job) states
  ]
])

unfoldable pub refresh_schedule_outcomes : Scheduled → Scheduled
unfolding refresh_outcomes
refresh_schedule_outcomes s = record s { states = refresh_outcomes s.db s.states s.states }

-- None where RegisterSchedule returns an error. A definition without Build is not represented.
unfoldable pub register_schedule :
    ScheduleDefinition → List ScheduleDefinition → Option (List ScheduleDefinition)
unfolding is_empty
register_schedule definition definitions =
    if is_empty definition.key
      || (is_empty definition.kind || (is_empty definition.queue || definition.interval == 0))
    then none
    else if ltb 0
        (count_where (λ (d : ScheduleDefinition). str_eq d.key definition.key) definitions)
    then none
    else some (definitions ++ definition ∷ [])

unfoldable pub record_manual_run : ℕ → Job → ScheduleState → ScheduleState
record_manual_run now job state = record state {
  last_job_id = some job.id;
  last_status = some job.status;
  last_run_at = some now;
}

unfoldable pub run_schedule :
    Library
    → Outside
    → ℕ
    → List ScheduleDefinition
    → String
    → ℕ
    → String
    → Scheduled
    → Outcome (Job × Scheduled)
unfolding enqueue of_key record_manual_run job_event
run_schedule lib outside now definitions key actor_id actor_name s = do
  definition ←
      or_error (first (λ (d : ScheduleDefinition). str_eq d.key key) definitions) Error.not_found
  let spec : JobSpec = record definition.build {
    visibility = some Visibility.system;
    idempotency_key = outside.manual_key key;
  }
  done ← enqueue lib now (outside.job_id key) (outside.task_id key) spec s.db
  ok (
    done.0,
    record {
      db =
          job_event lib done.0.id actor_id actor_name "schedule_run_requested"
            "Schedule run requested" done.2;
      states = update_where (of_key key) (record_manual_run now done.0) s.states;
    },
  )
