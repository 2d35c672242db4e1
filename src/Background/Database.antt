-- ===== src/Background/Database.antt =====
-- The tables of background/types.go and the transactions of gorm: a transaction is a function of the
-- tables that returns new ones or an error, and an error leaves the tables as they were. A failure
-- of the database itself is not modelled. The rows of a table stand in the order of their creation.
use videocms.Base.{
  ℕ, ◌≡◌, refl, Bool, true, false, Option, none, some, List, [], ◌∷◌, ◌++◌, ◌==◌, first, select,
  update_where,
}
use videocms.Background.Types.{Job, Task, Attempt, Event, QueueState}
use videocms.Background.Text.{Library, bounded_message, redact_diagnostic}

pub record Db : Type 0 where
  pub jobs : List Job
  pub tasks : List Task
  pub attempts : List Attempt
  pub events : List Event
  pub queues : List QueueState

pub data Error : Type 0 where
  not_found conflict commit_started idempotency_conflict invalid_spec encode_failed duplicate_key :
      Error

-- What a transaction returns: its value, or the error that rolls it back.
pub data Outcome {ℓ} (V : Type ℓ) : Type ℓ where
  ok : V → Outcome V
  err : Error → Outcome V

infixl 5 ◌>>◌
module _ {ℓ κ} {V : Type ℓ} {W : Type κ} where
  infixl 5 ◌>>=◌
  -- The rest of a transaction, once a step has succeeded.
  abbrev pub ◌>>=◌ : Outcome V → (V → Outcome W) → Outcome W
  step >>= rest = elim step [ err why ↦ err why | ok v ↦ rest v ]

  -- A transaction that succeeds has succeeded at its first step.
  pub ok->>= :
      (step : Outcome V) (rest : V → Outcome W) {w : W}
      → (step >>= rest) ≡ ok w
      → (v : V) × (step ≡ ok v) × (rest v ≡ ok w)
  ok->>= (err why) rest done = cc
  ok->>= (ok v) rest done = (v, refl, done)

-- A check, then the rest.
abbrev pub ◌>>◌ {κ} : {W : Type κ} → Outcome (Unit {0}) → Outcome W → Outcome W
check >> rest = check >>= λ _. rest

-- `if test { return err }`.
abbrev pub refuse_if : Bool → Error → Outcome (Unit {0})
refuse_if true e = err e
refuse_if false e = ok tt

abbrev pub or_error {ℓ} : {A : Type ℓ} → Option A → Error → Outcome A
or_error none e = err e
or_error (some a) e = ok a

unfoldable pub has_id : ℕ → Job → Bool
has_id id job = job.id == id

unfoldable pub task_has_id : ℕ → Task → Bool
task_has_id id task = task.id == id

unfoldable pub in_job : ℕ → Task → Bool
in_job id task = task.job_id == id

-- First(&job, "id = ?").
unfoldable pub find_job : ℕ → Db → Outcome Job
unfolding has_id
find_job id db = or_error (first (has_id id) db.jobs) not_found

unfoldable pub find_task : ℕ → Db → Outcome Task
unfolding task_has_id
find_task id db = or_error (first (task_has_id id) db.tasks) not_found

-- Where("job_id = ?").Order("created_at ASC").
unfoldable pub tasks_of : ℕ → List Task → List Task
unfolding in_job select
tasks_of id tasks = select (in_job id) tasks

unfoldable pub update_jobs : (Job → Bool) → (Job → Job) → Db → Db
update_jobs p f db = record db { jobs = update_where p f db.jobs }

unfoldable pub update_tasks : (Task → Bool) → (Task → Task) → Db → Db
update_tasks p f db = record db { tasks = update_where p f db.tasks }

unfoldable pub update_attempts : (Attempt → Bool) → (Attempt → Attempt) → Db → Db
update_attempts p f db = record db { attempts = update_where p f db.attempts }

unfoldable pub add_event : Library → Event → Db → Db
unfolding bounded_message redact_diagnostic
add_event lib event db =
    let bounded : Event = record event {
      message = bounded_message lib event.message 512;
      metadata = redact_diagnostic lib (bounded_message lib event.metadata 2048);
    } in
    record db { events = db.events ++ bounded ∷ [] }
