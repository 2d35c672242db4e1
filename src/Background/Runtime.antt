-- ===== src/Background/Runtime.antt =====
-- The in-memory part of background/runtime.go's Runtime: the workers that hold a task, the signals
-- sent to them, and the capacity of a queue. The mutex makes each access to `active` one step.
use text.Mathlib.Text.{◌==◌ as str_eq}
use videocms.Base.{
  ℕ, ◌-◌, Bool, true, Option, none, some, String, List, ltb, if◌then◌else◌, count_where,
  update_where,
}
use videocms.Background.Database.{Db}
use videocms.Background.Errors.{Cause}

pub record ActiveTask : Type 0 where
  pub task_id : ℕ
  pub queue : String
  pub job_id : ℕ
  pub cause : Option Cause

pub record Runtime : Type 0 where
  pub db : Db
  pub active : List ActiveTask

-- A CancelCauseFunc: the first cause stands.
unfoldable pub cancel : Cause → ActiveTask → ActiveTask
cancel cause task = elim task.cause [ none ↦ record task { cause = some cause } | some _ ↦ task ]

unfoldable pub cancel_where : (ActiveTask → Bool) → Cause → Runtime → Runtime
unfolding cancel
cancel_where p cause r = record r { active = update_where p (cancel cause) r.active }

unfoldable pub cancel_active : Cause → Runtime → Runtime
unfolding cancel_where
cancel_active = cancel_where (λ _. true)

unfoldable pub active_count : String → Runtime → ℕ
active_count queue r = count_where (λ task. str_eq task.queue queue) r.active

-- The configured capacity, if it is positive; else 2 for the storage queue and 1 for the others.
unfoldable pub capacity : Option (String → ℕ) → String → ℕ
capacity configured queue =
    let default : ℕ = if str_eq queue "storage" then 2 else 1 in
    elim configured [ none ↦ default | some f ↦ if ltb 0 (f queue) then f queue else default ]

-- How many more tasks of a queue may start; a negative difference starts none.
unfoldable pub available : Option (String → ℕ) → String → Runtime → ℕ
unfolding capacity active_count
available configured queue r = capacity configured queue - active_count queue r
