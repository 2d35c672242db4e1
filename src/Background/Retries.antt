-- ===== src/Background/Retries.antt =====
-- What finish of background/runtime.go decides: when a task is tried again, what a retry costs, and
-- that a finished handler never leaves its task held.
use videocms.Base.{ℤ, pos, negsuc, ℕ, ◌+◌, ◌≤◌, ◌<◌, ◌≡◌, Bool, true, false, some, arith}
use videocms.Background.Types.{Task, TaskStatus}
use videocms.Background.Text.{Library}
use videocms.Background.Errors.{ErrorClass, TaskError}
use videocms.Background.Claim.{start}
use videocms.Background.Finish.{
  max_delay, default_delay, retry_delay, transient_verdict, class_verdict, failure_verdict,
}

-- A retry waits between one nanosecond and a quarter of an hour, whatever is asked for.
pub retry_delay_bounds :
    (attempt : ℕ) (requested : ℤ)
    → (0 < retry_delay attempt requested) × (retry_delay attempt requested ≤ max_delay)
unfolding retry_delay default_delay
retry_delay_bounds attempt (pos n) = ground arith
retry_delay_bounds attempt (negsuc n) = ground arith

-- A transient failure is tried again, at a time within the bounds of the delay, exactly while
-- attempts are left; then the task fails.
pub transient-retry :
    (lib : Library) (now number : ℕ) (e : TaskError) (task : Task)
    → e.class ≡ ErrorClass.transient
    → let after = (failure_verdict lib now number e task).task in
      (task.attempt_count < task.max_attempts
        → (after.status ≡ TaskStatus.retry_wait)
          × ((at : ℕ) × (after.run_after ≡ some at) × (now < at) × (at ≤ now + max_delay)))
      × (task.max_attempts ≤ task.attempt_count → after.status ≡ TaskStatus.failed)
unfolding failure_verdict class_verdict transient_verdict
transient-retry lib now number e task h =
    let bounds = retry_delay_bounds task.attempt_count e.retry_after in
    (
      λ left. (
        ground arith,
        (
          now + retry_delay task.attempt_count e.retry_after,
          ground arith,
          omega arith,
          omega arith,
        ),
      ),
      λ none_left. ground arith,
    )

abbrev is_free_class : ErrorClass → Bool
is_free_class ErrorClass.paused = true
is_free_class ErrorClass.interrupted = true
is_free_class ErrorClass.deferred = true
is_free_class _ = false

class_verdict-budget :
    (lib : Library) (now number : ℕ) (class : ErrorClass) (requested : ℤ) (task : Task)
    → is_free_class class ≡ true
    → let after = (class_verdict lib now number class requested task).task in
      (after.max_attempts ≡ task.max_attempts + 1) × (after.attempt_count ≡ task.attempt_count)
unfolding class_verdict
class_verdict-budget lib now number class requested task h = ground arith

-- A claim that ends in a pause, an interruption or a deferral costs no attempt: what is left of the
-- retry budget is as before the claim.
pub claim-finish-budget :
    (lib : Library) (now later number : ℕ) (e : TaskError) (task : Task)
    → is_free_class e.class ≡ true
    → let after = (failure_verdict lib later number e (start now task)).task in
      after.max_attempts + task.attempt_count ≡ task.max_attempts + after.attempt_count
unfolding failure_verdict start
claim-finish-budget lib now later number e task h =
    ground (arith, class_verdict-budget lib later number e.class e.retry_after _ h)
