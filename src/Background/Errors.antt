-- ===== src/Background/Errors.antt =====
-- background/errors.go: the classes of a handler's error. A Go error is what the code's tests on it
-- find (errors.As, errors.Is, its text); a context is its error and the cause of its cancellation.
use videocms.Base.{ℤ, pos, Bool, ◌||◌, Option, none, some, String, if◌then◌else◌}
use videocms.Background.Text.{Library, redact_diagnostic}

pub data ErrorClass : Type 0 where
  transient permanent canceled interrupted paused deferred : ErrorClass

pub record TaskError : Type 0 where
  pub code : String
  pub public : String
  pub diagnostic : String
  pub class : ErrorClass
  pub retry_after : ℤ

-- errRuntimeStopping, errUserCanceled, errUserPaused.
pub data Cause : Type 0 where
  runtime_stopping user_canceled user_paused : Cause

pub record GoError : Type 0 where
  pub task_error : Option TaskError
  pub is_canceled : Bool
  pub is_deadline_exceeded : Bool
  pub is_temporary_network : Bool
  pub message : String

unfoldable pub plain_error : Library → ErrorClass → String → String → String → TaskError
unfolding redact_diagnostic
plain_error lib class code public message = record {
  code = code;
  public = public;
  diagnostic = redact_diagnostic lib message;
  class = class;
  retry_after = pos 0;
}

unfoldable pub permanent_error : Library → String → String → String → TaskError
unfolding plain_error
permanent_error lib = plain_error lib ErrorClass.permanent

-- The cancellation of a context by its cause.
unfoldable pub classify_canceled : Library → Option Cause → String → TaskError
unfolding plain_error
classify_canceled lib (some Cause.runtime_stopping) =
    plain_error lib ErrorClass.interrupted "interrupted" "Interrupted by application shutdown"
classify_canceled lib (some Cause.user_paused) = plain_error lib ErrorClass.paused "paused" "Paused"
classify_canceled lib _ = plain_error lib ErrorClass.canceled "canceled" "Canceled"

-- The tests of an error that is no TaskError.
unfoldable pub classify_foreign : Library → Option Cause → GoError → TaskError
unfolding plain_error classify_canceled
classify_foreign lib cause e =
    if e.is_canceled
    then classify_canceled lib cause e.message
    else if e.is_deadline_exceeded
    then plain_error lib ErrorClass.transient "timeout" "The operation timed out" e.message
    else if e.is_temporary_network
    then plain_error lib ErrorClass.transient "network_error" "A temporary network error occurred"
        e.message
    else if lib.lower_contains e.message "database is locked"
        || lib.lower_contains e.message "database is busy"
    then plain_error lib ErrorClass.transient "database_busy" "The database is temporarily busy"
        e.message
    else plain_error lib ErrorClass.permanent "task_failed" "The background task failed" e.message

unfoldable pub classify_some : Library → Option Cause → GoError → TaskError
unfolding classify_foreign
classify_some lib cause e = elim e.task_error [
  | some task_error ↦ task_error
  | none ↦ classify_foreign lib cause e
]

unfoldable pub classify_error : Library → Option Cause → Option GoError → Option TaskError
unfolding classify_some
classify_error lib cause none = none
classify_error lib cause (some e) = some (classify_some lib cause e)
