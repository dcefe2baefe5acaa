-- ===== src/Activator/Failure.antt =====
-- packages/workflow/src/internals.ts: what becomes of an error that leaves the workflow function
-- or a signal or update handler, and how the activation that saw it is made to fail.
pub mod Laws
use sdk_typescript.Prelude.{
  ℕ, String, Bool, true, false, ◌&&◌, ◌||◌, ◌==◌, Option, none, some, List, [], ◌∷◌, if◌then◌else◌,
  nat_same, string_same,
}
use sdk_typescript.Errors.{
  ensure_temporal_failure, JsError, undefined, continue_as_new, ErrorClass, is_cancellation,
  is_temporal_failure, is_truthy, constructors,
}
use sdk_typescript.Activator.{
  Activator, Exec, raise, pure, modify, ◌>>=◌, ◌>>◌, push_command, cancel_workflow_execution,
  continue_as_new_workflow_execution, fail_workflow_execution, complete_workflow_execution, ok,
  throw, Result,
}

-- What ensureTemporalFailure reads off an error, and whether the user's failure converter encodes a
-- failure or throws.
pub record FailureHost : Type 0 where
  pub message : JsError → String
  pub error_to_failure : JsError → Result (Unit {0})

is_undefined : JsError → Bool
is_undefined undefined = true
is_undefined _ = false

-- maybeRethrowWorkflowTaskError
unfoldable pub maybe_rethrow_workflow_task_error : Exec (Unit {0})
maybe_rethrow_workflow_task_error a =
    if is_truthy a.workflow_task_error then raise a.workflow_task_error a else (ok tt, a)

keep_first_error : JsError → Activator → Activator
unfolding is_undefined
keep_first_error error a = record a {
  workflow_task_error = if is_undefined a.workflow_task_error then error else a.workflow_task_error;
}

rethrow_if_synchronous : Exec (Unit {0})
unfolding maybe_rethrow_workflow_task_error
rethrow_if_synchronous a =
    if a.rethrow_synchronously then maybe_rethrow_workflow_task_error a else (ok tt, a)

-- recordWorkflowTaskError
unfoldable pub record_workflow_task_error : JsError → Exec (Unit {0})
unfolding keep_first_error rethrow_if_synchronous
record_workflow_task_error error a = rethrow_if_synchronous (keep_first_error error a)

-- `error instanceof errorType`
instance_of : List ErrorClass → ErrorClass → Bool
instance_of [] t = false
instance_of (c ∷ cs) t = c.id == t.id || instance_of cs t

-- One of the classes is `Error`, or the error is an instance of one.
matches_class : JsError → List ErrorClass → Bool
unfolding instance_of
matches_class error [] = false
matches_class error (t ∷ ts) =
    t.id == 0 || instance_of (constructors error) t || matches_class error ts

includes_name : String → List String → Bool
includes_name n [] = false
includes_name n (m ∷ ms) = m == n || includes_name n ms

-- The walk along the prototype chain; an unnamed constructor is passed over.
matches_name : List String → List ErrorClass → Bool
unfolding includes_name
matches_name names [] = false
matches_name names (c ∷ cs) =
    (if c.name == "" then false else includes_name c.name names) || matches_name names cs

matches_types : JsError → Option (List ErrorClass) → Bool
unfolding matches_class
matches_types error none = false
matches_types error (some ts) = matches_class error ts

-- isConfiguredFailureException
unfoldable pub is_configured_failure_exception : JsError → Activator → Bool
unfolding matches_types matches_name
is_configured_failure_exception error a =
    matches_types error a.workflow_definition_failure_exception_types
    || includes_name "Error" a.failure_exception_type_names
    || matches_name a.failure_exception_type_names (constructors error)

-- errorToFailure: the failure converter, which may throw.
fail_workflow : Result (Unit {0}) → JsError → Exec (Unit {0})
unfolding push_command
fail_workflow (ok converted) failure = modify (push_command (fail_workflow_execution failure) true)
fail_workflow (throw e) failure = raise e

module _ (host : FailureHost) where
  fail_or_record : JsError → Exec (Unit {0})
  unfolding record_workflow_task_error fail_workflow ensure_temporal_failure
  fail_or_record error a =
      if is_temporal_failure error || is_configured_failure_exception error a
      then (let failure = ensure_temporal_failure host.message error in
          fail_workflow (host.error_to_failure failure) failure
            (record a { in_progress_signals = []; in_progress_updates = [] }))
      else record_workflow_task_error error a

  not_cancelled_failure : JsError → Exec (Unit {0})
  unfolding fail_or_record push_command
  not_cancelled_failure (continue_as_new command) a =
      (ok tt, push_command (continue_as_new_workflow_execution command) true a)
  not_cancelled_failure error a = fail_or_record error a

  -- handleWorkflowFailure
  unfoldable pub handle_workflow_failure : JsError → Exec (Unit {0})
  unfolding not_cancelled_failure push_command
  handle_workflow_failure error a =
      if a.cancelled && is_cancellation error
      then (ok tt, push_command cancel_workflow_execution true a)
      else not_cancelled_failure error a

-- completeWorkflow
unfoldable pub complete_workflow : String → Exec (Unit {0})
unfolding push_command
complete_workflow result = modify (push_command (complete_workflow_execution result) true)
