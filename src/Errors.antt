-- ===== src/Errors.antt =====
-- packages/common/src/failure.ts, packages/common/src/errors.ts, packages/workflow/src/errors.ts:
-- the values that the runtime throws or is handed, and the `instanceof` tests that it makes.
use sdk_typescript.Prelude.{ℕ, String, Bool, true, false, List, [], ◌∷◌, if◌then◌else◌}

-- A class of the workflow's realm: its identity and its `name`.
pub record ErrorClass : Type 0 where
  pub id : ℕ
  pub name : String

-- A thrown value. `user_error` is any other object, with its constructors from the most derived
-- class to the last one before `Function.prototype`; `falsy_value` is a thrown `null`, `0` or `''`.
pub data JsError : Type 0 where
  undefined falsy_value : JsError
  application_failure cancelled_failure other_temporal_failure : String → JsError
  activity_failure child_workflow_failure nexus_operation_failure : JsError → JsError
  workflow_already_started : String → String → JsError
  invalid_versioning_override : String → String → JsError
  namespace_not_found : String → JsError
  continue_as_new : ℕ → JsError
  local_activity_do_backoff : ℕ → JsError
  type_error illegal_state_error reference_error determinism_violation : String → JsError
  user_error : List ErrorClass → String → JsError

-- `err instanceof CancelledFailure`
abbrev is_cancelled_failure : JsError → Bool
is_cancelled_failure (cancelled_failure m) = true
is_cancelled_failure _ = false

-- Also the failure of an activity, a child or a Nexus operation whose cause is a cancellation.
unfoldable pub is_cancellation : JsError → Bool
is_cancellation (cancelled_failure m) = true
is_cancellation (activity_failure cause) = is_cancelled_failure cause
is_cancellation (child_workflow_failure cause) = is_cancelled_failure cause
is_cancellation (nexus_operation_failure cause) = is_cancelled_failure cause
is_cancellation _ = false

-- `err instanceof TemporalFailure`: the subclasses that failure.ts declares.
unfoldable pub is_temporal_failure : JsError → Bool
is_temporal_failure (application_failure m) = true
is_temporal_failure (cancelled_failure m) = true
is_temporal_failure (other_temporal_failure m) = true
is_temporal_failure (activity_failure c) = true
is_temporal_failure (child_workflow_failure c) = true
is_temporal_failure (nexus_operation_failure c) = true
is_temporal_failure (workflow_already_started w t) = true
is_temporal_failure (invalid_versioning_override w t) = true
is_temporal_failure _ = false

-- Whether `if (err)` takes its branch.
unfoldable pub is_truthy : JsError → Bool
is_truthy undefined = false
is_truthy falsy_value = false
is_truthy _ = true

-- The classes that the runtime's own errors are made from. `Error` is the base of all.
abbrev pub error_class : ErrorClass
error_class = record { id = 0; name = "Error" }

-- The constructors on the prototype chain of a value that is not a TemporalFailure.
unfoldable pub constructors : JsError → List ErrorClass
constructors (user_error cs m) = cs
constructors (type_error m) = record { id = 1; name = "TypeError" } ∷ error_class ∷ []
constructors (reference_error m) = record { id = 2; name = "ReferenceError" } ∷ error_class ∷ []
constructors (illegal_state_error m) =
    record { id = 3; name = "IllegalStateError" } ∷ error_class ∷ []
constructors (determinism_violation m) =
    record { id = 4; name = "DeterminismViolationError" }
    ∷ record { id = 5; name = "WorkflowError" }
    ∷ error_class
    ∷ []
constructors (local_activity_do_backoff n) =
    record { id = 6; name = "LocalActivityDoBackoff" } ∷ error_class ∷ []
constructors (namespace_not_found n) =
    record { id = 7; name = "NamespaceNotFoundError" } ∷ error_class ∷ []
constructors (continue_as_new n) = record { id = 8; name = "ContinueAsNew" } ∷ error_class ∷ []
constructors _ = []

-- ensureTemporalFailure. `message` is what ensureApplicationFailure reads off any other value: its
-- `message`, or the value as text.
unfoldable pub ensure_temporal_failure : (JsError → String) → JsError → JsError
unfolding is_temporal_failure
ensure_temporal_failure message e =
    if is_temporal_failure e then e else application_failure (message e)
