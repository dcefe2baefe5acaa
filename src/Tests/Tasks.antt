-- ===== src/Tests/Tasks.antt =====
-- Jobs, patches, flags, errors and conditions of packages/workflow on concrete inputs.
use sdk_typescript.Prelude.{
  ℕ, ◌≤◌, ◌≡◌, refl, inl, ◌↔◌, Bool, true, false, none, some, List, map, [], ◌∷◌,
}
use sdk_typescript.JsMap.{set, get, has, delete}
use sdk_typescript.Errors.{
  JsError, falsy_value, user_error, illegal_state_error, application_failure, is_temporal_failure,
  is_truthy, constructors, error_class,
}
use sdk_typescript.Activator.{
  Completion, activity, child_workflow_start, child_workflow_complete, Result, ok, throw, fresh,
  key_same,
}
use sdk_typescript.Activator.Completions.{
  Host, at, completed, get_seq, consume_completion, maybe_consume_completion,
  resolve_child_workflow_execution,
}
use sdk_typescript.Activator.Schedule.{start_child}
use sdk_typescript.Activator.Jobs.{
  Job, run, perform, child_started, child_resolved, activity_resolved,
}
use sdk_typescript.Activator.Jobs.Unknown.{unknown_task_throws}
use sdk_typescript.Activator.Patches.{patch_internal}
use sdk_typescript.Activator.Patches.Stable.{patch_run, patched, activation, patched_stable}
use sdk_typescript.Activator.Patches.Markers.{markers, patch_trace, marker_at_most_once}
use sdk_typescript.Activator.Flags.{SdkFlag, FlagContext, has_flag, SemVer, is_at_least}
use sdk_typescript.Activator.Flags.Monotone.{has_flag_sticky, is_at_least_iff, Precedes}
use sdk_typescript.Activator.Failure.{
  FailureHost, handle_workflow_failure, maybe_rethrow_workflow_task_error,
  is_configured_failure_exception,
}
use sdk_typescript.Activator.Failure.Laws.{
  record_all, first_error_thrown, falsy_error_lost, IsTaskError,
}
use sdk_typescript.Activator.Conditions.{World, try_unblock_conditions}
use sdk_typescript.Activator.Conditions.Settled.{unblocking_ends}

abbrev host : Host
host = record {
  namespace = "default";
  from_payload = λ p c. ok p;
  failure_to_error = λ f c. ok (application_failure f);
  deserialize_system_nexus_output = λ s p. ok none;
}

abbrev completion : Completion
completion = record { context = none; output_type_info = none }

abbrev boom : JsError
boom = user_error (error_class ∷ []) "boom"

-- A child is started in a cancelled scope, and later the server reports its result.
abbrev cancelled_child : List Job
cancelled_child =
    child_started (record { considered_cancelled = true; error = boom }) completion completion
    ∷ child_resolved (some 1) (some (completed none))
    ∷ []

-- The result's promise is rejected by the chain and then resolved by the job.
cancelled_child_settles_twice :
    map (λ s. s.key) (run host cancelled_child fresh).settled
    ≡ at child_workflow_start 1 ∷ at child_workflow_complete 1 ∷ at child_workflow_complete 1 ∷ []
unfolding run perform start_child resolve_child_workflow_execution get_seq consume_completion
    maybe_consume_completion get delete set
cancelled_child_settles_twice = refl

unknown_task_throws_example :
    perform host (activity_resolved (some 7) (some (completed none))) fresh
    ≡ (throw (illegal_state_error "No completion for taskSeq"), fresh)
unfolding get
unknown_task_throws_example =
    unknown_task_throws host (activity_resolved (some 7) (some (completed none))) (at activity 7)
      fresh refl refl

patched_stable_example :
    patch_internal none "p" true
      (patch_run (activation true ∷ []) (patch_internal none "p" false fresh).1)
    ≡ (ok true, patch_run (activation true ∷ []) (patch_internal none "p" false fresh).1)
unfolding patch_internal get
patched_stable_example =
    patched_stable none none "p" false true true fresh (activation true ∷ []) refl (inl refl)

marker_at_most_once_example :
    markers "p" (patch_trace (patched none "p" false ∷ patched none "p" false ∷ []) fresh) ≤ 1
marker_at_most_once_example =
    marker_at_most_once (patched none "p" false ∷ patched none "p" false ∷ []) "p"

abbrev no_context : FlagContext
no_context = record { build_id = none; sdk_version = none }

abbrev flag : SdkFlag
flag = record { id = 1; default = true; alternative_conditions = [] }

has_flag_sticky_example :
    has_flag no_context flag (record (has_flag no_context flag fresh).1 { is_replaying = true })
    ≡ (true, record (has_flag no_context flag fresh).1 { is_replaying = true })
unfolding has_flag has get
has_flag_sticky_example = has_flag_sticky no_context no_context flag fresh true refl refl

abbrev version : ℕ → SemVer
version n = record { major = 1; minor = n; patch = 0 }

is_at_least_iff_example :
    (is_at_least (version 11) false (some (version 12)) ≡ true) ↔ Precedes (version 11) (version 12)
is_at_least_iff_example = is_at_least_iff (version 11) (version 12) false

abbrev failures : FailureHost
failures = record { message = λ e. "text"; error_to_failure = λ e. ok tt }

boom-IsTaskError : IsTaskError boom fresh
unfolding is_temporal_failure is_configured_failure_exception constructors
boom-IsTaskError = (refl, refl, λ c e. cc)

falsy-IsTaskError : IsTaskError falsy_value fresh
unfolding is_temporal_failure is_configured_failure_exception constructors
falsy-IsTaskError = (refl, refl, λ c e. cc)

first_error_thrown_example :
    maybe_rethrow_workflow_task_error
      (record_all (falsy_value ∷ []) (handle_workflow_failure failures boom fresh).1)
    ≡ (throw boom, record_all (falsy_value ∷ []) (handle_workflow_failure failures boom fresh).1)
unfolding is_truthy
first_error_thrown_example =
    first_error_thrown failures boom (falsy_value ∷ []) fresh refl boom-IsTaskError refl

falsy_error_lost_example :
    ((handle_workflow_failure failures falsy_value fresh).0 ≡ ok tt)
    × ((handle_workflow_failure failures falsy_value fresh).1.commands ≡ fresh.commands)
    × (maybe_rethrow_workflow_task_error
          (record_all (boom ∷ []) (handle_workflow_failure failures falsy_value fresh).1)
        ≡ (ok tt, record_all (boom ∷ []) (handle_workflow_failure failures falsy_value fresh).1))
falsy_error_lost_example = falsy_error_lost failures (boom ∷ []) fresh refl falsy-IsTaskError

-- Two conditions, of which the first sets the variable that the second waits for.
abbrev waiting : World Bool
waiting = record {
  activator = record fresh { check_conditions = true };
  variables = false;
  blocked_conditions = (1, λ v. (ok v, v)) ∷ (2, λ v. (ok true, true)) ∷ [];
  resolved = [];
}

unblocking_ends_example : (r : Result ℕ) × ((try_unblock_conditions waiting).0 ≡ some r)
unblocking_ends_example = unblocking_ends waiting

both_unblocked :
    ((try_unblock_conditions waiting).0 ≡ some (ok 2))
    × ((try_unblock_conditions waiting).1.resolved ≡ 2 ∷ 1 ∷ [])
unfolding try_unblock_conditions is_truthy delete
both_unblocked = (refl, refl)
