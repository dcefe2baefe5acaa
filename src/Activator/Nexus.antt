-- ===== src/Activator/Nexus.antt =====
-- packages/workflow/src/internals.ts: the jobs that settle the two promises of a child workflow
-- and of a Nexus operation, its start and its completion.
use sdk_typescript.Prelude.{
  ℕ, String, Option, none, some, ◌==◌, ◌||◌, if◌then◌else◌, nat_same, string_same,
}
use sdk_typescript.JsMap.{get, delete, set}
use sdk_typescript.Errors.{
  JsError, undefined, type_error, illegal_state_error, workflow_already_started,
  namespace_not_found, invalid_versioning_override,
}
use sdk_typescript.Activator.{
  nexus_operation_start, nexus_operation_complete, child_workflow_start, child_workflow_complete,
  Key, key_same, Completion, resolve_value, resolve_nexus_started, reject, ok, Exec, pure, raise,
  modify, lift, ◌>>=◌, ◌>>◌,
}
use sdk_typescript.Activator.Completions.{
  Host, at, settle, drop_completion, get_seq, maybe_consume_completion, consume_completion,
  reject_with, settle_failed,
}

-- ResolveChildWorkflowExecutionStart: a run id; the workflow's id and type and a numeric cause; a
-- failure. An empty text is a missing one.
pub data ChildStart : Type 0 where
  succeeded : String → ChildStart
  failed : String → String → ℕ → ChildStart
  cancelled : Option String → ChildStart
  no_status : ChildStart

-- The error for a StartChildWorkflowExecutionFailedCause; `none` is an unknown cause.
unfoldable pub failed_cause_error : String → String → String → ℕ → Option JsError
failed_cause_error namespace workflow_id workflow_type cause =
    if cause == 1
    then some (workflow_already_started workflow_id workflow_type)
    else if cause == 2
    then some (namespace_not_found namespace)
    else if cause == 3
    then some (invalid_versioning_override workflow_id workflow_type)
    else none

unfoldable pub reject_start : ℕ → Option JsError → Exec (Unit {0})
unfolding settle drop_completion
reject_start n none =
    raise (illegal_state_error "Got unknown StartChildWorkflowExecutionFailedCause")
reject_start n (some error) = do
  settle (at child_workflow_start n) (reject error)
  drop_completion (at child_workflow_complete n)

unfoldable pub take_system_context : ℕ → Exec (Option String)
take_system_context n a = (
  ok (get n a.system_nexus_operation_contexts),
  record a { system_nexus_operation_contexts = delete n a.system_nexus_operation_contexts },
)

module _ (host : Host) where
  unfoldable pub settle_child_start : ℕ → Completion → ChildStart → Exec (Unit {0})
  unfolding settle drop_completion reject_start failed_cause_error settle_failed
  settle_child_start n c (succeeded run_id) =
      if run_id == ""
      then raise (type_error "Got ResolveChildWorkflowExecutionStart with no runId")
      else settle (at child_workflow_start n) (resolve_value run_id)
  settle_child_start n c (failed workflow_id workflow_type cause) =
      if n == 0 || workflow_id == "" || workflow_type == ""
      then raise (type_error "Missing attributes in activation job")
      else reject_start n (failed_cause_error host.namespace workflow_id workflow_type cause)
  settle_child_start n c (cancelled failure) = do
    settle_failed host (at child_workflow_start n) c "Got no failure in cancelled variant" failure
    drop_completion (at child_workflow_complete n)
  settle_child_start n c no_status =
      raise (type_error "Got ResolveChildWorkflowExecutionStart with no status")

  -- resolveChildWorkflowExecutionStart
  unfoldable pub resolve_child_workflow_execution_start : Option ℕ → ChildStart → Exec (Unit {0})
  unfolding settle_child_start
  resolve_child_workflow_execution_start seq status = do
    n ← get_seq seq
    c ← consume_completion child_workflow_start n
    settle_child_start n c status

  unfoldable pub settle_nexus_start :
      ℕ → Completion → Option String → Option String → Exec (Unit {0})
  unfolding settle reject_with
  settle_nexus_start n c token none = do
    modify λ a. record a { completions = set (at nexus_operation_complete n) c a.completions }
    settle (at nexus_operation_start n) (resolve_nexus_started token)
  settle_nexus_start n c token (some failure) =
      reject_with host (at nexus_operation_start n) failure c.context

  -- resolveNexusOperationStart: its token, or the failure to start
  unfoldable pub resolve_nexus_operation_start :
      Option ℕ → Option String → Option String → Exec (Unit {0})
  unfolding settle_nexus_start
  resolve_nexus_operation_start seq token failure = do
    n ← get_seq seq
    c ← consume_completion nexus_operation_start n
    settle_nexus_start n c token failure

  unfoldable pub decode_output : Option String → String → Completion → Option String → Exec String
  decode_output system payload c none = lift (host.from_payload payload c)
  decode_output system payload c (some output) = pure output

  -- An operation that completes before its start was reported settles the start's promise, whose
  -- value then holds the finished result.
  unfoldable pub take_either : ℕ → Option Completion → Exec (Key × Completion)
  take_either n (some c) = pure (at nexus_operation_start n, c)
  take_either n none = do
    c ← consume_completion nexus_operation_complete n
    pure (at nexus_operation_complete n, c)

  -- nexus_operation.NexusOperationResult: a payload, or the failure of the three other members
  unfoldable pub resolve_either :
      ℕ → Option String → Option String → Option String → Exec (Unit {0})
  unfolding settle decode_output take_either
  resolve_either n system (some payload) failure = do
    start ← maybe_consume_completion nexus_operation_start n
    taken ← take_either n start
    output ← lift (host.deserialize_system_nexus_output system payload)
    value ← decode_output system payload taken.1 output
    settle taken.0 (resolve_value value)
  resolve_either n system none (some failure) = do
    start ← maybe_consume_completion nexus_operation_start n
    taken ← take_either n start
    reject_with host taken.0 failure taken.1.context
  resolve_either n system none none = do
    start ← maybe_consume_completion nexus_operation_start n
    taken ← take_either n start
    settle taken.0 (reject undefined)

  -- resolveNexusOperation
  unfoldable pub resolve_nexus_operation :
      Option ℕ → Option String → Option String → Exec (Unit {0})
  unfolding resolve_either reject_with take_system_context
  resolve_nexus_operation seq payload failure = do
    n ← get_seq seq
    system ← take_system_context n
    resolve_either n system payload failure
