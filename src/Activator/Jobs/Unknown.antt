-- ===== src/Activator/Jobs/Unknown.antt =====
-- Jobs for a task that has no completion in the state.
use sdk_typescript.Prelude.{◌≡◌, ℕ, Option, none, some}
use sdk_typescript.JsMap.{get}
use sdk_typescript.Errors.{illegal_state_error}
use sdk_typescript.Activator.{
  Activator, activity, nexus_operation_start, child_workflow_start, child_workflow_complete,
  signal_workflow, cancel_workflow, Key, key_same, throw, Kind, Completion, Exec, ◌>>=◌,
}
use sdk_typescript.Activator.Completions.{
  Host, at, get_seq, consume_completion, maybe_consume_completion, resolve_activity,
  resolve_child_workflow_execution, resolve_signal_external_workflow,
  resolve_request_cancel_external_workflow,
}
use sdk_typescript.Activator.Nexus.{
  resolve_child_workflow_execution_start, resolve_nexus_operation_start,
}
use sdk_typescript.Activator.Jobs.{
  Job, perform, activity_resolved, child_resolved, child_start_resolved, signal_resolved,
  cancel_resolved, nexus_start_resolved,
}

-- The promise that a well-formed job resolves. A timer's job is left out: its completion may be gone.
abbrev pub task_of : Job → Option Key
task_of (activity_resolved (some n) (some r)) = some (at activity n)
task_of (child_resolved (some n) (some r)) = some (at child_workflow_complete n)
task_of (child_start_resolved (some n) s) = some (at child_workflow_start n)
task_of (signal_resolved (some n) f) = some (at signal_workflow n)
task_of (cancel_resolved (some n) f) = some (at cancel_workflow n)
task_of (nexus_start_resolved (some n) t f) = some (at nexus_operation_start n)
task_of _ = none

consume_missing {ℓ} :
    {B : Type ℓ} (kind : Kind) (n : ℕ) (f : Completion → Exec B) (k : Key) (a : Activator)
    → some (at kind n) ≡ some k
    → get k a.completions ≡ none
    → (consume_completion kind n >>= f) a
      ≡ (throw (illegal_state_error "No completion for taskSeq"), a)
unfolding consume_completion maybe_consume_completion
consume_missing kind n f k a t e =
    let missing : get (at kind n) a.completions ≡ none = cc in rw missing

-- A well-formed job, other than a timer's or the result of a Nexus operation, for a task with no
-- completion in the state throws an IllegalStateError and changes nothing.
pub unknown_task_throws :
    (host : Host) (job : Job) (k : Key) (a : Activator)
    → task_of job ≡ some k
    → get k a.completions ≡ none
    → perform host job a ≡ (throw (illegal_state_error "No completion for taskSeq"), a)
unfolding perform resolve_activity resolve_child_workflow_execution
    resolve_child_workflow_execution_start resolve_signal_external_workflow
    resolve_request_cancel_external_workflow resolve_nexus_operation_start get_seq
unknown_task_throws host (activity_resolved (some n) (some r)) k a t e =
    consume_missing activity n _ k a t e
unknown_task_throws host (child_resolved (some n) (some r)) k a t e =
    consume_missing child_workflow_complete n _ k a t e
unknown_task_throws host (child_start_resolved (some n) s) k a t e =
    consume_missing child_workflow_start n _ k a t e
unknown_task_throws host (signal_resolved (some n) none) k a t e =
    consume_missing signal_workflow n _ k a t e
unknown_task_throws host (signal_resolved (some n) (some f)) k a t e =
    consume_missing signal_workflow n _ k a t e
unknown_task_throws host (cancel_resolved (some n) none) k a t e =
    consume_missing cancel_workflow n _ k a t e
unknown_task_throws host (cancel_resolved (some n) (some f)) k a t e =
    consume_missing cancel_workflow n _ k a t e
unknown_task_throws host (nexus_start_resolved (some n) t' f) k a t e =
    consume_missing nexus_operation_start n _ k a t e
unknown_task_throws host _ k a t e = cc
