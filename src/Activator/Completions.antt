-- ===== src/Activator/Completions.antt =====
-- packages/workflow/src/internals.ts: the activation jobs that settle the promise of a task, and
-- `consumeCompletion`, by which each of them takes the resolvers out of the state. The converters
-- are the user's, so they are parameters; a conversion may throw.
use sdk_typescript.Prelude.{
  ℕ, String, Option, none, some, List, [], ◌∷◌, ◌++◌, Bool, true, false, ◌&&◌, nat_beq,
  if◌then◌else◌,
}
use sdk_typescript.JsMap.{get, delete}
use sdk_typescript.Errors.{JsError, type_error, illegal_state_error, local_activity_do_backoff}
use sdk_typescript.Activator.{
  Activator, Kind, timer, activity, child_workflow_start, child_workflow_complete, signal_workflow,
  cancel_workflow, Key, kind_index, Settlement, key_same, Completion, Outcome, resolve_undefined,
  resolve_value, reject, Result, ok, Exec, pure, raise, modify, lift, ◌>>=◌,
}

-- `fromPayloadWithTypeInfo`, `failureToError` and `deserializeSystemNexusOutput` under the
-- converters of the workflow; `info.namespace`.
pub record Host : Type 0 where
  pub namespace : String
  pub from_payload : String → Completion → Result String
  pub failure_to_error : String → Option String → Result JsError
  pub deserialize_system_nexus_output : Option String → String → Result (Option String)

abbrev pub at : Kind → ℕ → Key
at kind seq = record { kind = kind; seq = seq }

unfoldable pub is_reject : Outcome → Bool
is_reject (reject e) = true
is_reject _ = false

-- The handler on a child's start promise, `startPromise.catch(reject)` of workflow.ts: where the
-- start is rejected, the child's result is rejected by the same error.
unfoldable pub chained_rejection : Key → Outcome → List Settlement
unfolding is_reject
chained_rejection k o =
    if is_reject o && nat_beq (kind_index child_workflow_start) (kind_index k.kind)
    then record { key = at child_workflow_complete k.seq; outcome = o; chained = true } ∷ []
    else []

-- A call of the `resolve` or `reject` of the promise that `k` names, and what the handler on that
-- promise calls then.
unfoldable pub settle : Key → Outcome → Exec (Unit {0})
unfolding chained_rejection
settle k o = modify λ a. record a {
  settled = a.settled ++ record { key = k; outcome = o; chained = false } ∷ chained_rejection k o;
}

unfoldable pub drop_completion : Key → Exec (Unit {0})
drop_completion k = modify λ a. record a { completions = delete k a.completions }

unfoldable pub get_seq : Option ℕ → Exec ℕ
get_seq none = raise (type_error "Got activation with no seq attribute")
get_seq (some n) = pure n

taken : Key → Option Completion → Activator → Result (Option Completion) × Activator
taken k none a = (ok none, a)
taken k (some c) a = (ok (some c), record a { completions = delete k a.completions })

-- maybeConsumeCompletion
unfoldable pub maybe_consume_completion : Kind → ℕ → Exec (Option Completion)
unfolding taken
maybe_consume_completion kind seq a = taken (at kind seq) (get (at kind seq) a.completions) a

or_missing : Option Completion → Exec Completion
or_missing none = raise (illegal_state_error "No completion for taskSeq")
or_missing (some c) = pure c

-- consumeCompletion
unfoldable pub consume_completion : Kind → ℕ → Exec Completion
unfolding or_missing
consume_completion kind seq = do c ← maybe_consume_completion kind seq; or_missing c

settle_if : Key → Option Completion → Exec (Unit {0})
unfolding settle
settle_if k none = pure tt
settle_if k (some c) = settle k resolve_undefined

-- fireTimer: the completion of a timer that was cancelled is gone.
unfoldable pub fire_timer : Option ℕ → Exec (Unit {0})
unfolding settle_if
fire_timer seq = do n ← get_seq seq; c ← maybe_consume_completion timer n; settle_if (at timer n) c

-- coresdk.activity_result.ActivityResolution, and the result of a child workflow, which has no
-- backoff. `no_status` is a message with no member set.
pub data TaskResult : Type 0 where
  completed failed cancelled : Option String → TaskResult
  backoff : ℕ → TaskResult
  no_status : TaskResult

module _ (host : Host) where
  unfoldable pub reject_with : Key → String → Option String → Exec (Unit {0})
  unfolding settle
  reject_with k failure context = do
    error ← lift (host.failure_to_error failure context)
    settle k (reject error)

  unfoldable pub settle_completed : Key → Completion → Option String → Exec (Unit {0})
  unfolding settle
  settle_completed k c none = settle k resolve_undefined
  settle_completed k c (some payload) = do
    value ← lift (host.from_payload payload c)
    settle k (resolve_value value)

  unfoldable pub settle_failed : Key → Completion → String → Option String → Exec (Unit {0})
  unfolding reject_with
  settle_failed k c message none = raise (type_error message)
  settle_failed k c message (some failure) = reject_with k failure c.context

  unfoldable pub settle_task : Key → Completion → TaskResult → Exec (Unit {0})
  unfolding settle_completed settle_failed
  settle_task k c (completed result) = settle_completed k c result
  settle_task k c (failed failure) =
      settle_failed k c "Got failed result with no failure attribute" failure
  settle_task k c (cancelled failure) =
      settle_failed k c "Got cancelled result with no failure attribute" failure
  settle_task k c (backoff n) = settle k (reject (local_activity_do_backoff n))
  settle_task k c no_status = pure tt

  -- resolveActivity
  unfoldable pub resolve_activity : Option ℕ → Option TaskResult → Exec (Unit {0})
  unfolding settle_task
  resolve_activity seq none = raise (type_error "Got ResolveActivity activation with no result")
  resolve_activity seq (some result) = do
    n ← get_seq seq
    c ← consume_completion activity n
    settle_task (at activity n) c result

  settle_child : Key → Completion → TaskResult → Exec (Unit {0})
  unfolding settle_task
  settle_child k c (backoff n) = pure tt
  settle_child k c result = settle_task k c result

  -- resolveChildWorkflowExecution
  unfoldable pub resolve_child_workflow_execution : Option ℕ → Option TaskResult → Exec (Unit {0})
  unfolding settle_child
  resolve_child_workflow_execution seq none =
      raise (type_error "Got ResolveChildWorkflowExecution activation with no result")
  resolve_child_workflow_execution seq (some result) = do
    n ← get_seq seq
    c ← consume_completion child_workflow_complete n
    settle_child (at child_workflow_complete n) c result

  -- resolveSignalExternalWorkflow and resolveRequestCancelExternalWorkflow
  resolve_external : Kind → Option ℕ → Option String → Exec (Unit {0})
  unfolding settle
  resolve_external kind seq none = do
    n ← get_seq seq
    c ← consume_completion kind n
    settle (at kind n) resolve_undefined
  resolve_external kind seq (some failure) = do
    n ← get_seq seq
    c ← consume_completion kind n
    reject_with (at kind n) failure c.context

  unfoldable pub resolve_signal_external_workflow : Option ℕ → Option String → Exec (Unit {0})
  unfolding resolve_external reject_with
  resolve_signal_external_workflow seq failure = resolve_external signal_workflow seq failure

  unfoldable pub resolve_request_cancel_external_workflow :
      Option ℕ → Option String → Exec (Unit {0})
  unfolding resolve_external reject_with
  resolve_request_cancel_external_workflow seq failure =
      resolve_external cancel_workflow seq failure
