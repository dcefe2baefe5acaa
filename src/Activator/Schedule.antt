-- ===== src/Activator/Schedule.antt =====
-- packages/workflow/src/workflow.ts and nexus.ts: the calls that create a promise, push the
-- command that starts its task and register its completion, and what the cancellation of their
-- scope does later. Interceptors are taken to call `next` once, so a sequence number is used once.
use sdk_typescript.Prelude.{
  ℕ, ◌+◌, String, Bool, false, Option, none, ◌||◌, if◌then◌else◌, nat_same, some,
}
use sdk_typescript.JsMap.{has, set}
use sdk_typescript.Errors.{JsError}
use sdk_typescript.Activator.{
  Activator, Kind, timer, activity, nexus_operation_start, nexus_operation_complete,
  child_workflow_start, child_workflow_complete, signal_workflow, key_same, Completion, Command,
  start_timer, cancel_timer, schedule_activity, request_cancel_activity,
  start_child_workflow_execution, cancel_child_workflow_execution,
  signal_external_workflow_execution, cancel_signal_workflow, schedule_nexus_operation,
  request_cancel_nexus_operation, NextSeqs, reject, Exec, pure, modify, ◌>>=◌, ◌>>◌, push_command,
  ok,
}
use sdk_typescript.Activator.Completions.{at, settle, drop_completion}

-- The current scope when a task is started: its `consideredCancelled`, and the error that its
-- `cancelRequested` was rejected with.
pub record Scope : Type 0 where
  pub considered_cancelled : Bool
  pub error : JsError

unfoldable pub register : Kind → ℕ → Completion → Activator → Activator
register kind seq c a = record a { completions = set (at kind seq) c a.completions }

-- In a cancelled scope the promise is rejected and nothing is scheduled.
unfoldable pub start_task : Scope → Kind → ℕ → Command → Completion → Exec (Unit {0})
unfolding settle register push_command
start_task scope kind seq command c =
    if scope.considered_cancelled
    then settle (at kind seq) (reject scope.error)
    else modify (λ a. register kind seq c (push_command command false a))

unfoldable pub next_seq : (Activator → ℕ) → (NextSeqs → NextSeqs) → Exec ℕ
next_seq read bump a = (ok (read a), record a { next_seqs = bump a.next_seqs })

-- sleep, timerNextHandler
unfoldable pub schedule_timer : Scope → Completion → Exec (Unit {0})
unfolding start_task next_seq
schedule_timer scope c = do
  n ← next_seq (λ a. a.next_seqs.timer) (λ s. record s { timer = s.timer + 1 })
  start_task scope timer n (start_timer n) c

-- scheduleActivity, scheduleActivityNextHandler
unfoldable pub schedule_activity_task : Scope → Completion → Exec (Unit {0})
unfolding start_task next_seq
schedule_activity_task scope c = do
  n ← next_seq (λ a. a.next_seqs.activity) (λ s. record s { activity = s.activity + 1 })
  start_task scope activity n (schedule_activity n) c

-- startChild, startChildWorkflowExecutionNextHandler: the promise of the child's result is
-- registered in a cancelled scope too. It is rejected whenever the start is, here or later: `settle`
-- calls the handler that chains them.
unfoldable pub start_child : Scope → Completion → Completion → Exec (Unit {0})
unfolding start_task next_seq register
start_child scope start_c complete_c = do
  n ←
      next_seq (λ a. a.next_seqs.child_workflow)
        (λ s. record s { child_workflow = s.child_workflow + 1 })
  start_task scope child_workflow_start n (start_child_workflow_execution n) start_c
  modify (register child_workflow_complete n complete_c)

-- signalWorkflowNextHandler
unfoldable pub signal_external : Scope → Completion → Exec (Unit {0})
unfolding start_task next_seq
signal_external scope c = do
  n ←
      next_seq (λ a. a.next_seqs.signal_workflow)
        (λ s. record s { signal_workflow = s.signal_workflow + 1 })
  start_task scope signal_workflow n (signal_external_workflow_execution n) c

-- startNexusOperationNextHandler: a system operation's service is kept for its result.
unfoldable pub start_nexus_operation : Scope → Option String → Completion → Exec (Unit {0})
unfolding start_task next_seq
start_nexus_operation scope none c = do
  n ←
      next_seq (λ a. a.next_seqs.nexus_operation)
        (λ s. record s { nexus_operation = s.nexus_operation + 1 })
  start_task scope nexus_operation_start n (schedule_nexus_operation n) c
start_nexus_operation scope (some service) c = do
  n ←
      next_seq (λ a. a.next_seqs.nexus_operation)
        (λ s. record s { nexus_operation = s.nexus_operation + 1 })
  modify λ a. if scope.considered_cancelled then a else record a {
    system_nexus_operation_contexts = set n service a.system_nexus_operation_contexts;
  }
  start_task scope nexus_operation_start n (schedule_nexus_operation n) c

-- The handlers that timerNextHandler and its siblings put on `scope.cancelRequested`.
unfoldable pub cancel_timer_task : ℕ → JsError → Exec (Unit {0})
unfolding settle drop_completion push_command
cancel_timer_task n error a =
    if has (at timer n) a.completions
    then (do
      drop_completion (at timer n)
      modify (push_command (cancel_timer n) false)
      settle (at timer n) (reject error))
        a
    else (ok tt, a)

unfoldable pub request_cancel : Bool → Command → Exec (Unit {0})
unfolding push_command
request_cancel open_task command =
    if open_task then modify (push_command command false) else pure tt

unfoldable pub cancel_activity_task : ℕ → Exec (Unit {0})
unfolding request_cancel
cancel_activity_task n a =
    request_cancel (has (at activity n) a.completions) (request_cancel_activity n) a

unfoldable pub cancel_child : ℕ → Exec (Unit {0})
unfolding request_cancel
cancel_child n a =
    request_cancel (has (at child_workflow_complete n) a.completions)
      (cancel_child_workflow_execution n) a

unfoldable pub cancel_signal : ℕ → Exec (Unit {0})
unfolding request_cancel
cancel_signal n a =
    request_cancel (has (at signal_workflow n) a.completions) (cancel_signal_workflow n) a

unfoldable pub cancel_nexus_operation : ℕ → Exec (Unit {0})
unfolding request_cancel
cancel_nexus_operation n a =
    request_cancel
      (has (at nexus_operation_start n) a.completions
        || has (at nexus_operation_complete n) a.completions)
      (request_cancel_nexus_operation n) a
