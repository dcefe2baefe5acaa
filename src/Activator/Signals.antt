-- ===== src/Activator/Signals.antt =====
-- packages/workflow/src/internals.ts: signals, from the job to the end of the handler. A handler is
-- user code: the model records which one is started on what; what it does to the state, also in
-- its synchronous part, is the calls that follow.
pub mod Delivery
use sdk_typescript.Prelude.{
  ℕ, suc, String, Bool, true, false, ◌&&◌, ◌||◌, not, ◌==◌, Option, none, some, List, [], ◌∷◌, ◌++◌,
  if◌then◌else◌, string_same, nat_same, starts_with,
}
use sdk_typescript.JsMap.{get, has, set, delete}
use sdk_typescript.Errors.{JsError, type_error}
use sdk_typescript.Reserved.{EntityType, temporal_reserved_prefix, is_reserved_name}
use sdk_typescript.Activator.{
  Activator, SignalWorkflow, SignalHandler, UnfinishedPolicy, warn_and_abandon, Invocation,
  signal_started, Exec, raise, modify, ok, MessageHandlerExecution, ◌>>=◌, ◌>>◌,
}
use sdk_typescript.Activator.Failure.{FailureHost, handle_workflow_failure}
use sdk_typescript.Activator.Mailbox.{Mailbox, dispatch_buffered}

unfoldable pub handles_signal : Activator → SignalWorkflow → Bool
handles_signal a s = has s.signal_name a.signal_handlers

policy_of : Option SignalHandler → UnfinishedPolicy
policy_of none = warn_and_abandon
policy_of (some h) = h.unfinished_policy

handler_of : Option SignalHandler → Option ℕ
handler_of none = none
handler_of (some h) = some h.handler

-- The execution of the handler begins: it has a number and is in progress. The handler is looked up
-- by signalWorkflowNextHandler; without one it is the default handler.
unfoldable pub start_signal : SignalWorkflow → Activator → Activator
unfolding policy_of handler_of
start_signal s a =
    let h = get s.signal_name a.signal_handlers in
    record a {
      signal_handler_execution_seq = suc a.signal_handler_execution_seq;
      in_progress_signals =
          set a.signal_handler_execution_seq
            (record { name = s.signal_name; unfinished_policy = policy_of h; id = none })
            a.in_progress_signals;
      invocations =
          a.invocations ++ signal_started a.signal_handler_execution_seq (handler_of h) s ∷ [];
    }

-- signalWorkflow
unfoldable pub signal_workflow : SignalWorkflow → Exec (Unit {0})
unfolding start_signal handles_signal
signal_workflow s a =
    if s.signal_name == ""
    then raise (type_error "Missing activation signalName") a
    else if starts_with s.signal_name temporal_reserved_prefix
        && not (handles_signal a s)
        && a.default_signal_handler
    then raise (type_error "Cannot use signal name with reserved prefix") a
    else if not (handles_signal a s) && not a.default_signal_handler
    then modify (λ b. record b { buffered_signals = b.buffered_signals ++ s ∷ [] }) a
    else modify (start_signal s) a

abbrev pub signals : Mailbox SignalWorkflow
signals = record {
  buffer = λ a. a.buffered_signals;
  put = λ l a. record a { buffered_signals = l };
  handled = handles_signal;
  default = λ a. a.default_signal_handler;
  deliver = signal_workflow;
}

-- dispatchBufferedSignals
unfoldable pub dispatch_buffered_signals : Exec (Unit {0})
unfolding dispatch_buffered
dispatch_buffered_signals = dispatch_buffered signals

-- The `catch` and `finally` of signalWorkflow, when the handler is done.
finish_signal : ℕ → Activator → Activator
finish_signal n a = record a { in_progress_signals = delete n a.in_progress_signals }

unfoldable pub signal_finished : FailureHost → ℕ → Option JsError → Exec (Unit {0})
unfolding finish_signal handle_workflow_failure
signal_finished host n none a = modify (finish_signal n) a
signal_finished host n (some e) a =
    let (r, b) = handle_workflow_failure host e a in (r, finish_signal n b)

-- setHandler for a signal, and setDefaultSignalHandler
unfoldable pub set_signal_handler : String → SignalHandler → Exec (Unit {0})
unfolding dispatch_buffered_signals
set_signal_handler name h a =
    if is_reserved_name EntityType.signal name
    then raise (type_error "Cannot use signal name") a
    else dispatch_buffered_signals (record a { signal_handlers = set name h a.signal_handlers })

unfoldable pub delete_signal_handler : String → Exec (Unit {0})
delete_signal_handler name a =
    if is_reserved_name EntityType.signal name
    then raise (type_error "Cannot use signal name") a
    else (ok tt, record a { signal_handlers = delete name a.signal_handlers })

unfoldable pub set_default_signal_handler : Bool → Exec (Unit {0})
unfolding dispatch_buffered_signals
set_default_signal_handler present a =
    let b = record a { default_signal_handler = present } in
    if present then dispatch_buffered_signals b else (ok tt, b)
