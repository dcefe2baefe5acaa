-- ===== src/Activator/Signals/Delivery.antt =====
-- Every signal is started once a handler is there, in the order of arrival.
use sdk_typescript.Prelude.{
  String, ◌≡◌, refl, true, false, not, ◌==◌, List, [], ◌∷◌, arith, string_same, nat_same, filter_by,
  All, starts_with,
}
use sdk_typescript.JsMap.{set}
use sdk_typescript.Reserved.{EntityType, temporal_reserved_prefix, is_reserved_name}
use sdk_typescript.Activator.{Activator, SignalWorkflow, SignalHandler, ok, throw}
use sdk_typescript.Errors.{type_error}
use sdk_typescript.Activator.Mailbox.{dispatch}
use sdk_typescript.Activator.Mailbox.Drained.{
  IsLawful, start_all, drained, dispatch_drained, dispatch_emptied,
}
use sdk_typescript.Activator.Signals.{
  signals, signal_workflow, handles_signal, start_signal, set_signal_handler,
  set_default_signal_handler,
}

signals-IsLawful : IsLawful signals start_signal
unfolding start_signal handles_signal
signals-IsLawful = record {
  buffer-put = λ l a. refl;
  put-put = λ l k a. refl;
  put-buffer = λ a. refl;
  handled-put = λ l a. refl;
  default-put = λ l a. refl;
  handled-start = λ x a. refl;
  default-start = λ x a. refl;
  start-put = λ x l a. refl;
}

abbrev pub IsNamed : SignalWorkflow → Type 0
IsNamed s = (s.signal_name == "") ≡ false

handled-starts :
    (s : SignalWorkflow) (a : Activator)
    → IsNamed s
    → handles_signal a s ≡ true
    → signal_workflow s a ≡ (ok tt, start_signal s a)
unfolding signal_workflow
handled-starts s a named h = ground arith

-- Where there is no default handler and every buffered signal is named, registering a handler
-- under a name that is not reserved starts the buffered signals that now have one, in order of
-- arrival, and leaves the others in the buffer in that order.
pub set_signal_handler_dispatches :
    (name : String) (h : SignalHandler) (a : Activator)
    → is_reserved_name EntityType.signal name ≡ false
    → a.default_signal_handler ≡ false
    → All IsNamed a.buffered_signals
    → let b = record a { signal_handlers = set name h a.signal_handlers } in
      set_signal_handler name h a ≡ (
        ok tt,
        record (start_all start_signal (filter_by (handles_signal b) a.buffered_signals) b) {
          buffered_signals = filter_by (λ s. not (handles_signal b s)) a.buffered_signals;
        },
      )
unfolding set_signal_handler drained
set_signal_handler_dispatches name h a free d v = rw free (
    dispatch_drained signals start_signal signals-IsLawful IsNamed handled-starts
      (record a { signal_handlers = set name h a.signal_handlers }) d v)

-- A buffered signal that a default handler may take.
abbrev pub IsPublic : SignalWorkflow → Type 0
IsPublic s = IsNamed s × (starts_with s.signal_name temporal_reserved_prefix ≡ false)

default-starts :
    (s : SignalWorkflow) (a : Activator)
    → IsPublic s
    → a.default_signal_handler ≡ true
    → signal_workflow s a ≡ (ok tt, start_signal s a)
unfolding signal_workflow
default-starts s a p d = ground arith

-- Setting a default signal handler starts all buffered signals in order and empties the buffer, if
-- each is named and none has the reserved prefix.
pub set_default_signal_handler_dispatches :
    (a : Activator)
    → All IsPublic a.buffered_signals
    → let b = record a { default_signal_handler = true } in
      set_default_signal_handler true a
      ≡ (ok tt, record (start_all start_signal a.buffered_signals b) { buffered_signals = [] })
unfolding set_default_signal_handler
set_default_signal_handler_dispatches a v =
    dispatch_emptied signals start_signal signals-IsLawful IsPublic default-starts
      (record a { default_signal_handler = true }) refl v

-- When the first buffered signal has a reserved name that nothing handles, setting a default
-- signal handler throws a TypeError and drops that signal.
pub buffered_reserved_name_throws :
    (s : SignalWorkflow) (rest : List SignalWorkflow) (a : Activator)
    → IsNamed s
    → starts_with s.signal_name temporal_reserved_prefix ≡ true
    → handles_signal a s ≡ false
    → a.buffered_signals ≡ s ∷ rest
    → set_default_signal_handler true a ≡ (
      throw (type_error "Cannot use signal name with reserved prefix"),
      record a { default_signal_handler = true; buffered_signals = rest },
    )
unfolding set_default_signal_handler dispatch signal_workflow
buffered_reserved_name_throws s rest a named reserved free e = rw e (ground arith)
