-- ===== src/Tests/Messages.antt =====
-- Signals and updates of packages/workflow on concrete inputs.
use sdk_typescript.Prelude.{
  ◌≡◌, refl, ◌⊎◌, String, true, false, not, ◌||◌, none, some, List, [], ◌∷◌, ◌++◌, map, filter_by,
  string_same,
}
use sdk_typescript.JsMap.{get, has, set}
use sdk_typescript.Errors.{
  JsError, application_failure, type_error, is_temporal_failure, ensure_temporal_failure,
}
use sdk_typescript.Reserved.{is_reserved_name}
use sdk_typescript.Activator.{
  Activator, SignalWorkflow, DoUpdate, SignalHandler, UpdateHandler, abandon, Result, ok, throw,
  fresh, update_completed, update_rejected,
}
use sdk_typescript.Activator.Mailbox.Drained.{start_all}
use sdk_typescript.Activator.Signals.{
  set_signal_handler, set_default_signal_handler, start_signal, handles_signal,
}
use sdk_typescript.Activator.Signals.Delivery.{
  set_signal_handler_dispatches, set_default_signal_handler_dispatches,
  buffered_reserved_name_throws,
}
use sdk_typescript.Activator.Updates.{
  UpdateHost, do_update, update_finished, set_update_handler, set_default_update_handler,
  reject_buffered_updates, handles_update,
}
use sdk_typescript.Activator.Updates.Outcomes.{
  update_one_answer, update_finished_answers, Refused, Kept, Answered, Thrown,
}
use sdk_typescript.Activator.Updates.Outcomes.Validation.{IsWellFormed}
use sdk_typescript.Errors.{constructors}
use sdk_typescript.Activator.Failure.{is_configured_failure_exception, record_workflow_task_error}
use sdk_typescript.Activator.Updates.Delivery.{
  take_up, set_update_handler_dispatches, set_default_update_handler_dispatches, not_registered,
  reject_buffered_updates_answers,
}

abbrev signal : String → SignalWorkflow
signal name = record { signal_name = name; input = [] }

abbrev with_signals : List SignalWorkflow → Activator
with_signals l = record fresh { buffered_signals = l }

abbrev two_signals : Activator
two_signals = with_signals (signal "a" ∷ signal "b" ∷ [])

abbrev handler : SignalHandler
handler = record { handler = 9; unfinished_policy = abandon }

abbrev registered : Activator
registered = record two_signals { signal_handlers = set "b" handler [] }

set_signal_handler_dispatches_example : set_signal_handler "b" handler two_signals ≡ (
  ok tt,
  record (start_all start_signal
      (filter_by (handles_signal registered) two_signals.buffered_signals)
      registered) {
        buffered_signals =
            filter_by (λ s. not (handles_signal registered s)) two_signals.buffered_signals;
      },
)
unfolding is_reserved_name get
set_signal_handler_dispatches_example =
    set_signal_handler_dispatches "b" handler two_signals refl refl (refl, (refl, tt))

set_default_signal_handler_dispatches_example : set_default_signal_handler true two_signals ≡ (
  ok tt,
  record (start_all start_signal two_signals.buffered_signals
      (record two_signals { default_signal_handler = true })) { buffered_signals = [] },
)
set_default_signal_handler_dispatches_example =
    set_default_signal_handler_dispatches two_signals ((refl, refl), ((refl, refl), tt))

abbrev reserved : Activator
reserved = with_signals (signal "__temporal_x" ∷ signal "a" ∷ [])

buffered_reserved_name_throws_example : set_default_signal_handler true reserved ≡ (
  throw (type_error "Cannot use signal name with reserved prefix"),
  record reserved { default_signal_handler = true; buffered_signals = signal "a" ∷ [] },
)
unfolding handles_signal has get
buffered_reserved_name_throws_example =
    buffered_reserved_name_throws (signal "__temporal_x") (signal "a" ∷ []) reserved refl refl refl
      refl

-- A validator that rejects every input.
abbrev host : UpdateHost
host = record {
  decode = λ e p. ok p;
  validate = λ v r p. throw (type_error "invalid");
  encode = λ e v. throw (type_error "not serializable");
  failures = record { message = λ e. "invalid"; error_to_failure = λ e. ok tt };
}

abbrev update : String → DoUpdate
update name = record {
  id = "u";
  protocol_instance_id = "p";
  name = name;
  input = [];
  run_validator = true;
}

abbrev validated : UpdateHandler
validated = record { handler = 9; validator = some 3; unfinished_policy = abandon }

abbrev two_updates : Activator
two_updates = record fresh { buffered_updates = update "a" ∷ update "b" ∷ [] }

abbrev with_validated : Activator
with_validated = record two_updates { update_handlers = set "b" validated [] }

update_one_answer_example :
    let (r, b) = do_update host (update "b") with_validated in
    Refused (update "b") with_validated r b
    ⊎ (IsWellFormed (update "b") with_validated
        × (r ≡ ok tt)
        × (Kept (update "b") with_validated b
            ⊎ (((has "b" with_validated.update_handlers || false) ≡ true)
                × Answered host
                    (get "b" with_validated.update_handlers)
                    (update "b")
                    with_validated
                    b)))
update_one_answer_example = update_one_answer host (update "b") with_validated

invalid_is_rejected :
    (do_update host (update "b") with_validated).1.commands
    ≡ update_rejected "p" (application_failure "invalid") ∷ []
unfolding do_update get set has ensure_temporal_failure
invalid_is_rejected = refl

abbrev finished : Result String
finished = ok "v"

-- The result cannot be converted, so the sender gets no answer and the error is recorded.
unconvertible_result_recorded :
    let b = (update_finished host none (update "a") finished fresh).1 in
    (b.commands ≡ []) × (b.workflow_task_error ≡ type_error "not serializable")
unfolding update_finished is_temporal_failure is_configured_failure_exception constructors
    record_workflow_task_error
unconvertible_result_recorded = (refl, refl)

update_finished_answers_example :
    let (r, b) = update_finished host none (update "a") finished fresh in
    (get "u" b.in_progress_updates ≡ none)
    × (((v : String) × (payload : String) × (finished ≡ ok v)
          × (host.encode none v ≡ ok payload)
          × (r ≡ ok tt)
          × (b.commands ≡ [] ++ update_completed "p" payload ∷ []))
        ⊎ ((e : JsError) × ((finished ≡ throw e)
              ⊎ ((v : String) × (finished ≡ ok v) × (host.encode none v ≡ throw e)))
            × Thrown host (update "a") e fresh r b))
update_finished_answers_example = update_finished_answers host none (update "a") finished fresh

set_update_handler_dispatches_example : set_update_handler host "b" validated two_updates ≡ (
  ok tt,
  record (start_all
      (take_up host)
      (filter_by (handles_update with_validated) two_updates.buffered_updates)
      with_validated) {
        buffered_updates =
            filter_by (λ u. not (handles_update with_validated u)) two_updates.buffered_updates;
      },
)
unfolding is_reserved_name get
set_update_handler_dispatches_example =
    set_update_handler_dispatches host "b" validated two_updates refl refl
      ((refl, refl, refl), ((refl, refl, refl), tt))

set_default_update_handler_dispatches_example : set_default_update_handler host true two_updates ≡ (
  ok tt,
  record (start_all
      (take_up host)
      two_updates.buffered_updates
      (record two_updates { default_update_handler = true })) { buffered_updates = [] },
)
set_default_update_handler_dispatches_example =
    set_default_update_handler_dispatches host two_updates
      (((refl, refl, refl), refl), (((refl, refl, refl), refl), tt))

reject_buffered_updates_answers_example :
    reject_buffered_updates host two_updates ≡ record two_updates {
      commands = two_updates.commands ++ map not_registered two_updates.buffered_updates;
      buffered_updates = [];
    }
reject_buffered_updates_answers_example = reject_buffered_updates_answers host two_updates
