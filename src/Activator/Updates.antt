-- ===== src/Activator/Updates.antt =====
-- packages/workflow/src/internals.ts: updates, from the job to the end of the handler, and
-- packages/workflow/src/workflow.ts: the calls that register their handlers. Decoding and the
-- validators are the user's, so they are parameters; the handler itself is recorded as started.
pub mod Outcomes
pub mod Delivery
use sdk_typescript.Prelude.{
  ℕ, String, Bool, true, false, ◌&&◌, ◌||◌, not, ◌==◌, Option, none, some, List, [], ◌∷◌, ◌++◌,
  if◌then◌else◌, string_same, nat_same, starts_with,
}
use sdk_typescript.JsMap.{get, has, set, delete}
use sdk_typescript.Errors.{
  JsError, type_error, application_failure, is_temporal_failure, ensure_temporal_failure,
}
use sdk_typescript.Reserved.{EntityType, temporal_reserved_prefix, is_reserved_name}
use sdk_typescript.Activator.{
  Activator, DoUpdate, UpdateHandler, UnfinishedPolicy, warn_and_abandon, Invocation,
  update_started, Result, ok, throw, Exec, pure, raise, modify, MessageHandlerExecution, Command,
  update_accepted, update_completed, update_rejected, push_command, ◌>>=◌, ◌>>◌,
}
use sdk_typescript.Activator.Failure.{FailureHost, handle_workflow_failure}
use sdk_typescript.Activator.Mailbox.{Mailbox, dispatch_buffered}

-- `arrayFromPayloads` and `toPayloadWithTypeInfo` under the type info of the entry, and the call of
-- a validator, which may see whether history events are replayed and has no effect but to throw.
pub record UpdateHost : Type 0 where
  pub decode : Option UpdateHandler → List String → Result (List String)
  pub validate : ℕ → Bool → List String → Result (Unit {0})
  pub encode : Option UpdateHandler → String → Result String
  pub failures : FailureHost

unfoldable pub handles_update : Activator → DoUpdate → Bool
handles_update a u = has u.name a.update_handlers

-- acceptUpdate, completeUpdate and rejectUpdate
unfoldable pub accept_update : String → Activator → Activator
unfolding push_command
accept_update protocol_instance_id a =
    push_command (update_accepted protocol_instance_id) false (record a { check_conditions = true })

push_completed : String → Result String → Exec (Unit {0})
unfolding push_command
push_completed protocol_instance_id (ok payload) =
    modify (push_command (update_completed protocol_instance_id payload) false)
push_completed protocol_instance_id (throw e) = raise e

unfoldable pub complete_update :
    UpdateHost → Option UpdateHandler → String → String → Exec (Unit {0})
unfolding push_completed
complete_update host entry protocol_instance_id result =
    push_completed protocol_instance_id (host.encode entry result)

unfoldable pub reject_update : UpdateHost → String → JsError → Activator → Activator
unfolding push_command
reject_update host protocol_instance_id error =
    push_command
      (update_rejected protocol_instance_id (ensure_temporal_failure host.failures.message error))
      false

policy_of : Option UpdateHandler → UnfinishedPolicy
policy_of none = warn_and_abandon
policy_of (some h) = h.unfinished_policy

handler_of : Option UpdateHandler → Option ℕ
handler_of none = none
handler_of (some h) = some h.handler

validator_of : Option UpdateHandler → Option ℕ
validator_of none = none
validator_of (some h) = h.validator

-- The update is accepted, in progress, and its handler started.
unfoldable pub start_update : Option UpdateHandler → DoUpdate → Activator → Activator
unfolding accept_update policy_of handler_of
start_update entry u a =
    let b = accept_update u.protocol_instance_id a in
    record b {
      in_progress_updates =
          set u.id (record { name = u.name; unfinished_policy = policy_of entry; id = some u.id })
            b.in_progress_updates;
      invocations = b.invocations ++ update_started (handler_of entry) u ∷ [];
    }

module _ (host : UpdateHost) where
  validated_by : Option ℕ → Result (List String) → Bool → Result (Unit {0})
  validated_by none args replaying = ok tt
  validated_by (some v) (throw e) replaying = throw e
  validated_by (some v) (ok args) replaying = host.validate v replaying args

  -- The validator runs as if no history event were replayed; the flag is put back in any case.
  unfoldable pub validate_update : Option UpdateHandler → DoUpdate → Exec (Unit {0})
  unfolding validated_by validator_of
  validate_update entry u a =
      if u.run_validator
      then (let b = record a { is_replaying_history_events = false } in
          (
            validated_by (validator_of entry) (host.decode entry u.input)
                b.is_replaying_history_events,
            record b { is_replaying_history_events = a.is_replaying_history_events },
          ))
      else (ok tt, a)

  -- What the `try` of doUpdateImpl ends with: the input, or the error that rejects the update.
  unfoldable pub update_input : Option UpdateHandler → DoUpdate → Exec (List String)
  unfolding validate_update
  update_input entry u = do validate_update entry u; λ b. (host.decode entry u.input, b)

  -- rejectUpdate where the failure converter, called first, may throw.
  pub reject_converted : DoUpdate → JsError → Result (Unit {0}) → Exec (Unit {0})
  unfolding reject_update
  reject_converted u e (ok converted) = modify (reject_update host u.protocol_instance_id e)
  reject_converted u e (throw x) = raise x

  unfoldable pub try_reject_update : DoUpdate → JsError → Exec (Unit {0})
  unfolding reject_converted ensure_temporal_failure
  try_reject_update u e =
      reject_converted u e
        (host.failures.error_to_failure (ensure_temporal_failure host.failures.message e))

  -- The promise of doUpdateImpl is rejected where this throws; doUpdate does not wait for it.
  accepted_or_rejected :
      Option UpdateHandler → DoUpdate → Result (List String) → Activator → Activator
  unfolding start_update try_reject_update
  accepted_or_rejected entry u (ok args) a = start_update entry u a
  accepted_or_rejected entry u (throw e) a = (try_reject_update u e a).1

  -- doUpdateImpl
  unfoldable pub do_update_impl : Option UpdateHandler → DoUpdate → Activator → Activator
  unfolding accepted_or_rejected update_input
  do_update_impl entry u a = let (r, b) = update_input entry u a in accepted_or_rejected entry u r b

  -- doUpdate
  unfoldable pub do_update : DoUpdate → Exec (Unit {0})
  unfolding handles_update do_update_impl
  do_update u a =
      if u.id == ""
      then raise (type_error "Missing activation update id") a
      else if u.name == ""
      then raise (type_error "Missing activation update name") a
      else if u.protocol_instance_id == ""
      then raise (type_error "Missing activation update protocolInstanceId") a
      else if starts_with u.name temporal_reserved_prefix
          && not (handles_update a u)
          && a.default_update_handler
      then raise (type_error "Cannot use update name with reserved prefix") a
      else if not (handles_update a u) && not a.default_update_handler
      then modify (λ b. record b { buffered_updates = b.buffered_updates ++ u ∷ [] }) a
      else modify (do_update_impl (get u.name a.update_handlers) u) a

  abbrev pub updates : Mailbox DoUpdate
  updates = record {
    buffer = λ a. a.buffered_updates;
    put = λ l a. record a { buffered_updates = l };
    handled = handles_update;
    default = λ a. a.default_update_handler;
    deliver = do_update;
  }

  -- dispatchBufferedUpdates
  unfoldable pub dispatch_buffered_updates : Exec (Unit {0})
  unfolding dispatch_buffered
  dispatch_buffered_updates = dispatch_buffered updates

  -- setHandler for an update, and setDefaultUpdateHandler
  unfoldable pub set_update_handler : String → UpdateHandler → Exec (Unit {0})
  unfolding dispatch_buffered_updates
  set_update_handler name h a =
      if is_reserved_name EntityType.update name
      then raise (type_error "Cannot use update name") a
      else dispatch_buffered_updates (record a { update_handlers = set name h a.update_handlers })

  unfoldable pub set_default_update_handler : Bool → Exec (Unit {0})
  unfolding dispatch_buffered_updates
  set_default_update_handler present a =
      let b = record a { default_update_handler = present } in
      if present then dispatch_buffered_updates b else (ok tt, b)

  -- rejectBufferedUpdates
  reject_all : List DoUpdate → Activator → Activator
  unfolding reject_update
  reject_all [] a = a
  reject_all (u ∷ us) a = reject_all us (
      reject_update host u.protocol_instance_id
        (application_failure "No registered handler for update")
        (record a { buffered_updates = us }))

  unfoldable pub reject_buffered_updates : Activator → Activator
  unfolding reject_all
  reject_buffered_updates a = reject_all a.buffered_updates a

  -- The `then`, `catch` and `finally` of doUpdateImpl, when the handler is done.
  then_complete : Option UpdateHandler → DoUpdate → Result String → Exec (Unit {0})
  unfolding complete_update
  then_complete entry u (ok result) = complete_update host entry u.protocol_instance_id result
  then_complete entry u (throw e) = raise e

  update_failed : DoUpdate → JsError → Exec (Unit {0})
  unfolding try_reject_update handle_workflow_failure
  update_failed u e a =
      if is_temporal_failure e
      then try_reject_update u e a
      else handle_workflow_failure host.failures e a

  catch_failed : DoUpdate → Result (Unit {0}) → Exec (Unit {0})
  unfolding update_failed
  catch_failed u (ok done) = pure tt
  catch_failed u (throw e) = update_failed u e

  -- `entry` is the handler that the update was started with.
  unfoldable pub update_finished : Option UpdateHandler → DoUpdate → Result String → Exec (Unit {0})
  unfolding then_complete catch_failed
  update_finished entry u result a =
      let (r, b) = then_complete entry u result a in
      let (q, c) = catch_failed u r b in
      (q, record c { in_progress_updates = delete u.id c.in_progress_updates })

unfoldable pub delete_update_handler : String → Exec (Unit {0})
delete_update_handler name a =
    if is_reserved_name EntityType.update name
    then raise (type_error "Cannot use update name") a
    else (ok tt, record a { update_handlers = delete name a.update_handlers })
