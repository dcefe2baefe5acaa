-- ===== src/Activator/Updates/Outcomes.antt =====
-- What an update's sender and the state hold after the job, and after the end of its handler.
pub mod Validation
use sdk_typescript.Prelude.{
  ℕ, String, ◌≡◌, ◌≢◌, refl, sym, subst, ◌⊎◌, inl, inr, true, false, Option, none, some, List, [],
  ◌∷◌, ◌++◌, arith, string_same, nat_same, Bool-cases, Option-cases, starts_with, not, ◌&&◌, ◌||◌,
  ◌==◌, Bool,
}
use sdk_typescript.JsMap.{get, has, get-set_self, get-delete_self}
use sdk_typescript.Activator.{
  Activator, DoUpdate, UpdateHandler, Result, ok, throw, update_rejected, update_accepted,
  update_completed, push_command, update_started, MessageHandlerExecution,
}
use sdk_typescript.Errors.{JsError, type_error, ensure_temporal_failure, is_temporal_failure}
use sdk_typescript.Reserved.{temporal_reserved_prefix}
use sdk_typescript.Streams.Log.{Result-cases}
use sdk_typescript.Activator.Failure.{handle_workflow_failure}
use sdk_typescript.Activator.Failure.Laws.{Handled, ensured-IsTemporal, failure_closes_or_records}
use sdk_typescript.Activator.Updates.{
  UpdateHost, do_update, do_update_impl, update_input, validate_update, validated_by, validator_of,
  accepted_or_rejected, start_update, reject_update, accept_update, complete_update,
  update_finished, update_failed, handler_of, handles_update, reject_converted, try_reject_update,
  push_completed, then_complete, catch_failed,
}
use sdk_typescript.Activator.Updates.Delivery.{update_input-keeps}
use sdk_typescript.Activator.Updates.Outcomes.Validation.{
  Untouched, Accepted, StandsFor, HasReservedName, IsMalformed, IsWellFormed, Passes, Fails,
  Rejected, reject_converted-Rejected, Decides, update_input-Decides,
}

-- What becomes of a job for an update: refused, kept for a handler to come, or answered.
abbrev pub Refused : DoUpdate → Activator → Result (Unit {0}) → Activator → Type 0
Refused u a r b =
    IsMalformed u a × ((message : String) × (r ≡ throw (type_error message))) × (b ≡ a)

abbrev pub Kept : DoUpdate → Activator → Activator → Type 0
Kept u a b =
    (has u.name a.update_handlers ≡ false)
    × (a.default_update_handler ≡ false)
    × (b ≡ record a { buffered_updates = a.buffered_updates ++ u ∷ [] })

module _ (host : UpdateHost) where
  -- How doUpdateImpl answers.
  abbrev pub Answered : Option UpdateHandler → DoUpdate → Activator → Activator → Type 0
  Answered entry u a b =
      (Passes host entry u × Accepted entry u a b)
      ⊎ ((e : JsError) × Fails host entry u e × Rejected host u e a b)

  accepted_or_rejected-Answered :
      (entry : Option UpdateHandler) (u : DoUpdate) (a : Activator) (r : Result (List String))
      → Decides host entry u r
      → Answered entry u a (accepted_or_rejected host entry u r a)
  unfolding accepted_or_rejected start_update accept_update push_command handler_of
      try_reject_update
  accepted_or_rejected-Answered none u a (ok args) h = inl (
    h,
    (
      refl,
      inl (refl, refl),
      (_, get-set_self u.id _ a.in_progress_updates, refl, refl),
      refl,
      refl,
    ),
  )
  accepted_or_rejected-Answered (some x) u a (ok args) h = inl (
    h,
    (
      refl,
      inr (x, refl, refl),
      (_, get-set_self u.id _ a.in_progress_updates, refl, refl),
      refl,
      refl,
    ),
  )
  accepted_or_rejected-Answered entry u a (throw e) h =
      inr (e, h, reject_converted-Rejected host u e a _ refl)

  do_update_impl-Answered :
      (entry : Option UpdateHandler) (u : DoUpdate) (a : Activator)
      → Answered entry u a (do_update_impl host entry u a)
  unfolding do_update_impl
  do_update_impl-Answered entry u a = rw (update_input-keeps host entry u a) (
      accepted_or_rejected-Answered entry u a (update_input host entry u a).0
        (update_input-Decides host entry u a))

  do_update_cases :
      (u : DoUpdate) (a : Activator)
      → Refused u a (do_update host u a).0 (do_update host u a).1
        ⊎ (IsWellFormed u a
            × ((do_update host u a).0 ≡ ok tt)
            × (Kept u a (do_update host u a).1
                ⊎ (((has u.name a.update_handlers || a.default_update_handler) ≡ true)
                    × ((do_update host u a).1
                        ≡ do_update_impl host (get u.name a.update_handlers) u a))))
  unfolding do_update handles_update
  do_update_cases u a = ground arith

  -- A job for an update without id, name or instance, or with a reserved name that only a default
  -- handler would take, throws a TypeError and changes nothing. Any other returns: without a
  -- registered or default handler the update is appended to the buffer, and nothing else changes.
  -- Else, if decoding and the validator that has to run succeed, it is answered by one acceptance,
  -- and the registered handler, or the default one, is started with it and in progress. If one of
  -- them throws, no handler is started, and the update is answered by one rejection with the
  -- TemporalFailure that stands for the error, or not at all where the failure converter throws.
  pub update_one_answer :
      (u : DoUpdate) (a : Activator)
      → let (r, b) = do_update host u a in
        Refused u a r b
        ⊎ (IsWellFormed u a
            × (r ≡ ok tt)
            × (Kept u a b
                ⊎ (((has u.name a.update_handlers || a.default_update_handler) ≡ true)
                    × Answered (get u.name a.update_handlers) u a b)))
  update_one_answer u a = elim (do_update_cases u a) [
    | inl h ↦ inl h
    | inr (w, r, inl h) ↦ inr (w, r, inl h)
    | inr (w, r, inr (known, h)) ↦
        inr (w, r, inr (known, rw h (do_update_impl-Answered (get u.name a.update_handlers) u a)))
  ]

  -- What the sender and the workflow hold after an error of the handler or of the conversion of its
  -- result: a rejection by a TemporalFailure, unless the converter throws on it too; any other error
  -- is one of the workflow, and is not answered.
  abbrev pub Thrown : DoUpdate → JsError → Activator → Result (Unit {0}) → Activator → Type 0
  Thrown u e a r b =
      ((is_temporal_failure e ≡ true)
        × (((host.failures.error_to_failure e ≡ ok tt)
              × (r ≡ ok tt)
              × (b.commands ≡ a.commands ++ update_rejected u.protocol_instance_id e ∷ []))
            ⊎ ((x : JsError) × (host.failures.error_to_failure e ≡ throw x)
                × (r ≡ throw x)
                × (b.commands ≡ a.commands))))
      ⊎ ((is_temporal_failure e ≡ false) × Handled host.failures e a r b)

  reject_converted-Thrown :
      (u : DoUpdate) (e : JsError) (a : Activator) (o : Result (Unit {0}))
      → host.failures.error_to_failure e ≡ o
      → is_temporal_failure e ≡ true
      → Thrown u e a (reject_converted host u e o a).0 (reject_converted host u e o a).1
  unfolding reject_converted reject_update push_command ensure_temporal_failure
  reject_converted-Thrown u e a (ok c) h t = inl (t, inl (h, refl, rw t refl))
  reject_converted-Thrown u e a (throw x) h t = inl (t, inr (x, h, refl, refl))

  update_failed-Thrown :
      (u : DoUpdate) (e : JsError) (a : Activator)
      → let (r, b) = update_failed host u e a in Thrown u e a r b
  unfolding update_failed try_reject_update ensure_temporal_failure
  update_failed-Thrown u e a = elim (Bool-cases (is_temporal_failure e)) [
    | inl h ↦
        subst (λ x. Thrown u e a x.0 x.1) (sym (temporal_rejected h))
          (reject_converted-Thrown u e a (host.failures.error_to_failure e) refl h)
    | inr h ↦
        subst (λ x. Thrown u e a x.0 x.1) (sym (other_handled h))
          (inr (h, failure_closes_or_records host.failures e a))
  ]
    where
      temporal_rejected :
          is_temporal_failure e ≡ true
          → update_failed host u e a
            ≡ reject_converted host u e (host.failures.error_to_failure e) a
      temporal_rejected h = rw h refl

      other_handled :
          is_temporal_failure e ≡ false
          → update_failed host u e a ≡ handle_workflow_failure host.failures e a
      other_handled h = rw h refl

  -- When the handler of an update is done it is no longer in progress. If it returned and its
  -- result is encoded, one more answer completes the update. If it threw, or encoding its result
  -- throws, a TemporalFailure rejects the update, where the failure converter does not throw on
  -- it, and else is not answered; any other error gives what failure_closes_or_records states of
  -- an error of the workflow.
  pub update_finished_answers :
      (entry : Option UpdateHandler) (u : DoUpdate) (result : Result String) (a : Activator)
      → let (r, b) = update_finished host entry u result a in
        (get u.id b.in_progress_updates ≡ none)
        × (((v : String) × (payload : String) × (result ≡ ok v)
              × (host.encode entry v ≡ ok payload)
              × (r ≡ ok tt)
              × (b.commands ≡ a.commands ++ update_completed u.protocol_instance_id payload ∷ []))
            ⊎ ((e : JsError) × ((result ≡ throw e)
                  ⊎ ((v : String) × (result ≡ ok v) × (host.encode entry v ≡ throw e)))
                × Thrown u e a r b))
  unfolding update_finished then_complete catch_failed complete_update push_completed push_command
  update_finished_answers entry u (throw e) a =
      (get-delete_self u.id _, inr (e, inl refl, update_failed-Thrown u e a))
  update_finished_answers entry u (ok v) a = elim (Result-cases (host.encode entry v)) [
    | inl (e, h) ↦
        rw h (get-delete_self u.id _, inr (e, inr (v, refl, h), update_failed-Thrown u e a))
    | inr (p, h) ↦ rw h (get-delete_self u.id _, inl (v, p, refl, h, refl, refl))
  ]
