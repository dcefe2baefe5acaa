-- ===== src/Activator/Failure/Laws.antt =====
-- How an error ends the execution, fails the activation, or is lost.
use sdk_typescript.Prelude.{
  String, ℕ, ◌≡◌, refl, ap, subst, sym, ◌∙◌, ◌≢◌, ◌⊎◌, inl, inr, Bool-cases, true, false, ◌&&◌,
  ◌||◌, List, [], ◌∷◌, ◌++◌, arith,
}
use sdk_typescript.Errors.{
  ensure_temporal_failure, JsError, undefined, falsy_value, continue_as_new, is_cancellation,
  is_temporal_failure, is_truthy,
}
use sdk_typescript.Activator.{
  Activator, Command, Result, ok, throw, cancel_workflow_execution, push_command,
  continue_as_new_workflow_execution, fail_workflow_execution,
}
use sdk_typescript.Activator.Failure.{
  FailureHost, fail_workflow, handle_workflow_failure, record_workflow_task_error,
  maybe_rethrow_workflow_task_error, is_undefined, is_configured_failure_exception, fail_or_record,
  not_cancelled_failure,
}

-- The execution ended by one final command, or goes on as it was.
abbrev pub Closed : Command → Activator → Activator → Type 0
Closed c a b = (b.commands ≡ a.commands ++ c ∷ []) × (b.completed ≡ true)

abbrev pub Open : Activator → Activator → Type 0
Open a b = (b.commands ≡ a.commands) × (b.completed ≡ a.completed)

-- The first error recorded is the one kept.
abbrev pub Recorded : JsError → Activator → Activator → Type 0
Recorded e a b =
    ((a.workflow_task_error ≡ undefined) × (b.workflow_task_error ≡ e))
    ⊎ ((a.workflow_task_error ≢ undefined) × (b.workflow_task_error ≡ a.workflow_task_error))

pub ensured-IsTemporal :
    (message : JsError → String) (e : JsError)
    → is_temporal_failure (ensure_temporal_failure message e) ≡ true
unfolding ensure_temporal_failure is_temporal_failure
ensured-IsTemporal message e = elim (Bool-cases (is_temporal_failure e)) [
  | inl h ↦ rw h h
  | inr h ↦ rw h refl
]

undefined_of_is_undefined : (e : JsError) → is_undefined e ≡ true → e ≡ undefined
unfolding is_undefined
undefined_of_is_undefined e h = ground arith

record_workflow_task_error-Recorded :
    (e : JsError) (a : Activator) → Recorded e a (record_workflow_task_error e a).1
unfolding record_workflow_task_error is_undefined
record_workflow_task_error-Recorded e a = elim (Bool-cases (is_undefined a.workflow_task_error)) [
  | inl h ↦ inl (undefined_of_is_undefined a.workflow_task_error h, ground arith)
  | inr h ↦ inr (ground arith, ground arith)
]

module _ (host : FailureHost) where
  -- The execution is failed by a TemporalFailure, unless the converter throws on it.
  abbrev pub Failed : Activator → Result (Unit {0}) → Activator → Type 0
  Failed a r b =
      (f : JsError) × (is_temporal_failure f ≡ true)
      × (((host.error_to_failure f ≡ ok tt) × (r ≡ ok tt) × Closed (fail_workflow_execution f) a b)
          ⊎ ((x : JsError) × (host.error_to_failure f ≡ throw x) × (r ≡ throw x) × Open a b))

  -- What handleWorkflowFailure does with each class of errors.
  abbrev pub Handled : JsError → Activator → Result (Unit {0}) → Activator → Type 0
  Handled e a r b =
      ((a.cancelled ≡ true)
        × (is_cancellation e ≡ true)
        × (r ≡ ok tt)
        × Closed cancel_workflow_execution a b)
      ⊎ (((c : ℕ) × (e ≡ continue_as_new c)
            × (r ≡ ok tt)
            × Closed (continue_as_new_workflow_execution c) a b)
          ⊎ ((((is_temporal_failure e || is_configured_failure_exception e a) ≡ true)
                × Failed a r b)
              ⊎ (((is_temporal_failure e || is_configured_failure_exception e a) ≡ false)
                  × Open a b
                  × Recorded e a b)))

  fail_workflow-Failed :
      (f : JsError) (o : Result (Unit {0})) (a c : Activator)
      → host.error_to_failure f ≡ o
      → is_temporal_failure f ≡ true
      → c.commands ≡ a.commands
      → c.completed ≡ a.completed
      → Failed a (fail_workflow o f c).0 (fail_workflow o f c).1
  unfolding fail_workflow push_command
  fail_workflow-Failed f (ok u) a c e t p q =
      (f, t, inl (e, refl, (ap (λ l. l ++ fail_workflow_execution f ∷ []) p, refl)))
  fail_workflow-Failed f (throw x) a c e t p q = (f, t, inr (x, e, refl, (p, q)))

  fail_or_record-Handled :
      (e : JsError) (a : Activator) → let (r, b) = fail_or_record host e a in Handled e a r b
  unfolding fail_or_record
  fail_or_record-Handled e a =
      elim (Bool-cases (is_temporal_failure e || is_configured_failure_exception e a)) [
        | inl h ↦ rw h (
            inr (
              inr (
                inl (
                  refl,
                  fail_workflow-Failed (ensure_temporal_failure host.message e) _ a _ refl
                      (ensured-IsTemporal host.message e) refl refl,
                ))))
        | inr h ↦ rw h (inr (inr (inr (refl, kept, record_workflow_task_error-Recorded e a))))
      ]
    where
      kept : Open a (record_workflow_task_error e a).1
      kept = unfold record_workflow_task_error in ground arith

  not_cancelled-Handled :
      (e : JsError) (a : Activator) → let (r, b) = not_cancelled_failure host e a in Handled e a r b
  unfolding not_cancelled_failure push_command
  not_cancelled-Handled (continue_as_new c) a = inr (inl (c, refl, refl, (refl, refl)))
  not_cancelled-Handled e a = fail_or_record-Handled e a

  pub failure_closes_or_records :
      (e : JsError) (a : Activator)
      → let (r, b) = handle_workflow_failure host e a in Handled e a r b
  unfolding handle_workflow_failure push_command
  failure_closes_or_records e a = elim (Bool-cases (a.cancelled && is_cancellation e)) [
    | inl h ↦ rw h (inl (ground arith, ground arith, refl, (refl, refl)))
    | inr h ↦ rw h (not_cancelled-Handled e a)
  ]

-- An error that no setting makes fail the workflow: not a TemporalFailure, not ContinueAsNew, and
-- of no configured class or name.
abbrev pub IsTaskError : JsError → Activator → Type 0
IsTaskError e a =
    (is_temporal_failure e ≡ false)
    × (is_configured_failure_exception e a ≡ false)
    × ((c : ℕ) → e ≢ continue_as_new c)

task_error_recorded :
    (host : FailureHost) (e : JsError) (a : Activator)
    → IsTaskError e a
    → handle_workflow_failure host e a ≡ record_workflow_task_error e a
unfolding handle_workflow_failure not_cancelled_failure fail_or_record is_cancellation
    is_temporal_failure
task_error_recorded host (continue_as_new c) a t = absurd (t.2 c refl)
task_error_recorded host e a t = ground arith

-- The errors recorded one after the other while microtasks run.
pub record_all : List JsError → Activator → Activator
unfolding record_workflow_task_error
record_all [] a = a
record_all (e ∷ es) a = record_all es (record_workflow_task_error e a).1

record-keeps :
    (e : JsError) (a : Activator)
    → a.workflow_task_error ≢ undefined
    → (record_workflow_task_error e a).1.workflow_task_error ≡ a.workflow_task_error
unfolding record_workflow_task_error
record-keeps e a h = ground (arith, undefined_of_is_undefined a.workflow_task_error)

record_all-keeps :
    (es : List JsError) (a : Activator)
    → a.workflow_task_error ≢ undefined
    → (record_all es a).workflow_task_error ≡ a.workflow_task_error
unfolding record_all
record_all-keeps [] a h = refl
record_all-keeps (e ∷ es) a h =
    record_all-keeps es (record_workflow_task_error e a).1
      (subst (λ x. x ≢ undefined) (sym (record-keeps e a h)) h)
    ∙ record-keeps e a h

record-first :
    (e : JsError) (a : Activator)
    → a.workflow_task_error ≡ undefined
    → (record_workflow_task_error e a).1.workflow_task_error ≡ e
unfolding record_workflow_task_error
record-first e a h = ground arith

first_recorded :
    (host : FailureHost) (e : JsError) (es : List JsError) (a : Activator)
    → a.workflow_task_error ≡ undefined
    → IsTaskError e a
    → e ≢ undefined
    → (record_all es (handle_workflow_failure host e a).1).workflow_task_error ≡ e
first_recorded host e es a clear task some_error = rw (task_error_recorded host e a task) (
    record_all-keeps es (record_workflow_task_error e a).1
      (subst (λ x. x ≢ undefined) (sym recorded) some_error)
    ∙ recorded)
  where
    recorded : (record_workflow_task_error e a).1.workflow_task_error ≡ e
    recorded = record-first e a clear

rethrow-truthy :
    (e : JsError) (b : Activator)
    → b.workflow_task_error ≡ e
    → is_truthy e ≡ true
    → maybe_rethrow_workflow_task_error b ≡ (throw e, b)
unfolding maybe_rethrow_workflow_task_error
rethrow-truthy e b h t = ground arith

rethrow-falsy :
    (e : JsError) (b : Activator)
    → b.workflow_task_error ≡ e
    → is_truthy e ≡ false
    → maybe_rethrow_workflow_task_error b ≡ (ok tt, b)
unfolding maybe_rethrow_workflow_task_error
rethrow-falsy e b h t = ground arith

truthy-ne-undefined : (e : JsError) → is_truthy e ≡ true → e ≢ undefined
unfolding is_truthy
truthy-ne-undefined e t = ground arith

-- If an error is truthy, is not one that fails the workflow or continues it as new, and no error
-- was recorded before, then the next check throws it, whatever errors are recorded in between.
pub first_error_thrown :
    (host : FailureHost) (e : JsError) (es : List JsError) (a : Activator)
    → a.workflow_task_error ≡ undefined
    → IsTaskError e a
    → is_truthy e ≡ true
    → let b = record_all es (handle_workflow_failure host e a).1 in
      maybe_rethrow_workflow_task_error b ≡ (throw e, b)
first_error_thrown host e es a clear task truthy =
    rethrow-truthy e (record_all es (handle_workflow_failure host e a).1)
      (first_recorded host e es a clear task (truthy-ne-undefined e truthy)) truthy

-- If no error was recorded before, a thrown null, 0 or empty text that is not one to fail the
-- workflow neither pushes a command nor makes any check throw, then or after later errors.
pub falsy_error_lost :
    (host : FailureHost) (es : List JsError) (a : Activator)
    → a.workflow_task_error ≡ undefined
    → IsTaskError falsy_value a
    → let b = record_all es (handle_workflow_failure host falsy_value a).1 in
      ((handle_workflow_failure host falsy_value a).0 ≡ ok tt)
      × ((handle_workflow_failure host falsy_value a).1.commands ≡ a.commands)
      × (maybe_rethrow_workflow_task_error b ≡ (ok tt, b))
falsy_error_lost host es a clear task = (
  rw (task_error_recorded host falsy_value a task)
      (unfold record_workflow_task_error is_truthy in ground arith),
  rw (task_error_recorded host falsy_value a task)
      (unfold record_workflow_task_error in ground arith),
  rethrow-falsy falsy_value (record_all es (handle_workflow_failure host falsy_value a).1)
      (first_recorded host falsy_value es a clear task (λ e. cc)) (unfold is_truthy in refl),
)
