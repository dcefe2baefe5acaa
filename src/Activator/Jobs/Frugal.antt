-- ===== src/Activator/Jobs/Frugal.antt =====
-- The jobs that settle a task call only the resolvers that they take out of the state.
use sdk_typescript.Prelude.{
  ℕ, refl, inl, inr, Bool, true, false, Option, none, some, Bool-cases, Option-cases, String, ◌==◌,
  ◌||◌, nat_same, string_same,
}
use sdk_typescript.JsMap.{get, has}
use sdk_typescript.Activator.{
  timer, activity, nexus_operation_start, nexus_operation_complete, key_same, child_workflow_start,
  child_workflow_complete, signal_workflow, cancel_workflow, Key, Command, Completion, Exec, ◌>>=◌,
  lift, modify, push_command, reject, Outcome,
}
use sdk_typescript.Errors.{JsError}
use sdk_typescript.Activator.Completions.{
  Host, at, TaskResult, completed, failed, cancelled, backoff, no_status, settle_task,
  settle_completed, settle_failed, reject_with, fire_timer, resolve_activity,
  resolve_child_workflow_execution, resolve_signal_external_workflow,
  resolve_request_cancel_external_workflow, maybe_consume_completion, consume_completion, settle,
  drop_completion,
}
use sdk_typescript.Activator.Nexus.{
  take_system_context, ChildStart, succeeded, failed_cause_error, reject_start, settle_child_start,
  take_either, resolve_either, decode_output, resolve_child_workflow_execution_start,
  resolve_nexus_operation,
}
use sdk_typescript.Activator.Schedule.{
  request_cancel, cancel_timer_task, cancel_activity_task, cancel_child, cancel_signal,
  cancel_nexus_operation,
}
use sdk_typescript.Activator.Budget.{
  Spends-refl, Pays, Frugal, Frugal-raise, Frugal-pure, Frugal-Pays, Frugal-drop, Pays-settle,
}
use sdk_typescript.Activator.Budget.Rules.{
  Frugal-bind, Pays-bind, Pays-bind-lift, Frugal-maybe_consume, Frugal-consume, Frugal-get_seq,
  Spends-drop, Frugal-other, Holds-other,
}

module _ (host : Host) where
  Pays-reject_with : (k : Key) (f : String) (c : Option String) → Pays k (reject_with host k f c)
  unfolding reject_with
  Pays-reject_with k f c = Pays-bind-lift k _ _ (λ e. Pays-settle k _)

  Pays-settle_failed :
      (k : Key) (c : Completion) (m : String) (f : Option String)
      → Pays k (settle_failed host k c m f)
  unfolding settle_failed
  Pays-settle_failed k c m none = Frugal-Pays k _ (Frugal-raise _)
  Pays-settle_failed k c m (some f) = Pays-reject_with k f _

  Pays-settle_completed :
      (k : Key) (c : Completion) (r : Option String) → Pays k (settle_completed host k c r)
  unfolding settle_completed
  Pays-settle_completed k c none = Pays-settle k _
  Pays-settle_completed k c (some p) = Pays-bind-lift k _ _ (λ v. Pays-settle k _)

  Pays-settle_task : (k : Key) (c : Completion) (r : TaskResult) → Pays k (settle_task host k c r)
  unfolding settle_task
  Pays-settle_task k c (completed r) = Pays-settle_completed k c r
  Pays-settle_task k c (failed f) = Pays-settle_failed k c _ f
  Pays-settle_task k c (cancelled f) = Pays-settle_failed k c _ f
  Pays-settle_task k c (backoff n) = Pays-settle k _
  Pays-settle_task k c no_status = Frugal-Pays k _ (Frugal-pure tt)

  pub Frugal-resolve_activity :
      (seq : Option ℕ) (r : Option TaskResult) → Frugal (resolve_activity host seq r)
  unfolding resolve_activity
  Frugal-resolve_activity seq none = Frugal-raise _
  Frugal-resolve_activity seq (some r) =
      Frugal-get_seq seq _ (λ n. Frugal-consume activity n _ (λ c. Pays-settle_task _ c r))

  pub Frugal-child :
      (seq : Option ℕ) (r : Option TaskResult)
      → Frugal (resolve_child_workflow_execution host seq r)
  unfolding resolve_child_workflow_execution
  Frugal-child seq none = Frugal-raise _
  Frugal-child seq (some (completed r)) =
      Frugal-get_seq seq _
        (λ n. Frugal-consume child_workflow_complete n _ (λ c. Pays-settle_task _ c (completed r)))
  Frugal-child seq (some (failed f)) =
      Frugal-get_seq seq _
        (λ n. Frugal-consume child_workflow_complete n _ (λ c. Pays-settle_task _ c (failed f)))
  Frugal-child seq (some (cancelled f)) =
      Frugal-get_seq seq _
        (λ n. Frugal-consume child_workflow_complete n _ (λ c. Pays-settle_task _ c (cancelled f)))
  Frugal-child seq (some (backoff b)) =
      Frugal-get_seq seq _
        (λ n. Frugal-consume child_workflow_complete n _ (λ c. Frugal-Pays _ _ (Frugal-pure tt)))
  Frugal-child seq (some no_status) =
      Frugal-get_seq seq _
        (λ n. Frugal-consume child_workflow_complete n _ (λ c. Pays-settle_task _ c no_status))

  pub Frugal-signal :
      (seq : Option ℕ) (f : Option String) → Frugal (resolve_signal_external_workflow host seq f)
  unfolding resolve_signal_external_workflow
  Frugal-signal seq none =
      Frugal-get_seq seq _ (λ n. Frugal-consume signal_workflow n _ (λ c. Pays-settle _ _))
  Frugal-signal seq (some f) =
      Frugal-get_seq seq _ (λ n. Frugal-consume signal_workflow n _ (λ c. Pays-reject_with _ f _))

  pub Frugal-cancel :
      (seq : Option ℕ) (f : Option String)
      → Frugal (resolve_request_cancel_external_workflow host seq f)
  unfolding resolve_request_cancel_external_workflow
  Frugal-cancel seq none =
      Frugal-get_seq seq _ (λ n. Frugal-consume cancel_workflow n _ (λ c. Pays-settle _ _))
  Frugal-cancel seq (some f) =
      Frugal-get_seq seq _ (λ n. Frugal-consume cancel_workflow n _ (λ c. Pays-reject_with _ f _))

pub Frugal-fire_timer : (seq : Option ℕ) → Frugal (fire_timer seq)
unfolding fire_timer
Frugal-fire_timer seq =
    Frugal-get_seq seq _
      (λ n. Frugal-maybe_consume timer n _ (Frugal-pure tt) (λ c. Pays-settle _ _))

Pays-reject_start :
    (n : ℕ) (e : Option JsError) → Pays (at child_workflow_start n) (reject_start n e)
unfolding reject_start
Pays-reject_start n none = Frugal-Pays _ _ (Frugal-raise _)
Pays-reject_start n (some e) =
    Pays-bind _ _ _ (Pays-settle _ _) (λ u. Frugal-drop (at child_workflow_complete n))

module _ (host : Host) where
  Pays-child_start :
      (n : ℕ) (c : Completion) (s : ChildStart)
      → Pays (at child_workflow_start n) (settle_child_start host n c s)
  unfolding settle_child_start
  Pays-child_start n c (succeeded run_id) = elim (Bool-cases (run_id == "")) [
    | inl e ↦ rw e (Frugal-Pays _ _ (Frugal-raise _))
    | inr e ↦ rw e (Pays-settle _ _)
  ]
  Pays-child_start n c (ChildStart.failed w t cause) =
      elim (Bool-cases (n == 0 || w == "" || t == "")) [
        | inl e ↦ rw e (Frugal-Pays _ _ (Frugal-raise _))
        | inr e ↦ rw e (Pays-reject_start n (failed_cause_error host.namespace w t cause))
      ]
  Pays-child_start n c (ChildStart.cancelled f) =
      Pays-bind _ _ _ (Pays-settle_failed host _ c _ f)
        (λ u. Frugal-drop (at child_workflow_complete n))
  Pays-child_start n c ChildStart.no_status = Frugal-Pays _ _ (Frugal-raise _)

  pub Frugal-child_start :
      (seq : Option ℕ) (s : ChildStart) → Frugal (resolve_child_workflow_execution_start host seq s)
  unfolding resolve_child_workflow_execution_start
  Frugal-child_start seq s =
      Frugal-get_seq seq _
        (λ n. Frugal-consume child_workflow_start n _ (λ c. Pays-child_start n c s))

  -- A Nexus operation's result goes to the promise of its start, if that is still pending.
  Frugal-take_either {ℓ} :
      {B : Type ℓ} (n : ℕ) (f : Key × Completion → Exec B)
      → ((c : Completion) → Pays (at nexus_operation_start n) (f (at nexus_operation_start n, c)))
      → ((c : Completion)
          → Pays (at nexus_operation_complete n) (f (at nexus_operation_complete n, c)))
      → Frugal
          (maybe_consume_completion nexus_operation_start n >>= λ s. take_either host n s >>= f)
  unfolding take_either
  Frugal-take_either n f ps pc = Frugal-maybe_consume nexus_operation_start n _ late (λ c. ps c)
    where
      late : Frugal (take_either host n none >>= f)
      late = record {
        spends = λ a. elim (Option-cases (get (at nexus_operation_complete n) a.completions)) [
          | inl e ↦ unfold consume_completion maybe_consume_completion in rw e (Spends-refl a)
          | inr (c, e) ↦
              unfold consume_completion maybe_consume_completion in
              rw e (Spends-drop _ a c (f (at nexus_operation_complete n, c)) e (pc c))
        ];
      }

  Pays-decoded :
      (k : Key) (system : Option String) (p : String) (c : Completion)
      → Pays k (
          lift (host.deserialize_system_nexus_output system p) >>= λ output.
          decode_output host system p c output >>= λ v. settle k (Outcome.resolve_value v))
  unfolding decode_output
  Pays-decoded k system p c = Pays-bind-lift k _ _ decoded
    where
      decoded :
          (o : Option String)
          → Pays k (decode_output host system p c o >>= λ v. settle k (Outcome.resolve_value v))
      decoded none = Pays-bind-lift k _ _ (λ v. Pays-settle k _)
      decoded (some v) = Pays-settle k _

  Frugal-resolve_either :
      (n : ℕ) (system p f : Option String) → Frugal (resolve_either host n system p f)
  unfolding resolve_either
  Frugal-resolve_either n system (some p) f =
      Frugal-take_either n _ (λ c. Pays-decoded _ system p c) (λ c. Pays-decoded _ system p c)
  Frugal-resolve_either n system none (some f) =
      Frugal-take_either n _ (λ c. Pays-reject_with host _ f _) (λ c. Pays-reject_with host _ f _)
  Frugal-resolve_either n system none none =
      Frugal-take_either n _ (λ c. Pays-settle _ _) (λ c. Pays-settle _ _)

  pub Frugal-resolve_nexus_operation :
      (seq : Option ℕ) (p f : Option String) → Frugal (resolve_nexus_operation host seq p f)
  unfolding resolve_nexus_operation
  Frugal-resolve_nexus_operation seq p f = Frugal-get_seq seq _ λ n.
      Frugal-bind (take_system_context n) _ (Frugal-other _ (λ a. (refl, refl, refl)))
        (λ system. Frugal-resolve_either n system p f)

-- The cancellation of a scope asks the server to cancel; a timer's completion it drops itself.
pub Frugal-request : (b : Bool) (c : Command) → Frugal (request_cancel b c)
unfolding request_cancel
Frugal-request true c = Frugal-other _ (λ a. (refl, refl, refl))
Frugal-request false c = Frugal-pure tt

pub Frugal-cancel_timer_task : (n : ℕ) (e : JsError) → Frugal (cancel_timer_task n e)
unfolding cancel_timer_task
Frugal-cancel_timer_task n e = record {
  spends = λ a. elim (Option-cases (get (at timer n) a.completions)) [
    | inl q ↦ unfold has in rw q (Spends-refl a)
    | inr (c, q) ↦
        unfold has drop_completion in
        rw q (Spends-drop _ a c (push_and_reject n e) q (Pays-push_and_reject n e))
  ];
}
  where
    push_and_reject : ℕ → JsError → Exec (Unit {0})
    push_and_reject n e =
        modify (push_command (Command.cancel_timer n) false) >>= λ _. settle (at timer n) (reject e)

    Pays-push_and_reject : (n : ℕ) (e : JsError) → Pays (at timer n) (push_and_reject n e)
    Pays-push_and_reject n e = record {
      pays = λ a b h.
          (Pays-settle (at timer n) (reject e)).pays a _
            (unfold push_command in Holds-other _ a b _ h refl refl refl);
    }

pub Frugal-cancel_activity : (n : ℕ) → Frugal (cancel_activity_task n)
unfolding cancel_activity_task
Frugal-cancel_activity n = record { spends = λ a. (Frugal-request _ _).spends a }

pub Frugal-cancel_child : (n : ℕ) → Frugal (cancel_child n)
unfolding cancel_child
Frugal-cancel_child n = record { spends = λ a. (Frugal-request _ _).spends a }

pub Frugal-cancel_signal : (n : ℕ) → Frugal (cancel_signal n)
unfolding cancel_signal
Frugal-cancel_signal n = record { spends = λ a. (Frugal-request _ _).spends a }

pub Frugal-cancel_nexus : (n : ℕ) → Frugal (cancel_nexus_operation n)
unfolding cancel_nexus_operation
Frugal-cancel_nexus n = record { spends = λ a. (Frugal-request _ _).spends a }

pub Frugal-nexus_failed :
    (host : Host) (n : ℕ) (f : String)
    → Frugal (
        consume_completion nexus_operation_start n >>= λ c.
        reject_with host (at nexus_operation_start n) f c.context)
Frugal-nexus_failed host n f =
    Frugal-consume nexus_operation_start n _ (λ c. Pays-reject_with host _ f _)
