-- ===== src/Activation.antt =====
-- packages/worker/src/workflow/vm-shared.ts, BaseVMWorkflow.activate, and `activate` of
-- packages/workflow/src/worker-interface.ts: the order in which the jobs of one activation reach the
-- runtime of a workflow. The runtime is an interface, whose operations may throw; the calls of its
-- operations that take a job, unblock conditions or conclude are recorded. Interceptors are taken to
-- call the next one once.
pub mod Order
use sdk_typescript.Prelude.{
  ℕ, Bool, true, false, not, ◌&&◌, ◌||◌, Option, none, some, List, [], ◌∷◌, ◌++◌, filter_by,
  if◌then◌else◌, String,
}
use sdk_typescript.Errors.{JsError, type_error, illegal_state_error}
use sdk_typescript.Activator.{Result, ok, throw}

-- The members of `variant` of a WorkflowActivationJob.
pub data JobVariant : Type 0 where
  initialize_workflow fire_timer update_random_seed query_workflow cancel_workflow : JobVariant
  signal_workflow resolve_activity notify_has_patch resolve_child_workflow_execution_start :
      JobVariant
  resolve_child_workflow_execution resolve_signal_external_workflow : JobVariant
  resolve_request_cancel_external_workflow do_update resolve_nexus_operation_start : JobVariant
  resolve_nexus_operation remove_from_cache : JobVariant

pub record Job (J : Type 0) : Type 0 where
  pub variant : JobVariant
  pub attributes : J

pub record Activation (J : Type 0) : Type 0 where
  pub jobs : List (Job J)
  pub has_timestamp : Bool

-- The runtime of one workflow, as the driver of an activation sees it. `prepare` stands for the
-- writes of the Activator's fields before the first job, with `checkConditions`; `unblock_all` for
-- tryUnblockConditionsAndMicrotasks, which lets workflow code run.
pub record Runtime (S J C : Type 0) : Type 0 where
  pub has_context : S → Bool
  pub prepare : Bool → S → S
  pub prepare_queries : S → S
  pub single_batch_flag : S → Bool × S
  pub initialize : J → S → Result (Unit {0}) × S
  pub perform : JobVariant → J → S → Result (Unit {0}) × S
  pub start_workflow : J → S → Result (Unit {0}) × S
  pub try_unblock_conditions : S → Result (Unit {0}) × S
  pub unblock_all : S → Result (Unit {0}) × S
  pub conclude_activation : S → Result C × S
  pub unhandled_rejection : S → Option JsError

pub data Call (J : Type 0) : Type 0 where
  initializes starts : J → Call J
  performs : JobVariant → J → Call J
  unblocks unblocks_all concludes : Call J

pub data Completion (C : Type 0) : Type 0 where
  successful : C → Completion C
  failed : JsError → Completion C

-- `job.<member> != null`
unfoldable pub is_query : JobVariant → Bool
is_query query_workflow = true
is_query _ = false

unfoldable pub is_signal : JobVariant → Bool
is_signal signal_workflow = true
is_signal _ = false

unfoldable pub is_patch : JobVariant → Bool
is_patch notify_has_patch = true
is_patch _ = false

unfoldable pub is_seed : JobVariant → Bool
is_seed update_random_seed = true
is_seed _ = false

unfoldable pub is_update : JobVariant → Bool
is_update do_update = true
is_update _ = false

unfoldable pub is_initialize : JobVariant → Bool
is_initialize initialize_workflow = true
is_initialize _ = false

-- safeJobTypes
unfoldable pub is_safe : JobVariant → Bool
is_safe initialize_workflow = true
is_safe signal_workflow = true
is_safe do_update = true
is_safe cancel_workflow = true
is_safe update_random_seed = true
is_safe _ = false

module _ {J : Type 0} where
  -- Array.prototype.some, on the variant.
  unfoldable pub any : (JobVariant → Bool) → List (Job J) → Bool
  any p [] = false
  any p (j ∷ js) = p j.variant || any p js

  -- The two parts that `partition` makes.
  unfoldable pub chosen : (JobVariant → Bool) → List (Job J) → List (Job J)
  chosen p js = filter_by (λ j. p j.variant) js

  unfoldable pub others : (JobVariant → Bool) → List (Job J) → List (Job J)
  others p js = filter_by (λ j. not (p j.variant)) js

  unfoldable pub find : (JobVariant → Bool) → List (Job J) → Option J
  find p [] = none
  find p (j ∷ js) = if p j.variant then some j.attributes else find p js

  unfoldable pub last : List (Job J) → Option (Job J)
  last [] = none
  last (j ∷ []) = some j
  last (j ∷ k ∷ js) = last (k ∷ js)

-- The state of the runtime, and the calls made.
abbrev pub Drive : Type 0 → Type 0 → Type 0 → Type 0
Drive S J A = S × List (Call J) → Result A × (S × List (Call J))

module _ {S J : Type 0} where
  abbrev pub done : {A : Type 0} → A → Drive S J A
  done a x = (ok a, x)

  abbrev pub fail : {A : Type 0} → JsError → Drive S J A
  fail e x = (throw e, x)

  abbrev pub and_then : {A B : Type 0} → Result A → (A → Drive S J B) → Drive S J B
  and_then (ok a) f x = f a x
  and_then (throw e) f x = (throw e, x)

  infixl 10 ◌>>=◌ ◌>>◌
  abbrev pub ◌>>=◌ : {A B : Type 0} → Drive S J A → (A → Drive S J B) → Drive S J B
  ◌>>=◌ m f x = let (r, x') = m x in and_then r f x'

  abbrev pub ◌>>◌ : {B : Type 0} → Drive S J (Unit {0}) → Drive S J B → Drive S J B
  m >> k = m >>= λ _. k

  unfoldable pub call : {A : Type 0} → Call J → (S → Result A × S) → Drive S J A
  call c op (s, log) = let (r, s') = op s in (r, (s', log ++ c ∷ []))

  unfoldable pub update_state : (S → S) → Drive S J (Unit {0})
  update_state f (s, log) = (ok tt, (f s, log))

  unfoldable pub ask : (S → Bool × S) → Drive S J Bool
  ask f (s, log) = let (b, s') = f s in (ok b, (s', log))

module _ {S J C : Type 0} (runtime : Runtime S J C) where
  pub perform_job : Job J → Drive S J (Unit {0})
  unfolding call
  perform_job j = call (performs j.variant j.attributes) (runtime.perform j.variant j.attributes)

  pub unblock_after : JobVariant → Drive S J (Unit {0})
  unfolding call
  unblock_after v = if is_query v then done tt else call unblocks runtime.try_unblock_conditions

  -- The loop over the jobs.
  unfoldable pub perform_jobs : List (Job J) → Drive S J (Unit {0})
  unfolding perform_job unblock_after
  perform_jobs [] = done tt
  perform_jobs (j ∷ js) = do perform_job j; unblock_after j.variant; perform_jobs js

  pub start : List (Job J) → J → Drive S J (Unit {0})
  unfolding call any is_safe
  start js attributes =
      if any (λ v. not (is_safe v)) js
      then fail (type_error "Received both initializeWorkflow and non-signal/non-update jobs")
      else (do
        call (starts attributes) (runtime.start_workflow attributes)
        call unblocks runtime.try_unblock_conditions)

  pub perform_and_start : JobVariant → J → List (Job J) → Drive S J (Unit {0})
  unfolding perform_jobs start
  perform_and_start initialize_workflow attributes js = do perform_jobs js; start js attributes
  perform_and_start v attributes js =
      perform_jobs (record { variant = v; attributes = attributes } ∷ js)

  -- `activate` of worker-interface.ts.
  unfoldable pub activate_jobs : List (Job J) → Drive S J (Unit {0})
  unfolding perform_and_start
  activate_jobs [] = done tt
  activate_jobs (j ∷ js) = perform_and_start j.variant j.attributes js

  pub initialize_with : Option J → Drive S J (Unit {0})
  unfolding call
  initialize_with none = done tt
  initialize_with (some attributes) = call (initializes attributes) (runtime.initialize attributes)

  pub perform_only : List (Job J) → Drive S J (Unit {0})
  unfolding perform_job
  perform_only [] = done tt
  perform_only (j ∷ js) = do perform_job j; perform_only js

  pub perform_last : Option (Job J) → Drive S J (Unit {0})
  unfolding perform_job
  perform_last none = done tt
  perform_last (some j) = perform_job j

  pub single_batch : List (Job J) → Drive S J (Unit {0})
  unfolding perform_last activate_jobs call chosen others last is_seed
  single_batch js = do
    perform_last (last (chosen is_seed js))
    activate_jobs (others is_seed js)
    call unblocks_all runtime.unblock_all

  pub batch : List (Job J) → Drive S J (Unit {0})
  unfolding activate_jobs call
  batch [] = done tt
  batch (j ∷ js) = do activate_jobs (j ∷ js); call unblocks_all runtime.unblock_all

  pub two_batches : List (Job J) → Drive S J (Unit {0})
  unfolding batch chosen others is_signal
  two_batches js = do batch (chosen is_signal js); batch (others is_signal js)

  -- hasFlag is asked only where there is a signal.
  pub is_single_batch : List (Job J) → Drive S J Bool
  unfolding any ask is_signal
  is_single_batch js = if any is_signal js then ask runtime.single_batch_flag else done true

  pub batches : List (Job J) → Bool → Drive S J (Unit {0})
  unfolding single_batch two_batches
  batches js true = single_batch js
  batches js false = two_batches js

  conclude : Drive S J C
  unfolding call
  conclude = call concludes runtime.conclude_activation

  -- The part of BaseVMWorkflow.activate between the tests of the activation and its conclusion.
  unfoldable pub run_jobs : List (Job J) → Drive S J (Unit {0})
  unfolding update_state any find initialize_with is_single_batch perform_only batches chosen others
      is_patch is_update is_initialize
  run_jobs js = do
    update_state (runtime.prepare (any (λ v. not (is_update v)) js))
    initialize_with (find is_initialize js)
    single ← is_single_batch js
    perform_only (chosen is_patch js)
    batches (others is_patch js) single

  run_queries : List (Job J) → Drive S J C
  unfolding update_state activate_jobs conclude
  run_queries js = do update_state runtime.prepare_queries; activate_jobs js; conclude

  -- A test of the caller's realm that fails.
  refuse : Activation J → Option JsError
  unfolding any is_query
  refuse a =
      if any is_query a.jobs
      then (if any (λ v. not (is_query v)) a.jobs
          then some (type_error "Got both queries and other jobs in a single activation")
          else none)
      else if a.has_timestamp
      then none
      else some (type_error "Expected activation.timestamp to be set for non-query activation")

  -- The catch block, and the test of `unhandledRejection` before the return.
  completed : Result C → S × List (Call J) → Result (Completion C) × (S × List (Call J))
  completed (throw e) x = (ok (failed e), x)
  completed (ok c) x = elim (runtime.unhandled_rejection x.0) [
    | none ↦ (ok (successful c), x)
    | some e ↦ (ok (failed e), x)
  ]

  -- The promise of activateQueries is returned and not awaited, so that the catch block does not see
  -- its rejection.
  returned : Result C → S × List (Call J) → Result (Completion C) × (S × List (Call J))
  returned (throw e) x = (throw e, x)
  returned (ok c) x = (ok (successful c), x)

  admitted : Activation J → Option JsError → Drive S J (Completion C)
  unfolding run_queries run_jobs conclude completed returned any is_query
  admitted a (some e) x = (ok (failed e), x)
  admitted a none x =
      if any is_query a.jobs
      then (let (r, x') = run_queries a.jobs x in returned r x')
      else (let (r, x') = (do run_jobs a.jobs; conclude) x in completed r x')

  -- BaseVMWorkflow.activate
  unfoldable pub activate : Activation J → Drive S J (Completion C)
  unfolding admitted refuse
  activate a x =
      if runtime.has_context x.0
      then admitted a (refuse a) x
      else (ok (failed (illegal_state_error "Workflow isolate context uninitialized")), x)
