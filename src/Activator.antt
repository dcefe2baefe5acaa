-- ===== src/Activator.antt =====
-- packages/workflow/src/internals.ts, class Activator: the state that the runtime keeps for one
-- workflow execution, and the monad of its methods. A method may throw, and what it wrote before
-- stays written.
pub mod Completions
pub mod Nexus
pub mod Schedule
pub mod Budget
pub mod Jobs
pub mod Patches
pub mod Flags
pub mod Failure
pub mod Mailbox
pub mod Signals
pub mod Updates
pub mod Conditions
use sdk_typescript.Prelude.{
  ℕ, zero, suc, ◌+◌, String, ◌≡◌, refl, ◌↔◌, Bool, true, false, ◌&&◌, Option, none, some, List, [],
  ◌∷◌, ◌++◌, arith, Same, ◌==◌, nat_beq, nat_beq_iff, if◌then◌else◌,
}
use sdk_typescript.JsMap.{JsMap}
use sdk_typescript.Errors.{JsError, undefined, ErrorClass}

-- The members of `completions`.
pub data Kind : Type 0 where
  timer activity nexus_operation_start nexus_operation_complete : Kind
  child_workflow_start child_workflow_complete signal_workflow cancel_workflow : Kind

abbrev pub kind_index : Kind → ℕ
kind_index timer = 0
kind_index activity = 1
kind_index nexus_operation_start = 2
kind_index nexus_operation_complete = 3
kind_index child_workflow_start = 4
kind_index child_workflow_complete = 5
kind_index signal_workflow = 6
kind_index cancel_workflow = 7

-- `completions[kind].get(seq)`: the eight maps as one, keyed by both.
pub record Key : Type 0 where
  pub kind : Kind
  pub seq : ℕ

abbrev pub key_beq : Key → Key → Bool
key_beq a b = nat_beq (kind_index a.kind) (kind_index b.kind) && nat_beq a.seq b.seq

kind_index-injective : (a b : Kind) → kind_index a ≡ kind_index b → a ≡ b
kind_index-injective a b h = ground arith

pub key_beq_iff : (a b : Key) → (key_beq a b ≡ true) ↔ (a ≡ b)
key_beq_iff a b = ground (arith, kind_index-injective a.kind b.kind)

instance abbrev pub key_same : Same Key
key_same = record { same = key_beq; same_iff = key_beq_iff }

-- The `Completion` of a promise; the pair of its resolvers is the key that it is stored under.
pub record Completion : Type 0 where
  pub context : Option String
  pub output_type_info : Option String

-- What a resolver of a promise was called with.
pub data Outcome : Type 0 where
  resolve_undefined : Outcome
  resolve_value : String → Outcome
  resolve_nexus_started : Option String → Outcome
  reject : JsError → Outcome

-- `chained` marks a call by the handler that chains the rejection of a child's start to its result.
pub record Settlement : Type 0 where
  pub key : Key
  pub outcome : Outcome
  pub chained : Bool

pub data UnfinishedPolicy : Type 0 where
  warn_and_abandon abandon : UnfinishedPolicy

-- `handler` and `validator` are function identities.
pub record UpdateHandler : Type 0 where
  pub handler : ℕ
  pub validator : Option ℕ
  pub unfinished_policy : UnfinishedPolicy

pub record SignalHandler : Type 0 where
  pub handler : ℕ
  pub unfinished_policy : UnfinishedPolicy

pub record MessageHandlerExecution : Type 0 where
  pub name : String
  pub unfinished_policy : UnfinishedPolicy
  pub id : Option String

-- The jobs of signals and updates. A missing proto field is the empty string, which the code's
-- truthiness tests treat alike.
pub record SignalWorkflow : Type 0 where
  pub signal_name : String
  pub input : List String

pub record DoUpdate : Type 0 where
  pub id : String
  pub protocol_instance_id : String
  pub name : String
  pub input : List String
  pub run_validator : Bool

-- The commands that this code pushes; a value or an error is what is handed to the converter.
pub data Command : Type 0 where
  set_patch_marker : String → Bool → Command
  respond_to_query_succeeded : String → String → Command
  respond_to_query_failed : String → JsError → Command
  update_accepted : String → Command
  update_completed : String → String → Command
  update_rejected : String → JsError → Command
  complete_workflow_execution : String → Command
  fail_workflow_execution : JsError → Command
  cancel_workflow_execution : Command
  continue_as_new_workflow_execution : ℕ → Command
  start_timer cancel_timer schedule_activity request_cancel_activity : ℕ → Command
  start_child_workflow_execution cancel_child_workflow_execution : ℕ → Command
  signal_external_workflow_execution cancel_signal_workflow : ℕ → Command
  request_cancel_external_workflow_execution : ℕ → Command
  schedule_nexus_operation request_cancel_nexus_operation : ℕ → Command

-- A call of a user's signal or update handler: its number or update id, and the handler chosen
-- (`none` is the default handler).
pub data Invocation : Type 0 where
  signal_started : ℕ → Option ℕ → SignalWorkflow → Invocation
  update_started : Option ℕ → DoUpdate → Invocation

pub record NextSeqs : Type 0 where
  pub timer : ℕ
  pub activity : ℕ
  pub child_workflow : ℕ
  pub signal_workflow : ℕ
  pub cancel_workflow : ℕ
  pub condition : ℕ
  pub nexus_operation : ℕ

pub record Activator : Type 0 where
  pub workflow_loaded : Bool
  pub is_replaying : Bool
  pub is_replaying_history_events : Bool
  pub completions : JsMap Key Completion
  pub system_nexus_operation_contexts : JsMap ℕ String
  pub buffered_updates : List DoUpdate
  pub buffered_signals : List SignalWorkflow
  pub update_handlers : JsMap String UpdateHandler
  pub signal_handlers : JsMap String SignalHandler
  pub query_handlers : JsMap String ℕ
  pub in_progress_updates : JsMap String MessageHandlerExecution
  pub in_progress_signals : JsMap ℕ MessageHandlerExecution
  pub signal_handler_execution_seq : ℕ
  pub default_signal_handler : Bool
  pub default_update_handler : Bool
  pub default_query_handler : Bool
  pub workflow_task_error : JsError
  pub failure_exception_type_names : List String
  pub workflow_definition_failure_exception_types : Option (List ErrorClass)
  pub rethrow_synchronously : Bool
  pub check_conditions : Bool
  pub commands : List Command
  pub completed : Bool
  pub cancelled : Bool
  pub next_seqs : NextSeqs
  pub known_present_patches : JsMap String (Unit {0})
  pub sent_patches : JsMap String (Unit {0})
  pub patch_decisions : JsMap String Bool
  pub known_flags : JsMap ℕ (Unit {0})
  -- What the methods did outside the object: calls of promise resolvers and of user handlers.
  pub settled : List Settlement
  pub invocations : List Invocation

pub data Result {ℓ} (A : Type ℓ) : Type ℓ where
  ok : A → Result A
  throw : JsError → Result A

abbrev pub Exec {ℓ} : Type ℓ → Type ℓ
Exec A = Activator → Result A × Activator

module _ {ℓ} {A : Type ℓ} where
  abbrev pub pure : A → Exec A
  pure x a = (ok x, a)

  abbrev pub raise : JsError → Exec A
  raise e a = (throw e, a)

abbrev pub modify : (Activator → Activator) → Exec (Unit {0})
modify f a = (ok tt, f a)

-- A call of code that keeps no state here, such as a converter.
abbrev pub lift {ℓ} : {A : Type ℓ} → Result A → Exec A
lift r a = (r, a)

abbrev pub continue {ℓ κ} : {A : Type ℓ} {B : Type κ} → Result A → (A → Exec B) → Exec B
continue (ok x) f a = f x a
continue (throw e) f a = (throw e, a)

infixl 10 ◌>>=◌ ◌>>◌
abbrev pub ◌>>=◌ {ℓ κ} : {A : Type ℓ} {B : Type κ} → Exec A → (A → Exec B) → Exec B
◌>>=◌ m f a = let (r, a') = m a in continue r f a'

abbrev pub ◌>>◌ {κ} : {B : Type κ} → Exec (Unit {0}) → Exec B → Exec B
m >> k = m >>= λ _. k

-- pushCommand
unfoldable pub push_command : Command → Bool → Activator → Activator
push_command c complete a = record a {
  commands = a.commands ++ c ∷ [];
  completed = if complete then true else a.completed;
}

-- The object right after its construction, live, with the workflow function loaded.
abbrev pub fresh : Activator
fresh = record {
  workflow_loaded = true;
  is_replaying = false;
  is_replaying_history_events = false;
  completions = [];
  system_nexus_operation_contexts = [];
  buffered_updates = [];
  buffered_signals = [];
  update_handlers = [];
  signal_handlers = [];
  query_handlers = [];
  in_progress_updates = [];
  in_progress_signals = [];
  signal_handler_execution_seq = 0;
  default_signal_handler = false;
  default_update_handler = false;
  default_query_handler = false;
  workflow_task_error = undefined;
  failure_exception_type_names = [];
  workflow_definition_failure_exception_types = none;
  rethrow_synchronously = false;
  check_conditions = false;
  commands = [];
  completed = false;
  cancelled = false;
  next_seqs = record {
    timer = 1;
    activity = 1;
    child_workflow = 1;
    signal_workflow = 1;
    cancel_workflow = 1;
    condition = 1;
    nexus_operation = 1;
  };
  known_present_patches = [];
  sent_patches = [];
  patch_decisions = [];
  known_flags = [];
  settled = [];
  invocations = [];
}
