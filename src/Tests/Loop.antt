-- ===== src/Tests/Loop.antt =====
-- The activation of packages/worker/src/workflow/vm-shared.ts on concrete inputs.
use sdk_typescript.Prelude.{ℕ, ◌+◌, ◌≡◌, refl, Bool, true, false, ◌||◌, none, [], ◌∷◌, arith}
use sdk_typescript.Activator.{ok}
use sdk_typescript.Activation.{
  Activation, Runtime, signal_workflow, notify_has_patch, update_random_seed, initialize_workflow,
  any, is_signal, is_query, is_initialize, is_seed, chosen, activate,
}
use sdk_typescript.Activation.Order.{jobs_in_order}
use sdk_typescript.Activation.Order.Ranks.{by_rank}
use sdk_typescript.Activation.Order.Parts.{performed}

-- It counts its calls, and has the flag of a single batch off.
abbrev runtime : Runtime ℕ ℕ ℕ
runtime = record {
  has_context = λ s. true;
  prepare = λ b s. s;
  prepare_queries = λ s. s;
  single_batch_flag = λ s. (false, s);
  initialize = λ j s. (ok tt, s + 1);
  perform = λ v j s. (ok tt, s + 1);
  start_workflow = λ j s. (ok tt, s + 1);
  try_unblock_conditions = λ s. (ok tt, s + 1);
  unblock_all = λ s. (ok tt, s + 1);
  conclude_activation = λ s. (ok s, s);
  unhandled_rejection = λ s. none;
}

abbrev activation : Activation ℕ
activation = record {
  jobs =
      record { variant = initialize_workflow; attributes = 1 }
      ∷ record { variant = update_random_seed; attributes = 2 }
      ∷ record { variant = notify_has_patch; attributes = 3 }
      ∷ record { variant = signal_workflow; attributes = 4 }
      ∷ [];
  has_timestamp = true;
}

jobs_in_order_example :
    (single : Bool) × ((single || any is_signal activation.jobs) ≡ true)
    × (performed (activate runtime activation (0, [])).1.1 ≡ by_rank single activation.jobs)
unfolding any is_query is_signal is_initialize is_seed chosen activate
jobs_in_order_example = jobs_in_order runtime activation 0 10 refl refl (omega arith) refl
