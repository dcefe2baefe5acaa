-- ===== src/Tests/Scopes.antt =====
-- The cancellation scopes of packages/workflow/src/cancellation-scope.ts on concrete inputs.
use sdk_typescript.Prelude.{
  ℕ, ◌≡◌, refl, ◌⊎◌, ◌↔◌, Bool, true, false, Option, none, some, List, [], ◌∷◌, is_some, contains,
  nat_same,
}
use sdk_typescript.JsMap.{get, set}
use sdk_typescript.CancellationScope.{
  CancellationScope, ScopeEvent, constructed, cancelled, microtask_run, root_only, cancel_message,
  scope_run,
}
use sdk_typescript.CancellationScope.Reach.{cancellation_reaches_linked}
use sdk_typescript.CancellationScope.Calls.{calls_made}
use sdk_typescript.CancellationScope.Shielding.{cancelled_exactly}

-- The scope 1 is not cancellable, 2 is below it, and 3 is below the root.
abbrev events : List ScopeEvent
events =
    constructed false 0 true
    ∷ constructed true 1 true
    ∷ constructed true 0 true
    ∷ cancelled 0
    ∷ microtask_run true
    ∷ microtask_run true
    ∷ microtask_run true
    ∷ []

abbrev scope : Bool → Option ℕ → List ℕ → Bool → Bool → CancellationScope
scope able parent listeners linked hit = record {
  cancellable = able;
  parent = parent;
  cancel_requested = hit;
  rejected = elim hit [ true ↦ some (cancel_message 0) | false ↦ none ];
  listeners = listeners;
  linked = linked;
}

cancelled_exactly_example : (is_some (scope true (some 1) [] false false).rejected ≡ true) ↔ (
    (contains 2 (calls_made events root_only []) ≡ true)
    ⊎ ((p : ℕ) × (y : CancellationScope) × ((scope true (some 1) [] false false).parent ≡ some p)
        × (get p (scope_run events root_only).scopes ≡ some y)
        × (y.cancellable ≡ true)
        × (is_some y.rejected ≡ true)))
unfolding scope_run get set
cancelled_exactly_example =
    cancelled_exactly events 2 (scope true (some 1) [] false false)
      (refl, (refl, (refl, (refl, (refl, (refl, (refl, tt))))))) refl refl

cancellation_reaches_linked_example : is_some (scope true (some 0) [] true true).rejected ≡ true
unfolding scope_run get set
cancellation_reaches_linked_example =
    cancellation_reaches_linked events 3 0 (scope true (some 0) [] true true)
      (scope true none [] false true) refl refl refl refl refl refl
