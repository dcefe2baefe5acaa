-- ===== src/CancellationScope/Shielding.antt =====
-- Under the flag, exactly the scopes on which `cancel` was called, and those below a cancelled scope
-- that is cancellable, are cancelled.
use sdk_typescript.Prelude.{
  ℕ, ◌≡◌, refl, ◌∙◌, ◌⊎◌, inl, inr, ◌↔◌, Bool, true, false, Option, none, some, List, [], ◌∷◌,
  is_some, nat_same, arith, All, Bool-cases, Option-cases, contains,
}
use sdk_typescript.JsMap.{JsMap, get}
use sdk_typescript.CancellationScope.{
  CancellationScope, Scopes, ScopeEvent, constructed, cancelled, microtask_run, root_only, reject,
  cancel_message, cancel, construct_scope, scope_step, scope_run,
}
use sdk_typescript.CancellationScope.Reach.{
  scope_step-IsWired, scope_run-IsWired, root_only-IsWired, cancellation_reaches_linked,
}
use sdk_typescript.CancellationScope.Reach.Wiring.{IsWired}
use sdk_typescript.CancellationScope.Caused.{
  IsCaused, reject_scope-IsCaused, rejected_above, run_microtask-IsCaused,
}
use sdk_typescript.CancellationScope.Constructed.{construct_below-IsCaused}
use sdk_typescript.CancellationScope.Calls.{
  IsCalled, asked_shielded, call_made, calls_made, scope_step-IsCalled,
}

more_calls : (k : ℕ) (calls : List ℕ) (st : Scopes) → IsCaused calls st → IsCaused (k ∷ calls) st
more_calls k calls st v = record {
  linked_is = v.linked_is;
  caused = λ c x hx hr. ground (arith, v.caused c x hx hr);
  queued_below = v.queued_below;
  listens = v.listens;
  known = v.known;
  queued_known = v.queued_known;
}

scope_step-IsCaused :
    (e : ScopeEvent) (st : Scopes) (calls : List ℕ)
    → asked_shielded e ≡ true
    → IsWired st
    → IsCaused calls st
    → IsCaused (call_made e st calls) (scope_step e st)
unfolding call_made scope_step construct_scope cancel reject
scope_step-IsCaused (constructed cancellable p true) st calls on w v =
    construct_below-IsCaused cancellable p (get p st.scopes) st calls refl w v
scope_step-IsCaused (constructed cancellable p false) st calls on w v = absurd cc
scope_step-IsCaused (microtask_run true) st calls on w v =
    run_microtask-IsCaused st st.queue calls refl v
scope_step-IsCaused (microtask_run false) st calls on w v = absurd cc
scope_step-IsCaused (cancelled k) st calls on w v = elim (Option-cases (get k st.scopes)) [
  | inl gone ↦ rw gone v
  | inr (z, there) ↦ rw there (
      reject_scope-IsCaused k (cancel_message k) st (some z) (k ∷ calls) there
        (λ y hy. ground arith) (more_calls k calls st v))
]

scope_run-IsCaused :
    (es : List ScopeEvent) (st : Scopes) (calls : List ℕ)
    → All (λ e. asked_shielded e ≡ true) es
    → IsWired st
    → IsCaused calls st
    → IsCalled calls st
    → IsCaused (calls_made es st calls) (scope_run es st)
      × IsCalled (calls_made es st calls) (scope_run es st)
unfolding scope_run calls_made
scope_run-IsCaused [] st calls on w v u = (v, u)
scope_run-IsCaused (e ∷ es) st calls (on, all_on) w v u =
    scope_run-IsCaused es (scope_step e st) (call_made e st calls) all_on
      (scope_step-IsWired e st w) (scope_step-IsCaused e st calls on w v)
      (scope_step-IsCalled e st calls w u)

root_only-IsCaused : IsCaused [] root_only
unfolding get
root_only-IsCaused = record {
  linked_is = λ c p x y hx hp hy. ground arith;
  caused = λ c x hx hr. ground arith;
  queued_below = λ c x hx hq. absurd cc;
  listens = λ c k x z hx hz hl. ground arith;
  known = λ c k z hz hl. ground arith;
  queued_known = λ c hq. absurd cc;
}

rejected_above-at :
    (o : Option ℕ) (m : JsMap ℕ CancellationScope)
    → rejected_above o m ≡ true
    → (p : ℕ) × (y : CancellationScope) × (o ≡ some p)
      × (get p m ≡ some y)
      × (is_some y.rejected ≡ true)
unfolding rejected_above
rejected_above-at none m h = absurd cc
rejected_above-at (some p) m h = elim (Option-cases (get p m)) [
  | inl gone ↦ absurd (ground arith)
  | inr (y, there) ↦ (p, y, refl, there, ground arith)
]

-- With the flag that shields non-cancellable scopes on throughout, once no microtask is left, a
-- scope's promise is rejected exactly when cancel was called on that scope or its parent is
-- cancellable and the parent's promise is rejected.
pub cancelled_exactly :
    (es : List ScopeEvent) (c : ℕ) (x : CancellationScope)
    → All (λ e. asked_shielded e ≡ true) es
    → (scope_run es root_only).queue ≡ []
    → get c (scope_run es root_only).scopes ≡ some x
    → (is_some x.rejected ≡ true) ↔ (
        (contains c (calls_made es root_only []) ≡ true)
        ⊎ ((p : ℕ) × (y : CancellationScope) × (x.parent ≡ some p)
            × (get p (scope_run es root_only).scopes ≡ some y)
            × (y.cancellable ≡ true)
            × (is_some y.rejected ≡ true)))
cancelled_exactly es c x on idle hx =
    let st : Scopes = scope_run es root_only in
    let w : IsWired st = scope_run-IsWired es root_only root_only-IsWired in
    let (v, u) =
      scope_run-IsCaused es root_only [] on root_only-IsWired root_only-IsCaused
        (λ k h. absurd cc) in
    let called : ℕ → Bool = λ k. contains k (calls_made es root_only []) in
    (
      λ r. elim (Bool-cases (called c)) [
        | inl yes_called ↦ inl yes_called
        | inr not_called ↦
            let (p, y, hp, hy, above) =
              rejected_above-at x.parent st.scopes (ground (arith, v.caused c x hx r)) in
            inr
              (p, y, hp, hy, ground (arith, v.caused c x hx r, v.linked_is c p x y hx hp hy), above)
      ],
      λ h. elim h [
        | inl is_called ↦
            let (j, z, hj, hz, r) = rejected_above-at (some c) st.scopes (u c is_called) in
            ground arith
        | inr (p, y, hp, hy, able, above) ↦
            cancellation_reaches_linked es c p x y idle hx hp hy above
              (v.linked_is c p x y hx hp hy ∙ able)
      ],
    )
