-- ===== src/CancellationScope/Calls.antt =====
-- The calls of `cancel`, whose scopes stay rejected.
use sdk_typescript.Prelude.{
  ℕ, suc, String, ◌≡◌, refl, subst, inl, inr, Bool, true, Option, none, some, List, [], ◌∷◌, ◌++◌,
  if◌then◌else◌, is_some, nat_same, arith, Bool-cases, nat_beq, nat_beq_iff, contains,
}
use sdk_typescript.JsMap.{get, set, get-set}
use sdk_typescript.CancellationScope.{
  CancellationScope, Microtask, Scopes, ScopeEvent, constructed, cancelled, microtask_run,
  reject_scope, reject, cancel_message, cancel, scope_below, attach, construct_below,
  construct_scope, parent_rejected, run_microtask, scope_step,
}
use sdk_typescript.CancellationScope.Reach.Wiring.{IsWired}
use sdk_typescript.CancellationScope.Caused.{rejected_above, rejected_above-new, rejected_above-set}

-- The flag is on wherever it is asked for.
abbrev pub asked_shielded : ScopeEvent → Bool
asked_shielded (constructed cancellable p shielded) = shielded
asked_shielded (cancelled k) = true
asked_shielded (microtask_run shielded) = shielded

unfoldable pub call_made : ScopeEvent → Scopes → List ℕ → List ℕ
call_made (cancelled k) st calls = if is_some (get k st.scopes) then k ∷ calls else calls
call_made (constructed cancellable p shielded) st calls = calls
call_made (microtask_run shielded) st calls = calls

-- The scopes on which `cancel` was called.
unfoldable pub calls_made : List ScopeEvent → Scopes → List ℕ → List ℕ
unfolding call_made
calls_made [] st calls = calls
calls_made (e ∷ es) st calls = calls_made es (scope_step e st) (call_made e st calls)

-- What is rejected stays rejected.
pub reject_scope-rejected_above :
    (k : ℕ) (message : String) (o : Option CancellationScope) (st : Scopes) (r : Option ℕ)
    → get k st.scopes ≡ o
    → rejected_above r st.scopes ≡ true
    → rejected_above r (reject_scope k message o st).scopes ≡ true
unfolding reject_scope
reject_scope-rejected_above k message none st r h a = a
reject_scope-rejected_above k message (some z) st r h a = ground (
  arith,
  rejected_above-set k z (record z { cancel_requested = true }) st.scopes r h
      (λ (u : is_some z.rejected ≡ true). u),
  rejected_above-set k z
      (record z { cancel_requested = true; rejected = some message; listeners = [] }) st.scopes r h
      (λ (u : is_some z.rejected ≡ true). refl),
)

pub parent_rejected-rejected_above :
    (c : ℕ) (message : String) (shielded : Bool) (o : Option CancellationScope) (st : Scopes)
    (r : Option ℕ)
    → rejected_above r st.scopes ≡ true
    → rejected_above r (parent_rejected c message shielded o st).scopes ≡ true
unfolding parent_rejected reject
parent_rejected-rejected_above c message shielded none st r a = a
parent_rejected-rejected_above c message shielded (some z) st r a =
    ground (arith, reject_scope-rejected_above c message (get c st.scopes) st r refl a)

pub run_microtask-rejected_above :
    (shielded : Bool) (q : List Microtask) (st : Scopes) (r : Option ℕ)
    → rejected_above r st.scopes ≡ true
    → rejected_above r (run_microtask shielded q st).scopes ≡ true
unfolding run_microtask
run_microtask-rejected_above shielded [] st r a = a
run_microtask-rejected_above shielded (m ∷ rest) st r a =
    parent_rejected-rejected_above m.scope m.message shielded (get m.scope st.scopes)
      (record st { queue = rest }) r a

pub attach-rejected_above :
    (n p : ℕ) (z : CancellationScope) (q : Option String) (st : Scopes) (r : Option ℕ)
    → get p st.scopes ≡ some z
    → rejected_above r st.scopes ≡ true
    → rejected_above r (attach n p z q st).scopes ≡ true
unfolding attach
attach-rejected_above n p z (some message) st r h a = a
attach-rejected_above n p z none st r h a =
    rejected_above-set p z (record z { listeners = z.listeners ++ n ∷ [] }) st.scopes r h
      (λ (u : is_some z.rejected ≡ true). u) a

pub construct_below-rejected_above :
    (cancellable : Bool) (p : ℕ) (shielded : Bool) (o : Option CancellationScope) (st : Scopes)
    (r : Option ℕ)
    → get p st.scopes ≡ o
    → IsWired st
    → rejected_above r st.scopes ≡ true
    → rejected_above r (construct_below cancellable p shielded o st).scopes ≡ true
unfolding construct_below
construct_below-rejected_above cancellable p shielded none st r h w a = a
construct_below-rejected_above cancellable p shielded (some z) st r h w a =
    attach-rejected_above n p z z.rejected
      (record st { scopes = set n x0 st.scopes; next_scope = suc n }) r
      (ground (arith, get-set n p x0 st.scopes, w.unused p, h))
      (rejected_above-new n x0 st.scopes r (w.unused n (omega arith)) a)
  where
    n : ℕ
    n = st.next_scope

    x0 : CancellationScope
    x0 = scope_below cancellable p shielded z

pub scope_step-rejected_above :
    (e : ScopeEvent) (st : Scopes) (r : Option ℕ)
    → IsWired st
    → rejected_above r st.scopes ≡ true
    → rejected_above r (scope_step e st).scopes ≡ true
unfolding scope_step construct_scope cancel reject
scope_step-rejected_above (constructed cancellable p shielded) st r w a =
    construct_below-rejected_above cancellable p shielded (get p st.scopes) st r refl w a
scope_step-rejected_above (cancelled k) st r w a =
    reject_scope-rejected_above k (cancel_message k) (get k st.scopes) st r refl a
scope_step-rejected_above (microtask_run shielded) st r w a =
    run_microtask-rejected_above shielded st.queue st r a

pub reject_scope-rejected :
    (k : ℕ) (message : String) (st : Scopes) (o : Option CancellationScope)
    → get k st.scopes ≡ o
    → is_some o ≡ true
    → rejected_above (some k) (reject_scope k message o st).scopes ≡ true
unfolding reject_scope rejected_above
reject_scope-rejected k message st none h i = absurd cc
reject_scope-rejected k message st (some z) h i = ground (
  arith,
  get-set k k (record z { cancel_requested = true }) st.scopes,
  get-set k k (record z { cancel_requested = true; rejected = some message; listeners = [] })
      st.scopes,
)

abbrev pub IsCalled : List ℕ → Scopes → Type 0
IsCalled calls st = (c : ℕ) → contains c calls ≡ true → rejected_above (some c) st.scopes ≡ true

pub scope_step-IsCalled :
    (e : ScopeEvent) (st : Scopes) (calls : List ℕ)
    → IsWired st
    → IsCalled calls st
    → IsCalled (call_made e st calls) (scope_step e st)
unfolding call_made
scope_step-IsCalled (constructed cancellable p shielded) st calls w v c h =
    scope_step-rejected_above (constructed cancellable p shielded) st (some c) w (v c h)
scope_step-IsCalled (microtask_run shielded) st calls w v c h =
    scope_step-rejected_above (microtask_run shielded) st (some c) w (v c h)
scope_step-IsCalled (cancelled k) st calls w v c h = elim (Bool-cases (is_some (get k st.scopes))) [
  | inr gone ↦ scope_step-rejected_above (cancelled k) st (some c) w (v c (ground arith))
  | inl there ↦ elim (Bool-cases (nat_beq k c)) [
    | inl here ↦
        subst (λ (j : ℕ). rejected_above (some j) (scope_step (cancelled k) st).scopes ≡ true)
          ((nat_beq_iff k c).0 here)
          (unfold scope_step in
            unfold cancel in
            unfold reject in
            reject_scope-rejected k (cancel_message k) st (get k st.scopes) refl there)
    | inr other ↦ scope_step-rejected_above (cancelled k) st (some c) w (v c (ground arith))
  ]
]
