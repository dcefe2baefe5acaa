-- ===== src/CancellationScope/Reach.antt =====
-- A rejection reaches every scope that is linked to its parent, with or without the flag.
pub mod Wiring
use sdk_typescript.Prelude.{
  ℕ, suc, ◌≤◌, ◌<◌, String, ◌≡◌, refl, ap, inl, inr, Bool, true, false, not, ◌||◌, Option, none,
  some, List, [], ◌∷◌, ◌++◌, if◌then◌else◌, is_some, nat_same, arith, Bool-cases, nat_beq, contains,
  contains-append,
}
use sdk_typescript.JsMap.{JsMap, get, set, get-set}
use sdk_typescript.CancellationScope.{
  CancellationScope, Microtask, Scopes, ScopeEvent, constructed, cancelled, microtask_run,
  root_only, queued_all, reject_scope, reject, cancel_message, cancel, scope_below, attach,
  construct_below, construct_scope, parent_rejected, run_microtask, scope_step, scope_run,
}
use sdk_typescript.CancellationScope.Reach.Wiring.{
  queued, queued-append, queued-queued_all, notified, notified_but, IsUnused, IsBelow, IsNotified,
  IsNotifiedBut, reject_scope-IsNotified, reject_scope-IsUnused, reject_scope-IsBelow, IsWired,
}

parent_rejected-IsWired :
    (c : ℕ) (message : String) (shielded : Bool) (st : Scopes) (o : Option CancellationScope)
    → get c st.scopes ≡ o
    → IsUnused st
    → IsBelow st
    → IsNotifiedBut c st
    → IsWired (parent_rejected c message shielded o st)
unfolding parent_rejected reject
parent_rejected-IsWired c message shielded st none h u b w = record {
  unused = u;
  below = b;
  wired = λ j p x y hx hp hy. ground (arith, w j p x y hx hp hy);
}
parent_rejected-IsWired c message shielded st (some z) h u b w =
    elim (Bool-cases (z.linked || not shielded)) [
      | inl passed ↦ rw passed (record {
        unused = reject_scope-IsUnused c message st (get c st.scopes) refl u;
        below = reject_scope-IsBelow c message st (get c st.scopes) refl b;
        wired = reject_scope-IsNotified c message st (get c st.scopes) refl w;
      })
      | inr kept ↦ rw kept (record {
        unused = u;
        below = b;
        wired = λ j p x y hx hp hy. ground (arith, w j p x y hx hp hy);
      })
    ]

run_microtask-IsWired :
    (shielded : Bool) (st : Scopes) (q : List Microtask)
    → st.queue ≡ q
    → IsWired st
    → IsWired (run_microtask shielded q st)
unfolding run_microtask
run_microtask-IsWired shielded st [] h v = v
run_microtask-IsWired shielded st (m ∷ rest) h v =
    parent_rejected-IsWired m.scope m.message shielded (record st { queue = rest })
      (get m.scope st.scopes) refl v.unused v.below
      (λ c p x y hx hp hy. ground (arith, v.wired c p x y hx hp hy, ap (queued c) h))

attach-IsWired :
    (cancellable : Bool) (p : ℕ) (shielded : Bool) (z : CancellationScope) (r : Option String)
    (st : Scopes)
    → get p st.scopes ≡ some z
    → z.rejected ≡ r
    → IsWired st
    → IsWired (
        attach st.next_scope p z r (record st {
          scopes = set st.next_scope (scope_below cancellable p shielded z) st.scopes;
          next_scope = suc st.next_scope;
        }))
unfolding attach scope_below
attach-IsWired cancellable p shielded z (some message) st h e v = record {
  unused = λ k b. ground (arith, get-set n k x0 st.scopes, v.unused k);
  below = λ c o x hx hp. ground (arith, get-set n c x0 st.scopes, v.below c o x, v.unused p, h);
  wired = λ c o x y hx hp hy. ground (
    arith,
    get-set n c x0 st.scopes,
    get-set n o x0 st.scopes,
    v.below c o x,
    v.wired c o x y,
    v.unused p,
    queued-append c st.queue (record { scope = n; message = message } ∷ []),
  );
}
  where
    n : ℕ
    n = st.next_scope

    x0 : CancellationScope
    x0 = scope_below cancellable p shielded z
attach-IsWired cancellable p shielded z none st h e v = record {
  unused =
      λ k b. ground (arith, get-set p k z' m, get-set n k x0 st.scopes, v.unused k, v.unused p);
  below = λ c o x hx hp. ground (
    arith,
    get-set p c z' m,
    get-set n c x0 st.scopes,
    v.below c o x,
    v.below c o z,
    v.unused p,
    h,
  );
  wired = λ c o x y hx hp hy. ground (
    arith,
    get-set p c z' m,
    get-set p o z' m,
    get-set n c x0 st.scopes,
    get-set n o x0 st.scopes,
    v.below c o x,
    v.below c o z,
    v.wired c o x y,
    v.wired c o x z,
    v.wired c o z y,
    v.wired c o z z,
    v.unused p,
    contains-append c z.listeners (n ∷ []),
  );
}
  where
    n : ℕ
    n = st.next_scope

    x0 : CancellationScope
    x0 = scope_below cancellable p shielded z

    z' : CancellationScope
    z' = record z { listeners = z.listeners ++ st.next_scope ∷ [] }

    m : JsMap ℕ CancellationScope
    m = set st.next_scope (scope_below cancellable p shielded z) st.scopes

construct_below-IsWired :
    (cancellable : Bool) (p : ℕ) (shielded : Bool) (o : Option CancellationScope) (st : Scopes)
    → get p st.scopes ≡ o
    → IsWired st
    → IsWired (construct_below cancellable p shielded o st)
unfolding construct_below
construct_below-IsWired cancellable p shielded none st h v = v
construct_below-IsWired cancellable p shielded (some z) st h v =
    attach-IsWired cancellable p shielded z z.rejected st h refl v

cancel-IsWired : (k : ℕ) (st : Scopes) → IsWired st → IsWired (cancel k st)
unfolding cancel reject
cancel-IsWired k st v = record {
  unused = reject_scope-IsUnused k (cancel_message k) st (get k st.scopes) refl v.unused;
  below = reject_scope-IsBelow k (cancel_message k) st (get k st.scopes) refl v.below;
  wired =
      reject_scope-IsNotified k (cancel_message k) st (get k st.scopes) refl
        (λ c p x y hx hp hy. ground (arith, v.wired c p x y hx hp hy));
}

pub scope_step-IsWired : (e : ScopeEvent) (st : Scopes) → IsWired st → IsWired (scope_step e st)
unfolding scope_step construct_scope
scope_step-IsWired (constructed cancellable p shielded) st v =
    construct_below-IsWired cancellable p shielded (get p st.scopes) st refl v
scope_step-IsWired (cancelled k) st v = cancel-IsWired k st v
scope_step-IsWired (microtask_run shielded) st v = run_microtask-IsWired shielded st st.queue refl v

pub scope_run-IsWired :
    (es : List ScopeEvent) (st : Scopes) → IsWired st → IsWired (scope_run es st)
unfolding scope_run
scope_run-IsWired [] st v = v
scope_run-IsWired (e ∷ es) st v = scope_run-IsWired es (scope_step e st) (scope_step-IsWired e st v)

pub root_only-IsWired : IsWired root_only
unfolding get
root_only-IsWired = record {
  unused = λ k b. ground arith;
  below = λ c p x hx hp. ground arith;
  wired = λ c p x y hx hp hy. ground arith;
}

-- Once no microtask is left, the promise of a scope that is linked to its parent is rejected if
-- that of the parent is, whatever the flag was wherever it was asked for.
pub cancellation_reaches_linked :
    (es : List ScopeEvent) (c p : ℕ) (x y : CancellationScope)
    → (scope_run es root_only).queue ≡ []
    → get c (scope_run es root_only).scopes ≡ some x
    → x.parent ≡ some p
    → get p (scope_run es root_only).scopes ≡ some y
    → is_some y.rejected ≡ true
    → x.linked ≡ true
    → is_some x.rejected ≡ true
cancellation_reaches_linked es c p x y idle hx hp hy cancelled_above linked = ground (
  arith,
  (scope_run-IsWired es root_only root_only-IsWired).wired c p x y hx hp hy,
  ap (queued c) idle,
)
