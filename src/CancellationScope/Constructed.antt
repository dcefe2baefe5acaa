-- ===== src/CancellationScope/Constructed.antt =====
-- The construction of a scope keeps what holds of the causes of rejections.
use sdk_typescript.Prelude.{
  ℕ, suc, String, ◌≡◌, refl, subst, Bool, true, Option, none, some, List, [], ◌∷◌, ◌++◌, is_some,
  nat_same, arith, contains-append,
}
use sdk_typescript.JsMap.{get, set, get-set}
use sdk_typescript.CancellationScope.{
  CancellationScope, Scopes, scope_below, attach, construct_below,
}
use sdk_typescript.CancellationScope.Reach.Wiring.{queued-append, IsWired}
use sdk_typescript.CancellationScope.Caused.{
  IsCaused, rejected_above, rejected_above-new, rejected_above-set,
}

-- A scope below `p` is added, with no handler waiting on `p`.
pub added-IsCaused :
    (cancellable : Bool) (p : ℕ) (z : CancellationScope) (st : Scopes) (calls : List ℕ)
    → get p st.scopes ≡ some z
    → IsWired st
    → IsCaused calls st
    → IsCaused calls (record st {
      scopes = set st.next_scope (scope_below cancellable p true z) st.scopes;
      next_scope = suc st.next_scope;
    })
unfolding scope_below
added-IsCaused cancellable p z st calls h w v = record {
  linked_is = λ c o x y hx hp hy. ground (
    arith,
    get-set n c x0 st.scopes,
    get-set n o x0 st.scopes,
    w.below c o x,
    w.unused p,
    v.linked_is c o x y,
  );
  caused = λ c x hx hr. ground (
    arith,
    get-set n c x0 st.scopes,
    v.caused c x,
    rejected_above-new n x0 st.scopes x.parent (w.unused n (omega arith)),
  );
  queued_below = λ c x hx hq. ground (
    arith,
    get-set n c x0 st.scopes,
    v.queued_below c x,
    v.queued_known c,
    w.unused n,
    rejected_above-new n x0 st.scopes x.parent (w.unused n (omega arith)),
  );
  listens = λ c j x y hx hy hl. ground (
    arith,
    get-set n c x0 st.scopes,
    get-set n j x0 st.scopes,
    v.listens c j x y,
    v.known c j y,
    w.unused n,
  );
  known = λ c j y hy hl.
      ground (arith, get-set n c x0 st.scopes, get-set n j x0 st.scopes, v.known c j y);
  queued_known = λ c hq. ground (arith, get-set n c x0 st.scopes, v.queued_known c);
}
  where
    n : ℕ
    n = st.next_scope

    x0 : CancellationScope
    x0 = scope_below cancellable p true z

-- The handler of a scope below `p` is queued, or waits on `p`.
pub attached-IsCaused :
    (n p : ℕ) (z : CancellationScope) (r : Option String) (st : Scopes) (calls : List ℕ)
    → get p st.scopes ≡ some z
    → z.rejected ≡ r
    → is_some (get n st.scopes) ≡ true
    → ((x : CancellationScope) → get n st.scopes ≡ some x → x.parent ≡ some p)
    → IsCaused calls st
    → IsCaused calls (attach n p z r st)
unfolding attach
attached-IsCaused n p z (some message) st calls h e there up v = record {
  linked_is = v.linked_is;
  caused = v.caused;
  queued_below = λ c x hx hq. ground (
    arith,
    queued-append c st.queue (record { scope = n; message = message } ∷ []),
    v.queued_below c x,
    up x,
    above x.parent,
  );
  listens = v.listens;
  known = v.known;
  queued_known = λ c hq. ground (
    arith,
    queued-append c st.queue (record { scope = n; message = message } ∷ []),
    v.queued_known c,
  );
}
  where
    above : (o : Option ℕ) → o ≡ some p → rejected_above o st.scopes ≡ true
    above none i = absurd cc
    above (some j) i = unfold rejected_above in ground (arith, h, e)
attached-IsCaused n p z none st calls h e there up v = record {
  linked_is = λ c o x y hx hp hy. ground (
    arith,
    get-set p c z' st.scopes,
    get-set p o z' st.scopes,
    v.linked_is c o x y,
    v.linked_is c o z y,
    v.linked_is c o x z,
    v.linked_is c o z z,
  );
  caused = λ c x hx hr. ground (
    arith,
    get-set p c z' st.scopes,
    v.caused c x,
    v.caused c z,
    rejected_above-set p z z' st.scopes x.parent h (λ (u : is_some z.rejected ≡ true). u),
  );
  queued_below = λ c x hx hq. ground (
    arith,
    get-set p c z' st.scopes,
    v.queued_below c x,
    v.queued_below c z,
    rejected_above-set p z z' st.scopes x.parent h (λ (u : is_some z.rejected ≡ true). u),
  );
  listens = λ c j x y hx hy hl. ground (
    arith,
    get-set p c z' st.scopes,
    get-set p j z' st.scopes,
    contains-append c z.listeners (n ∷ []),
    v.listens c j x y,
    v.listens c j z y,
    v.listens c j x z,
    v.listens c j z z,
    up x,
    up z,
  );
  known = λ c j y hy hl. ground (
    arith,
    get-set p c z' st.scopes,
    get-set p j z' st.scopes,
    contains-append c z.listeners (n ∷ []),
    v.known c j y,
    v.known c j z,
    there,
  );
  queued_known = λ c hq. ground (arith, get-set p c z' st.scopes, v.queued_known c);
}
  where
    z' : CancellationScope
    z' = record z { listeners = z.listeners ++ n ∷ [] }

pub construct_below-IsCaused :
    (cancellable : Bool) (p : ℕ) (o : Option CancellationScope) (st : Scopes) (calls : List ℕ)
    → get p st.scopes ≡ o
    → IsWired st
    → IsCaused calls st
    → IsCaused calls (construct_below cancellable p true o st)
unfolding construct_below
construct_below-IsCaused cancellable p none st calls h w v = v
construct_below-IsCaused cancellable p (some z) st calls h w v =
    attached-IsCaused n p z z.rejected
      (record st { scopes = set n x0 st.scopes; next_scope = suc n }) calls
      (ground (arith, get-set n p x0 st.scopes, w.unused p, h)) refl
      (ground (arith, get-set n n x0 st.scopes))
      (λ x hx.
        let same : x0 ≡ x = ground (arith, get-set n n x0 st.scopes) in
        subst (λ (y : CancellationScope). y.parent ≡ some p) same below_p)
      (added-IsCaused cancellable p z st calls h w v)
  where
    n : ℕ
    n = st.next_scope

    x0 : CancellationScope
    x0 = scope_below cancellable p true z

    below_p : x0.parent ≡ some p
    below_p = unfold scope_below in refl
