-- ===== src/CancellationScope/Caused.antt =====
-- Under the flag, a rejection has a cause: a call of `cancel`, or a rejection above.
use sdk_typescript.Prelude.{
  ℕ, String, ◌≡◌, refl, sym, ap, ◌∙◌, subst, inl, inr, Bool, true, false, ◌&&◌, ◌||◌, Option, none,
  some, List, [], ◌∷◌, ◌++◌, is_some, nat_same, arith, Bool-cases, contains, append-nil,
}
use sdk_typescript.JsMap.{JsMap, get, set, get-set}
use sdk_typescript.CancellationScope.{
  CancellationScope, Microtask, Scopes, queued_all, reject_scope, reject, parent_rejected,
  run_microtask,
}
use sdk_typescript.CancellationScope.Reach.Wiring.{queued, queued-append, queued-queued_all}

-- Whether the parent is there and its promise is rejected.
unfoldable pub rejected_above : Option ℕ → JsMap ℕ CancellationScope → Bool
rejected_above none m = false
rejected_above (some p) m = elim (get p m) [ none ↦ false | some y ↦ is_some y.rejected ]

pub record IsCaused (calls : List ℕ) (st : Scopes) : Type 0 where
  pub linked_is :
      (c p : ℕ) (x y : CancellationScope)
      → get c st.scopes ≡ some x
      → x.parent ≡ some p
      → get p st.scopes ≡ some y
      → x.linked ≡ y.cancellable
  pub caused :
      (c : ℕ) (x : CancellationScope)
      → get c st.scopes ≡ some x
      → is_some x.rejected ≡ true
      → (contains c calls || (x.linked && rejected_above x.parent st.scopes)) ≡ true
  pub queued_below :
      (c : ℕ) (x : CancellationScope)
      → get c st.scopes ≡ some x
      → queued c st.queue ≡ true
      → rejected_above x.parent st.scopes ≡ true
  pub listens :
      (c k : ℕ) (x z : CancellationScope)
      → get c st.scopes ≡ some x
      → get k st.scopes ≡ some z
      → contains c z.listeners ≡ true
      → x.parent ≡ some k
  pub known :
      (c k : ℕ) (z : CancellationScope)
      → get k st.scopes ≡ some z
      → contains c z.listeners ≡ true
      → is_some (get c st.scopes) ≡ true
  pub queued_known : (c : ℕ) → queued c st.queue ≡ true → is_some (get c st.scopes) ≡ true

pub rejected_above-set :
    (k : ℕ) (z z' : CancellationScope) (m : JsMap ℕ CancellationScope) (o : Option ℕ)
    → get k m ≡ some z
    → (is_some z.rejected ≡ true → is_some z'.rejected ≡ true)
    → rejected_above o m ≡ true
    → rejected_above o (set k z' m) ≡ true
unfolding rejected_above
rejected_above-set k z z' m none h keeps r = absurd cc
rejected_above-set k z z' m (some p) h keeps r = ground (arith, get-set k p z' m)

pub rejected_above-set_self :
    (k : ℕ) (z' : CancellationScope) (m : JsMap ℕ CancellationScope) (o : Option ℕ)
    → o ≡ some k
    → is_some z'.rejected ≡ true
    → rejected_above o (set k z' m) ≡ true
unfolding rejected_above
rejected_above-set_self k z' m none h r = absurd cc
rejected_above-set_self k z' m (some p) h r = ground (arith, get-set k p z' m)

-- A scope is replaced by itself with its promise rejected, or as it was, and the handlers that waited
-- on it are queued.
pub replaced-IsCaused :
    (k : ℕ) (st : Scopes) (z z' : CancellationScope) (more : List Microtask) (calls : List ℕ)
    → get k st.scopes ≡ some z
    → (contains k calls || (z.linked && rejected_above z.parent st.scopes)) ≡ true
    → z'.parent ≡ z.parent
    → z'.linked ≡ z.linked
    → z'.cancellable ≡ z.cancellable
    → is_some z'.rejected ≡ true
    → ((c : ℕ) → contains c z'.listeners ≡ true → contains c z.listeners ≡ true)
    → ((c : ℕ) → queued c more ≡ true → contains c z.listeners ≡ true)
    → IsCaused calls st
    → IsCaused calls (record st { scopes = set k z' st.scopes; queue = st.queue ++ more })
replaced-IsCaused k st z z' more calls h cause same linked able r fewer waits v = record {
  linked_is = λ c p x y hx hp hy. ground (
    arith,
    get-set k c z' st.scopes,
    get-set k p z' st.scopes,
    v.linked_is c p x y,
    v.linked_is c p z y,
    v.linked_is c p x z,
    v.linked_is c p z z,
  );
  caused = λ c x hx hr. ground (
    arith,
    get-set k c z' st.scopes,
    v.caused c x,
    rejected_above-set k z z' st.scopes x.parent h (λ (u : is_some z.rejected ≡ true). r),
  );
  queued_below = λ c x hx hq. ground (
    arith,
    get-set k c z' st.scopes,
    queued-append c st.queue more,
    waits c,
    v.queued_below c x,
    v.queued_below c z,
    v.listens c k x z,
    v.listens c k z z,
    rejected_above-set k z z' st.scopes x.parent h (λ (u : is_some z.rejected ≡ true). r),
    rejected_above-set_self k z' st.scopes x.parent,
  );
  listens = λ c j x y hx hy hl. ground (
    arith,
    get-set k c z' st.scopes,
    get-set k j z' st.scopes,
    fewer c,
    v.listens c j x y,
    v.listens c j z y,
    v.listens c j x z,
    v.listens c j z z,
  );
  known = λ c j y hy hl. ground (
    arith,
    get-set k c z' st.scopes,
    get-set k j z' st.scopes,
    fewer c,
    v.known c j y,
    v.known c j z,
  );
  queued_known = λ c hq. ground (
    arith,
    get-set k c z' st.scopes,
    queued-append c st.queue more,
    waits c,
    v.known c k z,
    v.queued_known c,
  );
}

pub reject_scope-IsCaused :
    (k : ℕ) (message : String) (st : Scopes) (o : Option CancellationScope) (calls : List ℕ)
    → get k st.scopes ≡ o
    → ((z : CancellationScope)
        → o ≡ some z
        → (contains k calls || (z.linked && rejected_above z.parent st.scopes)) ≡ true)
    → IsCaused calls st
    → IsCaused calls (reject_scope k message o st)
unfolding reject_scope
reject_scope-IsCaused k message st none calls h cause v = v
reject_scope-IsCaused k message st (some z) calls h cause v =
    elim (Bool-cases (is_some z.rejected)) [
      | inl again ↦ rw again (
          subst
            (λ q. IsCaused calls (record st {
              scopes = set k (record z { cancel_requested = true }) st.scopes;
              queue = q;
            }))
            (append-nil st.queue)
            (replaced-IsCaused k st z (record z { cancel_requested = true }) [] calls h
              (cause z refl) refl refl refl again (λ c l. l) (λ c l. absurd cc) v))
      | inr first ↦ rw first (
          replaced-IsCaused k st z
            (record z { cancel_requested = true; rejected = some message; listeners = [] })
            (queued_all z.listeners message) calls h (cause z refl) refl refl refl refl
            (λ c l. absurd cc) (λ c l. sym (queued-queued_all c z.listeners message) ∙ l) v)
    ]

pub popped-IsCaused :
    (st : Scopes) (m : Microtask) (rest : List Microtask) (calls : List ℕ)
    → st.queue ≡ m ∷ rest
    → IsCaused calls st
    → IsCaused calls (record st { queue = rest })
popped-IsCaused st m rest calls h v = record {
  linked_is = v.linked_is;
  caused = v.caused;
  queued_below = λ c x hx hq. v.queued_below c x hx (ground (arith, ap (queued c) h));
  listens = v.listens;
  known = v.known;
  queued_known = λ c hq. v.queued_known c (ground (arith, ap (queued c) h));
}

pub parent_rejected-IsCaused :
    (c : ℕ) (message : String) (st : Scopes) (o : Option CancellationScope) (calls : List ℕ)
    → get c st.scopes ≡ o
    → ((z : CancellationScope) → o ≡ some z → rejected_above z.parent st.scopes ≡ true)
    → IsCaused calls st
    → IsCaused calls (parent_rejected c message true o st)
unfolding parent_rejected reject
parent_rejected-IsCaused c message st none calls h above v = v
parent_rejected-IsCaused c message st (some z) calls h above v = elim (Bool-cases z.linked) [
  | inl linked ↦ rw linked (
      reject_scope-IsCaused c message st (get c st.scopes) calls refl
        (λ y hy. ground (arith, above z refl)) v)
  | inr loose ↦ rw loose v
]

pub run_microtask-IsCaused :
    (st : Scopes) (q : List Microtask) (calls : List ℕ)
    → st.queue ≡ q
    → IsCaused calls st
    → IsCaused calls (run_microtask true q st)
unfolding run_microtask
run_microtask-IsCaused st [] calls h v = v
run_microtask-IsCaused st (m ∷ rest) calls h v =
    parent_rejected-IsCaused m.scope m.message (record st { queue = rest }) (get m.scope st.scopes)
      calls refl (λ z hz. v.queued_below m.scope z hz (ground (arith, ap (queued m.scope) h)))
      (popped-IsCaused st m rest calls h v)

pub rejected_above-new :
    (n : ℕ) (x0 : CancellationScope) (m : JsMap ℕ CancellationScope) (o : Option ℕ)
    → get n m ≡ none
    → rejected_above o m ≡ true
    → rejected_above o (set n x0 m) ≡ true
unfolding rejected_above
rejected_above-new n x0 m none h r = absurd cc
rejected_above-new n x0 m (some p) h r = ground (arith, get-set n p x0 m)
