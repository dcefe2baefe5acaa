-- ===== src/CancellationScope/Reach/Wiring.antt =====
-- The scopes as they are wired: what waits on a promise, and what rejecting a scope keeps.
use sdk_typescript.Prelude.{
  ℕ, ◌≤◌, ◌<◌, String, ◌≡◌, refl, inl, inr, Bool, true, false, not, ◌||◌, Option, none, some, List,
  [], ◌∷◌, ◌++◌, if◌then◌else◌, is_some, nat_same, arith, Bool-cases, nat_beq, contains,
}
use sdk_typescript.JsMap.{get, get-set}
use sdk_typescript.CancellationScope.{
  CancellationScope, Microtask, Scopes, queued_all, reject_scope,
}

abbrev pub queued : ℕ → List Microtask → Bool
queued c [] = false
queued c (m ∷ q) = nat_beq m.scope c || queued c q

pub queued-append : (c : ℕ) (p q : List Microtask) → queued c (p ++ q) ≡ (queued c p || queued c q)
queued-append c [] q = refl
queued-append c (m ∷ p) q = ground (arith, queued-append c p q)

pub queued-queued_all :
    (c : ℕ) (cs : List ℕ) (message : String) → queued c (queued_all cs message) ≡ contains c cs
unfolding queued_all
queued-queued_all c [] message = refl
queued-queued_all c (x ∷ cs) message = ground (arith, queued-queued_all c cs message)

-- A handler waits on its parent's promise, or on the queue, or has passed the rejection on.
abbrev pub notified : ℕ → CancellationScope → CancellationScope → List Microtask → Bool
notified c x y q =
    if is_some y.rejected
    then queued c q || not x.linked || is_some x.rejected
    else contains c y.listeners

-- The same, where the handler of the scope `k` was taken off the queue.
abbrev pub notified_but : ℕ → ℕ → CancellationScope → CancellationScope → List Microtask → Bool
notified_but k c x y q =
    if is_some y.rejected
    then nat_beq k c || queued c q || not x.linked || is_some x.rejected
    else contains c y.listeners

abbrev pub IsUnused : Scopes → Type 0
IsUnused st = (k : ℕ) → st.next_scope ≤ k → get k st.scopes ≡ none

abbrev pub IsBelow : Scopes → Type 0
IsBelow st =
    (c p : ℕ) (x : CancellationScope)
    → get c st.scopes ≡ some x
    → x.parent ≡ some p
    → p < st.next_scope

abbrev pub IsNotified : Scopes → Type 0
IsNotified st =
    (c p : ℕ) (x y : CancellationScope)
    → get c st.scopes ≡ some x
    → x.parent ≡ some p
    → get p st.scopes ≡ some y
    → notified c x y st.queue ≡ true

abbrev pub IsNotifiedBut : ℕ → Scopes → Type 0
IsNotifiedBut k st =
    (c p : ℕ) (x y : CancellationScope)
    → get c st.scopes ≡ some x
    → x.parent ≡ some p
    → get p st.scopes ≡ some y
    → notified_but k c x y st.queue ≡ true

pub reject_scope-IsNotified :
    (k : ℕ) (message : String) (st : Scopes) (o : Option CancellationScope)
    → get k st.scopes ≡ o
    → IsNotifiedBut k st
    → IsNotified (reject_scope k message o st)
unfolding reject_scope
reject_scope-IsNotified k message st none h w c p x y hx hp hy = ground (arith, w c p x y hx hp hy)
reject_scope-IsNotified k message st (some z) h w c p x y hx hp hy =
    elim (Bool-cases (is_some z.rejected)) [
      | inl again ↦ ground (
        arith,
        get-set k c (record z { cancel_requested = true }) st.scopes,
        get-set k p (record z { cancel_requested = true }) st.scopes,
        w c p x y,
        w c p z y,
        w c p x z,
        w c p z z,
      )
      | inr first ↦ ground (
        arith,
        get-set k c (record z { cancel_requested = true; rejected = some message; listeners = [] })
            st.scopes,
        get-set k p (record z { cancel_requested = true; rejected = some message; listeners = [] })
            st.scopes,
        queued-append c st.queue (queued_all z.listeners message),
        queued-queued_all c z.listeners message,
        w c p x y,
        w c p z y,
        w c p x z,
        w c p z z,
      )
    ]

pub reject_scope-IsUnused :
    (k : ℕ) (message : String) (st : Scopes) (o : Option CancellationScope)
    → get k st.scopes ≡ o
    → IsUnused st
    → IsUnused (reject_scope k message o st)
unfolding reject_scope
reject_scope-IsUnused k message st none h w j b = w j b
reject_scope-IsUnused k message st (some z) h w j b = ground (
  arith,
  get-set k j (record z { cancel_requested = true }) st.scopes,
  get-set k j (record z { cancel_requested = true; rejected = some message; listeners = [] })
      st.scopes,
  w j,
)

pub reject_scope-IsBelow :
    (k : ℕ) (message : String) (st : Scopes) (o : Option CancellationScope)
    → get k st.scopes ≡ o
    → IsBelow st
    → IsBelow (reject_scope k message o st)
unfolding reject_scope
reject_scope-IsBelow k message st none h w c p x hx hp = w c p x hx hp
reject_scope-IsBelow k message st (some z) h w c p x hx hp = ground (
  arith,
  get-set k c (record z { cancel_requested = true }) st.scopes,
  get-set k c (record z { cancel_requested = true; rejected = some message; listeners = [] })
      st.scopes,
  w c p x,
  w c p z,
)

pub record IsWired (st : Scopes) : Type 0 where
  pub unused : IsUnused st
  pub below : IsBelow st
  pub wired : IsNotified st
