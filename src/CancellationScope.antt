-- ===== src/CancellationScope.antt =====
-- packages/workflow/src/cancellation-scope.ts, class CancellationScope: scopes, the requests that
-- cancel them, and how the rejection of a scope's promise reaches the scopes below it. A scope is
-- named by the order of its construction, and the root scope is 0. `shielded` is what `hasFlag`
-- answers for NonCancellableScopesAreShieldedFromPropagation where it is called. The timer of a
-- scope with a timeout is not modelled.
pub mod Reach
pub mod Caused
pub mod Constructed
pub mod Calls
pub mod Shielding
use sdk_typescript.Prelude.{
  ℕ, zero, suc, ◌+◌, String, Bool, true, false, not, ◌&&◌, ◌||◌, Option, none, some, List, [], ◌∷◌,
  ◌++◌, if◌then◌else◌, is_some, nat_same,
}
use sdk_typescript.JsMap.{JsMap, get, set}

-- `rejected` is the message of the error that the promise `cancelRequested` was rejected with.
-- `listeners` are the scopes whose `catch` handlers wait on that promise; such a handler passes the
-- rejection on whenever it runs (`linked`), or only where the flag is off.
pub record CancellationScope : Type 0 where
  pub cancellable : Bool
  pub parent : Option ℕ
  pub cancel_requested : Bool
  pub rejected : Option String
  pub listeners : List ℕ
  pub linked : Bool

-- A `catch` handler that was queued as a microtask: its scope, and the error.
pub record Microtask : Type 0 where
  pub scope : ℕ
  pub message : String

pub record Scopes : Type 0 where
  pub scopes : JsMap ℕ CancellationScope
  pub next_scope : ℕ
  pub queue : List Microtask

-- What happens to the scopes: a construction below a parent, a call of `cancel`, and the run of the
-- first microtask.
pub data ScopeEvent : Type 0 where
  constructed : Bool → ℕ → Bool → ScopeEvent
  cancelled : ℕ → ScopeEvent
  microtask_run : Bool → ScopeEvent

abbrev pub root_scope : CancellationScope
root_scope = record {
  cancellable = true;
  parent = none;
  cancel_requested = false;
  rejected = none;
  listeners = [];
  linked = false;
}

-- RootCancellationScope
abbrev pub root_only : Scopes
root_only = record { scopes = (0, root_scope) ∷ []; next_scope = 1; queue = [] }

unfoldable pub considered_cancelled : CancellationScope → Bool
considered_cancelled x = x.cancel_requested && x.cancellable

unfoldable pub queued_all : List ℕ → String → List Microtask
queued_all [] message = []
queued_all (c ∷ cs) message = record { scope = c; message = message } ∷ queued_all cs message

-- `this.reject`: a promise is rejected at most once.
unfoldable pub reject_scope : ℕ → String → Option CancellationScope → Scopes → Scopes
unfolding queued_all
reject_scope k message none st = st
reject_scope k message (some x) st =
    if is_some x.rejected
    then record st { scopes = set k (record x { cancel_requested = true }) st.scopes }
    else record st {
      scopes =
          set k (record x { cancel_requested = true; rejected = some message; listeners = [] })
            st.scopes;
      queue = st.queue ++ queued_all x.listeners message;
    }

unfoldable pub reject : ℕ → String → Scopes → Scopes
unfolding reject_scope
reject k message st = reject_scope k message (get k st.scopes) st

abbrev pub cancel_message : ℕ → String
cancel_message zero = "Workflow cancelled"
cancel_message (suc k) = "Cancellation scope cancelled"

unfoldable pub cancel : ℕ → Scopes → Scopes
unfolding reject
cancel k st = reject k (cancel_message k) st

-- The scope that the constructor makes below the parent `p`.
unfoldable pub scope_below : Bool → ℕ → Bool → CancellationScope → CancellationScope
scope_below cancellable p shielded y =
    let linked = y.cancellable || (y.cancel_requested && not shielded) in
    record {
      cancellable = cancellable;
      parent = some p;
      cancel_requested = if linked then y.cancel_requested else false;
      rejected = none;
      listeners = [];
      linked = linked;
    }

-- The handler is attached to the parent's promise, or queued if that is rejected already.
unfoldable pub attach : ℕ → ℕ → CancellationScope → Option String → Scopes → Scopes
attach id p y (some message) st = record st {
  queue = st.queue ++ record { scope = id; message = message } ∷ [];
}
attach id p y none st = record st {
  scopes = set p (record y { listeners = y.listeners ++ id ∷ [] }) st.scopes;
}

unfoldable pub construct_below : Bool → ℕ → Bool → Option CancellationScope → Scopes → Scopes
unfolding scope_below attach
construct_below cancellable p shielded none st = st
construct_below cancellable p shielded (some y) st =
    attach st.next_scope p y y.rejected (record st {
      scopes = set st.next_scope (scope_below cancellable p shielded y) st.scopes;
      next_scope = suc st.next_scope;
    })

-- `new CancellationScope({ cancellable, parent })`
unfoldable pub construct_scope : Bool → ℕ → Bool → Scopes → Scopes
unfolding construct_below
construct_scope cancellable p shielded st =
    construct_below cancellable p shielded (get p st.scopes) st

-- The `catch` handler that the constructor attached.
unfoldable pub parent_rejected : ℕ → String → Bool → Option CancellationScope → Scopes → Scopes
unfolding reject
parent_rejected c message shielded none st = st
parent_rejected c message shielded (some x) st =
    if x.linked || not shielded then reject c message st else st

unfoldable pub run_microtask : Bool → List Microtask → Scopes → Scopes
unfolding parent_rejected
run_microtask shielded [] st = st
run_microtask shielded (m ∷ rest) st =
    parent_rejected m.scope m.message shielded (get m.scope st.scopes) (record st { queue = rest })

unfoldable pub scope_step : ScopeEvent → Scopes → Scopes
unfolding construct_scope cancel run_microtask
scope_step (constructed cancellable p shielded) st = construct_scope cancellable p shielded st
scope_step (cancelled k) st = cancel k st
scope_step (microtask_run shielded) st = run_microtask shielded st.queue st

unfoldable pub scope_run : List ScopeEvent → Scopes → Scopes
unfolding scope_step
scope_run [] st = st
scope_run (e ∷ es) st = scope_run es (scope_step e st)
