-- ===== src/Activator/Jobs/Opens.antt =====
-- The calls that start a task open its promises, under a number that was never used.
use sdk_typescript.Prelude.{
  ◌∙◌, subst, sym, ℕ, ◌+◌, ◌≤◌, ◌≡◌, refl, Option, none, some, arith, inl, inr, Bool-cases, String,
  ◌==◌, nat_same, if◌then◌else◌,
}
use sdk_typescript.JsMap.{get-set}
use sdk_typescript.Activator.{
  Activator, Kind, timer, activity, nexus_operation_start, nexus_operation_complete, key_same,
  key_beq_iff, child_workflow_start, child_workflow_complete, signal_workflow, Key, Command,
  Completion, reject, modify, ◌>>◌,
}
use sdk_typescript.Activator.Completions.{at, settle}
use sdk_typescript.Activator.Schedule.{
  Scope, schedule_timer, schedule_activity_task, start_child, signal_external,
  start_nexus_operation, start_task, register,
}
use sdk_typescript.Activator.Budget.{
  budget, pending, settled_count, times_settled, settled_count-settle, IsChained, settle-IsChained,
}
use sdk_typescript.Activator.Jobs.Consistent.{next_of, next_of-eq, Opens}

abbrev pub opens_at : Key → Key → ℕ
opens_at j k = if j == k then 1 else 0

module _ (scope : Scope) (kind : Kind) (n : ℕ) (command : Command) (c : Completion) where
  budget-start_task :
      (k : Key) (a : Activator)
      → budget k (start_task scope kind n command c a).1 ≤ budget k a + opens_at (at kind n) k
  unfolding start_task register budget pending settled_count times_settled settle
  budget-start_task k a = elim (Bool-cases scope.considered_cancelled) [
    | inl e ↦ rw e (ground (arith, settled_count-settle k (at kind n) (reject scope.error) a))
    | inr e ↦ rw (e, get-set (at kind n) k c a.completions) (ground arith)
  ]

  pending-start_task :
      (k : Key) (a : Activator)
      → pending k (start_task scope kind n command c a).1 ≤ pending k a + opens_at (at kind n) k
  unfolding start_task register pending settle
  pending-start_task k a = elim (Bool-cases scope.considered_cancelled) [
    | inl e ↦ rw e (omega arith)
    | inr e ↦ rw (e, get-set (at kind n) k c a.completions) (ground arith)
  ]

  start_task-IsChained :
      (k : Key) (a : Activator)
      → IsChained k a.settled
      → IsChained k (start_task scope kind n command c a).1.settled
  unfolding start_task register
  start_task-IsChained k a h = elim (Bool-cases scope.considered_cancelled) [
    | inl e ↦ rw e (settle-IsChained k (at kind n) (reject scope.error) a h)
    | inr e ↦ rw e h
  ]

  next_seqs-start_task :
      (a : Activator) → (start_task scope kind n command c a).1.next_seqs ≡ a.next_seqs
  unfolding start_task register settle
  next_seqs-start_task a = ground arith

-- A task of one kind, started in a state that has taken its number.
Opens-start_task :
    (scope : Scope) (kind : Kind) (n : ℕ) (command : Command) (c : Completion) (a b : Activator)
    → b.completions ≡ a.completions
    → b.settled ≡ a.settled
    → (next_of kind a ≡ n)
    → (next_of kind b ≡ n + 1)
    → ((k : Kind) → next_of k a ≤ next_of k b)
    → ((m : ℕ) → opens_at (at kind n) (at nexus_operation_complete m) ≡ 0)
    → Opens (opens_at (at kind n)) n a (start_task scope kind n command c b).1
unfolding budget settled_count pending
Opens-start_task scope kind n command c a b same_c same_s here next grows nc = record {
  budgets = λ k. rw (← same_c, ← same_s) (budget-start_task scope kind n command c k b);
  pendings = λ k. rw (← same_c) (pending-start_task scope kind n command c k b);
  chains = λ k h.
      start_task-IsChained scope kind n command c k b (subst (λ ss. IsChained k ss) (sym same_s) h);
  small = λ k. ground arith;
  not_complete = nc;
  number = λ k. elim (Bool-cases (at kind n == k)) [
    | inl e ↦ inr (subst named ((key_beq_iff (at kind n) k).0 e) (refl, here, after kind next))
    | inr e ↦ inl (rw e)
  ];
  seqs = λ k.
      rw
        (next_of-eq k b (start_task scope kind n command c b).1
          (next_seqs-start_task scope kind n command c b))
        (grows k);
}
  where
    after :
        (k : Kind) → next_of k b ≡ n + 1 → next_of k (start_task scope kind n command c b).1 ≡ n + 1
    after k h = next_of-eq k b _ (next_seqs-start_task scope kind n command c b) ∙ h

    named : Key → Type 0
    named k =
        (k.seq ≡ n)
        × (next_of k.kind a ≡ n)
        × (next_of k.kind (start_task scope kind n command c b).1 ≡ n + 1)

-- The calls that start a task.
module _ (a : Activator) (scope : Scope) (c : Completion) where
  pub Opens-timer :
      Opens (opens_at (at timer a.next_seqs.timer)) a.next_seqs.timer a (schedule_timer scope c a).1
  unfolding schedule_timer
  Opens-timer =
      Opens-start_task scope timer _ _ c a _ refl refl refl refl (λ k. ground arith)
        (λ m. ground arith)

  pub Opens-activity :
      Opens
        (opens_at (at activity a.next_seqs.activity))
        a.next_seqs.activity
        a
        (schedule_activity_task scope c a).1
  unfolding schedule_activity_task
  Opens-activity =
      Opens-start_task scope activity _ _ c a _ refl refl refl refl (λ k. ground arith)
        (λ m. ground arith)

  pub Opens-signal :
      Opens
        (opens_at (at signal_workflow a.next_seqs.signal_workflow))
        a.next_seqs.signal_workflow
        a
        (signal_external scope c a).1
  unfolding signal_external
  Opens-signal =
      Opens-start_task scope signal_workflow _ _ c a _ refl refl refl refl (λ k. ground arith)
        (λ m. ground arith)

  pub Opens-nexus :
      (service : Option String)
      → Opens
          (opens_at (at nexus_operation_start a.next_seqs.nexus_operation))
          a.next_seqs.nexus_operation
          a
          (start_nexus_operation scope service c a).1
  unfolding start_nexus_operation
  Opens-nexus none =
      Opens-start_task scope nexus_operation_start _ _ c a _ refl refl refl refl (λ k. ground arith)
        (λ m. ground arith)
  Opens-nexus (some service) =
      Opens-start_task scope nexus_operation_start _ _ c a _ (ground arith) (ground arith) refl
        (ground arith) (λ k. ground arith) (λ m. ground arith)

module _ (kind : Kind) (n : ℕ) (c : Completion) (k : Key) (a : Activator) where
  budget-register : budget k (register kind n c a) ≤ budget k a + opens_at (at kind n) k
  unfolding register budget pending settled_count
  budget-register = rw (get-set (at kind n) k c a.completions) (ground arith)

  pending-register : pending k (register kind n c a) ≤ pending k a + opens_at (at kind n) k
  unfolding register pending
  pending-register = rw (get-set (at kind n) k c a.completions) (ground arith)

-- Both promises of a child take one number.
abbrev pub opens_child : ℕ → Key → ℕ
opens_child n k = opens_at (at child_workflow_start n) k + opens_at (at child_workflow_complete n) k

start_task-then :
    (scope : Scope) (kind : Kind) (n : ℕ) (command : Command) (c : Completion)
    (g : Activator → Activator) (b : Activator)
    → ((start_task scope kind n command c >> modify g) b).1
      ≡ g (start_task scope kind n command c b).1
unfolding start_task settle
start_task-then scope kind n command c g b = elim (Bool-cases scope.considered_cancelled) [
  | inl e ↦ rw e
  | inr e ↦ rw e
]

-- The promise of a child's result is registered in the state that started the child.
Opens-register_child :
    (n : ℕ) (d : Completion) (a b : Activator)
    → Opens (opens_at (at child_workflow_start n)) n a b
    → next_of child_workflow_start a ≡ n
    → next_of child_workflow_start b ≡ n + 1
    → Opens (opens_child n) n a (register child_workflow_complete n d b)
Opens-register_child n d a b o here next = record {
  budgets = λ k. omega (arith, budget-register child_workflow_complete n d k b, o.budgets k);
  pendings = λ k. omega (arith, pending-register child_workflow_complete n d k b, o.pendings k);
  chains = λ k h. unfold register in o.chains k h;
  small = λ k. ground arith;
  not_complete = λ m. ground arith;
  number = λ k. elim (Bool-cases (at child_workflow_complete n == k)) [
    | inl e ↦ inr (
        subst named ((key_beq_iff (at child_workflow_complete n) k).0 e)
          (refl, here, same child_workflow_complete ∙ next))
    | inr e ↦ rw (e, same k.kind) (ground (arith, o.number k))
  ];
  seqs = λ k. rw (same k) (o.seqs k);
}
  where
    same : (k : Kind) → next_of k (register child_workflow_complete n d b) ≡ next_of k b
    same k = next_of-eq k b (register child_workflow_complete n d b) (unfold register in refl)

    named : Key → Type 0
    named k =
        (k.seq ≡ n)
        × (next_of k.kind a ≡ n)
        × (next_of k.kind (register child_workflow_complete n d b) ≡ n + 1)

pub Opens-child :
    (a : Activator) (scope : Scope) (c d : Completion)
    → Opens
        (opens_child a.next_seqs.child_workflow)
        a.next_seqs.child_workflow
        a
        (start_child scope c d a).1
unfolding start_child
Opens-child a scope c d = rw start_task-then (
    Opens-register_child _ d a (start_task scope child_workflow_start n command c b).1
      (Opens-start_task scope child_workflow_start n command c a b refl refl refl refl
        (λ k. ground arith) (λ m. ground arith))
      refl
      (next_of-eq child_workflow_start b (start_task scope child_workflow_start n command c b).1
        (next_seqs-start_task scope child_workflow_start n command c b)))
  where
    n : ℕ
    n = a.next_seqs.child_workflow

    command : Command
    command = Command.start_child_workflow_execution n

    b : Activator
    b = record a { next_seqs = record a.next_seqs { child_workflow = n + 1 } }
