-- ===== src/Activator/Jobs/Consistent.antt =====
-- The invariant of the promises: what resolvers were called and which are still in the state.
use sdk_typescript.Prelude.{ℕ, ◌+◌, ◌≤◌, ◌≡◌, ◌⊎◌, arith, nat_same}
use sdk_typescript.Activator.{
  Activator, Kind, timer, activity, nexus_operation_start, nexus_operation_complete, key_same,
  child_workflow_start, child_workflow_complete, signal_workflow, cancel_workflow, Key,
}
use sdk_typescript.Activator.Completions.{at}
use sdk_typescript.Activator.Budget.{IsChained, Spends, budget, pending}

-- The counter that numbers the promises of a kind.
abbrev pub next_of : Kind → Activator → ℕ
next_of timer a = a.next_seqs.timer
next_of activity a = a.next_seqs.activity
next_of nexus_operation_start a = a.next_seqs.nexus_operation
next_of nexus_operation_complete a = a.next_seqs.nexus_operation
next_of child_workflow_start a = a.next_seqs.child_workflow
next_of child_workflow_complete a = a.next_seqs.child_workflow
next_of signal_workflow a = a.next_seqs.signal_workflow
next_of cancel_workflow a = a.next_seqs.cancel_workflow

-- What holds in every reachable state. The result of a Nexus operation has no resolvers while its
-- start is pending.
pub record IsConsistent (a : Activator) : Type 0 where
  pub once : (k : Key) → budget k a ≤ 1
  pub unused : (k : Key) → next_of k.kind a ≤ k.seq → budget k a ≡ 0
  pub chained : (k : Key) → IsChained k a.settled
  pub nexus :
      (n : ℕ)
      → budget (at nexus_operation_complete n) a + pending (at nexus_operation_start n) a ≤ 1

pub next_of-eq :
    (k : Kind) (a b : Activator) → b.next_seqs ≡ a.next_seqs → next_of k b ≡ next_of k a
next_of-eq k a b h = ground (arith, h)

pub IsConsistent-Spends : {a b : Activator} → Spends a b → IsConsistent a → IsConsistent b
IsConsistent-Spends {a} {b} s c = record {
  once = λ k. omega (arith, s.budgets k, c.once k);
  unused = λ k h. omega (arith, s.budgets k, c.unused k (rw (next_of-eq k.kind a b s.seqs) at h));
  chained = λ k. s.chains k (c.chained k);
  nexus = λ n. omega (
    arith,
    s.budgets (at nexus_operation_complete n),
    s.pendings (at nexus_operation_start n),
    c.nexus n,
  );
}

-- A step that takes the number `n` of a family of kinds and opens some of its promises.
pub record Opens (opened : Key → ℕ) (n : ℕ) (a b : Activator) : Type 0 where
  pub budgets : (k : Key) → budget k b ≤ budget k a + opened k
  pub pendings : (k : Key) → pending k b ≤ pending k a + opened k
  pub chains : (k : Key) → IsChained k a.settled → IsChained k b.settled
  pub small : (k : Key) → opened k ≤ 1
  pub not_complete : (m : ℕ) → opened (at nexus_operation_complete m) ≡ 0
  pub number :
      (k : Key) → opened k ≡ 0 ⊎ ((k.seq ≡ n) × (next_of k.kind a ≡ n) × (next_of k.kind b ≡ n + 1))
  pub seqs : (k : Kind) → next_of k a ≤ next_of k b

pub IsConsistent-Opens :
    (opened : Key → ℕ) (n : ℕ) {a b : Activator}
    → Opens opened n a b
    → IsConsistent a
    → IsConsistent b
unfolding budget
IsConsistent-Opens opened n o c = record {
  once = λ k. ground (arith, o.budgets k, o.small k, o.number k, c.once k, c.unused k);
  unused = λ k h.
      ground (arith, o.budgets k, o.small k, o.number k, c.once k, c.unused k, o.seqs k.kind);
  chained = λ k. o.chains k (c.chained k);
  nexus = λ m. ground (
    arith,
    o.budgets (at nexus_operation_complete m),
    o.pendings (at nexus_operation_start m),
    o.not_complete m,
    o.small (at nexus_operation_start m),
    o.number (at nexus_operation_start m),
    c.nexus m,
    c.unused (at nexus_operation_complete m),
    c.unused (at nexus_operation_start m),
    c.once (at nexus_operation_complete m),
    c.once (at nexus_operation_start m),
  );
}
