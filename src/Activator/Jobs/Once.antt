-- ===== src/Activator/Jobs/Once.antt =====
-- In any history of jobs the resolvers of a promise are called at most once.
use sdk_typescript.Prelude.{
  ℕ, ◌+◌, ◌≡◌, refl, Option, none, some, arith, inl, inr, Option-cases, String, ◌==◌, nat_same,
  if◌then◌else◌,
}
use sdk_typescript.JsMap.{get, set, delete, get-set, get-delete}
use sdk_typescript.Activator.{
  Activator, Kind, nexus_operation_start, nexus_operation_complete, key_same, key_beq_iff, Key,
  Completion, resolve_nexus_started,
}
use sdk_typescript.Activator.Completions.{
  Host, at, settle, get_seq, consume_completion, maybe_consume_completion,
}
use sdk_typescript.Activator.Nexus.{resolve_nexus_operation_start, settle_nexus_start}
use sdk_typescript.Activator.Budget.{
  budget, pending, settled_count, settled_count-settle, settle-IsChained,
}
use sdk_typescript.Activator.Jobs.Consistent.{
  next_of, next_of-eq, IsConsistent, IsConsistent-Spends, IsConsistent-Opens,
}
use sdk_typescript.Activator.Jobs.Opens.{
  Opens-timer, Opens-activity, Opens-signal, Opens-nexus, Opens-child,
}
use sdk_typescript.Activator.Jobs.{
  Job, perform, timer_scheduled, activity_scheduled, signal_sent, child_started, nexus_started,
  timer_cancelled, activity_cancelled, child_cancelled, signal_cancelled, nexus_cancelled,
  timer_fired, activity_resolved, child_resolved, child_start_resolved, signal_resolved,
  cancel_resolved, nexus_start_resolved, nexus_resolved,
}
use sdk_typescript.Activator.Jobs.Frugal

-- The state after the start of a Nexus operation was reported: the start's resolvers are called
-- and those of the result are in.
after_start : ℕ → Completion → Option String → Activator → Activator
after_start n c token a =
    (settle (at nexus_operation_start n) (resolve_nexus_started token) (record a {
      completions =
          set (at nexus_operation_complete n) c (delete (at nexus_operation_start n) a.completions);
    })).1

module _ (n : ℕ) (c : Completion) (token : Option String) (a : Activator) where
  pending-after_start :
      (k : Key)
      → pending k (after_start n c token a) ≡ (
          if at nexus_operation_complete n == k
          then 1
          else if at nexus_operation_start n == k
          then 0
          else pending k a)
  unfolding after_start pending settle
  pending-after_start k = rw (get-set, get-delete) (ground arith)

  settled_count-after_start :
      (k : Key)
      → settled_count k (after_start n c token a)
        ≡ settled_count k a + (if at nexus_operation_start n == k then 1 else 0)
  unfolding after_start settled_count
  settled_count-after_start k = rw settled_count-settle

  next_seqs-after_start : (k : Kind) → next_of k (after_start n c token a) ≡ next_of k a
  unfolding after_start settle
  next_seqs-after_start k = next_of-eq k a _ refl

  IsConsistent-after_start :
      pending (at nexus_operation_start n) a ≡ 1
      → IsConsistent a
      → IsConsistent (after_start n c token a)
  unfolding budget
  IsConsistent-after_start p v = record {
    once = λ k. ground (
      arith,
      pending-after_start k,
      settled_count-after_start k,
      p,
      v.once k,
      v.once (at nexus_operation_start n),
      v.nexus n,
      key_beq_iff (at nexus_operation_complete n) k,
      key_beq_iff (at nexus_operation_start n) k,
    );
    unused = λ k h. ground (
      arith,
      pending-after_start k,
      settled_count-after_start k,
      p,
      v.unused k,
      v.unused (at nexus_operation_start n),
      rw (next_seqs-after_start k.kind) at h,
      key_beq_iff (at nexus_operation_complete n) k,
      key_beq_iff (at nexus_operation_start n) k,
    );
    chained = λ k. unfold after_start in settle-IsChained k _ _ _ (v.chained k);
    nexus = λ m. ground (
      arith,
      pending-after_start (at nexus_operation_complete m),
      settled_count-after_start (at nexus_operation_complete m),
      pending-after_start (at nexus_operation_start m),
      p,
      v.nexus m,
      v.nexus n,
    );
  }

module _ (host : Host) where
  -- Reporting the start of a Nexus operation, or that it failed to start.
  nexus_start-IsConsistent :
      (seq : Option ℕ) (token failure : Option String) (a : Activator)
      → IsConsistent a
      → IsConsistent (resolve_nexus_operation_start host seq token failure a).1
  unfolding resolve_nexus_operation_start get_seq consume_completion maybe_consume_completion
  nexus_start-IsConsistent none token failure a v = v
  nexus_start-IsConsistent (some n) token (some f) a v =
      IsConsistent-Spends ((Frugal.Frugal-nexus_failed host n f).spends a) v
  nexus_start-IsConsistent (some n) token none a v =
      elim (Option-cases (get (at nexus_operation_start n) a.completions)) [
        | inl e ↦ rw e v
        | inr (c, e) ↦ rw e (
            unfold after_start settle_nexus_start in
            IsConsistent-after_start n c token a (unfold pending in rw e) v)
      ]

  -- Every job keeps the invariant, whether it returns or throws.
  pub perform-IsConsistent :
      (job : Job) (a : Activator) → IsConsistent a → IsConsistent (perform host job a).1
  unfolding perform
  perform-IsConsistent (timer_scheduled scope c) a v =
      IsConsistent-Opens _ _ (Opens-timer a scope c) v
  perform-IsConsistent (activity_scheduled scope c) a v =
      IsConsistent-Opens _ _ (Opens-activity a scope c) v
  perform-IsConsistent (signal_sent scope c) a v = IsConsistent-Opens _ _ (Opens-signal a scope c) v
  perform-IsConsistent (child_started scope c d) a v =
      IsConsistent-Opens _ _ (Opens-child a scope c d) v
  perform-IsConsistent (nexus_started scope service c) a v =
      IsConsistent-Opens _ _ (Opens-nexus a scope c service) v
  perform-IsConsistent (timer_cancelled n e) a v =
      IsConsistent-Spends ((Frugal.Frugal-cancel_timer_task n e).spends a) v
  perform-IsConsistent (activity_cancelled n) a v =
      IsConsistent-Spends ((Frugal.Frugal-cancel_activity n).spends a) v
  perform-IsConsistent (child_cancelled n) a v =
      IsConsistent-Spends ((Frugal.Frugal-cancel_child n).spends a) v
  perform-IsConsistent (signal_cancelled n) a v =
      IsConsistent-Spends ((Frugal.Frugal-cancel_signal n).spends a) v
  perform-IsConsistent (nexus_cancelled n) a v =
      IsConsistent-Spends ((Frugal.Frugal-cancel_nexus n).spends a) v
  perform-IsConsistent (timer_fired seq) a v =
      IsConsistent-Spends ((Frugal.Frugal-fire_timer seq).spends a) v
  perform-IsConsistent (activity_resolved seq r) a v =
      IsConsistent-Spends ((Frugal.Frugal-resolve_activity host seq r).spends a) v
  perform-IsConsistent (child_resolved seq r) a v =
      IsConsistent-Spends ((Frugal.Frugal-child host seq r).spends a) v
  perform-IsConsistent (child_start_resolved seq s) a v =
      IsConsistent-Spends ((Frugal.Frugal-child_start host seq s).spends a) v
  perform-IsConsistent (signal_resolved seq f) a v =
      IsConsistent-Spends ((Frugal.Frugal-signal host seq f).spends a) v
  perform-IsConsistent (cancel_resolved seq f) a v =
      IsConsistent-Spends ((Frugal.Frugal-cancel host seq f).spends a) v
  perform-IsConsistent (nexus_start_resolved seq t f) a v = nexus_start-IsConsistent seq t f a v
  perform-IsConsistent (nexus_resolved seq p f) a v =
      IsConsistent-Spends ((Frugal.Frugal-resolve_nexus_operation host seq p f).spends a) v
