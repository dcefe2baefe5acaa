-- ===== src/Streams/Paging.antt =====
-- What a poll returns: every wanted entry once, in order, page after page.
pub mod Filling
use sdk_typescript.Prelude.{
  ℕ, zero, suc, ◌+◌, ◌-◌, ◌<◌, ◌≤◌, String, ◌≡◌, refl, sym, ap, ◌∙◌, ◌⊎◌, inl, inr, Bool, true,
  false, ◌&&◌, not, List, [], ◌∷◌, ◌++◌, map, length, drop, nat_same, string_same, ltb, arith,
  append-nil, append_assoc, Bool-cases, head-eq_of_cons-eq, tail-eq_of_cons-eq,
}
use sdk_typescript.Activator.{Result, ok, throw}
use sdk_typescript.Streams.{
  Codec, InternalLogEntry, WorkflowStreamWireItem, PollInput, PollResult, WorkflowStream,
  candidates, wanted, wire, fill, is_empty, payload_wire_size, max_poll_response_bytes, end_offset,
  log_offset, resume_poll, poll_from, poll_ready, is_truncated,
}
use sdk_typescript.Streams.Paging.Filling.{
  candidates_at, drop-later, Resumes, Resumes-later, Resumes-here, candidates-drop, and_false,
  Filled, Filled-more, fill-Filled, Started, fill-Started, drop_past, drop-drop, candidates-end,
  candidates-next, log_offset-value,
}

module _ {P : Type 0} (codec : Codec P) where
  -- A response to a poll that reads from the global offset `base_offset + k` of the stream.
  abbrev pub Page : PollInput → WorkflowStream P → ℕ → PollResult → Type 0
  Page input s k r =
      (r
        ≡ fill codec 0 [] (end_offset s)
            (candidates input.topics (s.base_offset + k) (drop k s.log)))
      × (k ≡ input.from_offset - s.base_offset)
      × (log_offset input s ≡ ok k)

  pub Page-intro :
      (input : PollInput) (s : WorkflowStream P) (r : PollResult) (o : Result ℕ)
      → log_offset input s ≡ o
      → poll_from codec input s o ≡ ok r
      → (k : ℕ) × Page input s k r
  unfolding poll_from
  Page-intro input s r (throw e) h g = absurd cc
  Page-intro input s r (ok k) h g = (k, (cc, log_offset-value input s k h, h))

  poll_next :
      (input : PollInput) (s : WorkflowStream P) (r : PollResult) (k : ℕ)
      → Started codec (end_offset s) (candidates input.topics (s.base_offset + k) (drop k s.log)) r
      → (taken : List (ℕ × InternalLogEntry P)) × (r.items ≡ map (wire codec) taken)
        × (candidates input.topics (s.base_offset + k) (drop k s.log)
            ≡ taken ++ candidates_at input.topics r.next_offset s)
  unfolding Started
  poll_next input s r k (taken, i, inl (m, n, e)) =
      (taken, i, rw (n, candidates-end input.topics s) (e ∙ sym (append-nil taken)))
  poll_next input s r k (taken, i, inr (t, x, ts, rest, p, e, n)) = (
    t ∷ ts,
    i ∙ ap (map (wire codec)) p,
    rw (n, candidates-next input.topics k s x rest (t ∷ ts) e) e,
  )

  -- A poll that returns gives, in order and with their offsets, exactly the wanted entries from
  -- the offset asked for up to the next offset that it names; an offset below the base of the log,
  -- which is 0, means all entries that are left.
  pub poll_no_gaps :
      (input : PollInput) (s : WorkflowStream P) (r : PollResult)
      → resume_poll codec input s ≡ ok r
      → (taken : List (ℕ × InternalLogEntry P)) × (r.items ≡ map (wire codec) taken)
        × (candidates_at input.topics input.from_offset s
            ≡ taken ++ candidates_at input.topics r.next_offset s)
  unfolding resume_poll candidates_at
  poll_no_gaps input s r h =
      let (k, (p, q, l)) = Page-intro input s r (log_offset input s) refl h in
      rw (← q) (
        poll_next input s r k (
          rw p (
            fill-Started codec (end_offset s)
              (candidates input.topics (s.base_offset + k) (drop k s.log)))))

module _ {P : Type 0} where
  candidates-after :
      (topics : List String) (off : ℕ) (es : List (InternalLogEntry P))
      (t x : ℕ × InternalLogEntry P) (ts rest : List (ℕ × InternalLogEntry P))
      → candidates topics off es ≡ t ∷ ts ++ x ∷ rest
      → suc off ≤ x.0
  unfolding candidates
  candidates-after topics off [] t x ts rest h = absurd cc
  candidates-after topics off (e ∷ es) t x ts rest h = elim (Bool-cases (wanted topics e)) [
    | inl w ↦ (candidates-drop topics (suc off) es x rest ts (tail-eq_of_cons-eq (rw w at h))).0
    | inr w ↦
        let later = candidates-after topics (suc off) es t x ts rest (rw w at h) in
        omega (arith, later)
  ]

  waited :
      (input : PollInput) (s : WorkflowStream P) (k : ℕ)
      → poll_ready input s ≡ true
      → s.draining ≡ false
      → log_offset input s ≡ ok k
      → k < length s.log
  unfolding poll_ready log_offset is_truncated
  waited input s k ready d h = ground arith

module _ {P : Type 0} (codec : Codec P) where
  Started-advances :
      (input : PollInput) (s : WorkflowStream P) (k : ℕ) (r : PollResult)
      → k < length s.log
      → Started codec (end_offset s) (candidates input.topics (s.base_offset + k) (drop k s.log)) r
      → s.base_offset + k < r.next_offset
  unfolding Started end_offset
  Started-advances input s k r h (taken, i, inl (m, n, e)) = omega (arith, n, h)
  Started-advances input s k r h (taken, i, inr (t, x, ts, rest, p, e, n)) =
      omega
        (arith, n, candidates-after input.topics (s.base_offset + k) (drop k s.log) t x ts rest e)

  -- A poll that was woken while the stream is not draining, and that returns, names a next offset
  -- above the offset asked for and above the base of the log.
  pub poll_advances :
      (input : PollInput) (s : WorkflowStream P) (r : PollResult)
      → poll_ready input s ≡ true
      → s.draining ≡ false
      → resume_poll codec input s ≡ ok r
      → (input.from_offset < r.next_offset) × (s.base_offset < r.next_offset)
  unfolding resume_poll
  poll_advances input s r ready d h =
      let (k, (p, q, l)) = Page-intro codec input s r (log_offset input s) refl h in
      let a = Started-advances input s k r (waited input s k ready d l) (
        rw p (
          fill-Started codec (end_offset s)
            (candidates input.topics (s.base_offset + k) (drop k s.log)))) in
      (omega (arith, a, q), omega (arith, a))
