-- ===== src/Streams/Growth.antt =====
-- How the candidates of a poll grow while the stream changes without being truncated.
use sdk_typescript.Prelude.{
  ℕ, zero, suc, ◌+◌, ◌-◌, ◌<◌, ◌≤◌, String, ◌≡◌, refl, sym, ap, ◌∙◌, inl, inr, List, [], ◌∷◌, ◌++◌,
  length, drop, nat_same, string_same, ltb, leb, arith, ◌==◌, append-nil, append_assoc, Bool-cases,
  length-append, length-drop,
}
use sdk_typescript.JsMap.{JsMap}
use sdk_typescript.Activator.{ok}
use sdk_typescript.Streams.{
  Codec, InternalLogEntry, PublishEntry, PublishInput, PollInput, PollResult, WorkflowStream,
  candidates, wanted, end_offset, publish_to_topic, push_items, on_publish, truncate,
  detach_pollers, resume_poll, log_offset, lookup,
}
use sdk_typescript.Streams.Log.{
  StreamCall, published, published_locally, truncated, detached, stream_step, Result-cases,
}
use sdk_typescript.Streams.Paging.{Page-intro}
use sdk_typescript.Streams.Paging.Filling.{candidates_at, candidates-drop, Started, fill-Started}

module _ {P : Type 0} where
  candidates-append :
      (topics : List String) (off : ℕ) (es fs : List (InternalLogEntry P))
      → candidates topics off (es ++ fs)
        ≡ candidates topics off es ++ candidates topics (off + length es) fs
  unfolding candidates
  candidates-append topics off [] fs = let e : off + 0 ≡ off = omega arith in rw e refl
  candidates-append topics off (e ∷ es) fs =
      let k : off + suc (length es) ≡ suc off + length es = omega arith in
      elim (Bool-cases (wanted topics e)) [
        | inl w ↦ rw (w, k) (ap (λ cs. (off, e) ∷ cs) (candidates-append topics (suc off) es fs))
        | inr w ↦ rw (w, k) (candidates-append topics (suc off) es fs)
      ]

  drop-append_le :
      (n : ℕ) (es fs : List (InternalLogEntry P))
      → n ≤ length es
      → drop n (es ++ fs) ≡ drop n es ++ fs
  drop-append_le zero es fs h = refl
  drop-append_le (suc n) [] fs h = absurd (omega arith)
  drop-append_le (suc n) (e ∷ es) fs h = drop-append_le n es fs (omega arith)

  -- Entries are added at the end, and nothing else.
  pub record Grows (s t : WorkflowStream P) : Type 0 where
    pub base : t.base_offset ≡ s.base_offset
    pub more : List (InternalLogEntry P)
    pub added : t.log ≡ s.log ++ more

  pub Grows-refl : (s : WorkflowStream P) → Grows s s
  Grows-refl s = record { base = refl; more = []; added = sym (append-nil s.log) }

  Grows-trans : {s t u : WorkflowStream P} → Grows s t → Grows t u → Grows s u
  Grows-trans {s} g h = record {
    base = h.base ∙ g.base;
    more = g.more ++ h.more;
    added = h.added ∙ ap (λ x. x ++ h.more) g.added ∙ append_assoc s.log g.more h.more;
  }

  pub Grows-end : (s t : WorkflowStream P) → Grows s t → end_offset s ≤ end_offset t
  unfolding end_offset
  Grows-end s t g = omega (arith, g.base, ap length g.added, length-append s.log g.more)

  pub candidates_at-Grows :
      (topics : List String) (s t : WorkflowStream P)
      → Grows s t
      → (rest : List (ℕ × InternalLogEntry P)) × ((o : ℕ)
          → o ≤ end_offset s
          → candidates_at topics o t ≡ candidates_at topics o s ++ rest)
  unfolding candidates_at end_offset
  candidates_at-Grows topics s t g = (
    candidates topics (s.base_offset + length s.log) g.more,
    λ o h.
        let k : ℕ = o - s.base_offset in
        let at_end : (s.base_offset + k) + length (drop k s.log) ≡ s.base_offset + length s.log =
          omega (arith, length-drop k s.log, h) in
        ap (λ b. candidates topics (b + (o - b)) (drop (o - b) t.log)) g.base
        ∙ ap (λ x. candidates topics (s.base_offset + k) (drop k x)) g.added
        ∙ ap (candidates topics (s.base_offset + k))
            (drop-append_le k s.log g.more (omega (arith, h)))
        ∙ candidates-append topics (s.base_offset + k) (drop k s.log) g.more
        ∙ ap
            (λ (i : ℕ).
              candidates topics (s.base_offset + k) (drop k s.log) ++ candidates topics i g.more)
            at_end,
  )

  candidates-nonempty :
      (topics : List String) (o n : ℕ) (es : List (InternalLogEntry P)) (x : ℕ × InternalLogEntry P)
      (rest : List (ℕ × InternalLogEntry P))
      → candidates topics o (drop n es) ≡ x ∷ rest
      → n < length es
  unfolding candidates
  candidates-nonempty topics o zero [] x rest h = absurd cc
  candidates-nonempty topics o zero (e ∷ es) x rest h = omega arith
  candidates-nonempty topics o (suc n) [] x rest h = absurd cc
  candidates-nonempty topics o (suc n) (e ∷ es) x rest h =
      omega (arith, candidates-nonempty topics o n es x rest h)

module _ {P : Type 0} (codec : Codec P) where
  Grows-push_items :
      (es : List PublishEntry) (s : WorkflowStream P) → Grows s (push_items codec es s).1
  unfolding push_items publish_to_topic
  Grows-push_items [] s = Grows-refl s
  Grows-push_items (e ∷ es) s = elim (Result-cases (codec.decode e.wire_data)) [
    | inl (x, h) ↦ rw (push_items, h) (Grows-refl s)
    | inr (p, h) ↦
        let entry : InternalLogEntry P = record { topic = e.topic; payload = p } in
        let t : WorkflowStream P = record s { log = s.log ++ entry ∷ [] } in
        rw (push_items, h)
          (Grows-trans (record { base = refl; more = entry ∷ []; added = refl })
            (Grows-push_items es t))
  ]

  Grows-recorded :
      (m l : JsMap String ℕ) (s t : WorkflowStream P)
      → Grows (record s { publisher_sequences = m; publisher_last_seen = l }) t
      → Grows s t
  Grows-recorded m l s t g = record { base = g.base; more = g.more; added = g.added }

  Grows-on_publish :
      (now : ℕ) (input : PublishInput) (s : WorkflowStream P)
      → Grows s (on_publish codec now input s).1
  unfolding on_publish
  Grows-on_publish now input s = elim (Bool-cases (input.publisher_id == "")) [
    | inl h ↦ rw h (Grows-push_items input.items s)
    | inr h ↦
        elim (Bool-cases (leb input.sequence (lookup input.publisher_id s.publisher_sequences))) [
          | inl g ↦ rw (h, g) (Grows-refl s)
          | inr g ↦ rw (h, g) (Grows-recorded _ _ s _ (Grows-push_items input.items _))
        ]
  ]

  Grows-truncate :
      (n : ℕ) (s : WorkflowStream P)
      → (truncate n s).1.base_offset ≡ s.base_offset
      → Grows s (truncate n s).1
  unfolding truncate
  Grows-truncate n s h = elim (Bool-cases (leb n s.base_offset)) [
    | inl a ↦ rw a (Grows-refl s)
    | inr a ↦ elim (Bool-cases (ltb (length s.log) (n - s.base_offset))) [
      | inl b ↦ rw (a, b) (Grows-refl s)
      | inr b ↦ absurd (ground arith)
    ]
  ]

  -- A call that leaves the base where it was only adds entries.
  pub stream_step-Grows :
      (c : StreamCall P) (s : WorkflowStream P)
      → (stream_step codec c s).base_offset ≡ s.base_offset
      → Grows s (stream_step codec c s)
  unfolding stream_step publish_to_topic detach_pollers
  stream_step-Grows (published now input) s h = Grows-on_publish now input s
  stream_step-Grows (published_locally topic p) s h = record { base = refl; more = _; added = refl }
  stream_step-Grows (truncated n) s h = Grows-truncate n s h
  stream_step-Grows detached s h = record { base = refl; more = []; added = sym (append-nil s.log) }

  Started-bounded :
      (topics : List String) (s : WorkflowStream P) (k : ℕ) (r : PollResult)
      → Started codec (end_offset s) (candidates topics (s.base_offset + k) (drop k s.log)) r
      → r.next_offset ≤ end_offset s
  unfolding Started end_offset
  Started-bounded topics s k r (taken, i, inl (m, n, e)) = omega (arith, n)
  Started-bounded topics s k r (taken, i, inr (t, x, ts, rest, p, e, n)) =
      let later = candidates-drop topics (s.base_offset + k) (drop k s.log) x rest (t ∷ ts) e in
      omega (
        arith,
        n,
        later.0,
        candidates-nonempty topics x.0 (x.0 - (s.base_offset + k)) (drop k s.log) x rest later.1,
        length-drop k s.log,
      )

  pub resume_poll-bounded :
      (input : PollInput) (s : WorkflowStream P) (r : PollResult)
      → resume_poll codec input s ≡ ok r
      → r.next_offset ≤ end_offset s
  unfolding resume_poll
  resume_poll-bounded input s r h =
      let (k, (p, q, l)) = Page-intro codec input s r (log_offset input s) refl h in
      Started-bounded input.topics s k r (
        rw p (
          fill-Started codec (end_offset s)
            (candidates input.topics (s.base_offset + k) (drop k s.log))))
