-- ===== src/Streams/Log.antt =====
-- The log is append-only: what an offset names never changes until it is truncated away.
use sdk_typescript.Prelude.{
  ℕ, zero, suc, ◌+◌, ◌-◌, ◌≤◌, String, ◌≡◌, refl, ◌⊎◌, inl, inr, Option, none, some, List, [], ◌∷◌,
  ◌++◌, drop, if◌then◌else◌, nat_same, string_same, ltb, leb, arith, Bool-cases, length-drop,
  length-append, ◌==◌,
}
use sdk_typescript.JsMap.{JsMap}
use sdk_typescript.Errors.{JsError}
use sdk_typescript.Activator.{Result, ok, throw}
use sdk_typescript.Streams.{
  Codec, InternalLogEntry, PublishEntry, PublishInput, WorkflowStream, publish_to_topic,
  detach_pollers, truncate, push_items, on_publish, end_offset, lookup,
}

-- The calls that change a stream: a publish signal at a time, a publish of the workflow's own, a
-- truncation, and the start of draining.
pub data StreamCall (P : Type 0) : Type 0 where
  published : ℕ → PublishInput → StreamCall P
  published_locally : String → P → StreamCall P
  truncated : ℕ → StreamCall P
  detached : StreamCall P

module _ {P : Type 0} (codec : Codec P) where
  unfoldable pub stream_step : StreamCall P → WorkflowStream P → WorkflowStream P
  unfolding on_publish publish_to_topic truncate detach_pollers
  stream_step (published now input) s = (on_publish codec now input s).1
  stream_step (published_locally topic payload) s = publish_to_topic topic payload s
  stream_step (truncated n) s = (truncate n s).1
  stream_step detached s = detach_pollers s

  unfoldable pub stream_run : List (StreamCall P) → WorkflowStream P → WorkflowStream P
  stream_run [] s = s
  stream_run (c ∷ cs) s = stream_run cs (stream_step c s)

module _ {A : Type 0} where
  abbrev pub nth : List A → ℕ → Option A
  nth [] n = none
  nth (x ∷ xs) zero = some x
  nth (x ∷ xs) (suc n) = nth xs n

  nth-append : (xs ys : List A) (n : ℕ) (a : A) → nth xs n ≡ some a → nth (xs ++ ys) n ≡ some a
  nth-append [] ys n a h = absurd cc
  nth-append (x ∷ xs) ys zero a h = h
  nth-append (x ∷ xs) ys (suc n) a h = nth-append xs ys n a h

  nth-drop : (k : ℕ) (xs : List A) (n : ℕ) → nth (drop k xs) n ≡ nth xs (k + n)
  nth-drop zero xs n = let e : 0 + n ≡ n = omega arith in rw e refl
  nth-drop (suc k) [] n = refl
  nth-drop (suc k) (x ∷ xs) n =
      let e : suc k + n ≡ suc (k + n) = omega arith in rw e (nth-drop k xs n)

pub Result-cases {ℓ} :
    {A : Type ℓ} (r : Result A) → ((e : JsError) × (r ≡ throw e)) ⊎ ((x : A) × (r ≡ ok x))
Result-cases (throw e) = inl (e, refl)
Result-cases (ok x) = inr (x, refl)

truncated_index : (o n b : ℕ) → b ≤ n → n ≤ o → (n - b) + (o - n) ≡ o - b
truncated_index o n b p q = omega arith

module _ {P : Type 0} where
  -- The entry at a global offset, while the log still holds it.
  unfoldable pub entry_at : ℕ → WorkflowStream P → Option (InternalLogEntry P)
  entry_at o s = if ltb o s.base_offset then none else nth s.log (o - s.base_offset)

  -- Entries are only added at the end, and only dropped from the front.
  pub record Extends (s t : WorkflowStream P) : Type 0 where
    pub kept :
        (o : ℕ) (e : InternalLogEntry P)
        → entry_at o s ≡ some e
        → t.base_offset ≤ o
        → entry_at o t ≡ some e
    pub base_le : s.base_offset ≤ t.base_offset
    pub end_le : end_offset s ≤ end_offset t

  Extends-refl : (s : WorkflowStream P) → Extends s s
  Extends-refl s = record { kept = λ o e h b. h; base_le = omega arith; end_le = omega arith }

  Extends-trans : {s t u : WorkflowStream P} → Extends s t → Extends t u → Extends s u
  Extends-trans p q = record {
    kept = λ o e h b. q.kept o e (p.kept o e h (omega (arith, q.base_le, b))) b;
    base_le = omega (arith, p.base_le, q.base_le);
    end_le = omega (arith, p.end_le, q.end_le);
  }

  Extends-append :
      (x : InternalLogEntry P) (s : WorkflowStream P)
      → Extends s (record s { log = s.log ++ x ∷ [] })
  unfolding entry_at end_offset
  Extends-append x s = record {
    kept = λ o e h b. ground (arith, nth-append s.log (x ∷ []) (o - s.base_offset) e);
    base_le = omega arith;
    end_le = omega (arith, length-append s.log (x ∷ []));
  }

  Extends-truncate : (n : ℕ) (s : WorkflowStream P) → Extends s (truncate n s).1
  unfolding entry_at end_offset truncate
  Extends-truncate n s = record {
    kept = λ o e h b.
        ground
          (arith, nth-drop (n - s.base_offset) s.log (o - n), truncated_index o n s.base_offset);
    base_le = ground arith;
    end_le = ground (arith, length-drop (n - s.base_offset) s.log);
  }

module _ {P : Type 0} (codec : Codec P) where
  Extends-push_items :
      (es : List PublishEntry) (s : WorkflowStream P) → Extends s (push_items codec es s).1
  unfolding push_items publish_to_topic
  Extends-push_items [] s = Extends-refl s
  Extends-push_items (e ∷ es) s = elim (Result-cases (codec.decode e.wire_data)) [
    | inl (x, h) ↦ rw (push_items, h) (Extends-refl s)
    | inr (p, h) ↦
        rw (push_items, h)
          (Extends-trans (Extends-append (record { topic = e.topic; payload = p }) s) (
            Extends-push_items es
              (record s { log = s.log ++ record { topic = e.topic; payload = p } ∷ [] })))
  ]

  -- The publishers' records are not read by the log.
  Extends-recorded :
      (m l : JsMap String ℕ) (s t : WorkflowStream P)
      → Extends (record s { publisher_sequences = m; publisher_last_seen = l }) t
      → Extends s t
  unfolding entry_at end_offset
  Extends-recorded m l s t x = record { kept = x.kept; base_le = x.base_le; end_le = x.end_le }

  Extends-on_publish :
      (now : ℕ) (input : PublishInput) (s : WorkflowStream P)
      → Extends s (on_publish codec now input s).1
  unfolding on_publish
  Extends-on_publish now input s = elim (Bool-cases (input.publisher_id == "")) [
    | inl h ↦ rw h (Extends-push_items input.items s)
    | inr h ↦
        elim (Bool-cases (leb input.sequence (lookup input.publisher_id s.publisher_sequences))) [
          | inl g ↦ rw (h, g) (Extends-refl s)
          | inr g ↦ rw (h, g) (Extends-recorded _ _ s _ (Extends-push_items input.items _))
        ]
  ]

  Extends-step : (c : StreamCall P) (s : WorkflowStream P) → Extends s (stream_step codec c s)
  unfolding stream_step detach_pollers publish_to_topic
  Extends-step (published now input) s = Extends-on_publish now input s
  Extends-step (published_locally topic p) s =
      Extends-append (record { topic = topic; payload = p }) s
  Extends-step (truncated n) s = Extends-truncate n s
  Extends-step detached s =
      unfold entry_at end_offset in
      (record { kept = λ o e h b. h; base_le = omega arith; end_le = omega arith })

  Extends-run :
      (cs : List (StreamCall P)) (s : WorkflowStream P) → Extends s (stream_run codec cs s)
  unfolding stream_run
  Extends-run [] s = Extends-refl s
  Extends-run (c ∷ cs) s = Extends-trans (Extends-step c s) (Extends-run cs (stream_step codec c s))

  -- Whatever is published, truncated or drained, the base and the end of the log only grow, and an
  -- offset that is not truncated away names the same entry.
  pub log_append_only :
      (cs : List (StreamCall P)) (s : WorkflowStream P)
      → let t = stream_run codec cs s in
        ((o : ℕ) (e : InternalLogEntry P)
          → entry_at o s ≡ some e
          → t.base_offset ≤ o
          → entry_at o t ≡ some e)
        × (s.base_offset ≤ t.base_offset)
        × (end_offset s ≤ end_offset t)
  log_append_only cs s = let x = Extends-run cs s in (x.kept, x.base_le, x.end_le)
