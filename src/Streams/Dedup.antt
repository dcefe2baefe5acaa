-- ===== src/Streams/Dedup.antt =====
-- A publisher's batch is appended at most once.
use sdk_typescript.Prelude.{
  ℕ, ◌≤◌, String, ◌≡◌, refl, inl, inr, false, List, [], ◌∷◌, ◌++◌, string_same, arith, ◌==◌, eq_iff,
}
use sdk_typescript.JsMap.{set, get-set}
use sdk_typescript.Activator.{ok}
use sdk_typescript.Streams.{
  Codec, PublishEntry, PublishInput, WorkflowStream, publish_to_topic, detach_pollers, truncate,
  push_items, on_publish, lookup,
}
use sdk_typescript.Streams.Log.{
  StreamCall, published, published_locally, truncated, detached, stream_step, stream_run,
  Result-cases,
}

module _ {P : Type 0} (codec : Codec P) where
  push_items-sequences :
      (es : List PublishEntry) (s : WorkflowStream P)
      → (push_items codec es s).1.publisher_sequences ≡ s.publisher_sequences
  unfolding push_items publish_to_topic
  push_items-sequences [] s = refl
  push_items-sequences (e ∷ es) s = elim (Result-cases (codec.decode e.wire_data)) [
    | inl (x, h) ↦ rw (push_items, h) refl
    | inr (p, h) ↦
        rw (push_items, h)
          (push_items-sequences es
            (record s { log = s.log ++ record { topic = e.topic; payload = p } ∷ [] }))
  ]

  on_publish-lookup :
      (now : ℕ) (input : PublishInput) (id : String) (s : WorkflowStream P)
      → lookup id s.publisher_sequences
        ≤ lookup id (on_publish codec now input s).1.publisher_sequences
  unfolding on_publish lookup
  on_publish-lookup now input id s = ground (
    arith,
    push_items-sequences input.items s,
    push_items-sequences input.items (record s {
      publisher_sequences = set input.publisher_id input.sequence s.publisher_sequences;
      publisher_last_seen = set input.publisher_id now s.publisher_last_seen;
    }),
    eq_iff input.publisher_id id,
    get-set input.publisher_id id input.sequence s.publisher_sequences,
  )

  on_publish-recorded :
      (now : ℕ) (input : PublishInput) (s : WorkflowStream P)
      → (input.publisher_id == "") ≡ false
      → input.sequence
        ≤ lookup input.publisher_id (on_publish codec now input s).1.publisher_sequences
  unfolding on_publish lookup
  on_publish-recorded now input s h = ground (
    arith,
    push_items-sequences input.items (record s {
      publisher_sequences = set input.publisher_id input.sequence s.publisher_sequences;
      publisher_last_seen = set input.publisher_id now s.publisher_last_seen;
    }),
    get-set input.publisher_id input.publisher_id input.sequence s.publisher_sequences,
    eq_iff input.publisher_id input.publisher_id,
  )

  lookup-step :
      (c : StreamCall P) (id : String) (s : WorkflowStream P)
      → lookup id s.publisher_sequences ≤ lookup id (stream_step codec c s).publisher_sequences
  unfolding stream_step publish_to_topic truncate detach_pollers
  lookup-step (published now input) id s = on_publish-lookup now input id s
  lookup-step (published_locally topic p) id s = omega arith
  lookup-step (truncated n) id s = ground arith
  lookup-step detached id s = omega arith

  lookup-run :
      (cs : List (StreamCall P)) (id : String) (s : WorkflowStream P)
      → lookup id s.publisher_sequences ≤ lookup id (stream_run codec cs s).publisher_sequences
  unfolding stream_run
  lookup-run [] id s = omega arith
  lookup-run (c ∷ cs) id s =
      omega (arith, lookup-step c id s, lookup-run cs id (stream_step codec c s))

  duplicate_ignored :
      (now : ℕ) (input : PublishInput) (s : WorkflowStream P)
      → (input.publisher_id == "") ≡ false
      → input.sequence ≤ lookup input.publisher_id s.publisher_sequences
      → on_publish codec now input s ≡ (ok tt, s)
  unfolding on_publish
  duplicate_ignored now input s named h = ground arith

  -- Once a message of a publisher with an id was handled, messages of the same publisher with the
  -- same or a lower sequence change nothing, whatever was published, truncated or drained in
  -- between.
  pub published_at_most_once :
      (now later : ℕ) (first again : PublishInput) (cs : List (StreamCall P)) (s : WorkflowStream P)
      → (first.publisher_id == "") ≡ false
      → again.publisher_id ≡ first.publisher_id
      → again.sequence ≤ first.sequence
      → let t = stream_run codec cs (on_publish codec now first s).1 in
        on_publish codec later again t ≡ (ok tt, t)
  published_at_most_once now later first again cs s named same h =
      duplicate_ignored later again t (rw same named) (
        rw same (
          omega (
            arith,
            h,
            on_publish-recorded now first s named,
            lookup-run cs first.publisher_id (on_publish codec now first s).1,
          )))
    where
      t : WorkflowStream P
      t = stream_run codec cs (on_publish codec now first s).1
