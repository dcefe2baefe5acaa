-- ===== src/Streams/Publishing.antt =====
-- What a publish signal does to the stream: a fresh one appends its entries and records its
-- sequence, a stale one does nothing.
use sdk_typescript.Prelude.{
  ℕ, ◌≤◌, ◌<◌, ◌≡◌, inl, inr, false, List, [], ◌∷◌, ◌++◌, append-nil, append_assoc, string_same,
  arith, ◌==◌, eq_iff,
}
use sdk_typescript.JsMap.{set, get-set}
use sdk_typescript.Activator.{Result, ok, throw}
use sdk_typescript.Streams.{
  Codec, InternalLogEntry, PublishEntry, PublishInput, WorkflowStream, publish_to_topic, push_items,
  on_publish, lookup,
}
use sdk_typescript.Streams.Log.{Result-cases}

module _ {P : Type 0} (codec : Codec P) where
  -- The log entries that a signal's items stand for.
  unfoldable pub decoded : List PublishEntry → Result (List (InternalLogEntry P))
  decoded [] = ok []
  decoded (e ∷ es) = elim (codec.decode e.wire_data) [
    | throw x ↦ throw x
    | ok payload ↦ elim (decoded es) [
      | throw x ↦ throw x
      | ok l ↦ ok (record { topic = e.topic; payload = payload } ∷ l)
    ]
  ]

  push_items-decoded :
      (es : List PublishEntry) (l : List (InternalLogEntry P)) (s : WorkflowStream P)
      → decoded es ≡ ok l
      → push_items codec es s ≡ (ok tt, record s { log = s.log ++ l })
  unfolding decoded push_items publish_to_topic
  push_items-decoded [] l s h = ground (arith, append-nil s.log)
  push_items-decoded (e ∷ es) l s h = elim (Result-cases (codec.decode e.wire_data)) [
    | inl (x, d) ↦ ground arith
    | inr (p, d) ↦ elim (Result-cases (decoded es)) [
      | inl (x, r) ↦ ground arith
      | inr (l', r) ↦
          let entry : InternalLogEntry P = record { topic = e.topic; payload = p } in
          ground (
            arith,
            push_items-decoded es l' (record s { log = s.log ++ entry ∷ [] }) r,
            append_assoc s.log (entry ∷ []) l',
          )
    ]
  ]

  pub on_publish-fresh :
      (now : ℕ) (input : PublishInput) (l : List (InternalLogEntry P)) (s : WorkflowStream P)
      → (input.publisher_id == "") ≡ false
      → lookup input.publisher_id s.publisher_sequences < input.sequence
      → decoded input.items ≡ ok l
      → ((on_publish codec now input s).1.log ≡ s.log ++ l)
        × (lookup input.publisher_id (on_publish codec now input s).1.publisher_sequences
            ≡ input.sequence)
  unfolding on_publish lookup
  on_publish-fresh now input l s named fresh d = ground (
    arith,
    push_items-decoded input.items l
        (record s {
          publisher_sequences = set input.publisher_id input.sequence s.publisher_sequences;
          publisher_last_seen = set input.publisher_id now s.publisher_last_seen;
        })
        d,
    get-set input.publisher_id input.publisher_id input.sequence s.publisher_sequences,
    eq_iff input.publisher_id input.publisher_id,
  )

  -- The sequence of a stale signal is not above the last one recorded.
  pub on_publish-stale :
      (now : ℕ) (input : PublishInput) (s : WorkflowStream P)
      → (input.publisher_id == "") ≡ false
      → input.sequence ≤ lookup input.publisher_id s.publisher_sequences
      → (on_publish codec now input s).1 ≡ s
  unfolding on_publish
  on_publish-stale now input s named stale = ground arith
