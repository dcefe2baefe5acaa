-- ===== src/Streams/Snapshot.antt =====
-- The snapshot that a run hands to the run that follows it.
use sdk_typescript.Prelude.{
  ℕ, String, ◌≡◌, refl, Bool, false, none, some, List, [], ◌∷◌, if◌then◌else◌, string_same, arith,
  eq_iff, map,
}
use sdk_typescript.JsMap.{JsMap, get}
use sdk_typescript.Activator.{ok}
use sdk_typescript.Streams.{
  Codec, InternalLogEntry, WorkflowStream, lookup, active, is_fresh, get_state, construct,
  decode_log, snapshot_entry,
}

active-get :
    (fresh : String → Bool) (m seen : JsMap String ℕ) (id : String)
    → get id (active fresh m seen).0 ≡ (if fresh id then get id m else none)
unfolding active get
active-get fresh [] seen id = ground arith
active-get fresh ((j, n) ∷ m) seen id = ground (arith, eq_iff j id, active-get fresh m seen id)

module _ {P : Type 0} (codec : Codec P) where
  -- What is encoded is decoded to itself.
  abbrev pub IsFaithful : Type 0
  IsFaithful = (p : P) → codec.decode (codec.encode p) ≡ ok p

  decode_log-snapshot :
      IsFaithful
      → (log : List (InternalLogEntry P))
      → decode_log codec (map (snapshot_entry codec) log) ≡ ok log
  unfolding decode_log snapshot_entry
  decode_log-snapshot faithful [] = refl
  decode_log-snapshot faithful (e ∷ es) =
      rw (faithful e.payload, decode_log-snapshot faithful es) refl

  -- With a faithful codec, a stream restored from a snapshot has the same log at the same base, is
  -- not draining, and knows the last sequence of exactly the publishers that were seen within the
  -- time to live.
  pub snapshot_round_trip :
      (now ttl : ℕ) (s : WorkflowStream P)
      → IsFaithful
      → (t : WorkflowStream P) × (construct codec (some (get_state codec now ttl s)) ≡ ok t)
        × (t.log ≡ s.log)
        × (t.base_offset ≡ s.base_offset)
        × (t.draining ≡ false)
        × ((id : String)
            → lookup id t.publisher_sequences ≡ (
                if is_fresh now ttl s.publisher_last_seen id
                then lookup id s.publisher_sequences
                else 0))
  unfolding construct get_state lookup
  snapshot_round_trip now ttl s faithful = (
    record {
      log = s.log;
      base_offset = s.base_offset;
      publisher_sequences =
          (active (is_fresh now ttl s.publisher_last_seen) s.publisher_sequences
            s.publisher_last_seen).0;
      publisher_last_seen =
          (active (is_fresh now ttl s.publisher_last_seen) s.publisher_sequences
            s.publisher_last_seen).1;
      draining = false;
    },
    rw (construct, decode_log-snapshot faithful s.log) refl,
    refl,
    refl,
    refl,
    λ id. ground (
      arith,
      active-get (is_fresh now ttl s.publisher_last_seen) s.publisher_sequences
          s.publisher_last_seen id,
    ),
  )
