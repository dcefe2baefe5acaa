-- ===== src/Tests/Client.antt =====
-- The stream client of contrib/workflow-streams on concrete inputs.
use sdk_typescript.Prelude.{
  ℕ, ◌≡◌, refl, String, true, false, none, some, List, [], ◌∷◌, ◌++◌, map, if◌then◌else◌, ◌==◌,
  string_same, arith,
}
use sdk_typescript.Errors.{JsError, type_error}
use sdk_typescript.Activator.{ok, throw}
use sdk_typescript.Streams.{Codec, InternalLogEntry, PublishInput, WorkflowStream, end_offset}
use sdk_typescript.Streams.Log.{stream_step, published_locally, detached}
use sdk_typescript.Streams.Paging.Filling.{candidates_at}
use sdk_typescript.StreamClient.{
  Buffered, Converter, WorkflowStreamClient, nothing_to_send, flush_timeout, encoding_failed,
  new_client, throw_pending_flusher_error, flush_target, flusher_round, payload_of, encode_buffer,
  do_flush,
}
use sdk_typescript.StreamClient.System.{
  System, Event, publishes, flushes, arrives, confirmed, call_failed, initial, system_run,
}
use sdk_typescript.StreamClient.Logged.{logged}
use sdk_typescript.StreamClient.ExactlyOnce.{drained_exactly_once, log_follows_published}
use sdk_typescript.StreamClient.Barrier.{flush_barrier}
use sdk_typescript.StreamClient.Sequences.{sequence_never_reused}
use sdk_typescript.StreamClient.Losses.{unconvertible_value_drops_buffer, flush_timeout_surfaces}
use sdk_typescript.StreamClient.Subscriber.{
  Described, polling, Moment, called, polls, wakes, Subscriber, subscriber, subscribe_step,
  subscribe_run,
}
use sdk_typescript.StreamClient.Subscriber.NoGaps.{item, subscriber_no_gaps}

abbrev codec : Codec String
codec = record { decode = λ s. ok s; encode = λ s. s; units = λ s. 5 }

-- Every text but "bad" is converted.
abbrev converter : Converter String String
converter = record {
  as_payload = λ v. none;
  to_payload = λ v. if v == "bad" then throw (type_error "no converter") else ok v;
}

abbrev begun : System String String
begun = initial "id" none 1000

-- The first signal arrives three times, and the call of the second fails before it is sent again.
abbrev before : List (Event String)
before =
    publishes "t" "x" false
    ∷ publishes "t" "y" true
    ∷ flushes 10
    ∷ publishes "t" "z" false
    ∷ arrives 0 11
    ∷ arrives 0 12
    ∷ []

abbrev after : List (Event String)
after =
    confirmed
    ∷ flushes 20
    ∷ call_failed
    ∷ flushes 30
    ∷ arrives 2 31
    ∷ arrives 0 32
    ∷ arrives 1 33
    ∷ confirmed
    ∷ []

abbrev events : List (Event String)
events = before ++ after

drained_exactly_once_example :
    logged codec converter (system_run codec converter events begun).published
    ≡ ok (system_run codec converter events begun).stream.log
unfolding system_run initial encode_buffer
drained_exactly_once_example =
    drained_exactly_once codec converter "id" none 1000 events refl (λ p. refl) refl refl refl

log_follows_published_example :
    (part rest : List (Buffered String)) × ((system_run codec converter before begun).published
      ≡ part ++ rest)
    × (logged codec converter part ≡ ok (system_run codec converter before begun).stream.log)
unfolding system_run initial encode_buffer
log_follows_published_example =
    log_follows_published codec converter "id" none 1000 before refl (λ p. refl) refl

flush_barrier_example :
    (rest : List (Buffered String)) × (logged codec converter
        ((system_run codec converter before begun).published ++ rest)
      ≡ ok (system_run codec converter after (system_run codec converter before begun)).stream.log)
unfolding system_run initial encode_buffer flush_target
flush_barrier_example =
    flush_barrier codec converter "id" none 1000 2 before after refl (λ p. refl) refl refl
      (omega arith)

abbrev first_signal : PublishInput
first_signal = record {
  items = record { topic = "t"; wire_data = "z" } ∷ [];
  publisher_id = "id";
  sequence = 2;
}

sequence_never_reused_example : first_signal.items ≡ first_signal.items
unfolding system_run initial encode_buffer
sequence_never_reused_example =
    sequence_never_reused codec converter "id" none 1000 events 1 2 first_signal first_signal refl
      refl refl

abbrev spoiled : WorkflowStreamClient String
spoiled = record (new_client "id" none 1000) {
  buffer = record { topic = "t"; value = "x" } ∷ record { topic = "t"; value = "bad" } ∷ [];
}

unconvertible_value_drops_buffer_example :
    ((e : JsError) × ((do_flush codec converter 10 spoiled).0 ≡ encoding_failed e))
    × (do_flush codec converter 20 (do_flush codec converter 10 spoiled).1
        ≡ (nothing_to_send, (do_flush codec converter 10 spoiled).1))
    × (flush_target (do_flush codec converter 10 spoiled).1 ≡ none)
    × ((flusher_round
          (do_flush codec converter 10 spoiled).0
          (do_flush codec converter 10 spoiled).1).1.flusher_error
        ≡ false)
unfolding new_client payload_of
unconvertible_value_drops_buffer_example =
    unconvertible_value_drops_buffer codec converter 10 20
      (record { topic = "t"; value = "x" } ∷ []) [] (record { topic = "t"; value = "bad" })
      (type_error "no converter") spoiled refl refl refl

abbrev late : WorkflowStreamClient String
late = record (new_client "id" none 1000) {
  pending = some (record { topic = "t"; wire_data = "x" } ∷ []);
  pending_seq = 3;
  pending_started_at = some 10;
  sequence = 2;
}

flush_timeout_surfaces_example :
    ((do_flush codec converter 2000 late).0 ≡ flush_timeout)
    × ((flusher_round
          (do_flush codec converter 2000 late).0
          (do_flush codec converter 2000 late).1).0
        ≡ false)
    × ((throw_pending_flusher_error
          (flusher_round
            (do_flush codec converter 2000 late).0
            (do_flush codec converter 2000 late).1).1).0
        ≡ true)
    × ((throw_pending_flusher_error
          (throw_pending_flusher_error
            (flusher_round
              (do_flush codec converter 2000 late).0
              (do_flush codec converter 2000 late).1).1).1).0
        ≡ false)
    × ((do_flush codec converter 2000 late).1.sequence ≡ 3)
    × ((do_flush codec converter 2000 late).1.buffer ≡ [])
unfolding new_client
flush_timeout_surfaces_example =
    flush_timeout_surfaces codec converter 2000 10 (record { topic = "t"; wire_data = "x" } ∷ [])
      late refl refl (omega arith)

abbrev stream : WorkflowStream String
stream = record {
  log = record { topic = "t"; payload = "x" } ∷ record { topic = "u"; payload = "y" } ∷ [];
  base_offset = 4;
  publisher_sequences = [];
  publisher_last_seen = [];
  draining = false;
}

-- The second poll is parked until the workflow publishes; the last one is refused.
abbrev moments : List (Moment String)
moments = polls ∷ polls ∷ called (published_locally "t" "z") ∷ wakes ∷ called detached ∷ polls ∷ []

abbrev described : Described
described = record { has_client = true; status = none }

abbrev watched : WorkflowStream String × Subscriber String
watched = subscribe_run codec described moments (stream, subscriber ("t" ∷ []) 2)

subscriber_no_gaps_example :
    (taken : List (ℕ × InternalLogEntry String)) × (watched.1.yielded ≡ map item taken)
    × (candidates_at ("t" ∷ []) 2 watched.0
        ≡ taken ++ candidates_at ("t" ∷ []) watched.1.offset watched.0)
    × (watched.1.loop_state ≡ polling)
unfolding subscribe_run subscribe_step stream_step
subscriber_no_gaps_example =
    subscriber_no_gaps codec (λ p. refl) described ("t" ∷ []) 2 moments stream
      (unfold end_offset in omega arith) refl
