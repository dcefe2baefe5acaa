-- ===== src/StreamClient.antt =====
-- contrib/workflow-streams/src/client.ts, class WorkflowStreamClient: the producer's buffer, the
-- batch that waits for its confirmation, the flusher, and the subscriber's loop. A method that
-- waits is cut at its `await`: one function up to it, one for each way to go on. Times are in
-- milliseconds.
pub mod System
pub mod Logged
pub mod Invariant
pub mod ExactlyOnce
pub mod Barrier
pub mod Losses
pub mod Sequences
pub mod Subscriber
use sdk_typescript.Prelude.{
  ℕ, zero, suc, ◌+◌, ◌-◌, String, Bool, true, false, not, ◌&&◌, ◌||◌, Option, none, some, List, [],
  ◌∷◌, ◌++◌, length, if◌then◌else◌, ltb, leb,
}
use sdk_typescript.Errors.{JsError}
use sdk_typescript.Activator.{Result, ok, throw}
use sdk_typescript.Streams.{Codec, PublishEntry, PublishInput}

-- An element of the producer's buffer.
pub record Buffered (V : Type 0) : Type 0 where
  pub topic : String
  pub value : V

-- isPayload, with the payload that the value is, and `payloadConverter.toPayload`.
pub record Converter (V P : Type 0) : Type 0 where
  pub as_payload : V → Option P
  pub to_payload : V → Result P

-- `flusher_error` holds a FlushTimeoutError or nothing; `flush_event` tells whether the event of
-- that name is set.
pub record WorkflowStreamClient (V : Type 0) : Type 0 where
  pub buffer : List (Buffered V)
  pub pending : Option (List PublishEntry)
  pub pending_seq : ℕ
  pub pending_started_at : Option ℕ
  pub publisher_id : String
  pub sequence : ℕ
  pub max_batch_size : Option ℕ
  pub max_retry_duration : ℕ
  pub flush_event : Bool
  pub flusher_task : Bool
  pub flusher_stopped : Bool
  pub flusher_error : Bool

-- What _doFlush does up to its `await`: it returns, throws, or sends a signal.
pub data FlushStart : Type 0 where
  nothing_to_send flush_timeout : FlushStart
  encoding_failed : JsError → FlushStart
  sending : PublishInput → FlushStart

pub is_full : Option ℕ → ℕ → Bool
is_full none n = false
is_full (some most) n = leb most n

pub is_expired : ℕ → ℕ → Option ℕ → Bool
is_expired now most none = false
is_expired now most (some started) = ltb most (now - started)

module _ {V : Type 0} where
  -- The fields of a new client.
  unfoldable pub new_client : String → Option ℕ → ℕ → WorkflowStreamClient V
  new_client id most retry = record {
    buffer = [];
    pending = none;
    pending_seq = 0;
    pending_started_at = none;
    publisher_id = id;
    sequence = 0;
    max_batch_size = most;
    max_retry_duration = retry;
    flush_event = false;
    flusher_task = false;
    flusher_stopped = false;
    flusher_error = false;
  }

  -- publishToTopic
  unfoldable pub publish_value : String → V → Bool → WorkflowStreamClient V → WorkflowStreamClient V
  unfolding is_full
  publish_value topic value force_flush c =
      let buffer = c.buffer ++ record { topic = topic; value = value } ∷ [] in
      record c {
        buffer = buffer;
        flusher_task = c.flusher_task || not c.flusher_stopped;
        flush_event = c.flush_event || force_flush || is_full c.max_batch_size (length buffer);
      }

  -- The end of _doFlush, after a signal with the sequence `seq` was confirmed. After a signal that
  -- failed it does nothing.
  unfoldable pub flush_confirmed : ℕ → WorkflowStreamClient V → WorkflowStreamClient V
  flush_confirmed seq c = record c {
    sequence = seq;
    pending = none;
    pending_seq = 0;
    pending_started_at = none;
  }

  -- throwPendingFlusherError: whether it throws.
  unfoldable pub throw_pending_flusher_error :
      WorkflowStreamClient V → Bool × WorkflowStreamClient V
  throw_pending_flusher_error c =
      if c.flusher_error then (true, record c { flusher_error = false }) else (false, c)

  base_seq : WorkflowStreamClient V → Option (List PublishEntry) → ℕ
  base_seq c none = c.sequence
  base_seq c (some batch) = c.pending_seq

  -- The sequence that flush() waits for, from what it finds at its entry; none if it returns.
  flush_target_of :
      WorkflowStreamClient V → Option (List PublishEntry) → List (Buffered V) → Option ℕ
  unfolding base_seq
  flush_target_of c none [] = none
  flush_target_of c (some batch) [] = some (base_seq c (some batch))
  flush_target_of c p (x ∷ xs) = some (base_seq c p + 1)

  unfoldable pub flush_target : WorkflowStreamClient V → Option ℕ
  unfolding flush_target_of
  flush_target c = flush_target_of c c.pending c.buffer

  -- runFlusher after its wait: whether it goes on to flushOnce.
  unfoldable pub flusher_woken : WorkflowStreamClient V → Bool × WorkflowStreamClient V
  flusher_woken c = (not c.flusher_stopped, record c { flush_event = false })

  -- The end of a round of runFlusher, from what flushOnce did: whether the loop goes on.
  unfoldable pub flusher_round : FlushStart → WorkflowStreamClient V → Bool × WorkflowStreamClient V
  flusher_round flush_timeout c = (false, record c { flusher_error = true })
  flusher_round _ c = (not c.flusher_stopped, c)

module _ {V P : Type 0} (codec : Codec P) (converter : Converter V P) where
  -- The payload of a value, as encodeBuffer finds it.
  unfoldable pub payload_of : V → Result P
  payload_of value = elim (converter.as_payload value) [
    | some payload ↦ ok payload
    | none ↦ converter.to_payload value
  ]

  unfoldable pub encode_buffer : List (Buffered V) → Result (List PublishEntry)
  unfolding payload_of
  encode_buffer [] = ok []
  encode_buffer (x ∷ xs) = elim (payload_of x.value) [
    | throw e ↦ throw e
    | ok payload ↦ elim (encode_buffer xs) [
      | throw e ↦ throw e
      | ok out ↦ ok (record { topic = x.topic; wire_data = codec.encode payload } ∷ out)
    ]
  ]

  message : WorkflowStreamClient V → List PublishEntry → ℕ → PublishInput
  message c batch seq = record { items = batch; publisher_id = c.publisher_id; sequence = seq }

  retry_batch : ℕ → List PublishEntry → WorkflowStreamClient V → FlushStart × WorkflowStreamClient V
  unfolding message is_expired
  retry_batch now batch c =
      if is_expired now c.max_retry_duration c.pending_started_at
      then (
        flush_timeout,
        record c {
          sequence = c.pending_seq;
          pending = none;
          pending_seq = 0;
          pending_started_at = none;
        },
      )
      else (sending (message c batch c.pending_seq), c)

  new_batch :
      ℕ → Result (List PublishEntry) → WorkflowStreamClient V → FlushStart × WorkflowStreamClient V
  unfolding message
  new_batch now (throw e) c = (encoding_failed e, record c { buffer = [] })
  new_batch now (ok batch) c = (
    sending (message c batch (c.sequence + 1)),
    record c {
      buffer = [];
      pending = some batch;
      pending_seq = c.sequence + 1;
      pending_started_at = some now;
    },
  )

  start_flush :
      ℕ
      → Option (List PublishEntry)
      → List (Buffered V)
      → WorkflowStreamClient V
      → FlushStart × WorkflowStreamClient V
  unfolding retry_batch new_batch
  start_flush now (some batch) buffer c = retry_batch now batch c
  start_flush now none [] c = (nothing_to_send, c)
  start_flush now none (x ∷ xs) c = new_batch now (encode_buffer (x ∷ xs)) c

  -- _doFlush up to its `await`, at the time `now`.
  unfoldable pub do_flush : ℕ → WorkflowStreamClient V → FlushStart × WorkflowStreamClient V
  unfolding start_flush
  do_flush now c = start_flush now c.pending c.buffer c
