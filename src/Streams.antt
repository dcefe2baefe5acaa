-- ===== src/Streams.antt =====
-- contrib/workflow-streams/src/workflow.ts, class WorkflowStream: an append-only log with
-- publishers, long polls and truncation, and its snapshot for continue-as-new. Offsets, sequences
-- and times are natural numbers, times in milliseconds. An ApplicationFailure that the stream throws
-- is kept by its type. The codec of payloads and the length of a string in UTF-16 units are
-- parameters.
pub mod Log
pub mod Publishing
pub mod Dedup
pub mod Paging
pub mod Growth
pub mod Answers
pub mod Snapshot
use sdk_typescript.Prelude.{
  ℕ, zero, suc, ◌+◌, ◌-◌, ◌<◌, ◌≤◌, String, Bool, true, false, ◌&&◌, ◌||◌, not, ◌==◌, Option, none,
  some, List, [], ◌∷◌, ◌++◌, map, length, drop, if◌then◌else◌, nat_same, string_same, ltb, leb,
  nat_beq,
}
use sdk_typescript.JsMap.{JsMap, get, set}
use sdk_typescript.Errors.{JsError, application_failure}
use sdk_typescript.Activator.{Result, ok, throw}

-- decodePayloadWire, encodePayloadWire, and `String.prototype.length`.
pub record Codec (P : Type 0) : Type 0 where
  pub decode : String → Result P
  pub encode : P → String
  pub units : String → ℕ

pub record InternalLogEntry (P : Type 0) : Type 0 where
  pub topic : String
  pub payload : P

pub record PublishEntry : Type 0 where
  pub topic : String
  pub wire_data : String

pub record WorkflowStreamWireItem : Type 0 where
  pub topic : String
  pub wire_data : String
  pub offset : ℕ

pub record PublishInput : Type 0 where
  pub items : List PublishEntry
  pub publisher_id : String
  pub sequence : ℕ

pub record PollInput : Type 0 where
  pub topics : List String
  pub from_offset : ℕ

pub record PollResult : Type 0 where
  pub items : List WorkflowStreamWireItem
  pub next_offset : ℕ
  pub more_ready : Bool

pub record WorkflowStreamState : Type 0 where
  pub log : List WorkflowStreamWireItem
  pub base_offset : ℕ
  pub publisher_sequences : JsMap String ℕ
  pub publisher_last_seen : JsMap String ℕ

pub record WorkflowStream (P : Type 0) : Type 0 where
  pub log : List (InternalLogEntry P)
  pub base_offset : ℕ
  pub publisher_sequences : JsMap String ℕ
  pub publisher_last_seen : JsMap String ℕ
  pub draining : Bool

abbrev pub max_poll_response_bytes : ℕ
max_poll_response_bytes = 1000000

abbrev or_zero : Option ℕ → ℕ
or_zero none = 0
or_zero (some n) = n

-- `this.publisherSequences[id] ?? 0`, and the same for the times.
unfoldable pub lookup : String → JsMap String ℕ → ℕ
lookup id m = or_zero (get id m)

includes_topic : String → List String → Bool
includes_topic t [] = false
includes_topic t (u ∷ us) = u == t || includes_topic t us

module _ {P : Type 0} where
  -- The handler of the offset query.
  unfoldable pub end_offset : WorkflowStream P → ℕ
  end_offset s = s.base_offset + length s.log

  -- publishToTopic, on a payload.
  unfoldable pub publish_to_topic : String → P → WorkflowStream P → WorkflowStream P
  publish_to_topic topic payload s = record s {
    log = s.log ++ record { topic = topic; payload = payload } ∷ [];
  }

  unfoldable pub detach_pollers : WorkflowStream P → WorkflowStream P
  detach_pollers s = record s { draining = true }

  -- The validator of the poll update.
  unfoldable pub validate_poll : WorkflowStream P → Result (Unit {0})
  validate_poll s = if s.draining then throw (application_failure "StreamDraining") else ok tt

  -- The difference of the offsets may be negative, so its tests compare the offsets.
  unfoldable pub truncate : ℕ → WorkflowStream P → Result (Unit {0}) × WorkflowStream P
  truncate up_to_offset s =
      if leb up_to_offset s.base_offset
      then (ok tt, s)
      else if ltb (length s.log) (up_to_offset - s.base_offset)
      then (throw (application_failure "TruncateOutOfRange"), s)
      else (
        ok tt,
        record s { log = drop (up_to_offset - s.base_offset) s.log; base_offset = up_to_offset },
      )

  -- The two tests of onPoll on an offset that is gone.
  unfoldable pub is_truncated : PollInput → WorkflowStream P → Bool
  is_truncated input s = not (nat_beq input.from_offset 0) && ltb input.from_offset s.base_offset

  -- The predicate of the condition that a poll waits for. `Math.max(from - base, 0)` is the
  -- subtraction that stops at 0.
  unfoldable pub poll_ready : PollInput → WorkflowStream P → Bool
  unfolding is_truncated
  poll_ready input s =
      s.draining || is_truncated input s || ltb (input.from_offset - s.base_offset) (length s.log)

  -- Where in the log the poll starts to read, after the wait.
  unfoldable pub log_offset : PollInput → WorkflowStream P → Result ℕ
  log_offset input s =
      if ltb input.from_offset s.base_offset
      then (if nat_beq input.from_offset 0
          then ok 0
          else throw (application_failure "TruncatedOffset"))
      else ok (input.from_offset - s.base_offset)

  unfoldable pub wanted : List String → InternalLogEntry P → Bool
  unfolding includes_topic
  wanted [] e = true
  wanted (t ∷ ts) e = includes_topic e.topic (t ∷ ts)

  -- The entries that a poll may return, with their offsets; the first has the offset `off`.
  unfoldable pub candidates :
      List String → ℕ → List (InternalLogEntry P) → List (ℕ × InternalLogEntry P)
  unfolding wanted
  candidates topics off [] = []
  candidates topics off (e ∷ es) =
      let rest = candidates topics (suc off) es in if wanted topics e then (off, e) ∷ rest else rest

is_empty : List WorkflowStreamWireItem → Bool
is_empty [] = true
is_empty (x ∷ xs) = false

module _ {P : Type 0} (codec : Codec P) where
  push_items : List PublishEntry → WorkflowStream P → Result (Unit {0}) × WorkflowStream P
  unfolding publish_to_topic
  push_items [] s = (ok tt, s)
  push_items (e ∷ es) s = elim (codec.decode e.wire_data) [
    | throw x ↦ (throw x, s)
    | ok payload ↦ push_items es (publish_to_topic e.topic payload s)
  ]

  -- onPublish, at the time `now`.
  unfoldable pub on_publish :
      ℕ → PublishInput → WorkflowStream P → Result (Unit {0}) × WorkflowStream P
  unfolding push_items lookup
  on_publish now input s =
      if input.publisher_id == ""
      then push_items input.items s
      else if leb input.sequence (lookup input.publisher_id s.publisher_sequences)
      then (ok tt, s)
      else push_items input.items (record s {
        publisher_sequences = set input.publisher_id input.sequence s.publisher_sequences;
        publisher_last_seen = set input.publisher_id now s.publisher_last_seen;
      })

  unfoldable pub wire : ℕ × InternalLogEntry P → WorkflowStreamWireItem
  wire (off, e) = record { topic = e.topic; wire_data = codec.encode e.payload; offset = off }

  -- payloadWireSize
  unfoldable pub payload_wire_size : InternalLogEntry P → ℕ
  payload_wire_size e = codec.units (codec.encode e.payload) + codec.units e.topic

  -- The loop that fills the response until the cap. The first item is taken whatever its size.
  unfoldable pub fill :
      ℕ → List WorkflowStreamWireItem → ℕ → List (ℕ × InternalLogEntry P) → PollResult
  unfolding wire payload_wire_size is_empty
  fill size items end [] = record { items = items; next_offset = end; more_ready = false }
  fill size items end (c ∷ cs) =
      let rest = fill (size + payload_wire_size c.1) (items ++ wire c ∷ []) end cs in
      if ltb max_poll_response_bytes (size + payload_wire_size c.1) && not (is_empty items)
      then record { items = items; next_offset = c.0; more_ready = true }
      else rest

  pub poll_from : PollInput → WorkflowStream P → Result ℕ → Result PollResult
  unfolding fill candidates end_offset
  poll_from input s (throw e) = throw e
  poll_from input s (ok offset) = ok (
      fill 0 [] (end_offset s)
        (candidates input.topics (s.base_offset + offset) (drop offset s.log)))

  -- onPoll up to the wait: none when the poll is parked.
  unfoldable pub on_poll : PollInput → WorkflowStream P → Option (Result PollResult)
  unfolding poll_from log_offset poll_ready is_truncated
  on_poll input s =
      if is_truncated input s
      then some (throw (application_failure "TruncatedOffset"))
      else if poll_ready input s
      then some (poll_from input s (log_offset input s))
      else none

  -- onPoll after the wait.
  unfoldable pub resume_poll : PollInput → WorkflowStream P → Result PollResult
  unfolding poll_from log_offset
  resume_poll input s = poll_from input s (log_offset input s)

-- The publishers whose last message is younger than `ttl`.
unfoldable pub active :
    (String → Bool) → JsMap String ℕ → JsMap String ℕ → JsMap String ℕ × JsMap String ℕ
unfolding lookup
active fresh [] seen = ([], [])
active fresh ((id, n) ∷ m) seen =
    let (seqs, times) = active fresh m seen in
    if fresh id then ((id, n) ∷ seqs, (id, lookup id seen) ∷ times) else (seqs, times)

-- `now - ts < ttl`
unfoldable pub is_fresh : ℕ → ℕ → JsMap String ℕ → String → Bool
unfolding lookup
is_fresh now ttl seen id = ltb now (lookup id seen + ttl)

module _ {P : Type 0} (codec : Codec P) where
  unfoldable pub snapshot_entry : InternalLogEntry P → WorkflowStreamWireItem
  snapshot_entry e = record { topic = e.topic; wire_data = codec.encode e.payload; offset = 0 }

  unfoldable pub get_state : ℕ → ℕ → WorkflowStream P → WorkflowStreamState
  unfolding active is_fresh snapshot_entry
  get_state now ttl s =
      let (seqs, times) =
        active (is_fresh now ttl s.publisher_last_seen) s.publisher_sequences
          s.publisher_last_seen in
      record {
        log = map snapshot_entry s.log;
        base_offset = s.base_offset;
        publisher_sequences = seqs;
        publisher_last_seen = times;
      }

  decode_log : List WorkflowStreamWireItem → Result (List (InternalLogEntry P))
  decode_log [] = ok []
  decode_log (x ∷ xs) = elim (codec.decode x.wire_data) [
    | throw e ↦ throw e
    | ok p ↦ elim (decode_log xs) [
      | throw e ↦ throw e
      | ok es ↦ ok (record { topic = x.topic; payload = p } ∷ es)
    ]
  ]

  -- The constructor, with the prior state of a run that continued as new, or without.
  unfoldable pub construct : Option WorkflowStreamState → Result (WorkflowStream P)
  unfolding decode_log
  construct none = ok (record {
    log = [];
    base_offset = 0;
    publisher_sequences = [];
    publisher_last_seen = [];
    draining = false;
  })
  construct (some prior) = elim (decode_log prior.log) [
    | throw e ↦ throw e
    | ok log ↦ ok (record {
      log = log;
      base_offset = prior.base_offset;
      publisher_sequences = prior.publisher_sequences;
      publisher_last_seen = prior.publisher_last_seen;
      draining = false;
    })
  ]
