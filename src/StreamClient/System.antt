-- ===== src/StreamClient/System.antt =====
-- A producer's client, the signals that it sends, and the stream of the workflow that they reach.
-- A signal that was sent may reach the workflow at once, late, several times or never; its
-- confirmation comes only once it has, and may be lost.
use sdk_typescript.Prelude.{
  ℕ, String, Bool, true, false, Option, none, some, List, [], ◌∷◌, ◌++◌, if◌then◌else◌, contains,
}
use sdk_typescript.Streams.{Codec, PublishEntry, PublishInput, WorkflowStream, on_publish}
use sdk_typescript.Streams.Log.{nth}
use sdk_typescript.StreamClient.{
  Buffered, Converter, WorkflowStreamClient, FlushStart, nothing_to_send, flush_timeout,
  encoding_failed, sending, new_client, publish_value, flush_confirmed, do_flush,
}

-- `sent` holds every signal sent, `in_flight` the one that flushOnce waits for, `accepted` the
-- sequences of those that reached the workflow. The last three fields record the past: what the
-- producer published, how flushes cut it into batches, and whether a flush threw.
pub record System (V P : Type 0) : Type 0 where
  pub client : WorkflowStreamClient V
  pub stream : WorkflowStream P
  pub sent : List PublishInput
  pub in_flight : Option PublishInput
  pub accepted : List ℕ
  pub published : List (Buffered V)
  pub batches : List (List (Buffered V))
  pub lost : Bool

pub data Event (V : Type 0) : Type 0 where
  -- The producer publishes a value, with or without forceFlush.
  publishes : String → V → Bool → Event V
  -- A call of flushOnce reaches _doFlush, at this time.
  flushes : ℕ → Event V
  -- The signal with this index reaches the workflow, at this time.
  arrives : ℕ → ℕ → Event V
  -- The signal in flight is confirmed, or its call fails.
  confirmed call_failed : Event V

module _ {V P : Type 0} where
  -- A client and a stream that were just constructed.
  unfoldable pub initial : String → Option ℕ → ℕ → System V P
  unfolding new_client
  initial id most retry = record {
    client = new_client id most retry;
    stream = record {
      log = [];
      base_offset = 0;
      publisher_sequences = [];
      publisher_last_seen = [];
      draining = false;
    };
    sent = [];
    in_flight = none;
    accepted = [];
    published = [];
    batches = [];
    lost = false;
  }

  unfoldable pub cut : Option (List PublishEntry) → System V P → List (List (Buffered V))
  cut none y = y.batches ++ y.client.buffer ∷ []
  cut (some batch) y = y.batches

  unfoldable pub flushed : FlushStart → WorkflowStreamClient V → System V P → System V P
  unfolding cut
  flushed nothing_to_send c y = y
  flushed flush_timeout c y = record y { client = c; lost = true }
  flushed (encoding_failed e) c y = record y { client = c; lost = true }
  flushed (sending m) c y = record y {
    client = c;
    sent = y.sent ++ m ∷ [];
    in_flight = some m;
    batches = cut y.client.pending y;
  }

  unfoldable pub confirm : Option PublishInput → System V P → System V P
  unfolding flush_confirmed
  confirm none y = y
  confirm (some m) y =
      if contains m.sequence y.accepted
      then record y { client = flush_confirmed m.sequence y.client; in_flight = none }
      else y

module _ {V P : Type 0} (codec : Codec P) (converter : Converter V P) where
  unfoldable pub flush_unless : Option PublishInput → ℕ → System V P → System V P
  unfolding flushed do_flush
  flush_unless (some m) now y = y
  flush_unless none now y = let (r, c) = do_flush codec converter now y.client in flushed r c y

  unfoldable pub arrive : ℕ → Option PublishInput → System V P → System V P
  unfolding on_publish
  arrive now none y = y
  arrive now (some m) y = record y {
    stream = (on_publish codec now m y.stream).1;
    accepted = m.sequence ∷ y.accepted;
  }

  -- flushOnce waits for the flush before it.
  unfoldable pub system_step : Event V → System V P → System V P
  unfolding flush_unless arrive confirm publish_value
  system_step (publishes topic value force_flush) y = record y {
    client = publish_value topic value force_flush y.client;
    published = y.published ++ record { topic = topic; value = value } ∷ [];
  }
  system_step (flushes now) y = flush_unless y.in_flight now y
  system_step (arrives k now) y = arrive now (nth y.sent k) y
  system_step confirmed y = confirm y.in_flight y
  system_step call_failed y = record y { in_flight = none }

  unfoldable pub system_run : List (Event V) → System V P → System V P
  unfolding system_step
  system_run [] y = y
  system_run (e ∷ es) y = system_run es (system_step e y)
