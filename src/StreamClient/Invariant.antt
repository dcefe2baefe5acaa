-- ===== src/StreamClient/Invariant.antt =====
-- What holds between a client, its signals and the stream, while no flush has thrown.
pub mod Flushes
pub mod Arrivals
pub mod Steps
use sdk_typescript.Prelude.{
  ℕ, zero, suc, ◌+◌, ◌≤◌, ◌<◌, String, ◌≡◌, Bool, true, false, Option, none, some, List, [], ◌∷◌,
  ◌++◌, length, take, All, is_some,
}
use sdk_typescript.Activator.{ok}
use sdk_typescript.Streams.{Codec, PublishEntry, PublishInput, lookup}
use sdk_typescript.Streams.Log.{nth}
use sdk_typescript.StreamClient.{Buffered, Converter, WorkflowStreamClient, encode_buffer}
use sdk_typescript.StreamClient.System.{System}
use sdk_typescript.StreamClient.Logged.{concat, logged}

module _ {V P : Type 0} (codec : Codec P) (converter : Converter V P) (id : String) where
  -- `batch` is the one with the index `k`, as it is sent.
  abbrev pub IsBatch : List (List (Buffered V)) → ℕ → List PublishEntry → Type 0
  IsBatch batches k batch =
      (raw : List (Buffered V)) × (nth batches k ≡ some raw)
      × (encode_buffer codec converter raw ≡ ok batch)

  -- The batch that waits for its confirmation is the last one that was cut.
  abbrev pub PendingIsLast :
      List (List (Buffered V)) → WorkflowStreamClient V → Option (List PublishEntry) → Type 0
  PendingIsLast batches c none = c.sequence ≡ length batches
  PendingIsLast batches c (some batch) =
      (c.pending_seq ≡ length batches)
      × (suc c.sequence ≡ length batches)
      × IsBatch batches c.sequence batch

  -- The batch with the index k is sent under the sequence k + 1.
  abbrev pub CarriesBatch : List (List (Buffered V)) → PublishInput → Type 0
  CarriesBatch batches m =
      (k : ℕ) × (m.publisher_id ≡ id) × (m.sequence ≡ suc k) × IsBatch batches k m.items

  abbrev pub InFlightIsPending : System V P → Option PublishInput → Type 0
  InFlightIsPending y none = Unit
  InFlightIsPending y (some m) = (m.sequence ≡ length y.batches) × (is_some y.client.pending ≡ true)

  abbrev pub accepted_upto : System V P → ℕ
  accepted_upto y = lookup id y.stream.publisher_sequences

  pub record IsConsistent (y : System V P) : Type 0 where
    pub named : y.client.publisher_id ≡ id
    pub split : y.published ≡ concat y.batches ++ y.client.buffer
    pub pending : PendingIsLast y.batches y.client y.client.pending
    pub sent : All (CarriesBatch y.batches) y.sent
    pub in_flight : InFlightIsPending y y.in_flight
    pub confirmed_accepted : y.client.sequence ≤ accepted_upto y
    pub accepted_cut : accepted_upto y ≤ length y.batches
    pub accepted : All (λ n. n ≤ accepted_upto y) y.accepted
    pub log : logged codec converter (concat (take (accepted_upto y) y.batches)) ≡ ok y.stream.log
