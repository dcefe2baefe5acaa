-- ===== src/Tests/Stream.antt =====
-- The workflow stream of contrib/workflow-streams on concrete inputs.
use sdk_typescript.Prelude.{
  ℕ, ◌≤◌, ◌<◌, ◌≡◌, refl, String, false, some, List, [], ◌∷◌, ◌++◌, map, if◌then◌else◌, arith,
}
use sdk_typescript.Activator.{ok}
use sdk_typescript.Streams.{
  Codec, InternalLogEntry, PublishInput, PollInput, PollResult, WorkflowStream, on_publish,
  resume_poll, poll_ready, wire, fill, end_offset, lookup, is_fresh, get_state, construct,
  candidates,
}
use sdk_typescript.Streams.Log.{
  StreamCall, published_locally, truncated, detached, stream_run, entry_at, log_append_only,
}
use sdk_typescript.Streams.Dedup.{published_at_most_once}
use sdk_typescript.Streams.Paging.{poll_no_gaps, poll_advances}
use sdk_typescript.Streams.Paging.Filling.{candidates_at}
use sdk_typescript.Streams.Snapshot.{snapshot_round_trip}

-- Payloads that are texts; every text has the length 5.
abbrev codec : Codec String
codec = record { decode = λ s. ok s; encode = λ s. s; units = λ s. 5 }

abbrev entry : String → InternalLogEntry String
entry x = record { topic = "t"; payload = x }

abbrev stream : WorkflowStream String
stream = record {
  log = entry "x" ∷ entry "y" ∷ entry "z" ∷ [];
  base_offset = 4;
  publisher_sequences = ("p", 2) ∷ [];
  publisher_last_seen = ("p", 100) ∷ [];
  draining = false;
}

abbrev message : ℕ → PublishInput
message n = record {
  items = record { topic = "t"; wire_data = "w" } ∷ [];
  publisher_id = "p";
  sequence = n;
}

abbrev calls : List (StreamCall String)
calls = truncated 5 ∷ published_locally "t" "l" ∷ detached ∷ []

published_at_most_once_example :
    on_publish codec 300
      (message 3)
      (stream_run codec calls (on_publish codec 200 (message 4) stream).1)
    ≡ (ok tt, stream_run codec calls (on_publish codec 200 (message 4) stream).1)
published_at_most_once_example =
    published_at_most_once codec 200 300 (message 4) (message 3) calls stream refl refl
      (omega arith)

log_append_only_example :
    ((o : ℕ) (e : InternalLogEntry String)
      → entry_at o stream ≡ some e
      → (stream_run codec calls stream).base_offset ≤ o
      → entry_at o (stream_run codec calls stream) ≡ some e)
    × (stream.base_offset ≤ (stream_run codec calls stream).base_offset)
    × (end_offset stream ≤ end_offset (stream_run codec calls stream))
log_append_only_example = log_append_only codec calls stream

abbrev poll : PollInput
poll = record { topics = []; from_offset = 5 }

abbrev page : PollResult
page = record {
  items = wire codec (5, entry "y") ∷ wire codec (6, entry "z") ∷ [];
  next_offset = 7;
  more_ready = false;
}

poll_returns : resume_poll codec poll stream ≡ ok page
unfolding resume_poll candidates fill end_offset wire
poll_returns = refl

poll_no_gaps_example :
    (taken : List (ℕ × InternalLogEntry String)) × (page.items ≡ map (wire codec) taken)
    × (candidates_at [] 5 stream ≡ taken ++ candidates_at [] 7 stream)
poll_no_gaps_example = poll_no_gaps codec poll stream page poll_returns

poll_advances_example : (5 < 7) × (4 < 7)
unfolding poll_ready
poll_advances_example = poll_advances codec poll stream page refl refl poll_returns

snapshot_round_trip_example :
    (t : WorkflowStream String) × (construct codec (some (get_state codec 150 90 stream)) ≡ ok t)
    × (t.log ≡ stream.log)
    × (t.base_offset ≡ stream.base_offset)
    × (t.draining ≡ false)
    × ((id : String)
        → lookup id t.publisher_sequences ≡ (
            if is_fresh 150 90 stream.publisher_last_seen id
            then lookup id stream.publisher_sequences
            else 0))
snapshot_round_trip_example = snapshot_round_trip codec 150 90 stream (λ p. refl)
