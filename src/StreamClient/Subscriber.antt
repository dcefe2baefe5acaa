-- ===== src/StreamClient/Subscriber.antt =====
-- contrib/workflow-streams/src/client.ts, `subscribe`: the loop that polls, yields what came back
-- and goes on from the next offset, and its answers to the errors of a poll. What the run that was
-- polled is described as is a parameter. The sleeps between polls are not modelled.
pub mod NoGaps
use sdk_typescript.Prelude.{
  ℕ, String, Bool, true, false, ◌||◌, Option, none, some, List, [], ◌∷◌, ◌++◌, string_same, ◌==◌,
  if◌then◌else◌,
}
use sdk_typescript.Errors.{JsError, application_failure}
use sdk_typescript.Activator.{Result, ok, throw}
use sdk_typescript.Streams.{
  Codec, WorkflowStreamWireItem, WorkflowStream, PollInput, PollResult, validate_poll, on_poll,
  poll_ready, resume_poll,
}
use sdk_typescript.Streams.Log.{StreamCall, stream_step}

pub record WorkflowStreamItem (P : Type 0) : Type 0 where
  pub topic : String
  pub payload : P
  pub offset : ℕ

-- What the call of an update throws. `update_failed` has the cause's type, if the cause is an
-- ApplicationFailure.
pub data PollError : Type 0 where
  update_failed : Option String → PollError
  rpc_timeout_or_cancelled workflow_not_found other_error : PollError

pub data LoopState : Type 0 where
  polling returned failed : LoopState

pub record Subscriber (P : Type 0) : Type 0 where
  pub topics : List String
  pub offset : ℕ
  pub yielded : List (WorkflowStreamItem P)
  pub loop_state : LoopState

-- The name of the status of the run that the last poll was admitted to, or none if it cannot be
-- described; and whether the subscriber has a client that can follow the chain of runs.
pub record Described : Type 0 where
  pub has_client : Bool
  pub status : Option String

is_status : List String → Option String → Bool
is_status names none = false
is_status [] (some s) = false
is_status (n ∷ names) (some s) = s == n || is_status names (some s)

-- followContinueAsNew
unfoldable pub follow_continue_as_new : Described → Bool
unfolding is_status
follow_continue_as_new d =
    if d.has_client then is_status ("CONTINUED_AS_NEW" ∷ []) d.status else false

-- isInTerminalState
unfoldable pub is_in_terminal_state : Described → Bool
unfolding is_status
is_in_terminal_state d =
    is_status ("COMPLETED" ∷ "FAILED" ∷ "CANCELLED" ∷ "TERMINATED" ∷ "TIMED_OUT" ∷ []) d.status

module _ {P : Type 0} where
  ends : LoopState → Subscriber P → Subscriber P
  ends outcome b = record b { loop_state = outcome }

  -- The variables of subscribe when its loop starts.
  unfoldable pub subscriber : List String → ℕ → Subscriber P
  subscriber topics from = record {
    topics = topics;
    offset = from;
    yielded = [];
    loop_state = polling;
  }

  -- The catch block of the loop.
  unfoldable pub poll_failed : Described → PollError → Subscriber P → Subscriber P
  unfolding ends
  poll_failed d (update_failed none) b = ends failed b
  poll_failed d (update_failed (some type)) b =
      if type == "TruncatedOffset"
      then record b { offset = 0 }
      else if type == "StreamDraining"
      then b
      else if type == "AcceptedUpdateCompletedWorkflow"
      then (if follow_continue_as_new d then b else ends returned b)
      else ends failed b
  poll_failed d rpc_timeout_or_cancelled b = if follow_continue_as_new d then b else ends returned b
  poll_failed d workflow_not_found b =
      if follow_continue_as_new d
      then b
      else if is_in_terminal_state d
      then ends returned b
      else ends failed b
  poll_failed d other_error b = ends failed b

module _ {P : Type 0} (codec : Codec P) where
  -- The loop over a page's items; whether all of them could be decoded.
  unfoldable pub yield_items :
      List WorkflowStreamWireItem → List (WorkflowStreamItem P) → Bool × List (WorkflowStreamItem P)
  yield_items [] out = (true, out)
  yield_items (x ∷ xs) out = elim (codec.decode x.wire_data) [
    | throw e ↦ (false, out)
    | ok payload ↦
        yield_items xs
          (out ++ record { topic = x.topic; payload = payload; offset = x.offset } ∷ [])
  ]

  -- The rest of a round of the loop, after a poll that returned.
  unfoldable pub page_received : PollResult → Subscriber P → Subscriber P
  unfolding yield_items
  page_received r b =
      let (all, out) = yield_items r.items b.yielded in
      if all
      then record b { offset = r.next_offset; yielded = out }
      else record b { yielded = out; loop_state = failed }

  -- The type of the ApplicationFailure that an update failed with.
  failure_type : JsError → Option String
  failure_type (application_failure type) = some type
  failure_type _ = none

  unfoldable pub poll_answered : Described → Result PollResult → Subscriber P → Subscriber P
  unfolding failure_type page_received poll_failed
  poll_answered d (throw e) b = poll_failed d (update_failed (failure_type e)) b
  poll_answered d (ok r) b = page_received r b

  poll_input : Subscriber P → PollInput
  poll_input b = record { topics = b.topics; from_offset = b.offset }

  admitted_answer : PollInput → WorkflowStream P → Result (Unit {0}) → Option (Result PollResult)
  admitted_answer input s (throw e) = some (throw e)
  admitted_answer input s (ok u) = on_poll codec input s

  -- A poll of the subscriber at a moment of the stream: the update's validator, then its handler.
  -- None when the poll is parked.
  unfoldable pub poll_now : Subscriber P → WorkflowStream P → Option (Result PollResult)
  unfolding poll_input admitted_answer
  poll_now b s = admitted_answer (poll_input b) s (validate_poll s)

  -- A poll that was parked is answered once its condition holds.
  unfoldable pub poll_woken : Subscriber P → WorkflowStream P → Option (Result PollResult)
  unfolding poll_input
  poll_woken b s =
      if poll_ready (poll_input b) s then some (resume_poll codec (poll_input b) s) else none

  received : Described → Option (Result PollResult) → Subscriber P → Subscriber P
  unfolding poll_answered
  received d none b = b
  received d (some answer) b = poll_answered d answer b

-- What can happen between a stream and a subscriber: a call of the stream, a new poll, and the
-- waking of a parked one.
pub data Moment (P : Type 0) : Type 0 where
  called : StreamCall P → Moment P
  polls wakes : Moment P

module _ {P : Type 0} (codec : Codec P) (d : Described) where
  unfoldable pub subscribe_step :
      Moment P → WorkflowStream P × Subscriber P → WorkflowStream P × Subscriber P
  unfolding received poll_now poll_woken
  subscribe_step (called c) (s, b) = (stream_step codec c s, b)
  subscribe_step polls (s, b) = (s, received codec d (poll_now codec b s) b)
  subscribe_step wakes (s, b) = (s, received codec d (poll_woken codec b s) b)

  unfoldable pub subscribe_run :
      List (Moment P) → WorkflowStream P × Subscriber P → WorkflowStream P × Subscriber P
  subscribe_run [] x = x
  subscribe_run (m ∷ ms) x = subscribe_run ms (subscribe_step m x)
