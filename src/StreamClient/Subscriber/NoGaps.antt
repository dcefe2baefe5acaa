-- ===== src/StreamClient/Subscriber/NoGaps.antt =====
-- A subscriber yields every wanted entry from its first offset on, once and in order.
use sdk_typescript.Prelude.{
  ℕ, ◌+◌, ◌≤◌, String, ◌≡◌, refl, sym, ap, ◌∙◌, subst, inl, inr, true, List, [], ◌∷◌, ◌++◌, map,
  arith, append-nil, append_assoc, Bool-cases, map-append, ltb, drop, string_same,
}
use sdk_typescript.Errors.{JsError, application_failure}
use sdk_typescript.Activator.{ok, throw}
use sdk_typescript.Streams.{
  Codec, InternalLogEntry, WorkflowStream, PollResult, wire, candidates, end_offset, validate_poll,
  poll_ready, resume_poll,
}
use sdk_typescript.Streams.Log.{stream_step, stream_run, Result-cases, log_append_only}
use sdk_typescript.Streams.Paging.{poll_no_gaps}
use sdk_typescript.Streams.Paging.Filling.{candidates_at}
use sdk_typescript.Streams.Growth.{
  Grows, Grows-end, candidates_at-Grows, stream_step-Grows, resume_poll-bounded,
}
use sdk_typescript.Streams.Answers.{resume_poll-cases, on_poll-cases}
use sdk_typescript.StreamClient.Subscriber.{
  WorkflowStreamItem, Subscriber, polling, Described, Moment, called, polls, wakes, poll_input,
  poll_failed, yield_items, page_received, poll_answered, failure_type, admitted_answer, poll_now,
  poll_woken, received, subscribe_step, subscriber, subscribe_run,
}

module _ {P : Type 0} where
  -- What the subscriber should yield for an entry of the log.
  abbrev pub item : ℕ × InternalLogEntry P → WorkflowStreamItem P
  item (off, e) = record { topic = e.topic; payload = e.payload; offset = off }

module _ {P : Type 0} (codec : Codec P)
    (back : (p : P) → codec.decode (codec.encode p) ≡ ok p) where
  yield_items-wire :
      (taken : List (ℕ × InternalLogEntry P)) (out : List (WorkflowStreamItem P))
      → yield_items codec (map (wire codec) taken) out ≡ (true, out ++ map item taken)
  unfolding yield_items wire
  yield_items-wire [] out = ground (arith, append-nil out)
  yield_items-wire ((off, e) ∷ taken) out = rw (back e.payload) (
      yield_items-wire taken (out ++ item (off, e) ∷ [])
      ∙ ap (λ (l : List (WorkflowStreamItem P)). (true, l))
          (append_assoc out (item (off, e) ∷ []) (map item taken)))

  module _ (d : Described) (topics : List String) (from : ℕ) where
    -- The entries yielded, and that the rest of the candidates is what is read from the offset.
    record IsCaughtUp (s : WorkflowStream P) (b : Subscriber P) : Type 0 where
      filter : b.topics ≡ topics
      bounded : b.offset ≤ end_offset s
      taken : List (ℕ × InternalLogEntry P)
      split : candidates_at topics from s ≡ taken ++ candidates_at topics b.offset s
      yields : b.yielded ≡ map item taken
      goes_on : b.loop_state ≡ polling

    call-IsCaughtUp :
        (s t : WorkflowStream P) (b : Subscriber P)
        → from ≤ end_offset s
        → Grows s t
        → IsCaughtUp s b
        → IsCaughtUp t b
    call-IsCaughtUp s t b within g v =
        let (rest, grown) = candidates_at-Grows topics s t g in
        record {
          filter = v.filter;
          bounded = omega (arith, v.bounded, Grows-end s t g);
          taken = v.taken;
          split =
              grown from within
              ∙ ap (λ l. l ++ rest) v.split
              ∙ append_assoc v.taken (candidates_at topics b.offset s) rest
              ∙ ap (λ l. v.taken ++ l) (sym (grown b.offset v.bounded));
          yields = v.yields;
          goes_on = v.goes_on;
        }

    page-IsCaughtUp :
        (s : WorkflowStream P) (b : Subscriber P) (r : PollResult)
        → resume_poll codec (poll_input codec b) s ≡ ok r
        → IsCaughtUp s b
        → IsCaughtUp s (page_received codec r b)
    unfolding page_received poll_input
    page-IsCaughtUp s b r h v =
        let (taken, items, split) = poll_no_gaps codec (poll_input codec b) s r h in
        rw (items, yield_items-wire taken b.yielded)
          (record {
            filter = v.filter;
            bounded = resume_poll-bounded codec (poll_input codec b) s r h;
            taken = v.taken ++ taken;
            split =
                v.split
                ∙ ap (λ l. v.taken ++ l)
                    (subst
                      (λ l. candidates_at l b.offset s ≡ taken ++ candidates_at l r.next_offset s)
                      v.filter split)
                ∙ sym (append_assoc v.taken taken (candidates_at topics r.next_offset s));
            yields = ap (λ l. l ++ map item taken) v.yields ∙ sym (map-append item v.taken taken);
            goes_on = v.goes_on;
          })

    rewound-IsCaughtUp :
        (s : WorkflowStream P) (b : Subscriber P)
        → ltb b.offset s.base_offset ≡ true
        → IsCaughtUp s b
        → IsCaughtUp s (record b { offset = 0 })
    unfolding candidates_at
    rewound-IsCaughtUp s b low v = record {
      filter = v.filter;
      bounded = omega arith;
      taken = v.taken;
      split =
          v.split
          ∙ ap (λ (k : ℕ). v.taken ++ candidates topics (s.base_offset + k) (drop k s.log))
              (ground arith);
      yields = v.yields;
      goes_on = v.goes_on;
    }

    refused-IsCaughtUp :
        (s : WorkflowStream P) (b : Subscriber P)
        → ltb b.offset s.base_offset ≡ true
        → IsCaughtUp s b
        → IsCaughtUp s (poll_answered codec d (throw (application_failure "TruncatedOffset")) b)
    unfolding poll_answered poll_failed failure_type
    refused-IsCaughtUp s b low v = rewound-IsCaughtUp s b low v

    woken-IsCaughtUp :
        (s : WorkflowStream P) (b : Subscriber P)
        → IsCaughtUp s b
        → IsCaughtUp s (poll_answered codec d (resume_poll codec (poll_input codec b) s) b)
    unfolding poll_answered poll_input
    woken-IsCaughtUp s b v = elim (resume_poll-cases codec (poll_input codec b) s) [
      | inl (refused, low) ↦ rw refused (refused-IsCaughtUp s b low v)
      | inr (r, page) ↦ rw page (page-IsCaughtUp s b r page v)
    ]

    wakes-IsCaughtUp :
        (s : WorkflowStream P) (b : Subscriber P)
        → IsCaughtUp s b
        → IsCaughtUp s (received codec d (poll_woken codec b s) b)
    unfolding poll_woken received
    wakes-IsCaughtUp s b v = elim (Bool-cases (poll_ready (poll_input codec b) s)) [
      | inl ready ↦ rw ready (woken-IsCaughtUp s b v)
      | inr waits ↦ rw waits v
    ]

    validate_poll-throw :
        (s : WorkflowStream P) (e : JsError)
        → validate_poll s ≡ throw e
        → e ≡ application_failure "StreamDraining"
    unfolding validate_poll
    validate_poll-throw s e h = ground arith

    refused_draining :
        (s : WorkflowStream P) (b : Subscriber P) (e : JsError)
        → e ≡ application_failure "StreamDraining"
        → IsCaughtUp s b
        → IsCaughtUp s (poll_answered codec d (throw e) b)
    unfolding poll_answered poll_failed failure_type
    refused_draining s b e h v = rw h v

    polls-IsCaughtUp :
        (s : WorkflowStream P) (b : Subscriber P)
        → IsCaughtUp s b
        → IsCaughtUp s (received codec d (poll_now codec b s) b)
    unfolding poll_now received admitted_answer
    polls-IsCaughtUp s b v = elim (Result-cases (validate_poll s)) [
      | inl (e, leaving) ↦ rw leaving (refused_draining s b e (validate_poll-throw s e leaving) v)
      | inr (u, stays) ↦ rw stays (elim (on_poll-cases codec (poll_input codec b) s) [
        | inl parked ↦ rw parked v
        | inr (inl ((e, low), answer)) ↦ rw answer (refused-IsCaughtUp s b low v)
        | inr (inr answer) ↦ rw answer (woken-IsCaughtUp s b v)
      ])
    ]

    step-IsCaughtUp :
        (m : Moment P) (s : WorkflowStream P) (b : Subscriber P)
        → from ≤ end_offset s
        → (subscribe_step codec d m (s, b)).0.base_offset ≡ s.base_offset
        → IsCaughtUp s b
        → IsCaughtUp (subscribe_step codec d m (s, b)).0 (subscribe_step codec d m (s, b)).1
    unfolding subscribe_step
    step-IsCaughtUp (called c) s b within h v =
        call-IsCaughtUp s (stream_step codec c s) b within (stream_step-Grows codec c s h) v
    step-IsCaughtUp polls s b within h v = polls-IsCaughtUp s b v
    step-IsCaughtUp wakes s b within h v = wakes-IsCaughtUp s b v

    step-base :
        (m : Moment P) (s : WorkflowStream P) (b : Subscriber P)
        → (s.base_offset ≤ (subscribe_step codec d m (s, b)).0.base_offset)
          × (end_offset s ≤ end_offset (subscribe_step codec d m (s, b)).0)
    unfolding subscribe_step
    step-base (called c) s b =
        unfold stream_run in let x = log_append_only codec (c ∷ []) s in (x.1, x.2)
    step-base polls s b = (omega arith, omega arith)
    step-base wakes s b = (omega arith, omega arith)

    run-base :
        (ms : List (Moment P)) (x : WorkflowStream P × Subscriber P)
        → x.0.base_offset ≤ (subscribe_run codec d ms x).0.base_offset
    unfolding subscribe_run
    run-base [] x = omega arith
    run-base (m ∷ ms) x =
        omega (arith, step-base m x.0 x.1, run-base ms (subscribe_step codec d m x))

    run-IsCaughtUp :
        (ms : List (Moment P)) (x : WorkflowStream P × Subscriber P)
        → from ≤ end_offset x.0
        → (subscribe_run codec d ms x).0.base_offset ≡ x.0.base_offset
        → IsCaughtUp x.0 x.1
        → IsCaughtUp (subscribe_run codec d ms x).0 (subscribe_run codec d ms x).1
    unfolding subscribe_run
    run-IsCaughtUp [] x within h v = v
    run-IsCaughtUp (m ∷ ms) x within h v =
        let y : WorkflowStream P × Subscriber P = subscribe_step codec d m x in
        let grown : (x.0.base_offset ≤ y.0.base_offset) × (end_offset x.0 ≤ end_offset y.0) =
          step-base m x.0 x.1 in
        let later : y.0.base_offset ≤ (subscribe_run codec d ms y).0.base_offset = run-base ms y in
        let same : y.0.base_offset ≡ x.0.base_offset = omega (arith, grown, later, h) in
        run-IsCaughtUp ms y (omega (arith, grown, within)) (omega (arith, h, same))
          (step-IsCaughtUp m x.0 x.1 within same v)

  -- A subscriber whose polls are answered at once or after a wait, between any calls of the stream
  -- that truncate nothing, has yielded the wanted entries from its first offset up to the offset
  -- it will read next, each once and in order, and its loop goes on. Its first offset is not past
  -- the end, and the codec decodes what it encoded.
  pub subscriber_no_gaps :
      (d : Described) (topics : List String) (from : ℕ) (ms : List (Moment P))
      (s : WorkflowStream P)
      → from ≤ end_offset s
      → (subscribe_run codec d ms (s, subscriber topics from)).0.base_offset ≡ s.base_offset
      → let (t, b) = subscribe_run codec d ms (s, subscriber topics from) in
        (taken : List (ℕ × InternalLogEntry P)) × (b.yielded ≡ map item taken)
        × (candidates_at topics from t ≡ taken ++ candidates_at topics b.offset t)
        × (b.loop_state ≡ polling)
  unfolding subscriber
  subscriber_no_gaps d topics from ms s within same =
      let v =
        run-IsCaughtUp d topics from ms (s, subscriber topics from) within same
          (record {
            filter = refl;
            bounded = within;
            taken = [];
            split = refl;
            yields = refl;
            goes_on = refl;
          }) in
      (v.taken, v.yields, v.split, v.goes_on)
