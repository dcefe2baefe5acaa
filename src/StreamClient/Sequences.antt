-- ===== src/StreamClient/Sequences.antt =====
-- A sequence is never used for two batches, whatever flush throws.
pub mod Fresh
use sdk_typescript.Prelude.{
  contains, ℕ, zero, suc, ◌+◌, ◌≤◌, String, ◌≡◌, refl, sym, ap, ◌∙◌, subst, ◌⊎◌, inl, inr, Bool,
  true, Option, none, some, List, [], ◌∷◌, ◌++◌, arith, All, Bool-cases, is_some,
}
use sdk_typescript.Streams.{Codec, PublishEntry, PublishInput}
use sdk_typescript.Streams.Log.{nth, Result-cases}
use sdk_typescript.StreamClient.{
  Buffered, Converter, WorkflowStreamClient, publish_value, flush_confirmed, do_flush, start_flush,
  retry_batch, new_batch, is_expired, encode_buffer, message, new_client,
}
use sdk_typescript.StreamClient.System.{
  System, Event, publishes, flushes, arrives, confirmed, call_failed, initial, flushed, confirm,
  flush_unless, arrive, system_step, system_run,
}
use sdk_typescript.StreamClient.Invariant.Flushes.{All-snoc, All-mono}
use sdk_typescript.StreamClient.Sequences.Fresh.{
  nth-snoc_cases, nth-All, Upto, UptoOrBatch, NeverReused, NeverReused-snoc, PendingFresh,
  InFlightFresh, confirmed-Fresh,
}

module _ {V P : Type 0} where
  record IsFresh (y : System V P) : Type 0 where
    pending : PendingFresh y.sent y.client y.client.pending
    in_flight : InFlightFresh y.client y.in_flight
    never : NeverReused y.sent

  confirm-IsFresh :
      (y : System V P) (o : Option PublishInput)
      → y.in_flight ≡ o
      → IsFresh y
      → IsFresh (confirm o y)
  unfolding confirm flush_confirmed
  confirm-IsFresh y none e v = v
  confirm-IsFresh y (some m) e v = elim (Bool-cases (contains m.sequence y.accepted)) [
    | inl seen ↦ rw seen (record {
      pending = rw here.0 (confirmed-Fresh y.sent y.client y.client.pending v.pending here.1);
      in_flight = tt;
      never = v.never;
    })
    | inr unseen ↦ rw unseen v
  ]
    where
      here : InFlightFresh y.client (some m)
      here = subst (InFlightFresh y.client) e v.in_flight

module _ {V P : Type 0} (codec : Codec P) (converter : Converter V P) where
  started-IsFresh :
      (now : ℕ) (y : System V P) (o : Option (List PublishEntry)) (b : List (Buffered V))
      → y.client.pending ≡ o
      → y.in_flight ≡ none
      → IsFresh y
      → let (r, c) = start_flush codec converter now o b y.client in IsFresh (flushed r c y)
  unfolding start_flush flushed retry_batch new_batch message flush_confirmed
  started-IsFresh now y (some batch) b p f v =
      elim (Bool-cases (is_expired now y.client.max_retry_duration y.client.pending_started_at)) [
        | inl late ↦ rw late (record {
          pending = confirmed-Fresh y.sent y.client (some batch) here refl;
          in_flight =
              subst (InFlightFresh (flush_confirmed y.client.pending_seq y.client)) (sym f) tt;
          never = v.never;
        })
        | inr fresh ↦
            let m : PublishInput = message codec converter y.client batch y.client.pending_seq in
            rw fresh (record {
              pending = subst (PendingFresh (y.sent ++ m ∷ []) y.client) (sym p) (
                here.0,
                All-snoc (UptoOrBatch y.client.sequence batch) y.sent m here.1 (inr (here.0, refl)),
              );
              in_flight = (refl, ap is_some p);
              never = NeverReused-snoc y.client.sequence y.sent m v.never here.1 here.0;
            })
      ]
    where
      here : PendingFresh y.sent y.client (some batch)
      here = subst (PendingFresh y.sent y.client) p v.pending
  started-IsFresh now y none [] p f v = v
  started-IsFresh now y none (x ∷ rest) p f v =
      elim (Result-cases (encode_buffer codec converter (x ∷ rest))) [
        | inl (e, g) ↦ rw g (record {
          pending = subst (PendingFresh y.sent (record y.client { buffer = [] })) (sym p) here;
          in_flight = subst (InFlightFresh (record y.client { buffer = [] })) (sym f) tt;
          never = v.never;
        })
        | inr (batch, g) ↦
            let m : PublishInput = message codec converter y.client batch (y.client.sequence + 1) in
            let all : All (UptoOrBatch y.client.sequence batch) y.sent =
              All-mono (Upto y.client.sequence) (UptoOrBatch y.client.sequence batch) y.sent
                (λ a h. inl h) here in
            rw g (record {
              pending = (
                omega arith,
                All-snoc (UptoOrBatch y.client.sequence batch) y.sent m all
                    (inr (omega arith, refl)),
              );
              in_flight = (refl, refl);
              never = NeverReused-snoc y.client.sequence y.sent m v.never all (omega arith);
            })
      ]
    where
      here : All (Upto y.client.sequence) y.sent
      here = subst (PendingFresh y.sent y.client) p v.pending

  flush_unless-IsFresh :
      (now : ℕ) (y : System V P) (o : Option PublishInput)
      → y.in_flight ≡ o
      → IsFresh y
      → IsFresh (flush_unless codec converter o now y)
  unfolding flush_unless do_flush
  flush_unless-IsFresh now y (some m) f v = v
  flush_unless-IsFresh now y none f v =
      started-IsFresh now y y.client.pending y.client.buffer refl f v

  arrive-IsFresh :
      (now : ℕ) (o : Option PublishInput) (y : System V P)
      → IsFresh y
      → IsFresh (arrive codec converter now o y)
  unfolding arrive
  arrive-IsFresh now none y v = v
  arrive-IsFresh now (some m) y v = record {
    pending = v.pending;
    in_flight = v.in_flight;
    never = v.never;
  }

  publish-IsFresh :
      (topic : String) (value : V) (force_flush : Bool) (y : System V P)
      → IsFresh y
      → IsFresh (system_step codec converter (publishes topic value force_flush) y)
  unfolding system_step publish_value
  publish-IsFresh topic value force_flush y v = record {
    pending = kept y.client.pending v.pending;
    in_flight = sending_kept y.in_flight v.in_flight;
    never = v.never;
  }
    where
      kept :
          (o : Option (List PublishEntry))
          → PendingFresh y.sent y.client o
          → PendingFresh y.sent (publish_value topic value force_flush y.client) o
      kept none h = h
      kept (some batch) h = h

      sending_kept :
          (o : Option PublishInput)
          → InFlightFresh y.client o
          → InFlightFresh (publish_value topic value force_flush y.client) o
      sending_kept none h = h
      sending_kept (some m) h = h

  run-IsFresh :
      (es : List (Event V)) (y : System V P) → IsFresh y → IsFresh (system_run codec converter es y)
  unfolding system_run
  run-IsFresh [] y v = v
  run-IsFresh (publishes topic value force_flush ∷ es) y v =
      run-IsFresh es _ (publish-IsFresh topic value force_flush y v)
  run-IsFresh (flushes now ∷ es) y v =
      run-IsFresh es _ (unfold system_step in flush_unless-IsFresh now y y.in_flight refl v)
  run-IsFresh (arrives k now ∷ es) y v =
      run-IsFresh es _ (unfold system_step in arrive-IsFresh now (nth y.sent k) y v)
  run-IsFresh (confirmed ∷ es) y v =
      run-IsFresh es _ (unfold system_step in confirm-IsFresh y y.in_flight refl v)
  run-IsFresh (call_failed ∷ es) y v =
      run-IsFresh es _
        (unfold system_step in record { pending = v.pending; in_flight = tt; never = v.never })

  initial-IsFresh :
      (id : String) (most : Option ℕ) (retry : ℕ) → IsFresh (initial {V = V} {P = P} id most retry)
  unfolding initial new_client
  initial-IsFresh id most retry = record {
    pending = tt;
    in_flight = tt;
    never = λ i j a b h k e. absurd cc;
  }

  -- In any run, also one in which flushes time out or fail to encode, two signals that were sent
  -- under one sequence carry the same items.
  pub sequence_never_reused :
      (id : String) (most : Option ℕ) (retry : ℕ) (es : List (Event V)) (i j : ℕ)
      (a b : PublishInput)
      → nth (system_run codec converter es (initial {V = V} {P = P} id most retry)).sent i ≡ some a
      → nth (system_run codec converter es (initial {V = V} {P = P} id most retry)).sent j ≡ some b
      → a.sequence ≡ b.sequence
      → a.items ≡ b.items
  sequence_never_reused id most retry es i j a b h k e =
      (run-IsFresh es (initial id most retry) (initial-IsFresh id most retry)).never i j a b h k e
