-- ===== src/StreamClient/Invariant/Steps.antt =====
-- Every event keeps the invariant, and a run from a new client and a new stream has it.
use sdk_typescript.Prelude.{
  contains, ℕ, zero, suc, ◌≤◌, String, ◌≡◌, refl, sym, ◌∙◌, subst, inl, inr, Bool, true, false,
  Option, none, some, List, [], ◌∷◌, append_assoc, string_same, arith, ◌==◌, All, Bool-cases,
}
use sdk_typescript.JsMap.{get}
use sdk_typescript.Activator.{ok}
use sdk_typescript.Streams.{Codec, PublishEntry, PublishInput, lookup}
use sdk_typescript.Streams.Log.{nth}
use sdk_typescript.StreamClient.{
  Converter, WorkflowStreamClient, FlushStart, nothing_to_send, flush_timeout, encoding_failed,
  sending, publish_value, flush_confirmed, new_client, do_flush,
}
use sdk_typescript.StreamClient.System.{
  System, Event, publishes, flushes, arrives, confirmed, call_failed, initial, flushed, confirm,
  flush_unless, arrive, system_step, system_run,
}
use sdk_typescript.StreamClient.Logged.{concat, logged}
use sdk_typescript.StreamClient.Invariant.{
  PendingIsLast, CarriesBatch, InFlightIsPending, IsConsistent,
}
use sdk_typescript.StreamClient.Invariant.Flushes.{flush_unless-IsConsistent}
use sdk_typescript.StreamClient.Invariant.Arrivals.{arrive-IsConsistent}

nth-All {κ} :
    {A : Type 0} (Q : A → Type κ) (xs : List A) (k : ℕ) (x : A) → All Q xs → nth xs k ≡ some x → Q x
nth-All Q [] k x h e = absurd cc
nth-All Q (y ∷ ys) zero x (h, hs) e = subst Q (ground arith) h
nth-All Q (y ∷ ys) (suc k) x (h, hs) e = nth-All Q ys k x hs e

contains-le : (n m : ℕ) (xs : List ℕ) → All (λ x. x ≤ m) xs → contains n xs ≡ true → n ≤ m
contains-le n m [] h e = absurd cc
contains-le n m (x ∷ xs) (h, hs) e = ground (arith, contains-le n m xs hs)

module _ {V P : Type 0} (codec : Codec P) (converter : Converter V P) (id : String) where
  publish-IsConsistent :
      (topic : String) (value : V) (force_flush : Bool) (y : System V P)
      → IsConsistent codec converter id y
      → IsConsistent codec converter id
          (system_step codec converter (publishes topic value force_flush) y)
  unfolding system_step publish_value
  publish-IsConsistent topic value force_flush y v = record {
    named = v.named;
    split = rw v.split (
        append_assoc (concat y.batches) y.client.buffer
          (record { topic = topic; value = value } ∷ []));
    pending = kept y.client.pending v.pending;
    sent = v.sent;
    in_flight = sending_kept y.in_flight v.in_flight;
    confirmed_accepted = v.confirmed_accepted;
    accepted_cut = v.accepted_cut;
    accepted = v.accepted;
    log = v.log;
  }
    where
      kept :
          (o : Option (List PublishEntry))
          → PendingIsLast codec converter id y.batches y.client o
          → PendingIsLast codec converter id y.batches
              (publish_value topic value force_flush y.client)
              o
      kept none h = h
      kept (some batch) h = h

      sending_kept :
          (o : Option PublishInput)
          → InFlightIsPending codec converter id y o
          → InFlightIsPending codec converter id
              (system_step codec converter (publishes topic value force_flush) y)
              o
      sending_kept none h = h
      sending_kept (some m) h = h

  confirm-IsConsistent :
      (y : System V P) (o : Option PublishInput)
      → y.in_flight ≡ o
      → IsConsistent codec converter id y
      → IsConsistent codec converter id (confirm o y)
  unfolding confirm flush_confirmed
  confirm-IsConsistent y none e v = v
  confirm-IsConsistent y (some m) e v = elim (Bool-cases (contains m.sequence y.accepted)) [
    | inl seen ↦ rw seen (record {
      named = v.named;
      split = v.split;
      pending = here.0;
      sent = v.sent;
      in_flight = tt;
      confirmed_accepted = contains-le m.sequence _ y.accepted v.accepted seen;
      accepted_cut = v.accepted_cut;
      accepted = v.accepted;
      log = v.log;
    })
    | inr unseen ↦ rw unseen v
  ]
    where
      here : InFlightIsPending codec converter id y (some m)
      here = subst (InFlightIsPending codec converter id y) e v.in_flight

  pub step-IsConsistent :
      (e : Event V) (y : System V P)
      → (id == "") ≡ false
      → ((p : P) → codec.decode (codec.encode p) ≡ ok p)
      → IsConsistent codec converter id y
      → (system_step codec converter e y).lost ≡ false
      → IsConsistent codec converter id (system_step codec converter e y)
  step-IsConsistent (publishes topic value force_flush) y given back v kept =
      publish-IsConsistent topic value force_flush y v
  step-IsConsistent (flushes now) y given back v kept =
      unfold system_step in flush_unless-IsConsistent codec converter id now y y.in_flight v kept
  step-IsConsistent (arrives k now) y given back v kept =
      unfold system_step in
      arrive-IsConsistent codec converter id now y (nth y.sent k) v given back
        (λ m e. nth-All (CarriesBatch codec converter id y.batches) y.sent k m v.sent e)
  step-IsConsistent confirmed y given back v kept =
      unfold system_step in confirm-IsConsistent y y.in_flight refl v
  step-IsConsistent call_failed y given back v kept =
      unfold system_step in
      record {
        named = v.named;
        split = v.split;
        pending = v.pending;
        sent = v.sent;
        in_flight = tt;
        confirmed_accepted = v.confirmed_accepted;
        accepted_cut = v.accepted_cut;
        accepted = v.accepted;
        log = v.log;
      }

  flushed-lost :
      (r : FlushStart) (c : WorkflowStreamClient V) (y : System V P)
      → (flushed r c y).lost ≡ false
      → y.lost ≡ false
  unfolding flushed
  flushed-lost nothing_to_send c y h = h
  flushed-lost flush_timeout c y h = absurd cc
  flushed-lost (encoding_failed e) c y h = absurd cc
  flushed-lost (sending m) c y h = h

  flush_unless-lost :
      (o : Option PublishInput) (now : ℕ) (y : System V P)
      → (flush_unless codec converter o now y).lost ≡ false
      → y.lost ≡ false
  unfolding flush_unless
  flush_unless-lost (some m) now y h = h
  flush_unless-lost none now y h =
      let (r, c) = do_flush codec converter now y.client in flushed-lost r c y h

  arrive-lost :
      (now : ℕ) (o : Option PublishInput) (y : System V P)
      → (arrive codec converter now o y).lost ≡ y.lost
  unfolding arrive
  arrive-lost now none y = refl
  arrive-lost now (some m) y = refl

  confirm-lost : (o : Option PublishInput) (y : System V P) → (confirm o y).lost ≡ y.lost
  unfolding confirm
  confirm-lost none y = refl
  confirm-lost (some m) y = ground arith

  pub step-lost :
      (e : Event V) (y : System V P)
      → (system_step codec converter e y).lost ≡ false
      → y.lost ≡ false
  unfolding system_step
  step-lost (publishes topic value force_flush) y h = h
  step-lost (flushes now) y h = flush_unless-lost y.in_flight now y h
  step-lost (arrives k now) y h = sym (arrive-lost now (nth y.sent k) y) ∙ h
  step-lost confirmed y h = sym (confirm-lost y.in_flight y) ∙ h
  step-lost call_failed y h = h

  pub run-lost :
      (es : List (Event V)) (y : System V P)
      → (system_run codec converter es y).lost ≡ false
      → y.lost ≡ false
  unfolding system_run
  run-lost [] y h = h
  run-lost (e ∷ es) y h = step-lost e y (run-lost es (system_step codec converter e y) h)

  pub run-IsConsistent :
      (es : List (Event V)) (y : System V P)
      → (id == "") ≡ false
      → ((p : P) → codec.decode (codec.encode p) ≡ ok p)
      → IsConsistent codec converter id y
      → (system_run codec converter es y).lost ≡ false
      → IsConsistent codec converter id (system_run codec converter es y)
  unfolding system_run
  run-IsConsistent [] y given back v kept = v
  run-IsConsistent (e ∷ es) y given back v kept =
      let z : System V P = system_step codec converter e y in
      run-IsConsistent es z given back (step-IsConsistent e y given back v (run-lost es z kept))
        kept

  pub initial-IsConsistent :
      (most : Option ℕ) (retry : ℕ) → IsConsistent codec converter id (initial id most retry)
  unfolding initial new_client logged lookup get
  initial-IsConsistent most retry = record {
    named = refl;
    split = refl;
    pending = refl;
    sent = tt;
    in_flight = tt;
    confirmed_accepted = omega arith;
    accepted_cut = omega arith;
    accepted = tt;
    log = refl;
  }
