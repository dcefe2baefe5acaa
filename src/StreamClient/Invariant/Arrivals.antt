-- ===== src/StreamClient/Invariant/Arrivals.antt =====
-- A signal that arrives keeps the invariant: it is the next batch, or it is stale.
use sdk_typescript.Prelude.{
  ℕ, suc, ◌≤◌, String, ◌≡◌, refl, ◌∙◌, subst, false, Option, none, some, List, string_same, arith,
  ◌==◌, length, take,
}
use native.Mathlib.Decide.{dec_le}
use sdk_typescript.Activator.{ok}
use sdk_typescript.Streams.{Codec, PublishEntry, PublishInput, lookup, on_publish}
use sdk_typescript.Streams.Publishing.{on_publish-fresh, on_publish-stale}
use sdk_typescript.StreamClient.{Converter}
use sdk_typescript.StreamClient.System.{System, arrive}
use sdk_typescript.StreamClient.Logged.{
  concat-snoc, nth-lt-length, take-suc, logged-append, encode_buffer-decoded,
}
use sdk_typescript.StreamClient.Invariant.{
  IsBatch, PendingIsLast, CarriesBatch, accepted_upto, IsConsistent,
}
use sdk_typescript.StreamClient.Invariant.Flushes.{All-mono}

module _ {V P : Type 0} (codec : Codec P) (converter : Converter V P) (id : String) where
  -- All batches but the last one are confirmed.
  cut-le-confirmed :
      (y : System V P) (o : Option (List PublishEntry))
      → PendingIsLast codec converter id y.batches y.client o
      → length y.batches ≤ suc y.client.sequence
  cut-le-confirmed y none h = omega (arith, h)
  cut-le-confirmed y (some batch) (h, k, b) = omega (arith, k)

  stale_arrival :
      (now : ℕ) (y : System V P) (m : PublishInput)
      → IsConsistent codec converter id y
      → (id == "") ≡ false
      → m.publisher_id ≡ id
      → m.sequence ≤ accepted_upto codec converter id y
      → IsConsistent codec converter id (arrive codec converter now (some m) y)
  unfolding arrive
  stale_arrival now y m v given named stale =
      rw (on_publish-stale codec now m y.stream (rw named given) (rw named stale)) (record {
        named = v.named;
        split = v.split;
        pending = v.pending;
        sent = v.sent;
        in_flight = v.in_flight;
        confirmed_accepted = v.confirmed_accepted;
        accepted_cut = v.accepted_cut;
        accepted = (stale, v.accepted);
        log = v.log;
      })

  next_arrival :
      (now : ℕ) (y : System V P) (m : PublishInput)
      → IsConsistent codec converter id y
      → (id == "") ≡ false
      → ((p : P) → codec.decode (codec.encode p) ≡ ok p)
      → m.publisher_id ≡ id
      → m.sequence ≡ suc (accepted_upto codec converter id y)
      → IsBatch codec converter id y.batches (accepted_upto codec converter id y) m.items
      → IsConsistent codec converter id (arrive codec converter now (some m) y)
  unfolding arrive
  next_arrival now y m v given back named next (raw, at, enc) =
      let (l, raw_l, items_l) = encode_buffer-decoded codec converter back raw m.items enc in
      let (log, recorded) =
        on_publish-fresh codec now m l y.stream (rw named given) (rw named (omega (arith, next)))
          items_l in
      let upto : accepted_upto codec converter id (arrive codec converter now (some m) y)
          ≡ suc (accepted_upto codec converter id y) =
        subst
          (λ i.
            lookup i (on_publish codec now m y.stream).1.publisher_sequences
            ≡ suc (accepted_upto codec converter id y))
          named (recorded ∙ next) in
      record {
        named = v.named;
        split = v.split;
        pending = v.pending;
        sent = v.sent;
        in_flight = v.in_flight;
        confirmed_accepted = omega (arith, upto, v.confirmed_accepted);
        accepted_cut = omega (arith, upto, nth-lt-length y.batches _ raw at);
        accepted = (
          omega (arith, upto, next),
          All-mono (λ n. n ≤ accepted_upto codec converter id y)
              (λ n. n ≤ accepted_upto codec converter id (arrive codec converter now (some m) y))
              y.accepted (λ n h. omega (arith, upto, h)) v.accepted,
        );
        log =
            rw
              (
                upto,
                log,
                take-suc y.batches _ raw at,
                concat-snoc (take (accepted_upto codec converter id y) y.batches) raw,
              )
              (logged-append codec converter _ raw y.stream.log l v.log raw_l);
      }

  pub arrive-IsConsistent :
      (now : ℕ) (y : System V P) (o : Option PublishInput)
      → IsConsistent codec converter id y
      → (id == "") ≡ false
      → ((p : P) → codec.decode (codec.encode p) ≡ ok p)
      → ((m : PublishInput) → o ≡ some m → CarriesBatch codec converter id y.batches m)
      → IsConsistent codec converter id (arrive codec converter now o y)
  unfolding arrive
  arrive-IsConsistent now y none v given back carries = v
  arrive-IsConsistent now y (some m) v given back carries =
      let (k, named, numbered, batch) = carries m refl in
      elim (dec_le m.sequence (accepted_upto codec converter id y)) [
        | yes stale ↦ stale_arrival now y m v given named stale
        | no fresh ↦
            let here : k ≡ accepted_upto codec converter id y = omega (
              arith,
              numbered,
              nth-lt-length y.batches k batch.0 batch.1,
              v.confirmed_accepted,
              cut-le-confirmed y y.client.pending v.pending,
            ) in
            next_arrival now y m v given back named (omega (arith, here, numbered))
              (subst (λ (i : ℕ). IsBatch codec converter id y.batches i m.items) here batch)
      ]
