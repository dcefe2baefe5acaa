-- ===== src/StreamClient/Invariant/Flushes.antt =====
-- A flush keeps the invariant, or throws.
use sdk_typescript.Prelude.{
  ℕ, suc, ◌+◌, String, ◌≡◌, refl, sym, ◌∙◌, subst, inl, inr, false, Option, none, some, List, [],
  ◌∷◌, ◌++◌, append-nil, arith, length, All, Bool-cases, length-append,
}
use sdk_typescript.Activator.{ok}
use sdk_typescript.Streams.{Codec, PublishEntry, PublishInput}
use sdk_typescript.Streams.Log.{Result-cases}
use sdk_typescript.StreamClient.{
  Buffered, Converter, encode_buffer, do_flush, start_flush, retry_batch, new_batch, message,
  is_expired,
}
use sdk_typescript.StreamClient.System.{System, cut, flushed, flush_unless}
use sdk_typescript.StreamClient.Logged.{concat-snoc, nth-snoc, nth-snoc_last, take-snoc}
use sdk_typescript.StreamClient.Invariant.{
  IsBatch, PendingIsLast, CarriesBatch, accepted_upto, IsConsistent,
}

module _ {A : Type 0} where
  pub All-snoc {κ} : (Q : A → Type κ) (xs : List A) (x : A) → All Q xs → Q x → All Q (xs ++ x ∷ [])
  All-snoc Q [] x h q = (q, tt)
  All-snoc Q (y ∷ ys) x (h, hs) q = (h, All-snoc Q ys x hs q)

  pub All-mono {κ} : (Q R : A → Type κ) (xs : List A) → ((x : A) → Q x → R x) → All Q xs → All R xs
  All-mono Q R [] f h = tt
  All-mono Q R (x ∷ xs) f (h, hs) = (f x h, All-mono Q R xs f hs)

module _ {V P : Type 0} (codec : Codec P) (converter : Converter V P) (id : String) where
  CarriesBatch-snoc :
      (batches : List (List (Buffered V))) (raw : List (Buffered V)) (m : PublishInput)
      → CarriesBatch codec converter id batches m
      → CarriesBatch codec converter id (batches ++ raw ∷ []) m
  CarriesBatch-snoc batches raw m (k, named, numbered, (b, at, enc)) =
      (k, named, numbered, (b, nth-snoc batches raw b k at, enc))

  -- The same batch is sent again.
  sent_again :
      (y : System V P) (batch : List PublishEntry)
      → IsConsistent codec converter id y
      → y.client.pending ≡ some batch
      → let m = message codec converter y.client batch y.client.pending_seq in
        IsConsistent codec converter id (record y { sent = y.sent ++ m ∷ []; in_flight = some m })
  unfolding message
  sent_again y batch v p = record {
    named = v.named;
    split = v.split;
    pending = v.pending;
    sent =
        All-snoc (CarriesBatch codec converter id y.batches) y.sent _ v.sent
          (y.client.sequence, v.named, omega (arith, here.0, here.1), here.2);
    in_flight = (here.0, ground arith);
    confirmed_accepted = v.confirmed_accepted;
    accepted_cut = v.accepted_cut;
    accepted = v.accepted;
    log = v.log;
  }
    where
      here : PendingIsLast codec converter id y.batches y.client (some batch)
      here = subst (PendingIsLast codec converter id y.batches y.client) p v.pending

  -- The buffer is cut off as a new batch and sent.
  cut_sent :
      (now : ℕ) (y : System V P) (batch : List PublishEntry)
      → IsConsistent codec converter id y
      → y.client.pending ≡ none
      → encode_buffer codec converter y.client.buffer ≡ ok batch
      → let m = message codec converter y.client batch (y.client.sequence + 1) in
        IsConsistent codec converter id (record y {
          client = (new_batch codec converter now (ok batch) y.client).1;
          sent = y.sent ++ m ∷ [];
          in_flight = some m;
          batches = y.batches ++ y.client.buffer ∷ [];
        })
  unfolding message new_batch
  cut_sent now y batch v p enc = record {
    named = v.named;
    split = v.split ∙ sym (append-nil _ ∙ concat-snoc y.batches y.client.buffer);
    pending = (longer, longer', last);
    sent =
        All-snoc (CarriesBatch codec converter id _) y.sent _
          (All-mono (CarriesBatch codec converter id y.batches)
            (CarriesBatch codec converter id (y.batches ++ y.client.buffer ∷ [])) y.sent
            (CarriesBatch-snoc y.batches y.client.buffer) v.sent)
          (y.client.sequence, v.named, omega arith, last);
    in_flight = (longer, refl);
    confirmed_accepted = v.confirmed_accepted;
    accepted_cut = omega (arith, v.accepted_cut, length-append y.batches (y.client.buffer ∷ []));
    accepted = v.accepted;
    log =
        rw (take-snoc y.batches y.client.buffer (accepted_upto codec converter id y) v.accepted_cut)
          v.log;
  }
    where
      here : y.client.sequence ≡ length y.batches
      here = subst (PendingIsLast codec converter id y.batches y.client) p v.pending

      longer : y.client.sequence + 1 ≡ length (y.batches ++ y.client.buffer ∷ [])
      longer = omega (arith, here, length-append y.batches (y.client.buffer ∷ []))

      longer' : suc y.client.sequence ≡ length (y.batches ++ y.client.buffer ∷ [])
      longer' = omega (arith, longer)

      last : IsBatch codec converter id (y.batches ++ y.client.buffer ∷ []) y.client.sequence batch
      last = (y.client.buffer, rw here (nth-snoc_last y.batches y.client.buffer), enc)

  retried :
      (now : ℕ) (y : System V P) (batch : List PublishEntry)
      → IsConsistent codec converter id y
      → y.client.pending ≡ some batch
      → let (r, c) = retry_batch codec converter now batch y.client in
        (flushed r c y).lost ≡ false → IsConsistent codec converter id (flushed r c y)
  unfolding retry_batch flushed cut
  retried now y batch v p kept =
      elim (Bool-cases (is_expired now y.client.max_retry_duration y.client.pending_started_at)) [
        | inl late ↦ absurd (ground arith)
        | inr fresh ↦
            let m : PublishInput = message codec converter y.client batch y.client.pending_seq in
            rw fresh (
              subst
                (λ o.
                  IsConsistent codec converter id
                    (record y { sent = y.sent ++ m ∷ []; in_flight = some m; batches = cut o y }))
                (sym p) (sent_again y batch v p))
      ]

  cut_off :
      (now : ℕ) (y : System V P)
      → IsConsistent codec converter id y
      → y.client.pending ≡ none
      → let (r, c) =
          new_batch codec converter now (encode_buffer codec converter y.client.buffer) y.client in
        (flushed r c y).lost ≡ false → IsConsistent codec converter id (flushed r c y)
  unfolding flushed cut new_batch
  cut_off now y v p kept = elim (Result-cases (encode_buffer codec converter y.client.buffer)) [
    | inl (e, h) ↦ absurd (ground arith)
    | inr (batch, h) ↦
        let m : PublishInput = message codec converter y.client batch (y.client.sequence + 1) in
        rw h (
          subst
            (λ o. IsConsistent codec converter id (record y {
              client = (new_batch codec converter now (ok batch) y.client).1;
              sent = y.sent ++ m ∷ [];
              in_flight = some m;
              batches = cut o y;
            }))
            (sym p) (cut_sent now y batch v p h))
  ]

  started :
      (now : ℕ) (y : System V P) (o : Option (List PublishEntry)) (b : List (Buffered V))
      → IsConsistent codec converter id y
      → y.client.pending ≡ o
      → y.client.buffer ≡ b
      → let (r, c) = start_flush codec converter now o b y.client in
        (flushed r c y).lost ≡ false → IsConsistent codec converter id (flushed r c y)
  unfolding start_flush flushed
  started now y (some batch) b v p q = retried now y batch v p
  started now y none [] v p q = λ kept. v
  started now y none (x ∷ xs) v p q =
      subst
        (λ b.
          let (r, c) = new_batch codec converter now (encode_buffer codec converter b) y.client in
          (flushed r c y).lost ≡ false → IsConsistent codec converter id (flushed r c y))
        q (cut_off now y v p)

  pub flush_unless-IsConsistent :
      (now : ℕ) (y : System V P) (o : Option PublishInput)
      → IsConsistent codec converter id y
      → (flush_unless codec converter o now y).lost ≡ false
      → IsConsistent codec converter id (flush_unless codec converter o now y)
  unfolding flush_unless do_flush
  flush_unless-IsConsistent now y (some m) v kept = v
  flush_unless-IsConsistent now y none v kept =
      started now y y.client.pending y.client.buffer v refl refl kept
