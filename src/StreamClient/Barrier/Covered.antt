-- ===== src/StreamClient/Barrier/Covered.antt =====
-- What is published before a call of flush stays in the part of the log that the call waits for.
use sdk_typescript.Prelude.{
  contains, ℕ, zero, suc, ◌≤◌, ◌≡◌, refl, sym, ap, ◌∙◌, subst, ◌⊎◌, inl, inr, false, Option, none,
  some, List, [], ◌∷◌, ◌++◌, append_assoc, string_same, arith, length, take, Bool-cases,
  length-append,
}
use sdk_typescript.Streams.{Codec, PublishEntry, PublishInput}
use sdk_typescript.Streams.Log.{nth, Result-cases}
use sdk_typescript.StreamClient.{
  Buffered, Converter, publish_value, flush_confirmed, do_flush, start_flush, retry_batch,
  new_batch, is_expired, encode_buffer,
}
use sdk_typescript.StreamClient.System.{
  System, Event, publishes, flushes, arrives, confirmed, call_failed, cut, flushed, confirm,
  flush_unless, arrive, system_step, system_run,
}
use sdk_typescript.StreamClient.Logged.{concat, concat-snoc, take-length, take-snoc}
use sdk_typescript.StreamClient.Invariant.Steps.{run-lost}

module _ {A : Type 0} where
  -- The first `n` parts start with `xs`, or these parts and the buffer that becomes the next do.
  abbrev pub Covers : ℕ → List A → List (List A) → List A → Type 0
  Covers n xs parts buffer =
      (rest : List A) × (((n ≤ length parts) × (concat (take n parts) ≡ xs ++ rest))
        ⊎ ((n ≡ suc (length parts)) × (concat parts ++ buffer ≡ xs ++ rest)))

  pub Covers-append :
      (n : ℕ) (xs : List A) (parts : List (List A)) (buffer more : List A)
      → Covers n xs parts buffer
      → Covers n xs parts (buffer ++ more)
  Covers-append n xs parts buffer more (rest, inl h) = (rest, inl h)
  Covers-append n xs parts buffer more (rest, inr (h, e)) = (
    rest ++ more,
    inr (
      h,
      sym (append_assoc (concat parts) buffer more)
          ∙ ap (λ t. t ++ more) e
          ∙ append_assoc xs rest more,
    ),
  )

  pub Covers-snoc :
      (n : ℕ) (xs : List A) (parts : List (List A)) (buffer : List A)
      → Covers n xs parts buffer
      → Covers n xs (parts ++ buffer ∷ []) []
  Covers-snoc n xs parts buffer (rest, inl (h, e)) = (
    rest,
    inl (
      omega (arith, h, length-append parts (buffer ∷ [])),
      ap concat (take-snoc parts buffer n h) ∙ e,
    ),
  )
  Covers-snoc n xs parts buffer (rest, inr (h, e)) =
      let all : length (parts ++ buffer ∷ []) ≡ n =
        omega (arith, h, length-append parts (buffer ∷ [])) in
      (
        rest,
        inl (
          omega (arith, all),
          ap (λ (k : ℕ). concat (take k (parts ++ buffer ∷ []))) (sym all)
              ∙ ap concat (take-length (parts ++ buffer ∷ []))
              ∙ concat-snoc parts buffer
              ∙ e,
        ),
      )

  pub take_prefix :
      (n m : ℕ) (parts : List (List A))
      → n ≤ m
      → (rest : List A) × (concat (take m parts) ≡ concat (take n parts) ++ rest)
  take_prefix zero m parts h = (concat (take m parts), refl)
  take_prefix (suc n) zero parts h = absurd (omega arith)
  take_prefix (suc n) (suc m) [] h = ([], refl)
  take_prefix (suc n) (suc m) (x ∷ parts) h =
      let (rest, e) = take_prefix n m parts (omega arith) in
      (rest, ap (λ t. x ++ t) e ∙ sym (append_assoc x (concat (take n parts)) rest))

module _ {V P : Type 0} where
  abbrev pub IsCovered : ℕ → List (Buffered V) → System V P → Type 0
  IsCovered n xs y = Covers n xs y.batches y.client.buffer

module _ {V P : Type 0} (codec : Codec P) (converter : Converter V P) where
  module _ (n : ℕ) (xs : List (Buffered V)) where
    cut-pending :
        (y : System V P) (o : Option (List PublishEntry)) (batch : List PublishEntry)
        → o ≡ some batch
        → cut o y ≡ y.batches
    unfolding cut
    cut-pending y none batch h = absurd cc
    cut-pending y (some b) batch h = refl

    cut-none :
        (y : System V P) (o : Option (List PublishEntry))
        → o ≡ none
        → cut o y ≡ y.batches ++ y.client.buffer ∷ []
    unfolding cut
    cut-none y none h = refl
    cut-none y (some b) h = absurd cc

    started-IsCovered :
        (now : ℕ) (y : System V P) (o : Option (List PublishEntry)) (b : List (Buffered V))
        → y.client.pending ≡ o
        → let (r, c) = start_flush codec converter now o b y.client in
          (flushed r c y).lost ≡ false → IsCovered n xs y → IsCovered n xs (flushed r c y)
    unfolding start_flush flushed retry_batch new_batch
    started-IsCovered now y (some batch) b p kept h =
        elim (Bool-cases (is_expired now y.client.max_retry_duration y.client.pending_started_at)) [
          | inl late ↦ absurd (ground arith)
          | inr fresh ↦
              rw fresh
                (subst (λ t. Covers n xs t y.client.buffer) (sym (cut-pending y _ batch p)) h)
        ]
    started-IsCovered now y none [] p kept h = h
    started-IsCovered now y none (x ∷ rest) p kept h =
        elim (Result-cases (encode_buffer codec converter (x ∷ rest))) [
          | inl (e, f) ↦ absurd (ground arith)
          | inr (batch, f) ↦ rw f (
              subst (λ t. Covers n xs t []) (sym (cut-none y _ p))
                (Covers-snoc n xs y.batches y.client.buffer h))
        ]

    flush_unless-IsCovered :
        (o : Option PublishInput) (now : ℕ) (y : System V P)
        → (flush_unless codec converter o now y).lost ≡ false
        → IsCovered n xs y
        → IsCovered n xs (flush_unless codec converter o now y)
    unfolding flush_unless do_flush
    flush_unless-IsCovered (some m) now y kept h = h
    flush_unless-IsCovered none now y kept h =
        started-IsCovered now y y.client.pending y.client.buffer refl kept h

    arrive-IsCovered :
        (now : ℕ) (o : Option PublishInput) (y : System V P)
        → IsCovered n xs y
        → IsCovered n xs (arrive codec converter now o y)
    unfolding arrive
    arrive-IsCovered now none y h = h
    arrive-IsCovered now (some m) y h = h

    confirm-IsCovered :
        (o : Option PublishInput) (y : System V P) → IsCovered n xs y → IsCovered n xs (confirm o y)
    unfolding confirm flush_confirmed
    confirm-IsCovered none y h = h
    confirm-IsCovered (some m) y h = elim (Bool-cases (contains m.sequence y.accepted)) [
      | inl seen ↦ rw seen h
      | inr unseen ↦ rw unseen h
    ]

    step-IsCovered :
        (e : Event V) (y : System V P)
        → (system_step codec converter e y).lost ≡ false
        → IsCovered n xs y
        → IsCovered n xs (system_step codec converter e y)
    unfolding system_step publish_value
    step-IsCovered (publishes topic value force_flush) y kept h =
        Covers-append n xs y.batches y.client.buffer _ h
    step-IsCovered (flushes now) y kept h = flush_unless-IsCovered y.in_flight now y kept h
    step-IsCovered (arrives k now) y kept h = arrive-IsCovered now (nth y.sent k) y h
    step-IsCovered confirmed y kept h = confirm-IsCovered y.in_flight y h
    step-IsCovered call_failed y kept h = h

    pub run-IsCovered :
        (es : List (Event V)) (y : System V P)
        → (system_run codec converter es y).lost ≡ false
        → IsCovered n xs y
        → IsCovered n xs (system_run codec converter es y)
    unfolding system_run
    run-IsCovered [] y kept h = h
    run-IsCovered (e ∷ es) y kept h =
        let z : System V P = system_step codec converter e y in
        run-IsCovered es z kept (step-IsCovered e y (run-lost codec converter "" es z kept) h)
