-- ===== src/StreamClient/Losses.antt =====
-- What a flush that throws loses, and what the producer hears of it.
use sdk_typescript.Prelude.{
  ℕ, ◌<◌, ◌≡◌, refl, ap, ◌∙◌, inl, inr, true, false, Option, none, some, List, [], ◌∷◌, ◌++◌, arith,
  ◌-◌,
}
use sdk_typescript.Errors.{JsError}
use sdk_typescript.Activator.{throw}
use sdk_typescript.Streams.{Codec, PublishEntry}
use sdk_typescript.Streams.Log.{Result-cases}
use sdk_typescript.StreamClient.{
  Buffered, Converter, WorkflowStreamClient, nothing_to_send, flush_timeout, encoding_failed,
  throw_pending_flusher_error, flush_target, flush_target_of, flusher_round, payload_of,
  encode_buffer, retry_batch, new_batch, start_flush, do_flush, is_expired,
}

module _ {V P : Type 0} (codec : Codec P) (converter : Converter V P) where
  -- One value that does not convert fails the whole buffer.
  encode_buffer-throw :
      (xs ys : List (Buffered V)) (x : Buffered V) (e : JsError)
      → payload_of codec converter x.value ≡ throw e
      → (e' : JsError) × (encode_buffer codec converter (xs ++ x ∷ ys) ≡ throw e')
  unfolding encode_buffer
  encode_buffer-throw [] ys x e h = (e, ground arith)
  encode_buffer-throw (z ∷ zs) ys x e h = elim (Result-cases (payload_of codec converter z.value)) [
    | inl (e', f) ↦ (e', ground arith)
    | inr (p, f) ↦ let (e', g) = encode_buffer-throw zs ys x e h in (e', ground arith)
  ]

  start_flush-throw :
      (now : ℕ) (o : Option (List PublishEntry)) (b : List (Buffered V))
      (c : WorkflowStreamClient V) (e : JsError)
      → o ≡ none
      → encode_buffer codec converter b ≡ throw e
      → start_flush codec converter now o b c ≡ (encoding_failed e, record c { buffer = [] })
  unfolding start_flush new_batch encode_buffer
  start_flush-throw now (some batch) b c e p h = absurd cc
  start_flush-throw now none [] c e p h = absurd cc
  start_flush-throw now none (x ∷ xs) c e p h = rw h refl

  start_flush-nil :
      (now : ℕ) (o : Option (List PublishEntry)) (c : WorkflowStreamClient V)
      → o ≡ none
      → start_flush codec converter now o [] c ≡ (nothing_to_send, c)
  unfolding start_flush
  start_flush-nil now (some batch) c p = absurd cc
  start_flush-nil now none c p = refl

  flush_target_of-nil :
      (o : Option (List PublishEntry)) (c : WorkflowStreamClient V)
      → o ≡ none
      → flush_target_of c o [] ≡ none
  unfolding flush_target_of
  flush_target_of-nil (some batch) c p = absurd cc
  flush_target_of-nil none c p = refl

  -- If nothing is pending and one value of the buffer cannot be converted, the flush throws, the
  -- flusher records no error, and the whole buffer is gone: the next flush sends nothing and
  -- flush() has nothing to wait for.
  pub unconvertible_value_drops_buffer :
      (now later : ℕ) (xs ys : List (Buffered V)) (x : Buffered V) (e : JsError)
      (c : WorkflowStreamClient V)
      → c.pending ≡ none
      → c.buffer ≡ xs ++ x ∷ ys
      → payload_of codec converter x.value ≡ throw e
      → let (r, after) = do_flush codec converter now c in
        ((e' : JsError) × (r ≡ encoding_failed e'))
        × (do_flush codec converter later after ≡ (nothing_to_send, after))
        × (flush_target after ≡ none)
        × ((flusher_round r after).1.flusher_error ≡ c.flusher_error)
  unfolding do_flush flusher_round flush_target
  unconvertible_value_drops_buffer now later xs ys x e c p b h =
      let (e', f) = encode_buffer-throw xs ys x e h in
      let after : WorkflowStreamClient V = record c { buffer = [] } in
      rw
        (start_flush-throw now c.pending c.buffer c e' p (ap (encode_buffer codec converter) b ∙ f))
        (
          (e', refl),
          start_flush-nil later c.pending after p,
          flush_target_of-nil c.pending after p,
          refl,
        )

  -- If the pending batch is older than the retry limit, the flusher's flush gives it up, keeps the
  -- buffer and the sequence that the batch had as the last used one, and ends the loop; the next
  -- check of the flusher's error throws, and the one after it does not.
  pub flush_timeout_surfaces :
      (now started : ℕ) (batch : List PublishEntry) (c : WorkflowStreamClient V)
      → c.pending ≡ some batch
      → c.pending_started_at ≡ some started
      → c.max_retry_duration < now - started
      → let (r, after) = do_flush codec converter now c in
        let (goes_on, stopped) = flusher_round r after in
        (r ≡ flush_timeout)
        × (goes_on ≡ false)
        × ((throw_pending_flusher_error stopped).0 ≡ true)
        × ((throw_pending_flusher_error (throw_pending_flusher_error stopped).1).0 ≡ false)
        × (after.sequence ≡ c.pending_seq)
        × (after.buffer ≡ c.buffer)
  unfolding do_flush flusher_round throw_pending_flusher_error start_flush retry_batch is_expired
  flush_timeout_surfaces now started batch c p s h = ground arith
