-- ===== src/StreamClient/Barrier.antt =====
-- flush() waits for a sequence; once that is confirmed, all that was published before the call is
-- in the log.
pub mod Covered
use sdk_typescript.Prelude.{
  contains, ℕ, zero, suc, ◌≤◌, String, ◌≡◌, refl, sym, ap, ◌∙◌, subst, ◌⊎◌, inl, inr, false, Option,
  none, some, List, [], ◌∷◌, ◌++◌, append-nil, append_assoc, string_same, arith, ◌==◌, length, take,
  Bool-cases, length-append,
}
use sdk_typescript.Activator.{ok}
use sdk_typescript.Streams.{Codec, PublishEntry, PublishInput}
use sdk_typescript.Streams.Log.{nth, Result-cases}
use sdk_typescript.StreamClient.{
  Buffered, Converter, publish_value, flush_confirmed, do_flush, start_flush, retry_batch,
  new_batch, is_expired, encode_buffer, flush_target, flush_target_of, base_seq,
}
use sdk_typescript.StreamClient.System.{
  System, Event, publishes, flushes, arrives, confirmed, call_failed, initial, cut, flushed,
  confirm, flush_unless, arrive, system_step, system_run,
}
use sdk_typescript.StreamClient.Logged.{concat, concat-snoc, logged, take-length, take-snoc}
use sdk_typescript.StreamClient.Invariant.{PendingIsLast, accepted_upto, IsConsistent}
use sdk_typescript.StreamClient.Invariant.Steps.{run-IsConsistent, run-lost, initial-IsConsistent}
use sdk_typescript.StreamClient.Barrier.Covered.{
  run-IsCovered, Covers, Covers-append, Covers-snoc, take_prefix, IsCovered,
}

module _ {V P : Type 0} (codec : Codec P) (converter : Converter V P) where
  target-Covers :
      (id : String) (y : System V P) (t : ℕ) (o : Option (List PublishEntry))
      (b : List (Buffered V))
      → PendingIsLast codec converter id y.batches y.client o
      → y.client.buffer ≡ b
      → y.published ≡ concat y.batches ++ y.client.buffer
      → flush_target_of y.client o b ≡ some t
      → IsCovered t y.published y
  unfolding flush_target_of base_seq
  target-Covers id y t none [] last e split h = absurd cc
  target-Covers id y t (some batch) [] (last, _, _) e split h =
      let here : t ≡ length y.batches = ground arith in
      (
        [],
        inl (
          omega (arith, here),
          ap (λ (k : ℕ). concat (take k y.batches)) here
              ∙ ap concat (take-length y.batches)
              ∙ sym (
                  append-nil y.published
                  ∙ split
                  ∙ ap (λ u. concat y.batches ++ u) e
                  ∙ append-nil (concat y.batches)),
        ),
      )
  target-Covers id y t none (x ∷ xs) last e split h =
      ([], inr (ground arith, sym (append-nil y.published ∙ split)))
  target-Covers id y t (some batch) (x ∷ xs) (last, _, _) e split h =
      ([], inr (ground arith, sym (append-nil y.published ∙ split)))

  covered-logged :
      (id : String) (t : ℕ) (xs : List (Buffered V)) (z : System V P)
      → IsConsistent codec converter id z
      → t ≤ z.client.sequence
      → IsCovered t xs z
      → (rest : List (Buffered V)) × (logged codec converter (xs ++ rest) ≡ ok z.stream.log)
  covered-logged id t xs z v reached (rest, inr (h, e)) =
      absurd (omega (arith, h, reached, v.confirmed_accepted, v.accepted_cut))
  covered-logged id t xs z v reached (rest, inl (h, e)) =
      let (more, f) =
        take_prefix t (accepted_upto codec converter id z) z.batches
          (omega (arith, reached, v.confirmed_accepted)) in
      (
        rest ++ more,
        ap (logged codec converter)
              (sym (append_assoc xs rest more) ∙ sym (ap (λ u. u ++ more) e) ∙ sym f)
            ∙ v.log,
      )

  -- If flush() is called and later the confirmed sequence has reached the one that the call waits
  -- for, with no flush that threw so far, then the log starts with all that was published before
  -- the call. The client has an id, and the codec decodes what it encoded.
  pub flush_barrier :
      (id : String) (most : Option ℕ) (retry t : ℕ) (before after : List (Event V))
      → (id == "") ≡ false
      → ((p : P) → codec.decode (codec.encode p) ≡ ok p)
      → flush_target (system_run codec converter before (initial id most retry)).client ≡ some t
      → (system_run codec converter after
          (system_run codec converter before (initial id most retry))).lost
        ≡ false
      → t
        ≤ (system_run codec converter after
            (system_run codec converter before (initial id most retry))).client.sequence
      → let y = system_run codec converter before (initial id most retry) in
        let z = system_run codec converter after y in
        (rest : List (Buffered V)) × (logged codec converter (y.published ++ rest)
          ≡ ok z.stream.log)
  unfolding flush_target
  flush_barrier id most retry t before after given back target kept reached =
      let y : System V P = system_run codec converter before (initial id most retry) in
      let z : System V P = system_run codec converter after y in
      let v : IsConsistent codec converter id y =
        run-IsConsistent codec converter id before (initial id most retry) given back
          (initial-IsConsistent codec converter id most retry)
          (run-lost codec converter id after y kept) in
      covered-logged id t y.published z
        (run-IsConsistent codec converter id after y given back v kept) reached
        (run-IsCovered codec converter t y.published after y kept
          (target-Covers id y t y.client.pending y.client.buffer v.pending refl v.split target))
