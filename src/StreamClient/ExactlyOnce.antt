-- ===== src/StreamClient/ExactlyOnce.antt =====
-- The log holds what the producer published, once and in order, whatever signals are repeated,
-- delayed or lost on the way.
use sdk_typescript.Prelude.{
  ℕ, zero, suc, String, ◌≡◌, refl, sym, ap, ◌∙◌, subst, false, Option, none, List, [], ◌∷◌, ◌++◌,
  append-nil, append_assoc, string_same, arith, ◌==◌, length, take,
}
use sdk_typescript.Activator.{ok}
use sdk_typescript.Streams.{Codec}
use sdk_typescript.StreamClient.{Buffered, Converter}
use sdk_typescript.StreamClient.System.{System, Event, initial, system_run}
use sdk_typescript.StreamClient.Logged.{concat, logged, take-length}
use sdk_typescript.StreamClient.Invariant.{PendingIsLast, accepted_upto, IsConsistent}
use sdk_typescript.StreamClient.Invariant.Steps.{run-IsConsistent, initial-IsConsistent}

module _ {A : Type 0} where
  -- The rest of what a prefix of the parts leaves.
  pub concat-take :
      (n : ℕ) (xs : List (List A)) → (rest : List A) × (concat xs ≡ concat (take n xs) ++ rest)
  concat-take zero xs = (concat xs, refl)
  concat-take (suc n) [] = ([], refl)
  concat-take (suc n) (x ∷ xs) =
      let (rest, e) = concat-take n xs in
      (rest, ap (λ (t : List A). x ++ t) e ∙ sym (append_assoc x (concat (take n xs)) rest))

module _ {V P : Type 0} (codec : Codec P) (converter : Converter V P) where
  all_accepted :
      (id : String) (y : System V P)
      → IsConsistent codec converter id y
      → y.client.pending ≡ none
      → y.client.buffer ≡ []
      → logged codec converter y.published ≡ ok y.stream.log
  all_accepted id y v p b =
      let cut : y.client.sequence ≡ length y.batches =
        subst (PendingIsLast codec converter id y.batches y.client) p v.pending in
      let all : accepted_upto codec converter id y ≡ length y.batches =
        omega (arith, cut, v.confirmed_accepted, v.accepted_cut) in
      let here : y.published ≡ concat (take (accepted_upto codec converter id y) y.batches) =
        v.split
        ∙ ap (λ t. concat y.batches ++ t) b
        ∙ append-nil (concat y.batches)
        ∙ ap concat (sym (take-length y.batches))
        ∙ ap (λ (n : ℕ). concat (take n y.batches)) (sym all) in
      rw here v.log

  module _ (id : String) (most : Option ℕ) (retry : ℕ) (es : List (Event V)) where
    -- At every moment of a run in which no flush threw, the log of the stream is what a first part
    -- of the published values stands for, in order. The client has an id, and the codec decodes
    -- what it encoded.
    pub log_follows_published :
        (id == "") ≡ false
        → ((p : P) → codec.decode (codec.encode p) ≡ ok p)
        → (system_run codec converter es (initial id most retry)).lost ≡ false
        → let y = system_run codec converter es (initial id most retry) in
          (part rest : List (Buffered V)) × (y.published ≡ part ++ rest)
          × (logged codec converter part ≡ ok y.stream.log)
    log_follows_published given back kept =
        let y : System V P = system_run codec converter es (initial id most retry) in
        let v : IsConsistent codec converter id y =
          run-IsConsistent codec converter id es (initial id most retry) given back
            (initial-IsConsistent codec converter id most retry) kept in
        let n : ℕ = accepted_upto codec converter id y in
        let (rest, e) = concat-take n y.batches in
        (
          concat (take n y.batches),
          rest ++ y.client.buffer,
          v.split
              ∙ ap (λ t. t ++ y.client.buffer) e
              ∙ append_assoc (concat (take n y.batches)) rest y.client.buffer,
          v.log,
        )

    -- Whatever order of publications, flushes, confirmations, failed calls and late, repeated or
    -- lost arrivals of signals follows, if no flush threw and nothing is buffered or pending any
    -- more, the log of the stream is what the producer published: each value once, in that order.
    -- The client has an id, and the codec decodes what it encoded.
    pub drained_exactly_once :
        (id == "") ≡ false
        → ((p : P) → codec.decode (codec.encode p) ≡ ok p)
        → (system_run codec converter es (initial id most retry)).lost ≡ false
        → (system_run codec converter es (initial id most retry)).client.pending ≡ none
        → (system_run codec converter es (initial id most retry)).client.buffer ≡ []
        → let y = system_run codec converter es (initial id most retry) in
          logged codec converter y.published ≡ ok y.stream.log
    drained_exactly_once given back kept p b =
        all_accepted id (system_run codec converter es (initial id most retry))
          (run-IsConsistent codec converter id es (initial id most retry) given back
            (initial-IsConsistent codec converter id most retry) kept)
          p b
