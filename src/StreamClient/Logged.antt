-- ===== src/StreamClient/Logged.antt =====
-- What the batches of a client stand for in the log of the stream that they reach.
use sdk_typescript.Prelude.{
  ℕ, zero, suc, ◌≤◌, ◌<◌, ◌≡◌, refl, sym, ap, inl, inr, some, List, [], ◌∷◌, ◌++◌, append-nil,
  append_assoc, arith, length, take,
}
use sdk_typescript.Activator.{Result, ok, throw}
use sdk_typescript.Streams.{Codec, InternalLogEntry, PublishEntry}
use sdk_typescript.Streams.Log.{nth, Result-cases}
use sdk_typescript.Streams.Publishing.{decoded}
use sdk_typescript.StreamClient.{Buffered, Converter, payload_of, encode_buffer}

module _ {A : Type 0} where
  abbrev pub concat : List (List A) → List A
  concat [] = []
  concat (x ∷ xs) = x ++ concat xs

  pub concat-snoc : (xs : List (List A)) (x : List A) → concat (xs ++ x ∷ []) ≡ concat xs ++ x
  concat-snoc [] x = append-nil x
  concat-snoc (y ∷ ys) x = rw (concat-snoc ys x) (sym (append_assoc y (concat ys) x))

  pub nth-snoc : (xs : List A) (x y : A) (k : ℕ) → nth xs k ≡ some y → nth (xs ++ x ∷ []) k ≡ some y
  nth-snoc [] x y k h = absurd cc
  nth-snoc (z ∷ zs) x y zero h = h
  nth-snoc (z ∷ zs) x y (suc k) h = nth-snoc zs x y k h

  pub nth-snoc_last : (xs : List A) (x : A) → nth (xs ++ x ∷ []) (length xs) ≡ some x
  nth-snoc_last [] x = refl
  nth-snoc_last (z ∷ zs) x = nth-snoc_last zs x

  pub nth-lt-length : (xs : List A) (k : ℕ) (x : A) → nth xs k ≡ some x → k < length xs
  nth-lt-length [] k x h = absurd cc
  nth-lt-length (z ∷ zs) zero x h = omega arith
  nth-lt-length (z ∷ zs) (suc k) x h = omega (arith, nth-lt-length zs k x h)

  pub take-suc :
      (xs : List A) (k : ℕ) (x : A) → nth xs k ≡ some x → take (suc k) xs ≡ take k xs ++ x ∷ []
  take-suc [] k x h = absurd cc
  take-suc (z ∷ zs) zero x h = ground arith
  take-suc (z ∷ zs) (suc k) x h = ap (λ (t : List A). z ∷ t) (take-suc zs k x h)

  pub take-snoc : (xs : List A) (x : A) (k : ℕ) → k ≤ length xs → take k (xs ++ x ∷ []) ≡ take k xs
  take-snoc xs x zero h = refl
  take-snoc [] x (suc k) h = absurd (omega arith)
  take-snoc (z ∷ zs) x (suc k) h = ap (λ (t : List A). z ∷ t) (take-snoc zs x k (omega arith))

  pub take-length : (xs : List A) → take (length xs) xs ≡ xs
  take-length [] = refl
  take-length (x ∷ xs) = ap (λ (t : List A). x ∷ t) (take-length xs)

module _ {V P : Type 0} (codec : Codec P) (converter : Converter V P) where
  -- The log entries of what a producer published, in the order that it published them.
  unfoldable pub logged : List (Buffered V) → Result (List (InternalLogEntry P))
  unfolding payload_of
  logged [] = ok []
  logged (x ∷ xs) = elim (payload_of codec converter x.value) [
    | throw e ↦ throw e
    | ok payload ↦ elim (logged xs) [
      | throw e ↦ throw e
      | ok l ↦ ok (record { topic = x.topic; payload = payload } ∷ l)
    ]
  ]

  pub logged-append :
      (xs ys : List (Buffered V)) (l m : List (InternalLogEntry P))
      → logged xs ≡ ok l
      → logged ys ≡ ok m
      → logged (xs ++ ys) ≡ ok (l ++ m)
  unfolding logged
  logged-append [] ys l m h k = ground arith
  logged-append (x ∷ xs) ys l m h k = elim (Result-cases (payload_of codec converter x.value)) [
    | inl (e, p) ↦ ground arith
    | inr (v, p) ↦ elim (Result-cases (logged xs)) [
      | inl (e, r) ↦ ground arith
      | inr (l', r) ↦ ground (arith, logged-append xs ys l' m r k)
    ]
  ]

  -- The stream decodes what the client encoded.
  pub encode_buffer-decoded :
      ((p : P) → codec.decode (codec.encode p) ≡ ok p)
      → (xs : List (Buffered V)) (w : List PublishEntry) → encode_buffer codec converter xs ≡ ok w
      → (l : List (InternalLogEntry P)) × (logged xs ≡ ok l) × (decoded codec w ≡ ok l)
  unfolding encode_buffer logged decoded
  encode_buffer-decoded back [] w h = ([], refl, ground arith)
  encode_buffer-decoded back (x ∷ xs) w h =
      elim (Result-cases (payload_of codec converter x.value)) [
        | inl (e, p) ↦ absurd (ground arith)
        | inr (v, p) ↦ elim (Result-cases (encode_buffer codec converter xs)) [
          | inl (e, r) ↦ absurd (ground arith)
          | inr (w', r) ↦
              let (l, a, b) = encode_buffer-decoded back xs w' r in
              (record { topic = x.topic; payload = v } ∷ l, ground arith, ground (arith, back v))
        ]
      ]
