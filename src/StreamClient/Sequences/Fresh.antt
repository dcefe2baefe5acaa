-- ===== src/StreamClient/Sequences/Fresh.antt =====
-- What a client and the signals it sent say of their sequences.
use sdk_typescript.Prelude.{
  ℕ, zero, suc, ◌≤◌, ◌≡◌, sym, ap, ◌∙◌, subst, ◌⊎◌, inl, inr, true, Option, none, some, List, [],
  ◌∷◌, ◌++◌, arith, All, is_some,
}
use sdk_typescript.Streams.{PublishEntry, PublishInput}
use sdk_typescript.Streams.Log.{nth}
use sdk_typescript.StreamClient.{WorkflowStreamClient}
use sdk_typescript.StreamClient.Invariant.Flushes.{All-mono}

module _ {A : Type 0} where
  pub nth-snoc_cases :
      (xs : List A) (x a : A) (k : ℕ)
      → nth (xs ++ x ∷ []) k ≡ some a
      → (nth xs k ≡ some a) ⊎ (a ≡ x)
  nth-snoc_cases [] x a zero h = inr (ground arith)
  nth-snoc_cases [] x a (suc k) h = absurd cc
  nth-snoc_cases (y ∷ ys) x a zero h = inl h
  nth-snoc_cases (y ∷ ys) x a (suc k) h = nth-snoc_cases ys x a k h

  pub nth-All {κ} :
      (Q : A → Type κ) (xs : List A) (k : ℕ) (x : A) → All Q xs → nth xs k ≡ some x → Q x
  nth-All Q [] k x h e = absurd cc
  nth-All Q (y ∷ ys) zero x (h, hs) e = subst Q (ground arith) h
  nth-All Q (y ∷ ys) (suc k) x (h, hs) e = nth-All Q ys k x hs e

abbrev pub Upto : ℕ → PublishInput → Type 0
Upto n m = m.sequence ≤ n

abbrev pub UptoOrBatch : ℕ → List PublishEntry → PublishInput → Type 0
UptoOrBatch n batch m = (m.sequence ≤ n) ⊎ ((m.sequence ≡ suc n) × (m.items ≡ batch))

-- Two signals of one sequence carry the same items.
abbrev pub NeverReused : List PublishInput → Type 0
NeverReused sent =
    (i j : ℕ) (a b : PublishInput)
    → nth sent i ≡ some a
    → nth sent j ≡ some b
    → a.sequence ≡ b.sequence
    → a.items ≡ b.items

pub NeverReused-snoc :
    (n : ℕ) (sent : List PublishInput) (m : PublishInput)
    → NeverReused sent
    → All (UptoOrBatch n m.items) sent
    → m.sequence ≡ suc n
    → NeverReused (sent ++ m ∷ [])
NeverReused-snoc n sent m never all next i j a b hi hj e = elim (nth-snoc_cases sent m a i hi) [
  | inl old_a ↦ elim (nth-snoc_cases sent m b j hj) [
    | inl old_b ↦ never i j a b old_a old_b e
    | inr new_b ↦
        of_new a i old_a (e ∙ ap (λ (x : PublishInput). x.sequence) new_b)
        ∙ sym (ap (λ (x : PublishInput). x.items) new_b)
  ]
  | inr new_a ↦ elim (nth-snoc_cases sent m b j hj) [
    | inl old_b ↦
        ap (λ (x : PublishInput). x.items) new_a
        ∙ sym (of_new b j old_b (sym e ∙ ap (λ (x : PublishInput). x.sequence) new_a))
    | inr new_b ↦ ap (λ (x : PublishInput). x.items) (new_a ∙ sym new_b)
  ]
]
  where
    of_new :
        (x : PublishInput) (k : ℕ)
        → nth sent k ≡ some x
        → x.sequence ≡ m.sequence
        → x.items ≡ m.items
    of_new x k h e = elim (nth-All (UptoOrBatch n m.items) sent k x all h) [
      | inl low ↦ absurd (omega (arith, low, e, next))
      | inr (q, same) ↦ same
    ]

module _ {V : Type 0} where
  abbrev pub PendingFresh :
      List PublishInput → WorkflowStreamClient V → Option (List PublishEntry) → Type 0
  PendingFresh sent c none = All (Upto c.sequence) sent
  PendingFresh sent c (some batch) =
      (c.pending_seq ≡ suc c.sequence) × All (UptoOrBatch c.sequence batch) sent

  abbrev pub InFlightFresh : WorkflowStreamClient V → Option PublishInput → Type 0
  InFlightFresh c none = Unit
  InFlightFresh c (some m) = (m.sequence ≡ c.pending_seq) × (is_some c.pending ≡ true)

  -- What is at most the last sequence, or the pending batch, is at most the pending sequence.
  pub confirmed-Fresh :
      (sent : List PublishInput) (c : WorkflowStreamClient V) (o : Option (List PublishEntry))
      → PendingFresh sent c o
      → is_some o ≡ true
      → All (Upto c.pending_seq) sent
  confirmed-Fresh sent c none h k = absurd cc
  confirmed-Fresh sent c (some batch) (next, all) k =
      All-mono (UptoOrBatch c.sequence batch) (Upto c.pending_seq) sent
        (λ m h. elim h [
          | inl low ↦ omega (arith, next, low)
          | inr (q, same) ↦ omega (arith, next, q)
        ])
        all
