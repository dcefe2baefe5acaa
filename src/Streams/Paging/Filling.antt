-- ===== src/Streams/Paging/Filling.antt =====
-- A response is filled from the candidates of a poll, and the next poll goes on from there.
use sdk_typescript.Prelude.{
  ℕ, zero, suc, ◌+◌, ◌-◌, ◌≤◌, String, ◌≡◌, refl, sym, ap, ◌∙◌, ◌⊎◌, inl, inr, Bool, true, false,
  ◌&&◌, not, List, [], ◌∷◌, ◌++◌, map, length, drop, nat_same, string_same, ltb, arith, append-nil,
  append_assoc, Bool-cases, head-eq_of_cons-eq, tail-eq_of_cons-eq,
}
use sdk_typescript.Activator.{ok}
use sdk_typescript.Streams.{
  Codec, InternalLogEntry, WorkflowStreamWireItem, PollInput, PollResult, WorkflowStream,
  candidates, wanted, wire, fill, is_empty, payload_wire_size, max_poll_response_bytes, end_offset,
  log_offset,
}

module _ {P : Type 0} where
  -- The candidates that a poll from the global offset `off` reads; below the base they are all.
  unfoldable pub candidates_at : List String → ℕ → WorkflowStream P → List (ℕ × InternalLogEntry P)
  candidates_at topics off s =
      candidates topics (s.base_offset + (off - s.base_offset)) (drop (off - s.base_offset) s.log)

  pub drop-later :
      (off o : ℕ) (e : InternalLogEntry P) (es : List (InternalLogEntry P))
      → suc off ≤ o
      → drop (o - off) (e ∷ es) ≡ drop (o - suc off) es
  drop-later off o e es h =
      let k : o - off ≡ suc (o - suc off) = omega arith in ap (λ n. drop n (e ∷ es)) k

  -- Reading again at the offset of a candidate gives that candidate and the later ones.
  abbrev pub Resumes :
      List String
      → ℕ
      → List (InternalLogEntry P)
      → ℕ × InternalLogEntry P
      → List (ℕ × InternalLogEntry P)
      → Type 0
  Resumes topics off es x rest =
      (off ≤ x.0) × (candidates topics x.0 (drop (x.0 - off) es) ≡ x ∷ rest)

  pub Resumes-later :
      (topics : List String) (off : ℕ) (e : InternalLogEntry P) (es : List (InternalLogEntry P))
      (x : ℕ × InternalLogEntry P) (rest : List (ℕ × InternalLogEntry P))
      → Resumes topics (suc off) es x rest
      → Resumes topics off (e ∷ es) x rest
  Resumes-later topics off e es x rest later =
      (omega (arith, later.0), rw (drop-later off x.0 e es later.0) later.1)

  pub Resumes-here :
      (topics : List String) (off o : ℕ) (es : List (InternalLogEntry P))
      (tail : List (ℕ × InternalLogEntry P))
      → off ≡ o
      → candidates topics off es ≡ tail
      → (off ≤ o) × (candidates topics o (drop (o - off) es) ≡ tail)
  Resumes-here topics off o es tail at h =
      let k : o - off ≡ 0 = omega arith in (omega arith, rw (k, ← at) h)

  pub candidates-drop :
      (topics : List String) (off : ℕ) (es : List (InternalLogEntry P)) (x : ℕ × InternalLogEntry P)
      (rest taken : List (ℕ × InternalLogEntry P))
      → candidates topics off es ≡ taken ++ x ∷ rest
      → Resumes topics off es x rest
  unfolding candidates
  candidates-drop topics off [] x rest [] h = absurd cc
  candidates-drop topics off [] x rest (t ∷ ts) h = absurd cc
  candidates-drop topics off (e ∷ es) x rest [] h = elim (Bool-cases (wanted topics e)) [
    | inl w ↦
        Resumes-here topics off x.0 (e ∷ es) (x ∷ rest)
          (ap (λ c. c.0) (head-eq_of_cons-eq (rw w at h))) h
    | inr w ↦
        Resumes-later topics off e es x rest
          (candidates-drop topics (suc off) es x rest [] (rw w at h))
  ]
  candidates-drop topics off (e ∷ es) x rest (t ∷ ts) h = elim (Bool-cases (wanted topics e)) [
    | inl w ↦
        Resumes-later topics off e es x rest
          (candidates-drop topics (suc off) es x rest ts (tail-eq_of_cons-eq (rw w at h)))
    | inr w ↦
        Resumes-later topics off e es x rest
          (candidates-drop topics (suc off) es x rest (t ∷ ts) (rw w at h))
  ]

pub and_false : (b : Bool) → (b && false) ≡ false
and_false true = refl
and_false false = refl

module _ {P : Type 0} (codec : Codec P) where
  -- The response holds a first part of the candidates, and the next offset is that of the first
  -- one left out, or the end.
  abbrev pub Filled :
      List WorkflowStreamWireItem → ℕ → List (ℕ × InternalLogEntry P) → PollResult → Type 0
  Filled items end cs r =
      (taken : List (ℕ × InternalLogEntry P)) × (r.items ≡ items ++ map (wire codec) taken)
      × (((r.more_ready ≡ false) × (r.next_offset ≡ end) × (cs ≡ taken))
          ⊎ ((r.more_ready ≡ true)
              × ((x : ℕ × InternalLogEntry P) × (rest : List (ℕ × InternalLogEntry P)) × (cs
                    ≡ taken ++ x ∷ rest)
                  × (r.next_offset ≡ x.0))))

  pub Filled-more :
      (items : List WorkflowStreamWireItem) (end : ℕ) (c : ℕ × InternalLogEntry P)
      (cs : List (ℕ × InternalLogEntry P)) (r : PollResult)
      → Filled (items ++ wire codec c ∷ []) end cs r
      → Filled items end (c ∷ cs) r
  Filled-more items end c cs r (taken, i, inl (m, n, e)) =
      (c ∷ taken, i ∙ append_assoc items _ _, inl (m, n, ap (λ l. c ∷ l) e))
  Filled-more items end c cs r (taken, i, inr (m, (x, rest, e, n))) =
      (c ∷ taken, i ∙ append_assoc items _ _, inr (m, (x, rest, ap (λ l. c ∷ l) e, n)))

  pub fill-Filled :
      (size : ℕ) (items : List WorkflowStreamWireItem) (end : ℕ)
      (cs : List (ℕ × InternalLogEntry P))
      → Filled items end cs (fill codec size items end cs)
  unfolding fill
  fill-Filled size items end [] = ([], sym (append-nil items), inl (refl, refl, refl))
  fill-Filled size items end (c ∷ cs) =
      elim (Bool-cases (
        ltb max_poll_response_bytes (size + payload_wire_size codec c.1) && not (is_empty items))) [
          | inl h ↦ rw h ([], sym (append-nil items), inr (refl, (c, cs, refl, refl)))
          | inr h ↦ rw h (
              Filled-more items end c cs _ (
                fill-Filled (size + payload_wire_size codec c.1) (items ++ wire codec c ∷ []) end
                  cs))
        ]

  -- The first candidate is never left out.
  unfoldable pub Started : ℕ → List (ℕ × InternalLogEntry P) → PollResult → Type 0
  Started end cs r =
      (taken : List (ℕ × InternalLogEntry P)) × (r.items ≡ map (wire codec) taken)
      × (((r.more_ready ≡ false) × (r.next_offset ≡ end) × (cs ≡ taken))
          ⊎ ((t x : ℕ × InternalLogEntry P) × (ts rest : List (ℕ × InternalLogEntry P)) × (taken
                ≡ t ∷ ts)
              × (cs ≡ t ∷ ts ++ x ∷ rest)
              × (r.next_offset ≡ x.0)))

  pub fill-Started :
      (end : ℕ) (cs : List (ℕ × InternalLogEntry P)) → Started end cs (fill codec 0 [] end cs)
  unfolding Started fill
  fill-Started end [] = ([], refl, inl (refl, refl, refl))
  fill-Started end (c ∷ cs) =
      rw (and_false (ltb max_poll_response_bytes (0 + payload_wire_size codec c.1)))
        (after (fill-Filled (0 + payload_wire_size codec c.1) (wire codec c ∷ []) end cs))
    where
      after : {r : PollResult} → Filled (wire codec c ∷ []) end cs r → Started end (c ∷ cs) r
      after (taken, i, inl (m, n, e)) = (c ∷ taken, i, inl (m, n, ap (λ l. c ∷ l) e))
      after (taken, i, inr (m, (x, rest, e, n))) =
          (c ∷ taken, i, inr (c, x, taken, rest, refl, ap (λ l. c ∷ l) e, n))

module _ {P : Type 0} where
  pub drop_past : (n : ℕ) (l : List (InternalLogEntry P)) → length l ≤ n → drop n l ≡ []
  drop_past zero [] h = refl
  drop_past zero (x ∷ xs) h = absurd (omega arith)
  drop_past (suc n) [] h = refl
  drop_past (suc n) (x ∷ xs) h = drop_past n xs (omega arith)

  pub drop-drop : (n m : ℕ) (l : List (InternalLogEntry P)) → drop n (drop m l) ≡ drop (m + n) l
  drop-drop n zero l = ap (λ k. drop k l) (the_sum n)
    where
      the_sum : (n : ℕ) → n ≡ 0 + n
      the_sum n = omega arith
  drop-drop n (suc m) [] = let e : suc m + n ≡ suc (m + n) = omega arith in rw e (drop_nil n)
    where
      drop_nil : (n : ℕ) → drop {A = InternalLogEntry P} n [] ≡ []
      drop_nil zero = refl
      drop_nil (suc n) = refl
  drop-drop n (suc m) (x ∷ xs) =
      let e : suc m + n ≡ suc (m + n) = omega arith in rw e (drop-drop n m xs)

  pub candidates-end :
      (topics : List String) (s : WorkflowStream P) → candidates_at topics (end_offset s) s ≡ []
  unfolding candidates_at end_offset candidates
  candidates-end topics s =
      rw (drop_past (s.base_offset + length s.log - s.base_offset) s.log (omega arith)) refl

  pub candidates-next :
      (topics : List String) (k : ℕ) (s : WorkflowStream P) (x : ℕ × InternalLogEntry P)
      (rest taken : List (ℕ × InternalLogEntry P))
      → candidates topics (s.base_offset + k) (drop k s.log) ≡ taken ++ x ∷ rest
      → candidates_at topics x.0 s ≡ x ∷ rest
  unfolding candidates_at
  candidates-next topics k s x rest taken h =
      let r = candidates-drop topics (s.base_offset + k) (drop k s.log) x rest taken h in
      let a : s.base_offset + (x.0 - s.base_offset) ≡ x.0 = omega (arith, r.0) in
      let b : x.0 - s.base_offset ≡ k + (x.0 - (s.base_offset + k)) = omega (arith, r.0) in
      rw (a, b) (rw drop-drop at r.1)

  pub log_offset-value :
      (input : PollInput) (s : WorkflowStream P) (k : ℕ)
      → log_offset input s ≡ ok k
      → k ≡ input.from_offset - s.base_offset
  unfolding log_offset
  log_offset-value input s k h = ground arith
