-- ===== src/Streams/Answers.antt =====
-- How a poll is answered: a page, a TruncatedOffset failure for an offset below the base, or not
-- yet.
use sdk_typescript.Prelude.{
  ℕ, ◌+◌, ◌≡◌, refl, ap, ◌∙◌, [], drop, ◌⊎◌, inl, inr, true, none, some, ltb, arith, Bool-cases,
}
use sdk_typescript.Errors.{JsError, application_failure}
use sdk_typescript.Activator.{Result, ok, throw}
use sdk_typescript.Streams.{
  Codec, WorkflowStream, PollInput, PollResult, on_poll, poll_ready, resume_poll, is_truncated,
  poll_from, log_offset, fill, candidates, end_offset,
}
use sdk_typescript.Streams.Log.{Result-cases}

module _ {P : Type 0} (codec : Codec P) (input : PollInput) (s : WorkflowStream P) where
  abbrev pub IsRefused : Result PollResult → Type 0
  IsRefused a =
      (a ≡ throw (application_failure "TruncatedOffset"))
      × (ltb input.from_offset s.base_offset ≡ true)

  poll_from-ok : (k : ℕ) → (r : PollResult) × (poll_from codec input s (ok k) ≡ ok r)
  unfolding poll_from
  poll_from-ok k = (
    fill codec 0 [] (end_offset s) (candidates input.topics (s.base_offset + k) (drop k s.log)),
    refl,
  )

  log_offset-throw :
      (e : JsError)
      → log_offset input s ≡ throw e
      → (e ≡ application_failure "TruncatedOffset") × (ltb input.from_offset s.base_offset ≡ true)
  unfolding log_offset
  log_offset-throw e h = ground arith

  pub resume_poll-cases :
      IsRefused (resume_poll codec input s)
      ⊎ ((r : PollResult) × (resume_poll codec input s ≡ ok r))
  unfolding resume_poll poll_from
  resume_poll-cases = elim (Result-cases (log_offset input s)) [
    | inl (e, h) ↦
        let (same, low) = log_offset-throw e h in
        inl (ap (poll_from codec input s) h ∙ ap throw same, low)
    | inr (k, h) ↦ let (r, page) = poll_from-ok k in inr (r, ap (poll_from codec input s) h ∙ page)
  ]

  is_truncated-low : is_truncated input s ≡ true → ltb input.from_offset s.base_offset ≡ true
  unfolding is_truncated
  is_truncated-low h = ground arith

  -- An answer that a poll may get now is the one that it would get if it were woken now.
  pub on_poll-cases :
      (on_poll codec input s ≡ none)
      ⊎ (IsRefused (throw (application_failure "TruncatedOffset"))
          × (on_poll codec input s ≡ some (throw (application_failure "TruncatedOffset"))))
      ⊎ (on_poll codec input s ≡ some (resume_poll codec input s))
  unfolding on_poll resume_poll
  on_poll-cases = elim (Bool-cases (is_truncated input s)) [
    | inl gone ↦ inr (inl ((refl, is_truncated-low gone), ground arith))
    | inr there ↦ elim (Bool-cases (poll_ready input s)) [
      | inl ready ↦ inr (inr (ground arith))
      | inr waits ↦ inl (ground arith)
    ]
  ]
