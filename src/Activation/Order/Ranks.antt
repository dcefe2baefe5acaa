-- ===== src/Activation/Order/Ranks.antt =====
-- Parts of a list of jobs, put together again.
use sdk_typescript.Prelude.{
  ℕ, ◌≤◌, ◌≡◌, refl, sym, ap, ◌∙◌, inl, inr, Bool, true, false, not, ◌&&◌, Option, none, some, List,
  [], ◌∷◌, ◌++◌, append-nil, filter_by, if◌then◌else◌, arith, length, Bool-cases, nat_beq,
}
use sdk_typescript.Activation.{
  JobVariant, initialize_workflow, update_random_seed, signal_workflow, notify_has_patch, Job,
  is_signal, is_patch, is_seed, is_initialize, any, chosen, others, last,
}

-- In one batch: patches, the random seed, the other jobs, and the start of the workflow. In two, the
-- signals come after the patches, and the seed is a job like others.
abbrev pub rank : Bool → JobVariant → ℕ
rank single notify_has_patch = 0
rank single update_random_seed = if single then 1 else 2
rank single signal_workflow = if single then 2 else 1
rank single initialize_workflow = 3
rank single _ = 2

is_initialize-eq : (v : JobVariant) → is_initialize v ≡ true → v ≡ initialize_workflow
unfolding is_initialize
is_initialize-eq initialize_workflow h = refl
is_initialize-eq _ h = absurd cc

single_ranks :
    (v : JobVariant)
    → (is_patch v ≡ nat_beq (rank true v) 0)
      × ((not (is_patch v) && is_seed v) ≡ nat_beq (rank true v) 1)
      × (((not (is_patch v) && not (is_seed v)) && not (is_initialize v)) ≡ nat_beq (rank true v) 2)
      × (((not (is_patch v) && not (is_seed v)) && is_initialize v) ≡ nat_beq (rank true v) 3)
      × ((not (is_patch v) && is_seed v) ≡ is_seed v)
unfolding is_patch is_seed is_initialize
single_ranks notify_has_patch = (refl, refl, refl, refl, refl)
single_ranks _ = (refl, refl, refl, refl, refl)

double_ranks :
    (v : JobVariant)
    → (is_patch v ≡ nat_beq (rank false v) 0)
      × ((not (is_patch v) && is_signal v) ≡ nat_beq (rank false v) 1)
      × (((not (is_patch v) && not (is_signal v)) && not (is_initialize v))
          ≡ nat_beq (rank false v) 2)
      × (((not (is_patch v) && not (is_signal v)) && is_initialize v) ≡ nat_beq (rank false v) 3)
      × (((not (is_patch v) && is_signal v) && is_initialize v) ≡ false)
unfolding is_patch is_signal is_initialize
double_ranks notify_has_patch = (refl, refl, refl, refl, refl)
double_ranks _ = (refl, refl, refl, refl, refl)

starts_kept :
    ((not (is_patch initialize_workflow) && not (is_seed initialize_workflow)) ≡ true)
    × ((not (is_patch initialize_workflow) && not (is_signal initialize_workflow)) ≡ true)
unfolding is_patch is_seed is_signal
starts_kept = (refl, refl)

module _ {J : Type 0} where
  abbrev pub with_rank : Bool → ℕ → List (Job J) → List (Job J)
  with_rank single k js = filter_by (λ j. nat_beq (rank single j.variant) k) js

  -- Sorted by rank, jobs of one rank in the order that they came in.
  abbrev pub by_rank : Bool → List (Job J) → List (Job J)
  by_rank single js =
      with_rank single 0 js
      ++ (with_rank single 1 js ++ (with_rank single 2 js ++ with_rank single 3 js))

  -- Only the first job may be the initialization of the workflow.
  abbrev pub initializes_first : List (Job J) → Bool
  initializes_first [] = true
  initializes_first (j ∷ js) = not (any is_initialize js)

  abbrev pub to_list : Option (Job J) → List (Job J)
  to_list none = []
  to_list (some j) = j ∷ []

  unfoldable pub start_last : List (Job J) → List (Job J)
  start_last [] = []
  start_last (j ∷ js) = if is_initialize j.variant then js ++ j ∷ [] else j ∷ js

  chosen-chosen :
      (p q : JobVariant → Bool) (js : List (Job J))
      → chosen p (chosen q js) ≡ chosen (λ v. q v && p v) js
  unfolding chosen
  chosen-chosen p q [] = refl
  chosen-chosen p q (j ∷ js) = elim (Bool-cases (q j.variant)) [
    | inl a ↦ elim (Bool-cases (p j.variant)) [
      | inl b ↦ rw (a, b) (ap (λ l. j ∷ l) (chosen-chosen p q js))
      | inr b ↦ rw (a, b) (chosen-chosen p q js)
    ]
    | inr a ↦ rw a (chosen-chosen p q js)
  ]

  chosen-cong :
      (p q : JobVariant → Bool) (js : List (Job J))
      → ((v : JobVariant) → p v ≡ q v)
      → chosen p js ≡ chosen q js
  unfolding chosen
  chosen-cong p q [] h = refl
  chosen-cong p q (j ∷ js) h =
      rw (h j.variant) (ap (λ l. if q j.variant then j ∷ l else l) (chosen-cong p q js h))

  others_is : (p : JobVariant → Bool) (js : List (Job J)) → others p js ≡ chosen (λ v. not (p v)) js
  unfolding chosen others
  others_is p js = refl

  last-short : (js : List (Job J)) → length js ≤ 1 → to_list (last js) ≡ js
  unfolding last
  last-short [] h = refl
  last-short (j ∷ []) h = refl
  last-short (j ∷ k ∷ js) h = absurd (omega arith)

  start_last-none : (js : List (Job J)) → any is_initialize js ≡ false → start_last js ≡ js
  unfolding start_last any
  start_last-none [] h = refl
  start_last-none (j ∷ js) h = ground arith

  any-chosen :
      (f p : JobVariant → Bool) (js : List (Job J)) → any f js ≡ false → any f (chosen p js) ≡ false
  unfolding any chosen
  any-chosen f p [] h = refl
  any-chosen f p (j ∷ js) h = ground (arith, any-chosen f p js)

  chosen-none :
      (f p : JobVariant → Bool) (js : List (Job J))
      → any f js ≡ false
      → (chosen (λ v. p v && f v) js ≡ []) × (chosen (λ v. p v && not (f v)) js ≡ chosen p js)
  unfolding any chosen
  chosen-none f p [] h = (refl, refl)
  chosen-none f p (j ∷ js) h = ground (arith, chosen-none f p js)

  any-chosen_none :
      (f p : JobVariant → Bool) (js : List (Job J))
      → ((v : JobVariant) → (p v && f v) ≡ false)
      → any f (chosen p js) ≡ false
  unfolding any chosen
  any-chosen_none f p [] h = refl
  any-chosen_none f p (j ∷ js) h = ground (arith, any-chosen_none f p js h, h j.variant)

  start_last-chosen :
      (p : JobVariant → Bool) (js : List (Job J))
      → p initialize_workflow ≡ true
      → initializes_first js ≡ true
      → start_last (chosen p js)
        ≡ chosen (λ v. p v && not (is_initialize v)) js ++ chosen (λ v. p v && is_initialize v) js
  unfolding start_last chosen any
  start_last-chosen p [] h first = refl
  start_last-chosen p (j ∷ js) h first = elim (Bool-cases (is_initialize j.variant)) [
    | inl starts ↦
        let kept : p j.variant ≡ true = ap p (is_initialize-eq j.variant starts) ∙ h in
        let (gone, same) = chosen-none is_initialize p js (ground arith) in
        rw (kept, starts)
          (ap (λ l. l ++ j ∷ []) (sym same)
            ∙ ap (λ l. chosen (λ v. p v && not (is_initialize v)) js ++ (j ∷ l)) (sym gone))
    | inr goes_on ↦
        let none_starts : any is_initialize (j ∷ js) ≡ false = ground arith in
        let (gone, same) = chosen-none is_initialize p (j ∷ js) none_starts in
        start_last-none (chosen p (j ∷ js)) (any-chosen is_initialize p (j ∷ js) none_starts)
        ∙ sym same
        ∙ sym (append-nil (chosen (λ v. p v && not (is_initialize v)) (j ∷ js)))
        ∙ ap (λ l. chosen (λ v. p v && not (is_initialize v)) (j ∷ js) ++ l) (sym gone)
  ]

  ranked :
      (single : Bool) (k : ℕ) (p : JobVariant → Bool) (js : List (Job J))
      → ((v : JobVariant) → p v ≡ nat_beq (rank single v) k)
      → chosen p js ≡ with_rank single k js
  ranked single k p js h = unfold chosen in chosen-cong p (λ v. nat_beq (rank single v) k) js h

  among :
      (p q : JobVariant → Bool) (js : List (Job J))
      → chosen p (others q js) ≡ chosen (λ v. not (q v) && p v) js
  among p q js = ap (chosen p) (others_is q js) ∙ chosen-chosen p (λ v. not (q v)) js

  apart :
      (p q : JobVariant → Bool) (js : List (Job J))
      → others p (others q js) ≡ chosen (λ v. not (q v) && not (p v)) js
  apart p q js = others_is p (others q js) ∙ among (λ v. not (p v)) q js

  join2 : {a a' b b' : List (Job J)} → a ≡ a' → b ≡ b' → a ++ b ≡ a' ++ b'
  join2 p q = cc

  join :
      {a a' b b' c c' : List (Job J)} → a ≡ a' → b ≡ b' → c ≡ c' → a ++ (b ++ c) ≡ a' ++ (b' ++ c')
  join p q r = cc

  pub single_order :
      (js : List (Job J))
      → initializes_first js ≡ true
      → length (chosen is_seed js) ≤ 1
      → chosen is_patch js
          ++ (to_list (last (chosen is_seed (others is_patch js)))
              ++ start_last (others is_seed (others is_patch js)))
        ≡ by_rank true js
  single_order js first one =
      let rest : JobVariant → Bool = λ v. not (is_patch v) && not (is_seed v) in
      let seeds : chosen is_seed (others is_patch js) ≡ chosen is_seed js =
        among is_seed is_patch js ∙ chosen-cong _ is_seed js (λ v. (single_ranks v).4) in
      join (ranked true 0 is_patch js (λ v. (single_ranks v).0))
        (ap (λ l. to_list (last l)) seeds
          ∙ last-short (chosen is_seed js) one
          ∙ chosen-cong is_seed (λ v. not (is_patch v) && is_seed v) js
              (λ v. sym (single_ranks v).4)
          ∙ ranked true 1 _ js (λ v. (single_ranks v).1))
        (ap start_last (apart is_seed is_patch js)
          ∙ start_last-chosen rest js starts_kept.0 first
          ∙ join2 (ranked true 2 _ js (λ v. (single_ranks v).2))
              (ranked true 3 _ js (λ v. (single_ranks v).3)))

  pub double_order :
      (js : List (Job J))
      → initializes_first js ≡ true
      → chosen is_patch js
          ++ (start_last (chosen is_signal (others is_patch js))
              ++ start_last (others is_signal (others is_patch js)))
        ≡ by_rank false js
  double_order js first =
      let rest : JobVariant → Bool = λ v. not (is_patch v) && not (is_signal v) in
      let signals : JobVariant → Bool = λ v. not (is_patch v) && is_signal v in
      join (ranked false 0 is_patch js (λ v. (double_ranks v).0))
        (ap start_last (among is_signal is_patch js)
          ∙ start_last-none (chosen signals js)
              (any-chosen_none is_initialize signals js (λ v. (double_ranks v).4))
          ∙ ranked false 1 signals js (λ v. (double_ranks v).1))
        (ap start_last (apart is_signal is_patch js)
          ∙ start_last-chosen rest js starts_kept.1 first
          ∙ join2 (ranked false 2 _ js (λ v. (double_ranks v).2))
              (ranked false 3 _ js (λ v. (double_ranks v).3)))
