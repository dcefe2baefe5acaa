-- ===== src/Activation/Order/Parts.antt =====
-- The jobs that each part of an activation performs, where it succeeds.
use sdk_typescript.Prelude.{
  ◌≡◌, refl, sym, ap, ◌∙◌, subst, inl, inr, Bool, true, false, not, ◌||◌, Option, none, some, List,
  [], ◌∷◌, ◌++◌, append-nil, append_assoc, arith, Bool-cases,
}
use sdk_typescript.Errors.{JsError}
use sdk_typescript.Activator.{Result, ok, throw}
use sdk_typescript.Activation.{
  JobVariant, initialize_workflow, Job, Runtime, Call, initializes, starts, performs, unblocks,
  unblocks_all, concludes, is_query, is_signal, is_seed, is_initialize, is_safe, any, chosen,
  others, last, Drive, done, fail, and_then, ◌>>=◌, ◌>>◌, call, update_state, ask, perform_job,
  unblock_after, perform_jobs, start, perform_and_start, activate_jobs, initialize_with,
  perform_only, perform_last, single_batch, batch, two_batches, is_single_batch, batches,
}
use sdk_typescript.Activation.Order.Ranks.{start_last, to_list}

module _ {J : Type 0} where
  -- The jobs performed; the start of the workflow is that of its initialization job.
  unfoldable pub performed : List (Call J) → List (Job J)
  performed [] = []
  performed (performs v a ∷ cs) = record { variant = v; attributes = a } ∷ performed cs
  performed (starts a ∷ cs) =
      record { variant = initialize_workflow; attributes = a } ∷ performed cs
  performed (initializes a ∷ cs) = performed cs
  performed (unblocks ∷ cs) = performed cs
  performed (unblocks_all ∷ cs) = performed cs
  performed (concludes ∷ cs) = performed cs

  pub performed-append :
      (xs ys : List (Call J)) → performed (xs ++ ys) ≡ performed xs ++ performed ys
  unfolding performed
  performed-append [] ys = refl
  performed-append (performs v a ∷ xs) ys =
      ap (λ (l : List (Job J)). record { variant = v; attributes = a } ∷ l) (performed-append xs ys)
  performed-append (starts a ∷ xs) ys =
      ap (λ (l : List (Job J)). record { variant = initialize_workflow; attributes = a } ∷ l)
        (performed-append xs ys)
  performed-append (initializes a ∷ xs) ys = performed-append xs ys
  performed-append (unblocks ∷ xs) ys = performed-append xs ys
  performed-append (unblocks_all ∷ xs) ys = performed-append xs ys
  performed-append (concludes ∷ xs) ys = performed-append xs ys

module _ {S J : Type 0} where
  -- Where `m` succeeds, the jobs that it performs are `js`.
  abbrev pub Performs : {A : Type 0} → Drive S J A → List (Job J) → Type 0
  Performs {A} m js =
      (x x' : S × List (Call J)) (a : A) → m x ≡ (ok a, x') → performed x'.1 ≡ performed x.1 ++ js

  pub Performs-done : {A : Type 0} (a : A) → Performs (done a) []
  Performs-done a x x' b h =
      ap (λ (r : Result _ × (S × List (Call J))). performed r.1.1) (sym h)
      ∙ sym (append-nil (performed x.1))

  pub Performs-fail : {A : Type 0} (e : JsError) (js : List (Job J)) → Performs {A = A} (fail e) js
  Performs-fail e js x x' b h = absurd cc

  pub Performs-call :
      {A : Type 0} (c : Call J) (op : S → Result A × S) → Performs (call c op) (performed (c ∷ []))
  unfolding call
  Performs-call c op x x' b h =
      ap (λ (r : Result _ × (S × List (Call J))). performed r.1.1) (sym h)
      ∙ performed-append x.1 (c ∷ [])

  pub Performs-update : (f : S → S) → Performs (update_state f) []
  unfolding update_state
  Performs-update f x x' b h =
      ap (λ (r : Result (Unit {0}) × (S × List (Call J))). performed r.1.1) (sym h)
      ∙ sym (append-nil (performed x.1))

  pub Performs-ask : (f : S → Bool × S) → Performs (ask f) []
  unfolding ask
  Performs-ask f x x' b h =
      ap (λ (r : Result Bool × (S × List (Call J))). performed r.1.1) (sym h)
      ∙ sym (append-nil (performed x.1))

  pub Performs-bind :
      {A B : Type 0} (m : Drive S J A) (f : A → Drive S J B) (js ks : List (Job J))
      → Performs m js
      → ((a : A) → Performs (f a) ks)
      → Performs (m >>= f) (js ++ ks)
  Performs-bind {A} {B} m f js ks hm hf x x' b h = go (m x).0 (m x).1 refl h
    where
      go :
          (r : Result A) (y : S × List (Call J))
          → m x ≡ (r, y)
          → and_then r f y ≡ (ok b, x')
          → performed x'.1 ≡ performed x.1 ++ (js ++ ks)
      go (throw e) y g k = absurd cc
      go (ok a) y g k =
          hf a y x' b k ∙ ap (λ l. l ++ ks) (hm x y a g) ∙ append_assoc (performed x.1) js ks

module _ {J : Type 0} where
  -- What the two modes perform after the patches.
  unfoldable pub performed_in : Bool → List (Job J) → List (Job J)
  performed_in true js = to_list (last (chosen is_seed js)) ++ start_last (others is_seed js)
  performed_in false js = start_last (chosen is_signal js) ++ start_last (others is_signal js)

module _ {S J C : Type 0} (runtime : Runtime S J C) where
  pub Performs-unblock_after : (v : JobVariant) → Performs (unblock_after runtime v) []
  unfolding unblock_after performed
  Performs-unblock_after v = elim (Bool-cases (is_query v)) [
    | inl q ↦ rw q (Performs-done tt)
    | inr n ↦ rw n (Performs-call unblocks runtime.try_unblock_conditions)
  ]

  pub Performs-perform_job : (j : Job J) → Performs (perform_job runtime j) (j ∷ [])
  unfolding perform_job performed
  Performs-perform_job j =
      Performs-call (performs j.variant j.attributes) (runtime.perform j.variant j.attributes)

  pub Performs-perform_jobs : (js : List (Job J)) → Performs (perform_jobs runtime js) js
  unfolding perform_jobs
  Performs-perform_jobs [] = Performs-done tt
  Performs-perform_jobs (j ∷ js) = Performs-bind _ _ (j ∷ []) js (Performs-perform_job j) (λ u.
      Performs-bind _ _ [] js (Performs-unblock_after j.variant) (λ w. Performs-perform_jobs js))

  pub Performs-start :
      (js : List (Job J)) (a : J)
      → Performs
          (start runtime js a)
          (record { variant = initialize_workflow; attributes = a } ∷ [])
  unfolding start performed
  Performs-start js a = elim (Bool-cases (any (λ v. not (is_safe v)) js)) [
    | inl bad ↦ rw bad (Performs-fail _ _)
    | inr good ↦ rw good (
        Performs-bind _ _ _ [] (Performs-call (starts a) (runtime.start_workflow a))
          (λ u. Performs-call unblocks runtime.try_unblock_conditions))
  ]

  pub Performs-perform_and_start :
      (v : JobVariant) (a : J) (js : List (Job J))
      → Performs
          (perform_and_start runtime v a js)
          (start_last (record { variant = v; attributes = a } ∷ js))
  unfolding perform_and_start start_last is_initialize
  Performs-perform_and_start initialize_workflow a js =
      Performs-bind _ _ js _ (Performs-perform_jobs js) (λ u. Performs-start js a)
  Performs-perform_and_start _ a js = Performs-perform_jobs _

  pub Performs-activate_jobs :
      (js : List (Job J)) → Performs (activate_jobs runtime js) (start_last js)
  unfolding activate_jobs start_last
  Performs-activate_jobs [] = Performs-done tt
  Performs-activate_jobs (j ∷ js) = Performs-perform_and_start j.variant j.attributes js

  pub Performs-perform_only : (js : List (Job J)) → Performs (perform_only runtime js) js
  unfolding perform_only
  Performs-perform_only [] = Performs-done tt
  Performs-perform_only (j ∷ js) =
      Performs-bind _ _ (j ∷ []) js (Performs-perform_job j) (λ u. Performs-perform_only js)

  pub Performs-perform_last : (o : Option (Job J)) → Performs (perform_last runtime o) (to_list o)
  unfolding perform_last
  Performs-perform_last none = Performs-done tt
  Performs-perform_last (some j) = Performs-perform_job j

  pub Performs-then_unblock_all :
      (m : Drive S J (Unit {0})) (js : List (Job J))
      → Performs m js
      → Performs (m >> call unblocks_all runtime.unblock_all) js
  unfolding performed
  Performs-then_unblock_all m js h =
      subst (Performs (m >> call unblocks_all runtime.unblock_all)) (append-nil js)
        (Performs-bind m _ js [] h (λ u. Performs-call unblocks_all runtime.unblock_all))

  pub Performs-batch : (js : List (Job J)) → Performs (batch runtime js) (start_last js)
  unfolding batch start_last
  Performs-batch [] = Performs-done tt
  Performs-batch (j ∷ js) = Performs-then_unblock_all _ _ (Performs-activate_jobs (j ∷ js))

  pub Performs-batches :
      (js : List (Job J)) (single : Bool)
      → Performs (batches runtime js single) (performed_in single js)
  unfolding batches single_batch two_batches performed_in
  Performs-batches js true =
      Performs-bind _ _ _ _ (Performs-perform_last (last (chosen is_seed js)))
        (λ u. Performs-then_unblock_all _ _ (Performs-activate_jobs (others is_seed js)))
  Performs-batches js false =
      Performs-bind _ _ _ _ (Performs-batch (chosen is_signal js))
        (λ u. Performs-batch (others is_signal js))

  pub Performs-initialize_with : (o : Option J) → Performs (initialize_with runtime o) []
  unfolding initialize_with performed
  Performs-initialize_with none = Performs-done tt
  Performs-initialize_with (some a) = Performs-call (initializes a) (runtime.initialize a)

  -- The choice of the mode performs nothing, and takes one batch where there is no signal.
  pub Performs-is_single_batch : (js : List (Job J)) → Performs (is_single_batch runtime js) []
  unfolding is_single_batch
  Performs-is_single_batch js = elim (Bool-cases (any is_signal js)) [
    | inl asked ↦ rw asked (Performs-ask runtime.single_batch_flag)
    | inr quiet ↦ rw quiet (Performs-done true)
  ]

  pub is_single_batch-mode :
      (js : List (Job J)) (x x' : S × List (Call J)) (single : Bool)
      → is_single_batch runtime js x ≡ (ok single, x')
      → (single || any is_signal js) ≡ true
  unfolding is_single_batch
  is_single_batch-mode js x x' single h = elim (Bool-cases (any is_signal js)) [
    | inl asked ↦ ground arith
    | inr quiet ↦
        ground (arith, ap (λ (r : Result Bool × (S × List (Call J))). r.0) (rw quiet at h))
  ]
