-- ===== src/Activation/Order.antt =====
-- The order in which the jobs of an activation are performed.
pub mod Ranks
pub mod Parts
use sdk_typescript.Prelude.{
  ℕ, ◌≤◌, ◌<◌, ◌≡◌, refl, sym, ap, ◌∙◌, subst, ◌⊎◌, inl, inr, Bool, true, false, not, ◌&&◌, ◌||◌,
  Option, none, some, List, [], ◌∷◌, ◌++◌, append-nil, append_assoc, filter_by, if◌then◌else◌,
  arith, length, Bool-cases, Option-cases,
}
use sdk_typescript.Errors.{JsError}
use sdk_typescript.Activator.{Result, ok, throw}
use sdk_typescript.Streams.Log.{Result-cases}
use sdk_typescript.Activation.{
  JobVariant, initialize_workflow, Job, Activation, Runtime, Call, initializes, starts, performs,
  unblocks, unblocks_all, concludes, Completion, is_query, is_signal, is_patch, is_seed, is_update,
  is_initialize, is_safe, any, chosen, others, find, last, Drive, done, fail, and_then, ◌>>=◌, ◌>>◌,
  call, update_state, ask, perform_job, unblock_after, perform_jobs, start, perform_and_start,
  activate_jobs, initialize_with, perform_only, perform_last, single_batch, batch, two_batches,
  is_single_batch, batches, run_jobs, conclude, refuse, completed, admitted, activate, successful,
  failed,
}
use sdk_typescript.Activation.Order.Ranks.{
  start_last, to_list, initializes_first, by_rank, single_order, double_order,
}
use sdk_typescript.Activation.Order.Parts.{
  Performs, Performs-activate_jobs, Performs-ask, Performs-batch, Performs-batches, Performs-bind,
  Performs-call, Performs-done, Performs-fail, Performs-initialize_with, Performs-is_single_batch,
  Performs-perform_and_start, Performs-perform_job, Performs-perform_jobs, Performs-perform_last,
  Performs-perform_only, Performs-start, Performs-then_unblock_all, Performs-unblock_after,
  Performs-update, is_single_batch-mode, performed, performed-append, performed_in,
}

module _ {S J C : Type 0} (runtime : Runtime S J C) where
  IsOrder : List (Job J) → List (Job J) → Type 0
  IsOrder js out =
      (single : Bool) × ((single || any is_signal js) ≡ true)
      × (out ≡ chosen is_patch js ++ performed_in single (others is_patch js))

  -- After the choice of the mode.
  chosen_mode :
      (js : List (Job J)) (x x' : S × List (Call J)) (r : Result Bool) (y : S × List (Call J))
      → is_single_batch runtime js x ≡ (r, y)
      → and_then r
          (λ single.
            perform_only runtime (chosen is_patch js)
            >> batches runtime (others is_patch js) single)
          y
        ≡ (ok tt, x')
      → (out : List (Job J)) × (performed x'.1 ≡ performed x.1 ++ out) × IsOrder js out
  unfolding IsOrder
  chosen_mode js x x' (throw e) y g k = absurd cc
  chosen_mode js x x' (ok single) y g k =
      let out : List (Job J) = chosen is_patch js ++ performed_in single (others is_patch js) in
      let nothing : performed y.1 ≡ performed x.1 ++ [] =
        Performs-is_single_batch runtime js x y single g in
      (
        out,
        Performs-bind _ _ _ _ (Performs-perform_only runtime (chosen is_patch js))
              (λ u. Performs-batches runtime (others is_patch js) single) y x' tt k
            ∙ ap (λ l. l ++ out) (nothing ∙ append-nil (performed x.1)),
        (single, is_single_batch-mode runtime js x y single g, refl),
      )

  >>=-eq-ok :
      {A B : Type 0} (m : Drive S J A) (f : A → Drive S J B) (x x' : S × List (Call J)) (b : B)
      → (m >>= f) x ≡ (ok b, x')
      → (a : A) × (y : S × List (Call J)) × (m x ≡ (ok a, y)) × (f a y ≡ (ok b, x'))
  >>=-eq-ok {A} {B} m f x x' b h = go (m x).0 (m x).1 refl h
    where
      go :
          (r : Result A) (y : S × List (Call J))
          → m x ≡ (r, y)
          → and_then r f y ≡ (ok b, x')
          → (a : A) × (z : S × List (Call J)) × (m x ≡ (ok a, z)) × (f a z ≡ (ok b, x'))
      go (throw e) y g k = absurd cc
      go (ok a) y g k = (a, y, g, k)

  run_jobs-IsOrder :
      (js : List (Job J)) (x x' : S × List (Call J))
      → run_jobs runtime js x ≡ (ok tt, x')
      → (out : List (Job J)) × (performed x'.1 ≡ performed x.1 ++ out) × IsOrder js out
  unfolding run_jobs
  run_jobs-IsOrder js x x' h =
      let prepare : S → S = runtime.prepare (any (λ v. not (is_update v)) js) in
      let init : Option J = find is_initialize js in
      let rest : Drive S J (Unit {0}) = λ q.
        (is_single_batch runtime js >>= (λ single.
            perform_only runtime (chosen is_patch js)
            >> batches runtime (others is_patch js) single))
          q in
      let (a, y, f, g) =
        >>=-eq-ok (update_state prepare) (λ u. initialize_with runtime init >> rest) x x' tt h in
      let (b, z, k, l) = >>=-eq-ok (initialize_with runtime init) (λ u. rest) y x' tt g in
      let (out, e, order) =
        chosen_mode js z x' (is_single_batch runtime js z).0 (is_single_batch runtime js z).1 refl
          l in
      (
        out,
        e
            ∙ ap (λ t. t ++ out)
                (Performs-initialize_with runtime init y z b k
                  ∙ append-nil (performed y.1)
                  ∙ Performs-update prepare x y a f
                  ∙ append-nil (performed x.1)),
        order,
      )

  IsOrder-by_rank :
      (js out : List (Job J))
      → initializes_first js ≡ true
      → length (chosen is_seed js) ≤ 1
      → IsOrder js out
      → (single : Bool) × ((single || any is_signal js) ≡ true) × (out ≡ by_rank single js)
  unfolding IsOrder performed_in
  IsOrder-by_rank js out first one (true, mode, e) = (true, mode, e ∙ single_order js first one)
  IsOrder-by_rank js out first one (false, mode, e) = (false, mode, e ∙ double_order js first)

  completed-successful :
      (r : Result C) (x : S × List (Call J)) (c : C)
      → (completed runtime r x).0 ≡ ok (successful c)
      → (c' : C) × (r ≡ ok c') × ((completed runtime r x).1 ≡ x)
  unfolding completed
  completed-successful (throw e) x c h = absurd (ground arith)
  completed-successful (ok c') x c h = elim (Option-cases (runtime.unhandled_rejection x.0)) [
    | inl none_ ↦ (c', refl, rw (completed, none_) refl)
    | inr (e, some_) ↦ (c', refl, rw (completed, some_) refl)
  ]

  Performs-conclude : Performs (conclude runtime) []
  unfolding conclude performed
  Performs-conclude = Performs-call concludes runtime.conclude_activation

  admitted_in_order :
      (a : Activation J) (o : Option JsError) (x : S × List (Call J)) (c : C)
      → any is_query a.jobs ≡ false
      → initializes_first a.jobs ≡ true
      → length (chosen is_seed a.jobs) ≤ 1
      → (admitted runtime a o x).0 ≡ ok (successful c)
      → (single : Bool) × ((single || any is_signal a.jobs) ≡ true)
        × (performed (admitted runtime a o x).1.1 ≡ performed x.1 ++ by_rank single a.jobs)
  unfolding admitted
  admitted_in_order a (some e) x c plain first one h = absurd (ground arith)
  admitted_in_order a none x c plain first one h = rw plain (
      let m : Drive S J C = λ q. (run_jobs runtime a.jobs >> conclude runtime) q in
      let (c', r, same) = completed-successful (m x).0 (m x).1 c (rw plain at h) in
      let (u, y, f, g) =
        >>=-eq-ok (run_jobs runtime a.jobs) (λ v. conclude runtime) x (m x).1 c'
          (ap (λ (t : Result C). (t, (m x).1)) r) in
      let (out, e, order) = run_jobs-IsOrder a.jobs x y f in
      let (single, mode, sorted) = IsOrder-by_rank a.jobs out first one order in
      (
        single,
        mode,
        ap (λ (t : S × List (Call J)). performed t.1) same
            ∙ Performs-conclude y (m x).1 c' g
            ∙ append-nil (performed y.1)
            ∙ e
            ∙ ap (λ l. performed x.1 ++ l) sorted,
      ))

  -- In an activation without queries that succeeds, every job is performed exactly once, sorted by
  -- rank and otherwise in the order it came in: first patches, and the start of the workflow last;
  -- where all is one batch, the random seed comes next and then the other jobs; else the signals
  -- come next and then the other jobs, and this happens only if there is a signal. At most the
  -- first job initializes the workflow, and there is at most one new seed.
  pub jobs_in_order :
      (a : Activation J) (s : S) (c : C)
      → any is_query a.jobs ≡ false
      → initializes_first a.jobs ≡ true
      → length (chosen is_seed a.jobs) ≤ 1
      → (activate runtime a (s, [])).0 ≡ ok (successful c)
      → (single : Bool) × ((single || any is_signal a.jobs) ≡ true)
        × (performed (activate runtime a (s, [])).1.1 ≡ by_rank single a.jobs)
  unfolding activate performed
  jobs_in_order a s c plain first one h = elim (Bool-cases (runtime.has_context s)) [
    | inl alive ↦
        rw alive (admitted_in_order a (refuse runtime a) (s, []) c plain first one (rw alive at h))
    | inr gone ↦ absurd (ground arith)
  ]
