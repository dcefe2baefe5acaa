-- ===== src/Activator/Conditions.antt =====
-- packages/workflow/src/worker-interface.ts, tryUnblockConditions.
-- The predicates of conditions are the workflow's: each reads, and may write, the
-- workflow's own variables, which are a parameter, and may throw.
pub mod Settled
use sdk_typescript.Prelude.{
  ℕ, zero, suc, ◌+◌, Bool, true, false, Option, none, some, List, [], ◌∷◌, ◌++◌, if◌then◌else◌,
  nat_beq, nat_same, length,
}
use sdk_typescript.JsMap.{JsMap, set, delete}
use sdk_typescript.Errors.{JsError}
use sdk_typescript.Activator.{Activator, NextSeqs, Result, ok, throw}
use sdk_typescript.Activator.Failure.{maybe_rethrow_workflow_task_error}

-- `S` are the values of the workflow's variables.
abbrev pub Predicate : Type 0 → Type 0
Predicate S = S → Result Bool × S

-- The activator, the workflow's variables, `blockedConditions`, and the conditions resolved so far.
pub record World (S : Type 0) : Type 0 where
  pub activator : Activator
  pub variables : S
  pub blocked_conditions : JsMap ℕ (Predicate S)
  pub resolved : List ℕ

module _ {S : Type 0} where
  unfoldable pub unblock : ℕ → World S → World S
  unblock seq w = record w {
    blocked_conditions = delete seq w.blocked_conditions;
    resolved = w.resolved ++ seq ∷ [];
  }

  unfoldable pub count : Result ℕ × World S → Result ℕ × World S
  count (ok n, w) = (ok (suc n), w)
  count (throw e, w) = (throw e, w)

  evaluated : ℕ → Result Bool → (World S → Result ℕ × World S) → World S → Result ℕ × World S
  unfolding unblock count
  evaluated seq (throw e) rest w = (throw e, w)
  evaluated seq (ok true) rest w = count (rest (unblock seq w))
  evaluated seq (ok false) rest w = rest w

  -- One iteration over the entries of the map. Deleting the entry at hand does not disturb it.
  unfoldable pub pass : JsMap ℕ (Predicate S) → World S → Result ℕ × World S
  unfolding evaluated
  pass [] w = (ok 0, w)
  pass ((seq, fn) ∷ cs) w =
      let (r, v) = fn w.variables in evaluated seq r (pass cs) (record w { variables = v })

  -- After a pass: stop when it threw or unblocked nothing, else go on.
  passed :
      (ℕ → World S → Option (Result ℕ) × World S)
      → ℕ
      → Result ℕ × World S
      → Option (Result ℕ) × World S
  passed again unblocked (throw e, w) = (some (throw e), w)
  passed again unblocked (ok zero, w) = (some (ok unblocked), w)
  passed again unblocked (ok (suc n), w) = again (unblocked + suc n) w

  rethrown :
      Result (Unit {0})
      → (World S → Option (Result ℕ) × World S)
      → ℕ
      → World S
      → Option (Result ℕ) × World S
  rethrown (throw e) go unblocked w = (some (throw e), w)
  rethrown (ok x) go unblocked w =
      if w.activator.check_conditions then go w else (some (ok unblocked), w)

  -- The loop; `none` is a loop cut off by the fuel.
  unfoldable pub unblock_loop : ℕ → ℕ → World S → Option (Result ℕ) × World S
  unfolding passed rethrown maybe_rethrow_workflow_task_error pass
  unblock_loop zero unblocked w = (none, w)
  unblock_loop (suc fuel) unblocked w =
      rethrown (maybe_rethrow_workflow_task_error w.activator).0
        (λ v. passed (unblock_loop fuel) unblocked (pass v.blocked_conditions v)) unblocked w

  -- tryUnblockConditions: the number of unblocked conditions. Each round but the last takes a
  -- condition out of the map, so one round more than there are conditions is enough.
  unfoldable pub try_unblock_conditions : World S → Option (Result ℕ) × World S
  unfolding unblock_loop
  try_unblock_conditions w =
      let (r, v) =
        unblock_loop (suc (length w.blocked_conditions)) 0
          (record w { activator = record w.activator { rethrow_synchronously = true } }) in
      (r, record v { activator = record v.activator { rethrow_synchronously = false } })
