-- ===== src/Activator/Conditions/Settled.antt =====
-- The loop over the blocked conditions ends.
use sdk_typescript.Prelude.{
  ℕ, zero, suc, ◌+◌, ◌≤◌, ◌<◌, ◌≡◌, refl, Bool, true, false, Option, some, [], ◌∷◌, if◌then◌else◌,
  nat_same, length, arith, ==_refl, All,
}
use sdk_typescript.JsMap.{JsMap, get, has, delete}
use sdk_typescript.Activator.{Result, ok, throw}
use sdk_typescript.Activator.Failure.{maybe_rethrow_workflow_task_error}
use sdk_typescript.Activator.Conditions.{
  World, Predicate, pass, unblock, count, evaluated, unblock_loop, passed, rethrown,
  try_unblock_conditions,
}

module _ {S : Type 0} where
  length-delete : (seq : ℕ) (m : JsMap ℕ (Predicate S)) → length (delete seq m) ≤ length m
  unfolding delete
  length-delete seq [] = omega arith
  length-delete seq ((j, f) ∷ m) = ground (arith, length-delete seq m)

  Has : JsMap ℕ (Predicate S) → ℕ × Predicate S → Type 0
  Has m c = has c.0 m ≡ true

  length-delete-has :
      (seq : ℕ) (m : JsMap ℕ (Predicate S)) → has seq m ≡ true → length (delete seq m) < length m
  unfolding has get delete
  length-delete-has seq [] h = absurd cc
  length-delete-has seq ((j, f) ∷ m) h =
      ground (arith, length-delete seq m, length-delete-has seq m)

  Has-weaken :
      (j : ℕ) (f : Predicate S) (m cs : JsMap ℕ (Predicate S))
      → All (Has m) cs
      → All (Has ((j, f) ∷ m)) cs
  unfolding Has has get
  Has-weaken j f m [] h = tt
  Has-weaken j f m (c ∷ cs) h = (ground (arith, h.0), Has-weaken j f m cs h.1)

  Has-self : (m : JsMap ℕ (Predicate S)) → All (Has m) m
  unfolding Has has get
  Has-self [] = tt
  Has-self ((j, f) ∷ m) = (rw (==_refl j) refl, Has-weaken j f m m (Has-self m))

  count-world : (r : Result ℕ × World S) → (count r).1 ≡ r.1
  unfolding count
  count-world (ok n, w) = refl
  count-world (throw e, w) = refl

  -- A pass takes conditions out of the map only.
  pass-shrinks :
      (cs : JsMap ℕ (Predicate S)) (w : World S)
      → length (pass cs w).1.blocked_conditions ≤ length w.blocked_conditions
  unfolding pass unblock
  pass-shrinks [] w = omega arith
  pass-shrinks ((seq, fn) ∷ cs) w =
      elim (fn w.variables).0
        as (λ r.
          length
            (evaluated seq r (pass cs)
              (record w { variables = (fn w.variables).1 })).1.blocked_conditions
          ≤ length w.blocked_conditions) [
            | throw e ↦ omega arith
            | ok true ↦
                rw
                  (count-world
                    (pass cs (unblock seq (record w { variables = (fn w.variables).1 }))))
                  (omega (
                    arith,
                    pass-shrinks cs (unblock seq (record w { variables = (fn w.variables).1 })),
                    length-delete seq w.blocked_conditions,
                  ))
            | ok false ↦ pass-shrinks cs (record w { variables = (fn w.variables).1 })
          ]

  -- A pass that reports an unblocked condition took one out.
  pass-strict :
      (cs : JsMap ℕ (Predicate S)) (w : World S) (n : ℕ)
      → All (Has w.blocked_conditions) cs
      → (pass cs w).0 ≡ ok (suc n)
      → length (pass cs w).1.blocked_conditions < length w.blocked_conditions
  unfolding pass unblock Has
  pass-strict [] w n h e = absurd cc
  pass-strict ((seq, fn) ∷ cs) w n h e =
      stepped (fn w.variables).0 e
        (pass-strict cs (record w { variables = (fn w.variables).1 }) n h.1)
    where
      next : World S
      next = record w { variables = (fn w.variables).1 }

      stepped :
          (r : Result Bool)
          → (evaluated seq r (pass cs) next).0 ≡ ok (suc n)
          → ((pass cs next).0 ≡ ok (suc n)
              → length (pass cs next).1.blocked_conditions < length w.blocked_conditions)
          → length (evaluated seq r (pass cs) next).1.blocked_conditions
            < length w.blocked_conditions
      stepped (throw x) g again = absurd cc
      stepped (ok false) g again = again g
      stepped (ok true) g again = rw (count-world (pass cs (unblock seq next))) (
          omega (
            arith,
            pass-shrinks cs (unblock seq next),
            length-delete-has seq w.blocked_conditions h.0,
          ))

  Ended : Option (Result ℕ) × World S → Type 0
  Ended o = (r : Result ℕ) × (o.0 ≡ some r)

  loop-ends :
      (fuel unblocked : ℕ) (w : World S)
      → length w.blocked_conditions < fuel
      → Ended (unblock_loop fuel unblocked w)
  unfolding unblock_loop Ended
  loop-ends zero unblocked w h = absurd (omega arith)
  loop-ends (suc fuel) unblocked w h = rethrow (maybe_rethrow_workflow_task_error w.activator).0 (
      after (pass w.blocked_conditions w) (λ n e.
        loop-ends fuel (unblocked + suc n) (pass w.blocked_conditions w).1 (
          omega
            (arith, h, pass-strict w.blocked_conditions w n (Has-self w.blocked_conditions) e))))
    where
      after :
          (p : Result ℕ × World S)
          → ((n : ℕ) → p.0 ≡ ok (suc n) → Ended (unblock_loop fuel (unblocked + suc n) p.1))
          → Ended (passed (unblock_loop fuel) unblocked p)
      after (throw e, v) again = (throw e, refl)
      after (ok zero, v) again = (ok unblocked, refl)
      after (ok (suc n), v) again = again n refl

      branch :
          (b : Bool) (o : Option (Result ℕ) × World S)
          → Ended o
          → Ended (if b then o else (some (ok unblocked), w))
      branch true o e = e
      branch false o e = (ok unblocked, refl)

      rethrow :
          (r : Result (Unit {0}))
          → Ended (passed (unblock_loop fuel) unblocked (pass w.blocked_conditions w))
          → Ended (
              rethrown r
                (λ v. passed (unblock_loop fuel) unblocked (pass v.blocked_conditions v))
                unblocked
                w)
      rethrow (throw e) go = (throw e, refl)
      rethrow (ok x) go =
          branch w.activator.check_conditions
            (passed (unblock_loop fuel) unblocked (pass w.blocked_conditions w)) go

  -- The loop over the blocked conditions ends with a result or an error within as many rounds as
  -- there are conditions and one, whatever the predicates answer, write or throw.
  pub unblocking_ends : (w : World S) → (r : Result ℕ) × ((try_unblock_conditions w).0 ≡ some r)
  unfolding try_unblock_conditions Ended
  unblocking_ends w =
      loop-ends (suc (length w.blocked_conditions)) 0
        (record w { activator = record w.activator { rethrow_synchronously = true } }) (omega arith)
