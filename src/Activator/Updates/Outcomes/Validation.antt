-- ===== src/Activator/Updates/Outcomes/Validation.antt =====
-- What an update's sender and the state hold after doUpdate's tests, validation and decoding.
use sdk_typescript.Prelude.{
  ℕ, String, ◌≡◌, refl, sym, subst, ◌⊎◌, inl, inr, true, false, Option, none, some, List, [], ◌∷◌,
  ◌++◌, arith, string_same, nat_same, Bool-cases, Option-cases, starts_with, ◌==◌,
}
use sdk_typescript.JsMap.{get, has}
use sdk_typescript.Activator.{
  Activator, DoUpdate, UpdateHandler, Result, ok, throw, update_rejected, update_accepted,
  push_command, update_started, MessageHandlerExecution,
}
use sdk_typescript.Errors.{JsError, ensure_temporal_failure, is_temporal_failure}
use sdk_typescript.Reserved.{temporal_reserved_prefix}
use sdk_typescript.Streams.Log.{Result-cases}
use sdk_typescript.Activator.Failure.Laws.{ensured-IsTemporal}
use sdk_typescript.Activator.Updates.{
  UpdateHost, update_input, validate_update, validated_by, validator_of, reject_update,
  reject_converted,
}

-- Neither commands nor handlers nor the flag that validation sets are touched.
abbrev pub Untouched : Activator → Activator → Type 0
Untouched a b =
    (b.invocations ≡ a.invocations)
    × (b.in_progress_updates ≡ a.in_progress_updates)
    × (b.is_replaying_history_events ≡ a.is_replaying_history_events)

-- One answer, an acceptance, and the registered handler, or the default one, started with the
-- update and in progress.
abbrev pub Accepted : Option UpdateHandler → DoUpdate → Activator → Activator → Type 0
Accepted entry u a b =
    (b.commands ≡ a.commands ++ update_accepted u.protocol_instance_id ∷ [])
    × (((entry ≡ none) × (b.invocations ≡ a.invocations ++ update_started none u ∷ []))
        ⊎ ((h : UpdateHandler) × (entry ≡ some h)
            × (b.invocations ≡ a.invocations ++ update_started (some h.handler) u ∷ [])))
    × ((x : MessageHandlerExecution) × (get u.id b.in_progress_updates ≡ some x)
        × (x.name ≡ u.name)
        × (x.id ≡ some u.id))
    × (b.check_conditions ≡ true)
    × (b.is_replaying_history_events ≡ a.is_replaying_history_events)

-- The failure that stands for an error: the error itself if it is a TemporalFailure.
abbrev pub StandsFor : JsError → JsError → Type 0
StandsFor f e = (is_temporal_failure f ≡ true) × ((is_temporal_failure e ≡ false) ⊎ (f ≡ e))

StandsFor-ensured :
    (message : JsError → String) (e : JsError) → StandsFor (ensure_temporal_failure message e) e
unfolding ensure_temporal_failure
StandsFor-ensured message e = elim (Bool-cases (is_temporal_failure e)) [
  | inl h ↦ rw h (h, inr refl)
  | inr h ↦ (ensured-IsTemporal message e, inl h)
]

-- The tests at the start of doUpdate.
abbrev pub HasReservedName : DoUpdate → Activator → Type 0
HasReservedName u a =
    (starts_with u.name temporal_reserved_prefix ≡ true)
    × (has u.name a.update_handlers ≡ false)
    × (a.default_update_handler ≡ true)

abbrev pub IsMalformed : DoUpdate → Activator → Type 0
IsMalformed u a =
    ((u.id == "") ≡ true)
    ⊎ (((u.name == "") ≡ true) ⊎ (((u.protocol_instance_id == "") ≡ true) ⊎ HasReservedName u a))

abbrev pub IsWellFormed : DoUpdate → Activator → Type 0
IsWellFormed u a =
    ((u.id == "") ≡ false)
    × ((u.name == "") ≡ false)
    × ((u.protocol_instance_id == "") ≡ false)
    × ((starts_with u.name temporal_reserved_prefix ≡ false)
        ⊎ ((has u.name a.update_handlers ≡ true) ⊎ (a.default_update_handler ≡ false)))

abbrev pub HasNoValidator : Option UpdateHandler → Type 0
HasNoValidator entry =
    (entry ≡ none) ⊎ ((h : UpdateHandler) × (entry ≡ some h) × (h.validator ≡ none))

abbrev pub HasValidator : Option UpdateHandler → ℕ → Type 0
HasValidator entry v = (h : UpdateHandler) × (entry ≡ some h) × (h.validator ≡ some v)

module _ (host : UpdateHost) where
  -- The validator that has to run, if any, returns and the input is decoded.
  abbrev pub Passes : Option UpdateHandler → DoUpdate → Type 0
  Passes entry u =
      ((args : List String) × (host.decode entry u.input ≡ ok args)
        × ((u.run_validator ≡ false)
            ⊎ (HasNoValidator entry
                ⊎ ((v : ℕ) × HasValidator entry v × (host.validate v false args ≡ ok tt)))))

  -- Decoding throws, or the validator that has to run.
  abbrev pub Fails : Option UpdateHandler → DoUpdate → JsError → Type 0
  Fails entry u e =
      (host.decode entry u.input ≡ throw e)
      ⊎ ((args : List String) × (v : ℕ) × (host.decode entry u.input ≡ ok args)
          × (u.run_validator ≡ true)
          × HasValidator entry v
          × (host.validate v false args ≡ throw e))

  -- One answer, a rejection, unless the failure converter throws; no handler is started.
  abbrev pub Rejected : DoUpdate → JsError → Activator → Activator → Type 0
  Rejected u e a b =
      ((f : JsError) × StandsFor f e
        × (((host.failures.error_to_failure f ≡ ok tt)
              × (b.commands ≡ a.commands ++ update_rejected u.protocol_instance_id f ∷ []))
            ⊎ ((x : JsError) × (host.failures.error_to_failure f ≡ throw x)
                × (b.commands ≡ a.commands))))
      × Untouched a b

  pub reject_converted-Rejected :
      (u : DoUpdate) (e : JsError) (a : Activator) (o : Result (Unit {0}))
      → host.failures.error_to_failure (ensure_temporal_failure host.failures.message e) ≡ o
      → Rejected u e a (reject_converted host u e o a).1
  unfolding reject_converted reject_update push_command
  reject_converted-Rejected u e a (ok c) h =
      ((_, StandsFor-ensured host.failures.message e, inl (h, refl)), (refl, refl, refl))
  reject_converted-Rejected u e a (throw x) h =
      ((_, StandsFor-ensured host.failures.message e, inr (x, h, refl)), (refl, refl, refl))

  -- What `try` ends with, by what decoding and the validator do.
  abbrev pub Decides : Option UpdateHandler → DoUpdate → Result (List String) → Type 0
  Decides entry u (ok args) = Passes entry u
  Decides entry u (throw e) = Fails entry u e

  Decides-of_eq :
      (entry : Option UpdateHandler) (u : DoUpdate) (a : Activator) (r : Result (List String))
      → (update_input host entry u a).0 ≡ r
      → Decides entry u r
      → Decides entry u (update_input host entry u a).0
  Decides-of_eq entry u a r e = subst (Decides entry u) (sym e)

  update_input-Decides-none :
      (u : DoUpdate) (a : Activator) → Decides none u (update_input host none u a).0
  unfolding update_input validate_update validated_by validator_of
  update_input-Decides-none u a = elim (Result-cases (host.decode none u.input)) [
    | inl (e, p) ↦ Decides-of_eq none u a (throw e) (ground (arith, p)) (inl p)
    | inr (args, p) ↦
        Decides-of_eq none u a (ok args) (ground (arith, p)) (args, p, inr (inl (inl refl)))
  ]

  update_input-Decides_validated :
      (h : UpdateHandler) (u : DoUpdate) (a : Activator) (args : List String) (v : ℕ)
      → host.decode (some h) u.input ≡ ok args
      → h.validator ≡ some v
      → u.run_validator ≡ true
      → Decides (some h) u (update_input host (some h) u a).0
  unfolding update_input validate_update validated_by validator_of
  update_input-Decides_validated h u a args v p n w =
      elim (Result-cases (host.validate v false args)) [
        | inl (e, q) ↦
            Decides-of_eq (some h) u a (throw e) (ground (arith, p, n, w, q))
              (inr (args, v, p, w, (h, refl, n), q))
        | inr (x, q) ↦
            Decides-of_eq (some h) u a (ok args) (ground (arith, p, n, w, q))
              (args, p, inr (inr (v, (h, refl, n), q)))
      ]

  update_input-Decides-some :
      (h : UpdateHandler) (u : DoUpdate) (a : Activator)
      → Decides (some h) u (update_input host (some h) u a).0
  unfolding update_input validate_update validated_by validator_of
  update_input-Decides-some h u a = elim (Result-cases (host.decode (some h) u.input)) [
    | inl (e, p) ↦ Decides-of_eq (some h) u a (throw e) (ground (arith, p)) (inl p)
    | inr (args, p) ↦ elim (Bool-cases u.run_validator) [
      | inl w ↦ elim (Option-cases h.validator) [
        | inl n ↦
            Decides-of_eq (some h) u a (ok args) (ground (arith, p, n))
              (args, p, inr (inl (inr (h, refl, n))))
        | inr (v, n) ↦ update_input-Decides_validated h u a args v p n w
      ]
      | inr w ↦ Decides-of_eq (some h) u a (ok args) (ground (arith, p, w)) (args, p, inl w)
    ]
  ]

  pub update_input-Decides :
      (entry : Option UpdateHandler) (u : DoUpdate) (a : Activator)
      → Decides entry u (update_input host entry u a).0
  update_input-Decides none u a = update_input-Decides-none u a
  update_input-Decides (some h) u a = update_input-Decides-some h u a
