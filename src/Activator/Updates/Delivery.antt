-- ===== src/Activator/Updates/Delivery.antt =====
-- Every update is answered or started once a handler is there, in the order of arrival.
use sdk_typescript.Prelude.{
  String, ◌≡◌, refl, ap, ◌∙◌, true, false, not, ◌==◌, Option, List, [], ◌∷◌, ◌++◌, arith,
  string_same, nat_same, filter_by, All, starts_with, map, append-nil, append_assoc,
}
use sdk_typescript.JsMap.{get, has, set}
use sdk_typescript.Reserved.{EntityType, temporal_reserved_prefix, is_reserved_name}
use sdk_typescript.Activator.{
  Activator, DoUpdate, UpdateHandler, Result, ok, throw, Command, update_rejected, push_command,
}
use sdk_typescript.Errors.{
  JsError, application_failure, ensure_temporal_failure, is_temporal_failure,
}
use sdk_typescript.Activator.Mailbox.Drained.{
  IsLawful, start_all, drained, dispatch_drained, dispatch_emptied,
}
use sdk_typescript.Activator.Updates.{
  UpdateHost, updates, do_update, do_update_impl, handles_update, set_update_handler,
  set_default_update_handler, reject_buffered_updates, update_input, validate_update,
  accepted_or_rejected, reject_converted, try_reject_update, start_update, reject_update,
  accept_update, reject_all,
}

module _ (host : UpdateHost) where
  -- The answer to an update and, when it is accepted, the start of its handler.
  pub take_up : DoUpdate → Activator → Activator
  take_up u a = do_update_impl host (get u.name a.update_handlers) u a

  converted-put :
      (u : DoUpdate) (e : JsError) (o : Result (Unit {0})) (l : List DoUpdate) (a : Activator)
      → (reject_converted host u e o (record a { buffered_updates = l })).1
        ≡ record (reject_converted host u e o a).1 { buffered_updates = l }
  unfolding reject_converted reject_update push_command
  converted-put u e (ok c) l a = refl
  converted-put u e (throw x) l a = refl

  accepted-put :
      (entry : Option UpdateHandler) (u : DoUpdate) (r : Result (List String)) (l : List DoUpdate)
      (a : Activator)
      → accepted_or_rejected host entry u r (record a { buffered_updates = l })
        ≡ record (accepted_or_rejected host entry u r a) { buffered_updates = l }
  unfolding accepted_or_rejected start_update try_reject_update reject_update accept_update
      push_command
  accepted-put entry u (ok args) l a = refl
  accepted-put entry u (throw e) l a = converted-put u e _ l a

  -- Validating and decoding leave the state as it was.
  pub update_input-keeps :
      (entry : Option UpdateHandler) (u : DoUpdate) (a : Activator)
      → (update_input host entry u a).1 ≡ a
  unfolding update_input validate_update
  update_input-keeps entry u a = ground arith

  input-put :
      (entry : Option UpdateHandler) (u : DoUpdate) (l : List DoUpdate) (a : Activator)
      → (update_input host entry u (record a { buffered_updates = l })).0
        ≡ (update_input host entry u a).0
  unfolding update_input validate_update
  input-put entry u l a = ground arith

  answered-put :
      (entry : Option UpdateHandler) (u : DoUpdate) (l : List DoUpdate) (a : Activator)
      → do_update_impl host entry u (record a { buffered_updates = l })
        ≡ record (do_update_impl host entry u a) { buffered_updates = l }
  unfolding do_update_impl
  answered-put entry u l a =
      rw
        (
          update_input-keeps entry u a,
          update_input-keeps entry u (record a { buffered_updates = l }),
          input-put entry u l a,
        )
        (accepted-put entry u (update_input host entry u a).0 l a)

  answered-handlers :
      (entry : Option UpdateHandler) (u : DoUpdate) (a : Activator)
      → (do_update_impl host entry u a).update_handlers ≡ a.update_handlers
  unfolding do_update_impl update_input validate_update start_update reject_update accept_update
      push_command
  answered-handlers entry u a = ground arith

  answered-default :
      (entry : Option UpdateHandler) (u : DoUpdate) (a : Activator)
      → (do_update_impl host entry u a).default_update_handler ≡ a.default_update_handler
  unfolding do_update_impl update_input validate_update start_update reject_update accept_update
      push_command
  answered-default entry u a = ground arith

  updates-IsLawful : IsLawful (updates host) take_up
  unfolding handles_update take_up
  updates-IsLawful = record {
    buffer-put = λ l a. refl;
    put-put = λ l k a. refl;
    put-buffer = λ a. refl;
    handled-put = λ l a. refl;
    default-put = λ l a. refl;
    handled-start =
        λ u a. ap (λ m v. has v.name m) (answered-handlers (get u.name a.update_handlers) u a);
    default-start = λ u a. answered-default (get u.name a.update_handlers) u a;
    start-put = λ u l a. answered-put (get u.name a.update_handlers) u l a;
  }

-- An update as the server sends it: with an id, a name and a protocol instance.
abbrev pub IsComplete : DoUpdate → Type 0
IsComplete u =
    ((u.id == "") ≡ false) × ((u.name == "") ≡ false) × ((u.protocol_instance_id == "") ≡ false)

-- An update that a default handler may take.
abbrev pub IsPublicUpdate : DoUpdate → Type 0
IsPublicUpdate u = IsComplete u × (starts_with u.name temporal_reserved_prefix ≡ false)

module _ (host : UpdateHost) where
  handled-takes_up :
      (u : DoUpdate) (a : Activator)
      → IsComplete u
      → handles_update a u ≡ true
      → do_update host u a ≡ (ok tt, take_up host u a)
  unfolding do_update take_up
  handled-takes_up u a v h = ground arith

  default-takes_up :
      (u : DoUpdate) (a : Activator)
      → IsPublicUpdate u
      → a.default_update_handler ≡ true
      → do_update host u a ≡ (ok tt, take_up host u a)
  unfolding do_update take_up
  default-takes_up u a v h = ground arith

  -- Where there is no default handler and every buffered update is complete, registering a handler
  -- under a name that is not reserved takes up the buffered updates that now have one, in order of
  -- arrival, and leaves the others in the buffer in that order.
  pub set_update_handler_dispatches :
      (name : String) (h : UpdateHandler) (a : Activator)
      → is_reserved_name EntityType.update name ≡ false
      → a.default_update_handler ≡ false
      → All IsComplete a.buffered_updates
      → let b = record a { update_handlers = set name h a.update_handlers } in
        set_update_handler host name h a ≡ (
          ok tt,
          record (start_all (take_up host) (filter_by (handles_update b) a.buffered_updates) b) {
            buffered_updates = filter_by (λ u. not (handles_update b u)) a.buffered_updates;
          },
        )
  unfolding set_update_handler drained
  set_update_handler_dispatches name h a free d v = rw free (
      dispatch_drained (updates host) (take_up host) (updates-IsLawful host) IsComplete
        handled-takes_up (record a { update_handlers = set name h a.update_handlers }) d v)

  -- Setting a default update handler takes up all buffered updates in order and empties the
  -- buffer, if each is complete and none has the reserved prefix.
  pub set_default_update_handler_dispatches :
      (a : Activator)
      → All IsPublicUpdate a.buffered_updates
      → let b = record a { default_update_handler = true } in
        set_default_update_handler host true a
        ≡ (ok tt, record (start_all (take_up host) a.buffered_updates b) { buffered_updates = [] })
  unfolding set_default_update_handler
  set_default_update_handler_dispatches a v =
      dispatch_emptied (updates host) (take_up host) (updates-IsLawful host) IsPublicUpdate
        default-takes_up (record a { default_update_handler = true }) refl v

-- The answer to an update that no handler was registered for.
abbrev pub not_registered : DoUpdate → Command
not_registered u =
    update_rejected u.protocol_instance_id (application_failure "No registered handler for update")

reject_all-commands :
    (host : UpdateHost) (us : List DoUpdate) (a : Activator)
    → reject_all host us (record a { buffered_updates = us })
      ≡ record a { commands = a.commands ++ map not_registered us; buffered_updates = [] }
unfolding reject_all reject_update push_command ensure_temporal_failure is_temporal_failure
reject_all-commands host [] a = simp append-nil
reject_all-commands host (u ∷ us) a =
    reject_all-commands host us (
      reject_update host u.protocol_instance_id
        (application_failure "No registered handler for update")
        (record a { buffered_updates = us }))
    ∙ simp append_assoc

-- rejectBufferedUpdates rejects every update left in the buffer once, in order of arrival, empties
-- the buffer, and changes nothing else.
pub reject_buffered_updates_answers :
    (host : UpdateHost) (a : Activator)
    → reject_buffered_updates host a ≡ record a {
      commands = a.commands ++ map not_registered a.buffered_updates;
      buffered_updates = [];
    }
unfolding reject_buffered_updates
reject_buffered_updates_answers host a = reject_all-commands host a.buffered_updates a
