-- ===== src/Activator/Mailbox.antt =====
-- packages/workflow/src/internals.ts: dispatchBufferedSignals and dispatchBufferedUpdates, which are
-- one loop over a buffer of messages. What the loop relies on is an interface that the signals and
-- the updates fill.
pub mod Drained
use sdk_typescript.Prelude.{
  ℕ, zero, suc, ◌≡◌, Bool, true, false, Option, none, some, List, [], ◌∷◌, ◌==◌, if◌then◌else◌,
  length,
}
use sdk_typescript.Activator.{Activator, Exec, pure, ◌>>=◌, ◌>>◌, ok}

pub record Mailbox (T : Type 0) : Type 0 where
  pub buffer : Activator → List T
  pub put : List T → Activator → Activator
  -- A handler is registered for the message; a default handler is registered.
  pub handled : Activator → T → Bool
  pub default : Activator → Bool
  -- signalWorkflow, doUpdate
  pub deliver : T → Exec (Unit {0})

-- findIndex, then splice of one element.
unfoldable pub take_first {ℓ} : {T : Type ℓ} → (T → Bool) → List T → Option (T × List T)
take_first p [] = none
take_first p (x ∷ xs) =
    if p x
    then some (x, xs)
    else elim (take_first p xs) [ none ↦ none | some (y, ys) ↦ some (y, x ∷ ys) ]

module _ {T : Type 0} (m : Mailbox T) where
  open m use {buffer, put, handled, default, deliver}

  -- The message that a round of the loop takes out of the buffer.
  unfoldable pub next_message : Activator → List T → Option (T × List T)
  unfolding take_first
  next_message a [] = none
  next_message a (x ∷ xs) = if default a then some (x, xs) else take_first (handled a) (x ∷ xs)

  unfoldable pub round : (Exec (Unit {0})) → Option (T × List T) → Exec (Unit {0})
  round again none a = (ok tt, a)
  round again (some (x, rest)) a = (do deliver x; again) (put rest a)

  -- The loop; each round takes a message out, so as many rounds as there are messages are enough.
  unfoldable pub dispatch : ℕ → Exec (Unit {0})
  dispatch zero a = (ok tt, a)
  dispatch (suc fuel) a = round (dispatch fuel) (next_message a (buffer a)) a

  unfoldable pub dispatch_buffered : Exec (Unit {0})
  unfolding dispatch round next_message
  dispatch_buffered a = dispatch (length (buffer a)) a
