-- ===== src/Activator/Patches/Stable.antt =====
-- What code sees of a patch across the calls of one execution.
use sdk_typescript.Prelude.{
  String, ◌≡◌, refl, ◌⊎◌, ◌∙◌, Bool, true, false, Option, some, List, [], ◌∷◌, arith, eq_iff,
  string_same,
}
use sdk_typescript.JsMap.{get, get-set, get-set_self}
use sdk_typescript.Activator.{Activator, ok}
use sdk_typescript.Activator.Patches.{patch_internal, notify_has_patch}

pub data PatchCall : Type 0 where
  patched : Option (String → Bool) → String → Bool → PatchCall
  notified : String → PatchCall
  -- The next activation begins: replaying or live.
  activation : Bool → PatchCall

unfoldable pub patch_step : PatchCall → Activator → Activator
unfolding patch_internal notify_has_patch
patch_step (patched f id d) a = (patch_internal f id d a).1
patch_step (notified id) a = (notify_has_patch id a).1
patch_step (activation replaying) a = record a { is_replaying = replaying; commands = [] }

unfoldable pub patch_run : List PatchCall → Activator → Activator
patch_run [] a = a
patch_run (c ∷ cs) a = patch_run cs (patch_step c a)

loaded_step : (c : PatchCall) (a : Activator) → (patch_step c a).workflow_loaded ≡ a.workflow_loaded
unfolding patch_step
loaded_step (patched f id d) a = ground arith
loaded_step (notified id) a = ground arith
loaded_step (activation r) a = refl

decision_step :
    (c : PatchCall) (id : String) (b : Bool) (a : Activator)
    → get id a.patch_decisions ≡ some b
    → get id (patch_step c a).patch_decisions ≡ some b
unfolding patch_step
decision_step (patched f j d) id b a h =
    ground (
      arith,
      eq_iff j id,
      get-set j id true a.patch_decisions,
      get-set j id false a.patch_decisions,
    )
decision_step (notified j) id b a h = ground arith
decision_step (activation r) id b a h = h

later_decision :
    (cs : List PatchCall) (id : String) (b : Bool) (a : Activator)
    → get id a.patch_decisions ≡ some b
    → a.workflow_loaded ≡ true
    → (get id (patch_run cs a).patch_decisions ≡ some b) × ((patch_run cs a).workflow_loaded ≡ true)
unfolding patch_run
later_decision [] id b a h l = (h, l)
later_decision (c ∷ cs) id b a h l =
    later_decision cs id b (patch_step c a) (decision_step c id b a h) (loaded_step c a ∙ l)

answer_decided :
    (f : Option (String → Bool)) (id : String) (d b : Bool) (a : Activator)
    → get id a.patch_decisions ≡ some b
    → a.workflow_loaded ≡ true
    → patch_internal f id d a ≡ (ok b, a)
unfolding patch_internal
answer_decided f id d b a h l = rw (l, h)

first_decision :
    (f : Option (String → Bool)) (id : String) (d b : Bool) (a : Activator)
    → (patch_internal f id d a).0 ≡ ok b
    → (b ≡ true) ⊎ (a.is_replaying ≡ false)
    → (get id (patch_internal f id d a).1.patch_decisions ≡ some b)
      × ((patch_internal f id d a).1.workflow_loaded ≡ true)
unfolding patch_internal
first_decision f id d b a h final =
    ground (arith, get-set_self id true a.patch_decisions, get-set_self id false a.patch_decisions)

-- An answer of patched or deprecatePatch that is true, or that live code got, is final: after any
-- calls, notifications and activations the same patch has the same answer, and asking changes
-- nothing.
pub patched_stable :
    (f g : Option (String → Bool)) (id : String) (d e b : Bool) (a : Activator)
    (cs : List PatchCall)
    → (patch_internal f id d a).0 ≡ ok b
    → (b ≡ true) ⊎ (a.is_replaying ≡ false)
    → let later = patch_run cs (patch_internal f id d a).1 in
      patch_internal g id e later ≡ (ok b, later)
patched_stable f g id d e b a cs h final =
    let first = first_decision f id d b a h final in
    let later = later_decision cs id b (patch_internal f id d a).1 first.0 first.1 in
    answer_decided g id e b (patch_run cs (patch_internal f id d a).1) later.0 later.1
