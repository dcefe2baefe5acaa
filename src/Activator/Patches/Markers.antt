-- ===== src/Activator/Patches/Markers.antt =====
-- The markers that patches put into history.
use sdk_typescript.Prelude.{
  ℕ, ◌+◌, ◌≤◌, String, ◌≡◌, Bool, true, false, Option, none, List, [], ◌∷◌, ◌++◌, arith, eq_iff,
  string_same, ◌==◌, if◌then◌else◌,
}
use sdk_typescript.JsMap.{get, has, get-set}
use sdk_typescript.Activator.{Activator, fresh, Command, set_patch_marker, ok}
use sdk_typescript.Activator.Patches.{patch_internal}
use sdk_typescript.Activator.Patches.Stable.{PatchCall, patched, notified, activation, patch_step}

-- How often the marker of a patch stands in a list of commands.
abbrev pub is_marker : String → Command → Bool
is_marker id (set_patch_marker j d) = j == id
is_marker id _ = false

pub markers : String → List Command → ℕ
markers id [] = 0
markers id (c ∷ cs) = (if is_marker id c then 1 else 0) + markers id cs

markers-append :
    (id : String) (xs ys : List Command) → markers id (xs ++ ys) ≡ markers id xs + markers id ys
unfolding markers
markers-append id [] ys = omega arith
markers-append id (x ∷ xs) ys = omega (arith, markers-append id xs ys)

-- The commands of a whole execution: those of the activations that ended, and those pending.
pub patch_trace : List PatchCall → Activator → List Command
patch_trace [] a = a.commands
patch_trace (patched f id d ∷ cs) a = patch_trace cs (patch_step (patched f id d) a)
patch_trace (notified id ∷ cs) a = patch_trace cs (patch_step (notified id) a)
patch_trace (activation r ∷ cs) a = a.commands ++ patch_trace cs (patch_step (activation r) a)

abbrev unsent : String → Activator → ℕ
unsent id a = if has id a.sent_patches then 0 else 1

patched-markers :
    (f : Option (String → Bool)) (j : String) (d : Bool) (id : String) (a : Activator)
    → markers id (patch_step (patched f j d) a).commands + unsent id (patch_step (patched f j d) a)
      ≤ markers id a.commands + unsent id a
unfolding patch_step has markers
patched-markers f j d id a = ground (
  arith,
  markers-append id a.commands (set_patch_marker j d ∷ []),
  eq_iff j id,
  get-set j id tt a.sent_patches,
)

notified-markers :
    (j id : String) (a : Activator)
    → markers id (patch_step (notified j) a).commands + unsent id (patch_step (notified j) a)
      ≤ markers id a.commands + unsent id a
unfolding patch_step has
notified-markers j id a = ground arith

trace-markers :
    (cs : List PatchCall) (id : String) (a : Activator)
    → markers id (patch_trace cs a) ≤ markers id a.commands + unsent id a
unfolding patch_trace patch_step markers
trace-markers [] id a = omega arith
trace-markers (patched f j d ∷ cs) id a =
    omega (arith, trace-markers cs id (patch_step (patched f j d) a), patched-markers f j d id a)
trace-markers (notified j ∷ cs) id a =
    omega (arith, trace-markers cs id (patch_step (notified j) a), notified-markers j id a)
trace-markers (activation r ∷ cs) id a = omega (
  arith,
  trace-markers cs id (patch_step (activation r) a),
  markers-append id a.commands (patch_trace cs (patch_step (activation r) a)),
)

-- In a whole execution the command for the marker of a patch is pushed at most once, over all its
-- activations.
pub marker_at_most_once :
    (cs : List PatchCall) (id : String) → markers id (patch_trace cs fresh) ≤ 1
unfolding markers has get
marker_at_most_once cs id = trace-markers cs id fresh

-- When code is told to use a patch by a live call that decides it, the command for its marker is
-- pushed, unless the marker was sent before.
pub used_patch_has_marker :
    (f : Option (String → Bool)) (id : String) (d : Bool) (a : Activator)
    → a.is_replaying ≡ false
    → get id a.patch_decisions ≡ none
    → has id a.sent_patches ≡ false
    → (patch_internal f id d a).0 ≡ ok true
    → (patch_internal f id d a).1.commands ≡ a.commands ++ set_patch_marker id d ∷ []
unfolding patch_internal
used_patch_has_marker f id d a live undecided unsent_id h = ground arith

-- Replay of a history without the marker: the answer is no, and nothing is recorded, so that live
-- code may still turn the patch on.
pub replay_without_marker :
    (f : Option (String → Bool)) (id : String) (d : Bool) (a : Activator)
    → a.workflow_loaded ≡ true
    → a.is_replaying ≡ true
    → get id a.patch_decisions ≡ none
    → has id a.known_present_patches ≡ false
    → patch_internal f id d a ≡ (ok false, a)
unfolding patch_internal
replay_without_marker f id d a loaded replaying undecided unknown = ground arith
