-- ===== src/Activator/Patches.antt =====
-- packages/workflow/src/internals.ts: `patchInternal`, behind `patched` and `deprecatePatch`, and
-- `notifyHasPatch`. The callback of the worker's options is a parameter.
pub mod Stable
pub mod Markers
use sdk_typescript.Prelude.{
  String, Bool, true, false, ◌&&◌, not, ◌==◌, Option, none, some, List, [], ◌∷◌, ◌++◌,
  if◌then◌else◌, string_same,
}
use sdk_typescript.JsMap.{get, has, set}
use sdk_typescript.Errors.{illegal_state_error, type_error}
use sdk_typescript.Activator.{
  Activator, Command, set_patch_marker, Exec, raise, pure, modify, push_command, ◌>>=◌, ◌>>◌, ok,
}

-- notifyHasPatch; a missing patch id is the empty text.
unfoldable pub notify_has_patch : String → Exec (Unit {0})
notify_has_patch patch_id a =
    if not a.is_replaying
    then raise (illegal_state_error "Unexpected notifyHasPatch job on non-replay activation") a
    else if patch_id == ""
    then raise (type_error "notifyHasPatch missing patch id") a
    else modify (λ b. record b { known_present_patches = set patch_id tt b.known_present_patches })
        a

-- Whether a patch whose marker is not in history is used by live code. With no callback it is.
unfoldable pub use_patch : Option (String → Bool) → String → Bool → Bool → Bool
use_patch none patch_id known deprecated = true
use_patch (some callback) patch_id known deprecated =
    if not known && not deprecated then callback patch_id else true

send_marker : String → Bool → Bool → Activator → Activator
unfolding push_command
send_marker patch_id deprecated used a =
    if used && not (has patch_id a.sent_patches)
    then (let b = push_command (set_patch_marker patch_id deprecated) false a in
        record b { sent_patches = set patch_id tt b.sent_patches })
    else a

decide : Option (String → Bool) → String → Bool → Bool → Activator → Bool × Activator
unfolding use_patch send_marker
decide callback patch_id deprecated known a =
    if a.is_replaying && not known
    then (false, a)
    else (let used = use_patch callback patch_id known deprecated in
        (
          used,
          send_marker patch_id deprecated used
              (record a { patch_decisions = set patch_id used a.patch_decisions }),
        ))

decided_or : Option Bool → Option (String → Bool) → String → Bool → Activator → Bool × Activator
unfolding decide
decided_or (some previous) callback patch_id deprecated a = (previous, a)
decided_or none callback patch_id deprecated a =
    decide callback patch_id deprecated (has patch_id a.known_present_patches) a

-- patchInternal
unfoldable pub patch_internal : Option (String → Bool) → String → Bool → Exec Bool
unfolding decided_or
patch_internal callback patch_id deprecated a =
    if a.workflow_loaded
    then (let r = decided_or (get patch_id a.patch_decisions) callback patch_id deprecated a in
        (ok r.0, r.1))
    else raise (illegal_state_error "Patches cannot be used before Workflow starts") a
