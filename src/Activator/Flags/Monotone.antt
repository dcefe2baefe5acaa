-- ===== src/Activator/Flags/Monotone.antt =====
-- Flags that were seen stay on, and versions are compared lexicographically.
use sdk_typescript.Prelude.{◌<◌, ◌≤◌, ◌≡◌, ◌⊎◌, ◌↔◌, Bool, true, false, some, arith, nat_same}
use sdk_typescript.JsMap.{has, get-set}
use sdk_typescript.Activator.{Activator}
use sdk_typescript.Activator.Flags.{
  FlagContext, SdkFlag, has_flag, SemVer, is_at_least, is_compared, compare_semver, same_comparison,
}

-- A flag that live code found enabled is found enabled when it is asked for again, live or on
-- replay and in whatever context, and asking again changes nothing.
pub has_flag_sticky :
    (ctx ctx' : FlagContext) (flag : SdkFlag) (a : Activator) (replaying : Bool)
    → a.is_replaying ≡ false
    → (has_flag ctx flag a).0 ≡ true
    → let later = record (has_flag ctx flag a).1 { is_replaying = replaying } in
      has_flag ctx' flag later ≡ (true, later)
unfolding has_flag has
has_flag_sticky ctx ctx' flag a replaying live on =
    ground (arith, get-set flag.id flag.id tt a.known_flags)

-- The lexicographic order on versions.
abbrev pub Precedes : SemVer → SemVer → Type 0
Precedes a b =
    (a.major < b.major)
    ⊎ ((a.major ≡ b.major) × ((a.minor < b.minor) ⊎ ((a.minor ≡ b.minor) × (a.patch ≤ b.patch))))

-- A version satisfies isAtLeast exactly when it does not precede the wanted one in the
-- lexicographic order.
pub is_at_least_iff :
    (wanted version : SemVer) (missing : Bool)
    → (is_at_least wanted missing (some version) ≡ true) ↔ Precedes wanted version
unfolding is_at_least is_compared compare_semver same_comparison
is_at_least_iff wanted version missing = (λ h. ground arith, λ h. ground arith)
