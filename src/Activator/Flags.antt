-- ===== src/Activator/Flags.antt =====
-- packages/workflow/src/internals.ts: `addKnownFlags` and `hasFlag`; packages/workflow/src/flags.ts:
-- the registry of the flags and the comparison of SDK versions.
pub mod Monotone
use sdk_typescript.Prelude.{
  ℕ, String, Bool, true, false, ◌&&◌, ◌||◌, not, ◌==◌, Option, none, some, List, [], ◌∷◌,
  if◌then◌else◌, nat_same, ltb,
}
use sdk_typescript.JsMap.{has, set}
use sdk_typescript.Errors.{type_error}
use sdk_typescript.Activator.{Activator, Exec, raise, pure, modify, ◌>>=◌, ◌>>◌, ok}

-- What an alternative condition looks at: `info.currentBuildId` and `sdkVersion`.
pub record FlagContext : Type 0 where
  pub build_id : Option String
  pub sdk_version : Option String

pub record SdkFlag : Type 0 where
  pub id : ℕ
  pub default : Bool
  pub alternative_conditions : List (FlagContext → Bool)

-- The ids that defineFlag put into the registry.
unfoldable pub flags_registry : List ℕ
flags_registry = 1 ∷ 2 ∷ 3 ∷ 4 ∷ 5 ∷ 6 ∷ []

includes : ℕ → List ℕ → Bool
includes n [] = false
includes n (m ∷ ms) = m == n || includes n ms

-- assertValidFlag
unfoldable pub assert_valid_flag : ℕ → Exec (Unit {0})
unfolding includes flags_registry
assert_valid_flag n =
    if includes n flags_registry then pure tt else raise (type_error "Unknown SDK flag")

add_known_flag : ℕ → Activator → Activator
add_known_flag n a = record a { known_flags = set n tt a.known_flags }

-- addKnownFlags
unfoldable pub add_known_flags : List ℕ → Exec (Unit {0})
unfolding assert_valid_flag add_known_flag
add_known_flags [] = pure tt
add_known_flags (n ∷ ns) = do assert_valid_flag n; modify (add_known_flag n); add_known_flags ns

any_condition : FlagContext → List (FlagContext → Bool) → Bool
any_condition ctx [] = false
any_condition ctx (c ∷ cs) = c ctx || any_condition ctx cs

-- hasFlag
unfoldable pub has_flag : FlagContext → SdkFlag → Activator → Bool × Activator
unfolding any_condition add_known_flag
has_flag ctx flag a =
    if has flag.id a.known_flags
    then (true, a)
    else if not a.is_replaying && flag.default
    then (true, add_known_flag flag.id a)
    else (a.is_replaying && any_condition ctx flag.alternative_conditions, a)

pub record SemVer : Type 0 where
  pub major : ℕ
  pub minor : ℕ
  pub patch : ℕ

pub data Comparison : Type 0 where
  less equal greater : Comparison

-- compareSemver: -1, 0, +1
unfoldable pub compare_semver : SemVer → SemVer → Comparison
compare_semver a b =
    if ltb a.major b.major
    then less
    else if ltb b.major a.major
    then greater
    else if ltb a.minor b.minor
    then less
    else if ltb b.minor a.minor
    then greater
    else if ltb a.patch b.patch
    then less
    else if ltb b.patch a.patch
    then greater
    else equal

same_comparison : Comparison → Comparison → Bool
same_comparison less less = true
same_comparison equal equal = true
same_comparison greater greater = true
same_comparison _ _ = false

-- isCompared on the version that parseSemver found in the context's, if it found one.
unfoldable pub is_compared : SemVer → Comparison → Bool → Option SemVer → Bool
unfolding same_comparison
is_compared wanted comparison missing_default none = missing_default
is_compared wanted comparison missing_default (some version) =
    same_comparison (compare_semver wanted version) comparison

-- isAtLeast
unfoldable pub is_at_least : SemVer → Bool → Option SemVer → Bool
is_at_least wanted missing_default version =
    is_compared wanted less missing_default version
    || is_compared wanted equal missing_default version
