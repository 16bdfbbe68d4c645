-- ===== src/Version.antt =====
-- packages/daemon/src/version-compat.ts: compatibility of two daemon versions, and the feature
-- matrix. Messages for people are left out: a result says whether it warns, fails or recommends.
pub mod Compatibility
mod Tests
use Prim.Native.Char.{code}
use Prim.Native.Nat.{Ordering}
use thinklocal_mcp.Base.{
  ℕ, Bool, true, false, not, Option, none, some, List, [], ◌∷◌, String, if◌then◌else◌, ◌&&◌,
  is_some,
}
use thinklocal_mcp.Base.Dict.{Dict, get}
use thinklocal_mcp.Semver.{
  Text, parse_sem_ver, compare_sem_ver, is_compatible, not_less, is_greater, is_equal,
}

abbrev pub codes : String → Text
codes String.[] = []
codes (String.◌∷◌ c s) = code c ∷ codes s

abbrev pub min_compatible_version : Text
min_compatible_version = codes "0.20.0"

pub data Action : Type 0 where
  update_local update_both : Action

pub data CompatibilityResult : Type 0 where
  same : CompatibilityResult
  differs : (recommended : Option Action) → CompatibilityResult
  invalid_version : CompatibilityResult
  incompatible : (recommended : Action) → CompatibilityResult

-- The field `compatible`.
abbrev pub compatible : CompatibilityResult → Bool
compatible same = true
compatible (differs a) = true
compatible invalid_version = false
compatible (incompatible a) = false

abbrev pub feature_matrix : Dict Text
feature_matrix =
    ("gossip-sync", codes "0.1.0")
    ∷ ("cbor-messages", codes "0.1.0")
    ∷ ("mTLS", codes "0.1.0")
    ∷ ("telegram-gateway", codes "0.20.0")
    ∷ ("static-peers", codes "0.22.0")
    ∷ ("graphql-api", codes "0.25.0")
    ∷ ("jwt-auth", codes "0.25.0")
    ∷ ("policy-engine", codes "0.25.0")
    ∷ ("skill-sandbox", codes "0.27.0")
    ∷ ("recovery-flows", codes "0.28.0")
    ∷ ("shamir-sharing", codes "0.27.0")
    ∷ ("task-queue", codes "0.28.0")
    ∷ ("approval-gates", codes "0.28.0")
    ∷ []

module _ (number : Text → Option ℕ) where
  unfoldable pub check_compatibility : Text → Text → CompatibilityResult
  check_compatibility local remote =
      if not (is_some (parse_sem_ver local) && is_some (parse_sem_ver remote))
      then invalid_version
      else if is_equal (compare_sem_ver number local remote)
      then same
      else if is_compatible local remote
      then differs
          (if is_greater (compare_sem_ver number local remote) then none else some update_local)
      else incompatible update_both

  unfoldable pub meets_min_version : Text → Bool
  meets_min_version version = not_less (compare_sem_ver number version min_compatible_version)

  abbrev at_least : Text → Option Text → Bool
  at_least version none = false
  at_least version (some min_version) = not_less (compare_sem_ver number version min_version)

  unfoldable pub is_feature_available : String → Text → Bool
  is_feature_available feature version = at_least version (get feature feature_matrix)
