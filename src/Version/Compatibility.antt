-- ===== src/Version/Compatibility.antt =====
-- Compatibility is symmetric, and features stay available in later versions.
use Prim.Native.Nat.{Ordering}
use thinklocal_mcp.Base.{ℕ, true, ◌≡◌, refl, Option, none, some, String, arith}
use thinklocal_mcp.Base.Dict.{get}
use thinklocal_mcp.Semver.{
  Text, SemVer, parse_sem_ver, compare_sem_ver, is_compatible, is_equal, not_less,
  compatible_parsed,
}
use thinklocal_mcp.Semver.Order.{flip, Chain}
use thinklocal_mcp.Semver.Versions.{IsVersion, compare_sem_ver-flip, compare_sem_ver-Chain}
use thinklocal_mcp.Version.{compatible, check_compatibility, feature_matrix, is_feature_available}

is_equal-flip : (o p : Ordering) → p ≡ flip o → is_equal p ≡ is_equal o
is_equal-flip o p h = ground arith

compatible_parsed_comm : (a b : Option SemVer) → compatible_parsed a b ≡ compatible_parsed b a
compatible_parsed_comm none none = refl
compatible_parsed_comm none (some b) = refl
compatible_parsed_comm (some a) none = refl
compatible_parsed_comm (some a) (some b) = ground arith

is_compatible_comm : (a b : Text) → is_compatible a b ≡ is_compatible b a
unfolding is_compatible
is_compatible_comm a b = compatible_parsed_comm (parse_sem_ver a) (parse_sem_ver b)

Chain-not_less :
    (o p q : Ordering) → Chain o p q → not_less o ≡ true → not_less p ≡ true → not_less q ≡ true
Chain-not_less o p q h a b = ground arith

module _ (number : Text → Option ℕ) where
  -- Two nodes agree whether they are compatible, whichever of them asks.
  pub compatible_symmetric :
      (local remote : Text)
      → compatible (check_compatibility number local remote)
        ≡ compatible (check_compatibility number remote local)
  unfolding check_compatibility
  compatible_symmetric local remote = ground (
    arith,
    is_compatible_comm local remote,
    is_equal-flip (compare_sem_ver number local remote) (compare_sem_ver number remote local)
        (compare_sem_ver-flip number local remote),
  )

  feature_later :
      (min old new : Text)
      → IsVersion min
      → IsVersion old
      → IsVersion new
      → not_less (compare_sem_ver number new old) ≡ true
      → not_less (compare_sem_ver number old min) ≡ true
      → not_less (compare_sem_ver number new min) ≡ true
  feature_later min old new hm ho hn later has =
      Chain-not_less _ _ _ (compare_sem_ver-Chain number new old min hn ho hm) later has

  -- What a version has, a version that is not lower has too, where the versions parse and the
  -- feature is listed with a version that parses.
  pub feature_monotone :
      (feature : String) (since old new : Text)
      → get feature feature_matrix ≡ some since
      → IsVersion since
      → IsVersion old
      → IsVersion new
      → not_less (compare_sem_ver number new old) ≡ true
      → is_feature_available number feature old ≡ true
      → is_feature_available number feature new ≡ true
  unfolding is_feature_available
  feature_monotone feature since old new listed hs ho hn later has =
      rw listed (feature_later since old new hs ho hn later (rw listed at has))
