-- ===== src/Semver/Tests.antt =====
-- Versions at concrete texts. `decimal` is one possible reading of identifiers.
use Prim.Native.Nat.{Ordering}
use thinklocal_mcp.Base.{ℕ, ◌≡◌, refl, Option, none, some, [], ◌∷◌}
use thinklocal_mcp.Semver.{
  Text, parse_sem_ver, split_dots, compare_text, compare_identifier, compare_identifiers,
  compare_prerelease, compare_parsed, compare_sem_ver, satisfies_range, latest_from, latest_version,
}
use thinklocal_mcp.Semver.Order.{Chain}
use thinklocal_mcp.Semver.Versions.{compare_sem_ver-Chain}

-- Identifiers of one digit are numbers.
abbrev decimal : Text → Option ℕ
decimal [] = some 0
decimal (c ∷ []) = some c
decimal (c ∷ d ∷ s) = none

abbrev v100 : Text
v100 = b'1' ∷ b'.' ∷ b'0' ∷ b'.' ∷ b'0' ∷ []

abbrev v123 : Text
v123 = b'1' ∷ b'.' ∷ b'2' ∷ b'.' ∷ b'3' ∷ []

abbrev v123_rc : Text
v123_rc = b'1' ∷ b'.' ∷ b'2' ∷ b'.' ∷ b'3' ∷ b'-' ∷ b'r' ∷ b'c' ∷ []

abbrev broken : Text
broken = b'v' ∷ v100

runs : Unit {0}
unfolding parse_sem_ver compare_sem_ver compare_parsed compare_prerelease compare_identifiers
    compare_identifier split_dots compare_text satisfies_range latest_version latest_from
runs = tt

prerelease_below :
    (compare_sem_ver decimal v123_rc v123 ≡ Ordering.lt)
    × (latest_version decimal (v100 ∷ v123_rc ∷ v123 ∷ []) ≡ some v123)
unfolding runs
prerelease_below = (refl, refl)

compare_sem_ver-Chain_example :
    Chain
      (compare_sem_ver decimal v100 v123_rc)
      (compare_sem_ver decimal v123_rc v123)
      (compare_sem_ver decimal v100 v123)
unfolding parse_sem_ver
compare_sem_ver-Chain_example = compare_sem_ver-Chain decimal v100 v123_rc v123 refl refl refl
