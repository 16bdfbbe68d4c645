-- ===== src/Version/Tests.antt =====
-- Compatibility at concrete versions.
use thinklocal_mcp.Base.{ℕ, ◌≡◌, Option, none}
use thinklocal_mcp.Semver.{Text}
use thinklocal_mcp.Version.{codes, compatible, check_compatibility}
use thinklocal_mcp.Version.Compatibility.{compatible_symmetric}

abbrev no_numbers : Text → Option ℕ
no_numbers s = none

compatible_symmetric_example :
    compatible (check_compatibility no_numbers (codes "0.28.0") (codes "1.0.0"))
    ≡ compatible (check_compatibility no_numbers (codes "1.0.0") (codes "0.28.0"))
compatible_symmetric_example = compatible_symmetric no_numbers (codes "0.28.0") (codes "1.0.0")
