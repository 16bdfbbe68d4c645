-- ===== src/Tiers/Tests.antt =====
-- Tiers at concrete permissions and calls. Names are in lower case, so that lower-casing leaves them.
use thinklocal_mcp.Base.{◌≡◌, refl, ◌≤◌, some, none, List, [], ◌∷◌, In}
use thinklocal_mcp.Base.Text.{Text, codes, trim}
use thinklocal_mcp.Base.JsonValue.{Value, text, object, field, end}
use thinklocal_mcp.Matrix.{McpExecutionTier, self, gate, consensus}
use thinklocal_mcp.Tiers.{
  permissions_tier, derive_execution_tier, derive_tool_tier, derive_tool_name,
  derive_tool_tier_for_server, server_tool_classes, ServerToolClasses,
}
use thinklocal_mcp.Tiers.Words.{unifi_read_only, unifi_sensitive}
use thinklocal_mcp.Tiers.Asking.{Asks}
use thinklocal_mcp.Tiers.Permissions.{weight, IsLow, IsAsked, derived_is_highest}

abbrev same : Text → Text
same t = t

abbrev permissions : List Text
permissions = codes "clients.read" ∷ codes "ports.switch" ∷ []

abbrev call : Text → Value
call name = object (
    field (codes "method") (text (codes "tools/call"))
      (field (codes "params") (object (field (codes "name") (text name) end)) end))

switching : derive_execution_tier same permissions (some 5) ≡ gate
unfolding derive_execution_tier permissions_tier
switching = refl

untrusted : derive_execution_tier same [] none ≡ gate
unfolding derive_execution_tier permissions_tier
untrusted = refl

deleting : derive_tool_tier same (call (codes "delete_site")) ≡ consensus
unfolding derive_tool_tier trim
deleting = refl

-- A property that every object inherits is no entry, and asking it throws.
inherits : derive_tool_tier_for_server same (codes "constructor") (call (codes "get")) ≡ none
unfolding derive_tool_tier_for_server server_tool_classes derive_tool_name trim
inherits = refl

derived_is_highest_example :
    ((p : Text) (t : McpExecutionTier)
      → In p permissions
      → Asks same p t
      → weight t ≤ weight (derive_execution_tier same permissions (some 5)))
    × (IsLow (some 5) → 1 ≤ weight (derive_execution_tier same permissions (some 5)))
    × IsAsked same permissions (some 5) (derive_execution_tier same permissions (some 5))
derived_is_highest_example = derived_is_highest same permissions (some 5)

abbrev unifi : ServerToolClasses
unifi = record { read_only = unifi_read_only; consensus_tools = []; sensitive = unifi_sensitive }

-- A listed name with white space around it is listed.
spaced : derive_tool_tier_for_server same (codes "unifi") (call (codes " list_sites ")) ≡ some self
unfolding derive_tool_tier_for_server server_tool_classes derive_tool_name trim
spaced = refl
