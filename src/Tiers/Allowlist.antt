-- ===== src/Tiers/Allowlist.antt =====
-- Which tier packages/daemon/src/mcp-service-registry.ts derives from the tool that is called, for a
-- server with an allowlist.
use thinklocal_mcp.Base.{◌≡◌, Bool, true, false, not, some, arith, if◌then◌else◌, ◌&&◌, ◌↔◌, In}
use thinklocal_mcp.Base.Text.{Text, codes, trim, is_in, is_empty}
use thinklocal_mcp.Base.JsonValue.{Value, text, member}
use thinklocal_mcp.Matrix.{McpExecutionTier, self, gate, consensus}
use thinklocal_mcp.Tiers.{
  max_tier, canonicalize_server_name, is_tool_call, derive_tool_name, derive_tool_tier_for_server,
  server_tool_classes, governed, ServerToolClasses, name_tier,
}

allowed_self :
    (listed other : Bool) (t : McpExecutionTier)
    → (some (if listed then self else if other then consensus else max_tier gate t) ≡ some self)
      ↔ (listed ≡ true)
allowed_self listed other t = ground arith

-- The call names a tool of the allowlist.
abbrev pub is_listed : ServerToolClasses → Value → Bool
is_listed classes payload =
    not (is_empty (derive_tool_name payload)) && is_in classes.read_only (derive_tool_name payload)

-- For a server with an allowlist the tier of a tool call is self exactly when its derived name is
-- listed.
pub governed_self_iff :
    (lower : Text → Text) (server : Text) (payload : Value) (classes : ServerToolClasses)
    → server_tool_classes (canonicalize_server_name lower server) ≡ governed classes
    → is_tool_call payload ≡ true
    → (derive_tool_tier_for_server lower server payload ≡ some self)
      ↔ (is_listed classes payload ≡ true)
unfolding derive_tool_tier_for_server
governed_self_iff lower server payload classes g c =
    rw (g, c)
      (allowed_self (is_listed classes payload)
        (not (is_empty (derive_tool_name payload))
          && is_in classes.consensus_tools (derive_tool_name payload))
        (name_tier lower (some (text (derive_tool_name payload)))))

-- The call names, with a text that is not empty once trimmed, a tool of the allowlist.
abbrev pub CallsListed : ServerToolClasses → Value → Type 0
CallsListed classes payload =
    (n : Text) × (member (codes "name") (member (codes "params") (some payload)) ≡ some (text n))
    × (is_empty (trim n) ≡ false)
    × In (trim n) classes.read_only
