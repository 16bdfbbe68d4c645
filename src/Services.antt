-- ===== src/Services.antt =====
-- packages/daemon/src/mcp-service-registry.ts, second half: the capability of a shared MCP server, and
-- who serves a server; packages/daemon/src/mcp-routing.ts: whether this node or a peer is to serve it.
pub mod Discovery
pub mod Published
mod Tests
use thinklocal_mcp.Base.{
  ℕ, String, Bool, true, false, not, Option, none, some, List, [], ◌∷◌, ◌++◌, if◌then◌else◌, leb,
  ◌&&◌, ◌||◌, any, all, filter, find, ◌==◌,
}
use thinklocal_mcp.Base.Text.{Text, codes, starts_with, is_empty, text_eq, is_in}
use thinklocal_mcp.Matrix.{McpExecutionTier, self, gate, consensus}
use thinklocal_mcp.Tiers.{
  Capability, CapabilityHealth, healthy, degraded, offline, mcp_category, mcp_skill_prefix,
  ServerToolClasses, derive_execution_tier, canonicalize_server_name, name_tier,
}
use thinklocal_mcp.Base.JsonValue.{text}

-- The characters of `/^[a-z0-9._-]+$/`.
abbrev pub is_name_code : ℕ → Bool
is_name_code c =
    (leb b'a' c && leb c b'z') || (leb b'0' c && leb c b'9') || c == b'.' || c == b'_' || c == b'-'

abbrev pub is_server_name : Text → Bool
is_server_name s = not (is_empty s) && all is_name_code s

pub record BuildMcpCapabilityInput : Type 0 where
  pub server : Text
  pub description : Text
  pub tools : List Text
  pub version : Text
  pub permissions : List Text
  pub trust_level : Option ℕ
  pub agent_id : Text
  pub updated_at : ℕ
  pub health : Option CapabilityHealth

pub record McpServiceCapability : Type 0 where
  pub capability : Capability
  pub execution_tier : McpExecutionTier

pub record McpResolution : Type 0 where
  pub agent_id : Text
  pub skill_id : Text
  pub description : Text
  pub version : Text
  pub trust_level : Option ℕ
  pub health : CapabilityHealth
  pub execution_tier : McpExecutionTier

abbrev pub is_offline : CapabilityHealth → Bool
is_offline offline = true
is_offline _ = false

abbrev pub is_healthy : CapabilityHealth → Bool
is_healthy healthy = true
is_healthy _ = false

-- `tools.join(', ')`
abbrev joined : List Text → Text
joined [] = []
joined (t ∷ []) = t
joined (t ∷ u ∷ ts) = t ++ codes ", " ++ joined (u ∷ ts)

abbrev described : Text → List Text → Text
described description [] = description
described description (t ∷ ts) = description ++ codes " (Tools: " ++ joined (t ∷ ts) ++ codes ")"

abbrev or_healthy : Option CapabilityHealth → CapabilityHealth
or_healthy none = healthy
or_healthy (some h) = h

pub is_mcp_capability : Capability → Bool
is_mcp_capability cap =
    text_eq cap.category mcp_category && starts_with mcp_skill_prefix cap.skill_id

pub record ToolClassDrift : Type 0 where
  pub stale_read_only : List Text
  pub stale_sensitive : List Text
  pub unclassified : List Text

pub data McpRoutePlan : Type 0 where
  local_plan : (server : Text) → McpExecutionTier → McpRoutePlan
  remote_plan : (server : Text) (target : McpResolution) → McpRoutePlan
  no_plan : (server : Text) (known : Bool) → McpRoutePlan

-- `a ?? b`
abbrev pub or_first : Option McpResolution → List McpResolution → Option McpResolution
or_first (some r) rs = some r
or_first none [] = none
or_first none (r ∷ rs) = some r

abbrev pub is_self : McpExecutionTier → Bool
is_self self = true
is_self _ = false

module _ (lower : Text → Text) where
  abbrev pub built : BuildMcpCapabilityInput → Text → McpServiceCapability
  built input server = record {
    capability = record {
      skill_id = mcp_skill_prefix ++ server;
      version = input.version;
      description = described input.description input.tools;
      agent_id = input.agent_id;
      health = or_healthy input.health;
      trust_level = input.trust_level;
      updated_at = input.updated_at;
      category = mcp_category;
      permissions = input.permissions;
    };
    execution_tier = derive_execution_tier lower input.permissions input.trust_level;
  }

  -- None where the server has no valid name and the source throws.
  unfoldable pub build_mcp_capability : BuildMcpCapabilityInput → Option McpServiceCapability
  build_mcp_capability input =
      let server = canonicalize_server_name lower input.server in
      if is_server_name server then some (built input server) else none

  abbrev pub skill_of : Text → Text
  skill_of server = mcp_skill_prefix ++ canonicalize_server_name lower server

  abbrev pub resolution : Capability → McpResolution
  resolution cap = record {
    agent_id = cap.agent_id;
    skill_id = cap.skill_id;
    description = cap.description;
    version = cap.version;
    trust_level = cap.trust_level;
    health = cap.health;
    execution_tier = derive_execution_tier lower cap.permissions cap.trust_level;
  }

  -- The three tests of the loop of `resolveMcp`.
  unfoldable pub serves : Text → Capability → Bool
  serves target cap =
      text_eq cap.category mcp_category
      && text_eq cap.skill_id target
      && not (is_offline cap.health)

  unfoldable pub resolutions_of : Text → List Capability → List McpResolution
  resolutions_of target [] = []
  resolutions_of target (cap ∷ caps) =
      let rest = resolutions_of target caps in
      if serves target cap then resolution cap ∷ rest else rest

  unfoldable pub resolve_mcp : Text → List Capability → List McpResolution
  resolve_mcp server capabilities = resolutions_of (skill_of server) capabilities

  abbrev pub is_usable : Text → McpResolution → Bool
  is_usable skill r = text_eq r.skill_id skill && not (is_offline r.health)

  abbrev pub planned_remote : Text → Bool → Option McpResolution → McpRoutePlan
  planned_remote server known none = no_plan server known
  planned_remote server known (some target) = remote_plan server target

  abbrev pub planned : Text → Bool → List McpResolution → Option McpResolution → McpRoutePlan
  planned server known usable (some own) = local_plan server own.execution_tier
  planned server known usable none =
      planned_remote server known (or_first (find (λ r. is_healthy r.health) usable) usable)

  unfoldable pub plan_mcp_route : Text → List McpResolution → Text → McpRoutePlan
  plan_mcp_route server resolutions self_agent_id =
      let usable = filter (is_usable (skill_of server)) resolutions in
      planned server (any (λ r. text_eq r.skill_id (skill_of server)) resolutions) usable
        (find (λ r. text_eq r.agent_id self_agent_id) usable)

  abbrev is_read_tool : Text → Bool
  is_read_tool t = is_self (name_tier lower (some (text t)))

  pub compute_tool_class_drift : ServerToolClasses → List Text → ToolClassDrift
  compute_tool_class_drift classes live_tools = record {
    stale_read_only = filter (λ t. not (is_in live_tools t)) classes.read_only;
    stale_sensitive = filter (λ t. not (is_in live_tools t)) classes.sensitive;
    unclassified =
        filter
          (λ t.
            is_read_tool t
            && not (is_in classes.read_only t)
            && not (is_in classes.sensitive t)
            && not (is_in classes.consensus_tools t))
          live_tools;
  }
