-- ===== src/Services/Tests.antt =====
-- Two providers of one server, one of them this node.
use thinklocal_mcp.Base.{◌≡◌, refl, some, none, List, [], ◌∷◌, In, here, there}
use thinklocal_mcp.Base.Text.{Text, codes, trim}
use thinklocal_mcp.Matrix.{self}
use thinklocal_mcp.Tiers.{Capability, permissions_tier, derive_execution_tier}
use thinklocal_mcp.Services.{
  BuildMcpCapabilityInput, McpServiceCapability, McpResolution, local_plan, build_mcp_capability,
  built, skill_of, serves, resolutions_of, resolve_mcp, plan_mcp_route,
}
use thinklocal_mcp.Services.Discovery.{IsRight, route-IsRight}
use thinklocal_mcp.Services.Published.{published_is_resolved}

abbrev same : Text → Text
same t = t

abbrev input : Text → BuildMcpCapabilityInput
input agent = record {
  server = codes " unifi";
  description = codes "network";
  tools = codes "list_sites" ∷ [];
  version = codes "1.0.0";
  permissions = codes "sites.read" ∷ [];
  trust_level = some 5;
  agent_id = agent;
  updated_at = 1;
  health = none;
}

abbrev service : Text → McpServiceCapability
service agent = built same (input agent) (codes "unifi")

abbrev capabilities : List Capability
capabilities = (service (codes "b")).capability ∷ (service (codes "a")).capability ∷ []

builds : build_mcp_capability same (input (codes "a")) ≡ some (service (codes "a"))
unfolding build_mcp_capability derive_execution_tier permissions_tier trim
builds = refl

here_first :
    plan_mcp_route same (codes "unifi") (resolve_mcp same (codes "unifi") capabilities) (codes "a")
    ≡ local_plan (codes "unifi") self
unfolding plan_mcp_route resolve_mcp resolutions_of serves derive_execution_tier permissions_tier
    trim
here_first = refl

route-IsRight_example : IsRight same (skill_of same (codes "unifi")) capabilities (codes "a") (
    plan_mcp_route same (codes "unifi") (resolve_mcp same (codes "unifi") capabilities) (codes "a"))
route-IsRight_example = route-IsRight same (codes "unifi") capabilities (codes "a")

spelled : trim (codes "unifi ") ≡ trim (codes " unifi")
unfolding trim
spelled = refl

published_is_resolved_example :
    (r : McpResolution) × In r (resolve_mcp same (codes "unifi ") capabilities)
    × (r.agent_id ≡ codes "a")
    × (r.execution_tier ≡ (service (codes "a")).execution_tier)
published_is_resolved_example =
    published_is_resolved same (input (codes "a")) (service (codes "a")) (codes "unifi ")
      capabilities builds refl spelled (there (here refl))
