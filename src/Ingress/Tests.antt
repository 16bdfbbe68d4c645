-- ===== src/Ingress/Tests.antt =====
-- Calls of a server with an allowlist, that another node serves.
use thinklocal_mcp.Base.{
  ◌≡◌, ◌↔◌, refl, true, false, some, none, Option, [], ◌∷◌, ◌++◌, if◌then◌else◌,
}
use thinklocal_mcp.Base.Text.{Text, codes, trim, starts_with}
use thinklocal_mcp.Base.JsonValue.{text, object, field, end}
use thinklocal_mcp.Matrix.{self, gate}
use thinklocal_mcp.Tiers.{
  Capability, healthy, mcp_category, permissions_tier, derive_execution_tier, derive_tool_tier,
  derive_tool_name, derive_tool_tier_for_server, server_tool_classes, ServerToolClasses, governed,
}
use thinklocal_mcp.Tiers.Allowlist.{is_listed}
use thinklocal_mcp.Tiers.Words.{unifi_read_only, unifi_sensitive}
use thinklocal_mcp.Services.{serves, resolutions_of, resolve_mcp, plan_mcp_route}
use thinklocal_mcp.Forward.{
  Attempt, returned, Url, https, remote, McpForwardRequestPlan, build_mcp_forward_spec,
  build_mcp_forward_dispatch,
}
use thinklocal_mcp.Channels.{ApprovalOutcome, approved}
use thinklocal_mcp.Ingress.{
  executes, respond, not_configured, McpIngressInput, McpIngressDeps, ApprovalContext,
  handle_mcp_ingress, dispatch_of, context_of, enforce_execution_tier,
}
use thinklocal_mcp.Ingress.Safety.{Approves, IsPermitted, executed_iff}
use thinklocal_mcp.Ingress.Governed.{unlisted_needs_approval}
use thinklocal_mcp.Ingress.Targets.{IsAddressed, forwarded-IsAddressed}

abbrev peer_url : Text
peer_url = codes "https://b:9440"

abbrev parse : Text → Option Url
parse t =
    if starts_with (codes "https:") t then some (record { protocol = https; origin = t }) else none

abbrev deps : Option (ApprovalContext → Attempt ApprovalOutcome) → McpIngressDeps
deps resolver = record {
  self_agent_id = codes "a";
  resolve_peer = λ agent. returned (some (record { agent_id = agent; endpoint = peer_url }));
  is_authorized_sender = λ sender. true;
  require_server_identity = true;
  resolve_approval = resolver;
  lower = λ t. t;
  parse_url = parse;
  encode_uri_component = λ t. some t;
}

abbrev consenting : McpIngressDeps
consenting = deps (some (λ context. returned approved))

abbrev provider : Capability
provider = record {
  skill_id = codes "mcp:unifi";
  version = codes "1";
  description = codes "network";
  agent_id = codes "b";
  health = healthy;
  trust_level = some 5;
  updated_at = 1;
  category = mcp_category;
  permissions = codes "read" ∷ [];
}

abbrev call : Text → Text → McpIngressInput
call server name = record {
  server = server;
  sender_uri = some (codes "c");
  capabilities = provider ∷ [];
  payload = object (
      field (codes "method") (text (codes "tools/call"))
        (field (codes "params") (object (field (codes "name") (text name) end)) end));
}

abbrev ban : McpIngressInput
ban = call (codes "unifi") (codes "block_client")

abbrev request : McpForwardRequestPlan
request = record {
  url = peer_url ++ codes "/api/mcp/unifi";
  target_agent_id = codes "b";
  sender_uri = codes "a";
  execution_tier = self;
  outbound_policy = record {
    debug = false;
    disable_pinning = false;
    spiffe_server_identity = true;
  };
  expected_spiffe_id = some (codes "b");
}

runs : Unit {0}
unfolding handle_mcp_ingress dispatch_of plan_mcp_route resolve_mcp resolutions_of serves
    derive_execution_tier permissions_tier build_mcp_forward_spec build_mcp_forward_dispatch
    derive_tool_tier_for_server server_tool_classes derive_tool_tier derive_tool_name trim
    enforce_execution_tier
runs = tt

asks_first : handle_mcp_ingress ban (deps none) ≡ respond 403 not_configured
unfolding runs
asks_first = refl

listed_runs :
    handle_mcp_ingress (call (codes "unifi") (codes "list_sites")) (deps none)
    ≡ executes (remote request)
unfolding runs
listed_runs = refl

approved_runs : handle_mcp_ingress ban consenting ≡ executes (remote request)
unfolding runs
approved_runs = refl

executed_iff_example :
    (handle_mcp_ingress ban consenting ≡ executes (remote request))
    ↔ IsPermitted ban consenting (remote request)
executed_iff_example = executed_iff ban consenting (remote request)

abbrev unifi : ServerToolClasses
unifi = record { read_only = unifi_read_only; consensus_tools = []; sensitive = unifi_sensitive }

is_governed : server_tool_classes (trim (codes "unifi")) ≡ governed unifi
unfolding server_tool_classes trim
is_governed = refl

not_listed : is_listed unifi ban.payload ≡ false
unfolding derive_tool_name trim
not_listed = refl

unlisted_needs_approval_example :
    (sender : Text) × (ban.sender_uri ≡ some sender)
    × Approves consenting.resolve_approval (context_of ban sender gate)
unlisted_needs_approval_example =
    unlisted_needs_approval ban consenting (remote request) unifi is_governed refl not_listed
      approved_runs

forwarded-IsAddressed_example : IsAddressed ban consenting request
forwarded-IsAddressed_example = forwarded-IsAddressed ban consenting request approved_runs
