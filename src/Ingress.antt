-- ===== src/Ingress.antt =====
-- packages/daemon/src/mcp-ingress.ts: an incoming call of a shared MCP server, from the sender to the
-- executor. `execute` is the caller: the model returns what it is called with. The runtime's lower-casing,
-- URL parser and URI encoding, the peers, and the approval resolver are parameters.
pub mod Safety
pub mod Governed
pub mod Targets
mod Tests
use thinklocal_mcp.Base.{
  ℕ, Bool, true, false, not, Option, none, some, List, [], ◌∷◌, if◌then◌else◌, ◌&&◌, ◌||◌,
}
use thinklocal_mcp.Base.Text.{Text, codes, is_blank}
use thinklocal_mcp.Base.JsonValue.{Value}
use thinklocal_mcp.Matrix.{McpExecutionTier, self, gate, consensus}
use thinklocal_mcp.Tiers.{Capability, max_tier, derive_tool_tier_for_server, derive_tool_name}
use thinklocal_mcp.Services.{resolve_mcp, plan_mcp_route}
use thinklocal_mcp.Forward.{
  Attempt, threw, returned, Url, McpForwardPeer, McpForwardDispatch, remote, local, no_dispatch,
  Unavailable, McpForwardSpec, build_mcp_forward_spec, build_mcp_forward_dispatch,
}
use thinklocal_mcp.Channels.{ApprovalOutcome, approved}

pub data Reason : Type 0 where
  not_authorized missing_server routing_error : Reason
  mcp_unavailable : Unavailable → Reason
  not_configured denied_in_beta not_approved resolver_failed : Reason

-- A response with its status, the dispatch handed to the executor, or a promise that is rejected.
pub data Handled : Type 0 where
  respond : (status : ℕ) → Reason → Handled
  executes : McpForwardDispatch → Handled
  rejects : Handled

-- None where the call is let through.
unfoldable pub enforce_execution_tier : McpExecutionTier → Option Handled
enforce_execution_tier self = none
enforce_execution_tier gate = some (respond 403 not_configured)
enforce_execution_tier consensus = some (respond 403 denied_in_beta)

pub record McpIngressInput : Type 0 where
  pub server : Text
  pub sender_uri : Option Text
  pub capabilities : List Capability
  pub payload : Value

pub record ApprovalContext : Type 0 where
  pub server : Text
  pub tool : Text
  pub tier : McpExecutionTier
  pub sender_uri : Text

-- The resolver throws or gives something that is no decision, or it gives an outcome.
pub record McpIngressDeps : Type 0 where
  pub self_agent_id : Text
  pub resolve_peer : Text → Attempt (Option McpForwardPeer)
  pub is_authorized_sender : Text → Bool
  pub require_server_identity : Bool
  pub resolve_approval : Option (ApprovalContext → Attempt ApprovalOutcome)
  pub lower : Text → Text
  pub parse_url : Text → Option Url
  pub encode_uri_component : Text → Option Text

abbrev pub is_yes : ApprovalOutcome → Bool
is_yes approved = true
is_yes _ = false

abbrev pub decided : McpForwardDispatch → Attempt ApprovalOutcome → Handled
decided d threw = respond 403 resolver_failed
decided d (returned outcome) = if is_yes outcome then executes d else respond 403 not_approved

abbrev pub enforced : McpForwardDispatch → Option Handled → Handled
enforced d none = executes d
enforced d (some response) = response

abbrev pub by_tier :
    McpExecutionTier
    → Option (ApprovalContext → Attempt ApprovalOutcome)
    → (McpExecutionTier → ApprovalContext)
    → McpForwardDispatch
    → Handled
by_tier gate (some resolver) context d = decided d (resolver (context gate))
by_tier tier resolver context d = enforced d (enforce_execution_tier tier)

abbrev pub spec_to_dispatch : Attempt McpForwardSpec → Attempt McpForwardDispatch
spec_to_dispatch threw = threw
spec_to_dispatch (returned spec) = returned (build_mcp_forward_dispatch spec false false)

unfoldable pub dispatch_of : McpIngressInput → McpIngressDeps → Attempt McpForwardDispatch
dispatch_of input deps = spec_to_dispatch (
    build_mcp_forward_spec deps.parse_url deps.encode_uri_component deps.resolve_peer
      (plan_mcp_route deps.lower input.server
        (resolve_mcp deps.lower input.server input.capabilities) deps.self_agent_id)
      deps.self_agent_id deps.require_server_identity)

abbrev pub context_of : McpIngressInput → Text → McpExecutionTier → ApprovalContext
context_of input sender tier = record {
  server = input.server;
  tool = derive_tool_name input.payload;
  tier = tier;
  sender_uri = sender;
}

-- From the tier of the tool on, none where deriving it throws.
abbrev pub with_tier :
    McpIngressInput
    → McpIngressDeps
    → Text
    → McpForwardDispatch
    → McpExecutionTier
    → Option McpExecutionTier
    → Handled
with_tier input deps sender d capability_tier none = rejects
with_tier input deps sender d capability_tier (some tool_tier) =
    by_tier (max_tier capability_tier tool_tier) deps.resolve_approval (context_of input sender) d

abbrev pub gated : McpIngressInput → McpIngressDeps → Text → McpForwardDispatch → Handled
gated input deps sender (no_dispatch server reason) = respond 503 (mcp_unavailable reason)
gated input deps sender (local server tier) =
    with_tier input deps sender (local server tier) tier
      (derive_tool_tier_for_server deps.lower input.server input.payload)
gated input deps sender (remote request) =
    with_tier input deps sender (remote request) request.execution_tier
      (derive_tool_tier_for_server deps.lower input.server input.payload)

abbrev pub dispatched :
    McpIngressInput → McpIngressDeps → Text → Attempt McpForwardDispatch → Handled
dispatched input deps sender threw = respond 500 routing_error
dispatched input deps sender (returned d) = gated input deps sender d

abbrev pub from_sender : McpIngressInput → McpIngressDeps → Option Text → Handled
from_sender input deps none = respond 403 not_authorized
from_sender input deps (some sender) =
    if is_blank sender || not (deps.is_authorized_sender sender)
    then respond 403 not_authorized
    else if is_blank input.server
    then respond 400 missing_server
    else dispatched input deps sender (dispatch_of input deps)

unfoldable pub handle_mcp_ingress : McpIngressInput → McpIngressDeps → Handled
handle_mcp_ingress input deps = from_sender input deps input.sender_uri
