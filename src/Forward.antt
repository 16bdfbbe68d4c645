-- ===== src/Forward.antt =====
-- packages/daemon/src/mcp-forward.ts and mcp-forward-dispatch.ts: from the plan of a route to the request
-- that is sent. The URL parser and `encodeURIComponent` of the runtime are parameters; the latter may throw.
pub mod Sound
use thinklocal_mcp.Base.{
  Bool, true, false, not, Option, none, some, List, [], ◌∷◌, ◌++◌, if◌then◌else◌, ◌&&◌,
}
use thinklocal_mcp.Base.Text.{Text, codes, text_eq, is_blank}
use thinklocal_mcp.Matrix.{McpExecutionTier}
use thinklocal_mcp.Services.{McpResolution, McpRoutePlan, local_plan, remote_plan, no_plan}

pub record McpForwardPeer : Type 0 where
  pub agent_id : Text
  pub endpoint : Text

-- What the URL parser of the runtime gives.
pub record Url : Type 0 where
  pub protocol : Text
  pub origin : Text

pub data Unavailable : Type 0 where
  no_provider : (known : Bool) → Unavailable
  no_sender no_endpoint bad_endpoint not_https : Unavailable

pub record RemoteForward : Type 0 where
  pub server : Text
  pub target_agent_id : Text
  pub url : Text
  pub sender_uri : Text
  pub execution_tier : McpExecutionTier
  pub require_server_identity : Bool
  pub expected_server_spiffe_id : Text

pub data McpForwardSpec : Type 0 where
  local_exec : (server : Text) → McpExecutionTier → McpForwardSpec
  remote_forward : RemoteForward → McpForwardSpec
  unavailable : (server : Text) → Unavailable → McpForwardSpec

-- A call that may throw.
pub data Attempt {ℓ} (A : Type ℓ) : Type ℓ where
  threw : Attempt A
  returned : A → Attempt A

infixl 20 ◌>>=◌
abbrev pub ◌>>=◌ : {A B : Type 0} → Attempt A → (A → Attempt B) → Attempt B
threw >>= f = threw
returned a >>= f = f a

abbrev pub attempt : Option Text → Attempt Text
attempt none = threw
attempt (some t) = returned t

abbrev pub https : Text
https = codes "https:"

abbrev pub absent_or_blank : Option McpForwardPeer → Option Text
absent_or_blank none = none
absent_or_blank (some peer) = if is_blank peer.endpoint then none else some peer.endpoint

pub record OutboundConnectPolicy : Type 0 where
  pub debug : Bool
  pub disable_pinning : Bool
  pub spiffe_server_identity : Bool

pub record McpForwardRequestPlan : Type 0 where
  pub url : Text
  pub target_agent_id : Text
  pub sender_uri : Text
  pub execution_tier : McpExecutionTier
  pub outbound_policy : OutboundConnectPolicy
  pub expected_spiffe_id : Option Text

pub data McpForwardDispatch : Type 0 where
  remote : McpForwardRequestPlan → McpForwardDispatch
  local : (server : Text) → McpExecutionTier → McpForwardDispatch
  no_dispatch : (server : Text) → Unavailable → McpForwardDispatch

module _ (parse_url : Text → Option Url) (encode_uri_component : Text → Option Text) where
  abbrev encoded : Text → Attempt Text
  encoded server = attempt (encode_uri_component server)

  abbrev pub forward_over : Text → McpResolution → Text → Bool → Url → Attempt McpForwardSpec
  forward_over server target sender_uri pin parsed = do
    path ← encoded server
    returned (
        remote_forward (record {
          server = server;
          target_agent_id = target.agent_id;
          url = parsed.origin ++ codes "/api/mcp/" ++ path;
          sender_uri = sender_uri;
          execution_tier = target.execution_tier;
          require_server_identity = pin;
          expected_server_spiffe_id = target.agent_id;
        }))

  abbrev pub forward_to : Text → McpResolution → Text → Bool → Option Url → Attempt McpForwardSpec
  forward_to server target sender_uri pin none = returned (unavailable server bad_endpoint)
  forward_to server target sender_uri pin (some parsed) =
      if text_eq parsed.protocol https
      then forward_over server target sender_uri pin parsed
      else returned (unavailable server not_https)

  abbrev pub forward_at : Text → McpResolution → Text → Bool → Option Text → Attempt McpForwardSpec
  forward_at server target sender_uri pin none = returned (unavailable server no_endpoint)
  forward_at server target sender_uri pin (some endpoint) =
      forward_to server target sender_uri pin (parse_url endpoint)

  module _ (resolve_peer : Text → Attempt (Option McpForwardPeer)) where
    unfoldable pub build_mcp_forward_spec :
        McpRoutePlan → (self_sender_uri : Text) (pin : Bool) → Attempt McpForwardSpec
    build_mcp_forward_spec (no_plan server known) sender_uri pin =
        returned (unavailable server (no_provider known))
    build_mcp_forward_spec (local_plan server tier) sender_uri pin =
        returned (local_exec server tier)
    build_mcp_forward_spec (remote_plan server target) sender_uri pin =
        if is_blank sender_uri
        then returned (unavailable server no_sender)
        else resolve_peer target.agent_id >>= λ peer.
            forward_at server target sender_uri pin (absent_or_blank peer)

abbrev pub request_of : (debug disable_pinning : Bool) → RemoteForward → McpForwardRequestPlan
request_of debug disable_pinning f = record {
  url = f.url;
  target_agent_id = f.target_agent_id;
  sender_uri = f.sender_uri;
  execution_tier = f.execution_tier;
  outbound_policy = record {
    debug = debug;
    disable_pinning = disable_pinning;
    spiffe_server_identity = f.require_server_identity;
  };
  expected_spiffe_id = if f.require_server_identity then some f.expected_server_spiffe_id else none;
}

unfoldable pub build_mcp_forward_dispatch :
    McpForwardSpec → (debug disable_pinning : Bool) → McpForwardDispatch
build_mcp_forward_dispatch (unavailable server reason) debug disable_pinning =
    no_dispatch server reason
build_mcp_forward_dispatch (local_exec server tier) debug disable_pinning = local server tier
build_mcp_forward_dispatch (remote_forward f) debug disable_pinning =
    remote (request_of debug disable_pinning f)
