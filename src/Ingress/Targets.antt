-- ===== src/Ingress/Targets.antt =====
-- Where a forwarded call of packages/daemon/src/mcp-ingress.ts goes.
use thinklocal_mcp.Base.{◌≡◌, refl, ap, ◌∙◌, sym, subst, true, false, some, In}
use thinklocal_mcp.Base.Text.{Text, text_eq, is_blank}
use thinklocal_mcp.Tiers.{Capability}
use thinklocal_mcp.Services.{
  McpResolution, resolution, serves, skill_of, McpRoutePlan, remote_plan, plan_mcp_route,
  resolve_mcp,
}
use thinklocal_mcp.Services.Discovery.{IsRight, route-IsRight, server_of, route_server}
use thinklocal_mcp.Forward.{
  Attempt, threw, returned, Url, McpForwardPeer, McpForwardDispatch, remote, McpForwardRequestPlan,
  https, RemoteForward, McpForwardSpec, local_exec, remote_forward, unavailable, request_of,
  build_mcp_forward_dispatch,
}
use thinklocal_mcp.Forward.Sound.{request_to, SentTo, spec_sound}
use thinklocal_mcp.Ingress.{
  executes, McpIngressInput, McpIngressDeps, handle_mcp_ingress, spec_to_dispatch, dispatch_of,
}
use thinklocal_mcp.Ingress.Safety.{executed_iff}

request_injective :
    (a b : McpForwardRequestPlan)
    → ◌≡◌ {A = Attempt McpForwardDispatch} (returned (remote a)) (returned (remote b))
    → b ≡ a
request_injective a b h = cc

dispatch_sound :
    (a : Attempt McpForwardSpec) (q : McpForwardRequestPlan)
    → spec_to_dispatch a ≡ returned (remote q)
    → (f : RemoteForward) × (a ≡ returned (remote_forward f)) × (q ≡ request_of false false f)
unfolding build_mcp_forward_dispatch
dispatch_sound threw q h = cc
dispatch_sound (returned (local_exec server tier)) q h = cc
dispatch_sound (returned (unavailable server reason)) q h = cc
dispatch_sound (returned (remote_forward f)) q h = (f, refl, request_injective _ q h)

-- A request to the provider of an advertised capability: to the endpoint that the peers have for the
-- provider's agent, over TLS, from this node, and pinned to the provider's identity if that is asked for.
pub record IsAddressed (input : McpIngressInput) (deps : McpIngressDeps) (q : McpForwardRequestPlan)
    : Type 0 where
  pub provider : Capability
  pub advertised : In provider input.capabilities
  pub serving : serves deps.lower (skill_of deps.lower input.server) provider ≡ true
  pub peer : McpForwardPeer
  pub url : Url
  pub path : Text
  pub known : deps.resolve_peer provider.agent_id ≡ returned (some peer)
  pub parses : deps.parse_url peer.endpoint ≡ some url
  pub secure : text_eq url.protocol https ≡ true
  pub encodes : deps.encode_uri_component input.server ≡ some path
  pub own_name : is_blank deps.self_agent_id ≡ false
  pub request :
      q
      ≡ request_of false false (
          request_to input.server
            (resolution deps.lower provider)
            deps.self_agent_id
            deps.require_server_identity
            url
            path)

module _ (input : McpIngressInput) (deps : McpIngressDeps) where
  abbrev plan : McpRoutePlan
  plan =
      plan_mcp_route deps.lower input.server
        (resolve_mcp deps.lower input.server input.capabilities) deps.self_agent_id

  plan_sound :
      (server : Text) (target : McpResolution)
      → plan ≡ remote_plan server target
      → (server ≡ input.server)
        × (c : Capability) × In c input.capabilities
        × (serves deps.lower (skill_of deps.lower input.server) c ≡ true)
        × (target ≡ resolution deps.lower c)
  plan_sound server target e =
      let right =
        subst
          (IsRight deps.lower (skill_of deps.lower input.server) input.capabilities
            deps.self_agent_id)
          e (route-IsRight deps.lower input.server input.capabilities deps.self_agent_id) in
      let (c, m, s, r) = right.0 in
      (ap server_of (sym e) ∙ route_server deps.lower input.server _ deps.self_agent_id, c, m, s, r)

  sent-IsAddressed :
      (f : RemoteForward) (q : McpForwardRequestPlan)
      → SentTo deps.parse_url deps.encode_uri_component deps.resolve_peer plan deps.self_agent_id
          deps.require_server_identity f
      → q ≡ request_of false false f
      → IsAddressed input deps q
  sent-IsAddressed f q (server, target, peer, p, own, known, sent) e =
      let (url, path, parses, secure, encodes, same) = sent in
      let (name, c, m, s, r) = plan_sound server target p in
      record {
        provider = c;
        advertised = m;
        serving = s;
        peer = peer;
        url = url;
        path = path;
        known =
            subst (λ (t : McpResolution). deps.resolve_peer t.agent_id ≡ returned (some peer)) r
              known;
        parses = parses;
        secure = secure;
        encodes = subst (λ n. deps.encode_uri_component n ≡ some path) name encodes;
        own_name = own;
        request =
            e
            ∙ ap (request_of false false) same
            ∙ ap
                (λ n.
                  request_of false false
                    (request_to n target deps.self_agent_id deps.require_server_identity url path))
                name
            ∙ ap
                (λ t. request_of false false (
                  request_to input.server t deps.self_agent_id deps.require_server_identity url
                    path))
                r;
      }

  -- A call that is forwarded to another node goes to the provider of an advertised capability for its
  -- server that is not offline, by name and identity, under the https origin of the endpoint that the
  -- peer list has for that provider's agent, with the provider's tier, and with this node as the sender.
  pub forwarded-IsAddressed :
      (q : McpForwardRequestPlan)
      → handle_mcp_ingress input deps ≡ executes (remote q)
      → IsAddressed input deps q
  unfolding dispatch_of
  forwarded-IsAddressed q h =
      let p = (executed_iff input deps (remote q)).0 h in
      let (f, a, e) = dispatch_sound _ q p.routed in
      sent-IsAddressed f q
        (spec_sound deps.parse_url deps.encode_uri_component deps.resolve_peer plan
          deps.self_agent_id deps.require_server_identity f a)
        e
