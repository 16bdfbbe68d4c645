-- ===== src/Forward/Sound.antt =====
-- Where a request of mcp-forward.ts and mcp-forward-dispatch.ts goes.
use thinklocal_mcp.Base.{
  ◌≡◌, refl, ap, Bool, true, false, Option, none, some, ◌++◌, inl, inr, Bool-cases,
}
use thinklocal_mcp.Base.Text.{Text, codes, text_eq, is_blank}
use thinklocal_mcp.Services.{McpResolution, McpRoutePlan, local_plan, remote_plan, no_plan}
use thinklocal_mcp.Forward.{
  McpForwardPeer, Url, RemoteForward, McpForwardSpec, remote_forward, unavailable, no_sender,
  no_endpoint, not_https, Attempt, threw, returned, attempt, ◌>>=◌, https, absent_or_blank,
  forward_to, forward_at, build_mcp_forward_spec,
}

-- The request to the server of this target, under its origin.
abbrev pub request_to : Text → McpResolution → Text → Bool → Url → Text → RemoteForward
request_to server target sender_uri pin url path = record {
  server = server;
  target_agent_id = target.agent_id;
  url = url.origin ++ codes "/api/mcp/" ++ path;
  sender_uri = sender_uri;
  execution_tier = target.execution_tier;
  require_server_identity = pin;
  expected_server_spiffe_id = target.agent_id;
}

forward_injective :
    (a b : RemoteForward)
    → ◌≡◌ {A = Attempt McpForwardSpec} (returned (remote_forward a)) (returned (remote_forward b))
    → b ≡ a
forward_injective a b h = cc

module _ (parse_url : Text → Option Url) (encode_uri_component : Text → Option Text) where
  over_sound :
      (server : Text) (target : McpResolution) (sender_uri : Text) (pin : Bool) (f : RemoteForward)
      (u : Url) (o : Option Text)
      → (attempt o >>= λ path.
          returned (remote_forward (request_to server target sender_uri pin u path)))
        ≡ returned (remote_forward f)
      → (path : Text) × (o ≡ some path) × (f ≡ request_to server target sender_uri pin u path)
  over_sound server target sender_uri pin f u none h = cc
  over_sound server target sender_uri pin f u (some path) h = (path, refl, forward_injective _ f h)

  -- From a known endpoint on.
  abbrev pub Sent : Text → McpResolution → Text → Bool → RemoteForward → Text → Type 0
  Sent server target sender_uri pin f endpoint =
      (u : Url) × (path : Text) × (parse_url endpoint ≡ some u)
      × (text_eq u.protocol https ≡ true)
      × (encode_uri_component server ≡ some path)
      × (f ≡ request_to server target sender_uri pin u path)

  to_sound :
      (server : Text) (target : McpResolution) (sender_uri : Text) (pin : Bool) (f : RemoteForward)
      (endpoint : Text) (o : Option Url)
      → parse_url endpoint ≡ o
      → forward_to parse_url encode_uri_component server target sender_uri pin o
        ≡ returned (remote_forward f)
      → Sent server target sender_uri pin f endpoint
  to_sound server target sender_uri pin f endpoint none e h = cc
  to_sound server target sender_uri pin f endpoint (some u) e h =
      elim (Bool-cases (text_eq u.protocol https)) [
        | inl t ↦
            let (path, k, same) =
              over_sound server target sender_uri pin f u (encode_uri_component server)
                (rw t at h) in
            (u, path, e, t, k, same)
        | inr n ↦ absurd (
            let no : returned (unavailable server not_https) ≡ returned (remote_forward f) =
              (rw n at h) in
            cc)
      ]

  at_sound :
      (server : Text) (target : McpResolution) (sender_uri : Text) (pin : Bool) (f : RemoteForward)
      (o : Option McpForwardPeer)
      → forward_at parse_url encode_uri_component server target sender_uri pin (absent_or_blank o)
        ≡ returned (remote_forward f)
      → (peer : McpForwardPeer) × (o ≡ some peer)
        × Sent server target sender_uri pin f peer.endpoint
  at_sound server target sender_uri pin f none h = cc
  at_sound server target sender_uri pin f (some peer) h =
      elim (Bool-cases (is_blank peer.endpoint)) [
        | inl b ↦ absurd (
            let no : returned (unavailable server no_endpoint) ≡ returned (remote_forward f) =
              (rw b at h) in
            cc)
        | inr b ↦
            (peer, refl, to_sound server target sender_uri pin f peer.endpoint _ refl (rw b at h))
      ]

  module _ (resolve_peer : Text → Attempt (Option McpForwardPeer)) where
    -- The request of a plan for a target: to the endpoint that the peer list has for the target's agent.
    abbrev pub SentTo : McpRoutePlan → Text → Bool → RemoteForward → Type 0
    SentTo plan sender_uri pin f =
        (server : Text) × (target : McpResolution) × (peer : McpForwardPeer) × (plan
          ≡ remote_plan server target)
        × (is_blank sender_uri ≡ false)
        × (resolve_peer target.agent_id ≡ returned (some peer))
        × Sent server target sender_uri pin f peer.endpoint

    peer_sound :
        (server : Text) (target : McpResolution) (sender_uri : Text) (pin : Bool)
        (f : RemoteForward) (a : Attempt (Option McpForwardPeer))
        → (a >>= λ peer.
            forward_at parse_url encode_uri_component server target sender_uri pin
              (absent_or_blank peer))
          ≡ returned (remote_forward f)
        → (peer : McpForwardPeer) × (a ≡ returned (some peer))
          × Sent server target sender_uri pin f peer.endpoint
    peer_sound server target sender_uri pin f threw h = cc
    peer_sound server target sender_uri pin f (returned o) h =
        let (peer, e, sent) = at_sound server target sender_uri pin f o h in
        (peer, ap returned e, sent)

    pub spec_sound :
        (plan : McpRoutePlan) (sender_uri : Text) (pin : Bool) (f : RemoteForward)
        → build_mcp_forward_spec parse_url encode_uri_component resolve_peer plan sender_uri pin
          ≡ returned (remote_forward f)
        → SentTo plan sender_uri pin f
    unfolding build_mcp_forward_spec
    spec_sound (no_plan server known) sender_uri pin f h = cc
    spec_sound (local_plan server tier) sender_uri pin f h = cc
    spec_sound (remote_plan server target) sender_uri pin f h =
        elim (Bool-cases (is_blank sender_uri)) [
          | inl b ↦ absurd (
              let no : returned (unavailable server no_sender) ≡ returned (remote_forward f) =
                (rw b at h) in
              cc)
          | inr b ↦
              let (peer, e, sent) = peer_sound server target sender_uri pin f _ (rw b at h) in
              (server, target, peer, refl, b, e, sent)
        ]
