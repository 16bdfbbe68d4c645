-- ===== src/Spiffe/Tests.antt =====
-- An agent's instance on a node.
use thinklocal_mcp.Base.{◌≡◌, ◌↔◌, refl, none, some}
use thinklocal_mcp.Base.Text.{Text, codes}
use thinklocal_mcp.Spiffe.{
  ParsedSpiffeUri, host, ok, throws, node_tokens, token_count, parse_spiffe_uri, is_component,
  normalized, normalize_agent_id, get_agent_instance, build_instance_uri,
}
use thinklocal_mcp.Spiffe.Grammar.{Reads}
use thinklocal_mcp.Spiffe.RoundTrip.{parse_iff, daemon_level, normal_form}

abbrev uri : Text
uri = codes "spiffe://thinklocal/host/ab12/agent/codex/instance/i.7"

abbrev identity : ParsedSpiffeUri
identity = host (codes "ab12") (codes "codex") (some (codes "i.7")) uri

builds : build_instance_uri (codes "ab12") (codes "codex") (codes "i.7") ≡ ok uri
unfolding build_instance_uri is_component
builds = refl

parses : parse_spiffe_uri uri ≡ ok identity
unfolding parse_spiffe_uri is_component
parses = refl

long : parse_spiffe_uri (codes "spiffe://thinklocal/node/x/agent/y") ≡ throws node_tokens
unfolding parse_spiffe_uri
long = refl

short : parse_spiffe_uri (codes "spiffe://thinklocal/host/x") ≡ throws token_count
unfolding parse_spiffe_uri
short = refl

parse_iff_example : (parse_spiffe_uri uri ≡ ok identity) ↔ Reads uri identity
parse_iff_example = parse_iff uri identity

normal_form_example :
    let v = normalized identity in
    (normalize_agent_id uri ≡ ok v)
    × (parse_spiffe_uri v ≡ ok (daemon_level v identity))
    × (normalize_agent_id v ≡ ok v)
    × (get_agent_instance v ≡ ok none)
normal_form_example = normal_form uri identity parses
