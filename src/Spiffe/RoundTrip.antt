-- ===== src/Spiffe/RoundTrip.antt =====
-- Writing and reading the URIs of spiffe-uri.ts.
use thinklocal_mcp.Base.{
  ◌≡◌, ◌↔◌, refl, sym, ◌∙◌, ap, subst, ℕ, Bool, true, false, not, none, some, [], ◌∷◌, append_assoc,
  ◌++◌, ◌&&◌, ◌||◌, if◌then◌else◌, arith, all, length, leb, ◌==◌,
}
use thinklocal_mcp.Base.Text.{Text, codes, is_empty}
use thinklocal_mcp.Spiffe.{
  empty_component, invalid_stable_node_id, invalid_agent_type, invalid_instance_id, ParsedSpiffeUri,
  node, host, ok, throws, prefix, slash, split, is_peer_id, is_component, is_base58,
  is_component_code, parts, parse_spiffe_uri, normalized, normalize_agent_id, instance_in,
  get_agent_instance, build_instance_uri,
}
use thinklocal_mcp.Spiffe.Tokens.{no_slash, join, split-join, component_code, base58_code}
use thinklocal_mcp.Spiffe.Grammar.{tokens, printed, raw_of, IsValid, Reads, parse-Returns, Returns}

both : (x y : Bool) → (x && y) ≡ true → (x ≡ true) × (y ≡ true)
both x y h = ground arith

-- Characters that are no `/` make a token.
chars_no_slash :
    (p : ℕ → Bool) (t : Text)
    → ((c : ℕ) → p c ≡ true → (c == slash) ≡ false)
    → all p t ≡ true
    → no_slash t ≡ true
chars_no_slash p [] k h = refl
chars_no_slash p (c ∷ t) k h =
    let (a, b) = both (p c) (all p t) h in rw (k c a) (chars_no_slash p t k b)

component_shape : (t : Text) → is_component t ≡ true → (is_empty t ≡ false) × (no_slash t ≡ true)
unfolding is_component
component_shape [] h = cc
component_shape (c ∷ t) h = (refl, chars_no_slash is_component_code (c ∷ t) component_code h)

peer_shape : (t : Text) → is_peer_id t ≡ true → (is_empty t ≡ false) × (no_slash t ≡ true)
unfolding is_peer_id
peer_shape [] h = cc
peer_shape (c ∷ t) h = (
  refl,
  chars_no_slash is_base58 (c ∷ t) base58_code
      (both (all is_base58 (c ∷ t)) (leb 32 (length (c ∷ t)))
        (both (all is_base58 (c ∷ t) && leb 32 (length (c ∷ t))) (leb (length (c ∷ t)) 128) h).0).0,
)

parts_complete : (p : ParsedSpiffeUri) → IsValid p → parts (raw_of p) (tokens p) ≡ ok p
parts_complete (node id raw) h = rw ((peer_shape id h).0, h) refl
parts_complete (host id agent none raw) (a, b, u) =
    rw ((component_shape id a).0, (component_shape agent b).0, a, b) refl
parts_complete (host id agent (some i) raw) (a, b, c) =
    rw ((component_shape id a).0, (component_shape agent b).0, a, b, (component_shape i c).0, c)
      refl

split_tokens : (p : ParsedSpiffeUri) → IsValid p → split (join (tokens p)) ≡ tokens p
split_tokens (node id raw) h = split-join (codes "node") (id ∷ []) (refl, ((peer_shape id h).1, tt))
split_tokens (host id agent none raw) (a, b, u) =
    split-join (codes "host") (id ∷ codes "agent" ∷ agent ∷ [])
      (refl, ((component_shape id a).1, (refl, ((component_shape agent b).1, tt))))
split_tokens (host id agent (some i) raw) (a, b, c) =
    split-join (codes "host") (id ∷ codes "agent" ∷ agent ∷ codes "instance" ∷ i ∷ []) (
      refl,
      (
        (component_shape id a).1,
        (refl, ((component_shape agent b).1, (refl, ((component_shape i c).1, tt)))),
      ),
    )

parse_printed :
    (p : ParsedSpiffeUri) → IsValid p → raw_of p ≡ printed p → parse_spiffe_uri (printed p) ≡ ok p
unfolding parse_spiffe_uri
parse_printed p v r =
    ap (parts (printed p)) (split_tokens p v)
    ∙ ap (λ raw. parts raw (tokens p)) (sym r)
    ∙ parts_complete p v

-- A text is parsed as an identity exactly when the identity is in form, remembers this text, and is
-- written as it: nothing else is accepted, and no two texts give one identity.
pub parse_iff : (uri : Text) (p : ParsedSpiffeUri) → (parse_spiffe_uri uri ≡ ok p) ↔ Reads uri p
parse_iff uri p = (
  λ h. subst (Returns (Reads uri)) h (parse-Returns uri),
  λ (v, r, w). subst (λ t. parse_spiffe_uri t ≡ ok p) w (parse_printed p v (r ∙ sym w)),
)

written :
    (e a b c : Bool) (u v : Text)
    → (if e
        then throws empty_component
        else if not a
        then throws invalid_stable_node_id
        else if not b
        then throws invalid_agent_type
        else if c
        then ok u
        else throws invalid_instance_id)
      ≡ ok v
    → (a ≡ true) × (b ≡ true) × (c ≡ true) × (u ≡ v)
written e a b c u v h = ground arith

host_text : (id agent : Text) → id ++ codes "/agent/" ++ agent ≡ id ++ (codes "/agent/" ++ agent)
host_text id agent = append_assoc id (codes "/agent/") agent

instance_text :
    (id agent i : Text)
    → id ++ codes "/agent/" ++ agent ++ codes "/instance/" ++ i
      ≡ id ++ (codes "/agent/" ++ (agent ++ (codes "/instance/" ++ i)))
instance_text id agent i =
    append_assoc (id ++ codes "/agent/" ++ agent) (codes "/instance/") i
    ∙ append_assoc (id ++ codes "/agent/") agent (codes "/instance/" ++ i)
    ∙ append_assoc id (codes "/agent/") (agent ++ (codes "/instance/" ++ i))

-- An instance URI that is built is parsed again into the node, the agent and the instance it was built
-- from.
pub built_is_parsed :
    (id agent i uri : Text)
    → build_instance_uri id agent i ≡ ok uri
    → parse_spiffe_uri uri ≡ ok (host id agent (some i) uri)
unfolding build_instance_uri
built_is_parsed id agent i uri h =
    let (a, b, c, e) =
      written (is_empty id || is_empty agent || is_empty i) (is_component id) (is_component agent)
        (is_component i) _ uri h in
    (parse_iff uri (host id agent (some i) uri)).1 (
      (a, b, c),
      refl,
      sym (ap (λ t. prefix ++ (codes "host/" ++ t)) (instance_text id agent i)) ∙ e,
    )

-- The identity without its instance.
abbrev pub daemon_level : Text → ParsedSpiffeUri → ParsedSpiffeUri
daemon_level uri (node id raw) = node id uri
daemon_level uri (host id agent i raw) = host id agent none uri

normalized_parses :
    (p : ParsedSpiffeUri)
    → IsValid p
    → parse_spiffe_uri (normalized p) ≡ ok (daemon_level (normalized p) p)
normalized_parses (node id raw) v = (parse_iff _ (node id _)).1 (v, refl, refl)
normalized_parses (host id agent i raw) (a, b, c) =
    let uri = normalized (host id agent i raw) in
    (parse_iff uri (host id agent none uri)).1
      ((a, b, tt), refl, sym (ap (λ t. prefix ++ (codes "host/" ++ t)) (host_text id agent)))

normal_again : (uri : Text) (p : ParsedSpiffeUri) → normalized (daemon_level uri p) ≡ normalized p
normal_again uri (node id raw) = refl
normal_again uri (host id agent i raw) = refl

no_instance : (uri : Text) (p : ParsedSpiffeUri) → instance_in (daemon_level uri p) ≡ none
no_instance uri (node id raw) = refl
no_instance uri (host id agent i raw) = refl

-- The URI that an identity normalizes to is a URI of the same identity without its instance: it parses as
-- that, it has no instance, and it normalizes to itself.
pub normal_form :
    (uri : Text) (p : ParsedSpiffeUri)
    → parse_spiffe_uri uri ≡ ok p
    → let v = normalized p in
      (normalize_agent_id uri ≡ ok v)
      × (parse_spiffe_uri v ≡ ok (daemon_level v p))
      × (normalize_agent_id v ≡ ok v)
      × (get_agent_instance v ≡ ok none)
unfolding normalize_agent_id get_agent_instance
normal_form uri p h =
    let again = normalized_parses p ((parse_iff uri p).0 h).0 in
    (
      rw h refl,
      again,
      rw again (ap ok (normal_again (normalized p) p)),
      rw again (ap ok (no_instance (normalized p) p)),
    )
