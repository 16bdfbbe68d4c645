-- ===== src/Spiffe.antt =====
-- packages/daemon/src/spiffe-uri.ts: the identities of nodes and agents. A thrown SpiffeUriError is its
-- reason, without the text of the message.
pub mod Tokens
pub mod Grammar
pub mod RoundTrip
mod Tests
use thinklocal_mcp.Base.{
  ℕ, Bool, true, false, not, Option, none, some, List, [], ◌∷◌, ◌++◌, if◌then◌else◌, leb, ◌&&◌,
  ◌||◌, all, drop, length, ◌==◌, is_some,
}
use thinklocal_mcp.Base.Text.{Text, codes, starts_with, is_empty, text_eq}

pub data SpiffeUriError : Type 0 where
  not_a_text bad_prefix node_tokens empty_peer_id invalid_peer_id : SpiffeUriError
  token_count bad_grammar empty_component invalid_stable_node_id invalid_agent_type : SpiffeUriError
  not_instance empty_instance_id invalid_instance_id : SpiffeUriError

pub data ParsedSpiffeUri : Type 0 where
  node : (node_peer_id raw : Text) → ParsedSpiffeUri
  host :
      (stable_node_id agent_type : Text) (instance_id : Option Text) (raw : Text) → ParsedSpiffeUri

pub data Result {ℓ} (A : Type ℓ) : Type ℓ where
  ok : A → Result A
  throws : SpiffeUriError → Result A

infixl 20 ◌>>=◌
abbrev pub ◌>>=◌ : {A B : Type 0} → Result A → (A → Result B) → Result B
ok a >>= f = f a
throws e >>= f = throws e

-- `${SPIFFE_PREFIX}/`
abbrev pub prefix : Text
prefix = codes "spiffe://thinklocal/"

abbrev pub slash : ℕ
slash = b'/'

abbrev pub put_first : ℕ → List Text → List Text
put_first c [] = []
put_first c (t ∷ ts) = (c ∷ t) ∷ ts

-- `s.split('/')`
abbrev pub split : Text → List Text
split [] = [] ∷ []
split (c ∷ s) = let rest = split s in if c == slash then [] ∷ rest else put_first c rest

abbrev is_digit : ℕ → Bool
is_digit c = leb b'0' c && leb c b'9'

abbrev is_letter : ℕ → Bool
is_letter c = (leb b'A' c && leb c b'Z') || (leb b'a' c && leb c b'z')

-- The characters of `PEERID_REGEX`: no `0`, `O`, `I` and `l`.
abbrev pub is_base58 : ℕ → Bool
is_base58 c =
    (leb b'1' c && leb c b'9')
    || (leb b'A' c && leb c b'H')
    || (leb b'J' c && leb c b'N')
    || (leb b'P' c && leb c b'Z')
    || (leb b'a' c && leb c b'k')
    || (leb b'm' c && leb c b'z')

unfoldable pub is_peer_id : Text → Bool
is_peer_id t = all is_base58 t && leb 32 (length t) && leb (length t) 128

-- The characters of `SPIFFE_COMPONENT_REGEX`.
abbrev pub is_component_code : ℕ → Bool
is_component_code c = is_letter c || is_digit c || c == b'.' || c == b'_' || c == b'-'

unfoldable pub is_component : Text → Bool
is_component t = not (is_empty t) && all is_component_code t

abbrev pub node_of : Text → Text → Result ParsedSpiffeUri
node_of uri id =
    if is_empty id
    then throws empty_peer_id
    else if is_peer_id id
    then ok (node id uri)
    else throws invalid_peer_id

abbrev pub node_tail : Text → List Text → Result ParsedSpiffeUri
node_tail uri (id ∷ []) = node_of uri id
node_tail uri _ = throws node_tokens

-- The checks that both host forms share.
abbrev pub host_of : Text → Text → Text → Text → Result ParsedSpiffeUri → Result ParsedSpiffeUri
host_of first id third agent next =
    if not (text_eq first (codes "host")) || not (text_eq third (codes "agent"))
    then throws bad_grammar
    else if is_empty id || is_empty agent
    then throws empty_component
    else if not (is_component id)
    then throws invalid_stable_node_id
    else if is_component agent
    then next
    else throws invalid_agent_type

abbrev pub instance_of : Text → Text → Text → Text → Text → Result ParsedSpiffeUri
instance_of uri id agent fifth instance_id =
    if not (text_eq fifth (codes "instance"))
    then throws not_instance
    else if is_empty instance_id
    then throws empty_instance_id
    else if is_component instance_id
    then ok (host id agent (some instance_id) uri)
    else throws invalid_instance_id

abbrev pub host_parts : Text → List Text → Result ParsedSpiffeUri
host_parts uri (a ∷ b ∷ c ∷ d ∷ []) = host_of a b c d (ok (host b d none uri))
host_parts uri (a ∷ b ∷ c ∷ d ∷ e ∷ f ∷ []) = host_of a b c d (instance_of uri b d e f)
host_parts uri _ = throws token_count

abbrev pub parts : Text → List Text → Result ParsedSpiffeUri
parts uri [] = host_parts uri []
parts uri (first ∷ rest) =
    if text_eq first (codes "node") then node_tail uri rest else host_parts uri (first ∷ rest)

unfoldable pub parse_spiffe_uri : Text → Result ParsedSpiffeUri
parse_spiffe_uri uri =
    if is_empty uri
    then throws not_a_text
    else if starts_with prefix uri
    then parts uri (split (drop (length prefix) uri))
    else throws bad_prefix

abbrev pub normalized : ParsedSpiffeUri → Text
normalized (node id raw) = prefix ++ codes "node/" ++ id
normalized (host id agent instance_id raw) =
    prefix ++ codes "host/" ++ id ++ codes "/agent/" ++ agent

unfoldable pub normalize_agent_id : Text → Result Text
normalize_agent_id uri = parse_spiffe_uri uri >>= λ parsed. ok (normalized parsed)

abbrev pub instance_in : ParsedSpiffeUri → Option Text
instance_in (node id raw) = none
instance_in (host id agent instance_id raw) = instance_id

unfoldable pub get_agent_instance : Text → Result (Option Text)
get_agent_instance uri = parse_spiffe_uri uri >>= λ parsed. ok (instance_in parsed)

unfoldable pub build_instance_uri : Text → Text → Text → Result Text
build_instance_uri id agent instance_id =
    if is_empty id || is_empty agent || is_empty instance_id
    then throws empty_component
    else if not (is_component id)
    then throws invalid_stable_node_id
    else if not (is_component agent)
    then throws invalid_agent_type
    else if is_component instance_id
    then ok (
        prefix
        ++ codes "host/"
        ++ id
        ++ codes "/agent/"
        ++ agent
        ++ codes "/instance/"
        ++ instance_id)
    else throws invalid_instance_id

abbrev pub present : Result (Option Text) → Bool
present (ok o) = is_some o
present (throws e) = false

unfoldable pub has_instance : Text → Bool
has_instance uri = present (get_agent_instance uri)
