-- ===== src/Matrix.antt =====
-- packages/daemon/src/freigabe-matrix.ts: which channel and which decider a gated call of a tool goes
-- to. The raw matrix is the parsed value of the configuration file; a thrown FreigabeMatrixError is its
-- reason, without the place and the text of the message. A quorum is exact where the source rounds.
pub mod Routing
pub mod Resolution
pub mod Specific
mod Tests
use thinklocal_mcp.Base.{
  ℕ, ◌+◌, ◌-◌, ◌*◌, ◌^◌, String, Bool, true, false, not, Option, none, some, List, [], ◌∷◌, ◌++◌,
  if◌then◌else◌, ltb, leb, ◌&&◌, any, drop, length,
}
pub use thinklocal_mcp.Base.JsonValue.{
  Value, null, flag, number, text, array, object, Values, nil, cons, Fields, end, field, prop,
}
use thinklocal_mcp.Base.Text.{Text, codes, starts_with, trim, is_empty, text_eq}

pub data McpExecutionTier : Type 0 where
  self gate consensus : McpExecutionTier

pub data Decider : Type 0 where
  human : (id : Text) → Decider
  by_consensus : (quorum : ℕ) → Decider

pub record FreigabeEntry : Type 0 where
  pub tier : McpExecutionTier
  pub server : Text
  pub tool : Text
  pub channel : Text
  pub decider : Decider

pub record ResolveContext : Type 0 where
  pub tier : McpExecutionTier
  pub server : Text
  pub tool : Text

pub record MatrixTarget : Type 0 where
  pub channel : Text
  pub decider : Decider

pub data MatrixError : Type 0 where
  root_not_object unknown_root_key entries_not_array entry_not_object unknown_key : MatrixError
  bad_tier missing_server unknown_server bad_tool bad_channel bad_decider duplicate : MatrixError

pub data Parsed {ℓ} (A : Type ℓ) : Type ℓ where
  ok : A → Parsed A
  refused : MatrixError → Parsed A

infixl 20 ◌>>=◌
abbrev pub ◌>>=◌ : {A B : Type 0} → Parsed A → (A → Parsed B) → Parsed B
ok a >>= f = f a
refused e >>= f = refused e

abbrev pub wildcard : Text
wildcard = codes "*"

-- Whether every key of the object is one of these.
abbrev pub only_keys : List Text → Fields → Bool
only_keys ks end = true
only_keys ks (field j v fs) = any (text_eq j) ks && only_keys ks fs

abbrev is_digit : ℕ → Bool
is_digit c = leb b'0' c && leb c b'9'

-- The number of a text of digits, `\d+`, read from the left.
abbrev digits_from : ℕ → Text → Option ℕ
digits_from n [] = some n
digits_from n (c ∷ s) =
    let rest = digits_from (10 * n + (c - b'0')) s in if is_digit c then rest else none

abbrev digits : Text → Option ℕ
digits [] = none
digits (c ∷ s) = digits_from 0 (c ∷ s)

-- From here on `Number` gives `Infinity`, which is no integer.
abbrev infinite : ℕ
infinite = 2 ^ 1024 - 2 ^ 970

abbrev read_quorum : Option ℕ → Parsed Decider
read_quorum none = refused bad_decider
read_quorum (some n) =
    if ltb n 2
    then refused bad_decider
    else if ltb n infinite
    then ok (by_consensus n)
    else refused bad_decider

abbrev read_human : Text → Parsed Decider
read_human id = if is_empty id then refused bad_decider else ok (human id)

unfoldable pub parse_decider_text : Text → Parsed Decider
parse_decider_text raw =
    if starts_with (codes "human:") raw
    then read_human (drop 6 raw)
    else if starts_with (codes "consensus:quorum=") raw
    then read_quorum (digits (drop 17 raw))
    else refused bad_decider

abbrev pub parse_decider : Option Value → Parsed Decider
parse_decider (some (text raw)) = parse_decider_text raw
parse_decider _ = refused bad_decider

abbrev tier_of : Text → Option McpExecutionTier
tier_of t =
    if text_eq t (codes "self")
    then some self
    else if text_eq t (codes "gate")
    then some gate
    else if text_eq t (codes "consensus")
    then some consensus
    else none

abbrev known_tier : Option McpExecutionTier → Parsed McpExecutionTier
known_tier none = refused bad_tier
known_tier (some t) = ok t

abbrev pub read_tier : Option Value → Parsed McpExecutionTier
read_tier (some (text t)) = known_tier (tier_of t)
read_tier _ = refused bad_tier

abbrev pub read_server : List Text → Option Value → Parsed Text
read_server known (some (text s)) =
    if is_empty s
    then refused missing_server
    else if any (text_eq s) known
    then ok s
    else refused unknown_server
read_server known _ = refused missing_server

abbrev pub read_tool : Option Value → Parsed Text
read_tool none = ok wildcard
read_tool (some (text t)) = if is_empty t then refused bad_tool else ok t
read_tool (some _) = refused bad_tool

abbrev pub read_channel : Option Value → Parsed Text
read_channel (some (text c)) = if is_empty (trim c) then refused bad_channel else ok c
read_channel _ = refused bad_channel

abbrev pub entry_keys : List Text
entry_keys = codes "tier" ∷ codes "server" ∷ codes "tool" ∷ codes "channel" ∷ codes "decider" ∷ []

abbrev pub read_fields : List Text → Fields → Parsed FreigabeEntry
read_fields known fs = do
  tier ← read_tier (prop (codes "tier") fs)
  server ← read_server known (prop (codes "server") fs)
  tool ← read_tool (prop (codes "tool") fs)
  channel ← read_channel (prop (codes "channel") fs)
  decider ← parse_decider (prop (codes "decider") fs)
  ok (record { tier = tier; server = server; tool = tool; channel = channel; decider = decider })

unfoldable pub parse_entry : List Text → Value → Parsed FreigabeEntry
parse_entry known (object fs) =
    if only_keys entry_keys fs then read_fields known fs else refused unknown_key
parse_entry known _ = refused entry_not_object

abbrev pub tier_text : McpExecutionTier → Text
tier_text self = codes "self"
tier_text gate = codes "gate"
tier_text consensus = codes "consensus"

-- `${tier}|${server}|${tool}`
abbrev pub key_of : McpExecutionTier → Text → Text → Text
key_of tier server tool = tier_text tier ++ b'|' ∷ server ++ b'|' ∷ tool

abbrev pub entry_key : FreigabeEntry → Text
entry_key e = key_of e.tier e.server e.tool

-- The loop, with the keys seen before.
unfoldable pub parse_entries : List Text → List Text → Values → Parsed (List FreigabeEntry)
parse_entries known seen nil = ok []
parse_entries known seen (cons v vs) = do
  e ← parse_entry known v
  fresh ← if any (text_eq (entry_key e)) seen then refused duplicate else ok e
  rest ← parse_entries known (entry_key e ∷ seen) vs
  ok (e ∷ rest)

-- `raw.entries ?? []` as an array.
abbrev pub read_entries : List Text → Option Value → Parsed (List FreigabeEntry)
read_entries known none = ok []
read_entries known (some null) = ok []
read_entries known (some (array vs)) = parse_entries known [] vs
read_entries known (some _) = refused entries_not_array

unfoldable pub parse_freigabe_matrix : Value → List Text → Parsed (List FreigabeEntry)
parse_freigabe_matrix (object fs) known =
    if only_keys (codes "entries" ∷ []) fs
    then read_entries known (prop (codes "entries") fs)
    else refused unknown_root_key
parse_freigabe_matrix _ known = refused root_not_object

abbrev pub same_tier : McpExecutionTier → McpExecutionTier → Bool
same_tier self self = true
same_tier gate gate = true
same_tier consensus consensus = true
same_tier _ _ = false

pub record Candidates : Type 0 where
  pub exact : Option FreigabeEntry
  pub any_tool : Option FreigabeEntry

-- One turn of the loop of `resolveEntry`.
abbrev pub visit : ResolveContext → FreigabeEntry → Candidates → Candidates
visit ctx e c =
    if same_tier e.tier ctx.tier && text_eq e.server ctx.server
    then if text_eq e.tool ctx.tool
      then record c { exact = some e }
      else if text_eq e.tool wildcard
      then record c { any_tool = some e }
      else c
    else c

abbrev pub scan : ResolveContext → List FreigabeEntry → Candidates → Candidates
scan ctx [] c = c
scan ctx (e ∷ es) c = scan ctx es (visit ctx e c)

abbrev pub or_else : Option FreigabeEntry → Option FreigabeEntry → Option FreigabeEntry
or_else none w = w
or_else (some e) w = some e

-- `exact ?? wildcard`
abbrev pub chosen : Candidates → Option FreigabeEntry
chosen c = or_else c.exact c.any_tool

abbrev pub target_of : Option FreigabeEntry → Option MatrixTarget
target_of none = none
target_of (some e) = some (record { channel = e.channel; decider = e.decider })

unfoldable pub resolve_entry : List FreigabeEntry → ResolveContext → Option MatrixTarget
resolve_entry entries ctx =
    target_of (chosen (scan ctx entries (record { exact = none; any_tool = none })))

abbrev pub is_decidable : Decider → Bool
is_decidable (human id) = not (is_empty id)
is_decidable (by_consensus quorum) = leb 2 quorum

unfoldable pub is_routable : Option MatrixTarget → Bool
is_routable none = false
is_routable (some t) = not (is_empty (trim t.channel)) && is_decidable t.decider
