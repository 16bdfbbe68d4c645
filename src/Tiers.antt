-- ===== src/Tiers.antt =====
-- packages/daemon/src/mcp-service-registry.ts: how dangerous a call of a shared MCP server is, and which
-- nodes serve it. `toLowerCase` of the runtime is the parameter `lower`. A trust level is none where
-- it is not finite; of a finite one only the comparison with 2 counts.
pub mod Words
pub mod Asking
pub mod Permissions
pub mod Allowlist
mod Tests
use thinklocal_mcp.Base.{
  ℕ, String, Bool, true, false, not, Option, none, some, List, [], ◌∷◌, ◌++◌, if◌then◌else◌, ltb,
  leb, ◌&&◌, ◌||◌, any, filter,
}
use thinklocal_mcp.Base.Text.{
  Text, codes, starts_with, trim, is_empty, text_eq, includes, is_in, is_blank,
}
use thinklocal_mcp.Base.JsonValue.{Value, text, object, member}
use thinklocal_mcp.Matrix.{McpExecutionTier, self, gate, consensus}
use Words.{
  consensus_tokens, gate_tokens, self_tokens, destructive_verbs, write_verbs, read_verbs,
  unifi_read_only, unifi_sensitive,
}

pub data CapabilityHealth : Type 0 where
  healthy degraded offline : CapabilityHealth

pub record Capability : Type 0 where
  pub skill_id : Text
  pub version : Text
  pub description : Text
  pub agent_id : Text
  pub health : CapabilityHealth
  pub trust_level : Option ℕ
  pub updated_at : ℕ
  pub category : Text
  pub permissions : List Text

abbrev pub mcp_category : Text
mcp_category = codes "mcp"

abbrev pub mcp_skill_prefix : Text
mcp_skill_prefix = codes "mcp:"

abbrev pub low_trust_gate_threshold : ℕ
low_trust_gate_threshold = 2

abbrev pub rank : McpExecutionTier → ℕ
rank self = 0
rank gate = 1
rank consensus = 2

abbrev pub max_tier : McpExecutionTier → McpExecutionTier → McpExecutionTier
max_tier a b = if leb (rank b) (rank a) then a else b

abbrev is_call_method : Option Value → Bool
is_call_method (some (text m)) = text_eq m (codes "tools/call")
is_call_method _ = false

abbrev pub is_tool_call : Value → Bool
is_tool_call v = is_call_method (member (codes "method") (some v))

-- `params?.name`
abbrev pub tool_param : Value → Option Value
tool_param v = member (codes "name") (member (codes "params") (some v))

abbrev pub trimmed_text : Option Value → Text
trimmed_text (some (text n)) = trim n
trimmed_text _ = []

unfoldable pub derive_tool_name : Value → Text
derive_tool_name payload = if is_tool_call payload then trimmed_text (tool_param payload) else []

abbrev is_lower_letter : ℕ → Bool
is_lower_letter c = leb b'a' c && leb c b'z'

-- The match of `/^[a-z]+/`, or the empty text.
abbrev pub leading_letters : Text → Text
leading_letters [] = []
leading_letters (c ∷ s) = let rest = leading_letters s in if is_lower_letter c then c ∷ rest else []

abbrev pub verb_tier : Text → McpExecutionTier
verb_tier verb =
    if is_in destructive_verbs verb
    then consensus
    else if is_in write_verbs verb
    then gate
    else if is_in read_verbs verb
    then self
    else gate

pub record ServerToolClasses : Type 0 where
  pub read_only : List Text
  pub consensus_tools : List Text
  pub sensitive : List Text

-- What the object `SERVER_TOOL_CLASSES` has under a key: an entry, nothing, or a property that every
-- object inherits and that is no entry.
pub data Classes : Type 0 where
  governed : ServerToolClasses → Classes
  ungoverned inherited : Classes

unfoldable pub server_tool_classes : Text → Classes
server_tool_classes key =
    if text_eq key (codes "unifi")
    then governed
        (record { read_only = unifi_read_only; consensus_tools = []; sensitive = unifi_sensitive })
    else if text_eq key (codes "constructor") || text_eq key (codes "__proto__")
    then inherited
    else ungoverned

pub data GateReason : Type 0 where
  invalid_call destructive_verb write_verb sensitive_governed unlisted_governed : GateReason

module _ (lower : Text → Text) where
  abbrev pub classify : Text → Option McpExecutionTier
  classify token =
      let t = lower token in
      if any (λ k. includes k t) consensus_tokens
      then some consensus
      else if any (λ k. includes k t) gate_tokens
      then some gate
      else if any (λ k. includes k t) self_tokens
      then some self
      else none

  abbrev pub or_gate : Option McpExecutionTier → McpExecutionTier
  or_gate none = gate
  or_gate (some t) = t

  -- The loop over the permissions, from the tier so far.
  unfoldable pub permissions_tier : McpExecutionTier → List Text → McpExecutionTier
  permissions_tier tier [] = tier
  permissions_tier tier (p ∷ ps) = permissions_tier (max_tier tier (or_gate (classify p))) ps

  abbrev pub is_low_trust : Option ℕ → Bool
  is_low_trust none = true
  is_low_trust (some n) = ltb n low_trust_gate_threshold

  abbrev pub raised : Bool → McpExecutionTier → McpExecutionTier
  raised low self = if low then gate else self
  raised low t = t

  unfoldable pub derive_execution_tier : List Text → Option ℕ → McpExecutionTier
  derive_execution_tier permissions trust_level =
      raised (is_low_trust trust_level) (permissions_tier self permissions)

  abbrev pub canonicalize_server_name : Text → Text
  canonicalize_server_name raw = lower (trim raw)

  abbrev pub name_tier : Option Value → McpExecutionTier
  name_tier (some (text n)) = if is_blank n then gate else verb_tier (leading_letters (lower n))
  name_tier _ = gate

  unfoldable pub derive_tool_tier : Value → McpExecutionTier
  derive_tool_tier payload = if is_tool_call payload then name_tier (tool_param payload) else self

  abbrev pub governed_tier : ServerToolClasses → Text → McpExecutionTier
  governed_tier classes name =
      if not (is_empty name) && is_in classes.read_only name
      then self
      else if not (is_empty name) && is_in classes.consensus_tools name
      then consensus
      else max_tier gate (name_tier (some (text name)))

  -- An inherited property has no `readOnly`: asking it for a name throws, which is none.
  abbrev pub class_tier : Classes → Value → Option McpExecutionTier
  class_tier ungoverned payload = some (derive_tool_tier payload)
  class_tier (governed classes) payload = some (
      if is_tool_call payload
      then governed_tier classes (derive_tool_name payload)
      else derive_tool_tier payload)
  class_tier inherited payload =
      if is_tool_call payload
      then if is_empty (derive_tool_name payload)
        then some (max_tier gate (name_tier (some (text (derive_tool_name payload)))))
        else none
      else some (derive_tool_tier payload)

  unfoldable pub derive_tool_tier_for_server : Text → Value → Option McpExecutionTier
  derive_tool_tier_for_server server payload =
      class_tier (server_tool_classes (canonicalize_server_name server)) payload

  abbrev is_sensitive : Classes → Text → Bool
  is_sensitive (governed classes) name = not (is_empty name) && is_in classes.sensitive name
  is_sensitive _ name = false

  abbrev verb_reason : McpExecutionTier → GateReason
  verb_reason consensus = destructive_verb
  verb_reason gate = write_verb
  verb_reason self = unlisted_governed

  abbrev gate_bucket : Classes → Value → Text → GateReason
  gate_bucket classes payload name =
      if is_tool_call payload && is_empty name
      then invalid_call
      else if is_sensitive classes name
      then sensitive_governed
      else verb_reason (if is_empty name then gate else name_tier (some (text name)))

  abbrev reason_of : Option McpExecutionTier → Classes → Value → Option (Option GateReason)
  reason_of none classes payload = none
  reason_of (some self) classes payload = some none
  reason_of (some t) classes payload =
      some (some (gate_bucket classes payload (derive_tool_name payload)))

  -- None where it throws.
  pub classify_gate_reason : Text → Value → Option (Option GateReason)
  classify_gate_reason server payload =
      reason_of (derive_tool_tier_for_server server payload)
        (server_tool_classes (canonicalize_server_name server)) payload
