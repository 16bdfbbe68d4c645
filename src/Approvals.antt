-- ===== src/Approvals.antt =====
-- packages/daemon/src/approvals.ts and approval-gates.ts: human decisions, and the rules that say
-- when one is needed. The table is a map from the primary key to the row.
pub mod Decisions
pub mod Patterns
pub mod Gates
mod Tests
use thinklocal_mcp.Base.{
  ℕ, String, Json, Bool, true, false, Option, none, some, List, [], ◌∷◌, ◌++◌, if◌then◌else◌, find,
  count, filter, take, sort_desc, ◌==◌, ◌&&◌,
}
use mathlib.Core.Option
use thinklocal_mcp.Base.Text.{Text, codes, starts_with, text_eq}
use thinklocal_mcp.Base.Dict.{Dict, get, set, values}

pub data ApprovalType : Type 0 where
  peer_join skill_activate credential_share config_change mcp_gate : ApprovalType

pub data ApprovalStatus : Type 0 where
  pending approved rejected : ApprovalStatus

pub record ApprovalRow : Type 0 where
  pub id : String
  pub type_of : ApprovalType
  pub status : ApprovalStatus
  pub payload_json : Json
  pub summary : String
  pub created_at : ℕ
  pub decided_at : Option ℕ
  pub decision_note : Option String

abbrev pub Store : Type 0
Store = Dict ApprovalRow

abbrev pub inserted : String → ApprovalRow → Store → Option ApprovalRow → Option Store
inserted id row s none = some (set id row s)
inserted id row s (some old) = none

-- None if the primary key is taken, where the `INSERT` throws.
unfoldable pub create :
    (id : String) (now : ℕ) → ApprovalType → Json → (summary : String) → Store → Option Store
create id now type_of payload summary s =
    inserted id
      (record {
        id = id;
        type_of = type_of;
        status = pending;
        payload_json = payload;
        summary = summary;
        created_at = now;
        decided_at = none;
        decision_note = none;
      })
      s (get id s)

pub data Verdict : Type 0 where
  approve reject : Verdict

abbrev pub status_of : Verdict → ApprovalStatus
status_of approve = approved
status_of reject = rejected

abbrev pub is_pending : ApprovalStatus → Bool
is_pending pending = true
is_pending _ = false

abbrev pub decided : Verdict → Option String → ℕ → ApprovalRow → ApprovalRow
decided v decision_note now r = record r {
  status = status_of v;
  decided_at = some now;
  decision_note = decision_note;
}

-- The `UPDATE … WHERE id = ? AND status = 'pending'`.
abbrev update_pending : String → Verdict → Option String → ℕ → Store → Option ApprovalRow → Store
update_pending id v decision_note now s none = s
update_pending id v decision_note now s (some r) =
    if is_pending r.status then set id (decided v decision_note now r) s else s

abbrev read_back : String → Store → Store × Option ApprovalRow
read_back id s = (s, get id s)

abbrev decide_from :
    String → Verdict → Option String → ℕ → Store → Option ApprovalRow → Store × Option ApprovalRow
decide_from id v decision_note now s none = (s, none)
decide_from id v decision_note now s (some existing) =
    if is_pending existing.status
    then read_back id (update_pending id v decision_note now s (get id s))
    else (s, some existing)

unfoldable pub decide : String → Verdict → Option String → ℕ → Store → Store × Option ApprovalRow
decide id v decision_note now s = decide_from id v decision_note now s (get id s)

abbrev pub has_approval : Option ApprovalRow → Bool
has_approval none = false
has_approval (some r) = elim r.status [ approved ↦ true | _ ↦ false ]

unfoldable pub is_approved : String → Store → Bool
is_approved id s = has_approval (get id s)

abbrev pub same_type : ApprovalType → ApprovalType → Bool
same_type peer_join peer_join = true
same_type skill_activate skill_activate = true
same_type credential_share credential_share = true
same_type config_change config_change = true
same_type mcp_gate mcp_gate = true
same_type _ _ = false

abbrev pub same_status : ApprovalStatus → ApprovalStatus → Bool
same_status pending pending = true
same_status approved approved = true
same_status rejected rejected = true
same_status _ _ = false

abbrev pub of_type : Option ApprovalType → ApprovalRow → Bool
of_type none r = true
of_type (some t) r = same_type r.type_of t

abbrev pub of_status : Option ApprovalStatus → ApprovalRow → Bool
of_status none r = true
of_status (some st) r = same_status r.status st

-- `list`: the default limit is 50.
pub list_approvals :
    Option ApprovalStatus → Option ApprovalType → (limit : ℕ) → Store → List ApprovalRow
list_approvals status type_of limit s = take limit (
    sort_desc (λ r. r.created_at)
      (filter (λ r. of_status status r && of_type type_of r) (values s)))

pub pending_count : Option ApprovalType → Store → ℕ
pending_count type_of s = count (λ r. is_pending r.status && of_type type_of r) (values s)

-- approval-gates.ts: `needs_approval` is the source's `approve`. The text that names the rule which
-- decided is left out.
pub data ApprovalAction : Type 0 where
  auto needs_approval deny : ApprovalAction

pub record ApprovalGateRule : Type 0 where
  pub skill_pattern : Text
  pub requester_pattern : Text
  pub action : ApprovalAction

abbrev pub default_rules : List ApprovalGateRule
default_rules =
    record { skill_pattern = codes "system.*"; requester_pattern = codes "*"; action = auto }
    ∷ record {
      skill_pattern = codes "credential.*";
      requester_pattern = codes "*";
      action = needs_approval;
    }
    ∷ record { skill_pattern = codes "*"; requester_pattern = codes "*"; action = auto }
    ∷ []

-- `pattern.endsWith('*')`, with what `slice(0, -1)` leaves.
unfoldable pub before_star : Text → Option Text
before_star [] = none
before_star (c ∷ []) = if c == b'*' then some [] else none
before_star (c ∷ d ∷ s) = Option.map (λ (p : Text). c ∷ p) (before_star (d ∷ s))

abbrev pub matches_from : Option Text → Text → Text → Bool
matches_from none value pattern = text_eq value pattern
matches_from (some prefix) value pattern = starts_with prefix value

-- The test for `*` alone is that of the empty prefix.
unfoldable pub match_pattern : Text → Text → Bool
match_pattern value pattern =
    if text_eq pattern (codes "*") then true else matches_from (before_star pattern) value pattern

abbrev pub rule_matches : Text → Text → ApprovalGateRule → Bool
rule_matches skill_id requester_id r =
    match_pattern skill_id r.skill_pattern && match_pattern requester_id r.requester_pattern

abbrev pub action_of : Option ApprovalGateRule → ApprovalAction
action_of none = deny
action_of (some r) = r.action

unfoldable pub evaluate : List ApprovalGateRule → Text → Text → ApprovalAction
evaluate rules skill_id requester_id = action_of (find (rule_matches skill_id requester_id) rules)

-- The rules of a gate: those of the file before the default ones, none if it cannot be read.
pub load_rules : List ApprovalGateRule → List ApprovalGateRule
load_rules custom = custom ++ default_rules

pub add_rule : ApprovalGateRule → List ApprovalGateRule → List ApprovalGateRule
add_rule rule rules = rule ∷ rules
