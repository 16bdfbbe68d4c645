-- ===== src/Approvals/Tests.antt =====
-- One approval decided twice, and one custom rule.
use thinklocal_mcp.Base.{◌≡◌, refl, String, true, Option, none, some, List, [], ◌∷◌, ◌⊎◌}
use thinklocal_mcp.Base.Text.{codes}
use thinklocal_mcp.Base.Dict.{get}
use thinklocal_mcp.Approvals.{
  ApprovalRow, Store, Verdict, approve, reject, mcp_gate, pending, skill_activate, decided, decide,
  is_approved, ApprovalGateRule, deny, auto, evaluate, load_rules, match_pattern, before_star,
}
use thinklocal_mcp.Approvals.Decisions.{Event, creates, decides, steps, first_decision_stands}
use thinklocal_mcp.Approvals.Gates.{default_action, IsFirst, NoneMatches, evaluate_loaded}

abbrev asked : ApprovalRow
asked = record {
  id = "a1";
  type_of = mcp_gate;
  status = pending;
  payload_json = "{}";
  summary = "unifi";
  created_at = 5;
  decided_at = none;
  decision_note = none;
}

abbrev table : Store
table = ("a1", asked) ∷ []

abbrev later : List Event
later =
    decides "a1" reject (some "changed my mind") 20
    ∷ creates "a1" 21 skill_activate "{}" "again"
    ∷ creates "a2" 22 skill_activate "{}" "x"
    ∷ decides "a2" reject none 23
    ∷ []

first_decision_stands_example :
    ((decide "a1" approve none 10 table).1 ≡ some (decided approve none 10 asked))
    × (get "a1" (steps (decide "a1" approve none 10 table).0 later)
        ≡ some (decided approve none 10 asked))
    × ((v' : Verdict) (remark' : Option String) (now' : _)
        → decide "a1" v' remark' now' (steps (decide "a1" approve none 10 table).0 later) ≡ (
          steps (decide "a1" approve none 10 table).0 later,
          some (decided approve none 10 asked),
        ))
    × (is_approved "a1" (steps (decide "a1" approve none 10 table).0 later) ≡ true)
unfolding get
first_decision_stands_example =
    first_decision_stands "a1" approve none 10 table asked later refl refl

-- The second rule decides for a read by p, the third is never asked.
abbrev custom : List ApprovalGateRule
custom =
    record { skill_pattern = codes "fs.write"; requester_pattern = codes "*"; action = auto }
    ∷ record { skill_pattern = codes "fs.*"; requester_pattern = codes "p"; action = deny }
    ∷ record { skill_pattern = codes "*"; requester_pattern = codes "*"; action = auto }
    ∷ []

reading : evaluate (load_rules custom) (codes "fs.read") (codes "p") ≡ deny
unfolding evaluate load_rules match_pattern before_star
reading = refl

evaluate_loaded_example :
    ((r : ApprovalGateRule) × IsFirst (codes "fs.read") (codes "p") custom r
      × (evaluate (load_rules custom) (codes "fs.read") (codes "p") ≡ r.action))
    ⊎ (NoneMatches (codes "fs.read") (codes "p") custom
        × (evaluate (load_rules custom) (codes "fs.read") (codes "p")
            ≡ default_action (codes "fs.read")))
evaluate_loaded_example = evaluate_loaded custom (codes "fs.read") (codes "p")
