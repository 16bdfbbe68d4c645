-- ===== src/Approvals/Gates.antt =====
-- What the rules of approval-gates.ts decide, custom rules before the default ones.
use thinklocal_mcp.Base.{
  find-split, All-imply, ◌≡◌, refl, Bool, none, some, List, [], ◌∷◌, ◌++◌, arith, if◌then◌else◌,
  find, All, Option-cases, inl, inr, ◌⊎◌, Bool-cases, ap, ◌∙◌,
}
use thinklocal_mcp.Base.Text.{Text, codes, starts_with}
use thinklocal_mcp.Approvals.{
  ApprovalAction, auto, needs_approval, ApprovalGateRule, default_rules, before_star, match_pattern,
  rule_matches, action_of, evaluate, load_rules,
}
use thinklocal_mcp.Approvals.Patterns.{RuleMatches, rule_matches_iff, not-RuleMatches}

find-append {ℓ} :
    {A : Type ℓ} (p : A → Bool) (xs ys : List A) → find p xs ≡ none → find p (xs ++ ys) ≡ find p ys
find-append p [] ys h = refl
find-append p (x ∷ xs) ys h = elim (Bool-cases (p x)) [
  | inl e ↦ absurd (let no : some x ≡ none = (rw e at h) in cc)
  | inr e ↦ rw e (find-append p xs ys (rw e at h))
]

find-append_some {ℓ} :
    {A : Type ℓ} (p : A → Bool) (xs ys : List A) (x : A)
    → find p xs ≡ some x
    → find p (xs ++ ys) ≡ some x
find-append_some p [] ys x h = absurd (let no : none ≡ some x = h in cc)
find-append_some p (y ∷ xs) ys x h = elim (Bool-cases (p y)) [
  | inl e ↦ rw e (rw e at h)
  | inr e ↦ rw e (find-append_some p xs ys x (rw e at h))
]

-- What the default rules alone say.
abbrev pub default_action : Text → ApprovalAction
default_action skill =
    if starts_with (codes "system.") skill
    then auto
    else if starts_with (codes "credential.") skill
    then needs_approval
    else auto

evaluate_default :
    (skill requester : Text) → evaluate default_rules skill requester ≡ default_action skill
unfolding evaluate match_pattern before_star
evaluate_default skill requester = ground arith

-- No rule of the list matches.
abbrev pub NoneMatches : Text → Text → List ApprovalGateRule → Type 0
NoneMatches skill requester rules = All (λ q. ¬ RuleMatches skill requester q) rules

-- The rule is the first of the list that matches.
pub record IsFirst (skill requester : Text) (rules : List ApprovalGateRule) (r : ApprovalGateRule)
    : Type 0 where
  pub before : List ApprovalGateRule
  pub after : List ApprovalGateRule
  pub split : rules ≡ before ++ r ∷ after
  pub passed_over : NoneMatches skill requester before
  pub matches : RuleMatches skill requester r

find-NoneMatches :
    (skill requester : Text) (rules : List ApprovalGateRule)
    → find (rule_matches skill requester) rules ≡ none
    → NoneMatches skill requester rules
find-NoneMatches skill requester [] h = tt
find-NoneMatches skill requester (q ∷ rules) h =
    elim (Bool-cases (rule_matches skill requester q)) [
      | inl e ↦ absurd (let clash : some q ≡ none = (rw e at h) in cc)
      | inr e ↦
          (not-RuleMatches skill requester q e, find-NoneMatches skill requester rules (rw e at h))
    ]

find-IsFirst :
    (skill requester : Text) (rules : List ApprovalGateRule) (r : ApprovalGateRule)
    → find (rule_matches skill requester) rules ≡ some r
    → IsFirst skill requester rules r
find-IsFirst skill requester rules r found =
    let (before, after, split, none_yet, passes) =
      find-split (rule_matches skill requester) rules r found in
    record {
      before = before;
      after = after;
      split = split;
      passed_over = All-imply _ _ before (not-RuleMatches skill requester) none_yet;
      matches = (rule_matches_iff skill requester r).0 passes;
    }

evaluate_missed :
    (custom : List ApprovalGateRule) (skill requester : Text)
    → find (rule_matches skill requester) custom ≡ none
    → evaluate (load_rules custom) skill requester ≡ default_action skill
unfolding evaluate load_rules
evaluate_missed custom skill requester h =
    ap action_of (find-append (rule_matches skill requester) custom default_rules h)
    ∙ evaluate_default skill requester

evaluate_found :
    (custom : List ApprovalGateRule) (skill requester : Text) (r : ApprovalGateRule)
    → find (rule_matches skill requester) custom ≡ some r
    → evaluate (load_rules custom) skill requester ≡ r.action
unfolding evaluate load_rules
evaluate_found custom skill requester r h =
    ap action_of (find-append_some (rule_matches skill requester) custom default_rules r h)

-- The first custom rule whose two patterns match skill and requester decides, where a pattern matches
-- its own text and, if it ends in a star, every text that starts with what stands before the star; if
-- no custom rule matches, system skills and others run automatically, credential skills need an
-- approval, and nothing is denied.
pub evaluate_loaded :
    (custom : List ApprovalGateRule) (skill requester : Text)
    → ((r : ApprovalGateRule) × IsFirst skill requester custom r
        × (evaluate (load_rules custom) skill requester ≡ r.action))
      ⊎ (NoneMatches skill requester custom
          × (evaluate (load_rules custom) skill requester ≡ default_action skill))
evaluate_loaded custom skill requester =
    elim (Option-cases (find (rule_matches skill requester) custom)) [
      | inl missed ↦ inr (
        find-NoneMatches skill requester custom missed,
        evaluate_missed custom skill requester missed,
      )
      | inr (r, found) ↦ inl (
        r,
        find-IsFirst skill requester custom r found,
        evaluate_found custom skill requester r found,
      )
    ]
