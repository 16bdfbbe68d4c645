-- ===== src/Approvals/Patterns.antt =====
-- What the patterns of a rule of approval-gates.ts match, told without the functions that test it.
use thinklocal_mcp.Base.{
  ◌≡◌, refl, none, some, [], ◌∷◌, ◌++◌, arith, sym, ◌==◌, ◌↔◌, true, false, Option-cases, inl, inr,
  Bool-cases, ap, ◌∙◌,
}
use thinklocal_mcp.Base.Text.{Text, codes, starts_with, text_eq, text_eq_iff}
use thinklocal_mcp.Approvals.{ApprovalGateRule, before_star, match_pattern, rule_matches}

-- A pattern with a star at its end matches what starts with the rest of it; any pattern matches itself.
pub data Matches (value pattern : Text) : Type 0 where
  by_prefix :
      (prefix rest : Text)
      → pattern ≡ prefix ++ codes "*"
      → value ≡ prefix ++ rest
      → Matches value pattern
  by_itself : pattern ≡ value → Matches value pattern

abbrev pub RuleMatches : Text → Text → ApprovalGateRule → Type 0
RuleMatches skill requester r =
    Matches skill r.skill_pattern × Matches requester r.requester_pattern

starts_with-append : (p s : Text) → starts_with p (p ++ s) ≡ true
starts_with-append [] s = refl
starts_with-append (c ∷ p) s = ground (arith, starts_with-append p s)

append-starts_with : (p t : Text) → starts_with p t ≡ true → (s : Text) × (t ≡ p ++ s)
append-starts_with [] t h = (t, refl)
append-starts_with (c ∷ p) [] h = cc
append-starts_with (c ∷ p) (d ∷ t) h =
    let (s, e) = append-starts_with p t (ground arith) in (s, ground arith)

before_star-append : (p : Text) → before_star (p ++ codes "*") ≡ some p
unfolding before_star
before_star-append [] = refl
before_star-append (c ∷ []) = refl
before_star-append (c ∷ d ∷ p) = rw (before_star-append (d ∷ p)) refl

append-before_star : (pattern p : Text) → before_star pattern ≡ some p → pattern ≡ p ++ codes "*"
unfolding before_star
append-before_star [] p h = cc
append-before_star (c ∷ []) p h = elim (Bool-cases (c == 42)) [
  | inl e ↦ let q : some [] ≡ some p = (rw e at h) in ground arith
  | inr e ↦ absurd (let q : none ≡ some p = (rw e at h) in cc)
]
append-before_star (c ∷ d ∷ s) p h = elim (Option-cases (before_star (d ∷ s))) [
  | inl e ↦ absurd (let q : none ≡ some p = (rw e at h) in cc)
  | inr (p', e) ↦
      let q : some (c ∷ p') ≡ some p = (rw e at h) in
      let tail = append-before_star (d ∷ s) p' e in
      rw tail (let same : c ∷ p' ≡ p = cc in ap (λ (t : Text). t ++ codes "*") same)
]

match_pattern-Matches :
    (value pattern : Text) → match_pattern value pattern ≡ true → Matches value pattern
unfolding match_pattern
match_pattern-Matches value pattern h = elim (Bool-cases (text_eq pattern (codes "*"))) [
  | inl e ↦ by_prefix [] value ((text_eq_iff pattern (codes "*")).0 e) refl
  | inr e ↦ elim (Option-cases (before_star pattern)) [
    | inl b ↦ by_itself (sym ((text_eq_iff value pattern).0 (rw (e, b) at h)))
    | inr (p, b) ↦
        let (rest, split) = append-starts_with p value (rw (e, b) at h) in
        by_prefix p rest (append-before_star pattern p b) split
  ]
]

prefix_matches :
    (value pattern p rest : Text)
    → before_star pattern ≡ some p
    → value ≡ p ++ rest
    → match_pattern value pattern ≡ true
unfolding match_pattern
prefix_matches value pattern p rest b e = elim (Bool-cases (text_eq pattern (codes "*"))) [
  | inl star ↦ rw star refl
  | inr star ↦ rw (star, b, e) (starts_with-append p rest)
]

Matches-match_pattern :
    (value pattern : Text) → Matches value pattern → match_pattern value pattern ≡ true
Matches-match_pattern value pattern (by_prefix p rest e split) =
    prefix_matches value pattern p rest (ap before_star e ∙ before_star-append p) split
Matches-match_pattern value pattern (by_itself e) = elim (Option-cases (before_star pattern)) [
  | inl b ↦ unfold match_pattern in rw (b, (text_eq_iff value pattern).1 (sym e)) (ground arith)
  | inr (p, b) ↦
      prefix_matches value pattern p (codes "*") b (sym e ∙ append-before_star pattern p b)
]

pub rule_matches_iff :
    (skill requester : Text) (r : ApprovalGateRule)
    → (rule_matches skill requester r ≡ true) ↔ RuleMatches skill requester r
rule_matches_iff skill requester r =
    let on_skill = match_pattern-Matches skill r.skill_pattern in
    let on_requester = match_pattern-Matches requester r.requester_pattern in
    (
      λ h. (on_skill (ground arith), on_requester (ground arith)),
      λ (m, n).
          rw (Matches-match_pattern skill r.skill_pattern m)
            (Matches-match_pattern requester r.requester_pattern n),
    )

pub not-RuleMatches :
    (skill requester : Text) (r : ApprovalGateRule)
    → rule_matches skill requester r ≡ false
    → ¬ RuleMatches skill requester r
not-RuleMatches skill requester r h m = let yes' = (rule_matches_iff skill requester r).1 m in cc
