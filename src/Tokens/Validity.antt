-- ===== src/Tokens/Validity.antt =====
-- When an onboarding token validates, and what marking it as used checks.
use thinklocal_mcp.Base.{
  ℕ, ◌≡◌, ◌≤◌, refl, String, true, false, Option, none, some, [], ◌∷◌, subst, arith, Bool-cases,
  Option-cases, inl, inr, find, is_some, ◌||◌, not, sym, ◌∙◌, ◌↔◌,
}
use thinklocal_mcp.Base.Text.{Text, starts_with, is_empty}
use thinklocal_mcp.Tokens.{
  OnboardingToken, Table, by_id, by_hash, judge_row, validate_token, valid, invalid, not_found,
  mark_used, token_prefix, mark_found, token_not_found, token_already_used,
}

judge_row_valid :
    (now : ℕ) (r : OnboardingToken) (id : String) (name : Text)
    → judge_row now (some r) ≡ valid id name
    → (r.id ≡ id)
      × (r.name ≡ name)
      × (is_some r.revoked_at ≡ false)
      × (is_some r.used_at ≡ false)
      × (now ≤ r.expires_at)
judge_row_valid now r id name h = ground arith

judge_row_live :
    (now : ℕ) (r : OnboardingToken)
    → is_some r.revoked_at ≡ false
    → is_some r.used_at ≡ false
    → now ≤ r.expires_at
    → judge_row now (some r) ≡ valid r.id r.name
judge_row_live now r a b c = ground arith

prefix_nonempty : (raw : Text) → starts_with token_prefix raw ≡ true → is_empty raw ≡ false
prefix_nonempty [] h = cc
prefix_nonempty (c ∷ s) h = refl

module _ (hash : Text → String) where
  pub validate_inv :
      (raw : Text) (now : ℕ) (t : Table) (id : String) (name : Text)
      → validate_token hash raw now t ≡ valid id name
      → (r : OnboardingToken) × (find (by_hash (hash raw)) t ≡ some r)
        × (starts_with token_prefix raw ≡ true)
        × (r.id ≡ id)
        × (r.name ≡ name)
        × (is_some r.revoked_at ≡ false)
        × (is_some r.used_at ≡ false)
        × (now ≤ r.expires_at)
  unfolding validate_token
  validate_inv raw now t id name h =
      elim (Bool-cases (is_empty raw || not (starts_with token_prefix raw))) [
        | inl bad ↦ absurd (let no : invalid not_found ≡ valid id name = (rw bad at h) in cc)
        | inr good ↦ elim (Option-cases (find (by_hash (hash raw)) t)) [
          | inl missing ↦
              absurd (let no : invalid not_found ≡ valid id name = (rw (good, missing) at h) in cc)
          | inr (r, found) ↦
              let (a, b, c, d, e) = judge_row_valid now r id name (rw (good, found) at h) in
              (r, found, ground arith, a, b, c, d, e)
        ]
      ]

  -- A text validates as `id` and `name` exactly when it has the prefix and its hash finds a row with
  -- that id and name which is neither revoked nor used nor past its expiry.
  pub validate_iff :
      (raw : Text) (now : ℕ) (t : Table) (id : String) (name : Text)
      → (validate_token hash raw now t ≡ valid id name) ↔ (
          (r : OnboardingToken) × (find (by_hash (hash raw)) t ≡ some r)
          × (starts_with token_prefix raw ≡ true)
          × (r.id ≡ id)
          × (r.name ≡ name)
          × (is_some r.revoked_at ≡ false)
          × (is_some r.used_at ≡ false)
          × (now ≤ r.expires_at))
  unfolding validate_token
  validate_iff raw now t id name = (
    validate_inv raw now t id name,
    λ (r, found, prefix, same, same_name, live, unused, early).
        rw (prefix_nonempty raw prefix, prefix, found)
          (judge_row_live now r live unused early ∙ cc),
  )

some_eq : {r x : OnboardingToken} → some r ≡ some x → r ≡ x
some_eq h = cc

mark_found_iff :
    (o : Option OnboardingToken) (id used_by : String) (now : ℕ) (t : Table)
    → ((mark_found o id used_by now t).1 ≡ none)
      ↔ ((r : OnboardingToken) × (o ≡ some r) × (is_some r.used_at ≡ false))
mark_found_iff none id used_by now t = (
  λ h. absurd (let no : some token_not_found ≡ none = h in cc),
  λ h. absurd (let no : none ≡ some h.0 = h.1 in cc),
)
mark_found_iff (some r) id used_by now t = elim (Bool-cases (is_some r.used_at)) [
  | inl used ↦ (
    λ h. absurd (let no : some token_already_used ≡ none = (rw used at h) in cc),
    λ h.
        let same : r ≡ h.0 = some_eq h.1 in
        absurd (
          let no : true ≡ false = sym (subst (λ x. is_some x.used_at ≡ true) same used) ∙ h.2 in
          cc),
  )
  | inr unused ↦ (λ h. (r, refl, unused), λ h. rw unused)
]

-- `markUsed` succeeds exactly when the id finds a row that is not used, whatever
-- its expiry and revocation.
pub mark_used_iff :
    (id used_by : String) (now : ℕ) (t : Table)
    → ((mark_used id used_by now t).1 ≡ none)
      ↔ ((r : OnboardingToken) × (find (by_id id) t ≡ some r) × (is_some r.used_at ≡ false))
unfolding mark_used
mark_used_iff id used_by now t = mark_found_iff (find (by_id id) t) id used_by now t
