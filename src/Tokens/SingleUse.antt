-- ===== src/Tokens/SingleUse.antt =====
-- An onboarding token is spent once and for all.
use thinklocal_mcp.Base.{
  ℕ, ◌≡◌, ◌≢◌, refl, String, true, false, none, some, List, [], ◌∷◌, ◌++◌, All, All-append,
  All-filter, All-map_where, All_of_In, arith, str_eq, Bool-cases, Option-cases, inl, inr, find,
  find-In, eq_iff, is_some, map_where, any, ◌||◌, sym, ◌∙◌,
}
use thinklocal_mcp.Base.Text.{Text, codes}
use thinklocal_mcp.Tokens.{
  OnboardingToken, Table, by_id, by_hash, insert_row, create_token, validate_token, valid,
  mark_used, revoke_token, prune_expired, new_row, create_error, stored_row, token_prefix,
  token_not_found, token_already_used,
}
use thinklocal_mcp.Tokens.Validity.{validate_inv}

-- Calls that change the table.
pub data Event : Type 0 where
  create : (name : Text) (created_by : String) (ttl : ℕ) (random id : String) (now : ℕ) → Event
  mark : (id used_by : String) (now : ℕ) → Event
  revoke : (id : String) (now : ℕ) → Event
  prune : (now : ℕ) → Event

-- An event that does not make a row of this id.
abbrev pub Spares : String → Event → Type 0
Spares id (create name created_by ttl random new_id now) = str_eq new_id id ≡ false
Spares id _ = Unit

-- Every row of this id is used.
abbrev pub IsSpent : String → OnboardingToken → Type 0
IsSpent id r = str_eq r.id id ≡ true → is_some r.used_at ≡ true

stored-IsSpent :
    (id : String) (token : Text) (r : OnboardingToken) (t : Table)
    → str_eq r.id id ≡ false
    → All (IsSpent id) t
    → All (IsSpent id) (stored_row token r t (insert_row r t)).0
unfolding insert_row
stored-IsSpent id token r t other h =
    elim (Bool-cases (any (by_id r.id) t || any (by_hash r.token_hash) t)) [
      | inl clash ↦ rw clash h
      | inr fresh ↦ rw fresh (All-append (IsSpent id) t (r ∷ []) h (ground arith, tt))
    ]

use_row-IsSpent :
    (id by : String) (now : ℕ) (r : OnboardingToken)
    → IsSpent id r
    → IsSpent id (record r { used_at = some now; used_by = some by })
use_row-IsSpent id by now r h same = refl

mark-IsSpent :
    (id k by : String) (now : ℕ) (t : Table)
    → All (IsSpent id) t
    → All (IsSpent id) (mark_used k by now t).0
unfolding mark_used
mark-IsSpent id k by now t h = elim (Option-cases (find (by_id k) t)) [
  | inl e ↦ rw e h
  | inr (r, e) ↦ elim (Bool-cases (is_some r.used_at)) [
    | inl used ↦ rw (e, used) h
    | inr unused ↦
        rw (e, unused)
          (All-map_where (IsSpent id) (by_id k) _ t (λ x. use_row-IsSpent id by now x) h)
  ]
]

revoke-IsSpent :
    (id k : String) (now : ℕ) (t : Table)
    → All (IsSpent id) t
    → All (IsSpent id) (revoke_token k now t).0
unfolding revoke_token
revoke-IsSpent id k now t h = elim (Option-cases (find (by_id k) t)) [
  | inl e ↦ rw e h
  | inr (r, e) ↦ elim (Bool-cases (is_some r.revoked_at || is_some r.used_at)) [
    | inl over ↦ rw (e, over) h
    | inr live ↦ rw (e, live) (All-map_where (IsSpent id) (by_id k) _ t (λ x spent. spent) h)
  ]
]

mark-All-IsSpent :
    (id by : String) (now : ℕ) (t : Table)
    → All
        (IsSpent id)
        (map_where (by_id id) (λ r. record r { used_at = some now; used_by = some by }) t)
mark-All-IsSpent id by now [] = tt
mark-All-IsSpent id by now (r ∷ t) = elim (Bool-cases (str_eq r.id id)) [
  | inl e ↦ rw e (λ same. refl, mark-All-IsSpent id by now t)
  | inr e ↦
      rw e
        (λ same. absurd (let no : true ≡ false = sym same ∙ e in cc), mark-All-IsSpent id by now t)
]

mark-spends :
    (id by : String) (now : ℕ) (t : Table)
    → (mark_used id by now t).1 ≡ none
    → All (IsSpent id) (mark_used id by now t).0
unfolding mark_used
mark-spends id by now t h = elim (Option-cases (find (by_id id) t)) [
  | inl e ↦ absurd (let no : some token_not_found ≡ none = (rw e at h) in cc)
  | inr (r, e) ↦ elim (Bool-cases (is_some r.used_at)) [
    | inl used ↦ absurd (let no : some token_already_used ≡ none = (rw (e, used) at h) in cc)
    | inr unused ↦ rw (e, unused) (mark-All-IsSpent id by now t)
  ]
]

module _ (hash : Text → String) where
  unfoldable pub step : Table → Event → Table
  step t (create name created_by ttl random id now) =
      (create_token hash name created_by ttl random id now t).0
  step t (mark id used_by now) = (mark_used id used_by now t).0
  step t (revoke id now) = (revoke_token id now t).0
  step t (prune now) = (prune_expired now t).0

  unfoldable pub steps : Table → List Event → Table
  steps t [] = t
  steps t (e ∷ es) = steps (step t e) es

  create-IsSpent :
      (id : String) (name : Text) (by : String) (ttl : ℕ) (random new_id : String) (now : ℕ)
      (t : Table)
      → str_eq new_id id ≡ false
      → All (IsSpent id) t
      → All (IsSpent id) (create_token hash name by ttl random new_id now t).0
  unfolding create_token
  create-IsSpent id name by ttl random new_id now t other h =
      elim (Option-cases (create_error name ttl)) [
        | inr (bad, e) ↦ rw e h
        | inl fine ↦ rw fine (
            stored-IsSpent id (token_prefix ++ codes random)
              (new_row hash name by ttl random new_id now) t other h)
      ]

  step-IsSpent :
      (id : String) (t : Table) (e : Event)
      → Spares id e
      → All (IsSpent id) t
      → All (IsSpent id) (step t e)
  unfolding step
  step-IsSpent id t (create name by ttl random new_id now) other h =
      create-IsSpent id name by ttl random new_id now t other h
  step-IsSpent id t (mark k by now) other h = mark-IsSpent id k by now t h
  step-IsSpent id t (revoke k now) other h = revoke-IsSpent id k now t h
  step-IsSpent id t (prune now) other h = unfold prune_expired in All-filter (IsSpent id) _ t h

  steps-IsSpent :
      (id : String) (t : Table) (es : List Event)
      → All (Spares id) es
      → All (IsSpent id) t
      → All (IsSpent id) (steps t es)
  unfolding steps
  steps-IsSpent id t [] other h = h
  steps-IsSpent id t (e ∷ es) (o, other) h =
      steps-IsSpent id (step t e) es other (step-IsSpent id t e o h)

  validate-ne_of_IsSpent :
      (id : String) (t : Table) (raw name : Text) (now : ℕ)
      → All (IsSpent id) t
      → validate_token hash raw now t ≢ valid id name
  validate-ne_of_IsSpent id t raw name now h v =
      let (r, found, prefix, same, same_name, live, unused, early) =
        validate_inv hash raw now t id name v in
      let used : is_some r.used_at ≡ true =
        All_of_In (IsSpent id) t h (find-In _ t r found) ((eq_iff r.id id).1 same) in
      absurd (let no : true ≡ false = sym used ∙ unused in cc)

  -- Once a node has been marked as the user of a token, no text validates as that token again,
  -- whatever is created, marked, revoked and pruned afterwards, if no later token is given its id.
  pub used_once :
      (id used_by : String) (now : ℕ) (t : Table) (es : List Event)
      → (mark_used id used_by now t).1 ≡ none
      → All (Spares id) es
      → (raw name : Text) (later : ℕ)
      → validate_token hash raw later (steps (mark_used id used_by now t).0 es) ≢ valid id name
  used_once id used_by now t es done other raw name later =
      validate-ne_of_IsSpent id _ raw name later
        (steps-IsSpent id _ es other (mark-spends id used_by now t done))
