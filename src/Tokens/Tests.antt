-- ===== src/Tokens/Tests.antt =====
-- The token table at concrete rows. The hash of the tests is a length.
use thinklocal_mcp.Base.{
  ◌≡◌, ◌≢◌, ◌≤◌, ◌↔◌, refl, String, true, false, none, some, [], ◌∷◌, List, length, find, is_some,
  ltb, if◌then◌else◌,
}
use thinklocal_mcp.Base.Text.{Text, codes, starts_with}
use thinklocal_mcp.Tokens.{
  OnboardingToken, Table, by_id, by_hash, validate_token, valid, mark_used, token_prefix,
}
use thinklocal_mcp.Tokens.Validity.{validate_iff, mark_used_iff}
use thinklocal_mcp.Tokens.SingleUse.{Event, create, revoke, prune, steps, used_once}

abbrev short_hash : Text → String
short_hash s = if ltb 10 (length s) then "long" else "short"

abbrev row : OnboardingToken
row = record {
  id = "t1";
  name = codes "node";
  token_hash = "short";
  created_at = 100;
  expires_at = 900;
  used_at = none;
  used_by = none;
  revoked_at = none;
  created_by = "admin";
}

abbrev raw_token : Text
raw_token = codes "tlmcp_x"

abbrev later_events : List Event
later_events = create (codes "b") "admin" 300000 "zz" "t2" 300 ∷ revoke "t1" 400 ∷ prune 1000 ∷ []

validates : validate_token short_hash raw_token 900 (row ∷ []) ≡ valid "t1" (codes "node")
unfolding validate_token
validates = refl

used_once_example :
    validate_token short_hash raw_token 1200
      (steps short_hash (mark_used "t1" "peer" 200 (row ∷ [])).0 later_events)
    ≢ valid "t1" (codes "node")
unfolding mark_used
used_once_example =
    used_once short_hash "t1" "peer" 200 (row ∷ []) later_events refl (refl, (tt, (tt, tt)))
      raw_token (codes "node") 1200

validate_iff_example :
    (validate_token short_hash raw_token 900 (row ∷ []) ≡ valid "t1" (codes "node")) ↔ (
      (r : OnboardingToken) × (find (by_hash (short_hash raw_token)) (row ∷ []) ≡ some r)
      × (starts_with token_prefix raw_token ≡ true)
      × (r.id ≡ "t1")
      × (r.name ≡ codes "node")
      × (is_some r.revoked_at ≡ false)
      × (is_some r.used_at ≡ false)
      × (900 ≤ r.expires_at))
validate_iff_example = validate_iff short_hash raw_token 900 (row ∷ []) "t1" (codes "node")

abbrev withdrawn : Table
withdrawn = record row { revoked_at = some 150 } ∷ []

mark_used_iff_example :
    ((mark_used "t1" "peer" 5000 withdrawn).1 ≡ none)
    ↔ ((r : OnboardingToken) × (find (by_id "t1") withdrawn ≡ some r) × (is_some r.used_at ≡ false))
mark_used_iff_example = mark_used_iff "t1" "peer" 5000 withdrawn
