-- ===== src/Tokens.antt =====
-- packages/daemon/src/token-store.ts. The table is the list of its rows; a prepared statement is the
-- list function that its SQL text denotes. `new Date()` is the argument `now`; random bytes are
-- arguments; `hash` stands for SHA-256 of node:crypto. Log and audit callbacks are left out.
pub mod SingleUse
pub mod Validity
mod Tests
use thinklocal_mcp.Base.{
  ℕ, suc, ◌+◌, String, Bool, true, false, not, Option, none, some, List, [], ◌∷◌, ◌++◌, ◌&&◌, ◌||◌,
  if◌then◌else◌, ltb, str_eq, length, find, filter, any, map_where, count, is_some, sort_desc,
}
use thinklocal_mcp.Base.Text.{Text, codes, starts_with, trim, is_empty}

abbrev pub token_prefix : Text
token_prefix = codes "tlmcp_"

abbrev pub max_ttl_ms : ℕ
max_ttl_ms = 604800000

abbrev pub default_ttl_ms : ℕ
default_ttl_ms = 86400000

abbrev pub min_ttl_ms : ℕ
min_ttl_ms = 300000

-- `OnboardingTokenRow`, and `OnboardingToken` with the same fields.
pub record OnboardingToken : Type 0 where
  pub id : String
  pub name : Text
  pub token_hash : String
  pub created_at : ℕ
  pub expires_at : ℕ
  pub used_at : Option ℕ
  pub used_by : Option String
  pub revoked_at : Option ℕ
  pub created_by : String

pub record TokenCreateResult : Type 0 where
  pub token : Text
  pub id : String
  pub name : Text
  pub expires_at : ℕ

pub data CreateError : Type 0 where
  name_empty name_too_long ttl_too_short ttl_too_long constraint_violated : CreateError

pub data Created : Type 0 where
  created : TokenCreateResult → Created
  rejected : CreateError → Created

pub data InvalidReason : Type 0 where
  not_found expired already_used revoked : InvalidReason

pub data TokenValidationResult : Type 0 where
  valid : (token_id : String) (name : Text) → TokenValidationResult
  invalid : InvalidReason → TokenValidationResult

pub data MarkError : Type 0 where
  token_not_found token_already_used : MarkError

abbrev pub Table : Type 0
Table = List OnboardingToken

abbrev pub by_id : String → OnboardingToken → Bool
by_id id r = str_eq r.id id

abbrev pub by_hash : String → OnboardingToken → Bool
by_hash h r = str_eq r.token_hash h

-- The checks of `createToken` before anything is generated.
abbrev create_error : Text → ℕ → Option CreateError
create_error name ttl =
    if is_empty name || is_empty (trim name)
    then some name_empty
    else if ltb 64 (length name)
    then some name_too_long
    else if ltb ttl min_ttl_ms
    then some ttl_too_short
    else if ltb max_ttl_ms ttl
    then some ttl_too_long
    else none

-- The `INSERT`, under the table's `PRIMARY KEY` and `UNIQUE` constraints.
unfoldable pub insert_row : OnboardingToken → Table → Option Table
insert_row r t =
    if any (by_id r.id) t || any (by_hash r.token_hash) t then none else some (t ++ r ∷ [])

abbrev stored_row : Text → OnboardingToken → Table → Option Table → Table × Created
stored_row token r t none = (t, rejected constraint_violated)
stored_row token r t (some t') =
    (t', created (record { token = token; id = r.id; name = r.name; expires_at = r.expires_at }))

abbrev create_checked : Option CreateError → Text → OnboardingToken → Table → Table × Created
create_checked (some e) token r t = (t, rejected e)
create_checked none token r t = stored_row token r t (insert_row r t)

abbrev judge_row : ℕ → Option OnboardingToken → TokenValidationResult
judge_row now none = invalid not_found
judge_row now (some r) =
    if is_some r.revoked_at
    then invalid revoked
    else if is_some r.used_at
    then invalid already_used
    else if ltb r.expires_at now
    then invalid expired
    else valid r.id r.name

module _ (hash : Text → String) where
  abbrev new_row : Text → String → ℕ → (random id : String) → ℕ → OnboardingToken
  new_row name created_by ttl random id now = record {
    id = id;
    name = trim name;
    token_hash = hash (token_prefix ++ codes random);
    created_at = now;
    expires_at = now + ttl;
    used_at = none;
    used_by = none;
    revoked_at = none;
    created_by = created_by;
  }

  unfoldable pub create_token :
      Text → String → ℕ → (random id : String) → ℕ → Table → Table × Created
  create_token name created_by ttl random id now t =
      create_checked (create_error name ttl) (token_prefix ++ codes random)
        (new_row name created_by ttl random id now) t

  unfoldable pub validate_token : Text → ℕ → Table → TokenValidationResult
  validate_token raw now t =
      if is_empty raw || not (starts_with token_prefix raw)
      then invalid not_found
      else judge_row now (find (by_hash (hash raw)) t)

abbrev mark_found : Option OnboardingToken → String → String → ℕ → Table → Table × Option MarkError
mark_found none id used_by now t = (t, some token_not_found)
mark_found (some r) id used_by now t = if is_some r.used_at then (t, some token_already_used) else (
  map_where (by_id id) (λ r. record r { used_at = some now; used_by = some used_by }) t,
  none,
)

unfoldable pub mark_used : String → String → ℕ → Table → Table × Option MarkError
mark_used id used_by now t = mark_found (find (by_id id) t) id used_by now t

abbrev revoke_found : Option OnboardingToken → String → ℕ → Table → Table × Bool
revoke_found none id now t = (t, false)
revoke_found (some r) id now t =
    if is_some r.revoked_at || is_some r.used_at
    then (t, false)
    else (map_where (by_id id) (λ r. record r { revoked_at = some now }) t, true)

unfoldable pub revoke_token : String → ℕ → Table → Table × Bool
revoke_token id now t = revoke_found (find (by_id id) t) id now t

unfoldable pub list_active_tokens : ℕ → Table → List OnboardingToken
list_active_tokens now t =
    sort_desc (λ (r : OnboardingToken). r.created_at)
      (filter (λ r. not (is_some r.used_at) && (not (is_some r.revoked_at) && ltb now r.expires_at))
        t)

pub list_all_tokens : Table → List OnboardingToken
list_all_tokens t = sort_desc (λ (r : OnboardingToken). r.created_at) t

abbrev is_spent : ℕ → OnboardingToken → Bool
is_spent now r = ltb r.expires_at now && is_some r.used_at

unfoldable pub prune_expired : ℕ → Table → Table × ℕ
prune_expired now t = (filter (λ r. not (is_spent now r)) t, count (is_spent now) t)

pub get_token : String → Table → Option OnboardingToken
get_token id t = find (by_id id) t
