-- ===== src/Capability.antt =====
-- packages/daemon/src/capability-activation.ts: whether a capability of a peer may run here. The
-- table is a list of rows in their order of insertion with the counter of AUTOINCREMENT. A column of
-- JSON holds its object, a map from keys to texts, and NULL is the empty one.
pub mod Lifecycle
mod Tests
use thinklocal_mcp.Base.{
  ℕ, ◌+◌, ◌-◌, String, Bool, true, false, not, Option, none, some, List, [], ◌∷◌, ◌++◌,
  if◌then◌else◌, filter, find, count, map_where, ltb, ◌==◌, ◌&&◌, ◌||◌, str_eq, is_truthy,
  sort_desc, length,
}
use thinklocal_mcp.Base.Dict.{Dict, set}

pub data CapabilityState : Type 0 where
  discovered active suspended revoked : CapabilityState

pub record CapabilityActivationRow : Type 0 where
  pub id : ℕ
  pub capability_id : String
  pub version : String
  pub origin_peer : String
  pub state : CapabilityState
  pub manifest_hash : Option String
  pub activated_at : Option ℕ
  pub suspended_at : Option ℕ
  pub revoked_at : Option ℕ
  pub metadata : Dict String
  pub updated_at : ℕ

pub record CapabilityActivationStore : Type 0 where
  pub rows : List CapabilityActivationRow
  pub next_id : ℕ

abbrev pub same_state : CapabilityState → CapabilityState → Bool
same_state discovered discovered = true
same_state active active = true
same_state suspended suspended = true
same_state revoked revoked = true
same_state _ _ = false

-- `WHERE capability_id = ? AND origin_peer = ?`
abbrev pub is_pair : String → String → CapabilityActivationRow → Bool
is_pair capability_id origin_peer r =
    str_eq r.capability_id capability_id && str_eq r.origin_peer origin_peer

unfoldable pub get : String → String → CapabilityActivationStore → Option CapabilityActivationRow
get capability_id origin_peer s = find (is_pair capability_id origin_peer) s.rows

abbrev new_row : ℕ → String → String → String → Option String → ℕ → CapabilityActivationRow
new_row id capability_id version origin_peer manifest_hash now = record {
  id = id;
  capability_id = capability_id;
  version = version;
  origin_peer = origin_peer;
  state = discovered;
  manifest_hash = manifest_hash;
  activated_at = none;
  suspended_at = none;
  revoked_at = none;
  metadata = [];
  updated_at = now;
}

abbrev pub drifted : String → Option String → ℕ → CapabilityActivationRow → CapabilityActivationRow
drifted version manifest_hash now r = record r {
  version = version;
  manifest_hash = manifest_hash;
  updated_at = now;
}

abbrev discover_from :
    String
    → String
    → String
    → Option String
    → ℕ
    → CapabilityActivationStore
    → Option CapabilityActivationRow
    → CapabilityActivationStore × ℕ
discover_from capability_id version origin_peer manifest_hash now s (some existing) = (
  record s {
    rows = map_where (λ r. r.id == existing.id) (drifted version manifest_hash now) s.rows;
  },
  existing.id,
)
discover_from capability_id version origin_peer manifest_hash now s none = (
  record {
    rows = s.rows ++ new_row s.next_id capability_id version origin_peer manifest_hash now ∷ [];
    next_id = s.next_id + 1;
  },
  s.next_id,
)

unfoldable pub discover :
    (capability_id version origin_peer : String)
    → Option String
    → ℕ
    → CapabilityActivationStore
    → CapabilityActivationStore × ℕ
discover capability_id version origin_peer manifest_hash now s =
    discover_from capability_id version origin_peer manifest_hash now s
      (get capability_id origin_peer s)

abbrev pub can_activate : CapabilityState → Bool
can_activate discovered = true
can_activate suspended = true
can_activate _ = false

abbrev pub activatable : String → String → CapabilityActivationRow → Bool
activatable capability_id origin_peer r =
    is_pair capability_id origin_peer r && can_activate r.state

abbrev pub activated : ℕ → CapabilityActivationRow → CapabilityActivationRow
activated now r = record r { state = active; activated_at = some now; updated_at = now }

unfoldable pub activate :
    (capability_id origin_peer : String) (now : ℕ)
    → CapabilityActivationStore
    → CapabilityActivationStore × Bool
activate capability_id origin_peer now s =
    let hit = activatable capability_id origin_peer in
    (record s { rows = map_where hit (activated now) s.rows }, ltb 0 (count hit s.rows))

-- `reason ? { ...existingMeta, [key]: reason } : existingMeta`
abbrev pub merged : String → Option String → Dict String → Dict String
merged key none meta = meta
merged key (some reason) meta = if is_truthy (some reason) then set key reason meta else meta

abbrev pub suspended_row : Dict String → ℕ → CapabilityActivationRow → CapabilityActivationRow
suspended_row meta now r = record r {
  state = suspended;
  suspended_at = some now;
  metadata = meta;
  updated_at = now;
}

abbrev pub revoked_row : Dict String → ℕ → CapabilityActivationRow → CapabilityActivationRow
revoked_row meta now r = record r {
  state = revoked;
  revoked_at = some now;
  metadata = meta;
  updated_at = now;
}

-- The `UPDATE … WHERE id = ? AND` a test of the state, and its `changes > 0`.
abbrev pub update_id :
    ℕ
    → (CapabilityState → Bool)
    → (CapabilityActivationRow → CapabilityActivationRow)
    → CapabilityActivationStore
    → CapabilityActivationStore × Bool
update_id id allowed f s = (
  record s { rows = map_where (λ r. r.id == id && allowed r.state) f s.rows },
  ltb 0 (count (λ r. r.id == id && allowed r.state) s.rows),
)

abbrev suspend_from :
    Option String
    → ℕ
    → CapabilityActivationStore
    → Option CapabilityActivationRow
    → CapabilityActivationStore × Bool
suspend_from reason now s none = (s, false)
suspend_from reason now s (some current) =
    if same_state current.state active
    then update_id current.id (λ st. same_state st active)
        (suspended_row (merged "suspend_reason" reason current.metadata) now) s
    else (s, false)

unfoldable pub suspend :
    (capability_id origin_peer : String) (reason : Option String) (now : ℕ)
    → CapabilityActivationStore
    → CapabilityActivationStore × Bool
suspend capability_id origin_peer reason now s =
    suspend_from reason now s (get capability_id origin_peer s)

abbrev revoke_from :
    Option String
    → ℕ
    → CapabilityActivationStore
    → Option CapabilityActivationRow
    → CapabilityActivationStore × Bool
revoke_from reason now s none = (s, false)
revoke_from reason now s (some current) =
    if same_state current.state revoked
    then (s, false)
    else update_id current.id (λ st. not (same_state st revoked))
        (revoked_row (merged "revoke_reason" reason current.metadata) now) s

unfoldable pub revoke :
    (capability_id origin_peer : String) (reason : Option String) (now : ℕ)
    → CapabilityActivationStore
    → CapabilityActivationStore × Bool
revoke capability_id origin_peer reason now s =
    revoke_from reason now s (get capability_id origin_peer s)

pub list_by_state : CapabilityState → CapabilityActivationStore → List CapabilityActivationRow
list_by_state state s =
    sort_desc (λ r. r.updated_at)
      (filter (λ (r : CapabilityActivationRow). same_state r.state state) s.rows)

pub count_by_state : CapabilityActivationStore → CapabilityState → ℕ
count_by_state s state = count (λ r. same_state r.state state) s.rows

abbrev pub is_active_row : Option CapabilityActivationRow → Bool
is_active_row none = false
is_active_row (some r) = same_state r.state active

unfoldable pub is_active : String → String → CapabilityActivationStore → Bool
is_active capability_id origin_peer s = is_active_row (get capability_id origin_peer s)

abbrev is_before : ℕ → Option ℕ → Bool
is_before cutoff none = false
is_before cutoff (some t) = ltb t cutoff

abbrev pub is_old : ℕ → CapabilityActivationRow → Bool
is_old cutoff r = same_state r.state revoked && is_before cutoff r.revoked_at

unfoldable pub prune_revoked_older_than :
    (max_age_ms now : ℕ) → CapabilityActivationStore → CapabilityActivationStore × ℕ
prune_revoked_older_than max_age_ms now s = if max_age_ms == 0 then (s, 0) else (
  record s { rows = filter (λ r. not (is_old (now - max_age_ms) r)) s.rows },
  count (is_old (now - max_age_ms)) s.rows,
)
