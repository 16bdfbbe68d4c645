-- ===== src/SkillLifecycle.antt =====
-- packages/daemon/src/skill-lifecycle.ts: which skills are kept, and which are collected. A time is its
-- milliseconds, where the source writes and reads it as a text.
pub mod Collection
mod Tests
use thinklocal_mcp.Base.{
  ℕ, suc, ◌+◌, ◌-◌, ◌*◌, String, Bool, true, false, Option, none, some, List, [], ◌∷◌,
  if◌then◌else◌, ltb, count, length, str_eq,
}
use thinklocal_mcp.Base.Dict.{Dict, get, set, size, values}

pub data SkillStatus : Type 0 where
  active deprecated expired disabled : SkillStatus

pub record SkillLifecycleEntry : Type 0 where
  pub skill_id : String
  pub status : SkillStatus
  pub installed_at : ℕ
  pub last_used_at : Option ℕ
  pub usage_count : ℕ
  pub deprecated_at : Option ℕ
  pub deprecation_reason : Option String
  pub expires_at : Option ℕ

pub record SkillLifecycleManager : Type 0 where
  pub skills : Dict SkillLifecycleEntry
  pub default_expiry_days : ℕ

abbrev pub day : ℕ
day = 86400000

abbrev pub or_default : ℕ → Option ℕ → ℕ
or_default d none = d
or_default d (some n) = n

unfoldable pub new_manager : Option ℕ → SkillLifecycleManager
new_manager days = record { skills = []; default_expiry_days = or_default 90 days }

abbrev put : SkillLifecycleEntry → SkillLifecycleManager → SkillLifecycleManager
put e s = record s { skills = set e.skill_id e s.skills }

unfoldable pub register : ℕ → String → Option ℕ → SkillLifecycleManager → SkillLifecycleManager
register now id expiry_days s =
    put
      (record {
        skill_id = id;
        status = active;
        installed_at = now;
        last_used_at = none;
        usage_count = 0;
        deprecated_at = none;
        deprecation_reason = none;
        expires_at = some (now + or_default s.default_expiry_days expiry_days * day);
      })
      s

-- A known entry is changed in place; whether it was known and the change allowed.
abbrev pub change :
    String
    → (SkillLifecycleEntry → Option SkillLifecycleEntry)
    → SkillLifecycleManager
    → Option SkillLifecycleEntry
    → SkillLifecycleManager × Bool
change id f s none = (s, false)
change id f s (some e) = elim (f e) [
  | none ↦ (s, false)
  | some e' ↦ (record s { skills = set id e' s.skills }, true)
]

abbrev pub used : ℕ → SkillLifecycleEntry → Option SkillLifecycleEntry
used now e = some (record e { last_used_at = some now; usage_count = suc e.usage_count })

unfoldable pub record_usage : ℕ → String → SkillLifecycleManager → SkillLifecycleManager
record_usage now id s = (change id (used now) s (get id s.skills)).0

abbrev pub deprecated_with : ℕ → String → SkillLifecycleEntry → Option SkillLifecycleEntry
deprecated_with now reason e =
    some
      (record e { status = deprecated; deprecated_at = some now; deprecation_reason = some reason })

unfoldable pub deprecate :
    ℕ → String → String → SkillLifecycleManager → SkillLifecycleManager × Bool
deprecate now id reason s = change id (deprecated_with now reason) s (get id s.skills)

abbrev pub disabled_entry : SkillLifecycleEntry → Option SkillLifecycleEntry
disabled_entry e = some (record e { status = disabled })

unfoldable pub disable : String → SkillLifecycleManager → SkillLifecycleManager × Bool
disable id s = change id disabled_entry s (get id s.skills)

abbrev pub enabled_entry : SkillLifecycleEntry → Option SkillLifecycleEntry
enabled_entry e = elim e.status [ expired ↦ none | _ ↦ some (record e { status = active }) ]

unfoldable pub enable : String → SkillLifecycleManager → SkillLifecycleManager × Bool
enable id s = change id enabled_entry s (get id s.skills)

abbrev pub is_over : ℕ → Option ℕ → Bool
is_over now none = false
is_over now (some t) = ltb t now

abbrev pub last_activity : SkillLifecycleEntry → ℕ
last_activity e = or_default e.installed_at e.last_used_at

abbrev pub is_unused : ℕ → ℕ → SkillLifecycleEntry → Bool
is_unused now unused_days e = ltb (unused_days * day) (now - last_activity e)

-- One turn of the loop of `gc`, none where the entry is deleted.
abbrev pub judge : ℕ → ℕ → SkillLifecycleEntry → SkillStatus → Option SkillLifecycleEntry
judge now unused_days e active =
    if is_over now e.expires_at then some (record e { status = expired }) else some e
judge now unused_days e _ =
    if is_over now e.expires_at then none else if is_unused now unused_days e then none else some e

abbrev pub keep_judged :
    String → Option SkillLifecycleEntry → Dict SkillLifecycleEntry → Dict SkillLifecycleEntry
keep_judged id none rest = rest
keep_judged id (some e) rest = (id, e) ∷ rest

unfoldable pub collect : ℕ → ℕ → Dict SkillLifecycleEntry → Dict SkillLifecycleEntry
collect now unused_days [] = []
collect now unused_days ((id, e) ∷ rest) =
    keep_judged id (judge now unused_days e e.status) (collect now unused_days rest)

-- With the number of entries that are removed.
unfoldable pub gc : ℕ → Option ℕ → SkillLifecycleManager → SkillLifecycleManager × ℕ
gc now unused_days s =
    let left = collect now (or_default 30 unused_days) s.skills in
    (record s { skills = left }, size s.skills - size left)

unfoldable pub list_skills : SkillLifecycleManager → List SkillLifecycleEntry
list_skills s = values s.skills

unfoldable pub get_skill : String → SkillLifecycleManager → Option SkillLifecycleEntry
get_skill id s = get id s.skills
