-- ===== src/SkillLifecycle/Tests.antt =====
-- A skill that is deprecated and then collected.
use thinklocal_mcp.Base.{◌≡◌, ◌≢◌, ◌↔◌, ◌⊎◌, refl, ◌*◌, none, some, [], ◌∷◌}
use thinklocal_mcp.Base.Dict.{get, set, size, IsUnique}
use thinklocal_mcp.SkillLifecycle.{
  SkillLifecycleEntry, SkillLifecycleManager, active, deprecated, new_manager, register, deprecate,
  collect, gc, get_skill, day,
}
use thinklocal_mcp.SkillLifecycle.Collection.{IsPast, IsIdle, removed_iff}

abbrev entry : SkillLifecycleEntry
entry = record {
  skill_id = "a";
  status = deprecated;
  installed_at = 0;
  last_used_at = none;
  usage_count = 0;
  deprecated_at = some 5;
  deprecation_reason = some "old";
  expires_at = some (90 * day);
}

abbrev manager : SkillLifecycleManager
manager = record { skills = ("a", entry) ∷ []; default_expiry_days = 90 }

deprecates : (deprecate 5 "a" "old" (register 0 "a" none (new_manager none))).0 ≡ manager
unfolding deprecate register new_manager get set
deprecates = refl

collects : (gc (31 * day) none manager).1 ≡ 1
unfolding gc collect size
collects = refl

known : get_skill "a" manager ≡ some entry
unfolding get_skill get
known = refl

manager-IsUnique : IsUnique manager.skills
unfolding get
manager-IsUnique = (refl, tt)

removed_iff_example :
    (get_skill "a" (gc (31 * day) none manager).0 ≡ none)
    ↔ ((deprecated ≢ active) × (IsPast (31 * day) (some (90 * day)) ⊎ IsIdle (31 * day) 30 entry))
removed_iff_example = removed_iff (31 * day) none "a" manager entry manager-IsUnique known
