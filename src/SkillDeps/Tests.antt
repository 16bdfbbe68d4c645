-- ===== src/SkillDeps/Tests.antt =====
-- Skills with a shared dependency, a cycle, and a dependency on a version.
use thinklocal_mcp.Base.{◌≡◌, ◌≢◌, ◌↔◌, refl, true, none, String, List, [], ◌∷◌, All}
use thinklocal_mcp.Base.Dict.{Dict, get, size}
use thinklocal_mcp.Base.Text.{codes}
use thinklocal_mcp.Tiers.{Capability, healthy}
use thinklocal_mcp.SkillDeps.{
  SkillDependency, check_dependencies, each, visit, ordered, null, exhausted, resolve_install_order,
}
use thinklocal_mcp.SkillDeps.Walks.{HasCycle}
use thinklocal_mcp.SkillDeps.Order.{IsInstallOrder, order_returns, order-IsInstallOrder, cyclic_iff}
use thinklocal_mcp.SkillDeps.Check.{IsMet, satisfied_iff}

abbrev skills : Dict (List String)
skills = ("a", "b" ∷ "c" ∷ []) ∷ ("b", "c" ∷ []) ∷ []

abbrev circle : Dict (List String)
circle = ("a", "b" ∷ []) ∷ ("b", "a" ∷ []) ∷ []

sorted : resolve_install_order skills ≡ ordered ("c" ∷ "b" ∷ "a" ∷ [])
unfolding resolve_install_order visit each get size
sorted = refl

refused : resolve_install_order circle ≡ null
unfolding resolve_install_order visit each get size
refused = refl

order_returns_example : resolve_install_order circle ≢ exhausted
order_returns_example = order_returns circle

order-IsInstallOrder_example : IsInstallOrder skills ("c" ∷ "b" ∷ "a" ∷ [])
order-IsInstallOrder_example = order-IsInstallOrder skills ("c" ∷ "b" ∷ "a" ∷ []) sorted

cyclic_iff_example : (resolve_install_order circle ≡ null) ↔ HasCycle circle
cyclic_iff_example = cyclic_iff circle

abbrev need : SkillDependency
need = record { skill_id = codes "db"; version_range = codes "^1.0.0"; optional = none }

abbrev database : Capability
database = record {
  skill_id = codes "db";
  version = codes "1.2.0";
  description = [];
  agent_id = codes "b";
  health = healthy;
  trust_level = none;
  updated_at = 1;
  category = [];
  permissions = [];
}

satisfied_iff_example :
    ((check_dependencies (λ t. none) (need ∷ []) (database ∷ [])).satisfied ≡ true)
    ↔ All (IsMet (λ t. none) (database ∷ [])) (need ∷ [])
satisfied_iff_example = satisfied_iff (λ t. none) (database ∷ []) (need ∷ [])
