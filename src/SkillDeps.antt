-- ===== src/SkillDeps.antt =====
-- packages/daemon/src/skill-deps.ts: which dependencies of a skill the mesh has, and in which order skills
-- are installed. `number` is the runtime's `Number` on an identifier, as in Semver. The recursion of
-- `visit` runs on fuel: one more than the number of the map's keys.
pub mod Sets
pub mod Walks
pub mod Order
pub mod Check
mod Tests
use thinklocal_mcp.Base.{
  ℕ, zero, suc, String, Bool, true, false, not, Option, none, some, List, [], ◌∷◌, ◌++◌,
  if◌then◌else◌, ◌&&◌, ◌||◌, filter, find, str_eq,
}
use thinklocal_mcp.Base.Dict.{Dict, get, keys, size}
use thinklocal_mcp.Base.Text.{Text, text_eq}
use thinklocal_mcp.Tiers.{Capability, offline}
use thinklocal_mcp.Services.{is_offline}
use thinklocal_mcp.Semver.{satisfies_range}

pub record SkillDependency : Type 0 where
  pub skill_id : Text
  pub version_range : Text
  pub optional : Option Bool

pub data Reason : Type 0 where
  not_available : Reason
  incompatible : (versions : List Text) → Reason

pub record Missing : Type 0 where
  pub skill_id : Text
  pub version_range : Text
  pub reason : Reason

pub record Resolved : Type 0 where
  pub skill_id : Text
  pub version : Text
  pub agent_id : Text

pub record DependencyCheckResult : Type 0 where
  pub satisfied : Bool
  pub missing : List Missing
  pub resolved : List Resolved

abbrev pub is_optional : SkillDependency → Bool
is_optional dep = elim dep.optional [ none ↦ false | some b ↦ b ]

abbrev versions_of : List Capability → List Text
versions_of [] = []
versions_of (c ∷ cs) = c.version ∷ versions_of cs

-- The capabilities of the dependency's skill that are not offline.
abbrev pub is_candidate : SkillDependency → Capability → Bool
is_candidate dep c = text_eq c.skill_id dep.skill_id && not (is_offline c.health)

abbrev pub candidates : SkillDependency → List Capability → List Capability
candidates dep available = filter (is_candidate dep) available

abbrev pub lacking : SkillDependency → Reason → DependencyCheckResult → DependencyCheckResult
lacking dep reason r = if is_optional dep then r else record r {
  missing =
      r.missing
      ++ record { skill_id = dep.skill_id; version_range = dep.version_range; reason = reason }
        ∷ [];
}

abbrev pub matched :
    SkillDependency
    → List Capability
    → Option Capability
    → DependencyCheckResult
    → DependencyCheckResult
matched dep found (some c) r = record r {
  resolved =
      r.resolved
      ++ record { skill_id = c.skill_id; version = c.version; agent_id = c.agent_id } ∷ [];
}
matched dep [] none r = lacking dep not_available r
matched dep (c ∷ cs) none r = lacking dep (incompatible (versions_of (c ∷ cs))) r

abbrev pub none_missing : List Missing → Bool
none_missing [] = true
none_missing (m ∷ ms) = false

module _ (number : Text → Option ℕ) where
  -- One turn of the loop: without a candidate there is no match either.
  abbrev pub check_one :
      List Capability → SkillDependency → DependencyCheckResult → DependencyCheckResult
  check_one available dep r =
      let found = candidates dep available in
      matched dep found (find (λ c. satisfies_range number c.version dep.version_range) found) r

  unfoldable pub check_all :
      List Capability → List SkillDependency → DependencyCheckResult → DependencyCheckResult
  check_all available [] r = r
  check_all available (dep ∷ deps) r = check_all available deps (check_one available dep r)

  unfoldable pub closed : DependencyCheckResult → DependencyCheckResult
  closed r = record r { satisfied = none_missing r.missing }

  unfoldable pub check_dependencies : List SkillDependency → List Capability → DependencyCheckResult
  unfolding closed
  check_dependencies dependencies available =
      closed (
        check_all available dependencies (record { satisfied = true; missing = []; resolved = [] }))

-- The sets and the list that `visit` changes; of the sets only membership counts.
pub record Walk : Type 0 where
  pub visited : List String
  pub visiting : List String
  pub order : List String

pub data Visit : Type 0 where
  done : Walk → Visit
  cycle out_of_fuel : Visit

abbrev pub elem : String → List String → Bool
elem k [] = false
elem k (x ∷ xs) = str_eq x k || elem k xs

abbrev pub remove : String → List String → List String
remove k [] = []
remove k (x ∷ xs) = if str_eq x k then remove k xs else x ∷ remove k xs

abbrev pub or_empty : Option (List String) → List String
or_empty none = []
or_empty (some ds) = ds

abbrev pub deps_of : Dict (List String) → String → List String
deps_of m id = or_empty (get id m)

abbrev pub entered : String → Walk → Walk
entered id w = record w { visiting = id ∷ w.visiting }

abbrev pub left : String → Walk → Walk
left id w = record {
  visited = w.visited ++ id ∷ [];
  visiting = remove id w.visiting;
  order = w.order ++ id ∷ [];
}

infixl 20 ◌>>=◌
abbrev pub ◌>>=◌ : Visit → (Walk → Visit) → Visit
done w >>= f = f w
cycle >>= f = cycle
out_of_fuel >>= f = out_of_fuel

-- The loop, up to the first `false`.
unfoldable pub each : (String → Walk → Visit) → List String → Walk → Visit
each f [] w = done w
each f (d ∷ ds) w = f d w >>= each f ds

abbrev pub guarded : String → Walk → Visit → Visit
guarded id w next = if elem id w.visited then done w else if elem id w.visiting then cycle else next

unfoldable pub visit : Dict (List String) → ℕ → String → Walk → Visit
unfolding each
visit m zero id w = guarded id w out_of_fuel
visit m (suc fuel) id w =
    guarded id w (each (visit m fuel) (deps_of m id) (entered id w) >>= λ v. done (left id v))

pub data InstallOrder : Type 0 where
  ordered : List String → InstallOrder
  null exhausted : InstallOrder

abbrev pub order_of : Visit → InstallOrder
order_of (done w) = ordered w.order
order_of cycle = null
order_of out_of_fuel = exhausted

abbrev pub start : Walk
start = record { visited = []; visiting = []; order = [] }

unfoldable pub resolve_install_order : Dict (List String) → InstallOrder
resolve_install_order m = order_of (each (visit m (suc (size m))) (keys m) start)
