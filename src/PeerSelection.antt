-- ===== src/PeerSelection.antt =====
-- packages/daemon/src/peer-selection.ts: the least loaded of the peers that have a skill. A load is its
-- place in the order of the finite numbers, none where it is no finite number. The id of an agent is
-- a URI, so it is none of the names that every object inherits.
pub mod Least
mod Tests
use Prim.Native.Nat.{compare, Ordering}
use thinklocal_mcp.Base.{
  ℕ, String, Bool, true, false, not, Option, none, some, List, [], ◌∷◌, ◌++◌, if◌then◌else◌, any,
  filter, str_eq, is_truthy, is_some,
}
use thinklocal_mcp.Base.Dict.{Dict, get, set, has}
use thinklocal_mcp.Semver.{then_by, is_greater}

pub record PeerLoad : Type 0 where
  pub ram_used_percent : ℕ
  pub cpu_load : ℕ
  pub agent_count : ℕ

pub record Resources : Type 0 where
  pub ram_used_percent : Option ℕ
  pub cpu_load : Option ℕ
  pub agent_count : Option ℕ

pub record PeerEntry : Type 0 where
  pub agent_id : String
  pub resources : Option Resources

pub data Reason : Type 0 where
  explicit no_data : Reason
  least_loaded : PeerLoad → Reason

pub record LeastLoadedResult : Type 0 where
  pub agent_id : String
  pub reason : Reason
  pub by_load : Bool

abbrev pub loads : Option ℕ → Option ℕ → Option ℕ → Option PeerLoad
loads (some ram) (some cpu) (some agents) =
    some (record { ram_used_percent = ram; cpu_load = cpu; agent_count = agents })
loads _ _ _ = none

abbrev pub load_of : Option Resources → Option PeerLoad
load_of none = none
load_of (some r) = loads r.ram_used_percent r.cpu_load r.agent_count

abbrev pub add_load : String → Option PeerLoad → Dict PeerLoad → Dict PeerLoad
add_load id none m = m
add_load id (some l) m = set id l m

-- The loop, with the map so far.
unfoldable pub load_map_from : Dict PeerLoad → List PeerEntry → Dict PeerLoad
load_map_from m [] = m
load_map_from m (p ∷ ps) = load_map_from (add_load p.agent_id (load_of p.resources) m) ps

unfoldable pub build_load_map : List PeerEntry → Dict PeerLoad
build_load_map peers = load_map_from [] peers

unfoldable pub compare_load : PeerLoad → PeerLoad → Ordering
compare_load a b =
    then_by (compare a.ram_used_percent b.ram_used_percent)
      (then_by (compare a.cpu_load b.cpu_load) (compare a.agent_count b.agent_count))

-- A candidate with its load.
pub record Loaded : Type 0 where
  pub id : String
  pub load : PeerLoad

abbrev pub add_loaded : String → Option PeerLoad → List Loaded → List Loaded
add_loaded id none rest = rest
add_loaded id (some l) rest = record { id = id; load = l } ∷ rest

-- `candidateAgentIds.filter((id) => loadByAgent[id] !== undefined)`
unfoldable pub with_data : Dict PeerLoad → List String → List Loaded
with_data m [] = []
with_data m (id ∷ ids) = add_loaded id (get id m) (with_data m ids)

abbrev pub better : Loaded → Loaded → Loaded
better a b = if is_greater (compare_load a.load b.load) then b else a

-- `reduce` from the first.
unfoldable pub best_of : Loaded → List Loaded → Loaded
best_of a [] = a
best_of a (b ∷ bs) = best_of (better a b) bs

abbrev pub first_or_best : String → List Loaded → LeastLoadedResult
first_or_best first [] = record { agent_id = first; reason = no_data; by_load = false }
first_or_best first (a ∷ bs) =
    let best = best_of a bs in
    record { agent_id = best.id; reason = least_loaded best.load; by_load = true }

-- None where it throws.
unfoldable pub pick_least_loaded : List String → Dict PeerLoad → Option LeastLoadedResult
pick_least_loaded [] m = none
pick_least_loaded (id ∷ ids) m = some (first_or_best id (with_data m (id ∷ ids)))

abbrev pub with_self : List PeerEntry → Option PeerEntry → List PeerEntry
with_self peers none = peers
with_self peers (some p) = peers ++ p ∷ []

pub data Choice : Type 0 where
  chosen : LeastLoadedResult → Choice
  null throws : Choice

abbrev choice_of : Option LeastLoadedResult → Choice
choice_of none = throws
choice_of (some r) = chosen r

abbrev by_name : List String → String → Choice
by_name ids target =
    if any (λ id. str_eq id target) ids
    then chosen (record { agent_id = target; reason = explicit; by_load = false })
    else null

abbrev named_or : Option String → List String → Choice → Choice
named_or none ids next = next
named_or (some target) ids next = if is_truthy (some target) then by_name ids target else next

unfoldable pub choose_target_agent :
    List String → List PeerEntry → Option PeerEntry → Option String → Choice
choose_target_agent ids peers own target =
    named_or target ids (choice_of (pick_least_loaded ids (build_load_map (with_self peers own))))
