-- ===== src/Agents.antt =====
-- packages/daemon/src/agent-registry.ts: the agent instances that keep themselves alive by heartbeats.
-- The clock's reading is an argument; what listeners are told is the list `emitted`; the timer of `start`
-- and `stop` is whoever calls `sweep`. A stale factor is a whole number of intervals.
pub mod Limits
pub mod Alive
mod Tests
use thinklocal_mcp.Base.{
  ℕ, ◌-◌, ◌*◌, String, Bool, true, false, not, Option, none, some, List, [], ◌∷◌, ◌++◌,
  if◌then◌else◌, ltb, leb, map, filter,
}
use thinklocal_mcp.Base.Dict.{Dict, get, set, delete, keep, size, values}

pub record AgentRegistryEntry : Type 0 where
  pub instance_id : String
  pub agent_type : String
  pub spiffe_uri : String
  pub pid : Option ℕ
  pub cli_version : Option String
  pub registered_at : ℕ
  pub last_heartbeat_at : ℕ

pub data Reason : Type 0 where
  register unregister stale : Reason

pub record Emitted : Type 0 where
  pub reason : Reason
  pub entry : AgentRegistryEntry

pub record AgentRegistry : Type 0 where
  pub entries : Dict AgentRegistryEntry
  pub heartbeat_interval_ms : ℕ
  pub stale_factor : ℕ
  pub max_entries : ℕ
  pub emitted : List Emitted

pub record RegisterInput : Type 0 where
  pub instance_id : String
  pub agent_type : String
  pub spiffe_uri : String
  pub pid : Option ℕ
  pub cli_version : Option String

abbrev or_default : ℕ → Option ℕ → ℕ
or_default d none = d
or_default d (some n) = n

abbrev checked : ℕ → ℕ → ℕ → Option AgentRegistry
checked interval factor most =
    if leb interval 0
    then none
    else if ltb factor 1
    then none
    else if ltb most 1
    then none
    else some (record {
      entries = [];
      heartbeat_interval_ms = interval;
      stale_factor = factor;
      max_entries = most;
      emitted = [];
    })

-- The constructor, none where it throws a RangeError.
unfoldable pub new_registry :
    (heartbeat_interval_ms : ℕ) (stale_factor max_entries : Option ℕ) → Option AgentRegistry
new_registry interval factor most = checked interval (or_default 3 factor) (or_default 1000 most)

abbrev pub emit : Reason → AgentRegistryEntry → AgentRegistry → AgentRegistry
emit reason entry s = record s {
  emitted = s.emitted ++ record { reason = reason; entry = entry } ∷ [];
}

abbrev pub refreshed : ℕ → AgentRegistryEntry → AgentRegistryEntry
refreshed now e = record e { last_heartbeat_at = now }

abbrev pub fresh_entry : ℕ → RegisterInput → AgentRegistryEntry
fresh_entry now input = record {
  instance_id = input.instance_id;
  agent_type = input.agent_type;
  spiffe_uri = input.spiffe_uri;
  pid = input.pid;
  cli_version = input.cli_version;
  registered_at = now;
  last_heartbeat_at = now;
}

abbrev pub put : AgentRegistryEntry → AgentRegistry → AgentRegistry
put e s = record s { entries = set e.instance_id e s.entries }

abbrev pub refresh :
    ℕ → String → AgentRegistryEntry → AgentRegistry → AgentRegistry × Option AgentRegistryEntry
refresh now id e s =
    (record s { entries = set id (refreshed now e) s.entries }, some (refreshed now e))

abbrev pub registered :
    ℕ
    → RegisterInput
    → AgentRegistry
    → Option AgentRegistryEntry
    → AgentRegistry × Option AgentRegistryEntry
registered now input s (some existing) = refresh now input.instance_id existing s
registered now input s none = if leb s.max_entries (size s.entries) then (s, none) else (
  emit register (fresh_entry now input) (put (fresh_entry now input) s),
  some (fresh_entry now input),
)

-- With the entry, or none where it throws an AgentRegistryFullError.
unfoldable pub register_agent :
    ℕ → RegisterInput → AgentRegistry → AgentRegistry × Option AgentRegistryEntry
register_agent now input s = registered now input s (get input.instance_id s.entries)

abbrev pub heard :
    ℕ
    → String
    → AgentRegistry
    → Option AgentRegistryEntry
    → AgentRegistry × Option AgentRegistryEntry
heard now id s none = (s, none)
heard now id s (some e) = refresh now id e s

unfoldable pub heartbeat : ℕ → String → AgentRegistry → AgentRegistry × Option AgentRegistryEntry
heartbeat now id s = heard now id s (get id s.entries)

abbrev pub gone :
    String → AgentRegistry → Option AgentRegistryEntry → AgentRegistry × Option AgentRegistryEntry
gone id s none = (s, none)
gone id s (some e) = (emit unregister e (record s { entries = delete id s.entries }), some e)

unfoldable pub unregister_agent : String → AgentRegistry → AgentRegistry × Option AgentRegistryEntry
unregister_agent id s = gone id s (get id s.entries)

abbrev pub threshold : AgentRegistry → ℕ
threshold s = s.heartbeat_interval_ms * s.stale_factor

abbrev pub is_stale : ℕ → ℕ → AgentRegistryEntry → Bool
is_stale limit now e = ltb limit (now - e.last_heartbeat_at)

abbrev pub stale_event : AgentRegistryEntry → Emitted
stale_event e = record { reason = stale; entry = e }

-- With the entries that are evicted.
unfoldable pub sweep : ℕ → AgentRegistry → AgentRegistry × List AgentRegistryEntry
sweep now s =
    let evicted = filter (is_stale (threshold s) now) (values s.entries) in
    (
      record s {
        entries = keep (λ id e. not (is_stale (threshold s) now e)) s.entries;
        emitted = s.emitted ++ map stale_event evicted;
      },
      evicted,
    )

unfoldable pub get_agent : String → AgentRegistry → Option AgentRegistryEntry
get_agent id s = get id s.entries

unfoldable pub list_agents : AgentRegistry → List AgentRegistryEntry
list_agents s = values s.entries
