-- ===== src/Agents/Tests.antt =====
-- One agent that beats once, and sweeps before and after its time.
use thinklocal_mcp.Base.{◌≡◌, refl, none, String, List, [], ◌∷◌, map, arith}
use thinklocal_mcp.Base.Dict.{get, set, delete, keep, size}
use thinklocal_mcp.Agents.{
  AgentRegistry, RegisterInput, register_agent, heartbeat, unregister_agent, sweep, get_agent,
  threshold, list_agents,
}
use thinklocal_mcp.Agents.Limits.{
  Event, registers, beats, unregisters, sweeps, step, steps, IsSound, bound_holds,
}
use thinklocal_mcp.Agents.Alive.{Since, AllInTime, heard_stays}

abbrev empty : AgentRegistry
empty = record {
  entries = [];
  heartbeat_interval_ms = 10;
  stale_factor = 3;
  max_entries = 1;
  emitted = [];
}

abbrev agent : String → RegisterInput
agent id = record {
  instance_id = id;
  agent_type = "codex";
  spiffe_uri = "u";
  pid = none;
  cli_version = none;
}

runs : Unit {0}
unfolding steps step register_agent heartbeat unregister_agent sweep get set delete keep size
    get_agent list_agents
runs = tt

-- The second registration finds the registry full.
full_then_stale :
    (map
        (λ e. e.instance_id)
        (list_agents
          (steps empty (registers 0 (agent "a") ∷ registers 1 (agent "b") ∷ sweeps 30 ∷ [])))
      ≡ "a" ∷ [])
    × (list_agents (steps empty (registers 0 (agent "a") ∷ sweeps 31 ∷ [])) ≡ [])
unfolding runs
full_then_stale = (refl, refl)

empty-IsSound : IsSound empty
unfolding size
empty-IsSound = record { bounded = omega arith; unique = tt }

abbrev history : List Event
history = registers 0 (agent "a") ∷ beats 5 "a" ∷ []

abbrev later : List Event
later = sweeps 35 ∷ unregisters "b" ∷ []

later-AllInTime : AllInTime "a" 5 30 later
later-AllInTime = (omega arith, (refl, tt))

heard_before : Since 5 (get_agent "a" (steps empty history))
unfolding runs
heard_before = omega arith

same_threshold : threshold (steps empty history) ≡ 30
unfolding runs
same_threshold = refl

heard_stays_example : Since 5 (get_agent "a" (steps (steps empty history) later))
heard_stays_example =
    heard_stays "a" 5 (steps empty history) later (bound_holds empty history empty-IsSound)
      (rw same_threshold later-AllInTime) heard_before
