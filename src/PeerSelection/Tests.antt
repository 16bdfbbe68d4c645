-- ===== src/PeerSelection/Tests.antt =====
-- Three candidates: one without data, one busy and one idle.
use thinklocal_mcp.Base.{◌≡◌, refl, ℕ, Option, true, none, some, String, List, [], ◌∷◌}
use thinklocal_mcp.Base.Dict.{get, set}
use thinklocal_mcp.PeerSelection.{
  PeerEntry, LeastLoadedResult, least_loaded, load_map_from, build_load_map, compare_load,
  with_data, best_of, pick_least_loaded, choose_target_agent, null,
}
use thinklocal_mcp.PeerSelection.Least.{IsLeast, picked-IsLeast}

abbrev peer : String → Option ℕ → PeerEntry
peer id ram = record {
  agent_id = id;
  resources = some (record { ram_used_percent = ram; cpu_load = some 1; agent_count = some 2 });
}

abbrev peers : List PeerEntry
peers = peer "a" none ∷ peer "b" (some 90) ∷ peer "c" (some 10) ∷ []

abbrev candidates : List String
candidates = "a" ∷ "b" ∷ "c" ∷ []

abbrev idle : LeastLoadedResult
idle = record {
  agent_id = "c";
  reason = least_loaded (record { ram_used_percent = 10; cpu_load = 1; agent_count = 2 });
  by_load = true;
}

picks : pick_least_loaded candidates (build_load_map peers) ≡ some idle
unfolding pick_least_loaded build_load_map load_map_from with_data best_of compare_load get set
picks = refl

unknown_target : choose_target_agent candidates peers none (some "d") ≡ null
unfolding choose_target_agent
unknown_target = refl

picked-IsLeast_example : IsLeast "a" candidates (build_load_map peers) idle
picked-IsLeast_example = picked-IsLeast "a" ("b" ∷ "c" ∷ []) (build_load_map peers) idle picks
