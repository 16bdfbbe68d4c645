-- ===== src/Agents/Limits.antt =====
-- The bound and the keys of agent-registry.ts.
use thinklocal_mcp.Base.{
  ℕ, suc, not, ◌≤◌, ◌≡◌, refl, String, Option, none, some, List, [], ◌∷◌, arith, leb, Bool-cases,
  inl, inr,
}
use thinklocal_mcp.Base.Dict.{
  Dict, get, set, size, size-set, size-delete-le, size-keep-le, IsUnique, set-IsUnique,
  delete-IsUnique, keep-IsUnique,
}
use thinklocal_mcp.Agents.{
  AgentRegistryEntry, AgentRegistry, RegisterInput, register_agent, registered, heartbeat, heard,
  refreshed, fresh_entry, is_stale, threshold, unregister_agent, gone, sweep,
}

-- The calls that change a registry.
pub data Event : Type 0 where
  registers : (now : ℕ) → RegisterInput → Event
  beats : (now : ℕ) → String → Event
  unregisters : String → Event
  sweeps : (now : ℕ) → Event

unfoldable pub step : AgentRegistry → Event → AgentRegistry
step s (registers now input) = (register_agent now input s).0
step s (beats now id) = (heartbeat now id s).0
step s (unregisters id) = (unregister_agent id s).0
step s (sweeps now) = (sweep now s).0

unfoldable pub steps : AgentRegistry → List Event → AgentRegistry
steps s [] = s
steps s (e ∷ es) = steps (step s e) es

pub record IsSound (s : AgentRegistry) : Type 0 where
  pub bounded : size s.entries ≤ s.max_entries
  pub unique : IsUnique s.entries

refresh_size :
    (id : String) (e : AgentRegistryEntry) (d : Dict AgentRegistryEntry) (old : AgentRegistryEntry)
    → get id d ≡ some old
    → size (set id e d) ≡ size d
refresh_size id e d old h = rw (size-set id e d, h) refl

added_size :
    (id : String) (e : AgentRegistryEntry) (d : Dict AgentRegistryEntry)
    → get id d ≡ none
    → size (set id e d) ≡ suc (size d)
added_size id e d h = rw (size-set id e d, h) refl

registered-IsSound :
    (now : ℕ) (input : RegisterInput) (s : AgentRegistry) (o : Option AgentRegistryEntry)
    → get input.instance_id s.entries ≡ o
    → IsSound s
    → IsSound (registered now input s o).0
registered-IsSound now input s (some e) g h = record {
  bounded = omega (arith, h.bounded, refresh_size input.instance_id _ s.entries e g);
  unique = set-IsUnique input.instance_id _ s.entries h.unique;
}
registered-IsSound now input s none g h = elim (Bool-cases (leb s.max_entries (size s.entries))) [
  | inl full ↦ rw full h
  | inr room ↦
      let fits : suc (size s.entries) ≤ s.max_entries = ground arith in
      rw room (record {
        bounded =
            omega (arith, fits, added_size input.instance_id (fresh_entry now input) s.entries g);
        unique = set-IsUnique input.instance_id _ s.entries h.unique;
      })
]

heard-IsSound :
    (now : ℕ) (id : String) (s : AgentRegistry) (o : Option AgentRegistryEntry)
    → get id s.entries ≡ o
    → IsSound s
    → IsSound (heard now id s o).0
heard-IsSound now id s none g h = h
heard-IsSound now id s (some e) g h = record {
  bounded = omega (arith, h.bounded, refresh_size id (refreshed now e) s.entries e g);
  unique = set-IsUnique id _ s.entries h.unique;
}

gone-IsSound :
    (id : String) (s : AgentRegistry) (o : Option AgentRegistryEntry)
    → IsSound s
    → IsSound (gone id s o).0
gone-IsSound id s none h = h
gone-IsSound id s (some e) h = record {
  bounded = omega (arith, h.bounded, size-delete-le id s.entries);
  unique = delete-IsUnique id s.entries h.unique;
}

pub step-IsSound : (s : AgentRegistry) (e : Event) → IsSound s → IsSound (step s e)
unfolding step register_agent heartbeat unregister_agent sweep
step-IsSound s (registers now input) h = registered-IsSound now input s _ refl h
step-IsSound s (beats now id) h = heard-IsSound now id s _ refl h
step-IsSound s (unregisters id) h = gone-IsSound id s (get id s.entries) h
step-IsSound s (sweeps now) h = record {
  bounded =
      omega (arith, h.bounded, size-keep-le (λ id e. not (is_stale (threshold s) now e)) s.entries);
  unique = keep-IsUnique _ s.entries h.unique;
}

-- After any registrations, heartbeats, departures and sweeps the registry holds at most `max_entries`
-- instances, each under one key.
pub bound_holds : (s : AgentRegistry) (es : List Event) → IsSound s → IsSound (steps s es)
unfolding steps
bound_holds s [] h = h
bound_holds s (e ∷ es) h = bound_holds (step s e) es (step-IsSound s e h)
