-- ===== src/Agents/Alive.antt =====
-- An agent that is heard in time stays registered in agent-registry.ts.
use thinklocal_mcp.Base.{
  ℕ, ◌+◌, ◌≤◌, ◌≡◌, refl, sym, subst, String, Bool, true, false, not, Option, none, some, List, [],
  ◌∷◌, arith, leb, if◌then◌else◌, Bool-cases, inl, inr, str_eq,
}
use thinklocal_mcp.Base.Dict.{Dict, get, set, size, get-set, get-delete, get-keep, kept}
use thinklocal_mcp.Agents.{
  AgentRegistryEntry, AgentRegistry, RegisterInput, register_agent, registered, heartbeat, heard,
  refreshed, fresh_entry, unregister_agent, gone, sweep, threshold, is_stale, get_agent,
}
use thinklocal_mcp.Agents.Limits.{
  Event, registers, beats, unregisters, sweeps, step, steps, IsSound, step-IsSound,
}

-- An entry that was heard at `t` or later.
abbrev pub Since : ℕ → Option AgentRegistryEntry → Type 0
Since t none = ⊥
Since t (some e) = t ≤ e.last_heartbeat_at

-- The clock has not gone back behind `t`, the instance does not leave, and the sweep is in time.
abbrev pub InTime : String → ℕ → ℕ → Event → Type 0
InTime id t limit (registers now input) = t ≤ now
InTime id t limit (beats now other) = t ≤ now
InTime id t limit (unregisters other) = str_eq other id ≡ false
InTime id t limit (sweeps now) = now ≤ t + limit

set-Since :
    (id other : String) (t : ℕ) (e : AgentRegistryEntry) (d : Dict AgentRegistryEntry)
    → t ≤ e.last_heartbeat_at
    → Since t (get id d)
    → Since t (get id (set other e d))
set-Since id other t e d h s = subst (Since t) (sym (get-set other id e d)) (pick (str_eq other id))
  where
    pick : (b : Bool) → Since t (if b then some e else get id d)
    pick true = h
    pick false = s

registered-Since :
    (id : String) (t now : ℕ) (input : RegisterInput) (s : AgentRegistry)
    (o : Option AgentRegistryEntry)
    → t ≤ now
    → Since t (get id s.entries)
    → Since t (get id (registered now input s o).0.entries)
registered-Since id t now input s (some e) h k =
    set-Since id input.instance_id t (refreshed now e) s.entries h k
registered-Since id t now input s none h k =
    elim (Bool-cases (leb s.max_entries (size s.entries))) [
      | inl full ↦ rw full k
      | inr room ↦ rw room (set-Since id input.instance_id t (fresh_entry now input) s.entries h k)
    ]

heard-Since :
    (id other : String) (t now : ℕ) (s : AgentRegistry) (o : Option AgentRegistryEntry)
    → t ≤ now
    → Since t (get id s.entries)
    → Since t (get id (heard now other s o).0.entries)
heard-Since id other t now s none h k = k
heard-Since id other t now s (some e) h k = set-Since id other t (refreshed now e) s.entries h k

gone-Since :
    (id other : String) (t : ℕ) (s : AgentRegistry) (o : Option AgentRegistryEntry)
    → str_eq other id ≡ false
    → Since t (get id s.entries)
    → Since t (get id (gone other s o).0.entries)
gone-Since id other t s none n k = k
gone-Since id other t s (some e) n k = rw (get-delete other id s.entries, n) k

kept-Since :
    (id : String) (t now limit : ℕ) (o : Option AgentRegistryEntry)
    → now ≤ t + limit
    → Since t o
    → Since t (kept (λ j e. not (is_stale limit now e)) id o)
kept-Since id t now limit none h k = k
kept-Since id t now limit (some e) h k =
    let fresh : is_stale limit now e ≡ false = ground arith in rw fresh k

step-Since :
    (id : String) (t : ℕ) (s : AgentRegistry) (e : Event)
    → IsSound s
    → InTime id t (threshold s) e
    → Since t (get id s.entries)
    → Since t (get id (step s e).entries)
unfolding step register_agent heartbeat unregister_agent sweep
step-Since id t s (registers now input) u h k = registered-Since id t now input s _ h k
step-Since id t s (beats now other) u h k = heard-Since id other t now s _ h k
step-Since id t s (unregisters other) u h k = gone-Since id other t s _ h k
step-Since id t s (sweeps now) u h k =
    rw (get-keep (λ j e. not (is_stale (threshold s) now e)) id s.entries u.unique)
      (kept-Since id t now (threshold s) (get id s.entries) h k)

-- The settings stay.
threshold-step : (s : AgentRegistry) (e : Event) → threshold (step s e) ≡ threshold s
unfolding step register_agent heartbeat unregister_agent sweep
threshold-step s (registers now input) = go (get input.instance_id s.entries)
  where
    go : (o : Option AgentRegistryEntry) → threshold (registered now input s o).0 ≡ threshold s
    go none = elim (Bool-cases (leb s.max_entries (size s.entries))) [
      | inl full ↦ rw full refl
      | inr room ↦ rw room refl
    ]
    go (some e) = refl
threshold-step s (beats now other) = go (get other s.entries)
  where
    go : (o : Option AgentRegistryEntry) → threshold (heard now other s o).0 ≡ threshold s
    go none = refl
    go (some e) = refl
threshold-step s (unregisters other) = go (get other s.entries)
  where
    go : (o : Option AgentRegistryEntry) → threshold (gone other s o).0 ≡ threshold s
    go none = refl
    go (some e) = refl
threshold-step s (sweeps now) = refl

abbrev pub AllInTime : String → ℕ → ℕ → List Event → Type 0
AllInTime id t limit [] = Unit
AllInTime id t limit (e ∷ es) = InTime id t limit e × AllInTime id t limit es

-- An instance that was heard at `t` or later is still registered after any calls, as long as the clock
-- does not fall behind `t`, it does not leave itself, and no sweep runs later than `t` plus the interval
-- times the stale factor.
pub heard_stays :
    (id : String) (t : ℕ) (s : AgentRegistry) (es : List Event)
    → IsSound s
    → AllInTime id t (threshold s) es
    → Since t (get_agent id s)
    → Since t (get_agent id (steps s es))
unfolding get_agent steps
heard_stays id t s [] u h k = k
heard_stays id t s (e ∷ es) u (h, hs) k =
    heard_stays id t (step s e) es (step-IsSound s e u)
      (subst (λ n. AllInTime id t n es) (sym (threshold-step s e)) hs) (step-Since id t s e u h k)
