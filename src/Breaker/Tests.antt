-- ===== src/Breaker/Tests.antt =====
-- Circuits at concrete calls, and the theorems there.
use thinklocal_mcp.Base.{◌≡◌, refl, String, [], ◌∷◌, List, arith}
use thinklocal_mcp.Base.Dict.{get}
use thinklocal_mcp.Breaker.{
  CircuitBreaker, CircuitEntry, open_circuit, half_open, fresh, succeed, fail, get_or_create,
}
use thinklocal_mcp.Breaker.Circuit.{Event, good, bad, step, steps, IsSound}
use thinklocal_mcp.Breaker.Frame.{calls, calls-IsSound}

abbrev tripped : CircuitEntry
tripped = record fresh { state = open_circuit; failures = 5; opened_at = 100; total_calls = 5 }

abbrev probing : CircuitEntry
probing = record tripped { state = half_open }

trip_run : (steps 2 1000 fresh (bad 1 ∷ good ∷ bad 2 ∷ bad 3 ∷ [])).state ≡ open_circuit
unfolding steps step fail succeed
trip_run = refl

abbrev empty : CircuitBreaker
empty = record { circuits = []; failure_threshold = 2; reset_timeout_ms = 1000 }

abbrev mixed : List (String × Event)
mixed = ("a", bad 1) ∷ ("b", bad 2) ∷ ("a", bad 3) ∷ []

unused-IsSound : IsSound 2 (get_or_create "a" empty)
unfolding get_or_create get
unused-IsSound = record { below = λ h. omega arith; counted = omega arith }

calls-IsSound_example : IsSound 2 (get_or_create "a" (calls empty mixed))
calls-IsSound_example = calls-IsSound empty "a" mixed (omega arith) unused-IsSound
