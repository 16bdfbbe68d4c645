-- ===== src/Breaker/Frame.antt =====
-- The map of circuits of circuit-breaker.ts under calls of its public operations on any skills.
use thinklocal_mcp.Base.{
  ◌≡◌, refl, ◌<◌, String, List, [], ◌∷◌, if◌then◌else◌, str_eq, eq_iff, arith, Bool-cases, inl, inr,
  ap, ◌∙◌,
}
use thinklocal_mcp.Base.Dict.{get-set}
use thinklocal_mcp.Breaker.{
  CircuitBreaker, CircuitEntry, can_execute, record_success, record_failure, reset, get_or_create,
  put,
}
use thinklocal_mcp.Breaker.Circuit.{
  Event, ask, good, bad, manual_reset, step, steps, IsSound, steps-IsSound,
}

-- A call of the breaker's public operations on one skill.
unfoldable pub call : CircuitBreaker → String → Event → CircuitBreaker
call b skill_id (ask now) = (can_execute skill_id now b).0
call b skill_id good = record_success skill_id b
call b skill_id (bad now) = record_failure skill_id now b
call b skill_id manual_reset = reset skill_id b

unfoldable pub calls : CircuitBreaker → List (String × Event) → CircuitBreaker
calls b [] = b
calls b ((skill_id, e) ∷ es) = calls (call b skill_id e) es

-- The events of one skill.
unfoldable pub project : String → List (String × Event) → List Event
project j [] = []
project j ((k, e) ∷ es) = if str_eq k j then e ∷ project j es else project j es

get_or_create-put :
    (k j : String) (c : CircuitEntry) (b : CircuitBreaker)
    → get_or_create j (put k c b) ≡ (if str_eq k j then c else get_or_create j b)
unfolding get_or_create put
get_or_create-put k j c b = ground (arith, get-set k j c b.circuits)

abbrev SameConfig : CircuitBreaker → CircuitBreaker → Type 0
SameConfig a b =
    (a.failure_threshold ≡ b.failure_threshold) × (a.reset_timeout_ms ≡ b.reset_timeout_ms)

call-SameConfig : (b : CircuitBreaker) (k : String) (e : Event) → SameConfig (call b k e) b
unfolding call can_execute record_success record_failure reset put
call-SameConfig b k (ask now) = (refl, refl)
call-SameConfig b k good = (refl, refl)
call-SameConfig b k (bad now) = (refl, refl)
call-SameConfig b k manual_reset = (refl, refl)

call-is-put :
    (b : CircuitBreaker) (k : String) (e : Event)
    → call b k e ≡ put k (step b.failure_threshold b.reset_timeout_ms (get_or_create k b) e) b
unfolding call can_execute record_success record_failure reset step
call-is-put b k (ask now) = refl
call-is-put b k good = refl
call-is-put b k (bad now) = refl
call-is-put b k manual_reset = refl

get_or_create-call :
    (b : CircuitBreaker) (k j : String) (e : Event)
    → get_or_create j (call b k e) ≡ (
        if str_eq k j
        then step b.failure_threshold b.reset_timeout_ms (get_or_create j b) e
        else get_or_create j b)
get_or_create-call b k j e = elim (Bool-cases (str_eq k j)) [
  | inl same ↦
      rw (call-is-put b k e, get_or_create-put, same)
        (ap (λ (i : String). step b.failure_threshold b.reset_timeout_ms (get_or_create i b) e)
          ((eq_iff k j).0 same))
  | inr other ↦ rw (call-is-put b k e, get_or_create-put, other)
]

-- After any interleaving of calls on many skills, the circuit of each skill is the one that its own
-- calls alone, in their order, make of it.
pub calls-project :
    (b : CircuitBreaker) (j : String) (es : List (String × Event))
    → get_or_create j (calls b es)
      ≡ steps b.failure_threshold b.reset_timeout_ms (get_or_create j b) (project j es)
unfolding calls project steps get_or_create
calls-project b j [] = refl
calls-project b j ((k, e) ∷ es) =
    let (same_threshold, same_timeout) = call-SameConfig b k e in
    calls-project (call b k e) j es
    ∙ rw (same_threshold, same_timeout, get_or_create-call b k j e)
        (elim (Bool-cases (str_eq k j)) [ inl same ↦ rw same | inr other ↦ rw other ])

-- With a threshold of one or more, if the circuit of a skill is sound, it is sound after any sequence of
-- requests, successes, failures and resets of this and of other skills: while it is closed it has
-- fewer consecutive failures than the threshold, and its successes and failures together are no more
-- than its calls.
pub calls-IsSound :
    (b : CircuitBreaker) (j : String) (es : List (String × Event))
    → 0 < b.failure_threshold
    → IsSound b.failure_threshold (get_or_create j b)
    → IsSound b.failure_threshold (get_or_create j (calls b es))
calls-IsSound b j es pos s =
    rw (calls-project b j es) (
      steps-IsSound b.failure_threshold b.reset_timeout_ms (get_or_create j b) (project j es) pos s)
