-- ===== src/RateLimit/Tests.antt =====
-- A limiter of two requests, one more each second.
use thinklocal_mcp.Base.{ℕ, ◌+◌, ◌-◌, ◌*◌, ◌≤◌, ◌≡◌, refl, List, [], ◌∷◌, arith}
use thinklocal_mcp.Base.Dict.{get, set, keep}
use thinklocal_mcp.RateLimit.{RateLimitConfig, allow, cleanup, refill}
use thinklocal_mcp.RateLimit.Limits.{Event, request, sweeps, step, passed, IsSound}
use thinklocal_mcp.RateLimit.Rate.{passed_at_rate}

abbrev slow : RateLimitConfig
slow = record { max_tokens = 2; refill_rate = 1 }

abbrev history : List (ℕ × Event)
history =
    (100, request "a")
    ∷ (100, request "a")
    ∷ (150, request "a")
    ∷ (200, request "b")
    ∷ (1200, request "a")
    ∷ (700000, sweeps)
    ∷ (700001, request "a")
    ∷ []

passed_a : passed slow "a" history [] ≡ 4
unfolding passed step allow refill cleanup get set keep
passed_a = refl

empty-IsSound : IsSound slow 0 []
unfolding get
empty-IsSound = record { unique = tt; sane = λ k. tt }

passed_at_rate_example : 1000 * passed slow "a" history [] ≤ 1000 * 2 + (700001 - 0) * 1
passed_at_rate_example =
    passed_at_rate slow "a" 0 700001 history [] (omega arith) empty-IsSound (ground arith)
