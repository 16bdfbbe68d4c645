-- ===== src/RateLimit.antt =====
-- packages/daemon/src/ratelimit.ts: a token bucket for each peer. The clock is an argument, and the
-- five-minute timer is the caller of `cleanup`. Rates are whole numbers, and tokens are counted in
-- thousandths, so that a refill over milliseconds is exact. The source adds doubles, which round: a
-- sum of refills can fall a little short of the exact one, and a request that comes just when the exact
-- sum reaches a whole token can be refused there and pass here. The bound below does not
-- depend on this, what happens at that very moment does. Rates with a fraction are not modelled.
pub mod Bucket
pub mod Limits
pub mod Rate
mod Tests
use thinklocal_mcp.Base.{
  ℕ, ◌+◌, ◌-◌, ◌*◌, ◌/◌, min, String, Bool, true, false, not, Option, none, some, List, [], ◌∷◌,
  if◌then◌else◌, ltb, leb,
}
use thinklocal_mcp.Base.Dict.{Dict, get, set, delete, keep}

-- `max_tokens` in whole tokens, `refill_rate` in tokens per second: thousandths per millisecond.
pub record RateLimitConfig : Type 0 where
  pub max_tokens : ℕ
  pub refill_rate : ℕ

pub record BucketState : Type 0 where
  pub tokens : ℕ
  pub last_refill : ℕ

abbrev pub default_config : RateLimitConfig
default_config = record { max_tokens = 20; refill_rate = 2 }

abbrev pub Buckets : Type 0
Buckets = Dict BucketState

abbrev pub full : RateLimitConfig → ℕ
full c = 1000 * c.max_tokens

abbrev pub bucket_or_new : RateLimitConfig → ℕ → Option BucketState → BucketState
bucket_or_new c now none = record { tokens = full c; last_refill = now }
bucket_or_new c now (some b) = b

-- A clock that went back refills nothing.
unfoldable pub refill : RateLimitConfig → ℕ → BucketState → BucketState
refill c now b =
    let new_tokens = (now - b.last_refill) * c.refill_rate in
    if ltb 0 new_tokens
    then record { tokens = min (full c) (b.tokens + new_tokens); last_refill = now }
    else b

abbrev pub spend : String → BucketState → Buckets → Buckets × Bool
spend peer_id b bs =
    if leb 1000 b.tokens
    then (set peer_id (record b { tokens = b.tokens - 1000 }) bs, true)
    else (set peer_id b bs, false)

unfoldable pub allow : RateLimitConfig → String → ℕ → Buckets → Buckets × Bool
allow c peer_id now bs = spend peer_id (refill c now (bucket_or_new c now (get peer_id bs))) bs

abbrev pub remaining_of : RateLimitConfig → String → ℕ → Buckets → Option BucketState → Buckets × ℕ
remaining_of c peer_id now bs none = (bs, c.max_tokens)
remaining_of c peer_id now bs (some b) =
    (set peer_id (refill c now b) bs, (refill c now b).tokens / 1000)

unfoldable pub remaining : RateLimitConfig → String → ℕ → Buckets → Buckets × ℕ
remaining c peer_id now bs = remaining_of c peer_id now bs (get peer_id bs)

pub remove_peer : String → Buckets → Buckets
remove_peer peer_id bs = delete peer_id bs

-- The cutoff is `now - 10 * 60_000`.
unfoldable pub cleanup : ℕ → Buckets → Buckets
cleanup now bs = keep (λ peer_id b. not (ltb (b.last_refill + 600000) now)) bs
