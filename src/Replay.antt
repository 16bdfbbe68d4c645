-- ===== src/Replay.antt =====
-- packages/daemon/src/replay.ts, the cache of seen messages, and the checks that a signed message
-- passes in packages/daemon/src/messages.ts and agent-card.ts before it is delivered. The interval timer is the caller that
-- runs `cleanup`; `Date.now()` is the argument `now`.
pub mod Window
mod Tests
use Prim.Native.String
use thinklocal_mcp.Base.{
  ℕ, ◌+◌, String, Bool, true, false, Option, none, some, if◌then◌else◌, ltb, not, ◌&&◌,
}
use thinklocal_mcp.Base.Dict.{Dict, get, set, keep}

pub record ReplayGuard : Type 0 where
  pub seen : Dict ℕ

-- `${sender}:${idempotencyKey}`
unfoldable pub replay_key : String → String → String
replay_key sender idempotency_key = String.◌++◌ sender (String.◌++◌ ":" idempotency_key)

-- `seenAt !== undefined && now - seenAt < ttlMs`
abbrev pub within_ttl : Option ℕ → ℕ → ℕ → Bool
within_ttl none now ttl = false
within_ttl (some seen_at) now ttl = ltb now (seen_at + ttl)

unfoldable pub is_replay : String → String → ℕ → ℕ → ReplayGuard → ReplayGuard × Bool
is_replay sender idempotency_key ttl now g =
    let key = replay_key sender idempotency_key in
    if within_ttl (get key g.seen) now ttl
    then (g, true)
    else (record g { seen = set key now g.seen }, false)

abbrev pub retention : ℕ
retention = 120000

-- Deletes the entries with `timestamp < now - 120_000`.
unfoldable pub cleanup : ℕ → ReplayGuard → ReplayGuard
cleanup now g = record {
  seen = keep (λ key timestamp. not (ltb (timestamp + retention) now)) g.seen;
}

-- The lifetime test of `decodeAndVerify`, messages.ts. `created` is none for a timestamp that cannot be
-- read: its time is NaN, which no age test finds too old.
unfoldable pub is_alive : (ttl : ℕ) (created : Option ℕ) (now : ℕ) → Bool
is_alive ttl none now = true
is_alive ttl (some created) now = not (ltb 0 ttl && ltb (created + ttl) now)

pub data Intake : Type 0 where
  forbidden duplicate delivered : Intake

abbrev judge : ReplayGuard × Bool → ReplayGuard × Intake
judge (g, replayed) = (g, if replayed then duplicate else delivered)

-- The part of the message handler of agent-card.ts from the verification on: `signed` says whether
-- the signature holds, which the crypto library decides.
unfoldable pub receive :
    (signed : Bool) (sender idempotency_key : String) (ttl : ℕ) (created : Option ℕ) (now : ℕ)
    → ReplayGuard
    → ReplayGuard × Intake
receive signed sender idempotency_key ttl created now g =
    if signed && is_alive ttl created now
    then judge (is_replay sender idempotency_key ttl now g)
    else (g, forbidden)
