-- ===== src/RateLimit/Limits.antt =====
-- The buckets of ratelimit.ts over a history of requests, queries and clean-ups, and that they stay
-- sound: no peer twice, no bucket over-full, none refilled in the future.
use thinklocal_mcp.Base.{
  ℕ, ◌+◌, ◌≤◌, String, Bool, not, Option, none, some, List, [], ◌∷◌, arith, if◌then◌else◌, ltb, leb,
  str_eq, Bool-cases, Option-cases, inl, inr, subst,
}
use thinklocal_mcp.Base.Dict.{
  get, set, kept, get-set, get-keep, IsUnique, set-IsUnique, keep-IsUnique,
}
use thinklocal_mcp.RateLimit.{
  RateLimitConfig, BucketState, Buckets, full, refill, allow, remaining, cleanup,
}
use thinklocal_mcp.RateLimit.Bucket.{IsSane, level-le, seen, seen_tokens, seen_last}

pub data Event : Type 0 where
  request : (peer_id : String) → Event
  asks : (peer_id : String) → Event
  sweeps : Event

unfoldable pub step : RateLimitConfig → ℕ → Event → Buckets → Buckets
step c now (request p) bs = (allow c p now bs).0
step c now (asks p) bs = (remaining c p now bs).0
step c now sweeps bs = cleanup now bs

-- Whether the event is a request of the peer that passes.
abbrev pub passes : RateLimitConfig → String → ℕ → Event → Buckets → ℕ
passes c k now (request p) bs = if str_eq p k then (if (allow c p now bs).1 then 1 else 0) else 0
passes c k now (asks p) bs = 0
passes c k now sweeps bs = 0

-- The requests of the peer that pass in a history of events with their times.
unfoldable pub passed : RateLimitConfig → String → List (ℕ × Event) → Buckets → ℕ
passed c k [] bs = 0
passed c k ((now, e) ∷ es) bs = passes c k now e bs + passed c k es (step c now e bs)

-- The times do not go back, and end at `last`.
abbrev pub IsTimed : ℕ → List (ℕ × Event) → ℕ → Type 0
IsTimed start [] last = start ≤ last
IsTimed start ((now, e) ∷ es) last = (start ≤ now) × IsTimed now es last

pub record IsSound (c : RateLimitConfig) (now : ℕ) (bs : Buckets) : Type 0 where
  pub unique : IsUnique bs
  pub sane : (k : String) → IsSane c now (get k bs)

pub IsSane-later :
    (c : RateLimitConfig) (now later : ℕ) (o : Option BucketState)
    → now ≤ later
    → IsSane c now o
    → IsSane c later o
IsSane-later c now later none h k = tt
IsSane-later c now later (some b) h (full_enough, past) = (full_enough, omega arith)

set-IsSane :
    (c : RateLimitConfig) (now : ℕ) (bs : Buckets) (p : String) (b : BucketState)
    → IsSane c now (some b)
    → ((k : String) → IsSane c now (get k bs))
    → (k : String) → IsSane c now (get k (set p b bs))
set-IsSane c now bs p b h sane k = elim (Bool-cases (str_eq p k)) [
  | inl same ↦ rw (get-set, same) h
  | inr other ↦ rw (get-set, other) (sane k)
]

seen-IsSane :
    (c : RateLimitConfig) (now : ℕ) (o : Option BucketState) (n : ℕ)
    → IsSane c now o
    → n ≤ (seen c now o).tokens
    → IsSane c now (some (record (seen c now o) { tokens = n }))
seen-IsSane c now o n h k =
    let bound : (seen c now o).tokens ≤ full c = rw (seen_tokens c now o h) (level-le c now o) in
    (omega arith, seen_last c now o h)

allow-IsSound :
    (c : RateLimitConfig) (p : String) (now : ℕ) (bs : Buckets)
    → IsSound c now bs
    → IsSound c now (allow c p now bs).0
unfolding allow
allow-IsSound c p now bs h = elim (Bool-cases (leb 1000 (seen c now (get p bs)).tokens)) [
  | inl e ↦ rw e (record {
    unique = set-IsUnique p _ bs h.unique;
    sane = set-IsSane c now bs p _ (seen-IsSane c now (get p bs) _ (h.sane p) (omega arith)) h.sane;
  })
  | inr e ↦ rw e (record {
    unique = set-IsUnique p _ bs h.unique;
    sane = set-IsSane c now bs p _ (seen-IsSane c now (get p bs) _ (h.sane p) (omega arith)) h.sane;
  })
]

kept-IsSane :
    (c : RateLimitConfig) (now : ℕ) (p : String → BucketState → Bool) (k : String)
    (o : Option BucketState)
    → IsSane c now o
    → IsSane c now (kept p k o)
kept-IsSane c now p k none h = tt
kept-IsSane c now p k (some b) h = elim (Bool-cases (p k b)) [ inl e ↦ rw e h | inr e ↦ rw e tt ]

remaining-IsSound :
    (c : RateLimitConfig) (p : String) (now : ℕ) (bs : Buckets)
    → IsSound c now bs
    → IsSound c now (remaining c p now bs).0
unfolding remaining
remaining-IsSound c p now bs h = elim (Option-cases (get p bs)) [
  | inl e ↦ rw e h
  | inr (b, e) ↦
      let ok : IsSane c now (some b) = subst (IsSane c now) e (h.sane p) in
      rw e (record {
        unique = set-IsUnique p _ bs h.unique;
        sane =
            set-IsSane c now bs p _
              (seen-IsSane c now (some b) (refill c now b).tokens ok (omega arith)) h.sane;
      })
]

cleanup-IsSound :
    (c : RateLimitConfig) (now : ℕ) (bs : Buckets)
    → IsSound c now bs
    → IsSound c now (cleanup now bs)
unfolding cleanup
cleanup-IsSound c now bs h = record {
  unique = keep-IsUnique _ bs h.unique;
  sane = λ k.
      rw (get-keep _ k bs h.unique)
        (kept-IsSane c now (λ x b. not (ltb (b.last_refill + 600000) now)) k (get k bs) (h.sane k));
}

pub step-IsSound :
    (c : RateLimitConfig) (now : ℕ) (e : Event) (bs : Buckets)
    → IsSound c now bs
    → IsSound c now (step c now e bs)
unfolding step
step-IsSound c now (request p) bs h = allow-IsSound c p now bs h
step-IsSound c now (asks p) bs h = remaining-IsSound c p now bs h
step-IsSound c now sweeps bs h = cleanup-IsSound c now bs h
