-- ===== src/RateLimit/Bucket.antt =====
-- What a peer may spend by ratelimit.ts, and that the clean-up of idle buckets does not show.
use thinklocal_mcp.Base.{
  ℕ, ◌+◌, ◌-◌, ◌*◌, ◌≤◌, ◌≡◌, refl, min, String, true, false, Option, none, some, arith,
  if◌then◌else◌, ltb, leb, str_eq, str_eq_refl, Bool-cases, inl, inr, ap, ◌∙◌,
}
use native.Mathlib.Nat.{mul_comm, mul-add, zero-mul}
use thinklocal_mcp.Base.Dict.{get, get-set}
use thinklocal_mcp.RateLimit.{
  RateLimitConfig, BucketState, Buckets, full, bucket_or_new, refill, allow,
}

-- What a peer has at a time, in thousandths: a bucket that is not there is full.
abbrev pub level_of : RateLimitConfig → ℕ → Option BucketState → ℕ
level_of c now none = full c
level_of c now (some b) = min (full c) (b.tokens + (now - b.last_refill) * c.refill_rate)

unfoldable pub level : RateLimitConfig → String → ℕ → Buckets → ℕ
level c k now bs = level_of c now (get k bs)

-- A bucket that is filled up at a time no earlier than its last refill.
pub refill_tokens :
    (c : RateLimitConfig) (now : ℕ) (b : BucketState)
    → b.tokens ≤ full c
    → (refill c now b).tokens ≡ level_of c now (some b)
unfolding refill
refill_tokens c now b h = ground arith

pub refill_settled :
    (c : RateLimitConfig) (now : ℕ) (b : BucketState)
    → (now - (refill c now b).last_refill) * c.refill_rate ≡ 0
unfolding refill
refill_settled c now b = elim (Bool-cases (ltb 0 ((now - b.last_refill) * c.refill_rate))) [
  | inl more ↦ rw more (ap (λ (n : ℕ). n * c.refill_rate) (now_now now) ∙ zero-mul c.refill_rate)
  | inr same ↦ rw same (ground arith)
]
  where
    now_now : (n : ℕ) → n - n ≡ 0
    now_now n = omega arith

-- What is refilled in two stretches of time.
pub refill_split : (r a b d : ℕ) → a ≤ b → b ≤ d → (d - a) * r ≡ (b - a) * r + (d - b) * r
refill_split r a b d h k =
    ap (λ (n : ℕ). n * r) (parts a b d h k)
    ∙ mul_comm (b - a + (d - b)) r
    ∙ mul-add r (b - a) (d - b)
    ∙ (rw (mul_comm r (b - a), mul_comm r (d - b)) refl)
  where
    parts : (a b d : ℕ) → a ≤ b → b ≤ d → d - a ≡ b - a + (d - b)
    parts a b d h k = omega arith

-- The bucket of a peer, at a time no earlier than its last refill.
abbrev pub IsSane : RateLimitConfig → ℕ → Option BucketState → Type 0
IsSane c now none = Unit
IsSane c now (some b) = (b.tokens ≤ full c) × (b.last_refill ≤ now)

-- Time adds at most what the rate gives, and the bucket holds no more than a full one.
pub level_later :
    (c : RateLimitConfig) (now later : ℕ) (o : Option BucketState)
    → IsSane c now o
    → now ≤ later
    → level_of c later o ≤ level_of c now o + (later - now) * c.refill_rate
level_later c now later none h k = omega arith
level_later c now later (some b) (h, e) k =
    let split = refill_split c.refill_rate b.last_refill now later e k in omega arith

pub level-le : (c : RateLimitConfig) (now : ℕ) (o : Option BucketState) → level_of c now o ≤ full c
level-le c now none = omega arith
level-le c now (some b) = omega arith

-- The bucket that `allow` and `remaining` look at, filled up.
module _ (c : RateLimitConfig) (now : ℕ) where
  abbrev pub seen : Option BucketState → BucketState
  seen o = refill c now (bucket_or_new c now o)

  pub seen_tokens : (o : Option BucketState) → IsSane c now o → (seen o).tokens ≡ level_of c now o
  unfolding refill
  seen_tokens none h = ground arith
  seen_tokens (some b) (h, e) = refill_tokens c now b h

  seen_settled : (o : Option BucketState) → (now - (seen o).last_refill) * c.refill_rate ≡ 0
  seen_settled o = refill_settled c now (bucket_or_new c now o)

  pub seen_last : (o : Option BucketState) → IsSane c now o → (seen o).last_refill ≤ now
  unfolding refill
  seen_last none h = ground arith
  seen_last (some b) (h, e) = ground arith

  -- A bucket seen, with its tokens changed to `n`.
  pub seen_level :
      (o : Option BucketState) (n : ℕ)
      → n ≤ full c
      → level_of c now (some (record (seen o) { tokens = n })) ≡ n
  seen_level o n h = let settled = seen_settled o in omega arith

-- A request of a peer passes exactly if it has a whole token, which it then spends; what the other
-- peers have does not change.
abbrev pub Spends : RateLimitConfig → String → ℕ → Buckets → Type 0
Spends c p now bs =
    ((allow c p now bs).1 ≡ leb 1000 (level c p now bs))
    × (level c p now (allow c p now bs).0
        ≡ (if leb 1000 (level c p now bs) then level c p now bs - 1000 else level c p now bs))
    × ((k : String) → str_eq p k ≡ false → get k (allow c p now bs).0 ≡ get k bs)

pub allow-Spends :
    (c : RateLimitConfig) (p : String) (now : ℕ) (bs : Buckets)
    → IsSane c now (get p bs)
    → Spends c p now bs
unfolding allow level
allow-Spends c p now bs h =
    let tokens = seen_tokens c now (get p bs) h in
    let bound : (seen c now (get p bs)).tokens ≤ full c = rw tokens (level-le c now (get p bs)) in
    elim (Bool-cases (leb 1000 (level_of c now (get p bs)))) [
      | inl enough ↦
          let e : leb 1000 (seen c now (get p bs)).tokens ≡ true = rw tokens enough in
          rw (e, enough)
            (
              refl,
              rw (get-set, str_eq_refl p)
                  (seen_level c now (get p bs) _ (omega arith) ∙ ap (λ (n : ℕ). n - 1000) tokens),
              λ k other. rw (get-set, other) refl,
            )
      | inr few ↦
          let e : leb 1000 (seen c now (get p bs)).tokens ≡ false = rw tokens few in
          rw (e, few)
            (
              refl,
              rw (get-set, str_eq_refl p) (seen_level c now (get p bs) _ bound ∙ tokens),
              λ k other. rw (get-set, other) refl,
            )
    ]
