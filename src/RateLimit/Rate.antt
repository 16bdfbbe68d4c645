-- ===== src/RateLimit/Rate.antt =====
-- How many requests of one peer ratelimit.ts lets through, over any history of the limiter.
use thinklocal_mcp.Base.{
  ℕ, ◌+◌, ◌-◌, ◌*◌, ◌≤◌, ◌≡◌, refl, String, some, List, [], ◌∷◌, arith, ltb, leb, ltb→lt, leb→le,
  ◌<◌, str_eq, eq_iff, Bool-cases, Option-cases, inl, inr, ap, ◌∙◌, sym, subst,
}
use thinklocal_mcp.Base.Dict.{get, get-set, get-keep, IsUnique}
use thinklocal_mcp.RateLimit.{
  RateLimitConfig, BucketState, Buckets, full, refill, allow, remaining, cleanup,
}
use thinklocal_mcp.RateLimit.Bucket.{
  refill_split, level_of, level, IsSane, level_later, level-le, seen_tokens, seen_level,
  allow-Spends,
}
use thinklocal_mcp.RateLimit.Limits.{
  Event, request, asks, sweeps, step, passes, passed, IsTimed, IsSound, step-IsSound, IsSane-later,
}

-- An idle bucket that is cleaned up would have been full again by then.
idle_full :
    (c : RateLimitConfig) (now : ℕ) (b : BucketState)
    → full c ≤ 600000 * c.refill_rate
    → b.last_refill + 600000 < now
    → level_of c now (some b) ≡ full c
idle_full c now b fast idle =
    let split =
      refill_split c.refill_rate b.last_refill (b.last_refill + 600000) now (omega arith)
        (omega arith) in
    let whole : (b.last_refill + 600000 - b.last_refill) * c.refill_rate ≡ 600000 * c.refill_rate =
      ap (λ (n : ℕ). n * c.refill_rate) (ten_minutes b.last_refill) in
    omega arith
  where
    ten_minutes : (n : ℕ) → n + 600000 - n ≡ 600000
    ten_minutes n = omega arith

level-cleanup :
    (c : RateLimitConfig) (now : ℕ) (bs : Buckets) (k : String)
    → full c ≤ 600000 * c.refill_rate
    → IsUnique bs
    → level c k now (cleanup now bs) ≡ level c k now bs
unfolding cleanup level
level-cleanup c now bs k fast h = rw (get-keep _ k bs h) (elim (Option-cases (get k bs)) [
  | inl e ↦ rw e refl
  | inr (b, e) ↦ elim (Bool-cases (ltb (b.last_refill + 600000) now)) [
    | inl idle ↦ rw (e, idle) (sym (idle_full c now b fast (ltb→lt _ _ idle)))
    | inr busy ↦ rw (e, busy) refl
  ]
])

level-remaining :
    (c : RateLimitConfig) (p k : String) (now : ℕ) (bs : Buckets)
    → IsSane c now (get p bs)
    → level c k now (remaining c p now bs).0 ≡ level c k now bs
unfolding remaining level
level-remaining c p k now bs h = elim (Option-cases (get p bs)) [
  | inl e ↦ rw e refl
  | inr (b, e) ↦
      let ok : IsSane c now (some b) = subst (IsSane c now) e h in
      elim (Bool-cases (str_eq p k)) [
        | inr other ↦ rw e (rw (get-set, other) refl)
        | inl same ↦
            let there : get k bs ≡ some b =
              ap (λ (i : String). get i bs) (sym ((eq_iff p k).0 same)) ∙ e in
            rw e (
              rw (get-set, same)
                (rw there (
                  seen_level c now (some b) (refill c now b).tokens
                    (rw (seen_tokens c now (some b) ok) (level-le c now (some b)))
                  ∙ seen_tokens c now (some b) ok)))
      ]
]

-- One event: each request that passes costs a token, and nothing else costs any.
step-level :
    (c : RateLimitConfig) (k : String) (now : ℕ) (e : Event) (bs : Buckets)
    → full c ≤ 600000 * c.refill_rate
    → IsSound c now bs
    → 1000 * passes c k now e bs + level c k now (step c now e bs) ≡ level c k now bs
unfolding step
step-level c k now (asks p) bs fast h =
    let same = level-remaining c p k now bs (h.sane p) in omega arith
step-level c k now sweeps bs fast h =
    let same = level-cleanup c now bs k fast h.unique in omega arith
step-level c k now (request p) bs fast h =
    let (verdict, own, others) = allow-Spends c p now bs (h.sane p) in
    elim (Bool-cases (str_eq p k)) [
      | inr other ↦ rw other (unfold level in rw (others k other) (omega arith))
      | inl same ↦
          let at : level c k now (allow c p now bs).0 ≡ level c p now (allow c p now bs).0 =
            ap (λ (i : String). level c i now (allow c p now bs).0) (sym ((eq_iff p k).0 same)) in
          let before : level c k now bs ≡ level c p now bs =
            ap (λ (i : String). level c i now bs) (sym ((eq_iff p k).0 same)) in
          elim (Bool-cases (leb 1000 (level c p now bs))) [
            | inl pays ↦
                let enough = leb→le 1000 (level c p now bs) pays in
                rw (same, verdict, pays, at, own, pays, before) (omega arith)
            | inr few ↦ rw (same, verdict, few, at, own, few, before) (omega arith)
          ]
    ]

IsSound-later :
    (c : RateLimitConfig) (now later : ℕ) (bs : Buckets)
    → now ≤ later
    → IsSound c now bs
    → IsSound c later bs
IsSound-later c now later bs h s = record {
  unique = s.unique;
  sane = λ k. IsSane-later c now later (get k bs) h (s.sane k);
}

IsTimed-le : (start last : ℕ) (es : List (ℕ × Event)) → IsTimed start es last → start ≤ last
IsTimed-le start last [] t = t
IsTimed-le start last ((now, e) ∷ es) (forward, t) =
    let rest = IsTimed-le now last es t in omega arith

passed-level :
    (c : RateLimitConfig) (k : String) (start last : ℕ) (es : List (ℕ × Event)) (bs : Buckets)
    → full c ≤ 600000 * c.refill_rate
    → IsSound c start bs
    → IsTimed start es last
    → 1000 * passed c k es bs ≤ level c k start bs + (last - start) * c.refill_rate
unfolding passed
passed-level c k start last [] bs fast h t = omega arith
passed-level c k start last ((now, e) ∷ es) bs fast h (forward, t) =
    let h' = IsSound-later c start now bs forward h in
    let rest = passed-level c k now last es (step c now e bs) fast (step-IsSound c now e bs h') t in
    let paid = step-level c k now e bs fast h' in
    let more : level c k now bs ≤ level c k start bs + (now - start) * c.refill_rate =
      unfold level in level_later c start now (get k bs) (h.sane k) forward in
    let time = refill_split c.refill_rate start now last forward (IsTimed-le now last es t) in
    omega arith

-- From sound buckets, over any history of requests, queries and clean-ups at times that do not go back, at most the
-- capacity plus the refill rate times the elapsed time passes for one peer, counted in thousandths
-- of a request, if an empty bucket is full again within the ten minutes after which it is dropped.
pub passed_at_rate :
    (c : RateLimitConfig) (k : String) (start last : ℕ) (es : List (ℕ × Event)) (bs : Buckets)
    → full c ≤ 600000 * c.refill_rate
    → IsSound c start bs
    → IsTimed start es last
    → 1000 * passed c k es bs ≤ 1000 * c.max_tokens + (last - start) * c.refill_rate
passed_at_rate c k start last es bs fast h t =
    let bound = passed-level c k start last es bs fast h t in
    let most : level c k start bs ≤ full c = unfold level in level-le c start (get k bs) in
    omega arith
