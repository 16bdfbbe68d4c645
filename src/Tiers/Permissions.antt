-- ===== src/Tiers/Permissions.antt =====
-- Which tier packages/daemon/src/mcp-service-registry.ts derives from the permissions of a capability.
use thinklocal_mcp.Base.{
  ◌≡◌, refl, ◌∙◌, ℕ, ◌≤◌, ◌<◌, Bool, true, Option, none, some, List, [], ◌∷◌, arith, ◌⊎◌, inl, inr,
  In, here, there, subst, sym, ltb→lt, lt→ltb,
}
use thinklocal_mcp.Base.Text.{Text}
use thinklocal_mcp.Matrix.{McpExecutionTier, self, gate, consensus}
use thinklocal_mcp.Tiers.{max_tier, permissions_tier, is_low_trust, raised, derive_execution_tier}
use thinklocal_mcp.Tiers.Asking.{Asks, taken, taken-Asks, Asks-taken}

-- How much a tier asks for.
abbrev pub weight : McpExecutionTier → ℕ
weight self = 0
weight gate = 1
weight consensus = 2

max_tier_upper :
    (a b : McpExecutionTier)
    → (weight a ≤ weight (max_tier a b)) × (weight b ≤ weight (max_tier a b))
max_tier_upper a b = ground arith

max_tier_attained : (a b : McpExecutionTier) → (max_tier a b ≡ a) ⊎ (max_tier a b ≡ b)
max_tier_attained a b = ground arith

module _ (lower : Text → Text) where
  start_upper :
      (t : McpExecutionTier) (ps : List Text) → weight t ≤ weight (permissions_tier lower t ps)
  unfolding permissions_tier
  start_upper t [] = omega arith
  start_upper t (p ∷ ps) =
      omega
        (arith, (max_tier_upper t (taken lower p)).0, start_upper (max_tier t (taken lower p)) ps)

  permission_upper :
      (t : McpExecutionTier) (ps : List Text) (p : Text)
      → In p ps
      → weight (taken lower p) ≤ weight (permissions_tier lower t ps)
  unfolding permissions_tier
  permission_upper t [] p m = elim m [ ]
  permission_upper t (q ∷ ps) p (here e) = rw e (
      omega
        (arith, (max_tier_upper t (taken lower q)).1, start_upper (max_tier t (taken lower q)) ps))
  permission_upper t (q ∷ ps) p (there m) = permission_upper (max_tier t (taken lower q)) ps p m

  permission_attained :
      (t : McpExecutionTier) (ps : List Text)
      → (permissions_tier lower t ps ≡ t)
        ⊎ ((p : Text) × In p ps × (permissions_tier lower t ps ≡ taken lower p))
  unfolding permissions_tier
  permission_attained t [] = inl refl
  permission_attained t (q ∷ ps) = elim (permission_attained (max_tier t (taken lower q)) ps) [
    | inl e ↦ elim (max_tier_attained t (taken lower q)) [
      | inl a ↦ inl (e ∙ a)
      | inr a ↦ inr (q, here refl, e ∙ a)
    ]
    | inr (p, m, e) ↦ inr (p, there m, e)
  ]

module _ (lower : Text → Text) where
  raised_upper :
      (low : Bool) (t : McpExecutionTier)
      → (weight t ≤ weight (raised lower low t)) × (low ≡ true → 1 ≤ weight (raised lower low t))
  raised_upper low t = ground arith

  raised_attained :
      (low : Bool) (t : McpExecutionTier)
      → (raised lower low t ≡ t) ⊎ ((low ≡ true) × (raised lower low t ≡ gate))
  raised_attained low t = ground arith

-- A trust level that is not known, or below 2.
pub data IsLow (trust : Option ℕ) : Type 0 where
  no_trust : trust ≡ none → IsLow trust
  below_two : (n : ℕ) → trust ≡ some n → n < 2 → IsLow trust

IsLow-low : (lower : Text → Text) (trust : Option ℕ) → IsLow trust → is_low_trust lower trust ≡ true
IsLow-low lower trust (no_trust e) = rw e refl
IsLow-low lower trust (below_two n e h) = rw e (lt→ltb n 2 h)

is_low_trust-IsLow :
    (lower : Text → Text) (trust : Option ℕ) → is_low_trust lower trust ≡ true → IsLow trust
is_low_trust-IsLow lower none h = no_trust refl
is_low_trust-IsLow lower (some n) h = below_two n refl (ltb→lt n 2 h)

-- Where a tier may come from: from low trust, from one of the permissions, or, if every permission
-- asks for self and the trust is not low, from nothing.
pub data IsAsked (lower : Text → Text) (ps : List Text) (trust : Option ℕ) (t : McpExecutionTier)
    : Type 0 where
  by_nobody :
      ((p : Text) → In p ps → Asks lower p self)
      → ¬ IsLow trust
      → t ≡ self
      → IsAsked lower ps trust t
  by_trust : IsLow trust → t ≡ gate → IsAsked lower ps trust t
  by_permission : (p : Text) → In p ps → Asks lower p t → IsAsked lower ps trust t

weight-self : (t : McpExecutionTier) → weight t ≤ 0 → t ≡ self
weight-self t h = ground arith

-- What is asked for is no more than the derived tier.
permission_bounded :
    (lower : Text → Text) (ps : List Text) (trust : Option ℕ) (p : Text)
    → In p ps
    → weight (taken lower p) ≤ weight (derive_execution_tier lower ps trust)
unfolding derive_execution_tier
permission_bounded lower ps trust p m =
    let (above, low) =
      raised_upper lower (is_low_trust lower trust) (permissions_tier lower self ps) in
    omega (arith, above, permission_upper lower self ps p m)

trust_bounded :
    (lower : Text → Text) (ps : List Text) (trust : Option ℕ)
    → IsLow trust
    → 1 ≤ weight (derive_execution_tier lower ps trust)
unfolding derive_execution_tier
trust_bounded lower ps trust h =
    (raised_upper lower (is_low_trust lower trust) (permissions_tier lower self ps)).1
      (IsLow-low lower trust h)

self-IsAsked :
    (lower : Text → Text) (ps : List Text) (trust : Option ℕ)
    → derive_execution_tier lower ps trust ≡ self
    → IsAsked lower ps trust (derive_execution_tier lower ps trust)
self-IsAsked lower ps trust e =
    by_nobody
      (λ p m.
        let least : weight (taken lower p) ≤ 0 =
          subst (λ t. weight (taken lower p) ≤ weight t) e
            (permission_bounded lower ps trust p m) in
        subst (Asks lower p) (weight-self (taken lower p) least) (taken-Asks lower p))
      (λ low.
        let missed : 1 ≤ 0 = subst (λ t. 1 ≤ weight t) e (trust_bounded lower ps trust low) in
        omega arith)
      e

attained :
    (lower : Text → Text) (ps : List Text) (trust : Option ℕ)
    → IsAsked lower ps trust (derive_execution_tier lower ps trust)
unfolding derive_execution_tier
attained lower ps trust =
    elim (raised_attained lower (is_low_trust lower trust) (permissions_tier lower self ps)) [
      | inl e ↦ elim (permission_attained lower self ps) [
        | inl a ↦ self-IsAsked lower ps trust (e ∙ a)
        | inr (p, m, a) ↦
            by_permission p m (subst (Asks lower p) (sym (e ∙ a)) (taken-Asks lower p))
      ]
      | inr (low, e) ↦ by_trust (is_low_trust-IsLow lower trust low) e
    ]

-- The tier of a capability is the highest that is asked for. A permission asks for consensus, gate or
-- self by the first of these whose words occur in it, lower-cased, and for gate if none does. No
-- permission asks for more than the tier, and with a trust level that is unknown or below 2 it is
-- gate at least; it is what some permission asks for, or gate at such a trust level, or self where
-- every permission asks for self and the trust level is 2 or more.
pub derived_is_highest :
    (lower : Text → Text) (ps : List Text) (trust : Option ℕ)
    → ((p : Text) (t : McpExecutionTier)
        → In p ps
        → Asks lower p t
        → weight t ≤ weight (derive_execution_tier lower ps trust))
      × (IsLow trust → 1 ≤ weight (derive_execution_tier lower ps trust))
      × IsAsked lower ps trust (derive_execution_tier lower ps trust)
derived_is_highest lower ps trust = (
  λ p t m a. rw (Asks-taken lower p t a) (permission_bounded lower ps trust p m),
  trust_bounded lower ps trust,
  attained lower ps trust,
)
