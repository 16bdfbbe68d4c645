-- ===== src/Tiers/Asking.antt =====
-- What a permission asks for by its words, told without the functions of
-- packages/daemon/src/mcp-service-registry.ts that look for them.
use thinklocal_mcp.Base.{
  ◌≡◌, refl, true, false, List, [], ◌∷◌, ◌⊎◌, inl, inr, In, here, there, any, Bool-cases, subst,
}
use thinklocal_mcp.Base.Text.{Text, includes}
use thinklocal_mcp.Matrix.{McpExecutionTier, self, gate, consensus}
use thinklocal_mcp.Tiers.{classify, or_gate}
use thinklocal_mcp.Tiers.Words.{consensus_tokens, gate_tokens, self_tokens}

-- One of the words occurs in the lower-cased permission.
abbrev pub HasWord : (Text → Text) → List Text → Text → Type 0
HasWord lower words p = (w : Text) × In w words × (includes w (lower p) ≡ true)

-- The tier a permission asks for, by its words; one without a known word asks for gate.
pub data Asks (lower : Text → Text) (p : Text) (t : McpExecutionTier) : Type 0 where
  by_consensus_word : HasWord lower consensus_tokens p → t ≡ consensus → Asks lower p t
  by_gate_word :
      ¬ HasWord lower consensus_tokens p → HasWord lower gate_tokens p → t ≡ gate → Asks lower p t
  by_self_word :
      ¬ HasWord lower consensus_tokens p
      → ¬ HasWord lower gate_tokens p
      → HasWord lower self_tokens p
      → t ≡ self
      → Asks lower p t
  by_no_word :
      ¬ HasWord lower consensus_tokens p
      → ¬ HasWord lower gate_tokens p
      → ¬ HasWord lower self_tokens p
      → t ≡ gate
      → Asks lower p t

any-HasWord :
    (lower : Text → Text) (words : List Text) (p : Text)
    → any (λ k. includes k (lower p)) words ≡ true
    → HasWord lower words p
any-HasWord lower [] p h = cc
any-HasWord lower (w ∷ words) p h = elim (Bool-cases (includes w (lower p))) [
  | inl e ↦ (w, here refl, e)
  | inr e ↦ let (v, m, q) = any-HasWord lower words p (rw e at h) in (v, there m, q)
]

HasWord-any :
    (lower : Text → Text) (words : List Text) (p : Text)
    → HasWord lower words p
    → any (λ k. includes k (lower p)) words ≡ true
HasWord-any lower [] p (w, m, h) = elim m [ ]
HasWord-any lower (v ∷ words) p (w, m, h) = elim m [
  | here e ↦
      let q : includes v (lower p) ≡ true = subst (λ u. includes u (lower p) ≡ true) e h in
      rw q refl
  | there n ↦ elim (Bool-cases (includes v (lower p))) [
    | inl e ↦ rw e refl
    | inr e ↦ rw e (HasWord-any lower words p (w, n, h))
  ]
]

-- Either the words have one that occurs, or none of them does.
HasWord-cases :
    (lower : Text → Text) (words : List Text) (p : Text)
    → (HasWord lower words p × (any (λ k. includes k (lower p)) words ≡ true))
      ⊎ (¬ HasWord lower words p × (any (λ k. includes k (lower p)) words ≡ false))
HasWord-cases lower words p = elim (Bool-cases (any (λ k. includes k (lower p)) words)) [
  | inl e ↦ inl (any-HasWord lower words p e, e)
  | inr e ↦ inr (λ h. let missed = HasWord-any lower words p h in cc, e)
]

not-HasWord-any :
    (lower : Text → Text) (words : List Text) (p : Text)
    → ¬ HasWord lower words p
    → any (λ k. includes k (lower p)) words ≡ false
not-HasWord-any lower words p missed = elim (HasWord-cases lower words p) [
  | inl (h, e) ↦ absurd (missed h)
  | inr (h, e) ↦ e
]

-- The tier that the loop takes for a permission.
abbrev pub taken : (Text → Text) → Text → McpExecutionTier
taken lower p = or_gate lower (classify lower p)

pub taken-Asks : (lower : Text → Text) (p : Text) → Asks lower p (taken lower p)
taken-Asks lower p = elim (HasWord-cases lower consensus_tokens p) [
  | inl (h, e) ↦ by_consensus_word h (rw e refl)
  | inr (missed, e) ↦ elim (HasWord-cases lower gate_tokens p) [
    | inl (h, g) ↦ by_gate_word missed h (rw (e, g) refl)
    | inr (nor, g) ↦ elim (HasWord-cases lower self_tokens p) [
      | inl (h, i) ↦ by_self_word missed nor h (rw (e, g, i) refl)
      | inr (neither, i) ↦ by_no_word missed nor neither (rw (e, g, i) refl)
    ]
  ]
]

pub Asks-taken :
    (lower : Text → Text) (p : Text) (t : McpExecutionTier) → Asks lower p t → t ≡ taken lower p
Asks-taken lower p t (by_consensus_word h e) = rw (e, HasWord-any lower consensus_tokens p h) refl
Asks-taken lower p t (by_gate_word missed h e) =
    rw (e, not-HasWord-any lower consensus_tokens p missed, HasWord-any lower gate_tokens p h) refl
Asks-taken lower p t (by_self_word missed nor h e) =
    rw
      (
        e,
        not-HasWord-any lower consensus_tokens p missed,
        not-HasWord-any lower gate_tokens p nor,
        HasWord-any lower self_tokens p h,
      )
      refl
Asks-taken lower p t (by_no_word missed nor neither e) =
    rw
      (
        e,
        not-HasWord-any lower consensus_tokens p missed,
        not-HasWord-any lower gate_tokens p nor,
        not-HasWord-any lower self_tokens p neither,
      )
      refl
