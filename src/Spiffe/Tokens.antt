-- ===== src/Spiffe/Tokens.antt =====
-- Splitting at `/` and joining with it, for spiffe-uri.ts.
use thinklocal_mcp.Base.{
  ◌≡◌, refl, sym, ◌∙◌, ap, ℕ, Bool, true, false, not, List, [], ◌∷◌, ◌++◌, inl, inr, Bool-cases,
  arith, all, All, drop, length, ◌==◌, ==_iff,
}
use thinklocal_mcp.Base.Text.{Text, starts_with}
use thinklocal_mcp.Spiffe.{slash, split, is_base58, is_component_code}

abbrev pub no_slash : Text → Bool
no_slash t = all (λ c. not (c == slash)) t

abbrev pub join : List Text → Text
join [] = []
join (t ∷ []) = t
join (t ∷ u ∷ ts) = t ++ slash ∷ join (u ∷ ts)

split-last : (t : Text) → no_slash t ≡ true → split t ≡ t ∷ []
split-last [] h = refl
split-last (c ∷ t) h = ground (arith, split-last t)

split-first : (t s : Text) → no_slash t ≡ true → split (t ++ slash ∷ s) ≡ t ∷ split s
split-first [] s h = refl
split-first (c ∷ t) s h = ground (arith, split-first t s)

-- Splitting undoes joining.
pub split-join :
    (t : Text) (ts : List Text)
    → All (λ u. no_slash u ≡ true) (t ∷ ts)
    → split (join (t ∷ ts)) ≡ t ∷ ts
split-join t [] (h, u) = split-last t h
split-join t (u ∷ ts) (h, k) =
    split-first t (join (u ∷ ts)) h ∙ ap (λ rest. t ∷ rest) (split-join u ts k)

split_cons : (s : Text) → (t : Text) × (ts : List Text) × (split s ≡ t ∷ ts)
split_cons [] = ([], [], refl)
split_cons (c ∷ s) =
    let (t, ts, e) = split_cons s in
    elim (Bool-cases (c == slash)) [
      | inl h ↦ ([], split s, rw h refl)
      | inr h ↦ (c ∷ t, ts, rw (h, e) refl)
    ]

join-put_first : (c : ℕ) (t : Text) (ts : List Text) → join ((c ∷ t) ∷ ts) ≡ c ∷ join (t ∷ ts)
join-put_first c t [] = refl
join-put_first c t (u ∷ ts) = refl

-- Joining undoes splitting.
pub join-split : (s : Text) → join (split s) ≡ s
join-split [] = refl
join-split (c ∷ s) =
    let (t, ts, e) = split_cons s in
    let whole : join (t ∷ ts) ≡ s = ap join (sym e) ∙ join-split s in
    elim (Bool-cases (c == slash)) [
      | inl h ↦ let same : c ≡ slash = (==_iff c slash).0 h in rw (h, e) (rw (whole, same) refl)
      | inr h ↦ rw (h, e) (join-put_first c t ts ∙ ap (λ r. c ∷ r) whole)
    ]

pub component_code : (c : ℕ) → is_component_code c ≡ true → (c == slash) ≡ false
component_code c h = ground arith

pub base58_code : (c : ℕ) → is_base58 c ≡ true → (c == slash) ≡ false
base58_code c h = ground arith

pub starts_with-split : (p s : Text) → starts_with p s ≡ true → s ≡ p ++ drop (length p) s
starts_with-split [] s h = refl
starts_with-split (c ∷ p) [] h = cc
starts_with-split (c ∷ p) (d ∷ s) h = ground (arith, ==_iff c d, starts_with-split p s)
