-- ===== src/Semver/Order.antt =====
-- `compareSemVer` as an order: its results flip with its arguments, and chain.
use Prim.Native.Nat.{compare, Ordering}
use thinklocal_mcp.Base.{ℕ, ◌≡◌, refl, Option, none, some, List, [], ◌∷◌, arith}
use thinklocal_mcp.Semver.{
  Text, SemVer, then_by, by_number, compare_text, compare_identifier, compare_identifiers,
  compare_prerelease, compare_parsed, split_dots,
}

abbrev pub flip : Ordering → Ordering
flip Ordering.lt = Ordering.gt
flip Ordering.eq = Ordering.eq
flip Ordering.gt = Ordering.lt

-- What the results of comparing a with b and b with c leave for a with c.
abbrev pub Chain : Ordering → Ordering → Ordering → Type 0
Chain Ordering.eq o p = p ≡ o
Chain Ordering.lt Ordering.gt p = Unit
Chain Ordering.lt _ p = p ≡ Ordering.lt
Chain Ordering.gt Ordering.lt p = Unit
Chain Ordering.gt _ p = p ≡ Ordering.gt

flip-then_by : (o p : Ordering) → flip (then_by o p) ≡ then_by (flip o) (flip p)
flip-then_by Ordering.lt p = refl
flip-then_by Ordering.eq p = refl
flip-then_by Ordering.gt p = refl

Chain-then_by :
    (o o' o'' p p' p'' : Ordering)
    → Chain o o' o''
    → Chain p p' p''
    → Chain (then_by o p) (then_by o' p') (then_by o'' p'')
Chain-then_by o o' o'' p p' p'' h k = ground arith

Chain-from_less : (o : Ordering) → Chain Ordering.lt o Ordering.lt
Chain-from_less o = ground arith

Chain-to_greater : (o : Ordering) → Chain o Ordering.gt Ordering.gt
Chain-to_greater o = ground arith

Chain-from_greater : (o : Ordering) → Chain Ordering.gt o Ordering.gt
Chain-from_greater o = ground arith

Chain-to_less : (o : Ordering) → Chain o Ordering.lt Ordering.lt
Chain-to_less o = ground arith

compare-flip : (a b : ℕ) → compare b a ≡ flip (compare a b)
compare-flip a b = ground arith

compare-Chain : (a b c : ℕ) → Chain (compare a b) (compare b c) (compare a c)
compare-Chain a b c = ground arith

compare_text-flip : (s t : Text) → compare_text t s ≡ flip (compare_text s t)
unfolding compare_text
compare_text-flip [] [] = refl
compare_text-flip [] (d ∷ t) = refl
compare_text-flip (c ∷ s) [] = refl
compare_text-flip (c ∷ s) (d ∷ t) = rw (flip-then_by, compare-flip c d, compare_text-flip s t)

compare_text-Chain : (s t u : Text) → Chain (compare_text s t) (compare_text t u) (compare_text s u)
unfolding compare_text
compare_text-Chain [] [] u = refl
compare_text-Chain [] (d ∷ t) [] = tt
compare_text-Chain [] (d ∷ t) (e ∷ u) = Chain-from_less _
compare_text-Chain (c ∷ s) [] [] = refl
compare_text-Chain (c ∷ s) [] (e ∷ u) = tt
compare_text-Chain (c ∷ s) (d ∷ t) [] = Chain-to_greater _
compare_text-Chain (c ∷ s) (d ∷ t) (e ∷ u) =
    Chain-then_by (compare c d) (compare d e) (compare c e) _ _ _ (compare-Chain c d e)
      (compare_text-Chain s t u)

by_number-flip :
    (m n : Option ℕ) (o o' : Ordering) → o' ≡ flip o → by_number n m o' ≡ flip (by_number m n o)
by_number-flip (some m) (some n) o o' e = compare-flip m n
by_number-flip (some m) none o o' e = refl
by_number-flip none (some n) o o' e = refl
by_number-flip none none o o' e = e

by_number-Chain :
    (l m n : Option ℕ) (o o' o'' : Ordering)
    → Chain o o' o''
    → Chain (by_number l m o) (by_number m n o') (by_number l n o'')
by_number-Chain (some l) (some m) (some n) o o' o'' h = compare-Chain l m n
by_number-Chain (some l) (some m) none o o' o'' h = ground arith
by_number-Chain (some l) none (some n) o o' o'' h = tt
by_number-Chain (some l) none none o o' o'' h = ground arith
by_number-Chain none (some m) (some n) o o' o'' h = ground arith
by_number-Chain none (some m) none o o' o'' h = tt
by_number-Chain none none (some n) o o' o'' h = ground arith
by_number-Chain none none none o o' o'' h = h

module _ (number : Text → Option ℕ) where
  compare_identifier-flip :
      (a b : Text) → compare_identifier number b a ≡ flip (compare_identifier number a b)
  unfolding compare_identifier
  compare_identifier-flip a b =
      by_number-flip (number a) (number b) (compare_text a b) (compare_text b a)
        (compare_text-flip a b)

  compare_identifier-Chain :
      (a b c : Text)
      → Chain
          (compare_identifier number a b)
          (compare_identifier number b c)
          (compare_identifier number a c)
  unfolding compare_identifier
  compare_identifier-Chain a b c =
      by_number-Chain (number a) (number b) (number c) _ _ _ (compare_text-Chain a b c)

  compare_identifiers-flip :
      (ps qs : List Text)
      → compare_identifiers number qs ps ≡ flip (compare_identifiers number ps qs)
  unfolding compare_identifiers
  compare_identifiers-flip [] [] = refl
  compare_identifiers-flip [] (q ∷ qs) = refl
  compare_identifiers-flip (p ∷ ps) [] = refl
  compare_identifiers-flip (p ∷ ps) (q ∷ qs) =
      rw (flip-then_by, compare_identifier-flip p q, compare_identifiers-flip ps qs)

  compare_identifiers-Chain :
      (ps qs rs : List Text)
      → Chain
          (compare_identifiers number ps qs)
          (compare_identifiers number qs rs)
          (compare_identifiers number ps rs)
  unfolding compare_identifiers
  compare_identifiers-Chain [] [] rs = refl
  compare_identifiers-Chain [] (q ∷ qs) [] = tt
  compare_identifiers-Chain [] (q ∷ qs) (r ∷ rs) = Chain-from_less _
  compare_identifiers-Chain (p ∷ ps) [] [] = refl
  compare_identifiers-Chain (p ∷ ps) [] (r ∷ rs) = tt
  compare_identifiers-Chain (p ∷ ps) (q ∷ qs) [] = Chain-to_greater _
  compare_identifiers-Chain (p ∷ ps) (q ∷ qs) (r ∷ rs) =
      Chain-then_by _ _ _ _ _ _ (compare_identifier-Chain p q r)
        (compare_identifiers-Chain ps qs rs)

  compare_prerelease-flip :
      (p q : Option Text) → compare_prerelease number q p ≡ flip (compare_prerelease number p q)
  unfolding compare_prerelease
  compare_prerelease-flip (some p) none = refl
  compare_prerelease-flip none (some q) = refl
  compare_prerelease-flip none none = refl
  compare_prerelease-flip (some p) (some q) = compare_identifiers-flip (split_dots p) (split_dots q)

  compare_prerelease-Chain :
      (p q r : Option Text)
      → Chain
          (compare_prerelease number p q)
          (compare_prerelease number q r)
          (compare_prerelease number p r)
  unfolding compare_prerelease
  compare_prerelease-Chain none none r = refl
  compare_prerelease-Chain none (some q) none = tt
  compare_prerelease-Chain none (some q) (some r) = Chain-from_greater _
  compare_prerelease-Chain (some p) none none = refl
  compare_prerelease-Chain (some p) none (some r) = tt
  compare_prerelease-Chain (some p) (some q) none = Chain-to_less _
  compare_prerelease-Chain (some p) (some q) (some r) =
      compare_identifiers-Chain (split_dots p) (split_dots q) (split_dots r)

  pub compare_parsed-flip :
      (a b : SemVer) → compare_parsed number b a ≡ flip (compare_parsed number a b)
  unfolding compare_parsed
  compare_parsed-flip a b = rw (
    flip-then_by,
    flip-then_by,
    flip-then_by,
    compare-flip a.major b.major,
    compare-flip a.minor b.minor,
    compare-flip a.patch b.patch,
    compare_prerelease-flip a.prerelease b.prerelease,
  )

  pub compare_parsed-Chain :
      (a b c : SemVer)
      → Chain (compare_parsed number a b) (compare_parsed number b c) (compare_parsed number a c)
  unfolding compare_parsed
  compare_parsed-Chain a b c = Chain-then_by _ _ _ _ _ _ (compare-Chain a.major b.major c.major) (
      Chain-then_by _ _ _ _ _ _ (compare-Chain a.minor b.minor c.minor) (
        Chain-then_by _ _ _ _ _ _ (compare-Chain a.patch b.patch c.patch)
          (compare_prerelease-Chain a.prerelease b.prerelease c.prerelease)))
