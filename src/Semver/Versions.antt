-- ===== src/Semver/Versions.antt =====
-- What `compareSemVer` and `latestVersion` promise for texts, valid or not.
use Prim.Native.Nat.{Ordering}
use thinklocal_mcp.Base.{
  ℕ, ◌≡◌, refl, true, false, Option, none, some, List, [], ◌∷◌, All, arith, Bool-cases,
  Option-cases, inl, inr, ◌≢◌, sym, subst, In, here, there, ◌⊎◌, ◌<◌, is_some,
}
use thinklocal_mcp.Semver.{
  Text, SemVer, parse_sem_ver, compare_parsed, compare_sem_ver, satisfies_min_version,
  satisfies_range, latest_from, latest_version, is_greater, is_compatible,
}
use thinklocal_mcp.Semver.Order.{flip, Chain, compare_parsed-flip, compare_parsed-Chain}

abbrev pub IsVersion : Text → Type 0
IsVersion v = is_some (parse_sem_ver v) ≡ true

parsed : (v : Text) → IsVersion v → (p : SemVer) × (parse_sem_ver v ≡ some p)
parsed v h = elim (Option-cases (parse_sem_ver v)) [
  | inl n ↦ absurd (let no : false ≡ true = (rw n at h) in cc)
  | inr p ↦ p
]

Chain-not_greater :
    (o p q : Ordering) → Chain o p q → o ≢ Ordering.gt → p ≢ Ordering.gt → q ≢ Ordering.gt
Chain-not_greater o p q h a b = ground arith

flip_of_greater : (o p : Ordering) → p ≡ flip o → is_greater o ≡ true → p ≢ Ordering.gt
flip_of_greater o p h g = ground arith

not_greater : (o : Ordering) → is_greater o ≡ false → o ≢ Ordering.gt
not_greater o g = ground arith

skip_second : {x a b : Text} {xs : List Text} → In x (a ∷ xs) → In x (a ∷ b ∷ xs)
skip_second (here e) = here e
skip_second (there m) = there (there m)

flip_greater : (o : Ordering) → o ≡ flip o → o ≢ Ordering.gt
flip_greater o h g = ground arith

module _ (number : Text → Option ℕ) where
  -- Comparing two texts in the other order flips the result, versions or not.
  pub compare_sem_ver-flip :
      (a b : Text) → compare_sem_ver number b a ≡ flip (compare_sem_ver number a b)
  unfolding compare_sem_ver
  compare_sem_ver-flip a b = elim (Option-cases (parse_sem_ver a)) [
    | inl na ↦ elim (Option-cases (parse_sem_ver b)) [
      | inl nb ↦ rw (na, nb)
      | inr (vb, eb) ↦ rw (na, eb)
    ]
    | inr (va, ea) ↦ elim (Option-cases (parse_sem_ver b)) [
      | inl nb ↦ rw (ea, nb)
      | inr (vb, eb) ↦ rw (ea, eb) (compare_parsed-flip number va vb)
    ]
  ]

  -- Among three versions the results chain: versions that compare equal compare alike with a
  -- third, and "less" and "greater" are transitive.
  pub compare_sem_ver-Chain :
      (a b c : Text)
      → IsVersion a
      → IsVersion b
      → IsVersion c
      → Chain (compare_sem_ver number a b) (compare_sem_ver number b c) (compare_sem_ver number a c)
  unfolding compare_sem_ver
  compare_sem_ver-Chain a b c ha hb hc =
      let (va, ea) = parsed a ha in
      let (vb, eb) = parsed b hb in
      let (vc, ec) = parsed c hc in rw (ea, eb, ec) (compare_parsed-Chain number va vb vc)

  -- No version of the list is greater than the result.
  abbrev NotAbove : Text → Text → Type 0
  NotAbove top v = compare_sem_ver number v top ≢ Ordering.gt

  NotAbove-trans :
      (top mid v : Text)
      → IsVersion top
      → IsVersion mid
      → IsVersion v
      → NotAbove top mid
      → NotAbove mid v
      → NotAbove top v
  NotAbove-trans top mid v ht hm hv a b =
      Chain-not_greater _ _ _ (compare_sem_ver-Chain v mid top hv hm ht) b a

  NotAbove-self : (v : Text) → NotAbove v v
  NotAbove-self v over = flip_greater _ (compare_sem_ver-flip v v) over

  NotAbove-of_greater :
      (top v : Text) → is_greater (compare_sem_ver number v top) ≡ true → NotAbove v top
  NotAbove-of_greater top v g = flip_of_greater _ _ (compare_sem_ver-flip v top) g

  NotAbove-of_not_greater :
      (top v : Text) → is_greater (compare_sem_ver number v top) ≡ false → NotAbove top v
  NotAbove-of_not_greater top v g = not_greater _ g

  latest_from_greater :
      (latest v : Text) (vs : List Text)
      → is_greater (compare_sem_ver number v latest) ≡ true
      → latest_from number latest (v ∷ vs) ≡ latest_from number v vs
  unfolding latest_from
  latest_from_greater latest v vs g = rw g

  latest_from_kept :
      (latest v : Text) (vs : List Text)
      → is_greater (compare_sem_ver number v latest) ≡ false
      → latest_from number latest (v ∷ vs) ≡ latest_from number latest vs
  unfolding latest_from
  latest_from_kept latest v vs g = rw g

  abbrev Tops : Text → Text → List Text → Type 0
  Tops top latest vs = NotAbove top latest × All (NotAbove top) vs × IsVersion top

  latest_from_top :
      (latest : Text) (vs : List Text)
      → IsVersion latest
      → All IsVersion vs
      → Tops (latest_from number latest vs) latest vs
  unfolding latest_from
  latest_from_top latest [] h a = (NotAbove-self latest, tt, h)
  latest_from_top latest (v ∷ vs) h (hv, a) =
      elim (Bool-cases (is_greater (compare_sem_ver number v latest))) [
        | inl g ↦
            let (top, rest, valid) = latest_from_top v vs hv a in
            subst (λ r. Tops r latest (v ∷ vs)) (sym (latest_from_greater latest v vs g))
              (
                NotAbove-trans _ v latest valid hv h top (NotAbove-of_greater latest v g),
                (top, rest),
                valid,
              )
        | inr g ↦
            let (top, rest, valid) = latest_from_top latest vs h a in
            subst (λ r. Tops r latest (v ∷ vs)) (sym (latest_from_kept latest v vs g))
              (
                top,
                (
                  NotAbove-trans _ latest v valid h hv top (NotAbove-of_not_greater latest v g),
                  rest,
                ),
                valid,
              )
      ]

  latest_from-In :
      (latest : Text) (vs : List Text) → In (latest_from number latest vs) (latest ∷ vs)
  unfolding latest_from
  latest_from-In latest [] = here refl
  latest_from-In latest (v ∷ vs) =
      elim (Bool-cases (is_greater (compare_sem_ver number v latest))) [
        | inl g ↦ rw g (there (latest_from-In v vs))
        | inr g ↦ rw g (skip_second (latest_from-In latest vs))
      ]

  -- Of a non-empty list of versions `latestVersion` returns a member above which no member stands.
  pub latest_version_top :
      (v : Text) (vs : List Text)
      → All IsVersion (v ∷ vs)
      → (top : Text) × (latest_version number (v ∷ vs) ≡ some top)
        × In top (v ∷ vs)
        × All (NotAbove top) (v ∷ vs)
  unfolding latest_version
  latest_version_top v vs (h, a) =
      let (first, rest, valid) = latest_from_top v vs h a in
      (latest_from number v vs, refl, latest_from-In v vs, (first, rest))

  -- A text that is no version satisfies every minimum, and satisfies no range.
  pub invalid_satisfies :
      (version : Text)
      → parse_sem_ver version ≡ none
      → ((min : Text) → satisfies_min_version number version min ≡ true)
        × ((range : Text) → satisfies_range number version range ≡ false)
  unfolding satisfies_min_version compare_sem_ver satisfies_range
  invalid_satisfies version e = (λ min. rw e, λ range. rw e)

  -- A caret range admits a version only at the same major number, the same minor number where the
  -- major is 0, and no lower than the range's version.
  pub caret_sound :
      (version base : Text)
      → satisfies_range number version (b'^' ∷ base) ≡ true
      → (v b : SemVer) × (parse_sem_ver version ≡ some v)
        × (parse_sem_ver base ≡ some b)
        × (v.major ≡ b.major)
        × ((v.minor ≡ b.minor) ⊎ (0 < v.major))
        × (compare_parsed number v b ≢ Ordering.lt)
  unfolding satisfies_range compare_sem_ver is_compatible
  caret_sound version base h = elim (Option-cases (parse_sem_ver version)) [
    | inl n ↦ absurd (let no : false ≡ true = (rw n at h) in cc)
    | inr (v, ev) ↦ elim (Option-cases (parse_sem_ver base)) [
      | inl n ↦ absurd (let no : false ≡ true = (rw (ev, n) at h) in cc)
      | inr (b, eb) ↦
          let k = (rw (ev, eb) at h) in (v, b, ev, eb, ground arith, ground arith, ground arith)
    ]
  ]
