-- ===== src/Base/Lists.antt =====
-- Lists measured by native numbers, Boolean searches, and predicates by recursion.
use Prim.Native.Nat.{ℕ, zero, suc, ◌+◌, ◌-◌, ◌≤◌}
use mathlib.Core.Path.{◌≡◌, refl, ap, subst, sym, ◌∙◌}
use mathlib.Core.Bool.{Bool, true, false, ◌&&◌, ◌||◌}
use mathlib.Core.List.{List, [], ◌∷◌, ◌++◌, map}
use mathlib.Core.Option.{Option, none, some}
use mathlib.Core.Logic.{inl, inr}
use native.Mathlib.Omega.{arith}
use thinklocal_mcp.Base.Tests.{if◌then◌else◌, Bool-cases, leb}

module _ {ℓ} {A : Type ℓ} where
  abbrev pub length : List A → ℕ
  length [] = 0
  length (x ∷ xs) = suc (length xs)

  -- `arr.filter(p)`, and `DELETE … WHERE not p`.
  abbrev pub filter : (A → Bool) → List A → List A
  filter p [] = []
  filter p (x ∷ xs) = if p x then x ∷ filter p xs else filter p xs

  -- `arr.find(p)`, and `SELECT … WHERE p` of one row.
  abbrev pub find : (A → Bool) → List A → Option A
  find p [] = none
  find p (x ∷ xs) = if p x then some x else find p xs

  abbrev pub any : (A → Bool) → List A → Bool
  any p [] = false
  any p (x ∷ xs) = p x || any p xs

  abbrev pub all : (A → Bool) → List A → Bool
  all p [] = true
  all p (x ∷ xs) = p x && all p xs

  -- The number of elements that pass.
  abbrev pub count : (A → Bool) → List A → ℕ
  count p [] = 0
  count p (x ∷ xs) = if p x then suc (count p xs) else count p xs

  abbrev pub drop : ℕ → List A → List A
  drop zero xs = xs
  drop (suc n) [] = []
  drop (suc n) (x ∷ xs) = drop n xs

  -- `LIMIT n`, and `slice(0, n)`.
  abbrev pub take : ℕ → List A → List A
  take zero xs = []
  take (suc n) [] = []
  take (suc n) (x ∷ xs) = x ∷ take n xs

  -- `UPDATE … SET f WHERE p`.
  abbrev pub map_where : (A → Bool) → (A → A) → List A → List A
  map_where p f [] = []
  map_where p f (x ∷ xs) = (if p x then f x else x) ∷ map_where p f xs

  pub length-append : (xs ys : List A) → length (xs ++ ys) ≡ length xs + length ys
  length-append [] ys = omega arith
  length-append (x ∷ xs) ys = omega (arith, length-append xs ys)

  pub length-drop : (n : ℕ) (xs : List A) → length (drop n xs) ≡ length xs - n
  length-drop zero xs = omega arith
  length-drop (suc n) [] = omega arith
  length-drop (suc n) (x ∷ xs) = omega (arith, length-drop n xs)

  pub length-filter-le : (p : A → Bool) (xs : List A) → length (filter p xs) ≤ length xs
  length-filter-le p [] = omega arith
  length-filter-le p (x ∷ xs) = ground (arith, length-filter-le p xs)

  pub length-map_where :
      (p : A → Bool) (f : A → A) (xs : List A) → length (map_where p f xs) ≡ length xs
  length-map_where p f [] = refl
  length-map_where p f (x ∷ xs) = ap suc (length-map_where p f xs)

  -- An element found passes the test.
  pub find-passes : (p : A → Bool) (xs : List A) (x : A) → find p xs ≡ some x → p x ≡ true
  find-passes p [] x h = cc
  find-passes p (y ∷ xs) x h = ground (arith, find-passes p xs x)

-- A predicate by recursion computes to tuples, which the tactics read and build.
module _ {ℓ κ} {A : Type ℓ} (P : A → Type κ) where
  abbrev pub All : List A → Type κ
  All [] = Unit
  All (x ∷ xs) = P x × All xs

  pub All-append : (xs ys : List A) → All xs → All ys → All (xs ++ ys)
  All-append [] ys _ k = k
  All-append (x ∷ xs) ys (p, h) k = (p, All-append xs ys h k)

  pub All-drop : (n : ℕ) (xs : List A) → All xs → All (drop n xs)
  All-drop zero xs h = h
  All-drop (suc n) [] h = tt
  All-drop (suc n) (x ∷ xs) (p, h) = All-drop n xs h

pub All-imply {ℓ κ μ} :
    {A : Type ℓ} (P : A → Type κ) (Q : A → Type μ) (xs : List A)
    → ((x : A) → P x → Q x)
    → All P xs
    → All Q xs
All-imply P Q [] f h = tt
All-imply P Q (x ∷ xs) f (p, h) = (f x p, All-imply P Q xs f h)

-- Membership with its place kept.
pub data In {ℓ} {A : Type ℓ} (a : A) : List A → Type ℓ where
  here : {x : A} {xs : List A} → a ≡ x → In a (x ∷ xs)
  there : {x : A} {xs : List A} → In a xs → In a (x ∷ xs)

module _ {ℓ} {A : Type ℓ} where
  pub In-append_left : {a : A} {xs : List A} (ys : List A) → In a xs → In a (xs ++ ys)
  In-append_left ys (here e) = here e
  In-append_left ys (there m) = there (In-append_left ys m)

  pub In-append_right : {a : A} (xs : List A) {ys : List A} → In a ys → In a (xs ++ ys)
  In-append_right [] m = m
  In-append_right (x ∷ xs) m = there (In-append_right xs m)

  -- What `find` returns stands in the list.
  pub find-In : (p : A → Bool) (xs : List A) (x : A) → find p xs ≡ some x → In x xs
  find-In p [] x h = cc
  find-In p (y ∷ xs) x h = elim (Bool-cases (p y)) [
    | inl e ↦ here (let k : some y ≡ some x = (rw e at h) in cc)
    | inr e ↦ there (find-In p xs x (rw e at h))
  ]

  pub find-none-In : (p : A → Bool) (xs : List A) (x : A) → find p xs ≡ none → In x xs → p x ≡ false
  find-none-In p [] x h m = elim m [ ]
  find-none-In p (y ∷ xs) x h m = elim (Bool-cases (p y)) [
    | inl e ↦ absurd (let no : some y ≡ none = (rw e at h) in cc)
    | inr e ↦ elim m [
      | here q ↦ subst (λ z. p z ≡ false) (sym q) e
      | there n ↦ find-none-In p xs x (rw e at h) n
    ]
  ]

  -- What `find` returns is the first that passes.
  pub find-split :
      (p : A → Bool) (xs : List A) (x : A)
      → find p xs ≡ some x
      → (before after : List A) × (xs ≡ before ++ x ∷ after)
        × All (λ y. p y ≡ false) before
        × (p x ≡ true)
  find-split p [] x h = cc
  find-split p (y ∷ xs) x h = elim (Bool-cases (p y)) [
    | inl e ↦
        let same : some y ≡ some x = (rw e at h) in
        let found : y ≡ x = cc in
        ([], xs, ap (λ (z : A). z ∷ xs) found, tt, subst (λ z. p z ≡ true) found e)
    | inr e ↦
        let (before, after, split, none_yet, passes) = find-split p xs x (rw e at h) in
        (y ∷ before, after, ap (λ (zs : List A). y ∷ zs) split, (e, none_yet), passes)
  ]

  pub find-append_first :
      (p : A → Bool) (before after : List A) (x : A)
      → All (λ y. p y ≡ false) before
      → p x ≡ true
      → find p (before ++ x ∷ after) ≡ some x
  find-append_first p [] after x h e = rw e refl
  find-append_first p (y ∷ before) after x (n, h) e = rw n (find-append_first p before after x h e)

  pub In-filter : (p : A → Bool) (xs : List A) (x : A) → In x xs → p x ≡ true → In x (filter p xs)
  In-filter p [] x m h = m
  In-filter p (y ∷ xs) x m h = elim (Bool-cases (p y)) [
    | inl e ↦ elim m [ here q ↦ rw e (here q) | there n ↦ rw e (there (In-filter p xs x n h)) ]
    | inr e ↦ elim m [
      | here q ↦ absurd (let no : true ≡ false = sym h ∙ subst (λ z. p z ≡ false) (sym q) e in cc)
      | there n ↦ rw e (In-filter p xs x n h)
    ]
  ]

  pub filter-In : (p : A → Bool) (xs : List A) (x : A) → In x (filter p xs) → In x xs × (p x ≡ true)
  filter-In p [] x m = elim m [ ]
  filter-In p (y ∷ xs) x m = elim (Bool-cases (p y)) [
    | inl e ↦
        let n : In x (y ∷ filter p xs) = (rw e at m) in
        elim n [
          | here q ↦ (here q, subst (λ z. p z ≡ true) (sym q) e)
          | there i ↦ let (j, h) = filter-In p xs x i in (there j, h)
        ]
    | inr e ↦ let (j, h) = filter-In p xs x (rw e at m) in (there j, h)
  ]

module _ {ℓ κ} {A : Type ℓ} {B : Type κ} (f : A → B) where
  pub In-map : {x : A} {xs : List A} → In x xs → In (f x) (map f xs)
  In-map (here q) = here (ap f q)
  In-map (there m) = there (In-map m)

  pub map-In : (xs : List A) (y : B) → In y (map f xs) → (x : A) × In x xs × (y ≡ f x)
  map-In [] y m = elim m [ ]
  map-In (x ∷ xs) y (here q) = (x, here refl, q)
  map-In (x ∷ xs) y (there m) = let (z, n, e) = map-In xs y m in (z, there n, e)

-- `ORDER BY key DESC`, with rows of one key in their order of insertion.
module _ {ℓ} {A : Type ℓ} (key : A → ℕ) where
  abbrev insert_desc : A → List A → List A
  insert_desc x [] = x ∷ []
  insert_desc x (y ∷ ys) = if leb (key y) (key x) then x ∷ y ∷ ys else y ∷ insert_desc x ys

  abbrev pub sort_desc : List A → List A
  sort_desc [] = []
  sort_desc (x ∷ xs) = insert_desc x (sort_desc xs)

module _ {ℓ κ} {A : Type ℓ} (P : A → Type κ) where
  pub All-filter : (p : A → Bool) (xs : List A) → All P xs → All P (filter p xs)
  All-filter p [] h = tt
  All-filter p (x ∷ xs) (q, h) = elim (Bool-cases (p x)) [
    | inl e ↦ rw e (q, All-filter p xs h)
    | inr e ↦ rw e (All-filter p xs h)
  ]

  pub All-map_where :
      (p : A → Bool) (f : A → A) (xs : List A)
      → ((x : A) → P x → P (f x))
      → All P xs
      → All P (map_where p f xs)
  All-map_where p f [] k h = tt
  All-map_where p f (x ∷ xs) k (q, h) = elim (Bool-cases (p x)) [
    | inl e ↦ rw e (k x q, All-map_where p f xs k h)
    | inr e ↦ rw e (q, All-map_where p f xs k h)
  ]

  pub All_of_In : {x : A} (xs : List A) → All P xs → In x xs → P x
  All_of_In [] h m = elim m [ ]
  All_of_In (y ∷ xs) (q, h) (here e) = subst P (sym e) q
  All_of_In (y ∷ xs) (q, h) (there m) = All_of_In xs h m
