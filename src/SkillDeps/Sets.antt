-- ===== src/SkillDeps/Sets.antt =====
-- The sets of skill-deps.ts, and the graph that its map gives.
use thinklocal_mcp.Base.{
  ℕ, suc, ◌≤◌, ◌<◌, ◌≡◌, refl, sym, ap, String, true, false, not, List, [], ◌∷◌, ◌++◌, ◌||◌, inl,
  inr, In, here, there, arith, str_eq, str_eq_refl, eq_iff, count, length, Bool-cases,
}
use thinklocal_mcp.Base.Dict.{Dict, get, keys, size}
use thinklocal_mcp.SkillDeps.{elem, remove, deps_of}

pub In-elem : (k : String) (xs : List String) → In k xs → elem k xs ≡ true
In-elem k [] m = elim m [ ]
In-elem k (x ∷ xs) (here e) = ground (arith, e, eq_iff x k)
In-elem k (x ∷ xs) (there m) = ground (arith, In-elem k xs m)

pub elem-In : (k : String) (xs : List String) → elem k xs ≡ true → In k xs
elem-In k [] h = cc
elem-In k (x ∷ xs) h = elim (Bool-cases (str_eq x k)) [
  | inl e ↦ here (sym ((eq_iff x k).0 e))
  | inr e ↦ there (elem-In k xs (rw e at h))
]

pub elem-append : (k : String) (xs ys : List String) → elem k (xs ++ ys) ≡ (elem k xs || elem k ys)
elem-append k [] ys = refl
elem-append k (x ∷ xs) ys = ground (arith, elem-append k xs ys)

pub remove-absent : (k : String) (xs : List String) → elem k xs ≡ false → remove k xs ≡ xs
remove-absent k [] h = refl
remove-absent k (x ∷ xs) h = ground (arith, remove-absent k xs)

pub remove-head : (k : String) (xs : List String) → elem k xs ≡ false → remove k (k ∷ xs) ≡ xs
remove-head k xs h = rw (str_eq_refl k) (remove-absent k xs h)

pub length-keys : (m : Dict (List String)) → length (keys m) ≡ size m
unfolding size
length-keys [] = refl
length-keys ((j, w) ∷ m) = ap suc (length-keys m)

-- Only a key of the map has dependencies.
pub dep-key : (m : Dict (List String)) (a d : String) → In d (deps_of m a) → elem a (keys m) ≡ true
unfolding get
dep-key [] a d h = elim h [ ]
dep-key ((j, w) ∷ m) a d h = elim (Bool-cases (str_eq j a)) [
  | inl e ↦ rw e refl
  | inr e ↦ let rest = dep-key m a d (rw e at h) in ground arith
]

-- The elements of `ks` that are not in `vs`.
abbrev pub free : List String → List String → ℕ
free ks vs = count (λ k. not (elem k vs)) ks

pub free-le : (ks vs : List String) (d : String) → free ks (d ∷ vs) ≤ free ks vs
free-le [] vs d = omega arith
free-le (k ∷ ks) vs d = ground (arith, free-le ks vs d)

pub free-lt :
    (ks vs : List String) (d : String)
    → elem d ks ≡ true
    → elem d vs ≡ false
    → free ks (d ∷ vs) < free ks vs
free-lt [] vs d h n = absurd (let no : false ≡ true = h in cc)
free-lt (k ∷ ks) vs d h n = elim (Bool-cases (str_eq k d)) [
  | inl e ↦
      let same : k ≡ d = (eq_iff k d).0 e in
      rw (same, str_eq_refl d, n) (ground (arith, free-le ks vs d))
  | inr e ↦ ground (arith, free-lt ks vs d, free-le ks vs d, eq_iff k d, eq_iff d k)
]

pub free-nil : (ks : List String) → free ks [] ≡ length ks
free-nil [] = refl
free-nil (k ∷ ks) = ap suc (free-nil ks)
