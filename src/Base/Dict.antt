-- ===== src/Base/Dict.antt =====
-- A JavaScript `Map` with text keys: an association list in insertion order. `set` on a known key
-- keeps its place, on a new key appends; an entry object that is mutated is set again.
use Prim.Native.Nat.{ℕ, suc, ◌≤◌}
use Prim.Native.String.{String}
use mathlib.Core.Path.{◌≡◌, refl}
use mathlib.Core.Logic.{inl, inr}
use mathlib.Core.Bool.{Bool, false}
use mathlib.Core.Option.{Option, none, some}
use mathlib.Core.List.{List, [], ◌∷◌}
use native.Mathlib.Omega.{arith}
use text.Mathlib.Text.{◌==◌ as str_eq}
use text.Mathlib.TextEquality.{eq_iff}
use thinklocal_mcp.Base.Tests.{if◌then◌else◌, Bool-cases, is_some, str_eq_refl}
use thinklocal_mcp.Base.Lists.{length}

abbrev pub Dict {ℓ} : Type ℓ → Type ℓ
Dict V = List (String × V)

module _ {ℓ} {V : Type ℓ} where
  unfoldable pub get : String → Dict V → Option V
  get k [] = none
  get k ((j, v) ∷ m) = if str_eq j k then some v else get k m

  unfoldable pub set : String → V → Dict V → Dict V
  set k v [] = (k, v) ∷ []
  set k v ((j, w) ∷ m) = if str_eq j k then (j, v) ∷ m else (j, w) ∷ set k v m

  unfoldable pub delete : String → Dict V → Dict V
  delete k [] = []
  delete k ((j, w) ∷ m) = if str_eq j k then delete k m else (j, w) ∷ delete k m

  -- The entries that pass, `for (const [k, e] of m) if (!p(k, e)) m.delete(k)`.
  unfoldable pub keep : (String → V → Bool) → Dict V → Dict V
  keep p [] = []
  keep p ((j, w) ∷ m) = if p j w then (j, w) ∷ keep p m else keep p m

  unfoldable pub size : Dict V → ℕ
  size m = length m

  abbrev pub keys : Dict V → List String
  keys [] = []
  keys ((j, v) ∷ m) = j ∷ keys m

  abbrev pub values : Dict V → List V
  values [] = []
  values ((j, v) ∷ m) = v ∷ values m

  -- A lookup after a write.
  pub get-set :
      (k j : String) (v : V) (m : Dict V)
      → get j (set k v m) ≡ (if str_eq k j then some v else get j m)
  unfolding get set
  get-set k j v [] = refl
  get-set k j v ((i, w) ∷ m) = ground (arith, eq_iff k j, eq_iff i k, eq_iff i j, get-set k j v m)

  pub get-set_self : (k : String) (v : V) (m : Dict V) → get k (set k v m) ≡ some v
  get-set_self k v m = ground (arith, get-set k k v m, str_eq_refl k)

  -- A lookup after a removal.
  pub get-delete :
      (k j : String) (m : Dict V) → get j (delete k m) ≡ (if str_eq k j then none else get j m)
  unfolding get delete
  get-delete k j [] = ground arith
  get-delete k j ((i, w) ∷ m) = ground (arith, eq_iff k j, eq_iff i k, eq_iff i j, get-delete k j m)

  -- The size grows by one exactly when the key is new.
  pub size-set :
      (k : String) (v : V) (m : Dict V)
      → size (set k v m) ≡ (if is_some (get k m) then size m else suc (size m))
  unfolding get set size
  size-set k v [] = refl
  size-set k v ((i, w) ∷ m) = ground (arith, size-set k v m)

  pub size-delete-le : (k : String) (m : Dict V) → size (delete k m) ≤ size m
  unfolding delete size
  size-delete-le k [] = omega arith
  size-delete-le k ((i, w) ∷ m) = ground (arith, size-delete-le k m)

  pub size-keep-le : (p : String → V → Bool) (m : Dict V) → size (keep p m) ≤ size m
  unfolding keep size
  size-keep-le p [] = omega arith
  size-keep-le p ((i, w) ∷ m) = ground (arith, size-keep-le p m)

  abbrev pub has : String → Dict V → Bool
  has k m = is_some (get k m)

  -- No key stands twice.
  abbrev pub IsUnique : Dict V → Type 0
  IsUnique [] = Unit
  IsUnique ((j, w) ∷ m) = (has j m ≡ false) × IsUnique m

  has-set_ne :
      (k i : String) (v : V) (m : Dict V) → str_eq k i ≡ false → has i (set k v m) ≡ has i m
  has-set_ne k i v m h = rw (get-set k i v m, h)

  pub set-IsUnique : (k : String) (v : V) (m : Dict V) → IsUnique m → IsUnique (set k v m)
  unfolding get set
  set-IsUnique k v [] h = (refl, tt)
  set-IsUnique k v ((i, w) ∷ m) (new, h) =
      ground (arith, eq_iff i k, eq_iff k i, has-set_ne k i v m, set-IsUnique k v m h)

  has-delete_none : (k i : String) (m : Dict V) → has i m ≡ false → has i (delete k m) ≡ false
  has-delete_none k i m h = ground (arith, get-delete k i m)

  pub delete-IsUnique : (k : String) (m : Dict V) → IsUnique m → IsUnique (delete k m)
  unfolding delete
  delete-IsUnique k [] h = tt
  delete-IsUnique k ((i, w) ∷ m) (new, h) =
      ground (arith, has-delete_none k i m new, delete-IsUnique k m h)

  has-keep_none :
      (p : String → V → Bool) (k : String) (m : Dict V) → has k m ≡ false → has k (keep p m) ≡ false
  unfolding get keep
  has-keep_none p k [] h = refl
  has-keep_none p k ((i, w) ∷ m) h = ground (arith, has-keep_none p k m)

  pub keep-IsUnique : (p : String → V → Bool) (m : Dict V) → IsUnique m → IsUnique (keep p m)
  unfolding keep
  keep-IsUnique p [] h = tt
  keep-IsUnique p ((i, w) ∷ m) (new, h) =
      ground (arith, has-keep_none p i m new, keep-IsUnique p m h)

  abbrev pub kept : (String → V → Bool) → String → Option V → Option V
  kept p k none = none
  kept p k (some v) = if p k v then some v else none

  get_of_has : (k : String) (m : Dict V) → has k m ≡ false → get k m ≡ none
  get_of_has k m h = ground arith

  -- A lookup after a sweep.
  pub get-keep :
      (p : String → V → Bool) (k : String) (m : Dict V)
      → IsUnique m
      → get k (keep p m) ≡ kept p k (get k m)
  unfolding get keep
  get-keep p k [] h = refl
  get-keep p k ((i, w) ∷ m) (new, h) = elim (Bool-cases (str_eq i k)) [
    | inl same ↦
        let e : i ≡ k = (eq_iff i k).0 same in
        let gone : get i (keep p m) ≡ none = get_of_has i (keep p m) (has-keep_none p i m new) in
        rw (← e) (rw (str_eq_refl i) (keep_head p i w m gone))
    | inr other ↦ rw other (ground (arith, get-keep p k m h))
  ]
    where
      keep_head :
          (p : String → V → Bool) (i : String) (w : V) (m : Dict V)
          → get i (keep p m) ≡ none
          → get i (if p i w then (i, w) ∷ keep p m else keep p m) ≡ (if p i w then some w else none)
      keep_head p i w m gone = elim (Bool-cases (p i w)) [
        | inl e ↦ rw e (rw (str_eq_refl i))
        | inr e ↦ rw e gone
      ]
