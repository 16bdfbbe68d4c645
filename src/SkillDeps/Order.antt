-- ===== src/SkillDeps/Order.antt =====
-- The result of `resolveInstallOrder` of packages/daemon/src/skill-deps.ts.
use thinklocal_mcp.Base.{
  ◌≡◌, ◌≢◌, ◌↔◌, refl, sym, ◌∙◌, subst, suc, String, true, false, List, [], ◌∷◌, ◌||◌, inl, inr, In,
  arith, str_eq, eq_iff, Bool-cases,
}
use thinklocal_mcp.Base.Dict.{Dict, keys, size}
use thinklocal_mcp.SkillDeps.{
  Visit, done, cycle, out_of_fuel, elem, deps_of, each, visit, InstallOrder, ordered, null,
  exhausted, order_of, start, resolve_install_order,
}
use thinklocal_mcp.SkillDeps.Sets.{elem-In, dep-key, free-nil, length-keys}
use thinklocal_mcp.SkillDeps.Walks.{
  Depends, direct, via, HasCycle, IsOrdered, Inv, Post, each-Post, visit-Post,
}

module _ (m : Dict (List String)) where
  -- What stands before is closed under dependencies, and nothing of it needs itself.
  abbrev IsClosed : List String → Type 0
  IsClosed before =
      (a b : String) → elem a before ≡ true → Depends m a b → (elem b before ≡ true) × (a ≢ b)

  reached :
      (before : List String) (x b : String)
      → IsClosed before
      → ((d : String) → In d (deps_of m x) → elem d before ≡ true)
      → Depends m x b
      → elem b before ≡ true
  reached before x b closed deps (direct i) = deps b i
  reached before x b closed deps (via i p) = (closed _ b (deps _ i) p).0

  next_IsClosed :
      (before : List String) (x : String)
      → IsClosed before
      → elem x before ≡ false
      → ((d : String) → In d (deps_of m x) → elem d before ≡ true)
      → IsClosed (x ∷ before)
  next_IsClosed before x closed new deps a b h p = elim (Bool-cases (str_eq x a)) [
    | inl e ↦
        let same : x ≡ a = (eq_iff x a).0 e in
        let old = reached before x b closed deps (subst (λ y. Depends m y b) (sym same) p) in
        (
          ground arith,
          λ loops.
              let no : true ≡ false =
                sym old ∙ subst (λ y. elem y before ≡ false) (same ∙ loops) new in
              cc,
        )
    | inr e ↦ let (in_before, other) = closed a b (rw e at h) p in (ground arith, other)
  ]

  acyclic :
      (before xs : List String)
      → IsClosed before
      → IsOrdered m before xs
      → (a : String) → (elem a before || elem a xs) ≡ true
      → ¬ Depends m a a
  acyclic before [] closed o a h p = (closed a a (ground arith) p).1 refl
  acyclic before (x ∷ xs) closed (new, deps, o) a h p =
      acyclic (x ∷ before) xs (next_IsClosed before x closed new deps) o a (ground arith) p

  Depends-key : (a b : String) → Depends m a b → elem a (keys m) ≡ true
  Depends-key a b (direct i) = dep-key m a b i
  Depends-key a b (via i p) = dep-key m a _ i

  start-Inv : Inv m [] start
  start-Inv = record { stack = refl; same = refl; is_ordered = tt; apart = λ k h. cc }

  -- An order that respects the dependencies and has every key of the map.
  abbrev pub IsInstallOrder : List String → Type 0
  IsInstallOrder xs = IsOrdered m [] xs × ((k : String) → elem k (keys m) ≡ true → elem k xs ≡ true)

  abbrev Right : InstallOrder → Type 0
  Right (ordered xs) = IsInstallOrder xs × ¬ HasCycle m
  Right null = HasCycle m
  Right exhausted = ⊥

  Post-Right : (r : Visit) → Post m [] (keys m) start r → Right (order_of r)
  Post-Right (done w) (i, grows, all) =
      let has_all = λ (k : String) (h : elem k (keys m) ≡ true). all k (elem-In k (keys m) h) in
      (
        (i.is_ordered, has_all),
        λ (x, p).
            acyclic [] w.order (λ a b h. absurd (let no : false ≡ true = h in cc)) i.is_ordered x
              (has_all x (Depends-key x x p)) p,
      )
  Post-Right cycle p = p
  Post-Right out_of_fuel p = p

  install-Right : Right (resolve_install_order m)
  unfolding resolve_install_order
  install-Right = Post-Right (each (visit m (suc (size m))) (keys m) start) (
      each-Post m [] (keys m) (visit m (suc (size m))) start
        (λ d i v j.
          visit-Post m (suc (size m)) [] d v j tt tt
            (let all = free-nil (keys m) in let n = length-keys m in omega (arith, all, n)))
        start-Inv)

  -- The search always ends: with one more unit of fuel than the map has keys it never runs out of it.
  pub order_returns : resolve_install_order m ≢ exhausted
  order_returns h = subst Right h install-Right

  -- A result is an installation order: it has every key of the map, no skill twice, and each skill only
  -- after all its dependencies.
  pub order-IsInstallOrder :
      (xs : List String) → resolve_install_order m ≡ ordered xs → IsInstallOrder xs
  order-IsInstallOrder xs h = (subst Right h install-Right).0

  order_cases : (r : InstallOrder) → Right r → (r ≡ null) ↔ HasCycle m
  order_cases (ordered xs) (o, free_of) = (λ h. cc, λ c. absurd (free_of c))
  order_cases null p = (λ h. p, λ c. refl)
  order_cases exhausted p = absurd p

  -- There is no order exactly when some skill depends on itself over one or more dependencies.
  pub cyclic_iff : (resolve_install_order m ≡ null) ↔ HasCycle m
  cyclic_iff = order_cases (resolve_install_order m) install-Right
