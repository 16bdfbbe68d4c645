-- ===== src/SkillDeps/Walks.antt =====
-- Chains of dependencies, orders that respect them, and what `visit` of skill-deps.ts keeps.
use thinklocal_mcp.Base.{
  ℕ, zero, suc, ◌<◌, ◌≡◌, refl, sym, ◌∙◌, ap, subst, String, true, false, List, [], ◌∷◌, ◌++◌, ◌||◌,
  inl, inr, In, here, there, In-append_right, arith, str_eq, str_eq_refl, eq_iff, Bool-cases,
}
use thinklocal_mcp.Base.Dict.{Dict, keys}
use thinklocal_mcp.SkillDeps.{
  Walk, Visit, done, cycle, out_of_fuel, elem, remove, deps_of, entered, left, ◌>>=◌, each, guarded,
  visit,
}
use thinklocal_mcp.SkillDeps.Sets.{In-elem, elem-append, remove-head, dep-key, free, free-lt}

module _ (m : Dict (List String)) where
  -- The first skill needs the second, over one or more dependencies.
  pub data Depends : String → String → Type 0 where
    direct : {a b : String} → In b (deps_of m a) → Depends a b
    via : {a b c : String} → In b (deps_of m a) → Depends b c → Depends a c

  pub Depends-last : {a b c : String} → Depends a b → In c (deps_of m b) → Depends a c
  Depends-last (direct d) e = via d (direct e)
  Depends-last (via d p) e = via d (Depends-last p e)

  -- Some skill needs itself.
  abbrev pub HasCycle : Type 0
  HasCycle = (x : String) × Depends x x

  abbrev pub Next : List String → String → Type 0
  Next [] d = Unit
  Next (u ∷ us) d = In d (deps_of m u)

  -- Each skill of the stack is a dependency of the one below it.
  abbrev pub Chain : List String → Type 0
  Chain [] = Unit
  Chain (v ∷ vs) = Next vs v × Chain vs

  Chain-Depends :
      (vs : List String) (d x : String) → Chain vs → Next vs d → elem x vs ≡ true → Depends x d
  Chain-Depends [] d x c n h = absurd (let no : false ≡ true = h in cc)
  Chain-Depends (u ∷ us) d x (a, c) n h = elim (Bool-cases (str_eq u x)) [
    | inl e ↦ subst (λ y. Depends y d) ((eq_iff u x).0 e) (direct n)
    | inr e ↦ Depends-last (Chain-Depends us u x c a (rw e at h)) n
  ]

  -- No skill stands twice or in `before`, and the dependencies of each stand before it.
  abbrev pub IsOrdered : List String → List String → Type 0
  IsOrdered before [] = Unit
  IsOrdered before (x ∷ xs) =
      (elem x before ≡ false)
      × ((d : String) → In d (deps_of m x) → elem d before ≡ true)
      × IsOrdered (x ∷ before) xs

  -- Of the same elements.
  abbrev Same : List String → List String → Type 0
  Same xs ys = (k : String) → elem k xs ≡ elem k ys

  append-IsOrdered :
      (before xs all : List String) (x : String)
      → ((k : String) → elem k all ≡ (elem k before || elem k xs))
      → IsOrdered before xs
      → elem x all ≡ false
      → ((d : String) → In d (deps_of m x) → elem d all ≡ true)
      → IsOrdered before (xs ++ x ∷ [])
  append-IsOrdered before [] all x s o n k =
      ((let e = s x in ground arith), (λ d i. let e = s d in let h = k d i in ground arith), tt)
  append-IsOrdered before (y ∷ ys) all x s (a, b, o) n k =
      (a, b, append-IsOrdered (y ∷ before) ys all x (λ j. let e = s j in ground arith) o n k)

  -- The stack is `vs`; what is visited is the order so far, which respects the dependencies, and
  -- nothing on the stack is visited.
  pub record Inv (vs : List String) (w : Walk) : Type 0 where
    pub stack : w.visiting ≡ vs
    pub same : w.visited ≡ w.order
    pub is_ordered : IsOrdered [] w.order
    pub apart : (k : String) → elem k vs ≡ true → elem k w.order ≡ false

  abbrev pub Grows : Walk → Walk → Type 0
  Grows w v = (k : String) → elem k w.order ≡ true → elem k v.order ≡ true

  -- What holds after some skills have been visited from `w`.
  abbrev pub Post : List String → List String → Walk → Visit → Type 0
  Post vs ds w (done v) = Inv vs v × Grows w v × ((d : String) → In d ds → elem d v.order ≡ true)
  Post vs ds w cycle = HasCycle
  Post vs ds w out_of_fuel = ⊥

  join-Post :
      (vs ds : List String) (d : String) (w v : Walk) (r : Visit)
      → Grows w v
      → elem d v.order ≡ true
      → Post vs ds v r
      → Post vs (d ∷ ds) w r
  join-Post vs ds d w v cycle grows has p = p
  join-Post vs ds d w v out_of_fuel grows has p = p
  join-Post vs ds d w v (done u) grows has (l, more, all) = (
    l,
    (λ x h. more x (grows x h)),
    λ e n. elim n [
      | here q ↦ more e (subst (λ y. elem y v.order ≡ true) (sym q) has)
      | there o ↦ all e o
    ],
  )

  bind-Post :
      (vs ds : List String) (d : String) (w : Walk) (g : Walk → Visit) (r : Visit)
      → Post vs (d ∷ []) w r
      → ((v : Walk) → Inv vs v → Post vs ds v (g v))
      → Post vs (d ∷ ds) w (r >>= g)
  bind-Post vs ds d w g cycle p k = p
  bind-Post vs ds d w g out_of_fuel p k = p
  bind-Post vs ds d w g (done v) (j, grows, has) k =
      join-Post vs ds d w v (g v) grows (has d (here refl)) (k v j)

  -- The rule of the loop over the dependencies.
  pub each-Post :
      (vs ds : List String) (f : String → Walk → Visit) (w : Walk)
      → ((d : String) → In d ds → (v : Walk) → Inv vs v → Post vs (d ∷ []) v (f d v))
      → Inv vs w
      → Post vs ds w (each f ds w)
  unfolding each
  each-Post vs [] f w k i = (i, (λ j h. h), λ d no. elim no [ ])
  each-Post vs (d ∷ ds) f w k i =
      bind-Post vs ds d w (each f ds) (f d w) (k d (here refl) w i)
        (λ v j. each-Post vs ds f v (λ e n. k e (there n)) j)

  entered-Inv :
      (vs : List String) (d : String) (w : Walk)
      → elem d w.order ≡ false
      → Inv vs w
      → Inv (d ∷ vs) (entered d w)
  entered-Inv vs d w n i = record {
    stack = ap (λ xs. d ∷ xs) i.stack;
    same = i.same;
    is_ordered = i.is_ordered;
    apart = λ k h. elim (Bool-cases (str_eq d k)) [
      | inl e ↦ subst (λ x. elem x w.order ≡ false) ((eq_iff d k).0 e) n
      | inr e ↦ i.apart k (rw e at h)
    ];
  }

  not_same :
      (d k : String) (vs : List String) → elem d vs ≡ false → elem k vs ≡ true → str_eq d k ≡ false
  not_same d k vs n h = elim (Bool-cases (str_eq d k)) [
    | inl e ↦
        absurd (
          let no : true ≡ false = sym h ∙ subst (λ x. elem x vs ≡ false) ((eq_iff d k).0 e) n in cc)
    | inr e ↦ e
  ]

  left-Inv :
      (vs : List String) (d : String) (w : Walk)
      → elem d vs ≡ false
      → ((e : String) → In e (deps_of m d) → elem e w.order ≡ true)
      → Inv (d ∷ vs) w
      → Inv vs (left d w)
  left-Inv vs d w n all i = record {
    stack = ap (remove d) i.stack ∙ remove-head d vs n;
    same = ap (λ xs. xs ++ d ∷ []) i.same;
    is_ordered =
        append-IsOrdered [] w.order w.order d (λ k. refl) i.is_ordered
          (i.apart d (rw (str_eq_refl d) refl)) all;
    apart = λ k h.
        let old : elem k w.order ≡ false = i.apart k (rw (not_same d k vs n h, h) refl) in
        rw (elem-append k w.order (d ∷ []), old, not_same d k vs n h) refl;
  }

  left-Post :
      (vs : List String) (d : String) (w : Walk) (r : Visit)
      → elem d vs ≡ false
      → Post (d ∷ vs) (deps_of m d) (entered d w) r
      → Post vs (d ∷ []) w (r >>= λ v. done (left d v))
  left-Post vs d w cycle n p = p
  left-Post vs d w out_of_fuel n p = p
  left-Post vs d w (done v) n (i, grows, all) = (
    left-Inv vs d v n all i,
    (λ k h. rw (elem-append k v.order (d ∷ []), grows k h) refl),
    λ e no. elim no [
      | here q ↦ In-elem e (v.order ++ d ∷ []) (In-append_right v.order (here q))
      | there o ↦ elim o [ ]
    ],
  )

  guarded-Post :
      (vs : List String) (d : String) (w : Walk) (next : Visit)
      → Inv vs w
      → Next vs d
      → Chain vs
      → (elem d w.order ≡ false → elem d vs ≡ false → Post vs (d ∷ []) w next)
      → Post vs (d ∷ []) w (guarded d w next)
  guarded-Post vs d w next i n c k = elim (Bool-cases (elem d w.visited)) [
    | inl e ↦ rw e (
      i,
      (λ j h. h),
      λ x no. elim no [
        | here q ↦
            subst (λ y. elem y w.order ≡ true) (sym q) (subst (λ xs. elem d xs ≡ true) i.same e)
        | there o ↦ elim o [ ]
      ],
    )
    | inr e ↦ elim (Bool-cases (elem d w.visiting)) [
      | inl f ↦ rw (e, f) (d, Chain-Depends vs d d c n (subst (λ xs. elem d xs ≡ true) i.stack f))
      | inr f ↦
          rw (e, f)
            (k (subst (λ xs. elem d xs ≡ false) i.same e)
              (subst (λ xs. elem d xs ≡ false) i.stack f))
    ]
  ]

  -- With more fuel than there are keys off the stack, `visit` never runs out of it, it keeps the
  -- invariant and adds the skill, or it has found a cycle.
  pub visit-Post :
      (fuel : ℕ) (vs : List String) (d : String) (w : Walk)
      → Inv vs w
      → Next vs d
      → Chain vs
      → free (keys m) vs < fuel
      → Post vs (d ∷ []) w (visit m fuel d w)
  unfolding visit
  visit-Post zero vs d w i n c h = absurd (omega (arith, h))
  visit-Post (suc fuel) vs d w i n c h = guarded-Post vs d w _ i n c (λ new off.
      left-Post vs d w _ off (
        each-Post (d ∷ vs) (deps_of m d) (visit m fuel) (entered d w)
          (λ e dep v j.
            visit-Post fuel (d ∷ vs) e v j dep (n, c)
              (let less = free-lt (keys m) vs d (dep-key m d e dep) off in omega (arith, less, h)))
          (entered-Inv vs d w new i)))
