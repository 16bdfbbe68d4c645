-- ===== src/PeerSelection/Least.antt =====
-- The choice of `pickLeastLoaded` of peer-selection.ts.
use thinklocal_mcp.Base.{
  ◌≡◌, refl, sym, ◌∙◌, ap, subst, ◌<◌, ◌≤◌, String, Option, none, some, List, [], ◌∷◌, ◌⊎◌, inl,
  inr, arith, In, here, there, Option-cases,
}
use thinklocal_mcp.Base.Dict.{Dict, get}
use thinklocal_mcp.PeerSelection.{
  PeerLoad, no_data, least_loaded, LeastLoadedResult, compare_load, Loaded, add_loaded, with_data,
  better, best_of, first_or_best, pick_least_loaded,
}

-- No more loaded, by memory, then processor, then agents.
abbrev pub NotMore : PeerLoad → PeerLoad → Type 0
NotMore a b =
    (a.ram_used_percent < b.ram_used_percent)
    ⊎ ((a.ram_used_percent ≡ b.ram_used_percent)
        × ((a.cpu_load < b.cpu_load)
            ⊎ ((a.cpu_load ≡ b.cpu_load) × (a.agent_count ≤ b.agent_count))))

NotMore-refl : (a : PeerLoad) → NotMore a a
NotMore-refl a = ground arith

NotMore-trans : (a b c : PeerLoad) → NotMore a b → NotMore b c → NotMore a c
NotMore-trans a b c h k = ground arith

better_left : (a b : Loaded) → NotMore (better a b).load a.load
unfolding compare_load
better_left a b = ground arith

better_right : (a b : Loaded) → NotMore (better a b).load b.load
unfolding compare_load
better_right a b = ground arith

better_one : (a b : Loaded) → (better a b ≡ a) ⊎ (better a b ≡ b)
better_one a b = ground arith

best_least :
    (a : Loaded) (bs : List Loaded) (x : Loaded)
    → In x (a ∷ bs)
    → NotMore (best_of a bs).load x.load
unfolding best_of
best_least a [] x (here q) = rw q (NotMore-refl a.load)
best_least a [] x (there m) = elim m [ ]
best_least a (b ∷ bs) x m =
    let top = best_least (better a b) bs (better a b) (here refl) in
    elim m [
      | here q ↦ rw q (
          NotMore-trans (best_of (better a b) bs).load (better a b).load a.load top
            (better_left a b))
      | there (here q) ↦ rw q (
          NotMore-trans (best_of (better a b) bs).load (better a b).load b.load top
            (better_right a b))
      | there (there n) ↦ best_least (better a b) bs x (there n)
    ]

best-In : (a : Loaded) (bs : List Loaded) → In (best_of a bs) (a ∷ bs)
unfolding best_of
best-In a [] = here refl
best-In a (b ∷ bs) = place (best-In (better a b) bs)
  where
    place :
        In (best_of (better a b) bs) (better a b ∷ bs) → In (best_of (better a b) bs) (a ∷ b ∷ bs)
    place (there n) = there (there n)
    place (here q) = elim (better_one a b) [ inl e ↦ here (q ∙ e) | inr e ↦ there (here (q ∙ e)) ]

-- The candidate with what the map has for it.
with_data-In :
    (m : Dict PeerLoad) (ids : List String) (x : Loaded)
    → In x (with_data m ids)
    → In x.id ids × (get x.id m ≡ some x.load)
unfolding with_data
with_data-In m [] x i = elim i [ ]
with_data-In m (id ∷ ids) x i = place (get id m) refl (λ n. with_data-In m ids x n) i
  where
    place :
        (o : Option PeerLoad)
        → get id m ≡ o
        → (In x (with_data m ids) → In x.id ids × (get x.id m ≡ some x.load))
        → In x (add_loaded id o (with_data m ids))
        → In x.id (id ∷ ids) × (get x.id m ≡ some x.load)
    place none e rest n = let (j, g) = rest n in (there j, g)
    place (some l) e rest (here q) = (here (ap (λ (y : Loaded). y.id) q), rw q e)
    place (some l) e rest (there n) = let (j, g) = rest n in (there j, g)

In-with_data :
    (m : Dict PeerLoad) (ids : List String) (id : String) (l : PeerLoad)
    → In id ids
    → get id m ≡ some l
    → In (record { id = id; load = l }) (with_data m ids)
unfolding with_data
In-with_data m [] id l i g = elim i [ ]
In-with_data m (j ∷ ids) id l (here q) g =
    let same : get j m ≡ some l = subst (λ k. get k m ≡ some l) q g in
    rw same (here (ap (λ k. record { id = k; load = l }) q))
In-with_data m (j ∷ ids) id l (there n) g = later (get j m) (In-with_data m ids id l n g)
  where
    later :
        (o : Option PeerLoad)
        → In (record { id = id; load = l }) (with_data m ids)
        → In (record { id = id; load = l }) (add_loaded j o (with_data m ids))
    later none k = k
    later (some w) k = there k

-- Chosen by load: a candidate with data, no more loaded than any other candidate with data. Else the
-- first candidate, when none has data.
abbrev pub IsLeast : String → List String → Dict PeerLoad → LeastLoadedResult → Type 0
IsLeast first ids m r =
    ((l : PeerLoad) × (r.reason ≡ least_loaded l)
      × In r.agent_id ids
      × (get r.agent_id m ≡ some l)
      × ((id : String) (k : PeerLoad) → In id ids → get id m ≡ some k → NotMore l k))
    ⊎ ((r.reason ≡ no_data) × (r.agent_id ≡ first) × ((id : String) → In id ids → get id m ≡ none))

chosen_IsLeast :
    (first : String) (ids : List String) (m : Dict PeerLoad) (xs : List Loaded)
    → with_data m ids ≡ xs
    → IsLeast first ids m (first_or_best first xs)
chosen_IsLeast first ids m [] e = inr (
  refl,
  refl,
  λ id i. elim (Option-cases (get id m)) [
    | inl n ↦ n
    | inr (l, g) ↦
        absurd
          (no_member (subst (In (record { id = id; load = l })) e (In-with_data m ids id l i g)))
  ],
)
  where
    no_member : {x : Loaded} → In x [] → ⊥
    no_member n = elim n [ ]
chosen_IsLeast first ids m (a ∷ bs) e =
    let best = best_of a bs in
    let (i, g) = with_data-In m ids best (subst (In best) (sym e) (best-In a bs)) in
    inl (
      best.load,
      refl,
      i,
      g,
      λ id k j h.
          best_least a bs (record { id = id; load = k })
            (subst (In (record { id = id; load = k })) e (In-with_data m ids id k j h)),
    )

-- Among candidates some of which have data the choice is one with data, and none with data is less
-- loaded, by memory, then processor, then agents; if none has data it is the first candidate.
pub picked-IsLeast :
    (first : String) (ids : List String) (m : Dict PeerLoad) (r : LeastLoadedResult)
    → pick_least_loaded (first ∷ ids) m ≡ some r
    → IsLeast first (first ∷ ids) m r
unfolding pick_least_loaded
picked-IsLeast first ids m r h =
    let same : first_or_best first (with_data m (first ∷ ids)) ≡ r = cc in
    subst (IsLeast first (first ∷ ids) m) same (chosen_IsLeast first (first ∷ ids) m _ refl)
