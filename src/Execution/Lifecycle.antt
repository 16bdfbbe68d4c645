-- ===== src/Execution/Lifecycle.antt =====
-- The state machine of execution-state.ts over any sequence of calls, stale ones included.
use thinklocal_mcp.Base.{
  ℕ, ◌≡◌, refl, String, true, false, Option, none, some, List, [], ◌∷◌, arith, ◌⊎◌, str_eq, eq_iff,
  Bool-cases, Option-cases, inl, inr, ap, ◌∙◌, sym, subst, is_some,
}
use thinklocal_mcp.Base.Dict.{get, get-set}
use thinklocal_mcp.Execution.{
  LifecycleState, ExecutionType, ExecutionRow, Store, create, is_valid, same_state, is_end, updated,
  guarded_update, transition,
}

-- `stale` is the second half of a `transition` whose first half read `old` at some earlier time, as
-- happens when two processes share the database.
pub data Event : Type 0 where
  creates :
      (id : String) (now : ℕ) (instance_uuid : String)
      → Option ExecutionType
      → Option String
      → Event
  transitions : (id : String) → LifecycleState → (now : ℕ) → Event
  stale : (id : String) (old new : LifecycleState) → is_valid old new ≡ true → (now : ℕ) → Event

abbrev pub or_same : Store → Option Store → Store
or_same s none = s
or_same s (some s') = s'

unfoldable pub step : Store → Event → Store
step s (creates id now uuid t m) = or_same s (create id now uuid t m s)
step s (transitions id new now) = (transition id new now s).0
step s (stale id old new valid now) = (guarded_update id old new now s).0

unfoldable pub steps : Store → List Event → Store
steps s [] = s
steps s (e ∷ es) = steps (step s e) es

-- The diagram: accepted to running or aborted, running to an end.
infix 40 ◌⟶*◌
pub data ◌⟶*◌ : LifecycleState → LifecycleState → Type 0 where
  stay : {a : LifecycleState} → a ⟶* a
  move : {a b c : LifecycleState} → is_valid a b ≡ true → b ⟶* c → a ⟶* c

⟶*_trans : {a b c : LifecycleState} → a ⟶* b → b ⟶* c → a ⟶* c
⟶*_trans stay q = q
⟶*_trans (move v p) q = move v (⟶*_trans p q)

-- A row is dated as completed exactly in an end state.
abbrev pub IsDated : ExecutionRow → Type 0
IsDated r = is_some r.completed_at ≡ is_end r.lifecycle_state

record Advances (r r' : ExecutionRow) : Type 0 where
  path : r.lifecycle_state ⟶* r'.lifecycle_state
  dated : IsDated r → IsDated r'
  frozen : is_end r.lifecycle_state ≡ true → r' ≡ r

Advances-refl : (r : ExecutionRow) → Advances r r
Advances-refl r = record { path = stay; dated = λ h. h; frozen = λ h. refl }

updated-Advances :
    (r : ExecutionRow) (new : LifecycleState) (now : ℕ)
    → is_valid r.lifecycle_state new ≡ true
    → Advances r (updated new now r)
unfolding updated
updated-Advances r new now v = record {
  path = move v stay;
  dated = λ h. ground arith;
  frozen = λ e. ground arith;
}

same_state_eq : (a b : LifecycleState) → same_state a b ≡ true → a ≡ b
same_state_eq a b h = ground arith

some_eq : {r u : ExecutionRow} → some r ≡ some u → r ≡ u
some_eq h = cc

abbrev Later : String → ExecutionRow → Store → Type 0
Later k r s = (r' : ExecutionRow) × (get k s ≡ some r') × Advances r r'

guarded_update-Later :
    (id : String) (old new : LifecycleState) (now : ℕ) (s : Store) (k : String) (r : ExecutionRow)
    → is_valid old new ≡ true
    → get k s ≡ some r
    → Later k r (guarded_update id old new now s).0
unfolding guarded_update
guarded_update-Later id old new now s k r v h = elim (Option-cases (get id s)) [
  | inl e ↦ rw e (r, h, Advances-refl r)
  | inr (u, e) ↦ elim (Bool-cases (same_state u.lifecycle_state old)) [
    | inr moved ↦ rw (e, moved) (r, h, Advances-refl r)
    | inl current ↦ elim (Bool-cases (str_eq id k)) [
      | inr other ↦ rw (e, current) (r, rw (get-set, other) h, Advances-refl r)
      | inl same ↦
          let eq : u ≡ r =
            some_eq (sym e ∙ ap (λ (i : String). get i s) ((eq_iff id k).0 same) ∙ h) in
          let ok : is_valid u.lifecycle_state new ≡ true =
            rw (same_state_eq u.lifecycle_state old current) v in
          rw (e, current)
            (
              updated new now u,
              rw (get-set, same),
              subst (λ x. Advances x (updated new now u)) eq (updated-Advances u new now ok),
            )
    ]
  ]
]

create-Later :
    (id : String) (now : ℕ) (uuid : String) (t : Option ExecutionType) (m : Option String)
    (s : Store) (k : String) (r : ExecutionRow)
    → get k s ≡ some r
    → get k (or_same s (create id now uuid t m s)) ≡ some r
unfolding create
create-Later id now uuid t m s k r h = elim (Option-cases (get id s)) [
  | inr (u, e) ↦ rw e h
  | inl e ↦ elim (Bool-cases (str_eq id k)) [
    | inr other ↦ rw e (rw (get-set, other) h)
    | inl same ↦ absurd (
        let no : none ≡ some r = sym e ∙ ap (λ (i : String). get i s) ((eq_iff id k).0 same) ∙ h in
        cc)
  ]
]

transition-Later :
    (id : String) (new : LifecycleState) (now : ℕ) (s : Store) (k : String) (r : ExecutionRow)
    → get k s ≡ some r
    → Later k r (transition id new now s).0
unfolding transition
transition-Later id new now s k r h = elim (Option-cases (get id s)) [
  | inl e ↦ rw e (r, h, Advances-refl r)
  | inr (u, e) ↦ elim (Bool-cases (is_valid u.lifecycle_state new)) [
    | inr no_edge ↦ rw (e, no_edge) (r, h, Advances-refl r)
    | inl edge ↦ rw (e, edge) (guarded_update-Later id u.lifecycle_state new now s k r edge h)
  ]
]

step-Later :
    (s : Store) (e : Event) (k : String) (r : ExecutionRow)
    → get k s ≡ some r
    → Later k r (step s e)
unfolding step
step-Later s (creates id now uuid t m) k r h =
    (r, create-Later id now uuid t m s k r h, Advances-refl r)
step-Later s (stale id old new v now) k r h = guarded_update-Later id old new now s k r v h
step-Later s (transitions id new now) k r h = transition-Later id new now s k r h

Advances-trans : (a b c : ExecutionRow) → Advances a b → Advances b c → Advances a c
Advances-trans a b c p q = record {
  path = ⟶*_trans p.path q.path;
  dated = λ h. q.dated (p.dated h);
  frozen = λ e.
      let same : b ≡ a = p.frozen e in
      q.frozen (subst (λ (x : ExecutionRow). is_end x.lifecycle_state ≡ true) (sym same) e) ∙ same;
}

steps-Later :
    (s : Store) (es : List Event) (k : String) (r : ExecutionRow)
    → get k s ≡ some r
    → Later k r (steps s es)
unfolding steps
steps-Later s [] k r h = (r, h, Advances-refl r)
steps-Later s (e ∷ es) k r h =
    let (u, hu, p) = step-Later s e k r h in
    let (w, hw, q) = steps-Later (step s e) es k u hu in (w, hw, Advances-trans r u w p q)

-- Whatever calls follow, the stale second halves of concurrent transitions included, an execution
-- that is dated as completed exactly in an end state stays known, its state moves along the diagram,
-- it stays dated as completed exactly in an end state, and a row in an end state does not change.
pub steps_advance :
    (s : Store) (es : List Event) (k : String) (r : ExecutionRow)
    → get k s ≡ some r
    → IsDated r
    → (r' : ExecutionRow) × (get k (steps s es) ≡ some r')
      × (r.lifecycle_state ⟶* r'.lifecycle_state)
      × IsDated r'
      × ((r' ≡ r) ⊎ (is_end r.lifecycle_state ≡ false))
steps_advance s es k r h d =
    let (r', h', a) = steps-Later s es k r h in
    (
      r',
      h',
      a.path,
      a.dated d,
      elim (Bool-cases (is_end r.lifecycle_state)) [ inl e ↦ inl (a.frozen e) | inr e ↦ inr e ],
    )
