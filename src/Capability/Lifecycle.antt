-- ===== src/Capability/Lifecycle.antt =====
-- The states of one capability of one peer in capability-activation.ts.
use thinklocal_mcp.Base.{
  ℕ, ◌-◌, ◌≡◌, ◌≢◌, refl, String, Bool, true, false, not, Option, none, some, List, [], ◌∷◌, ◌++◌,
  arith, ◌==◌, if◌then◌else◌, find, map_where, filter, Bool-cases, Option-cases, inl, inr, ap, ◌∙◌,
  ◌&&◌,
}
use thinklocal_mcp.Capability.{
  CapabilityState, discovered, active, suspended, revoked, CapabilityActivationRow,
  CapabilityActivationStore, same_state, is_pair, get, drifted, discover, activatable, activated,
  activate, merged, suspended_row, revoked_row, suspend, revoke, is_active,
  prune_revoked_older_than, is_old, is_active_row,
}

module _ {ℓ} {A : Type ℓ} where
  find-append_some :
      (p : A → Bool) (xs ys : List A) (x : A) → find p xs ≡ some x → find p (xs ++ ys) ≡ some x
  find-append_some p [] ys x h = absurd (let no : none ≡ some x = h in cc)
  find-append_some p (y ∷ xs) ys x h = elim (Bool-cases (p y)) [
    | inl e ↦ rw e (rw e at h)
    | inr e ↦ rw e (find-append_some p xs ys x (rw e at h))
  ]

  find-map_where :
      (p q : A → Bool) (f : A → A) (xs : List A) (x : A)
      → ((a : A) → p (f a) ≡ p a)
      → find p xs ≡ some x
      → find p (map_where q f xs) ≡ some (if q x then f x else x)
  find-map_where p q f [] x k h = absurd (let no : none ≡ some x = h in cc)
  find-map_where p q f (y ∷ xs) x k h = elim (Bool-cases (p y)) [
    | inl e ↦
        let same : some y ≡ some x = (rw e at h) in
        elim (Bool-cases (q y)) [
          | inl hit ↦ rw hit (rw (k y, e) (let hit' : q x ≡ true = cc in rw hit' cc))
          | inr miss ↦ rw miss (rw e (let miss' : q x ≡ false = cc in rw miss' same))
        ]
    | inr e ↦
        let rest = find-map_where p q f xs x k (rw e at h) in
        elim (Bool-cases (q y)) [
          | inl hit ↦ rw hit (rw (k y, e) rest)
          | inr miss ↦ rw miss (rw e rest)
        ]
  ]

  find-filter :
      (p q : A → Bool) (xs : List A) (x : A)
      → q x ≡ true
      → find p xs ≡ some x
      → find p (filter q xs) ≡ some x
  find-filter p q [] x k h = h
  find-filter p q (y ∷ xs) x k h = elim (Bool-cases (p y)) [
    | inl e ↦
        let same : some y ≡ some x = (rw e at h) in
        let stays : q y ≡ true = cc in rw stays (rw e same)
    | inr e ↦
        let rest = find-filter p q xs x k (rw e at h) in
        elim (Bool-cases (q y)) [ inl stays ↦ rw stays (rw e rest) | inr lost ↦ rw lost rest ]
  ]

-- The edges the four operations take.
abbrev pub is_edge : CapabilityState → CapabilityState → Bool
is_edge discovered active = true
is_edge suspended active = true
is_edge active suspended = true
is_edge revoked _ = false
is_edge _ revoked = true
is_edge _ _ = false

infix 40 ◌⟶*◌
pub data ◌⟶*◌ : CapabilityState → CapabilityState → Type 0 where
  stay : {a : CapabilityState} → a ⟶* a
  move : {a b c : CapabilityState} → is_edge a b ≡ true → b ⟶* c → a ⟶* c

⟶*_trans : {a b c : CapabilityState} → a ⟶* b → b ⟶* c → a ⟶* c
⟶*_trans stay q = q
⟶*_trans (move v p) q = move v (⟶*_trans p q)

no_exit : (a b : CapabilityState) → a ≡ revoked → is_edge a b ≡ true → b ≡ revoked
no_exit a b h v = ground arith

from_revoked : {a b : CapabilityState} → a ⟶* b → a ≡ revoked → b ≡ revoked
from_revoked stay h = h
from_revoked (move v p) h = from_revoked p (no_exit _ _ h v)

pub data Event : Type 0 where
  discovers : (c version o : String) → Option String → (now : ℕ) → Event
  activates : (c o : String) (now : ℕ) → Event
  suspends : (c o : String) → Option String → (now : ℕ) → Event
  revokes : (c o : String) → Option String → (now : ℕ) → Event

unfoldable pub step : CapabilityActivationStore → Event → CapabilityActivationStore
step s (discovers c version o hash now) = (discover c version o hash now s).0
step s (activates c o now) = (activate c o now s).0
step s (suspends c o reason now) = (suspend c o reason now s).0
step s (revokes c o reason now) = (revoke c o reason now s).0

unfoldable pub steps : CapabilityActivationStore → List Event → CapabilityActivationStore
steps s [] = s
steps s (e ∷ es) = steps (step s e) es

-- The row of a pair in a store after it was `r`.
abbrev Later : String → String → CapabilityActivationRow → CapabilityActivationStore → Type 0
Later c o r s = (r' : CapabilityActivationRow) × (get c o s ≡ some r') × (r.state ⟶* r'.state)

-- An update of the rows that pass a test, which keeps the pair and takes an edge.
update-Later :
    (c o : String) (r : CapabilityActivationRow) (s : CapabilityActivationStore)
    (q : CapabilityActivationRow → Bool) (f : CapabilityActivationRow → CapabilityActivationRow)
    → ((x : CapabilityActivationRow) → is_pair c o (f x) ≡ is_pair c o x)
    → (q r ≡ true → r.state ⟶* (f r).state)
    → get c o s ≡ some r
    → Later c o r (record s { rows = map_where q f s.rows })
unfolding get
update-Later c o r s q f pair edge h = elim (Bool-cases (q r)) [
  | inl hit ↦ (f r, find-map_where (is_pair c o) q f s.rows r pair h ∙ rw hit refl, edge hit)
  | inr miss ↦ (r, find-map_where (is_pair c o) q f s.rows r pair h ∙ rw miss refl, stay)
]

discover-Later :
    (c version o : String) (hash : Option String) (now : ℕ) (s : CapabilityActivationStore)
    (c' o' : String) (r : CapabilityActivationRow)
    → get c' o' s ≡ some r
    → Later c' o' r (discover c version o hash now s).0
unfolding discover
discover-Later c version o hash now s c' o' r h = elim (Option-cases (get c o s)) [
  | inr (u, e) ↦ rw e (
      update-Later c' o' r s (λ x. x.id == u.id) (drifted version hash now) (λ x. refl)
        (λ hit. stay) h)
  | inl e ↦ rw e (r, unfold get in find-append_some _ s.rows _ r (unfold get in h), stay)
]

edge_of_hit :
    (c o : String) (now : ℕ) (r : CapabilityActivationRow)
    → activatable c o r ≡ true
    → is_edge r.state active ≡ true
edge_of_hit c o now r h = ground arith

activate-Later :
    (c o : String) (now : ℕ) (s : CapabilityActivationStore) (c' o' : String)
    (r : CapabilityActivationRow)
    → get c' o' s ≡ some r
    → Later c' o' r (activate c o now s).0
unfolding activate
activate-Later c o now s c' o' r h =
    update-Later c' o' r s (activatable c o) (activated now) (λ x. refl)
      (λ hit. move (edge_of_hit c o now r hit) stay) h

suspend-Later :
    (c o : String) (reason : Option String) (now : ℕ) (s : CapabilityActivationStore)
    (c' o' : String) (r : CapabilityActivationRow)
    → get c' o' s ≡ some r
    → Later c' o' r (suspend c o reason now s).0
unfolding suspend
suspend-Later c o reason now s c' o' r h = elim (Option-cases (get c o s)) [
  | inl e ↦ rw e (r, h, stay)
  | inr (u, e) ↦ elim (Bool-cases (same_state u.state active)) [
    | inr inactive ↦ rw (e, inactive) (r, h, stay)
    | inl on ↦
        rw (e, on)
          (update-Later c' o' r s (λ x. x.id == u.id && same_state x.state active)
            (suspended_row (merged "suspend_reason" reason u.metadata) now) (λ x. refl)
            (λ hit. move (ground arith) stay) h)
  ]
]

revoke-Later :
    (c o : String) (reason : Option String) (now : ℕ) (s : CapabilityActivationStore)
    (c' o' : String) (r : CapabilityActivationRow)
    → get c' o' s ≡ some r
    → Later c' o' r (revoke c o reason now s).0
unfolding revoke
revoke-Later c o reason now s c' o' r h = elim (Option-cases (get c o s)) [
  | inl e ↦ rw e (r, h, stay)
  | inr (u, e) ↦ elim (Bool-cases (same_state u.state revoked)) [
    | inl gone ↦ rw (e, gone) (r, h, stay)
    | inr live ↦
        rw (e, live)
          (update-Later c' o' r s (λ x. x.id == u.id && not (same_state x.state revoked))
            (revoked_row (merged "revoke_reason" reason u.metadata) now) (λ x. refl)
            (λ hit. move (ground arith) stay) h)
  ]
]

step-Later :
    (s : CapabilityActivationStore) (e : Event) (c o : String) (r : CapabilityActivationRow)
    → get c o s ≡ some r
    → Later c o r (step s e)
unfolding step
step-Later s (discovers c version o hash now) c' o' r h =
    discover-Later c version o hash now s c' o' r h
step-Later s (activates c o now) c' o' r h = activate-Later c o now s c' o' r h
step-Later s (suspends c o reason now) c' o' r h = suspend-Later c o reason now s c' o' r h
step-Later s (revokes c o reason now) c' o' r h = revoke-Later c o reason now s c' o' r h

-- Whatever is discovered, activated, suspended and revoked, for any pairs, a capability that is
-- known stays known and its state moves along the edges of the four operations.
pub capability_advances :
    (s : CapabilityActivationStore) (es : List Event) (c o : String) (r : CapabilityActivationRow)
    → get c o s ≡ some r
    → (r' : CapabilityActivationRow) × (get c o (steps s es) ≡ some r') × (r.state ⟶* r'.state)
unfolding steps
capability_advances s [] c o r h = (r, h, stay)
capability_advances s (e ∷ es) c o r h =
    let (u, hu, p) = step-Later s e c o r h in
    let (w, hw, q) = capability_advances (step s e) es c o u hu in (w, hw, ⟶*_trans p q)

inactive :
    (c o : String) (s : CapabilityActivationStore) (r : CapabilityActivationRow)
    → get c o s ≡ some r
    → r.state ≡ revoked
    → is_active c o s ≡ false
unfolding is_active
inactive c o s r h g = ap is_active_row h ∙ ap (λ st. same_state st active) g

-- A revoked capability is never active again, however often it is discovered, activated,
-- suspended or revoked afterwards, as long as its row is not pruned.
pub revoked_for_good :
    (s : CapabilityActivationStore) (es : List Event) (c o : String) (r : CapabilityActivationRow)
    → get c o s ≡ some r
    → r.state ≡ revoked
    → is_active c o (steps s es) ≡ false
revoked_for_good s es c o r h g =
    let (r', h', p) = capability_advances s es c o r h in
    inactive c o (steps s es) r' h' (from_revoked p g)

keeps :
    (cutoff : ℕ) (r : CapabilityActivationRow) → r.state ≢ revoked → not (is_old cutoff r) ≡ true
keeps cutoff r h = ground arith

-- Retention never removes a capability that is not revoked: its row is found as before.
pub prune_keeps_live :
    (age now : ℕ) (s : CapabilityActivationStore) (c o : String) (r : CapabilityActivationRow)
    → get c o s ≡ some r
    → r.state ≢ revoked
    → get c o (prune_revoked_older_than age now s).0 ≡ some r
unfolding prune_revoked_older_than get
prune_keeps_live age now s c o r h live = elim (Bool-cases (age == 0)) [
  | inl off ↦ rw off h
  | inr on ↦ rw on (find-filter (is_pair c o) _ s.rows r (keeps (now - age) r live) h)
]
