-- ===== src/Approvals/Decisions.antt =====
-- A decision of approvals.ts is taken once.
use thinklocal_mcp.Base.{
  ℕ, ◌≡◌, refl, String, Json, Bool, true, false, Option, none, some, List, [], ◌∷◌, str_eq, eq_iff,
  Bool-cases, Option-cases, inl, inr, ap, ◌∙◌, sym, subst,
}
use thinklocal_mcp.Base.Dict.{get, set, get-set, get-set_self}
use thinklocal_mcp.Approvals.{
  ApprovalType, ApprovalRow, Store, create, Verdict, approve, reject, is_pending, decided, decide,
  is_approved,
}

pub data Event : Type 0 where
  creates : (id : String) (now : ℕ) → ApprovalType → Json → (summary : String) → Event
  decides : (id : String) → Verdict → Option String → (now : ℕ) → Event

abbrev pub or_same : Store → Option Store → Store
or_same s none = s
or_same s (some s') = s'

unfoldable pub step : Store → Event → Store
step s (creates id now t payload summary) = or_same s (create id now t payload summary s)
step s (decides id v decision_note now) = (decide id v decision_note now s).0

unfoldable pub steps : Store → List Event → Store
steps s [] = s
steps s (e ∷ es) = steps (step s e) es

some_eq : {r u : ApprovalRow} → some r ≡ some u → r ≡ u
some_eq h = cc

create_keeps :
    (id : String) (now : ℕ) (t : ApprovalType) (payload : Json) (summary : String) (s : Store)
    (k : String) (r : ApprovalRow)
    → get k s ≡ some r
    → get k (or_same s (create id now t payload summary s)) ≡ some r
unfolding create
create_keeps id now t payload summary s k r h = elim (Option-cases (get id s)) [
  | inr (u, e) ↦ rw e h
  | inl e ↦ elim (Bool-cases (str_eq id k)) [
    | inr other ↦ rw e (rw (get-set, other) h)
    | inl same ↦ absurd (
        let no : none ≡ some r = sym e ∙ ap (λ (i : String). get i s) ((eq_iff id k).0 same) ∙ h in
        cc)
  ]
]

decide_keeps :
    (id : String) (v : Verdict) (remark : Option String) (now : ℕ) (s : Store) (k : String)
    (r : ApprovalRow)
    → get k s ≡ some r
    → is_pending r.status ≡ false
    → get k (decide id v remark now s).0 ≡ some r
unfolding decide
decide_keeps id v remark now s k r h settled = elim (Option-cases (get id s)) [
  | inl e ↦ rw e h
  | inr (u, e) ↦ elim (Bool-cases (is_pending u.status)) [
    | inr over ↦ rw (e, over) h
    | inl open_row ↦ elim (Bool-cases (str_eq id k)) [
      | inr other ↦ rw (e, open_row) (rw (e, open_row) (rw (get-set, other) h))
      | inl same ↦
          let eq : u ≡ r =
            some_eq (sym e ∙ ap (λ (i : String). get i s) ((eq_iff id k).0 same) ∙ h) in
          absurd (
            let no : true ≡ false =
              sym open_row
              ∙ subst (λ (x : ApprovalRow). is_pending x.status ≡ false) (sym eq) settled in
            cc)
    ]
  ]
]

steps_keep :
    (s : Store) (es : List Event) (k : String) (r : ApprovalRow)
    → get k s ≡ some r
    → is_pending r.status ≡ false
    → get k (steps s es) ≡ some r
unfolding steps step
steps_keep s [] k r h settled = h
steps_keep s (creates id now t payload summary ∷ es) k r h settled =
    steps_keep (or_same s (create id now t payload summary s)) es k r
      (create_keeps id now t payload summary s k r h) settled
steps_keep s (decides id v remark now ∷ es) k r h settled =
    steps_keep (decide id v remark now s).0 es k r (decide_keeps id v remark now s k r h settled)
      settled

decide_pending :
    (id : String) (v : Verdict) (remark : Option String) (now : ℕ) (s : Store) (r : ApprovalRow)
    → get id s ≡ some r
    → is_pending r.status ≡ true
    → decide id v remark now s ≡ (set id (decided v remark now r) s, some (decided v remark now r))
unfolding decide
decide_pending id v remark now s r h p = rw (h, p) (rw (h, p) (rw get-set_self))

decide_settled :
    (id : String) (v : Verdict) (remark : Option String) (now : ℕ) (s : Store) (r : ApprovalRow)
    → get id s ≡ some r
    → is_pending r.status ≡ false
    → decide id v remark now s ≡ (s, some r)
unfolding decide
decide_settled id v remark now s r h p = rw (h, p)

abbrev pub is_approve : Verdict → Bool
is_approve approve = true
is_approve reject = false

decided_settled :
    (v : Verdict) (remark : Option String) (now : ℕ) (r : ApprovalRow)
    → is_pending (decided v remark now r).status ≡ false
decided_settled approve remark now r = refl
decided_settled reject remark now r = refl

is_approved-decided :
    (id : String) (v : Verdict) (remark : Option String) (now : ℕ) (r : ApprovalRow) (s : Store)
    → get id s ≡ some (decided v remark now r)
    → is_approved id s ≡ is_approve v
unfolding is_approved
is_approved-decided id approve remark now r s h = rw h
is_approved-decided id reject remark now r s h = rw h

-- The first decision on a pending approval is stored and returned, and stands for good: after any
-- further creations and decisions the row is that of the first decision, a new decision changes
-- nothing and returns it, and `isApproved` says whether the first decision was to approve.
pub first_decision_stands :
    (id : String) (v : Verdict) (remark : Option String) (now : ℕ) (s : Store) (r : ApprovalRow)
    (es : List Event)
    → get id s ≡ some r
    → is_pending r.status ≡ true
    → let row = decided v remark now r in
      let after = steps (decide id v remark now s).0 es in
      ((decide id v remark now s).1 ≡ some row)
      × (get id after ≡ some row)
      × ((v' : Verdict) (remark' : Option String) (now' : ℕ)
          → decide id v' remark' now' after ≡ (after, some row))
      × (is_approved id after ≡ is_approve v)
first_decision_stands id v remark now s r es h p =
    let row = decided v remark now r in
    let settled = decided_settled v remark now r in
    let done = decide_pending id v remark now s r h p in
    let stored : get id (decide id v remark now s).0 ≡ some row =
      ap (λ (x : Store × Option ApprovalRow). get id x.0) done ∙ get-set_self id row s in
    let kept = steps_keep (decide id v remark now s).0 es id row stored settled in
    (
      ap (λ (x : Store × Option ApprovalRow). x.1) done,
      kept,
      λ v' remark' now'. decide_settled id v' remark' now' _ row kept settled,
      is_approved-decided id v remark now r _ kept,
    )
