-- ===== src/Channels/Registry.antt =====
-- When the registry of channels of packages/daemon/src/meldekanal.ts approves.
use thinklocal_mcp.Base.{
  ◌≡◌, ◌↔◌, refl, ap, ◌∙◌, Bool, true, false, Option, none, some, List, [], ◌∷◌, arith,
  if◌then◌else◌, inl, inr, Bool-cases, find, sym, ◌++◌, All, All-imply, find-split,
  find-append_first,
}
use thinklocal_mcp.Base.Text.{Text, codes, text_eq, text_eq_iff}
use thinklocal_mcp.Channels.{
  approved, rejected, denied_no_channel, timeout, ApprovalRequest, ApprovalDecision, is_approved,
  Shape, no_object, no_outcome, throwing, shaped, RawDecision, known_outcome, decision, error,
  read_shape, normalize_decision, Timed, in_time, timed_out, failed, Meldekanal, new_registry,
  healthy_now, settled, request_approval, asked_on, request_approval_on,
}

-- What a channel returned says approved, and says it itself.
abbrev pub SaysApproved : RawDecision → Type 0
SaysApproved raw = (remark : Option Text) × (raw.shape ≡ shaped (some (codes "approved")) remark)

first_outcome :
    (a b c d e : Bool) (channel_id : Text) (remark : Option Text)
    → is_approved (
        known_outcome
          (if a
            then some approved
            else if b
            then some rejected
            else if c
            then some denied_no_channel
            else if d
            then some timeout
            else if e
            then some error
            else none)
          channel_id
          remark)
      ≡ true
    → a ≡ true
first_outcome a b c d e channel_id remark h = ground arith

shape_yes :
    (shape : Shape) (channel_id : Text)
    → is_approved (read_shape shape channel_id) ≡ true
    → (remark : Option Text) × (shape ≡ shaped (some (codes "approved")) remark)
shape_yes no_object channel_id h = cc
shape_yes no_outcome channel_id h = cc
shape_yes throwing channel_id h = cc
shape_yes (shaped none remark) channel_id h = cc
shape_yes (shaped (some t) remark) channel_id h =
    let is = first_outcome (text_eq t (codes "approved")) _ _ _ _ channel_id remark h in
    (remark, ap (λ u. shaped (some u) remark) ((text_eq_iff t (codes "approved")).0 is))

-- Whatever a channel returns is an approval exactly when it says so itself.
pub normalize_iff :
    (raw : RawDecision) (channel_id : Text)
    → (is_approved (normalize_decision raw channel_id) ≡ true) ↔ SaysApproved raw
unfolding normalize_decision
normalize_iff raw channel_id = (shape_yes raw.shape channel_id, λ (remark, e). rw e refl)

-- The channel answers in time, and approves.
abbrev pub Consents : Meldekanal → ApprovalRequest → Type 0
Consents c req = (raw : RawDecision) × (c.answer req ≡ in_time raw) × SaysApproved raw

settled_yes :
    (c : Meldekanal) (answer : Timed RawDecision)
    → is_approved (settled c answer) ≡ true
    → (raw : RawDecision) × (answer ≡ in_time raw) × SaysApproved raw
settled_yes c (in_time raw) h = (raw, refl, (normalize_iff raw c.id).0 h)
settled_yes c timed_out h = cc
settled_yes c (failed e) h = cc

settled_iff :
    (c : Meldekanal) (req : ApprovalRequest)
    → (is_approved (settled c (c.answer req)) ≡ true) ↔ Consents c req
settled_iff c req =
    (settled_yes c (c.answer req), λ (raw, e, s). rw e ((normalize_iff raw c.id).1 s))

-- The first channel that is healthy now, if any, decides alone.
abbrev pub decided_by : Option Meldekanal → ApprovalRequest → ApprovalDecision
decided_by none req = decision denied_no_channel none none
decided_by (some c) req = settled c (c.answer req)

request_is_first :
    (cs : List Meldekanal) (req : ApprovalRequest)
    → request_approval cs req ≡ decided_by (find healthy_now cs) req
unfolding request_approval
request_is_first [] req = refl
request_is_first (c ∷ cs) req = elim (Bool-cases (healthy_now c)) [
  | inl e ↦ rw e refl
  | inr e ↦ rw e (request_is_first cs req)
]

decided_iff :
    (o : Option Meldekanal) (req : ApprovalRequest)
    → (is_approved (decided_by o req) ≡ true) ↔ ((c : Meldekanal) × (o ≡ some c) × Consents c req)
decided_iff none req = (λ h. cc, λ (c, e, k). cc)
decided_iff (some c) req = (
  λ h. (c, refl, (settled_iff c req).0 h),
  λ (d, e, k). ap (λ o. is_approved (decided_by o req)) e ∙ (settled_iff d req).1 k,
)

new_registry-find :
    (cs : List Meldekanal) → find healthy_now (new_registry cs) ≡ find healthy_now cs
new_registry-find [] = refl
new_registry-find (c ∷ cs) = refl

-- The test of health answers in time that the channel is healthy.
abbrev pub IsUp : Meldekanal → Type 0
IsUp c = c.is_healthy ≡ in_time true

up_iff :
    (h : Timed Bool)
    → (elim h [ in_time b ↦ b | timed_out ↦ false | failed e ↦ false ] ≡ true) ↔ (h ≡ in_time true)
up_iff (in_time b) = (λ h. ap in_time h, λ h. cc)
up_iff timed_out = (λ h. cc, λ h. cc)
up_iff (failed e) = (λ h. cc, λ h. cc)

down_iff : (c : Meldekanal) → (healthy_now c ≡ false) ↔ ¬ IsUp c
down_iff c = (
  λ h up. let yes' = (up_iff c.is_healthy).1 up in let clash : true ≡ false = sym yes' ∙ h in cc,
  λ down. elim (Bool-cases (healthy_now c)) [
    | inl h ↦ absurd (down ((up_iff c.is_healthy).0 h))
    | inr h ↦ h
  ],
)

-- The channel is the first of the list that is healthy.
abbrev pub IsFirstUp : List Meldekanal → Meldekanal → Type 0
IsFirstUp cs c =
    (before after : List Meldekanal) × (cs ≡ before ++ c ∷ after)
    × All (λ d. ¬ IsUp d) before
    × IsUp c

find-IsFirstUp :
    (cs : List Meldekanal) (c : Meldekanal) → (find healthy_now cs ≡ some c) ↔ IsFirstUp cs c
find-IsFirstUp cs c = (
  λ h.
      let (before, after, split, down, up) = find-split healthy_now cs c h in
      (
        before,
        after,
        split,
        All-imply _ _ before (λ d. (down_iff d).0) down,
        (up_iff c.is_healthy).0 up,
      ),
  λ (before, after, split, down, up).
      ap (find healthy_now) split
      ∙ find-append_first healthy_now before after c
          (All-imply _ _ before (λ d. (down_iff d).1) down) ((up_iff c.is_healthy).1 up),
)

-- A request to the registry is approved exactly when some channel is healthy and the first healthy one
-- answers in time with an approval of its own: a registry without channels, an unhealthy channel, a
-- missed deadline, a failure and an answer of another shape never approve.
pub approved_iff :
    (cs : List Meldekanal) (req : ApprovalRequest)
    → (is_approved (request_approval (new_registry cs) req) ≡ true)
      ↔ ((c : Meldekanal) × IsFirstUp cs c × Consents c req)
approved_iff cs req =
    let first =
      request_is_first (new_registry cs) req ∙ ap (λ o. decided_by o req) (new_registry-find cs) in
    let (to, from) = decided_iff (find healthy_now cs) req in
    (
      λ h. let (c, found, k) = to (rw first at h) in (c, (find-IsFirstUp cs c).0 found, k),
      λ (c, up, k). rw first (from (c, (find-IsFirstUp cs c).1 up, k)),
    )

on_iff :
    (channel : Text) (req : ApprovalRequest) (o : Option Meldekanal)
    → (is_approved (asked_on channel req o) ≡ true)
      ↔ ((c : Meldekanal) × (o ≡ some c) × IsUp c × Consents c req)
on_iff channel req none = (λ h. cc, λ (c, e, y, k). cc)
on_iff channel req (some c) = elim (Bool-cases (healthy_now c)) [
  | inl y ↦ (
    λ h. (c, refl, (up_iff c.is_healthy).0 y, (settled_iff c req).0 (rw y at h)),
    λ (d, e, z, k).
        ap (λ o. is_approved (asked_on channel req o)) e
        ∙ rw ((up_iff d.is_healthy).1 z) ((settled_iff d req).1 k),
  )
  | inr n ↦ (
    λ h. absurd (let no : false ≡ true = (rw n at h) in cc),
    λ (d, e, z, k).
        ap (λ o. is_approved (asked_on channel req o)) e
        ∙ rw ((up_iff d.is_healthy).1 z) ((settled_iff d req).1 k),
  )
]

-- Asking one channel is approved exactly when that channel exists, is healthy and itself approves.
pub approved_on_iff :
    (cs : List Meldekanal) (channel : Text) (req : ApprovalRequest)
    → (is_approved (request_approval_on cs channel req) ≡ true) ↔ (
        (c : Meldekanal) × (find (λ d. text_eq d.id channel) cs ≡ some c) × IsUp c × Consents c req)
unfolding request_approval_on
approved_on_iff cs channel req = on_iff channel req (find (λ d. text_eq d.id channel) cs)
