-- ===== src/Channels/Router.antt =====
-- When packages/daemon/src/approval-router.ts approves a call by the matrix and its channel.
use thinklocal_mcp.Base.{
  ◌≡◌, ◌↔◌, refl, ap, ◌∙◌, sym, subst, true, false, Option, none, some, List, inl, inr, Bool-cases,
  find, In, Bool, ◌&&◌, arith,
}
use thinklocal_mcp.Base.Text.{Text, text_eq, text_eq_iff}
use thinklocal_mcp.Forward.{Attempt, returned}
use thinklocal_mcp.Matrix.{
  Value, ok, parse_freigabe_matrix, FreigabeEntry, ResolveContext, MatrixTarget, target_of,
  resolve_entry, is_routable, same_tier, McpExecutionTier,
}
use thinklocal_mcp.Matrix.Resolution.{covers, Picked, resolved, routable_iff}
use thinklocal_mcp.Channels.{
  ApprovalOutcome, approved, rejected, denied_no_channel, timeout, error, ApprovalRequest,
  ApprovalDecision, is_approved, shaped, RawDecision, outcome_text, normalize_decision, Meldekanal,
  request_approval_on, same_call, noted, consulted, routed, request_approval_via_matrix,
}
use thinklocal_mcp.Channels.Registry.{IsUp, Consents, approved_on_iff}

-- The registry as the router's approver: its decision is an object with an outcome of its own.
abbrev pub registry_approver : List Meldekanal → Text → ApprovalRequest → Attempt RawDecision
registry_approver cs channel req =
    let d = request_approval_on cs channel req in
    returned
      (record { shape = shaped (some (outcome_text d.outcome)) d.note; claimed = d.channel_id })

noted_outcome :
    (channel : Text) (claimed : Option Text) (d : ApprovalDecision)
    → (noted channel claimed d).outcome ≡ d.outcome
noted_outcome channel none d = refl
noted_outcome channel (some c) d = elim (Bool-cases (text_eq c channel)) [
  | inl e ↦ rw e refl
  | inr e ↦ rw e refl
]

-- The outcome of a decision survives being read back from its text.
normalize_outcome :
    (o : ApprovalOutcome) (remark claimed : Option Text) (channel : Text)
    → (normalize_decision
        (record { shape = shaped (some (outcome_text o)) remark; claimed = claimed })
        channel).outcome
      ≡ o
unfolding normalize_decision
normalize_outcome approved remark claimed channel = refl
normalize_outcome rejected remark claimed channel = refl
normalize_outcome denied_no_channel remark claimed channel = refl
normalize_outcome timeout remark claimed channel = refl
normalize_outcome error remark claimed channel = refl

same_outcome : (d e : ApprovalDecision) → d.outcome ≡ e.outcome → is_approved d ≡ is_approved e
same_outcome d e h = ap (λ o. is_approved (record d { outcome = o })) h

consulted_approves :
    (cs : List Meldekanal) (req : ApprovalRequest) (t : MatrixTarget)
    → is_approved (consulted t (registry_approver cs t.channel req)).decision
      ≡ is_approved (request_approval_on cs t.channel req)
consulted_approves cs req t =
    let d = request_approval_on cs t.channel req in
    same_outcome (consulted t (registry_approver cs t.channel req)).decision d (
      noted_outcome t.channel d.channel_id _
      ∙ normalize_outcome d.outcome d.note d.channel_id t.channel)

-- The channel with this name exists, is healthy and itself approves.
abbrev pub ChannelApproves : List Meldekanal → ApprovalRequest → Text → Type 0
ChannelApproves cs req channel =
    (c : Meldekanal) × (find (λ d. text_eq d.id channel) cs ≡ some c) × IsUp c × Consents c req

routed_yes :
    (cs : List Meldekanal) (req : ApprovalRequest) (o : Option MatrixTarget)
    → is_approved (routed (registry_approver cs) req o).decision ≡ true
    → (t : MatrixTarget) × (o ≡ some t) × ChannelApproves cs req t.channel
routed_yes cs req none h = cc
routed_yes cs req (some t) h = elim (Bool-cases (is_routable (some t))) [
  | inl r ↦ (
    t,
    refl,
    (approved_on_iff cs t.channel req).0 (sym (consulted_approves cs req t) ∙ (rw r at h)),
  )
  | inr r ↦ absurd (let no : false ≡ true = (rw r at h) in cc)
]

-- The entry that the matrix picks for a call.
abbrev pub Decides : List FreigabeEntry → ResolveContext → FreigabeEntry → Type 0
Decides es ctx e = In e es × (covers ctx e ≡ true) × (resolve_entry es ctx ≡ target_of (some e))

Picked-entry :
    (es : List FreigabeEntry) (ctx : ResolveContext) (o : Option FreigabeEntry)
    → resolve_entry es ctx ≡ target_of o
    → Picked ctx (λ e. In e es) o
    → (t : MatrixTarget) → resolve_entry es ctx ≡ some t
    → (e : FreigabeEntry) × Decides es ctx e × (target_of (some e) ≡ some t)
Picked-entry es ctx none r p t h = absurd (let no : none ≡ some t = sym r ∙ h in cc)
Picked-entry es ctx (some e) r (m, c) t h = (e, (m, c, r), sym r ∙ h)

target_channel :
    (e : FreigabeEntry) (t : MatrixTarget) → target_of (some e) ≡ some t → t.channel ≡ e.channel
target_channel e t h =
    let same : record { channel = e.channel; decider = e.decider } ≡ t = cc in
    ap (λ (u : MatrixTarget). u.channel) (sym same)

decided_entry :
    (es : List FreigabeEntry) (ctx : ResolveContext) (t : MatrixTarget)
    → resolve_entry es ctx ≡ some t
    → (e : FreigabeEntry) × Decides es ctx e × (t.channel ≡ e.channel)
unfolding resolve_entry
decided_entry es ctx t h =
    let (e, d, same) = Picked-entry es ctx _ refl (resolved ctx es) t h in
    (e, d, target_channel e t same)

same_tier_iff : (s t : McpExecutionTier) → (same_tier s t ≡ true) ↔ (s ≡ t)
same_tier_iff s t = ground arith

-- The request is about the tier, the server and the tool of the call.
abbrev pub IsAbout : ResolveContext → ApprovalRequest → Type 0
IsAbout ctx req = (ctx.tier ≡ req.tier) × (ctx.server ≡ req.server) × (ctx.tool ≡ req.tool)

all_three : (a b c : Bool) → (a && b && c ≡ true) ↔ ((a ≡ true) × (b ≡ true) × (c ≡ true))
all_three a b c = ground arith

same_call-IsAbout :
    (ctx : ResolveContext) (req : ApprovalRequest) → (same_call ctx req ≡ true) ↔ IsAbout ctx req
same_call-IsAbout ctx req =
    let (split, join) =
      all_three (same_tier ctx.tier req.tier) (text_eq ctx.server req.server)
        (text_eq ctx.tool req.tool) in
    let (tier, tier') = same_tier_iff ctx.tier req.tier in
    let (server, server') = text_eq_iff ctx.server req.server in
    let (tool, tool') = text_eq_iff ctx.tool req.tool in
    (
      λ h. let (a, b, c) = split h in (tier a, server b, tool c),
      λ (a, b, c). join (tier' a, server' b, tool' c),
    )

via_yes :
    (es : List FreigabeEntry) (cs : List Meldekanal) (ctx : ResolveContext) (req : ApprovalRequest)
    → is_approved (request_approval_via_matrix es (registry_approver cs) ctx req).decision ≡ true
    → (same_call ctx req ≡ true)
      × (e : FreigabeEntry) × Decides es ctx e
      × ChannelApproves cs req e.channel
unfolding request_approval_via_matrix
via_yes es cs ctx req h = elim (Bool-cases (same_call ctx req)) [
  | inl s ↦
      let (t, r, k) = routed_yes cs req (resolve_entry es ctx) (rw s at h) in
      let (e, d, same) = decided_entry es ctx t r in
      (s, e, d, subst (ChannelApproves cs req) same k)
  | inr s ↦ absurd (let no : false ≡ true = (rw s at h) in cc)
]

routed_approves :
    (es : List FreigabeEntry) (cs : List Meldekanal) (ctx : ResolveContext) (req : ApprovalRequest)
    (e : FreigabeEntry)
    → is_routable (resolve_entry es ctx) ≡ true
    → Decides es ctx e
    → ChannelApproves cs req e.channel
    → is_approved (routed (registry_approver cs) req (resolve_entry es ctx)).decision ≡ true
routed_approves es cs ctx req e r (m, c, d) k =
    let there : is_routable (target_of (some e)) ≡ true = (rw d at r) in
    rw (d, there)
      (consulted_approves cs req (record { channel = e.channel; decider = e.decider })
        ∙ (approved_on_iff cs e.channel req).1 k)

-- For a matrix that is parsed, a call is approved over the registry of channels exactly when the request
-- is about this very call, the matrix picks an entry that covers it, and the channel of that entry exists,
-- is healthy and itself approves: no other channel is a substitute.
pub matrix_approves_iff :
    (raw : Value) (known : List Text) (es : List FreigabeEntry) (cs : List Meldekanal)
    (ctx : ResolveContext) (req : ApprovalRequest)
    → parse_freigabe_matrix raw known ≡ ok es
    → (is_approved (request_approval_via_matrix es (registry_approver cs) ctx req).decision ≡ true)
      ↔ (IsAbout ctx req
          × (e : FreigabeEntry) × Decides es ctx e
          × ChannelApproves cs req e.channel)
unfolding request_approval_via_matrix
matrix_approves_iff raw known es cs ctx req h = (
  λ yes'.
      let (s, e, d, k) = via_yes es cs ctx req yes' in ((same_call-IsAbout ctx req).0 s, e, d, k),
  λ (about, e, d, k).
      let s = (same_call-IsAbout ctx req).1 about in
      let (m, c, r) = d in
      let routes = (routable_iff raw known es ctx h).1 (e, m, c) in
      rw s (routed_approves es cs ctx req e routes d k),
)
