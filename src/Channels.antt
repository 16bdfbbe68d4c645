-- ===== src/Channels.antt =====
-- packages/daemon/src/meldekanal.ts: the channels on which an operator is asked, and
-- packages/daemon/src/approval-router.ts, which asks the one channel that the matrix names. A channel is what
-- it does within its time limits: whether it is healthy, and what it answers.
pub mod Registry
pub mod Router
mod Tests
use thinklocal_mcp.Base.{
  Bool, true, false, not, Option, none, some, List, [], ◌∷◌, ◌++◌, if◌then◌else◌, ◌&&◌, ◌||◌, find,
  String,
}
use thinklocal_mcp.Base.Text.{Text, codes, text_eq, is_in, is_empty}
use thinklocal_mcp.Forward.{Attempt, threw, returned}
use thinklocal_mcp.Matrix.{
  McpExecutionTier, FreigabeEntry, ResolveContext, MatrixTarget, same_tier, resolve_entry,
  is_routable,
}

pub data ApprovalOutcome : Type 0 where
  approved rejected denied_no_channel timeout error : ApprovalOutcome

pub record ApprovalRequest : Type 0 where
  pub request_id : Text
  pub server : Text
  pub tool : Text
  pub tier : McpExecutionTier
  pub sender_uri : Text
  pub summary : Text

pub record ApprovalDecision : Type 0 where
  pub outcome : ApprovalOutcome
  pub channel_id : Option Text
  pub note : Option Text

abbrev pub is_approved : ApprovalDecision → Bool
is_approved d = elim d.outcome [ approved ↦ true | _ ↦ false ]

-- What a channel returns, of unknown shape: no object, an object without an outcome of its own, one
-- whose getter throws, or one with an outcome, which is none if it is no text.
pub data Shape : Type 0 where
  no_object no_outcome throwing : Shape
  shaped : (outcome note : Option Text) → Shape

-- With the text that the object itself gives as its channel.
pub record RawDecision : Type 0 where
  pub shape : Shape
  pub claimed : Option Text

abbrev pub outcome_of : Text → Option ApprovalOutcome
outcome_of t =
    if text_eq t (codes "approved")
    then some approved
    else if text_eq t (codes "rejected")
    then some rejected
    else if text_eq t (codes "denied-no-channel")
    then some denied_no_channel
    else if text_eq t (codes "timeout")
    then some timeout
    else if text_eq t (codes "error")
    then some error
    else none

abbrev pub outcome_text : ApprovalOutcome → Text
outcome_text approved = codes "approved"
outcome_text rejected = codes "rejected"
outcome_text denied_no_channel = codes "denied-no-channel"
outcome_text timeout = codes "timeout"
outcome_text error = codes "error"

abbrev pub decision : ApprovalOutcome → Option Text → Option Text → ApprovalDecision
decision outcome channel_id note = record {
  outcome = outcome;
  channel_id = channel_id;
  note = note;
}

abbrev pub known_outcome : Option ApprovalOutcome → Text → Option Text → ApprovalDecision
known_outcome none channel_id remark =
    decision error (some channel_id) (some (codes "channel returned unknown outcome"))
known_outcome (some outcome) channel_id remark = decision outcome (some channel_id) remark

abbrev pub read_shape : Shape → Text → ApprovalDecision
read_shape no_object channel_id =
    decision error (some channel_id) (some (codes "channel returned non-object decision"))
read_shape no_outcome channel_id =
    decision error (some channel_id) (some (codes "channel returned decision without own outcome"))
read_shape throwing channel_id =
    decision error (some channel_id) (some (codes "channel decision threw"))
read_shape (shaped none note) channel_id = known_outcome none channel_id note
read_shape (shaped (some t) note) channel_id = known_outcome (outcome_of t) channel_id note

unfoldable pub normalize_decision : RawDecision → Text → ApprovalDecision
normalize_decision raw channel_id = read_shape raw.shape channel_id

-- How a call under a time limit ends.
pub data Timed {ℓ} (A : Type ℓ) : Type ℓ where
  in_time : A → Timed A
  timed_out : Timed A
  failed : (error : Text) → Timed A

pub record Meldekanal : Type 0 where
  pub id : Text
  pub is_healthy : Timed Bool
  pub answer : ApprovalRequest → Timed RawDecision

abbrev pub deny_all_channel : Meldekanal
deny_all_channel = record {
  id = codes "deny-all";
  is_healthy = in_time false;
  answer = λ req. in_time (record {
    shape = shaped (some (codes "denied-no-channel")) none;
    claimed = some (codes "deny-all");
  });
}

-- The constructor: never without a channel.
abbrev pub new_registry : List Meldekanal → List Meldekanal
new_registry [] = deny_all_channel ∷ []
new_registry (c ∷ cs) = c ∷ cs

abbrev pub healthy_now : Meldekanal → Bool
healthy_now c = elim c.is_healthy [ in_time h ↦ h | timed_out ↦ false | failed e ↦ false ]

abbrev pub settled : Meldekanal → Timed RawDecision → ApprovalDecision
settled c (in_time raw) = normalize_decision raw c.id
settled c timed_out = decision timeout (some c.id) none
settled c (failed e) = decision error (some c.id) (some e)

unfoldable pub request_approval : List Meldekanal → ApprovalRequest → ApprovalDecision
request_approval [] req = decision denied_no_channel none none
request_approval (c ∷ cs) req =
    let rest = request_approval cs req in if healthy_now c then settled c (c.answer req) else rest

abbrev pub health_note : Timed Bool → Text
health_note (in_time h) = codes "channel unhealthy"
health_note timed_out = codes "health timeout"
health_note (failed e) = codes "health error"

abbrev pub asked_on : Text → ApprovalRequest → Option Meldekanal → ApprovalDecision
asked_on channel_id req none =
    decision denied_no_channel none (some (codes "unknown channel: " ++ channel_id))
asked_on channel_id req (some c) =
    if healthy_now c
    then settled c (c.answer req)
    else decision denied_no_channel (some c.id) (some (health_note c.is_healthy))

unfoldable pub request_approval_on : List Meldekanal → Text → ApprovalRequest → ApprovalDecision
request_approval_on channels channel_id req =
    asked_on channel_id req (find (λ c. text_eq c.id channel_id) channels)

pub record MatrixApprovalResult : Type 0 where
  pub decision : ApprovalDecision
  pub target : Option MatrixTarget

abbrev pub same_call : ResolveContext → ApprovalRequest → Bool
same_call ctx req =
    same_tier ctx.tier req.tier && text_eq ctx.server req.server && text_eq ctx.tool req.tool

abbrev pub denied : Text → MatrixApprovalResult
denied note = record { decision = decision denied_no_channel none (some note); target = none }

abbrev pub with_note : Option Text → Text → Option Text
with_note none note = some note
with_note (some old) note = if is_empty old then some note else some (old ++ codes "; " ++ note)

-- A claim of another channel goes into the note.
abbrev pub noted : Text → Option Text → ApprovalDecision → ApprovalDecision
noted channel none d = d
noted channel (some claimed) d =
    if text_eq claimed channel
    then d
    else record d { note = with_note d.note (codes "approver claimed channelId: " ++ claimed) }

abbrev pub consulted : MatrixTarget → Attempt RawDecision → MatrixApprovalResult
consulted t threw = record {
  decision = decision error (some t.channel) (some (codes "approver threw"));
  target = some t;
}
consulted t (returned raw) = record {
  decision = noted t.channel raw.claimed (normalize_decision raw t.channel);
  target = some t;
}

abbrev pub routed :
    (Text → ApprovalRequest → Attempt RawDecision)
    → ApprovalRequest
    → Option MatrixTarget
    → MatrixApprovalResult
routed approver req none = denied (codes "matrix: not routable")
routed approver req (some t) =
    if is_routable (some t)
    then consulted t (approver t.channel req)
    else denied (codes "matrix: not routable")

unfoldable pub request_approval_via_matrix :
    List FreigabeEntry
    → (Text → ApprovalRequest → Attempt RawDecision)
    → ResolveContext
    → ApprovalRequest
    → MatrixApprovalResult
request_approval_via_matrix matrix approver ctx req =
    if same_call ctx req
    then routed approver req (resolve_entry matrix ctx)
    else denied (codes "matrix: ctx/req mismatch")
