-- ===== src/Ingress/Safety.antt =====
-- What `handleMcpIngress` of packages/daemon/src/mcp-ingress.ts lets through to the executor.
use thinklocal_mcp.Base.{
  ◌≡◌, ◌≢◌, ◌↔◌, refl, ap, ◌∙◌, subst, Bool, true, false, not, Option, none, some, arith,
  if◌then◌else◌, ◌||◌,
}
use thinklocal_mcp.Base.Text.{Text, is_blank}
use thinklocal_mcp.Matrix.{McpExecutionTier, self, gate, consensus}
use thinklocal_mcp.Tiers.{max_tier, derive_tool_tier_for_server}
use thinklocal_mcp.Forward.{
  Attempt, threw, returned, McpForwardDispatch, remote, local, no_dispatch,
}
use thinklocal_mcp.Channels.{ApprovalOutcome, approved}
use thinklocal_mcp.Ingress.{
  Handled, executes, rejects, McpIngressInput, McpIngressDeps, ApprovalContext, decided, by_tier,
  with_tier, gated, dispatched, from_sender, handle_mcp_ingress, dispatch_of, context_of,
  enforce_execution_tier,
}

-- The tier of the provider's capability.
abbrev pub capability_tier : McpForwardDispatch → Option McpExecutionTier
capability_tier (no_dispatch server reason) = none
capability_tier (local server tier) = some tier
capability_tier (remote request) = some request.execution_tier

-- The resolver is there, and it approves exactly this call.
abbrev pub Approves : Option (ApprovalContext → Attempt ApprovalOutcome) → ApprovalContext → Type 0
Approves none context = ⊥
Approves (some resolver) context = resolver context ≡ returned approved

-- A call of this tier needs no approval, or it has one; consensus is never enough.
abbrev pub Cleared :
    McpExecutionTier
    → Option (ApprovalContext → Attempt ApprovalOutcome)
    → (McpExecutionTier → ApprovalContext)
    → Type 0
Cleared self resolver context = Unit
Cleared gate resolver context = Approves resolver (context gate)
Cleared consensus resolver context = ⊥

pub record IsPermitted (input : McpIngressInput) (deps : McpIngressDeps) (d : McpForwardDispatch)
    : Type 0 where
  pub sender : Text
  pub from : input.sender_uri ≡ some sender
  pub authorized : (is_blank sender ≡ false) × (deps.is_authorized_sender sender ≡ true)
  pub named : is_blank input.server ≡ false
  pub routed : dispatch_of input deps ≡ returned d
  pub provider_tier : McpExecutionTier
  pub tool_tier : McpExecutionTier
  pub provides : capability_tier d ≡ some provider_tier
  pub derives : derive_tool_tier_for_server deps.lower input.server input.payload ≡ some tool_tier
  pub cleared :
      Cleared (max_tier provider_tier tool_tier) deps.resolve_approval (context_of input sender)

decided_yes :
    (d e : McpForwardDispatch) (a : Attempt ApprovalOutcome)
    → decided d a ≡ executes e
    → (a ≡ returned approved) × (d ≡ e)
decided_yes d e a h = ground arith

by_tier-Cleared :
    (tier : McpExecutionTier) (resolver : Option (ApprovalContext → Attempt ApprovalOutcome))
    (context : McpExecutionTier → ApprovalContext) (d e : McpForwardDispatch)
    → by_tier tier resolver context d ≡ executes e
    → Cleared tier resolver context × (d ≡ e)
unfolding enforce_execution_tier
by_tier-Cleared self none context d e h = ground arith
by_tier-Cleared self (some r) context d e h = ground arith
by_tier-Cleared gate none context d e h = ground arith
by_tier-Cleared gate (some r) context d e h = decided_yes d e (r (context gate)) h
by_tier-Cleared consensus none context d e h = ground arith
by_tier-Cleared consensus (some r) context d e h = ground arith

-- What the tiers leave to be shown of a call from this sender.
abbrev Passes : McpIngressInput → McpIngressDeps → Text → McpForwardDispatch → Type 0
Passes input deps sender d =
    (c : McpExecutionTier) × (t : McpExecutionTier) × (capability_tier d ≡ some c)
    × (derive_tool_tier_for_server deps.lower input.server input.payload ≡ some t)
    × Cleared (max_tier c t) deps.resolve_approval (context_of input sender)

with_tier-Passes :
    (input : McpIngressInput) (deps : McpIngressDeps) (sender : Text) (d e : McpForwardDispatch)
    (c : McpExecutionTier) (o : Option McpExecutionTier)
    → capability_tier d ≡ some c
    → derive_tool_tier_for_server deps.lower input.server input.payload ≡ o
    → with_tier input deps sender d c o ≡ executes e
    → Passes input deps sender d × (d ≡ e)
with_tier-Passes input deps sender d e c none a b h =
    absurd (let no : rejects ≡ executes e = h in cc)
with_tier-Passes input deps sender d e c (some t) a b h =
    let (k, same) =
      by_tier-Cleared (max_tier c t) deps.resolve_approval (context_of input sender) d e h in
    ((c, t, a, b, k), same)

gated-Passes :
    (input : McpIngressInput) (deps : McpIngressDeps) (sender : Text) (d e : McpForwardDispatch)
    → gated input deps sender d ≡ executes e
    → Passes input deps sender d × (d ≡ e)
gated-Passes input deps sender (no_dispatch server reason) e h = cc
gated-Passes input deps sender (local server tier) e h =
    with_tier-Passes input deps sender (local server tier) e tier _ refl refl h
gated-Passes input deps sender (remote request) e h =
    with_tier-Passes input deps sender (remote request) e request.execution_tier _ refl refl h

dispatched-Passes :
    (input : McpIngressInput) (deps : McpIngressDeps) (sender : Text)
    (a : Attempt McpForwardDispatch) (d : McpForwardDispatch)
    → dispatched input deps sender a ≡ executes d
    → (a ≡ returned d) × Passes input deps sender d
dispatched-Passes input deps sender threw d h = cc
dispatched-Passes input deps sender (returned e) d h =
    let (p, same) = gated-Passes input deps sender e d h in
    (ap returned same, subst (Passes input deps sender) same p)

guard_passes :
    (blank known missing : Bool) (x : Handled) (d : McpForwardDispatch) (a b : Handled)
    → (if blank || not known then a else if missing then b else x) ≡ executes d
    → (a ≢ executes d)
    → (b ≢ executes d)
    → (blank ≡ false) × (known ≡ true) × (missing ≡ false) × (x ≡ executes d)
guard_passes blank known missing x d a b h p q = ground arith

sender_passes :
    (input : McpIngressInput) (deps : McpIngressDeps) (o : Option Text) (d : McpForwardDispatch)
    → input.sender_uri ≡ o
    → from_sender input deps o ≡ executes d
    → IsPermitted input deps d
sender_passes input deps none d e h = cc
sender_passes input deps (some sender) d e h =
    let (a, b, c, x) =
      guard_passes (is_blank sender) (deps.is_authorized_sender sender) (is_blank input.server) _ d
        _ _ h (λ no. cc) (λ no. cc) in
    let (r, passes) = dispatched-Passes input deps sender (dispatch_of input deps) d x in
    let (p, t, q, k, cleared) = passes in
    record {
      sender = sender;
      from = e;
      authorized = (a, b);
      named = c;
      routed = r;
      provider_tier = p;
      tool_tier = t;
      provides = q;
      derives = k;
      cleared = cleared;
    }

Cleared-by_tier :
    (tier : McpExecutionTier) (resolver : Option (ApprovalContext → Attempt ApprovalOutcome))
    (context : McpExecutionTier → ApprovalContext) (d : McpForwardDispatch)
    → Cleared tier resolver context
    → by_tier tier resolver context d ≡ executes d
unfolding enforce_execution_tier
Cleared-by_tier self none context d k = refl
Cleared-by_tier self (some r) context d k = refl
Cleared-by_tier gate none context d k = absurd k
Cleared-by_tier gate (some r) context d k = rw k refl
Cleared-by_tier consensus none context d k = absurd k
Cleared-by_tier consensus (some r) context d k = absurd k

Cleared-with_tier :
    (input : McpIngressInput) (deps : McpIngressDeps) (sender : Text) (d : McpForwardDispatch)
    (c u t : McpExecutionTier) (o : Option McpExecutionTier)
    → some u ≡ some c
    → o ≡ some t
    → Cleared (max_tier c t) deps.resolve_approval (context_of input sender)
    → with_tier input deps sender d u o ≡ executes d
Cleared-with_tier input deps sender d c u t o a b k =
    let same : u ≡ c = cc in
    rw b (Cleared-by_tier (max_tier u t) deps.resolve_approval _ d (rw same k))

cleared_gated :
    (input : McpIngressInput) (deps : McpIngressDeps) (sender : Text) (d : McpForwardDispatch)
    → Passes input deps sender d
    → gated input deps sender d ≡ executes d
cleared_gated input deps sender (no_dispatch server reason) (c, t, a, b, k) =
    absurd (let no : none ≡ some c = a in cc)
cleared_gated input deps sender (local server tier) (c, t, a, b, k) =
    Cleared-with_tier input deps sender (local server tier) c tier t _ a b k
cleared_gated input deps sender (remote request) (c, t, a, b, k) =
    Cleared-with_tier input deps sender (remote request) c request.execution_tier t _ a b k

permitted_executes :
    (input : McpIngressInput) (deps : McpIngressDeps) (d : McpForwardDispatch)
    → IsPermitted input deps d
    → handle_mcp_ingress input deps ≡ executes d
unfolding handle_mcp_ingress
permitted_executes input deps d p =
    let (known, authorized) = p.authorized in
    ap (from_sender input deps) p.from
    ∙ rw (known, authorized, p.named, p.routed)
        (cleared_gated input deps p.sender d
          (p.provider_tier, p.tool_tier, p.provides, p.derives, p.cleared))

-- A call reaches the executor exactly when it comes from an authorized sender, for a server that is not
-- blank, with the dispatch that the routing gives, and the higher of the tiers of the provider and of the
-- tool is self, or is gate and the approval resolver approves this server, tool and sender: never for
-- consensus, and never when the resolver is missing, throws or answers otherwise.
pub executed_iff :
    (input : McpIngressInput) (deps : McpIngressDeps) (d : McpForwardDispatch)
    → (handle_mcp_ingress input deps ≡ executes d) ↔ IsPermitted input deps d
unfolding handle_mcp_ingress
executed_iff input deps d =
    (sender_passes input deps input.sender_uri d refl, permitted_executes input deps d)
