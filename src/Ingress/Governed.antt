-- ===== src/Ingress/Governed.antt =====
-- What the executor of packages/daemon/src/mcp-ingress.ts sees of a server with an allowlist.
use thinklocal_mcp.Base.{◌≡◌, refl, ap, sym, ◌∙◌, true, false, Option, some}
use thinklocal_mcp.Base.Text.{Text}
use thinklocal_mcp.Matrix.{McpExecutionTier, self, gate, consensus}
use thinklocal_mcp.Tiers.{
  max_tier, is_tool_call, server_tool_classes, canonicalize_server_name, ServerToolClasses,
  governed,
}
use thinklocal_mcp.Tiers.Allowlist.{is_listed, governed_self_iff}
use thinklocal_mcp.Forward.{Attempt, McpForwardDispatch}
use thinklocal_mcp.Channels.{ApprovalOutcome}
use thinklocal_mcp.Ingress.{
  executes, McpIngressInput, McpIngressDeps, ApprovalContext, handle_mcp_ingress, context_of,
}
use thinklocal_mcp.Ingress.Safety.{Approves, Cleared, executed_iff}

needs_approval :
    (c t : McpExecutionTier) (resolver : Option (ApprovalContext → Attempt ApprovalOutcome))
    (context : McpExecutionTier → ApprovalContext)
    → (t ≡ self → ⊥)
    → Cleared (max_tier c t) resolver context
    → Approves resolver (context gate)
needs_approval c self resolver context n k = absurd (n refl)
needs_approval self gate resolver context n k = k
needs_approval gate gate resolver context n k = k
needs_approval consensus gate resolver context n k = absurd k
needs_approval self consensus resolver context n k = absurd k
needs_approval gate consensus resolver context n k = absurd k
needs_approval consensus consensus resolver context n k = absurd k

-- A tool call for a server with an allowlist, of a name that is not on it, reaches the executor only when
-- the approval resolver approves this very tool for this server and sender.
pub unlisted_needs_approval :
    (input : McpIngressInput) (deps : McpIngressDeps) (d : McpForwardDispatch)
    (classes : ServerToolClasses)
    → server_tool_classes (canonicalize_server_name deps.lower input.server) ≡ governed classes
    → is_tool_call input.payload ≡ true
    → is_listed classes input.payload ≡ false
    → handle_mcp_ingress input deps ≡ executes d
    → (sender : Text) × (input.sender_uri ≡ some sender)
      × Approves deps.resolve_approval (context_of input sender gate)
unlisted_needs_approval input deps d classes g c l h =
    let p = (executed_iff input deps d).0 h in
    let (to, from) = governed_self_iff deps.lower input.server input.payload classes g c in
    (
      p.sender,
      p.from,
      needs_approval p.provider_tier p.tool_tier deps.resolve_approval (context_of input p.sender)
          (λ t. let no : true ≡ false = sym (to (p.derives ∙ ap some t)) ∙ l in cc) p.cleared,
    )
