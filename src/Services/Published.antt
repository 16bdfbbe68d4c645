-- ===== src/Services/Published.antt =====
-- A capability of `buildMcpCapability` of mcp-service-registry.ts is found again by `resolveMcp`.
use thinklocal_mcp.Base.{
  ◌≡◌, refl, sym, subst, true, false, none, some, List, ◌++◌, inl, inr, Bool-cases, In,
}
use thinklocal_mcp.Base.Text.{Text, text_eq, text_eq_iff}
use thinklocal_mcp.Tiers.{Capability, mcp_skill_prefix, canonicalize_server_name}
use thinklocal_mcp.Services.{
  is_server_name, BuildMcpCapabilityInput, McpServiceCapability, McpResolution, is_offline,
  build_mcp_capability, built, skill_of, resolution, serves, resolve_mcp,
}
use thinklocal_mcp.Services.Discovery.{resolutions-In}

module _ (lower : Text → Text) where
  build_sound :
      (input : BuildMcpCapabilityInput) (s : McpServiceCapability)
      → build_mcp_capability lower input ≡ some s
      → (is_server_name (canonicalize_server_name lower input.server) ≡ true)
        × (s ≡ built lower input (canonicalize_server_name lower input.server))
  unfolding build_mcp_capability
  build_sound input s h =
      elim (Bool-cases (is_server_name (canonicalize_server_name lower input.server))) [
        | inl e ↦ (
          e,
          let same : some (built lower input (canonicalize_server_name lower input.server))
                  ≡ some s =
                (rw e at h) in
              cc,
        )
        | inr e ↦ absurd (let no : none ≡ some s = (rw e at h) in cc)
      ]

  text_eq_refl : (t : Text) → text_eq t t ≡ true
  text_eq_refl t = (text_eq_iff t t).1 refl

  built-serves :
      (input : BuildMcpCapabilityInput) (name : Text)
      → is_offline (built lower input name).capability.health ≡ false
      → serves lower (mcp_skill_prefix ++ name) (built lower input name).capability ≡ true
  unfolding serves
  built-serves input name h = rw (text_eq_refl name, h) refl

  -- A capability that is built for a server and advertised with others is among the providers of every
  -- spelling of the server's name, as long as it is not offline, for the agent it was built for and with
  -- the tier it was built with.
  pub published_is_resolved :
      (input : BuildMcpCapabilityInput) (s : McpServiceCapability) (spelled : Text)
      (caps : List Capability)
      → build_mcp_capability lower input ≡ some s
      → is_offline s.capability.health ≡ false
      → canonicalize_server_name lower spelled ≡ canonicalize_server_name lower input.server
      → In s.capability caps
      → (r : McpResolution) × In r (resolve_mcp lower spelled caps)
        × (r.agent_id ≡ input.agent_id)
        × (r.execution_tier ≡ s.execution_tier)
  unfolding resolve_mcp
  published_is_resolved input s spelled caps b h n m =
      let (ok, same) = build_sound input s b in
      let serving =
        subst (λ x. serves lower (mcp_skill_prefix ++ x) s.capability ≡ true) (sym n)
          (rw same (built-serves input _ (rw same at h))) in
      (
        resolution lower s.capability,
        resolutions-In lower (skill_of lower spelled) caps s.capability m serving,
        rw same refl,
        rw same refl,
      )
