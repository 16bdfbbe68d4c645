-- ===== src/Services/Discovery.antt =====
-- Who serves a server, by `resolveMcp` of mcp-service-registry.ts and `planMcpRoute` of mcp-routing.ts.
use thinklocal_mcp.Base.{
  ◌≡◌, refl, ap, ◌∙◌, sym, subst, Bool, true, false, Option, none, some, List, [], ◌∷◌, arith, inl,
  inr, Bool-cases, map, In, here, In-map, map-In, find, find-In, find-passes, find-none-In, filter,
  In-filter, filter-In, any,
}
use thinklocal_mcp.Base.Text.{Text, text_eq}
use thinklocal_mcp.Tiers.{Capability, derive_execution_tier}
use thinklocal_mcp.Services.{
  McpResolution, is_healthy, McpRoutePlan, local_plan, remote_plan, no_plan, or_first, skill_of,
  resolution, serves, resolutions_of, resolve_mcp, is_usable, planned_remote, planned,
  plan_mcp_route,
}

no_member {ℓ} : {A : Type ℓ} {a : A} → In a [] → ⊥
no_member m = elim m [ ]

module _ (lower : Text → Text) where
  -- The loop of `resolveMcp` filters and maps.
  resolutions_are :
      (target : Text) (caps : List Capability)
      → resolutions_of lower target caps
        ≡ map (resolution lower) (filter (serves lower target) caps)
  unfolding resolutions_of
  resolutions_are target [] = refl
  resolutions_are target (c ∷ caps) = elim (Bool-cases (serves lower target c)) [
    | inl e ↦ rw e (ap (λ rest. resolution lower c ∷ rest) (resolutions_are target caps))
    | inr e ↦ rw e (resolutions_are target caps)
  ]

  pub resolutions-In :
      (target : Text) (caps : List Capability) (c : Capability)
      → In c caps
      → serves lower target c ≡ true
      → In (resolution lower c) (resolutions_of lower target caps)
  resolutions-In target caps c m s =
      subst (In (resolution lower c)) (sym (resolutions_are target caps))
        (In-map (resolution lower) (In-filter (serves lower target) caps c m s))

  -- The capability that a resolution is of.
  abbrev pub Served : Text → List Capability → McpResolution → Type 0
  Served target caps r =
      (c : Capability) × In c caps × (serves lower target c ≡ true) × (r ≡ resolution lower c)

  In-resolutions :
      (target : Text) (caps : List Capability) (r : McpResolution)
      → In r (resolutions_of lower target caps)
      → Served target caps r
  In-resolutions target caps r m =
      let (c, n, e) =
        map-In (resolution lower) (filter (serves lower target) caps) r
          (subst (In r) (resolutions_are target caps) m) in
      let (j, s) = filter-In (serves lower target) caps c n in (c, j, s, e)

  serves_usable :
      (target : Text) (c : Capability)
      → serves lower target c ≡ true
      → is_usable lower target (resolution lower c) ≡ true
  unfolding serves
  serves_usable target c s = ground arith

  -- The providers that `planMcpRoute` chooses from.
  abbrev usable_of : Text → List Capability → List McpResolution
  usable_of target caps = filter (is_usable lower target) (resolutions_of lower target caps)

  usable-In :
      (target : Text) (caps : List Capability) (c : Capability)
      → In c caps
      → serves lower target c ≡ true
      → In (resolution lower c) (usable_of target caps)
  usable-In target caps c m s =
      In-filter (is_usable lower target) (resolutions_of lower target caps) (resolution lower c)
        (resolutions-In target caps c m s) (serves_usable target c s)

  In-usable :
      (target : Text) (caps : List Capability) (r : McpResolution)
      → In r (usable_of target caps)
      → Served target caps r
  In-usable target caps r m =
      In-resolutions target caps r
        (filter-In (is_usable lower target) (resolutions_of lower target caps) r m).0

  -- No capability that serves passes the test.
  abbrev pub NoneServing : Text → List Capability → (Capability → Bool) → Type 0
  NoneServing target caps p =
      (c : Capability) → In c caps → serves lower target c ≡ true → p c ≡ false

  -- A local plan has a provider on this node; a remote plan has a provider elsewhere, a healthy one
  -- if there is one; and no plan means that nobody serves.
  abbrev pub IsRight : Text → List Capability → Text → McpRoutePlan → Type 0
  IsRight target caps own (local_plan server t) =
      (c : Capability) × In c caps
      × (serves lower target c ≡ true)
      × (text_eq c.agent_id own ≡ true)
      × (t ≡ derive_execution_tier lower c.permissions c.trust_level)
  IsRight target caps own (remote_plan server r) =
      Served target caps r
      × NoneServing target caps (λ c. text_eq c.agent_id own)
      × (is_healthy r.health ≡ false → NoneServing target caps (λ c. is_healthy c.health))
  IsRight target caps own (no_plan server known) = NoneServing target caps (λ c. true)

  none_serving :
      (target : Text) (caps : List Capability) (p : McpResolution → Bool)
      → find p (usable_of target caps) ≡ none
      → NoneServing target caps (λ c. p (resolution lower c))
  none_serving target caps p h c m s =
      find-none-In p (usable_of target caps) (resolution lower c) h (usable-In target caps c m s)

  own-IsRight :
      (server target : Text) (caps : List Capability) (own : Text) (known : Bool)
      (r : McpResolution)
      → find (λ u. text_eq u.agent_id own) (usable_of target caps) ≡ some r
      → IsRight target caps own (local_plan server r.execution_tier)
  own-IsRight server target caps own known r h =
      let (c, m, s, e) =
        In-usable target caps r
          (find-In (λ u. text_eq u.agent_id own) (usable_of target caps) r h) in
      let passes = find-passes (λ u. text_eq u.agent_id own) (usable_of target caps) r h in
      (
        c,
        m,
        s,
        subst (λ (u : McpResolution). text_eq u.agent_id own ≡ true) e passes,
        ap (λ (u : McpResolution). u.execution_tier) e,
      )

  remote-IsRight :
      (server target : Text) (caps : List Capability) (own : Text) (known : Bool)
      → NoneServing target caps (λ c. text_eq c.agent_id own)
      → (us : List McpResolution) → us ≡ usable_of target caps
      → (o : Option McpResolution) → find (λ u. is_healthy u.health) (usable_of target caps) ≡ o
      → IsRight target caps own (planned_remote lower server known (or_first o us))
  remote-IsRight server target caps own known n us e (some r) h =
      let passes = find-passes (λ u. is_healthy u.health) (usable_of target caps) r h in
      (
        In-usable target caps r (find-In (λ u. is_healthy u.health) (usable_of target caps) r h),
        n,
        λ sick. absurd (let no : true ≡ false = sym passes ∙ sick in cc),
      )
  remote-IsRight server target caps own known n [] e none h = λ c m s.
      absurd (no_member (subst (In (resolution lower c)) (sym e) (usable-In target caps c m s)))
  remote-IsRight server target caps own known n (r ∷ us) e none h = (
    In-usable target caps r (subst (In r) e (here refl)),
    n,
    λ sick. none_serving target caps (λ u. is_healthy u.health) h,
  )

  planned-IsRight :
      (server target : Text) (caps : List Capability) (own : Text) (known : Bool)
      (o : Option McpResolution)
      → find (λ u. text_eq u.agent_id own) (usable_of target caps) ≡ o
      → IsRight target caps own (planned lower server known (usable_of target caps) o)
  planned-IsRight server target caps own known (some r) h =
      own-IsRight server target caps own known r h
  planned-IsRight server target caps own known none h =
      remote-IsRight server target caps own known
        (none_serving target caps (λ u. text_eq u.agent_id own) h) _ refl _ refl

  -- The plan for a server among the advertised capabilities: local with the tier of a provider on this
  -- node if there is one that is not offline; else remote to a provider, to a healthy one if any is
  -- healthy; and no plan only when no capability that is not offline serves the name.
  pub route-IsRight :
      (server : Text) (caps : List Capability) (own : Text)
      → IsRight
          (skill_of lower server)
          caps
          own
          (plan_mcp_route lower server (resolve_mcp lower server caps) own)
  unfolding plan_mcp_route resolve_mcp
  route-IsRight server caps own = planned-IsRight server (skill_of lower server) caps own _ _ refl

-- The server that a plan is for.
abbrev pub server_of : McpRoutePlan → Text
server_of (local_plan server t) = server
server_of (remote_plan server r) = server
server_of (no_plan server known) = server

module _ (lower : Text → Text) where
  remote_server :
      (server : Text) (known : Bool) (o : Option McpResolution)
      → server_of (planned_remote lower server known o) ≡ server
  remote_server server known none = refl
  remote_server server known (some r) = refl

  planned_server :
      (server : Text) (known : Bool) (us : List McpResolution) (o : Option McpResolution)
      → server_of (planned lower server known us o) ≡ server
  planned_server server known us none = remote_server server known _
  planned_server server known us (some r) = refl

  pub route_server :
      (server : Text) (rs : List McpResolution) (own : Text)
      → server_of (plan_mcp_route lower server rs own) ≡ server
  unfolding plan_mcp_route
  route_server server rs own =
      let usable = filter (is_usable lower (skill_of lower server)) rs in
      planned_server server (any (λ r. text_eq r.skill_id (skill_of lower server)) rs) usable
        (find (λ r. text_eq r.agent_id own) usable)
