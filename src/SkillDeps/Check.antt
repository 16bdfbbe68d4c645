-- ===== src/SkillDeps/Check.antt =====
-- What `checkDependencies` of packages/daemon/src/skill-deps.ts reports.
use thinklocal_mcp.Base.{
  ◌≡◌, ◌↔◌, refl, sym, ◌∙◌, ℕ, true, false, Option, none, some, List, [], ◌∷◌, ◌++◌, inl, inr, ◌⊎◌,
  In, filter-In, In-filter, find, find-In, find-passes, find-none-In, Bool-cases, All, Bool, not,
  ◌&&◌, ◌≢◌, ap, arith,
}
use thinklocal_mcp.Base.Text.{Text, text_eq_iff}
use thinklocal_mcp.Services.{is_offline}
use thinklocal_mcp.Tiers.{Capability, CapabilityHealth, healthy, degraded, offline}
use thinklocal_mcp.Semver.{satisfies_range}
use thinklocal_mcp.SkillDeps.{
  SkillDependency, Reason, Missing, DependencyCheckResult, is_optional, is_candidate, candidates,
  lacking, matched, check_one, check_all, closed, check_dependencies, none_missing,
}

online_iff : (h : CapabilityHealth) → (not (is_offline h) ≡ true) ↔ (h ≢ offline)
online_iff healthy = (λ h e. cc, λ n. refl)
online_iff degraded = (λ h e. cc, λ n. refl)
online_iff offline = (λ h. cc, λ n. absurd (n refl))

both : (a b : Bool) → a && b ≡ true → (a ≡ true) × (b ≡ true)
both a b h = ground arith

module _ (number : Text → Option ℕ) (available : List Capability) where
  -- A capability for the dependency that is not offline and whose version is in the range.
  abbrev pub Meets : SkillDependency → Capability → Type 0
  Meets dep c =
      In c available
      × (c.skill_id ≡ dep.skill_id)
      × (c.health ≢ offline)
      × (satisfies_range number c.version dep.version_range ≡ true)

  -- A dependency that may be missing, or is there.
  abbrev pub IsMet : SkillDependency → Type 0
  IsMet dep = (dep.optional ≡ some true) ⊎ ((c : Capability) × Meets dep c)

  abbrev found : SkillDependency → Option Capability
  found dep =
      find (λ c. satisfies_range number c.version dep.version_range) (candidates dep available)

  candidate_iff :
      (dep : SkillDependency) (c : Capability)
      → (is_candidate dep c ≡ true) ↔ ((c.skill_id ≡ dep.skill_id) × (c.health ≢ offline))
  candidate_iff dep c =
      let (to, from) = text_eq_iff c.skill_id dep.skill_id in
      let (up, down) = online_iff c.health in
      (λ h. let (a, b) = both _ _ h in (to a, up b), λ (e, n). rw (from e) (down n))

  found-Meets : (dep : SkillDependency) (c : Capability) → found dep ≡ some c → Meets dep c
  found-Meets dep c h =
      let p = λ (d : Capability). satisfies_range number d.version dep.version_range in
      let (m, s) =
        filter-In (is_candidate dep) available c (find-In p (candidates dep available) c h) in
      let (same, online) = (candidate_iff dep c).0 s in
      (m, same, online, find-passes p (candidates dep available) c h)

  not_found : (dep : SkillDependency) → found dep ≡ none → (c : Capability) → ¬ Meets dep c
  not_found dep h c (m, same, online, v) =
      let s = (candidate_iff dep c).1 (same, online) in
      let no : true ≡ false =
        sym v
        ∙ find-none-In (λ d. satisfies_range number d.version dep.version_range)
            (candidates dep available) c h (In-filter (is_candidate dep) available c m s) in
      cc

  append_missing : (ms : List Missing) (x : Missing) → none_missing (ms ++ x ∷ []) ≡ false
  append_missing [] x = refl
  append_missing (y ∷ ms) x = refl

  lacking_iff :
      (dep : SkillDependency) (r : DependencyCheckResult) (reason : Reason)
      → (none_missing (lacking dep reason r).missing ≡ true)
        ↔ ((none_missing r.missing ≡ true) × (is_optional dep ≡ true))
  lacking_iff dep r reason = elim (Bool-cases (is_optional dep)) [
    | inl e ↦ (λ h. (rw e at h, e), λ (h, o). rw e h)
    | inr e ↦ (
      λ h. absurd (
          let gone : none_missing (r.missing ++ _ ∷ []) ≡ true = (rw e at h) in
          let no : true ≡ false = sym gone ∙ append_missing r.missing _ in cc),
      λ (h, o). absurd (let no : true ≡ false = sym o ∙ e in cc),
    )
  ]

  matched_iff :
      (dep : SkillDependency) (r : DependencyCheckResult) (cs : List Capability)
      → (none_missing (matched dep cs none r).missing ≡ true)
        ↔ ((none_missing r.missing ≡ true) × (is_optional dep ≡ true))
  matched_iff dep r [] = lacking_iff dep r _
  matched_iff dep r (c ∷ cs) = lacking_iff dep r _

  optional_iff :
      (dep : SkillDependency) (o : Option Bool)
      → (elim o [ none ↦ false | some b ↦ b ] ≡ true) ↔ (o ≡ some true)
  optional_iff dep none = (λ h. cc, λ h. cc)
  optional_iff dep (some b) = (λ h. ap some h, λ h. cc)

  one_iff :
      (dep : SkillDependency) (r : DependencyCheckResult) (o : Option Capability)
      → found dep ≡ o
      → (none_missing (matched dep (candidates dep available) o r).missing ≡ true)
        ↔ ((none_missing r.missing ≡ true) × IsMet dep)
  one_iff dep r none h =
      let (to, from) = matched_iff dep r (candidates dep available) in
      (
        λ k. let (a, b) = to k in (a, inl ((optional_iff dep dep.optional).0 b)),
        λ (a, met). elim met [
          | inl b ↦ from (a, (optional_iff dep dep.optional).1 b)
          | inr (c, m) ↦ absurd (not_found dep h c m)
        ],
      )
  one_iff dep r (some c) h = (λ k. (k, inr (c, found-Meets dep c h)), λ (k, met). k)

  All-iff :
      (deps : List SkillDependency) (r : DependencyCheckResult)
      → (none_missing (check_all number available deps r).missing ≡ true)
        ↔ ((none_missing r.missing ≡ true) × All IsMet deps)
  unfolding check_all
  All-iff [] r = (λ h. (h, tt), λ (h, u). h)
  All-iff (dep ∷ deps) r =
      let (to, from) = All-iff deps (check_one number available dep r) in
      let (here_to, here_from) = one_iff dep r (found dep) refl in
      (
        λ h. let (a, rest) = to h in let (b, met) = here_to a in (b, (met, rest)),
        λ (b, mets). let (met, rest) = mets in from (here_from (b, met), rest),
      )

  -- The dependencies of a skill are satisfied exactly when each that is not optional has a capability
  -- in the mesh of its skill, not offline, with a version in its range.
  pub satisfied_iff :
      (deps : List SkillDependency)
      → ((check_dependencies number deps available).satisfied ≡ true) ↔ All IsMet deps
  unfolding check_dependencies closed
  satisfied_iff deps =
      let (to, from) = All-iff deps (record { satisfied = true; missing = []; resolved = [] }) in
      (λ h. (to h).1, λ met. from (refl, met))
