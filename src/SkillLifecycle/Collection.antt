-- ===== src/SkillLifecycle/Collection.antt =====
-- What the garbage collection of skill-lifecycle.ts removes.
use thinklocal_mcp.Base.{
  ◌≡◌, ◌≢◌, ◌↔◌, ◌⊎◌, refl, sym, ◌∙◌, ap, subst, ℕ, String, Bool, true, false, Option, none, some,
  [], ◌∷◌, arith, if◌then◌else◌, inl, inr, Bool-cases, ltb, ltb→lt, lt→ltb, ◌<◌, ◌+◌, ◌*◌, ◌-◌,
  str_eq, str_eq_refl, eq_iff,
}
use thinklocal_mcp.Base.Dict.{Dict, get, has, IsUnique}
use thinklocal_mcp.SkillLifecycle.{
  SkillStatus, active, deprecated, expired, disabled, SkillLifecycleEntry, SkillLifecycleManager,
  is_over, is_unused, last_activity, judge, keep_judged, collect, gc, get_skill, or_default,
}

abbrev judged : ℕ → ℕ → Option SkillLifecycleEntry → Option SkillLifecycleEntry
judged now days none = none
judged now days (some e) = judge now days e e.status

keep_ne :
    (id j : String) (o : Option SkillLifecycleEntry) (rest : Dict SkillLifecycleEntry)
    → str_eq j id ≡ false
    → get id (keep_judged j o rest) ≡ get id rest
unfolding get
keep_ne id j none rest n = refl
keep_ne id j (some e) rest n = rw n refl

keep_eq :
    (id : String) (o : Option SkillLifecycleEntry) (rest : Dict SkillLifecycleEntry)
    → get id rest ≡ none
    → get id (keep_judged id o rest) ≡ o
unfolding get
keep_eq id none rest n = n
keep_eq id (some e) rest n = rw (str_eq_refl id) refl

has-get : (id : String) (d : Dict SkillLifecycleEntry) → has id d ≡ false → get id d ≡ none
has-get id d h = ground arith

-- A lookup after the collection.
get-collect :
    (now days : ℕ) (id : String) (d : Dict SkillLifecycleEntry)
    → IsUnique d
    → get id (collect now days d) ≡ judged now days (get id d)
unfolding collect get
get-collect now days id [] u = refl
get-collect now days id ((j, e) ∷ d) (new, u) = elim (Bool-cases (str_eq j id)) [
  | inl y ↦
      let same : j ≡ id = (eq_iff j id).0 y in
      let absent : get id d ≡ none = subst (λ k. get k d ≡ none) same (has-get j d new) in
      let gone : get id (collect now days d) ≡ none =
        get-collect now days id d u ∙ ap (judged now days) absent in
      rw (y, same) (keep_eq id (judge now days e e.status) (collect now days d) gone)
  | inr n ↦ rw n (
      keep_ne id j (judge now days e e.status) (collect now days d) n ∙ get-collect now days id d u)
]

collected :
    (over unused : Bool) (e : SkillLifecycleEntry)
    → ((if over then none else if unused then none else some e) ≡ none)
      ↔ ((over ≡ true) ⊎ (unused ≡ true))
collected over unused e = ground arith

spared : (over : Bool) (e f : SkillLifecycleEntry) → (if over then some e else some f) ≡ none → ⊥
spared over e f h = ground arith

judge-none :
    (now days : ℕ) (e : SkillLifecycleEntry) (s : SkillStatus)
    → (judge now days e s ≡ none)
      ↔ ((s ≢ active) × ((is_over now e.expires_at ≡ true) ⊎ (is_unused now days e ≡ true)))
judge-none now days e active =
    (λ h. absurd (spared (is_over now e.expires_at) _ e h), λ (n, w). absurd (n refl))
judge-none now days e deprecated =
    let (to, from) = collected (is_over now e.expires_at) (is_unused now days e) e in
    (λ h. ((λ a. cc), to h), λ (n, w). from w)
judge-none now days e expired =
    let (to, from) = collected (is_over now e.expires_at) (is_unused now days e) e in
    (λ h. ((λ a. cc), to h), λ (n, w). from w)
judge-none now days e disabled =
    let (to, from) = collected (is_over now e.expires_at) (is_unused now days e) e in
    (λ h. ((λ a. cc), to h), λ (n, w). from w)

-- A date that is past.
abbrev pub IsPast : ℕ → Option ℕ → Type 0
IsPast now date = (t : ℕ) × (date ≡ some t) × (t < now)

-- More than this many days have gone since the last use, or the installation if there was none.
abbrev pub IsIdle : ℕ → ℕ → SkillLifecycleEntry → Type 0
IsIdle now days e =
    elim e.last_used_at [ none ↦ e.installed_at | some t ↦ t ] + days * 86400000 < now

is_over-IsPast : (now : ℕ) (date : Option ℕ) → (is_over now date ≡ true) ↔ IsPast now date
is_over-IsPast now none = (λ h. cc, λ (t, e, h). cc)
is_over-IsPast now (some t) =
    (λ h. (t, refl, ltb→lt t now h), λ (u, e, h). let same : t ≡ u = cc in lt→ltb t now (rw same h))

idle_iff :
    (last days now : ℕ)
    → (ltb (days * 86400000) (now - last) ≡ true) ↔ (last + days * 86400000 < now)
idle_iff last days now =
    (λ h. let less = ltb→lt _ _ h in omega arith, λ h. lt→ltb _ _ (omega arith))

is_unused-IsIdle :
    (now days : ℕ) (e : SkillLifecycleEntry) → (is_unused now days e ≡ true) ↔ IsIdle now days e
is_unused-IsIdle now days e = idle_iff (last_activity e) days now

either_iff :
    (now days : ℕ) (e : SkillLifecycleEntry)
    → ((is_over now e.expires_at ≡ true) ⊎ (is_unused now days e ≡ true))
      ↔ (IsPast now e.expires_at ⊎ IsIdle now days e)
either_iff now days e =
    let (past, over) = is_over-IsPast now e.expires_at in
    let (idle, unused) = is_unused-IsIdle now days e in
    (
      λ w. elim w [ inl o ↦ inl (past o) | inr u ↦ inr (idle u) ],
      λ w. elim w [ inl p ↦ inl (over p) | inr i ↦ inr (unused i) ],
    )

-- A collection removes a skill exactly when it is not active and has either expired by its date or not
-- been used for more than the given days, 30 if none are given: an active skill is never removed, however old it is.
pub removed_iff :
    (now : ℕ) (days : Option ℕ) (id : String) (s : SkillLifecycleManager) (e : SkillLifecycleEntry)
    → IsUnique s.skills
    → get_skill id s ≡ some e
    → (get_skill id (gc now days s).0 ≡ none) ↔ (
        (e.status ≢ active)
        × (IsPast now e.expires_at ⊎ IsIdle now (elim days [ none ↦ 30 | some n ↦ n ]) e))
unfolding gc get_skill
removed_iff now days id s e u h =
    let (to, from) = judge-none now (or_default 30 days) e e.status in
    let same =
      get-collect now (or_default 30 days) id s.skills u ∙ ap (judged now (or_default 30 days)) h in
    let (there, back) = either_iff now (or_default 30 days) e in
    (λ r. let (idle, w) = to (sym same ∙ r) in (idle, there w), λ (n, w). same ∙ from (n, back w))
