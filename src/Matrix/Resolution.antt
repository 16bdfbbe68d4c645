-- ===== src/Matrix/Resolution.antt =====
-- When the result of `resolveEntry` of freigabe-matrix.ts is routable.
use thinklocal_mcp.Base.{
  ◌≡◌, refl, Bool, true, false, Option, none, some, List, [], ◌∷◌, arith, if◌then◌else◌, ◌&&◌, All,
  All_of_In, In, here, there, ◌↔◌, inl, inr, Option-cases, ap, ◌∙◌, subst, is_some,
}
use thinklocal_mcp.Base.Text.{Text, text_eq}
use thinklocal_mcp.Matrix.{
  Value, FreigabeEntry, ResolveContext, ok, wildcard, parse_freigabe_matrix, same_tier, Candidates,
  visit, scan, chosen, target_of, resolve_entry, is_routable,
}
use thinklocal_mcp.Matrix.Routing.{IsFormed, parsed_is_sound}

-- The entry speaks of the call: of its tier and server, and of its tool or of every tool.
abbrev pub covers : ResolveContext → FreigabeEntry → Bool
covers ctx e =
    same_tier e.tier ctx.tier
    && text_eq e.server ctx.server
    && (if text_eq e.tool ctx.tool then true else text_eq e.tool wildcard)

abbrev pub Picked : ResolveContext → (FreigabeEntry → Type 0) → Option FreigabeEntry → Type 0
Picked ctx P none = Unit
Picked ctx P (some e) = P e × (covers ctx e ≡ true)

abbrev Holds : ResolveContext → (FreigabeEntry → Type 0) → Candidates → Type 0
Holds ctx P c = Picked ctx P c.exact × Picked ctx P c.any_tool

visit-Holds :
    (ctx : ResolveContext) (P : FreigabeEntry → Type 0) (e : FreigabeEntry) (c : Candidates)
    → P e
    → Holds ctx P c
    → Holds ctx P (visit ctx e c)
visit-Holds ctx P e c p h = ground arith

scan-Holds :
    (ctx : ResolveContext) (P : FreigabeEntry → Type 0) (es : List FreigabeEntry) (c : Candidates)
    → All P es
    → Holds ctx P c
    → Holds ctx P (scan ctx es c)
scan-Holds ctx P [] c _ h = h
scan-Holds ctx P (e ∷ es) c (p, all) h =
    scan-Holds ctx P es (visit ctx e c) all (visit-Holds ctx P e c p h)

chosen-Picked :
    (ctx : ResolveContext) (P : FreigabeEntry → Type 0) (c : Candidates)
    → Holds ctx P c
    → Picked ctx P (chosen c)
chosen-Picked ctx P c h = ground arith

-- Once some entry is chosen, some entry stays chosen.
visit-keeps :
    (ctx : ResolveContext) (e : FreigabeEntry) (c : Candidates)
    → is_some (chosen c) ≡ true
    → is_some (chosen (visit ctx e c)) ≡ true
visit-keeps ctx e c h = ground arith

scan-keeps :
    (ctx : ResolveContext) (es : List FreigabeEntry) (c : Candidates)
    → is_some (chosen c) ≡ true
    → is_some (chosen (scan ctx es c)) ≡ true
scan-keeps ctx [] c h = h
scan-keeps ctx (e ∷ es) c h = scan-keeps ctx es (visit ctx e c) (visit-keeps ctx e c h)

visit-takes :
    (ctx : ResolveContext) (e : FreigabeEntry) (c : Candidates)
    → covers ctx e ≡ true
    → is_some (chosen (visit ctx e c)) ≡ true
visit-takes ctx e c h = ground arith

scan-takes :
    (ctx : ResolveContext) (es : List FreigabeEntry) (c : Candidates) (e : FreigabeEntry)
    → In e es
    → covers ctx e ≡ true
    → is_some (chosen (scan ctx es c)) ≡ true
scan-takes ctx [] c e m h = elim m [ ]
scan-takes ctx (u ∷ es) c e (here same) h =
    scan-keeps ctx es (visit ctx u c)
      (visit-takes ctx u c (subst (λ (x : FreigabeEntry). covers ctx x ≡ true) same h))
scan-takes ctx (u ∷ es) c e (there m) h = scan-takes ctx es (visit ctx u c) e m h

pub All-members {ℓ κ} :
    {A : Type ℓ} (P : A → Type κ) (xs : List A) → ((x : A) → In x xs → P x) → All P xs
All-members P [] k = tt
All-members P (x ∷ xs) k = (k x (here refl), All-members P xs (λ y m. k y (there m)))

pub resolved :
    (ctx : ResolveContext) (es : List FreigabeEntry)
    → Picked ctx (λ e. In e es) (chosen (scan ctx es (record { exact = none; any_tool = none })))
resolved ctx es =
    chosen-Picked ctx (λ e. In e es) _
      (scan-Holds ctx (λ e. In e es) es _ (All-members (λ e. In e es) es (λ e m. m)) (tt, tt))

formed_routes :
    (known : List Text) (e : FreigabeEntry)
    → IsFormed known e
    → is_routable (target_of (some e)) ≡ true
unfolding is_routable
formed_routes known e (a, b, c, d) = ground arith

-- For a matrix that is parsed, a call is routable exactly when some entry covers its tier, its server
-- and its tool, by name or by the wildcard; every other call is refused.
pub routable_iff :
    (raw : Value) (known : List Text) (es : List FreigabeEntry) (ctx : ResolveContext)
    → parse_freigabe_matrix raw known ≡ ok es
    → (is_routable (resolve_entry es ctx) ≡ true)
      ↔ ((e : FreigabeEntry) × In e es × (covers ctx e ≡ true))
unfolding resolve_entry is_routable
routable_iff raw known es ctx h =
    let found = chosen (scan ctx es (record { exact = none; any_tool = none })) in
    elim (Option-cases found) [
      | inl n ↦ (
        λ r. absurd (let no : false ≡ true = (rw n at r) in cc),
        λ (e, m, c).
            let some_found : is_some found ≡ true = scan-takes ctx es _ e m c in
            absurd (let no : false ≡ true = (rw n at some_found) in cc),
      )
      | inr (u, f) ↦
          let (m, c) = subst (Picked ctx (λ e. In e es)) f (resolved ctx es) in
          let formed = All_of_In (IsFormed known) es (parsed_is_sound raw known es h).0 m in
          (
            λ r. (u, m, c),
            λ w. ap (λ o. is_routable (target_of o)) f ∙ formed_routes known u formed,
          )
    ]
