-- ===== src/Matrix/Specific.antt =====
-- The more specific entry wins in `resolveEntry` of freigabe-matrix.ts.
use thinklocal_mcp.Base.{
  ◌≡◌, refl, Bool, true, false, Option, none, some, List, [], ◌∷◌, arith, ◌&&◌, All, All_of_In, In,
  here, there, ◌⊎◌, inl, inr, Option-cases, ap, ◌∙◌, sym, subst, is_some,
}
use thinklocal_mcp.Base.Text.{Text, text_eq, text_eq_iff}
use thinklocal_mcp.Matrix.{
  Value, FreigabeEntry, ResolveContext, ok, parse_freigabe_matrix, McpExecutionTier, entry_key,
  same_tier, Candidates, visit, scan, or_else, target_of, resolve_entry,
}
use thinklocal_mcp.Matrix.Routing.{Distinct, parsed_is_sound}
use thinklocal_mcp.Matrix.Resolution.{All-members}

-- The entry names the call's tool.
abbrev pub names : ResolveContext → FreigabeEntry → Bool
names ctx e = same_tier e.tier ctx.tier && text_eq e.server ctx.server && text_eq e.tool ctx.tool

abbrev Named : ResolveContext → (FreigabeEntry → Type 0) → Option FreigabeEntry → Type 0
Named ctx P none = Unit
Named ctx P (some e) = P e × (names ctx e ≡ true)

visit-Named :
    (ctx : ResolveContext) (P : FreigabeEntry → Type 0) (e : FreigabeEntry) (c : Candidates)
    → P e
    → Named ctx P c.exact
    → Named ctx P (visit ctx e c).exact
visit-Named ctx P e c p h = ground arith

scan-Named :
    (ctx : ResolveContext) (P : FreigabeEntry → Type 0) (es : List FreigabeEntry) (c : Candidates)
    → All P es
    → Named ctx P c.exact
    → Named ctx P (scan ctx es c).exact
scan-Named ctx P [] c _ h = h
scan-Named ctx P (e ∷ es) c (p, all) h =
    scan-Named ctx P es (visit ctx e c) all (visit-Named ctx P e c p h)

visit-exact :
    (ctx : ResolveContext) (e : FreigabeEntry) (c : Candidates)
    → (is_some c.exact ≡ true) ⊎ (names ctx e ≡ true)
    → is_some (visit ctx e c).exact ≡ true
visit-exact ctx e c h = ground arith

scan-exact :
    (ctx : ResolveContext) (es : List FreigabeEntry) (c : Candidates)
    → is_some c.exact ≡ true
    → is_some (scan ctx es c).exact ≡ true
scan-exact ctx [] c h = h
scan-exact ctx (e ∷ es) c h = scan-exact ctx es (visit ctx e c) (visit-exact ctx e c (inl h))

scan-meets :
    (ctx : ResolveContext) (es : List FreigabeEntry) (c : Candidates) (e : FreigabeEntry)
    → In e es
    → names ctx e ≡ true
    → is_some (scan ctx es c).exact ≡ true
scan-meets ctx [] c e m h = elim m [ ]
scan-meets ctx (u ∷ es) c e (here same) h =
    scan-exact ctx es (visit ctx u c)
      (visit-exact ctx u c (inr (subst (λ (x : FreigabeEntry). names ctx x ≡ true) same h)))
scan-meets ctx (u ∷ es) c e (there m) h = scan-meets ctx es (visit ctx u c) e m h

same_tier_eq : (a b : McpExecutionTier) → same_tier a b ≡ true → a ≡ b
same_tier_eq a b h = ground arith

and_true : (p q r : Bool) → (p && q && r) ≡ true → (p ≡ true) × (q ≡ true) × (r ≡ true)
and_true p q r h = ground arith

names_call :
    (ctx : ResolveContext) (e : FreigabeEntry)
    → names ctx e ≡ true
    → (e.tier ≡ ctx.tier) × (e.server ≡ ctx.server) × (e.tool ≡ ctx.tool)
names_call ctx e h =
    let (a, b, c) =
      and_true (same_tier e.tier ctx.tier) (text_eq e.server ctx.server) (text_eq e.tool ctx.tool)
        h in
    (
      same_tier_eq e.tier ctx.tier a,
      (text_eq_iff e.server ctx.server).0 b,
      (text_eq_iff e.tool ctx.tool).0 c,
    )

-- Two entries that name one call have one key.
same_key :
    (ctx : ResolveContext) (e u : FreigabeEntry)
    → names ctx e ≡ true
    → names ctx u ≡ true
    → text_eq (entry_key u) (entry_key e) ≡ true
same_key ctx e u h k =
    let (a, b, c) = names_call ctx e h in
    let (a', b', c') = names_call ctx u k in
    (text_eq_iff (entry_key u) (entry_key e)).1 (rw (a, b, c, a', b', c') refl)

Distinct-member :
    (es : List FreigabeEntry) (e u : FreigabeEntry)
    → Distinct es
    → In e es
    → In u es
    → text_eq (entry_key u) (entry_key e) ≡ true
    → text_eq (entry_key e) (entry_key u) ≡ true
    → u ≡ e
Distinct-member [] e u d m n k k' = elim m [ ]
Distinct-member (x ∷ es) e u (a, d) (here p) (here q) k k' = q ∙ sym p
Distinct-member (x ∷ es) e u (a, d) (there m) (there n) k k' = Distinct-member es e u d m n k k'
Distinct-member (x ∷ es) e u (a, d) (here p) (there n) k k' =
    let clash = All_of_In (λ v. text_eq (entry_key v) (entry_key x) ≡ false) es a n in
    absurd (
      let no : true ≡ false =
        sym k
        ∙ subst (λ (y : FreigabeEntry). text_eq (entry_key u) (entry_key y) ≡ false) (sym p)
            clash in
      cc)
Distinct-member (x ∷ es) e u (a, d) (there m) (here q) k k' =
    let clash = All_of_In (λ v. text_eq (entry_key v) (entry_key x) ≡ false) es a m in
    absurd (
      let no : true ≡ false =
        sym k'
        ∙ subst (λ (y : FreigabeEntry). text_eq (entry_key e) (entry_key y) ≡ false) (sym q)
            clash in
      cc)

named_members :
    (ctx : ResolveContext) (es : List FreigabeEntry) (e u : FreigabeEntry)
    → Distinct es
    → In e es
    → In u es
    → names ctx e ≡ true
    → names ctx u ≡ true
    → u ≡ e
named_members ctx es e u d m n h k =
    Distinct-member es e u d m n (same_key ctx e u h k) (same_key ctx u e k h)

-- For a matrix that is parsed, an entry that names the tier, the server and the tool of a call decides
-- it: its channel and its decider are the result, whatever wildcard entries there are.
pub exact_wins :
    (raw : Value) (known : List Text) (es : List FreigabeEntry) (ctx : ResolveContext)
    (e : FreigabeEntry)
    → parse_freigabe_matrix raw known ≡ ok es
    → In e es
    → names ctx e ≡ true
    → resolve_entry es ctx ≡ target_of (some e)
unfolding resolve_entry
exact_wins raw known es ctx e h m name =
    let start : Candidates = record { exact = none; any_tool = none } in
    let there_is = scan-meets ctx es start e m name in
    elim (Option-cases (scan ctx es start).exact) [
      | inl n ↦ absurd (let no : false ≡ true = (rw n at there_is) in cc)
      | inr (u, f) ↦
          let (n, k) = subst (Named ctx (λ x. In x es)) f (
            scan-Named ctx (λ x. In x es) es start (All-members (λ x. In x es) es (λ x i. i)) tt) in
          let same = named_members ctx es e u (parsed_is_sound raw known es h).1 m n name k in
          ap (λ o. target_of (or_else o (scan ctx es start).any_tool)) f
          ∙ ap (λ x. target_of (some x)) same
    ]
