-- ===== src/Matrix/Routing.antt =====
-- What the matrix of freigabe-matrix.ts routes, once it is parsed.
use thinklocal_mcp.Base.{
  ◌≡◌, refl, true, false, Option, none, some, List, [], ◌∷◌, arith, if◌then◌else◌, any, All, inl,
  inr, Bool-cases, subst,
}
use thinklocal_mcp.Base.Text.{Text, codes, trim, is_empty, text_eq}
use thinklocal_mcp.Matrix.{
  Value, Values, nil, cons, Fields, null, object, array, FreigabeEntry, Parsed, ok, refused, ◌>>=◌,
  prop, parse_decider_text, parse_decider, read_tier, read_server, read_tool, read_channel,
  parse_entry, entry_key, only_keys, entry_keys, read_fields, read_entries, duplicate,
  parse_entries, parse_freigabe_matrix, is_decidable,
}

-- What every entry of a parsed matrix is: for a known server, with a channel and a decider in form.
abbrev pub IsFormed : List Text → FreigabeEntry → Type 0
IsFormed known e =
    (any (text_eq e.server) known ≡ true)
    × (is_empty e.tool ≡ false)
    × (is_empty (trim e.channel) ≡ false)
    × (is_decidable e.decider ≡ true)

-- A result holds of what it returns.
abbrev pub Returns : {A : Type 0} → (A → Type 0) → Parsed A → Type 0
Returns P (ok a) = P a
Returns P (refused e) = Unit

bind-Returns :
    {A B : Type 0} (P : A → Type 0) (Q : B → Type 0) (p : Parsed A) (f : A → Parsed B)
    → Returns P p
    → ((a : A) → P a → Returns Q (f a))
    → Returns Q (p >>= f)
bind-Returns P Q (ok a) f h k = k a h
bind-Returns P Q (refused e) f h k = tt

read_server-Returns :
    (known : List Text) (o : Option Value)
    → Returns (λ s. any (text_eq s) known ≡ true) (read_server known o)
read_server-Returns known o = ground arith

read_tool-Returns : (o : Option Value) → Returns (λ t. is_empty t ≡ false) (read_tool o)
read_tool-Returns o = ground arith

read_channel-Returns :
    (o : Option Value) → Returns (λ c. is_empty (trim c) ≡ false) (read_channel o)
read_channel-Returns o = ground arith

parse_decider-Returns : (o : Option Value) → Returns (λ d. is_decidable d ≡ true) (parse_decider o)
unfolding parse_decider_text
parse_decider-Returns o = ground arith

read_tier-Returns : (o : Option Value) → Returns (λ t. Unit) (read_tier o)
read_tier-Returns o = ground arith

read_fields-Returns :
    (known : List Text) (fs : Fields) → Returns (IsFormed known) (read_fields known fs)
read_fields-Returns known fs =
    bind-Returns (λ t. Unit) (IsFormed known) (read_tier (prop (codes "tier") fs)) _
      (read_tier-Returns (prop (codes "tier") fs))
      (λ tier _.
        bind-Returns (λ s. any (text_eq s) known ≡ true) (IsFormed known)
          (read_server known (prop (codes "server") fs)) _
          (read_server-Returns known (prop (codes "server") fs))
          (λ server a.
            bind-Returns (λ t. is_empty t ≡ false) (IsFormed known)
              (read_tool (prop (codes "tool") fs)) _ (read_tool-Returns (prop (codes "tool") fs))
              (λ tool b.
                bind-Returns (λ c. is_empty (trim c) ≡ false) (IsFormed known)
                  (read_channel (prop (codes "channel") fs)) _
                  (read_channel-Returns (prop (codes "channel") fs))
                  (λ channel c.
                    bind-Returns (λ d. is_decidable d ≡ true) (IsFormed known)
                      (parse_decider (prop (codes "decider") fs)) _
                      (parse_decider-Returns (prop (codes "decider") fs))
                      (λ decider d. (a, b, c, d))))))

parse_entry-Returns :
    (known : List Text) (v : Value) → Returns (IsFormed known) (parse_entry known v)
unfolding parse_entry
parse_entry-Returns known (object fs) = elim (Bool-cases (only_keys entry_keys fs)) [
  | inl e ↦ rw e (read_fields-Returns known fs)
  | inr e ↦ rw e tt
]
parse_entry-Returns known _ = tt

-- No two entries have the key of the duplicate test.
abbrev pub Distinct : List FreigabeEntry → Type 0
Distinct [] = Unit
Distinct (e ∷ es) = All (λ u. text_eq (entry_key u) (entry_key e) ≡ false) es × Distinct es

abbrev Avoids : List Text → List FreigabeEntry → Type 0
Avoids seen es = All (λ e. any (text_eq (entry_key e)) seen ≡ false) es

abbrev IsSound : List Text → List Text → List FreigabeEntry → Type 0
IsSound known seen es = All (IsFormed known) es × Avoids seen es × Distinct es

split_Avoids :
    (k : Text) (seen : List Text) (es : List FreigabeEntry)
    → Avoids (k ∷ seen) es
    → Avoids seen es × All (λ u. text_eq (entry_key u) k ≡ false) es
split_Avoids k seen [] h = (tt, tt)
split_Avoids k seen (e ∷ es) (a, h) =
    let (l, r) = split_Avoids k seen es h in ((ground arith, l), (ground arith, r))

unseen-Returns :
    (e : FreigabeEntry) (seen : List Text)
    → Returns
        (λ u. any (text_eq (entry_key e)) seen ≡ false)
        (if any (text_eq (entry_key e)) seen then refused duplicate else ok e)
unseen-Returns e seen = elim (Bool-cases (any (text_eq (entry_key e)) seen)) [
  | inl h ↦ rw h tt
  | inr h ↦ rw h refl
]

parse_entries-Returns :
    (known seen : List Text) (vs : Values)
    → Returns (IsSound known seen) (parse_entries known seen vs)
unfolding parse_entries
parse_entries-Returns known seen nil = (tt, tt, tt)
parse_entries-Returns known seen (cons v vs) =
    bind-Returns (IsFormed known) (IsSound known seen) (parse_entry known v) _
      (parse_entry-Returns known v)
      (λ e formed.
        bind-Returns (λ u. any (text_eq (entry_key e)) seen ≡ false) (IsSound known seen) _ _
          (unseen-Returns e seen)
          (λ u fresh.
            bind-Returns (IsSound known (entry_key e ∷ seen)) (IsSound known seen)
              (parse_entries known (entry_key e ∷ seen) vs) _
              (parse_entries-Returns known (entry_key e ∷ seen) vs)
              (λ es (forms, away, apart).
                let (l, r) = split_Avoids (entry_key e) seen es away in
                ((formed, forms), (fresh, l), (r, apart)))))

read_entries-Returns :
    (known : List Text) (o : Option Value) → Returns (IsSound known []) (read_entries known o)
read_entries-Returns known none = (tt, tt, tt)
read_entries-Returns known (some null) = (tt, tt, tt)
read_entries-Returns known (some (array vs)) = parse_entries-Returns known [] vs
read_entries-Returns known (some _) = tt

parse-Returns :
    (raw : Value) (known : List Text) → Returns (IsSound known []) (parse_freigabe_matrix raw known)
unfolding parse_freigabe_matrix
parse-Returns (object fs) known = elim (Bool-cases (only_keys (codes "entries" ∷ []) fs)) [
  | inl e ↦ rw e (read_entries-Returns known (prop (codes "entries") fs))
  | inr e ↦ rw e tt
]
parse-Returns _ known = tt

-- A matrix that is parsed holds only entries for known servers, with a tool, a channel that is not
-- blank and a decider in form, and no two entries of one tier, server and tool.
pub parsed_is_sound :
    (raw : Value) (known : List Text) (es : List FreigabeEntry)
    → parse_freigabe_matrix raw known ≡ ok es
    → All (IsFormed known) es × Distinct es
parsed_is_sound raw known es h =
    let (forms, away, apart) = subst (Returns (IsSound known [])) h (parse-Returns raw known) in
    (forms, apart)
