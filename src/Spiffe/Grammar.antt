-- ===== src/Spiffe/Grammar.antt =====
-- What `parseSpiffeUri` of spiffe-uri.ts accepts, and how it meets the functions that write a URI.
use thinklocal_mcp.Base.{
  ◌≡◌, refl, sym, ◌∙◌, ap, Bool, true, false, not, Option, none, some, List, [], ◌∷◌, ◌++◌, ◌||◌,
  if◌then◌else◌, arith, drop, length,
}
use thinklocal_mcp.Base.Text.{Text, codes, starts_with, is_empty, text_eq, text_eq_iff}
use thinklocal_mcp.Spiffe.{
  SpiffeUriError, ParsedSpiffeUri, node, host, Result, ok, throws, prefix, split, is_peer_id,
  is_component, node_tail, host_of, instance_of, host_parts, parts, parse_spiffe_uri,
}
use thinklocal_mcp.Spiffe.Tokens.{join, join-split, starts_with-split}

abbrev pub with_instance : Option Text → List Text
with_instance none = []
with_instance (some i) = codes "instance" ∷ i ∷ []

-- The path of an identity, token by token.
abbrev pub tokens : ParsedSpiffeUri → List Text
tokens (node id raw) = codes "node" ∷ id ∷ []
tokens (host id agent i raw) = codes "host" ∷ id ∷ codes "agent" ∷ agent ∷ with_instance i

-- The URI of an identity.
abbrev pub printed : ParsedSpiffeUri → Text
printed p = prefix ++ join (tokens p)

abbrev pub raw_of : ParsedSpiffeUri → Text
raw_of (node id raw) = raw
raw_of (host id agent i raw) = raw

abbrev pub InstanceValid : Option Text → Type 0
InstanceValid none = Unit
InstanceValid (some i) = is_component i ≡ true

-- Each part has the characters that its expression allows.
abbrev pub IsValid : ParsedSpiffeUri → Type 0
IsValid (node id raw) = is_peer_id id ≡ true
IsValid (host id agent i raw) =
    (is_component id ≡ true) × (is_component agent ≡ true) × InstanceValid i

abbrev Sound : Text → List Text → ParsedSpiffeUri → Type 0
Sound uri ts p = IsValid p × (raw_of p ≡ uri) × (tokens p ≡ ts)

abbrev pub Returns : (ParsedSpiffeUri → Type 0) → Result ParsedSpiffeUri → Type 0
Returns Q (ok p) = Q p
Returns Q (throws e) = Unit

module _ (Q : ParsedSpiffeUri → Type 0) where
  if_Returns :
      (b : Bool) (x y : Result ParsedSpiffeUri)
      → (b ≡ true → Returns Q x)
      → (b ≡ false → Returns Q y)
      → Returns Q (if b then x else y)
  if_Returns true x y h k = h refl
  if_Returns false x y h k = k refl

  guard_Returns :
      (b : Bool) (e : SpiffeUriError) (y : Result ParsedSpiffeUri)
      → (b ≡ false → Returns Q y)
      → Returns Q (if b then throws e else y)
  guard_Returns b e y k = if_Returns b (throws e) y (λ h. tt) k

  host_of_Returns :
      (a b c d : Text) (next : Result ParsedSpiffeUri)
      → (text_eq a (codes "host") ≡ true
          → text_eq c (codes "agent") ≡ true
          → is_component b ≡ true
          → is_component d ≡ true
          → Returns Q next)
      → Returns Q (host_of a b c d next)
  host_of_Returns a b c d next k =
      guard_Returns (not (text_eq a (codes "host")) || not (text_eq c (codes "agent"))) _ _
        (λ grammar. guard_Returns (is_empty b || is_empty d) _ _ (λ present.
          guard_Returns (not (is_component b)) _ _ (λ good.
            if_Returns (is_component d) next _
              (λ fine.
                let (x, y) = both (text_eq a (codes "host")) (text_eq c (codes "agent")) grammar in
                k x y (positive (is_component b) good) fine)
              (λ bad. tt))))
    where
      both : (x y : Bool) → (not x || not y) ≡ false → (x ≡ true) × (y ≡ true)
      both x y h = ground arith

      positive : (x : Bool) → not x ≡ false → x ≡ true
      positive x h = ground arith

host_tokens :
    (a b c d : Text) (rest : List Text)
    → text_eq a (codes "host") ≡ true
    → text_eq c (codes "agent") ≡ true
    → codes "host" ∷ b ∷ codes "agent" ∷ d ∷ rest ≡ a ∷ b ∷ c ∷ d ∷ rest
host_tokens a b c d rest h k =
    let x = (text_eq_iff a (codes "host")).0 h in
    let y = (text_eq_iff c (codes "agent")).0 k in rw (x, y) refl

positive : (x : Bool) → not x ≡ false → x ≡ true
positive x h = ground arith

instance_of_Returns :
    (uri a b c d e f : Text)
    → text_eq a (codes "host") ≡ true
    → text_eq c (codes "agent") ≡ true
    → is_component b ≡ true
    → is_component d ≡ true
    → Returns (Sound uri (a ∷ b ∷ c ∷ d ∷ e ∷ f ∷ [])) (instance_of uri b d e f)
instance_of_Returns uri a b c d e f h k good fine =
    let Q = Sound uri (a ∷ b ∷ c ∷ d ∷ e ∷ f ∷ []) in
    guard_Returns Q (not (text_eq e (codes "instance"))) _ _ (λ word.
      guard_Returns Q (is_empty f) _ _ (λ present.
        if_Returns Q (is_component f) _ _
          (λ valid.
            let x = (text_eq_iff e (codes "instance")).0 (positive _ word) in
            (
              (good, fine, valid),
              refl,
              host_tokens a b c d (codes "instance" ∷ f ∷ []) h k
                  ∙ ap (λ t. a ∷ b ∷ c ∷ d ∷ t ∷ f ∷ []) (sym x),
            ))
          (λ bad. tt)))

host_parts_Returns : (uri : Text) (ts : List Text) → Returns (Sound uri ts) (host_parts uri ts)
host_parts_Returns uri (a ∷ b ∷ c ∷ d ∷ []) =
    host_of_Returns (Sound uri (a ∷ b ∷ c ∷ d ∷ [])) a b c d (ok (host b d none uri))
      (λ h k good fine. ((good, fine, tt), refl, host_tokens a b c d [] h k))
host_parts_Returns uri (a ∷ b ∷ c ∷ d ∷ e ∷ f ∷ []) =
    host_of_Returns (Sound uri (a ∷ b ∷ c ∷ d ∷ e ∷ f ∷ [])) a b c d (instance_of uri b d e f)
      (instance_of_Returns uri a b c d e f)
host_parts_Returns uri _ = tt

node_tail_Returns :
    (uri first : Text) (rest : List Text)
    → text_eq first (codes "node") ≡ true
    → Returns (Sound uri (first ∷ rest)) (node_tail uri rest)
node_tail_Returns uri first (id ∷ []) h =
    let Q = Sound uri (first ∷ id ∷ []) in
    guard_Returns Q (is_empty id) _ _ (λ present.
      if_Returns Q (is_peer_id id) _ _
        (λ valid.
          (valid, refl, ap (λ t. t ∷ id ∷ []) (sym ((text_eq_iff first (codes "node")).0 h))))
        (λ bad. tt))
node_tail_Returns uri first _ h = tt

parts_Returns : (uri : Text) (ts : List Text) → Returns (Sound uri ts) (parts uri ts)
parts_Returns uri [] = tt
parts_Returns uri (first ∷ rest) =
    if_Returns (Sound uri (first ∷ rest)) (text_eq first (codes "node")) _ _
      (node_tail_Returns uri first rest) (λ other. host_parts_Returns uri (first ∷ rest))

-- What is parsed is in form, and is the text that it is printed as.
abbrev pub Reads : Text → ParsedSpiffeUri → Type 0
Reads uri p = IsValid p × (raw_of p ≡ uri) × (printed p ≡ uri)

read_back :
    (uri : Text) (r : Result ParsedSpiffeUri)
    → starts_with prefix uri ≡ true
    → Returns (Sound uri (split (drop (length prefix) uri))) r
    → Returns (Reads uri) r
read_back uri (throws e) s p = tt
read_back uri (ok p) s (valid, same, ts) = (
  valid,
  same,
  ap (λ xs. prefix ++ join xs) ts
      ∙ ap (λ t. prefix ++ t) (join-split (drop (length prefix) uri))
      ∙ sym (starts_with-split prefix uri s),
)

pub parse-Returns : (uri : Text) → Returns (Reads uri) (parse_spiffe_uri uri)
unfolding parse_spiffe_uri
parse-Returns uri = guard_Returns (Reads uri) (is_empty uri) _ _ (λ present.
    if_Returns (Reads uri) (starts_with prefix uri) _ _
      (λ s. read_back uri _ s (parts_Returns uri (split (drop (length prefix) uri)))) (λ bad. tt))
