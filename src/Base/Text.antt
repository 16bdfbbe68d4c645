-- ===== src/Base/Text.antt =====
-- Texts whose characters the source looks at: lists of UTF-16 code units.
use Prim.Native.Char.{code}
use Prim.Native.Nat.{ℕ}
use Prim.Native.String.{String}
use mathlib.Core.Bool.{Bool, true, false, ◌&&◌, ◌||◌}
use mathlib.Core.List.{List, [], ◌∷◌, reverse}
use mathlib.Core.Path.{◌≡◌, refl}
use mathlib.Core.Logic.{◌↔◌}
use native.Mathlib.Omega.{arith}
use thinklocal_mcp.Base.Tests.{if◌then◌else◌, leb, ◌==◌}

abbrev pub Text : Type 0
Text = List ℕ

-- The code units of a text of the source's, which is ASCII.
abbrev pub codes : String → Text
codes String.[] = []
codes (String.◌∷◌ c s) = code c ∷ codes s

abbrev pub starts_with : Text → Text → Bool
starts_with [] s = true
starts_with (c ∷ p) [] = false
starts_with (c ∷ p) (d ∷ s) = c == d && starts_with p s

-- White space and line terminators of ECMAScript.
abbrev pub is_space : ℕ → Bool
is_space c =
    (leb 9 c && leb c 13)
    || c == 32
    || c == 0xa0
    || c == 0x1680
    || (leb 0x2000 c && leb c 0x200a)
    || c == 0x2028
    || c == 0x2029
    || c == 0x202f
    || c == 0x205f
    || c == 0x3000
    || c == 0xfeff

abbrev pub trim_start : Text → Text
trim_start [] = []
trim_start (c ∷ s) = if is_space c then trim_start s else c ∷ s

unfoldable pub trim : Text → Text
trim s = reverse (trim_start (reverse (trim_start s)))

abbrev pub is_empty : Text → Bool
is_empty [] = true
is_empty (c ∷ s) = false

-- `===` on texts.
abbrev pub text_eq : Text → Text → Bool
text_eq [] [] = true
text_eq [] (d ∷ t) = false
text_eq (c ∷ s) [] = false
text_eq (c ∷ s) (d ∷ t) = c == d && text_eq s t

pub text_eq_iff : (s t : Text) → (text_eq s t ≡ true) ↔ (s ≡ t)
text_eq_iff [] [] = (λ h. refl, λ h. refl)
text_eq_iff [] (d ∷ t) = (λ h. cc, λ h. cc)
text_eq_iff (c ∷ s) [] = (λ h. cc, λ h. cc)
text_eq_iff (c ∷ s) (d ∷ t) =
    let (to, from) = text_eq_iff s t in (λ h. ground arith, λ h. ground arith)

-- `t.includes(s)`
abbrev pub includes : Text → Text → Bool
includes s [] = starts_with s []
includes s (c ∷ t) = starts_with s (c ∷ t) || includes s t

-- Whether the text is one of these.
abbrev pub is_in : List Text → Text → Bool
is_in [] t = false
is_in (u ∷ us) t = text_eq u t || is_in us t

-- A text that the source tests for a character besides white space, `null` included.
abbrev pub is_blank : Text → Bool
is_blank t = is_empty (trim t)
