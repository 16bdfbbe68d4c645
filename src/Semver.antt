-- ===== src/Semver.antt =====
-- packages/daemon/src/semver.ts. A text is its list of UTF-16 code units.
-- `Number` of the digits of a version part is exact below 2^53, where this model reads it.
pub mod Order
pub mod Versions
mod Tests
use Prim.Native.Nat.{compare, Ordering}
use thinklocal_mcp.Base.{
  ℕ, ◌+◌, ◌-◌, ◌*◌, Bool, true, false, not, Option, none, some, List, [], ◌∷◌, ◌++◌, ◌&&◌, ◌||◌,
  if◌then◌else◌, leb, ◌==◌, drop, is_some,
}

abbrev pub Text : Type 0
Text = List ℕ

pub record SemVer : Type 0 where
  pub major : ℕ
  pub minor : ℕ
  pub patch : ℕ
  pub prerelease : Option Text

-- `\d`
abbrev pub is_digit : ℕ → Bool
is_digit c = leb b'0' c && leb c b'9'

-- `.` of a regular expression: no line terminator.
abbrev pub is_plain : ℕ → Bool
is_plain c = not (c == 10 || c == 13 || c == 0x2028 || c == 0x2029)

-- The value of the longest run of digits, and the rest.
digits_from : ℕ → Text → ℕ × Text
digits_from acc [] = (acc, [])
digits_from acc (c ∷ s) = if is_digit c then digits_from (acc * 10 + (c - b'0')) s else (acc, c ∷ s)

-- `(\d+)`
unfoldable pub digits : Text → Option (ℕ × Text)
unfolding digits_from
digits [] = none
digits (c ∷ s) = if is_digit c then some (digits_from 0 (c ∷ s)) else none

abbrev expect : ℕ → Text → Option Text
expect c [] = none
expect c (d ∷ s) = if d == c then some s else none

abbrev all_plain : Text → Bool
all_plain [] = true
all_plain (c ∷ s) = is_plain c && all_plain s

infixl 5 ◌>>=◌
abbrev ◌>>=◌ : {A B : Type 0} → Option A → (A → Option B) → Option B
none >>= f = none
some a >>= f = f a

-- `(?:-(.+))?$`, read as the whole rest.
abbrev prerelease_of : Text → Option (Option Text)
prerelease_of [] = some none
prerelease_of (c ∷ []) = none
prerelease_of (c ∷ d ∷ s) = if c == b'-' && all_plain (d ∷ s) then some (some (d ∷ s)) else none

unfoldable pub parse_sem_ver : Text → Option SemVer
unfolding digits
parse_sem_ver version = do
  (major, s) ← digits version
  s ← expect b'.' s
  (minor, s) ← digits s
  s ← expect b'.' s
  (patch, s) ← digits s
  prerelease ← prerelease_of s
  some (record { major = major; minor = minor; patch = patch; prerelease = prerelease })

-- `s.split('.')`
split_from : Text → Text → List Text
split_from cur [] = cur ∷ []
split_from cur (c ∷ s) =
    let closed = cur ∷ split_from [] s in
    let longer = split_from (cur ++ c ∷ []) s in if c == b'.' then closed else longer

unfoldable pub split_dots : Text → List Text
unfolding split_from
split_dots s = split_from [] s

-- Decide by the first comparison, and by the second if it finds no difference.
abbrev pub then_by : Ordering → Ordering → Ordering
then_by Ordering.lt next = Ordering.lt
then_by Ordering.eq next = next
then_by Ordering.gt next = Ordering.gt

-- `<` on strings compares code units.
unfoldable pub compare_text : Text → Text → Ordering
compare_text [] [] = Ordering.eq
compare_text [] (d ∷ t) = Ordering.lt
compare_text (c ∷ s) [] = Ordering.gt
compare_text (c ∷ s) (d ∷ t) = then_by (compare c d) (compare_text s t)

abbrev pub by_number : Option ℕ → Option ℕ → Ordering → Ordering
by_number (some na) (some nb) texts = compare na nb
by_number (some na) none texts = Ordering.lt
by_number none (some nb) texts = Ordering.gt
by_number none none texts = texts

abbrev pub not_less : Ordering → Bool
not_less Ordering.lt = false
not_less _ = true

abbrev pub is_greater : Ordering → Bool
is_greater Ordering.gt = true
is_greater _ = false

abbrev pub is_equal : Ordering → Bool
is_equal Ordering.eq = true
is_equal _ = false

abbrev pub compatible_parsed : Option SemVer → Option SemVer → Bool
compatible_parsed (some a) (some b) =
    if a.major == 0 && b.major == 0 then a.minor == b.minor else a.major == b.major
compatible_parsed (some a) none = false
compatible_parsed none b = false

-- `range.startsWith('>=')`, `'^'` and `'~'`, with what `slice` leaves.
abbrev pub starts_with : Text → Text → Bool
starts_with [] s = true
starts_with (c ∷ p) [] = false
starts_with (c ∷ p) (d ∷ s) = c == d && starts_with p s

abbrev pub tilde_parsed : SemVer → Option SemVer → Bool
tilde_parsed v none = false
tilde_parsed v (some r) = v.major == r.major && (v.minor == r.minor && leb r.patch v.patch)

unfoldable pub is_compatible : Text → Text → Bool
is_compatible a b = compatible_parsed (parse_sem_ver a) (parse_sem_ver b)

-- The results -1, 0 and 1 of `compareSemVer` are `lt`, `eq` and `gt`. `number` stands for the
-- runtime's `Number` on an identifier: none for NaN, else the place of the double in the order of
-- the doubles.
module _ (number : Text → Option ℕ) where
  unfoldable pub compare_identifier : Text → Text → Ordering
  compare_identifier a b = by_number (number a) (number b) (compare_text a b)

  -- The loop over the common length, and the comparison of the lengths after it.
  unfoldable pub compare_identifiers : List Text → List Text → Ordering
  compare_identifiers [] [] = Ordering.eq
  compare_identifiers [] (q ∷ qs) = Ordering.lt
  compare_identifiers (p ∷ ps) [] = Ordering.gt
  compare_identifiers (p ∷ ps) (q ∷ qs) =
      then_by (compare_identifier p q) (compare_identifiers ps qs)

  unfoldable pub compare_prerelease : Option Text → Option Text → Ordering
  compare_prerelease (some p) none = Ordering.lt
  compare_prerelease none (some q) = Ordering.gt
  compare_prerelease (some p) (some q) = compare_identifiers (split_dots p) (split_dots q)
  compare_prerelease none none = Ordering.eq

  unfoldable pub compare_parsed : SemVer → SemVer → Ordering
  compare_parsed a b = then_by (compare a.major b.major) (
      then_by (compare a.minor b.minor)
        (then_by (compare a.patch b.patch) (compare_prerelease a.prerelease b.prerelease)))

  abbrev compare_read : Option SemVer → Option SemVer → Ordering
  compare_read (some a) (some b) = compare_parsed a b
  compare_read (some a) none = Ordering.eq
  compare_read none b = Ordering.eq

  unfoldable pub compare_sem_ver : Text → Text → Ordering
  compare_sem_ver a b = compare_read (parse_sem_ver a) (parse_sem_ver b)

  unfoldable pub satisfies_min_version : Text → Text → Bool
  satisfies_min_version version min_version = not_less (compare_sem_ver version min_version)

  -- `versions.reduce(…)`
  unfoldable pub latest_from : Text → List Text → Text
  latest_from latest [] = latest
  latest_from latest (v ∷ vs) =
      latest_from (if is_greater (compare_sem_ver v latest) then v else latest) vs

  unfoldable pub latest_version : List Text → Option Text
  latest_version [] = none
  latest_version (v ∷ vs) = some (latest_from v vs)

  range_of_parsed : Option SemVer → Text → Text → Bool
  unfolding satisfies_min_version is_compatible
  range_of_parsed none version range = false
  range_of_parsed (some v) version range =
      if starts_with (b'>' ∷ b'=' ∷ []) range
      then satisfies_min_version version (drop 2 range)
      else if starts_with (b'^' ∷ []) range
      then is_some (parse_sem_ver (drop 1 range))
        && (is_compatible version (drop 1 range)
            && not_less (compare_sem_ver version (drop 1 range)))
      else if starts_with (b'~' ∷ []) range
      then tilde_parsed v (parse_sem_ver (drop 1 range))
      else is_equal (compare_sem_ver version range)

  unfoldable pub satisfies_range : Text → Text → Bool
  unfolding range_of_parsed
  satisfies_range version range = range_of_parsed (parse_sem_ver version) version range
