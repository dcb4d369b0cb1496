-- ===== src/Text.antt =====
-- What the Go sources use of packages strings and unicode. A text is a sequence of Unicode code
-- points, as a JSON decoder delivers it; `len` of the native strings counts its UTF-8 bytes.
pub mod Laws
pub mod Splitting
pub mod Decimal
pub mod Atoi
pub mod Trimming
use Prim.Native.String
use Prim.Native.String.{len, slice}
use Prim.Native.String.{char_at}
use text.Mathlib.Text.{starts_with}
use fluent_task_runtime.Base.{
  ℕ, ◌+◌, ◌-◌, Char, code, String, Bool, true, false, ◌&&◌, ◌||◌, List, [], ◌∷◌, leb, ltb, ◌==◌,
  nat_eq, string_eq, if◌then◌else◌,
}

-- The code points of a text.
abbrev pub codes : String → List ℕ
codes String.[] = []
codes (String.◌∷◌ c s) = code c ∷ codes s

abbrev pub between : ℕ → ℕ → ℕ → Bool
between lo hi n = leb lo n && leb n hi

-- unicode.IsSpace, by code point.
unfoldable pub is_space : ℕ → Bool
unfolding nat_eq
is_space n =
    between 9 13 n
    || n == 0x20
    || n == 0x85
    || n == 0xa0
    || n == 0x1680
    || between 0x2000 0x200a n
    || n == 0x2028
    || n == 0x2029
    || n == 0x202f
    || n == 0x205f
    || n == 0x3000

abbrev pub is_nil : String → Bool
is_nil String.[] = true
is_nil (String.◌∷◌ c s) = false

unfoldable pub trim_left : String → String
trim_left String.[] = ""
trim_left (String.◌∷◌ c s) = if is_space (code c) then trim_left s else String.◌∷◌ c s

unfoldable pub trim_right : String → String
trim_right String.[] = ""
trim_right (String.◌∷◌ c s) =
    let r = trim_right s in if is_nil r && is_space (code c) then "" else String.◌∷◌ c r

-- strings.TrimSpace
unfoldable pub trim_space : String → String
unfolding trim_left trim_right is_space
trim_space s = trim_right (trim_left s)

-- `strings.TrimSpace(s) == ""`
unfoldable pub is_blank : String → Bool
unfolding trim_space string_eq
is_blank s = trim_space s == ""

abbrev ascii_lower : Char → Char
ascii_lower c =
    if between b'A' b'Z' (code c) then char_at "abcdefghijklmnopqrstuvwxyz" (code c - b'A') else c

-- strings.ToLower: `unicode_lower` is the case table of the code points above ASCII.
unfoldable pub to_lower : (Char → Char) → String → String
to_lower unicode_lower String.[] = ""
to_lower unicode_lower (String.◌∷◌ c s) =
    String.◌∷◌ (if ltb (code c) 128 then ascii_lower c else unicode_lower c)
      (to_lower unicode_lower s)

-- One step of strings.EqualFold against an ASCII letter in lower case: beside its capital, "s" and
-- "k" fold with U+017F and U+212A.
unfoldable pub folds_to : ℕ → ℕ → Bool
unfolding nat_eq
folds_to lower n =
    n == lower
    || (between b'a' b'z' lower && n + 32 == lower)
    || (lower == b's' && n == 0x17f)
    || (lower == b'k' && n == 0x212a)

-- strings.EqualFold with a constant of ASCII letters in lower case, by code points.
unfoldable pub equal_fold : List ℕ → List ℕ → Bool
unfolding folds_to
equal_fold [] [] = true
equal_fold (n ∷ ns) (l ∷ ls) = folds_to l n && equal_fold ns ls
equal_fold _ _ = false

abbrev cons_first : Char → List String → List String
cons_first c [] = String.◌∷◌ c "" ∷ []
cons_first c (p ∷ ps) = String.◌∷◌ c p ∷ ps

-- strings.Split at a separator of one character.
unfoldable pub split : ℕ → String → List String
unfolding nat_eq
split sep String.[] = "" ∷ []
split sep (String.◌∷◌ c s) =
    let parts = split sep s in if code c == sep then "" ∷ parts else cons_first c parts

-- strings.SplitN(s, sep, 2): one part, or two at the first separator.
unfoldable pub split_two : ℕ → String → List String
unfolding nat_eq
split_two sep String.[] = "" ∷ []
split_two sep (String.◌∷◌ c s) =
    let parts = split_two sep s in if code c == sep then "" ∷ s ∷ [] else cons_first c parts

abbrev pub has_prefix : String → String → Bool
has_prefix = starts_with

-- `s[n:]`
abbrev pub drop_bytes : ℕ → String → String
drop_bytes n s = slice s n (len s)
