-- ===== src/Execution/Sanitize.antt =====
-- sanitizeError of internal/engine/docker_executor.go, and safeToken. A match of the pattern
-- `(?i)/(?:hidden-tests|solution|output)(?:/[a-z0-9_.-]+)*` is the directory that it begins with and
-- the number of characters behind its first; the scan drops as many.
pub mod Laws
pub mod Mentions
use fluent_task_runtime.Base.{
  ℕ, zero, suc, ◌+◌, ◌-◌, ◌*◌, ◌/◌, ◌%◌, ◌≤◌, ◌<◌, Char, code, String, ◌<>◌, ◌≡◌, refl, sym, ap,
  ap₂, ◌∙◌, subst, ◌≢◌, ◌↔◌, ◌⊎◌, inl, inr, Bool, true, false, not, ◌&&◌, ◌||◌, Option, none, some,
  List, [], ◌∷◌, ◌++◌, map, arith, if◌then◌else◌, ltb, leb, Eq, ◌==◌, ==_iff, string_eq, nat_eq,
  Bool-cases, and-eq-true, ne_of_test, Result, ok, ok_unique, err, ◌>>=◌, ◌>>◌, guard, refuse,
  expect, is_found, wrap, >>=-eq-ok, guard-eq-ok, refuse-eq-ok, wrap-eq-ok, expect-eq-ok,
  Option-cases, Result-cases, length, is_empty, all, length-append, All, All-append, All-mem,
  All-map, All-zip, Distinct, contains, contains-mem, mem_of_contains, Memᴰ, Perm, perm_of_Distinct,
  Distinct-of_map, contains-eq-false_iff, Fresh, Fresh-nil, Fresh-cons, Fresh-snoc,
}
use fluent_task_runtime.Text.{between, folds_to, trim_space}

pub data Mount : Type 0 where
  hidden_tests solution output : Mount

-- The pattern's words, in lower case.
unfoldable pub word : Mount → List ℕ
word hidden_tests =
    b'h' ∷ b'i' ∷ b'd' ∷ b'd' ∷ b'e' ∷ b'n' ∷ b'-' ∷ b't' ∷ b'e' ∷ b's' ∷ b't' ∷ b's' ∷ []
word solution = b's' ∷ b'o' ∷ b'l' ∷ b'u' ∷ b't' ∷ b'i' ∷ b'o' ∷ b'n' ∷ []
word output = b'o' ∷ b'u' ∷ b't' ∷ b'p' ∷ b'u' ∷ b't' ∷ []

-- Whether the text begins with the word, in any case.
unfoldable pub begins : List ℕ → String → Bool
begins [] s = true
begins (l ∷ ls) String.[] = false
begins (l ∷ ls) (String.◌∷◌ c s) = folds_to l (code c) && begins ls s

-- The mount whose path a text that follows a slash begins with.
unfoldable pub mount_behind_slash : String → Option Mount
mount_behind_slash s =
    if begins (word hidden_tests) s
    then some hidden_tests
    else if begins (word solution) s
    then some solution
    else if begins (word output) s
    then some output
    else none

unfoldable pub mount_at : Char → String → Option Mount
mount_at c s = if code c == b'/' then mount_behind_slash s else none

-- `[a-z0-9_.-]` in any case: with U+017F and U+212A, which fold to "s" and "k".
unfoldable pub is_path_char : ℕ → Bool
is_path_char n =
    between b'a' b'z' n
    || between b'A' b'Z' n
    || between b'0' b'9' n
    || n == b'_'
    || n == b'.'
    || n == b'-'
    || n == 0x17f
    || n == 0x212a

unfoldable pub begins_segment : String → Bool
begins_segment String.[] = false
begins_segment (String.◌∷◌ c s) = is_path_char (code c)

-- The characters that continue a segment, and the segments behind it.
unfoldable pub segment_count : String → ℕ
segment_count String.[] = 0
segment_count (String.◌∷◌ c s) =
    let more = segment_count s in
    if is_path_char (code c) || (code c == b'/' && begins_segment s) then suc more else 0

-- `(?:/[a-z0-9_.-]+)*` behind the word.
unfoldable pub segments_count : String → ℕ
segments_count String.[] = 0
segments_count (String.◌∷◌ c s) =
    if code c == b'/' && begins_segment s then suc (segment_count s) else 0

unfoldable pub drop_chars : ℕ → String → String
drop_chars zero s = s
drop_chars (suc n) String.[] = String.[]
drop_chars (suc n) (String.◌∷◌ c s) = drop_chars n s

abbrev pub matched_count : Mount → String → ℕ
matched_count m s = length (word m) + segments_count (drop_chars (length (word m)) s)

-- `strings.HasPrefix(strings.ToLower(path), …)` of a word behind the slash; U+017F is in lower case.
unfoldable pub begins_lower : List ℕ → String → Bool
begins_lower [] s = true
begins_lower (l ∷ ls) String.[] = false
begins_lower (l ∷ ls) (String.◌∷◌ c s) =
    (code c == l || (between b'a' b'z' l && code c + 32 == l)) && begins_lower ls s

-- The case that a path falls under.
unfoldable pub case_of : String → Mount
case_of s =
    if begins_lower (word hidden_tests) s
    then hidden_tests
    else if begins_lower (word solution) s
    then solution
    else output

abbrev pub label : Mount → String
label hidden_tests = "<private>"
label solution = "<submission>"
label output = "<runtime-output>"

unfoldable pub prepend : String → String → String
prepend String.[] t = t
prepend (String.◌∷◌ c s) t = String.◌∷◌ c (prepend s t)

-- ReplaceAllStringFunc, with the number of characters that the last match still covers.
unfoldable pub redact : String → ℕ → String
redact String.[] skip = String.[]
redact (String.◌∷◌ c s) (suc skip) = redact s skip
redact (String.◌∷◌ c s) zero = elim (mount_at c s) [
  | some m ↦ prepend (label (case_of s)) (redact s (matched_count m s))
  | none ↦ String.◌∷◌ c (redact s 0)
]

-- strings.ReplaceAll of one character by nothing.
unfoldable pub remove : ℕ → String → String
remove n String.[] = String.[]
remove n (String.◌∷◌ c s) = let rest = remove n s in if code c == n then rest else String.◌∷◌ c rest

unfoldable pub sanitize_error : String → String
sanitize_error value = trim_space (redact (remove b'\r' (remove 0x1b value)) 0)

-- `[a-zA-Z0-9_.-]`
unfoldable pub is_token_char : ℕ → Bool
is_token_char n =
    between b'a' b'z' n
    || between b'A' b'Z' n
    || between b'0' b'9' n
    || n == b'_'
    || n == b'.'
    || n == b'-'

-- ReplaceAllString of `[^a-zA-Z0-9_.-]+` by "-"; the flag says that a match is under way.
unfoldable pub replace_token : Bool → String → String
replace_token within String.[] = String.[]
replace_token within (String.◌∷◌ c s) =
    let kept = replace_token false s in
    let dropped = replace_token true s in
    if is_token_char (code c)
    then String.◌∷◌ c kept
    else if within
    then dropped
    else prepend "-" dropped

unfoldable pub safe_token : String → String
safe_token value = replace_token false value
