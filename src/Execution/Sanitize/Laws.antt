-- ===== src/Execution/Sanitize/Laws.antt =====
-- What sanitizeError and safeToken of internal/engine/docker_executor.go leave in a text.
use mathlib.Core.Bool.{false≢true}
use fluent_task_runtime.Base.{
  ℕ, zero, suc, Char, code, String, ◌≡◌, refl, sym, ap, ◌∙◌, inl, inr, Bool, true, false, not, ◌&&◌,
  ◌||◌, none, some, List, [], ◌∷◌, arith, if◌then◌else◌, ◌==◌, string_eq, nat_eq, Bool-cases,
  is_found, Option-cases, All,
}
use fluent_task_runtime.Text.{folds_to, is_space, is_nil, trim_left, trim_right, trim_space}
use fluent_task_runtime.Execution.Sanitize.{
  Mount, hidden_tests, solution, output, word, begins, mount_behind_slash, mount_at, matched_count,
  case_of, label, prepend, redact, remove, sanitize_error, is_token_char, replace_token, safe_token,
}

-- Whether some path below a mount stands in the text.
unfoldable pub has_mount : String → Bool
has_mount String.[] = false
has_mount (String.◌∷◌ c s) = is_found (mount_at c s) || has_mount s

abbrev AreLetters : List ℕ → Type 0
AreLetters ls = All (λ l. folds_to l b'<' ≡ false) ls

word-AreLetters : (m : Mount) → AreLetters (word m)
unfolding word folds_to
word-AreLetters hidden_tests = (
  refl,
  (refl, (refl, (refl, (refl, (refl, (refl, (refl, (refl, (refl, (refl, (refl, tt))))))))))),
)
word-AreLetters solution = (refl, (refl, (refl, (refl, (refl, (refl, (refl, (refl, tt))))))))
word-AreLetters output = (refl, (refl, (refl, (refl, (refl, (refl, tt))))))

-- A label begins with "<", which no word has.
begins-label :
    (m : Mount) (l : ℕ) (ls : List ℕ) (t : String)
    → folds_to l b'<' ≡ false
    → begins (l ∷ ls) (prepend (label m) t) ≡ false
unfolding begins prepend
begins-label hidden_tests l ls t h = rw h refl
begins-label solution l ls t h = rw h refl
begins-label output l ls t h = rw h refl

redact-none :
    (c : Char) (s : String)
    → mount_at c s ≡ none
    → redact (String.◌∷◌ c s) 0 ≡ String.◌∷◌ c (redact s 0)
unfolding redact
redact-none c s h = rw (h, redact) refl

redact-skip :
    (c : Char) (s : String) (skip : ℕ) → redact (String.◌∷◌ c s) (suc skip) ≡ redact s skip
unfolding redact
redact-skip c s skip = refl

redact-some :
    (c : Char) (s : String) (m : Mount)
    → mount_at c s ≡ some m
    → redact (String.◌∷◌ c s) 0 ≡ prepend (label (case_of s)) (redact s (matched_count m s))
unfolding redact
redact-some c s m h = rw (h, redact) refl

-- A word that the redacted text begins with stood in the text.
begins-redact :
    (ls : List ℕ) (s : String) → AreLetters ls → begins ls (redact s 0) ≡ true → begins ls s ≡ true
unfolding begins redact
begins-redact [] s h b = refl
begins-redact (l ∷ ls) String.[] h b = b
begins-redact (l ∷ ls) (String.◌∷◌ c s) (letter, h) b = elim (Option-cases (mount_at c s)) [
  | inl none_here ↦
      let kept : begins (l ∷ ls) (String.◌∷◌ c (redact s 0)) ≡ true =
        rw (redact-none c s none_here) at b in
      let later : begins ls (redact s 0) ≡ true = ground arith in
      let same = begins-redact ls s h later in ground (arith, kept, same)
  | inr (m, here) ↦
      let replaced : begins (l ∷ ls) (prepend (label (case_of s)) (redact s (matched_count m s)))
          ≡ true =
        rw (redact-some c s m here) at b in
      absurd (
        false≢true
          (sym (begins-label (case_of s) l ls (redact s (matched_count m s)) letter) ∙ replaced))
]

-- More of it: no mount appears behind a slash that had none.
mount_behind_slash-none :
    (s t : String)
    → ((m : Mount) → begins (word m) t ≡ true → begins (word m) s ≡ true)
    → mount_behind_slash s ≡ none
    → mount_behind_slash t ≡ none
unfolding mount_behind_slash
mount_behind_slash-none s t h e = ground (arith, e, h hidden_tests, h solution, h output)

mount_at-none :
    (c : Char) (s t : String)
    → ((m : Mount) → begins (word m) t ≡ true → begins (word m) s ≡ true)
    → mount_at c s ≡ none
    → mount_at c t ≡ none
unfolding mount_at
mount_at-none c s t h e = elim (Bool-cases (code c == b'/')) [
  | inl slash ↦ rw slash (mount_behind_slash-none s t h (rw slash at e))
  | inr other ↦ rw other refl
]

has_mount-cons :
    (c : Char) (s : String)
    → mount_at c s ≡ none
    → has_mount s ≡ false
    → has_mount (String.◌∷◌ c s) ≡ false
unfolding has_mount
has_mount-cons c s here later = rw (here, later) refl

abbrev lacks_slash : String → Bool
lacks_slash String.[] = true
lacks_slash (String.◌∷◌ c s) = not (code c == b'/') && lacks_slash s

no_slash : (c : Char) (t : String) → (code c == b'/') ≡ false → mount_at c t ≡ none
unfolding mount_at
no_slash c t h = rw h refl

none_of_not_found : (c : Char) (s : String) → is_found (mount_at c s) ≡ false → mount_at c s ≡ none
none_of_not_found c s h = elim (Option-cases (mount_at c s)) [
  | inl e ↦ e
  | inr (m, e) ↦ absurd (false≢true (sym (rw e at h)))
]

-- Characters other than slashes begin no mount.
has_mount-prepend :
    (l t : String) → lacks_slash l ≡ true → has_mount t ≡ false → has_mount (prepend l t) ≡ false
unfolding prepend
has_mount-prepend String.[] t clear h = h
has_mount-prepend (String.◌∷◌ c l) t clear h =
    has_mount-cons c (prepend l t) (no_slash c (prepend l t) (ground arith))
      (has_mount-prepend l t (ground arith) h)

label-clear : (m : Mount) → lacks_slash (label m) ≡ true
unfolding nat_eq
label-clear hidden_tests = refl
label-clear solution = refl
label-clear output = refl

has_mount-redact : (s : String) (skip : ℕ) → has_mount (redact s skip) ≡ false
has_mount-redact String.[] skip = unfold has_mount redact in refl
has_mount-redact (String.◌∷◌ c s) (suc skip) =
    ap has_mount (redact-skip c s skip) ∙ has_mount-redact s skip
has_mount-redact (String.◌∷◌ c s) zero = elim (Option-cases (mount_at c s)) [
  | inl none_here ↦ rw (redact-none c s none_here) (
      has_mount-cons c (redact s 0)
        (mount_at-none c s (redact s 0) (λ m b. begins-redact (word m) s (word-AreLetters m) b)
          none_here)
        (has_mount-redact s 0))
  | inr (m, here) ↦ rw (redact-some c s m here) (
      has_mount-prepend (label (case_of s)) (redact s (matched_count m s)) (label-clear (case_of s))
        (has_mount-redact s (matched_count m s)))
]

has_mount-trim_left : (s : String) → has_mount s ≡ false → has_mount (trim_left s) ≡ false
unfolding trim_left
has_mount-trim_left String.[] h = h
has_mount-trim_left (String.◌∷◌ c s) h =
    let tail : has_mount s ≡ false = unfold has_mount in ground arith in
    elim (Bool-cases (is_space (code c))) [
      | inl space ↦ rw space (has_mount-trim_left s tail)
      | inr other ↦ rw other h
    ]

begins-trim_right :
    (ls : List ℕ) (s : String) → begins ls (trim_right s) ≡ true → begins ls s ≡ true
unfolding begins trim_right
begins-trim_right [] s b = refl
begins-trim_right (l ∷ ls) String.[] b = b
begins-trim_right (l ∷ ls) (String.◌∷◌ c s) b =
    elim (Bool-cases (is_nil (trim_right s) && is_space (code c))) [
      | inl gone ↦ absurd (false≢true (rw gone at b))
      | inr kept ↦
          let whole : (folds_to l (code c) && begins ls (trim_right s)) ≡ true = rw kept at b in
          let same = begins-trim_right ls s (ground arith) in ground (arith, whole, same)
    ]

has_mount-trim_right : (s : String) → has_mount s ≡ false → has_mount (trim_right s) ≡ false
unfolding trim_right
has_mount-trim_right String.[] h = h
has_mount-trim_right (String.◌∷◌ c s) h =
    let tail : has_mount s ≡ false = unfold has_mount in ground arith in
    let here : mount_at c s ≡ none = none_of_not_found c s (unfold has_mount in ground arith) in
    elim (Bool-cases (is_nil (trim_right s) && is_space (code c))) [
      | inl gone ↦ rw gone (unfold has_mount in refl)
      | inr kept ↦ rw kept (
          has_mount-cons c (trim_right s)
            (mount_at-none c s (trim_right s) (λ m b. begins-trim_right (word m) s b) here)
            (has_mount-trim_right s tail))
    ]

pub sanitize_error-clean : (value : String) → has_mount (sanitize_error value) ≡ false
unfolding sanitize_error trim_space
sanitize_error-clean value =
    let s = remove b'\r' (remove 0x1b value) in
    has_mount-trim_right (trim_left (redact s 0))
      (has_mount-trim_left (redact s 0) (has_mount-redact s 0))

-- Every character may stand in a container's name.
unfoldable pub is_token : String → Bool
is_token String.[] = true
is_token (String.◌∷◌ c s) = is_token_char (code c) && is_token s

dash :
    (within : Bool) (t : String)
    → is_token t ≡ true
    → is_token (if within then t else prepend "-" t) ≡ true
unfolding is_token prepend is_token_char
dash true t h = h
dash false t h = ground (arith, h)

replace_token-is_token : (within : Bool) (s : String) → is_token (replace_token within s) ≡ true
unfolding replace_token is_token prepend
replace_token-is_token within String.[] = refl
replace_token-is_token within (String.◌∷◌ c s) =
    let kept = replace_token-is_token false s in
    let dropped = replace_token-is_token true s in
    elim (Bool-cases (is_token_char (code c))) [
      | inl good ↦ rw good (rw (good, kept) refl)
      | inr bad ↦ rw bad (dash within (replace_token true s) dropped)
    ]

-- Whatever a text holds, its token has letters, digits, "_", "." and "-" only.
pub safe_token-is_token : (value : String) → is_token (safe_token value) ≡ true
unfolding safe_token
safe_token-is_token value = replace_token-is_token false value
