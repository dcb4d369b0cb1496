-- ===== src/Execution/Sanitize/Mentions.antt =====
-- That sanitizeError of internal/engine/docker_executor.go leaves no directory that is mounted into the
-- container named in a text.
use fluent_task_runtime.Base.{
  ℕ, ◌+◌, Char, code, String, ◌≡◌, refl, sym, ap, ◌∙◌, inl, inr, Bool, true, false, ◌&&◌, ◌||◌,
  List, [], ◌∷◌, arith, ◌==◌, string_eq, nat_eq, Bool-cases, is_found,
}
use fluent_task_runtime.Text.{between, folds_to}
use fluent_task_runtime.Execution.Sanitize.{
  Mount, hidden_tests, solution, output, word, begins, mount_behind_slash, mount_at, sanitize_error,
}
use fluent_task_runtime.Execution.Sanitize.Laws.{has_mount, sanitize_error-clean}

-- The same letter in either case, where the first is in lower case.
unfoldable pub is_letter : Char → Char → Bool
is_letter d c = code c == code d || (between b'a' b'z' (code d) && code c + 32 == code d)

-- Whether the text begins with the part, in either case.
unfoldable pub reads : String → String → Bool
reads String.[] s = true
reads (String.◌∷◌ d part) String.[] = false
reads (String.◌∷◌ d part) (String.◌∷◌ c s) = is_letter d c && reads part s

-- Whether the part, which is not empty, stands in the text, in either case.
unfoldable pub mentions : String → String → Bool
mentions part String.[] = false
mentions part (String.◌∷◌ c s) = reads part (String.◌∷◌ c s) || mentions part s

-- No directory that is mounted into the container is named.
abbrev pub IsClean : String → Type 0
IsClean s =
    (mentions "/hidden-tests" s ≡ false)
    × (mentions "/solution" s ≡ false)
    × (mentions "/output" s ≡ false)

unfoldable codes : String → List ℕ
codes String.[] = []
codes (String.◌∷◌ c s) = code c ∷ codes s

reads-begins : (part s : String) → reads part s ≡ true → begins (codes part) s ≡ true
unfolding reads begins codes is_letter folds_to
reads-begins String.[] s h = refl
reads-begins (String.◌∷◌ d part) String.[] h = h
reads-begins (String.◌∷◌ d part) (String.◌∷◌ c s) h =
    let later = reads-begins part s (ground (arith, h)) in ground (arith, h, later)

begins-mount_behind_slash :
    (m : Mount) (s : String) → begins (word m) s ≡ true → is_found (mount_behind_slash s) ≡ true
unfolding mount_behind_slash
begins-mount_behind_slash hidden_tests s h = ground (arith, h)
begins-mount_behind_slash solution s h = ground (arith, h)
begins-mount_behind_slash output s h = ground (arith, h)

abbrev directory_of : Mount → String
directory_of hidden_tests = "hidden-tests"
directory_of solution = "solution"
directory_of output = "output"

codes-directory_of : (m : Mount) → codes (directory_of m) ≡ word m
unfolding codes word
codes-directory_of hidden_tests = refl
codes-directory_of solution = refl
codes-directory_of output = refl

is_slash : (slash c : Char) → code slash ≡ b'/' → is_letter slash c ≡ true → (code c == b'/') ≡ true
unfolding is_letter between
is_slash slash c e h = ground (arith, e, h)

reads-mount_at :
    (m : Mount) (slash c : Char) (s : String)
    → code slash ≡ b'/'
    → reads (String.◌∷◌ slash (directory_of m)) (String.◌∷◌ c s) ≡ true
    → is_found (mount_at c s) ≡ true
unfolding reads mount_at
reads-mount_at m slash c s e h =
    let here = is_slash slash c e (ground (arith, h)) in
    let rest = reads-begins (directory_of m) s (ground (arith, h)) in
    let begun : begins (word m) s ≡ true =
      ap (λ w. begins w s) (sym (codes-directory_of m)) ∙ rest in
    rw here (begins-mount_behind_slash m s begun)

mentions-has_mount :
    (m : Mount) (slash : Char) (s : String)
    → code slash ≡ b'/'
    → has_mount s ≡ false
    → mentions (String.◌∷◌ slash (directory_of m)) s ≡ false
unfolding mentions has_mount
mentions-has_mount m slash String.[] e h = refl
mentions-has_mount m slash (String.◌∷◌ c s) e h =
    let later = mentions-has_mount m slash s e (ground (arith, h)) in
    elim (Bool-cases (reads (String.◌∷◌ slash (directory_of m)) (String.◌∷◌ c s))) [
      | inl found ↦
          let there = reads-mount_at m slash c s e found in absurd (ground (arith, h, there))
      | inr other ↦ ground (arith, other, later)
    ]

-- Whatever a text says, none of "/hidden-tests", "/solution" and "/output", in either case of each
-- letter, stands in it when it has been sanitized.
pub sanitize_error-IsClean : (value : String) → IsClean (sanitize_error value)
sanitize_error-IsClean value =
    let clean = sanitize_error-clean value in
    (
      mentions-has_mount hidden_tests _ (sanitize_error value) refl clean,
      mentions-has_mount solution _ (sanitize_error value) refl clean,
      mentions-has_mount output _ (sanitize_error value) refl clean,
    )
