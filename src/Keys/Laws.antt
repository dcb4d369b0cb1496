-- ===== src/Keys/Laws.antt =====
-- What the accepted identities look like.
use Prim.Native.String.{len}
use text.Mathlib.TextEquality.{starts_with_iff}
use text.Mathlib.TextPositions.{starts_with-append, slice-append_right, len-append}
use fluent_task_runtime.Base.{
  ℕ, String, ◌<>◌, ◌≡◌, refl, sym, ap, ◌↔◌, Bool, true, List, [], ◌∷◌, ◌+◌, ◌≤◌, ◌⊎◌, arith,
  All-map, length, all, All, string_eq, nat_eq,
}
use fluent_task_runtime.Text.{codes, trim_space, split_two, has_prefix, drop_bytes}
use fluent_task_runtime.Text.Splitting.{split_two_sound, split_two_complete}
use fluent_task_runtime.Regex.{match_string, in_ranges, times, chars}
use fluent_task_runtime.Regex.Laws.{match_string_iff}
use fluent_task_runtime.Regex.Shapes.{times-chars_iff}
use fluent_task_runtime.Keys.{
  is_content_hash, content_hash_pattern, is_question_release_id, is_hex_code,
  is_stable_question_key, question_parts, key_part_pattern,
}

-- One of `0`…`9` and `a`…`f`.
abbrev pub IsHexCode : ℕ → Type 0
IsHexCode n = ((b'0' ≤ n) × (n ≤ b'9')) ⊎ ((b'a' ≤ n) × (n ≤ b'f'))

abbrev hex_ranges : List (ℕ × ℕ)
hex_ranges = (b'0', b'9') ∷ (b'a', b'f') ∷ []

in_ranges-hex_iff : (n : ℕ) → (in_ranges hex_ranges n ≡ true) ↔ IsHexCode n
unfolding in_ranges
in_ranges-hex_iff n = (λ h. ground arith, λ h. ground arith)

is_hex_code_iff : (n : ℕ) → (is_hex_code n ≡ true) ↔ IsHexCode n
unfolding is_hex_code
is_hex_code_iff n = (λ h. ground arith, λ h. ground arith)

-- A content hash is a text of 64 lower-case hexadecimal digits.
pub is_content_hash_iff :
    (value : String)
    → (is_content_hash value ≡ true) ↔ ((length (codes value) ≡ 64) × All IsHexCode (codes value))
unfolding is_content_hash content_hash_pattern
is_content_hash_iff value =
    let (shape, unshape) = times-chars_iff 64 hex_ranges (codes value) in
    let (sound, complete) = match_string_iff (times 64 (chars hex_ranges)) value in
    (
      λ h.
          let (size, every) = shape (sound h) in
          (size, All-map (codes value) (λ n. (in_ranges-hex_iff n).0) every),
      λ (size, every).
          complete (unshape (size, All-map (codes value) (λ n. (in_ranges-hex_iff n).1) every)),
    )

all_iff : (p : ℕ → Bool) (u : List ℕ) → (all p u ≡ true) ↔ All (λ n. p n ≡ true) u
all_iff p [] = (λ _. tt, λ _. refl)
all_iff p (n ∷ u) = ground (arith, all_iff p u)

release_id_tail : (t : String) → drop_bytes 17 ("question-release-" <> t) ≡ t
release_id_tail t =
    let size : len ("question-release-" <> t) ≡ 17 + len t = len-append "question-release-" t in
    rw size (slice-append_right "question-release-" t)

-- A question release id is "question-release-" and 16 bytes of hexadecimal digits after it.
pub is_question_release_id_iff :
    (release_id : String)
    → (is_question_release_id release_id ≡ true) ↔ (
        (t : String) × (release_id ≡ "question-release-" <> t)
        × (len t ≡ 16)
        × All IsHexCode (codes t))
unfolding is_question_release_id
is_question_release_id_iff release_id = (to, from)
  where
    to :
        is_question_release_id release_id ≡ true
        → (t : String) × (release_id ≡ "question-release-" <> t)
          × (len t ≡ 16)
          × All IsHexCode (codes t)
    to h =
        let begins : has_prefix release_id "question-release-" ≡ true = ground arith in
        let size : len release_id ≡ 33 = ground arith in
        let digits : all is_hex_code (codes (drop_bytes 17 release_id)) ≡ true = ground arith in
        let (t, whole) = (starts_with_iff release_id "question-release-").0 begins in
        let rest : drop_bytes 17 release_id ≡ t = rw (← whole) (release_id_tail t) in
        (
          t,
          sym whole,
          omega (arith, len-append "question-release-" t, ap len whole, size),
          All-map (codes t) (λ n. (is_hex_code_iff n).0) ((all_iff _ _).0 (rw rest at digits)),
        )

    from :
        ((t : String) × (release_id ≡ "question-release-" <> t)
          × (len t ≡ 16)
          × All IsHexCode (codes t))
        → is_question_release_id release_id ≡ true
    from (t, whole, size, digits) =
        let hexes : all is_hex_code (codes t) ≡ true =
          (all_iff _ _).1 (All-map (codes t) (λ n. (is_hex_code_iff n).1) digits) in
        let total : len ("question-release-" <> t) ≡ 33 =
          omega (arith, len-append "question-release-" t) in
        rw whole (
          ground (arith, starts_with-append "question-release-" t, total, hexes, release_id_tail t))

question_parts_lem :
    (parts : List String)
    → question_parts parts ≡ true
    → (part : String) × (parts ≡ "question" ∷ part ∷ [])
      × (match_string key_part_pattern part ≡ true)
unfolding question_parts
question_parts_lem [] h = cc
question_parts_lem (head ∷ []) h = cc
question_parts_lem (head ∷ part ∷ []) h = (part, ground arith, ground arith)
question_parts_lem (head ∷ part ∷ x ∷ xs) h = cc

-- A stable question key is, trimmed, "question." with a key part behind it.
pub is_stable_question_key_iff :
    (key : String)
    → (is_stable_question_key key ≡ true) ↔ (
        (part : String) × (trim_space key ≡ "question" <> String.◌∷◌ "." part)
        × (match_string key_part_pattern part ≡ true))
unfolding is_stable_question_key
is_stable_question_key_iff key = (
  λ h.
      let (part, parts, valid) = question_parts_lem _ h in
      (part, (split_two_sound "." (trim_space key) "question" part parts).0, valid),
  λ (part, whole, valid).
      let parts : split_two b'.' (trim_space key) ≡ "question" ∷ part ∷ [] =
        rw whole (split_two_complete "." "question" part (omega arith)) in
      rw parts (unfold question_parts in ground arith),
)
