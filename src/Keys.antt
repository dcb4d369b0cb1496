-- ===== src/Keys.antt =====
-- The identities that the catalogue accepts: internal/engine/catalogue.go and families.go, the
-- compiled patterns and the predicates over them.
pub mod Laws
use Prim.Native.String.{len}
use fluent_task_runtime.Base.{
  ℕ, String, code, Bool, true, false, not, ◌&&◌, ◌||◌, List, [], ◌∷◌, all, length, ◌==◌, nat_eq,
  string_eq, if◌then◌else◌, leb,
}
use fluent_task_runtime.Text.{codes, between, trim_space, split, split_two, has_prefix, drop_bytes}
use fluent_task_runtime.Regex.{
  Regex, chars, seq, alt, star, empty, one, opt, times, up_to, literal, match_string,
}

abbrev pub hex : Regex
hex = chars ((b'0', b'9') ∷ (b'a', b'f') ∷ [])

-- [a-z0-9]
abbrev pub alnum : Regex
alnum = chars ((b'a', b'z') ∷ (b'0', b'9') ∷ [])

-- [a-z0-9-]
abbrev pub slug_char : Regex
slug_char = chars ((b'a', b'z') ∷ (b'0', b'9') ∷ (b'-', b'-') ∷ [])

abbrev pub dash : Regex
dash = one b'-'

-- [a-z0-9][a-z0-9-]*
abbrev pub slug : Regex
slug = seq alnum (star slug_char)

unfoldable pub revision_id_pattern : Regex
unfolding times
revision_id_pattern = seq (times 8 hex) (
    seq dash (
      seq (times 4 hex)
        (seq dash (seq (times 4 hex) (seq dash (seq (times 4 hex) (seq dash (times 12 hex))))))))

unfoldable pub content_hash_pattern : Regex
unfolding times
content_hash_pattern = times 64 hex

-- ^[a-z0-9][a-z0-9-]{1,79}$
unfoldable pub key_part_pattern : Regex
unfolding up_to
key_part_pattern = seq alnum (seq slug_char (up_to 78 slug_char))

unfoldable pub task_family_key_pattern : Regex
unfolding literal
task_family_key_pattern = seq (literal "task-family.") slug

unfoldable pub capability_key_pattern : Regex
unfolding literal
capability_key_pattern = seq (literal "capability.") (seq slug (opt (seq (one b'.') slug)))

-- `len(parts) == 2 && parts[0] == "question" && …`
question_parts : List String → Bool
question_parts (head ∷ part ∷ []) = head == "question" && match_string key_part_pattern part
question_parts _ = false

unfoldable pub is_stable_question_key : String → Bool
unfolding question_parts split_two trim_space string_eq key_part_pattern match_string
is_stable_question_key key = question_parts (split_two b'.' (trim_space key))

-- Two or three parts, the first of them "capability" and the others key parts.
capability_parts : List String → Bool
capability_parts [] = false
capability_parts (head ∷ parts) =
    leb 1 (length parts)
    && leb (length parts) 2
    && head == "capability"
    && all (match_string key_part_pattern) parts

unfoldable pub is_stable_capability_key : String → Bool
unfolding capability_parts split trim_space string_eq key_part_pattern match_string
is_stable_capability_key key = capability_parts (split b'.' (trim_space key))

unfoldable pub is_stable_binding_key : String → Bool
is_stable_binding_key key = is_stable_question_key key || is_stable_capability_key key

unfoldable pub is_revision_id : String → Bool
unfolding revision_id_pattern match_string
is_revision_id value = match_string revision_id_pattern value

unfoldable pub is_content_hash : String → Bool
unfolding content_hash_pattern match_string
is_content_hash value = match_string content_hash_pattern value

is_hex_code : ℕ → Bool
is_hex_code n = between b'0' b'9' n || between b'a' b'f' n

unfoldable pub is_question_release_id : String → Bool
unfolding is_hex_code nat_eq
is_question_release_id release_id =
    if not (has_prefix release_id "question-release-") || not (len release_id == 33)
    then false
    else all is_hex_code (codes (drop_bytes 17 release_id))
