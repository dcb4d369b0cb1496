-- ===== src/Bindings.antt =====
-- Question bindings and capability keys of a task: validateQuestionBinding, validateCapabilityKeys,
-- sameQuestionBindings and mergeReleaseEntry of internal/engine/catalogue.go. Each `fmt.Errorf` is
-- a constructor with the values that it prints.
pub mod Laws
pub mod Merging
use fluent_task_runtime.Base.{
  String, Bool, true, false, not, ◌&&◌, ◌||◌, List, [], ◌∷◌, ◌++◌, Result, ok, err, ◌>>=◌, ◌>>◌,
  guard, refuse, contains, is_empty, length, all, ◌==◌, nat_eq, string_eq, if◌then◌else◌,
}
use fluent_task_runtime.Text.{trim_space}
use fluent_task_runtime.Contracts.{QuestionBinding, binding_eq}
use fluent_task_runtime.Keys.{
  is_stable_question_key, is_stable_capability_key, is_revision_id, is_content_hash,
  is_question_release_id,
}

pub data BindingError : Type 0 where
  release_not_pinned : BindingError
  invalid_stable_key : String → BindingError
  invalid_revision_id : String → BindingError
  invalid_content_hash : String → BindingError
  duplicate_stable_key : String → BindingError
  duplicate_revision_id : String → BindingError
  invalid_capability_key : String → BindingError
  duplicate_capability_key : String → BindingError
  nothing_declared : BindingError

-- `binding.StableKey = strings.TrimSpace(binding.StableKey)` and so on
unfoldable pub trim_binding : QuestionBinding → QuestionBinding
trim_binding b = record {
  stable_key = trim_space b.stable_key;
  revision_id = trim_space b.revision_id;
  content_hash = trim_space b.content_hash;
}

-- One round of validateQuestionBinding, on a trimmed binding; the sets of keys seen are lists.
unfoldable pub check_binding :
    List String → List String → QuestionBinding → Result BindingError (Unit {0})
check_binding keys ids b = do
  guard (is_stable_question_key b.stable_key) (invalid_stable_key b.stable_key)
  guard (is_revision_id b.revision_id) (invalid_revision_id b.stable_key)
  guard (is_content_hash b.content_hash) (invalid_content_hash b.stable_key)
  refuse (contains keys b.stable_key) (duplicate_stable_key b.stable_key)
  refuse (contains ids b.revision_id) (duplicate_revision_id b.revision_id)

-- The loop.
unfoldable pub check_bindings :
    List String → List String → List QuestionBinding → Result BindingError (List QuestionBinding)
check_bindings keys ids [] = ok []
check_bindings keys ids (binding ∷ bindings) = do
  let b = trim_binding binding
  check_binding keys ids b
  rest ← check_bindings (b.stable_key ∷ keys) (b.revision_id ∷ ids) bindings
  ok (b ∷ rest)

-- One round of validateCapabilityKeys, on a trimmed key.
unfoldable pub check_capability : List String → String → Result BindingError (Unit {0})
check_capability result key = do
  guard (is_stable_capability_key key) (invalid_capability_key key)
  refuse (contains result key) (duplicate_capability_key key)

-- The loop of validateCapabilityKeys.
unfoldable pub check_capabilities : List String → List String → Result BindingError (List String)
check_capabilities result [] = ok result
check_capabilities result (key ∷ keys) = do
  let k = trim_space key
  check_capability result k
  check_capabilities (result ++ k ∷ []) keys

unfoldable pub validate_capability_keys : List String → Result BindingError (List String)
validate_capability_keys keys = check_capabilities [] keys

unfoldable pub validate_question_binding :
    List QuestionBinding
    → List String
    → String
    → String
    → Result BindingError (List QuestionBinding × List String)
validate_question_binding bindings capability_keys release_id status = do
  refuse (status == "released" && not (is_question_release_id release_id)) release_not_pinned
  validated_bindings ← check_bindings [] [] bindings
  validated_capabilities ← validate_capability_keys capability_keys
  refuse (status == "released" && is_empty validated_bindings && is_empty validated_capabilities)
      nothing_declared
  ok (validated_bindings, validated_capabilities)

unfoldable pub same_question_bindings : List QuestionBinding → List QuestionBinding → Bool
unfolding nat_eq contains
same_question_bindings left right =
    if not (length left == length right) then false else all (contains right) left

-- The part of a release entry that mergeReleaseEntry reads.
pub data MergeError : Type 0 where
  bindings_disagree : MergeError
  release_disagrees : String → String → MergeError

-- The error values come before the bindings are replaced, as in the source.
unfoldable pub merge_release_entry :
    String
    → List QuestionBinding
    → String
    → List QuestionBinding
    → List String
    → Result MergeError (String × List QuestionBinding × List String)
unfolding same_question_bindings
merge_release_entry question_release_id question_bindings manifest_release_id entry_bindings
      entry_capabilities =
    do
      let descriptor_has_bindings = not (is_empty question_bindings)
      refuse
          (descriptor_has_bindings && not (same_question_bindings question_bindings entry_bindings))
          bindings_disagree
      refuse
          (descriptor_has_bindings
            && not (question_release_id == "")
            && not (question_release_id == manifest_release_id))
          (release_disagrees question_release_id manifest_release_id)
      ok (
        manifest_release_id,
        (if descriptor_has_bindings then question_bindings else entry_bindings),
        entry_capabilities,
      )
