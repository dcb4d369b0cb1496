-- ===== src/Tests/Bindings.antt =====
-- Validation and merging of bindings.
use fluent_task_runtime.Base.{
  String, ◌≡◌, refl, ap, ◌≢◌, ◌↔◌, ◌⊎◌, List, [], ◌∷◌, map, string_eq, nat_eq, ne_of_test, ok, err,
  contains, Perm,
}
use fluent_task_runtime.Text.{trim_space}
use fluent_task_runtime.Contracts.{QuestionBinding, binding_eq}
use fluent_task_runtime.Keys.{
  is_stable_question_key, is_stable_capability_key, is_revision_id, is_content_hash,
  is_question_release_id,
}
use fluent_task_runtime.Bindings.{
  duplicate_stable_key, duplicate_capability_key, nothing_declared, bindings_disagree, trim_binding,
  check_binding, check_bindings, check_capability, check_capabilities, validate_capability_keys,
  validate_question_binding, same_question_bindings, merge_release_entry,
}
use fluent_task_runtime.Bindings.Laws.{IsAcceptable, validate_question_binding_iff}
use fluent_task_runtime.Bindings.Merging.{merge_release_entry_sound}

unfoldable pub bindings : Unit {0}
unfolding trim_binding trim_space check_binding check_bindings check_capability check_capabilities
    validate_capability_keys validate_question_binding same_question_bindings merge_release_entry
    contains string_eq binding_eq is_stable_question_key is_stable_capability_key is_revision_id
    is_content_hash is_question_release_id
bindings = tt

abbrev pub q315 : QuestionBinding
q315 = record {
  stable_key = "question.q315";
  revision_id = "7df22e91-c351-4cd3-9bee-7ab321c72efd";
  content_hash = "4d3598baa00926e1a62e48ecc8544d5597f289be04331968b891b020eebf496d";
}

abbrev spaced : QuestionBinding
spaced = record q315 { stable_key = " question.q315" }

abbrev pub q316 : QuestionBinding
q316 = record q315 {
  stable_key = "question.q316";
  revision_id = "8df22e91-c351-4cd3-9bee-7ab321c72efd";
}

abbrev pub release : String
release = "question-release-d00a1493d00a1493"

abbrev no_release : String
no_release = ""

abbrev capabilities : List String
capabilities = "capability.aa" ∷ []

accepted :
    validate_question_binding
      (spaced ∷ q316 ∷ [])
      (" capability.node.event-loop" ∷ [])
      release
      "released"
    ≡ ok (q315 ∷ q316 ∷ [], "capability.node.event-loop" ∷ [])
unfolding bindings
accepted = refl

refused :
    (validate_question_binding (q315 ∷ spaced ∷ []) [] release "released"
      ≡ err (duplicate_stable_key "question.q315"))
    × (validate_question_binding [] [] release "released" ≡ err nothing_declared)
    × (validate_capability_keys ("capability.aa" ∷ "capability.aa" ∷ [])
        ≡ err (duplicate_capability_key "capability.aa"))
    × (merge_release_entry "" (q315 ∷ []) release (q316 ∷ []) [] ≡ err bindings_disagree)
unfolding bindings
refused = (refl, refl, refl, refl)

validate_question_binding_iff_example :
    (validate_question_binding
        (spaced ∷ q316 ∷ [])
        (" capability.node.event-loop" ∷ [])
        release
        "released"
      ≡ ok (q315 ∷ q316 ∷ [], "capability.node.event-loop" ∷ []))
    ↔ ((q315 ∷ q316 ∷ [] ≡ map trim_binding (spaced ∷ q316 ∷ []))
        × ("capability.node.event-loop" ∷ [] ≡ map trim_space (" capability.node.event-loop" ∷ []))
        × IsAcceptable (q315 ∷ q316 ∷ []) ("capability.node.event-loop" ∷ []) release "released")
validate_question_binding_iff_example =
    validate_question_binding_iff (spaced ∷ q316 ∷ []) (q315 ∷ q316 ∷ [])
      (" capability.node.event-loop" ∷ []) ("capability.node.event-loop" ∷ []) release "released"

-- The stable keys differ.
q315≢q316 : q315 ≢ q316
q315≢q316 e = ne_of_test "question.q315" "question.q316" refl (ap (λ b. b.stable_key) e)

merged :
    merge_release_entry "" (q315 ∷ q316 ∷ []) release (q316 ∷ q315 ∷ []) capabilities
    ≡ ok (release, q315 ∷ q316 ∷ [], capabilities)
unfolding bindings
merged = refl

merge_release_entry_sound_example :
    (release ≡ release)
    × (capabilities ≡ capabilities)
    × Perm (q315 ∷ q316 ∷ []) (q316 ∷ q315 ∷ [])
    × ((q315 ∷ q316 ∷ [] ≡ []) ⊎ (no_release ≡ "") ⊎ (no_release ≡ release))
merge_release_entry_sound_example =
    merge_release_entry_sound no_release release release (q315 ∷ q316 ∷ []) (q316 ∷ q315 ∷ [])
      (q315 ∷ q316 ∷ []) capabilities capabilities ((q315≢q316, tt), (tt, tt)) merged
