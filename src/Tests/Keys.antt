-- ===== src/Tests/Keys.antt =====
-- The predicates over identities.
use Prim.Native.String.{len}
use fluent_task_runtime.Base.{
  String, ◌<>◌, ◌≡◌, refl, ◌↔◌, true, false, string_eq, nat_eq, length, All,
}
use fluent_task_runtime.Text.{codes, trim_space}
use fluent_task_runtime.Regex.{match_string}
use fluent_task_runtime.Keys.{
  key_part_pattern, is_stable_question_key, is_stable_capability_key, is_revision_id,
  is_content_hash, is_question_release_id,
}
use fluent_task_runtime.Keys.Laws.{
  IsHexCode, is_content_hash_iff, is_question_release_id_iff, is_stable_question_key_iff,
}

key_tests :
    (is_stable_question_key " question.q315 " ≡ true)
    × (is_stable_question_key "question.Q" ≡ false)
    × (is_stable_capability_key "capability.distributed-systems.rate-limiter" ≡ true)
    × (is_stable_capability_key "capability" ≡ false)
    × (is_stable_capability_key "capability.a.b.c" ≡ false)
    × (is_revision_id "7df22e91-c351-4cd3-9bee-7ab321c72efd" ≡ true)
    × (is_content_hash "4d3598baa00926e1a62e48ecc8544d5597f289be04331968b891b020eebf496d" ≡ true)
    × (is_content_hash "4d3598baa00926e1a62e48ecc8544d5597f289be04331968b891b020eebf496" ≡ false)
    × (is_question_release_id "question-release-d00a1493d00a1493" ≡ true)
    × (is_question_release_id "question-release-d00a1493d00a149g" ≡ false)
unfolding is_stable_question_key is_stable_capability_key is_revision_id is_content_hash
    is_question_release_id
key_tests = (refl, refl, refl, refl, refl, refl, refl, refl, refl, refl)

is_content_hash_iff_example :
    (is_content_hash "4d3598baa0" ≡ true)
    ↔ ((length (codes "4d3598baa0") ≡ 64) × All IsHexCode (codes "4d3598baa0"))
is_content_hash_iff_example = is_content_hash_iff "4d3598baa0"

is_question_release_id_iff_example :
    (is_question_release_id "question-release-d00a1493d00a1493" ≡ true) ↔ (
      (t : String) × ("question-release-d00a1493d00a1493" ≡ "question-release-" <> t)
      × (len t ≡ 16)
      × All IsHexCode (codes t))
is_question_release_id_iff_example = is_question_release_id_iff "question-release-d00a1493d00a1493"

is_stable_question_key_iff_example : (is_stable_question_key " question.q315 " ≡ true) ↔ (
    (part : String) × (trim_space " question.q315 " ≡ "question" <> Prim.Native.String.◌∷◌ "." part)
    × (match_string key_part_pattern part ≡ true))
is_stable_question_key_iff_example = is_stable_question_key_iff " question.q315 "
