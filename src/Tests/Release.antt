-- ===== src/Tests/Release.antt =====
-- The release manifest: one that is loaded, and refusals.
use fluent_task_runtime.Base.{◌≡◌, refl, none, some, [], ◌∷◌, string_eq, nat_eq, ok, err}
use fluent_task_runtime.Base.Dict.{lookup, insert}
use fluent_task_runtime.Text.{is_blank}
use fluent_task_runtime.Numbers.{pos, lt_int, int_eq}
use fluent_task_runtime.Regex.{match_string}
use fluent_task_runtime.Keys.{task_family_key_pattern}
use fluent_task_runtime.Documents.{decoded, malformed}
use fluent_task_runtime.Tests.Bindings.{q315, release, bindings}
use fluent_task_runtime.Release.{
  TaskReleaseEntry, TaskReleaseManifest, TaskRevisionKey, key_eq, contract_v3, undecodable_manifest,
  duplicate_task, foreign_workspace, foreign_capability, check_snapshot, pin_entry,
  pin_capabilities, check_pins, check_entry, record_entries, check_v3_pins, pin_snapshot, check_v3,
  workspace_of, validate_release_manifest, load_release_manifest,
}
use fluent_task_runtime.Release.Laws.{IsRelease, load_release_manifest-IsRelease}

unfoldable pub release_run : Unit {0}
unfolding bindings lookup insert is_blank lt_int int_eq match_string task_family_key_pattern key_eq
    check_snapshot pin_entry pin_capabilities check_pins check_entry record_entries check_v3_pins
    pin_snapshot check_v3 validate_release_manifest load_release_manifest
release_run = tt

abbrev pub raw_entry : TaskReleaseEntry
raw_entry = record {
  task_id = " node-rate-limiter-001 ";
  revision = pos 1;
  task_family_key = "task-family.rate-limiter";
  question_release_id = "";
  question_bindings = q315 ∷ [];
  capability_keys = " capability.node.event-loop" ∷ [];
}

abbrev pub raw_manifest : TaskReleaseManifest
raw_manifest = record {
  contract_version = contract_v3;
  release_id = "runtime-task-release-test";
  workspace_key = "fluent-interview";
  question_brain_contract_version = "question-brain.release.v1";
  question_release_id = release;
  question_source_snapshot_id = "snapshot";
  capability_binding_release_id = "bindings";
  capability_registry_release_id = "registry";
  capability_keys = "capability.node.event-loop " ∷ [];
  task_family_release_id = "families";
  tasks = raw_entry ∷ [];
  entries = [];
}

abbrev entry : TaskReleaseEntry
entry = record raw_entry {
  task_id = "node-rate-limiter-001";
  capability_keys = "capability.node.event-loop" ∷ [];
}

abbrev entry_key : TaskRevisionKey
entry_key = record { id = "node-rate-limiter-001"; revision = pos 1 }

abbrev manifest : TaskReleaseManifest
manifest = record raw_manifest {
  capability_keys = "capability.node.event-loop" ∷ [];
  entries = (entry_key, entry) ∷ [];
}

loaded : load_release_manifest " release.json" "" (λ _. decoded raw_manifest) ≡ ok (some manifest)
unfolding release_run
loaded = refl

refused :
    (load_release_manifest "" "" (λ _. decoded raw_manifest) ≡ ok none)
    × (load_release_manifest "r" "" (λ _. malformed) ≡ err undecodable_manifest)
    × (load_release_manifest "r" ""
          (λ _. decoded (record raw_manifest { tasks = entry ∷ raw_entry ∷ [] }))
        ≡ err (duplicate_task entry_key))
    × (load_release_manifest "r" "other" (λ _. decoded raw_manifest)
        ≡ err (foreign_workspace "fluent-interview" "other"))
    × (load_release_manifest "r" ""
          (λ _. decoded (record raw_manifest { capability_keys = "capability.other-key" ∷ [] }))
        ≡ err (foreign_capability entry_key "capability.node.event-loop"))
unfolding release_run
refused = (refl, refl, refl, refl, refl)

load_release_manifest-IsRelease_example : IsRelease (workspace_of "") manifest
load_release_manifest-IsRelease_example =
    load_release_manifest-IsRelease " release.json" "" (λ _. decoded raw_manifest) manifest loaded
