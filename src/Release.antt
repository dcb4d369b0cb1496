-- ===== src/Release.antt =====
-- The runtime release manifest: taskReleaseManifest and loadReleaseManifest of
-- internal/engine/catalogue.go. Each `fmt.Errorf` is a constructor with the values that it prints,
-- but for the manifest's path and the two pins of a mismatch.
pub mod Entries
pub mod Laws
use fluent_task_runtime.Base.{
  ℕ, zero, suc, ◌+◌, ◌-◌, ◌*◌, ◌/◌, ◌%◌, ◌≤◌, ◌<◌, Char, code, String, ◌<>◌, ◌≡◌, refl, sym, ap,
  ap₂, ◌∙◌, subst, ◌≢◌, ◌↔◌, ◌⊎◌, inl, inr, Bool, true, false, not, ◌&&◌, ◌||◌, Option, none, some,
  List, [], ◌∷◌, ◌++◌, map, arith, if◌then◌else◌, ltb, leb, Eq, ◌==◌, ==_iff, string_eq, nat_eq,
  Bool-cases, and-eq-true, Result, ok, err, ◌>>=◌, ◌>>◌, guard, refuse, expect, is_found, wrap,
  >>=-eq-ok, guard-eq-ok, refuse-eq-ok, wrap-eq-ok, expect-eq-ok, Option-cases, Result-cases,
  length, is_empty, all, length-append, All, All-append, All-mem, All-map, All-zip, Distinct,
  contains, contains-mem, mem_of_contains, Memᴰ, Perm, perm_of_Distinct, Distinct-of_map,
  contains-eq-false_iff, Fresh, Fresh-nil, Fresh-cons, Fresh-snoc,
}
use fluent_task_runtime.Base.Dict.{Dict, insert, lookup}
use fluent_task_runtime.Text.{trim_space, is_blank}
use fluent_task_runtime.Numbers.{ℤ, pos, int_eq, lt_int, ℤ-discrete}
use fluent_task_runtime.Documents.{Document, unreadable, malformed, decoded}
use fluent_task_runtime.Regex.{match_string}
use fluent_task_runtime.Contracts.{QuestionBinding, String-discrete}
use fluent_task_runtime.Keys.{is_question_release_id, task_family_key_pattern}
use fluent_task_runtime.Bindings.{BindingError, validate_capability_keys, validate_question_binding}

pub record TaskRevisionKey : Type 0 where
  pub id : String
  pub revision : ℤ

TaskRevisionKey-discrete : Discrete TaskRevisionKey
unfolding String-discrete ℤ-discrete
TaskRevisionKey-discrete = hlevel (String-discrete, ℤ-discrete)

instance unfoldable pub key_eq : Eq TaskRevisionKey
unfolding TaskRevisionKey-discrete string_eq int_eq
key_eq = record { dec = TaskRevisionKey-discrete }

pub record TaskReleaseEntry : Type 0 where
  pub task_id : String
  pub revision : ℤ
  pub task_family_key : String
  pub question_release_id : String
  pub question_bindings : List QuestionBinding
  pub capability_keys : List String

pub record TaskReleaseManifest : Type 0 where
  pub contract_version : String
  pub release_id : String
  pub workspace_key : String
  pub question_brain_contract_version : String
  pub question_release_id : String
  pub question_source_snapshot_id : String
  pub capability_binding_release_id : String
  pub capability_registry_release_id : String
  pub capability_keys : List String
  pub task_family_release_id : String
  pub tasks : List TaskReleaseEntry
  -- Not part of the document.
  pub entries : Dict TaskRevisionKey TaskReleaseEntry

pub data ReleaseError : Type 0 where
  unreadable_manifest undecodable_manifest : ReleaseError
  unsupported_contract : String → ReleaseError
  missing_release_id invalid_question_release_id missing_task_family_release : ReleaseError
  foreign_workspace : String → String → ReleaseError
  missing_question_brain_pin missing_capability_pin : ReleaseError
  invalid_snapshot : BindingError → ReleaseError
  empty_snapshot : ReleaseError
  invalid_identity : ReleaseError
  duplicate_task : TaskRevisionKey → ReleaseError
  foreign_question_release : TaskRevisionKey → String → ReleaseError
  missing_task_family : TaskRevisionKey → ReleaseError
  invalid_entry : TaskRevisionKey → BindingError → ReleaseError
  foreign_capability : TaskRevisionKey → String → ReleaseError
  empty_entry : TaskRevisionKey → ReleaseError

abbrev pub contract_v1 : String
contract_v1 = "fluent-task-runtime.task-release.v1"

abbrev pub contract_v2 : String
contract_v2 = "fluent-task-runtime.task-release.v2"

abbrev pub contract_v3 : String
contract_v3 = "fluent-task-runtime.task-release.v3"

abbrev pub key_of : TaskReleaseEntry → TaskRevisionKey
key_of entry = record { id = entry.task_id; revision = entry.revision }

-- `for _, key := range validated { if _, ok := capabilitySnapshot[key]; !ok { … } }`
unfoldable pub check_snapshot :
    TaskRevisionKey → List String → List String → Result ReleaseError (Unit {0})
check_snapshot key snapshot [] = ok tt
check_snapshot key snapshot (capability ∷ capabilities) = do
  guard (contains snapshot capability) (foreign_capability key capability)
  check_snapshot key snapshot capabilities

-- The entry with its capability keys trimmed, which lie in the snapshot.
unfoldable pub pin_entry :
    TaskReleaseManifest → TaskReleaseEntry → Result ReleaseError TaskReleaseEntry
pin_entry manifest entry = do
  validated ← wrap (invalid_entry (key_of entry)) (validate_capability_keys entry.capability_keys)
  check_snapshot (key_of entry) manifest.capability_keys validated
  refuse (is_empty entry.question_bindings && is_empty validated) (empty_entry (key_of entry))
  ok (record entry { capability_keys = validated })

-- The part of a round that only a v3 manifest goes through.
unfoldable pub pin_capabilities :
    TaskReleaseManifest → TaskReleaseEntry → Result ReleaseError TaskReleaseEntry
pin_capabilities manifest entry =
    if manifest.contract_version == contract_v3 then pin_entry manifest entry else ok entry

-- The first checks of a round: the entry's identity and its pins.
unfoldable pub check_pins :
    TaskReleaseManifest
    → Dict TaskRevisionKey TaskReleaseEntry
    → TaskReleaseEntry
    → Result ReleaseError (Unit {0})
check_pins manifest entries entry = do
  refuse (entry.task_id == "" || lt_int entry.revision (pos 1)) invalid_identity
  refuse (is_found (lookup (key_of entry) entries)) (duplicate_task (key_of entry))
  refuse
      (not (entry.question_release_id == "")
        && not (entry.question_release_id == manifest.question_release_id))
      (foreign_question_release (key_of entry) entry.question_release_id)
  refuse
      ((manifest.contract_version == contract_v2 || manifest.contract_version == contract_v3)
        && not (match_string task_family_key_pattern (trim_space entry.task_family_key)))
      (missing_task_family (key_of entry))

-- One round of the loop over `manifest.Tasks`: the entry that is written into the map.
unfoldable pub check_entry :
    TaskReleaseManifest
    → Dict TaskRevisionKey TaskReleaseEntry
    → TaskReleaseEntry
    → Result ReleaseError TaskReleaseEntry
check_entry manifest entries raw = do
  let entry = record raw { task_id = trim_space raw.task_id }
  check_pins manifest entries entry
  pinned ← pin_capabilities manifest entry
  _ ← wrap (invalid_entry (key_of entry)) (
      validate_question_binding pinned.question_bindings pinned.capability_keys
        manifest.question_release_id "released")
  ok pinned

unfoldable pub record_entries :
    TaskReleaseManifest
    → Dict TaskRevisionKey TaskReleaseEntry
    → List TaskReleaseEntry
    → Result ReleaseError (Dict TaskRevisionKey TaskReleaseEntry)
record_entries manifest entries [] = ok entries
record_entries manifest entries (raw ∷ tasks) = do
  entry ← check_entry manifest entries raw
  record_entries manifest (insert (key_of entry) entry entries) tasks

-- `if workspaceKey == "" { workspaceKey = "fluent-interview" }`
abbrev pub workspace_of : String → String
workspace_of configured =
    if trim_space configured == "" then "fluent-interview" else trim_space configured

unfoldable pub check_v3_pins : String → TaskReleaseManifest → Result ReleaseError (Unit {0})
check_v3_pins workspace_key manifest = do
  guard (trim_space manifest.workspace_key == workspace_key)
      (foreign_workspace manifest.workspace_key workspace_key)
  refuse
      (not (manifest.question_brain_contract_version == "question-brain.release.v1")
        || is_blank manifest.question_source_snapshot_id)
      missing_question_brain_pin
  refuse
      (is_blank manifest.capability_binding_release_id
        || is_blank manifest.capability_registry_release_id)
      missing_capability_pin
  refuse (is_blank manifest.task_family_release_id) missing_task_family_release

-- The manifest with its snapshot trimmed.
unfoldable pub pin_snapshot : String → TaskReleaseManifest → Result ReleaseError TaskReleaseManifest
pin_snapshot workspace_key manifest = do
  check_v3_pins workspace_key manifest
  validated ← wrap invalid_snapshot (validate_capability_keys manifest.capability_keys)
  refuse (is_empty validated) empty_snapshot
  ok (record manifest { capability_keys = validated })

-- The checks that only a v3 manifest goes through.
unfoldable pub check_v3 : String → TaskReleaseManifest → Result ReleaseError TaskReleaseManifest
check_v3 configured manifest =
    if manifest.contract_version == contract_v3
    then pin_snapshot (workspace_of configured) manifest
    else ok manifest

abbrev is_supported : String → Bool
is_supported version = version == contract_v1 || version == contract_v2 || version == contract_v3

-- A manifest that has been decoded; `configured` is the variable RUNTIME_WORKSPACE_KEY.
unfoldable pub validate_release_manifest :
    String → TaskReleaseManifest → Result ReleaseError TaskReleaseManifest
validate_release_manifest configured manifest = do
  guard (is_supported manifest.contract_version) (unsupported_contract manifest.contract_version)
  refuse (is_blank manifest.release_id) missing_release_id
  guard (is_question_release_id manifest.question_release_id) invalid_question_release_id
  refuse (manifest.contract_version == contract_v2 && is_blank manifest.task_family_release_id)
      missing_task_family_release
  pinned ← check_v3 configured manifest
  entries ← record_entries pinned [] pinned.tasks
  ok (record pinned { entries = entries })

decode_manifest :
    String → Document TaskReleaseManifest → Result ReleaseError (Option TaskReleaseManifest)
decode_manifest configured unreadable = err unreadable_manifest
decode_manifest configured malformed = err undecodable_manifest
decode_manifest configured (decoded manifest) = do
  loaded ← validate_release_manifest configured manifest
  ok (some loaded)

-- `path` is the variable RUNTIME_RELEASE_MANIFEST; no path means no manifest.
unfoldable pub load_release_manifest :
    String
    → String
    → (String → Document TaskReleaseManifest)
    → Result ReleaseError (Option TaskReleaseManifest)
unfolding decode_manifest
load_release_manifest path configured document =
    if trim_space path == ""
    then ok none
    else decode_manifest configured (document (trim_space path))
