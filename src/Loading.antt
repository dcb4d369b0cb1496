-- ===== src/Loading.antt =====
-- The task descriptors and loadTasks of internal/engine/catalogue.go. The directory of a task is
-- read by its name; each `fmt.Errorf` is a constructor with the values that it prints, but for paths.
pub mod Sorting
pub mod Descriptors
pub mod Laws
use fluent_task_runtime.Base.{
  ℕ, zero, suc, ◌+◌, ◌-◌, ◌*◌, ◌/◌, ◌%◌, ◌≤◌, ◌<◌, Char, code, String, ◌<>◌, ◌≡◌, refl, sym, ap,
  ap₂, ◌∙◌, subst, ◌≢◌, ◌↔◌, ◌⊎◌, inl, inr, Bool, true, false, not, ◌&&◌, ◌||◌, Option, none, some,
  List, [], ◌∷◌, ◌++◌, map, arith, if◌then◌else◌, ltb, leb, Eq, ◌==◌, ==_iff, string_eq, nat_eq,
  Bool-cases, and-eq-true, ne_of_test, Result, ok, err, ◌>>=◌, ◌>>◌, guard, refuse, expect,
  is_found, wrap, >>=-eq-ok, guard-eq-ok, refuse-eq-ok, wrap-eq-ok, expect-eq-ok, Option-cases,
  Result-cases, length, is_empty, all, length-append, All, All-append, All-mem, All-map, All-zip,
  Distinct, contains, contains-mem, mem_of_contains, Memᴰ, Perm, perm_of_Distinct, Distinct-of_map,
  contains-eq-false_iff, Fresh, Fresh-nil, Fresh-cons, Fresh-snoc,
}
use fluent_task_runtime.Base.Dict.{Dict, lookup}
use fluent_task_runtime.Text.{codes, trim_space, equal_fold}
use fluent_task_runtime.Numbers.{ℤ, pos, lt_int, Float64, is_positive}
use fluent_task_runtime.Documents.{Document, unreadable, malformed, decoded}
use fluent_task_runtime.Contracts.{QuestionBinding, Task}
use fluent_task_runtime.Bindings.{
  BindingError, MergeError, merge_release_entry, validate_question_binding,
}
use fluent_task_runtime.Release.{TaskRevisionKey, TaskReleaseEntry, TaskReleaseManifest, key_eq}
use fluent_task_runtime.Loading.Sorting.{sort_strings}

pub record TaskDescriptor : Type 0 where
  pub task_id : String
  pub revision : ℤ
  pub status : String
  pub language : String
  pub runtime : String
  pub profile : String
  pub image : String
  pub check_command : List String
  pub editable_files : List String
  pub declared_tests : List String
  pub timeout_ms : ℤ
  pub memory_mb : ℤ
  pub cpus : Float64
  pub user : String
  pub artifacts : List String
  pub question_bindings : List QuestionBinding
  pub question_release_id : String
  pub capability_keys : List String
  -- Whether the raw document has the removed field "questionKeys".
  pub has_question_keys : Bool

pub data LoadError : Type 0 where
  unreadable_root empty_catalogue : LoadError
  unreadable_descriptor undecodable_descriptor : String → LoadError
  foreign_task_id : String → String → LoadError
  invalid_revision : String → ℤ → LoadError
  legacy_question_keys nonpositive_limits : String → LoadError
  missing_from_release : String → LoadError
  merge_failed : String → MergeError → LoadError
  invalid_binding : String → BindingError → LoadError
  missing_from_catalogue : TaskRevisionKey → LoadError

abbrev read_descriptor : String → Document TaskDescriptor → Result LoadError TaskDescriptor
read_descriptor id unreadable = err (unreadable_descriptor id)
read_descriptor id malformed = err (undecodable_descriptor id)
read_descriptor id (decoded descriptor) = ok descriptor

unfoldable pub check_descriptor : String → TaskDescriptor → Result LoadError (Unit {0})
check_descriptor id d = do
  guard (d.task_id == id) (foreign_task_id id d.task_id)
  refuse (lt_int d.revision (pos 1)) (invalid_revision id d.revision)
  refuse d.has_question_keys (legacy_question_keys id)
  guard (lt_int (pos 0) d.timeout_ms && lt_int (pos 0) d.memory_mb && is_positive d.cpus)
      (nonpositive_limits id)

-- `strings.EqualFold(strings.TrimSpace(descriptor.Status), "released")`
unfoldable pub status_of : TaskDescriptor → String
status_of d =
    if equal_fold (codes (trim_space d.status)) (codes "released") then "released" else "declared"

-- The variables that the release manifest overrides, and the key that it marks as seen.
pub record Overlay : Type 0 where
  pub question_release_id : String
  pub question_bindings : List QuestionBinding
  pub capability_keys : List String
  pub task_family_key : String
  pub availability : String
  pub seen : Option TaskRevisionKey

abbrev pub unreleased : TaskDescriptor → Overlay
unreleased d = record {
  question_release_id = d.question_release_id;
  question_bindings = d.question_bindings;
  capability_keys = d.capability_keys;
  task_family_key = "";
  availability = "unreleased";
  seen = none;
}

abbrev pub descriptor_key : String → TaskDescriptor → TaskRevisionKey
descriptor_key id d = record { id = id; revision = d.revision }

unfoldable pub overlay_entry :
    String → TaskDescriptor → TaskReleaseManifest → TaskReleaseEntry → Result LoadError Overlay
overlay_entry id d manifest entry = do
  (release_id, bindings, capabilities) ← wrap (merge_failed id) (
      merge_release_entry d.question_release_id d.question_bindings manifest.question_release_id
        entry.question_bindings entry.capability_keys)
  ok (record {
    question_release_id = release_id;
    question_bindings = bindings;
    capability_keys = capabilities;
    task_family_key = entry.task_family_key;
    availability = "runnable";
    seen = some (descriptor_key id d);
  })

-- `if releaseManifest != nil { … }`
unfoldable pub overlay :
    String → TaskDescriptor → String → Option TaskReleaseManifest → Result LoadError Overlay
overlay id d status none = ok (unreleased d)
overlay id d status (some manifest) = elim (lookup (descriptor_key id d) manifest.entries) [
  | none ↦ if status == "released" then err (missing_from_release id) else ok (unreleased d)
  | some entry ↦ overlay_entry id d manifest entry
]

abbrev pub is_bound : Option TaskReleaseManifest → Bool
is_bound none = false
is_bound (some manifest) = true

-- `validationStatus`
abbrev pub validation_status : String → Option TaskReleaseManifest → String
validation_status status none = if status == "released" then "declared" else status
validation_status status (some manifest) = status

abbrev pub task_of :
    String → TaskDescriptor → String → Bool → Overlay → List QuestionBinding → List String → Task
task_of id d status bound o bindings capabilities = record {
  id = id;
  revision = d.revision;
  language = d.language;
  profile = d.profile;
  runtime = d.runtime;
  image = d.image;
  status = status;
  runnable = bound && status == "released";
  availability = o.availability;
  task_family_key = o.task_family_key;
  immutable_hash = "";
  network = "none";
  hidden_tests = true;
  check_command = d.check_command;
  editable_files = d.editable_files;
  declared_tests = d.declared_tests;
  timeout_ms = d.timeout_ms;
  memory_mb = d.memory_mb;
  cpus = d.cpus;
  user = d.user;
  artifacts = d.artifacts;
  question_release_id = o.question_release_id;
  question_bindings = bindings;
  capability_keys = capabilities;
}

-- One round of the loop: the task, and the key that it marks as seen.
unfoldable pub load_task :
    Option TaskReleaseManifest
    → String
    → Document TaskDescriptor
    → Result LoadError (Task × Option TaskRevisionKey)
load_task release id document = do
  d ← read_descriptor id document
  check_descriptor id d
  let status = status_of d
  o ← overlay id d status release
  (bindings, capabilities) ← wrap (invalid_binding id) (
      validate_question_binding o.question_bindings o.capability_keys o.question_release_id
        (validation_status status release))
  ok (task_of id d status (is_bound release) o bindings capabilities, o.seen)

abbrev pub mark : Option TaskRevisionKey → List TaskRevisionKey → List TaskRevisionKey
mark none seen = seen
mark (some key) seen = key ∷ seen

-- `taskRevisionKey{…}` and `taskFamilyRevisionKey{…}` of a task
abbrev pub key_of_task : Task → TaskRevisionKey
key_of_task t = record { id = t.id; revision = t.revision }

-- The loop, with the directories' documents by name.
unfoldable pub load_descriptors :
    Option TaskReleaseManifest
    → (String → Document TaskDescriptor)
    → List String
    → Result LoadError (List Task × List TaskRevisionKey)
load_descriptors release document [] = ok ([], [])
load_descriptors release document (id ∷ ids) = do
  (task, seen) ← load_task release id (document id)
  (tasks, keys) ← load_descriptors release document ids
  ok (task ∷ tasks, mark seen keys)

-- Every entry of the manifest has been seen. Go ranges over the map in any order, and names some
-- entry that was not; here it is the first.
unfoldable pub check_seen :
    List TaskRevisionKey → Dict TaskRevisionKey TaskReleaseEntry → Result LoadError (Unit {0})
check_seen seen [] = ok tt
check_seen seen ((key, entry) ∷ entries) = do
  guard (contains seen key) (missing_from_catalogue key)
  check_seen seen entries

abbrev entries_of : Option TaskReleaseManifest → Dict TaskRevisionKey TaskReleaseEntry
entries_of none = []
entries_of (some manifest) = manifest.entries

-- `directories` are the names of the directories below the root, if it can be read.
unfoldable pub load_tasks :
    Option (List String)
    → (String → Document TaskDescriptor)
    → Option TaskReleaseManifest
    → Result LoadError (List Task)
load_tasks directories document release = do
  ids ← expect directories unreadable_root
  (tasks, seen) ← load_descriptors release document (sort_strings ids)
  check_seen seen (entries_of release)
  refuse (is_empty tasks) empty_catalogue
  ok tasks
