-- ===== src/Tests/Site.antt =====
-- An environment of two tasks, one of which is released in a family.
use fluent_task_runtime.Base.{
  ℕ, String, true, false, some, List, [], ◌∷◌, ◌++◌, map, if◌then◌else◌, ◌==◌, string_eq, nat_eq,
}
use fluent_task_runtime.Numbers.{pos, int_eq}
use fluent_task_runtime.Documents.{Document, unreadable, decoded}
use fluent_task_runtime.Contracts.{Task, TaskFamilyRevision}
use fluent_task_runtime.Release.{TaskReleaseManifest, TaskReleaseEntry, contract_v2, key_eq}
use fluent_task_runtime.Loading.{TaskDescriptor}
use fluent_task_runtime.Families.{
  TaskFamilyRevisionEntry, TaskFamilyEntry, TaskFamilyManifest, present,
}
use fluent_task_runtime.Families.Hashing.{file}
use fluent_task_runtime.Families.Binding.{bound_task, projected_revision}
use fluent_task_runtime.Catalogue.{Environment, Catalogue, join_profile, declared_profiles}
use fluent_task_runtime.Tests.Bindings.{q315, release}
use fluent_task_runtime.Tests.Release.{raw_manifest, raw_entry}

abbrev pub limiter : String
limiter = "node-rate-limiter-001"

abbrev pub other : String
other = "go-worker-pool-001"

abbrev pub image : String
image = "runner@sha256:0000000000000000000000000000000000000000000000000000000000000000"

abbrev pub declared : TaskDescriptor
declared = record {
  task_id = other;
  revision = pos 2;
  status = "draft";
  language = "go";
  runtime = "go1.24";
  profile = "go";
  image = image;
  check_command = "check" ∷ [];
  editable_files = "main.go" ∷ [];
  declared_tests = "allows" ∷ [];
  timeout_ms = pos 10000;
  memory_mb = pos 256;
  cpus = record { negative = false; mantissa = 1; exponent = pos 0 };
  user = "1000";
  artifacts = [];
  question_bindings = [];
  question_release_id = "";
  capability_keys = [];
  has_question_keys = false;
}

abbrev pub released : TaskDescriptor
released = record declared {
  task_id = limiter;
  revision = pos 1;
  status = " Released";
  language = "javascript";
  runtime = "node24";
  profile = "node";
}

abbrev pub document : String → Document TaskDescriptor
document id =
    if id == limiter then decoded released else if id == other then decoded declared else unreadable

abbrev pub v2 : TaskReleaseManifest
v2 = record raw_manifest { contract_version = contract_v2 }

abbrev pub entry_v2 : TaskReleaseEntry
entry_v2 = record raw_entry { task_id = limiter }

abbrev pub v2_loaded : TaskReleaseManifest
v2_loaded = record v2 { entries = (record { id = limiter; revision = pos 1 }, entry_v2) ∷ [] }

abbrev pub zeros : List ℕ
zeros = 0 ∷ 0 ∷ 0 ∷ 0 ∷ 0 ∷ 0 ∷ 0 ∷ 0 ∷ []

abbrev pub hash : String
hash = "0000000000000000000000000000000000000000000000000000000000000000"

abbrev pub revision_entry : TaskFamilyRevisionEntry
revision_entry = record {
  task_id = limiter;
  revision = pos 1;
  language = "javascript";
  profile = "node";
  availability = "runnable";
  immutable_hash = hash;
}

abbrev pub family : TaskFamilyEntry
family = record {
  key = "task-family.rate-limiter";
  title = record { en = "Rate limiter"; ru = "Ограничитель" };
  brief = record { en = "Limit the rate."; ru = "Ограничить частоту." };
  capability_keys = "capability.node.event-loop" ∷ [];
  execution_kind = "";
  rubric_ref = "rubric";
  status = "released";
  revisions = revision_entry ∷ [];
}

abbrev pub families : TaskFamilyManifest
families = record {
  contract_version = "fluent-task-runtime.task-families.v1";
  release_id = "families";
  families = family ∷ [];
}

abbrev pub draft : TaskFamilyManifest
draft = record families { families = record family { status = "draft" } ∷ [] }

abbrev pub env : Environment
env = record {
  tasks_root = "";
  release_path = "release.json";
  workspace_key = "";
  family_path = "";
  family_stat = present;
  family_document = λ _. decoded families;
  release_document = λ _. decoded v2;
  directories = λ _. some (limiter ∷ other ∷ []);
  descriptor = λ _. document;
  walk = λ _ _. some (file "brief.md" ∷ []);
  read = λ _ _ _. some (1 ∷ 2 ∷ []);
  unicode_lower = λ c. c;
  sha256 = λ _. zeros ++ zeros ++ zeros ++ zeros;
  bytes_of = λ _. 3 ∷ [];
}

abbrev pub loaded_other : Task
loaded_other = record {
  id = other;
  revision = pos 2;
  language = "go";
  profile = "go";
  runtime = "go1.24";
  image = image;
  status = "declared";
  runnable = false;
  availability = "unreleased";
  task_family_key = "";
  immutable_hash = "";
  network = "none";
  hidden_tests = true;
  check_command = "check" ∷ [];
  editable_files = "main.go" ∷ [];
  declared_tests = "allows" ∷ [];
  timeout_ms = pos 10000;
  memory_mb = pos 256;
  cpus = record { negative = false; mantissa = 1; exponent = pos 0 };
  user = "1000";
  artifacts = [];
  question_release_id = "";
  question_bindings = [];
  capability_keys = [];
}

abbrev pub loaded_limiter : Task
loaded_limiter = record loaded_other {
  id = limiter;
  revision = pos 1;
  language = "javascript";
  profile = "node";
  runtime = "node24";
  status = "released";
  runnable = true;
  availability = "runnable";
  task_family_key = "task-family.rate-limiter";
  question_release_id = release;
  question_bindings = q315 ∷ [];
  capability_keys = "capability.node.event-loop" ∷ [];
}

abbrev pub bound_limiter : Task
bound_limiter = bound_task family revision_entry loaded_limiter

abbrev pub tasks : List Task
tasks = loaded_other ∷ bound_limiter ∷ []

abbrev pub limiter_revision : TaskFamilyRevision
limiter_revision = projected_revision family bound_limiter

abbrev pub catalogue : Catalogue
catalogue = record {
  profiles = record {
    contract_version = "fluent-task-runtime.profiles.v1";
    profiles = map (join_profile tasks) declared_profiles;
  };
  tasks = record { contract_version = "fluent-task-runtime.tasks.v1"; tasks = tasks };
  families = record {
    contract_version = "fluent-task-runtime.task-families.v1";
    release_id = "families";
    families =
        record {
          key = family.key;
          title = family.title;
          brief = family.brief;
          capability_keys = family.capability_keys;
          question_bindings = q315 ∷ [];
          revision_ids = limiter ∷ [];
          rubric_ref = "rubric";
          status = "released";
          runnable = true;
          revisions = limiter_revision ∷ [];
        }
        ∷ [];
  };
  tasks_root = "tasks";
  release_manifest = some v2_loaded;
}
