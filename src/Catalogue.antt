-- ===== src/Catalogue.antt =====
-- The catalogue of internal/engine/catalogue.go: NewCatalogue and the queries of a Catalogue. What
-- the code reads from outside is an Environment. Values are not shared here, and so a clone
-- (cloneTask, cloneStrings, cloneQuestionBindings, cloneTaskFamilies) is the value itself.
pub mod Queries
pub mod Preserved
pub mod Building
pub mod Laws
pub mod Readiness
pub mod Workspace
use fluent_task_runtime.Base.{
  ℕ, zero, suc, ◌+◌, ◌-◌, ◌*◌, ◌/◌, ◌%◌, ◌≤◌, ◌<◌, Char, code, String, ◌<>◌, ◌≡◌, refl, sym, ap,
  ap₂, ◌∙◌, subst, ◌≢◌, ◌↔◌, ◌⊎◌, inl, inr, Bool, true, false, not, ◌&&◌, ◌||◌, Option, none, some,
  List, [], ◌∷◌, ◌++◌, map, arith, if◌then◌else◌, ltb, leb, Eq, ◌==◌, ==_iff, string_eq, nat_eq,
  Bool-cases, and-eq-true, ne_of_test, Result, ok, err, ◌>>=◌, ◌>>◌, guard, refuse, expect,
  is_found, wrap, >>=-eq-ok, guard-eq-ok, refuse-eq-ok, wrap-eq-ok, expect-eq-ok, Option-cases,
  Result-cases, length, is_empty, all, length-append, All, All-append, All-mem, All-map, All-zip,
  Distinct, contains, contains-mem, mem_of_contains, Memᴰ, Perm, perm_of_Distinct, Distinct-of_map,
  contains-eq-false_iff, Fresh, Fresh-nil, Fresh-cons, Fresh-snoc,
}
use fluent_task_runtime.Numbers.{ℤ, int_eq, le_int}
use fluent_task_runtime.Documents.{Document}
use fluent_task_runtime.Contracts.{
  Task, Tasks, Profile, Profiles, TaskFamilies, TaskFamily, TaskSummary, TaskSummaryResponse,
}
use fluent_task_runtime.Release.{
  TaskReleaseManifest, ReleaseError, contract_v2, load_release_manifest,
}
use fluent_task_runtime.Loading.{TaskDescriptor, LoadError, load_tasks}
use fluent_task_runtime.Families.{
  TaskFamilyManifest, FamilyError, Presence, load_task_family_manifest,
}
use fluent_task_runtime.Families.Binding.{BindError, no_families, bind_task_families}
use fluent_task_runtime.Families.Hashing.{WalkEntry, hash_task_revision}

-- The environment variables, by what they configure, the documents by their paths, the directories
-- below the tasks' root by their names, and the functions of the standard library.
pub record Environment : Type 0 where
  pub tasks_root : String
  pub release_path : String
  pub workspace_key : String
  pub family_path : String
  pub family_stat : Presence
  pub family_document : String → Document TaskFamilyManifest
  pub release_document : String → Document TaskReleaseManifest
  pub directories : String → Option (List String)
  pub descriptor : String → String → Document TaskDescriptor
  pub walk : String → String → Option (List WalkEntry)
  pub read : String → String → String → Option (List ℕ)
  pub unicode_lower : Char → Char
  pub sha256 : List ℕ → List ℕ
  pub bytes_of : String → List ℕ

pub record Catalogue : Type 0 where
  pub profiles : Profiles
  pub tasks : Tasks
  pub families : TaskFamilies
  pub tasks_root : String
  pub release_manifest : Option TaskReleaseManifest

pub data CatalogueError : Type 0 where
  family_failed : FamilyError → CatalogueError
  release_failed : ReleaseError → CatalogueError
  missing_family_manifest : String → CatalogueError
  foreign_family_release : String → String → String → CatalogueError
  tasks_failed : LoadError → CatalogueError
  binding_failed : BindError → CatalogueError

abbrev pub default_tasks_root : String → String
default_tasks_root configured = if configured == "" then "tasks" else configured

-- A v2 release and the families that it pins.
unfoldable pub check_family_release :
    Option TaskReleaseManifest → Option TaskFamilyManifest → Result CatalogueError (Unit {0})
check_family_release none families = ok tt
check_family_release (some r) none =
    refuse (r.contract_version == contract_v2) (missing_family_manifest r.release_id)
check_family_release (some r) (some m) =
    refuse (r.contract_version == contract_v2 && not (r.task_family_release_id == m.release_id))
      (foreign_family_release r.release_id r.task_family_release_id m.release_id)

abbrev declared_profile : String → String → String → String → Profile
declared_profile id display_name toolchain image = record {
  id = id;
  display_name = display_name;
  toolchain = toolchain;
  image = image;
  status = "declared";
  network = "none";
  hidden_tests = true;
  supported_tasks = [];
}

abbrev pub declared_profiles : List Profile
declared_profiles =
    declared_profile "node" "Node.js" "Node.js 24"
      "fluent-runtime-task-node@sha256:182e8833b5599a4638173c51bea8f1b47d538f8f4377d726571a064563b01f96"
    ∷ declared_profile "dotnet" ".NET" ".NET 10"
        "fluent-runtime-task-dotnet@sha256:5dcbeff68bd6284154bb1b45447c4a96a14b9cbffce27941754ea7e6a76c5f59"
    ∷ declared_profile "postgres" "PostgreSQL" "PostgreSQL 17"
        "fluent-runtime-task-postgres@sha256:feb73b643812a920a2e2002c9952cee0a2abdd230a1f5d00c5a1e8393db02e93"
    ∷ declared_profile "go" "Go" "Go 1.24"
        "fluent-runtime-task-go@sha256:d10438acd00cde29fba2bf61f632605127efc6e0d685a066d2ac6aa6ab24c971"
    ∷ declared_profile "java" "Java" "JDK 21"
        "fluent-runtime-task-java@sha256:3d8d94969a5b21cea9e2cf644c205a1f9d1bbe03dc644f4e006b7656dc94a576"
    ∷ []

-- The loop that fills SupportedTasks.
unfoldable pub supported_tasks : String → List Task → List String
supported_tasks profile [] = []
supported_tasks profile (t ∷ tasks) =
    let rest = supported_tasks profile tasks in if t.profile == profile then t.id ∷ rest else rest

-- Whether the loop that looks for a released task sets the status.
unfoldable pub has_released : String → List Task → Bool
has_released profile [] = false
has_released profile (t ∷ tasks) =
    (t.profile == profile && t.status == "released") || has_released profile tasks

abbrev pub join_profile : List Task → Profile → Profile
join_profile tasks p = record p {
  supported_tasks = p.supported_tasks ++ supported_tasks p.id tasks;
  status = if has_released p.id tasks then "ready" else p.status;
}

unfoldable pub new_catalogue : Environment → Result CatalogueError Catalogue
new_catalogue env = do
  let root = default_tasks_root env.tasks_root
  family_manifest ← wrap family_failed (
      load_task_family_manifest env.unicode_lower env.family_path env.family_stat
        env.family_document)
  release ←
      wrap release_failed
        (load_release_manifest env.release_path env.workspace_key env.release_document)
  check_family_release release family_manifest
  loaded ← wrap tasks_failed (load_tasks (env.directories root) (env.descriptor root) release)
  (tasks, families) ← wrap binding_failed (
      bind_task_families
        (λ id. hash_task_revision env.sha256 env.bytes_of (env.walk root id) (env.read root id))
        loaded family_manifest)
  ok (record {
    profiles = record {
      contract_version = "fluent-task-runtime.profiles.v1";
      profiles = map (join_profile tasks) declared_profiles;
    };
    tasks = record { contract_version = "fluent-task-runtime.tasks.v1"; tasks = tasks };
    families = families;
    tasks_root = root;
    release_manifest = release;
  })

-- Task
unfoldable pub find_task : List Task → String → ℤ → Option Task
find_task [] id revision = none
find_task (t ∷ tasks) id revision =
    if t.id == id && t.revision == revision then some t else find_task tasks id revision

abbrev pub task : Catalogue → String → ℤ → Option Task
task c id revision = find_task c.tasks.tasks id revision

-- `found && task.Revision <= latest.Revision`
abbrev is_stale : Option Task → Task → Bool
is_stale none t = false
is_stale (some latest) t = le_int t.revision latest.revision

-- The loop of LatestTask, with the latest so far.
unfoldable pub latest_from : String → Option Task → List Task → Option Task
latest_from id latest [] = latest
latest_from id latest (t ∷ tasks) =
    if not (t.id == id) || is_stale latest t
    then latest_from id latest tasks
    else latest_from id (some t) tasks

abbrev pub latest_task : Catalogue → String → Option Task
latest_task c id = latest_from id none c.tasks.tasks

abbrev pub release_bound : Catalogue → Bool
release_bound c = is_found c.release_manifest

unfoldable pub binding_state : Task → String
binding_state t =
    if not (is_empty t.question_bindings)
    then "full"
    else if not (is_empty t.capability_keys)
    then "capability-only"
    else "unbound"

abbrev pub summary_of : Task → TaskSummary
summary_of t = record {
  task_id = t.id;
  revision = t.revision;
  status = t.status;
  runnable = t.runnable;
  availability = t.availability;
  task_family_key = t.task_family_key;
  profile = t.profile;
  runtime = t.runtime;
  question_release_id = t.question_release_id;
  question_bindings = t.question_bindings;
  capability_keys = t.capability_keys;
  binding_state = binding_state t;
}

abbrev release_manifest_field : Option TaskReleaseManifest → (TaskReleaseManifest → String) → String
release_manifest_field none field = ""
release_manifest_field (some m) field = field m

abbrev pub release_summary : Catalogue → TaskSummaryResponse
release_summary c = record {
  contract_version = "fluent-task-runtime.task-summary.v1";
  binding_state = if release_bound c then "manifest-loaded" else "manifest-not-configured";
  runnable = release_bound c;
  runtime_release_id = release_manifest_field c.release_manifest (λ m. m.release_id);
  question_release_id = release_manifest_field c.release_manifest (λ m. m.question_release_id);
  question_source_snapshot_id =
      release_manifest_field c.release_manifest (λ m. m.question_source_snapshot_id);
  capability_binding_release_id =
      release_manifest_field c.release_manifest (λ m. m.capability_binding_release_id);
  capability_registry_release_id =
      release_manifest_field c.release_manifest (λ m. m.capability_registry_release_id);
  task_family_release_id =
      release_manifest_field c.release_manifest (λ m. m.task_family_release_id);
  tasks = map summary_of c.tasks.tasks;
}

unfoldable pub find_family : List TaskFamily → String → Option TaskFamily
find_family [] key = none
find_family (f ∷ families) key = if f.key == key then some f else find_family families key

abbrev pub task_family : Catalogue → String → Option TaskFamily
task_family c key = find_family c.families.families key
