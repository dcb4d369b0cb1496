-- ===== src/Tests/Catalogue.antt =====
-- The catalogue of the environment in Tests/Site.antt, and the theorems at it.
use fluent_task_runtime.Base.{
  String, ◌≡◌, refl, ap, ◌≢◌, ◌↔◌, ◌⊎◌, Bool, true, false, none, some, List, [], ◌∷◌, map,
  string_eq, nat_eq, ne_of_test, Result, ok, err, All, Distinct, Memᴰ,
}
use fluent_task_runtime.Text.{to_lower, equal_fold, folds_to}
use fluent_task_runtime.Numbers.{pos, int_eq, le_int, is_positive}
use fluent_task_runtime.Keys.{capability_key_pattern}
use fluent_task_runtime.Documents.{decoded}
use fluent_task_runtime.Contracts.{Task, TaskFamilyRevision}
use fluent_task_runtime.Release.{TaskReleaseEntry, key_eq}
use fluent_task_runtime.Loading.{
  key_of_task, check_descriptor, status_of, overlay_entry, overlay, load_task, load_descriptors,
  check_seen, load_tasks,
}
use fluent_task_runtime.Loading.Sorting.{sort_strings}
use fluent_task_runtime.Loading.Laws.{
  AreLoaded, load_tasks-AreLoaded, IsPublished, load_tasks-IsPublished,
}
use fluent_task_runtime.Families.{
  present, missing, execution_kind_of, check_family_capabilities, check_discipline,
  check_revision_fields, check_family_revision, check_family_revisions, check_family_fields,
  check_family, check_families, validate_task_family_manifest, decode_families,
  load_task_family_manifest,
}
use fluent_task_runtime.Families.Laws.{AreFamilies, validate_task_family_manifest-AreFamilies}
use fluent_task_runtime.Families.Hashing.{
  collect_paths, put_uint64, frame, frames, hex_digit, encode_hex, hash_task_revision,
}
use fluent_task_runtime.Families.Binding.{
  place, check_assignment, collect_bindings, bind_revision, bind_revisions, revision_ids,
  has_runnable, bind_families, check_assigned, bind_task_families,
}
use fluent_task_runtime.Families.Binding.Laws.{AreBound, bind_task_families-AreBound}
use fluent_task_runtime.Families.Binding.Projection.{IsLastRunnable, revision_ids_complete_iff}
use fluent_task_runtime.Catalogue.{
  Catalogue, CatalogueError, missing_family_manifest, check_family_release, supported_tasks,
  has_released, new_catalogue, find_task, latest_from, latest_task,
}
use fluent_task_runtime.Catalogue.Queries.{find_task_iff, latest_from_lem, IsLatest}
use fluent_task_runtime.Catalogue.Building.{measured}
use fluent_task_runtime.Catalogue.Laws.{
  IsExecutable, new_catalogue-IsExecutable, new_catalogue-AreBound, new_catalogue-pinned,
}
use fluent_task_runtime.Catalogue.Readiness.{IsReadyIff, IsSupporting, new_catalogue-profiles}
use fluent_task_runtime.Tests.Release.{release_run, raw_manifest}
use fluent_task_runtime.Tests.Site.{
  draft, limiter, other, document, v2_loaded, families, env, hash, loaded_other, loaded_limiter,
  bound_limiter, tasks, limiter_revision, catalogue,
}

abbrev succeeds : Result CatalogueError Catalogue → Bool
succeeds (ok c) = true
succeeds (err e) = false

catalogue_run : Unit {0}
unfolding release_run to_lower equal_fold folds_to is_positive le_int capability_key_pattern
    check_descriptor status_of overlay_entry overlay load_task load_descriptors check_seen
    load_tasks sort_strings execution_kind_of check_family_capabilities check_discipline
    check_revision_fields check_family_revision check_family_revisions check_family_fields
    check_family check_families validate_task_family_manifest decode_families
    load_task_family_manifest collect_paths put_uint64 frame frames hex_digit encode_hex
    hash_task_revision place check_assignment collect_bindings bind_revision bind_revisions
    revision_ids has_runnable bind_families check_assigned bind_task_families check_family_release
    supported_tasks has_released new_catalogue find_task latest_from mathlib.Core.Option.bind
catalogue_run = tt

tasks_loaded :
    load_tasks (some (limiter ∷ other ∷ [])) document (some v2_loaded)
    ≡ ok (loaded_other ∷ loaded_limiter ∷ [])
unfolding catalogue_run
tasks_loaded = refl

families_valid : validate_task_family_manifest (λ c. c) families ≡ ok tt
unfolding catalogue_run
families_valid = refl

pub draft_valid : validate_task_family_manifest (λ c. c) draft ≡ ok tt
unfolding catalogue_run
draft_valid = refl

families_loaded :
    load_task_family_manifest (λ c. c) "" present (λ _. decoded families) ≡ ok (some families)
unfolding catalogue_run
families_loaded = refl

pub built : new_catalogue env ≡ ok catalogue
unfolding catalogue_run
built = refl

abbrev ids : List String
ids = limiter ∷ other ∷ []

ids-Distinct : Distinct ids
ids-Distinct = ((ne_of_test limiter other refl, tt), (tt, tt))

tasks-Distinct : Distinct (map key_of_task tasks)
tasks-Distinct = (((λ e. ne_of_test other limiter refl (ap (λ k. k.id) e)), tt), (tt, tt))

bound :
    bind_task_families (λ _. some hash) (loaded_other ∷ loaded_limiter ∷ []) (some families)
    ≡ ok (tasks, catalogue.families)
unfolding catalogue_run
bound = refl

v2_unbound :
    new_catalogue (record env { family_stat = missing })
    ≡ err (missing_family_manifest "runtime-task-release-test")
unfolding catalogue_run
v2_unbound = refl

-- A v3 release pins its families too, and is loaded with others, or with none.
v3_unchecked :
    succeeds (
      new_catalogue (record env {
        release_document = λ _. decoded (record raw_manifest { task_family_release_id = "others" });
      }))
    ≡ true
unfolding catalogue_run
v3_unchecked = refl

latest : (latest_task catalogue limiter ≡ some bound_limiter) × (latest_task catalogue "x" ≡ none)
unfolding catalogue_run
latest = (refl, refl)

abbrev twice : List TaskFamilyRevision
twice = limiter_revision ∷ record limiter_revision { revision = pos 2 } ∷ []

cut_short : revision_ids twice ≡ limiter ∷ []
unfolding catalogue_run
cut_short = refl

load_tasks-AreLoaded_example :
    (names : List String) × (some ids ≡ some names)
    × AreLoaded (some v2_loaded) names (loaded_other ∷ loaded_limiter ∷ [])
load_tasks-AreLoaded_example =
    load_tasks-AreLoaded (some ids) document (some v2_loaded) (loaded_other ∷ loaded_limiter ∷ [])
      tasks_loaded

load_tasks-IsPublished_example : (e : TaskReleaseEntry) × IsPublished v2_loaded loaded_limiter e
load_tasks-IsPublished_example =
    load_tasks-IsPublished (some ids) document v2_loaded (loaded_other ∷ loaded_limiter ∷ [])
      loaded_limiter tasks_loaded (Memᴰ.tail (Memᴰ.head refl)) refl

validate_task_family_manifest-AreFamilies_example : AreFamilies (λ c. c) families
validate_task_family_manifest-AreFamilies_example =
    validate_task_family_manifest-AreFamilies (λ c. c) families families_valid

bind_task_families-AreBound_example :
    AreBound (λ _. some hash) families (loaded_other ∷ loaded_limiter ∷ []) tasks catalogue.families
bind_task_families-AreBound_example =
    bind_task_families-AreBound (λ _. some hash) families (loaded_other ∷ loaded_limiter ∷ []) tasks
      catalogue.families (((λ e. ne_of_test other limiter refl (ap (λ k. k.id) e)), tt), (tt, tt))
      bound

revision_ids_complete_iff_example :
    (revision_ids twice ≡ map (λ x. x.task_id) twice) ↔ IsLastRunnable twice
revision_ids_complete_iff_example = revision_ids_complete_iff twice

find_task_iff_example :
    (find_task tasks limiter (pos 1) ≡ some bound_limiter)
    ↔ (Memᴰ bound_limiter tasks × (limiter ≡ limiter) × (pos 1 ≡ pos 1))
find_task_iff_example = find_task_iff tasks limiter (pos 1) bound_limiter tasks-Distinct

latest_from_lem_example :
    ((latest_from limiter none tasks ≡ none) × All (λ u. u.id ≢ limiter) tasks)
    ⊎ ((t : Task) × (latest_from limiter none tasks ≡ some t) × IsLatest limiter tasks t)
latest_from_lem_example = latest_from_lem limiter tasks

new_catalogue-IsExecutable_example : IsExecutable catalogue bound_limiter
unfolding string_eq
new_catalogue-IsExecutable_example =
    new_catalogue-IsExecutable env catalogue bound_limiter built (Memᴰ.tail (Memᴰ.head refl)) refl

new_catalogue-AreBound_example :
    (loaded : List Task) × AreBound (measured env) families loaded tasks catalogue.families
new_catalogue-AreBound_example =
    new_catalogue-AreBound env catalogue ids families built refl ids-Distinct families_loaded

new_catalogue-pinned_example : catalogue.families.release_id ≡ v2_loaded.task_family_release_id
new_catalogue-pinned_example = new_catalogue-pinned env catalogue v2_loaded built refl refl

new_catalogue-profiles_example :
    All (IsReadyIff tasks) catalogue.profiles.profiles
    × All (IsSupporting tasks) catalogue.profiles.profiles
new_catalogue-profiles_example = new_catalogue-profiles env catalogue built
