-- ===== src/Catalogue/Building.antt =====
-- The steps of NewCatalogue that have led to a catalogue.
use fluent_task_runtime.Base.{
  String, ◌≡◌, refl, subst, Option, List, map, string_eq, nat_eq, ok, wrap, >>=-eq-ok, wrap-eq-ok,
}
use fluent_task_runtime.Contracts.{Task}
use fluent_task_runtime.Release.{load_release_manifest}
use fluent_task_runtime.Loading.{load_tasks}
use fluent_task_runtime.Families.{TaskFamilyManifest, load_task_family_manifest}
use fluent_task_runtime.Families.Hashing.{hash_task_revision}
use fluent_task_runtime.Families.Binding.{bind_task_families}
use fluent_task_runtime.Catalogue.{
  Environment, Catalogue, family_failed, release_failed, tasks_failed, binding_failed,
  default_tasks_root, check_family_release, declared_profiles, join_profile, new_catalogue,
}

-- The hash that NewCatalogue measures of a task's directory.
abbrev pub measured : Environment → String → Option String
measured env id =
    hash_task_revision env.sha256 env.bytes_of (env.walk (default_tasks_root env.tasks_root) id)
      (env.read (default_tasks_root env.tasks_root) id)

-- The steps that have built a catalogue.
pub record IsBuild (env : Environment) (c : Catalogue) : Type 0 where
  pub manifest : Option TaskFamilyManifest
  pub loaded : List Task
  pub families_loaded :
      load_task_family_manifest env.unicode_lower env.family_path env.family_stat
        env.family_document
      ≡ ok manifest
  pub release_loaded :
      load_release_manifest env.release_path env.workspace_key env.release_document
      ≡ ok c.release_manifest
  pub pinned : check_family_release c.release_manifest manifest ≡ ok tt
  pub tasks_loaded :
      load_tasks
        (env.directories (default_tasks_root env.tasks_root))
        (env.descriptor (default_tasks_root env.tasks_root))
        c.release_manifest
      ≡ ok loaded
  pub bound : bind_task_families (measured env) loaded manifest ≡ ok (c.tasks.tasks, c.families)
  pub profiles : c.profiles.profiles ≡ map (join_profile c.tasks.tasks) declared_profiles

pub new_catalogue-IsBuild :
    (env : Environment) (c : Catalogue) → new_catalogue env ≡ ok c → IsBuild env c
unfolding new_catalogue
new_catalogue-IsBuild env c h =
    let (manifest, hf, h₁) =
      >>=-eq-ok
        (wrap family_failed (
          load_task_family_manifest env.unicode_lower env.family_path env.family_stat
            env.family_document))
        _ h in
    let (release, hr, h₂) =
      >>=-eq-ok
        (wrap release_failed
          (load_release_manifest env.release_path env.workspace_key env.release_document))
        _ h₁ in
    let (_, hp, h₃) = >>=-eq-ok (check_family_release release manifest) _ h₂ in
    let (loaded, hl, h₄) =
      >>=-eq-ok
        (wrap tasks_failed (
          load_tasks (env.directories (default_tasks_root env.tasks_root))
            (env.descriptor (default_tasks_root env.tasks_root)) release))
        _ h₃ in
    let ((tasks, families), hb, h₅) =
      >>=-eq-ok (wrap binding_failed (bind_task_families (measured env) loaded manifest)) _ h₄ in
    let out : record {
      profiles = record {
        contract_version = "fluent-task-runtime.profiles.v1";
        profiles = map (join_profile tasks) declared_profiles;
      };
      tasks = record { contract_version = "fluent-task-runtime.tasks.v1"; tasks = tasks };
      families = families;
      tasks_root = default_tasks_root env.tasks_root;
      release_manifest = release;
    }
        ≡ c =
      cc in
    subst (λ x. IsBuild env x) out
      (record {
        manifest = manifest;
        loaded = loaded;
        families_loaded = wrap-eq-ok family_failed _ hf;
        release_loaded = wrap-eq-ok release_failed _ hr;
        pinned = hp;
        tasks_loaded = wrap-eq-ok tasks_failed _ hl;
        bound = wrap-eq-ok binding_failed _ hb;
        profiles = refl;
      })
