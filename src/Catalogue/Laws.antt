-- ===== src/Catalogue/Laws.antt =====
-- What a catalogue that NewCatalogue, internal/engine/catalogue.go, has built guarantees.
use fluent_task_runtime.Base.{
  String, ◌≡◌, refl, sym, ap, ◌∙◌, subst, ◌≢◌, ◌⊎◌, inl, inr, true, false, ◌&&◌, Option, none, some,
  List, [], ◌∷◌, map, arith, ◌==◌, string_eq, nat_eq, Bool-cases, ok, ok_unique, >>=-eq-ok,
  Option-cases, All, All-mem, All-map, Distinct, Memᴰ, Distinct-of_map,
}
use fluent_task_runtime.Numbers.{pos, ◌≤ℤ◌}
use fluent_task_runtime.Contracts.{Task, TaskFamilies}
use fluent_task_runtime.Release.{TaskReleaseManifest, contract_v2}
use fluent_task_runtime.Loading.{is_bound, validation_status}
use fluent_task_runtime.Loading.Sorting.{sort_strings-Distinct}
use fluent_task_runtime.Loading.Descriptors.{HasLimits}
use fluent_task_runtime.Loading.Laws.{IsLoadedTask, load_tasks-AreLoaded}
use fluent_task_runtime.Families.{
  TaskFamilyManifest, TaskFamilyEntry, TaskFamilyRevisionEntry, load_task_family_manifest,
}
use fluent_task_runtime.Families.Binding.{
  bound_task, bind_families, check_assigned, bind_task_families,
}
use fluent_task_runtime.Families.Binding.Tasks.{keys_of}
use fluent_task_runtime.Families.Binding.Laws.{AreBound, bind_task_families-AreBound}
use fluent_task_runtime.Bindings.Laws.{IsReleasable}
use fluent_task_runtime.Catalogue.{
  Environment, Catalogue, default_tasks_root, check_family_release, new_catalogue, binding_state,
}
use fluent_task_runtime.Catalogue.Preserved.{bind_task_families-All}
use fluent_task_runtime.Catalogue.Building.{measured, IsBuild, new_catalogue-IsBuild}

-- What a task keeps from its descriptor when it is bound to its family.
pub record IsKept (release : Option TaskReleaseManifest) (t : Task) : Type 0 where
  pub positive : pos 1 ≤ℤ t.revision
  pub limits : HasLimits t.timeout_ms t.memory_mb t.cpus
  pub sandboxed : (t.network ≡ "none") × (t.hidden_tests ≡ true)
  pub runnable : (t.runnable ≡ false) ⊎ ((is_bound release ≡ true) × (t.status ≡ "released"))
  pub releasable :
      IsReleasable
        (validation_status t.status release)
        t.question_release_id
        t.question_bindings
        t.capability_keys

IsKept-of_loaded :
    (release : Option TaskReleaseManifest) (t : Task) → IsLoadedTask release t → IsKept release t
IsKept-of_loaded release t (seen, l) =
    let runs : t.runnable ≡ (is_bound release && t.status == "released") = l.runnable in
    record {
      positive = l.positive;
      limits = l.limits;
      sandboxed = l.sandboxed;
      runnable = ground arith;
      releasable = l.acceptable.releasable;
    }

IsKept-of_bound :
    (release : Option TaskReleaseManifest) (f : TaskFamilyEntry) (r : TaskFamilyRevisionEntry)
    (t : Task)
    → IsKept release t
    → IsKept release (bound_task f r t)
IsKept-of_bound release f r t h =
    let known : (t.runnable ≡ false) ⊎ ((is_bound release ≡ true) × (t.status ≡ "released")) =
      h.runnable in
    record {
      positive = h.positive;
      limits = h.limits;
      sandboxed = h.sandboxed;
      runnable = ground arith;
      releasable = h.releasable;
    }

tasks-IsKept :
    (env : Environment) (c : Catalogue)
    → IsBuild env c
    → All (IsKept c.release_manifest) c.tasks.tasks
tasks-IsKept env c b =
    let (ids, _, l) =
      load_tasks-AreLoaded (env.directories (default_tasks_root env.tasks_root))
        (env.descriptor (default_tasks_root env.tasks_root)) c.release_manifest b.loaded
        b.tasks_loaded in
    bind_task_families-All (IsKept c.release_manifest) (IsKept-of_bound c.release_manifest)
      (measured env) b.manifest b.loaded c.tasks.tasks c.families b.bound
      (All-map b.loaded (IsKept-of_loaded c.release_manifest) l.loaded)

-- A task that may be run: it is released under a release manifest, it states the limits of its
-- sandbox and no network, and it serves some question or capability.
pub record IsExecutable (c : Catalogue) (t : Task) : Type 0 where
  pub release : (m : TaskReleaseManifest) × (c.release_manifest ≡ some m)
  pub released : t.status ≡ "released"
  pub positive : pos 1 ≤ℤ t.revision
  pub limits : HasLimits t.timeout_ms t.memory_mb t.cpus
  pub sandboxed : (t.network ≡ "none") × (t.hidden_tests ≡ true)
  pub joined : (binding_state t ≡ "full") ⊎ (binding_state t ≡ "capability-only")

joined_of_releasable :
    (t : Task)
    → t.status ≡ "released"
    → IsReleasable t.status t.question_release_id t.question_bindings t.capability_keys
    → (binding_state t ≡ "full") ⊎ (binding_state t ≡ "capability-only")
unfolding binding_state
joined_of_releasable t released h = ground arith

IsExecutable-of_kept :
    (c : Catalogue) (t : Task) (m : TaskReleaseManifest)
    → c.release_manifest ≡ some m
    → IsKept (some m) t
    → t.status ≡ "released"
    → IsExecutable c t
IsExecutable-of_kept c t m e h released = record {
  release = (m, e);
  released = released;
  positive = h.positive;
  limits = h.limits;
  sandboxed = h.sandboxed;
  joined = joined_of_releasable t released h.releasable;
}

-- When a catalogue has been built, each of its tasks that is runnable is released, under a release
-- manifest that has been loaded, has positive limits, no network and hidden tests, and is bound to
-- some question or capability.
pub new_catalogue-IsExecutable :
    (env : Environment) (c : Catalogue) (t : Task)
    → new_catalogue env ≡ ok c
    → Memᴰ t c.tasks.tasks
    → t.runnable ≡ true
    → IsExecutable c t
new_catalogue-IsExecutable env c t h mem runs =
    let b = new_catalogue-IsBuild env c h in
    let kept = All-mem (IsKept c.release_manifest) (tasks-IsKept env c b) mem in
    let known : (t.runnable ≡ false)
        ⊎ ((is_bound c.release_manifest ≡ true) × (t.status ≡ "released")) =
      kept.runnable in
    elim (Option-cases c.release_manifest) [
      | inl e ↦
          let unbound : is_bound c.release_manifest ≡ false = rw e refl in absurd (ground arith)
      | inr (m, e) ↦ IsExecutable-of_kept c t m e (rw e at kept) (ground arith)
    ]

key_ids : (tasks : List Task) → map (λ k. k.id) (keys_of tasks) ≡ map (λ t. t.id) tasks
key_ids [] = refl
key_ids (t ∷ tasks) = ap (λ xs. t.id ∷ xs) (key_ids tasks)

loaded-Distinct :
    (env : Environment) (c : Catalogue) (b : IsBuild env c) (ids : List String)
    → env.directories (default_tasks_root env.tasks_root) ≡ some ids
    → Distinct ids
    → Distinct (keys_of b.loaded)
loaded-Distinct env c b ids listed distinct =
    let (names, found, l) =
      load_tasks-AreLoaded (env.directories (default_tasks_root env.tasks_root))
        (env.descriptor (default_tasks_root env.tasks_root)) c.release_manifest b.loaded
        b.tasks_loaded in
    let same : names ≡ ids = cc in
    Distinct-of_map (λ k. k.id) (keys_of b.loaded)
      (subst (λ xs. Distinct xs) (sym (key_ids b.loaded ∙ l.ordered))
        (sort_strings-Distinct names (subst (λ xs. Distinct xs) (sym same) distinct)))

-- When a catalogue has been built from directories of distinct names and a manifest of task
-- families, each released task is bound to a revision of a family of that manifest, whose hash is
-- the one of the task's directory, and the catalogue's families project the manifest's.
pub new_catalogue-AreBound :
    (env : Environment) (c : Catalogue) (ids : List String) (m : TaskFamilyManifest)
    → new_catalogue env ≡ ok c
    → env.directories (default_tasks_root env.tasks_root) ≡ some ids
    → Distinct ids
    → load_task_family_manifest env.unicode_lower env.family_path env.family_stat
        env.family_document
      ≡ ok (some m)
    → (loaded : List Task) × AreBound (measured env) m loaded c.tasks.tasks c.families
new_catalogue-AreBound env c ids m h listed distinct configured =
    let b = new_catalogue-IsBuild env c h in
    let same : b.manifest ≡ some m =
      ok_unique
        (load_task_family_manifest env.unicode_lower env.family_path env.family_stat
          env.family_document)
        b.families_loaded configured in
    (
      b.loaded,
      bind_task_families-AreBound (measured env) m b.loaded c.tasks.tasks c.families
          (loaded-Distinct env c b ids listed distinct)
          (subst
            (λ x. bind_task_families (measured env) b.loaded x ≡ ok (c.tasks.tasks, c.families))
            same b.bound),
    )

check_family_release_sound :
    (r : TaskReleaseManifest) (manifest : Option TaskFamilyManifest)
    → check_family_release (some r) manifest ≡ ok tt
    → (r.contract_version ≢ contract_v2)
      ⊎ ((m : TaskFamilyManifest) × (manifest ≡ some m) × (m.release_id ≡ r.task_family_release_id))
unfolding check_family_release
check_family_release_sound r none h = inl (λ q. ground arith)
check_family_release_sound r (some m) h = elim (Bool-cases (r.contract_version == contract_v2)) [
  | inr other ↦ inl (λ q. ground arith)
  | inl v2 ↦ inr (m, refl, ground arith)
]

families_release :
    (hash : String → Option String) (loaded tasks : List Task) (m : TaskFamilyManifest)
    (result : TaskFamilies)
    → bind_task_families hash loaded (some m) ≡ ok (tasks, result)
    → result.release_id ≡ m.release_id
unfolding bind_task_families
families_release hash loaded tasks m result h =
    let ((bound, seen, projections), hb, h₁) =
      >>=-eq-ok (bind_families hash loaded [] m.families) _ h in
    let (_, hc, h₂) = >>=-eq-ok (check_assigned seen bound) _ h₁ in cc

-- When a catalogue has been built under a release of contract v2, the families that it hands out
-- are those of the family release that the manifest pins.
pub new_catalogue-pinned :
    (env : Environment) (c : Catalogue) (r : TaskReleaseManifest)
    → new_catalogue env ≡ ok c
    → c.release_manifest ≡ some r
    → r.contract_version ≡ contract_v2
    → c.families.release_id ≡ r.task_family_release_id
new_catalogue-pinned env c r h loaded v2 =
    let b = new_catalogue-IsBuild env c h in
    elim (check_family_release_sound r b.manifest
      (subst (λ x. check_family_release x b.manifest ≡ ok tt) loaded b.pinned)) [
        | inl other ↦ absurd (other v2)
        | inr (m, same, pinned) ↦
            families_release (measured env) b.loaded c.tasks.tasks m c.families (
              subst
                (λ x. bind_task_families (measured env) b.loaded x ≡ ok (c.tasks.tasks, c.families))
                same b.bound)
            ∙ pinned
      ]
