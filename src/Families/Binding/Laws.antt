-- ===== src/Families/Binding/Laws.antt =====
-- What bindTaskFamilies of internal/engine/families.go guarantees.
use fluent_task_runtime.Base.{
  String, ◌≡◌, refl, ◌∙◌, subst, ◌≢◌, ◌⊎◌, inl, inr, not, ◌&&◌, Option, some, List, [], ◌∷◌, map,
  arith, ◌==◌, string_eq, nat_eq, ok, >>=-eq-ok, refuse-eq-ok, All, Distinct, contains, Memᴰ,
}
use fluent_task_runtime.Contracts.{Task, TaskFamily, TaskFamilies}
use fluent_task_runtime.Release.{TaskRevisionKey, key_eq}
use fluent_task_runtime.Loading.{key_of_task}
use fluent_task_runtime.Families.{TaskFamilyRevisionEntry, TaskFamilyEntry, TaskFamilyManifest}
use fluent_task_runtime.Families.Binding.{
  Progress, bind_revision, bind_revisions, project, start, bind_families, check_assigned,
  bind_task_families,
}
use fluent_task_runtime.Families.Binding.Tasks.{
  keys_of, unbound, IsAssigned, IsTracked, AreTracked, bind_revision-IsRound,
  bind_revision-AreTracked,
}
use fluent_task_runtime.Families.Binding.Projection.{IsProjected, project-IsProjected}

-- One projection for each family of the manifest, in its order.
abbrev pub AreProjected : List TaskFamilyEntry → List TaskFamily → Type 0
AreProjected [] [] = Unit
AreProjected (f ∷ families) (g ∷ projections) = IsProjected f g × AreProjected families projections
AreProjected _ _ = ⊥

bind_revisions-AreTracked :
    (hash : String → Option String) (families : List TaskFamilyEntry) (f : TaskFamilyEntry)
    (p out : Progress) (rs : List TaskFamilyRevisionEntry)
    → bind_revisions hash f p rs ≡ ok out
    → Memᴰ f families
    → ((r : TaskFamilyRevisionEntry) → Memᴰ r rs → Memᴰ r f.revisions)
    → AreTracked hash families p.tasks p.seen
    → (map unbound out.tasks ≡ map unbound p.tasks) × AreTracked hash families out.tasks out.seen
unfolding bind_revisions
bind_revisions-AreTracked hash families f p out [] h in_families within tracked =
    let same : p ≡ out = cc in
    subst
      (λ q. (map unbound q.tasks ≡ map unbound p.tasks) × AreTracked hash families q.tasks q.seen)
      same (refl, tracked)
bind_revisions-AreTracked hash families f p out (r ∷ rs) h in_families within tracked =
    let (next, hr, later) = >>=-eq-ok (bind_revision hash f p r) _ h in
    let (same, tracked_next) =
      bind_revision-AreTracked hash families f p next r (bind_revision-IsRound hash f p next r hr)
        in_families (within r (Memᴰ.head refl)) tracked in
    let (rest, tracked_out) =
      bind_revisions-AreTracked hash families f next out rs later in_families
        (λ x m. within x (Memᴰ.tail m)) tracked_next in
    (rest ∙ same, tracked_out)

abbrev IsBindingRun :
    (String → Option String)
    → List TaskFamilyEntry
    → List Task
    → List TaskFamilyEntry
    → List Task × List TaskRevisionKey × List TaskFamily
    → Type 0
IsBindingRun hash families tasks rest (out, seen, projections) =
    (map unbound out ≡ map unbound tasks)
    × AreTracked hash families out seen
    × AreProjected rest projections

bind_families_sound :
    (hash : String → Option String) (families : List TaskFamilyEntry) (tasks : List Task)
    (seen : List TaskRevisionKey) (rest : List TaskFamilyEntry)
    (out : List Task × List TaskRevisionKey × List TaskFamily)
    → bind_families hash tasks seen rest ≡ ok out
    → ((f : TaskFamilyEntry) → Memᴰ f rest → Memᴰ f families)
    → AreTracked hash families tasks seen
    → IsBindingRun hash families tasks rest out
unfolding bind_families
bind_families_sound hash families tasks seen [] out h within tracked =
    let same : (tasks, seen, []) ≡ out = cc in
    subst (λ x. IsBindingRun hash families tasks [] x) same (refl, tracked, tt)
bind_families_sound hash families tasks seen (f ∷ rest) out h within tracked =
    let (p, hp, h₁) = >>=-eq-ok (bind_revisions hash f (start tasks seen) f.revisions) _ h in
    let ((later, all_seen, projections), hl, h₂) =
      >>=-eq-ok (bind_families hash p.tasks p.seen rest) _ h₁ in
    let same : (later, all_seen, project f p ∷ projections) ≡ out = cc in
    let (unchanged, tracked_p) =
      bind_revisions-AreTracked hash families f (start tasks seen) p f.revisions hp
        (within f (Memᴰ.head refl)) (λ r m. m) tracked in
    let (unchanged_later, tracked_later, projected) =
      bind_families_sound hash families p.tasks p.seen rest (later, all_seen, projections) hl
        (λ g m. within g (Memᴰ.tail m)) tracked_p in
    subst (λ x. IsBindingRun hash families tasks (f ∷ rest) x) same
      (
        unchanged_later ∙ unchanged,
        tracked_later,
        (project-IsProjected hash f (start tasks seen) p refl hp, projected),
      )

abbrev pub IsReleasedAssigned : (String → Option String) → List TaskFamilyEntry → Task → Type 0
IsReleasedAssigned hash families t = (t.status ≢ "released") ⊎ IsAssigned hash families t

check_assigned_sound :
    (hash : String → Option String) (families : List TaskFamilyEntry) (seen : List TaskRevisionKey)
    (tasks : List Task) {u : Unit {0}}
    → check_assigned seen tasks ≡ ok u
    → All (IsTracked hash families seen) tasks
    → All (IsReleasedAssigned hash families) tasks
unfolding check_assigned
check_assigned_sound hash families seen [] h tracked = tt
check_assigned_sound hash families seen (t ∷ tasks) h (tracked, all_tracked) =
    let (covered, later) =
      refuse-eq-ok (t.status == "released" && not (contains seen (key_of_task t))) _ _ h in
    (
      elim tracked [ inr assigned ↦ inr assigned | inl unseen ↦ inl (λ q. ground arith) ],
      check_assigned_sound hash families seen tasks later all_tracked,
    )

-- What the tasks and the families are after they have been joined.
pub record AreBound (hash : String → Option String) (m : TaskFamilyManifest) (tasks out : List Task)
    (result : TaskFamilies) : Type 0 where
  pub unchanged : map unbound out ≡ map unbound tasks
  pub released : All (IsReleasedAssigned hash m.families) out
  pub release : result.release_id ≡ m.release_id
  pub projected : AreProjected m.families result.families

unseen-IsTracked :
    (hash : String → Option String) (families : List TaskFamilyEntry) (tasks : List Task)
    → All (IsTracked hash families []) tasks
unfolding contains
unseen-IsTracked hash families [] = tt
unseen-IsTracked hash families (t ∷ tasks) = (inl refl, unseen-IsTracked hash families tasks)

-- When the tasks have distinct keys and binding them to the families' manifest succeeds, the tasks
-- keep their order and all but four of their fields; each released task has been bound to a
-- revision of some family, with that revision's language, profile and availability, and with the
-- hash that was measured, and is runnable only if that revision is; and there is one projection for
-- each family of the manifest, with all of its revisions.
pub bind_task_families-AreBound :
    (hash : String → Option String) (m : TaskFamilyManifest) (tasks out : List Task)
    (result : TaskFamilies)
    → Distinct (keys_of tasks)
    → bind_task_families hash tasks (some m) ≡ ok (out, result)
    → AreBound hash m tasks out result
unfolding bind_task_families
bind_task_families-AreBound hash m tasks out result distinct h =
    let ((bound, seen, projections), hb, h₁) =
      >>=-eq-ok (bind_families hash tasks [] m.families) _ h in
    let (_, hc, h₂) = >>=-eq-ok (check_assigned seen bound) _ h₁ in
    let (unchanged, (_, tracked), projected) =
      bind_families_sound hash m.families tasks [] m.families (bound, seen, projections) hb
        (λ f mem. mem) (distinct, unseen-IsTracked hash m.families tasks) in
    let same_tasks : bound ≡ out = cc in
    let same_result : record {
      contract_version = "fluent-task-runtime.task-families.v1";
      release_id = m.release_id;
      families = projections;
    }
        ≡ result =
      cc in
    subst (λ ts. AreBound hash m tasks ts result) same_tasks
      (subst (λ x. AreBound hash m tasks bound x) same_result
        (record {
          unchanged = unchanged;
          released = check_assigned_sound hash m.families seen bound hc tracked;
          release = refl;
          projected = projected;
        }))
