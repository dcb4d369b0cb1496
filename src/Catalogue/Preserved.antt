-- ===== src/Catalogue/Preserved.antt =====
-- Properties of tasks across bindTaskFamilies of internal/engine/families.go.
use fluent_task_runtime.Base.{
  String, ◌≡◌, subst, Option, none, some, List, [], ◌∷◌, ◌++◌, string_eq, nat_eq, ok, >>=-eq-ok,
  All,
}
use fluent_task_runtime.Contracts.{Task, TaskFamily, TaskFamilies}
use fluent_task_runtime.Release.{TaskRevisionKey}
use fluent_task_runtime.Families.{TaskFamilyRevisionEntry, TaskFamilyEntry, TaskFamilyManifest}
use fluent_task_runtime.Families.Binding.{
  bound_task, Progress, bind_revision, bind_revisions, start, bind_families, check_assigned,
  bind_task_families,
}
use fluent_task_runtime.Families.Binding.Tasks.{IsRound, bind_revision-IsRound}

module _ (P : Task → Type 0)
    (kept : (f : TaskFamilyEntry) (r : TaskFamilyRevisionEntry) (t : Task)
      → P t
      → P (bound_task f r t)) where
  All-bound :
      (f : TaskFamilyEntry) (r : TaskFamilyRevisionEntry) (before after : List Task) (t : Task)
      → All P (before ++ t ∷ after)
      → All P (before ++ bound_task f r t ∷ after)
  All-bound f r [] after t (p, h) = (kept f r t p, h)
  All-bound f r (x ∷ before) after t (p, h) = (p, All-bound f r before after t h)

  bind_revision-All :
      (hash : String → Option String) (f : TaskFamilyEntry) (p next : Progress)
      (r : TaskFamilyRevisionEntry)
      → IsRound hash f r p next
      → All P p.tasks
      → All P next.tasks
  bind_revision-All hash f p next r round h =
      subst (λ q. All P q.tasks) round.assigned
        (All-bound f r round.before round.after round.task (subst (λ ts. All P ts) round.placed h))

  bind_revisions-All :
      (hash : String → Option String) (f : TaskFamilyEntry) (p out : Progress)
      (rs : List TaskFamilyRevisionEntry)
      → bind_revisions hash f p rs ≡ ok out
      → All P p.tasks
      → All P out.tasks
  unfolding bind_revisions
  bind_revisions-All hash f p out [] e h =
      let same : p ≡ out = cc in subst (λ q. All P q.tasks) same h
  bind_revisions-All hash f p out (r ∷ rs) e h =
      let (next, hr, later) = >>=-eq-ok (bind_revision hash f p r) _ e in
      bind_revisions-All hash f next out rs later
        (bind_revision-All hash f p next r (bind_revision-IsRound hash f p next r hr) h)

  bind_families-All :
      (hash : String → Option String) (tasks : List Task) (seen : List TaskRevisionKey)
      (families : List TaskFamilyEntry) (out : List Task × List TaskRevisionKey × List TaskFamily)
      → bind_families hash tasks seen families ≡ ok out
      → All P tasks
      → All P (out.0)
  unfolding bind_families
  bind_families-All hash tasks seen [] out e h =
      let same : (tasks, seen, []) ≡ out = cc in subst (λ x. All P (x.0)) same h
  bind_families-All hash tasks seen (f ∷ families) out e h =
      let (p, hp, h₁) = >>=-eq-ok (bind_revisions hash f (start tasks seen) f.revisions) _ e in
      let ((later, all_seen, projections), hl, h₂) =
        >>=-eq-ok (bind_families hash p.tasks p.seen families) _ h₁ in
      let same : later ≡ out.0 = cc in
      subst (λ ts. All P ts) same
        (bind_families-All hash p.tasks p.seen families (later, all_seen, projections) hl
          (bind_revisions-All hash f (start tasks seen) p f.revisions hp h))

  pub bind_task_families-All :
      (hash : String → Option String) (manifest : Option TaskFamilyManifest) (tasks out : List Task)
      (result : TaskFamilies)
      → bind_task_families hash tasks manifest ≡ ok (out, result)
      → All P tasks
      → All P out
  unfolding bind_task_families
  bind_task_families-All hash none tasks out result e h =
      let same : tasks ≡ out = cc in subst (λ ts. All P ts) same h
  bind_task_families-All hash (some m) tasks out result e h =
      let ((bound, seen, projections), hb, h₁) =
        >>=-eq-ok (bind_families hash tasks [] m.families) _ e in
      let (_, hc, h₂) = >>=-eq-ok (check_assigned seen bound) _ h₁ in
      let same : bound ≡ out = cc in
      subst (λ ts. All P ts) same
        (bind_families-All hash tasks [] m.families (bound, seen, projections) hb h)
