-- ===== src/Families/Binding/Projection.antt =====
-- What a family that is handed out says of the family in the manifest.
use mathlib.Core.List.{map-append, append_assoc, append-nil}
use fluent_task_runtime.Base.{
  String, ◌≡◌, refl, sym, ap, ◌∙◌, subst, ◌↔◌, ◌⊎◌, inl, inr, false, Option, List, [], ◌∷◌, ◌++◌,
  map, arith, string_eq, nat_eq, Bool-cases, ok, >>=-eq-ok, all, All, All-append,
}
use fluent_task_runtime.Contracts.{Task, TaskFamily, TaskFamilyRevision}
use fluent_task_runtime.Families.{TaskFamilyRevisionEntry, TaskFamilyEntry}
use fluent_task_runtime.Families.Binding.{
  bound_task, projected_revision, Progress, bind_revision, bind_revisions, revision_ids,
  has_runnable, project,
}
use fluent_task_runtime.Families.Binding.Tasks.{IsBound, IsRound, bind_revision-IsRound}

-- The manifest's revision that a projected one stands for.
abbrev pub entry_of : TaskFamilyRevision → TaskFamilyRevisionEntry
entry_of x = record {
  task_id = x.task_id;
  revision = x.revision;
  language = x.language;
  profile = x.profile;
  availability = x.availability;
  immutable_hash = x.immutable_hash;
}

abbrev pub IsOfFamily : String → TaskFamilyRevision → Type 0
IsOfFamily key x =
    (x.task_family_key ≡ key) × ((x.runnable ≡ false) ⊎ (x.availability ≡ "runnable"))

-- The revisions are the manifest's, none left out, and runnable only where the manifest says so.
pub record IsProjected (f : TaskFamilyEntry) (g : TaskFamily) : Type 0 where
  pub key : g.key ≡ f.key
  pub capabilities : g.capability_keys ≡ f.capability_keys
  pub status : g.status ≡ f.status
  pub revisions : map entry_of g.revisions ≡ f.revisions
  pub in_family : All (IsOfFamily f.key) g.revisions
  pub runnable : g.runnable ≡ has_runnable g.revisions

entry_of_round :
    (hash : String → Option String) (f : TaskFamilyEntry) (r : TaskFamilyRevisionEntry) (t : Task)
    → IsBound hash f r (bound_task f r t)
    → entry_of (projected_revision f (bound_task f r t)) ≡ r
entry_of_round hash f r t h = λ i. record {
  task_id = (h.key i).id;
  revision = (h.key i).revision;
  language = h.language i;
  profile = h.profile i;
  availability = r.availability;
  immutable_hash = r.immutable_hash;
}

abbrev IsExtended :
    TaskFamilyEntry
    → List TaskFamilyRevision
    → List TaskFamilyRevisionEntry
    → List TaskFamilyRevision
    → Type 0
IsExtended f xs rs ys = (map entry_of ys ≡ map entry_of xs ++ rs) × All (IsOfFamily f.key) ys

bind_revision-IsExtended :
    (hash : String → Option String) (f : TaskFamilyEntry) (p next : Progress)
    (r : TaskFamilyRevisionEntry)
    → IsRound hash f r p next
    → All (IsOfFamily f.key) p.revisions
    → IsExtended f p.revisions (r ∷ []) next.revisions
bind_revision-IsExtended hash f p next r round h =
    subst (λ q. IsExtended f p.revisions (r ∷ []) q.revisions) round.assigned
      (
        map-append entry_of p.revisions (new ∷ [])
            ∙ ap (λ x. map entry_of p.revisions ++ x ∷ [])
                (entry_of_round hash f r round.task round.bound),
        All-append (IsOfFamily f.key) p.revisions (new ∷ []) h ((refl, round.bound.runnable), tt),
      )
  where
    new : TaskFamilyRevision
    new = projected_revision f (bound_task f r round.task)

pub bind_revisions-IsExtended :
    (hash : String → Option String) (f : TaskFamilyEntry) (p out : Progress)
    (rs : List TaskFamilyRevisionEntry)
    → bind_revisions hash f p rs ≡ ok out
    → All (IsOfFamily f.key) p.revisions
    → IsExtended f p.revisions rs out.revisions
unfolding bind_revisions
bind_revisions-IsExtended hash f p out [] h known =
    let same : p ≡ out = cc in
    subst (λ q. IsExtended f p.revisions [] q.revisions) same
      (sym (append-nil (map entry_of p.revisions)), known)
bind_revisions-IsExtended hash f p out (r ∷ rs) h known =
    let (next, hr, later) = >>=-eq-ok (bind_revision hash f p r) _ h in
    let (step, known_next) =
      bind_revision-IsExtended hash f p next r (bind_revision-IsRound hash f p next r hr) known in
    let (rest, known_out) = bind_revisions-IsExtended hash f next out rs later known_next in
    (
      rest ∙ ap (λ xs. xs ++ rs) step ∙ append_assoc (map entry_of p.revisions) (r ∷ []) rs,
      known_out,
    )

pub project-IsProjected :
    (hash : String → Option String) (f : TaskFamilyEntry) (p out : Progress)
    → p.revisions ≡ []
    → bind_revisions hash f p f.revisions ≡ ok out
    → IsProjected f (project f out)
project-IsProjected hash f p out e h =
    let (all, known) = bind_revisions-IsExtended hash f p out f.revisions h (rw e tt) in
    record {
      key = refl;
      capabilities = refl;
      status = refl;
      revisions = all ∙ ap (λ xs. map entry_of xs ++ f.revisions) e;
      in_family = known;
      runnable = refl;
    }

-- None but the last may be runnable.
abbrev pub IsLastRunnable : List TaskFamilyRevision → Type 0
IsLastRunnable [] = Unit
IsLastRunnable (x ∷ []) = Unit
IsLastRunnable (x ∷ y ∷ xs) = (x.runnable ≡ false) × IsLastRunnable (y ∷ xs)

-- The identifiers that a family hands out name all of its revisions exactly when no revision but
-- the last is runnable.
pub revision_ids_complete_iff :
    (xs : List TaskFamilyRevision) → (revision_ids xs ≡ map (λ x. x.task_id) xs) ↔ IsLastRunnable xs
unfolding revision_ids
revision_ids_complete_iff [] = (λ h. tt, λ h. refl)
revision_ids_complete_iff (x ∷ []) = (λ h. tt, λ h. ground arith)
revision_ids_complete_iff (x ∷ y ∷ xs) =
    let (to, from) = revision_ids_complete_iff (y ∷ xs) in
    elim (Bool-cases x.runnable) [
      | inl stops ↦ (λ h. absurd (ground arith), λ (goes, _). absurd (ground arith))
      | inr goes ↦ (λ h. (goes, to (ground arith)), λ (_, h). let rest = from h in ground arith)
    ]
