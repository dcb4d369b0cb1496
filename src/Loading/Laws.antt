-- ===== src/Loading/Laws.antt =====
-- What the tasks of loadTasks, internal/engine/catalogue.go, are like.
use mathlib.Core.List.Perm
use fluent_task_runtime.Base.{
  String, ◌≡◌, refl, sym, ap, ap₂, ◌∙◌, subst, ◌≢◌, ◌⊎◌, inl, inr, true, Option, none, some, List,
  [], ◌∷◌, map, arith, string_eq, nat_eq, ok, expect, >>=-eq-ok, guard-eq-ok, refuse-eq-ok,
  expect-eq-ok, is_empty, All, All-mem, All-map, contains, mem_of_contains, Memᴰ, Perm,
}
use fluent_task_runtime.Base.Dict.{Dict, lookup}
use fluent_task_runtime.Text.{trim_space}
use fluent_task_runtime.Documents.{Document}
use fluent_task_runtime.Contracts.{Task}
use fluent_task_runtime.Bindings.{trim_binding}
use fluent_task_runtime.Release.{TaskRevisionKey, TaskReleaseEntry, TaskReleaseManifest, key_eq}
use fluent_task_runtime.Loading.{
  TaskDescriptor, unreadable_root, Overlay, key_of_task, load_task, mark, load_descriptors,
  check_seen, entries_of, load_tasks,
}
use fluent_task_runtime.Loading.Sorting.{sort_strings}
use fluent_task_runtime.Loading.Descriptors.{
  IsOverlaid, IsOverlayOf, IsJoined, IsLoaded, load_task-IsLoaded,
}

abbrev pub IsLoadedTask : Option TaskReleaseManifest → Task → Type 0
IsLoadedTask release t = (seen : Option TaskRevisionKey) × IsLoaded release t.id t seen

abbrev pub IsKeyOf : List Task → TaskRevisionKey → Type 0
IsKeyOf tasks k = contains (map key_of_task tasks) k ≡ true

-- A round marks the task's own key, or none.
seen_cases :
    (release : Option TaskReleaseManifest) (t : Task) (seen : Option TaskRevisionKey) (o : Overlay)
    → IsJoined release (key_of_task t) t.status o
    → o.seen ≡ seen
    → (seen ≡ none) ⊎ (seen ≡ some (key_of_task t))
seen_cases none t seen o h e = inl cc
seen_cases (some m) t seen o (inl (_, _, h)) e = inr cc
seen_cases (some m) t seen o (inr (_, _, h)) e = inl cc

IsKeyOf-cons :
    (t : Task) (tasks : List Task) (k : TaskRevisionKey) → IsKeyOf tasks k → IsKeyOf (t ∷ tasks) k
unfolding contains
IsKeyOf-cons t tasks k h = ground (arith, h)

IsKeyOf-head : (t : Task) (tasks : List Task) → IsKeyOf (t ∷ tasks) (key_of_task t)
unfolding contains
IsKeyOf-head t tasks = ground arith

mark_sound :
    (t : Task) (tasks : List Task) (seen : Option TaskRevisionKey) (keys : List TaskRevisionKey)
    → (seen ≡ none) ⊎ (seen ≡ some (key_of_task t))
    → All (IsKeyOf tasks) keys
    → All (IsKeyOf (t ∷ tasks)) (mark seen keys)
mark_sound t tasks seen keys (inl e) h = rw e (All-map keys (IsKeyOf-cons t tasks) h)
mark_sound t tasks seen keys (inr e) h =
    rw e (IsKeyOf-head t tasks, All-map keys (IsKeyOf-cons t tasks) h)

abbrev IsLoop : Option TaskReleaseManifest → List String → List Task → List TaskRevisionKey → Type 0
IsLoop release ids tasks keys =
    (map (λ t. t.id) tasks ≡ ids) × All (IsLoadedTask release) tasks × All (IsKeyOf tasks) keys

IsLoop-cons :
    (release : Option TaskReleaseManifest) (id : String) (ids : List String) (t : Task)
    (tasks : List Task) (seen : Option TaskRevisionKey) (keys : List TaskRevisionKey)
    → IsLoaded release id t seen
    → IsLoop release ids tasks keys
    → IsLoop release (id ∷ ids) (t ∷ tasks) (mark seen keys)
IsLoop-cons release id ids t tasks seen keys h (same, loaded, known) =
    let (o, joined, (_, _, _, _, _, marked)) = h.joined in
    (
      ap₂ (λ x xs. x ∷ xs) h.named same,
      ((seen, subst (λ x. IsLoaded release x t seen) (sym h.named) h), loaded),
      mark_sound t tasks seen keys (seen_cases release t seen o joined marked) known,
    )

load_descriptors_sound :
    (release : Option TaskReleaseManifest) (document : String → Document TaskDescriptor)
    (ids : List String) (tasks : List Task) (keys : List TaskRevisionKey)
    → load_descriptors release document ids ≡ ok (tasks, keys)
    → IsLoop release ids tasks keys
unfolding load_descriptors
load_descriptors_sound release document [] tasks keys h =
    let no_tasks : [] ≡ tasks = cc in
    let no_keys : [] ≡ keys = cc in rw (← no_tasks, ← no_keys) (refl, tt, tt)
load_descriptors_sound release document (id ∷ ids) tasks keys h =
    let ((t, seen), ht, h₁) = >>=-eq-ok (load_task release id (document id)) _ h in
    let ((ts, ks), hs, h₂) = >>=-eq-ok (load_descriptors release document ids) _ h₁ in
    let same_tasks : t ∷ ts ≡ tasks = cc in
    let same_keys : mark seen ks ≡ keys = cc in
    subst (λ x. IsLoop release (id ∷ ids) x keys) same_tasks
      (subst (λ x. IsLoop release (id ∷ ids) (t ∷ ts) x) same_keys
        (IsLoop-cons release id ids t ts seen ks
          (load_task-IsLoaded release id (document id) t seen ht)
          (load_descriptors_sound release document ids ts ks hs)))

check_seen_sound :
    (tasks : List Task) (keys : List TaskRevisionKey)
    (entries : Dict TaskRevisionKey TaskReleaseEntry) {u : Unit {0}}
    → check_seen keys entries ≡ ok u
    → All (IsKeyOf tasks) keys
    → All (λ entry. IsKeyOf tasks (entry.0)) entries
unfolding check_seen
check_seen_sound tasks keys [] h known = tt
check_seen_sound tasks keys ((k, e) ∷ entries) h known =
    let (seen, later) = guard-eq-ok (contains keys k) _ _ h in
    (
      All-mem (IsKeyOf tasks) known (mem_of_contains k keys seen),
      check_seen_sound tasks keys entries later known,
    )

-- The tasks of a catalogue: one for each directory in their order, each loaded by its directory's
-- name, and one for each entry of the release.
pub record AreLoaded (release : Option TaskReleaseManifest) (ids : List String) (tasks : List Task)
    : Type 0 where
  pub ordered : map (λ t. t.id) tasks ≡ sort_strings ids
  pub some_task : tasks ≢ []
  pub loaded : All (IsLoadedTask release) tasks
  pub complete : All (λ entry. IsKeyOf tasks (entry.0)) (entries_of release)

-- When loading succeeds, the root directory could be read, and the tasks are, in the order of their
-- names, those of its directories, at least one, each well-formed and joined with its entry of the
-- release, and every entry of the release has its task.
pub load_tasks-AreLoaded :
    (directories : Option (List String)) (document : String → Document TaskDescriptor)
    (release : Option TaskReleaseManifest) (tasks : List Task)
    → load_tasks directories document release ≡ ok tasks
    → (ids : List String) × (directories ≡ some ids) × AreLoaded release ids tasks
unfolding load_tasks
load_tasks-AreLoaded directories document release tasks h =
    let (ids, hd, h₁) = >>=-eq-ok (expect directories unreadable_root) _ h in
    let ((ts, ks), hs, h₂) =
      >>=-eq-ok (load_descriptors release document (sort_strings ids)) _ h₁ in
    let (_, hc, h₃) = >>=-eq-ok (check_seen ks (entries_of release)) _ h₂ in
    let (nonempty, h₄) = refuse-eq-ok (is_empty ts) _ _ h₃ in
    let (ordered, loaded, known) =
      load_descriptors_sound release document (sort_strings ids) ts ks hs in
    let some_task : ts ≢ [] = λ q. ground arith in
    let same : ts ≡ tasks = cc in
    (
      ids,
      expect-eq-ok directories unreadable_root hd,
      subst (λ x. AreLoaded release ids x) same
          (record {
            ordered = ordered;
            some_task = some_task;
            loaded = loaded;
            complete = check_seen_sound ts ks (entries_of release) hc known;
          }),
    )

-- What a released task of a bound catalogue takes from its entry.
pub record IsPublished (m : TaskReleaseManifest) (t : Task) (e : TaskReleaseEntry) : Type 0 where
  pub found : lookup (key_of_task t) m.entries ≡ some e
  pub availability : t.availability ≡ "runnable"
  pub runnable : t.runnable ≡ true
  pub family : t.task_family_key ≡ e.task_family_key
  pub question_release : t.question_release_id ≡ m.question_release_id
  pub capabilities : t.capability_keys ≡ map trim_space e.capability_keys
  pub bindings : Perm t.question_bindings (map trim_binding e.question_bindings)

IsLoadedTask-IsPublished :
    (m : TaskReleaseManifest) (t : Task)
    → IsLoadedTask (some m) t
    → t.status ≡ "released"
    → (e : TaskReleaseEntry) × IsPublished m t e
IsLoadedTask-IsPublished m t (seen, l) released =
    let (o, joined, overlaid) = l.joined in
    let runs : t.runnable ≡ true = l.runnable ∙ ground arith in
    elim joined [
      | inr (_, other, _) ↦ absurd (other released)
      | inl (e, found, from_entry) ↦ (e, published m t e o runs found from_entry overlaid)
    ]
  where
    published :
        (m : TaskReleaseManifest) (t : Task) (e : TaskReleaseEntry) (o : Overlay)
        → t.runnable ≡ true
        → lookup (key_of_task t) m.entries ≡ some e
        → IsOverlaid m (key_of_task t) e o
        → {seen : Option TaskRevisionKey} → IsOverlayOf t seen o
        → IsPublished m t e
    published m t e o runs found (_, a, f, q, c, p) (ta, tf, tq, tb, tc, _) = record {
      found = found;
      availability = ta ∙ a;
      runnable = runs;
      family = tf ∙ f;
      question_release = tq ∙ q;
      capabilities = tc ∙ ap (map trim_space) c;
      bindings =
          subst (λ xs. Perm xs (map trim_binding e.question_bindings)) (sym tb)
            (Perm.map trim_binding p);
    }

-- When the tasks are loaded under a release, each of them whose status is "released" has its entry of
-- the release, is runnable, and takes its family, its question release, its capability keys and, in
-- some order, its question bindings from that entry.
pub load_tasks-IsPublished :
    (directories : Option (List String)) (document : String → Document TaskDescriptor)
    (m : TaskReleaseManifest) (tasks : List Task) (t : Task)
    → load_tasks directories document (some m) ≡ ok tasks
    → Memᴰ t tasks
    → t.status ≡ "released"
    → (e : TaskReleaseEntry) × IsPublished m t e
load_tasks-IsPublished directories document m tasks t h mem =
    let (_, _, loaded) = load_tasks-AreLoaded directories document (some m) tasks h in
    IsLoadedTask-IsPublished m t (All-mem (IsLoadedTask (some m)) loaded.loaded mem)
