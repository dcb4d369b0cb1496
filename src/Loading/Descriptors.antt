-- ===== src/Loading/Descriptors.antt =====
-- What one round of loadTasks, internal/engine/catalogue.go, establishes of a task.
use fluent_task_runtime.Base.{
  String, ◌≡◌, refl, subst, ◌≢◌, ◌⊎◌, inl, inr, true, false, ◌&&◌, Option, none, some, List, map,
  arith, ◌==◌, string_eq, nat_eq, Bool-cases, ok, wrap, >>=-eq-ok, wrap-eq-ok, Option-cases,
  Distinct, Perm, Distinct-of_map,
}
use fluent_task_runtime.Base.Dict.{lookup}
use fluent_task_runtime.Text.{trim_space}
use fluent_task_runtime.Numbers.{
  ℤ, pos, negsuc, lt_int, one_le_of_lt_int, Float64, is_positive, ◌≤ℤ◌,
}
use fluent_task_runtime.Documents.{Document, unreadable, malformed, decoded}
use fluent_task_runtime.Contracts.{QuestionBinding, Task}
use fluent_task_runtime.Bindings.{trim_binding, merge_release_entry, validate_question_binding}
use fluent_task_runtime.Bindings.Laws.{IsAcceptable, IsValidBindings, validate_question_binding_iff}
use fluent_task_runtime.Bindings.Merging.{merge_release_entry_sound, merge_release_entry-own}
use fluent_task_runtime.Release.{TaskRevisionKey, TaskReleaseEntry, TaskReleaseManifest, key_eq}
use fluent_task_runtime.Loading.{
  TaskDescriptor, merge_failed, invalid_binding, check_descriptor, status_of, Overlay,
  descriptor_key, overlay_entry, overlay, key_of_task, is_bound, validation_status, task_of,
  load_task,
}

-- What the release manifest's entry gives to a task: its family, its availability, the manifest's
-- question release, and the entry's bindings in some order.
abbrev pub IsOverlaid : TaskReleaseManifest → TaskRevisionKey → TaskReleaseEntry → Overlay → Type 0
IsOverlaid m key e o =
    (o.seen ≡ some key)
    × (o.availability ≡ "runnable")
    × (o.task_family_key ≡ e.task_family_key)
    × (o.question_release_id ≡ m.question_release_id)
    × (o.capability_keys ≡ e.capability_keys)
    × Perm o.question_bindings e.question_bindings

abbrev pub IsUnreleased : Overlay → Type 0
IsUnreleased o = (o.seen ≡ none) × (o.availability ≡ "unreleased") × (o.task_family_key ≡ "")

-- How the release, if there is one, bears on a task of this identity and status.
abbrev pub IsJoined : Option TaskReleaseManifest → TaskRevisionKey → String → Overlay → Type 0
IsJoined none key status o = IsUnreleased o
IsJoined (some m) key status o =
    ((e : TaskReleaseEntry) × (lookup key m.entries ≡ some e) × IsOverlaid m key e o)
    ⊎ ((lookup key m.entries ≡ none) × (status ≢ "released") × IsUnreleased o)

overlay_entry_sound :
    (id : String) (d : TaskDescriptor) (m : TaskReleaseManifest) (e : TaskReleaseEntry)
    (o : Overlay)
    → overlay_entry id d m e ≡ ok o
    → Distinct o.question_bindings
    → IsOverlaid m (descriptor_key id d) e o
unfolding overlay_entry
overlay_entry_sound id d m e o h distinct =
    let ((r, bs, cs), hm, h₁) =
      >>=-eq-ok
        (wrap (merge_failed id) (
          merge_release_entry d.question_release_id d.question_bindings m.question_release_id
            e.question_bindings e.capability_keys))
        _ h in
    let merged = wrap-eq-ok (merge_failed id) _ hm in
    let same_bindings : bs ≡ o.question_bindings = cc in
    let own : Distinct d.question_bindings =
      elim (merge_release_entry-own d.question_release_id m.question_release_id r
        d.question_bindings e.question_bindings bs e.capability_keys cs merged) [
          | inl nil ↦ rw nil tt
          | inr same ↦ rw (same, same_bindings) distinct
        ] in
    let (same_release, same_keys, order, _) =
      merge_release_entry_sound d.question_release_id m.question_release_id r d.question_bindings
        e.question_bindings bs e.capability_keys cs own merged in
    (cc, cc, cc, cc, cc, subst (λ xs. Perm xs e.question_bindings) same_bindings order)

overlay_sound :
    (id : String) (d : TaskDescriptor) (status : String) (release : Option TaskReleaseManifest)
    (o : Overlay)
    → overlay id d status release ≡ ok o
    → Distinct o.question_bindings
    → IsJoined release (descriptor_key id d) status o
unfolding overlay
overlay_sound id d status none o h distinct = (cc, cc, cc)
overlay_sound id d status (some m) o h distinct =
    elim (Option-cases (lookup (descriptor_key id d) m.entries)) [
      | inr (e, found) ↦
          inl (e, found, overlay_entry_sound id d m e o (rw (found, overlay) at h) distinct)
      | inl missing ↦ elim (Bool-cases (status == "released")) [
        | inl released ↦ absurd (ground arith)
        | inr other ↦ inr (missing, (λ p. ground arith), (ground arith, ground arith, ground arith))
      ]
    ]

pos_of_lt_int : (n : ℤ) → lt_int (pos 0) n ≡ true → pos 1 ≤ℤ n
unfolding lt_int
pos_of_lt_int (pos n) h = ground arith
pos_of_lt_int (negsuc n) h = cc

-- The limits that a sandbox needs.
pub record HasLimits (timeout_ms memory_mb : ℤ) (cpus : Float64) : Type 0 where
  pub timeout : pos 1 ≤ℤ timeout_ms
  pub memory : pos 1 ≤ℤ memory_mb
  pub cpu : is_positive cpus ≡ true

check_descriptor_sound :
    (id : String) (d : TaskDescriptor) {u : Unit {0}}
    → check_descriptor id d ≡ ok u
    → (d.task_id ≡ id)
      × (pos 1 ≤ℤ d.revision)
      × (d.has_question_keys ≡ false)
      × HasLimits d.timeout_ms d.memory_mb d.cpus
unfolding check_descriptor
check_descriptor_sound id d h =
    let named : d.task_id ≡ id = ground arith in
    let revision : lt_int d.revision (pos 1) ≡ false = ground arith in
    let current : d.has_question_keys ≡ false = ground arith in
    let timeout : lt_int (pos 0) d.timeout_ms ≡ true = ground arith in
    let memory : lt_int (pos 0) d.memory_mb ≡ true = ground arith in
    let cpu : is_positive d.cpus ≡ true = ground arith in
    (
      named,
      one_le_of_lt_int d.revision revision,
      current,
      record {
        timeout = pos_of_lt_int d.timeout_ms timeout;
        memory = pos_of_lt_int d.memory_mb memory;
        cpu = cpu;
      },
    )

status_of_cases : (d : TaskDescriptor) → (status_of d ≡ "released") ⊎ (status_of d ≡ "declared")
unfolding status_of
status_of_cases d = ground arith

-- A task whose release data are those of the overlay, trimmed.
abbrev pub IsOverlayOf : Task → Option TaskRevisionKey → Overlay → Type 0
IsOverlayOf t seen o =
    (t.availability ≡ o.availability)
    × (t.task_family_key ≡ o.task_family_key)
    × (t.question_release_id ≡ o.question_release_id)
    × (t.question_bindings ≡ map trim_binding o.question_bindings)
    × (t.capability_keys ≡ map trim_space o.capability_keys)
    × (o.seen ≡ seen)

-- A task that a round has loaded, and what it has marked as seen.
pub record IsLoaded (release : Option TaskReleaseManifest) (id : String) (t : Task)
    (seen : Option TaskRevisionKey) : Type 0 where
  pub named : t.id ≡ id
  pub positive : pos 1 ≤ℤ t.revision
  pub limits : HasLimits t.timeout_ms t.memory_mb t.cpus
  pub status : (t.status ≡ "released") ⊎ (t.status ≡ "declared")
  pub runnable : t.runnable ≡ (is_bound release && t.status == "released")
  pub sandboxed : (t.network ≡ "none") × (t.hidden_tests ≡ true)
  pub joined : (o : Overlay) × IsJoined release (key_of_task t) t.status o × IsOverlayOf t seen o
  pub acceptable :
      IsAcceptable t.question_bindings t.capability_keys t.question_release_id
        (validation_status t.status release)

load_task_decoded :
    (release : Option TaskReleaseManifest) (id : String) (d : TaskDescriptor) (t : Task)
    (seen : Option TaskRevisionKey)
    → load_task release id (decoded d) ≡ ok (t, seen)
    → IsLoaded release id t seen
unfolding load_task
load_task_decoded release id d t seen h =
    let (_, hc, h₁) = >>=-eq-ok (check_descriptor id d) _ h in
    let (_, revision, _, limits) = check_descriptor_sound id d hc in
    let (o, ho, h₂) = >>=-eq-ok (overlay id d (status_of d) release) _ h₁ in
    let ((bs, cs), hv, h₃) =
      >>=-eq-ok
        (wrap (invalid_binding id) (
          validate_question_binding o.question_bindings o.capability_keys o.question_release_id
            (validation_status (status_of d) release)))
        _ h₂ in
    let (image, key_image, acceptable) =
      (validate_question_binding_iff o.question_bindings bs o.capability_keys cs
          o.question_release_id (validation_status (status_of d) release)).0
        (wrap-eq-ok (invalid_binding id) _ hv) in
    let distinct : Distinct o.question_bindings =
      distinct_of_valid o.question_bindings (rw image at acceptable.valid_bindings) in
    let whole : IsLoaded release id (task_of id d (status_of d) (is_bound release) o bs cs) o.seen =
      record {
        named = refl;
        positive = revision;
        limits = limits;
        status = status_of_cases d;
        runnable = refl;
        sandboxed = (refl, refl);
        joined = (
          o,
          overlay_sound id d (status_of d) release o ho distinct,
          (refl, refl, refl, image, key_image, refl),
        );
        acceptable = acceptable;
      } in
    let same_task : task_of id d (status_of d) (is_bound release) o bs cs ≡ t = cc in
    let same_seen : o.seen ≡ seen = cc in
    subst (λ x. IsLoaded release id x seen) same_task
      (subst (λ k. IsLoaded release id (task_of id d (status_of d) (is_bound release) o bs cs) k)
        same_seen whole)
  where
    distinct_of_valid :
        (bs : List QuestionBinding) → IsValidBindings (map trim_binding bs) → Distinct bs
    distinct_of_valid bs v =
        Distinct-of_map trim_binding bs
          (Distinct-of_map (λ b. b.stable_key) (map trim_binding bs) v.keys_distinct)

-- A round that succeeds has loaded the task that the directory names.
pub load_task-IsLoaded :
    (release : Option TaskReleaseManifest) (id : String) (document : Document TaskDescriptor)
    (t : Task) (seen : Option TaskRevisionKey)
    → load_task release id document ≡ ok (t, seen)
    → IsLoaded release id t seen
unfolding load_task
load_task-IsLoaded release id unreadable t seen h = cc
load_task-IsLoaded release id malformed t seen h = cc
load_task-IsLoaded release id (decoded d) t seen h = load_task_decoded release id d t seen h
