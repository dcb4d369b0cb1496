-- ===== src/Families/Binding.antt =====
-- bindTaskFamilies of internal/engine/families.go: the families' manifest and the loaded tasks,
-- joined. A task that is written through a pointer into the slice is put back in its place; its
-- identity does not change, and so the index of the tasks is the one of the tasks as they are.
pub mod Tasks
pub mod Projection
pub mod Laws
use fluent_task_runtime.Base.{
  ℕ, zero, suc, ◌+◌, ◌-◌, ◌*◌, ◌/◌, ◌%◌, ◌≤◌, ◌<◌, Char, code, String, ◌<>◌, ◌≡◌, refl, sym, ap,
  ap₂, ◌∙◌, subst, ◌≢◌, ◌↔◌, ◌⊎◌, inl, inr, Bool, true, false, not, ◌&&◌, ◌||◌, Option, none, some,
  List, [], ◌∷◌, ◌++◌, map, arith, if◌then◌else◌, ltb, leb, Eq, ◌==◌, ==_iff, string_eq, nat_eq,
  Bool-cases, and-eq-true, ne_of_test, Result, ok, err, ◌>>=◌, ◌>>◌, guard, refuse, expect,
  is_found, wrap, >>=-eq-ok, guard-eq-ok, refuse-eq-ok, wrap-eq-ok, expect-eq-ok, Option-cases,
  Result-cases, length, is_empty, all, length-append, All, All-append, All-mem, All-map, All-zip,
  Distinct, contains, contains-mem, mem_of_contains, Memᴰ, Perm, perm_of_Distinct, Distinct-of_map,
  contains-eq-false_iff, Fresh, Fresh-nil, Fresh-cons, Fresh-snoc,
}
use fluent_task_runtime.Numbers.{ℤ}
use fluent_task_runtime.Contracts.{
  QuestionBinding, Task, TaskFamilyRevision, TaskFamily, TaskFamilies,
}
use fluent_task_runtime.Release.{TaskRevisionKey, key_eq}
use fluent_task_runtime.Loading.{key_of_task}
use fluent_task_runtime.Families.{TaskFamilyRevisionEntry, TaskFamilyEntry, TaskFamilyManifest}

pub data BindError : Type 0 where
  missing_task : String → TaskRevisionKey → BindError
  assigned_twice : TaskRevisionKey → BindError
  foreign_family : TaskRevisionKey → String → String → BindError
  disagreeing_descriptor : String → TaskRevisionKey → BindError
  unhashable : TaskRevisionKey → BindError
  hash_mismatch : TaskRevisionKey → String → String → BindError
  no_family : TaskRevisionKey → BindError

-- `byRevision[key]`: the last task with this key, between those before it and those after it.
unfoldable pub place : TaskRevisionKey → List Task → Option (List Task × Task × List Task)
place key [] = none
place key (t ∷ tasks) = elim (place key tasks) [
  | some (before, found, after) ↦ some (t ∷ before, found, after)
  | none ↦ if key_of_task t == key then some ([], t, tasks) else none
]

abbrev pub listed_key : TaskFamilyRevisionEntry → TaskRevisionKey
listed_key r = record { id = r.task_id; revision = r.revision }

-- The checks of a task against the family and the revision that list it.
unfoldable pub check_assignment :
    (String → Option String)
    → TaskFamilyEntry
    → TaskFamilyRevisionEntry
    → Task
    → Result BindError (Unit {0})
check_assignment hash f r t = do
  refuse (not (t.task_family_key == "") && not (t.task_family_key == f.key))
      (foreign_family (listed_key r) t.task_family_key f.key)
  guard (t.language == r.language && t.profile == r.profile)
      (disagreeing_descriptor f.key (listed_key r))
  actual ← expect (hash t.id) (unhashable (listed_key r))
  guard (actual == r.immutable_hash) (hash_mismatch (listed_key r) actual r.immutable_hash)

-- What is written into the task.
abbrev pub bound_task : TaskFamilyEntry → TaskFamilyRevisionEntry → Task → Task
bound_task f r t = record t {
  task_family_key = f.key;
  immutable_hash = r.immutable_hash;
  availability = r.availability;
  runnable = t.runnable && r.availability == "runnable";
}

abbrev pub projected_revision : TaskFamilyEntry → Task → TaskFamilyRevision
projected_revision f t = record {
  task_id = t.id;
  revision = t.revision;
  task_family_key = f.key;
  language = t.language;
  profile = t.profile;
  runtime = t.runtime;
  status = t.status;
  availability = t.availability;
  runnable = t.runnable;
  immutable_hash = t.immutable_hash;
}

abbrev pub binding_key : QuestionBinding → String
binding_key b = b.stable_key <> "|" <> b.revision_id <> "|" <> b.content_hash

-- The loop over a task's bindings: those whose key is new are appended.
unfoldable pub collect_bindings :
    List String → List QuestionBinding → List QuestionBinding → List String × List QuestionBinding
collect_bindings seen collected [] = (seen, collected)
collect_bindings seen collected (b ∷ bindings) =
    if contains seen (binding_key b)
    then collect_bindings seen collected bindings
    else collect_bindings (binding_key b ∷ seen) (collected ++ b ∷ []) bindings

-- What the loop over a family's revisions changes.
pub record Progress : Type 0 where
  pub tasks : List Task
  pub seen : List TaskRevisionKey
  pub binding_seen : List String
  pub question_bindings : List QuestionBinding
  pub revisions : List TaskFamilyRevision

-- The state after a task has been found in its place and has passed the checks.
abbrev pub assign :
    TaskFamilyEntry → TaskFamilyRevisionEntry → Progress → List Task → Task → List Task → Progress
assign f r p before t after =
    let (seen, bindings) =
      collect_bindings p.binding_seen p.question_bindings t.question_bindings in
    record {
      tasks = before ++ bound_task f r t ∷ after;
      seen = listed_key r ∷ p.seen;
      binding_seen = seen;
      question_bindings = bindings;
      revisions = p.revisions ++ projected_revision f (bound_task f r t) ∷ [];
    }

unfoldable pub bind_revision :
    (String → Option String)
    → TaskFamilyEntry
    → Progress
    → TaskFamilyRevisionEntry
    → Result BindError Progress
bind_revision hash f p r = do
  (before, t, after) ← expect (place (listed_key r) p.tasks) (missing_task f.key (listed_key r))
  refuse (contains p.seen (listed_key r)) (assigned_twice (listed_key r))
  check_assignment hash f r t
  ok (assign f r p before t after)

unfoldable pub bind_revisions :
    (String → Option String)
    → TaskFamilyEntry
    → Progress
    → List TaskFamilyRevisionEntry
    → Result BindError Progress
bind_revisions hash f p [] = ok p
bind_revisions hash f p (r ∷ revisions) = do
  next ← bind_revision hash f p r
  bind_revisions hash f next revisions

-- The loop that fills RevisionIDs, which the first runnable revision ends.
unfoldable pub revision_ids : List TaskFamilyRevision → List String
revision_ids [] = []
revision_ids (r ∷ revisions) =
    let rest = revision_ids revisions in r.task_id ∷ (if r.runnable then [] else rest)

-- Whether that loop sets Runnable.
unfoldable pub has_runnable : List TaskFamilyRevision → Bool
has_runnable [] = false
has_runnable (r ∷ revisions) = r.runnable || has_runnable revisions

abbrev pub project : TaskFamilyEntry → Progress → TaskFamily
project f p = record {
  key = f.key;
  title = f.title;
  brief = f.brief;
  capability_keys = f.capability_keys;
  question_bindings = p.question_bindings;
  revision_ids = revision_ids p.revisions;
  rubric_ref = f.rubric_ref;
  status = f.status;
  runnable = has_runnable p.revisions;
  revisions = p.revisions;
}

abbrev pub start : List Task → List TaskRevisionKey → Progress
start tasks seen = record {
  tasks = tasks;
  seen = seen;
  binding_seen = [];
  question_bindings = [];
  revisions = [];
}

-- The loop over the families: the tasks, the keys seen and the projections.
unfoldable pub bind_families :
    (String → Option String)
    → List Task
    → List TaskRevisionKey
    → List TaskFamilyEntry
    → Result BindError (List Task × List TaskRevisionKey × List TaskFamily)
bind_families hash tasks seen [] = ok (tasks, seen, [])
bind_families hash tasks seen (f ∷ families) = do
  p ← bind_revisions hash f (start tasks seen) f.revisions
  (later, all_seen, projections) ← bind_families hash p.tasks p.seen families
  ok (later, all_seen, project f p ∷ projections)

unfoldable pub check_assigned : List TaskRevisionKey → List Task → Result BindError (Unit {0})
check_assigned seen [] = ok tt
check_assigned seen (t ∷ tasks) = do
  refuse (t.status == "released" && not (contains seen (key_of_task t))) (no_family (key_of_task t))
  check_assigned seen tasks

abbrev pub no_families : TaskFamilies
no_families = record { contract_version = ""; release_id = ""; families = [] }

-- `hash` stands for hashTaskRevision below the tasks' root: the hash of a task's directory by the
-- task's name, if the directory can be read.
unfoldable pub bind_task_families :
    (String → Option String)
    → List Task
    → Option TaskFamilyManifest
    → Result BindError (List Task × TaskFamilies)
bind_task_families hash tasks none = ok (tasks, no_families)
bind_task_families hash tasks (some m) = do
  (bound, seen, families) ← bind_families hash tasks [] m.families
  check_assigned seen bound
  ok (
    bound,
    record {
      contract_version = "fluent-task-runtime.task-families.v1";
      release_id = m.release_id;
      families = families;
    },
  )
