-- ===== src/Catalogue/Workspace.antt =====
-- Catalogue.TaskWorkspace of internal/engine/catalogue.go: what a learner sees of a task. What the
-- file system delivers is a WorkspaceFiles: of each task directory its brief, and what
-- filepath.WalkDir hands over for its starter directory.
pub mod Laws
use fluent_task_runtime.Base.{
  ℕ, zero, suc, ◌+◌, ◌-◌, ◌*◌, ◌/◌, ◌%◌, ◌≤◌, ◌<◌, Char, code, String, ◌<>◌, ◌≡◌, refl, sym, ap,
  ap₂, ◌∙◌, subst, ◌≢◌, ◌↔◌, ◌⊎◌, inl, inr, Bool, true, false, not, ◌&&◌, ◌||◌, Option, none, some,
  List, [], ◌∷◌, ◌++◌, map, arith, if◌then◌else◌, ltb, leb, Eq, ◌==◌, ==_iff, string_eq, nat_eq,
  Bool-cases, and-eq-true, ne_of_test, Result, ok, ok_unique, err, ◌>>=◌, ◌>>◌, guard, refuse,
  expect, is_found, wrap, >>=-eq-ok, guard-eq-ok, refuse-eq-ok, wrap-eq-ok, expect-eq-ok,
  Option-cases, Result-cases, Refused, Refused-bind, Refused-guard, Refused-refuse, Refused-expect,
  Refused-wrap, Refused-err, length, is_empty, all, length-append, All, All-append, All-mem,
  All-map, All-zip, Distinct, contains, contains-mem, mem_of_contains, Memᴰ, Perm, perm_of_Distinct,
  Distinct-of_map, contains-eq-false_iff, Fresh, Fresh-nil, Fresh-cons, Fresh-snoc,
}
use fluent_task_runtime.Base.Dict.{insert}
use fluent_task_runtime.Numbers.{ℤ, pos}
use fluent_task_runtime.Contracts.{Task, TaskWorkspace}
use fluent_task_runtime.Execution.{safe_relative_path, read_bounded}
use fluent_task_runtime.Catalogue.{Catalogue, task, release_bound}

-- A path: os.Lstat fails, it is no regular file, or it is one, which can be read or not.
pub data PathState : Type 0 where
  no_info irregular : PathState
  regular : Option (List ℕ) → PathState

-- A call of the walk's function; a file comes with its path relative to the directory, if it has one.
pub data StarterEntry : Type 0 where
  walk_failed directory symlink : StarterEntry
  file : Option String → PathState → StarterEntry

pub record WorkspaceFiles : Type 0 where
  pub brief : String → String → PathState
  pub starter : String → String → List StarterEntry
  pub text_of : List ℕ → String

pub data WorkspaceError : Type 0 where
  release_required not_in_catalogue not_released no_brief walk_error starter_symlink unsafe_starter
        unreadable_starter too_large :
      WorkspaceError

abbrev pub workspace_brief_limit : ℕ
workspace_brief_limit = 262144

abbrev pub workspace_file_limit : ℕ
workspace_file_limit = 262144

abbrev pub workspace_total_limit : ℕ
workspace_total_limit = 2097152

-- readWorkspaceBounded
abbrev pub read_workspace_bounded : PathState → ℕ → Option (List ℕ)
read_workspace_bounded no_info limit = none
read_workspace_bounded irregular limit = none
read_workspace_bounded (regular content) limit = read_bounded content limit

-- The path, if there is one and it is safe.
abbrev pub safe_starter : Option String → Option String
safe_starter none = none
safe_starter (some path) = if safe_relative_path path then some path else none

-- The walk's function, over its calls, with the bytes and the files so far.
unfoldable pub collect_starter :
    (List ℕ → String)
    → ℕ
    → List (String × String)
    → List StarterEntry
    → Result WorkspaceError (List (String × String))
collect_starter text_of total files [] = ok files
collect_starter text_of total files (walk_failed ∷ entries) = err walk_error
collect_starter text_of total files (directory ∷ entries) =
    collect_starter text_of total files entries
collect_starter text_of total files (symlink ∷ entries) = err starter_symlink
collect_starter text_of total files (file relative state ∷ entries) = do
  path ← expect (safe_starter relative) unsafe_starter
  body ← expect (read_workspace_bounded state workspace_file_limit) unreadable_starter
  refuse (ltb workspace_total_limit (total + length body)) too_large
  collect_starter text_of (total + length body) (insert path (text_of body) files) entries

abbrev pub workspace_of_task : Task → String → List (String × String) → TaskWorkspace
workspace_of_task t brief starter_files = record {
  contract_version = "fluent-task-runtime.task-workspace.v1";
  task_id = t.id;
  revision = t.revision;
  status = t.status;
  language = t.language;
  profile = t.profile;
  runtime = t.runtime;
  brief = brief;
  declared_test_count = length t.declared_tests;
  editable_files = t.editable_files;
  starter_files = starter_files;
}

-- TaskWorkspace
unfoldable pub task_workspace :
    WorkspaceFiles → Catalogue → String → ℤ → Result WorkspaceError TaskWorkspace
task_workspace w c id revision = do
  guard (release_bound c) release_required
  t ← expect (task c id revision) not_in_catalogue
  guard (t.status == "released" && t.availability == "runnable") not_released
  brief ← expect (read_workspace_bounded (w.brief c.tasks_root t.id) workspace_brief_limit) no_brief
  starter ← collect_starter w.text_of 0 [] (w.starter c.tasks_root t.id)
  ok (workspace_of_task t (w.text_of brief) starter)
