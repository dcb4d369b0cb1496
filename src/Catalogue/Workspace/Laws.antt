-- ===== src/Catalogue/Workspace/Laws.antt =====
-- What Catalogue.TaskWorkspace of internal/engine/catalogue.go hands to a learner.
use fluent_task_runtime.Base.{
  ℕ, ◌+◌, ◌≤◌, String, ◌≡◌, refl, ap, subst, inl, inr, true, ◌&&◌, Option, none, some, List, [],
  ◌∷◌, arith, ltb, ◌==◌, string_eq, nat_eq, Bool-cases, ok, expect, >>=-eq-ok, guard-eq-ok,
  refuse-eq-ok, expect-eq-ok, length, All,
}
use fluent_task_runtime.Base.Dict.{insert, insert-All}
use fluent_task_runtime.Numbers.{ℤ}
use fluent_task_runtime.Contracts.{Task, TaskWorkspace}
use fluent_task_runtime.Execution.{safe_relative_path, read_bounded}
use fluent_task_runtime.Execution.Capture.{read_bounded_lem}
use fluent_task_runtime.Catalogue.{Catalogue, find_task, task, release_bound}
use fluent_task_runtime.Catalogue.Queries.{find_task_sound}
use fluent_task_runtime.Catalogue.Workspace.{
  PathState, no_info, irregular, regular, StarterEntry, walk_failed, directory, symlink, file,
  WorkspaceFiles, workspace_brief_limit, workspace_file_limit, workspace_total_limit,
  read_workspace_bounded, safe_starter, collect_starter, workspace_of_task, task_workspace,
}

-- The bytes of the files that the walk hands over.
abbrev body_of : PathState → List ℕ
body_of no_info = []
body_of irregular = []
body_of (regular none) = []
body_of (regular (some bytes)) = bytes

abbrev pub starter_bytes : List StarterEntry → ℕ
starter_bytes [] = 0
starter_bytes (file relative state ∷ entries) = length (body_of state) + starter_bytes entries
starter_bytes (_ ∷ entries) = starter_bytes entries

-- The file system has a regular file of that content, within the limit.
abbrev IsHeld : (List ℕ → String) → ℕ → String → Type 0
IsHeld text_of limit content = (bytes : List ℕ) × (content ≡ text_of bytes) × (length bytes ≤ limit)

abbrev IsStarterFile : (List ℕ → String) → String × String → Type 0
IsStarterFile text_of (path, content) =
    (safe_relative_path path ≡ true) × IsHeld text_of workspace_file_limit content

-- A workspace of the catalogue's task: released, with a brief and starter files within the limits.
pub record IsWorkspace (w : WorkspaceFiles) (c : Catalogue) (id : String) (revision : ℤ)
    (out : TaskWorkspace) : Type 0 where
  pub bound : release_bound c ≡ true
  pub task : Task
  pub found : find_task c.tasks.tasks id revision ≡ some task
  pub released : task.status ≡ "released"
  pub runnable : task.availability ≡ "runnable"
  pub named : (out.task_id ≡ id) × (out.revision ≡ revision)
  pub editable : out.editable_files ≡ task.editable_files
  pub counted : out.declared_test_count ≡ length task.declared_tests
  pub brief : IsHeld w.text_of workspace_brief_limit out.brief
  pub starter : All (IsStarterFile w.text_of) out.starter_files
  pub small : starter_bytes (w.starter c.tasks_root task.id) ≤ workspace_total_limit

read_bounded-none : (limit : ℕ) → read_bounded none limit ≡ none
unfolding read_bounded
read_bounded-none limit = refl

read_bounded-some :
    (state : PathState) (limit : ℕ) (bytes : List ℕ)
    → read_workspace_bounded state limit ≡ some bytes
    → (body_of state ≡ bytes) × (length bytes ≤ limit)
read_bounded-some no_info limit bytes h = cc
read_bounded-some irregular limit bytes h = cc
read_bounded-some (regular none) limit bytes h = let nothing = read_bounded-none limit in cc
read_bounded-some (regular (some content)) limit bytes h = elim (read_bounded_lem content limit) [
  | inl (small, e) ↦
      let same : content ≡ bytes = cc in (same, subst (λ b. length b ≤ limit) same small)
  | inr (large, e) ↦ cc
]

safe_starter-some :
    (relative : Option String) (path : String)
    → safe_starter relative ≡ some path
    → safe_relative_path path ≡ true
safe_starter-some none path h = cc
safe_starter-some (some p) path h = elim (Bool-cases (safe_relative_path p)) [
  | inl e ↦
      let same : p ≡ path = ground (arith, e) in subst (λ q. safe_relative_path q ≡ true) same e
  | inr e ↦ absurd (ground (arith, e))
]

module _ (text_of : List ℕ → String) where
  collect_starter_sound :
      (total : ℕ) (files : List (String × String)) (entries : List StarterEntry)
      (out : List (String × String))
      → collect_starter text_of total files entries ≡ ok out
      → All (IsStarterFile text_of) files
      → total ≤ workspace_total_limit
      → All (IsStarterFile text_of) out × (total + starter_bytes entries ≤ workspace_total_limit)
  unfolding collect_starter
  collect_starter_sound total files [] out h held below =
      let same : files ≡ out = cc in
      (subst (λ f. All (IsStarterFile text_of) f) same held, omega arith)
  collect_starter_sound total files (walk_failed ∷ entries) out h held below = cc
  collect_starter_sound total files (directory ∷ entries) out h held below =
      collect_starter_sound total files entries out h held below
  collect_starter_sound total files (symlink ∷ entries) out h held below = cc
  collect_starter_sound total files (file relative state ∷ entries) out h held below =
      let (path, hp, h₁) = >>=-eq-ok (expect (safe_starter relative) _) _ h in
      let safe = safe_starter-some relative path (expect-eq-ok (safe_starter relative) _ hp) in
      let (body, hb, h₂) =
        >>=-eq-ok (expect (read_workspace_bounded state workspace_file_limit) _) _ h₁ in
      let (read, small) =
        read_bounded-some state workspace_file_limit body
          (expect-eq-ok (read_workspace_bounded state workspace_file_limit) _ hb) in
      let (within, h₃) = refuse-eq-ok (ltb workspace_total_limit (total + length body)) _ _ h₂ in
      let (later, bounded) =
        collect_starter_sound (total + length body) (insert path (text_of body) files) entries out
          h₃
          (insert-All (IsStarterFile text_of) path (text_of body) files (safe, (body, refl, small))
            held)
          (ground (arith, within)) in
      let size : length (body_of state) ≡ length body = ap (λ b. length b) read in
      (later, omega (arith, bounded, size))

pub task_workspace-IsWorkspace :
    (w : WorkspaceFiles) (c : Catalogue) (id : String) (revision : ℤ) (out : TaskWorkspace)
    → task_workspace w c id revision ≡ ok out
    → IsWorkspace w c id revision out
unfolding task_workspace
task_workspace-IsWorkspace w c id revision out h =
    let (bound, h₁) = guard-eq-ok (release_bound c) _ _ h in
    let (t, ht, h₂) = >>=-eq-ok (expect (task c id revision) _) _ h₁ in
    let found = expect-eq-ok (task c id revision) _ ht in
    let (_, same_id, same_revision) = find_task_sound c.tasks.tasks id revision t found in
    let (released, h₃) =
      guard-eq-ok (t.status == "released" && t.availability == "runnable") _ _ h₂ in
    let (brief, hb, h₄) =
      >>=-eq-ok
        (expect (read_workspace_bounded (w.brief c.tasks_root t.id) workspace_brief_limit) _) _
        h₃ in
    let (_, small) = read_bounded-some (w.brief c.tasks_root t.id) workspace_brief_limit brief (
      expect-eq-ok (read_workspace_bounded (w.brief c.tasks_root t.id) workspace_brief_limit) _
        hb) in
    let (starter, hs, h₅) =
      >>=-eq-ok (collect_starter w.text_of 0 [] (w.starter c.tasks_root t.id)) _ h₄ in
    let (held, bounded) =
      collect_starter_sound w.text_of 0 [] (w.starter c.tasks_root t.id) starter hs tt
        (omega arith) in
    let same : workspace_of_task t (w.text_of brief) starter ≡ out = cc in
    subst (λ o. IsWorkspace w c id revision o) same
      (record {
        bound = bound;
        task = t;
        found = found;
        released = ground (arith, released);
        runnable = ground (arith, released);
        named = (same_id, same_revision);
        editable = refl;
        counted = refl;
        brief = (brief, refl, small);
        starter = held;
        small = omega (arith, bounded);
      })
