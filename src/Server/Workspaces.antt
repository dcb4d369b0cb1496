-- ===== src/Server/Workspaces.antt =====
-- How GET /v1/tasks/{taskId}/workspace of internal/httpapi/server.go is answered.
use Prim.Native.Nat.{◌^◌}
use fluent_task_runtime.Base.{
  ℕ, ◌≤◌, ◌<◌, String, ◌≡◌, ap, subst, ◌≢◌, inl, inr, true, false, Option, none, some, arith, ltb,
  ◌==◌, string_eq, nat_eq, Bool-cases, ok, expect, wrap, >>=-eq-ok, guard-eq-ok, refuse-eq-ok,
  wrap-eq-ok, expect-eq-ok,
}
use fluent_task_runtime.Text.{trim_space}
use fluent_task_runtime.Text.Decimal.{decimal, atoi}
use fluent_task_runtime.Text.Atoi.{atoi-decimal}
use fluent_task_runtime.Text.Trimming.{trim_space-decimal, decimal_some}
use fluent_task_runtime.Numbers.{ℤ, pos, lt_int, ◌≤ℤ◌, one_le_of_lt_int}
use fluent_task_runtime.Contracts.{Task, TaskWorkspace}
use fluent_task_runtime.Catalogue.{task, find_task, release_bound}
use fluent_task_runtime.Catalogue.Queries.{find_task_sound}
use fluent_task_runtime.Catalogue.Workspace.{task_workspace}
use fluent_task_runtime.Catalogue.Workspace.Laws.{IsWorkspace, task_workspace-IsWorkspace}
use fluent_task_runtime.Server.{Server}
use fluent_task_runtime.Server.Handlers.{
  is_withheld, positive_revision, unavailable, open_workspace,
}

-- A task that the server hands out a workspace of, and its path and query.
pub record IsOffered (s : Server) (path_value : String) (n : ℕ) (t : Task) : Type 0 where
  pub bound : release_bound s.catalogue ≡ true
  pub named : trim_space path_value ≢ ""
  pub found : find_task s.catalogue.tasks.tasks (trim_space path_value) (pos n) ≡ some t
  pub offered : is_withheld t ≡ false

positive_revision-eq-some :
    (r : Option ℤ) (revision : ℤ)
    → positive_revision r ≡ some revision
    → (r ≡ some revision) × (pos 1 ≤ℤ revision)
positive_revision-eq-some none revision h = cc
positive_revision-eq-some (some r) revision h = elim (Bool-cases (lt_int r (pos 1))) [
  | inl e ↦ absurd (ground (arith, e, h))
  | inr e ↦
      let same : r ≡ revision = ground (arith, e, h) in
      (ap some same, subst (λ x. pos 1 ≤ℤ x) same (one_le_of_lt_int r e))
]

-- A deep link with the revision in decimal notation opens the workspace of exactly that revision: for
-- a task that is offered, the handler returns what TaskWorkspace returns, and its one error.
pub open_workspace-decimal :
    (s : Server) (path_value : String) (n : ℕ) (t : Task)
    → 1 ≤ n
    → n < 2 ^ 63
    → IsOffered s path_value n t
    → open_workspace s path_value (decimal n)
      ≡ wrap unavailable (task_workspace s.files s.catalogue t.id (pos n))
unfolding open_workspace lt_int
open_workspace-decimal s path_value n t positive small h =
    let (_, _, same_revision) =
      find_task_sound s.catalogue.tasks.tasks (trim_space path_value) (pos n) t h.found in
    let query = trim_space-decimal n in
    let read = atoi-decimal n small in
    let above : ltb n 1 ≡ false = ground (arith, positive) in
    let some_query = decimal_some n small in
    let written : (decimal n == "") ≡ false = ground (arith, some_query) in
    let some_id = h.named in
    let named : (trim_space path_value == "") ≡ false = ground (arith, some_id) in
    rw (query, named, h.bound, written, read, above, h.found, h.offered)
      (ap (λ r. wrap unavailable (task_workspace s.files s.catalogue t.id r)) same_revision)

-- What the handler returns with status 200 is a workspace of the task and the positive revision that
-- the request names.
pub open_workspace-IsWorkspace :
    (s : Server) (path_value query : String) (out : TaskWorkspace)
    → open_workspace s path_value query ≡ ok out
    → (revision : ℤ) × (atoi (trim_space query) ≡ some revision)
      × (pos 1 ≤ℤ revision)
      × IsWorkspace s.files s.catalogue (trim_space path_value) revision out
unfolding open_workspace
open_workspace-IsWorkspace s path_value query out h =
    let id = trim_space path_value in
    let (_, h₁) = refuse-eq-ok (trim_space path_value == "") _ _ h in
    let (_, h₂) = guard-eq-ok (release_bound s.catalogue) _ _ h₁ in
    let (_, h₃) = refuse-eq-ok (trim_space query == "") _ _ h₂ in
    let (revision, hr, h₄) =
      >>=-eq-ok (expect (positive_revision (atoi (trim_space query))) _) _ h₃ in
    let (read, positive) =
      positive_revision-eq-some (atoi (trim_space query)) revision
        (expect-eq-ok (positive_revision (atoi (trim_space query))) _ hr) in
    let (t, ht, h₅) =
      >>=-eq-ok (expect (task s.catalogue (trim_space path_value) revision) _) _ h₄ in
    let found = expect-eq-ok (task s.catalogue (trim_space path_value) revision) _ ht in
    let (_, same_id, same_revision) =
      find_task_sound s.catalogue.tasks.tasks (trim_space path_value) revision t found in
    let (_, h₆) = refuse-eq-ok (is_withheld t) _ _ h₅ in
    let opened = wrap-eq-ok unavailable (task_workspace s.files s.catalogue t.id t.revision) h₆ in
    (
      revision,
      read,
      positive,
      subst (λ i. IsWorkspace s.files s.catalogue i revision out) same_id
          (subst (λ r. IsWorkspace s.files s.catalogue t.id r out) same_revision
            (task_workspace-IsWorkspace s.files s.catalogue t.id t.revision out opened)),
    )
