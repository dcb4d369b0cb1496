-- ===== src/Server/Handlers.antt =====
-- The handlers of internal/httpapi/server.go.
use fluent_task_runtime.Base.{
  ℕ, code, String, ◌<>◌, Bool, true, false, not, ◌||◌, Option, none, some, List, [], ◌∷◌,
  if◌then◌else◌, ◌==◌, string_eq, nat_eq, Result, ok, err, ◌>>=◌, ◌>>◌, guard, refuse, expect, wrap,
}
use fluent_task_runtime.Text.{trim_space, is_blank}
use fluent_task_runtime.Text.Decimal.{decimal, atoi}
use fluent_task_runtime.Numbers.{ℤ, pos, lt_int}
use fluent_task_runtime.Documents.{Document, unreadable, malformed, decoded}
use fluent_task_runtime.Contracts.{Task, TaskFamilyResponse, TaskWorkspace, RunRequest, Health}
use fluent_task_runtime.Catalogue.{Catalogue, task, task_family, release_bound, release_summary}
use fluent_task_runtime.Catalogue.Workspace.{WorkspaceError, task_workspace}
use fluent_task_runtime.Execution.Running.{ExecutionError}
use fluent_task_runtime.Server.{
  said, told, RuntimeError, Body, text, health, profiles, tasks, summary, families, family,
  workspace, response, failure, Operation, set_header, write, Execution, responded, refused, failed,
  crashed, Server, Route, to_live, to_ready, to_metrics, to_profiles, to_tasks, to_summary,
  to_families, to_family, to_workspace, to_runs, bump, Counters, Reply, answered, write_json,
}
use fluent_task_runtime.Server.Identity.{build_identity, fallback}

abbrev workspace_contract : String
workspace_contract = "fluent-task-runtime.task-workspace.v1"

abbrev family_contract : String
family_contract = "fluent-task-runtime.task-families.v1"

abbrev pub run_contract : String
run_contract = "fluent-task-runtime.run.v1"

-- An error's status and what is written.
abbrev pub Failure : Type 0
Failure = ℕ × RuntimeError

abbrev pub failure_with : String → ℕ → String → String → Failure
failure_with contract status code message = (
  status,
  record { contract_version = contract; code = code; message = said message; retryable = false },
)

abbrev pub reply_with {ℓ} : {A : Type ℓ} → (A → Body) → Result Failure A → List Operation
reply_with body (ok a) = write_json 200 (body a)
reply_with body (err (status, e)) = write_json status (failure e)

abbrev health_of : Server → String → String → Bool → List (String × String) → Health
health_of s release state ready dependencies =
    let identity = build_identity s.getenv release in
    record {
      contract_version = "fluent-task-runtime.health.v1";
      service = "fluent-task-runtime";
      state = state;
      ready = ready;
      dependencies = dependencies;
      checked_at = s.now;
      source_revision = identity.source_revision;
      release_id = identity.release_id;
      environment = identity.environment;
    }

abbrev pub live : Server → List Operation
live s = write_json 200 (health (health_of s "" "alive" true []))

abbrev sandbox_state : Option String → String
sandbox_state none = "not-configured"
sandbox_state (some state) = state

abbrev pub ready : Server → List Operation
ready s =
    let release = release_summary s.catalogue in
    let dependencies =
      ("catalogue", "ready")
      ∷ ("sandbox", sandbox_state s.executor.readiness)
      ∷ ("questionBindings", release.binding_state)
      ∷ ("questionRelease", fallback release.question_release_id "descriptor-compatibility-only")
      ∷ [] in
    write_json (if release.runnable then 200 else 503) (
      health (
        health_of s release.runtime_release_id (if release.runnable then "ready" else "degraded")
          release.runnable dependencies))

unfoldable pub find_family : Server → String → Result Failure TaskFamilyResponse
find_family s value = do
  let key = trim_space value
  refuse (key == "") (failure_with family_contract 400 "invalid_request" "familyKey is required")
  f ← expect (task_family s.catalogue key) (
      failure_with family_contract 404 "unknown_task_family"
        "task family is not in the runtime release")
  ok (record {
    contract_version = family_contract;
    release_id = s.catalogue.families.release_id;
    family = f;
  })

-- `err != nil || revision < 1`
abbrev pub positive_revision : Option ℤ → Option ℤ
positive_revision none = none
positive_revision (some revision) = if lt_int revision (pos 1) then none else some revision

-- `task.Status != "released" || !task.Runnable || task.Availability != "runnable"`
abbrev pub is_withheld : Task → Bool
is_withheld t = not (t.status == "released") || not t.runnable || not (t.availability == "runnable")

abbrev pub unavailable : WorkspaceError → Failure
unavailable e =
    failure_with workspace_contract 500 "workspace_unavailable"
      "learner workspace could not be loaded"

unfoldable pub open_workspace : Server → String → String → Result Failure TaskWorkspace
open_workspace s path_value query = do
  let id = trim_space path_value
  let revision_text = trim_space query
  refuse (id == "") (failure_with workspace_contract 400 "invalid_request" "taskId is required")
  guard (release_bound s.catalogue) (
      failure_with workspace_contract 503 "runtime_not_ready"
        "task workspace requires an explicit runtime release manifest")
  refuse (revision_text == "") (
      failure_with workspace_contract 400 "revision_required"
        "an explicit task revision is required")
  revision ←
      expect (positive_revision (atoi revision_text)) (
        failure_with workspace_contract 400 "invalid_request" "revision must be a positive integer")
  t ← expect (task s.catalogue id revision) (
      failure_with workspace_contract 404 "unknown_task"
        "task revision is not in the runtime catalogue")
  refuse (is_withheld t) (
      failure_with workspace_contract 501 "runtime_not_ready"
        "task workspace is not released for this revision")
  wrap unavailable (task_workspace s.files s.catalogue t.id t.revision)

-- The request of a run, when it is passed on to the executor.
unfoldable pub accept : Catalogue → Document RunRequest → Result Failure RunRequest
accept c unreadable =
    err (failure_with run_contract 400 "invalid_request" "run request must be valid JSON")
accept c malformed =
    err (failure_with run_contract 400 "invalid_request" "run request must be valid JSON")
accept c (decoded request) = do
  refuse (is_blank request.task_id || lt_int request.task_revision (pos 1)) (
      failure_with run_contract 400 "invalid_request"
        "taskId and positive taskRevision are required")
  guard (release_bound c) (
      failure_with run_contract 503 "question_release_not_bound"
        "task execution requires an explicit runtime release manifest")
  t ←
      expect (task c request.task_id request.task_revision) (
        failure_with run_contract 404 "unknown_task"
          "task revision is not in the runtime catalogue")
  refuse (is_withheld t) (
      failure_with run_contract 501 "runtime_not_ready"
        "task execution is not released for this revision")
  ok request

abbrev pub status_of_error : ExecutionError → ℕ
status_of_error e = if e.status == 0 then 502 else e.status

abbrev pub error_of_execution : ExecutionError → RuntimeError
error_of_execution e = record {
  contract_version = run_contract;
  code = e.code;
  message = told e.message;
  retryable = e.retryable;
}

-- The counter that the executor's return increments.
unfoldable pub count : Execution → Counters → Counters
count (responded r) m =
    if r.results.status == "pass"
    then record m { run_passes = bump m.run_passes }
    else record m { run_failures = bump m.run_failures }
count (refused e) m = record m { run_errors = bump m.run_errors }
count failed m = record m { run_errors = bump m.run_errors }
count crashed m = m

unfoldable pub reply_to : Execution → Reply
reply_to (responded r) = answered (write_json 200 (response r))
reply_to (refused e) = answered (write_json (status_of_error e) (failure (error_of_execution e)))
reply_to failed = answered (
    reply_with response
      (err (failure_with run_contract 502 "runner_failed" "task execution failed")))
reply_to crashed = crashed

unfoldable pub count_run : Counters → Counters
count_run m = record m { run_requests = bump m.run_requests }

unfoldable pub runs : Server → Document RunRequest → Counters → Reply × Counters
runs s document m = elim (accept s.catalogue document) [
  | err e ↦ (answered (reply_with response (err e)), count_run m)
  | ok request ↦ (reply_to (s.executor.run request), count (s.executor.run request) (count_run m))
]

-- prometheus
abbrev pub prometheus : Counters → List Operation
prometheus m =
    set_header "content-type" "text/plain; version=0.0.4"
    ∷ write (
        text
          "# HELP fel_runtime_http_requests_total Total HTTP requests handled by Task Runtime.\n")
    ∷ write (
        text (
          "# TYPE fel_runtime_http_requests_total counter\nfel_runtime_http_requests_total "
          <> decimal m.http_requests
          <> "\n"))
    ∷ write (
        text
          "# HELP fel_runtime_run_requests_total Total task run requests accepted by Task Runtime.\n")
    ∷ write (
        text (
          "# TYPE fel_runtime_run_requests_total counter\nfel_runtime_run_requests_total "
          <> decimal m.run_requests
          <> "\n"))
    ∷ write
        (text "# HELP fel_runtime_run_results_total Task run results grouped by bounded outcome.\n")
    ∷ write (
        text (
          "# TYPE fel_runtime_run_results_total counter\nfel_runtime_run_results_total{outcome=\"pass\"} "
          <> decimal m.run_passes
          <> "\n"))
    ∷ write (
        text ("fel_runtime_run_results_total{outcome=\"fail\"} " <> decimal m.run_failures <> "\n"))
    ∷ write
        (text ("fel_runtime_run_results_total{outcome=\"error\"} " <> decimal m.run_errors <> "\n"))
    ∷ []

-- The handler of each route that NewServer registers.
unfoldable pub serve : Server → Route → Counters → Reply × Counters
serve s to_live m = (answered (live s), m)
serve s to_ready m = (answered (ready s), m)
serve s to_metrics m = (answered (prometheus m), m)
serve s to_profiles m = (answered (write_json 200 (profiles s.catalogue.profiles)), m)
serve s to_tasks m = (answered (write_json 200 (tasks s.catalogue.tasks)), m)
serve s to_summary m = (answered (write_json 200 (summary (release_summary s.catalogue))), m)
serve s to_families m = (answered (write_json 200 (families s.catalogue.families)), m)
serve s (to_family key) m = (answered (reply_with family (find_family s key)), m)
serve s (to_workspace id revision) m =
    (answered (reply_with workspace (open_workspace s id revision)), m)
serve s (to_runs document) m = runs s document m
