-- ===== src/Server.antt =====
-- The HTTP control plane of internal/httpapi/server.go: what a handler does to its response writer,
-- as a list of calls in order. The values that encoding/json writes are the constructors of Body.
-- What the server reads from outside (the environment, the clock, the file system, an executor) is a
-- Server; which route a request takes, with the values of its path, is net/http's ServeMux's.
pub mod Identity
pub mod Handlers
pub mod Runs
pub mod Workspaces
pub mod Metrics
pub mod Writer
use fluent_task_runtime.Base.{
  ℕ, zero, suc, ◌+◌, ◌-◌, ◌*◌, ◌/◌, ◌%◌, ◌≤◌, ◌<◌, Char, code, String, ◌<>◌, ◌≡◌, refl, sym, ap,
  ap₂, ◌∙◌, subst, ◌≢◌, ◌↔◌, ◌⊎◌, inl, inr, Bool, true, false, not, ◌&&◌, ◌||◌, Option, none, some,
  List, [], ◌∷◌, ◌++◌, map, arith, if◌then◌else◌, ltb, leb, Eq, ◌==◌, ==_iff, string_eq, nat_eq,
  Bool-cases, and-eq-true, ne_of_test, Result, ok, ok_unique, err, ◌>>=◌, ◌>>◌, guard, refuse,
  expect, is_found, wrap, >>=-eq-ok, guard-eq-ok, refuse-eq-ok, wrap-eq-ok, expect-eq-ok,
  Option-cases, Result-cases, Refused, Refused-bind, Refused-guard, Refused-refuse, Refused-expect,
  Refused-wrap, Refused-err, length, is_empty, all, length-append, All, All-append, All-mem,
  All-map, All-zip, Distinct, contains, contains-mem, mem_of_contains, Memᴰ, Perm, perm_of_Distinct,
  Distinct-of_map, contains-eq-false_iff, Fresh, Fresh-nil, Fresh-cons, Fresh-snoc,
}
use fluent_task_runtime.Numbers.{ℤ}
use fluent_task_runtime.Documents.{Document}
use fluent_task_runtime.Contracts.{
  Tasks, Profiles, TaskSummaryResponse, TaskFamilies, TaskFamilyResponse, TaskWorkspace, RunRequest,
  RunResponse, Health,
}
use fluent_task_runtime.Catalogue.{Catalogue}
use fluent_task_runtime.Catalogue.Workspace.{WorkspaceFiles}
use fluent_task_runtime.Execution.Running.{
  Message, ExecutionError, RunFailure, execution_failed, panicked, Sandbox, run,
}

-- The text of an error: one of the server's own, or what the executor says.
pub data ErrorText : Type 0 where
  said : String → ErrorText
  told : Message → ErrorText

pub record RuntimeError : Type 0 where
  pub contract_version : String
  pub code : String
  pub message : ErrorText
  pub retryable : Bool

pub data Body : Type 0 where
  text : String → Body
  health : Health → Body
  profiles : Profiles → Body
  tasks : Tasks → Body
  summary : TaskSummaryResponse → Body
  families : TaskFamilies → Body
  family : TaskFamilyResponse → Body
  workspace : TaskWorkspace → Body
  response : RunResponse → Body
  failure : RuntimeError → Body

-- What is called on an http.ResponseWriter.
pub data Operation : Type 0 where
  set_header : String → String → Operation
  write_header : ℕ → Operation
  write : Body → Operation

-- What an executor's Run does: it returns a response, an ExecutionError or another error, or panics.
pub data Execution : Type 0 where
  responded : RunResponse → Execution
  refused : ExecutionError → Execution
  failed crashed : Execution

-- RunExecutor, with its `Ready(context.Context) string` if it has one.
pub record Executor : Type 0 where
  pub run : RunRequest → Execution
  pub readiness : Option String

abbrev pub executed : Result RunFailure RunResponse → Execution
executed (ok r) = responded r
executed (err (execution_failed e)) = refused e
executed (err panicked) = crashed

-- DockerExecutor.Ready: whether `docker version` succeeds.
abbrev pub docker_ready : Bool → String
docker_ready succeeds = if succeeds then "ready" else "unavailable"

-- NewDockerExecutor; the sandbox is that of each request's run.
abbrev pub docker_executor : Catalogue → (RunRequest → Sandbox) → Bool → Executor
docker_executor c sandbox docker = record {
  run = λ request. executed ((run c (sandbox request) request).1);
  readiness = some (docker_ready docker);
}

pub record Server : Type 0 where
  pub catalogue : Catalogue
  pub executor : Executor
  pub files : WorkspaceFiles
  pub getenv : String → String
  pub now : String

-- `if len(executors) > 0 && executors[0] != nil`
abbrev pub chosen_executor : Executor → List (Option Executor) → Executor
chosen_executor default [] = default
chosen_executor default (none ∷ executors) = default
chosen_executor default (some e ∷ executors) = e

-- The patterns that NewServer registers, with what a handler reads of the request.
pub data Route : Type 0 where
  to_live to_ready to_metrics to_profiles to_tasks to_summary to_families : Route
  to_family : String → Route
  to_workspace : String → String → Route
  to_runs : Document RunRequest → Route

-- A counter of 64 bits.
abbrev pub bump : ℕ → ℕ
bump n = (n + 1) % 18446744073709551616

-- runtimeMetrics
pub record Counters : Type 0 where
  pub http_requests : ℕ
  pub run_requests : ℕ
  pub run_passes : ℕ
  pub run_failures : ℕ
  pub run_errors : ℕ

-- A handler that writes, or one that panics.
pub data Reply : Type 0 where
  answered : List Operation → Reply
  crashed : Reply

-- writeJSON
abbrev pub write_json : ℕ → Body → List Operation
write_json status value =
    set_header "content-type" "application/json" ∷ write_header status ∷ write value ∷ []
