-- ===== src/Execution/Running/Completion.antt =====
-- When DockerExecutor.Run of internal/engine/docker_executor.go returns a response.
use mathlib.Core.Bool.{false≢true}
use fluent_task_runtime.Base.{
  ℕ, ◌*◌, ◌%◌, String, ◌≡◌, refl, sym, ap, ◌∙◌, ◌⊎◌, inl, inr, true, false, Option, none, some,
  List, [], ◌∷◌, arith, string_eq, nat_eq, ok, All,
}
use fluent_task_runtime.Text.{trim_space}
use fluent_task_runtime.Execution.Running.Disposal.{run_admitted-cases}
use fluent_task_runtime.Numbers.{ℤ, pos, negsuc, ◌≤ℤ◌}
use fluent_task_runtime.Contracts.{Task, TestResults, RunRequest, RunResponse}
use fluent_task_runtime.Catalogue.{Catalogue}
use fluent_task_runtime.Loading.Descriptors.{HasLimits}
use fluent_task_runtime.Execution.{read_bounded, safe_relative_path}
use fluent_task_runtime.Execution.Results.{AreReported, validate_results_iff}
use fluent_task_runtime.Execution.Sandbox.{docker_container_name}
use fluent_task_runtime.Execution.Sandbox.Arguments.{IsIsolated, docker_args-IsIsolated}
use fluent_task_runtime.Execution.Preparation.{Tree, prepare_task}
use fluent_task_runtime.Execution.Running.Admission.{IsAdmitted, admit_iff}
use fluent_task_runtime.Execution.Running.{
  Outcome, Sandbox, correlation_of, directories_in, set_up, timeout_ns, is_invalid_timeout,
  read_results, artifact_of, results_capture_limit, keep_artifact, collect_artifacts, response_of,
  conclude, command_of, run_in, run_below, run_admitted, run, sanitize_results,
}

-- The host does what it is asked to, up to the container's start.
pub record IsProvided (sb : Sandbox) (t : Task) (request : RunRequest) (work : String)
    : Type 0 where
  pub work_root : (trim_space sb.work_root ≡ "") ⊎ (sb.makes_work_root ≡ true)
  pub workspace : sb.workspace ≡ some work
  pub directories : sb.makes_directories ≡ true
  pub writable : sb.makes_writable ≡ true
  pub trees : Tree × Tree
  pub prepared : prepare_task sb.writable (sb.starter t.id) (sb.tests t.id) request.files ≡ ok trees

-- The harness ends in time and without an error, with results.
pub record IsOutcome (sb : Sandbox) (o : Outcome) (r : TestResults) : Type 0 where
  pub in_time : o.timed_out ≡ false
  pub succeeded : o.failure ≡ none
  pub raw : List ℕ
  pub written : read_bounded (o.output "results.json") results_capture_limit ≡ some raw
  pub readable : sb.decode_results raw ≡ some r

-- The limits of a task, and the highest timeout, two minutes.
pub record IsBounded (t : Task) : Type 0 where
  pub limits : HasLimits t.timeout_ms t.memory_mb t.cpus
  pub short : t.timeout_ms ≤ℤ pos 120000

timeout_valid : (t : Task) → IsBounded t → is_invalid_timeout (timeout_ns t) ≡ false
unfolding is_invalid_timeout timeout_ns
timeout_valid t h = within t.timeout_ms h.limits.timeout h.short
  where
    within :
        (n : ℤ)
        → pos 1 ≤ℤ n
        → n ≤ℤ pos 120000
        → is_invalid_timeout (timeout_ns (record t { timeout_ms = n })) ≡ false
    within (negsuc n) low high = absurd low
    within (pos n) low high =
        let word : n % 18446744073709551616 ≡ n = omega arith in
        let ns : n % 18446744073709551616 * 1000000 % 18446744073709551616 ≡ n * 1000000 =
          omega arith in
        ground (arith, ns)

set_up-IsProvided :
    (sb : Sandbox) (t : Task) (request : RunRequest) (work : String)
    → IsProvided sb t request work
    → set_up sb t request ≡ ok tt
unfolding set_up
set_up-IsProvided sb t request work h =
    let directories = h.directories in
    let writable = h.writable in
    let prepared = h.prepared in ground (arith, directories, writable, prepared)

collect_artifacts_total :
    (read : String → Option String) (paths : List String) (artifacts : List (String × String))
    → All (λ p. safe_relative_path p ≡ true) paths
    → (out : List (String × String)) × (collect_artifacts read paths artifacts ≡ ok out)
unfolding collect_artifacts
collect_artifacts_total read [] artifacts h = (artifacts, refl)
collect_artifacts_total read (path ∷ paths) artifacts (safe, h) =
    rw safe (collect_artifacts_total read paths (keep_artifact path (read path) artifacts) h)

conclude_total :
    (sb : Sandbox) (t : Task) (request : RunRequest) (o : Outcome) (r : TestResults)
    → IsOutcome sb o r
    → AreReported r
    → All (λ p. safe_relative_path p ≡ true) t.artifacts
    → (artifacts : List (String × String)) × (conclude sb t request o
        ≡ ok (response_of sb (correlation_of sb request) (sanitize_results r) o artifacts))
unfolding conclude read_results
conclude_total sb t request o r h reported safe =
    let (artifacts, collected) = collect_artifacts_total (artifact_of sb o) t.artifacts [] safe in
    let valid = (validate_results_iff r).1 reported in
    let in_time = h.in_time in
    let succeeded = h.succeeded in
    let written = h.written in
    let readable = h.readable in
    (artifacts, ground (arith, collected, valid, in_time, succeeded, written, readable))

command_of_total :
    (sb : Sandbox) (t : Task) (request : RunRequest) (work : String)
    → IsProvided sb t request work
    → IsBounded t
    → (args : List String) × (command_of sb t request work ≡ ok args)
      × IsIsolated sb.format_float t
          (directories_in work)
          (docker_container_name t.id (correlation_of sb request))
          args
unfolding command_of
command_of_total sb t request work provided bounded =
    let (args, e, isolated) =
      docker_args-IsIsolated sb.format_float t (directories_in work) (correlation_of sb request)
        bounded.limits in
    let ready = set_up-IsProvided sb t request work provided in
    let valid = timeout_valid t bounded in (args, ground (arith, ready, valid, e), isolated)

module _ (sb : Sandbox) (t : Task) (request : RunRequest) (work : String)
    (provided : IsProvided sb t request work) where
  run_below-provided : (run_below sb t request).1 ≡ (run_in sb t request work).1
  unfolding run_below
  run_below-provided = let workspace = provided.workspace in ground (arith, workspace)

  run_admitted-provided : (run_admitted sb t request).1 ≡ (run_in sb t request work).1
  run_admitted-provided = elim (run_admitted-cases sb t request) [
    | inl (_, h) ↦ ap (λ r. r.1) h ∙ run_below-provided
    | inr (inl (_, h)) ↦ ap (λ r. r.1) h ∙ run_below-provided
    | inr (inr (named, failed, _)) ↦ elim provided.work_root [
      | inl unnamed ↦ absurd (named unnamed)
      | inr made ↦ absurd (false≢true (sym failed ∙ made))
    ]
  ]

-- A run of an admitted task with limits of at most two minutes, in a host that provides a workspace
-- and makes and fills its directories, returns a response with the harness's results, sanitized, when
-- every isolated container of the task ends in time with results that may be handed out, and the
-- paths of the task's artifacts are safe.
pub run_completes :
    (c : Catalogue) (sb : Sandbox) (request : RunRequest) (t : Task) (work : String)
    (r : TestResults)
    → IsAdmitted c sb request t
    → IsProvided sb t request work
    → IsBounded t
    → AreReported r
    → All (λ p. safe_relative_path p ≡ true) t.artifacts
    → ((args : List String)
        → IsIsolated sb.format_float t
            (directories_in work)
            (docker_container_name t.id (correlation_of sb request))
            args
        → IsOutcome sb (sb.execute args) r)
    → (response : RunResponse) × ((run c sb request).1 ≡ ok response)
      × (response.results ≡ sanitize_results r)
unfolding run run_in
run_completes c sb request t work r admitted provided bounded reported safe outcomes =
    let (args, e, isolated) = command_of_total sb t request work provided bounded in
    let (artifacts, concluded) =
      conclude_total sb t request (sb.execute args) r (outcomes args isolated) reported safe in
    let passed = (admit_iff c sb request t).1 admitted in
    let inside = run_admitted-provided sb t request work provided in
    (
      response_of sb (correlation_of sb request) (sanitize_results r) (sb.execute args) artifacts,
      ground (arith, passed, inside, e, concluded),
      refl,
    )
