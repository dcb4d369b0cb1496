-- ===== src/Execution/Running/Laws.antt =====
-- How DockerExecutor.Run of internal/engine/docker_executor.go fails.
use fluent_task_runtime.Base.{
  ℕ, String, ◌≡◌, inl, inr, Bool, true, false, ◌||◌, Option, none, some, List, [], ◌∷◌, ◌==◌,
  string_eq, nat_eq, Bool-cases, err, guard, refuse, expect, wrap, Option-cases, Result-cases,
  Refused, Refused-bind, Refused-guard, Refused-refuse, Refused-expect, Refused-wrap, Refused-err,
  is_empty,
}
use fluent_task_runtime.Contracts.{Task, RunRequest}
use fluent_task_runtime.Catalogue.{Catalogue, task, release_bound}
use fluent_task_runtime.Loading.Descriptors.{HasLimits}
use fluent_task_runtime.Execution.{
  read_bounded, validate_results, validate_files, safe_relative_path,
}
use fluent_task_runtime.Execution.Sandbox.{verify_image_digest, docker_args}
use fluent_task_runtime.Execution.Sandbox.Arguments.{docker_args-IsIsolated}
use fluent_task_runtime.Execution.Preparation.{prepare_task}
use fluent_task_runtime.Execution.Running.Disposal.{run_below-cases, run_admitted-cases}
use fluent_task_runtime.Execution.Running.Admission.{admit_iff}
use fluent_task_runtime.Execution.Running.{
  RunFailure, execution_failed, panicked, Outcome, Sandbox, image_failure, files_failure, admit,
  correlation_of, directories_in, prepare_failure, set_up, timeout_ns, is_invalid_timeout,
  is_missing_image, run_message_of, results_failure, command_failure, read_results, artifact_of,
  results_capture_limit, keep_artifact, collect_artifacts, check_command_failure, conclude,
  command_of, run_in, run_below, run_admitted, run,
}

-- The codes of a run's errors, with the status and whether the caller may try again.
pub data IsKnownCode : String → ℕ → Bool → Type 0 where
  unknown_task : IsKnownCode "unknown_task" 404 false
  question_release_not_bound : IsKnownCode "question_release_not_bound" 503 false
  runtime_not_ready : IsKnownCode "runtime_not_ready" 501 false
  task_not_packaged : IsKnownCode "task_not_packaged" 503 false
  sandbox_unavailable : IsKnownCode "sandbox_unavailable" 503 true
  invalid_request : IsKnownCode "invalid_request" 400 false
  sandbox_setup_failed : IsKnownCode "sandbox_setup_failed" 503 true
  task_not_prepared : IsKnownCode "sandbox_setup_failed" 503 false
  invalid_task_limits : IsKnownCode "invalid_task_limits" 500 false
  timeout : IsKnownCode "timeout" 504 true
  harness_failed : IsKnownCode "harness_failed" 502 false
  runner_protocol : IsKnownCode "runner_protocol" 502 false

-- Only what is found in the catalogue can panic, and only without its limits.
abbrev pub IsKnown : Catalogue → RunRequest → RunFailure → Type 0
IsKnown c request (execution_failed e) = IsKnownCode e.code e.status e.retryable
IsKnown c request panicked =
    (t : Task) × (task c request.task_id request.task_revision ≡ some t)
    × ¬ HasLimits t.timeout_ms t.memory_mb t.cpus

module _ (c : Catalogue) (sb : Sandbox) (request : RunRequest) where
  admit-IsKnown : Refused (IsKnown c request) (admit c sb request)
  unfolding admit
  admit-IsKnown =
      Refused-bind (IsKnown c request) (expect (task c request.task_id request.task_revision) _) _
        (Refused-expect (IsKnown c request) (task c request.task_id request.task_revision) _
          unknown_task)
        (λ t.
          Refused-bind (IsKnown c request) (guard (release_bound c) _) _
            (Refused-guard (IsKnown c request) (release_bound c) _ question_release_not_bound)
            (λ _.
              Refused-bind (IsKnown c request) (guard (t.status == "released") _) _
                (Refused-guard (IsKnown c request) (t.status == "released") _ runtime_not_ready)
                (λ _.
                  Refused-bind (IsKnown c request)
                    (refuse (is_empty t.check_command || is_empty t.editable_files) _) _
                    (Refused-refuse (IsKnown c request)
                      (is_empty t.check_command || is_empty t.editable_files) _ task_not_packaged)
                    (λ _.
                      Refused-bind (IsKnown c request)
                        (wrap image_failure (verify_image_digest sb.inspect t.image)) _
                        (Refused-wrap (IsKnown c request) image_failure
                          (verify_image_digest sb.inspect t.image) (λ _. sandbox_unavailable))
                        (λ _.
                          Refused-bind (IsKnown c request)
                            (wrap files_failure (validate_files request.files t.editable_files)) _
                            (Refused-wrap (IsKnown c request) files_failure
                              (validate_files request.files t.editable_files)
                              (λ _. invalid_request))
                            (λ _. tt))))))

  set_up-IsKnown : (t : Task) → Refused (IsKnown c request) (set_up sb t request)
  unfolding set_up
  set_up-IsKnown t =
      Refused-bind (IsKnown c request) (guard sb.makes_directories _) _
        (Refused-guard (IsKnown c request) sb.makes_directories _ sandbox_setup_failed)
        (λ _.
          Refused-bind (IsKnown c request) (guard sb.makes_writable _) _
            (Refused-guard (IsKnown c request) sb.makes_writable _ sandbox_setup_failed)
            (λ _.
              Refused-bind (IsKnown c request)
                (wrap prepare_failure
                  (prepare_task sb.writable (sb.starter t.id) (sb.tests t.id) request.files))
                _
                (Refused-wrap (IsKnown c request) prepare_failure
                  (prepare_task sb.writable (sb.starter t.id) (sb.tests t.id) request.files)
                  (λ _. task_not_prepared))
                (λ _. tt)))

  no_arguments :
      (t : Task) (work : String)
      → docker_args sb.format_float t (directories_in work) (correlation_of sb request) ≡ none
      → ¬ HasLimits t.timeout_ms t.memory_mb t.cpus
  no_arguments t work h limits =
      let (args, e, _) =
        docker_args-IsIsolated sb.format_float t (directories_in work) (correlation_of sb request)
          limits in
      cc

  command_of-IsKnown :
      (t : Task) (work : String)
      → task c request.task_id request.task_revision ≡ some t
      → Refused (IsKnown c request) (command_of sb t request work)
  unfolding command_of
  command_of-IsKnown t work found =
      Refused-bind (IsKnown c request) (set_up sb t request) _ (set_up-IsKnown t) (λ _.
        Refused-bind (IsKnown c request) (refuse (is_invalid_timeout (timeout_ns t)) _) _
          (Refused-refuse (IsKnown c request) (is_invalid_timeout (timeout_ns t)) _
            invalid_task_limits)
          (λ _.
            elim (Option-cases
              (docker_args sb.format_float t (directories_in work) (correlation_of sb request))) [
                | inr (args, e) ↦ rw e tt
                | inl e ↦ rw e (t, found, no_arguments t work e)
              ]))

  command_failure-IsKnown :
      (t : Task) (stderr error : String) → IsKnown c request (command_failure sb t stderr error)
  unfolding command_failure
  command_failure-IsKnown t stderr error =
      elim (Bool-cases (is_missing_image sb (run_message_of stderr error))) [
        | inl missing ↦ rw missing sandbox_unavailable
        | inr other ↦ rw other harness_failed
      ]

  check_command-IsKnown :
      (t : Task) (stderr : String) (failure : Option String)
      → Refused (IsKnown c request) (check_command_failure sb t stderr failure)
  check_command-IsKnown t stderr none = tt
  check_command-IsKnown t stderr (some error) = command_failure-IsKnown t stderr error

  read_results-IsKnown : (o : Outcome) → Refused (IsKnown c request) (read_results sb o)
  unfolding read_results
  read_results-IsKnown o =
      Refused-bind (IsKnown c request)
        (expect (read_bounded (o.output "results.json") results_capture_limit) _) _
        (Refused-expect (IsKnown c request)
          (read_bounded (o.output "results.json") results_capture_limit) _ runner_protocol)
        (λ raw.
          Refused-bind (IsKnown c request) (expect (sb.decode_results raw) _) _
            (Refused-expect (IsKnown c request) (sb.decode_results raw) _ runner_protocol)
            (λ r.
              Refused-bind (IsKnown c request) (wrap results_failure (validate_results r)) _
                (Refused-wrap (IsKnown c request) results_failure (validate_results r)
                  (λ _. runner_protocol))
                (λ _. tt)))

  collect_artifacts-IsKnown :
      (read : String → Option String) (paths : List String) (artifacts : List (String × String))
      → Refused (IsKnown c request) (collect_artifacts read paths artifacts)
  unfolding collect_artifacts
  collect_artifacts-IsKnown read [] artifacts = tt
  collect_artifacts-IsKnown read (path ∷ paths) artifacts =
      Refused-bind (IsKnown c request) (guard (safe_relative_path path) _) _
        (Refused-guard (IsKnown c request) (safe_relative_path path) _ runner_protocol)
        (λ _. collect_artifacts-IsKnown read paths (keep_artifact path (read path) artifacts))

  conclude-IsKnown :
      (t : Task) (o : Outcome) → Refused (IsKnown c request) (conclude sb t request o)
  unfolding conclude
  conclude-IsKnown t o =
      Refused-bind (IsKnown c request) (refuse o.timed_out _) _
        (Refused-refuse (IsKnown c request) o.timed_out _ timeout)
        (λ _.
          Refused-bind (IsKnown c request) (check_command_failure sb t o.stderr o.failure) _
            (check_command-IsKnown t o.stderr o.failure)
            (λ _.
              Refused-bind (IsKnown c request) (read_results sb o) _ (read_results-IsKnown o) (λ r.
                Refused-bind (IsKnown c request)
                  (collect_artifacts (artifact_of sb o) t.artifacts []) _
                  (collect_artifacts-IsKnown (artifact_of sb o) t.artifacts []) (λ _. tt))))

  run_in-IsKnown :
      (t : Task) (work : String)
      → task c request.task_id request.task_revision ≡ some t
      → Refused (IsKnown c request) ((run_in sb t request work).1)
  unfolding run_in
  run_in-IsKnown t work found = elim (Result-cases (command_of sb t request work)) [
    | inl (args, e) ↦ rw (e, run_in) (conclude-IsKnown t (sb.execute args))
    | inr (e, h) ↦
        rw (h, run_in)
          (Refused-err (IsKnown c request) (command_of sb t request work) e
            (command_of-IsKnown t work found) h)
  ]

  run_below-IsKnown :
      (t : Task)
      → task c request.task_id request.task_revision ≡ some t
      → Refused (IsKnown c request) ((run_below sb t request).1)
  run_below-IsKnown t found = elim (run_below-cases sb t request) [
    | inl h ↦ rw h sandbox_setup_failed
    | inr (work, _, h) ↦ rw h (run_in-IsKnown t work found)
  ]

  run_admitted-IsKnown :
      (t : Task)
      → task c request.task_id request.task_revision ≡ some t
      → Refused (IsKnown c request) ((run_admitted sb t request).1)
  run_admitted-IsKnown t found = elim (run_admitted-cases sb t request) [
    | inl (_, h) ↦ rw h (run_below-IsKnown t found)
    | inr (inl (_, h)) ↦ rw h (run_below-IsKnown t found)
    | inr (inr (_, _, h)) ↦ rw h sandbox_setup_failed
  ]

-- A run that fails gives one of twelve codes with its status and its hint to try again, unless it
-- panics, which takes a task of the catalogue without positive limits.
pub run-IsKnown :
    (c : Catalogue) (sb : Sandbox) (request : RunRequest) (e : RunFailure)
    → (run c sb request).1 ≡ err e
    → IsKnown c request e
unfolding run
run-IsKnown c sb request e h = Refused-err (IsKnown c request) ((run c sb request).1) e (whole) h
  where
    whole : Refused (IsKnown c request) ((run c sb request).1)
    whole = elim (Result-cases (admit c sb request)) [
      | inr (d, k) ↦
          rw (k, run)
            (Refused-err (IsKnown c request) (admit c sb request) d (admit-IsKnown c sb request) k)
      | inl (t, k) ↦
          rw (k, run) (run_admitted-IsKnown c sb request t ((admit_iff c sb request t).0 k).found)
    ]
