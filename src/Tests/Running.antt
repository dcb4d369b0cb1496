-- ===== src/Tests/Running.antt =====
-- A run of the catalogue in Tests/Site.antt in a sandbox whose harness passes.
use fluent_task_runtime.Base.{
  take, String, ◌≡◌, refl, ◌↔◌, inr, true, false, none, some, List, [], ◌∷◌, arith, if◌then◌else◌,
  ◌==◌, string_eq, nat_eq, ok, err, contains,
}
use fluent_task_runtime.Base.Dict.{insert}
use fluent_task_runtime.Text.{trim_space, trim_left, trim_right, is_space, is_blank, split}
use fluent_task_runtime.Text.Decimal.{decimal, atoi}
use fluent_task_runtime.Text.Atoi.{atoi-decimal}
use fluent_task_runtime.Numbers.{pos, lt_int, le_int, int_eq, is_positive}
use fluent_task_runtime.Regex.{match_string}
use fluent_task_runtime.Contracts.{RunRequest, RunResponse}
use fluent_task_runtime.Catalogue.{find_task}
use fluent_task_runtime.Execution.{
  read_bounded, check_test, check_tests, validate_results, clean_segments, join_segments, clean,
  has_backslash, safe_relative_path, check_files, validate_files,
}
use fluent_task_runtime.Execution.Results.{AreReported, validate_results_iff}
use fluent_task_runtime.Execution.Sanitize.{sanitize_error, safe_token}
use fluent_task_runtime.Execution.Sanitize.Laws.{is_token, safe_token-is_token}
use fluent_task_runtime.Execution.Sanitize.Mentions.{IsClean, sanitize_error-IsClean}
use fluent_task_runtime.Execution.Sandbox.{
  Inspection, printed, Directories, verify_image_digest, docker_args, docker_container_name,
  has_digest,
}
use fluent_task_runtime.Execution.Sandbox.Arguments.{IsIsolated, docker_args-IsIsolated}
use fluent_task_runtime.Execution.Preparation.{
  file, copy_directory, copy_entries, write_file, write_files, prepare_task,
}
use fluent_task_runtime.Execution.Preparation.Laws.{IsPrepared, prepare_task-IsPrepared}
use fluent_task_runtime.Execution.Running.{
  Outcome, Sandbox, RunFailure, failure_of, no_workspace, admit, set_up, timeout_ns,
  is_invalid_timeout, read_results, collect_artifacts, conclude, command_of, run_in, run_below,
  run_admitted, run, sanitize_results,
}
use fluent_task_runtime.Execution.Running.Admission.{IsAdmitted, admit_iff}
use fluent_task_runtime.Execution.Running.Laws.{IsKnown, run-IsKnown}
use fluent_task_runtime.Execution.Running.Effects.{IsTidy, run-IsTidy}
use fluent_task_runtime.Execution.Running.Success.{IsServed, run-IsServed}
use fluent_task_runtime.Execution.Running.Completion.{IsProvided, IsBounded, run_completes}
use fluent_task_runtime.Tests.Site.{limiter, image, bound_limiter, catalogue}
use fluent_task_runtime.Tests.Execution.{report}

abbrev pub request : RunRequest
request = record {
  task_id = limiter;
  task_revision = pos 1;
  files = ("main.go", "package main") ∷ [];
  locale = "en";
  correlation = "run 1";
}

abbrev outcome : Outcome
outcome = record {
  timed_out = false;
  failure = none;
  stdout = "/solution/main.go:1 ok";
  stderr = "";
  output = λ path. if path == "results.json" then some (1 ∷ []) else none;
}

abbrev pub sandbox : Sandbox
sandbox = record {
  inspect = λ _. printed (some (image ∷ []));
  now = "1";
  work_root = " /var/runs";
  makes_work_root = true;
  workspace = some "/work";
  makes_directories = true;
  makes_writable = true;
  writable = λ _. true;
  starter = λ _. some (file "main.go" (some "") ∷ []);
  tests = λ _. some (file "main_test.go" (some "test") ∷ []);
  format_float = λ _. "1";
  decode_results = λ _. some report;
  text_of = λ _. "";
  unicode_lower = λ c. c;
  execute = λ _. outcome;
  elapsed = record { negative = false; mantissa = 1; exponent = pos 0 };
}

abbrev full : Sandbox
full = record sandbox { workspace = none }

running : Unit {0}
unfolding trim_space trim_left trim_right is_space is_blank split lt_int le_int is_positive
    match_string find_task clean_segments join_segments clean has_backslash safe_relative_path
    contains check_files validate_files check_test check_tests validate_results verify_image_digest
    has_digest string_eq nat_eq int_eq insert copy_directory copy_entries write_file write_files
    prepare_task admit set_up timeout_ns is_invalid_timeout read_results read_bounded take
    collect_artifacts conclude command_of run_in run_below run_admitted run
running = tt

digest_verified : verify_image_digest sandbox.inspect image ≡ ok tt
unfolding running fluent_task_runtime.Execution.Sandbox.immutable_image_pattern
digest_verified = refl

files_accepted : validate_files request.files bound_limiter.editable_files ≡ ok tt
unfolding running
files_accepted = refl

limiter-IsAdmitted : IsAdmitted catalogue sandbox request bound_limiter
unfolding find_task string_eq int_eq
limiter-IsAdmitted = record {
  found = refl;
  bound = refl;
  released = refl;
  packaged = refl;
  verified = digest_verified;
  accepted = files_accepted;
}

abbrev input : List (String × String)
input = ("main.go", "package main") ∷ []

abbrev hidden : List (String × String)
hidden = ("tests/main_test.go", "test") ∷ ("main.go", "package main") ∷ []

prepared :
    prepare_task sandbox.writable (sandbox.starter limiter) (sandbox.tests limiter) request.files
    ≡ ok (input, hidden)
unfolding running
prepared = refl

limiter-IsProvided : IsProvided sandbox bound_limiter request "/work"
limiter-IsProvided = record {
  work_root = inr refl;
  workspace = refl;
  directories = refl;
  writable = refl;
  trees = (input, hidden);
  prepared = prepared;
}

limiter-IsBounded : IsBounded bound_limiter
unfolding is_positive
limiter-IsBounded = record {
  limits = record { timeout = omega arith; memory = omega arith; cpu = refl };
  short = omega arith;
}

report_valid : validate_results report ≡ ok tt
unfolding running
report_valid = refl

reported : AreReported report
reported = (validate_results_iff report).0 report_valid

results_read : read_bounded (outcome.output "results.json") 1048576 ≡ some (1 ∷ [])
unfolding running
results_read = refl

run_completes_example :
    (response : RunResponse) × ((run catalogue sandbox request).1 ≡ ok response)
    × (response.results ≡ sanitize_results report)
run_completes_example =
    run_completes catalogue sandbox request bound_limiter "/work" report limiter-IsAdmitted
      limiter-IsProvided limiter-IsBounded reported tt
      (λ args isolated. record {
        in_time = refl;
        succeeded = refl;
        raw = 1 ∷ [];
        written = results_read;
        readable = refl;
      })

abbrev answer : RunResponse
answer = record {
  contract_version = "fluent-task-runtime.run.v1";
  results = sanitize_results report;
  correlation_id = "run 1";
  duration_ms = sandbox.elapsed;
  exit_code = pos 0;
  stdout = sanitize_error "/solution/main.go:1 ok";
  stderr = sanitize_error "";
  artifacts = [];
}

passes : (run catalogue sandbox request).1 ≡ ok answer
unfolding running docker_args fluent_task_runtime.Execution.Sandbox.immutable_image_pattern
passes = refl

run-IsServed_example : IsServed catalogue sandbox request answer
run-IsServed_example = run-IsServed catalogue sandbox request answer passes

run-IsTidy_example : IsTidy catalogue sandbox request ((run catalogue sandbox request).0)
run-IsTidy_example = run-IsTidy catalogue sandbox request

abbrev full_error : RunFailure
full_error = failure_of "sandbox_setup_failed" no_workspace 503 true

fails : (run catalogue full request).1 ≡ err full_error
unfolding running fluent_task_runtime.Execution.Sandbox.immutable_image_pattern
fails = refl

run-IsKnown_example : IsKnown catalogue request full_error
run-IsKnown_example = run-IsKnown catalogue full request full_error fails

limiter_admission :
    (admit catalogue sandbox request ≡ ok bound_limiter)
    ↔ IsAdmitted catalogue sandbox request bound_limiter
limiter_admission = admit_iff catalogue sandbox request bound_limiter

prepare_task-IsPrepared_example :
    IsPrepared (sandbox.starter limiter) (sandbox.tests limiter) request.files input hidden
prepare_task-IsPrepared_example =
    prepare_task-IsPrepared sandbox.writable (sandbox.starter limiter) (sandbox.tests limiter)
      request.files input hidden prepared

docker_args-IsIsolated_example :
    (args : List String) × (docker_args sandbox.format_float bound_limiter
        (record { input = "/i"; hidden = "/h"; output = "/o" })
        "run 1"
      ≡ some args)
    × IsIsolated sandbox.format_float bound_limiter
        (record { input = "/i"; hidden = "/h"; output = "/o" })
        (docker_container_name limiter "run 1")
        args
docker_args-IsIsolated_example =
    docker_args-IsIsolated sandbox.format_float bound_limiter
      (record { input = "/i"; hidden = "/h"; output = "/o" }) "run 1" limiter-IsBounded.limits

sanitize_error-IsClean_example : IsClean (sanitize_error "/Hidden-Tests/a_test.go:3")
sanitize_error-IsClean_example = sanitize_error-IsClean "/Hidden-Tests/a_test.go:3"

forty_two : atoi (decimal 42) ≡ some (pos 42)
forty_two = atoi-decimal 42 (omega arith)

clean_token : is_token (safe_token "run 1") ≡ true
clean_token = safe_token-is_token "run 1"
