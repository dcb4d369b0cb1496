-- ===== src/Execution/Running.antt =====
-- DockerExecutor.Run of internal/engine/docker_executor.go. What Docker, the clock and the file
-- system deliver is a Sandbox; what Run does to them is the list of its effects, in order. A message
-- is a constructor with the values that it prints.
pub mod Admission
pub mod Disposal
pub mod Laws
pub mod Effects
pub mod Success
pub mod Completion
use Prim.Native.Nat.{◌^◌}
use text.Mathlib.Text.{starts_with}
use fluent_task_runtime.Base.{
  ℕ, zero, suc, ◌+◌, ◌-◌, ◌*◌, ◌/◌, ◌%◌, ◌≤◌, ◌<◌, Char, code, String, ◌<>◌, ◌≡◌, refl, sym, ap,
  ap₂, ◌∙◌, subst, ◌≢◌, ◌↔◌, ◌⊎◌, inl, inr, Bool, true, false, not, ◌&&◌, ◌||◌, Option, none, some,
  List, [], ◌∷◌, ◌++◌, map, arith, if◌then◌else◌, ltb, leb, Eq, ◌==◌, ==_iff, string_eq, nat_eq,
  Bool-cases, and-eq-true, ne_of_test, Result, ok, ok_unique, err, ◌>>=◌, ◌>>◌, guard, refuse,
  expect, is_found, wrap, >>=-eq-ok, guard-eq-ok, refuse-eq-ok, wrap-eq-ok, expect-eq-ok,
  Option-cases, Result-cases, length, is_empty, all, length-append, All, All-append, All-mem,
  All-map, All-zip, Distinct, contains, contains-mem, mem_of_contains, Memᴰ, Perm, perm_of_Distinct,
  Distinct-of_map, contains-eq-false_iff, Fresh, Fresh-nil, Fresh-cons, Fresh-snoc,
}
use fluent_task_runtime.Base.Dict.{insert}
use fluent_task_runtime.Text.{trim_space, to_lower}
use fluent_task_runtime.Numbers.{ℤ, pos, negsuc, Float64}
use fluent_task_runtime.Contracts.{Task, TestResult, TestResults, RunRequest, RunResponse}
use fluent_task_runtime.Catalogue.{Catalogue, task, release_bound}
use fluent_task_runtime.Execution.{
  ResultsError, FilesError, validate_results, validate_files, safe_relative_path, read_bounded,
}
use fluent_task_runtime.Execution.Sanitize.{sanitize_error}
use fluent_task_runtime.Execution.Sandbox.{
  Inspection, ImageError, Directories, verify_image_digest, docker_args, docker_container_name,
}
use fluent_task_runtime.Execution.Preparation.{PackEntry, PrepareError, prepare_task}

pub data Message : Type 0 where
  not_in_catalogue : String → ℤ → Message
  release_required : Message
  not_released : String → ℤ → Message
  no_harness : String → Message
  bad_image : ImageError → Message
  bad_files : FilesError → Message
  no_work_root no_workspace no_directories no_output : Message
  not_prepared : PrepareError → Message
  invalid_timeout : String → Message
  exceeded : String → ℕ → Message
  image_missing : String → Message
  harness_exited : String → Message
  no_results malformed_results : Message
  bad_results : ResultsError → Message
  unsafe_artifact : Message

pub record ExecutionError : Type 0 where
  pub code : String
  pub message : Message
  pub retryable : Bool
  pub status : ℕ

-- What makes Run return no response: an error, or the panic of dockerArgs.
pub data RunFailure : Type 0 where
  execution_failed : ExecutionError → RunFailure
  panicked : RunFailure

abbrev pub fail {ℓ} : {A : Type ℓ} → String → Message → ℕ → Bool → Result RunFailure A
fail code message status retryable = err (
    execution_failed
      (record { code = code; message = message; retryable = retryable; status = status }))

-- What the container has done when the command returns: whether the time ran out, the command's
-- error, what the buffers hold, and the files in the output directory that can be read.
pub record Outcome : Type 0 where
  pub timed_out : Bool
  pub failure : Option String
  pub stdout : String
  pub stderr : String
  pub output : String → Option (List ℕ)

pub record Sandbox : Type 0 where
  pub inspect : String → Inspection
  pub now : String
  -- RUNTIME_WORK_ROOT, and whether that directory can be made; the temporary directory below it,
  -- whether the three directories can be made in it, and whether the output can be made writable.
  pub work_root : String
  pub makes_work_root : Bool
  pub workspace : Option String
  pub makes_directories : Bool
  pub makes_writable : Bool
  pub writable : String → Bool
  pub starter : String → Option (List PackEntry)
  pub tests : String → Option (List PackEntry)
  pub format_float : Float64 → String
  pub decode_results : List ℕ → Option TestResults
  pub text_of : List ℕ → String
  pub unicode_lower : Char → Char
  pub execute : List String → Outcome
  pub elapsed : Float64

-- What Run does outside: `make_work_root` is os.MkdirAll of RUNTIME_WORK_ROOT, `start` is `docker run`, and `remove_container` is `docker rm -f`.
pub data Effect : Type 0 where
  make_work_root make_workspace remove_workspace : String → Effect
  start : List String → Effect
  remove_container : String → Effect

abbrev pub failure_of : String → Message → ℕ → Bool → RunFailure
failure_of code message status retryable =
    execution_failed
      (record { code = code; message = message; retryable = retryable; status = status })

abbrev pub image_failure : ImageError → RunFailure
image_failure e = failure_of "sandbox_unavailable" (bad_image e) 503 true

abbrev pub files_failure : FilesError → RunFailure
files_failure e = failure_of "invalid_request" (bad_files e) 400 false

-- The checks before anything is written.
unfoldable pub admit : Catalogue → Sandbox → RunRequest → Result RunFailure Task
admit c sb request = do
  t ←
      expect (task c request.task_id request.task_revision) (
        failure_of "unknown_task" (not_in_catalogue request.task_id request.task_revision) 404
          false)
  guard (release_bound c) (failure_of "question_release_not_bound" release_required 503 false)
  guard (t.status == "released") (
      failure_of "runtime_not_ready" (not_released request.task_id request.task_revision) 501 false)
  refuse (is_empty t.check_command || is_empty t.editable_files)
      (failure_of "task_not_packaged" (no_harness request.task_id) 503 false)
  wrap image_failure (verify_image_digest sb.inspect t.image)
  wrap files_failure (validate_files request.files t.editable_files)
  ok t

abbrev pub correlation_of : Sandbox → RunRequest → String
correlation_of sb request =
    if trim_space request.correlation == ""
    then "runtime-" <> sb.now
    else trim_space request.correlation

-- filepath.Join(work, …)
abbrev pub directories_in : String → Directories
directories_in work = record {
  input = work <> "/solution";
  hidden = work <> "/hidden";
  output = work <> "/output";
}

abbrev pub prepare_failure : PrepareError → RunFailure
prepare_failure e = failure_of "sandbox_setup_failed" (not_prepared e) 503 false

-- What is done in the workspace before the container is started.
unfoldable pub set_up : Sandbox → Task → RunRequest → Result RunFailure (Unit {0})
set_up sb t request = do
  guard sb.makes_directories (failure_of "sandbox_setup_failed" no_directories 503 true)
  guard sb.makes_writable (failure_of "sandbox_setup_failed" no_output 503 true)
  _ ←
      wrap prepare_failure
        (prepare_task sb.writable (sb.starter t.id) (sb.tests t.id) request.files)
  ok tt

-- An int64 as a machine word.
abbrev word_of : ℤ → ℕ
word_of (pos n) = n % 2 ^ 64
word_of (negsuc n) = 2 ^ 64 - 1 - n % 2 ^ 64

-- `time.Duration(task.TimeoutMS) * time.Millisecond` in nanoseconds, as a word, which wraps around.
unfoldable pub timeout_ns : Task → ℕ
timeout_ns t = word_of t.timeout_ms * 1000000 % 2 ^ 64

-- `timeout <= 0 || timeout > 120*time.Second`, of a signed word.
unfoldable pub is_invalid_timeout : ℕ → Bool
is_invalid_timeout ns = ns == 0 || leb (2 ^ 63) ns || ltb 120000000000 ns

unfoldable pub has_infix : String → String → Bool
has_infix part String.[] = part == ""
has_infix part (String.◌∷◌ c s) = starts_with (String.◌∷◌ c s) part || has_infix part s

abbrev pub run_message : String → String → String
run_message message fallback = if message == "" then fallback else message

abbrev pub run_message_of : String → String → String
run_message_of stderr error =
    run_message (sanitize_error (trim_space stderr)) (sanitize_error error)

unfoldable pub is_missing_image : Sandbox → String → Bool
is_missing_image sb message =
    has_infix "no such image" (to_lower sb.unicode_lower message)
    || has_infix "unable to find image" (to_lower sb.unicode_lower message)

-- The error of a command that has failed.
unfoldable pub command_failure : Sandbox → Task → String → String → RunFailure
command_failure sb t stderr error =
    if is_missing_image sb (run_message_of stderr error)
    then failure_of "sandbox_unavailable" (image_missing t.image) 503 true
    else failure_of "harness_failed" (harness_exited (run_message_of stderr error)) 502 false

abbrev pub sanitize_test : TestResult → TestResult
sanitize_test t = record t {
  message = sanitize_error t.message;
  output = sanitize_error t.output;
  test_code = "";
}

-- sanitizeResults
abbrev pub sanitize_results : TestResults → TestResults
sanitize_results r = record r {
  message = sanitize_error r.message;
  tests = map sanitize_test r.tests;
}

abbrev pub results_failure : ResultsError → RunFailure
results_failure e = failure_of "runner_protocol" (bad_results e) 502 false

abbrev pub results_capture_limit : ℕ
results_capture_limit = 1048576

unfoldable pub read_results : Sandbox → Outcome → Result RunFailure TestResults
read_results sb o = do
  raw ←
      expect (read_bounded (o.output "results.json") results_capture_limit)
        (failure_of "runner_protocol" no_results 502 false)
  r ← expect (sb.decode_results raw) (failure_of "runner_protocol" malformed_results 502 false)
  wrap results_failure (validate_results r)
  ok (sanitize_results r)

abbrev text_if_read : (List ℕ → String) → Option (List ℕ) → Option String
text_if_read text_of none = none
text_if_read text_of (some bytes) = some (text_of bytes)

-- An artifact's text, if it can be read within its bound.
abbrev pub artifact_of : Sandbox → Outcome → String → Option String
artifact_of sb o path = text_if_read sb.text_of (read_bounded (o.output path) 262144)

abbrev pub keep_artifact : String → Option String → List (String × String) → List (String × String)
keep_artifact path none artifacts = artifacts
keep_artifact path (some body) artifacts = insert path (sanitize_error body) artifacts

-- The loop over the task's artifacts.
unfoldable pub collect_artifacts :
    (String → Option String)
    → List String
    → List (String × String)
    → Result RunFailure (List (String × String))
collect_artifacts read [] artifacts = ok artifacts
collect_artifacts read (path ∷ paths) artifacts = do
  guard (safe_relative_path path) (failure_of "runner_protocol" unsafe_artifact 502 false)
  collect_artifacts read paths (keep_artifact path (read path) artifacts)

abbrev pub check_command_failure :
    Sandbox → Task → String → Option String → Result RunFailure (Unit {0})
check_command_failure sb t stderr none = ok tt
check_command_failure sb t stderr (some error) = err (command_failure sb t stderr error)

abbrev pub response_of :
    Sandbox → String → TestResults → Outcome → List (String × String) → RunResponse
response_of sb correlation_id results o artifacts = record {
  contract_version = "fluent-task-runtime.run.v1";
  results = results;
  correlation_id = correlation_id;
  duration_ms = sb.elapsed;
  exit_code = pos 0;
  stdout = sanitize_error o.stdout;
  stderr = sanitize_error o.stderr;
  artifacts = artifacts;
}

-- What follows the command's return.
unfoldable pub conclude : Sandbox → Task → RunRequest → Outcome → Result RunFailure RunResponse
conclude sb t request o = do
  refuse o.timed_out
      (failure_of "timeout" (exceeded request.task_id (timeout_ns t / 1000000)) 504 true)
  check_command_failure sb t o.stderr o.failure
  results ← read_results sb o
  artifacts ← collect_artifacts (artifact_of sb o) t.artifacts []
  ok (response_of sb (correlation_of sb request) results o artifacts)

-- What is run: the arguments, once the limits have been checked.
unfoldable pub command_of : Sandbox → Task → RunRequest → String → Result RunFailure (List String)
command_of sb t request work = do
  set_up sb t request
  refuse (is_invalid_timeout (timeout_ns t))
      (failure_of "invalid_task_limits" (invalid_timeout request.task_id) 500 false)
  expect (docker_args sb.format_float t (directories_in work) (correlation_of sb request)) panicked

-- What happens between the workspace's making and its removal, which is deferred.
unfoldable pub run_in :
    Sandbox → Task → RunRequest → String → List Effect × Result RunFailure RunResponse
run_in sb t request work = elim (command_of sb t request work) [
  | err e ↦ ([], err e)
  | ok args ↦ (
    start args ∷ remove_container (docker_container_name t.id (correlation_of sb request)) ∷ [],
    conclude sb t request (sb.execute args),
  )
]

-- From the making of the disposable workspace on.
unfoldable pub run_below : Sandbox → Task → RunRequest → List Effect × Result RunFailure RunResponse
run_below sb t request = elim sb.workspace [
  | none ↦ ([], fail "sandbox_setup_failed" no_workspace 503 true)
  | some work ↦
      let (effects, result) = run_in sb t request work in
      (make_workspace work ∷ (effects ++ remove_workspace work ∷ []), result)
]

-- The work root that the environment names is made before; without a name the system's temporary
-- directory serves.
unfoldable pub run_admitted :
    Sandbox → Task → RunRequest → List Effect × Result RunFailure RunResponse
run_admitted sb t request =
    let root = trim_space sb.work_root in
    let (effects, result) = run_below sb t request in
    if root == ""
    then (effects, result)
    else if sb.makes_work_root
    then (make_work_root root ∷ effects, result)
    else (make_work_root root ∷ [], fail "sandbox_setup_failed" no_work_root 503 true)

unfoldable pub run : Catalogue → Sandbox → RunRequest → List Effect × Result RunFailure RunResponse
run c sb request = elim (admit c sb request) [
  | err e ↦ ([], err e)
  | ok t ↦ run_admitted sb t request
]
