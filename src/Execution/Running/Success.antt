-- ===== src/Execution/Running/Success.antt =====
-- What a run of DockerExecutor.Run of internal/engine/docker_executor.go that succeeds has checked,
-- and what its response discloses.
use fluent_task_runtime.Base.{
  ℕ, ◌≤◌, length, expect-eq-ok, String, ◌≡◌, refl, sym, ap, ◌∙◌, subst, inl, inr, true, false,
  Option, none, some, List, [], ◌∷◌, map, arith, ==_iff, string_eq, nat_eq, ok, err, expect, wrap,
  >>=-eq-ok, guard-eq-ok, refuse-eq-ok, wrap-eq-ok, Result-cases, All, All-map, contains,
}
use fluent_task_runtime.Base.Dict.{insert-All}
use fluent_task_runtime.Contracts.{Task, TestResult, TestResults, RunRequest, RunResponse}
use fluent_task_runtime.Catalogue.{Catalogue}
use fluent_task_runtime.Execution.{read_bounded, validate_results, safe_relative_path}
use fluent_task_runtime.Execution.Results.{AreReported, validate_results_iff}
use fluent_task_runtime.Execution.Sanitize.{sanitize_error}
use fluent_task_runtime.Execution.Sanitize.Mentions.{IsClean, sanitize_error-IsClean}
use fluent_task_runtime.Execution.Capture.{read_bounded_sound}
use fluent_task_runtime.Execution.Sandbox.Arguments.{IsIsolated, docker_args-eq-some}
use fluent_task_runtime.Execution.Running.Disposal.{run_below-cases, run_admitted-cases}
use fluent_task_runtime.Execution.Running.Effects.{container_of, command_of-args}
use fluent_task_runtime.Execution.Running.Admission.{IsAdmitted, admit_iff}
use fluent_task_runtime.Execution.Running.{
  Outcome, Sandbox, admit, correlation_of, directories_in, set_up, timeout_ns, is_invalid_timeout,
  results_failure, read_results, artifact_of, results_capture_limit, keep_artifact,
  collect_artifacts, check_command_failure, response_of, conclude, command_of, run_in, run_below,
  run_admitted, run, sanitize_results, sanitize_test,
}

abbrev pub IsMasked : TestResult → Type 0
IsMasked t = IsClean t.message × IsClean t.output × (t.test_code ≡ "")

abbrev IsKept : Task → String × String → Type 0
IsKept t (path, content) =
    (contains t.artifacts path ≡ true) × (safe_relative_path path ≡ true) × IsClean content

abbrev pub verdicts_of : List TestResult → List (String × String)
verdicts_of tests = map {B = String × String} (λ x. (x.name, x.status)) tests

-- A response to an admitted run: a container of the task, isolated, in the workspace, ended in time
-- and without an error, and wrote results that may be handed out; the response has them, sanitized,
-- and no text of it names a directory of the container.
pub record IsServed (c : Catalogue) (sb : Sandbox) (request : RunRequest) (response : RunResponse)
    : Type 0 where
  pub task : Task
  pub admitted : IsAdmitted c sb request task
  pub limited : is_invalid_timeout (timeout_ns task) ≡ false
  pub work : String
  pub hosted : sb.workspace ≡ some work
  pub args : List String
  pub isolated :
      IsIsolated sb.format_float task (directories_in work) (container_of sb request task) args
  pub in_time : (sb.execute args).timed_out ≡ false
  pub succeeded : (sb.execute args).failure ≡ none
  pub bytes : List ℕ
  pub written : (sb.execute args).output "results.json" ≡ some bytes
  pub within : length bytes ≤ results_capture_limit
  pub raw : TestResults
  pub readable : sb.decode_results bytes ≡ some raw
  pub reported : AreReported raw
  pub version : response.results.version ≡ raw.version
  pub verdict : response.results.status ≡ raw.status
  pub verdicts : verdicts_of response.results.tests ≡ verdicts_of raw.tests
  pub named : response.correlation_id ≡ correlation_of sb request
  pub message : IsClean response.results.message
  pub tests : All IsMasked response.results.tests
  pub stdout : IsClean response.stdout
  pub stderr : IsClean response.stderr
  pub artifacts : All (IsKept task) response.artifacts

sanitize_test-IsMasked : (tests : List TestResult) → All IsMasked (map sanitize_test tests)
sanitize_test-IsMasked [] = tt
sanitize_test-IsMasked (t ∷ tests) = (
  (sanitize_error-IsClean t.message, sanitize_error-IsClean t.output, refl),
  sanitize_test-IsMasked tests,
)

sanitize_test-verdicts :
    (tests : List TestResult) → verdicts_of (map sanitize_test tests) ≡ verdicts_of tests
sanitize_test-verdicts [] = refl
sanitize_test-verdicts (t ∷ tests) =
    ap (λ xs. (t.name, t.status) ∷ xs) (sanitize_test-verdicts tests)

-- What a container has written as its results.
record IsWritten (sb : Sandbox) (o : Outcome) (bytes : List ℕ) (raw : TestResults) : Type 0 where
  written : o.output "results.json" ≡ some bytes
  within : length bytes ≤ results_capture_limit
  readable : sb.decode_results bytes ≡ some raw
  reported : AreReported raw

read_results_sound :
    (sb : Sandbox) (o : Outcome) (out : TestResults)
    → read_results sb o ≡ ok out
    → (bytes : List ℕ) × (raw : TestResults) × IsWritten sb o bytes raw
      × (out ≡ sanitize_results raw)
unfolding read_results
read_results_sound sb o out h =
    let content = read_bounded (o.output "results.json") results_capture_limit in
    let (bytes, hb, h₁) = >>=-eq-ok (expect content _) _ h in
    let (r, hr, h₂) = >>=-eq-ok (expect (sb.decode_results bytes) _) _ h₁ in
    let (tt, valid, h₃) = >>=-eq-ok (wrap results_failure (validate_results r)) _ h₂ in
    let (written, within) =
      read_bounded_sound (o.output "results.json") results_capture_limit bytes
        (expect-eq-ok content _ hb) in
    let same : out ≡ sanitize_results r = cc in
    (
      bytes,
      r,
      record {
        written = written;
        within = within;
        readable = expect-eq-ok (sb.decode_results bytes) _ hr;
        reported =
            (validate_results_iff r).0 (wrap-eq-ok results_failure (validate_results r) valid);
      },
      same,
    )

check_command_succeeded :
    (sb : Sandbox) (t : Task) (stderr : String) (failure : Option String) {u : Unit {0}}
    → check_command_failure sb t stderr failure ≡ ok u
    → failure ≡ none
check_command_succeeded sb t stderr none h = refl
check_command_succeeded sb t stderr (some e) h = cc

collect_artifacts_sound :
    (t : Task) (read : String → Option String) (paths : List String)
    (artifacts out : List (String × String))
    → All (λ p. contains t.artifacts p ≡ true) paths
    → All (IsKept t) artifacts
    → collect_artifacts read paths artifacts ≡ ok out
    → All (IsKept t) out
unfolding collect_artifacts
collect_artifacts_sound t read [] artifacts out listed kept h =
    let same : artifacts ≡ out = cc in subst (λ a. All (IsKept t) a) same kept
collect_artifacts_sound t read (path ∷ paths) artifacts out (here, listed) kept h =
    let (safe, later) = guard-eq-ok (safe_relative_path path) _ _ h in
    collect_artifacts_sound t read paths (keep_artifact path (read path) artifacts) out listed
      (keep (read path) safe) later
  where
    keep :
        (body : Option String)
        → safe_relative_path path ≡ true
        → All (IsKept t) (keep_artifact path body artifacts)
    keep none safe = kept
    keep (some body) safe =
        insert-All (IsKept t) path (sanitize_error body) artifacts
          (here, safe, sanitize_error-IsClean body) kept

contains-All : (xs : List String) → All (λ x. contains xs x ≡ true) xs
unfolding contains
contains-All [] = tt
contains-All (x ∷ xs) =
    let here = (==_iff x x).1 refl in
    (ground (arith, here), All-map xs (λ y h. ground (arith, h)) (contains-All xs))

module _ (sb : Sandbox) (request : RunRequest) (t : Task) where
  command_of-limited :
      (work : String) (args : List String)
      → command_of sb t request work ≡ ok args
      → is_invalid_timeout (timeout_ns t) ≡ false
  unfolding command_of
  command_of-limited work args h =
      let (_, _, h₁) = >>=-eq-ok (set_up sb t request) _ h in
      let (limited, _) = refuse-eq-ok (is_invalid_timeout (timeout_ns t)) _ _ h₁ in limited

module _ (c : Catalogue) (sb : Sandbox) (request : RunRequest) (t : Task) where
  conclude-IsServed :
      (work : String) (args : List String) (response : RunResponse)
      → admit c sb request ≡ ok t
      → sb.workspace ≡ some work
      → command_of sb t request work ≡ ok args
      → conclude sb t request (sb.execute args) ≡ ok response
      → IsServed c sb request response
  unfolding conclude
  conclude-IsServed work args response admitted hosted command h =
      let o = sb.execute args in
      let (in_time, h₁) = refuse-eq-ok o.timed_out _ _ h in
      let (_, hf, h₂) = >>=-eq-ok (check_command_failure sb t o.stderr o.failure) _ h₁ in
      let (results, hr, h₃) = >>=-eq-ok (read_results sb o) _ h₂ in
      let (artifacts, ha, h₄) =
        >>=-eq-ok (collect_artifacts (artifact_of sb o) t.artifacts []) _ h₃ in
      let (bytes, raw, w, same_results) = read_results_sound sb o results hr in
      let same : response_of sb (correlation_of sb request) (sanitize_results raw) o artifacts
          ≡ response =
        cc in
      subst (λ r. IsServed c sb request r) same
        (record {
          task = t;
          admitted = (admit_iff c sb request t).0 admitted;
          limited = command_of-limited sb request t work args command;
          work = work;
          hosted = hosted;
          args = args;
          isolated =
              docker_args-eq-some sb.format_float t (directories_in work)
                (correlation_of sb request) args (command_of-args sb t request work args command);
          in_time = in_time;
          succeeded = check_command_succeeded sb t o.stderr o.failure hf;
          bytes = bytes;
          written = w.written;
          within = w.within;
          raw = raw;
          readable = w.readable;
          reported = w.reported;
          version = refl;
          verdict = refl;
          verdicts = sanitize_test-verdicts raw.tests;
          named = refl;
          message = sanitize_error-IsClean raw.message;
          tests = sanitize_test-IsMasked raw.tests;
          stdout = sanitize_error-IsClean o.stdout;
          stderr = sanitize_error-IsClean o.stderr;
          artifacts =
              collect_artifacts_sound t (artifact_of sb o) t.artifacts [] artifacts
                (contains-All t.artifacts) tt ha;
        })

  run_in-IsServed :
      (work : String) (response : RunResponse)
      → admit c sb request ≡ ok t
      → sb.workspace ≡ some work
      → (run_in sb t request work).1 ≡ ok response
      → IsServed c sb request response
  unfolding run_in
  run_in-IsServed work response admitted hosted h =
      elim (Result-cases (command_of sb t request work)) [
        | inr (e, k) ↦ let failed : (run_in sb t request work).1 ≡ err e = ground (arith, k) in cc
        | inl (args, k) ↦
            let ended : (run_in sb t request work).1 ≡ conclude sb t request (sb.execute args) =
              ground (arith, k) in
            conclude-IsServed work args response admitted hosted k (sym ended ∙ h)
      ]

  run_below-IsServed :
      (response : RunResponse)
      → admit c sb request ≡ ok t
      → (run_below sb t request).1 ≡ ok response
      → IsServed c sb request response
  run_below-IsServed response admitted h = elim (run_below-cases sb t request) [
    | inl k ↦ let failed = sym (ap (λ r. r.1) k) ∙ h in cc
    | inr (work, hosted, k) ↦
        run_in-IsServed work response admitted hosted (sym (ap (λ r. r.1) k) ∙ h)
  ]

  run_admitted-IsServed :
      (response : RunResponse)
      → admit c sb request ≡ ok t
      → (run_admitted sb t request).1 ≡ ok response
      → IsServed c sb request response
  run_admitted-IsServed response admitted h = elim (run_admitted-cases sb t request) [
    | inl (_, k) ↦ run_below-IsServed response admitted (sym (ap (λ r. r.1) k) ∙ h)
    | inr (inl (_, k)) ↦ run_below-IsServed response admitted (sym (ap (λ r. r.1) k) ∙ h)
    | inr (inr (_, _, k)) ↦ let failed = sym (ap (λ r. r.1) k) ∙ h in cc
  ]

-- A run that returns a response was of a released, packaged task of a bound catalogue, in an image
-- whose digest was verified, with files that validateFiles accepts and a timeout within the bounds.
-- One isolated container of the task ended in time and without an error, and what it wrote as its
-- results, one MiB at most, decodes to results that validateResults accepts. The response has their
-- version, their verdict and the name and verdict of each of their tests, no source of a test, and no
-- directory of the container in its messages, its outputs and its artifacts, which are among the
-- task's own and have safe paths.
pub run-IsServed :
    (c : Catalogue) (sb : Sandbox) (request : RunRequest) (response : RunResponse)
    → (run c sb request).1 ≡ ok response
    → IsServed c sb request response
unfolding run
run-IsServed c sb request response h = elim (Result-cases (admit c sb request)) [
  | inr (e, k) ↦ absurd (ground (arith, k, h))
  | inl (t, k) ↦
      let inside : (run c sb request).1 ≡ (run_admitted sb t request).1 = ground (arith, k) in
      run_admitted-IsServed c sb request t response k (sym inside ∙ h)
]
