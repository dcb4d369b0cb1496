-- ===== src/Tests/Execution.antt =====
-- Submitted files, results and captured output.
use fluent_task_runtime.Base.{
  take, ℕ, ◌≤◌, ◌<◌, String, ◌≡◌, refl, ◌↔◌, ◌⊎◌, true, false, none, some, List, [], ◌∷◌, string_eq,
  nat_eq, ok, err, length, All, contains,
}
use fluent_task_runtime.Text.{is_blank, split}
use fluent_task_runtime.Numbers.{pos, le_int, lt_int}
use fluent_task_runtime.Contracts.{TestResult, TestResults}
use fluent_task_runtime.Execution.{
  check_test, check_tests, validate_results, missing_message, clean_segments, join_segments, clean,
  has_backslash, safe_relative_path, not_editable, unsafe_path, check_files, validate_files,
  request_files_limit, request_bytes_limit, write, read_bounded,
}
use fluent_task_runtime.Execution.Results.{AreReported, validate_results_iff}
use fluent_task_runtime.Execution.Files.{IsSubmittable, size, validate_files_iff}
use fluent_task_runtime.Execution.Capture.{
  fresh, write_all, concat, write_all-take, read_bounded_lem,
}

execution : Unit {0}
unfolding is_blank split le_int lt_int check_test check_tests validate_results clean_segments
    join_segments clean has_backslash safe_relative_path contains check_files validate_files take
    write read_bounded string_eq nat_eq
execution = tt

abbrev pub passed : TestResult
passed = record { name = "allows"; status = "pass"; message = ""; output = ""; test_code = "" }

abbrev pub report : TestResults
report = record { version = pos 3; status = "pass"; message = ""; tests = passed ∷ [] }

abbrev silent : TestResults
silent = record report { status = "fail"; tests = record passed { status = "fail" } ∷ [] }

results : (validate_results report ≡ ok tt) × (validate_results silent ≡ err missing_message)
unfolding execution
results = (refl, refl)

paths :
    (safe_relative_path "src/limiter.go" ≡ true)
    × (safe_relative_path "../task.json" ≡ false)
    × (safe_relative_path "a/../b" ≡ false)
    × (safe_relative_path "/etc/passwd" ≡ false)
    × (safe_relative_path "a/" ≡ false)
    × (safe_relative_path "..a" ≡ true)
    × (clean "../../a/./b//c/.." ≡ "../../a/b")
unfolding execution
paths = (refl, refl, refl, refl, refl, refl, refl)

abbrev files : List (String × String)
files = ("src/limiter.go", "package main") ∷ ("go.mod", "") ∷ []

abbrev editable : List String
editable = "go.mod" ∷ "src/limiter.go" ∷ []

submissions :
    (validate_files files editable ≡ ok tt)
    × (validate_files files ("go.mod" ∷ []) ≡ err (not_editable "src/limiter.go"))
    × (validate_files (("../a", "") ∷ []) ("../a" ∷ []) ≡ err (unsafe_path "../a"))
unfolding execution
submissions = (refl, refl, refl)

-- A write that is cut short returns the count of the bytes that it kept.
short_count : (write (fresh 2) (1 ∷ 2 ∷ 3 ∷ [])).1 ≡ 2
unfolding execution
short_count = refl

validate_results_iff_example : (validate_results report ≡ ok tt) ↔ AreReported report
validate_results_iff_example = validate_results_iff report

validate_files_iff_example : (validate_files files editable ≡ ok tt) ↔ (
    (length files ≤ request_files_limit)
    × All (IsSubmittable editable) files
    × (size files ≤ request_bytes_limit))
validate_files_iff_example = validate_files_iff files editable

abbrev chunks : List (List ℕ)
chunks = (1 ∷ 2 ∷ []) ∷ (3 ∷ 4 ∷ []) ∷ (5 ∷ []) ∷ []

write_all-take_example : (write_all (fresh 3) chunks).content ≡ take 3 (concat chunks)
write_all-take_example = write_all-take 3 chunks

read_bounded_lem_example :
    ((3 ≤ 2) × (read_bounded (some (1 ∷ 2 ∷ 3 ∷ [])) 2 ≡ some (1 ∷ 2 ∷ 3 ∷ [])))
    ⊎ ((2 < 3) × (read_bounded (some (1 ∷ 2 ∷ 3 ∷ [])) 2 ≡ none))
read_bounded_lem_example = read_bounded_lem (1 ∷ 2 ∷ 3 ∷ []) 2
