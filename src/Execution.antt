-- ===== src/Execution.antt =====
-- What internal/engine/docker_executor.go does before and after the sandbox: the checks of submitted
-- files and of results, and the capture of output. Paths are those of a Unix system.
pub mod Results
pub mod Files
pub mod Capture
pub mod Sanitize
pub mod Sandbox
pub mod Preparation
pub mod Running
use Prim.Native.String.{len}
use fluent_task_runtime.Base.{
  take, ℕ, zero, suc, ◌+◌, ◌-◌, ◌*◌, ◌/◌, ◌%◌, ◌≤◌, ◌<◌, Char, code, String, ◌<>◌, ◌≡◌, refl, sym,
  ap, ap₂, ◌∙◌, subst, ◌≢◌, ◌↔◌, ◌⊎◌, inl, inr, Bool, true, false, not, ◌&&◌, ◌||◌, Option, none,
  some, List, [], ◌∷◌, ◌++◌, map, arith, if◌then◌else◌, ltb, leb, Eq, ◌==◌, ==_iff, string_eq,
  nat_eq, Bool-cases, and-eq-true, ne_of_test, Result, ok, ok_unique, err, ◌>>=◌, ◌>>◌, guard,
  refuse, expect, is_found, wrap, >>=-eq-ok, guard-eq-ok, refuse-eq-ok, wrap-eq-ok, expect-eq-ok,
  Option-cases, Result-cases, length, is_empty, all, length-append, All, All-append, All-mem,
  All-map, All-zip, Distinct, contains, contains-mem, mem_of_contains, Memᴰ, Perm, perm_of_Distinct,
  Distinct-of_map, contains-eq-false_iff, Fresh, Fresh-nil, Fresh-cons, Fresh-snoc,
}
use fluent_task_runtime.Text.{is_blank, split, has_prefix}
use fluent_task_runtime.Numbers.{pos, le_int}
use fluent_task_runtime.Contracts.{TestResult, TestResults}

pub data ResultsError : Type 0 where
  nonpositive_version invalid_status missing_tests unnamed_test invalid_test_status
        missing_message :
      ResultsError

abbrev pub is_verdict : String → Bool
is_verdict s = s == "pass" || s == "fail" || s == "error"

unfoldable pub check_test : TestResult → Result ResultsError (Unit {0})
check_test t = do
  refuse (is_blank t.name) unnamed_test
  guard (is_verdict t.status) invalid_test_status
  refuse ((t.status == "fail" || t.status == "error") && is_blank t.message) missing_message

unfoldable pub check_tests : List TestResult → Result ResultsError (Unit {0})
check_tests [] = ok tt
check_tests (t ∷ tests) = do check_test t; check_tests tests

unfoldable pub validate_results : TestResults → Result ResultsError (Unit {0})
validate_results r = do
  refuse (le_int r.version (pos 0)) nonpositive_version
  guard (is_verdict r.status) invalid_status
  refuse (not (r.status == "error") && is_empty r.tests) missing_tests
  check_tests r.tests

-- filepath.Clean of a path that is not absolute: the segments that remain, the last one first.
abbrev push_segment : List String → String → List String
push_segment [] s = s ∷ []
push_segment (top ∷ kept) s = if s == ".." && not (top == "..") then kept else s ∷ top ∷ kept

unfoldable pub clean_segments : List String → List String → List String
clean_segments kept [] = kept
clean_segments kept (s ∷ segments) =
    if s == "" || s == "."
    then clean_segments kept segments
    else clean_segments (push_segment kept s) segments

-- The segments, the last one first, with their separators.
unfoldable pub join_segments : List String → String
join_segments [] = "."
join_segments (s ∷ []) = s
join_segments (s ∷ t ∷ segments) = join_segments (t ∷ segments) <> "/" <> s

unfoldable pub clean : String → String
clean path = join_segments (clean_segments [] (split b'/' path))

-- Whether the text has a backslash.
unfoldable pub has_backslash : String → Bool
has_backslash String.[] = false
has_backslash (String.◌∷◌ c s) = code c == b'\\' || has_backslash s

unfoldable pub safe_relative_path : String → Bool
safe_relative_path value =
    if value == "" || has_prefix value "/" || has_backslash value
    then false
    else clean value == value
      && not (clean value == ".")
      && not (clean value == "..")
      && not (has_prefix (clean value) "../")

pub data FilesError : Type 0 where
  too_many_files too_many_bytes : FilesError
  unsafe_path not_editable : String → FilesError

abbrev pub request_files_limit : ℕ
request_files_limit = 32

abbrev pub request_bytes_limit : ℕ
request_bytes_limit = 1048576

-- The loop over the submitted files, in some order, with the bytes so far.
unfoldable pub check_files : List String → ℕ → List (String × String) → Result FilesError (Unit {0})
check_files editable total [] = ok tt
check_files editable total ((name, content) ∷ files) = do
  guard (safe_relative_path name) (unsafe_path name)
  guard (contains editable name) (not_editable name)
  refuse (ltb request_bytes_limit (total + len content)) too_many_bytes
  check_files editable (total + len content) files

unfoldable pub validate_files : List (String × String) → List String → Result FilesError (Unit {0})
validate_files files editable = do
  refuse (ltb request_files_limit (length files)) too_many_files
  check_files editable 0 files

pub record LimitedBuffer : Type 0 where
  pub content : List ℕ
  pub limit : ℕ
  pub truncated : Bool

-- limitedBuffer.Write: the buffer, and the count that is returned.
unfoldable pub write : LimitedBuffer → List ℕ → LimitedBuffer × ℕ
write b p =
    if leb b.limit (length b.content)
    then (record b { truncated = true }, length p)
    else if ltb (b.limit - length b.content) (length p)
    then (
      record b { content = b.content ++ take (b.limit - length b.content) p; truncated = true },
      b.limit - length b.content,
    )
    else (record b { content = b.content ++ p }, length p)

-- readBounded of a file whose content is delivered, if it can be: one byte more than the limit is
-- read at most.
unfoldable pub read_bounded : Option (List ℕ) → ℕ → Option (List ℕ)
read_bounded none limit = none
read_bounded (some bytes) limit =
    if ltb limit (length (take (limit + 1) bytes)) then none else some (take (limit + 1) bytes)
