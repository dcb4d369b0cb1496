-- ===== src/Execution/Files.antt =====
-- What validateFiles of internal/engine/docker_executor.go accepts.
use Prim.Native.String.{len}
use fluent_task_runtime.Base.{
  ℕ, ◌+◌, ◌≤◌, String, ◌≡◌, refl, ◌↔◌, true, false, List, [], ◌∷◌, arith, ltb, string_eq, nat_eq,
  ok, guard-eq-ok, refuse-eq-ok, length, All, contains,
}
use fluent_task_runtime.Execution.{
  safe_relative_path, check_files, validate_files, request_files_limit, request_bytes_limit,
}

-- The bytes of all files.
abbrev pub size : List (String × String) → ℕ
size [] = 0
size ((name, content) ∷ files) = len content + size files

abbrev pub IsSubmittable : List String → String × String → Type 0
IsSubmittable editable (name, content) =
    (safe_relative_path name ≡ true) × (contains editable name ≡ true)

check_files_sound :
    (editable : List String) (total : ℕ) (files : List (String × String))
    → check_files editable total files ≡ ok tt
    → total ≤ request_bytes_limit
    → All (IsSubmittable editable) files × (total + size files ≤ request_bytes_limit)
unfolding check_files
check_files_sound editable total [] h below = (tt, omega arith)
check_files_sound editable total ((name, content) ∷ files) h below =
    let (safe, h₁) = guard-eq-ok (safe_relative_path name) _ _ h in
    let (own, h₂) = guard-eq-ok (contains editable name) _ _ h₁ in
    let (within, h₃) = refuse-eq-ok (ltb request_bytes_limit (total + len content)) _ _ h₂ in
    let (later, bounded) =
      check_files_sound editable (total + len content) files h₃ (ground (arith, within)) in
    (((safe, own), later), omega (arith, bounded))

check_files_complete :
    (editable : List String) (total : ℕ) (files : List (String × String))
    → All (IsSubmittable editable) files
    → total + size files ≤ request_bytes_limit
    → check_files editable total files ≡ ok tt
unfolding check_files
check_files_complete editable total [] h below = refl
check_files_complete editable total ((name, content) ∷ files) ((safe, own), h) below =
    let within : ltb request_bytes_limit (total + len content) ≡ false = ground arith in
    rw (safe, own, within)
      (check_files_complete editable (total + len content) files h (omega (arith, below)))

-- validateFiles succeeds exactly when at most 32 files are submitted, each under a safe relative
-- path that the task declares editable, with at most 1048576 bytes in all.
pub validate_files_iff :
    (files : List (String × String)) (editable : List String)
    → (validate_files files editable ≡ ok tt) ↔ (
        (length files ≤ request_files_limit)
        × All (IsSubmittable editable) files
        × (size files ≤ request_bytes_limit))
unfolding validate_files
validate_files_iff files editable = (
  λ h.
      let (few, h₁) = refuse-eq-ok (ltb request_files_limit (length files)) _ _ h in
      let (own, bounded) = check_files_sound editable 0 files h₁ (omega arith) in
      (ground (arith, few), own, omega (arith, bounded)),
  λ (few, own, bounded).
      let enough : ltb request_files_limit (length files) ≡ false = ground arith in
      rw enough (check_files_complete editable 0 files own (omega (arith, bounded))),
)
