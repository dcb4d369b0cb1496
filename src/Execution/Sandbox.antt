-- ===== src/Execution/Sandbox.antt =====
-- How a container is addressed: verifyImageDigest, dockerContainerName and dockerArgs of
-- internal/engine/docker_executor.go. The Docker command is a parameter.
pub mod Arguments
use fluent_task_runtime.Base.{
  ℕ, zero, suc, ◌+◌, ◌-◌, ◌*◌, ◌/◌, ◌%◌, ◌≤◌, ◌<◌, Char, code, String, ◌<>◌, ◌≡◌, refl, sym, ap,
  ap₂, ◌∙◌, subst, ◌≢◌, ◌↔◌, ◌⊎◌, inl, inr, Bool, true, false, not, ◌&&◌, ◌||◌, Option, none, some,
  List, [], ◌∷◌, ◌++◌, map, arith, if◌then◌else◌, ltb, leb, Eq, ◌==◌, ==_iff, string_eq, nat_eq,
  Bool-cases, and-eq-true, ne_of_test, Result, ok, ok_unique, err, ◌>>=◌, ◌>>◌, guard, refuse,
  expect, is_found, wrap, >>=-eq-ok, guard-eq-ok, refuse-eq-ok, wrap-eq-ok, expect-eq-ok,
  Option-cases, Result-cases, length, is_empty, all, length-append, All, All-append, All-mem,
  All-map, All-zip, Distinct, contains, contains-mem, mem_of_contains, Memᴰ, Perm, perm_of_Distinct,
  Distinct-of_map, contains-eq-false_iff, Fresh, Fresh-nil, Fresh-cons, Fresh-snoc,
}
use fluent_task_runtime.Text.{trim_space}
use fluent_task_runtime.Text.Decimal.{decimal_int}
use fluent_task_runtime.Numbers.{ℤ, pos, lt_int, Float64, is_positive}
use fluent_task_runtime.Regex.{any, Regex, chars, seq, star, times, literal, match_string}
use fluent_task_runtime.Keys.{hex}
use fluent_task_runtime.Contracts.{Task}
use fluent_task_runtime.Execution.Sanitize.{sanitize_error, safe_token}

-- `@sha256:[0-9a-f]{64}$`, behind whatever a search skips.
unfoldable pub immutable_image_pattern : Regex
unfolding times literal
immutable_image_pattern = seq (star any) (seq (literal "@sha256:") (times 64 hex))

-- `docker image inspect`: it is cut off, it fails with a text on stderr and an error, or it prints
-- what is a list of digests or is not.
pub data Inspection : Type 0 where
  timed_out : Inspection
  failed : String → String → Inspection
  printed : Option (List String) → Inspection

pub data ImageError : Type 0 where
  mutable_image inspection_timed_out malformed_digests digest_mismatch : String → ImageError
  image_unavailable : String → String → ImageError

abbrev first_message : String → String → String
first_message message fallback = if message == "" then fallback else message

unfoldable pub has_digest : String → List String → Bool
has_digest image [] = false
has_digest image (digest ∷ digests) = trim_space digest == image || has_digest image digests

abbrev check_inspection : String → Inspection → Result ImageError (Unit {0})
check_inspection image timed_out = err (inspection_timed_out image)
check_inspection image (failed stderr error) = err (
    image_unavailable image
      (first_message (trim_space (sanitize_error stderr)) (sanitize_error error)))
check_inspection image (printed none) = err (malformed_digests image)
check_inspection image (printed (some digests)) =
    guard (has_digest image digests) (digest_mismatch image)

unfoldable pub verify_image_digest : (String → Inspection) → String → Result ImageError (Unit {0})
unfolding immutable_image_pattern match_string
verify_image_digest inspect raw = do
  let image = trim_space raw
  guard (match_string immutable_image_pattern image) (mutable_image image)
  check_inspection image (inspect image)

unfoldable pub docker_container_name : String → String → String
docker_container_name task_id correlation_id =
    "fluent-runtime-task-" <> safe_token task_id <> "-" <> safe_token correlation_id

-- The disposable directories.
pub record Directories : Type 0 where
  pub input : String
  pub hidden : String
  pub output : String

-- `args[len(args)-1]` is the image: the user stands before it.
abbrev pub with_user : String → String → List String
with_user user image = if user == "" then image ∷ [] else "--user" ∷ user ∷ image ∷ []

abbrev pub docker_options : (Float64 → String) → Task → Directories → String → List String
docker_options format_float t dirs name =
    "run"
    ∷ "--rm"
    ∷ "--name"
    ∷ name
    ∷ "--pull"
    ∷ "never"
    ∷ "--log-driver"
    ∷ "none"
    ∷ "--network"
    ∷ "none"
    ∷ "--memory"
    ∷ (decimal_int t.memory_mb <> "m")
    ∷ "--memory-swap"
    ∷ (decimal_int t.memory_mb <> "m")
    ∷ "--cpus"
    ∷ format_float t.cpus
    ∷ "--pids-limit"
    ∷ "256"
    ∷ "--cap-drop"
    ∷ "ALL"
    ∷ "--security-opt"
    ∷ "no-new-privileges"
    ∷ "--read-only"
    ∷ "--tmpfs"
    ∷ "/tmp:rw,noexec,nosuid,size=128m"
    ∷ "-v"
    ∷ (dirs.input <> ":/solution:ro")
    ∷ "-v"
    ∷ (dirs.hidden <> ":/hidden-tests:ro")
    ∷ "-v"
    ∷ (dirs.output <> ":/output")
    ∷ []

-- `none` is the panic. `format_float` is fmt.Sprintf("%g", …).
unfoldable pub docker_args : (Float64 → String) → Task → Directories → String → Option (List String)
docker_args format_float t dirs correlation_id =
    if not (lt_int (pos 0) t.memory_mb) || not (is_positive t.cpus)
    then none
    else some (
        docker_options format_float t dirs (docker_container_name t.id correlation_id)
        ++ (with_user t.user t.image ++ t.check_command))
