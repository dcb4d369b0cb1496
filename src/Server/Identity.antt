-- ===== src/Server/Identity.antt =====
-- The build identity of internal/httpapi/server.go.
pub mod Bounds
use Prim.Native.String.{char_at}
use fluent_task_runtime.Base.{
  ℕ, zero, suc, ◌+◌, ◌-◌, ◌*◌, ◌/◌, ◌%◌, ◌≤◌, ◌<◌, Char, code, String, ◌<>◌, ◌≡◌, refl, sym, ap,
  ap₂, ◌∙◌, subst, ◌≢◌, ◌↔◌, ◌⊎◌, inl, inr, Bool, true, false, not, ◌&&◌, ◌||◌, Option, none, some,
  List, [], ◌∷◌, ◌++◌, map, arith, if◌then◌else◌, ltb, leb, Eq, ◌==◌, ==_iff, string_eq, nat_eq,
  Bool-cases, and-eq-true, ne_of_test, Result, ok, ok_unique, err, ◌>>=◌, ◌>>◌, guard, refuse,
  expect, is_found, wrap, >>=-eq-ok, guard-eq-ok, refuse-eq-ok, wrap-eq-ok, expect-eq-ok,
  Option-cases, Result-cases, Refused, Refused-bind, Refused-guard, Refused-refuse, Refused-expect,
  Refused-wrap, Refused-err, length, is_empty, all, length-append, All, All-append, All-mem,
  All-map, All-zip, Distinct, contains, contains-mem, mem_of_contains, Memᴰ, Perm, perm_of_Distinct,
  Distinct-of_map, contains-eq-false_iff, Fresh, Fresh-nil, Fresh-cons, Fresh-snoc,
}
use fluent_task_runtime.Text.{between, trim_space}

-- The letters and digits of ASCII, and "._:/+-".
unfoldable pub is_identity_char : ℕ → Bool
unfolding nat_eq
is_identity_char n =
    between b'a' b'z' n
    || between b'A' b'Z' n
    || between b'0' b'9' n
    || n == b'.'
    || n == b'_'
    || n == b':'
    || n == b'/'
    || n == b'+'
    || n == b'-'

-- What the loop writes when `written` bytes stand in the builder, each character being one byte.
unfoldable pub bounded_from : ℕ → String → String
bounded_from written String.[] = ""
bounded_from written (String.◌∷◌ c s) =
    let rest = bounded_from (written + 1) s in
    let kept = if leb 79 (written + 1) then "" else rest in
    String.◌∷◌ (if is_identity_char (code c) then c else char_at "-" 0) kept

-- boundedIdentity
unfoldable pub bounded_identity : String → String
bounded_identity value = if bounded_from 0 value == "" then "unknown" else bounded_from 0 value

pub record BuildIdentity : Type 0 where
  pub source_revision : String
  pub release_id : String
  pub environment : String

-- `if value == "" { value = … }`
abbrev pub fallback : String → String → String
fallback value other = if value == "" then other else value

-- buildIdentity
abbrev pub build_identity : (String → String) → String → BuildIdentity
build_identity getenv release = record {
  source_revision = bounded_identity (
      fallback (trim_space (getenv "SOURCE_REVISION"))
        (fallback (trim_space (getenv "TASK_RUNTIME_SOURCE_REVISION")) "unknown"));
  release_id =
      bounded_identity
        (fallback release (fallback (trim_space (getenv "FEL_RELEASE_ID")) "unreleased"));
  environment = bounded_identity (
      fallback (trim_space (getenv "FEL_ENVIRONMENT"))
        (fallback (trim_space (getenv "NODE_ENV")) "unknown"));
}
