-- ===== src/Families.antt =====
-- The manifest of task families, internal/engine/families.go: loadTaskFamilyManifest and
-- validateTaskFamilyManifest. taskFamilyRevisionKey has the fields of taskRevisionKey, and is the
-- same record here. An error is a constructor with the values that it prints, but for paths.
pub mod Binding
pub mod Hashing
pub mod Framing
pub mod Revisions
pub mod Laws
use fluent_task_runtime.Base.{
  ℕ, zero, suc, ◌+◌, ◌-◌, ◌*◌, ◌/◌, ◌%◌, ◌≤◌, ◌<◌, Char, code, String, ◌<>◌, ◌≡◌, refl, sym, ap,
  ap₂, ◌∙◌, subst, ◌≢◌, ◌↔◌, ◌⊎◌, inl, inr, Bool, true, false, not, ◌&&◌, ◌||◌, Option, none, some,
  List, [], ◌∷◌, ◌++◌, map, arith, if◌then◌else◌, ltb, leb, Eq, ◌==◌, ==_iff, string_eq, nat_eq,
  Bool-cases, and-eq-true, ne_of_test, Result, ok, err, ◌>>=◌, ◌>>◌, guard, refuse, expect,
  is_found, wrap, >>=-eq-ok, guard-eq-ok, refuse-eq-ok, wrap-eq-ok, expect-eq-ok, Option-cases,
  Result-cases, length, is_empty, all, length-append, All, All-append, All-mem, All-map, All-zip,
  Distinct, contains, contains-mem, mem_of_contains, Memᴰ, Perm, perm_of_Distinct, Distinct-of_map,
  contains-eq-false_iff, Fresh, Fresh-nil, Fresh-cons, Fresh-snoc,
}
use fluent_task_runtime.Base.Dict.{Dict, lookup}
use fluent_task_runtime.Text.{trim_space, is_blank, to_lower}
use fluent_task_runtime.Numbers.{ℤ, pos, lt_int}
use fluent_task_runtime.Regex.{match_string}
use fluent_task_runtime.Keys.{task_family_key_pattern, capability_key_pattern, is_content_hash}
use fluent_task_runtime.Documents.{Document, unreadable, malformed, decoded}
use fluent_task_runtime.Contracts.{LocalizedContractText}
use fluent_task_runtime.Release.{TaskRevisionKey, key_eq}

pub record TaskFamilyRevisionEntry : Type 0 where
  pub task_id : String
  pub revision : ℤ
  pub language : String
  pub profile : String
  pub availability : String
  pub immutable_hash : String

pub record TaskFamilyEntry : Type 0 where
  pub key : String
  pub title : LocalizedContractText
  pub brief : LocalizedContractText
  pub capability_keys : List String
  pub execution_kind : String
  pub rubric_ref : String
  pub status : String
  pub revisions : List TaskFamilyRevisionEntry

pub record TaskFamilyManifest : Type 0 where
  pub contract_version : String
  pub release_id : String
  pub families : List TaskFamilyEntry

pub data FamilyError : Type 0 where
  unstatable_manifest unreadable_manifest undecodable_manifest : FamilyError
  unsupported_contract : String → FamilyError
  incomplete_manifest : FamilyError
  invalid_family_key duplicate_family_key : String → FamilyError
  incomplete_title missing_rubric : String → FamilyError
  invalid_status invalid_execution_kind : String → String → FamilyError
  empty_family : String → FamilyError
  invalid_capability repeated_capability : String → String → FamilyError
  invalid_revision_identity : String → FamilyError
  incomplete_revision : String → TaskRevisionKey → FamilyError
  mixed_discipline : String → String → TaskRevisionKey → FamilyError
  invalid_availability : String → TaskRevisionKey → String → FamilyError
  shared_revision : TaskRevisionKey → String → String → FamilyError

-- `executionKind` after the defaults of an empty one.
unfoldable pub execution_kind_of : String → String → String
execution_kind_of release_id declared =
    if trim_space declared == ""
    then (if release_id == "task-family-release-2026-08-25" then "legacy" else "code")
    else trim_space declared

abbrev pub is_family_status : String → Bool
is_family_status s = s == "released" || s == "unreleased" || s == "draft"

abbrev pub is_execution_kind : String → Bool
is_execution_kind kind = kind == "code" || kind == "sql" || kind == "legacy"

abbrev pub is_availability : String → Bool
is_availability a =
    a == "runnable"
    || a == "brief_only"
    || a == "profile_unavailable"
    || a == "superseded"
    || a == "unreleased"

unfoldable pub check_family_capabilities :
    String → List String → List String → Result FamilyError (Unit {0})
check_family_capabilities family seen [] = ok tt
check_family_capabilities family seen (raw ∷ capabilities) = do
  let capability = trim_space raw
  guard (match_string capability_key_pattern capability) (invalid_capability family capability)
  refuse (contains seen capability) (repeated_capability family capability)
  check_family_capabilities family (capability ∷ seen) capabilities

abbrev pub family_revision_key : TaskFamilyRevisionEntry → TaskRevisionKey
family_revision_key r = record { id = trim_space r.task_id; revision = r.revision }

-- An SQL family holds revisions of SQL on Postgres, and a code family none that are either.
unfoldable pub check_discipline :
    (Char → Char) → String → String → TaskFamilyRevisionEntry → Result FamilyError (Unit {0})
check_discipline unicode_lower family kind r = do
  let language = to_lower unicode_lower (trim_space r.language)
  let profile = to_lower unicode_lower (trim_space r.profile)
  refuse (kind == "sql" && (not (language == "sql") || not (profile == "postgres")))
      (mixed_discipline family kind (family_revision_key r))
  refuse (kind == "code" && (language == "sql" || profile == "postgres"))
      (mixed_discipline family kind (family_revision_key r))

unfoldable pub check_revision_fields :
    String → TaskFamilyRevisionEntry → Result FamilyError (Unit {0})
check_revision_fields family r = do
  refuse (trim_space r.task_id == "" || lt_int r.revision (pos 1))
      (invalid_revision_identity family)
  refuse (r.language == "" || r.profile == "" || not (is_content_hash r.immutable_hash))
      (incomplete_revision family (family_revision_key r))

-- The checks of one revision of a family, before it is looked up among those seen.
unfoldable pub check_family_revision :
    (Char → Char) → String → String → TaskFamilyRevisionEntry → Result FamilyError (Unit {0})
check_family_revision unicode_lower family kind r = do
  check_revision_fields family r
  check_discipline unicode_lower family kind r
  guard (is_availability r.availability)
      (invalid_availability family (family_revision_key r) r.availability)

-- The loop over a family's revisions; `seen` is the map `seenRevisions`, from keys to families.
unfoldable pub check_family_revisions :
    (Char → Char)
    → String
    → String
    → Dict TaskRevisionKey String
    → List TaskFamilyRevisionEntry
    → Result FamilyError (Dict TaskRevisionKey String)
check_family_revisions unicode_lower family kind seen [] = ok seen
check_family_revisions unicode_lower family kind seen (r ∷ revisions) = do
  check_family_revision unicode_lower family kind r
  elim (lookup (family_revision_key r) seen) [
    | some owner ↦ err (shared_revision (family_revision_key r) owner family)
    | none ↦
        check_family_revisions unicode_lower family kind ((family_revision_key r, family) ∷ seen)
          revisions
  ]

-- The checks of a family's own fields.
unfoldable pub check_family_fields :
    String → String → TaskFamilyEntry → Result FamilyError (Unit {0})
check_family_fields release_id key f = do
  refuse (is_blank f.title.en || is_blank f.title.ru || is_blank f.brief.en || is_blank f.brief.ru)
      (incomplete_title key)
  refuse (is_blank f.rubric_ref) (missing_rubric key)
  guard (is_family_status f.status) (invalid_status key f.status)
  guard (is_execution_kind (execution_kind_of release_id f.execution_kind))
      (invalid_execution_kind key f.execution_kind)
  refuse (is_empty f.capability_keys || is_empty f.revisions) (empty_family key)

unfoldable pub check_family :
    (Char → Char)
    → String
    → List String
    → Dict TaskRevisionKey String
    → TaskFamilyEntry
    → Result FamilyError (Dict TaskRevisionKey String)
check_family unicode_lower release_id seen revisions f = do
  let key = trim_space f.key
  guard (match_string task_family_key_pattern key) (invalid_family_key key)
  refuse (contains seen key) (duplicate_family_key key)
  check_family_fields release_id key f
  check_family_capabilities key [] f.capability_keys
  check_family_revisions unicode_lower key (execution_kind_of release_id f.execution_kind) revisions
      f.revisions

unfoldable pub check_families :
    (Char → Char)
    → String
    → List String
    → Dict TaskRevisionKey String
    → List TaskFamilyEntry
    → Result FamilyError (Dict TaskRevisionKey String)
check_families unicode_lower release_id seen revisions [] = ok revisions
check_families unicode_lower release_id seen revisions (f ∷ families) = do
  later ← check_family unicode_lower release_id seen revisions f
  check_families unicode_lower release_id (trim_space f.key ∷ seen) later families

unfoldable pub validate_task_family_manifest :
    (Char → Char) → TaskFamilyManifest → Result FamilyError (Unit {0})
validate_task_family_manifest unicode_lower m = do
  _ ← check_families unicode_lower m.release_id [] [] m.families
  ok tt

abbrev contract_families : String
contract_families = "fluent-task-runtime.task-families.v1"

unfoldable pub decode_families :
    (Char → Char) → Document TaskFamilyManifest → Result FamilyError (Option TaskFamilyManifest)
decode_families unicode_lower unreadable = err unreadable_manifest
decode_families unicode_lower malformed = err undecodable_manifest
decode_families unicode_lower (decoded m) = do
  guard (m.contract_version == contract_families) (unsupported_contract m.contract_version)
  refuse (is_blank m.release_id || is_empty m.families) incomplete_manifest
  validate_task_family_manifest unicode_lower m
  ok (some m)

-- os.Stat of the path that serves where none is configured.
pub data Presence : Type 0 where
  present missing unknown : Presence

-- `path` is the variable RUNTIME_TASK_FAMILY_MANIFEST.
unfoldable pub load_task_family_manifest :
    (Char → Char)
    → String
    → Presence
    → (String → Document TaskFamilyManifest)
    → Result FamilyError (Option TaskFamilyManifest)
load_task_family_manifest unicode_lower path stat document =
    if trim_space path == ""
    then (elim stat [
      | missing ↦ ok none
      | unknown ↦ err unstatable_manifest
      | present ↦ decode_families unicode_lower (document "task-families/manifest.json")
    ])
    else decode_families unicode_lower (document (trim_space path))
