-- ===== src/Families/Laws.antt =====
-- What validateTaskFamilyManifest of internal/engine/families.go guarantees.
use fluent_task_runtime.Base.{
  Char, String, ◌≡◌, ◌≢◌, true, false, ◌||◌, List, [], ◌∷◌, ◌++◌, map, arith, string_eq, nat_eq, ok,
  >>=-eq-ok, guard-eq-ok, refuse-eq-ok, All, Distinct, contains, Fresh, Fresh-nil, Fresh-cons,
}
use fluent_task_runtime.Base.Dict.{Dict}
use fluent_task_runtime.Text.{trim_space, is_blank}
use fluent_task_runtime.Regex.{match_string}
use fluent_task_runtime.Keys.{task_family_key_pattern, capability_key_pattern}
use fluent_task_runtime.Release.{TaskRevisionKey, key_eq}
use fluent_task_runtime.Families.{
  TaskFamilyEntry, TaskFamilyManifest, execution_kind_of, is_family_status, is_execution_kind,
  check_family_capabilities, family_revision_key, check_family_fields, check_family, check_families,
  validate_task_family_manifest,
}
use fluent_task_runtime.Families.Revisions.{
  IsFamilyRevision, keys_seen, check_family_revisions_sound,
}

abbrev pub AreFamilyCapabilities : List String → Type 0
AreFamilyCapabilities keys =
    All (λ k. match_string capability_key_pattern (trim_space k) ≡ true) keys
    × Distinct (map trim_space keys)

-- A family that may stand in a manifest of this release.
pub record IsFamily (unicode_lower : Char → Char) (release_id : String) (f : TaskFamilyEntry)
    : Type 0 where
  pub key : match_string task_family_key_pattern (trim_space f.key) ≡ true
  pub titled : (is_blank f.title.en ≡ false) × (is_blank f.title.ru ≡ false)
  pub briefed : (is_blank f.brief.en ≡ false) × (is_blank f.brief.ru ≡ false)
  pub rubric : is_blank f.rubric_ref ≡ false
  pub status : is_family_status f.status ≡ true
  pub kind : is_execution_kind (execution_kind_of release_id f.execution_kind) ≡ true
  pub some_capability : f.capability_keys ≢ []
  pub some_revision : f.revisions ≢ []
  pub capabilities : AreFamilyCapabilities f.capability_keys
  pub revisions :
      All
        (IsFamilyRevision unicode_lower (execution_kind_of release_id f.execution_kind))
        f.revisions

-- The keys of the revisions of all families, in the manifest's order.
abbrev pub revision_keys : List TaskFamilyEntry → List TaskRevisionKey
revision_keys [] = []
revision_keys (f ∷ families) = map family_revision_key f.revisions ++ revision_keys families

abbrev family_keys : List TaskFamilyEntry → List String
family_keys families = map (λ f. trim_space f.key) families

pub record AreFamilies (unicode_lower : Char → Char) (m : TaskFamilyManifest) : Type 0 where
  pub families : All (IsFamily unicode_lower m.release_id) m.families
  pub distinct : Distinct (family_keys m.families)
  -- No revision belongs to two families, nor twice to one.
  pub separate : Distinct (revision_keys m.families)

check_family_capabilities_sound :
    (family : String) (seen capabilities : List String) {u : Unit {0}}
    → check_family_capabilities family seen capabilities ≡ ok u
    → All (λ k. match_string capability_key_pattern (trim_space k) ≡ true) capabilities
      × Fresh seen (map trim_space capabilities)
unfolding check_family_capabilities
check_family_capabilities_sound family seen [] h = (tt, (tt, tt))
check_family_capabilities_sound family seen (raw ∷ capabilities) h =
    let (shaped, h₁) = guard-eq-ok (match_string capability_key_pattern (trim_space raw)) _ _ h in
    let (new, h₂) = refuse-eq-ok (contains seen (trim_space raw)) _ _ h₁ in
    let (valid, fresh) =
      check_family_capabilities_sound family (trim_space raw ∷ seen) capabilities h₂ in
    (
      (shaped, valid),
      (Fresh-cons (trim_space raw) seen (map trim_space capabilities)).1 (new, fresh),
    )

abbrev IsFieldsOk : String → TaskFamilyEntry → Type 0
IsFieldsOk release_id f =
    ((is_blank f.title.en ≡ false) × (is_blank f.title.ru ≡ false))
    × ((is_blank f.brief.en ≡ false) × (is_blank f.brief.ru ≡ false))
    × (is_blank f.rubric_ref ≡ false)
    × (is_family_status f.status ≡ true)
    × (is_execution_kind (execution_kind_of release_id f.execution_kind) ≡ true)
    × (f.capability_keys ≢ [])
    × (f.revisions ≢ [])

check_family_fields_sound :
    (release_id key : String) (f : TaskFamilyEntry) {u : Unit {0}}
    → check_family_fields release_id key f ≡ ok u
    → IsFieldsOk release_id f
unfolding check_family_fields
check_family_fields_sound release_id key f h =
    let (texts, h₁) =
      refuse-eq-ok
        (is_blank f.title.en || is_blank f.title.ru || is_blank f.brief.en || is_blank f.brief.ru) _
        _ h in
    let (rubric, h₂) = refuse-eq-ok (is_blank f.rubric_ref) _ _ h₁ in
    let (status, h₃) = guard-eq-ok (is_family_status f.status) _ _ h₂ in
    let (kind, h₄) =
      guard-eq-ok (is_execution_kind (execution_kind_of release_id f.execution_kind)) _ _ h₃ in
    (
      (ground arith, ground arith),
      (ground arith, ground arith),
      rubric,
      status,
      kind,
      λ q. ground arith,
      λ q. ground arith,
    )

check_family_sound :
    (lower : Char → Char) (release_id : String) (seen : List String)
    (revisions out : Dict TaskRevisionKey String) (f : TaskFamilyEntry)
    → check_family lower release_id seen revisions f ≡ ok out
    → (contains seen (trim_space f.key) ≡ false)
      × IsFamily lower release_id f
      × ((later : List TaskRevisionKey)
          → Fresh (keys_seen out) later
          → Fresh (keys_seen revisions) (map family_revision_key f.revisions ++ later))
unfolding check_family
check_family_sound lower release_id seen revisions out f h =
    let (shaped, h₁) =
      guard-eq-ok (match_string task_family_key_pattern (trim_space f.key)) _ _ h in
    let (new, h₂) = refuse-eq-ok (contains seen (trim_space f.key)) _ _ h₁ in
    let (_, hf, h₃) = >>=-eq-ok (check_family_fields release_id (trim_space f.key) f) _ h₂ in
    let (_, hc, h₄) =
      >>=-eq-ok (check_family_capabilities (trim_space f.key) [] f.capability_keys) _ h₃ in
    let (titled, briefed, rubric, status, kind, some_capability, some_revision) =
      check_family_fields_sound release_id (trim_space f.key) f hf in
    let (valid, fresh) =
      check_family_capabilities_sound (trim_space f.key) [] f.capability_keys hc in
    let (sound, later_fresh) =
      check_family_revisions_sound lower (trim_space f.key)
        (execution_kind_of release_id f.execution_kind) revisions out f.revisions h₄ in
    (
      new,
      record {
        key = shaped;
        titled = titled;
        briefed = briefed;
        rubric = rubric;
        status = status;
        kind = kind;
        some_capability = some_capability;
        some_revision = some_revision;
        capabilities = (valid, (Fresh-nil (map trim_space f.capability_keys)).0 fresh);
        revisions = sound;
      },
      later_fresh,
    )

check_families_sound :
    (lower : Char → Char) (release_id : String) (seen : List String)
    (revisions out : Dict TaskRevisionKey String) (families : List TaskFamilyEntry)
    → check_families lower release_id seen revisions families ≡ ok out
    → All (IsFamily lower release_id) families
      × Fresh seen (family_keys families)
      × Fresh (keys_seen revisions) (revision_keys families)
unfolding check_families
check_families_sound lower release_id seen revisions out [] h = (tt, (tt, tt), (tt, tt))
check_families_sound lower release_id seen revisions out (f ∷ families) h =
    let (next, hf, later) = >>=-eq-ok (check_family lower release_id seen revisions f) _ h in
    let (new, valid, fresh) = check_family_sound lower release_id seen revisions next f hf in
    let (all_valid, distinct, separate) =
      check_families_sound lower release_id (trim_space f.key ∷ seen) next out families later in
    (
      (valid, all_valid),
      (Fresh-cons (trim_space f.key) seen (family_keys families)).1 (new, distinct),
      fresh (revision_keys families) separate,
    )

-- When the validation of a manifest of task families succeeds, each family is well-formed (key,
-- texts, status, discipline, capability keys, revisions), no two families share a key, and no two
-- revisions, of one family or of two, share a task and a number; keys are compared trimmed.
pub validate_task_family_manifest-AreFamilies :
    (unicode_lower : Char → Char) (m : TaskFamilyManifest) {u : Unit {0}}
    → validate_task_family_manifest unicode_lower m ≡ ok u
    → AreFamilies unicode_lower m
unfolding validate_task_family_manifest
validate_task_family_manifest-AreFamilies lower m h =
    let (out, hf, _) = >>=-eq-ok (check_families lower m.release_id [] [] m.families) _ h in
    let (valid, distinct, separate) =
      check_families_sound lower m.release_id [] [] out m.families hf in
    record {
      families = valid;
      distinct = (Fresh-nil (family_keys m.families)).0 distinct;
      separate = (Fresh-nil (revision_keys m.families)).0 separate;
    }
