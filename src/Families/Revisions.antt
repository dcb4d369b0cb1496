-- ===== src/Families/Revisions.antt =====
-- The checks of a family's revisions in validateTaskFamilyManifest, internal/engine/families.go.
use fluent_task_runtime.Base.{
  Char, String, ◌≡◌, refl, ◌≢◌, ◌⊎◌, inl, inr, true, false, none, List, [], ◌∷◌, ◌++◌, map, arith,
  ◌==◌, string_eq, nat_eq, Bool-cases, ok, >>=-eq-ok, Option-cases, All, contains, Fresh,
  Fresh-cons,
}
use fluent_task_runtime.Base.Dict.{Dict, lookup}
use fluent_task_runtime.Text.{trim_space, to_lower}
use fluent_task_runtime.Numbers.{pos, lt_int, ◌≤ℤ◌, one_le_of_lt_int}
use fluent_task_runtime.Keys.{is_content_hash}
use fluent_task_runtime.Release.{TaskRevisionKey, key_eq}
use fluent_task_runtime.Families.{
  TaskFamilyRevisionEntry, is_availability, family_revision_key, check_discipline,
  check_revision_fields, check_family_revision, check_family_revisions,
}

-- A revision that may stand in a family of this kind.
pub record IsFamilyRevision (unicode_lower : Char → Char) (kind : String)
    (r : TaskFamilyRevisionEntry) : Type 0 where
  pub named : trim_space r.task_id ≢ ""
  pub positive : pos 1 ≤ℤ r.revision
  pub language : r.language ≢ ""
  pub profile : r.profile ≢ ""
  pub hashed : is_content_hash r.immutable_hash ≡ true
  pub sql :
      (kind ≢ "sql")
      ⊎ ((to_lower unicode_lower (trim_space r.language) ≡ "sql")
          × (to_lower unicode_lower (trim_space r.profile) ≡ "postgres"))
  pub code :
      (kind ≢ "code")
      ⊎ ((to_lower unicode_lower (trim_space r.language) ≢ "sql")
          × (to_lower unicode_lower (trim_space r.profile) ≢ "postgres"))
  pub availability : is_availability r.availability ≡ true

check_revision_fields_sound :
    (family : String) (r : TaskFamilyRevisionEntry) {u : Unit {0}}
    → check_revision_fields family r ≡ ok u
    → (trim_space r.task_id ≢ "")
      × (lt_int r.revision (pos 1) ≡ false)
      × (r.language ≢ "")
      × (r.profile ≢ "")
      × (is_content_hash r.immutable_hash ≡ true)
unfolding check_revision_fields
check_revision_fields_sound family r h =
    (λ q. ground arith, ground arith, λ q. ground arith, λ q. ground arith, ground arith)

check_discipline_sound :
    (lower : Char → Char) (family kind : String) (r : TaskFamilyRevisionEntry) {u : Unit {0}}
    → check_discipline lower family kind r ≡ ok u
    → ((kind ≢ "sql")
        ⊎ ((to_lower lower (trim_space r.language) ≡ "sql")
            × (to_lower lower (trim_space r.profile) ≡ "postgres")))
      × ((kind ≢ "code")
          ⊎ ((to_lower lower (trim_space r.language) ≢ "sql")
              × (to_lower lower (trim_space r.profile) ≢ "postgres")))
unfolding check_discipline
check_discipline_sound lower family kind r h = (
  elim (Bool-cases (kind == "sql")) [
    | inl sql ↦ inr (ground arith, ground arith)
    | inr other ↦ inl (λ q. ground arith)
  ],
  elim (Bool-cases (kind == "code")) [
    | inl coded ↦ inr (λ q. ground arith, λ q. ground arith)
    | inr other ↦ inl (λ q. ground arith)
  ],
)

check_family_revision_sound :
    (lower : Char → Char) (family kind : String) (r : TaskFamilyRevisionEntry) {u : Unit {0}}
    → check_family_revision lower family kind r ≡ ok u
    → IsFamilyRevision lower kind r
unfolding check_family_revision
check_family_revision_sound lower family kind r h =
    let (_, hf, h₁) = >>=-eq-ok (check_revision_fields family r) _ h in
    let (_, hd, h₂) = >>=-eq-ok (check_discipline lower family kind r) _ h₁ in
    let (named, positive, language, profile, hashed) = check_revision_fields_sound family r hf in
    let (sql, coded) = check_discipline_sound lower family kind r hd in
    record {
      named = named;
      positive = one_le_of_lt_int r.revision positive;
      language = language;
      profile = profile;
      hashed = hashed;
      sql = sql;
      code = coded;
      availability = ground arith;
    }

abbrev pub keys_seen : Dict TaskRevisionKey String → List TaskRevisionKey
keys_seen seen = map (λ entry. entry.0) seen

contains_of_lookup :
    (k : TaskRevisionKey) (seen : Dict TaskRevisionKey String)
    → lookup k seen ≡ none
    → contains (keys_seen seen) k ≡ false
unfolding lookup contains
contains_of_lookup k [] h = refl
contains_of_lookup k ((j, owner) ∷ seen) h = elim (Bool-cases (j == k)) [
  | inl same ↦ absurd (ground arith)
  | inr other ↦ ground (arith, contains_of_lookup k seen (rw other at h))
]

-- The loop's revisions are new and distinct, and so is whatever is new to what it has then seen.
pub check_family_revisions_sound :
    (lower : Char → Char) (family kind : String) (seen out : Dict TaskRevisionKey String)
    (revisions : List TaskFamilyRevisionEntry)
    → check_family_revisions lower family kind seen revisions ≡ ok out
    → All (IsFamilyRevision lower kind) revisions
      × ((later : List TaskRevisionKey)
          → Fresh (keys_seen out) later
          → Fresh (keys_seen seen) (map family_revision_key revisions ++ later))
unfolding check_family_revisions
check_family_revisions_sound lower family kind seen out [] h =
    let same : seen ≡ out = cc in (tt, λ later fresh. rw same fresh)
check_family_revisions_sound lower family kind seen out (r ∷ revisions) h =
    let (_, hr, h₁) = >>=-eq-ok (check_family_revision lower family kind r) _ h in
    elim (Option-cases (lookup (family_revision_key r) seen)) [
      | inr (owner, found) ↦ absurd (cc)
      | inl absent ↦
          let (valid, later_fresh) =
            check_family_revisions_sound lower family kind ((family_revision_key r, family) ∷ seen)
              out revisions (rw absent at h₁) in
          (
            (check_family_revision_sound lower family kind r hr, valid),
            λ later fresh.
                (Fresh-cons (family_revision_key r) (keys_seen seen)
                    (map family_revision_key revisions ++ later)).1
                  (contains_of_lookup (family_revision_key r) seen absent, later_fresh later fresh),
          )
    ]
