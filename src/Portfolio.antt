-- ===== src/Portfolio.antt =====
-- The task portfolio of internal/engine/portfolio.go: its data, its tables and the checks that
-- validateTaskPortfolioManifest calls. An error is a constructor with the values that it prints.
pub mod Validation
pub mod Classifying
pub mod Counting
pub mod Laws
use Prim.Native.Nat.{◌^◌}
use fluent_task_runtime.Base.{
  take, ℕ, zero, suc, ◌+◌, ◌-◌, ◌*◌, ◌/◌, ◌%◌, ◌≤◌, ◌<◌, Char, code, String, ◌<>◌, ◌≡◌, refl, sym,
  ap, ap₂, ◌∙◌, subst, ◌≢◌, ◌↔◌, ◌⊎◌, inl, inr, Bool, true, false, not, ◌&&◌, ◌||◌, Option, none,
  some, List, [], ◌∷◌, ◌++◌, map, arith, if◌then◌else◌, ltb, leb, Eq, ◌==◌, ==_iff, string_eq,
  nat_eq, Bool-cases, and-eq-true, ne_of_test, Result, ok, ok_unique, err, ◌>>=◌, ◌>>◌, guard,
  refuse, expect, is_found, wrap, >>=-eq-ok, guard-eq-ok, refuse-eq-ok, wrap-eq-ok, expect-eq-ok,
  Option-cases, Result-cases, Refused, Refused-bind, Refused-guard, Refused-refuse, Refused-expect,
  Refused-wrap, Refused-err, length, is_empty, all, length-append, All, All-append, All-mem,
  All-map, All-zip, Distinct, contains, contains-mem, mem_of_contains, Memᴰ, Perm, perm_of_Distinct,
  Distinct-of_map, contains-eq-false_iff, Fresh, Fresh-nil, Fresh-cons, Fresh-snoc,
}
use fluent_task_runtime.Base.Dict.{Dict, lookup, insert}
use fluent_task_runtime.Text.{trim_space, is_blank, to_lower}
use fluent_task_runtime.Text.Decimal.{decimal_03}
use fluent_task_runtime.Numbers.{ℤ, pos, negsuc, lt_int, int_eq}
use fluent_task_runtime.Regex.{match_string}
use fluent_task_runtime.Keys.{task_family_key_pattern}
use fluent_task_runtime.Families.{TaskFamilyRevisionEntry, TaskFamilyEntry}
use fluent_task_runtime.Loading.Sorting.{sort_strings}

pub record KindTarget : Type 0 where
  pub kind : String
  pub family_count : ℤ
  pub revision_count : ℤ

pub record PortfolioTarget : Type 0 where
  pub family_count : ℤ
  pub revision_count : ℤ
  pub kinds : List KindTarget

pub record RevisionCompatibility : Type 0 where
  pub language : String
  pub profile : String

pub record CompatibilitySet : Type 0 where
  pub id : String
  pub revisions : List RevisionCompatibility

pub record ExistingFamily : Type 0 where
  pub family_key : String
  pub disposition : String

pub record PlannedSeries : Type 0 where
  pub prefix : String
  pub start : ℤ
  pub count : ℤ
  pub disposition : String

pub record PortfolioGroup : Type 0 where
  pub id : String
  pub kind : String
  pub native_track : String
  pub compatibility_set : String
  pub target_family_count : ℤ
  pub target_revisions_per_family : ℤ
  pub existing_families : List ExistingFamily
  pub planned_series : PlannedSeries

pub record SupersededFamily : Type 0 where
  pub family_key : String
  pub disposition : String
  pub replacement_owner : String
  pub reason : String

pub record TaskPortfolio : Type 0 where
  pub contract_version : String
  pub portfolio_id : String
  pub source_task_family_release_id : String
  pub target : PortfolioTarget
  pub compatibility_sets : List CompatibilitySet
  pub groups : List PortfolioGroup
  pub superseded_families : List SupersededFamily

-- portfolioKindCount; an int that is computed with is a word of 64 bits.
pub record KindCount : Type 0 where
  pub families : ℕ
  pub revisions : ℕ

pub data PortfolioError : Type 0 where
  unsupported_contract : String → PortfolioError
  missing_portfolio_id : PortfolioError
  foreign_release : String → String → PortfolioError
  target_drift : ℤ → ℤ → PortfolioError
  duplicate_target_kind unknown_target_kind : String → PortfolioError
  target_kind_drift : KindTarget → PortfolioError
  missing_target_kinds : PortfolioError
  duplicate_set unknown_set : String → PortfolioError
  foreign_profile repeated_pair : String → String → PortfolioError
  foreign_pairs : String → PortfolioError
  missing_sets : PortfolioError
  unbound_track : String → String → PortfolioError
  undeclarable_track : String → PortfolioError
  wrong_set : String → String → String → PortfolioError
  foreign_compatibility : String → String → ℤ → String → PortfolioError
  invalid_key : String → PortfolioError
  duplicate_key : String → String → String → PortfolioError
  missing_group_id : PortfolioError
  duplicate_group : String → PortfolioError
  unknown_kind unknown_group_set : String → String → PortfolioError
  group_drift invalid_series misplaced_series : String → PortfolioError
  family_drift : String → PortfolioError
  not_existing absent_family unreleased_family : String → String → PortfolioError
  in_group : String → PortfolioError → PortfolioError
  invalid_series_key present_series_key : String → String → PortfolioError
  not_superseded absent_superseded released_superseded unexplained : String → PortfolioError
  kind_drift : String → KindCount → PortfolioError
  track_drift : String → ℕ → PortfolioError
  foreign_tracks : List String → PortfolioError
  unclassified : String → PortfolioError

abbrev counts : ℕ → ℕ → KindCount
counts families revisions = record { families = families; revisions = revisions }

-- expectedPortfolioKinds
abbrev pub expected_kinds : Dict String KindCount
expected_kinds =
    ("algorithm", counts 60 300)
    ∷ ("shared_backend", counts 12 60)
    ∷ ("native", counts 80 80)
    ∷ ("postgresql", counts 16 16)
    ∷ []

abbrev pair_of : String → String → RevisionCompatibility
pair_of language profile = record { language = language; profile = profile }

-- expectedCompatibilitySets
abbrev pub expected_sets : Dict String (List RevisionCompatibility)
expected_sets =
    (
      "cross-language-five",
      pair_of "javascript" "node"
          ∷ pair_of "typescript" "node"
          ∷ pair_of "java" "java"
          ∷ pair_of "go" "go"
          ∷ pair_of "csharp" "dotnet"
          ∷ [],
    )
    ∷ ("native-node", pair_of "javascript" "node" ∷ [])
    ∷ ("native-java", pair_of "java" "java" ∷ [])
    ∷ ("native-go", pair_of "go" "go" ∷ [])
    ∷ ("native-dotnet", pair_of "csharp" "dotnet" ∷ [])
    ∷ ("native-vue", pair_of "typescript" "browser" ∷ [])
    ∷ ("postgresql-sql", pair_of "sql" "postgres" ∷ [])
    ∷ []

abbrev pub allowed_profiles : List String
allowed_profiles = "browser" ∷ "dotnet" ∷ "go" ∷ "java" ∷ "node" ∷ "postgres" ∷ []

-- An int against a small natural number.
abbrev pub equals : ℤ → ℕ → Bool
equals n m = n == pos m

-- The loop of validatePortfolioKindTargets.
unfoldable pub check_kind_targets :
    List String → List KindTarget → Result PortfolioError (List String)
check_kind_targets seen [] = ok seen
check_kind_targets seen (t ∷ targets) = do
  refuse (contains seen t.kind) (duplicate_target_kind t.kind)
  expected ← expect (lookup t.kind expected_kinds) (unknown_target_kind t.kind)
  guard (equals t.family_count expected.families && equals t.revision_count expected.revisions)
      (target_kind_drift t)
  check_kind_targets (t.kind ∷ seen) targets

unfoldable pub validate_kind_targets : List KindTarget → Result PortfolioError (Unit {0})
validate_kind_targets targets = do
  seen ← check_kind_targets [] targets
  guard (length seen == length expected_kinds) missing_target_kinds

-- `strings.ToLower(strings.TrimSpace(…)) + "/" + …`
abbrev pub trimmed_pair : (Char → Char) → String → String → String
trimmed_pair lower language profile =
    to_lower lower (trim_space language) <> "/" <> to_lower lower (trim_space profile)

unfoldable pub check_pairs :
    (Char → Char)
    → String
    → List String
    → List RevisionCompatibility
    → Result PortfolioError (Unit {0})
check_pairs lower id seen [] = ok tt
check_pairs lower id seen (r ∷ revisions) = do
  guard (contains allowed_profiles (to_lower lower (trim_space r.profile)))
      (foreign_profile id r.profile)
  refuse (contains seen (trimmed_pair lower r.language r.profile))
      (repeated_pair id (trimmed_pair lower r.language r.profile))
  check_pairs lower id (trimmed_pair lower r.language r.profile ∷ seen) revisions

abbrev same_strings : List String → List String → Bool
same_strings [] [] = true
same_strings (x ∷ xs) (y ∷ ys) = x == y && same_strings xs ys
same_strings _ _ = false

abbrev pub canonical : (Char → Char) → List RevisionCompatibility → List String
canonical lower values = sort_strings (map (λ v. trimmed_pair lower v.language v.profile) values)

-- sameCompatibilitySet
unfoldable pub same_compatibility_set :
    (Char → Char) → List RevisionCompatibility → List RevisionCompatibility → Bool
same_compatibility_set lower actual expected =
    if not (length actual == length expected)
    then false
    else same_strings (canonical lower actual) (canonical lower expected)

abbrev pub Compatibility : Type 0
Compatibility = Dict String (List RevisionCompatibility)

unfoldable pub check_sets :
    (Char → Char) → Compatibility → List CompatibilitySet → Result PortfolioError Compatibility
check_sets lower result [] = ok result
check_sets lower result (s ∷ sets) = do
  refuse (is_found (lookup s.id result)) (duplicate_set s.id)
  expected ← expect (lookup s.id expected_sets) (unknown_set s.id)
  check_pairs lower s.id [] s.revisions
  guard (same_compatibility_set lower s.revisions expected) (foreign_pairs s.id)
  check_sets lower (insert s.id s.revisions result) sets

-- validatePortfolioCompatibilitySets
unfoldable pub validate_compatibility_sets :
    (Char → Char) → List CompatibilitySet → Result PortfolioError Compatibility
validate_compatibility_sets lower sets = do
  result ← check_sets lower [] sets
  guard (length result == length expected_sets) missing_sets
  ok result

-- validateGroupCompatibility
unfoldable pub validate_group_compatibility : PortfolioGroup → Result PortfolioError (Unit {0})
validate_group_compatibility g =
    if g.kind == "native"
    then guard (not (g.native_track == "") && g.compatibility_set == "native-" <> g.native_track)
        (unbound_track g.id g.native_track)
    else (refuse (not (g.native_track == "")) (undeclarable_track g.id)
        >> guard
            (g.compatibility_set
              == (if g.kind == "postgresql" then "postgresql-sql" else "cross-language-five"))
            (wrong_set g.id g.kind g.compatibility_set))

abbrev pub lower_pair : (Char → Char) → RevisionCompatibility → String
lower_pair lower r = to_lower lower r.language <> "/" <> to_lower lower r.profile

unfoldable pub check_family_pairs :
    (Char → Char)
    → String
    → List String
    → List TaskFamilyRevisionEntry
    → Result PortfolioError (Unit {0})
check_family_pairs lower key allowed [] = ok tt
check_family_pairs lower key allowed (r ∷ revisions) = do
  guard (contains allowed (trimmed_pair lower r.language r.profile))
      (foreign_compatibility key r.task_id r.revision (trimmed_pair lower r.language r.profile))
  check_family_pairs lower key allowed revisions

-- validateExistingFamilyCompatibility
abbrev pub validate_existing_family :
    (Char → Char) → TaskFamilyEntry → List RevisionCompatibility → Result PortfolioError (Unit {0})
validate_existing_family lower family compatibility =
    check_family_pairs lower family.key (map (lower_pair lower) compatibility) family.revisions

-- The families that have been classified, with how.
abbrev pub Classified : Type 0
Classified = Dict String String

-- `if previous, duplicate := classified[key]; duplicate`
abbrev pub check_unclassified : Option String → String → String → Result PortfolioError (Unit {0})
check_unclassified none key disposition = ok tt
check_unclassified (some previous) key disposition = err (duplicate_key key previous disposition)

-- classifyPortfolioFamily
unfoldable pub classify : Classified → String → String → Result PortfolioError Classified
classify classified key disposition = do
  guard (match_string task_family_key_pattern key) (invalid_key key)
  check_unclassified (lookup key classified) key disposition
  ok (insert key disposition classified)

-- An int of 64 bits, by its word.
abbrev pub int_of_word : ℕ → ℤ
int_of_word w = if ltb w 9223372036854775808 then pos w else negsuc (18446744073709551615 - w)

-- The key of a planned family, `fmt.Sprintf("%s%03d", prefix, start+offset)` of a positive start.
unfoldable pub planned_key : String → ℕ → ℕ → String
planned_key prefix start offset =
    prefix <> decimal_03 (int_of_word ((start + offset) % 18446744073709551616))
