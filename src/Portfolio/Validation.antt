-- ===== src/Portfolio/Validation.antt =====
-- validateTaskPortfolioManifest and loadTaskPortfolioManifest of internal/engine/portfolio.go. A loop
-- over a Go map is one over its entries, in the order in which they were added.
use fluent_task_runtime.Base.{
  ℕ, zero, suc, ◌+◌, ◌*◌, ◌%◌, Char, String, ◌<>◌, Bool, not, ◌&&◌, ◌||◌, none, some, List, [], ◌∷◌,
  map, if◌then◌else◌, ◌==◌, string_eq, nat_eq, Result, ok, err, ◌>>=◌, ◌>>◌, guard, refuse, expect,
  is_found, wrap, length, contains,
}
use fluent_task_runtime.Base.Dict.{Dict, lookup, insert}
use fluent_task_runtime.Text.{is_blank}
use fluent_task_runtime.Numbers.{ℤ, pos, negsuc, lt_int, int_eq}
use fluent_task_runtime.Documents.{Document, unreadable, malformed, decoded}
use fluent_task_runtime.Families.{
  TaskFamilyEntry, TaskFamilyManifest, FamilyError, validate_task_family_manifest,
}
use fluent_task_runtime.Loading.Sorting.{sort_strings}
use fluent_task_runtime.Portfolio.{
  RevisionCompatibility, ExistingFamily, PortfolioGroup, SupersededFamily, TaskPortfolio, KindCount,
  PortfolioError, unsupported_contract, missing_portfolio_id, foreign_release, target_drift,
  missing_group_id, duplicate_group, unknown_kind, unknown_group_set, group_drift, invalid_series,
  misplaced_series, family_drift, not_existing, absent_family, unreleased_family, in_group,
  invalid_series_key, present_series_key, not_superseded, absent_superseded, released_superseded,
  unexplained, kind_drift, track_drift, foreign_tracks, unclassified, expected_kinds, equals,
  validate_kind_targets, Compatibility, validate_compatibility_sets, validate_group_compatibility,
  validate_existing_family, Classified, classify, planned_key,
}
use fluent_task_runtime.Regex.{match_string}
use fluent_task_runtime.Keys.{task_family_key_pattern}

-- `current`: a family of the pinned release by its key.
abbrev pub Current : Type 0
Current = Dict String TaskFamilyEntry

unfoldable pub current_of : Current → List TaskFamilyEntry → Current
current_of current [] = current
current_of current (f ∷ families) = current_of (insert f.key f current) families

abbrev pub size_of : ℤ → ℕ
size_of (pos n) = n
size_of (negsuc n) = 0

-- The loop over a group's existing families.
unfoldable pub check_existing :
    (Char → Char)
    → Current
    → List RevisionCompatibility
    → String
    → Classified
    → List ExistingFamily
    → Result PortfolioError Classified
check_existing lower current set group classified [] = ok classified
check_existing lower current set group classified (e ∷ existing) = do
  guard (e.disposition == "existing") (not_existing e.family_key group)
  family ← expect (lookup e.family_key current) (absent_family e.family_key group)
  guard (family.status == "released") (unreleased_family e.family_key group)
  next ← classify classified e.family_key ("existing:" <> group)
  wrap (in_group group) (validate_existing_family lower family set)
  check_existing lower current set group next existing

-- The loop over the offsets of a planned series, of which so many are left.
unfoldable pub check_planned :
    Current → String → String → ℕ → ℕ → ℕ → Classified → Result PortfolioError Classified
check_planned current group prefix start offset zero classified = ok classified
check_planned current group prefix start offset (suc left) classified = do
  guard (match_string task_family_key_pattern (planned_key prefix start offset))
      (invalid_series_key group (planned_key prefix start offset))
  refuse (is_found (lookup (planned_key prefix start offset) current))
      (present_series_key (planned_key prefix start offset) group)
  next ← classify classified (planned_key prefix start offset) ("new:" <> group)
  check_planned current group prefix start (offset + 1) left next

-- What the loop over the groups keeps.
pub record Tally : Type 0 where
  pub classified : Classified
  pub seen_groups : List String
  pub kinds : Dict String KindCount
  pub tracks : Dict String ℕ

-- The checks of a group's own fields; `size` is that of its compatibility set.
unfoldable pub check_group_counts : PortfolioGroup → ℕ → Result PortfolioError (Unit {0})
check_group_counts g size = do
  refuse (lt_int g.target_family_count (pos 1) || not (equals g.target_revisions_per_family size))
      (group_drift g.id)
  refuse
      (lt_int g.planned_series.count (pos 0)
        || (lt_int (pos 0) g.planned_series.count && lt_int g.planned_series.start (pos 1)))
      (invalid_series g.id)
  refuse (lt_int (pos 0) g.planned_series.count && not (g.planned_series.disposition == "new"))
      (misplaced_series g.id)
  guard (equals g.target_family_count (length g.existing_families + size_of g.planned_series.count))
      (family_drift g.id)

-- A map of counts at a key, with a zero value where it has none.
abbrev pub count_at : String → Dict String KindCount → KindCount
count_at kind kinds = elim (lookup kind kinds) [
  | none ↦ record { families = 0; revisions = 0 }
  | some c ↦ c
]

abbrev pub track_at : String → Dict String ℕ → ℕ
track_at track tracks = elim (lookup track tracks) [ none ↦ 0 | some n ↦ n ]

abbrev pub modulus : ℕ
modulus = 18446744073709551616

abbrev pub add_group : KindCount → ℕ → ℕ → KindCount
add_group c families per_family = record {
  families = (c.families + families) % modulus;
  revisions = (c.revisions + families * per_family) % modulus;
}

abbrev pub add_track : PortfolioGroup → Dict String ℕ → Dict String ℕ
add_track g tracks =
    if g.kind == "native"
    then insert g.native_track
        ((track_at g.native_track tracks + size_of g.target_family_count) % modulus) tracks
    else tracks

-- One group.
unfoldable pub check_group :
    (Char → Char) → Current → Compatibility → PortfolioGroup → Tally → Result PortfolioError Tally
check_group lower current compatibility g t = do
  refuse (is_blank g.id) missing_group_id
  refuse (contains t.seen_groups g.id) (duplicate_group g.id)
  guard (is_found (lookup g.kind expected_kinds)) (unknown_kind g.id g.kind)
  set ←
      expect (lookup g.compatibility_set compatibility) (unknown_group_set g.id g.compatibility_set)
  validate_group_compatibility g
  check_group_counts g (length set)
  existing ← check_existing lower current set g.id t.classified g.existing_families
  planned ←
      check_planned current g.id g.planned_series.prefix (size_of g.planned_series.start) 0
        (size_of g.planned_series.count) existing
  ok (record {
    classified = planned;
    seen_groups = g.id ∷ t.seen_groups;
    kinds =
        insert g.kind
          (add_group (count_at g.kind t.kinds) (size_of g.target_family_count)
            (size_of g.target_revisions_per_family))
          t.kinds;
    tracks = add_track g t.tracks;
  })

unfoldable pub check_groups :
    (Char → Char)
    → Current
    → Compatibility
    → List PortfolioGroup
    → Tally
    → Result PortfolioError Tally
check_groups lower current compatibility [] t = ok t
check_groups lower current compatibility (g ∷ groups) t = do
  next ← check_group lower current compatibility g t
  check_groups lower current compatibility groups next

-- The loop over the superseded families.
unfoldable pub check_superseded :
    Current → Classified → List SupersededFamily → Result PortfolioError Classified
check_superseded current classified [] = ok classified
check_superseded current classified (s ∷ superseded) = do
  guard (s.disposition == "superseded") (not_superseded s.family_key)
  family ← expect (lookup s.family_key current) (absent_superseded s.family_key)
  refuse (family.status == "released") (released_superseded s.family_key)
  refuse (is_blank s.replacement_owner || is_blank s.reason) (unexplained s.family_key)
  next ← classify classified s.family_key "superseded"
  check_superseded current next superseded

abbrev pub same_count : KindCount → KindCount → Bool
same_count c d = c.families == d.families && c.revisions == d.revisions

unfoldable pub check_kinds :
    Dict String KindCount → Dict String KindCount → Result PortfolioError (Unit {0})
check_kinds kinds [] = ok tt
check_kinds kinds ((kind, expected) ∷ rest) = do
  guard (same_count (count_at kind kinds) expected) (kind_drift kind (count_at kind kinds))
  check_kinds kinds rest

unfoldable pub check_tracks : Dict String ℕ → List String → Result PortfolioError (Unit {0})
check_tracks tracks [] = ok tt
check_tracks tracks (track ∷ rest) = do
  guard (track_at track tracks == 16) (track_drift track (track_at track tracks))
  check_tracks tracks rest

unfoldable pub check_accounted : Classified → Current → Result PortfolioError (Unit {0})
check_accounted classified [] = ok tt
check_accounted classified ((key, family) ∷ current) = do
  guard (is_found (lookup key classified)) (unclassified key)
  check_accounted classified current

abbrev pub contract_portfolio : String
contract_portfolio = "fluent-task-runtime.task-portfolio.v1"

abbrev pub native_tracks : List String
native_tracks = "node" ∷ "java" ∷ "go" ∷ "dotnet" ∷ "vue" ∷ []

abbrev pub no_tally : Tally
no_tally = record { classified = []; seen_groups = []; kinds = []; tracks = [] }

unfoldable pub validate_portfolio :
    (Char → Char) → TaskPortfolio → TaskFamilyManifest → Result PortfolioError (Unit {0})
validate_portfolio lower p m = do
  guard (p.contract_version == contract_portfolio) (unsupported_contract p.contract_version)
  refuse (is_blank p.portfolio_id) missing_portfolio_id
  guard (p.source_task_family_release_id == m.release_id)
      (foreign_release p.source_task_family_release_id m.release_id)
  guard (equals p.target.family_count 168 && equals p.target.revision_count 456)
      (target_drift p.target.family_count p.target.revision_count)
  validate_kind_targets p.target.kinds
  compatibility ← validate_compatibility_sets lower p.compatibility_sets
  let current = current_of [] m.families
  t ← check_groups lower current compatibility p.groups no_tally
  classified ← check_superseded current t.classified p.superseded_families
  check_kinds t.kinds expected_kinds
  check_tracks t.tracks native_tracks
  guard (length t.tracks == 5) (foreign_tracks (sort_strings (map (λ e. e.0) t.tracks)))
  check_accounted classified current

pub data LoadPortfolioError : Type 0 where
  unreadable_portfolio undecodable_portfolio unreadable_families undecodable_families :
      LoadPortfolioError
  invalid_families : FamilyError → LoadPortfolioError
  invalid_portfolio : PortfolioError → LoadPortfolioError

abbrev decoded_or {ℓ} : {E : Type ℓ} {A : Type 0} → E → E → Document A → Result E A
decoded_or unread undecoded unreadable = err unread
decoded_or unread undecoded malformed = err undecoded
decoded_or unread undecoded (decoded a) = ok a

-- loadTaskPortfolioManifest
unfoldable pub load_task_portfolio_manifest :
    (Char → Char)
    → Document TaskPortfolio
    → Document TaskFamilyManifest
    → Result LoadPortfolioError TaskPortfolio
load_task_portfolio_manifest lower portfolio families = do
  p ← decoded_or unreadable_portfolio undecodable_portfolio portfolio
  m ← decoded_or unreadable_families undecodable_families families
  wrap invalid_families (validate_task_family_manifest lower m)
  wrap invalid_portfolio (validate_portfolio lower p m)
  ok p
