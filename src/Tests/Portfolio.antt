-- ===== src/Tests/Portfolio.antt =====
-- A portfolio of planned families only, beside the family of Tests/Site.antt as superseded.
use fluent_task_runtime.Base.{
  ℕ, String, ◌<>◌, ◌≡◌, refl, Option, some, List, [], ◌∷◌, map, string_eq, nat_eq, ok, length,
  contains,
}
use fluent_task_runtime.Base.Dict.{lookup, insert}
use fluent_task_runtime.Text.{trim_space, trim_left, trim_right, is_space, is_blank, to_lower}
use fluent_task_runtime.Text.Decimal.{digit, digits_onto, decimal, decimal_03}
use fluent_task_runtime.Numbers.{pos, lt_int, int_eq}
use fluent_task_runtime.Regex.{match_string}
use fluent_task_runtime.Keys.{task_family_key_pattern}
use fluent_task_runtime.Loading.Sorting.{sort_strings}
use fluent_task_runtime.Families.{TaskFamilyManifest}
use fluent_task_runtime.Portfolio.{
  KindTarget, PortfolioGroup, SupersededFamily, TaskPortfolio, expected_sets, check_kind_targets,
  validate_kind_targets, check_pairs, same_compatibility_set, check_sets,
  validate_compatibility_sets, validate_group_compatibility, check_family_pairs, classify,
  planned_key, planned_key,
}
use fluent_task_runtime.Portfolio.Validation.{
  current_of, check_existing, check_planned, check_group_counts, check_group, check_groups,
  check_superseded, check_kinds, check_tracks, check_accounted, validate_portfolio,
}
use fluent_task_runtime.Documents.{decoded}
use fluent_task_runtime.Families.Hashing.{encode_hex}
use fluent_task_runtime.Backlog.Report.{
  BacklogReport, StableBacklog, backlog_items, report_of, place_items, read_families, build_backlog,
}
use fluent_task_runtime.Backlog.Order.{sort_items}
use fluent_task_runtime.Backlog.Laws.{IsBacklog, build_backlog-IsBacklog}
use fluent_task_runtime.Portfolio.Validation.{load_task_portfolio_manifest}
use fluent_task_runtime.Portfolio.Laws.{IsPortfolio, validate_portfolio-IsPortfolio}
use fluent_task_runtime.Tests.Site.{draft}
use fluent_task_runtime.Tests.Catalogue.{draft_valid}

abbrev kind_of : String → ℕ → ℕ → KindTarget
kind_of kind families revisions = record {
  kind = kind;
  family_count = pos families;
  revision_count = pos revisions;
}

abbrev group_of : String → String → String → String → ℕ → ℕ → PortfolioGroup
group_of id kind track set families revisions = record {
  id = id;
  kind = kind;
  native_track = track;
  compatibility_set = set;
  target_family_count = pos families;
  target_revisions_per_family = pos revisions;
  existing_families = [];
  planned_series = record {
    prefix = "task-family." <> id <> "-";
    start = pos 1;
    count = pos families;
    disposition = "new";
  };
}

abbrev superseded : SupersededFamily
superseded = record {
  family_key = "task-family.rate-limiter";
  disposition = "superseded";
  replacement_owner = "runtime";
  reason = "planned anew";
}

abbrev portfolio : TaskPortfolio
portfolio = record {
  contract_version = "fluent-task-runtime.task-portfolio.v1";
  portfolio_id = "portfolio";
  source_task_family_release_id = "families";
  target = record {
    family_count = pos 168;
    revision_count = pos 456;
    kinds =
        kind_of "algorithm" 60 300
        ∷ kind_of "shared_backend" 12 60
        ∷ kind_of "native" 80 80
        ∷ kind_of "postgresql" 16 16
        ∷ [];
  };
  compatibility_sets = map (λ e. record { id = e.0; revisions = e.1 }) expected_sets;
  groups =
      group_of "algorithm" "algorithm" "" "cross-language-five" 60 5
      ∷ group_of "shared" "shared_backend" "" "cross-language-five" 12 5
      ∷ group_of "node" "native" "node" "native-node" 16 1
      ∷ group_of "java" "native" "java" "native-java" 16 1
      ∷ group_of "go" "native" "go" "native-go" 16 1
      ∷ group_of "dotnet" "native" "dotnet" "native-dotnet" 16 1
      ∷ group_of "vue" "native" "vue" "native-vue" 16 1
      ∷ group_of "sql" "postgresql" "" "postgresql-sql" 16 1
      ∷ [];
  superseded_families = superseded ∷ [];
}

validating : Unit {0}
unfolding trim_space trim_left trim_right is_space is_blank to_lower digit digits_onto decimal
    decimal_03 lt_int int_eq string_eq nat_eq match_string task_family_key_pattern sort_strings
    lookup insert contains check_kind_targets validate_kind_targets check_pairs
    same_compatibility_set check_sets validate_compatibility_sets validate_group_compatibility
    check_family_pairs classify planned_key current_of check_existing check_planned
    check_group_counts check_group check_groups check_superseded check_kinds check_tracks
    check_accounted validate_portfolio
validating = tt

accepted : validate_portfolio (λ c. c) portfolio draft ≡ ok tt
unfolding validating
accepted = refl

validate_portfolio-IsPortfolio_example : IsPortfolio portfolio draft
validate_portfolio-IsPortfolio_example =
    validate_portfolio-IsPortfolio (λ c. c) portfolio draft accepted

loaded : load_task_portfolio_manifest (λ c. c) (decoded portfolio) (decoded draft) ≡ ok portfolio
unfolding load_task_portfolio_manifest
loaded = rw (draft_valid, accepted) refl

read : read_families (λ c. c) (decoded draft) ≡ ok draft
unfolding read_families
read = rw draft_valid refl

abbrev marshal : StableBacklog → Option (List ℕ)
marshal stable = some (length stable.items ∷ [])

abbrev sha256 : List ℕ → List ℕ
sha256 bytes = []

abbrev report : BacklogReport
report =
    report_of portfolio "manifest.json" ((backlog_items (λ c. c) portfolio draft).1)
      (place_items 0 (sort_items portfolio.groups ((backlog_items (λ c. c) portfolio draft).0)))
      (encode_hex [])

reports :
    build_backlog
      (λ c. c)
      marshal
      sha256
      "manifest.json"
      (decoded portfolio)
      (decoded draft)
      (decoded draft)
    ≡ ok report
unfolding build_backlog
reports = rw (loaded, read) refl

build_backlog-IsBacklog_example :
    (p : TaskPortfolio) × (m : TaskFamilyManifest) × (load_task_portfolio_manifest
        (λ c. c)
        (decoded portfolio)
        (decoded draft)
      ≡ ok p)
    × (decoded draft ≡ decoded m)
    × IsBacklog (λ c. c) p m report
build_backlog-IsBacklog_example =
    build_backlog-IsBacklog (λ c. c) marshal sha256 "manifest.json" (decoded portfolio)
      (decoded draft) (decoded draft) report reports
