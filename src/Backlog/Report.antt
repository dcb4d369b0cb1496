-- ===== src/Backlog/Report.antt =====
-- BuildTaskPortfolioBacklog of internal/engine/portfolio_backlog.go.
use fluent_task_runtime.Base.{
  ℕ, ◌+◌, ◌-◌, ◌/◌, ◌%◌, Char, code, String, ◌<>◌, Bool, false, Option, none, some, List, [], ◌∷◌,
  ◌++◌, if◌then◌else◌, ltb, ◌==◌, string_eq, nat_eq, Result, ok, err, ◌>>=◌, ◌>>◌, expect, wrap,
  length,
}
use fluent_task_runtime.Base.Dict.{Dict, lookup, insert}
use fluent_task_runtime.Documents.{Document, unreadable, malformed, decoded}
use fluent_task_runtime.Families.{TaskFamilyManifest, FamilyError, validate_task_family_manifest}
use fluent_task_runtime.Families.Hashing.{encode_hex}
use fluent_task_runtime.Portfolio.{TaskPortfolio}
use fluent_task_runtime.Portfolio.Validation.{
  current_of, LoadPortfolioError, load_task_portfolio_manifest,
}
use fluent_task_runtime.Backlog.{BacklogItem, GroupSummary, compatibility_of, count_kind, collect}
use fluent_task_runtime.Backlog.Order.{sort_items}

pub record BacklogSummary : Type 0 where
  pub group_count : ℕ
  pub open_family_items : ℕ
  pub open_revision_items : ℕ
  pub open_item_count : ℕ
  pub wave_count : ℕ
  pub next_batch_ids : List String
  pub kind_counts : Dict String ℕ

pub record BacklogReport : Type 0 where
  pub report_version : String
  pub manifest_id : String
  pub status : String
  pub production_ready : Bool
  pub source_portfolio_id : String
  pub source_task_family_release : String
  pub max_open_batch : ℕ
  pub path : String
  pub summary : BacklogSummary
  pub groups : List GroupSummary
  pub items : List BacklogItem
  pub content_digest : String

-- What the digest is of.
pub record StableBacklog : Type 0 where
  pub contract_version : String
  pub manifest_id : String
  pub source_portfolio_id : String
  pub source_task_family_release_id : String
  pub max_open_batch : ℕ
  pub groups : List GroupSummary
  pub items : List BacklogItem

abbrev pub max_batch : ℕ
max_batch = 100

-- The loop that sets waves and positions, from an index.
unfoldable pub place_items : ℕ → List BacklogItem → List BacklogItem
place_items index [] = []
place_items index (i ∷ items) =
    record i { wave = index / max_batch + 1; batch_position = index % max_batch + 1 }
    ∷ place_items (index + 1) items

abbrev pub counted_at : String → Dict String ℕ → ℕ
counted_at kind kinds = elim (lookup kind kinds) [ none ↦ 0 | some n ↦ n ]

-- `kindCounts[item.Kind]++`
unfoldable pub count_kinds : Dict String ℕ → List BacklogItem → Dict String ℕ
count_kinds kinds [] = kinds
count_kinds kinds (i ∷ items) =
    count_kinds (insert i.kind (counted_at i.kind kinds + 1) kinds) items

-- The loop that ends when a batch is full, with the ids so far.
unfoldable pub next_batch : List String → List BacklogItem → List String
next_batch ids [] = ids
next_batch ids (i ∷ items) =
    let more = next_batch (ids ++ i.item_id ∷ []) items in
    if length ids == max_batch then ids else more

-- strings.ReplaceAll of "/" by "-".
unfoldable pub replace_slashes : String → String
replace_slashes String.[] = String.[]
replace_slashes (String.◌∷◌ c s) =
    if code c == b'/' then "-" <> replace_slashes s else String.◌∷◌ c (replace_slashes s)

abbrev pub backlog_contract : String
backlog_contract = "fluent-task-runtime.task-portfolio-backlog.v1"

pub data BacklogError : Type 0 where
  not_loaded : LoadPortfolioError → BacklogError
  unreadable_families undecodable_families unmarshalled : BacklogError
  invalid_families : FamilyError → BacklogError

-- readTaskFamilyManifestForBacklog
unfoldable pub read_families :
    (Char → Char) → Document TaskFamilyManifest → Result BacklogError TaskFamilyManifest
read_families lower unreadable = err unreadable_families
read_families lower malformed = err undecodable_families
read_families lower (decoded m) = do
  wrap invalid_families (validate_task_family_manifest lower m)
  ok m

abbrev pub backlog_items :
    (Char → Char) → TaskPortfolio → TaskFamilyManifest → List BacklogItem × List GroupSummary
backlog_items lower p m =
    collect lower (current_of [] m.families) (compatibility_of [] p.compatibility_sets) p.groups

abbrev pub stable_of : TaskPortfolio → List GroupSummary → List BacklogItem → StableBacklog
stable_of p groups items = record {
  contract_version = backlog_contract;
  manifest_id = p.portfolio_id;
  source_portfolio_id = p.portfolio_id;
  source_task_family_release_id = p.source_task_family_release_id;
  max_open_batch = max_batch;
  groups = groups;
  items = items;
}

abbrev pub report_of :
    TaskPortfolio → String → List GroupSummary → List BacklogItem → String → BacklogReport
report_of p path groups items digest = record {
  report_version = backlog_contract;
  manifest_id = "task-portfolio-backlog-" <> replace_slashes p.portfolio_id;
  status = if ltb 0 (length items) then "open" else "empty";
  production_ready = false;
  source_portfolio_id = p.portfolio_id;
  source_task_family_release = p.source_task_family_release_id;
  max_open_batch = max_batch;
  path = path;
  summary = record {
    group_count = length p.groups;
    open_family_items = count_kind "family" items;
    open_revision_items = count_kind "revision" items;
    open_item_count = length items;
    wave_count = (length items + max_batch - 1) / max_batch;
    next_batch_ids = next_batch [] items;
    kind_counts = count_kinds [] items;
  };
  groups = groups;
  items = items;
  content_digest = digest;
}

-- BuildTaskPortfolioBacklog: the families' file is read twice.
unfoldable pub build_backlog :
    (Char → Char)
    → (StableBacklog → Option (List ℕ))
    → (List ℕ → List ℕ)
    → String
    → Document TaskPortfolio
    → Document TaskFamilyManifest
    → Document TaskFamilyManifest
    → Result BacklogError BacklogReport
build_backlog lower marshal sha256 path portfolio families again = do
  p ← wrap not_loaded (load_task_portfolio_manifest lower portfolio families)
  m ← read_families lower again
  let (collected, groups) = backlog_items lower p m
  let items = place_items 0 (sort_items p.groups collected)
  body ← expect (marshal (stable_of p groups items)) unmarshalled
  ok (report_of p path groups items (encode_hex (sha256 body)))
