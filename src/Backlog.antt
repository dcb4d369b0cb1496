-- ===== src/Backlog.antt =====
-- The authoring backlog of internal/engine/portfolio_backlog.go. JSON's encoding, SHA-256 and the case
-- table of Unicode are parameters. Counts of items in memory are natural numbers.
pub mod Order
pub mod Sorted
pub mod Precedence
pub mod Counts
pub mod Opens
pub mod Collected
pub mod Report
pub mod Laws
use fluent_task_runtime.Base.{
  ℕ, zero, suc, ◌+◌, ◌-◌, ◌*◌, ◌/◌, ◌%◌, ◌≤◌, ◌<◌, Char, code, String, ◌<>◌, ◌≡◌, refl, sym, ap,
  ap₂, ◌∙◌, subst, ◌≢◌, ◌↔◌, ◌⊎◌, inl, inr, Bool, true, false, not, ◌&&◌, ◌||◌, Option, none, some,
  List, [], ◌∷◌, ◌++◌, map, arith, if◌then◌else◌, ltb, leb, Eq, ◌==◌, ==_iff, string_eq, nat_eq,
  Bool-cases, and-eq-true, ne_of_test, Result, ok, ok_unique, err, ◌>>=◌, ◌>>◌, guard, refuse,
  expect, is_found, wrap, >>=-eq-ok, guard-eq-ok, refuse-eq-ok, wrap-eq-ok, expect-eq-ok,
  Option-cases, Result-cases, Refused, Refused-bind, Refused-guard, Refused-refuse, Refused-expect,
  Refused-wrap, Refused-err, length, is_empty, all, length-append, All, All-append, All-mem,
  All-map, All-zip, Distinct, contains, contains-mem, mem_of_contains, Memᴰ, Perm, perm_of_Distinct,
  Distinct-of_map, contains-eq-false_iff, Fresh, Fresh-nil, Fresh-cons, Fresh-snoc,
}
use fluent_task_runtime.Base.Dict.{Dict, lookup, insert}
use fluent_task_runtime.Text.{trim_space, to_lower}
use fluent_task_runtime.Text.Decimal.{decimal_03}
use fluent_task_runtime.Numbers.{ℤ, pos}
use fluent_task_runtime.Families.{TaskFamilyRevisionEntry, TaskFamilyEntry, TaskFamilyManifest}
use fluent_task_runtime.Portfolio.{
  RevisionCompatibility, CompatibilitySet, ExistingFamily, PlannedSeries, PortfolioGroup,
  TaskPortfolio, Compatibility, trimmed_pair, planned_key,
}
use fluent_task_runtime.Portfolio.Validation.{Current, current_of, size_of}

pub record BacklogItem : Type 0 where
  pub item_id : String
  pub group_id : String
  pub kind : String
  pub action : String
  pub sequence : ℕ
  pub status : String
  pub priority : ℕ
  pub wave : ℕ
  pub batch_position : ℕ
  pub family_key : String
  pub language : String
  pub profile : String
  pub source : String
  pub acceptance : List String

pub record GroupSummary : Type 0 where
  pub group_id : String
  pub kind : String
  pub target_family_count : ℤ
  pub existing_family_count : ℕ
  pub planned_family_count : ℤ
  pub open_family_items : ℕ
  pub open_revision_items : ℕ

abbrev family_acceptance : List String
family_acceptance =
    "EN/RU title and brief, capability keys and rubric are reviewed"
    ∷ "family receives an immutable release entry with an explicit execution kind"
    ∷ "at least one compatible revision passes runtime smoke before release" ∷ []

abbrev revision_acceptance : List String
revision_acceptance =
    "language/profile pair is exactly the compatibility set declared by the portfolio"
    ∷ "starter, hidden tests, immutable hash and resource limits are reviewed"
    ∷ "released revision passes deterministic pass/fail/error and failure-injection checks" ∷ []

-- portfolioBacklogAcceptance
abbrev acceptance_of : String → List String
acceptance_of kind =
    if kind == "family"
    then family_acceptance
    else if kind == "revision"
    then revision_acceptance
    else []

-- The replacer of "/", ":" and " " by "-".
unfoldable pub replace_separators : String → String
replace_separators String.[] = String.[]
replace_separators (String.◌∷◌ c s) =
    if code c == b'/' || code c == b':' || code c == b' '
    then "-" <> replace_separators s
    else String.◌∷◌ c (replace_separators s)

abbrev identity_of : String → String → String → String
identity_of family_key language profile =
    if not (language == "") || not (profile == "")
    then family_key <> (":" <> language <> "-" <> profile)
    else family_key

abbrev slot_or : String → ℕ → String
slot_or identity sequence =
    if identity == "" then "slot-" <> decimal_03 (pos sequence) else identity

-- newPortfolioBacklogItem
abbrev pub new_item :
    String → String → String → ℕ → String → String → String → String → ℕ → BacklogItem
new_item group_id kind action sequence family_key language profile source priority =
    let identity =
      replace_separators (slot_or (identity_of family_key language profile) sequence) in
    record {
      item_id = "backlog:task-portfolio:" <> group_id <> ":" <> kind <> ":" <> identity;
      group_id = group_id;
      kind = kind;
      action = action;
      sequence = sequence;
      status = "open";
      priority = priority;
      wave = 0;
      batch_position = 0;
      family_key = family_key;
      language = language;
      profile = profile;
      source = source;
      acceptance = acceptance_of kind;
    }

-- `compatibilityByID`
unfoldable pub compatibility_of : Compatibility → List CompatibilitySet → Compatibility
compatibility_of result [] = result
compatibility_of result (s ∷ sets) = compatibility_of (insert s.id s.revisions result) sets

abbrev pub set_at : String → Compatibility → List RevisionCompatibility
set_at id sets = elim (lookup id sets) [ none ↦ [] | some set ↦ set ]

-- `pairs`: a family's revision by its language and profile.
unfoldable pub pairs_of :
    (Char → Char)
    → Dict String TaskFamilyRevisionEntry
    → List TaskFamilyRevisionEntry
    → Dict String TaskFamilyRevisionEntry
pairs_of lower pairs [] = pairs
pairs_of lower pairs (r ∷ revisions) =
    pairs_of lower (insert (trimmed_pair lower r.language r.profile) r pairs) revisions

-- `found && revision.Availability == "runnable" && family.Status == "released"`
abbrev pub is_done : TaskFamilyEntry → Option TaskFamilyRevisionEntry → Bool
is_done family none = false
is_done family (some r) = r.availability == "runnable" && family.status == "released"

-- The loop over the expected revisions of an existing family.
unfoldable pub missing_revisions :
    (Char → Char)
    → String
    → TaskFamilyEntry
    → Dict String TaskFamilyRevisionEntry
    → ℕ
    → List RevisionCompatibility
    → List BacklogItem
missing_revisions lower group_id family pairs sequence [] = []
missing_revisions lower group_id family pairs sequence (e ∷ expected) =
    let same = missing_revisions lower group_id family pairs sequence expected in
    let next = missing_revisions lower group_id family pairs (sequence + 1) expected in
    if is_done family (lookup (trimmed_pair lower e.language e.profile) pairs)
    then same
    else new_item group_id "revision" "complete-compatible-revision" sequence family.key e.language
        e.profile "existing-family-release" 1
      ∷ next

-- A missing key of `familyByKey` is a family without fields.
abbrev pub no_family : TaskFamilyEntry
no_family = record {
  key = "";
  title = record { en = ""; ru = "" };
  brief = record { en = ""; ru = "" };
  capability_keys = [];
  execution_kind = "";
  rubric_ref = "";
  status = "";
  revisions = [];
}

abbrev pub family_at : String → Current → TaskFamilyEntry
family_at key families = elim (lookup key families) [ none ↦ no_family | some f ↦ f ]

unfoldable pub existing_items :
    (Char → Char)
    → Current
    → List RevisionCompatibility
    → String
    → List ExistingFamily
    → List BacklogItem
existing_items lower families expected group_id [] = []
existing_items lower families expected group_id (e ∷ existing) =
    let family = family_at e.family_key families in
    missing_revisions lower group_id family (pairs_of lower [] family.revisions) 1 expected
    ++ existing_items lower families expected group_id existing

-- The loop over the expected revisions of a planned family.
unfoldable pub planned_revisions :
    String → String → ℕ → List RevisionCompatibility → List BacklogItem
planned_revisions group_id key sequence [] = []
planned_revisions group_id key sequence (e ∷ expected) =
    new_item group_id "revision" "author-task-revision" sequence key e.language e.profile
      "planned-family-series" 3
    ∷ planned_revisions group_id key (sequence + 1) expected

-- The loop over a planned series, of which so many families are left.
unfoldable pub planned_items :
    List RevisionCompatibility → String → String → ℕ → ℕ → ℕ → List BacklogItem
planned_items expected group_id prefix start offset zero = []
planned_items expected group_id prefix start offset (suc left) =
    let key = planned_key prefix start offset in
    new_item group_id "family" "author-task-family" (offset + 1) key "" "" "planned-family-series" 2
    ∷ (planned_revisions group_id key 1 expected
        ++ planned_items expected group_id prefix start (offset + 1) left)

-- The items of a group.
abbrev pub group_items : (Char → Char) → Current → Compatibility → PortfolioGroup → List BacklogItem
group_items lower families sets g =
    let expected = set_at g.compatibility_set sets in
    existing_items lower families expected g.id g.existing_families
    ++ planned_items expected g.id g.planned_series.prefix (size_of g.planned_series.start) 0
        (size_of g.planned_series.count)

-- The counters of the loops: an item of a kind increments that kind's.
unfoldable pub count_kind : String → List BacklogItem → ℕ
count_kind kind [] = 0
count_kind kind (i ∷ items) =
    let rest = count_kind kind items in if i.kind == kind then suc rest else rest

abbrev pub summary_of_group : PortfolioGroup → List BacklogItem → GroupSummary
summary_of_group g items = record {
  group_id = g.id;
  kind = g.kind;
  target_family_count = g.target_family_count;
  existing_family_count = length g.existing_families;
  planned_family_count = g.planned_series.count;
  open_family_items = count_kind "family" items;
  open_revision_items = count_kind "revision" items;
}

unfoldable pub collect :
    (Char → Char)
    → Current
    → Compatibility
    → List PortfolioGroup
    → List BacklogItem × List GroupSummary
collect lower families sets [] = ([], [])
collect lower families sets (g ∷ groups) =
    let items = group_items lower families sets g in
    let (later, summaries) = collect lower families sets groups in
    (items ++ later, summary_of_group g items ∷ summaries)
