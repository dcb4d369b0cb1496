-- ===== src/Backlog/Counts.antt =====
-- The counts of the items that BuildTaskPortfolioBacklog of internal/engine/portfolio_backlog.go
-- collects.
use fluent_task_runtime.Base.{
  ℕ, zero, suc, ◌+◌, Char, String, ◌≡◌, refl, inl, inr, List, [], ◌∷◌, ◌++◌, arith, string_eq,
  nat_eq, Bool-cases, length, length-append,
}
use fluent_task_runtime.Families.{TaskFamilyEntry, TaskFamilyRevisionEntry}
use fluent_task_runtime.Base.Dict.{Dict, lookup}
use fluent_task_runtime.Portfolio.{
  RevisionCompatibility, PortfolioGroup, ExistingFamily, Compatibility, trimmed_pair, planned_key,
}
use fluent_task_runtime.Portfolio.Validation.{Current, size_of}
use fluent_task_runtime.Backlog.{
  set_at, BacklogItem, GroupSummary, is_done, pairs_of, family_at, missing_revisions,
  existing_items, planned_revisions, planned_items, group_items, count_kind, collect,
}

-- Every item is of one of the two kinds.
abbrev IsWhole : List BacklogItem → Type 0
IsWhole items = count_kind "family" items + count_kind "revision" items ≡ length items

count_kind-append :
    (kind : String) (xs ys : List BacklogItem)
    → count_kind kind (xs ++ ys) ≡ count_kind kind xs + count_kind kind ys
unfolding count_kind
count_kind-append kind [] ys = omega arith
count_kind-append kind (x ∷ xs) ys =
    let later = count_kind-append kind xs ys in ground (arith, later)

IsWhole-append : (xs ys : List BacklogItem) → IsWhole xs → IsWhole ys → IsWhole (xs ++ ys)
IsWhole-append xs ys h k =
    let families = count_kind-append "family" xs ys in
    let revisions = count_kind-append "revision" xs ys in
    let both = length-append xs ys in omega (arith, h, k, families, revisions, both)

IsWhole-family :
    (i : BacklogItem) (items : List BacklogItem)
    → i.kind ≡ "family"
    → IsWhole items
    → IsWhole (i ∷ items)
unfolding count_kind string_eq
IsWhole-family i items e h = rw e (omega (arith, h))

IsWhole-revision :
    (i : BacklogItem) (items : List BacklogItem)
    → i.kind ≡ "revision"
    → IsWhole items
    → IsWhole (i ∷ items)
unfolding count_kind string_eq
IsWhole-revision i items e h = rw e (omega (arith, h))

IsWhole-nil : IsWhole []
unfolding count_kind
IsWhole-nil = refl

missing_revisions-IsWhole :
    (lower : Char → Char) (id : String) (family : TaskFamilyEntry)
    (pairs : Dict String TaskFamilyRevisionEntry) (n : ℕ) (expected : List RevisionCompatibility)
    → IsWhole (missing_revisions lower id family pairs n expected)
unfolding missing_revisions
missing_revisions-IsWhole lower id family pairs n [] = IsWhole-nil
missing_revisions-IsWhole lower id family pairs n (e ∷ expected) =
    elim (Bool-cases (is_done family (lookup (trimmed_pair lower e.language e.profile) pairs))) [
      | inl done ↦ rw done (missing_revisions-IsWhole lower id family pairs n expected)
      | inr missing ↦ rw missing (
          IsWhole-revision _ _ refl
            (missing_revisions-IsWhole lower id family pairs (n + 1) expected))
    ]

existing_items-IsWhole :
    (lower : Char → Char) (families : Current) (expected : List RevisionCompatibility) (id : String)
    (existing : List ExistingFamily)
    → IsWhole (existing_items lower families expected id existing)
unfolding existing_items
existing_items-IsWhole lower families expected id [] = IsWhole-nil
existing_items-IsWhole lower families expected id (e ∷ existing) =
    let family = family_at e.family_key families in
    IsWhole-append
      (missing_revisions lower id family (pairs_of lower [] family.revisions) 1 expected)
      (existing_items lower families expected id existing)
      (missing_revisions-IsWhole lower id family (pairs_of lower [] family.revisions) 1 expected)
      (existing_items-IsWhole lower families expected id existing)

planned_revisions-IsWhole :
    (id key : String) (n : ℕ) (expected : List RevisionCompatibility)
    → IsWhole (planned_revisions id key n expected)
unfolding planned_revisions
planned_revisions-IsWhole id key n [] = IsWhole-nil
planned_revisions-IsWhole id key n (e ∷ expected) =
    IsWhole-revision _ _ refl (planned_revisions-IsWhole id key (n + 1) expected)

planned_items-IsWhole :
    (expected : List RevisionCompatibility) (id prefix : String) (start offset left : ℕ)
    → IsWhole (planned_items expected id prefix start offset left)
unfolding planned_items
planned_items-IsWhole expected id prefix start offset zero = IsWhole-nil
planned_items-IsWhole expected id prefix start offset (suc left) = IsWhole-family _ _ refl (
    IsWhole-append (planned_revisions id (planned_key prefix start offset) 1 expected)
      (planned_items expected id prefix start (offset + 1) left)
      (planned_revisions-IsWhole id (planned_key prefix start offset) 1 expected)
      (planned_items-IsWhole expected id prefix start (offset + 1) left))

group_items-IsWhole :
    (lower : Char → Char) (families : Current) (sets : Compatibility) (g : PortfolioGroup)
    → IsWhole (group_items lower families sets g)
group_items-IsWhole lower families sets g =
    let expected = set_at g.compatibility_set sets in
    let series = g.planned_series in
    IsWhole-append (existing_items lower families expected g.id g.existing_families)
      (planned_items expected g.id series.prefix (size_of series.start) 0 (size_of series.count))
      (existing_items-IsWhole lower families expected g.id g.existing_families)
      (planned_items-IsWhole expected g.id series.prefix (size_of series.start) 0
        (size_of series.count))

-- What the groups' summaries count in all.
unfoldable pub sum_of : (GroupSummary → ℕ) → List GroupSummary → ℕ
sum_of f [] = 0
sum_of f (s ∷ summaries) = f s + sum_of f summaries

-- The items of the groups are families and revisions, as many as the summaries say.
pub record IsCollected (items : List BacklogItem) (groups : List GroupSummary) : Type 0 where
  pub whole : count_kind "family" items + count_kind "revision" items ≡ length items
  pub families : sum_of (λ s. s.open_family_items) groups ≡ count_kind "family" items
  pub revisions : sum_of (λ s. s.open_revision_items) groups ≡ count_kind "revision" items

pub collect-IsCollected :
    (lower : Char → Char) (families : Current) (sets : Compatibility) (groups : List PortfolioGroup)
    → IsCollected ((collect lower families sets groups).0) ((collect lower families sets groups).1)
unfolding collect sum_of
collect-IsCollected lower families sets [] = record {
  whole = IsWhole-nil;
  families = unfold count_kind in refl;
  revisions = unfold count_kind in refl;
}
collect-IsCollected lower families sets (g ∷ groups) =
    let items = group_items lower families sets g in
    let later = collect-IsCollected lower families sets groups in
    let rest = (collect lower families sets groups).0 in
    let more_families = count_kind-append "family" items rest in
    let more_revisions = count_kind-append "revision" items rest in
    let sum_families = later.families in
    let sum_revisions = later.revisions in
    record {
      whole = IsWhole-append items rest (group_items-IsWhole lower families sets g) later.whole;
      families = omega (arith, more_families, sum_families);
      revisions = omega (arith, more_revisions, sum_revisions);
    }
