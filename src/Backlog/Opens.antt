-- ===== src/Backlog/Opens.antt =====
-- Which items BuildTaskPortfolioBacklog of internal/engine/portfolio_backlog.go collects, by the families
-- and the sets of a portfolio rather than by the maps that the code makes of them.
use fluent_task_runtime.Base.{
  ℕ, suc, ◌+◌, Char, String, ◌≡◌, Option, none, some, List, [], ◌∷◌, ◌++◌, if◌then◌else◌, ◌==◌,
  string_eq, nat_eq,
}
use fluent_task_runtime.Families.{TaskFamilyRevisionEntry, TaskFamilyEntry}
use fluent_task_runtime.Portfolio.{
  RevisionCompatibility, CompatibilitySet, ExistingFamily, PortfolioGroup, trimmed_pair,
  planned_key,
}
use fluent_task_runtime.Portfolio.Validation.{size_of}
use fluent_task_runtime.Backlog.{BacklogItem, new_item, no_family}

-- The last element with that key, if there is any.
unfoldable pub last_with : {A : Type 0} → (A → String) → String → List A → Option A
last_with key k [] = none
last_with key k (a ∷ xs) = elim (last_with key k xs) [
  | some b ↦ some b
  | none ↦ if key a == k then some a else none
]

-- The pair of a family's revision.
abbrev pub pair_key : (Char → Char) → TaskFamilyRevisionEntry → String
pair_key lower r = trimmed_pair lower r.language r.profile

-- The family has been released, and its last revision for the pair is runnable.
pub record IsComplete (lower : Char → Char) (family : TaskFamilyEntry) (x : RevisionCompatibility)
    : Type 0 where
  pub revision : TaskFamilyRevisionEntry
  pub last :
      last_with (pair_key lower) (trimmed_pair lower x.language x.profile) family.revisions
      ≡ some revision
  pub runnable : revision.availability ≡ "runnable"
  pub released : family.status ≡ "released"

-- The expected revisions that a family does not have complete, numbered from one on.
pub data AreMissing (lower : Char → Char) (group_id : String) (family : TaskFamilyEntry)
    : ℕ → List RevisionCompatibility → List BacklogItem → Type 0 where
  no_more : (n : ℕ) → AreMissing lower group_id family n [] []
  complete :
      (n : ℕ) (x : RevisionCompatibility) (xs : List RevisionCompatibility)
      (items : List BacklogItem)
      → IsComplete lower family x
      → AreMissing lower group_id family n xs items
      → AreMissing lower group_id family n (x ∷ xs) items
  incomplete :
      (n : ℕ) (x : RevisionCompatibility) (xs : List RevisionCompatibility)
      (items : List BacklogItem)
      → ¬ IsComplete lower family x
      → AreMissing lower group_id family (n + 1) xs items
      → AreMissing lower group_id family n (x ∷ xs) (
          new_item group_id "revision" "complete-compatible-revision" n family.key x.language
            x.profile "existing-family-release" 1
          ∷ items)

-- The last family of that key in the manifest, or one without fields.
abbrev pub family_of : String → List TaskFamilyEntry → TaskFamilyEntry
family_of key families = elim (last_with (λ f. f.key) key families) [
  | none ↦ no_family
  | some f ↦ f
]

-- The revisions of the portfolio's last set of that id, or none.
abbrev pub expected_of : String → List CompatibilitySet → List RevisionCompatibility
expected_of id sets = elim (last_with (λ s. s.id) id sets) [ none ↦ [] | some s ↦ s.revisions ]

-- What is missing of the group's existing families.
pub data AreExisting (lower : Char → Char) (families : List TaskFamilyEntry)
    (expected : List RevisionCompatibility) (group_id : String)
    : List ExistingFamily → List BacklogItem → Type 0 where
  no_family_left : AreExisting lower families expected group_id [] []
  family_left :
      (e : ExistingFamily) (existing : List ExistingFamily) (items rest : List BacklogItem)
      → AreMissing lower group_id (family_of e.family_key families) 1 expected items
      → AreExisting lower families expected group_id existing rest
      → AreExisting lower families expected group_id (e ∷ existing) (items ++ rest)

-- The revisions of a planned family, numbered on from a number: one for each that is expected.
pub data AreAuthored (group_id key : String)
    : ℕ → List RevisionCompatibility → List BacklogItem → Type 0 where
  all_authored : (n : ℕ) → AreAuthored group_id key n [] []
  authored :
      (n : ℕ) (x : RevisionCompatibility) (xs : List RevisionCompatibility)
      (items : List BacklogItem)
      → AreAuthored group_id key (n + 1) xs items
      → AreAuthored group_id key n (x ∷ xs) (
          new_item group_id "revision" "author-task-revision" n key x.language x.profile
            "planned-family-series" 3
          ∷ items)

-- The planned families of a series from an offset on, with their revisions: so many are left.
pub data ArePlanned (expected : List RevisionCompatibility) (group_id prefix : String) (start : ℕ)
    : ℕ → ℕ → List BacklogItem → Type 0 where
  all_planned : (offset : ℕ) → ArePlanned expected group_id prefix start offset 0 []
  planned :
      (offset left : ℕ) (revisions rest : List BacklogItem)
      → AreAuthored group_id (planned_key prefix start offset) 1 expected revisions
      → ArePlanned expected group_id prefix start (offset + 1) left rest
      → ArePlanned expected group_id prefix start offset (suc left) (
          new_item group_id "family" "author-task-family"
            (offset + 1)
            (planned_key prefix start offset)
            ""
            ""
            "planned-family-series"
            2
          ∷ (revisions ++ rest))

-- The items of the groups: what is missing of the existing families, and the families and revisions
-- that are planned.
pub data AreOpen (lower : Char → Char) (families : List TaskFamilyEntry)
    (sets : List CompatibilitySet) : List PortfolioGroup → List BacklogItem → Type 0 where
  no_group_left : AreOpen lower families sets [] []
  group_left :
      (g : PortfolioGroup) (groups : List PortfolioGroup) (existing new rest : List BacklogItem)
      → AreExisting lower families
          (expected_of g.compatibility_set sets)
          g.id
          g.existing_families
          existing
      → ArePlanned
          (expected_of g.compatibility_set sets)
          g.id
          g.planned_series.prefix
          (size_of g.planned_series.start)
          0
          (size_of g.planned_series.count)
          new
      → AreOpen lower families sets groups rest
      → AreOpen lower families sets (g ∷ groups) ((existing ++ new) ++ rest)
