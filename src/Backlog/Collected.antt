-- ===== src/Backlog/Collected.antt =====
-- That BuildTaskPortfolioBacklog of internal/engine/portfolio_backlog.go collects what is open.
use mathlib.Core.Option
use fluent_task_runtime.Base.{
  ℕ, zero, suc, ◌+◌, Char, String, ◌≡◌, refl, sym, ap, ◌∙◌, subst, ◌⊎◌, inl, inr, true, false,
  Option, none, some, List, [], ◌∷◌, ◌++◌, arith, ◌==◌, ==_iff, string_eq, nat_eq, Bool-cases,
  Option-cases,
}
use fluent_task_runtime.Base.Dict.{Dict, lookup, insert, lookup-insert}
use fluent_task_runtime.Families.{TaskFamilyRevisionEntry, TaskFamilyEntry}
use fluent_task_runtime.Portfolio.{
  RevisionCompatibility, CompatibilitySet, ExistingFamily, PortfolioGroup, Compatibility,
  trimmed_pair, planned_key,
}
use fluent_task_runtime.Portfolio.Validation.{Current, current_of, size_of}
use fluent_task_runtime.Backlog.{
  compatibility_of, set_at, pairs_of, is_done, missing_revisions, no_family, family_at,
  existing_items, planned_revisions, planned_items, collect,
}
use fluent_task_runtime.Backlog.Opens.{
  last_with, pair_key, IsComplete, AreMissing, family_of, expected_of, AreExisting, AreAuthored,
  ArePlanned, AreOpen, no_more, complete, incomplete, no_family_left, family_left, all_authored,
  authored, all_planned, planned, no_group_left, group_left,
}

abbrev or_else : {A : Type 0} → Option A → Option A → Option A
or_else none o = o
or_else (some a) o = some a

-- What a map holds that a loop over a list has written: the last of each key's values.
module _ {A V : Type 0} (key : A → String) (value : A → V) where
  unfoldable write_all : Dict String V → List A → Dict String V
  write_all d [] = d
  write_all d (a ∷ xs) = write_all (insert (key a) (value a) d) xs

  lookup-write_all :
      (k : String) (d : Dict String V) (xs : List A)
      → lookup k (write_all d xs) ≡ or_else (Option.map value (last_with key k xs)) (lookup k d)
  unfolding write_all last_with
  lookup-write_all k d [] = refl
  lookup-write_all k d (a ∷ xs) =
      let later = lookup-write_all k (insert (key a) (value a) d) xs in
      let written = lookup-insert k (key a) (value a) d in
      later ∙ elim (Option-cases (last_with key k xs)) [
        | inr (b, e) ↦ rw e refl
        | inl e ↦ rw e (
            written ∙ elim (Bool-cases (key a == k)) [
              | inl same ↦ rw same refl
              | inr other ↦ rw other refl
            ])
      ]

or_else-none : {A : Type 0} (o : Option A) → or_else o none ≡ o
or_else-none none = refl
or_else-none (some a) = refl

lookup-write_all-nil :
    {A V : Type 0} (key : A → String) (value : A → V) (k : String) (xs : List A)
    → lookup k (write_all key value [] xs) ≡ Option.map value (last_with key k xs)
unfolding lookup
lookup-write_all-nil key value k xs =
    lookup-write_all key value k [] xs ∙ or_else-none (Option.map value (last_with key k xs))

map-same : {A : Type 0} (o : Option A) → Option.map (λ (a : A). a) o ≡ o
map-same none = refl
map-same (some a) = refl

pairs_of-write_all :
    (lower : Char → Char) (d : Dict String TaskFamilyRevisionEntry)
    (revisions : List TaskFamilyRevisionEntry)
    → pairs_of lower d revisions ≡ write_all (pair_key lower) (λ r. r) d revisions
unfolding pairs_of write_all
pairs_of-write_all lower d [] = refl
pairs_of-write_all lower d (r ∷ revisions) =
    pairs_of-write_all lower (insert (pair_key lower r) r d) revisions

current_of-write_all :
    (d : Current) (families : List TaskFamilyEntry)
    → current_of d families ≡ write_all (λ f. f.key) (λ f. f) d families
unfolding current_of write_all
current_of-write_all d [] = refl
current_of-write_all d (f ∷ families) = current_of-write_all (insert f.key f d) families

compatibility_of-write_all :
    (d : Compatibility) (sets : List CompatibilitySet)
    → compatibility_of d sets ≡ write_all (λ s. s.id) (λ s. s.revisions) d sets
unfolding compatibility_of write_all
compatibility_of-write_all d [] = refl
compatibility_of-write_all d (s ∷ sets) =
    compatibility_of-write_all (insert s.id s.revisions d) sets

lookup-pairs_of :
    (lower : Char → Char) (k : String) (revisions : List TaskFamilyRevisionEntry)
    → lookup k (pairs_of lower [] revisions) ≡ last_with (pair_key lower) k revisions
lookup-pairs_of lower k revisions =
    ap (λ d. lookup k d) (pairs_of-write_all lower [] revisions)
    ∙ lookup-write_all-nil (pair_key lower) (λ r. r) k revisions
    ∙ map-same (last_with (pair_key lower) k revisions)

family_at-family_of :
    (k : String) (families : List TaskFamilyEntry)
    → family_at k (current_of [] families) ≡ family_of k families
family_at-family_of k families =
    let e =
      ap (λ d. lookup k d) (current_of-write_all [] families)
      ∙ lookup-write_all-nil (λ f. f.key) (λ f. f) k families
      ∙ map-same (last_with (λ f. f.key) k families) in
    ap (λ o. elim o [ none ↦ no_family | some f ↦ f ]) e

set_at-expected_of :
    (k : String) (sets : List CompatibilitySet)
    → set_at k (compatibility_of [] sets) ≡ expected_of k sets
set_at-expected_of k sets =
    let e =
      ap (λ d. lookup k d) (compatibility_of-write_all [] sets)
      ∙ lookup-write_all-nil (λ s. s.id) (λ s. s.revisions) k sets in
    ap (λ o. elim o [ none ↦ [] | some set ↦ set ]) e ∙ mapped (last_with (λ s. s.id) k sets)
  where
    mapped :
        (o : Option CompatibilitySet)
        → (elim (Option.map (λ s. s.revisions) o) [ none ↦ [] | some set ↦ set ])
          ≡ (elim o [ none ↦ [] | some s ↦ s.revisions ])
    mapped none = refl
    mapped (some s) = refl

is_done-IsComplete :
    (lower : Char → Char) (family : TaskFamilyEntry) (x : RevisionCompatibility)
    (o : Option TaskFamilyRevisionEntry)
    → last_with (pair_key lower) (trimmed_pair lower x.language x.profile) family.revisions ≡ o
    → ((is_done family o ≡ true) × IsComplete lower family x)
      ⊎ ((is_done family o ≡ false) × ¬ IsComplete lower family x)
is_done-IsComplete lower family x none h = inr (refl, λ c. let clash = sym h ∙ c.last in cc)
is_done-IsComplete lower family x (some r) h = elim (Bool-cases (is_done family (some r))) [
  | inl done ↦ inl (
    done,
    record {
      revision = r;
      last = h;
      runnable = (==_iff r.availability "runnable").0 (ground (arith, done));
      released = (==_iff family.status "released").0 (ground (arith, done));
    },
  )
  | inr unfinished ↦ inr (
    unfinished,
    λ c.
        let same : some r ≡ some c.revision = sym h ∙ c.last in
        let one : r ≡ c.revision = cc in
        let runnable =
          (==_iff r.availability "runnable").1 (ap (λ y. y.availability) one ∙ c.runnable) in
        let released = (==_iff family.status "released").1 c.released in
        ground (arith, unfinished, runnable, released),
  )
]

missing_revisions-AreMissing :
    (lower : Char → Char) (group_id : String) (family : TaskFamilyEntry) (n : ℕ)
    (expected : List RevisionCompatibility)
    → AreMissing lower group_id family n expected
        (missing_revisions lower group_id family (pairs_of lower [] family.revisions) n expected)
unfolding missing_revisions
missing_revisions-AreMissing lower group_id family n [] = no_more n
missing_revisions-AreMissing lower group_id family n (x ∷ expected) =
    let same = missing_revisions-AreMissing lower group_id family n expected in
    let next = missing_revisions-AreMissing lower group_id family (n + 1) expected in
    let found = lookup-pairs_of lower (trimmed_pair lower x.language x.profile) family.revisions in
    elim (is_done-IsComplete lower family x
      (lookup (trimmed_pair lower x.language x.profile) (pairs_of lower [] family.revisions))
      (sym found)) [
        | inl (done, h) ↦ rw done (complete n x expected _ h same)
        | inr (unfinished, h) ↦ rw unfinished (incomplete n x expected _ h next)
      ]

existing_items-AreExisting :
    (lower : Char → Char) (families : List TaskFamilyEntry) (expected : List RevisionCompatibility)
    (group_id : String) (existing : List ExistingFamily)
    → AreExisting lower families expected group_id existing
        (existing_items lower (current_of [] families) expected group_id existing)
unfolding existing_items
existing_items-AreExisting lower families expected group_id [] = no_family_left
existing_items-AreExisting lower families expected group_id (e ∷ existing) =
    let rest = existing_items lower (current_of [] families) expected group_id existing in
    subst
      (λ f.
        AreExisting lower families expected group_id (e ∷ existing)
          (missing_revisions lower group_id f (pairs_of lower [] f.revisions) 1 expected ++ rest))
      (sym (family_at-family_of e.family_key families))
      (family_left e existing _ rest
        (missing_revisions-AreMissing lower group_id (family_of e.family_key families) 1 expected)
        (existing_items-AreExisting lower families expected group_id existing))

planned_revisions-AreAuthored :
    (group_id key : String) (n : ℕ) (expected : List RevisionCompatibility)
    → AreAuthored group_id key n expected (planned_revisions group_id key n expected)
unfolding planned_revisions
planned_revisions-AreAuthored group_id key n [] = all_authored n
planned_revisions-AreAuthored group_id key n (x ∷ expected) =
    authored n x expected _ (planned_revisions-AreAuthored group_id key (n + 1) expected)

planned_items-ArePlanned :
    (expected : List RevisionCompatibility) (group_id prefix : String) (start offset left : ℕ)
    → ArePlanned expected group_id prefix start offset left
        (planned_items expected group_id prefix start offset left)
unfolding planned_items
planned_items-ArePlanned expected group_id prefix start offset zero = all_planned offset
planned_items-ArePlanned expected group_id prefix start offset (suc left) =
    planned offset left _ _
      (planned_revisions-AreAuthored group_id (planned_key prefix start offset) 1 expected)
      (planned_items-ArePlanned expected group_id prefix start (offset + 1) left)

pub collect-AreOpen :
    (lower : Char → Char) (families : List TaskFamilyEntry) (sets : List CompatibilitySet)
    (groups : List PortfolioGroup)
    → AreOpen lower families sets groups
        ((collect lower (current_of [] families) (compatibility_of [] sets) groups).0)
unfolding collect
collect-AreOpen lower families sets [] = no_group_left
collect-AreOpen lower families sets (g ∷ groups) =
    let rest = collect lower (current_of [] families) (compatibility_of [] sets) groups in
    subst
      (λ expected. AreOpen lower families sets (g ∷ groups) (
        (existing_items lower (current_of [] families) expected g.id g.existing_families
          ++ planned_items expected g.id g.planned_series.prefix (size_of g.planned_series.start) 0
              (size_of g.planned_series.count))
        ++ rest.0))
      (sym (set_at-expected_of g.compatibility_set sets))
      (group_left g groups _ _ (rest.0)
        (existing_items-AreExisting lower families (expected_of g.compatibility_set sets) g.id
          g.existing_families)
        (planned_items-ArePlanned (expected_of g.compatibility_set sets) g.id
          g.planned_series.prefix (size_of g.planned_series.start) 0
          (size_of g.planned_series.count))
        (collect-AreOpen lower families sets groups))
