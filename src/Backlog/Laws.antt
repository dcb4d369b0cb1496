-- ===== src/Backlog/Laws.antt =====
-- What BuildTaskPortfolioBacklog of internal/engine/portfolio_backlog.go reports.
use mathlib.Core.List.{append_assoc, append-nil}
use fluent_task_runtime.Base.{
  take, ℕ, zero, suc, ◌+◌, ◌*◌, ◌≤◌, ◌<◌, Char, String, ◌≡◌, refl, sym, ap, ap₂, ◌∙◌, subst, true,
  false, Option, List, [], ◌∷◌, ◌++◌, map, arith, ◌==◌, string_eq, nat_eq, ok, expect, wrap,
  >>=-eq-ok, wrap-eq-ok, length, length-append, Perm,
}
use fluent_task_runtime.Documents.{Document, unreadable, malformed, decoded}
use fluent_task_runtime.Families.{TaskFamilyManifest, validate_task_family_manifest}
use fluent_task_runtime.Families.Hashing.{encode_hex}
use fluent_task_runtime.Portfolio.{PortfolioGroup, TaskPortfolio}
use fluent_task_runtime.Portfolio.Validation.{current_of, load_task_portfolio_manifest}
use fluent_task_runtime.Backlog.{compatibility_of, BacklogItem, GroupSummary, count_kind}
use fluent_task_runtime.Backlog.Order.{less, sort_items}
use fluent_task_runtime.Backlog.Sorted.{
  IsOrdered, sort_items-IsOrdered, sort_items-perm, sort_items-count, sort_items-length,
}
use fluent_task_runtime.Backlog.Precedence.{IsArranged, IsOrdered-IsArranged}
use fluent_task_runtime.Backlog.Opens.{AreOpen}
use fluent_task_runtime.Backlog.Collected.{collect-AreOpen}
use fluent_task_runtime.Backlog.Report.{
  BacklogReport, StableBacklog, max_batch, place_items, next_batch, backlog_items, stable_of,
  report_of, read_families, build_backlog, not_loaded, invalid_families as invalid_backlog_families,
}
use fluent_task_runtime.Backlog.Counts.{sum_of, IsCollected, collect-IsCollected}

-- Each item's wave and position tell its index.
abbrev pub ArePlaced : ℕ → List BacklogItem → Type 0
ArePlaced index [] = Unit
ArePlaced index (i ∷ items) =
    ((1 ≤ i.batch_position)
      × (i.batch_position ≤ max_batch)
      × (index + 1 + max_batch ≡ i.wave * max_batch + i.batch_position))
    × ArePlaced (index + 1) items

place_items-ArePlaced :
    (index : ℕ) (items : List BacklogItem) → ArePlaced index (place_items index items)
unfolding place_items
place_items-ArePlaced index [] = tt
place_items-ArePlaced index (i ∷ items) =
    ((omega arith, omega arith, omega arith), place_items-ArePlaced (index + 1) items)

place_items-count :
    (kind : String) (index : ℕ) (items : List BacklogItem)
    → count_kind kind (place_items index items) ≡ count_kind kind items
unfolding place_items count_kind
place_items-count kind index [] = refl
place_items-count kind index (i ∷ items) =
    let later = place_items-count kind (index + 1) items in ground (arith, later)

place_items-length :
    (index : ℕ) (items : List BacklogItem) → length (place_items index items) ≡ length items
unfolding place_items
place_items-length index [] = refl
place_items-length index (i ∷ items) = ap (λ n. suc n) (place_items-length (index + 1) items)

-- An item without its place.
abbrev pub unplaced : BacklogItem → BacklogItem
unplaced i = record i { wave = 0; batch_position = 0 }

place_items-unplaced :
    (index : ℕ) (items : List BacklogItem)
    → map unplaced (place_items index items) ≡ map unplaced items
unfolding place_items
place_items-unplaced index [] = refl
place_items-unplaced index (i ∷ items) =
    ap (λ xs. unplaced i ∷ xs) (place_items-unplaced (index + 1) items)

place_items-IsOrdered :
    (groups : List PortfolioGroup) (index : ℕ) (items : List BacklogItem)
    → IsOrdered groups items
    → IsOrdered groups (place_items index items)
unfolding place_items less
place_items-IsOrdered groups index [] h = tt
place_items-IsOrdered groups index (i ∷ []) h = tt
place_items-IsOrdered groups index (i ∷ j ∷ items) (first, h) =
    (first, place_items-IsOrdered groups (index + 1) (j ∷ items) h)

next_batch-take :
    (room : ℕ) (ids : List String) (items : List BacklogItem)
    → length ids + room ≡ max_batch
    → next_batch ids items ≡ ids ++ map (λ i. i.item_id) (take room items)
unfolding next_batch take
next_batch-take zero ids [] h = sym (append-nil ids)
next_batch-take zero ids (i ∷ items) h =
    let full : (length ids == max_batch) ≡ true = ground (arith, h) in
    rw full (sym (append-nil ids))
next_batch-take (suc room) ids [] h = sym (append-nil ids)
next_batch-take (suc room) ids (i ∷ items) h =
    let some_room : (length ids == max_batch) ≡ false = ground (arith, h) in
    let longer = length-append ids (i.item_id ∷ []) in
    let left : length (ids ++ i.item_id ∷ []) + room ≡ max_batch = omega (arith, longer, h) in
    rw some_room (
      next_batch-take room (ids ++ i.item_id ∷ []) items left
      ∙ append_assoc ids (i.item_id ∷ []) (map (λ i. i.item_id) (take room items)))

-- The report of a portfolio: its items are what is open in its groups, arranged, in batches of 100,
-- and its numbers are theirs.
pub record IsBacklog (lower : Char → Char) (p : TaskPortfolio) (m : TaskFamilyManifest)
    (report : BacklogReport) : Type 0 where
  pub collected : List BacklogItem
  pub opened : AreOpen lower m.families p.compatibility_sets p.groups collected
  pub rearranged : Perm (map unplaced report.items) (map unplaced collected)
  pub arranged : IsArranged p.groups report.items
  pub placed : ArePlaced 0 report.items
  pub waves :
      (report.summary.open_item_count ≤ report.summary.wave_count * max_batch)
      × (report.summary.wave_count * max_batch < report.summary.open_item_count + max_batch)
  pub next : report.summary.next_batch_ids ≡ map (λ i. i.item_id) (take max_batch report.items)
  pub counted : report.summary.open_item_count ≡ length report.items
  pub whole :
      report.summary.open_family_items + report.summary.open_revision_items
      ≡ report.summary.open_item_count
  pub families : sum_of (λ s. s.open_family_items) report.groups ≡ report.summary.open_family_items
  pub revisions :
      sum_of (λ s. s.open_revision_items) report.groups ≡ report.summary.open_revision_items
  pub draft : report.production_ready ≡ false

IsBacklog-of_collected :
    (lower : Char → Char) (p : TaskPortfolio) (m : TaskFamilyManifest) (path digest : String)
    (collected : List BacklogItem) (groups : List GroupSummary)
    → AreOpen lower m.families p.compatibility_sets p.groups collected
    → IsCollected collected groups
    → IsBacklog lower p m
        (report_of p path groups (place_items 0 (sort_items p.groups collected)) digest)
IsBacklog-of_collected lower p m path digest collected groups opened h =
    let sorted = sort_items p.groups collected in
    let count : (kind : String)
        → count_kind kind (place_items 0 sorted) ≡ count_kind kind collected =
      λ kind. place_items-count kind 0 sorted ∙ sort_items-count kind p.groups collected in
    let size = place_items-length 0 sorted ∙ sort_items-length p.groups collected in
    let families = count "family" in
    let revisions = count "revision" in
    let whole = h.whole in
    record {
      collected = collected;
      opened = opened;
      rearranged =
          subst (λ xs. Perm xs (map unplaced collected)) (sym (place_items-unplaced 0 sorted))
            (sort_items-perm unplaced p.groups collected);
      arranged =
          IsOrdered-IsArranged p.groups (place_items 0 sorted)
            (place_items-IsOrdered p.groups 0 sorted (sort_items-IsOrdered p.groups collected));
      placed = place_items-ArePlaced 0 sorted;
      waves = (omega arith, omega arith);
      next = next_batch-take 100 [] (place_items 0 sorted) refl;
      counted = refl;
      whole = ap₂ (λ m n. m + n) families revisions ∙ whole ∙ sym size;
      families = h.families ∙ sym families;
      revisions = h.revisions ∙ sym revisions;
      draft = refl;
    }

read_families-decoded :
    (lower : Char → Char) (document : Document TaskFamilyManifest) (m : TaskFamilyManifest)
    → read_families lower document ≡ ok m
    → document ≡ decoded m
unfolding read_families
read_families-decoded lower unreadable m h = cc
read_families-decoded lower malformed m h = cc
read_families-decoded lower (decoded n) m h =
    let (_, _, h₁) =
      >>=-eq-ok (wrap invalid_backlog_families (validate_task_family_manifest lower n)) _ h in
    let same : n ≡ m = cc in ap decoded same

-- The backlog of a portfolio that loads, with families that can be read, has these items: for each
-- family of a group that exists, each expected pair for which no released family has a runnable last
-- revision, numbered; and each planned family of the group, with each of its expected revisions. They
-- stand in the order of priority, the group's rank, family, kind and sequence, each with the wave and
-- the position that its index has in batches of 100. There are as many waves as that takes, the next
-- batch has the ids of the first, and the counts of families and revisions add up to the number of the
-- items and are the sums of the groups' counts.
pub build_backlog-IsBacklog :
    (lower : Char → Char) (marshal : StableBacklog → Option (List ℕ)) (sha256 : List ℕ → List ℕ)
    (path : String) (portfolio : Document TaskPortfolio)
    (families again : Document TaskFamilyManifest) (report : BacklogReport)
    → build_backlog lower marshal sha256 path portfolio families again ≡ ok report
    → (p : TaskPortfolio) × (m : TaskFamilyManifest) × (load_task_portfolio_manifest lower portfolio
          families
        ≡ ok p)
      × (again ≡ decoded m)
      × IsBacklog lower p m report
unfolding build_backlog
build_backlog-IsBacklog lower marshal sha256 path portfolio families again report h =
    let (p, hp, h₁) =
      >>=-eq-ok (wrap not_loaded (load_task_portfolio_manifest lower portfolio families)) _ h in
    let (m, hm, h₂) = >>=-eq-ok (read_families lower again) _ h₁ in
    let items = place_items 0 (sort_items p.groups ((backlog_items lower p m).0)) in
    let (body, _, h₃) =
      >>=-eq-ok (expect (marshal (stable_of p ((backlog_items lower p m).1) items)) _) _ h₂ in
    let same : report_of p path ((backlog_items lower p m).1) items (encode_hex (sha256 body))
        ≡ report =
      cc in
    (
      p,
      m,
      wrap-eq-ok not_loaded (load_task_portfolio_manifest lower portfolio families) hp,
      read_families-decoded lower again m hm,
      subst (λ r. IsBacklog lower p m r) same
          (IsBacklog-of_collected lower p m path (encode_hex (sha256 body))
            ((backlog_items lower p m).0) ((backlog_items lower p m).1)
            (collect-AreOpen lower m.families p.compatibility_sets p.groups)
            (collect-IsCollected lower (current_of [] m.families)
              (compatibility_of [] p.compatibility_sets) p.groups)),
    )
