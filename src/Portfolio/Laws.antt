-- ===== src/Portfolio/Laws.antt =====
-- What validateTaskPortfolioManifest of internal/engine/portfolio.go accepts.
use fluent_task_runtime.Base.{
  ◌%◌, ◌<◌, Char, String, ◌≡◌, refl, subst, inl, inr, true, ◌&&◌, List, [], ◌∷◌, ◌++◌, arith, ◌==◌,
  ==_iff, string_eq, nat_eq, Bool-cases, ok, is_found, >>=-eq-ok, guard-eq-ok, refuse-eq-ok, length,
  All, All-map, Distinct, contains,
}
use fluent_task_runtime.Base.Dict.{Dict, lookup, insert, lookup-insert}
use fluent_task_runtime.Text.{is_blank}
use fluent_task_runtime.Numbers.{int_eq}
use fluent_task_runtime.Families.{TaskFamilyEntry, TaskFamilyManifest}
use fluent_task_runtime.Portfolio.{
  PortfolioGroup, TaskPortfolio, KindCount, expected_kinds, equals, Classified,
  validate_kind_targets, validate_compatibility_sets,
}
use fluent_task_runtime.Portfolio.Validation.{
  Current, current_of, count_at, modulus, Tally, no_tally, check_groups, check_superseded,
  same_count, check_kinds, check_tracks, native_tracks, check_accounted, contract_portfolio,
  validate_portfolio,
}
use fluent_task_runtime.Portfolio.Classifying.{
  Classifies, Classifies-append, IsWithdrawnFamily, superseded_keys, check_superseded_sound,
}
use fluent_task_runtime.Portfolio.Counting.{
  keys_of_groups, IsGroup, families_in, revisions_in, total, AreGroups, check_groups_sound,
}

abbrev pub portfolio_keys : TaskPortfolio → List String
portfolio_keys p = keys_of_groups p.groups ++ superseded_keys p.superseded_families

-- The families and revisions of a kind are as many as expected, counted in words.
abbrev pub IsKindMet : List PortfolioGroup → String × KindCount → Type 0
IsKindMet groups (kind, expected) =
    (total (families_in kind) groups % modulus ≡ expected.families)
    × (total (revisions_in kind) groups % modulus ≡ expected.revisions)

-- A portfolio of a release: every key classified once, every family of the release among them, and
-- the counts of the four kinds met.
pub record IsPortfolio (p : TaskPortfolio) (m : TaskFamilyManifest) : Type 0 where
  pub pinned : p.source_task_family_release_id ≡ m.release_id
  pub distinct : Distinct (portfolio_keys p)
  pub complete : All (λ f. contains (portfolio_keys p) f.key ≡ true) m.families
  pub groups : All (IsGroup (current_of [] m.families)) p.groups
  pub withdrawn :
      All (IsWithdrawnFamily (current_of [] m.families)) (superseded_keys p.superseded_families)
  pub kinds : All (IsKindMet p.groups) expected_kinds

current_of-kept :
    (current : Current) (families : List TaskFamilyEntry) (k : String)
    → is_found (lookup k current) ≡ true
    → is_found (lookup k (current_of current families)) ≡ true
unfolding current_of
current_of-kept current [] k h = h
current_of-kept current (f ∷ families) k h =
    let inserted = lookup-insert k f.key f current in
    current_of-kept (insert f.key f current) families k (ground (arith, inserted, h))

current_of-found :
    (current : Current) (families : List TaskFamilyEntry)
    → All (λ f. is_found (lookup f.key (current_of current families)) ≡ true) families
unfolding current_of
current_of-found current [] = tt
current_of-found current (f ∷ families) =
    let inserted = lookup-insert f.key f.key f current in
    let own = (==_iff f.key f.key).1 refl in
    (
      current_of-kept (insert f.key f current) families f.key (ground (arith, inserted, own)),
      current_of-found (insert f.key f current) families,
    )

listed_when_found :
    (keys : List String) (after : Classified) (k : String)
    → Classifies [] keys after
    → is_found (lookup k after) ≡ true
    → contains keys k ≡ true
unfolding lookup
listed_when_found keys after k h found = let listed = h.found k in ground (arith, listed, found)

check_accounted_sound :
    (classified : Classified) (current : Current) (k : String)
    → check_accounted classified current ≡ ok tt
    → is_found (lookup k current) ≡ true
    → is_found (lookup k classified) ≡ true
unfolding check_accounted lookup
check_accounted_sound classified [] k h found = cc
check_accounted_sound classified ((key, family) ∷ current) k h found =
    let (here, later) = guard-eq-ok (is_found (lookup key classified)) _ _ h in
    elim (Bool-cases (key == k)) [
      | inl e ↦ subst (λ x. is_found (lookup x classified) ≡ true) ((==_iff key k).0 e) here
      | inr e ↦ check_accounted_sound classified current k later (rw e at found)
    ]

check_kinds_sound :
    (kinds expected : Dict String KindCount)
    → check_kinds kinds expected ≡ ok tt
    → All (λ e. same_count (count_at (e.0) kinds) (e.1) ≡ true) expected
unfolding check_kinds
check_kinds_sound kinds [] h = tt
check_kinds_sound kinds ((kind, expected) ∷ rest) h =
    let (here, later) = guard-eq-ok (same_count (count_at kind kinds) expected) _ _ h in
    (here, check_kinds_sound kinds rest later)

kind_met :
    (current : Current) (groups : List PortfolioGroup) (u : Tally) (kind : String)
    (expected : KindCount)
    → AreGroups current groups no_tally u
    → expected.families < modulus
    → expected.revisions < modulus
    → same_count (count_at kind u.kinds) expected ≡ true
    → IsKindMet groups (kind, expected)
unfolding lookup
kind_met current groups u kind expected h few_families few_revisions same =
    let families = h.families kind in
    let revisions = h.revisions kind in
    let equal_families : (count_at kind u.kinds).families ≡ expected.families = ground arith in
    let equal_revisions : (count_at kind u.kinds).revisions ≡ expected.revisions = ground arith in
    (
      omega (arith, families, equal_families, few_families),
      omega (arith, revisions, equal_revisions, few_revisions),
    )

kinds_met :
    (current : Current) (groups : List PortfolioGroup) (u : Tally)
    → AreGroups current groups no_tally u
    → check_kinds u.kinds expected_kinds ≡ ok tt
    → All (IsKindMet groups) expected_kinds
kinds_met current groups u h checked =
    let (algorithm, (shared, (native, (postgresql, _)))) =
      check_kinds_sound u.kinds expected_kinds checked in
    (
      kind_met current groups u "algorithm" _ h (omega arith) (omega arith) algorithm,
      (
        kind_met current groups u "shared_backend" _ h (omega arith) (omega arith) shared,
        (
          kind_met current groups u "native" _ h (omega arith) (omega arith) native,
          (kind_met current groups u "postgresql" _ h (omega arith) (omega arith) postgresql, tt),
        ),
      ),
    )

-- When a portfolio is accepted, it is pinned to the families' release; no key is classified twice,
-- among the existing, the planned and the superseded families; every family of the release is
-- classified; the existing ones are released, the planned ones are not in the release, the superseded
-- ones are in it and not released; the target of each group is the number of its keys; and of each of
-- the four kinds the groups have as many families and revisions as expected, in 64 bits.
pub validate_portfolio-IsPortfolio :
    (lower : Char → Char) (p : TaskPortfolio) (m : TaskFamilyManifest)
    → validate_portfolio lower p m ≡ ok tt
    → IsPortfolio p m
unfolding validate_portfolio
validate_portfolio-IsPortfolio lower p m h =
    let current = current_of [] m.families in
    let (_, h₁) = guard-eq-ok (p.contract_version == contract_portfolio) _ _ h in
    let (_, h₂) = refuse-eq-ok (is_blank p.portfolio_id) _ _ h₁ in
    let (pinned, h₃) = guard-eq-ok (p.source_task_family_release_id == m.release_id) _ _ h₂ in
    let (_, h₄) =
      guard-eq-ok (equals p.target.family_count 168 && equals p.target.revision_count 456) _ _ h₃ in
    let (_, _, h₅) = >>=-eq-ok (validate_kind_targets p.target.kinds) _ h₄ in
    let (compatibility, _, h₆) =
      >>=-eq-ok (validate_compatibility_sets lower p.compatibility_sets) _ h₅ in
    let (t, ht, h₇) =
      >>=-eq-ok (check_groups lower (current_of [] m.families) compatibility p.groups no_tally) _
        h₆ in
    let (classified, hc, h₈) =
      >>=-eq-ok (check_superseded (current_of [] m.families) t.classified p.superseded_families) _
        h₇ in
    let (tt, hk, h₉) = >>=-eq-ok (check_kinds t.kinds expected_kinds) _ h₈ in
    let (_, _, h₁₀) = >>=-eq-ok (check_tracks t.tracks native_tracks) _ h₉ in
    let (_, accounted) = guard-eq-ok (length t.tracks == 5) _ _ h₁₀ in
    let g = check_groups_sound lower current compatibility p.groups no_tally t ht in
    let (last, withdrawn) =
      check_superseded_sound current t.classified classified p.superseded_families hc in
    let whole =
      Classifies-append (keys_of_groups p.groups) (superseded_keys p.superseded_families)
        g.classified last in
    record {
      pinned = (==_iff p.source_task_family_release_id m.release_id).0 pinned;
      distinct = whole.distinct;
      complete =
          All-map m.families
            (λ f found.
              listed_when_found (portfolio_keys p) classified f.key whole
                (check_accounted_sound classified current f.key accounted found))
            (current_of-found [] m.families);
      groups = g.all_groups;
      withdrawn = withdrawn;
      kinds = kinds_met current p.groups t g hk;
    }
