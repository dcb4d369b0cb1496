-- ===== src/Portfolio/Counting.antt =====
-- What validateTaskPortfolioManifest of internal/engine/portfolio.go has checked of each group, and
-- the counts that it keeps over the groups.
use fluent_task_runtime.Base.{
  ℕ, zero, suc, ◌+◌, ◌*◌, ◌%◌, Char, String, ◌≡◌, refl, sym, ap, ap₂, ◌∙◌, subst, inl, inr, true,
  List, [], ◌∷◌, ◌++◌, map, arith, if◌then◌else◌, ◌==◌, ==_iff, string_eq, nat_eq, Bool-cases, ok,
  expect, is_found, >>=-eq-ok, guard-eq-ok, refuse-eq-ok, length, length-append, All, contains,
}
use fluent_task_runtime.Base.Dict.{Dict, lookup, insert, lookup-insert}
use fluent_task_runtime.Text.{is_blank}
use fluent_task_runtime.Numbers.{pos, int_eq}
use fluent_task_runtime.Portfolio.{
  PortfolioGroup, KindCount, expected_kinds, Compatibility, validate_group_compatibility,
}
use fluent_task_runtime.Portfolio.Validation.{
  Current, size_of, check_existing, check_planned, Tally, check_group_counts, count_at, modulus,
  add_group, add_track, check_group, check_groups,
}
use fluent_task_runtime.Portfolio.Classifying.{
  Classifies, Classifies-nil, Classifies-append, IsReleasedFamily, IsNewFamily, existing_keys,
  planned_keys, check_existing_sound, check_planned_sound,
}

-- The planned keys of a group, and all its keys.
abbrev pub series_keys : PortfolioGroup → List String
series_keys g =
    planned_keys g.planned_series.prefix (size_of g.planned_series.start) 0
      (size_of g.planned_series.count)

abbrev pub group_keys : PortfolioGroup → List String
group_keys g = existing_keys g.existing_families ++ series_keys g

unfoldable pub keys_of_groups : List PortfolioGroup → List String
keys_of_groups [] = []
keys_of_groups (g ∷ groups) = group_keys g ++ keys_of_groups groups

-- A group whose existing families are released, whose planned ones are new, and whose target is the
-- number of both.
pub record IsGroup (current : Current) (g : PortfolioGroup) : Type 0 where
  pub existing : All (IsReleasedFamily current) (existing_keys g.existing_families)
  pub planned : All (IsNewFamily current) (series_keys g)
  pub sized : g.target_family_count ≡ pos (length (group_keys g))
  pub known : is_found (lookup g.kind expected_kinds) ≡ true

length-planned_keys :
    (prefix : String) (start offset n : ℕ) → length (planned_keys prefix start offset n) ≡ n
unfolding planned_keys
length-planned_keys prefix start offset zero = refl
length-planned_keys prefix start offset (suc n) =
    ap (λ k. suc k) (length-planned_keys prefix start (offset + 1) n)

length-map_keys : {A : Type 0} (f : A → String) (xs : List A) → length (map f xs) ≡ length xs
length-map_keys f [] = refl
length-map_keys f (x ∷ xs) = ap (λ k. suc k) (length-map_keys f xs)

length-group_keys :
    (g : PortfolioGroup)
    → length (group_keys g) ≡ length g.existing_families + size_of g.planned_series.count
length-group_keys g =
    let existing = length-map_keys (λ e. e.family_key) g.existing_families in
    let planned =
      length-planned_keys g.planned_series.prefix (size_of g.planned_series.start) 0
        (size_of g.planned_series.count) in
    length-append (existing_keys g.existing_families) (series_keys g)
    ∙ ap₂ (λ m n. m + n) existing planned

check_group_counts-sized :
    (g : PortfolioGroup) (size : ℕ)
    → check_group_counts g size ≡ ok tt
    → g.target_family_count ≡ pos (length (group_keys g))
unfolding check_group_counts
check_group_counts-sized g size h =
    let same : g.target_family_count
        ≡ pos (length g.existing_families + size_of g.planned_series.count) =
      ground arith in
    same ∙ ap pos (sym (length-group_keys g))

-- A group's part of the counts of a kind.
abbrev pub families_in : String → PortfolioGroup → ℕ
families_in kind g = if g.kind == kind then size_of g.target_family_count else 0

abbrev pub revisions_in : String → PortfolioGroup → ℕ
revisions_in kind g =
    if g.kind == kind
    then size_of g.target_family_count * size_of g.target_revisions_per_family
    else 0

unfoldable pub total : (PortfolioGroup → ℕ) → List PortfolioGroup → ℕ
total f [] = 0
total f (g ∷ groups) = f g + total f groups

-- What is counted beside what was, modulo the size of a word.
abbrev pub IsCountOf : (PortfolioGroup → ℕ) → List PortfolioGroup → ℕ → ℕ → Type 0
IsCountOf f groups before after = after % modulus ≡ (before + total f groups) % modulus

-- One group's step.
pub record IsGroupStep (current : Current) (g : PortfolioGroup) (t u : Tally) : Type 0 where
  pub group : IsGroup current g
  pub classified : Classifies t.classified (group_keys g) u.classified
  pub families :
      (kind : String)
      → IsCountOf
          (families_in kind)
          (g ∷ [])
          ((count_at kind t.kinds).families)
          ((count_at kind u.kinds).families)
  pub revisions :
      (kind : String)
      → IsCountOf
          (revisions_in kind)
          (g ∷ [])
          ((count_at kind t.kinds).revisions)
          ((count_at kind u.kinds).revisions)

count_at-insert :
    (kind k : String) (c : KindCount) (kinds : Dict String KindCount)
    → count_at kind (insert k c kinds) ≡ (if k == kind then c else count_at kind kinds)
count_at-insert kind k c kinds =
    let inserted = lookup-insert kind k c kinds in ground (arith, inserted)

-- A count that goes up at the group's kind.
counted :
    (kind : String) (g : PortfolioGroup) (kinds : Dict String KindCount) (new : KindCount)
    (field : KindCount → ℕ) (amount : ℕ)
    → field new ≡ (field (count_at g.kind kinds) + amount) % modulus
    → field (count_at kind (insert g.kind new kinds)) % modulus
      ≡ (field (count_at kind kinds) + ((if g.kind == kind then amount else 0) + 0)) % modulus
counted kind g kinds new field amount h = elim (Bool-cases (g.kind == kind)) [
  | inl e ↦
      let inserted = count_at-insert kind g.kind new kinds in
      let here : count_at kind (insert g.kind new kinds) ≡ new = rw e at inserted in
      let same : field (count_at g.kind kinds) ≡ field (count_at kind kinds) =
        ap (λ k. field (count_at k kinds)) ((==_iff g.kind kind).0 e) in
      rw (here, e) (omega (arith, h, same))
  | inr e ↦
      let inserted = count_at-insert kind g.kind new kinds in
      let kept : count_at kind (insert g.kind new kinds) ≡ count_at kind kinds = rw e at inserted in
      rw (kept, e) (omega arith)
]

pub check_group_sound :
    (lower : Char → Char) (current : Current) (compatibility : Compatibility) (g : PortfolioGroup)
    (t u : Tally)
    → check_group lower current compatibility g t ≡ ok u
    → IsGroupStep current g t u
unfolding check_group total
check_group_sound lower current compatibility g t u h =
    let (_, h₁) = refuse-eq-ok (is_blank g.id) _ _ h in
    let (_, h₂) = refuse-eq-ok (contains t.seen_groups g.id) _ _ h₁ in
    let (known, h₃) = guard-eq-ok (is_found (lookup g.kind expected_kinds)) _ _ h₂ in
    let (set, _, h₄) = >>=-eq-ok (expect (lookup g.compatibility_set compatibility) _) _ h₃ in
    let (_, _, h₅) = >>=-eq-ok (validate_group_compatibility g) _ h₄ in
    let (tt, sized, h₆) = >>=-eq-ok (check_group_counts g (length set)) _ h₅ in
    let (existing, he, h₇) =
      >>=-eq-ok (check_existing lower current set g.id t.classified g.existing_families) _ h₆ in
    let (planned, hp, h₈) =
      >>=-eq-ok
        (check_planned current g.id g.planned_series.prefix (size_of g.planned_series.start) 0
          (size_of g.planned_series.count) existing)
        _ h₇ in
    let (first, released) =
      check_existing_sound lower current set g.id t.classified existing g.existing_families he in
    let (second, new) =
      check_planned_sound current g.id g.planned_series.prefix (size_of g.planned_series.start) 0
        (size_of g.planned_series.count) existing planned hp in
    let count =
      add_group (count_at g.kind t.kinds) (size_of g.target_family_count)
        (size_of g.target_revisions_per_family) in
    let out : Tally = record {
      classified = planned;
      seen_groups = g.id ∷ t.seen_groups;
      kinds = insert g.kind count t.kinds;
      tracks = add_track g t.tracks;
    } in
    let same : out ≡ u = cc in
    subst (λ x. IsGroupStep current g t x) same
      (record {
        group = record {
          existing = released;
          planned = new;
          sized = check_group_counts-sized g (length set) sized;
          known = known;
        };
        classified =
            Classifies-append (existing_keys g.existing_families) (series_keys g) first second;
        families = λ kind.
            counted kind g t.kinds count (λ c. c.families) (size_of g.target_family_count) refl;
        revisions = λ kind.
            counted kind g t.kinds count (λ c. c.revisions)
              (size_of g.target_family_count * size_of g.target_revisions_per_family) refl;
      })

-- All groups' steps.
pub record AreGroups (current : Current) (groups : List PortfolioGroup) (t u : Tally) : Type 0 where
  pub all_groups : All (IsGroup current) groups
  pub classified : Classifies t.classified (keys_of_groups groups) u.classified
  pub families :
      (kind : String)
      → IsCountOf
          (families_in kind)
          groups
          ((count_at kind t.kinds).families)
          ((count_at kind u.kinds).families)
  pub revisions :
      (kind : String)
      → IsCountOf
          (revisions_in kind)
          groups
          ((count_at kind t.kinds).revisions)
          ((count_at kind u.kinds).revisions)

pub check_groups_sound :
    (lower : Char → Char) (current : Current) (compatibility : Compatibility)
    (groups : List PortfolioGroup) (t u : Tally)
    → check_groups lower current compatibility groups t ≡ ok u
    → AreGroups current groups t u
unfolding check_groups total keys_of_groups
check_groups_sound lower current compatibility [] t u h =
    let same : t ≡ u = cc in
    subst (λ x. AreGroups current [] t x) same
      (record {
        all_groups = tt;
        classified = Classifies-nil t.classified;
        families = λ kind. omega arith;
        revisions = λ kind. omega arith;
      })
check_groups_sound lower current compatibility (g ∷ groups) t u h =
    let (next, hn, h₁) = >>=-eq-ok (check_group lower current compatibility g t) _ h in
    let here = check_group_sound lower current compatibility g t next hn in
    let later = check_groups_sound lower current compatibility groups next u h₁ in
    record {
      all_groups = (here.group, later.all_groups);
      classified =
          Classifies-append (group_keys g) (keys_of_groups groups) here.classified later.classified;
      families = λ kind.
          let first = here.families kind in
          let rest = later.families kind in omega (arith, first, rest);
      revisions = λ kind.
          let first = here.revisions kind in
          let rest = later.revisions kind in omega (arith, first, rest);
    }
