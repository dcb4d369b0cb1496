-- ===== src/Portfolio/Classifying.antt =====
-- What the loops of validateTaskPortfolioManifest of internal/engine/portfolio.go have classified.
use fluent_task_runtime.Base.{
  contains-append, ℕ, zero, suc, ◌+◌, Char, String, ◌<>◌, ◌≡◌, refl, subst, ◌≢◌, inl, inr, true,
  false, ◌||◌, some, List, [], ◌∷◌, ◌++◌, map, arith, ◌==◌, string_eq, nat_eq, ok, expect, is_found,
  wrap, >>=-eq-ok, guard-eq-ok, refuse-eq-ok, expect-eq-ok, Option-cases, All, All-append, All-map,
  Distinct, contains, contains-eq-false_iff,
}
use fluent_task_runtime.Base.Dict.{lookup, insert, lookup-insert}
use fluent_task_runtime.Text.{is_blank}
use fluent_task_runtime.Regex.{match_string}
use fluent_task_runtime.Keys.{task_family_key_pattern}
use fluent_task_runtime.Families.{TaskFamilyEntry}
use fluent_task_runtime.Portfolio.{
  RevisionCompatibility, ExistingFamily, SupersededFamily, Classified, classify, planned_key,
  in_group, validate_existing_family,
}
use fluent_task_runtime.Portfolio.Validation.{
  Current, check_existing, check_planned, check_superseded,
}

-- Some step has classified those keys, each for the first time, and no other.
pub record Classifies (before : Classified) (keys : List String) (after : Classified) : Type 0 where
  pub new : All (λ k. is_found (lookup k before) ≡ false) keys
  pub distinct : Distinct keys
  pub found :
      (k : String) → is_found (lookup k after) ≡ (contains keys k || is_found (lookup k before))

pub Classifies-nil : (c : Classified) → Classifies c [] c
unfolding contains
Classifies-nil c = record { new = tt; distinct = tt; found = λ k. refl }

Distinct-append :
    (xs ys : List String)
    → Distinct xs
    → Distinct ys
    → All (λ y. contains xs y ≡ false) ys
    → Distinct (xs ++ ys)
Distinct-append [] ys hx hy h = hy
Distinct-append (x ∷ xs) ys (differ, hx) hy h =
    let apart : All (λ y. x ≢ y) ys =
      All-map ys (λ y e. ((contains-eq-false_iff y (x ∷ xs)).0 e).0) h in
    let later : All (λ y. contains xs y ≡ false) ys =
      All-map ys (λ y e. (contains-eq-false_iff y xs).1 ((contains-eq-false_iff y (x ∷ xs)).0 e).1)
        h in
    (All-append (λ y. x ≢ y) xs ys differ apart, Distinct-append xs ys hx hy later)

pub Classifies-append :
    {a b c : Classified} (xs ys : List String)
    → Classifies a xs b
    → Classifies b ys c
    → Classifies a (xs ++ ys) c
Classifies-append {a} {b} {c} xs ys h k = record {
  new =
      All-append (λ x. is_found (lookup x a) ≡ false) xs ys h.new
        (All-map ys (λ y e. let found = h.found y in ground (arith, found, e)) k.new);
  distinct =
      Distinct-append xs ys h.distinct k.distinct
        (All-map ys (λ y e. let found = h.found y in ground (arith, found, e)) k.new);
  found = λ z.
      let first = h.found z in
      let second = k.found z in
      let both = contains-append xs ys z in ground (arith, first, second, both);
}

-- One classification.
pub classify_sound :
    (before after : Classified) (key disposition : String)
    → classify before key disposition ≡ ok after
    → Classifies before (key ∷ []) after × (match_string task_family_key_pattern key ≡ true)
unfolding classify contains
classify_sound before after key disposition h =
    let (valid, h₁) = guard-eq-ok (match_string task_family_key_pattern key) _ _ h in
    elim (Option-cases (lookup key before)) [
      | inr (d, e) ↦ absurd (ground (arith, h₁, e))
      | inl e ↦
          let same : insert key disposition before ≡ after = ground (arith, h₁, e) in
          (
            record {
              new = (rw e refl, tt);
              distinct = (tt, tt);
              found = λ k.
                  let inserted = lookup-insert k key disposition before in
                  subst
                    (λ m.
                      is_found (lookup k m) ≡ ((key == k || false) || is_found (lookup k before)))
                    same (ground (arith, inserted));
            },
            valid,
          )
    ]

pub record IsReleasedFamily (current : Current) (key : String) : Type 0 where
  pub family : TaskFamilyEntry
  pub found : lookup key current ≡ some family
  pub released : (family.status == "released") ≡ true

pub record IsWithdrawnFamily (current : Current) (key : String) : Type 0 where
  pub family : TaskFamilyEntry
  pub found : lookup key current ≡ some family
  pub withdrawn : (family.status == "released") ≡ false

-- A key that the pinned release does not have.
abbrev pub IsNewFamily : Current → String → Type 0
IsNewFamily current key =
    (is_found (lookup key current) ≡ false) × (match_string task_family_key_pattern key ≡ true)

abbrev pub existing_keys : List ExistingFamily → List String
existing_keys existing = map (λ e. e.family_key) existing

unfoldable pub planned_keys : String → ℕ → ℕ → ℕ → List String
planned_keys prefix start offset zero = []
planned_keys prefix start offset (suc left) =
    planned_key prefix start offset ∷ planned_keys prefix start (offset + 1) left

abbrev pub superseded_keys : List SupersededFamily → List String
superseded_keys superseded = map (λ s. s.family_key) superseded

pub check_existing_sound :
    (lower : Char → Char) (current : Current) (set : List RevisionCompatibility) (group : String)
    (before after : Classified) (existing : List ExistingFamily)
    → check_existing lower current set group before existing ≡ ok after
    → Classifies before (existing_keys existing) after
      × All (IsReleasedFamily current) (existing_keys existing)
unfolding check_existing
check_existing_sound lower current set group before after [] h =
    let same : before ≡ after = cc in
    (subst (λ c. Classifies before [] c) same (Classifies-nil before), tt)
check_existing_sound lower current set group before after (e ∷ existing) h =
    let (_, h₁) = guard-eq-ok (e.disposition == "existing") _ _ h in
    let (family, hf, h₂) = >>=-eq-ok (expect (lookup e.family_key current) _) _ h₁ in
    let (released, h₃) = guard-eq-ok (family.status == "released") _ _ h₂ in
    let (next, hn, h₄) = >>=-eq-ok (classify before e.family_key ("existing:" <> group)) _ h₃ in
    let (_, _, h₅) =
      >>=-eq-ok (wrap (in_group group) (validate_existing_family lower family set)) _ h₄ in
    let (here, _) = classify_sound before next e.family_key ("existing:" <> group) hn in
    let (later, all_released) =
      check_existing_sound lower current set group next after existing h₅ in
    (
      Classifies-append (e.family_key ∷ []) (existing_keys existing) here later,
      (
        record {
          family = family;
          found = expect-eq-ok (lookup e.family_key current) _ hf;
          released = released;
        },
        all_released,
      ),
    )

pub check_planned_sound :
    (current : Current) (group prefix : String) (start offset left : ℕ) (before after : Classified)
    → check_planned current group prefix start offset left before ≡ ok after
    → Classifies before (planned_keys prefix start offset left) after
      × All (IsNewFamily current) (planned_keys prefix start offset left)
unfolding check_planned planned_keys
check_planned_sound current group prefix start offset zero before after h =
    let same : before ≡ after = cc in
    (subst (λ c. Classifies before [] c) same (Classifies-nil before), tt)
check_planned_sound current group prefix start offset (suc left) before after h =
    let key = planned_key prefix start offset in
    let (valid, h₁) =
      guard-eq-ok (match_string task_family_key_pattern (planned_key prefix start offset)) _ _ h in
    let (absent, h₂) =
      refuse-eq-ok (is_found (lookup (planned_key prefix start offset) current)) _ _ h₁ in
    let (next, hn, h₃) =
      >>=-eq-ok (classify before (planned_key prefix start offset) ("new:" <> group)) _ h₂ in
    let (here, _) =
      classify_sound before next (planned_key prefix start offset) ("new:" <> group) hn in
    let (later, all_new) =
      check_planned_sound current group prefix start (offset + 1) left next after h₃ in
    (
      Classifies-append (planned_key prefix start offset ∷ [])
          (planned_keys prefix start (offset + 1) left) here later,
      ((absent, valid), all_new),
    )

pub check_superseded_sound :
    (current : Current) (before after : Classified) (superseded : List SupersededFamily)
    → check_superseded current before superseded ≡ ok after
    → Classifies before (superseded_keys superseded) after
      × All (IsWithdrawnFamily current) (superseded_keys superseded)
unfolding check_superseded
check_superseded_sound current before after [] h =
    let same : before ≡ after = cc in
    (subst (λ c. Classifies before [] c) same (Classifies-nil before), tt)
check_superseded_sound current before after (s ∷ superseded) h =
    let (_, h₁) = guard-eq-ok (s.disposition == "superseded") _ _ h in
    let (family, hf, h₂) = >>=-eq-ok (expect (lookup s.family_key current) _) _ h₁ in
    let (withdrawn, h₃) = refuse-eq-ok (family.status == "released") _ _ h₂ in
    let (_, h₄) = refuse-eq-ok (is_blank s.replacement_owner || is_blank s.reason) _ _ h₃ in
    let (next, hn, h₅) = >>=-eq-ok (classify before s.family_key "superseded") _ h₄ in
    let (here, _) = classify_sound before next s.family_key "superseded" hn in
    let (later, all_withdrawn) = check_superseded_sound current next after superseded h₅ in
    (
      Classifies-append (s.family_key ∷ []) (superseded_keys superseded) here later,
      (
        record {
          family = family;
          found = expect-eq-ok (lookup s.family_key current) _ hf;
          withdrawn = withdrawn;
        },
        all_withdrawn,
      ),
    )
