-- ===== src/Release/Entries.antt =====
-- What the loop over `manifest.Tasks` establishes of an entry that it writes into the map.
use fluent_task_runtime.Base.{
  String, ◌≡◌, refl, sym, ap, ◌∙◌, subst, ◌≢◌, ◌⊎◌, inl, inr, true, false, ◌&&◌, none, List, [],
  ◌∷◌, map, arith, ◌==◌, string_eq, nat_eq, Bool-cases, ok, wrap, >>=-eq-ok, guard-eq-ok,
  refuse-eq-ok, wrap-eq-ok, is_empty, All, contains,
}
use fluent_task_runtime.Base.Dict.{Dict, lookup}
use fluent_task_runtime.Text.{trim_space}
use fluent_task_runtime.Text.Laws.{trim_space_idem}
use fluent_task_runtime.Numbers.{pos, ◌≤ℤ◌, lt_int, one_le_of_lt_int}
use fluent_task_runtime.Regex.{match_string}
use fluent_task_runtime.Keys.{task_family_key_pattern}
use fluent_task_runtime.Bindings.{trim_binding, validate_capability_keys, validate_question_binding}
use fluent_task_runtime.Bindings.Laws.{IsAcceptable, validate_question_binding_iff}
use fluent_task_runtime.Release.{
  TaskRevisionKey, TaskReleaseEntry, TaskReleaseManifest, key_of, key_eq, contract_v2, contract_v3,
  invalid_entry, check_snapshot, pin_entry, pin_capabilities, check_pins, check_entry,
}

-- A capability entry of a v3 manifest lies within the manifest's snapshot, and the entry declares
-- something.
abbrev pub IsWithinSnapshot : TaskReleaseManifest → TaskReleaseEntry → Type 0
IsWithinSnapshot m e =
    All (λ k. contains m.capability_keys k ≡ true) e.capability_keys
    × ((e.question_bindings ≢ []) ⊎ (e.capability_keys ≢ []))

pub record IsReleaseEntry (m : TaskReleaseManifest) (e : TaskReleaseEntry) : Type 0 where
  pub named : e.task_id ≢ ""
  pub trimmed : trim_space e.task_id ≡ e.task_id
  pub positive : pos 1 ≤ℤ e.revision
  pub pinned : (e.question_release_id ≡ "") ⊎ (e.question_release_id ≡ m.question_release_id)
  pub in_family :
      ((m.contract_version ≢ contract_v2) × (m.contract_version ≢ contract_v3))
      ⊎ (match_string task_family_key_pattern (trim_space e.task_family_key) ≡ true)
  pub within : (m.contract_version ≢ contract_v3) ⊎ IsWithinSnapshot m e
  pub acceptable :
      IsAcceptable
        (map trim_binding e.question_bindings)
        (map trim_space e.capability_keys)
        m.question_release_id
        "released"

check_snapshot_sound :
    (key : TaskRevisionKey) (snapshot capabilities : List String) {u : Unit {0}}
    → check_snapshot key snapshot capabilities ≡ ok u
    → All (λ k. contains snapshot k ≡ true) capabilities
unfolding check_snapshot
check_snapshot_sound key snapshot [] h = tt
check_snapshot_sound key snapshot (c ∷ cs) h =
    let (here, later) = guard-eq-ok (contains snapshot c) _ _ h in
    (here, check_snapshot_sound key snapshot cs later)

-- Pinning changes the capability keys alone, and they lie within the snapshot.
pin_entry_sound :
    (m : TaskReleaseManifest) (e p : TaskReleaseEntry)
    → pin_entry m e ≡ ok p
    → (p ≡ record e { capability_keys = p.capability_keys }) × IsWithinSnapshot m p
unfolding pin_entry
pin_entry_sound m e p h =
    let (v, hv, h₁) =
      >>=-eq-ok (wrap (invalid_entry (key_of e)) (validate_capability_keys e.capability_keys)) _
        h in
    let (_, hs, h₂) = >>=-eq-ok (check_snapshot (key_of e) m.capability_keys v) _ h₁ in
    let (declared, h₃) = refuse-eq-ok (is_empty e.question_bindings && is_empty v) _ _ h₂ in
    let same : record e { capability_keys = v } ≡ p = cc in
    let within = check_snapshot_sound (key_of e) m.capability_keys v hs in
    subst (λ q. (q ≡ record e { capability_keys = q.capability_keys }) × IsWithinSnapshot m q) same
      (refl, (within, ground arith))

pin_capabilities_sound :
    (m : TaskReleaseManifest) (e p : TaskReleaseEntry)
    → pin_capabilities m e ≡ ok p
    → (p ≡ record e { capability_keys = p.capability_keys })
      × ((m.contract_version ≢ contract_v3) ⊎ IsWithinSnapshot m p)
unfolding pin_capabilities
pin_capabilities_sound m e p h = elim (Bool-cases (m.contract_version == contract_v3)) [
  | inl v3 ↦ let (shape, within) = pin_entry_sound m e p (rw v3 at h) in (shape, inr within)
  | inr other ↦ (ground arith, inl (λ q. ground arith))
]

-- What the first checks of a round establish.
record HasPins (m : TaskReleaseManifest) (entries : Dict TaskRevisionKey TaskReleaseEntry)
    (e : TaskReleaseEntry) : Type 0 where
  named : e.task_id ≢ ""
  positive : lt_int e.revision (pos 1) ≡ false
  new : lookup (key_of e) entries ≡ none
  pinned : (e.question_release_id ≡ "") ⊎ (e.question_release_id ≡ m.question_release_id)
  in_family :
      ((m.contract_version ≢ contract_v2) × (m.contract_version ≢ contract_v3))
      ⊎ (match_string task_family_key_pattern (trim_space e.task_family_key) ≡ true)

check_pins_sound :
    (m : TaskReleaseManifest) (entries : Dict TaskRevisionKey TaskReleaseEntry)
    (e : TaskReleaseEntry) {u : Unit {0}}
    → check_pins m entries e ≡ ok u
    → HasPins m entries e
unfolding check_pins
check_pins_sound m entries e h = record {
  named = ground arith;
  positive = ground arith;
  new = ground arith;
  pinned = ground arith;
  in_family = ground arith;
}

-- The parts of a round, put together.
entry_of_parts :
    (m : TaskReleaseManifest) (entries : Dict TaskRevisionKey TaskReleaseEntry)
    (t p : TaskReleaseEntry)
    → HasPins m entries t
    → trim_space t.task_id ≡ t.task_id
    → p ≡ record t { capability_keys = p.capability_keys }
    → (m.contract_version ≢ contract_v3) ⊎ IsWithinSnapshot m p
    → IsAcceptable
        (map trim_binding p.question_bindings)
        (map trim_space p.capability_keys)
        m.question_release_id
        "released"
    → IsReleaseEntry m p
      × (p.task_id ≡ t.task_id)
      × (p.revision ≡ t.revision)
      × (lookup (key_of p) entries ≡ none)
entry_of_parts m entries t p pins trimmed shape within acceptable =
    let same_id : p.task_id ≡ t.task_id = ap (λ x. x.task_id) shape in
    let same_revision : p.revision ≡ t.revision = ap (λ x. x.revision) shape in
    let same_release : p.question_release_id ≡ t.question_release_id =
      ap (λ x. x.question_release_id) shape in
    let same_family : p.task_family_key ≡ t.task_family_key = ap (λ x. x.task_family_key) shape in
    (
      record {
        named = λ q. pins.named (sym same_id ∙ q);
        trimmed = ap trim_space same_id ∙ trimmed ∙ sym same_id;
        positive =
            subst (λ n. pos 1 ≤ℤ n) (sym same_revision) (one_le_of_lt_int t.revision pins.positive);
        pinned = subst (λ r. (r ≡ "") ⊎ (r ≡ m.question_release_id)) (sym same_release) pins.pinned;
        in_family =
            subst
              (λ k.
                ((m.contract_version ≢ contract_v2) × (m.contract_version ≢ contract_v3))
                ⊎ (match_string task_family_key_pattern (trim_space k) ≡ true))
              (sym same_family) pins.in_family;
        within = within;
        acceptable = acceptable;
      },
      same_id,
      same_revision,
      ap (λ k. lookup k entries) (ap key_of shape) ∙ pins.new,
    )

-- An entry that a round returns is sound under the manifest, has the trimmed identity of the
-- document's entry, and is new.
pub check_entry_sound :
    (m : TaskReleaseManifest) (entries : Dict TaskRevisionKey TaskReleaseEntry)
    (raw e : TaskReleaseEntry)
    → check_entry m entries raw ≡ ok e
    → IsReleaseEntry m e
      × (e.task_id ≡ trim_space raw.task_id)
      × (e.revision ≡ raw.revision)
      × (lookup (key_of e) entries ≡ none)
unfolding check_entry
check_entry_sound m entries raw e h =
    let trimmed : TaskReleaseEntry = record raw { task_id = trim_space raw.task_id } in
    let (_, hp, h₁) = >>=-eq-ok (check_pins m entries trimmed) _ h in
    let pins = check_pins_sound m entries trimmed hp in
    let (p, hc, h₂) = >>=-eq-ok (pin_capabilities m trimmed) _ h₁ in
    let ((out, keys_out), hv, h₃) =
      >>=-eq-ok
        (wrap (invalid_entry (key_of trimmed)) (
          validate_question_binding p.question_bindings p.capability_keys m.question_release_id
            "released"))
        _ h₂ in
    let (shape, within) = pin_capabilities_sound m trimmed p hc in
    let (image, key_image, acceptable) =
      (validate_question_binding_iff p.question_bindings out p.capability_keys keys_out
          m.question_release_id "released").0
        (wrap-eq-ok (invalid_entry (key_of trimmed)) _ hv) in
    let whole : IsReleaseEntry m p
        × (p.task_id ≡ trim_space raw.task_id)
        × (p.revision ≡ raw.revision)
        × (lookup (key_of p) entries ≡ none) =
      entry_of_parts m entries trimmed p pins (trim_space_idem raw.task_id) shape within (
        subst
          (λ bs.
            IsAcceptable bs (map trim_space p.capability_keys) m.question_release_id "released")
          image
          (subst (λ ks. IsAcceptable out ks m.question_release_id "released") key_image
            acceptable)) in
    let same : p ≡ e = cc in
    subst
      (λ q.
        IsReleaseEntry m q
        × (q.task_id ≡ trim_space raw.task_id)
        × (q.revision ≡ raw.revision)
        × (lookup (key_of q) entries ≡ none))
      same whole
