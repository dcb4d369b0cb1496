-- ===== src/Release/Laws.antt =====
-- What loadReleaseManifest of internal/engine/catalogue.go guarantees.
use fluent_task_runtime.Base.{
  String, ◌≡◌, refl, ap, ◌∙◌, subst, ◌≢◌, ◌⊎◌, inl, inr, true, false, ◌&&◌, ◌||◌, none, some, List,
  [], ◌∷◌, map, arith, ◌==◌, string_eq, nat_eq, Bool-cases, ok, is_found, wrap, >>=-eq-ok,
  guard-eq-ok, refuse-eq-ok, wrap-eq-ok, is_empty, All, All-map, Distinct, contains,
}
use fluent_task_runtime.Base.Dict.{Dict, lookup, insert, lookup-insert, All-insert}
use fluent_task_runtime.Text.{trim_space, is_blank}
use fluent_task_runtime.Keys.{is_question_release_id}
use fluent_task_runtime.Bindings.{validate_capability_keys}
use fluent_task_runtime.Bindings.Laws.{IsValidCapabilities, validate_capability_keys_iff}
use fluent_task_runtime.Documents.{Document, unreadable, malformed, decoded}
use fluent_task_runtime.Release.{
  TaskRevisionKey, TaskReleaseEntry, TaskReleaseManifest, key_of, key_eq, contract_v1, contract_v2,
  contract_v3, invalid_snapshot, check_entry, record_entries, check_v3, check_v3_pins, pin_snapshot,
  workspace_of, is_supported, validate_release_manifest, decode_manifest, load_release_manifest,
}
use fluent_task_runtime.Release.Entries.{IsReleaseEntry, check_entry_sound}

-- The key of a task in the document.
abbrev pub task_key : TaskReleaseEntry → TaskRevisionKey
task_key raw = record { id = trim_space raw.task_id; revision = raw.revision }

abbrev pub IsEntryOf : TaskReleaseManifest → TaskRevisionKey × TaskReleaseEntry → Type 0
IsEntryOf m (k, e) = (key_of e ≡ k) × IsReleaseEntry m e

record_entries_sound :
    (m : TaskReleaseManifest) (entries out : Dict TaskRevisionKey TaskReleaseEntry)
    (tasks : List TaskReleaseEntry)
    → record_entries m entries tasks ≡ ok out
    → All (IsEntryOf m) entries
    → All (IsEntryOf m) out
unfolding record_entries
record_entries_sound m entries out [] h s = subst (λ d. All (IsEntryOf m) d) (cc) s
record_entries_sound m entries out (raw ∷ tasks) h s =
    let (e, here, later) = >>=-eq-ok (check_entry m entries raw) _ h in
    record_entries_sound m (insert (key_of e) e entries) out tasks later (
      All-insert (IsEntryOf m) (key_of e) e entries s
        (refl, (check_entry_sound m entries raw e here).0))

entry_key :
    (m : TaskReleaseManifest) (entries : Dict TaskRevisionKey TaskReleaseEntry)
    (raw e : TaskReleaseEntry)
    → check_entry m entries raw ≡ ok e
    → (key_of e ≡ task_key raw) × (lookup (task_key raw) entries ≡ none)
entry_key m entries raw e h =
    let (_, same_id, same_revision, new) = check_entry_sound m entries raw e h in
    let same : key_of e ≡ task_key raw =
      λ i. record { id = same_id i; revision = same_revision i } in
    (same, subst (λ k. lookup k entries ≡ none) same new)

-- The map holds what it held, and the tasks of the document.
record_entries_listed :
    (m : TaskReleaseManifest) (entries out : Dict TaskRevisionKey TaskReleaseEntry)
    (tasks : List TaskReleaseEntry) (k : TaskRevisionKey)
    → record_entries m entries tasks ≡ ok out
    → is_found (lookup k out) ≡ (is_found (lookup k entries) || contains (map task_key tasks) k)
unfolding record_entries contains
record_entries_listed m entries out [] k h =
    let same : entries ≡ out = cc in rw (← same) (ground arith)
record_entries_listed m entries out (raw ∷ tasks) k h =
    let (e, here, later) = >>=-eq-ok (check_entry m entries raw) _ h in
    let (same, _) = entry_key m entries raw e here in
    ground (
      arith,
      lookup-insert k (key_of e) e entries,
      record_entries_listed m (insert (key_of e) e entries) out tasks k later,
    )

-- The keys of the document's tasks are new and distinct.
record_entries-Distinct :
    (m : TaskReleaseManifest) (entries out : Dict TaskRevisionKey TaskReleaseEntry)
    (tasks : List TaskReleaseEntry)
    → record_entries m entries tasks ≡ ok out
    → All (λ k. lookup k entries ≡ none) (map task_key tasks) × Distinct (map task_key tasks)
unfolding record_entries
record_entries-Distinct m entries out [] h = (tt, tt)
record_entries-Distinct m entries out (raw ∷ tasks) h =
    let (e, here, later) = >>=-eq-ok (check_entry m entries raw) _ h in
    let (same, new) = entry_key m entries raw e here in
    let (unseen, distinct) =
      record_entries-Distinct m (insert (key_of e) e entries) out tasks later in
    let step : (k : TaskRevisionKey)
        → lookup k (insert (key_of e) e entries) ≡ none
        → (lookup k entries ≡ none) × (task_key raw ≢ k) =
      λ k absent. ground (arith, lookup-insert k (key_of e) e entries) in
    (
      (new, All-map _ (λ k absent. (step k absent).0) unseen),
      (All-map _ (λ k absent. (step k absent).1) unseen, distinct),
    )

-- What the checks of a manifest's own fields establish, under the workspace that is configured.
pub record HasReleasePins (workspace : String) (m : TaskReleaseManifest) : Type 0 where
  pub workspace_matches : trim_space m.workspace_key ≡ workspace
  pub brain_contract : m.question_brain_contract_version ≡ "question-brain.release.v1"
  pub source_snapshot : is_blank m.question_source_snapshot_id ≡ false
  pub binding_release : is_blank m.capability_binding_release_id ≡ false
  pub registry_release : is_blank m.capability_registry_release_id ≡ false
  pub family_release : is_blank m.task_family_release_id ≡ false
  pub valid_snapshot : IsValidCapabilities m.capability_keys
  pub some_snapshot : m.capability_keys ≢ []

check_v3_pins_sound :
    (workspace : String) (m : TaskReleaseManifest) (keys : List String) {u : Unit {0}}
    → check_v3_pins workspace m ≡ ok u
    → IsValidCapabilities keys
    → keys ≢ []
    → HasReleasePins workspace (record m { capability_keys = keys })
unfolding check_v3_pins
check_v3_pins_sound workspace m keys h valid some_keys = record {
  workspace_matches = ground arith;
  brain_contract = ground arith;
  source_snapshot = ground arith;
  binding_release = ground arith;
  registry_release = ground arith;
  family_release = ground arith;
  valid_snapshot = valid;
  some_snapshot = some_keys;
}

pin_snapshot_sound :
    (workspace : String) (m p : TaskReleaseManifest)
    → pin_snapshot workspace m ≡ ok p
    → (p ≡ record m { capability_keys = p.capability_keys }) × HasReleasePins workspace p
unfolding pin_snapshot
pin_snapshot_sound workspace m p h =
    let (_, hp, h₁) = >>=-eq-ok (check_v3_pins workspace m) _ h in
    let (v, hv, h₂) =
      >>=-eq-ok (wrap invalid_snapshot (validate_capability_keys m.capability_keys)) _ h₁ in
    let (nonempty, h₃) = refuse-eq-ok (is_empty v) _ _ h₂ in
    let (image, valid) =
      (validate_capability_keys_iff m.capability_keys v).0 (wrap-eq-ok invalid_snapshot _ hv) in
    let same : record m { capability_keys = v } ≡ p = cc in
    let some_keys : v ≢ [] = λ q. ground arith in
    subst (λ q. (q ≡ record m { capability_keys = q.capability_keys }) × HasReleasePins workspace q)
      same (refl, check_v3_pins_sound workspace m v hp (rw (← image) at valid) some_keys)

check_v3_sound :
    (configured : String) (m p : TaskReleaseManifest)
    → check_v3 configured m ≡ ok p
    → (p ≡ record m { capability_keys = p.capability_keys })
      × ((p.contract_version ≢ contract_v3) ⊎ HasReleasePins (workspace_of configured) p)
unfolding check_v3
check_v3_sound configured m p h = elim (Bool-cases (m.contract_version == contract_v3)) [
  | inl v3 ↦
      let (shape, pins) = pin_snapshot_sound (workspace_of configured) m p (rw v3 at h) in
      (shape, inr pins)
  | inr other ↦ (ground arith, inl (λ q. ground arith))
]

-- A manifest that the loader has accepted.
pub record IsRelease (workspace : String) (m : TaskReleaseManifest) : Type 0 where
  pub supported :
      (m.contract_version ≡ contract_v1)
      ⊎ (m.contract_version ≡ contract_v2)
      ⊎ (m.contract_version ≡ contract_v3)
  pub named : is_blank m.release_id ≡ false
  pub question_release : is_question_release_id m.question_release_id ≡ true
  pub family_release :
      (m.contract_version ≡ contract_v1) ⊎ (is_blank m.task_family_release_id ≡ false)
  pub pins : (m.contract_version ≢ contract_v3) ⊎ HasReleasePins workspace m
  pub distinct : Distinct (map task_key m.tasks)
  pub listed :
      (k : TaskRevisionKey) → is_found (lookup k m.entries) ≡ contains (map task_key m.tasks) k
  pub sound : All (IsEntryOf m) m.entries

-- The fields that the loader sets late do not bear on an entry.
IsReleaseEntry-entries :
    (m : TaskReleaseManifest) (d entries : Dict TaskRevisionKey TaskReleaseEntry)
    → All (IsEntryOf m) entries
    → All (IsEntryOf (record m { entries = d })) entries
IsReleaseEntry-entries m d [] h = tt
IsReleaseEntry-entries m d ((k, e) ∷ entries) ((same, r), h) = (
  (
    same,
    record {
      named = r.named;
      trimmed = r.trimmed;
      positive = r.positive;
      pinned = r.pinned;
      in_family = r.in_family;
      within = r.within;
      acceptable = r.acceptable;
    },
  ),
  IsReleaseEntry-entries m d entries h,
)

-- The parts of a load, put together.
IsRelease-of_parts :
    (workspace : String) (raw p : TaskReleaseManifest)
    (entries : Dict TaskRevisionKey TaskReleaseEntry)
    → is_supported raw.contract_version ≡ true
    → is_blank raw.release_id ≡ false
    → is_question_release_id raw.question_release_id ≡ true
    → (raw.contract_version == contract_v2 && is_blank raw.task_family_release_id) ≡ false
    → p ≡ record raw { capability_keys = p.capability_keys }
    → (p.contract_version ≢ contract_v3) ⊎ HasReleasePins workspace p
    → record_entries p [] p.tasks ≡ ok entries
    → IsRelease workspace (record p { entries = entries })
IsRelease-of_parts workspace raw p entries supported named question family shape pins he =
    let same_version : p.contract_version ≡ raw.contract_version =
      ap (λ x. x.contract_version) shape in
    let same_id : p.release_id ≡ raw.release_id = ap (λ x. x.release_id) shape in
    let same_question : p.question_release_id ≡ raw.question_release_id =
      ap (λ x. x.question_release_id) shape in
    let same_family : p.task_family_release_id ≡ raw.task_family_release_id =
      ap (λ x. x.task_family_release_id) shape in
    record {
      supported = ground arith;
      named = ap is_blank same_id ∙ named;
      question_release = ap is_question_release_id same_question ∙ question;
      family_release =
          family_release_of_pins p (rw same_version supported)
            (rw (same_version, same_family) family) pins;
      pins = pins_entries pins;
      distinct = (record_entries-Distinct p [] entries p.tasks he).1;
      listed = λ k. record_entries_listed p [] entries p.tasks k he ∙ unfold lookup in refl;
      sound =
          IsReleaseEntry-entries p entries entries
            (record_entries_sound p [] entries p.tasks he tt);
    }
  where
    family_release_of_pins :
        (p : TaskReleaseManifest)
        → is_supported p.contract_version ≡ true
        → (p.contract_version == contract_v2 && is_blank p.task_family_release_id) ≡ false
        → (p.contract_version ≢ contract_v3) ⊎ HasReleasePins workspace p
        → (p.contract_version ≡ contract_v1) ⊎ (is_blank p.task_family_release_id ≡ false)
    family_release_of_pins p s f (inl n) = ground arith
    family_release_of_pins p s f (inr pins) = inr pins.family_release

    pins_entries :
        (p.contract_version ≢ contract_v3) ⊎ HasReleasePins workspace p
        → (p.contract_version ≢ contract_v3)
          ⊎ HasReleasePins workspace (record p { entries = entries })
    pins_entries (inl n) = inl n
    pins_entries (inr h) = inr (record {
      workspace_matches = h.workspace_matches;
      brain_contract = h.brain_contract;
      source_snapshot = h.source_snapshot;
      binding_release = h.binding_release;
      registry_release = h.registry_release;
      family_release = h.family_release;
      valid_snapshot = h.valid_snapshot;
      some_snapshot = h.some_snapshot;
    })

validate_release_manifest_sound :
    (configured : String) (raw m : TaskReleaseManifest)
    → validate_release_manifest configured raw ≡ ok m
    → IsRelease (workspace_of configured) m
unfolding validate_release_manifest
validate_release_manifest_sound configured raw m h =
    let (supported, h₁) = guard-eq-ok (is_supported raw.contract_version) _ _ h in
    let (named, h₂) = refuse-eq-ok (is_blank raw.release_id) _ _ h₁ in
    let (question, h₃) = guard-eq-ok (is_question_release_id raw.question_release_id) _ _ h₂ in
    let (family, h₄) =
      refuse-eq-ok (raw.contract_version == contract_v2 && is_blank raw.task_family_release_id) _ _
        h₃ in
    let (p, hp, h₅) = >>=-eq-ok (check_v3 configured raw) _ h₄ in
    let (entries, he, h₆) = >>=-eq-ok (record_entries p [] p.tasks) _ h₅ in
    let (shape, pins) = check_v3_sound configured raw p hp in
    let same : record p { entries = entries } ≡ m = cc in
    subst (λ x. IsRelease (workspace_of configured) x) same
      (IsRelease-of_parts (workspace_of configured) raw p entries supported named question family
        shape pins he)

decode_manifest_sound :
    (configured : String) (document : Document TaskReleaseManifest) (m : TaskReleaseManifest)
    → decode_manifest configured document ≡ ok (some m)
    → IsRelease (workspace_of configured) m
unfolding decode_manifest
decode_manifest_sound configured unreadable m h = cc
decode_manifest_sound configured malformed m h = cc
decode_manifest_sound configured (decoded raw) m h =
    let (loaded, hl, h₁) = >>=-eq-ok (validate_release_manifest configured raw) _ h in
    let same : loaded ≡ m = cc in validate_release_manifest_sound configured raw m (hl ∙ ap ok same)

-- Whatever the document holds, a manifest that is loaded is sound: its contract is one of three, its
-- pins are there, each task of it has one entry, there is no other, and every entry is well formed
-- under the manifest.
pub load_release_manifest-IsRelease :
    (path configured : String) (document : String → Document TaskReleaseManifest)
    (m : TaskReleaseManifest)
    → load_release_manifest path configured document ≡ ok (some m)
    → IsRelease (workspace_of configured) m
unfolding load_release_manifest
load_release_manifest-IsRelease path configured document m h =
    elim (Bool-cases (trim_space path == "")) [
      | inl blank ↦ absurd (ground arith)
      | inr given ↦ decode_manifest_sound configured (document (trim_space path)) m (rw given at h)
    ]
