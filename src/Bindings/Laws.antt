-- ===== src/Bindings/Laws.antt =====
-- What validateQuestionBinding and validateCapabilityKeys of internal/engine/catalogue.go accept.
use mathlib.Core.List.{append_assoc, append-nil}
use fluent_task_runtime.Base.{
  String, ◌≡◌, refl, sym, ap, ◌∙◌, ◌≢◌, ◌↔◌, ◌⊎◌, true, false, not, ◌&&◌, List, [], ◌∷◌, ◌++◌, map,
  arith, ◌==◌, string_eq, nat_eq, ok, >>=-eq-ok, refuse-eq-ok, is_empty, All, Distinct, contains,
  Fresh, Fresh-nil, Fresh-cons, Fresh-snoc,
}
use fluent_task_runtime.Text.{trim_space}
use fluent_task_runtime.Contracts.{QuestionBinding}
use fluent_task_runtime.Keys.{
  is_question_release_id, is_stable_question_key, is_stable_capability_key, is_revision_id,
  is_content_hash,
}
use fluent_task_runtime.Bindings.{
  validate_question_binding, trim_binding, check_binding, check_capability, check_bindings,
  check_capabilities, validate_capability_keys,
}

-- An immutable content identity.
pub record IsPinned (b : QuestionBinding) : Type 0 where
  pub stable : is_stable_question_key b.stable_key ≡ true
  pub revision : is_revision_id b.revision_id ≡ true
  pub hash : is_content_hash b.content_hash ≡ true

abbrev pub keys_of : List QuestionBinding → List String
keys_of = map (λ b. b.stable_key)

abbrev pub ids_of : List QuestionBinding → List String
ids_of = map (λ b. b.revision_id)

-- Every binding is pinned, and no question and no revision stands there twice.
pub record IsValidBindings (bs : List QuestionBinding) : Type 0 where
  pub pinned : All IsPinned bs
  pub keys_distinct : Distinct (keys_of bs)
  pub ids_distinct : Distinct (ids_of bs)

-- What the loop has checked of the bindings behind those that it has seen.
abbrev Checked : List String → List String → List QuestionBinding → Type 0
Checked keys ids bs = All IsPinned bs × Fresh keys (keys_of bs) × Fresh ids (ids_of bs)

check_binding_sound :
    (keys ids : List String) (b : QuestionBinding) {u : Unit {0}}
    → check_binding keys ids b ≡ ok u
    → IsPinned b × (contains keys b.stable_key ≡ false) × (contains ids b.revision_id ≡ false)
unfolding check_binding
check_binding_sound keys ids b h = ground arith

check_binding_complete :
    (keys ids : List String) (b : QuestionBinding)
    → IsPinned b
    → contains keys b.stable_key ≡ false
    → contains ids b.revision_id ≡ false
    → check_binding keys ids b ≡ ok tt
unfolding check_binding
check_binding_complete keys ids b p new_key new_id = ground arith

check_bindings_sound :
    (keys ids : List String) (bs out : List QuestionBinding)
    → check_bindings keys ids bs ≡ ok out
    → (out ≡ map trim_binding bs) × Checked keys ids (map trim_binding bs)
unfolding check_bindings
check_bindings_sound keys ids [] out h = (cc, (tt, (tt, tt), (tt, tt)))
check_bindings_sound keys ids (b ∷ bs) out h =
    let (_, here, h') = >>=-eq-ok (check_binding keys ids (trim_binding b)) _ h in
    let (rest, later, whole) =
      >>=-eq-ok
        (check_bindings ((trim_binding b).stable_key ∷ keys) ((trim_binding b).revision_id ∷ ids)
          bs)
        _ h' in
    let (pinned, new_key, new_id) = check_binding_sound keys ids (trim_binding b) here in
    let (image, (all_pinned, fresh_keys, fresh_ids)) =
      check_bindings_sound ((trim_binding b).stable_key ∷ keys) ((trim_binding b).revision_id ∷ ids)
        bs rest later in
    (
      cc,
      (
        (pinned, all_pinned),
        (Fresh-cons _ keys _).1 (new_key, fresh_keys),
        (Fresh-cons _ ids _).1 (new_id, fresh_ids),
      ),
    )

check_bindings_complete :
    (keys ids : List String) (bs : List QuestionBinding)
    → Checked keys ids (map trim_binding bs)
    → check_bindings keys ids bs ≡ ok (map trim_binding bs)
unfolding check_bindings
check_bindings_complete keys ids [] h = refl
check_bindings_complete keys ids (b ∷ bs) ((here, pinned), fresh_keys, fresh_ids) =
    let (new_key, later_keys) = (Fresh-cons _ keys _).0 fresh_keys in
    let (new_id, later_ids) = (Fresh-cons _ ids _).0 fresh_ids in
    rw (check_binding_complete keys ids (trim_binding b) here new_key new_id) (
      rw (
        check_bindings_complete ((trim_binding b).stable_key ∷ keys)
          ((trim_binding b).revision_id ∷ ids) bs (pinned, later_keys, later_ids)))

-- The loop returns the bindings trimmed, exactly when those are pinned and distinct.
check_bindings_iff :
    (bs out : List QuestionBinding)
    → (check_bindings [] [] bs ≡ ok out)
      ↔ ((out ≡ map trim_binding bs) × IsValidBindings (map trim_binding bs))
check_bindings_iff bs out = (
  λ h.
      let (image, (pinned, keys, ids)) = check_bindings_sound [] [] bs out h in
      (
        image,
        record {
          pinned = pinned;
          keys_distinct = (Fresh-nil _).0 keys;
          ids_distinct = (Fresh-nil _).0 ids;
        },
      ),
  λ (image, valid).
      check_bindings_complete [] [] bs
        (valid.pinned, (Fresh-nil _).1 valid.keys_distinct, (Fresh-nil _).1 valid.ids_distinct)
      ∙ ap ok (sym image),
)

abbrev pub IsCapabilityKey : String → Type 0
IsCapabilityKey key = is_stable_capability_key key ≡ true

check_capability_iff :
    (result : List String) (key : String)
    → (check_capability result key ≡ ok tt) ↔ (IsCapabilityKey key × (contains result key ≡ false))
unfolding check_capability
check_capability_iff result key = ground arith

check_capabilities_sound :
    (result keys out : List String)
    → check_capabilities result keys ≡ ok out
    → (out ≡ result ++ map trim_space keys)
      × All IsCapabilityKey (map trim_space keys)
      × Fresh result (map trim_space keys)
unfolding check_capabilities
check_capabilities_sound result [] out h =
    let same : result ≡ out = cc in (sym same ∙ sym (append-nil result), tt, (tt, tt))
check_capabilities_sound result (key ∷ keys) out h =
    let (_, here, h') = >>=-eq-ok (check_capability result (trim_space key)) _ h in
    let (valid, new) = (check_capability_iff result (trim_space key)).0 here in
    let (image, all_valid, fresh) =
      check_capabilities_sound (result ++ trim_space key ∷ []) keys out h' in
    (
      image ∙ append_assoc result (trim_space key ∷ []) (map trim_space keys),
      (valid, all_valid),
      (Fresh-cons _ result _).1 (new, (Fresh-snoc _ result _).1 fresh),
    )

check_capabilities_complete :
    (result keys : List String)
    → All IsCapabilityKey (map trim_space keys)
    → Fresh result (map trim_space keys)
    → check_capabilities result keys ≡ ok (result ++ map trim_space keys)
unfolding check_capabilities
check_capabilities_complete result [] _ _ = ap ok (sym (append-nil result))
check_capabilities_complete result (key ∷ keys) (valid, all_valid) fresh =
    let (new, later) = (Fresh-cons _ result _).0 fresh in
    rw ((check_capability_iff result (trim_space key)).1 (valid, new)) (
      check_capabilities_complete (result ++ trim_space key ∷ []) keys all_valid
        ((Fresh-snoc _ result _).0 later)
      ∙ ap ok (append_assoc result (trim_space key ∷ []) (map trim_space keys)))

-- Capability keys that the catalogue accepts: well formed, each once.
pub record IsValidCapabilities (keys : List String) : Type 0 where
  pub formed : All IsCapabilityKey keys
  pub distinct : Distinct keys

-- validateCapabilityKeys returns its keys trimmed, exactly when those are well formed and distinct.
pub validate_capability_keys_iff :
    (keys out : List String)
    → (validate_capability_keys keys ≡ ok out)
      ↔ ((out ≡ map trim_space keys) × IsValidCapabilities (map trim_space keys))
unfolding validate_capability_keys
validate_capability_keys_iff keys out = (
  λ h.
      let (image, formed, fresh) = check_capabilities_sound [] keys out h in
      (image, record { formed = formed; distinct = (Fresh-nil _).0 fresh }),
  λ (image, valid).
      check_capabilities_complete [] keys valid.formed ((Fresh-nil _).1 valid.distinct)
      ∙ ap ok (sym image),
)

-- What a released task declares: its pinned release, and a question or a capability.
abbrev pub IsReleasable : String → String → List QuestionBinding → List String → Type 0
IsReleasable status release_id bindings capabilities =
    (status ≢ "released")
    ⊎ ((is_question_release_id release_id ≡ true) × ((bindings ≢ []) ⊎ (capabilities ≢ [])))

-- What a task may declare, under its status and its question release.
pub record IsAcceptable (bindings : List QuestionBinding) (capabilities : List String)
    (release_id status : String) : Type 0 where
  pub valid_bindings : IsValidBindings bindings
  pub valid_capabilities : IsValidCapabilities capabilities
  pub releasable : IsReleasable status release_id bindings capabilities

IsReleasable-iff :
    (status release_id : String) (bindings : List QuestionBinding) (capabilities : List String)
    → IsReleasable status release_id bindings capabilities ↔ (
        ((status == "released" && not (is_question_release_id release_id)) ≡ false)
        × ((status == "released" && is_empty bindings && is_empty capabilities) ≡ false))
IsReleasable-iff status release_id bindings capabilities = (λ h. ground arith, λ h. ground arith)

-- validateQuestionBinding succeeds exactly when the trimmed bindings and keys are acceptable, and
-- it returns those.
pub validate_question_binding_iff :
    (bindings out : List QuestionBinding) (keys keys_out : List String) (release_id status : String)
    → (validate_question_binding bindings keys release_id status ≡ ok (out, keys_out)) ↔ (
        (out ≡ map trim_binding bindings)
        × (keys_out ≡ map trim_space keys)
        × IsAcceptable out keys_out release_id status)
unfolding validate_question_binding
validate_question_binding_iff bindings out keys keys_out release_id status = (to, from)
  where
    to :
        validate_question_binding bindings keys release_id status ≡ ok (out, keys_out)
        → (out ≡ map trim_binding bindings)
          × (keys_out ≡ map trim_space keys)
          × IsAcceptable out keys_out release_id status
    to h =
        let (pinned, h₁) =
          refuse-eq-ok (status == "released" && not (is_question_release_id release_id)) _ _ h in
        let (bs, hb, h₂) = >>=-eq-ok (check_bindings [] [] bindings) _ h₁ in
        let (cs, hc, h₃) = >>=-eq-ok (validate_capability_keys keys) _ h₂ in
        let (declared, h₄) =
          refuse-eq-ok (status == "released" && is_empty bs && is_empty cs) _ _ h₃ in
        let same_bs : bs ≡ out = cc in
        let same_cs : cs ≡ keys_out = cc in
        let (image, valid) = (check_bindings_iff bindings out).0 (hb ∙ ap ok same_bs) in
        let (key_image, key_valid) =
          (validate_capability_keys_iff keys keys_out).0 (hc ∙ ap ok same_cs) in
        let releasable : IsReleasable status release_id out keys_out =
          (IsReleasable-iff status release_id out keys_out).1
            (pinned, rw (same_bs, same_cs) at declared) in
        (
          image,
          key_image,
          record {
            valid_bindings = rw (← image) at valid;
            valid_capabilities = rw (← key_image) at key_valid;
            releasable = releasable;
          },
        )

    from :
        (out ≡ map trim_binding bindings)
          × (keys_out ≡ map trim_space keys)
          × IsAcceptable out keys_out release_id status
        → validate_question_binding bindings keys release_id status ≡ ok (out, keys_out)
    from (image, key_image, a) =
        let (pinned, declared) = (IsReleasable-iff status release_id out keys_out).0 a.releasable in
        let hb : check_bindings [] [] bindings ≡ ok out =
          (check_bindings_iff bindings out).1 (image, rw image at a.valid_bindings) in
        let hc : validate_capability_keys keys ≡ ok keys_out =
          (validate_capability_keys_iff keys keys_out).1
            (key_image, rw key_image at a.valid_capabilities) in
        rw (pinned, hb, hc) (rw declared)
