-- ===== src/Contracts/QuestionCapabilityTask/Laws.antt =====
-- What QuestionCapabilityTaskContract.Validate of contracts/question_capability_task.go accepts.
use fluent_task_runtime.Base.{
  Option, none, some, ℕ, ◌+◌, String, ◌≡◌, refl, ◌≢◌, ◌↔◌, true, false, not, ◌||◌, List, [], ◌∷◌,
  arith, ◌==◌, string_eq, nat_eq, Result, ok, >>=-eq-ok, guard-eq-ok, refuse-eq-ok, is_empty, All,
  contains,
}
use fluent_task_runtime.Text.{is_blank}
use fluent_task_runtime.Numbers.{pos, lt_int, Float64, is_below_zero, above_one}
use fluent_task_runtime.Regex.{match_string}
use fluent_task_runtime.Keys.{task_family_key_pattern, content_hash_pattern}
use fluent_task_runtime.Contracts.{QuestionBinding, TaskFamily}
use fluent_task_runtime.Contracts.QuestionCapabilityTask.{
  Capability, CapabilityDomainBinding, QuestionCapabilityBinding, TaskRevision,
  ContractQuestionCard, QuestionCapabilityTask, contract_question_pattern, contract_domain_pattern,
  valid_capability_key, valid_question_binding, check_each, check_card, check_registered,
  check_domain_binding, is_outside, check_question_binding, check_known_capabilities,
  check_valid_bindings, check_contract_family, check_contract_revision, question_keys,
  capability_keys_of, family_keys, validate_contract,
}

check_each_iff :
    {E A : Type 0} (check : ℕ → A → Result E (Unit {0})) (P : A → Type 0)
    → ((i : ℕ) (a : A) → (check i a ≡ ok tt) ↔ P a)
    → (i : ℕ) (xs : List A) → (check_each check i xs ≡ ok tt) ↔ All P xs
unfolding check_each
check_each_iff check P each i [] = (λ h. tt, λ h. refl)
check_each_iff check P each i (x ∷ xs) =
    let rest = check_each_iff check P each (i + 1) xs in
    (
      λ h. let (tt, here, later) = >>=-eq-ok (check i x) _ h in ((each i x).0 here, rest.0 later),
      λ (here, later). rw ((each i x).1 here) (rest.1 later),
    )

abbrev IsCard : ContractQuestionCard → Type 0
IsCard q =
    (match_string contract_question_pattern q.stable_key ≡ true)
    × (q.revision_id ≢ "")
    × (match_string content_hash_pattern q.content_hash ≡ true)

check_card_iff : (i : ℕ) (q : ContractQuestionCard) → (check_card i q ≡ ok tt) ↔ IsCard q
unfolding check_card
check_card_iff i q = (λ h. (ground arith, ground arith, ground arith), λ h. ground arith)

abbrev IsRegistered : Capability → Type 0
IsRegistered k = (valid_capability_key k.key ≡ true) × (k.title.en ≢ "") × (k.title.ru ≢ "")

check_registered_iff : (i : ℕ) (k : Capability) → (check_registered i k ≡ ok tt) ↔ IsRegistered k
unfolding check_registered
check_registered_iff i k = (λ h. (ground arith, ground arith, ground arith), λ h. ground arith)

abbrev IsDomainBound : List String → CapabilityDomainBinding → Type 0
IsDomainBound capabilities b =
    (contains capabilities b.capability_key ≡ true)
    × (match_string contract_domain_pattern b.domain_key ≡ true)

check_domain_binding_iff :
    (capabilities : List String) (i : ℕ) (b : CapabilityDomainBinding)
    → (check_domain_binding capabilities i b ≡ ok tt) ↔ IsDomainBound capabilities b
unfolding check_domain_binding
check_domain_binding_iff capabilities i b = (λ h. (ground arith, ground arith), λ h. ground arith)

-- A confidence, if there is one, is neither below zero nor above one.
abbrev IsConfidence : Option Float64 → Type 0
IsConfidence none = Unit
IsConfidence (some c) = (is_below_zero c ≡ false) × (above_one c ≡ false)

is_outside_iff : (o : Option Float64) → (is_outside o ≡ false) ↔ IsConfidence o
unfolding is_outside
is_outside_iff none = (λ h. tt, λ h. refl)
is_outside_iff (some c) = (λ h. (ground arith, ground arith), λ (low, high). rw (low, high) refl)

abbrev IsQuestionBound : List String → List String → QuestionCapabilityBinding → Type 0
IsQuestionBound questions capabilities b =
    (contains questions b.question.stable_key ≡ true)
    × (valid_question_binding b.question ≡ true)
    × (contains capabilities b.capability_key ≡ true)
    × (is_blank b.provenance ≡ false)
    × IsConfidence b.confidence

check_question_binding_iff :
    (questions capabilities : List String) (i : ℕ) (b : QuestionCapabilityBinding)
    → (check_question_binding questions capabilities i b ≡ ok tt)
      ↔ IsQuestionBound questions capabilities b
unfolding check_question_binding
check_question_binding_iff questions capabilities i b =
    let confidence = is_outside_iff b.confidence in
    (
      λ h. (ground arith, ground arith, ground arith, ground arith, confidence.0 (ground arith)),
      λ (known, valid, capable, provided, within).
          let inside = confidence.1 within in
          ground (arith, known, valid, capable, provided, inside),
    )

abbrev IsFamily : List String → TaskFamily → Type 0
IsFamily capabilities f =
    (match_string task_family_key_pattern f.key ≡ true)
    × (is_empty f.capability_keys ≡ false)
    × (is_empty f.revision_ids ≡ false)
    × (f.title.en ≢ "")
    × (f.title.ru ≢ "")
    × All (λ k. contains capabilities k ≡ true) f.capability_keys
    × All (λ b. valid_question_binding b ≡ true) f.question_bindings

check_known_capabilities_iff :
    (capabilities : List String) (i : ℕ) (keys : List String)
    → (check_known_capabilities capabilities i keys ≡ ok tt)
      ↔ All (λ k. contains capabilities k ≡ true) keys
unfolding check_known_capabilities
check_known_capabilities_iff capabilities i [] = (λ h. tt, λ h. refl)
check_known_capabilities_iff capabilities i (k ∷ keys) =
    let rest = check_known_capabilities_iff capabilities i keys in
    (
      λ h. let (here, later) = guard-eq-ok (contains capabilities k) _ _ h in (here, rest.0 later),
      λ (here, later). rw here (rest.1 later),
    )

check_valid_bindings_iff :
    (i : ℕ) (bindings : List QuestionBinding)
    → (check_valid_bindings i bindings ≡ ok tt)
      ↔ All (λ b. valid_question_binding b ≡ true) bindings
unfolding check_valid_bindings
check_valid_bindings_iff i [] = (λ h. tt, λ h. refl)
check_valid_bindings_iff i (b ∷ bindings) =
    let rest = check_valid_bindings_iff i bindings in
    (
      λ h. let (here, later) = guard-eq-ok (valid_question_binding b) _ _ h in (here, rest.0 later),
      λ (here, later). rw here (rest.1 later),
    )

check_contract_family_iff :
    (capabilities : List String) (i : ℕ) (f : TaskFamily)
    → (check_contract_family capabilities i f ≡ ok tt) ↔ IsFamily capabilities f
unfolding check_contract_family
check_contract_family_iff capabilities i f =
    let keys = check_known_capabilities_iff capabilities i f.capability_keys in
    let bindings = check_valid_bindings_iff i f.question_bindings in
    (
      λ h.
          let (valid, h₁) =
            refuse-eq-ok
              (not (match_string task_family_key_pattern f.key)
                || is_empty f.capability_keys
                || is_empty f.revision_ids)
              _ _ h in
          let (titled, h₂) = refuse-eq-ok (f.title.en == "" || f.title.ru == "") _ _ h₁ in
          let (tt, known, bound) =
            >>=-eq-ok (check_known_capabilities capabilities i f.capability_keys) _ h₂ in
          (
            ground (arith, valid),
            ground (arith, valid),
            ground (arith, valid),
            ground (arith, titled),
            ground (arith, titled),
            keys.0 known,
            bindings.0 bound,
          ),
      λ (key, some_capability, some_revision, en, ru, known, bound).
          let valid : (not (match_string task_family_key_pattern f.key)
                || is_empty f.capability_keys
                || is_empty f.revision_ids)
              ≡ false =
            ground (arith, key, some_capability, some_revision) in
          let titled : (f.title.en == "" || f.title.ru == "") ≡ false = ground (arith, en, ru) in
          rw (valid, titled, keys.1 known) (bindings.1 bound),
    )

abbrev IsCompleteRevision : List String → TaskRevision → Type 0
IsCompleteRevision families r =
    (lt_int r.revision (pos 1) ≡ false)
    × (r.language ≢ "")
    × (r.profile ≢ "")
    × (contains families r.task_family_key ≡ true)
    × (match_string content_hash_pattern r.immutable_hash ≡ true)

check_contract_revision_iff :
    (families : List String) (i : ℕ) (r : TaskRevision)
    → (check_contract_revision families i r ≡ ok tt) ↔ IsCompleteRevision families r
unfolding check_contract_revision
check_contract_revision_iff families i r =
    (λ h. (ground arith, ground arith, ground arith, ground arith, ground arith), λ h. ground arith)

-- A contract whose references all lead to something in it.
pub record IsContract (c : QuestionCapabilityTask) : Type 0 where
  pub version : (c.contract_version == "question-capability-task.v1") ≡ true
  pub cards : All IsCard c.question_cards
  pub capabilities : All IsRegistered c.capabilities
  pub domains : All (IsDomainBound (capability_keys_of c)) c.capability_domain_bindings
  pub questions :
      All (IsQuestionBound (question_keys c) (capability_keys_of c)) c.question_capability_bindings
  pub families : All (IsFamily (capability_keys_of c)) c.task_families
  pub revisions : All (IsCompleteRevision (family_keys c)) c.task_revisions

-- Validate accepts a contract exactly when it has the version that is known; its cards and
-- capabilities have valid identities; each binding of a capability to a domain or a question is of a
-- capability, and a question, of the contract, with a provenance and a confidence from 0 to 1; each
-- family has titles, revisions and capabilities of the contract and valid bindings; and each revision
-- is positive, complete and of a family of the contract.
pub validate_contract_iff :
    (c : QuestionCapabilityTask) → (validate_contract c ≡ ok tt) ↔ IsContract c
unfolding validate_contract
validate_contract_iff c =
    let cards = check_each_iff check_card IsCard check_card_iff 0 c.question_cards in
    let registered =
      check_each_iff check_registered IsRegistered check_registered_iff 0 c.capabilities in
    let domains =
      check_each_iff (check_domain_binding (capability_keys_of c))
        (IsDomainBound (capability_keys_of c)) (check_domain_binding_iff (capability_keys_of c)) 0
        c.capability_domain_bindings in
    let questions =
      check_each_iff (check_question_binding (question_keys c) (capability_keys_of c))
        (IsQuestionBound (question_keys c) (capability_keys_of c))
        (check_question_binding_iff (question_keys c) (capability_keys_of c)) 0
        c.question_capability_bindings in
    let families =
      check_each_iff (check_contract_family (capability_keys_of c))
        (IsFamily (capability_keys_of c)) (check_contract_family_iff (capability_keys_of c)) 0
        c.task_families in
    let revisions =
      check_each_iff (check_contract_revision (family_keys c)) (IsCompleteRevision (family_keys c))
        (check_contract_revision_iff (family_keys c)) 0 c.task_revisions in
    (
      λ h.
          let (version, h₁) =
            guard-eq-ok (c.contract_version == "question-capability-task.v1") _ _ h in
          let (tt, a, h₂) = >>=-eq-ok (check_each check_card 0 c.question_cards) _ h₁ in
          let (tt, b, h₃) = >>=-eq-ok (check_each check_registered 0 c.capabilities) _ h₂ in
          let (tt, d, h₄) =
            >>=-eq-ok
              (check_each (check_domain_binding (capability_keys_of c)) 0
                c.capability_domain_bindings)
              _ h₃ in
          let (tt, q, h₅) =
            >>=-eq-ok
              (check_each (check_question_binding (question_keys c) (capability_keys_of c)) 0
                c.question_capability_bindings)
              _ h₄ in
          let (tt, f, r) =
            >>=-eq-ok (check_each (check_contract_family (capability_keys_of c)) 0 c.task_families)
              _ h₅ in
          record {
            version = version;
            cards = cards.0 a;
            capabilities = registered.0 b;
            domains = domains.0 d;
            questions = questions.0 q;
            families = families.0 f;
            revisions = revisions.0 r;
          },
      λ h.
          rw
            (
              h.version,
              cards.1 h.cards,
              registered.1 h.capabilities,
              domains.1 h.domains,
              questions.1 h.questions,
              families.1 h.families,
            )
            (revisions.1 h.revisions),
    )
