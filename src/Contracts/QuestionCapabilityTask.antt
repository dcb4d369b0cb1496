-- ===== src/Contracts/QuestionCapabilityTask.antt =====
-- contracts/question_capability_task.go: the contract that joins questions, capabilities and tasks, and
-- its Validate. A pattern that is not anchored in front begins with what a search skips. An error has
-- the index of what it is about.
pub mod Laws
use fluent_task_runtime.Base.{
  ℕ, zero, suc, ◌+◌, ◌-◌, ◌*◌, ◌/◌, ◌%◌, ◌≤◌, ◌<◌, Char, code, String, ◌<>◌, ◌≡◌, refl, sym, ap,
  ap₂, ◌∙◌, subst, ◌≢◌, ◌↔◌, ◌⊎◌, inl, inr, Bool, true, false, not, ◌&&◌, ◌||◌, Option, none, some,
  List, [], ◌∷◌, ◌++◌, map, arith, if◌then◌else◌, ltb, leb, Eq, ◌==◌, ==_iff, string_eq, nat_eq,
  Bool-cases, and-eq-true, ne_of_test, Result, ok, ok_unique, err, ◌>>=◌, ◌>>◌, guard, refuse,
  expect, is_found, wrap, >>=-eq-ok, guard-eq-ok, refuse-eq-ok, wrap-eq-ok, expect-eq-ok,
  Option-cases, Result-cases, Refused, Refused-bind, Refused-guard, Refused-refuse, Refused-expect,
  Refused-wrap, Refused-err, length, is_empty, all, length-append, All, All-append, All-mem,
  All-map, All-zip, Distinct, contains, contains-mem, mem_of_contains, Memᴰ, Perm, perm_of_Distinct,
  Distinct-of_map, contains-eq-false_iff, Fresh, Fresh-nil, Fresh-cons, Fresh-snoc,
}
use fluent_task_runtime.Text.{is_blank}
use fluent_task_runtime.Numbers.{ℤ, pos, lt_int, Float64, is_below_zero, above_one}
use fluent_task_runtime.Regex.{Regex, chars, seq, star, any, one, times, literal, match_string}
use fluent_task_runtime.Keys.{
  hex, alnum, slug, slug_char, dash, task_family_key_pattern, content_hash_pattern,
}
use fluent_task_runtime.Contracts.{LocalizedContractText, QuestionBinding, TaskFamily}

pub record Capability : Type 0 where
  pub key : String
  pub title : LocalizedContractText
  pub lifecycle : String
  pub aliases : List String
  pub supersedes : List String

pub record CapabilityDomainBinding : Type 0 where
  pub capability_key : String
  pub domain_key : String
  pub role : String

pub record QuestionCapabilityBinding : Type 0 where
  pub question : QuestionBinding
  pub capability_key : String
  pub role : String
  pub provenance : String
  pub confidence : Option Float64

pub record TaskRevision : Type 0 where
  pub task_id : String
  pub revision : ℤ
  pub task_family_key : String
  pub language : String
  pub profile : String
  pub status : String
  pub immutable_hash : String

pub record ContractQuestionCard : Type 0 where
  pub stable_key : String
  pub revision_id : String
  pub content_hash : String
  pub locales : List String
  pub status : String

-- QuestionCapabilityTaskContract, but for the relations, runs and evidence, which Validate ignores.
pub record QuestionCapabilityTask : Type 0 where
  pub contract_version : String
  pub question_cards : List ContractQuestionCard
  pub capabilities : List Capability
  pub capability_domain_bindings : List CapabilityDomainBinding
  pub question_capability_bindings : List QuestionCapabilityBinding
  pub task_families : List TaskFamily
  pub task_revisions : List TaskRevision

pub data ContractError : Type 0 where
  unsupported_contract : String → ContractError
  invalid_card invalid_capability unknown_domain_binding unknown_question unknown_capability
        invalid_confidence invalid_family untitled_family invalid_family_binding
        incomplete_revision :
      ℕ → ContractError
  unknown_family_capability : ℕ → String → ContractError

-- ^capability\\.[a-z0-9-]+\\.[a-z0-9][a-z0-9-]*$
unfoldable pub contract_capability_pattern : Regex
unfolding literal
contract_capability_pattern =
    seq (literal "capability.") (seq slug_char (seq (star slug_char) (seq (one b'.') slug)))

-- ^question\\.[a-z0-9][a-z0-9._-]*$
unfoldable pub contract_question_pattern : Regex
unfolding literal
contract_question_pattern = seq (literal "question.") (
    seq alnum (
      star (chars ((b'a', b'z') ∷ (b'0', b'9') ∷ (b'.', b'.') ∷ (b'_', b'_') ∷ (b'-', b'-') ∷ []))))

-- ^domain\\.[a-z0-9][a-z0-9-]*$
unfoldable pub contract_domain_pattern : Regex
unfolding literal
contract_domain_pattern = seq (literal "domain.") slug

abbrev decimal_digit : Regex
decimal_digit = chars ((b'0', b'9') ∷ [])

-- -\\d{3,}$
unfoldable pub numbered_pattern : Regex
unfolding times
numbered_pattern = seq (star any) (seq dash (seq (times 3 decimal_digit) (star decimal_digit)))

unfoldable pub valid_capability_key : String → Bool
valid_capability_key value =
    match_string contract_capability_pattern value && not (match_string numbered_pattern value)

unfoldable pub valid_question_binding : QuestionBinding → Bool
valid_question_binding b =
    match_string contract_question_pattern b.stable_key
    && not (b.revision_id == "")
    && match_string content_hash_pattern b.content_hash

-- A loop with the index of its element.
unfoldable pub check_each {ℓ κ} :
    {E : Type ℓ} {A : Type κ} → (ℕ → A → Result E (Unit {0})) → ℕ → List A → Result E (Unit {0})
check_each check index [] = ok tt
check_each check index (a ∷ rest) = do check index a; check_each check (index + 1) rest

unfoldable pub check_card : ℕ → ContractQuestionCard → Result ContractError (Unit {0})
check_card i card =
    refuse
      (not (match_string contract_question_pattern card.stable_key)
        || card.revision_id == ""
        || not (match_string content_hash_pattern card.content_hash))
      (invalid_card i)

unfoldable pub check_registered : ℕ → Capability → Result ContractError (Unit {0})
check_registered i c =
    refuse (not (valid_capability_key c.key) || c.title.en == "" || c.title.ru == "")
      (invalid_capability i)

unfoldable pub check_domain_binding :
    List String → ℕ → CapabilityDomainBinding → Result ContractError (Unit {0})
check_domain_binding capabilities i b =
    refuse
      (not (contains capabilities b.capability_key)
        || not (match_string contract_domain_pattern b.domain_key))
      (unknown_domain_binding i)

-- `binding.Confidence != nil && (*binding.Confidence < 0 || *binding.Confidence > 1)`
unfoldable pub is_outside : Option Float64 → Bool
is_outside none = false
is_outside (some c) = is_below_zero c || above_one c

unfoldable pub check_question_binding :
    List String → List String → ℕ → QuestionCapabilityBinding → Result ContractError (Unit {0})
check_question_binding questions capabilities i b = do
  refuse (not (contains questions b.question.stable_key) || not (valid_question_binding b.question))
      (unknown_question i)
  refuse (not (contains capabilities b.capability_key) || is_blank b.provenance)
      (unknown_capability i)
  refuse (is_outside b.confidence) (invalid_confidence i)

unfoldable pub check_known_capabilities :
    List String → ℕ → List String → Result ContractError (Unit {0})
check_known_capabilities capabilities i [] = ok tt
check_known_capabilities capabilities i (key ∷ keys) = do
  guard (contains capabilities key) (unknown_family_capability i key)
  check_known_capabilities capabilities i keys

unfoldable pub check_valid_bindings : ℕ → List QuestionBinding → Result ContractError (Unit {0})
check_valid_bindings i [] = ok tt
check_valid_bindings i (b ∷ bindings) = do
  guard (valid_question_binding b) (invalid_family_binding i)
  check_valid_bindings i bindings

unfoldable pub check_contract_family :
    List String → ℕ → TaskFamily → Result ContractError (Unit {0})
check_contract_family capabilities i f = do
  refuse
      (not (match_string task_family_key_pattern f.key)
        || is_empty f.capability_keys
        || is_empty f.revision_ids)
      (invalid_family i)
  refuse (f.title.en == "" || f.title.ru == "") (untitled_family i)
  check_known_capabilities capabilities i f.capability_keys
  check_valid_bindings i f.question_bindings

unfoldable pub check_contract_revision :
    List String → ℕ → TaskRevision → Result ContractError (Unit {0})
check_contract_revision families i r =
    refuse
      (lt_int r.revision (pos 1)
        || r.language == ""
        || r.profile == ""
        || not (contains families r.task_family_key)
        || not (match_string content_hash_pattern r.immutable_hash))
      (incomplete_revision i)

abbrev pub question_keys : QuestionCapabilityTask → List String
question_keys c = map (λ q. q.stable_key) c.question_cards

abbrev pub capability_keys_of : QuestionCapabilityTask → List String
capability_keys_of c = map (λ k. k.key) c.capabilities

abbrev pub family_keys : QuestionCapabilityTask → List String
family_keys c = map (λ f. f.key) c.task_families

-- Validate
unfoldable pub validate_contract : QuestionCapabilityTask → Result ContractError (Unit {0})
validate_contract c = do
  guard (c.contract_version == "question-capability-task.v1")
      (unsupported_contract c.contract_version)
  check_each check_card 0 c.question_cards
  check_each check_registered 0 c.capabilities
  check_each (check_domain_binding (capability_keys_of c)) 0 c.capability_domain_bindings
  check_each (check_question_binding (question_keys c) (capability_keys_of c)) 0
      c.question_capability_bindings
  check_each (check_contract_family (capability_keys_of c)) 0 c.task_families
  check_each (check_contract_revision (family_keys c)) 0 c.task_revisions
