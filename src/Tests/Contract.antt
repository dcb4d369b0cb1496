-- ===== src/Tests/Contract.antt =====
-- A contract of one question, one capability, one family and one revision.
use fluent_task_runtime.Base.{◌≡◌, refl, ◌↔◌, true, false, [], ◌∷◌, string_eq, nat_eq, ok}
use fluent_task_runtime.Numbers.{pos}
use fluent_task_runtime.Contracts.{TaskFamily}
use fluent_task_runtime.Contracts.QuestionCapabilityTask.{
  QuestionCapabilityTask, contract_capability_pattern, numbered_pattern, valid_capability_key,
  validate_contract,
}
use fluent_task_runtime.Contracts.QuestionCapabilityTask.Laws.{IsContract, validate_contract_iff}
use fluent_task_runtime.Regex.{match_string}
use fluent_task_runtime.Tests.Bindings.{q315}
use fluent_task_runtime.Tests.Site.{hash}

abbrev rate_limiter : TaskFamily
rate_limiter = record {
  key = "task-family.rate-limiter";
  title = record { en = "Rate limiter"; ru = "Ограничитель" };
  brief = record { en = ""; ru = "" };
  capability_keys = "capability.node.event-loop" ∷ [];
  question_bindings = [];
  revision_ids = "node-rate-limiter-001" ∷ [];
  rubric_ref = "";
  status = "released";
  runnable = true;
  revisions = [];
}

abbrev contract : QuestionCapabilityTask
contract = record {
  contract_version = "question-capability-task.v1";
  question_cards =
      record {
        stable_key = "question.q-315";
        revision_id = q315.revision_id;
        content_hash = hash;
        locales = "en" ∷ [];
        status = "released";
      }
      ∷ [];
  capabilities =
      record {
        key = "capability.node.event-loop";
        title = record { en = "Event loop"; ru = "Цикл событий" };
        lifecycle = "active";
        aliases = [];
        supersedes = [];
      }
      ∷ [];
  capability_domain_bindings =
      record {
        capability_key = "capability.node.event-loop";
        domain_key = "domain.backend";
        role = "primary";
      }
      ∷ [];
  question_capability_bindings = [];
  task_families = rate_limiter ∷ [];
  task_revisions =
      record {
        task_id = "node-rate-limiter-001";
        revision = pos 1;
        task_family_key = "task-family.rate-limiter";
        language = "javascript";
        profile = "node";
        status = "released";
        immutable_hash = hash;
      }
      ∷ [];
}

numbered :
    (valid_capability_key "capability.node.event-loop" ≡ true)
    × (valid_capability_key "capability.node.event-loop-001" ≡ false)
    × (valid_capability_key "capability.node.event-loop-01" ≡ true)
unfolding valid_capability_key match_string contract_capability_pattern numbered_pattern
numbered = (refl, refl, refl)

validate_contract_iff_example : (validate_contract contract ≡ ok tt) ↔ IsContract contract
validate_contract_iff_example = validate_contract_iff contract
