-- ===== src/Contracts.antt =====
-- contracts/runtime.go and the task families of contracts/question_capability_task.go: the data
-- that the engine and the HTTP control plane exchange. A `nil` slice is an empty list.
pub mod QuestionCapabilityTask
use fluent_task_runtime.Base.{ℕ, String, Bool, List, Eq, string_eq}
use fluent_task_runtime.Numbers.{ℤ, Float64}

pub record QuestionBinding : Type 0 where
  pub stable_key : String
  pub revision_id : String
  pub content_hash : String

unfoldable pub String-discrete : Discrete String
unfolding string_eq
String-discrete = string_eq.dec

QuestionBinding-discrete : Discrete QuestionBinding
unfolding String-discrete
QuestionBinding-discrete = hlevel String-discrete

instance unfoldable pub binding_eq : Eq QuestionBinding
unfolding QuestionBinding-discrete string_eq
binding_eq = record { dec = QuestionBinding-discrete }

pub record Task : Type 0 where
  pub id : String
  pub revision : ℤ
  pub language : String
  pub profile : String
  pub runtime : String
  pub image : String
  pub status : String
  pub runnable : Bool
  pub availability : String
  pub task_family_key : String
  pub immutable_hash : String
  pub network : String
  pub hidden_tests : Bool
  pub check_command : List String
  pub editable_files : List String
  pub declared_tests : List String
  pub timeout_ms : ℤ
  pub memory_mb : ℤ
  pub cpus : Float64
  pub user : String
  pub artifacts : List String
  pub question_release_id : String
  pub question_bindings : List QuestionBinding
  pub capability_keys : List String

pub record Tasks : Type 0 where
  pub contract_version : String
  pub tasks : List Task

pub record Profile : Type 0 where
  pub id : String
  pub display_name : String
  pub toolchain : String
  pub image : String
  pub status : String
  pub network : String
  pub hidden_tests : Bool
  pub supported_tasks : List String

pub record Profiles : Type 0 where
  pub contract_version : String
  pub profiles : List Profile

pub record TaskSummary : Type 0 where
  pub task_id : String
  pub revision : ℤ
  pub status : String
  pub runnable : Bool
  pub availability : String
  pub task_family_key : String
  pub profile : String
  pub runtime : String
  pub question_release_id : String
  pub question_bindings : List QuestionBinding
  pub capability_keys : List String
  pub binding_state : String

pub record TaskSummaryResponse : Type 0 where
  pub contract_version : String
  pub binding_state : String
  pub runnable : Bool
  pub runtime_release_id : String
  pub question_release_id : String
  pub question_source_snapshot_id : String
  pub capability_binding_release_id : String
  pub capability_registry_release_id : String
  pub task_family_release_id : String
  pub tasks : List TaskSummary

pub record LocalizedContractText : Type 0 where
  pub en : String
  pub ru : String

pub record TaskFamilyRevision : Type 0 where
  pub task_id : String
  pub revision : ℤ
  pub task_family_key : String
  pub language : String
  pub profile : String
  pub runtime : String
  pub status : String
  pub availability : String
  pub runnable : Bool
  pub immutable_hash : String

pub record TaskFamily : Type 0 where
  pub key : String
  pub title : LocalizedContractText
  pub brief : LocalizedContractText
  pub capability_keys : List String
  pub question_bindings : List QuestionBinding
  pub revision_ids : List String
  pub rubric_ref : String
  pub status : String
  pub runnable : Bool
  pub revisions : List TaskFamilyRevision

pub record TaskFamilies : Type 0 where
  pub contract_version : String
  pub release_id : String
  pub families : List TaskFamily

pub record TestResult : Type 0 where
  pub name : String
  pub status : String
  pub message : String
  pub output : String
  pub test_code : String

pub record TestResults : Type 0 where
  pub version : ℤ
  pub status : String
  pub message : String
  pub tests : List TestResult

pub record RunRequest : Type 0 where
  pub task_id : String
  pub task_revision : ℤ
  pub files : List (String × String)
  pub locale : String
  pub correlation : String

pub record RunResponse : Type 0 where
  pub contract_version : String
  pub results : TestResults
  pub correlation_id : String
  pub duration_ms : Float64
  pub exit_code : ℤ
  pub stdout : String
  pub stderr : String
  pub artifacts : List (String × String)

pub record TaskWorkspace : Type 0 where
  pub contract_version : String
  pub task_id : String
  pub revision : ℤ
  pub status : String
  pub language : String
  pub profile : String
  pub runtime : String
  pub brief : String
  pub declared_test_count : ℕ
  pub editable_files : List String
  pub starter_files : List (String × String)

pub record TaskFamilyResponse : Type 0 where
  pub contract_version : String
  pub release_id : String
  pub family : TaskFamily

pub record Health : Type 0 where
  pub contract_version : String
  pub service : String
  pub state : String
  pub ready : Bool
  pub dependencies : List (String × String)
  pub checked_at : String
  pub source_revision : String
  pub release_id : String
  pub environment : String
