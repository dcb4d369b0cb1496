-- ===== src/Tests/Server.antt =====
-- Requests to the server of the catalogue in Tests/Site.antt.
use fluent_task_runtime.Base.{
  take, ◌≡◌, refl, ◌↔◌, true, false, some, List, [], ◌∷◌, arith, string_eq, nat_eq, ok, wrap,
}
use fluent_task_runtime.Base.Dict.{insert}
use fluent_task_runtime.Text.{trim_space, trim_left, trim_right, is_space, is_blank, split}
use fluent_task_runtime.Text.Decimal.{decimal, atoi, read_digits, read_unsigned}
use fluent_task_runtime.Numbers.{ℤ, pos, lt_int, le_int, int_eq, ◌≤ℤ◌}
use fluent_task_runtime.Documents.{malformed, decoded}
use fluent_task_runtime.Contracts.{TaskWorkspace}
use fluent_task_runtime.Catalogue.{find_task}
use fluent_task_runtime.Catalogue.Workspace.{
  file, directory, regular, WorkspaceFiles, collect_starter, workspace_of_task, task_workspace,
}
use fluent_task_runtime.Catalogue.Workspace.Laws.{IsWorkspace}
use fluent_task_runtime.Execution.{
  clean_segments, join_segments, clean, has_backslash, safe_relative_path, read_bounded,
}
use fluent_task_runtime.Server.{
  Server, Counters, Operation, set_header, write_header, write, text, docker_executor,
}
use fluent_task_runtime.Server.Identity.{bounded_identity}
use fluent_task_runtime.Server.Identity.Bounds.{IsIdentity, bounded_identity-IsIdentity}
use fluent_task_runtime.Server.Handlers.{unavailable, count_run, open_workspace, accept, runs}
use fluent_task_runtime.Server.Runs.{IsRunnable, accept_iff, IsRunAnswer, runs-IsRunAnswer}
use fluent_task_runtime.Server.Workspaces.{
  IsOffered, open_workspace-decimal, open_workspace-IsWorkspace,
}
use fluent_task_runtime.Server.Metrics.{Traffic, idle, Step, Reachable, IsBalanced}
use fluent_task_runtime.Server.Metrics.Balance.{reachable-IsBalanced, runs-steps}
use fluent_task_runtime.Server.Writer.{StatusWriter, perform_all}
use fluent_task_runtime.Server.Writer.Refinement.{
  IsRefinement, is_informational, perform_all-IsRefinement,
}
use fluent_task_runtime.Tests.Site.{limiter, bound_limiter, env, catalogue}
use fluent_task_runtime.Tests.Catalogue.{built}
use fluent_task_runtime.Tests.Running.{sandbox, request}

abbrev files : WorkspaceFiles
files = record {
  brief = λ _ _. regular (some (1 ∷ 2 ∷ []));
  starter = λ _ _. directory ∷ file (some "main.go") (regular (some (3 ∷ []))) ∷ [];
  text_of = λ _. "text";
}

abbrev server : Server
server = record {
  catalogue = catalogue;
  executor = docker_executor catalogue (λ _. sandbox) true;
  files = files;
  getenv = λ _. "";
  now = "2026-01-01T00:00:00Z";
}

abbrev quiet : Counters
quiet = idle.counters

serving : Unit {0}
unfolding trim_space trim_left trim_right is_space is_blank split lt_int le_int find_task
    clean_segments join_segments clean has_backslash safe_relative_path read_bounded take insert
    string_eq nat_eq int_eq collect_starter task_workspace open_workspace accept atoi read_digits
    read_unsigned
serving = tt

abbrev opened : TaskWorkspace
opened = workspace_of_task bound_limiter "text" (("main.go", "text") ∷ [])

link_opens : open_workspace server " node-rate-limiter-001" "1 " ≡ ok opened
unfolding serving
link_opens = refl

open_workspace-IsWorkspace_example :
    (revision : ℤ) × (atoi (trim_space "1 ") ≡ some revision)
    × (pos 1 ≤ℤ revision)
    × IsWorkspace files catalogue (trim_space " node-rate-limiter-001") revision opened
open_workspace-IsWorkspace_example =
    open_workspace-IsWorkspace server " node-rate-limiter-001" "1 " opened link_opens

limiter-IsOffered : IsOffered server limiter 1 bound_limiter
unfolding serving
limiter-IsOffered = record { bound = refl; named = λ e. cc; found = refl; offered = refl }

open_workspace-decimal_example :
    open_workspace server limiter (decimal 1)
    ≡ wrap unavailable (task_workspace files catalogue bound_limiter.id (pos 1))
open_workspace-decimal_example =
    open_workspace-decimal server limiter 1 bound_limiter (omega arith) (omega arith)
      limiter-IsOffered

accept_iff_example :
    (accept catalogue (decoded request) ≡ ok request)
    ↔ ((decoded request ≡ decoded request) × IsRunnable catalogue request)
accept_iff_example = accept_iff catalogue (decoded request) request

accepted : accept catalogue (decoded request) ≡ ok request
unfolding serving
accepted = refl

runs-IsRunAnswer_example :
    IsRunAnswer catalogue (λ _. sandbox) (decoded request) ((runs server (decoded request) quiet).0)
runs-IsRunAnswer_example =
    runs-IsRunAnswer env server (λ _. sandbox) true (decoded request) quiet built refl

abbrev entered : Traffic
entered = record idle { counters = count_run quiet; undecided = 1 }

abbrev in_flight : Traffic
in_flight = record entered { undecided = 0; in_flight = request ∷ [] }

begun : Reachable server in_flight
begun =
    Reachable.next entered in_flight (Reachable.next idle entered Reachable.start (Step.enter idle))
      (Step.begin entered 0 (decoded request) request refl accepted)

reachable-IsBalanced_example : IsBalanced server in_flight
reachable-IsBalanced_example = reachable-IsBalanced server in_flight begun

malformed_run :
    (u : Traffic) × Reachable server u
    × (u.counters ≡ (runs server malformed in_flight.counters).1)
    × (u.in_flight ≡ request ∷ [])
malformed_run = runs-steps server in_flight malformed begun

bounded_identity-IsIdentity_example :
    IsIdentity (bounded_identity "v1 beta")
    × (IsIdentity "v1 beta" → bounded_identity "v1 beta" ≡ "v1 beta")
bounded_identity-IsIdentity_example = bounded_identity-IsIdentity "v1 beta"

abbrev calls : List Operation
calls = set_header "a" "b" ∷ write_header 404 ∷ write_header 200 ∷ write (text "x") ∷ []

abbrev fresh_writer : StatusWriter
fresh_writer = record { status = 0 }

final_404 : is_informational 404 ≡ false
unfolding is_informational nat_eq
final_404 = refl

final_200 : is_informational 200 ≡ false
unfolding is_informational nat_eq
final_200 = refl

perform_all-IsRefinement_example :
    IsRefinement calls ((perform_all calls fresh_writer).0) ((perform_all calls fresh_writer).1)
perform_all-IsRefinement_example =
    perform_all-IsRefinement calls
      (tt, ((omega arith, final_404), ((omega arith, final_200), (tt, tt))))
