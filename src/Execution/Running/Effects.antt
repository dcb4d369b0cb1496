-- ===== src/Execution/Running/Effects.antt =====
-- What DockerExecutor.Run of internal/engine/docker_executor.go does outside, in order.
use fluent_task_runtime.Base.{
  String, ◌≡◌, ◌≢◌, inl, inr, some, List, [], ◌∷◌, ◌++◌, string_eq, nat_eq, ok, >>=-eq-ok,
  refuse-eq-ok, expect-eq-ok, Result-cases,
}
use fluent_task_runtime.Text.{trim_space}
use fluent_task_runtime.Execution.Running.Disposal.{run_below-cases, run_admitted-cases}
use fluent_task_runtime.Contracts.{Task, RunRequest}
use fluent_task_runtime.Catalogue.{Catalogue}
use fluent_task_runtime.Execution.Sandbox.{docker_args, docker_container_name}
use fluent_task_runtime.Execution.Sandbox.Arguments.{IsIsolated, docker_args-eq-some}
use fluent_task_runtime.Execution.Running.{
  Sandbox, Effect, make_workspace, remove_workspace, start, remove_container, admit, correlation_of,
  directories_in, set_up, timeout_ns, is_invalid_timeout, command_of, run_in, run_below,
  run_admitted, run, make_work_root,
}

-- The name of a run's container.
abbrev pub container_of : Sandbox → RunRequest → Task → String
container_of sb request t = docker_container_name t.id (correlation_of sb request)

-- Nothing, a workspace that is to be removed, or a workspace with one isolated container of the
-- admitted task on it, whose removal by its name is asked for before the workspace's.
pub data IsDisposed (c : Catalogue) (sb : Sandbox) (request : RunRequest)
    : List Effect → Type 0 where
  untouched : IsDisposed c sb request []
  abandoned :
      (work : String) → IsDisposed c sb request (make_workspace work ∷ remove_workspace work ∷ [])
  completed :
      (t : Task) (work : String) (args : List String)
      → admit c sb request ≡ ok t
      → IsIsolated sb.format_float t (directories_in work) (container_of sb request t) args
      → IsDisposed c sb request (
          make_workspace work
          ∷ start args
          ∷ remove_container (container_of sb request t)
          ∷ remove_workspace work
          ∷ [])

-- The same, behind the making of the work root if the environment names one and the request is
-- admitted.
pub data IsTidy (c : Catalogue) (sb : Sandbox) (request : RunRequest) : List Effect → Type 0 where
  refused : IsTidy c sb request []
  in_temporary :
      (effects : List Effect)
      → trim_space sb.work_root ≡ ""
      → IsDisposed c sb request effects
      → IsTidy c sb request effects
  in_root :
      (effects : List Effect)
      → trim_space sb.work_root ≢ ""
      → IsDisposed c sb request effects
      → IsTidy c sb request (make_work_root (trim_space sb.work_root) ∷ effects)

pub command_of-args :
    (sb : Sandbox) (t : Task) (request : RunRequest) (work : String) (args : List String)
    → command_of sb t request work ≡ ok args
    → docker_args sb.format_float t (directories_in work) (correlation_of sb request) ≡ some args
unfolding command_of
command_of-args sb t request work args h =
    let (_, _, h₁) = >>=-eq-ok (set_up sb t request) _ h in
    let (_, h₂) = refuse-eq-ok (is_invalid_timeout (timeout_ns t)) _ _ h₁ in
    expect-eq-ok (docker_args sb.format_float t (directories_in work) (correlation_of sb request)) _
      h₂

module _ (c : Catalogue) (sb : Sandbox) (request : RunRequest) (t : Task) where
  run_in-IsDisposed :
      (work : String)
      → admit c sb request ≡ ok t
      → IsDisposed c sb request
          (make_workspace work ∷ ((run_in sb t request work).0 ++ remove_workspace work ∷ []))
  unfolding run_in
  run_in-IsDisposed work admitted = elim (Result-cases (command_of sb t request work)) [
    | inr (e, h) ↦ rw (h, run_in) (abandoned work)
    | inl (args, h) ↦
        rw (h, run_in)
          (completed t work args admitted (
            docker_args-eq-some sb.format_float t (directories_in work) (correlation_of sb request)
              args (command_of-args sb t request work args h)))
  ]

  run_below-IsDisposed :
      admit c sb request ≡ ok t → IsDisposed c sb request ((run_below sb t request).0)
  run_below-IsDisposed admitted = elim (run_below-cases sb t request) [
    | inl h ↦ rw h untouched
    | inr (work, _, h) ↦ rw h (run_in-IsDisposed work admitted)
  ]

  run_admitted-IsTidy :
      admit c sb request ≡ ok t → IsTidy c sb request ((run_admitted sb t request).0)
  run_admitted-IsTidy admitted =
      let below = run_below-IsDisposed admitted in
      elim (run_admitted-cases sb t request) [
        | inl (unnamed, h) ↦ rw h (in_temporary _ unnamed below)
        | inr (inl (named, h)) ↦ rw h (in_root _ named below)
        | inr (inr (named, _, h)) ↦ rw h (in_root [] named untouched)
      ]

-- Whatever a run returns, it does nothing to the host but this, in this order: it makes the work root
-- that the environment names, if it names one and the request is admitted; it makes a workspace; it
-- starts one container, an isolated one of the task that it admitted; it asks for that container's
-- removal by its name, whenever it has started it; and it asks for the workspace's removal, whenever
-- it has made it. It may stop before any of these but the removals.
pub run-IsTidy :
    (c : Catalogue) (sb : Sandbox) (request : RunRequest)
    → IsTidy c sb request ((run c sb request).0)
unfolding run
run-IsTidy c sb request = elim (Result-cases (admit c sb request)) [
  | inr (e, h) ↦ rw (h, run) refused
  | inl (t, h) ↦ rw (h, run) (run_admitted-IsTidy c sb request t h)
]
