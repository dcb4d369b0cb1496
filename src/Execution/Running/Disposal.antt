-- ===== src/Execution/Running/Disposal.antt =====
-- The directories that DockerExecutor.Run of internal/engine/docker_executor.go makes around a run: the
-- work root and the disposable workspace in it.
use mathlib.Core.Bool.{false≢true}
use fluent_task_runtime.Base.{
  String, ◌≡◌, ◌≢◌, sym, ◌∙◌, ◌⊎◌, inl, inr, true, false, some, List, [], ◌∷◌, ◌++◌, arith, ◌==◌,
  ==_iff, string_eq, nat_eq, Bool-cases, Result, Option-cases,
}
use fluent_task_runtime.Text.{trim_space}
use fluent_task_runtime.Contracts.{Task, RunRequest, RunResponse}
use fluent_task_runtime.Execution.Running.{
  Sandbox, Effect, make_work_root, make_workspace, remove_workspace, RunFailure, fail, no_workspace,
  no_work_root, run_in, run_below, run_admitted,
}

abbrev Ran : Type 0
Ran = List Effect × Result RunFailure RunResponse

module _ (sb : Sandbox) (t : Task) (request : RunRequest) where
  -- There is no workspace, or the run is inside it.
  pub run_below-cases :
      (run_below sb t request ≡ ([], fail "sandbox_setup_failed" no_workspace 503 true))
      ⊎ (work : String) × (sb.workspace ≡ some work)
        × (run_below sb t request ≡ (
          make_workspace work ∷ ((run_in sb t request work).0 ++ remove_workspace work ∷ []),
          (run_in sb t request work).1,
        ))
  unfolding run_below
  run_below-cases = elim (Option-cases sb.workspace) [
    | inl h ↦ inl (ground (arith, h))
    | inr (work, h) ↦ inr (work, h, ground (arith, h))
  ]

  -- There is no root to make, it is made, or it cannot be made.
  pub run_admitted-cases :
      ((trim_space sb.work_root ≡ "") × (run_admitted sb t request ≡ run_below sb t request))
      ⊎ ((trim_space sb.work_root ≢ "")
            × (run_admitted sb t request ≡ (
              make_work_root (trim_space sb.work_root) ∷ (run_below sb t request).0,
              (run_below sb t request).1,
            ))
          ⊎ ((trim_space sb.work_root ≢ "")
              × (sb.makes_work_root ≡ false)
              × (run_admitted sb t request ≡ (
                make_work_root (trim_space sb.work_root) ∷ [],
                fail "sandbox_setup_failed" no_work_root 503 true,
              ))))
  unfolding run_admitted
  run_admitted-cases = elim (Bool-cases (trim_space sb.work_root == "")) [
    | inl e ↦ inl ((==_iff (trim_space sb.work_root) "").0 e, ground (arith, e))
    | inr e ↦ elim (Bool-cases sb.makes_work_root) [
      | inl made ↦ inr (inl (named e, ground (arith, e, made)))
      | inr failed ↦ inr (inr (named e, failed, ground (arith, e, failed)))
    ]
  ]
    where
      named : (trim_space sb.work_root == "") ≡ false → trim_space sb.work_root ≢ ""
      named e h = false≢true (sym e ∙ (==_iff (trim_space sb.work_root) "").1 h)
