-- ===== src/Server/Runs.antt =====
-- How POST /v1/runs of internal/httpapi/server.go is answered.
use fluent_task_runtime.Base.{
  ℕ, String, ◌≡◌, refl, sym, ap, ◌∙◌, subst, ◌≢◌, ◌↔◌, inl, inr, Bool, true, false, ◌||◌, some,
  ==_iff, arith, ◌==◌, string_eq, nat_eq, Result, ok, err, guard, refuse, expect, >>=-eq-ok,
  guard-eq-ok, refuse-eq-ok, expect-eq-ok, Result-cases, Refused, Refused-bind, Refused-guard,
  Refused-refuse, Refused-expect, Refused-err,
}
use fluent_task_runtime.Text.{is_blank}
use fluent_task_runtime.Numbers.{ℤ, pos, lt_int, ◌≤ℤ◌, le_int, le_int_iff, one_le_of_lt_int}
use fluent_task_runtime.Documents.{Document, unreadable, malformed, decoded}
use fluent_task_runtime.Contracts.{Task, RunRequest, RunResponse}
use fluent_task_runtime.Catalogue.{
  Environment, Catalogue, find_task, task, release_bound, new_catalogue,
}
use fluent_task_runtime.Catalogue.Queries.{find_task_sound}
use fluent_task_runtime.Catalogue.Laws.{IsExecutable, new_catalogue-IsExecutable}
use fluent_task_runtime.Loading.Descriptors.{HasLimits}
use fluent_task_runtime.Execution.Running.{
  ExecutionError, RunFailure, execution_failed, panicked, Sandbox, run,
}
use fluent_task_runtime.Execution.Running.Laws.{IsKnownCode, run-IsKnown}
use fluent_task_runtime.Execution.Running.Success.{IsServed, run-IsServed}
use fluent_task_runtime.Server.{
  response, failure, executed, docker_executor, Server, Counters, Reply, answered, write_json,
}
use fluent_task_runtime.Server.Handlers.{
  Failure, failure_with, run_contract, is_withheld, accept, error_of_execution, reply_to, runs,
}

-- A request that the executor is given.
pub record IsRunnable (c : Catalogue) (request : RunRequest) : Type 0 where
  pub named : is_blank request.task_id ≡ false
  pub positive : pos 1 ≤ℤ request.task_revision
  pub bound : release_bound c ≡ true
  pub task : Task
  pub found : find_task c.tasks.tasks request.task_id request.task_revision ≡ some task
  pub released : task.status ≡ "released"
  pub runnable : task.runnable ≡ true
  pub available : task.availability ≡ "runnable"

not_below_one : (n : ℤ) → pos 1 ≤ℤ n → lt_int n (pos 1) ≡ false
unfolding le_int
not_below_one n h = let le = (le_int_iff (pos 1) n).1 h in ground (arith, le)

is_withheld_iff :
    (t : Task)
    → (is_withheld t ≡ false)
      ↔ ((t.status ≡ "released") × (t.runnable ≡ true) × (t.availability ≡ "runnable"))
is_withheld_iff t = (
  λ h. (
    (==_iff t.status "released").0 (ground arith),
    ground arith,
    (==_iff t.availability "runnable").0 (ground arith),
  ),
  λ (released, runnable, available).
      let here = (==_iff t.status "released").1 released in
      let there = (==_iff t.availability "runnable").1 available in
      ground (arith, here, there, runnable),
)

-- A request is passed on to the executor exactly when its body decodes, it names a task and a positive
-- revision, the catalogue is bound to a release, and the catalogue's task of that name and revision is
-- released, runnable and available.
pub accept_iff :
    (c : Catalogue) (document : Document RunRequest) (request : RunRequest)
    → (accept c document ≡ ok request) ↔ ((document ≡ decoded request) × IsRunnable c request)
unfolding accept
accept_iff c unreadable request = (λ h. cc, λ (h, _). cc)
accept_iff c malformed request = (λ h. cc, λ (h, _). cc)
accept_iff c (decoded r) request = (
  λ h.
      let (valid, h₁) = refuse-eq-ok (is_blank r.task_id || lt_int r.task_revision (pos 1)) _ _ h in
      let (bound, h₂) = guard-eq-ok (release_bound c) _ _ h₁ in
      let (t, ht, h₃) = >>=-eq-ok (expect (task c r.task_id r.task_revision) _) _ h₂ in
      let (offered, h₄) = refuse-eq-ok (is_withheld t) _ _ h₃ in
      let (released, may_run, available) = (is_withheld_iff t).0 offered in
      let same : r ≡ request = cc in
      let runnable : IsRunnable c r = record {
        named = ground (arith, valid);
        positive = one_le_of_lt_int r.task_revision (ground (arith, valid));
        bound = bound;
        task = t;
        found = expect-eq-ok (task c r.task_id r.task_revision) _ ht;
        released = released;
        runnable = may_run;
        available = available;
      } in
      (ap decoded same, subst (λ x. IsRunnable c x) same runnable),
  λ (same, h).
      let whole : accept c (decoded request) ≡ ok request =
        let positive = not_below_one request.task_revision h.positive in
        let offered = (is_withheld_iff h.task).1 (h.released, h.runnable, h.available) in
        rw (h.named, positive, h.bound, h.found, offered) refl in
      ap (accept c) same ∙ whole,
)

-- The server's own errors.
pub data IsServerCode : String → ℕ → Type 0 where
  invalid_request : IsServerCode "invalid_request" 400
  question_release_not_bound : IsServerCode "question_release_not_bound" 503
  unknown_task : IsServerCode "unknown_task" 404
  runtime_not_ready : IsServerCode "runtime_not_ready" 501

abbrev IsServerFailure : Failure → Type 0
IsServerFailure (status, e) =
    (message : String) × (e ≡ (failure_with run_contract status e.code message).1)
    × IsServerCode e.code status

accept-IsServerFailure :
    (c : Catalogue) (document : Document RunRequest) → Refused IsServerFailure (accept c document)
unfolding accept
accept-IsServerFailure c unreadable = (_, refl, invalid_request)
accept-IsServerFailure c malformed = (_, refl, invalid_request)
accept-IsServerFailure c (decoded request) =
    Refused-bind IsServerFailure
      (refuse (is_blank request.task_id || lt_int request.task_revision (pos 1)) _) _
      (Refused-refuse IsServerFailure
        (is_blank request.task_id || lt_int request.task_revision (pos 1)) _
        (_, refl, invalid_request))
      (λ _.
        Refused-bind IsServerFailure (guard (release_bound c) _) _
          (Refused-guard IsServerFailure (release_bound c) _ (_, refl, question_release_not_bound))
          (λ _.
            Refused-bind IsServerFailure (expect (task c request.task_id request.task_revision) _) _
              (Refused-expect IsServerFailure (task c request.task_id request.task_revision) _
                (_, refl, unknown_task))
              (λ t.
                Refused-bind IsServerFailure (refuse (is_withheld t) _) _
                  (Refused-refuse IsServerFailure (is_withheld t) _ (_, refl, runtime_not_ready))
                  (λ _. tt))))

known_status :
    {code : String} {status : ℕ} {retryable : Bool}
    → IsKnownCode code status retryable
    → (status == 0) ≡ false
known_status IsKnownCode.unknown_task = ground arith
known_status IsKnownCode.question_release_not_bound = ground arith
known_status IsKnownCode.runtime_not_ready = ground arith
known_status IsKnownCode.task_not_packaged = ground arith
known_status IsKnownCode.sandbox_unavailable = ground arith
known_status IsKnownCode.invalid_request = ground arith
known_status IsKnownCode.sandbox_setup_failed = ground arith
known_status IsKnownCode.task_not_prepared = ground arith
known_status IsKnownCode.invalid_task_limits = ground arith
known_status IsKnownCode.timeout = ground arith
known_status IsKnownCode.harness_failed = ground arith
known_status IsKnownCode.runner_protocol = ground arith

-- The answers to a run: an error of the server's own, an error of the executor's, or the response of a
-- run that has been served.
pub data IsRunAnswer (c : Catalogue) (sandbox : RunRequest → Sandbox)
    (document : Document RunRequest) : Reply → Type 0 where
  not_accepted :
      (status : ℕ) (code message : String)
      → IsServerCode code status
      → IsRunAnswer c sandbox document
          (answered (write_json status (failure (failure_with run_contract status code message).1)))
  not_completed :
      (request : RunRequest) (e : ExecutionError)
      → document ≡ decoded request
      → IsRunnable c request
      → IsKnownCode e.code e.status e.retryable
      → IsRunAnswer c sandbox document
          (answered (write_json e.status (failure (error_of_execution e))))
  completed :
      (request : RunRequest) (r : RunResponse)
      → document ≡ decoded request
      → IsRunnable c request
      → IsServed c (sandbox request) request r
      → IsRunAnswer c sandbox document (answered (write_json 200 (response r)))

runnable-IsExecutable :
    (env : Environment) (c : Catalogue) (request : RunRequest) (h : IsRunnable c request)
    → new_catalogue env ≡ ok c
    → IsExecutable c h.task
runnable-IsExecutable env c request h built =
    let (mem, _, _) =
      find_task_sound c.tasks.tasks request.task_id request.task_revision h.task h.found in
    new_catalogue-IsExecutable env c h.task built mem h.runnable

module _ (env : Environment) (c : Catalogue) (built : new_catalogue env ≡ ok c)
    (sandbox : RunRequest → Sandbox) (document : Document RunRequest) (request : RunRequest)
    (decodes : document ≡ decoded request) (runnable : IsRunnable c request) where
  not_panicked : (run c (sandbox request) request).1 ≢ err panicked
  not_panicked h =
      let (t, found, unlimited) = run-IsKnown c (sandbox request) request panicked h in
      let same : runnable.task ≡ t = cc in
      let limits = (runnable-IsExecutable env c request runnable built).limits in
      unlimited (subst (λ u. HasLimits u.timeout_ms u.memory_mb u.cpus) same limits)

  reply-IsRunAnswer :
      (out : Result RunFailure RunResponse)
      → (run c (sandbox request) request).1 ≡ out
      → IsRunAnswer c sandbox document (reply_to (executed out))
  unfolding reply_to
  reply-IsRunAnswer (ok r) h =
      completed request r decodes runnable (run-IsServed c (sandbox request) request r h)
  reply-IsRunAnswer (err (execution_failed e)) h =
      let known : IsKnownCode e.code e.status e.retryable =
        run-IsKnown c (sandbox request) request (execution_failed e) h in
      let kept = known_status known in rw kept (not_completed request e decodes runnable known)
  reply-IsRunAnswer (err panicked) h = absurd (not_panicked h)

-- On a catalogue that has been built, a run through the Docker executor is always answered, with no
-- panic: by an error of the server's own; or, for a request of a runnable task, by one of the
-- executor's known errors with its own status, or with status 200 by the response of a run that has
-- been served.
pub runs-IsRunAnswer :
    (env : Environment) (s : Server) (sandbox : RunRequest → Sandbox) (docker : Bool)
    (document : Document RunRequest) (m : Counters)
    → new_catalogue env ≡ ok s.catalogue
    → s.executor ≡ docker_executor s.catalogue sandbox docker
    → IsRunAnswer s.catalogue sandbox document ((runs s document m).0)
unfolding runs
runs-IsRunAnswer env s sandbox docker document m built docked =
    elim (Result-cases (accept s.catalogue document)) [
      | inr ((status, error), k) ↦
          let (message, same, known) =
            Refused-err IsServerFailure (accept s.catalogue document) (status, error)
              (accept-IsServerFailure s.catalogue document) k in
          let shape : (runs s document m).0 ≡ answered (write_json status (failure error)) =
            ground (arith, k) in
          let written : answered (write_json status (failure error))
              ≡ answered (
                  write_json status
                    (failure (failure_with run_contract status error.code message).1)) =
            ap (λ e. answered (write_json status (failure e))) same in
          subst (λ r. IsRunAnswer s.catalogue sandbox document r) (sym (shape ∙ written))
            (not_accepted status error.code message known)
      | inl (request, k) ↦
          let (decodes, runnable) = (accept_iff s.catalogue document request).0 k in
          let shape : (runs s document m).0 ≡ reply_to (s.executor.run request) =
            ground (arith, k) in
          let ran : s.executor.run request
              ≡ executed ((run s.catalogue (sandbox request) request).1) =
            ap (λ x. x.run request) docked in
          subst (λ r. IsRunAnswer s.catalogue sandbox document r) (sym (shape ∙ ap reply_to ran))
            (reply-IsRunAnswer env s.catalogue built sandbox document request decodes runnable
              ((run s.catalogue (sandbox request) request).1) refl)
    ]
