-- ===== src/Execution/Running/Admission.antt =====
-- The checks of DockerExecutor.Run of internal/engine/docker_executor.go before it writes anything.
use fluent_task_runtime.Base.{
  ◌≡◌, refl, subst, ◌↔◌, true, false, ◌||◌, some, ◌==◌, string_eq, nat_eq, ok, expect, wrap,
  >>=-eq-ok, guard-eq-ok, refuse-eq-ok, wrap-eq-ok, expect-eq-ok, is_empty,
}
use fluent_task_runtime.Contracts.{Task, RunRequest}
use fluent_task_runtime.Catalogue.{Catalogue, task, release_bound}
use fluent_task_runtime.Execution.{validate_files}
use fluent_task_runtime.Execution.Sandbox.{verify_image_digest}
use fluent_task_runtime.Execution.Running.{Sandbox, image_failure, files_failure, admit}

-- What is known of a task that Run goes on with.
pub record IsAdmitted (c : Catalogue) (sb : Sandbox) (request : RunRequest) (t : Task)
    : Type 0 where
  pub found : task c request.task_id request.task_revision ≡ some t
  pub bound : release_bound c ≡ true
  pub released : (t.status == "released") ≡ true
  pub packaged : (is_empty t.check_command || is_empty t.editable_files) ≡ false
  pub verified : verify_image_digest sb.inspect t.image ≡ ok tt
  pub accepted : validate_files request.files t.editable_files ≡ ok tt

admit-IsAdmitted :
    (c : Catalogue) (sb : Sandbox) (request : RunRequest) (t : Task)
    → admit c sb request ≡ ok t
    → IsAdmitted c sb request t
unfolding admit
admit-IsAdmitted c sb request t h =
    let (u, hu, h₁) = >>=-eq-ok (expect (task c request.task_id request.task_revision) _) _ h in
    let found = expect-eq-ok (task c request.task_id request.task_revision) _ hu in
    let (bound, h₂) = guard-eq-ok (release_bound c) _ _ h₁ in
    let (released, h₃) = guard-eq-ok (u.status == "released") _ _ h₂ in
    let (packaged, h₄) =
      refuse-eq-ok (is_empty u.check_command || is_empty u.editable_files) _ _ h₃ in
    let (tt, verified, h₅) =
      >>=-eq-ok (wrap image_failure (verify_image_digest sb.inspect u.image)) _ h₄ in
    let (tt, accepted, h₆) =
      >>=-eq-ok (wrap files_failure (validate_files request.files u.editable_files)) _ h₅ in
    let same : u ≡ t = cc in
    subst (λ x. IsAdmitted c sb request x) same
      (record {
        found = found;
        bound = bound;
        released = released;
        packaged = packaged;
        verified = wrap-eq-ok image_failure (verify_image_digest sb.inspect u.image) verified;
        accepted =
            wrap-eq-ok files_failure (validate_files request.files u.editable_files) accepted;
      })

-- Run goes on with a task exactly when it is the catalogue's task of that name and revision, the
-- catalogue is bound to a release, the task is released and packaged, its image's digest is verified,
-- and the files are accepted.
pub admit_iff :
    (c : Catalogue) (sb : Sandbox) (request : RunRequest) (t : Task)
    → (admit c sb request ≡ ok t) ↔ IsAdmitted c sb request t
unfolding admit
admit_iff c sb request t = (
  admit-IsAdmitted c sb request t,
  λ a. rw (a.found, a.bound, a.released, a.packaged, a.verified, a.accepted) refl,
)
