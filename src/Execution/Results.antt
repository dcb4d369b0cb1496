-- ===== src/Execution/Results.antt =====
-- What validateResults of internal/engine/docker_executor.go accepts.
use fluent_task_runtime.Base.{
  String, ◌≡◌, refl, sym, subst, ◌≢◌, ◌↔◌, ◌⊎◌, inl, inr, true, false, not, ◌&&◌, ◌||◌, List, [],
  ◌∷◌, arith, ◌==◌, string_eq, nat_eq, Bool-cases, ok, >>=-eq-ok, guard-eq-ok, refuse-eq-ok,
  is_empty, All,
}
use fluent_task_runtime.Text.{is_blank}
use fluent_task_runtime.Numbers.{pos, le_int}
use fluent_task_runtime.Contracts.{TestResult, TestResults}
use fluent_task_runtime.Execution.{is_verdict, check_test, check_tests, validate_results}

-- A test that may be handed out: it has a name and a verdict, and a message unless it passed.
abbrev pub IsReported : TestResult → Type 0
IsReported t =
    (is_blank t.name ≡ false)
    × (is_verdict t.status ≡ true)
    × ((t.status ≡ "pass") ⊎ (is_blank t.message ≡ false))

quiet_of_pass : (s : String) → s ≡ "pass" → (s == "fail" || s == "error") ≡ false
unfolding string_eq
quiet_of_pass s e = subst (λ x. (x == "fail" || x == "error") ≡ false) (sym e) refl

check_test_iff : (t : TestResult) → (check_test t ≡ ok tt) ↔ IsReported t
unfolding check_test
check_test_iff t = (
  λ h. (ground arith, ground arith, ground arith),
  λ (named, verdict, reported).
      let told : ((t.status == "fail" || t.status == "error") && is_blank t.message) ≡ false =
        elim reported [
          | inl passed ↦ let quiet = quiet_of_pass t.status passed in ground (arith, quiet)
          | inr message ↦ ground arith
        ] in
      ground (arith, named, verdict, told),
)

check_tests_iff : (tests : List TestResult) → (check_tests tests ≡ ok tt) ↔ All IsReported tests
unfolding check_tests
check_tests_iff [] = (λ h. tt, λ h. refl)
check_tests_iff (t ∷ tests) = (
  λ h.
      let (u, here, later) = >>=-eq-ok (check_test t) _ h in
      ((check_test_iff t).0 here, (check_tests_iff tests).0 later),
  λ (here, later). rw ((check_test_iff t).1 here) ((check_tests_iff tests).1 later),
)

-- A document of results that may be handed out.
pub record AreReported (r : TestResults) : Type 0 where
  pub version : le_int r.version (pos 0) ≡ false
  pub verdict : is_verdict r.status ≡ true
  pub some_test : (r.status ≡ "error") ⊎ (r.tests ≢ [])
  pub tests : All IsReported r.tests

-- validateResults succeeds exactly when the version is positive, the status is a verdict, there is
-- some test unless the status is "error", and each test has a name, a verdict, and a message unless
-- it passed.
pub validate_results_iff : (r : TestResults) → (validate_results r ≡ ok tt) ↔ AreReported r
unfolding validate_results
validate_results_iff r = (to, from)
  where
    to : validate_results r ≡ ok tt → AreReported r
    to h =
        let (version, h₁) = refuse-eq-ok (le_int r.version (pos 0)) _ _ h in
        let (verdict, h₂) = guard-eq-ok (is_verdict r.status) _ _ h₁ in
        let (tested, h₃) = refuse-eq-ok (not (r.status == "error") && is_empty r.tests) _ _ h₂ in
        record {
          version = version;
          verdict = verdict;
          some_test = elim (Bool-cases (r.status == "error")) [
            | inl failed ↦ inl (ground arith)
            | inr ran ↦ inr (λ q. ground arith)
          ];
          tests = (check_tests_iff r.tests).0 h₃;
        }

    from : AreReported r → validate_results r ≡ ok tt
    from a =
        let tested : (not (r.status == "error") && is_empty r.tests) ≡ false = elim a.some_test [
          | inl e ↦ ground arith
          | inr e ↦ ground arith
        ] in
        rw (a.version, a.verdict, tested) ((check_tests_iff r.tests).1 a.tests)
