-- ===== src/Server/Metrics/Balance.antt =====
-- That the counters of internal/httpapi/server.go have the numbers of what they count.
use fluent_task_runtime.Base.{
  suc, ◌+◌, ◌%◌, ◌≡◌, ◌≢◌, refl, sym, ap, ◌∙◌, subst, inl, inr, List, [], ◌∷◌, ◌++◌, arith, ◌==◌,
  ==_iff, string_eq, nat_eq, Bool-cases, Result-cases, length, length-append, All,
}
use fluent_task_runtime.Documents.{Document}
use fluent_task_runtime.Contracts.{RunRequest, RunResponse}
use fluent_task_runtime.Server.{
  Execution, responded, refused, failed, crashed, Server, Counters, bump,
}
use fluent_task_runtime.Server.Handlers.{accept, count, count_run, runs}
use fluent_task_runtime.Server.Runs.{IsRunnable, accept_iff}
use fluent_task_runtime.Server.Metrics.{
  Traffic, Step, Reachable, Ends, passed, not_passed, refusal, failure, crash, error, Tally,
  none_yet, one_pass, one_fail, one_error, one_panic, modulus, IsBalanced,
}

All-removed :
    (P : RunRequest → Type 0) (front back : List RunRequest) (r : RunRequest)
    → All P (front ++ r ∷ back)
    → All P (front ++ back)
All-removed P [] back r (_, h) = h
All-removed P (f ∷ front) back r (p, h) = (p, All-removed P front back r h)

-- What a run's end does to the list of the runs in flight and to the number of those that ended.
module _ (s : Server) (t : Traffic) (front back : List RunRequest) (request : RunRequest)
    (flying : t.in_flight ≡ front ++ request ∷ back) (h : IsBalanced s t) where
  remaining : suc (length (front ++ back)) ≡ length t.in_flight
  remaining =
      let whole : length t.in_flight ≡ length (front ++ request ∷ back) =
        ap (λ xs. length xs) flying in
      let before = length-append front (request ∷ back) in
      let after = length-append front back in omega (arith, whole, before, after)

  others-IsRunnable : All (IsRunnable s.catalogue) (front ++ back)
  others-IsRunnable =
      All-removed (IsRunnable s.catalogue) front back request
        (subst (λ xs. All (IsRunnable s.catalogue) xs) flying h.runnable)

  abbrev left : Execution → Counters → Traffic
  left x m = record t { counters = m; in_flight = front ++ back; ended = x ∷ t.ended }

  counted :
      t.counters.run_requests
      ≡ (suc (length t.ended) + length (front ++ back) + t.rejected + t.undecided) % modulus
  counted = let sum = h.run_requests in let less = remaining in omega (arith, sum, less)

  ended_pass :
      (r : RunResponse)
      → r.results.status ≡ "pass"
      → IsBalanced s
          (left (responded r) (record t.counters { run_passes = bump t.counters.run_passes }))
  ended_pass r e =
      let total = h.all_ended in
      let n = h.run_passes in
      record {
        passes = suc h.passes;
        failures = h.failures;
        errors = h.errors;
        panics = h.panics;
        tally = one_pass _ _ _ _ _ _ (passed r e) h.tally;
        all_ended = omega (arith, total);
        http_requests = h.http_requests;
        run_requests = counted;
        run_passes = omega (arith, n);
        run_failures = h.run_failures;
        run_errors = h.run_errors;
        runnable = others-IsRunnable;
      }

  ended_fail :
      (r : RunResponse)
      → r.results.status ≢ "pass"
      → IsBalanced s
          (left (responded r) (record t.counters { run_failures = bump t.counters.run_failures }))
  ended_fail r e =
      let total = h.all_ended in
      let n = h.run_failures in
      record {
        passes = h.passes;
        failures = suc h.failures;
        errors = h.errors;
        panics = h.panics;
        tally = one_fail _ _ _ _ _ _ (not_passed r e) h.tally;
        all_ended = omega (arith, total);
        http_requests = h.http_requests;
        run_requests = counted;
        run_passes = h.run_passes;
        run_failures = omega (arith, n);
        run_errors = h.run_errors;
        runnable = others-IsRunnable;
      }

  ended_error :
      (x : Execution)
      → Ends x error
      → IsBalanced s (left x (record t.counters { run_errors = bump t.counters.run_errors }))
  ended_error x e =
      let total = h.all_ended in
      let n = h.run_errors in
      record {
        passes = h.passes;
        failures = h.failures;
        errors = suc h.errors;
        panics = h.panics;
        tally = one_error _ _ _ _ _ _ e h.tally;
        all_ended = omega (arith, total);
        http_requests = h.http_requests;
        run_requests = counted;
        run_passes = h.run_passes;
        run_failures = h.run_failures;
        run_errors = omega (arith, n);
        runnable = others-IsRunnable;
      }

  ended_panic : IsBalanced s (left crashed t.counters)
  ended_panic =
      let total = h.all_ended in
      record {
        passes = h.passes;
        failures = h.failures;
        errors = h.errors;
        panics = suc h.panics;
        tally = one_panic _ _ _ _ _ _ crash h.tally;
        all_ended = omega (arith, total);
        http_requests = h.http_requests;
        run_requests = counted;
        run_passes = h.run_passes;
        run_failures = h.run_failures;
        run_errors = h.run_errors;
        runnable = others-IsRunnable;
      }

  finish-IsBalanced : (x : Execution) → IsBalanced s (left x (count x t.counters))
  unfolding count
  finish-IsBalanced (responded r) = elim (Bool-cases (r.results.status == "pass")) [
    | inl e ↦ rw e (ended_pass r ((==_iff r.results.status "pass").0 e))
    | inr e ↦
        rw e (ended_fail r (λ same. ground (arith, e, (==_iff r.results.status "pass").1 same)))
  ]
  finish-IsBalanced (refused e) = ended_error (refused e) (refusal e)
  finish-IsBalanced failed = ended_error failed failure
  finish-IsBalanced crashed = ended_panic

-- A step that ends no run.
module _ (s : Server) (t : Traffic) (h : IsBalanced s t) where
  unended :
      (u : Traffic)
      → u.ended ≡ t.ended
      → u.counters.run_passes ≡ t.counters.run_passes
      → u.counters.run_failures ≡ t.counters.run_failures
      → u.counters.run_errors ≡ t.counters.run_errors
      → u.counters.http_requests ≡ u.arrived % modulus
      → u.counters.run_requests
        ≡ (length u.ended + length u.in_flight + u.rejected + u.undecided) % modulus
      → All (IsRunnable s.catalogue) u.in_flight
      → IsBalanced s u
  unended u same p f e http runs_sum runnable = record {
    passes = h.passes;
    failures = h.failures;
    errors = h.errors;
    panics = h.panics;
    tally = subst (λ xs. Tally xs h.passes h.failures h.errors h.panics) (sym same) h.tally;
    all_ended = ap (λ xs. length xs) same ∙ h.all_ended;
    http_requests = http;
    run_requests = runs_sum;
    run_passes = p ∙ h.run_passes;
    run_failures = f ∙ h.run_failures;
    run_errors = e ∙ h.run_errors;
    runnable = runnable;
  }

Step-IsBalanced : (s : Server) (t u : Traffic) → Step s t u → IsBalanced s t → IsBalanced s u
unfolding count_run
Step-IsBalanced s _ _ (Step.arrive t) h =
    unended s t h _ refl refl refl refl (let n = h.http_requests in omega (arith, n)) h.run_requests
      h.runnable
Step-IsBalanced s _ _ (Step.enter t) h =
    unended s t h _ refl refl refl refl h.http_requests (let n = h.run_requests in omega (arith, n))
      h.runnable
Step-IsBalanced s _ _ (Step.reject t others document e waiting refused_by) h =
    unended s t h _ refl refl refl refl h.http_requests
      (let n = h.run_requests in omega (arith, n, waiting)) h.runnable
Step-IsBalanced s _ _ (Step.begin t others document request waiting accepted) h =
    unended s t h _ refl refl refl refl h.http_requests
      (let n = h.run_requests in omega (arith, n, waiting))
      (((accept_iff s.catalogue document request).0 accepted).1, h.runnable)
Step-IsBalanced s _ _ (Step.finish t front back request x flying) h =
    finish-IsBalanced s t front back request flying h x

-- Whatever requests arrive and however the steps of their runs fall between one another, each counter
-- has in 64 bits the number of what it counts: the requests that arrived; the runs that ended, those
-- in flight, those not accepted and those not yet decided on together; and of the runs that ended,
-- those whose results' status is "pass", those of another status, and those that ended in an error,
-- while the rest panicked. Each run in flight is of a runnable task.
pub reachable-IsBalanced : (s : Server) (t : Traffic) → Reachable s t → IsBalanced s t
reachable-IsBalanced s _ Reachable.start = record {
  passes = 0;
  failures = 0;
  errors = 0;
  panics = 0;
  tally = none_yet;
  all_ended = refl;
  http_requests = omega arith;
  run_requests = omega arith;
  run_passes = omega arith;
  run_failures = omega arith;
  run_errors = omega arith;
  runnable = tt;
}
reachable-IsBalanced s _ (Reachable.next t u before step) =
    Step-IsBalanced s t u step (reachable-IsBalanced s t before)

-- A run that the server handles with no other between is two or three steps of the traffic: one that
-- counts it, one that rejects or begins it, and one that finishes what it began, with the counters
-- that the handler leaves.
pub runs-steps :
    (s : Server) (t : Traffic) (document : Document RunRequest)
    → Reachable s t
    → (u : Traffic) × Reachable s u
      × (u.counters ≡ (runs s document t.counters).1)
      × (u.in_flight ≡ t.in_flight)
unfolding runs
runs-steps s t document before =
    let entered : Traffic = record t {
      counters = count_run t.counters;
      undecided = suc t.undecided;
    } in
    let inside : Reachable s entered = Reachable.next t entered before (Step.enter t) in
    elim (Result-cases (accept s.catalogue document)) [
      | inr (e, k) ↦
          let u : Traffic = record entered { undecided = t.undecided; rejected = suc t.rejected } in
          (
            u,
            Reachable.next entered u inside (Step.reject entered t.undecided document e refl k),
            ground (arith, k),
            refl,
          )
      | inl (request, k) ↦
          let begun : Traffic = record entered {
            undecided = t.undecided;
            in_flight = request ∷ t.in_flight;
          } in
          let x = s.executor.run request in
          let u : Traffic = record begun {
            counters = count x begun.counters;
            in_flight = t.in_flight;
            ended = x ∷ t.ended;
          } in
          (
            u,
            Reachable.next begun u
                (Reachable.next entered begun inside
                  (Step.begin entered t.undecided document request refl k))
                (Step.finish begun [] t.in_flight request x refl),
            ground (arith, k),
            refl,
          )
    ]
