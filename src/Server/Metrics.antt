-- ===== src/Server/Metrics.antt =====
-- The counters of internal/httpapi/server.go while requests are served at the same time: every
-- `Add(1)` is one step, and a request's steps (its arrival, the count of its run, the decision on it,
-- the count of the executor's return) may have those of other requests between them.
pub mod Balance
use fluent_task_runtime.Base.{
  ℕ, suc, ◌+◌, ◌%◌, ◌≡◌, ◌≢◌, refl, sym, ap, ◌∙◌, subst, inl, inr, Bool, true, false, List, [], ◌∷◌,
  ◌++◌, arith, if◌then◌else◌, ◌==◌, ==_iff, string_eq, nat_eq, Bool-cases, ok, err, Result-cases,
  length, length-append, All,
}
use fluent_task_runtime.Documents.{Document}
use fluent_task_runtime.Contracts.{RunRequest, RunResponse}
use fluent_task_runtime.Execution.Running.{ExecutionError}
use fluent_task_runtime.Server.{
  Execution, responded, refused, failed, crashed, Server, Counters, bump,
}
use fluent_task_runtime.Server.Handlers.{Failure, accept, count, count_run, runs}
use fluent_task_runtime.Server.Runs.{IsRunnable, accept_iff}

-- The counters, and what has happened: how many requests have arrived, how many runs are counted and
-- not yet decided on (their bodies are still read), how many were not accepted, the runs that the
-- executor works on, and what it has returned or panicked with, the latest first.
pub record Traffic : Type 0 where
  pub counters : Counters
  pub arrived : ℕ
  pub undecided : ℕ
  pub rejected : ℕ
  pub in_flight : List RunRequest
  pub ended : List Execution

abbrev pub idle : Traffic
idle = record {
  counters = record {
    http_requests = 0;
    run_requests = 0;
    run_passes = 0;
    run_failures = 0;
    run_errors = 0;
  };
  arrived = 0;
  undecided = 0;
  rejected = 0;
  in_flight = [];
  ended = [];
}

abbrev pub counted_http : Counters → Counters
counted_http m = record m { http_requests = bump m.http_requests }

-- A request arrives; a run's handler counts it; the run is not accepted, or it is handed to the
-- executor; the executor ends one of the runs, whatever it returns.
pub data Step (s : Server) : Traffic → Traffic → Type 0 where
  arrive :
      (t : Traffic)
      → Step s t (record t { counters = counted_http t.counters; arrived = suc t.arrived })
  enter :
      (t : Traffic)
      → Step s t (record t { counters = count_run t.counters; undecided = suc t.undecided })
  reject :
      (t : Traffic) (others : ℕ) (document : Document RunRequest) (e : Failure)
      → t.undecided ≡ suc others
      → accept s.catalogue document ≡ err e
      → Step s t (record t { undecided = others; rejected = suc t.rejected })
  begin :
      (t : Traffic) (others : ℕ) (document : Document RunRequest) (request : RunRequest)
      → t.undecided ≡ suc others
      → accept s.catalogue document ≡ ok request
      → Step s t (record t { undecided = others; in_flight = request ∷ t.in_flight })
  finish :
      (t : Traffic) (front back : List RunRequest) (request : RunRequest) (x : Execution)
      → t.in_flight ≡ front ++ request ∷ back
      → Step s t (record t {
        counters = count x t.counters;
        in_flight = front ++ back;
        ended = x ∷ t.ended;
      })

-- What the server can come to from its start.
pub data Reachable (s : Server) : Traffic → Type 0 where
  start : Reachable s idle
  next : (t u : Traffic) → Reachable s t → Step s t u → Reachable s u

-- How a run has ended.
pub data Ending : Type 0 where
  pass fail error panic : Ending

-- An ending of the executor's return.
pub data Ends : Execution → Ending → Type 0 where
  passed : (r : RunResponse) → r.results.status ≡ "pass" → Ends (responded r) pass
  not_passed : (r : RunResponse) → r.results.status ≢ "pass" → Ends (responded r) fail
  refusal : (e : ExecutionError) → Ends (refused e) error
  failure : Ends failed error
  crash : Ends crashed panic

-- How many of them have each ending.
pub data Tally : List Execution → ℕ → ℕ → ℕ → ℕ → Type 0 where
  none_yet : Tally [] 0 0 0 0
  one_pass :
      (x : Execution) (xs : List Execution) (p f e c : ℕ)
      → Ends x pass
      → Tally xs p f e c
      → Tally (x ∷ xs) (suc p) f e c
  one_fail :
      (x : Execution) (xs : List Execution) (p f e c : ℕ)
      → Ends x fail
      → Tally xs p f e c
      → Tally (x ∷ xs) p (suc f) e c
  one_error :
      (x : Execution) (xs : List Execution) (p f e c : ℕ)
      → Ends x error
      → Tally xs p f e c
      → Tally (x ∷ xs) p f (suc e) c
  one_panic :
      (x : Execution) (xs : List Execution) (p f e c : ℕ)
      → Ends x panic
      → Tally xs p f e c
      → Tally (x ∷ xs) p f e (suc c)

abbrev pub modulus : ℕ
modulus = 18446744073709551616

-- Each counter is what it counts, in 64 bits, and only runs of runnable tasks are in flight.
pub record IsBalanced (s : Server) (t : Traffic) : Type 0 where
  pub passes : ℕ
  pub failures : ℕ
  pub errors : ℕ
  pub panics : ℕ
  pub tally : Tally t.ended passes failures errors panics
  pub all_ended : length t.ended ≡ passes + failures + errors + panics
  pub http_requests : t.counters.http_requests ≡ t.arrived % modulus
  pub run_requests :
      t.counters.run_requests
      ≡ (length t.ended + length t.in_flight + t.rejected + t.undecided) % modulus
  pub run_passes : t.counters.run_passes ≡ passes % modulus
  pub run_failures : t.counters.run_failures ≡ failures % modulus
  pub run_errors : t.counters.run_errors ≡ errors % modulus
  pub runnable : All (IsRunnable s.catalogue) t.in_flight
