-- ===== src/Server/Writer/Refinement.antt =====
-- That the statusWriter of internal/httpapi/server.go is an http.ResponseWriter.
use fluent_task_runtime.Base.{
  ℕ, zero, suc, ◌≤◌, ◌≡◌, refl, sym, ap, ◌∙◌, Bool, true, false, not, ◌&&◌, List, [], ◌∷◌, arith,
  if◌then◌else◌, ltb, leb, ◌==◌, string_eq, nat_eq, All,
}
use fluent_task_runtime.Server.{Operation, set_header, write_header, write}
use fluent_task_runtime.Server.Writer.{StatusWriter, perform, perform_all, status_code}

-- Package net/http's informational statuses: what is sent at once and is not the response's status.
unfoldable pub is_informational : ℕ → Bool
is_informational status = leb 100 status && ltb status 200 && not (status == 101)

-- The status that a client of package net/http sees: the first that is written and not informational,
-- or 200 when a body comes first or no such status is written.
unfoldable pub client_status : List Operation → ℕ
client_status [] = 200
client_status (set_header name value ∷ ops) = client_status ops
client_status (write_header status ∷ ops) =
    let later = client_status ops in if is_informational status then later else status
client_status (write body ∷ ops) = 200

-- The calls but for those that write a status.
unfoldable pub without_status : List Operation → List Operation
without_status [] = []
without_status (write_header status ∷ ops) = without_status ops
without_status (op ∷ ops) = op ∷ without_status ops

unfoldable pub count_statuses : List Operation → ℕ
count_statuses [] = 0
count_statuses (write_header status ∷ ops) = suc (count_statuses ops)
count_statuses (_ ∷ ops) = count_statuses ops

-- A status that is not informational; net/http panics at one below 100.
abbrev pub IsFinal : Operation → Type 0
IsFinal (write_header status) = (100 ≤ status) × (is_informational status ≡ false)
IsFinal _ = Unit

-- What the wrapped writer has been called with.
pub record IsRefinement (ops sent : List Operation) (w : StatusWriter) : Type 0 where
  pub once : count_statuses sent ≤ 1
  pub same_calls : without_status sent ≡ without_status ops
  pub same_status : client_status sent ≡ client_status ops
  pub known : status_code w ≡ client_status ops

abbrev opened : ℕ → StatusWriter
opened status = record { status = status }

is_status : (n : ℕ) → (suc n == 0) ≡ false
is_status n = ground arith

no_status : ◌==◌ {A = ℕ} 0 0 ≡ true
no_status = ground arith

ok_is_final : is_informational 200 ≡ false
unfolding is_informational nat_eq
ok_is_final = refl

client_status-final :
    (n : ℕ) (ops : List Operation)
    → is_informational n ≡ false
    → client_status (write_header n ∷ ops) ≡ n
unfolding client_status
client_status-final n ops h = rw h refl

-- Once a status is known, no other is written, and all else passes.
perform_all-opened :
    (ops : List Operation) (n : ℕ)
    → ((perform_all ops (opened (suc n))).1 ≡ opened (suc n))
      × (without_status ((perform_all ops (opened (suc n))).0) ≡ without_status ops)
      × (count_statuses ((perform_all ops (opened (suc n))).0) ≡ 0)
unfolding perform_all perform without_status count_statuses
perform_all-opened [] n = (refl, refl, refl)
perform_all-opened (set_header name value ∷ ops) n =
    let (stays, calls, none_more) = perform_all-opened ops n in
    (stays, ap (λ xs. set_header name value ∷ xs) calls, none_more)
perform_all-opened (write_header status ∷ ops) n = rw (is_status n) (perform_all-opened ops n)
perform_all-opened (write body ∷ ops) n =
    let (stays, calls, none_more) = perform_all-opened ops n in
    rw (is_status n) (stays, ap (λ xs. write body ∷ xs) calls, none_more)

-- Whatever is called on a statusWriter, as long as no status below 100 and no informational status is
-- written, the wrapped writer is called with the same headers and bodies in their order and with one status at most, a client
-- sees the status that it would see without the wrapper, and statusCode tells that status.
pub perform_all-IsRefinement :
    (ops : List Operation)
    → All IsFinal ops
    → IsRefinement ops ((perform_all ops (opened 0)).0) ((perform_all ops (opened 0)).1)
unfolding perform_all perform without_status count_statuses client_status
perform_all-IsRefinement [] h = record {
  once = omega arith;
  same_calls = refl;
  same_status = refl;
  known = rw no_status refl;
}
perform_all-IsRefinement (set_header name value ∷ ops) (_, h) =
    let r = perform_all-IsRefinement ops h in
    record {
      once = r.once;
      same_calls = ap (λ xs. set_header name value ∷ xs) r.same_calls;
      same_status = r.same_status;
      known = r.known;
    }
perform_all-IsRefinement (write_header zero ∷ ops) ((low, _), h) = absurd (omega (arith, low))
perform_all-IsRefinement (write_header (suc n) ∷ ops) ((_, final), h) =
    let (stays, calls, none_more) = perform_all-opened ops n in
    let first = λ (rest : List Operation). client_status-final (suc n) rest final in
    let told : status_code (opened (suc n)) ≡ suc n = rw (is_status n) refl in
    rw no_status (record {
      once = omega (arith, none_more);
      same_calls = calls;
      same_status = first ((perform_all ops (opened (suc n))).0) ∙ sym (first ops);
      known = ap status_code stays ∙ told ∙ sym (first ops);
    })
perform_all-IsRefinement (write body ∷ ops) (_, h) =
    let (stays, calls, none_more) = perform_all-opened ops 199 in
    let told : status_code (opened 200) ≡ 200 = rw (is_status 199) refl in
    rw no_status (record {
      once = omega (arith, none_more);
      same_calls = ap (λ xs. write body ∷ xs) calls;
      same_status =
          client_status-final 200 (write body ∷ (perform_all ops (opened 200)).0) ok_is_final;
      known = ap status_code stays ∙ told;
    })
