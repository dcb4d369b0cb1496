-- ===== src/Server/Writer.antt =====
-- statusWriter and requestLog of internal/httpapi/server.go.
pub mod Refinement
use fluent_task_runtime.Base.{
  ℕ, zero, suc, ◌+◌, ◌-◌, ◌*◌, ◌/◌, ◌%◌, ◌≤◌, ◌<◌, Char, code, String, ◌<>◌, ◌≡◌, refl, sym, ap,
  ap₂, ◌∙◌, subst, ◌≢◌, ◌↔◌, ◌⊎◌, inl, inr, Bool, true, false, not, ◌&&◌, ◌||◌, Option, none, some,
  List, [], ◌∷◌, ◌++◌, map, arith, if◌then◌else◌, ltb, leb, Eq, ◌==◌, ==_iff, string_eq, nat_eq,
  Bool-cases, and-eq-true, ne_of_test, Result, ok, ok_unique, err, ◌>>=◌, ◌>>◌, guard, refuse,
  expect, is_found, wrap, >>=-eq-ok, guard-eq-ok, refuse-eq-ok, wrap-eq-ok, expect-eq-ok,
  Option-cases, Result-cases, Refused, Refused-bind, Refused-guard, Refused-refuse, Refused-expect,
  Refused-wrap, Refused-err, length, is_empty, all, length-append, All, All-append, All-mem,
  All-map, All-zip, Distinct, contains, contains-mem, mem_of_contains, Memᴰ, Perm, perm_of_Distinct,
  Distinct-of_map, contains-eq-false_iff, Fresh, Fresh-nil, Fresh-cons, Fresh-snoc,
}
use fluent_task_runtime.Server.{
  Body, Operation, set_header, write_header, write, Server, Route, bump, Counters, Reply, answered,
  crashed,
}
use fluent_task_runtime.Server.Handlers.{serve}

pub record StatusWriter : Type 0 where
  pub status : ℕ

-- WriteHeader: what is called on the wrapped writer, and what is known behind it.
abbrev pub send_status : ℕ → StatusWriter → List Operation × StatusWriter
send_status status w =
    if not (w.status == 0)
    then ([], w)
    else (write_header status ∷ [], record w { status = status })

-- Write
abbrev pub send_body : Body → StatusWriter → List Operation × StatusWriter
send_body body w =
    let (first, opened) = send_status 200 w in
    if w.status == 0 then (first ++ write body ∷ [], opened) else (write body ∷ [], w)

-- A call; the headers are those of the wrapped writer.
unfoldable pub perform : Operation → StatusWriter → List Operation × StatusWriter
perform (set_header name value) w = (set_header name value ∷ [], w)
perform (write_header status) w = send_status status w
perform (write body) w = send_body body w

unfoldable pub perform_all : List Operation → StatusWriter → List Operation × StatusWriter
perform_all [] w = ([], w)
perform_all (op ∷ ops) w =
    let (sent, next) = perform op w in
    let (later, last) = perform_all ops next in (sent ++ later, last)

abbrev pub status_code : StatusWriter → ℕ
status_code w = if w.status == 0 then 200 else w.status

-- A request's header, and where the mux sends it: to a handler, or to an answer of its own.
pub data Routed : Type 0 where
  to : Route → Routed
  elsewhere : List Operation → Routed

pub record HttpRequest : Type 0 where
  pub request_id : String
  pub routed : Routed

abbrev route_of : Server → Routed → Counters → Reply × Counters
route_of s (to route) m = serve s route m
route_of s (elsewhere ops) m = (answered ops, m)

-- What is called on the connection's writer, and the status that the span is given; a handler that
-- panics leaves neither.
pub data Logged : Type 0 where
  logged : List Operation → ℕ → Logged
  lost : Logged

abbrev request_id_of : String → String
request_id_of id = if id == "" then "runtime-local" else id

abbrev log_reply : String → Reply → Logged
log_reply id crashed = lost
log_reply id (answered ops) =
    let (sent, w) = perform_all ops (record { status = 0 }) in
    logged (set_header "x-request-id" (request_id_of id) ∷ sent) (status_code w)

-- requestLog
unfoldable pub request_log : Server → HttpRequest → Counters → Logged × Counters
request_log s request m =
    let counted = record m { http_requests = bump m.http_requests } in
    let (reply, left) = route_of s request.routed counted in
    (log_reply request.request_id reply, left)
