-- ===== src/Server/App.antt =====
-- server/src/main.rs: the routes of `app`, and a request that is served to its end by itself.
--
-- The body of a request is what the Json extractor reads from it; a request that has no route, or
-- whose body is not read, is answered by axum.
pub mod Fixture
pub mod Alone
pub mod UnitTests
mod UnitChecks
mod Tests
use agenc_prover.Base.{
  ℕ, Bool, true, false, ◌&&◌, List, [], ◌∷◌, Option, none, some, Text, text, list_eq, if◌then◌else◌,
}
use agenc_prover.Prover.Generate
use agenc_prover.Prover.Generate.{Build, ProveResponse, ProveError}
use agenc_prover.Server.Errors.{StatusCode, Response, into_response}
use agenc_prover.Server.Exposition.{
  Floats, HealthResponse, ReadyResponse, MetricsResponse, healthz, readyz, metrics_page,
}
use agenc_prover.Server.Request.{ProveRequest}
use agenc_prover.Server.Runtime.{AppState, Job, Answer, pending, success, failure, aborted, arrive}
use agenc_prover.Server.Service.{joins, expires, step}
use agenc_prover.Server.Service
use agenc_prover.Server.Threads.{Outcome, returns, panics}

pub data Endpoint : Type 0 where
  healthz_endpoint readyz_endpoint metrics_endpoint prove_endpoint : Endpoint

-- A method, a path and what serves it.
pub record Route : Type 0 where
  pub method : Text
  pub path : Text
  pub endpoint : Endpoint

abbrev pub get_method : Text
get_method = text "GET"

abbrev pub post_method : Text
post_method = text "POST"

-- `app`.
abbrev pub app : List Route
app =
    record { method = get_method; path = text "/healthz"; endpoint = healthz_endpoint }
    ∷ record { method = get_method; path = text "/readyz"; endpoint = readyz_endpoint }
    ∷ record { method = get_method; path = text "/metrics"; endpoint = metrics_endpoint }
    ∷ record { method = post_method; path = text "/prove"; endpoint = prove_endpoint }
    ∷ []

unfoldable pub route_of : List Route → (method path : Text) → Option Endpoint
route_of [] method path = none
route_of (r ∷ rs) method path =
    let rest = route_of rs method path in
    if list_eq r.method method && list_eq r.path path then some r.endpoint else rest

pub record Request : Type 0 where
  pub method : Text
  pub uri : Text
  pub authorization : Option Text
  pub body : Option ProveRequest

-- What is around a request: the clock at the limiter, the prover of the runtime, and whether the
-- time is over before it ends.
pub record World : Type 0 where
  pub now : ℕ
  pub later : ℕ
  pub prove_fn : Generate.ProveRequest → Outcome
  pub late : Bool

pub data Reply : Type 0 where
  health : StatusCode → HealthResponse → Reply
  ready : StatusCode × ReadyResponse → Reply
  page : MetricsResponse → Reply
  proof : StatusCode → ProveResponse → Reply
  error : Response → Reply
  -- axum's own answer, and none after a panic
  unrouted : Reply
  dropped : Reply

unfoldable pub reply_of : Answer → Reply
reply_of pending = dropped
reply_of (success response) = proof 200 response
reply_of (failure e) = error (into_response e)
reply_of aborted = dropped

-- The end of the job's task, with the handler still waiting.
unfoldable pub task_end : ℕ → Outcome → AppState → AppState × Answer
task_end request_id (returns result duration) s =
    step (joins request_id []) (step (Service.returns request_id result duration) s).0
task_end request_id (panics join_error) s =
    step (joins request_id join_error) (step (Service.panics request_id) s).0

-- The wait for the job that the handler has just started.
unfoldable pub waited : World → List Job → AppState → AppState × Answer
waited w [] s = (s, aborted)
waited w (j ∷ js) s =
    let on_time = task_end j.request_id (w.prove_fn j.fixed) s in
    if w.late then step (expires j.request_id) s else on_time

unfoldable pub awaited_answer : World → AppState × Answer → AppState × Answer
awaited_answer w (s, pending) = waited w s.jobs s
awaited_answer w (s, success response) = (s, success response)
awaited_answer w (s, failure e) = (s, failure e)
awaited_answer w (s, aborted) = (s, aborted)

-- POST /prove with nothing else going on.
unfoldable pub prove_alone : World → Option Text → ProveRequest → AppState → AppState × Answer
prove_alone w header request s = awaited_answer w (arrive s header request w.now w.later)

replied : AppState × Answer → AppState × Reply
replied (s, a) = (s, reply_of a)

page_or_panic : Option MetricsResponse → Reply
page_or_panic none = dropped
page_or_panic (some p) = page p

module _ (f : Floats) (version : Text) (build : Build) where
  unfoldable pub serve_at : Option Endpoint → World → Request → AppState → AppState × Reply
  unfolding replied page_or_panic
  serve_at none w q s = (s, unrouted)
  serve_at (some healthz_endpoint) w q s = (s, health 200 healthz)
  serve_at (some readyz_endpoint) w q s = (s, ready (readyz s))
  serve_at (some metrics_endpoint) w q s = (s, page_or_panic (metrics_page f version build s))
  serve_at (some prove_endpoint) w q s = elim q.body [
    | none ↦ (s, unrouted)
    | some request ↦ replied (prove_alone w q.authorization request s)
  ]

  -- `oneshot`: the whole service for one request.
  unfoldable pub oneshot : World → Request → AppState → AppState × Reply
  unfolding serve_at
  oneshot w q s = serve_at (route_of app q.method q.uri) w q s

unfoldable pub status : Reply → Option StatusCode
status (health code body) = some code
status (ready (code, body)) = some code
status (page p) = some p.status
status (proof code response) = some code
status (error r) = some r.status
status unrouted = none
status dropped = none

unfoldable pub retry_after : Reply → Option Text
retry_after (error r) = r.retry_after
retry_after _ = none
