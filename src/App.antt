-- ===== src/App.antt =====
-- src/collectmind/app.py: the composition of the application. A request goes through the rate
-- limiter, the metrics middleware and the handler of its route, in this order.
pub mod Layers
mod Examples
use snts_collectmind.Prelude.{
  ℕ, ◌/◌, Bool, true, false, not, ◌&&◌, Option, none, some, List, [], ◌∷◌, ◌++◌, String, Text,
  codes, map, lower_char, text_eq, if◌then◌else◌, ◌⊎◌, inl, inr,
}
use snts_collectmind.Errors.{CollectMindError}
use snts_collectmind.Routes.{normalize_route, is_query_route}
use snts_collectmind.Registry.TenantConfig.{ConfigRow}
use snts_collectmind.RateLimit.Middleware
use snts_collectmind.RateLimit.Middleware.{
  RedisOps, Request, Outcome, passed, missing_token, invalid_token, raised, unavailable, limited,
  Limiter,
}

-- What a layer gives back: the status of a response, or an exception that goes on up.
pub data Reply : Type 0 where
  response : ℕ → Reply
  exception : Reply

-- What a handler comes to; a typed error is caught right outside of it.
pub data Handled : Type 0 where
  answered : ℕ → Handled
  typed_error : CollectMindError → Handled
  other_error : Handled

-- collectmind_error_handler
abbrev pub collectmind_error_handler : Handled → Reply
collectmind_error_handler (answered status) = response status
collectmind_error_handler (typed_error e) = response e.status
collectmind_error_handler other_error = exception

-- The labels of http_request_total and of query_request_latency_seconds: the route, and the
-- hundreds of the status.
pub record Labels : Type 0 where
  pub route : Text
  pub status_class : ℕ

pub record Counters : Type 0 where
  pub http_request_total : List Labels
  pub query_request_latency_seconds : List Labels

unfoldable pub labels_of : Request → ℕ → Labels
labels_of request status = record {
  route = normalize_route request.method request.path;
  status_class = status / 100;
}

unfoldable pub count : Labels → Counters → Counters
count l c = record {
  http_request_total = c.http_request_total ++ (l ∷ []);
  query_request_latency_seconds =
      if is_query_route l.route
      then c.query_request_latency_seconds ++ (l ∷ [])
      else c.query_request_latency_seconds;
}

module _ (redis : RedisOps) {S : Type 0} (handle : Request → S → Handled × S) where
  -- app.state, with what the lifespan has put there: without Redis and the configuration repository
  -- no middleware is made. The handlers work on `domain`.
  pub record AppState : Type 0 where
    pub ratelimit_disabled : Bool
    pub wired : Bool
    pub ratelimit_middleware : Bool
    pub limiter : Limiter redis
    pub counters : Counters
    pub domain : S

  abbrev pub routed : Request → AppState → Reply × AppState
  routed request s =
      let (h, after) = handle request s.domain in
      (collectmind_error_handler h, record s { domain = after })

  abbrev pub counted : Request → Reply × AppState → Reply × AppState
  counted request (exception, s) = (exception, s)
  counted request (response status, s) =
      (response status, record s { counters = count (labels_of request status) s.counters })

  -- _MetricsMiddleware.dispatch; the elapsed time is left out.
  unfoldable pub metrics_dispatch : Request → AppState → Reply × AppState
  unfolding labels_of count
  metrics_dispatch request s = counted request (routed request s)

  -- The first request makes the middleware, whose script is not loaded yet.
  abbrev pub with_middleware : AppState → AppState
  with_middleware s =
      if s.ratelimit_middleware
      then s
      else record s { ratelimit_middleware = true; limiter = record s.limiter { lua_sha = none } }

  -- The response of RateLimitMiddleware.dispatch, where `passed` is the answer of the next layer.
  abbrev pub limited_reply : Outcome → Request → AppState → Reply × AppState
  limited_reply passed request s = metrics_dispatch request s
  limited_reply missing_token request s = (response 401, s)
  limited_reply invalid_token request s = (response 401, s)
  limited_reply unavailable request s = (response 503, s)
  limited_reply (limited seconds) request s = (response 429, s)
  limited_reply raised request s = (exception, s)

  -- _ratelimit_dispatch
  unfoldable pub ratelimit_dispatch :
      (Text → Option String)
      → ℕ
      → ℕ
      → Option (Option ConfigRow)
      → Request
      → AppState
      → Reply × AppState
  unfolding metrics_dispatch
  ratelimit_dispatch verify now now_ms row request s =
      if s.ratelimit_disabled
      then metrics_dispatch request s
      else if not s.ratelimit_middleware && not s.wired
      then metrics_dispatch request s
      else let made = with_middleware s in
        let (outcome, m) = Middleware.dispatch redis verify now now_ms row request made.limiter in
        limited_reply outcome request (record made { limiter = m })

-- What a ping comes to, gathered with return_exceptions.
pub data Ping : Type 0 where
  pong : Bool → Ping
  ping_raised : Ping

-- ... is True
abbrev pub is_up : Ping → Bool
is_up (pong b) = b
is_up ping_raised = false

pub record ReadyBody : Type 0 where
  pub ready : Bool
  pub postgres : String
  pub redis : String
  pub kafka : String

abbrev pub state_text : Bool → String
state_text b = if b then "ok" else "not_ready"

unfoldable pub ready : Ping → Ping → Bool → ℕ × ReadyBody
ready db_ok redis_ok kafka_ready =
    let db_ready = is_up db_ok in
    let redis_ready = is_up redis_ok in
    let all_ready = db_ready && (redis_ready && kafka_ready) in
    (
      if all_ready then 200 else 503,
      record {
        ready = all_ready;
        postgres = state_text db_ready;
        redis = state_text redis_ready;
        kafka = state_text kafka_ready;
      },
    )

pub data PolicyClient : Type 0 where
  vllm llama_cpp fingerprint_stub dev_default : PolicyClient

-- os.environ.get(name, default).lower(); letters outside of ASCII make no difference to the names
-- that it is compared with.
abbrev pub env_lower : Option Text → Text → Text
env_lower none default = map lower_char default
env_lower (some v) default = map lower_char v

-- _select_policy_client, from SLM_PROFILE and COLLECTMIND_ENV; none is the RuntimeError.
unfoldable pub select_policy_client : Option Text → Option Text → Option PolicyClient
select_policy_client slm_profile collectmind_env =
    let profile = env_lower slm_profile (codes "dev_default") in
    let env = env_lower collectmind_env (codes "local") in
    if text_eq profile (codes "vllm")
    then some vllm
    else if text_eq profile (codes "cpu")
    then some llama_cpp
    else if text_eq profile (codes "llama_cpp")
    then some llama_cpp
    else if text_eq profile (codes "stub")
    then some fingerprint_stub
    else if not (text_eq env (codes "local"))
    then none
    else some dev_default
