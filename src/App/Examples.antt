-- ===== src/App/Examples.antt =====
-- The layers at a concrete request: a query of a tenant whose bucket has tokens left.
use snts_collectmind.Prelude.{
  ℕ, suc, true, false, Option, none, some, [], String, Text, codes, text_eq, starts_with, ◌≡◌, refl,
  ◌⊎◌, if◌then◌else◌,
}
use snts_collectmind.RateLimit.Paths.{is_exempt}
use snts_collectmind.RateLimit.Middleware.{RedisOps, Request, replied}
use snts_collectmind.RateLimit.Middleware.Spec.{Verified, Granted}
use snts_collectmind.App.{AppState, Handled, answered, ratelimit_dispatch}
use snts_collectmind.App.Layers.{Handed, Refused, made_limiter, handled_only_if_Granted}

abbrev granting : RedisOps
granting = record {
  State = ℕ;
  script_load = λ s. (some (codes "3a1f"), s);
  evalsha = λ sha key now rps burst s.
      (replied (record { allowed = true; remaining = 3; retry_after_ms = 0 }), s);
}

-- A handler that counts its calls.
abbrev count_calls : Request → ℕ → Handled × ℕ
count_calls request n = (answered 200, suc n)

abbrev a_request : Request
a_request = record {
  method = codes "GET";
  path = codes "/api/v1/audit/c1";
  authorization = codes "Bearer t0";
}

abbrev verify : Text → Option String
verify token = if text_eq token (codes "t0") then some "acme" else none

abbrev an_app : AppState granting count_calls
an_app = record {
  ratelimit_disabled = false;
  wired = true;
  ratelimit_middleware = false;
  limiter = record {
    lua_sha = none;
    cache = record { ttl = 60; capacity = 10; entries = [] };
    store = 0;
    metrics = [];
  };
  counters = record { http_request_total = []; query_request_latency_seconds = [] };
  domain = 0;
}

limited_path : is_exempt a_request.path ≡ false
unfolding is_exempt starts_with text_eq
limited_path = refl

handled_only_if_Granted_example :
    ((tenant_id : String) × Verified granting 7 1500
        (some none)
        a_request
        (made_limiter granting count_calls an_app)
        verify
        limited_path
        tenant_id
      × Granted granting 7 1500
          (some none)
          a_request
          (made_limiter granting count_calls an_app)
          tenant_id
      × Handed granting count_calls a_request an_app
          (ratelimit_dispatch granting count_calls verify 7 1500 (some none) a_request an_app))
    ⊎ Refused granting count_calls an_app
        (ratelimit_dispatch granting count_calls verify 7 1500 (some none) a_request an_app)
handled_only_if_Granted_example =
    handled_only_if_Granted granting count_calls verify 7 1500 (some none) a_request an_app refl
      refl limited_path
