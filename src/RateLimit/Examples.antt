-- ===== src/RateLimit/Examples.antt =====
-- The rate limiter at concrete inputs: a bucket of four tokens, and a Redis that holds one bucket.
use snts_collectmind.Prelude.{
  ℕ, ◌+◌, ◌-◌, ◌*◌, ◌<◌, ◌≤◌, Bool, true, false, Option, none, some, [], ◌∷◌, Text, codes, String,
  text_eq, starts_with, strip, strip_left, if◌then◌else◌, ◌≡◌, refl, ap, inr, arith,
}
use snts_collectmind.Prelude.Dict.{lookup, insert}
use snts_collectmind.Registry.TenantConfig.{
  get_for_tenant, get, read_through, stored, put, evict, effective, default_config,
}
use snts_collectmind.RateLimit.TokenBucket.{
  Bucket, load, refilled, refill, retry_hint, spend, token_bucket, grants,
}
use snts_collectmind.RateLimit.TokenBucket.Bounds.{IsValid, token_bucket-IsValid}
use snts_collectmind.RateLimit.TokenBucket.Rate.{grants-lt-rate}
use snts_collectmind.RateLimit.TokenBucket.Drift.{burst_of, unbounded_in_one_millisecond}
use snts_collectmind.RateLimit.Paths.{is_exempt, bucket_for_path}
use snts_collectmind.RateLimit.Middleware.{
  RedisOps, Eval, replied, no_script, Request, passed, Limiter, Call, try_call, eval_once,
  eval_again, ensure_lua_loaded, dispatch, limit, decide, call_for, limits, bearer_token,
  retry_after_seconds,
}
use snts_collectmind.RateLimit.Middleware.Spec.{Verified, Granted, passed_only_if_Granted}
use snts_collectmind.RateLimit.Middleware.Restart.{KeepsScripts, restart_is_invisible}
use snts_collectmind.RateLimit.Middleware.RetryAfter.{retry_after_honoured}

abbrev half_full : Bucket
half_full = record { tokens = 2; last_refill_ms = 1000 }

abbrev empty_bucket : Bucket
empty_bucket = record { tokens = 0; last_refill_ms = 1000 }

half_full-IsValid : IsValid 1000 4 half_full
half_full-IsValid = record { within = omega arith; past = omega arith }

token_bucket-IsValid_example : IsValid 1500 4 (token_bucket 1500 2 4 (some half_full)).0.bucket
token_bucket-IsValid_example =
    token_bucket-IsValid 1500 2 4 (omega arith) (some half_full)
      (record { within = omega arith; past = omega arith })

grants-lt-rate_example :
    1000 * (grants 2 4 (some half_full) (1000 ∷ 1200 ∷ 2000 ∷ [])).1
    < 1000 * (4 + 1) + (2000 - 1000) * 2
grants-lt-rate_example =
    grants-lt-rate 2 4 (omega arith) (inr (500, refl)) 1000 2000 (some half_full)
      (1000 ∷ 1200 ∷ 2000 ∷ []) half_full-IsValid
      (omega arith, (omega arith, (omega arith, omega arith)))

unbounded_in_one_millisecond_example : (grants 1500 4 (some half_full) (burst_of 100 1001)).1 ≡ 100
unbounded_in_one_millisecond_example =
    unbounded_in_one_millisecond 1500 4 (omega arith) (λ h. absurd (omega (arith, h))) (omega arith)
      100 half_full

wait_is_over :
    1000 + 1000 * retry_after_seconds (token_bucket 1000 2 4 (some empty_bucket)).1.retry_after_ms
    ≤ 3000
unfolding retry_after_seconds token_bucket spend refill refilled load retry_hint
wait_is_over = omega arith

retry_after_honoured_example :
    (token_bucket 3000 2 4 (some (token_bucket 1000 2 4 (some empty_bucket)).0.bucket)).1.allowed
    ≡ true
retry_after_honoured_example =
    retry_after_honoured 1000 3000 2 4 (some empty_bucket) (omega arith) (omega arith)
      (record { within = omega arith; past = omega arith }) wait_is_over

abbrev acme : String
acme = "acme"

-- A Redis with one bucket, which knows the script once it is loaded.
abbrev evalsha : Text → Text → ℕ → ℕ → ℕ → Bool × Option Bucket → Eval × (Bool × Option Bucket)
evalsha sha key now rps burst (false, b) = (no_script, (false, b))
evalsha sha key now rps burst (true, b) =
    let r = token_bucket now rps burst b in (replied r.1, (true, some r.0.bucket))

abbrev one_bucket : RedisOps
one_bucket = record {
  State = Bool × Option Bucket;
  script_load = λ s. (some (codes "3a1f"), (true, s.1));
  evalsha = evalsha;
}

no_script_keeps :
    (sha key : Text) (now rps burst : ℕ) (s : Bool × Option Bucket)
    → (evalsha sha key now rps burst s).0 ≡ no_script
    → (evalsha sha key now rps burst s).1 ≡ s
no_script_keeps sha key now rps burst (false, b) h = refl
no_script_keeps sha key now rps burst (true, b) h = absurd (ground arith)

one_bucket-KeepsScripts : KeepsScripts one_bucket
one_bucket-KeepsScripts = record {
  no_script_keeps = no_script_keeps;
  loaded_known = λ sha key now rps burst s h k. absurd (ground arith);
}

abbrev restarted : Limiter one_bucket
restarted = record {
  lua_sha = some (codes "3a1f");
  cache = record { ttl = 60; capacity = 10; entries = [] };
  store = (false, some half_full);
  metrics = [];
}

abbrev a_call : Call one_bucket
a_call = record { key = codes "ratelimit:acme:query"; now_ms = 1500; sustained = 2; burst = 4 }

restart_is_invisible_example :
    try_call one_bucket a_call restarted
    ≡ try_call one_bucket a_call (record restarted { lua_sha = none })
restart_is_invisible_example =
    restart_is_invisible one_bucket one_bucket-KeepsScripts a_call restarted (codes "3a1f") refl
      refl

abbrev a_request : Request
a_request = record {
  method = codes "GET";
  path = codes "/api/v1/audit/c1";
  authorization = codes "Bearer t0";
}

abbrev verify : Text → Option String
verify token = if text_eq token (codes "t0") then some "acme" else none

limited_path : is_exempt a_request.path ≡ false
unfolding is_exempt starts_with text_eq
limited_path = refl

acme-Verified :
    Verified one_bucket 7 1500 (some none) a_request restarted verify limited_path "acme"
unfolding bearer_token strip strip_left starts_with text_eq
acme-Verified = (codes "t0", refl, refl)

passes : (dispatch one_bucket verify 7 1500 (some none) a_request restarted).0 ≡ passed
unfolding dispatch bearer_token strip strip_left starts_with text_eq limit call_for decide try_call
    eval_once eval_again ensure_lua_loaded is_exempt get_for_tenant get lookup insert read_through
    stored put evict effective default_config limits token_bucket spend refill refilled load
    bucket_for_path
passes = refl

passed_only_if_Granted_example :
    (tenant_id : String) × Verified one_bucket 7 1500
      (some none)
      a_request
      restarted
      verify
      limited_path
      tenant_id
    × Granted one_bucket 7 1500 (some none) a_request restarted tenant_id
passed_only_if_Granted_example =
    passed_only_if_Granted one_bucket 7 1500 (some none) a_request restarted verify limited_path
      passes

abbrev stranger : Request
stranger = record a_request { authorization = codes "Bearer x9" }

abbrev verified : Option Text → Option String
verified none = none
verified (some token) = verify token

none_verifies :
    (tenant_id : String)
    → ¬ Verified one_bucket 7 1500 (some none) stranger restarted verify limited_path tenant_id
unfolding bearer_token strip strip_left starts_with text_eq
none_verifies tenant_id (token, p, q) = absurd (ground (arith, ap verified p, q))
