-- ===== src/RateLimit/Middleware.antt =====
-- src/collectmind/ratelimit/middleware.py: RateLimitMiddleware.dispatch. A request is handled to
-- its end before the next; what other requests do meanwhile is in the Redis that it meets.
pub mod Spec
pub mod Restart
pub mod RetryAfter
use snts_collectmind.Prelude.{
  ℕ, ◌+◌, ◌/◌, max, Bool, true, false, Option, none, some, List, [], ◌∷◌, ◌++◌, String, Text, codes,
  starts_with, strip, drop, map, lower_char, nat_eq, if◌then◌else◌,
}
use snts_collectmind.Registry.TenantConfig.{
  RateLimitBucket, TenantConfig, ConfigRow, TtlCache, get_for_tenant,
}
use snts_collectmind.RateLimit.TokenBucket.{Reply}
use snts_collectmind.RateLimit.Paths.{
  BucketKind, inbound, query, is_exempt, bucket_for_path, normalize_endpoint_label, bucket_key,
}

-- What an EVALSHA comes back with. `no_script` is an error whose text names NOSCRIPT.
pub data Eval : Type 0 where
  replied : Reply → Eval
  no_script : Eval
  failed : Eval

-- The Redis client: SCRIPT LOAD gives the script's SHA or raises.
pub record RedisOps : Type 1 where
  pub State : Type 0
  pub script_load : State → Option Text × State
  pub evalsha : Text → Text → ℕ → ℕ → ℕ → State → Eval × State

pub record Request : Type 0 where
  pub method : Text
  pub path : Text
  pub authorization : Text

pub data Metric : Type 0 where
  decision : String → Text → Bool → Metric
  throttled : String → Text → Metric
  redis_unavailable : Text → Metric

-- `passed` hands the request on; `raised` is a read of the configuration that raises (a 500).
pub data Outcome : Type 0 where
  passed missing_token invalid_token raised unavailable : Outcome
  limited : ℕ → Outcome

unfoldable pub retry_after_seconds : ℕ → ℕ
retry_after_seconds retry_after_ms = max 1 ((retry_after_ms + 999) / 1000)

unfoldable pub limits : BucketKind → TenantConfig → RateLimitBucket
limits inbound config = config.inbound
limits query config = config.query

-- auth_header.lower().startswith("bearer "), then auth_header[7:].strip()
unfoldable pub bearer_token : Text → Option Text
unfolding starts_with strip
bearer_token header =
    if starts_with (codes "bearer ") (map lower_char header)
    then some (strip (drop 7 header))
    else none

module _ (redis : RedisOps) where
  open redis use {State, script_load, evalsha}

  pub record Limiter : Type 0 where
    pub lua_sha : Option Text
    pub cache : TtlCache
    pub store : State
    pub metrics : List Metric

  -- The arguments of one EVALSHA: key, now_ms, sustained and burst.
  pub record Call : Type 0 where
    pub key : Text
    pub now_ms : ℕ
    pub sustained : ℕ
    pub burst : ℕ

  -- The SHA that is cached on the middleware and the store, after `_ensure_lua_loaded`.
  pub record Loaded : Type 0 where
    pub sha : Option Text
    pub store : State

  unfoldable pub ensure_lua_loaded : Option Text → State → Loaded
  ensure_lua_loaded (some sha) s = record { sha = some sha; store = s }
  ensure_lua_loaded none s = let (sha, s') = script_load s in record { sha = sha; store = s' }

  -- What the `try` block leaves: a reply, or `none` where it raises.
  pub record Tried : Type 0 where
    pub reply : Option Reply
    pub sha : Option Text
    pub store : State

  unfoldable pub eval_again : Call → Loaded → Tried
  eval_again c l = elim l.sha [
    | none ↦ record { reply = none; sha = none; store = l.store }
    | some sha ↦
        let (r, s) = evalsha sha c.key c.now_ms c.sustained c.burst l.store in
        elim r [
          | replied reply ↦ record { reply = some reply; sha = some sha; store = s }
          | _ ↦ record { reply = none; sha = some sha; store = s }
        ]
  ]

  -- NOSCRIPT: the cached SHA is dropped, the script loaded again, and the call made once more.
  unfoldable pub eval_once : Call → Loaded → Tried
  unfolding eval_again ensure_lua_loaded
  eval_once c l = elim l.sha [
    | none ↦ record { reply = none; sha = none; store = l.store }
    | some sha ↦
        let (r, s) = evalsha sha c.key c.now_ms c.sustained c.burst l.store in
        elim r [
          | replied reply ↦ record { reply = some reply; sha = some sha; store = s }
          | no_script ↦ eval_again c (ensure_lua_loaded none s)
          | failed ↦ record { reply = none; sha = some sha; store = s }
        ]
  ]

  unfoldable pub try_call : Call → Limiter → Tried
  unfolding eval_once ensure_lua_loaded
  try_call c m = eval_once c (ensure_lua_loaded m.lua_sha m.store)

  -- The three branches.
  unfoldable pub decide : String → Text → Tried → Limiter → Outcome × Limiter
  decide tenant_id label t m =
      let m' = record m { lua_sha = t.sha; store = t.store } in
      elim t.reply [
        | none ↦ (unavailable, record m' { metrics = m.metrics ++ redis_unavailable label ∷ [] })
        | some r ↦
            if r.allowed
            then (passed, record m' { metrics = m.metrics ++ decision tenant_id label true ∷ [] })
            else (
              limited (retry_after_seconds r.retry_after_ms),
              record m' {
                metrics =
                    m.metrics ++ decision tenant_id label false ∷ throttled tenant_id label ∷ [];
              },
            )
      ]

  unfoldable pub call_for : ℕ → String → BucketKind → TenantConfig → Call
  call_for now_ms tenant_id kind config = record {
    key = bucket_key tenant_id kind;
    now_ms = now_ms;
    sustained = (limits kind config).sustained_rps;
    burst = (limits kind config).burst_capacity;
  }

  -- An authenticated request of a limited path. `row` is what Postgres would answer.
  unfoldable pub limit :
      ℕ → ℕ → Option (Option ConfigRow) → String → Request → Limiter → Outcome × Limiter
  unfolding try_call call_for decide
  limit now now_ms row tenant_id request m =
      let (config, cache) = get_for_tenant now tenant_id row m.cache in
      let m' = record m { cache = cache } in
      elim config [
        | none ↦ (raised, m')
        | some c ↦
            decide tenant_id (normalize_endpoint_label request.method request.path)
              (try_call (call_for now_ms tenant_id (bucket_for_path request.path) c) m') m'
      ]

  -- `verify` gives the tenant of a token that verifies, and `none` where it raises.
  unfoldable pub dispatch :
      (Text → Option String)
      → ℕ
      → ℕ
      → Option (Option ConfigRow)
      → Request
      → Limiter
      → Outcome × Limiter
  unfolding limit bearer_token
  dispatch verify now now_ms row request m =
      if is_exempt request.path then (passed, m) else elim (bearer_token request.authorization) [
        | none ↦ (missing_token, m)
        | some token ↦ elim (verify token) [
          | none ↦ (invalid_token, m)
          | some tenant_id ↦ limit now now_ms row tenant_id request m
        ]
      ]
