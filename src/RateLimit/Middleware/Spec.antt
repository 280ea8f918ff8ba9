-- ===== src/RateLimit/Middleware/Spec.antt =====
-- What a request's outcome says: failure-closed passing, and the counters of each branch.
use snts_collectmind.Prelude.{
  ℕ, true, false, Option, some, List, [], ◌∷◌, ◌++◌, String, Text, ◌≡◌, refl, ◌⊎◌, inl, inr, arith,
  Option-cases, ap,
}
use snts_collectmind.Registry.TenantConfig.{TenantConfig, ConfigRow, get_for_tenant}
use snts_collectmind.RateLimit.TokenBucket.{Reply}
use snts_collectmind.RateLimit.Paths.{is_exempt, bucket_for_path, normalize_endpoint_label}
use snts_collectmind.RateLimit.Middleware.{
  RedisOps, Request, Metric, decision, throttled, redis_unavailable, Outcome, passed, missing_token,
  invalid_token, unavailable, limited, Limiter, Tried, bearer_token, try_call, call_for, decide,
  limit, dispatch,
}

-- The counters that move with an outcome.
abbrev pub reported : String → Text → Outcome → List Metric
reported tenant_id label passed = decision tenant_id label true ∷ []
reported tenant_id label (limited s) =
    decision tenant_id label false ∷ throttled tenant_id label ∷ []
reported tenant_id label unavailable = redis_unavailable label ∷ []
reported tenant_id label _ = []

append_nil : (xs : List Metric) → xs ≡ xs ++ []
append_nil [] = refl
append_nil (x ∷ xs) = ap (λ (t : List Metric). x ∷ t) (append_nil xs)

module _ (redis : RedisOps) where
  decide-reported :
      (tenant_id : String) (label : Text) (t : Tried redis) (m : Limiter redis)
      → (decide redis tenant_id label t m).1.metrics
        ≡ m.metrics ++ reported tenant_id label (decide redis tenant_id label t m).0
  unfolding decide
  decide-reported tenant_id label t m = ground arith

  decide_passed :
      (tenant_id : String) (label : Text) (t : Tried redis) (m : Limiter redis)
      → (decide redis tenant_id label t m).0 ≡ passed
      → (r : Reply) × (t.reply ≡ some r) × (r.allowed ≡ true)
  unfolding decide
  decide_passed tenant_id label t m h = elim (Option-cases t.reply) [
    | inl e ↦ absurd (ground arith)
    | inr (r, e) ↦ (r, e, ground arith)
  ]

  module _ (now now_ms : ℕ) (row : Option (Option ConfigRow)) (request : Request)
      (m : Limiter redis) where
    abbrev label : Text
    label = normalize_endpoint_label request.method request.path

    limit-reported :
        (tenant_id : String)
        → (limit redis now now_ms row tenant_id request m).1.metrics
          ≡ m.metrics ++ reported tenant_id label (limit redis now now_ms row tenant_id request m).0
    unfolding limit
    limit-reported tenant_id = elim (Option-cases (get_for_tenant now tenant_id row m.cache).0) [
      | inl e ↦ rw (e, limit) (append_nil m.metrics)
      | inr (c, e) ↦
          rw (e, limit)
            (decide-reported tenant_id label _
              (record m { cache = (get_for_tenant now tenant_id row m.cache).1 }))
    ]

    -- The limiter's answer for the tenant and the bucket of this request, under its configuration.
    abbrev pub Granted : String → Type 0
    Granted tenant_id =
        (config : TenantConfig) × (r : Reply) × ((get_for_tenant now tenant_id row m.cache).0
          ≡ some config)
        × ((try_call redis (call_for redis now_ms tenant_id (bucket_for_path request.path) config)
              (record m { cache = (get_for_tenant now tenant_id row m.cache).1 })).reply
            ≡ some r)
        × (r.allowed ≡ true)

    limit_passed :
        (tenant_id : String)
        → (limit redis now now_ms row tenant_id request m).0 ≡ passed
        → Granted tenant_id
    unfolding limit
    limit_passed tenant_id h = elim (Option-cases (get_for_tenant now tenant_id row m.cache).0) [
      | inl e ↦ absurd (ground arith)
      | inr (c, e) ↦
          let (r, reply, allowed) =
            decide_passed tenant_id label _
              (record m { cache = (get_for_tenant now tenant_id row m.cache).1 })
              (rw (e, limit) at h) in
          (c, r, e, reply, allowed)
    ]

    module _ (verify : Text → Option String) (limited_path : is_exempt request.path ≡ false) where
      abbrev pub Verified : String → Type 0
      Verified tenant_id =
          (token : Text) × (bearer_token request.authorization ≡ some token)
          × (verify token ≡ some tenant_id)

      dispatch-Verified :
          (tenant_id : String)
          → Verified tenant_id
          → dispatch redis verify now now_ms row request m
            ≡ limit redis now now_ms row tenant_id request m
      unfolding dispatch
      dispatch-Verified tenant_id (token, p, q) =
          rw (limited_path, dispatch) (rw (p, dispatch) (rw (q, dispatch)))

      authentication :
          ((tenant_id : String) × Verified tenant_id)
          ⊎ ((dispatch redis verify now now_ms row request m ≡ (missing_token, m))
              ⊎ (dispatch redis verify now now_ms row request m ≡ (invalid_token, m)))
      unfolding dispatch
      authentication = elim (Option-cases (bearer_token request.authorization)) [
        | inl e ↦ inr (inl (rw (limited_path, dispatch) (rw (e, dispatch))))
        | inr (token, e) ↦ elim (Option-cases (verify token)) [
          | inl f ↦ inr (inr (rw (limited_path, dispatch) (rw (e, dispatch) (rw (f, dispatch)))))
          | inr (tenant_id, f) ↦ inl (tenant_id, (token, e, f))
        ]
      ]

      -- On a limited path a request is handed on only if its token verifies and the limiter has
      -- answered, for that tenant's bucket and configuration, that it is allowed. With no answer
      -- from Redis it is not handed on.
      pub passed_only_if_Granted :
          (dispatch redis verify now now_ms row request m).0 ≡ passed
          → (tenant_id : String) × Verified tenant_id × Granted tenant_id
      passed_only_if_Granted h = elim authentication [
        | inl (tenant_id, v) ↦
            (tenant_id, v, limit_passed tenant_id (rw (dispatch-Verified tenant_id v) at h))
        | inr (inl e) ↦ absurd (ground arith)
        | inr (inr e) ↦ absurd (ground arith)
      ]

      -- On a limited path, once the token verifies, the counters move exactly as the outcome says:
      -- one decision when it is handed on, a decision and a throttle on a 429, the Redis counter
      -- alone on a 503, and none where reading the configuration raises.
      pub counters_match_outcome :
          (tenant_id : String)
          → Verified tenant_id
          → (dispatch redis verify now now_ms row request m).1.metrics
            ≡ m.metrics
              ++ reported tenant_id
                  (normalize_endpoint_label request.method request.path)
                  (dispatch redis verify now now_ms row request m).0
      counters_match_outcome tenant_id v =
          rw (dispatch-Verified tenant_id v) (limit-reported tenant_id)

      -- On a limited path, a request whose token is missing or does not verify gets a 401 and
      -- leaves the limiter, its cache, Redis and the counters as they were.
      pub unauthenticated_untouched :
          ((tenant_id : String) → ¬ Verified tenant_id)
          → (dispatch redis verify now now_ms row request m ≡ (missing_token, m))
            ⊎ (dispatch redis verify now now_ms row request m ≡ (invalid_token, m))
      unauthenticated_untouched none_verifies = elim authentication [
        | inl (tenant_id, v) ↦ absurd (none_verifies tenant_id v)
        | inr e ↦ e
      ]
