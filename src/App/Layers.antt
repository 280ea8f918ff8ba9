-- ===== src/App/Layers.antt =====
-- What a request does on its way through the layers of src/collectmind/app.py.
use snts_collectmind.Prelude.{
  ℕ, true, false, Option, String, Text, ◌≡◌, refl, sym, ◌⊎◌, inl, inr, Bool-cases,
}
use snts_collectmind.Registry.TenantConfig.{ConfigRow}
use snts_collectmind.RateLimit.Paths.{is_exempt}
use snts_collectmind.RateLimit.Middleware
use snts_collectmind.RateLimit.Middleware.{
  RedisOps, Request, Outcome, passed, missing_token, invalid_token, raised, unavailable, limited,
  Limiter,
}
use snts_collectmind.RateLimit.Middleware.Spec.{Verified, Granted, passed_only_if_Granted}
use snts_collectmind.App.{
  Reply, response, exception, Handled, collectmind_error_handler, Counters, labels_of, count,
  AppState, counted, metrics_dispatch, with_middleware, limited_reply, ratelimit_dispatch,
}

-- A response is counted, under its route and the class of its status; an exception is not.
abbrev pub counters_after : Request → Reply → Counters → Counters
counters_after request (response status) c = count (labels_of request status) c
counters_after request exception c = c

module _ (redis : RedisOps) {S : Type 0} (handle : Request → S → Handled × S) where
  -- The handler has run once, and what it came to is the reply, which is counted.
  pub record Handed (request : Request) (s : AppState redis handle)
      (r : Reply × AppState redis handle) : Type 0 where
    pub reply : r.0 ≡ collectmind_error_handler (handle request s.domain).0
    pub domain : r.1.domain ≡ (handle request s.domain).1
    pub counters : r.1.counters ≡ counters_after request r.0 s.counters

  -- No handler has run, and nothing is counted.
  pub record Refused (s : AppState redis handle) (r : Reply × AppState redis handle) : Type 0 where
    pub domain : r.1.domain ≡ s.domain
    pub counters : r.1.counters ≡ s.counters

  counted-Handed :
      (request : Request) (s : AppState redis handle) (r : Reply) (d : S)
      → collectmind_error_handler (handle request s.domain).0 ≡ r
      → (handle request s.domain).1 ≡ d
      → Handed request s (counted redis handle request (r, record s { domain = d }))
  counted-Handed request s (response status) d p q = record {
    reply = sym p;
    domain = sym q;
    counters = refl;
  }
  counted-Handed request s exception d p q = record {
    reply = sym p;
    domain = sym q;
    counters = refl;
  }

  metrics_dispatch-Handed :
      (request : Request) (s : AppState redis handle)
      → Handed request s (metrics_dispatch redis handle request s)
  unfolding metrics_dispatch
  metrics_dispatch-Handed request s = counted-Handed request s _ _ refl refl

  -- A state with another limiter.
  record SameApp (s t : AppState redis handle) : Type 0 where
    domain : t.domain ≡ s.domain
    counters : t.counters ≡ s.counters

  Handed-SameApp :
      (request : Request) (s t : AppState redis handle) (r : Reply × AppState redis handle)
      → SameApp s t
      → Handed request t r
      → Handed request s r
  Handed-SameApp request s t r e h = record {
    reply = rw e.domain at h.reply;
    domain = rw e.domain at h.domain;
    counters = rw e.counters at h.counters;
  }

  module _ (request : Request) (s t : AppState redis handle) (same : SameApp s t) where
    abbrev untouched : (r : Reply) → Refused s (r, t)
    untouched r = record { domain = same.domain; counters = same.counters }

    -- Only the outcome `passed` runs the handler.
    limited_reply-split :
        (o : Outcome)
        → ((o ≡ passed) × Handed request s (limited_reply redis handle o request t))
          ⊎ Refused s (limited_reply redis handle o request t)
    limited_reply-split passed =
        inl (refl, Handed-SameApp request s t _ same (metrics_dispatch-Handed request t))
    limited_reply-split missing_token = inr (untouched _)
    limited_reply-split invalid_token = inr (untouched _)
    limited_reply-split unavailable = inr (untouched _)
    limited_reply-split (limited n) = inr (untouched _)
    limited_reply-split raised = inr (untouched _)

  abbrev pub made_limiter : AppState redis handle → Limiter redis
  made_limiter s = (with_middleware redis handle s).limiter

  behind-SameApp :
      (s : AppState redis handle) (m : Limiter redis)
      → SameApp s (record (with_middleware redis handle s) { limiter = m })
  behind-SameApp s m = elim (Bool-cases s.ratelimit_middleware) [
    | inl e ↦ rw e (record { domain = refl; counters = refl })
    | inr e ↦ rw e (record { domain = refl; counters = refl })
  ]

  module _ (verify : Text → Option String) (now now_ms : ℕ) (row : Option (Option ConfigRow))
      (request : Request) (s : AppState redis handle) where
    abbrev outcome : Outcome × Limiter redis
    outcome = Middleware.dispatch redis verify now now_ms row request (made_limiter s)

    abbrev behind : AppState redis handle
    behind = record (with_middleware redis handle s) { limiter = outcome.1 }

    wired-dispatch :
        s.ratelimit_disabled ≡ false
        → s.wired ≡ true
        → ratelimit_dispatch redis handle verify now now_ms row request s
          ≡ limited_reply redis handle outcome.0 request behind
    unfolding ratelimit_dispatch
    wired-dispatch d w = elim (Bool-cases s.ratelimit_middleware) [
      | inl e ↦ rw d (rw w (rw e refl))
      | inr e ↦ rw d (rw w (rw e refl))
    ]

    -- In an application that is up, on a path that is not exempt, a request either has a token
    -- that verifies and a granting answer of the limiter for its tenant, and then its handler
    -- runs once and every response to it is counted; or no handler runs and nothing is counted,
    -- a 401, a 429 and a 503 included.
    pub handled_only_if_Granted :
        s.ratelimit_disabled ≡ false
        → s.wired ≡ true
        → (limited_path : is_exempt request.path ≡ false)
        → ((tenant_id : String) × Verified redis now now_ms row request
              (made_limiter s)
              verify
              limited_path
              tenant_id
            × Granted redis now now_ms row request (made_limiter s) tenant_id
            × Handed request s (ratelimit_dispatch redis handle verify now now_ms row request s))
          ⊎ Refused s (ratelimit_dispatch redis handle verify now now_ms row request s)
    handled_only_if_Granted d w limited_path =
        rw (wired-dispatch d w)
          (elim (limited_reply-split request s behind (behind-SameApp s outcome.1) outcome.0) [
            | inr r ↦ inr r
            | inl (p, h) ↦
                let (tenant_id, v, g) =
                  passed_only_if_Granted redis now now_ms row request (made_limiter s) verify
                    limited_path p in
                inl (tenant_id, v, g, h)
          ])
