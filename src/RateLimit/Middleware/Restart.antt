-- ===== src/RateLimit/Middleware/Restart.antt =====
-- A restart of Redis empties its script cache: the next EVALSHA answers NOSCRIPT.
use snts_collectmind.Prelude.{ℕ, none, some, Text, ◌≡◌, arith, Option-cases, inl, inr, ◌≢◌}
use snts_collectmind.RateLimit.Middleware.{
  RedisOps, no_script, Limiter, Call, ensure_lua_loaded, eval_again, eval_once, try_call,
}

-- What Redis documents of its script cache: an EVALSHA that answers NOSCRIPT changes nothing, and a
-- script is known right after it is loaded.
pub record KeepsScripts (redis : RedisOps) : Type 0 where
  pub no_script_keeps :
      (sha key : Text) (now_ms rps burst : ℕ) (s : redis.State)
      → (redis.evalsha sha key now_ms rps burst s).0 ≡ no_script
      → (redis.evalsha sha key now_ms rps burst s).1 ≡ s
  pub loaded_known :
      (sha key : Text) (now_ms rps burst : ℕ) (s : redis.State)
      → (redis.script_load s).0 ≡ some sha
      → (redis.evalsha sha key now_ms rps burst (redis.script_load s).1).0 ≢ no_script

module _ (redis : RedisOps) (keeps : KeepsScripts redis) (c : Call redis) (m : Limiter redis) where
  again_as_once :
      eval_again redis c (ensure_lua_loaded redis none m.store)
      ≡ eval_once redis c (ensure_lua_loaded redis none m.store)
  unfolding eval_once
  again_as_once = elim (Option-cases (redis.script_load m.store).0) [
    | inl e ↦ ground arith
    | inr (sha, e) ↦
        ground (arith, keeps.loaded_known sha c.key c.now_ms c.sustained c.burst m.store)
  ]

  -- With a cached SHA that Redis no longer knows, the call ends as it would had no SHA been cached:
  -- the same reply or failure, the same SHA cached and the same store.
  pub restart_is_invisible :
      (sha : Text)
      → m.lua_sha ≡ some sha
      → (redis.evalsha sha c.key c.now_ms c.sustained c.burst m.store).0 ≡ no_script
      → try_call redis c m ≡ try_call redis c (record m { lua_sha = none })
  unfolding try_call
  restart_is_invisible sha cached stale = rw cached (
      ground (
        arith,
        again_as_once,
        keeps.no_script_keeps sha c.key c.now_ms c.sustained c.burst m.store,
      ))
