-- ===== src/RateLimit/TokenBucket.antt =====
-- src/collectmind/ratelimit/token_bucket.lua: one atomic check-and-deduct of a bucket.
-- The arguments are whole numbers (the middleware passes str(int)), so the script's `invalid
-- arguments` reply does not arise; Lua's doubles are exact below 2 ^ 53 and are taken as ℕ.
pub mod Bounds
pub mod Rate
pub mod Recovery
pub mod Drift
use snts_collectmind.Prelude.{
  ℕ, zero, suc, ◌+◌, ◌-◌, ◌*◌, ◌/◌, min, max, Option, none, some, List, [], ◌∷◌, Bool, ltb, leb,
  if◌then◌else◌,
}

-- The Redis hash of one bucket.
pub record Bucket : Type 0 where
  pub tokens : ℕ
  pub last_refill_ms : ℕ

-- {1, remaining, 0} or {0, 0, retry_after_ms}
pub record Reply : Type 0 where
  pub allowed : Bool
  pub remaining : ℕ
  pub retry_after_ms : ℕ

-- What the script writes: the hash, and the PEXPIRE of the allowed branch.
pub record Write : Type 0 where
  pub bucket : Bucket
  pub expire_ms : Option ℕ

-- A missing hash is a fresh bucket at full burst.
unfoldable pub load : ℕ → ℕ → Option Bucket → Bucket
load now_ms burst_capacity none = record { tokens = burst_capacity; last_refill_ms = now_ms }
load now_ms burst_capacity (some b) = b

-- The clamp of a negative `elapsed_ms` to 0 is the subtraction of ℕ.
unfoldable pub refilled : ℕ → ℕ → Bucket → ℕ
refilled now_ms sustained_rps b = (now_ms - b.last_refill_ms) * sustained_rps / 1000

unfoldable pub refill : ℕ → ℕ → ℕ → Bucket → Bucket
unfolding refilled
refill now_ms sustained_rps burst_capacity b =
    let amount = refilled now_ms sustained_rps b in
    if ltb 0 amount
    then record {
      tokens = min burst_capacity (b.tokens + amount);
      last_refill_ms = b.last_refill_ms + amount * 1000 / sustained_rps;
    }
    else b

unfoldable pub retry_hint : ℕ → ℕ
retry_hint sustained_rps =
    let ms_per_token = 1000 / sustained_rps in if ltb ms_per_token 1 then 1 else ms_per_token

unfoldable pub spend : ℕ → ℕ → Bucket → Write × Reply
spend sustained_rps burst_capacity b =
    if leb 1 b.tokens
    then (
      record {
        bucket = record b { tokens = b.tokens - 1 };
        expire_ms = some (burst_capacity * 1000 * 2 / sustained_rps);
      },
      record { allowed = Bool.true; remaining = b.tokens - 1; retry_after_ms = 0 },
    )
    else (
      record { bucket = b; expire_ms = none },
      record { allowed = Bool.false; remaining = 0; retry_after_ms = retry_hint sustained_rps },
    )

unfoldable pub token_bucket : ℕ → ℕ → ℕ → Option Bucket → Write × Reply
token_bucket now_ms sustained_rps burst_capacity state =
    spend sustained_rps burst_capacity
      (refill now_ms sustained_rps burst_capacity (load now_ms burst_capacity state))

-- The calls on one key, at the times of the list: the bucket after them and the grants made.
unfoldable pub grants : ℕ → ℕ → Option Bucket → List ℕ → Option Bucket × ℕ
grants sustained_rps burst_capacity state [] = (state, 0)
grants sustained_rps burst_capacity state (now_ms ∷ later) =
    let (w, r) = token_bucket now_ms sustained_rps burst_capacity state in
    let (state', n) = grants sustained_rps burst_capacity (some w.bucket) later in
    (state', if r.allowed then suc n else n)
