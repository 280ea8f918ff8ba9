-- ===== src/RateLimit/Middleware/RetryAfter.antt =====
-- The Retry-After header of a 429.
use snts_collectmind.Prelude.{ℕ, ◌+◌, ◌*◌, ◌≤◌, ◌<◌, max, true, Option, some, ◌≡◌, arith}
use snts_collectmind.RateLimit.TokenBucket.{Bucket, token_bucket}
use snts_collectmind.RateLimit.TokenBucket.Bounds.{IsValid, ValidState, token_bucket-IsValid}
use snts_collectmind.RateLimit.TokenBucket.Recovery.{allowed_after_second}
use snts_collectmind.RateLimit.Middleware.{retry_after_seconds}

-- The header rounds up to whole seconds, and says at least one.
pub retry_after_rounds_up :
    (ms : ℕ)
    → (1 ≤ retry_after_seconds ms)
      × (ms ≤ 1000 * retry_after_seconds ms)
      × (1000 * retry_after_seconds ms ≤ max 1000 (ms + 999))
unfolding retry_after_seconds
retry_after_rounds_up ms = omega arith

-- A tenant that waits for as long as the header of its 429 says is served: with a positive rate
-- and burst, if no other call takes the token, the next call is allowed.
pub retry_after_honoured :
    (now later rps burst : ℕ) (s : Option Bucket)
    → 0 < rps
    → 0 < burst
    → ValidState now burst s
    → now + 1000 * retry_after_seconds (token_bucket now rps burst s).1.retry_after_ms ≤ later
    → (token_bucket later rps burst (some (token_bucket now rps burst s).0.bucket)).1.allowed ≡ true
retry_after_honoured now later rps burst s positive room v h =
    let w = (token_bucket now rps burst s).0.bucket in
    let after : IsValid now burst w = token_bucket-IsValid now rps burst positive s v in
    allowed_after_second later rps burst w positive room
      (omega (arith, retry_after_rounds_up (token_bucket now rps burst s).1.retry_after_ms))
