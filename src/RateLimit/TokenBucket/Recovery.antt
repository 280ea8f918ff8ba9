-- ===== src/RateLimit/TokenBucket/Recovery.antt =====
-- What waiting gives back: the retry hint of a denied call, and the expiry of a silent bucket.
use native.Mathlib.Nat.{div-add-mod', lt-div-mul-add, le-div_iff_mul-le}
use snts_collectmind.Prelude.{
  ℕ, ◌+◌, ◌-◌, ◌*◌, ◌/◌, ◌≤◌, ◌<◌, ◌%◌, none, some, ◌≡◌, ◌≢◌, true, false, arith,
}
use snts_collectmind.RateLimit.TokenBucket.{Bucket, load, refill, retry_hint, spend, token_bucket}
use snts_collectmind.RateLimit.TokenBucket.Bounds.{IsValid}

-- A second refills a token at any positive rate.
second_refills : (e rps : ℕ) → 1000 ≤ e → 0 < rps → 1 ≤ e * rps / 1000
second_refills e rps h k = let p : 1000 * 1 ≤ e * rps = grind arith in omega arith

pub allowed_after_second :
    (later rps burst : ℕ) (b : Bucket)
    → 0 < rps
    → 0 < burst
    → b.last_refill_ms + 1000 ≤ later
    → (token_bucket later rps burst (some b)).1.allowed ≡ true
unfolding token_bucket spend refill load
allowed_after_second later rps burst b positive room h =
    ground (arith, second_refills (later - b.last_refill_ms) rps (omega arith) positive)

-- The tokens of a bucket that was left alone for the time of its expiry.
full_after_expiry :
    (e rps burst : ℕ) → 0 < rps → rps ≤ burst → burst * 1000 * 2 / rps ≤ e → burst ≤ e * rps / 1000
full_after_expiry e rps burst positive fits h =
    let ttl = burst * 1000 * 2 / rps in
    let p : burst * 1000 * 2 < ttl * rps + rps = lt-div-mul-add positive in
    let q : ttl * rps ≤ e * rps = grind arith in omega arith

-- Losing the hash by its expiry changes nothing: at or after the end of the time that an allowed
-- call sets, a call on the stored bucket and a call on a fresh one leave as many tokens and have
-- the same reply.
pub expiry_loses_nothing :
    (now later rps burst : ℕ) (b : Bucket)
    → 0 < rps
    → rps ≤ burst
    → IsValid now burst b
    → now + burst * 1000 * 2 / rps ≤ later
    → ((token_bucket later rps burst (some b)).1 ≡ (token_bucket later rps burst none).1)
      × ((token_bucket later rps burst (some b)).0.bucket.tokens
          ≡ (token_bucket later rps burst none).0.bucket.tokens)
unfolding token_bucket spend refill load
expiry_loses_nothing now later rps burst b positive fits v h = ground (
  arith,
  full_after_expiry (later - b.last_refill_ms) rps burst positive fits (omega (arith, v.past)),
)

-- An empty bucket just refilled, at a rate that does not divide 1000: the hint is rounded down, so
-- a call made exactly when the hint says is denied again.
pub retry_hint_too_short :
    (rps burst : ℕ) (b : Bucket)
    → 0 < rps
    → rps < 1000
    → 1000 % rps ≢ 0
    → b.tokens ≡ 0
    → (token_bucket (b.last_refill_ms + retry_hint rps) rps burst (some b)).1.allowed ≡ false
unfolding token_bucket spend refill load retry_hint
retry_hint_too_short rps burst b positive small inexact empty =
    let p : 1000 / rps * rps + 1000 % rps ≡ 1000 = div-add-mod' 1000 rps in
    let q : 1 ≤ 1000 / rps = (le-div_iff_mul-le positive).1 (omega arith) in ground arith
