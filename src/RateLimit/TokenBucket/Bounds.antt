-- ===== src/RateLimit/TokenBucket/Bounds.antt =====
-- The bucket stays within its capacity, and one call spends at most the token that it grants.
use native.Mathlib.Nat.{div-le_of_le-mul, div-mul-le_self}
use snts_collectmind.Prelude.{
  ℕ, ◌+◌, ◌-◌, ◌*◌, ◌/◌, ◌≤◌, ◌<◌, Option, none, some, ◌≡◌, false, arith, if◌then◌else◌,
}
use snts_collectmind.RateLimit.TokenBucket.{Bucket, Reply, load, refill, spend, token_bucket}

-- Within capacity, and not refilled for a time to come.
pub record IsValid (now_ms burst_capacity : ℕ) (b : Bucket) : Type 0 where
  pub within : b.tokens ≤ burst_capacity
  pub past : b.last_refill_ms ≤ now_ms

abbrev pub ValidState : ℕ → ℕ → Option Bucket → Type 0
ValidState now_ms burst_capacity none = Unit
ValidState now_ms burst_capacity (some b) = IsValid now_ms burst_capacity b

-- The milliseconds that a refill accounts for are at most those that passed.
pub advance-le : (e r : ℕ) → 0 < r → e * r / 1000 * 1000 / r ≤ e
advance-le e r h = div-le_of_le-mul r (omega (arith, div-mul-le_self (e * r) 1000))

pub load-IsValid :
    (now burst : ℕ) (s : Option Bucket)
    → ValidState now burst s
    → IsValid now burst (load now burst s)
unfolding load
load-IsValid now burst none h = record { within = omega arith; past = omega arith }
load-IsValid now burst (some b) h = h

module _ (now rps burst : ℕ) (positive : 0 < rps) where
  pub refill-IsValid :
      (b : Bucket) → IsValid now burst b → IsValid now burst (refill now rps burst b)
  unfolding refill
  refill-IsValid b h = ground (arith, advance-le (now - b.last_refill_ms) rps positive)

  pub spend-IsValid :
      (b : Bucket) → IsValid now burst b → IsValid now burst (spend rps burst b).0.bucket
  unfolding spend
  spend-IsValid b h = ground arith

  -- At a positive rate, a call keeps the bucket within its capacity, and its clock no later than
  -- the time of the call, if they were so before; a bucket that is missing counts as such.
  pub token_bucket-IsValid :
      (s : Option Bucket)
      → ValidState now burst s
      → IsValid now burst (token_bucket now rps burst s).0.bucket
  unfolding token_bucket
  token_bucket-IsValid s h = spend-IsValid _ (refill-IsValid _ (load-IsValid now burst s h))

abbrev pub granted : Reply → ℕ
granted r = if r.allowed then 1 else 0

-- A call pays for its grant out of the refilled bucket, and out of nothing else.
pub spend-tokens :
    (rps burst : ℕ) (b : Bucket)
    → (spend rps burst b).0.bucket.tokens + granted (spend rps burst b).1 ≡ b.tokens
unfolding spend
spend-tokens rps burst b = ground arith

pub spend-last :
    (rps burst : ℕ) (b : Bucket) → (spend rps burst b).0.bucket.last_refill_ms ≡ b.last_refill_ms
unfolding spend
spend-last rps burst b = ground arith

-- A denied call finds no token, and leaves none.
pub spend_denied :
    (rps burst : ℕ) (b : Bucket)
    → (spend rps burst b).1.allowed ≡ false
    → (b.tokens ≡ 0) × ((spend rps burst b).0.bucket ≡ b)
unfolding spend
spend_denied rps burst b h = ground arith
