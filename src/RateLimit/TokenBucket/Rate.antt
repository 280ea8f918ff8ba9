-- ===== src/RateLimit/TokenBucket/Rate.antt =====
-- The admitted rate. A refill of whole tokens advances the clock of the bucket by whole
-- milliseconds; where both are exact, no time is paid for twice and the sustained rate is kept.
use native.Mathlib.Nat.{mul-div_cancel}
use snts_collectmind.Prelude.{
  ℕ, ◌+◌, ◌-◌, ◌*◌, ◌/◌, ◌≤◌, ◌<◌, Option, none, some, ◌≡◌, ap, List, [], ◌∷◌, ◌⊎◌, inl, inr, arith,
}
use snts_collectmind.RateLimit.TokenBucket.{Bucket, load, refill, token_bucket, grants}
use snts_collectmind.RateLimit.TokenBucket.Bounds.{
  IsValid, ValidState, load-IsValid, token_bucket-IsValid, granted, spend-tokens, spend-last,
  advance-le,
}

-- A whole number of tokens per millisecond, or of milliseconds per token. The defaults of FR-012,
-- 2000 and 200 per second, are such rates.
abbrev pub IsWholeRate : ℕ → Type 0
IsWholeRate rps = ((k : ℕ) × (rps ≡ 1000 * k)) ⊎ ((k : ℕ) × (rps * k ≡ 1000))

-- The time that a refill accounts for is worth the tokens that it adds.
exact_of_multiple : (m n rps : ℕ) → 0 < rps → m ≡ n * rps → m / rps * rps ≡ m
exact_of_multiple m n rps positive p = rw p (rw (mul-div_cancel n positive))

div_exact : (q m : ℕ) → m ≡ q * 1000 → m / 1000 ≡ q
div_exact q m p = omega arith

exact :
    (rps e : ℕ)
    → 0 < rps
    → IsWholeRate rps
    → e * rps / 1000 * 1000 / rps * rps ≡ e * rps / 1000 * 1000
exact rps e positive (inl (k, p)) =
    let q : e * rps / 1000 ≡ e * k = div_exact (e * k) (e * rps) (rw p (omega arith)) in
    exact_of_multiple _ e rps positive (rw q (rw p (omega arith)))
exact rps e positive (inr (k, p)) =
    let q = e * rps / 1000 in
    exact_of_multiple _ (q * k) rps positive (omega (arith, ap (λ (t : ℕ). q * t) p))

-- What a bucket is worth at a time: its tokens, and the time not yet turned into tokens.
credit : ℕ → ℕ → Bucket → ℕ
credit now rps b = b.tokens * 1000 + (now - b.last_refill_ms) * rps

-- Time that a refill has accounted for is gone from the credit, and the rest stays.
time_left :
    (now last advance rps : ℕ)
    → last + advance ≤ now
    → (now - (last + advance)) * rps + advance * rps ≡ (now - last) * rps
time_left now last advance rps h =
    let d = now - (last + advance) in
    let p : now - last ≡ d + advance = omega arith in rw p (omega arith)

module _ (now rps burst : ℕ) (positive : 0 < rps) (whole : IsWholeRate rps) where
  credit-refill :
      (b : Bucket)
      → IsValid now burst b
      → credit now rps (refill now rps burst b) ≤ credit now rps b
  unfolding credit refill
  credit-refill b h =
      let e = now - b.last_refill_ms in
      let a = e * rps / 1000 * 1000 / rps in
      ground (
        arith,
        exact rps e positive whole,
        advance-le e rps positive,
        time_left now b.last_refill_ms a rps,
      )

  credit_after :
      (b : Bucket)
      → IsValid now burst b
      → credit now rps (refill now rps burst b) < (burst + 1) * 1000
  unfolding credit refill
  credit_after b h =
      let e = now - b.last_refill_ms in
      let a = e * rps / 1000 * 1000 / rps in
      ground (
        arith,
        exact rps e positive whole,
        advance-le e rps positive,
        time_left now b.last_refill_ms a rps,
      )

  credit-token_bucket :
      (s : Option Bucket)
      → ValidState now burst s
      → credit now rps (token_bucket now rps burst s).0.bucket
          + 1000 * granted (token_bucket now rps burst s).1
        ≤ credit now rps (refill now rps burst (load now burst s))
  unfolding token_bucket credit
  credit-token_bucket s h =
      let b = refill now rps burst (load now burst s) in
      omega (
        arith,
        spend-tokens rps burst b,
        spend-last rps burst b,
        ap (λ (t : ℕ). (now - t) * rps) (spend-last rps burst b),
      )

-- Times in order, from `from` to `until`.
abbrev pub Within : ℕ → ℕ → List ℕ → Type 0
Within from until [] = from ≤ until
Within from until (t ∷ ts) = (from ≤ t) × Within t until ts

from-le-until : (from until : ℕ) (ts : List ℕ) → Within from until ts → from ≤ until
from-le-until from until [] h = h
from-le-until from until (t ∷ ts) h = omega (arith, from-le-until t until ts h.1)

credit_later :
    (from now rps burst : ℕ) (b : Bucket)
    → IsValid from burst b
    → from ≤ now
    → credit now rps b ≡ credit from rps b + (now - from) * rps
unfolding credit
credit_later from now rps burst b v h =
    let p : now - b.last_refill_ms ≡ (from - b.last_refill_ms) + (now - from) =
      omega (arith, v.past) in
    rw p (omega arith)

later_IsValid :
    (from now burst : ℕ) (b : Bucket) → IsValid from burst b → from ≤ now → IsValid now burst b
later_IsValid from now burst b v h = record { within = v.within; past = omega (arith, v.past) }

pub grants-cons :
    (rps burst t : ℕ) (s : Option Bucket) (ts : List ℕ)
    → (grants rps burst s (t ∷ ts)).1
      ≡ granted (token_bucket t rps burst s).1
        + (grants rps burst (some (token_bucket t rps burst s).0.bucket) ts).1
unfolding grants
grants-cons rps burst t s ts = ground arith

window :
    (from t until rps : ℕ)
    → from ≤ t
    → t ≤ until
    → (until - from) * rps ≡ (t - from) * rps + (until - t) * rps
window from t until rps h k =
    let p : until - from ≡ (t - from) + (until - t) = omega arith in rw p (omega arith)

ValidState-later :
    (from now burst : ℕ) (s : Option Bucket)
    → ValidState from burst s
    → from ≤ now
    → ValidState now burst s
ValidState-later from now burst none v h = tt
ValidState-later from now burst (some b) v h = later_IsValid from now burst b v h

module _ (rps burst : ℕ) (positive : 0 < rps) (whole : IsWholeRate rps) where
  credit-refill-load :
      (from t : ℕ) (b : Bucket)
      → IsValid from burst b
      → from ≤ t
      → credit t rps (refill t rps burst (load t burst (some b)))
        ≤ credit from rps b + (t - from) * rps
  unfolding load
  credit-refill-load from t b v h = omega (
    arith,
    credit-refill t rps burst positive whole b (later_IsValid from t burst b v h),
    credit_later from t rps burst b v h,
  )

  grants-le-credit :
      (from until : ℕ) (b : Bucket) (ts : List ℕ)
      → IsValid from burst b
      → Within from until ts
      → 1000 * (grants rps burst (some b) ts).1 ≤ credit from rps b + (until - from) * rps
  unfolding grants
  grants-le-credit from until b [] v w = omega arith
  grants-le-credit from until b (t ∷ ts) v w =
      let later = later_IsValid from t burst b v w.0 in
      rw (grants-cons rps burst t (some b) ts) (
        omega (
          arith,
          grants-le-credit t until (token_bucket t rps burst (some b)).0.bucket ts
              (token_bucket-IsValid t rps burst positive (some b) later) w.1,
          credit-token_bucket t rps burst positive whole (some b) later,
          credit-refill-load from t b v w.0,
          window from t until rps w.0 (from-le-until t until ts w.1),
        ))

  -- Within any window the calls granted are at most the burst, one more, and the sustained rate
  -- times the window, whatever valid state the bucket starts in.
  pub grants-lt-rate :
      (from until : ℕ) (s : Option Bucket) (ts : List ℕ)
      → ValidState from burst s
      → Within from until ts
      → 1000 * (grants rps burst s ts).1 < 1000 * (burst + 1) + (until - from) * rps
  unfolding grants
  grants-lt-rate from until s [] v w = omega arith
  grants-lt-rate from until s (t ∷ ts) v w =
      let later = ValidState-later from t burst s v w.0 in
      rw (grants-cons rps burst t s ts) (
        omega (
          arith,
          grants-le-credit t until (token_bucket t rps burst s).0.bucket ts
              (token_bucket-IsValid t rps burst positive s later) w.1,
          credit-token_bucket t rps burst positive whole s later,
          credit_after t rps burst positive whole (load t burst s) (load-IsValid t burst s later),
          window from t until rps w.0 (from-le-until t until ts w.1),
        ))
