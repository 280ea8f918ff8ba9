-- ===== src/RateLimit/TokenBucket/Drift.antt =====
-- Where the bucket departs from its comments: rates that are no whole number of tokens per
-- millisecond.
use native.Mathlib.Nat.{div-add-mod', div-eq_of_lt}
use snts_collectmind.Prelude.{
  ℕ, zero, suc, ◌-◌, ◌*◌, ◌/◌, ◌%◌, ◌<◌, some, ◌≡◌, ◌≢◌, refl, List, [], ◌∷◌, true, arith,
}
use snts_collectmind.RateLimit.TokenBucket.{Bucket, load, refill, spend, token_bucket, grants}
use snts_collectmind.RateLimit.TokenBucket.Rate.{grants-cons}

-- n calls in one millisecond.
abbrev pub burst_of : ℕ → ℕ → List ℕ
burst_of zero t = []
burst_of (suc n) t = t ∷ burst_of n t

module _ (rps burst : ℕ) (fast : 1000 < rps) (uneven : rps % 1000 ≢ 0) (room : 0 < burst) where
  no_advance : rps / 1000 * 1000 / rps ≡ 0
  no_advance = div-eq_of_lt (omega (arith, div-add-mod' rps 1000))

  -- One millisecond after its last refill, each call is granted, and the bucket's time stands.
  same_millisecond :
      (b : Bucket)
      → ((token_bucket (suc b.last_refill_ms) rps burst (some b)).1.allowed ≡ true)
        × ((token_bucket (suc b.last_refill_ms) rps burst (some b)).0.bucket.last_refill_ms
            ≡ b.last_refill_ms)
  unfolding token_bucket spend refill load
  same_millisecond b =
      let e : suc b.last_refill_ms - b.last_refill_ms ≡ 1 = omega arith in
      let m : 1 * rps ≡ rps = omega arith in rw (e, m) (ground (arith, no_advance))

  -- At a rate above 1000 per second that is no multiple of 1000, any number of calls made in the
  -- millisecond after a bucket's last refill are all granted.
  pub unbounded_in_one_millisecond :
      (n : ℕ) (b : Bucket) → (grants rps burst (some b) (burst_of n (suc b.last_refill_ms))).1 ≡ n
  unfolding grants
  unbounded_in_one_millisecond zero b = refl
  unbounded_in_one_millisecond (suc n) b =
      let t = suc b.last_refill_ms in
      let b' = (token_bucket t rps burst (some b)).0.bucket in
      let ih : (grants rps burst (some b') (burst_of n (suc b'.last_refill_ms))).1 ≡ n =
        unbounded_in_one_millisecond n b' in
      let ih' : (grants rps burst (some b') (burst_of n t)).1 ≡ n =
        rw ((same_millisecond b).1) at ih in
      rw (grants-cons rps burst t (some b) (burst_of n t)) (ground (arith, same_millisecond b, ih'))
