-- ===== src/RateLimit/Paths/Keys.antt =====
-- No two buckets share a key.
use mathlib.Core.List.{append_cancel_left, append_cancel_right, reverse, reverse-append}
use snts_collectmind.Prelude.{
  ℕ, ◌++◌, String, Text, codes, ◌≡◌, refl, arith, codes_injective, ap, sym, ◌∙◌, ◌≢◌, head_or,
}
use snts_collectmind.RateLimit.Paths.{BucketKind, inbound, query, bucket_key, kind_name}

abbrev suffix : BucketKind → Text
suffix k = codes ":" ++ codes (kind_name k)

last_char :
    (s : Text) (k : BucketKind)
    → head_or 0 (reverse (s ++ suffix k)) ≡ head_or 0 (reverse (suffix k))
unfolding kind_name
last_char s inbound = ap (head_or 0) (reverse-append s (suffix inbound))
last_char s query = ap (head_or 0) (reverse-append s (suffix query))

last_differs : (s t : Text) → s ++ suffix inbound ≢ t ++ suffix query
unfolding kind_name
last_differs s t h =
    let p : ◌≡◌ {A = ℕ} 100 121 =
      sym (last_char s inbound) ∙ ap (λ (u : Text). head_or 0 (reverse u)) h ∙ last_char t query in
    absurd (omega arith)

-- The part of a key after its fixed prefix.
tails :
    (s t : String) (j k : BucketKind)
    → bucket_key s j ≡ bucket_key t k
    → codes s ++ suffix j ≡ codes t ++ suffix k
unfolding bucket_key
tails s t j k h = append_cancel_left (codes "ratelimit:") _ _ h

-- A key determines the tenant and the bucket that it was made for, so no two tenants, and no two
-- buckets of one tenant, share tokens.
pub bucket_key_injective :
    (s t : String) (j k : BucketKind) → bucket_key s j ≡ bucket_key t k → (s ≡ t) × (j ≡ k)
bucket_key_injective s t inbound inbound h = (
  codes_injective s t (append_cancel_right _ _ (suffix inbound) (tails s t inbound inbound h)),
  refl,
)
bucket_key_injective s t inbound query h =
    absurd (last_differs (codes s) (codes t) (tails s t inbound query h))
bucket_key_injective s t query inbound h =
    absurd (last_differs (codes t) (codes s) (sym (tails s t query inbound h)))
bucket_key_injective s t query query h =
    (codes_injective s t (append_cancel_right _ _ (suffix query) (tails s t query query h)), refl)
