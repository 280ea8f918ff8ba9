-- ===== src/RateLimit/Paths.antt =====
-- src/collectmind/ratelimit/middleware.py: which requests are limited, by which bucket, and the
-- labels and keys that they get.
pub mod Keys
use snts_collectmind.Prelude.{
  ℕ, Bool, true, false, ◌||◌, List, [], ◌∷◌, ◌++◌, String, Text, codes, starts_with, text_eq, split,
  join, is_digit, nat_eq, any, map, keep_if, is_empty, not, if◌then◌else◌, upper_char,
}

abbrev pub exempt_prefixes : List Text
exempt_prefixes =
    codes "/health"
    ∷ codes "/ready"
    ∷ codes "/metrics"
    ∷ codes "/api/v1/health"
    ∷ codes "/api/v1/ready"
    ∷ codes "/api/v1/audit/break-glass"
    ∷ []

abbrev pub inbound_paths : List Text
inbound_paths = codes "/api/v1/findings" ∷ []

unfoldable pub is_exempt : Text → Bool
unfolding starts_with text_eq
is_exempt path =
    if text_eq path (codes "/api/v1/findings")
    then false
    else any (λ prefix. starts_with prefix path) exempt_prefixes

pub data BucketKind : Type 0 where
  inbound query : BucketKind

unfoldable pub bucket_for_path : Text → BucketKind
unfolding starts_with text_eq
bucket_for_path path =
    if text_eq path (codes "/api/v1/findings") || any (λ p. starts_with p path) inbound_paths
    then BucketKind.inbound
    else BucketKind.query

-- A segment with a digit or one of "_-." is taken for a path parameter.
unfoldable pub is_parameter : Text → Bool
is_parameter seg =
    any is_digit seg
    || any (λ c. nat_eq c b'_') seg
    || any (λ c. nat_eq c b'-') seg
    || any (λ c. nat_eq c b'.') seg

unfoldable pub label_segment : Text → Text
unfolding is_parameter
label_segment seg = if is_parameter seg then codes ":id" else seg

unfoldable pub normalize_endpoint_label : Text → Text → Text
unfolding label_segment split join
normalize_endpoint_label method path =
    map upper_char method
    ++ (codes " /"
        ++ join b'/' (map label_segment (keep_if (λ seg. not (is_empty seg)) (split b'/' path))))

unfoldable pub kind_name : BucketKind → String
kind_name BucketKind.inbound = "inbound"
kind_name BucketKind.query = "query"

-- f"ratelimit:{tenant_id}:{bucket_kind}"
unfoldable pub bucket_key : String → BucketKind → Text
unfolding kind_name
bucket_key tenant_id kind =
    codes "ratelimit:" ++ (codes tenant_id ++ (codes ":" ++ codes (kind_name kind)))
