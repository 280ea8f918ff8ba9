-- ===== src/Routes.antt =====
-- src/collectmind/app.py: the route labels of _MetricsMiddleware.
pub mod Latency
mod Examples
use snts_collectmind.Prelude.{
  ℕ, ◌+◌, ◌/◌, Bool, true, false, not, ◌&&◌, ◌||◌, List, [], ◌∷◌, ◌++◌, map, Text, codes, split,
  join_after, starts_with, is_digit, is_lower, is_upper, is_empty, upper_char, nat_eq, leb, ltb,
  any, all, keep_if, length, if◌then◌else◌,
}

-- The class of _ID_SEGMENT.
abbrev pub id_char : ℕ → Bool
id_char c =
    is_lower c || is_upper c || is_digit c || nat_eq c b'_' || nat_eq c b'-' || nat_eq c b'.'

-- `$` also matches before a newline at the end, so the text that counts stops there.
unfoldable pub without_newline : Text → Text
without_newline [] = []
without_newline (c ∷ []) = if nat_eq c 10 then [] else c ∷ []
without_newline (c ∷ d ∷ s) = c ∷ without_newline (d ∷ s)

-- _ID_SEGMENT.match(seg)
unfoldable pub matches_id : Text → Bool
unfolding without_newline
matches_id seg =
    let s = without_newline seg in all id_char s && leb 1 (length s) && leb (length s) 256

-- c.isdigit() or c in "_-."
abbrev pub marks_id : ℕ → Bool
marks_id c = is_digit c || nat_eq c b'_' || nat_eq c b'-' || nat_eq c b'.'

unfoldable pub is_id : Text → Bool
unfolding matches_id
is_id seg = matches_id seg && any marks_id seg

unfoldable pub collapse : Text → Text
unfolding is_id
collapse seg = if is_id seg then codes ":id" else seg

abbrev pub segments : Text → List Text
segments path = keep_if (λ s. not (is_empty s)) (split b'/' path)

abbrev pub template : List Text → Text
template [] = codes "/"
template (w ∷ ws) = join_after b'/' (w ∷ ws)

-- _normalize_route
unfoldable pub normalize_route : Text → Text → Text
unfolding collapse split join_after
normalize_route method path =
    map upper_char method ++ (b' ' ∷ template (map collapse (segments path)))

abbrev pub query_route_prefixes : List Text
query_route_prefixes =
    codes "GET /api/v1/policies"
    ∷ codes "GET /api/v1/vehicle-groups"
    ∷ codes "GET /api/v1/findings/:id/outcome"
    ∷ codes "GET /api/v1/audit"
    ∷ codes "GET /api/v1/erasure-requests"
    ∷ []

-- _is_query_route
unfoldable pub is_query_route : Text → Bool
unfolding starts_with
is_query_route route = any (λ prefix. starts_with prefix route) query_route_prefixes
