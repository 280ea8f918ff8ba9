-- ===== src/Routes/Latency.antt =====
-- No request is counted as a query: the version segment of the path is collapsed like an
-- identifier.
use snts_collectmind.Prelude.{
  ℕ, Bool, true, false, List, [], ◌∷◌, ◌++◌, map, Text, codes, split, join_after, starts_with,
  nat_eq, upper_char, ◌≡◌, ◌≢◌, refl, ap, arith, All, Bool-cases, inl, inr, keep_if, head_or,
  onto_first,
}
use snts_collectmind.Routes.{
  is_id, collapse, segments, template, normalize_route, is_query_route, matches_id, without_newline,
}

abbrev pub Lacks : ℕ → Text → Type 0
Lacks c s = All (λ d. nat_eq d c ≡ false) s

-- The text is over, or goes on with the separator.
abbrev Breaks : ℕ → Text → Type 0
Breaks sep [] = Unit
Breaks sep (c ∷ s) = c ≡ sep

-- A path that begins with a whole segment begins with that segment.
segment_of :
    (sep : ℕ) (w o rest tail : Text)
    → Lacks sep w
    → Lacks sep o
    → Breaks sep tail
    → starts_with (w ++ (sep ∷ rest)) (o ++ tail) ≡ true
    → (o ≡ w) × (starts_with (sep ∷ rest) tail ≡ true)
unfolding starts_with
segment_of sep [] [] rest tail hw ho ht h = (refl, h)
segment_of sep [] (d ∷ o) rest tail hw ho ht h = absurd (ground (arith, ho.0))
segment_of sep (c ∷ w) [] rest [] hw ho ht h = absurd (ground arith)
segment_of sep (c ∷ w) [] rest (d ∷ tail) hw ho ht h = absurd (ground (arith, hw.0))
segment_of sep (c ∷ w) (d ∷ o) rest tail hw ho ht h =
    let r = segment_of sep w o rest tail hw.1 ho.1 ht (ground arith) in (ground (arith, r.0), r.1)

join_after-Breaks : (ws : List Text) → Breaks b'/' (join_after b'/' ws)
unfolding join_after
join_after-Breaks [] = tt
join_after-Breaks (w ∷ ws) = refl

-- A segment as `collapse` leaves it.
record IsCollapsed (s : Text) : Type 0 where
  plain : Lacks b'/' s
  no_version : s ≢ codes "v1"

v1_is_id : is_id (codes "v1") ≡ true
unfolding is_id matches_id without_newline
v1_is_id = refl

collapse-IsCollapsed : (s : Text) → Lacks b'/' s → IsCollapsed (collapse s)
unfolding collapse
collapse-IsCollapsed s h = elim (Bool-cases (is_id s)) [
  | inl e ↦ rw e (record {
    plain = (refl, (refl, (refl, tt)));
    no_version = λ q. absurd (ground (arith, ap (head_or 0) q));
  })
  | inr e ↦
      rw e (record { plain = h; no_version = λ q. absurd (ground (arith, ap is_id q, v1_is_id)) })
]

All-onto_first :
    (sep c : ℕ) (ws : List Text)
    → nat_eq c sep ≡ false
    → All (Lacks sep) ws
    → All (Lacks sep) (onto_first c ws)
All-onto_first sep c [] n h = ((n, tt), tt)
All-onto_first sep c (w ∷ ws) n h = ((n, h.0), h.1)

split-Lacks : (sep : ℕ) (s : Text) → All (Lacks sep) (split sep s)
unfolding split
split-Lacks sep [] = (tt, tt)
split-Lacks sep (c ∷ s) = elim (Bool-cases (nat_eq c sep)) [
  | inl e ↦ rw e (tt, split-Lacks sep s)
  | inr e ↦ rw e (All-onto_first sep c (split sep s) e (split-Lacks sep s))
]

keep_if-Lacks :
    (sep : ℕ) (p : Text → Bool) (ws : List Text)
    → All (Lacks sep) ws
    → All (Lacks sep) (keep_if p ws)
keep_if-Lacks sep p [] h = tt
keep_if-Lacks sep p (w ∷ ws) h = elim (Bool-cases (p w)) [
  | inl e ↦ rw (e, All) (h.0, keep_if-Lacks sep p ws h.1)
  | inr e ↦ rw (e, All) (keep_if-Lacks sep p ws h.1)
]

collapse-All : (ws : List Text) → All (Lacks b'/') ws → All IsCollapsed (map collapse ws)
collapse-All [] h = tt
collapse-All (w ∷ ws) h = (collapse-IsCollapsed w h.0, collapse-All ws h.1)

upper-Lacks : (s : Text) → Lacks b' ' s → Lacks b' ' (map upper_char s)
upper-Lacks [] h = tt
upper-Lacks (c ∷ s) h = (ground (arith, h.0), upper-Lacks s h.1)

-- A path under the first version of the API.
abbrev versioned : Text → Text
versioned rest = b'/' ∷ (codes "api" ++ (b'/' ∷ (codes "v1" ++ (b'/' ∷ rest))))

template-unversioned :
    (rest : Text) (ws : List Text)
    → All IsCollapsed ws
    → starts_with (versioned rest) (template ws) ≡ true
    → ⊥
unfolding starts_with join_after
template-unversioned rest [] h k = absurd (ground arith)
template-unversioned rest (w ∷ []) h k = absurd (
    ground (
      arith,
      (segment_of b'/' (codes "api") w (codes "v1" ++ (b'/' ∷ rest)) [] (refl, (refl, (refl, tt)))
          h.0.plain (join_after-Breaks []) k).1,
    ))
template-unversioned rest (w ∷ v ∷ ws) h k =
    let r =
      segment_of b'/' (codes "api") w (codes "v1" ++ (b'/' ∷ rest)) (join_after b'/' (v ∷ ws))
        (refl, (refl, (refl, tt))) h.0.plain (join_after-Breaks (v ∷ ws)) k in
    h.1.0.no_version
      (segment_of b'/' (codes "v1") v rest (join_after b'/' ws) (refl, (refl, tt)) h.1.0.plain
        (join_after-Breaks ws) r.1).0

prefix-unmatched :
    (method path rest : Text)
    → Lacks b' ' method
    → starts_with (codes "GET" ++ (b' ' ∷ versioned rest)) (normalize_route method path) ≡ false
unfolding normalize_route starts_with
prefix-unmatched method path rest h =
    elim (Bool-cases
      (starts_with (codes "GET" ++ (b' ' ∷ versioned rest)) (normalize_route method path))) [
        | inr e ↦ e
        | inl e ↦ absurd (
            template-unversioned rest (map collapse (segments path))
              (collapse-All (segments path)
                (keep_if-Lacks b'/' _ (split b'/' path) (split-Lacks b'/' path)))
              (segment_of b' ' (codes "GET") (map upper_char method) (versioned rest) _
                (refl, (refl, (refl, tt))) (upper-Lacks method h) refl e).1)
      ]

-- Whatever the method and the path, the label of a request is no query route, so the latency of the
-- queries is never observed. The method is a token, without a space in it.
pub never_a_query_route :
    (method path : Text) → Lacks b' ' method → is_query_route (normalize_route method path) ≡ false
unfolding is_query_route
never_a_query_route method path h = ground (
  arith,
  prefix-unmatched method path (codes "policies") h,
  prefix-unmatched method path (codes "vehicle-groups") h,
  prefix-unmatched method path (codes "findings/:id/outcome") h,
  prefix-unmatched method path (codes "audit") h,
  prefix-unmatched method path (codes "erasure-requests") h,
)
