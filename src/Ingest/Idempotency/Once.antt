-- ===== src/Ingest/Idempotency/Once.antt =====
-- A finding is seen for the first time once.
use snts_collectmind.Prelude.{
  ℕ, ◌+◌, true, false, none, some, List, [], ◌∷◌, String, if◌then◌else◌, ◌≡◌, refl, sym, ap, ◌∙◌,
  arith, any, Option-cases, Bool-cases, inl, inr,
}
use snts_collectmind.Prelude.Dict.{lookup, pair_eq, lookup-insert, lookup-insert_self}
use snts_collectmind.Ingest.Idempotency.{IdempotencyDecision, Key, check_or_record}

-- The decisions on a sequence of requests, each a key and a digest.
abbrev pub decisions : List (Key × String) → List (Key × String) → List (Key × IdempotencyDecision)
decisions [] store = []
decisions ((key, sha) ∷ requests) store =
    let r = check_or_record key sha store in (key, r.0) ∷ decisions requests r.1

-- How often a key is decided to be first seen.
abbrev pub first_seen_count : Key → List (Key × IdempotencyDecision) → ℕ
first_seen_count key [] = 0
first_seen_count key ((k, d) ∷ rest) =
    if pair_eq.beq k key
    then (if d.first_seen then 1 + first_seen_count key rest else first_seen_count key rest)
    else first_seen_count key rest

-- What a check leaves at a key that is recorded, and at one that is not.
recorded_stays :
    (k key : Key) (sha s : String) (store : List (Key × String))
    → lookup key store ≡ some s
    → lookup key (check_or_record k sha store).1 ≡ some s
unfolding check_or_record
recorded_stays k key sha s store h = elim (Option-cases (lookup k store)) [
  | inl e ↦ ground (arith, lookup-insert k key sha store, pair_eq.beq_iff k key)
  | inr (x, e) ↦ ground arith
]

other_stays :
    (k key : Key) (sha : String) (store : List (Key × String))
    → pair_eq.beq k key ≡ false
    → lookup key store ≡ none
    → lookup key (check_or_record k sha store).1 ≡ none
unfolding check_or_record
other_stays k key sha store n h = elim (Option-cases (lookup k store)) [
  | inl e ↦ ground (arith, lookup-insert k key sha store)
  | inr (x, e) ↦ ground arith
]

own_recorded :
    (k : Key) (sha : String) (store : List (Key × String))
    → lookup k store ≡ none
    → lookup k (check_or_record k sha store).1 ≡ some sha
unfolding check_or_record
own_recorded k sha store h = ground (arith, lookup-insert_self k sha store)

seen_again :
    (k key : Key) (sha s : String) (store : List (Key × String))
    → lookup key store ≡ some s
    → pair_eq.beq k key ≡ true
    → (check_or_record k sha store).0.first_seen ≡ false
unfolding check_or_record
seen_again k key sha s store h e = ground (arith, pair_eq.beq_iff k key)

seen_first :
    (k key : Key) (sha : String) (store : List (Key × String))
    → lookup key store ≡ none
    → pair_eq.beq k key ≡ true
    → (check_or_record k sha store).0.first_seen ≡ true
unfolding check_or_record
seen_first k key sha store h e = ground (arith, pair_eq.beq_iff k key)

none_after :
    (key : Key) (s : String) (requests store : List (Key × String))
    → lookup key store ≡ some s
    → first_seen_count key (decisions requests store) ≡ 0
none_after key s [] store h = refl
none_after key s ((k, sha) ∷ requests) store h =
    let rest =
      none_after key s requests (check_or_record k sha store).1
        (recorded_stays k key sha s store h) in
    elim (Bool-cases (pair_eq.beq k key)) [
      | inl e ↦ rw e (rw (seen_again k key sha s store h e) rest)
      | inr e ↦ rw e rest
    ]

-- Over any sequence of requests, a finding that was not recorded is decided to be first seen
-- exactly once if it is among them, and never if it is not.
pub first_seen_once :
    (key : Key) (requests store : List (Key × String))
    → lookup key store ≡ none
    → first_seen_count key (decisions requests store)
      ≡ (if any (λ r. pair_eq.beq r.0 key) requests then 1 else 0)
first_seen_once key [] store h = refl
first_seen_once key ((k, sha) ∷ requests) store h = elim (Bool-cases (pair_eq.beq k key)) [
  | inl e ↦
      let q = (pair_eq.beq_iff k key).0 e in
      let own = own_recorded k sha store (ap (λ j. lookup j store) q ∙ h) in
      rw e (
        rw (seen_first k key sha store h e) (
          ap (λ n. 1 + n)
            (none_after key sha requests (check_or_record k sha store).1
              (ap (λ j. lookup j (check_or_record k sha store).1) (sym q) ∙ own))))
  | inr e ↦ rw e (
      first_seen_once key requests (check_or_record k sha store).1
        (other_stays k key sha store e h))
]
