-- ===== src/Registry/Migrations/Discovered.antt =====
-- The version and the name of a migration, from its file to the list.
use snts_collectmind.Prelude.{
  ℕ, Bool, true, some, [], ◌∷◌, ◌++◌, Text, is_digit, nat_eq, ◌≡◌, refl, arith, All, Bool-cases,
  inl, inr, leb, length, ◌&&◌,
}
use snts_collectmind.Registry.Migrations.{
  span, name_char, named, versioned, match_file, key_of, split_key,
}

split_key-digits :
    (v n : Text) → All (λ c. is_digit c ≡ true) v → split_key (v ++ (b'_' ∷ n)) ≡ (v, n)
unfolding split_key
split_key-digits [] n h = refl
split_key-digits (c ∷ v) n h = ground (arith, split_key-digits v n h.1)

span-All : (p : ℕ → Bool) (s : Text) → All (λ c. p c ≡ true) (span p s).0
unfolding span
span-All p [] = tt
span-All p (c ∷ s) = elim (Bool-cases (p c)) [ inl e ↦ rw e (e, span-All p s) | inr e ↦ rw e tt ]

named-version :
    (suffix version v n : Text) (r : Text × Text)
    → named suffix version r ≡ some (v, n)
    → v ≡ version
named-version suffix version v n (name, rest) h = ground arith

versioned-version :
    (suffix v n : Text) (r : Text × Text) → versioned suffix r ≡ some (v, n) → v ≡ r.0
versioned-version suffix v n (version, []) h = absurd (ground arith)
versioned-version suffix v n (version, c ∷ s) h =
    elim (Bool-cases (leb 3 (length version) && nat_eq c b'_')) [
      | inl e ↦ named-version suffix version v n (span name_char s) (rw e at h)
      | inr e ↦ absurd (ground arith)
    ]

-- The version and the name that a file's pattern gives are those that the split of the key gives
-- back, underscores in the name included.
pub split_key-match_file :
    (suffix file v n : Text)
    → match_file suffix file ≡ some (v, n)
    → split_key (key_of (v, n)) ≡ (v, n)
unfolding match_file
split_key-match_file suffix file v n h =
    split_key-digits v n
      (rw (versioned-version suffix v n (span is_digit file) h) (span-All is_digit file))
