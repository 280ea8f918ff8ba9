-- ===== src/Prelude/Rows.antt =====
-- Rows of a query: membership, WHERE as keep_if, ORDER BY a number descending, and LIMIT.
use Prim.Native.Nat.{ℕ, zero, suc, ◌≤◌}
use mathlib.Core.Path.{◌≡◌, refl, sym, ap, ◌∙◌}
use mathlib.Core.Logic.{◌⊎◌, inl, inr}
use mathlib.Core.Bool.{Bool, true, false, ◌&&◌}
use mathlib.Core.Option.{Option, none, some}
use mathlib.Core.List.{List, [], ◌∷◌}
use native.Mathlib.Omega.{arith}
use snts_collectmind.Prelude.Tests.{leb, leb→le, if◌then◌else◌, Bool-cases}
use snts_collectmind.Prelude.Lists.{length, keep_if, any, All}

pub both : (a b : Bool) → (a && b) ≡ true → (a ≡ true) × (b ≡ true)
both true b h = (refl, h)
both false b h = absurd (ground arith)

module _ {A : Type 0} where
  -- LIMIT n
  abbrev pub take : ℕ → List A → List A
  take zero l = []
  take (suc n) [] = []
  take (suc n) (x ∷ l) = x ∷ take n l

  -- LIMIT 1, as fetchrow reads it
  abbrev pub first : List A → Option A
  first [] = none
  first (x ∷ l) = some x

  -- The row is in the list.
  abbrev pub Holds : A → List A → Type 0
  Holds a [] = ⊥
  Holds a (x ∷ l) = (a ≡ x) ⊎ Holds a l

  -- One step of keep_if.
  abbrev kept : Bool → A → List A → List A
  kept b r rest = elim b [ true ↦ r ∷ rest | false ↦ rest ]

  kept-Holds :
      (a r : A) (b : Bool) (rest : List A)
      → Holds a (kept b r rest)
      → ((a ≡ r) × (b ≡ true)) ⊎ Holds a rest
  kept-Holds a r true rest (inl q) = inl (q, refl)
  kept-Holds a r true rest (inr h) = inr h
  kept-Holds a r false rest h = inr h

  Holds-kept :
      (a r : A) (b : Bool) (rest : List A)
      → ((a ≡ r) × (b ≡ true)) ⊎ Holds a rest
      → Holds a (kept b r rest)
  Holds-kept a r true rest (inl h) = inl h.0
  Holds-kept a r true rest (inr h) = inr h
  Holds-kept a r false rest (inl h) = absurd (ground (arith, h.1))
  Holds-kept a r false rest (inr h) = h

  pub keep_if-Holds :
      (a : A) (p : A → Bool) (l : List A) → Holds a (keep_if p l) → Holds a l × (p a ≡ true)
  keep_if-Holds a p [] h = absurd h
  keep_if-Holds a p (r ∷ l) h = elim (kept-Holds a r (p r) (keep_if p l) h) [
    | inl k ↦ (inl k.0, ap p k.0 ∙ k.1)
    | inr k ↦ let q = keep_if-Holds a p l k in (inr q.0, q.1)
  ]

  pub Holds-keep_if :
      (a : A) (p : A → Bool) (l : List A) → Holds a l → p a ≡ true → Holds a (keep_if p l)
  Holds-keep_if a p [] h k = absurd h
  Holds-keep_if a p (r ∷ l) (inl q) k =
      Holds-kept a r (p r) (keep_if p l) (inl (q, sym (ap p q) ∙ k))
  Holds-keep_if a p (r ∷ l) (inr h) k =
      Holds-kept a r (p r) (keep_if p l) (inr (Holds-keep_if a p l h k))

  -- A condition that starts with another is asked of the rows that pass the other.
  pub keep_if-and :
      (p q : A → Bool) (l : List A) → keep_if (λ x. p x && q x) l ≡ keep_if q (keep_if p l)
  keep_if-and p q [] = refl
  keep_if-and p q (x ∷ l) = ground (arith, keep_if-and p q l)

  pub any-and : (p q : A → Bool) (l : List A) → any (λ x. p x && q x) l ≡ any q (keep_if p l)
  any-and p q [] = refl
  any-and p q (x ∷ l) = ground (arith, any-and p q l)

  moved :
      (a x y : A) (l m : List A)
      → ((a ≡ x) ⊎ Holds a l → Holds a m)
      → (a ≡ x) ⊎ Holds a (y ∷ l)
      → Holds a (y ∷ m)
  moved a x y l m f (inl q) = inr (f (inl q))
  moved a x y l m f (inr (inl q)) = inl q
  moved a x y l m f (inr (inr k)) = inr (f (inr k))

  module _ (key : A → ℕ) where
    -- ORDER BY key DESC
    unfoldable pub put_in : A → List A → List A
    put_in x [] = x ∷ []
    put_in x (y ∷ l) =
        let later = put_in x l in if leb (key y) (key x) then x ∷ y ∷ l else y ∷ later

    unfoldable pub latest_first : List A → List A
    latest_first [] = []
    latest_first (x ∷ l) = put_in x (latest_first l)

    Holds-put_in : (a x : A) (l : List A) → (a ≡ x) ⊎ Holds a l → Holds a (put_in x l)
    unfolding put_in
    Holds-put_in a x [] h = h
    Holds-put_in a x (y ∷ l) h = elim (Bool-cases (leb (key y) (key x))) [
      | inl e ↦ rw e h
      | inr e ↦ rw e (moved a x y l (put_in x l) (λ k. Holds-put_in a x l k) h)
    ]

    pub Holds-latest_first : (a : A) (l : List A) → Holds a l → Holds a (latest_first l)
    unfolding latest_first
    Holds-latest_first a [] h = h
    Holds-latest_first a (x ∷ l) (inl q) = Holds-put_in a x (latest_first l) (inl q)
    Holds-latest_first a (x ∷ l) (inr h) =
        Holds-put_in a x (latest_first l) (inr (Holds-latest_first a l h))

    put_in-All : (P : A → Type 0) (x : A) (l : List A) → P x → All P l → All P (put_in x l)
    unfolding put_in
    put_in-All P x [] h k = (h, tt)
    put_in-All P x (y ∷ l) h k = elim (Bool-cases (leb (key y) (key x))) [
      | inl e ↦ rw e (h, k)
      | inr e ↦ rw e (k.0, put_in-All P x l h k.1)
    ]

    pub latest_first-All : (P : A → Type 0) (l : List A) → All P l → All P (latest_first l)
    unfolding latest_first
    latest_first-All P [] h = tt
    latest_first-All P (x ∷ l) h = put_in-All P x (latest_first l) h.0 (latest_first-All P l h.1)

    -- In descending order of the key.
    abbrev pub IsDescending : List A → Type 0
    IsDescending [] = Unit
    IsDescending (x ∷ l) = All (λ y. key y ≤ key x) l × IsDescending l

    le_trans_All : (m n : ℕ) (l : List A) → m ≤ n → All (λ y. key y ≤ m) l → All (λ y. key y ≤ n) l
    le_trans_All m n [] h k = tt
    le_trans_All m n (x ∷ l) h k = (omega (arith, h, k.0), le_trans_All m n l h k.1)

    put_in-IsDescending : (x : A) (l : List A) → IsDescending l → IsDescending (put_in x l)
    unfolding put_in
    put_in-IsDescending x [] h = (tt, tt)
    put_in-IsDescending x (y ∷ l) h = elim (Bool-cases (leb (key y) (key x))) [
      | inl e ↦
          let le = leb→le (key y) (key x) e in rw e ((le, le_trans_All (key y) (key x) l le h.0), h)
      | inr e ↦
          rw e (put_in-All (λ z. key z ≤ key y) x l (ground arith) h.0, put_in-IsDescending x l h.1)
    ]

    pub latest_first-IsDescending : (l : List A) → IsDescending (latest_first l)
    unfolding latest_first
    latest_first-IsDescending [] = tt
    latest_first-IsDescending (x ∷ l) =
        put_in-IsDescending x (latest_first l) (latest_first-IsDescending l)

    -- The rows before a limit of a list in descending order.
    pub take-All : (P : A → Type 0) (n : ℕ) (l : List A) → All P l → All P (take n l)
    take-All P zero l h = tt
    take-All P (suc n) [] h = tt
    take-All P (suc n) (x ∷ l) h = (h.0, take-All P n l h.1)

    pub take-IsDescending : (n : ℕ) (l : List A) → IsDescending l → IsDescending (take n l)
    take-IsDescending zero l h = tt
    take-IsDescending (suc n) [] h = tt
    take-IsDescending (suc n) (x ∷ l) h =
        (take-All (λ y. key y ≤ key x) n l h.0, take-IsDescending n l h.1)

    -- The first row is in the list, and none is later.
    pub first-latest :
        (l : List A) (a : A)
        → IsDescending l
        → first l ≡ some a
        → Holds a l × All (λ y. key y ≤ key a) l
    first-latest [] a d h = absurd (ground arith)
    first-latest (x ∷ l) a d h =
        let e : x ≡ a = ground arith in
        let le : key x ≤ key a = rw e (omega arith) in
        (inl (sym e), (le, le_trans_All (key x) (key a) l le d.0))

  pub length-take-le : (n : ℕ) (l : List A) → length (take n l) ≤ n
  length-take-le zero l = omega arith
  length-take-le (suc n) [] = omega arith
  length-take-le (suc n) (x ∷ l) = omega (arith, length-take-le n l)

  pub keep_if-All : (p : A → Bool) (l : List A) → All (λ x. p x ≡ true) (keep_if p l)
  keep_if-All p [] = tt
  keep_if-All p (x ∷ l) = elim (Bool-cases (p x)) [
    | inl e ↦ rw (e, All) (e, keep_if-All p l)
    | inr e ↦ rw (e, All) (keep_if-All p l)
  ]

  pub All-Holds : (P : A → Type 0) (a : A) (l : List A) → All P l → Holds a l → P a
  All-Holds P a [] h k = absurd k
  All-Holds P a (x ∷ l) h (inl q) = rw q h.0
  All-Holds P a (x ∷ l) h (inr k) = All-Holds P a l h.1 k

  pub fold_rows : (P : A → Type 0) (l : List A) → ((x : A) → Holds x l → P x) → All P l
  fold_rows P [] f = tt
  fold_rows P (x ∷ l) f = (f x (inl refl), fold_rows P l (λ y h. f y (inr h)))

  pub latest_first-Holds :
      (key : A → ℕ) (a : A) (l : List A) → Holds a (latest_first key l) → Holds a l
  latest_first-Holds key a l h =
      All-Holds (λ x. Holds x l) a (latest_first key l)
        (latest_first-All key (λ x. Holds x l) l (fold_rows (λ x. Holds x l) l (λ x k. k))) h
