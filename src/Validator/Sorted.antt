-- ===== src/Validator/Sorted.antt =====
-- sorted({…}): the distinct texts of a list, in the order of their code points.
use snts_collectmind.Prelude.{
  Bool, true, false, ◌&&◌, ◌||◌, List, [], ◌∷◌, ◌≡◌, refl, Text, text_eq, ltb, nat_eq,
  if◌then◌else◌, arith, any,
}
use snts_collectmind.Prelude.Dict.{text_eq_iff}

unfoldable pub text_lt : Text → Text → Bool
text_lt [] [] = false
text_lt [] (d ∷ t) = true
text_lt (c ∷ s) [] = false
text_lt (c ∷ s) (d ∷ t) = ltb c d || (nat_eq c d && text_lt s t)

unfoldable pub add_sorted : Text → List Text → List Text
add_sorted a [] = a ∷ []
add_sorted a (b ∷ bs) =
    let rest = add_sorted a bs in
    if text_lt a b then a ∷ b ∷ bs else if text_eq a b then b ∷ bs else b ∷ rest

unfoldable pub sorted_set : List Text → List Text
unfolding add_sorted text_lt
sorted_set [] = []
sorted_set (a ∷ l) = add_sorted a (sorted_set l)

-- x in l
abbrev pub contains : Text → List Text → Bool
contains x l = any (λ y. text_eq x y) l

text_lt-total : (a b : Text) → text_lt a b ≡ false → text_eq a b ≡ false → text_lt b a ≡ true
unfolding text_lt
text_lt-total [] [] h k = absurd (ground (arith, text_eq_iff [] []))
text_lt-total [] (d ∷ t) h k = absurd (ground arith)
text_lt-total (c ∷ s) [] h k = refl
text_lt-total (c ∷ s) (d ∷ t) h k =
    ground (arith, text_lt-total s t, text_eq_iff s t, text_eq_iff (c ∷ s) (d ∷ t))

-- Each text is below the next.
abbrev pub Ascending : List Text → Type 0
Ascending [] = Unit
Ascending (a ∷ []) = Unit
Ascending (a ∷ b ∷ l) = (text_lt a b ≡ true) × Ascending (b ∷ l)

add_sorted-Ascending : (a : Text) (l : List Text) → Ascending l → Ascending (add_sorted a l)
unfolding add_sorted
add_sorted-Ascending a [] h = tt
add_sorted-Ascending a (b ∷ []) h = ground (arith, text_lt-total a b)
add_sorted-Ascending a (b ∷ c ∷ l) h =
    ground (arith, text_lt-total a b, add_sorted-Ascending a (c ∷ l) h.1)

pub sorted_set-Ascending : (l : List Text) → Ascending (sorted_set l)
unfolding sorted_set
sorted_set-Ascending [] = tt
sorted_set-Ascending (a ∷ l) = add_sorted-Ascending a (sorted_set l) (sorted_set-Ascending l)

contains-add_sorted :
    (x a : Text) (l : List Text) → contains x (add_sorted a l) ≡ (text_eq x a || contains x l)
unfolding add_sorted
contains-add_sorted x a [] = refl
contains-add_sorted x a (b ∷ bs) =
    ground (arith, contains-add_sorted x a bs, text_eq_iff a b, text_eq_iff x b, text_eq_iff x a)

-- A set keeps the members of the list that it is made of.
pub contains-sorted_set : (x : Text) (l : List Text) → contains x (sorted_set l) ≡ contains x l
unfolding sorted_set
contains-sorted_set x [] = refl
contains-sorted_set x (a ∷ l) = rw contains-add_sorted (rw (contains-sorted_set x l))

-- sorted(l), duplicates kept
unfoldable pub insert_text : Text → List Text → List Text
insert_text a [] = a ∷ []
insert_text a (b ∷ bs) = let rest = insert_text a bs in if text_lt b a then b ∷ rest else a ∷ b ∷ bs

unfoldable pub sorted : List Text → List Text
unfolding insert_text text_lt
sorted [] = []
sorted (a ∷ l) = insert_text a (sorted l)

any-insert_text :
    (p : Text → Bool) (a : Text) (l : List Text) → any p (insert_text a l) ≡ (p a || any p l)
unfolding insert_text
any-insert_text p a [] = refl
any-insert_text p a (b ∷ bs) = ground (arith, any-insert_text p a bs)

-- A search of a sorted list finds what a search of the list finds.
pub any-sorted : (p : Text → Bool) (l : List Text) → any p (sorted l) ≡ any p l
unfolding sorted
any-sorted p [] = refl
any-sorted p (a ∷ l) = rw any-insert_text (rw (any-sorted p l))
