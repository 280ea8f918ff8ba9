-- ===== src/HotStore/Keys.antt =====
-- Which tenants the keys of the hot store keep apart.
use snts_collectmind.Prelude.{
  Option, some, List, [], ◌∷◌, ◌++◌, Text, ◌≡◌, ◌≢◌, refl, sym, ap, ◌∙◌, All, Bool-cases, text_eq,
  ◌⊎◌, inl, inr, drop, head_or,
}
use snts_collectmind.Prelude.Dict.{
  lookup, insert, text_key, lookup-insert, lookup-insert_self, text_eq_iff,
}
use mathlib.Core.List.{append_assoc}
use snts_collectmind.HotStore.{
  hot_store_key, HotStore, HotStoreError, put_signal_for_tenant, get_signal_for_tenant,
}

abbrev pub ColonFree : Text → Type 0
ColonFree s = All (λ c. c ≢ b':') s

-- A text without colons ends where the first colon stands.
first_colon :
    (a b s t : Text)
    → ColonFree a
    → ColonFree b
    → a ++ (b':' ∷ s) ≡ b ++ (b':' ∷ t)
    → (a ≡ b) × (s ≡ t)
first_colon [] [] s t f g h = (refl, ap (drop 1) h)
first_colon [] (d ∷ b) s t f g h = absurd (g.0 (sym (ap (head_or 0) h)))
first_colon (c ∷ a) [] s t f g h = absurd (f.0 (ap (head_or 0) h))
first_colon (c ∷ a) (d ∷ b) s t f g h =
    let e : c ≡ d = ap (head_or 0) h in
    let k = first_colon a b s t f.1 g.1 (ap (drop 1) h) in (rw (e, k.0) refl, k.1)

-- The key of a tenant and a vehicle without colons determines them, and the signal.
pub hot_store_key_injective :
    (a b v w s t : Text)
    → ColonFree a
    → ColonFree b
    → ColonFree v
    → ColonFree w
    → hot_store_key a v s ≡ hot_store_key b w t
    → (a ≡ b) × (v ≡ w) × (s ≡ t)
unfolding hot_store_key
hot_store_key_injective a b v w s t fa fb fv fw h =
    let p = first_colon a b _ _ fa fb h in let q = first_colon v w s t fv fw p.1 in (p.0, q.0, q.1)

same_key :
    (a b v s : Text) → hot_store_key (a ++ (b':' ∷ b)) v s ≡ hot_store_key a (b ++ (b':' ∷ v)) s
unfolding hot_store_key
same_key a b v s = simp append_assoc

-- What a tenant reads after a write that was accepted.
abbrev pub Reads : Text → Text → Text → Option Text → HotStoreError ⊎ HotStore → Type 0
Reads tenant vehicle signal r (inl e) = ⊥
Reads tenant vehicle signal r (inr store) =
    get_signal_for_tenant tenant vehicle signal store ≡ inr r

abbrev pub connected : List (Text × Text) → HotStore
connected values = record { client = some values }

lookup-insert_other :
    (k j value : Text) (values : List (Text × Text))
    → k ≢ j
    → lookup j (insert k value values) ≡ lookup j values
lookup-insert_other k j value values h =
    lookup-insert k j value values ∙ elim (Bool-cases (text_eq k j)) [
      | inl e ↦ absurd (h ((text_eq_iff k j).0 e))
      | inr e ↦ rw e refl
    ]

-- Over tenants and vehicles without colons, a write is accepted, the tenant reads what it wrote,
-- and what any other tenant reads is as before.
pub put_keeps_tenants_apart :
    (a b v w s t value : Text) (values : List (Text × Text))
    → ColonFree a
    → ColonFree b
    → ColonFree v
    → ColonFree w
    → a ≢ b
    → Reads a v s (some value) (put_signal_for_tenant a v s value (connected values))
      × Reads b w t
          (lookup (hot_store_key b w t) values)
          (put_signal_for_tenant a v s value (connected values))
unfolding put_signal_for_tenant get_signal_for_tenant
put_keeps_tenants_apart a b v w s t value values fa fb fv fw h = (
  ap inr (lookup-insert_self (hot_store_key a v s) value values),
  ap inr (
      lookup-insert_other (hot_store_key a v s) (hot_store_key b w t) value values
        (λ e. h (hot_store_key_injective a b v w s t fa fb fv fw e).0)),
)

-- A tenant whose name is that of another, a colon and more reads a value of the other: what stands
-- behind the colon goes over into the vehicle.
pub colon_crosses_tenants :
    (a b v s value : Text) (values : List (Text × Text))
    → Reads
        (a ++ (b':' ∷ b))
        v
        s
        (some value)
        (put_signal_for_tenant a (b ++ (b':' ∷ v)) s value (connected values))
unfolding put_signal_for_tenant get_signal_for_tenant
colon_crosses_tenants a b v s value values =
    ap inr (
      rw (same_key a b v s) (lookup-insert_self (hot_store_key a (b ++ (b':' ∷ v)) s) value values))
