-- ===== src/Registry/TenantConfig/Capacity.antt =====
-- The cache never outgrows its capacity, and what is put is got back for the time to live.
use snts_collectmind.Prelude.{
  ℕ, ◌+◌, ◌≤◌, ◌<◌, String, true, none, some, List, [], ◌∷◌, ◌≡◌, refl, ltb, leb, if◌then◌else◌,
  length, arith, All, Bool-cases, inl, inr,
}
use snts_collectmind.Prelude.Dict.{
  insert, erase, string_eq, lookup-insert_self, length-insert-le, length-erase_found, has, All-has,
  has-found,
}
use snts_collectmind.Registry.TenantConfig.{
  TenantConfig, TtlCache, Entry, get, put, evict, drop_oldest, oldest_from,
}

abbrev pub Fits : TtlCache → Type 0
Fits cache = (0 < cache.capacity) × (length cache.entries ≤ cache.capacity)

-- The key that is evicted is a key of the dictionary.
oldest_from-has :
    (m : List (String × Entry)) (key : String) (x : ℕ) (rest : List (String × Entry))
    → has key m ≡ true
    → All (λ p. has p.0 m ≡ true) rest
    → has (oldest_from (key, x) rest) m ≡ true
unfolding oldest_from
oldest_from-has m key x [] h hs = h
oldest_from-has m key x ((k, (y, c)) ∷ rest) h hs = elim (Bool-cases (ltb y x)) [
  | inl e ↦ rw e (oldest_from-has m k y rest hs.0 hs.1)
  | inr e ↦ rw e (oldest_from-has m key x rest h hs.1)
]

drop_oldest-shorter :
    (m : List (String × Entry))
    → 0 < length m
    → (kept : List (String × Entry)) × (drop_oldest m ≡ some kept) × (length kept < length m)
unfolding drop_oldest
drop_oldest-shorter [] h = absurd (omega arith)
drop_oldest-shorter ((k, (x, c)) ∷ rest) h =
    let m : List (String × Entry) = (k, (x, c)) ∷ rest in
    let old = oldest_from (k, x) rest in
    let there = All-has m in
    let (v, found) = has-found old m (oldest_from-has m k x rest there.0 there.1) in
    (erase old m, refl, length-erase_found old v m found)

-- An eviction succeeds and makes room.
evict_room :
    (cache : TtlCache)
    → Fits cache
    → (kept : List (String × Entry)) × (evict cache ≡ some kept) × (length kept < cache.capacity)
unfolding evict
evict_room cache h = elim (Bool-cases (leb cache.capacity (length cache.entries))) [
  | inr e ↦ rw e (cache.entries, refl, ground arith)
  | inl e ↦
      let (kept, done, less) = drop_oldest-shorter cache.entries (ground arith) in
      rw e (kept, done, omega arith)
]

-- A write into a cache within its capacity succeeds, leaves it within its capacity, and is read
-- back until the time to live has passed and not after.
pub get-put_self :
    (now later : ℕ) (k : String) (config : TenantConfig) (cache : TtlCache)
    → Fits cache
    → (after : TtlCache) × (put now k config cache ≡ some after)
      × Fits after
      × ((get later k after).0 ≡ (if leb later (now + cache.ttl) then some config else none))
unfolding put get
get-put_self now later k config cache h =
    let (kept, done, room) = evict_room cache h in
    (
      record cache { entries = insert k (now + cache.ttl, config) kept },
      rw (done, put),
      (h.0, omega (arith, length-insert-le k (now + cache.ttl, config) kept)),
      ground (arith, lookup-insert_self k (now + cache.ttl, config) kept),
    )
