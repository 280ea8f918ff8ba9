-- ===== src/Deployer/Ownership.antt =====
-- src/collectmind/registry/tenant_vehicles.py: get_owner and assign over the tenant_vehicles
-- table, and src/collectmind/cache/ownership_cache.py: OwnershipCache in front of it.
use snts_collectmind.Prelude.{
  ℕ, false, Option, none, some, List, ◌++◌, String, Text, codes, ◌≡◌, ◌≢◌, refl, arith,
  Option-cases, Bool-cases, inl, inr, codes_injective, sym, ap, drop, ◌∙◌,
}
use snts_collectmind.Prelude.Dict.{lookup, insert, string_eq, lookup-insert}

pub record VehicleOwnership : Type 0 where
  pub tenant_id : String
  pub assigned_at : String
  pub assigned_by_subject : String
  pub reason_code : String

-- The tenant_vehicles table, by vehicle_id.
abbrev pub Vehicles : Type 0
Vehicles = List (String × VehicleOwnership)

unfoldable pub owner_of : Vehicles → String → Option String
unfolding lookup
owner_of table vehicle_id = elim (lookup vehicle_id table) [
  | none ↦ none
  | some o ↦ some o.tenant_id
]

unfoldable pub assign : String → VehicleOwnership → Vehicles → Vehicles
unfolding insert
assign vehicle_id ownership table = insert vehicle_id ownership table

owner_of-assign :
    (table : Vehicles) (u v : String) (o : VehicleOwnership)
    → string_eq.beq u v ≡ false
    → owner_of (assign u o table) v ≡ owner_of table v
unfolding assign owner_of
owner_of-assign table u v o e = rw (lookup-insert u v o table, owner_of) (rw (e, owner_of) refl)

-- The calls of the Redis client that the cache makes, on a store `R`. `none` is a call that raises;
-- a GET that answers says what is there, if anything.
pub record RedisCalls (R : Type 0) : Type 0 where
  pub get : R → Text → Option (Option String)
  pub set : R → Text → String → ℕ → Option R
  pub delete : R → Text → R

abbrev pub cache_ttl_seconds : ℕ
cache_ttl_seconds = 3600

abbrev pub cache_key : String → Text
cache_key vehicle_id = codes "vehicle_ownership:" ++ codes vehicle_id

module _ {R : Type 0} (redis : RedisCalls R) where
  -- The write-back of the repository's answer.
  unfoldable pub write_back : R → String → Option String → R
  write_back r vehicle_id none = r
  write_back r vehicle_id (some owner) =
      elim (redis.set r (cache_key vehicle_id) owner cache_ttl_seconds) [
        | none ↦ r
        | some after ↦ after
      ]

  unfoldable pub from_cache : Option (Option String) → R → Vehicles → String → Option String × R
  unfolding owner_of write_back
  from_cache none r table vehicle_id = (owner_of table vehicle_id, r)
  from_cache (some (some cached)) r table vehicle_id = (some cached, r)
  from_cache (some none) r table vehicle_id =
      let owner = owner_of table vehicle_id in (owner, write_back r vehicle_id owner)

  unfoldable pub get_owner : R → Vehicles → String → Option String × R
  unfolding from_cache
  get_owner r table vehicle_id = from_cache (redis.get r (cache_key vehicle_id)) r table vehicle_id

  unfoldable pub invalidate : R → String → R
  invalidate r vehicle_id = redis.delete r (cache_key vehicle_id)

  -- What is documented of Redis: a GET finds a value only if a SET has put it there, and neither
  -- finds the value of another key.
  pub record IsRedis : Type 0 where
    pub set_own :
        (r after : R) (k : Text) (v w : String) (ttl : ℕ)
        → redis.set r k v ttl ≡ some after
        → redis.get after k ≡ some (some w)
        → w ≡ v
    pub set_other :
        (r after : R) (k j : Text) (v w : String) (ttl : ℕ)
        → redis.set r k v ttl ≡ some after
        → j ≢ k
        → redis.get after j ≡ some (some w)
        → redis.get r j ≡ some (some w)
    pub delete_own :
        (r : R) (k : Text) (w : String) → redis.get (redis.delete r k) k ≢ some (some w)
    pub delete_other :
        (r : R) (k j : Text) (w : String)
        → redis.get (redis.delete r k) j ≡ some (some w)
        → redis.get r j ≡ some (some w)

  -- What the cache holds is what the table says.
  abbrev pub IsFresh : R → Vehicles → Type 0
  IsFresh r table =
      (vehicle_id owner : String)
      → redis.get r (cache_key vehicle_id) ≡ some (some owner)
      → owner_of table vehicle_id ≡ some owner

  pub cache_key_injective : (u v : String) → cache_key u ≡ cache_key v → u ≡ v
  cache_key_injective u v h = codes_injective u v (ap (drop 18) h)

  set-IsFresh :
      IsRedis
      → (r after : R) (table : Vehicles) (vehicle_id owner : String) → IsFresh r table
      → owner_of table vehicle_id ≡ some owner
      → redis.set r (cache_key vehicle_id) owner cache_ttl_seconds ≡ some after
      → IsFresh after table
  set-IsFresh law r after table vehicle_id owner h e f v w k =
      elim (Bool-cases (string_eq.beq v vehicle_id)) [
        | inl g ↦
            let q = (string_eq.beq_iff v vehicle_id).0 g in
            let same : w ≡ owner =
              law.set_own r after (cache_key vehicle_id) owner w cache_ttl_seconds f
                (ap (λ u. redis.get after (cache_key u)) (sym q) ∙ k) in
            ap (owner_of table) q ∙ e ∙ ap some (sym same)
        | inr g ↦
            let differ : cache_key v ≢ cache_key vehicle_id = λ q. absurd (
              ground
                (arith, (string_eq.beq_iff v vehicle_id).1 (cache_key_injective v vehicle_id q))) in
            h v w (
              law.set_other r after (cache_key vehicle_id) (cache_key v) owner w cache_ttl_seconds f
                differ k)
      ]

  write_back-IsFresh :
      IsRedis
      → (r : R) (table : Vehicles) (vehicle_id : String) (found : Option String) → IsFresh r table
      → owner_of table vehicle_id ≡ found
      → IsFresh (write_back r vehicle_id found) table
  unfolding write_back
  write_back-IsFresh law r table vehicle_id none h e = h
  write_back-IsFresh law r table vehicle_id (some owner) h e =
      elim (Option-cases (redis.set r (cache_key vehicle_id) owner cache_ttl_seconds)) [
        | inl f ↦ rw (f, write_back) h
        | inr (after, f) ↦ rw (f, write_back) (set-IsFresh law r after table vehicle_id owner h e f)
      ]

  from_cache-right :
      (seen : Option (Option String)) (r : R) (table : Vehicles) (vehicle_id : String)
      → ((owner : String) → seen ≡ some (some owner) → owner_of table vehicle_id ≡ some owner)
      → (from_cache seen r table vehicle_id).0 ≡ owner_of table vehicle_id
  unfolding from_cache
  from_cache-right none r table vehicle_id h = refl
  from_cache-right (some none) r table vehicle_id h = refl
  from_cache-right (some (some cached)) r table vehicle_id h = sym (h cached refl)

  from_cache-IsFresh :
      IsRedis
      → (seen : Option (Option String)) (r : R) (table : Vehicles) (vehicle_id : String)
      → IsFresh r table
      → IsFresh (from_cache seen r table vehicle_id).1 table
  unfolding from_cache
  from_cache-IsFresh law none r table vehicle_id h = h
  from_cache-IsFresh law (some none) r table vehicle_id h =
      write_back-IsFresh law r table vehicle_id (owner_of table vehicle_id) h refl
  from_cache-IsFresh law (some (some cached)) r table vehicle_id h = h

  pub record Answered (r : R) (table : Vehicles) (vehicle_id : String) : Type 0 where
    pub right : (get_owner r table vehicle_id).0 ≡ owner_of table vehicle_id
    pub fresh : IsFresh (get_owner r table vehicle_id).1 table

  -- With a fresh cache, a lookup gives the owner in the table whether Redis answers or not, and
  -- leaves the cache fresh.
  pub get_owner_lem :
      IsRedis
      → (r : R) (table : Vehicles) (vehicle_id : String) → IsFresh r table
      → Answered r table vehicle_id
  unfolding get_owner
  get_owner_lem law r table vehicle_id h = record {
    right = from_cache-right (redis.get r (cache_key vehicle_id)) r table vehicle_id (h vehicle_id);
    fresh = from_cache-IsFresh law (redis.get r (cache_key vehicle_id)) r table vehicle_id h;
  }

  -- A change of owner followed by an invalidation of the vehicle leaves the cache fresh.
  pub invalidate_after_assign :
      IsRedis
      → (r : R) (table : Vehicles) (vehicle_id : String) (o : VehicleOwnership) → IsFresh r table
      → IsFresh (invalidate r vehicle_id) (assign vehicle_id o table)
  unfolding invalidate
  invalidate_after_assign law r table vehicle_id o h v owner k =
      elim (Bool-cases (string_eq.beq vehicle_id v)) [
        | inl e ↦
            let q = (string_eq.beq_iff vehicle_id v).0 e in
            absurd (
              law.delete_own r (cache_key vehicle_id) owner
                (ap (λ u. redis.get (redis.delete r (cache_key vehicle_id)) (cache_key u)) q ∙ k))
        | inr e ↦
            owner_of-assign table vehicle_id v o e
            ∙ h v owner (law.delete_other r (cache_key vehicle_id) (cache_key v) owner k)
      ]
