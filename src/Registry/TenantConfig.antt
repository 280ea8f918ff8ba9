-- ===== src/Registry/TenantConfig.antt =====
-- src/collectmind/registry/tenant_config.py: the rate limits of a tenant, read through a cache.
-- `time.monotonic()` is an argument of each call, in ticks of any length; `ttl` counts the same
-- ticks. The row that Postgres holds is an argument too: `none` where the tenant has no override.
pub mod Capacity
pub mod Staleness
pub mod Notify
use snts_collectmind.Prelude.{
  ℕ, ◌+◌, ◌≤◌, String, Bool, Option, none, some, List, [], ◌∷◌, ltb, leb, if◌then◌else◌, length,
}
use snts_collectmind.Prelude.Dict.{lookup, insert, erase, string_eq}

pub record RateLimitBucket : Type 0 where
  pub sustained_rps : ℕ
  pub burst_capacity : ℕ

pub data Source : Type 0 where
  default override : Source

pub record TenantConfig : Type 0 where
  pub tenant_id : String
  pub inbound : RateLimitBucket
  pub query : RateLimitBucket
  pub source : Source
  pub updated_at : Option String

abbrev pub default_inbound : RateLimitBucket
default_inbound = record { sustained_rps = 2000; burst_capacity = 4000 }

abbrev pub default_query : RateLimitBucket
default_query = record { sustained_rps = 200; burst_capacity = 400 }

unfoldable pub default_config : String → TenantConfig
default_config tenant_id = record {
  tenant_id = tenant_id;
  inbound = default_inbound;
  query = default_query;
  source = Source.default;
  updated_at = none;
}

-- A row of the tenant_config table; the query fixes its tenant_id.
pub record ConfigRow : Type 0 where
  pub inbound_sustained_rps : ℕ
  pub inbound_burst_capacity : ℕ
  pub query_sustained_rps : ℕ
  pub query_burst_capacity : ℕ
  pub updated_at : Option String

-- expires_at and the value
abbrev pub Entry : Type 0
Entry = ℕ × TenantConfig

pub record TtlCache : Type 0 where
  pub ttl : ℕ
  pub capacity : ℕ
  pub entries : List (String × Entry)

-- A value together with the cache after the call.
unfoldable pub get : ℕ → String → TtlCache → Option TenantConfig × TtlCache
get now tenant_id cache = elim (lookup tenant_id cache.entries) [
  | none ↦ (none, cache)
  | some (expires_at, value) ↦
      if ltb expires_at now
      then (none, record cache { entries = erase tenant_id cache.entries })
      else (some value, cache)
]

-- min(self._data, key=…): the first of the entries that expire soonest.
unfoldable pub oldest_from : String × ℕ → List (String × Entry) → String
oldest_from (key, expires_at) [] = key
oldest_from (key, expires_at) ((k, (x, c)) ∷ rest) =
    oldest_from (if ltb x expires_at then (k, x) else (key, expires_at)) rest

-- The eviction of a full cache; min() of an empty dict raises.
unfoldable pub drop_oldest : List (String × Entry) → Option (List (String × Entry))
drop_oldest [] = none
drop_oldest ((k, (x, c)) ∷ rest) = some (erase (oldest_from (k, x) rest) ((k, (x, c)) ∷ rest))

unfoldable pub evict : TtlCache → Option (List (String × Entry))
evict cache =
    if leb cache.capacity (length cache.entries)
    then drop_oldest cache.entries
    else some cache.entries

unfoldable pub put : ℕ → String → TenantConfig → TtlCache → Option TtlCache
put now tenant_id config cache = elim (evict cache) [
  | none ↦ none
  | some kept ↦ some (record cache { entries = insert tenant_id (now + cache.ttl, config) kept })
]

unfoldable pub invalidate : String → TtlCache → TtlCache
invalidate tenant_id cache = record cache { entries = erase tenant_id cache.entries }

-- The configuration that the row, or its absence, stands for.
unfoldable pub effective : String → Option ConfigRow → TenantConfig
effective tenant_id none = default_config tenant_id
effective tenant_id (some row) = record {
  tenant_id = tenant_id;
  inbound = record {
    sustained_rps = row.inbound_sustained_rps;
    burst_capacity = row.inbound_burst_capacity;
  };
  query = record {
    sustained_rps = row.query_sustained_rps;
    burst_capacity = row.query_burst_capacity;
  };
  source = Source.override;
  updated_at = row.updated_at;
}

-- What is returned once the value is put, or its put has raised.
unfoldable pub stored : TenantConfig → Option TtlCache → TtlCache → Option TenantConfig × TtlCache
stored config none cache = (none, cache)
stored config (some cache') cache = (some config, cache')

-- The read past the cache. The outer `none` is a read that raises; the result is `none` where the
-- call raises.
unfoldable pub read_through :
    ℕ → String → Option (Option ConfigRow) → TtlCache → Option TenantConfig × TtlCache
unfolding stored
read_through now tenant_id none cache = (none, cache)
read_through now tenant_id (some row) cache =
    let config = effective tenant_id row in stored config (put now tenant_id config cache) cache

unfoldable pub get_for_tenant :
    ℕ → String → Option (Option ConfigRow) → TtlCache → Option TenantConfig × TtlCache
get_for_tenant now tenant_id row cache =
    let (cached, cache') = get now tenant_id cache in
    elim cached [
      | some config ↦ (some config, cache')
      | none ↦ read_through now tenant_id row cache'
    ]
