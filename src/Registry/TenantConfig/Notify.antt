-- ===== src/Registry/TenantConfig/Notify.antt =====
-- The invalidation by the LISTEN/NOTIFY consumer.
use snts_collectmind.Prelude.{ℕ, String, Option, none, some, ◌≡◌, arith}
use snts_collectmind.Prelude.Dict.{string_eq, lookup-erase, beq_refl, length-erase-le}
use snts_collectmind.Registry.TenantConfig.{
  TtlCache, ConfigRow, get, invalidate, effective, stored, read_through, get_for_tenant,
}
use snts_collectmind.Registry.TenantConfig.Capacity.{Fits, get-put_self}

get-invalidate_self :
    (now : ℕ) (k : String) (cache : TtlCache)
    → get now k (invalidate k cache) ≡ (none, invalidate k cache)
unfolding get invalidate
get-invalidate_self now k cache = ground (arith, lookup-erase k k cache.entries, beq_refl k)

-- The read after a notification returns what the table holds now, whatever the cache held.
pub fresh_after_notify :
    (now : ℕ) (k : String) (row : Option ConfigRow) (cache : TtlCache)
    → Fits cache
    → (get_for_tenant now k (some row) (invalidate k cache)).0 ≡ some (effective k row)
unfolding get_for_tenant read_through stored
fresh_after_notify now k row cache h =
    let fits : Fits (invalidate k cache) =
      unfold invalidate in (h.0, omega (arith, length-erase-le k cache.entries)) in
    let (after, done, fits_after, read_back) =
      get-put_self now now k (effective k row) (invalidate k cache) fits in
    ground (arith, get-invalidate_self now k cache, done)
