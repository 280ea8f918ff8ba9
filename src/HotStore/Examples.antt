-- ===== src/HotStore/Examples.antt =====
-- The hot store at concrete inputs: two tenants with one vehicle each.
use snts_collectmind.Prelude.{some, [], codes, ◌≡◌, ◌≢◌, ap, arith, head_or, ℕ}
use snts_collectmind.Prelude.Dict.{lookup, text_key}
use snts_collectmind.HotStore.{hot_store_key, put_signal_for_tenant}
use snts_collectmind.HotStore.Keys.{Reads, connected, put_keeps_tenants_apart}

acme-ne-globex : codes "acme" ≢ codes "globex"
acme-ne-globex h = let e : ◌≡◌ {A = ℕ} 97 103 = ap (head_or 0) h in absurd (omega arith)

put_keeps_tenants_apart_example :
    Reads
      (codes "acme")
      (codes "v1")
      (codes "s")
      (some (codes "7"))
      (put_signal_for_tenant (codes "acme") (codes "v1") (codes "s") (codes "7") (connected []))
    × Reads
        (codes "globex")
        (codes "v1")
        (codes "s")
        (lookup (hot_store_key (codes "globex") (codes "v1") (codes "s")) [])
        (put_signal_for_tenant (codes "acme") (codes "v1") (codes "s") (codes "7") (connected []))
put_keeps_tenants_apart_example =
    put_keeps_tenants_apart (codes "acme") (codes "globex") (codes "v1") (codes "v1") (codes "s")
      (codes "s") (codes "7") [] (omega arith) (omega arith) (omega arith) (omega arith)
      acme-ne-globex
