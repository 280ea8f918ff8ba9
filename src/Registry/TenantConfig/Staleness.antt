-- ===== src/Registry/TenantConfig/Staleness.antt =====
-- How old a configuration can be. `rows` is the history of the table: what Postgres holds for a
-- tenant at each time.
use snts_collectmind.Prelude.{
  ℕ, ◌+◌, ◌≤◌, String, Bool, true, false, Option, none, some, List, [], ◌∷◌, ◌≡◌, refl, leb,
  if◌then◌else◌, length, arith, inl, inr, Bool-cases, Option-cases, ◌==◌, eq_iff, ◌∙◌,
}
use snts_collectmind.Prelude.Dict.{lookup, insert, erase, string_eq, lookup-insert, lookup-erase}
use snts_collectmind.Registry.TenantConfig.{
  TenantConfig, TtlCache, Entry, get, put, invalidate, evict, drop_oldest, oldest_from,
  get_for_tenant, stored, read_through, ConfigRow, effective,
}

-- Nothing but entries of `m` is left.
abbrev Subdict : List (String × Entry) → List (String × Entry) → Type 0
Subdict n m = (j : String) (v : Entry) → lookup j n ≡ some v → lookup j m ≡ some v

erase-Subdict : (k : String) (m : List (String × Entry)) → Subdict (erase k m) m
erase-Subdict k m j v h = ground (arith, lookup-erase k j m)

drop_oldest-Subdict : (m kept : List (String × Entry)) → drop_oldest m ≡ some kept → Subdict kept m
unfolding drop_oldest
drop_oldest-Subdict [] kept h j v p = absurd (ground arith)
drop_oldest-Subdict ((k, (x, c)) ∷ rest) kept h j v p =
    let m : List (String × Entry) = (k, (x, c)) ∷ rest in
    erase-Subdict (oldest_from (k, x) rest) m j v (ground arith)

evict-Subdict :
    (cache : TtlCache) (kept : List (String × Entry))
    → evict cache ≡ some kept
    → Subdict kept cache.entries
unfolding evict
evict-Subdict cache kept h j v p = elim (Bool-cases (leb cache.capacity (length cache.entries))) [
  | inl e ↦ drop_oldest-Subdict cache.entries kept (rw e at h) j v p
  | inr e ↦ ground arith
]

get-Subdict :
    (now : ℕ) (k : String) (cache : TtlCache) → Subdict (get now k cache).1.entries cache.entries
unfolding get
get-Subdict now k cache j v p = ground (arith, erase-Subdict k cache.entries j v)

module _ (rows : ℕ → String → Option ConfigRow) (ttl : ℕ) where
  -- A value that the table stood for at some time no earlier than one time to live before `now`.
  abbrev pub IsRecent : ℕ → String → TenantConfig → Type 0
  IsRecent now k config =
      (read_at : ℕ) × (read_at ≤ now)
      × (now ≤ read_at + ttl)
      × (config ≡ effective k (rows read_at k))

  -- Each entry was read from the table one time to live before it expires, and not in the future.
  pub record IsHistory (now : ℕ) (entries : List (String × Entry)) : Type 0 where
    pub at_key :
        (k : String) (x : ℕ) (config : TenantConfig)
        → lookup k entries ≡ some (x, config)
        → (read_at : ℕ) × (read_at ≤ now)
          × (x ≡ read_at + ttl)
          × (config ≡ effective k (rows read_at k))

  Subdict-IsHistory :
      {now : ℕ} (m n : List (String × Entry)) → Subdict n m → IsHistory now m → IsHistory now n
  Subdict-IsHistory m n sub h = record { at_key = λ k x c p. h.at_key k x c (sub k (x, c) p) }

  insert-IsHistory :
      (now : ℕ) (k : String) (m : List (String × Entry))
      → IsHistory now m
      → IsHistory now (insert k (now + ttl, effective k (rows now k)) m)
  insert-IsHistory now k m h = record {
    at_key = λ j x c p. elim (Bool-cases (k == j)) [
      | inl e ↦ (
        now,
        omega arith,
        ground (arith, lookup-insert k j (now + ttl, effective k (rows now k)) m),
        ground (arith, eq_iff k j, lookup-insert k j (now + ttl, effective k (rows now k)) m),
      )
      | inr e ↦
          h.at_key j x c (ground (arith, lookup-insert k j (now + ttl, effective k (rows now k)) m))
    ];
  }

  -- A cached value that is returned has not expired.
  get-IsRecent :
      (now : ℕ) (k : String) (cache : TtlCache) (config : TenantConfig)
      → IsHistory now cache.entries
      → (get now k cache).0 ≡ some config
      → IsRecent now k config
  unfolding get
  get-IsRecent now k cache config h p = elim (Option-cases (lookup k cache.entries)) [
    | inl e ↦ absurd (ground arith)
    | inr ((x, c), e) ↦
        let (read_at, past, expiry, value) = h.at_key k x c e in
        (read_at, past, ground arith, ground arith)
  ]

  put-IsHistory :
      (now : ℕ) (k : String) (cache after : TtlCache)
      → cache.ttl ≡ ttl
      → IsHistory now cache.entries
      → put now k (effective k (rows now k)) cache ≡ some after
      → IsHistory now after.entries × (after.ttl ≡ ttl)
  unfolding put
  put-IsHistory now k cache after t h p = elim (Option-cases (evict cache)) [
    | inl e ↦ absurd (ground arith)
    | inr (kept, e) ↦
        let written : List (String × Entry) = insert k (now + ttl, effective k (rows now k)) kept in
        let q : after ≡ record cache { entries = written } = ground arith in
        rw q (
          insert-IsHistory now k kept
              (Subdict-IsHistory cache.entries kept (evict-Subdict cache kept e) h),
          t,
        )
  ]

  pub record IsCurrent (now : ℕ) (cache : TtlCache) : Type 0 where
    pub same_ttl : cache.ttl ≡ ttl
    pub history : IsHistory now cache.entries

  get-ttl : (now : ℕ) (k : String) (cache : TtlCache) → (get now k cache).1.ttl ≡ cache.ttl
  unfolding get
  get-ttl now k cache = ground arith

  get-IsCurrent :
      (now : ℕ) (k : String) (cache : TtlCache)
      → IsCurrent now cache
      → IsCurrent now (get now k cache).1
  get-IsCurrent now k cache h = record {
    same_ttl = get-ttl now k cache ∙ h.same_ttl;
    history = Subdict-IsHistory cache.entries _ (get-Subdict now k cache) h.history;
  }

  -- A read, whether Postgres answers with the row it holds now or fails.
  unfoldable pub read_answers : ℕ → String → Bool → Option (Option ConfigRow)
  read_answers now k up = if up then some (rows now k) else none

  -- A result that is recent, with a cache that is current.
  pub record IsServed (now : ℕ) (k : String) (r : Option TenantConfig × TtlCache) : Type 0 where
    pub current : IsCurrent now r.1
    pub recent : (config : TenantConfig) → r.0 ≡ some config → IsRecent now k config

  stored-IsServed :
      (now : ℕ) (k : String) (cache : TtlCache) (o : Option TtlCache)
      → put now k (effective k (rows now k)) cache ≡ o
      → IsCurrent now cache
      → IsServed now k (stored (effective k (rows now k)) o cache)
  unfolding stored
  stored-IsServed now k cache none e h = record {
    current = h;
    recent = λ config p. absurd (ground arith);
  }
  stored-IsServed now k cache (some after) e h =
      let (history, same) = put-IsHistory now k cache after h.same_ttl h.history e in
      record {
        current = record { same_ttl = same; history = history };
        recent = λ config p. (now, omega arith, omega arith, ground arith);
      }

  read_through-IsServed :
      (now : ℕ) (k : String) (up : Bool) (cache : TtlCache)
      → IsCurrent now cache
      → IsServed now k (read_through now k (read_answers now k up) cache)
  unfolding read_through read_answers
  read_through-IsServed now k true cache h = stored-IsServed now k cache _ refl h
  read_through-IsServed now k false cache h = record {
    current = h;
    recent = λ config p. absurd (ground arith);
  }

  pub get_for_tenant-IsServed :
      (now : ℕ) (k : String) (up : Bool) (cache : TtlCache)
      → IsCurrent now cache
      → IsServed now k (get_for_tenant now k (read_answers now k up) cache)
  unfolding get_for_tenant
  get_for_tenant-IsServed now k up cache h = elim (Option-cases (get now k cache).0) [
    | inl e ↦
        rw (e, get_for_tenant)
          (read_through-IsServed now k up (get now k cache).1 (get-IsCurrent now k cache h))
    | inr (config, e) ↦
        rw (e, get_for_tenant)
          (record {
            current = get-IsCurrent now k cache h;
            recent = λ c p. get-IsRecent now k cache c h.history (e ∙ p);
          })
  ]

  -- The calls that change the cache, and the time that passes between them.
  pub data Step : ℕ × TtlCache → ℕ × TtlCache → Type 0 where
    wait : (d now : ℕ) (cache : TtlCache) → Step (now, cache) (now + d, cache)
    notify : (k : String) (now : ℕ) (cache : TtlCache) → Step (now, cache) (now, invalidate k cache)
    read :
        (k : String) (up : Bool) (now : ℕ) (cache : TtlCache)
        → Step (now, cache) (now, (get_for_tenant now k (read_answers now k up) cache).1)

  pub data Reach (s : ℕ × TtlCache) : ℕ × TtlCache → Type 0 where
    here : Reach s s
    next : {t u : ℕ × TtlCache} → Reach s t → Step t u → Reach s u
