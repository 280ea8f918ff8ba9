-- ===== src/Registry/Audit/Coalesce.antt =====
-- One row for a correlation and a kind: what the conflict clause of AuditEventWriter.write gives.
use snts_collectmind.Prelude.{
  Bool, true, false, Option, none, some, List, [], ◌∷◌, ◌++◌, String, ◌==◌, ◌⊎◌, inl, inr, ◌≡◌,
  refl, arith, sym, All, All-append, All-mono, Bool-cases, Option-cases, eq_iff, eq_refl,
}
use snts_collectmind.Registry.Audit.{
  AuditWrite, AuditEvent, AuditError, no_existing_row, missing, row_of, same_key, find_row, visible,
  settle, own_key, seen_key, upsert, unless_missing, write,
}

-- No two rows share a correlation and a kind.
abbrev pub IsUnique : List AuditEvent → Type 0
IsUnique [] = Unit
IsUnique (r ∷ table) =
    All (λ q. same_key r.written.correlation_id r.written.kind q ≡ false) table × IsUnique table

find_row-none :
    (p : AuditEvent → Bool) (table : List AuditEvent)
    → find_row p table ≡ none
    → All (λ r. p r ≡ false) table
unfolding find_row
find_row-none p [] h = tt
find_row-none p (r ∷ table) h = elim (Bool-cases (p r)) [
  | inl e ↦ absurd (ground arith)
  | inr e ↦ (e, find_row-none p table (ground arith))
]

same_key-sym :
    (r q : AuditEvent)
    → same_key q.written.correlation_id q.written.kind r ≡ false
    → same_key r.written.correlation_id r.written.kind q ≡ false
same_key-sym r q h = ground (
  arith,
  eq_iff r.written.correlation_id q.written.correlation_id,
  eq_iff r.written.kind q.written.kind,
  eq_iff q.written.correlation_id r.written.correlation_id,
  eq_iff q.written.kind r.written.kind,
)

append-IsUnique :
    (table : List AuditEvent) (q : AuditEvent)
    → All (λ r. same_key q.written.correlation_id q.written.kind r ≡ false) table
    → IsUnique table
    → IsUnique (table ++ (q ∷ []))
append-IsUnique [] q h u = (tt, tt)
append-IsUnique (r ∷ table) q h u =
    (All-append _ table (q ∷ []) u.0 (same_key-sym r q h.0, tt), append-IsUnique table q h.1 u.1)

-- What a write leaves behind: the table it found, or that with the new row at the end.
abbrev pub Kept : List AuditEvent → AuditError ⊎ (String × List AuditEvent) → Type 0
Kept table (inl e) = Unit
Kept table (inr (id, after)) =
    IsUnique after × ((after ≡ table) ⊎ ((r : AuditEvent) × (after ≡ (table ++ (r ∷ [])))))

settle-Kept :
    (hit seen : Option AuditEvent) (row : AuditEvent) (table : List AuditEvent)
    → (hit ≡ none → All (λ r. own_key row r ≡ false) table)
    → IsUnique table
    → Kept table (settle hit seen row table)
settle-Kept none seen row table h u = (append-IsUnique table row (h refl) u, inr (row, refl))
settle-Kept (some other) none row table h u = tt
settle-Kept (some other) (some existing) row table h u = (u, inl refl)

unless_missing-Kept :
    (names : List String) (table : List AuditEvent) (r : AuditError ⊎ (String × List AuditEvent))
    → Kept table r
    → Kept table (unless_missing names r)
unless_missing-Kept [] table r h = h
unless_missing-Kept (name ∷ names) table r h = tt

-- A write keeps the rows unique by correlation and kind and changes none that is there: it leaves
-- the table as it is, or adds one row at its end.
pub write-IsUnique :
    (id now : String) (w : AuditWrite) (table : List AuditEvent)
    → IsUnique table
    → Kept table (write id now w table)
unfolding write upsert
write-IsUnique id now w table u =
    let row = row_of id now w in
    unless_missing-Kept (missing w) table _
      (settle-Kept _ _ row table (find_row-none (own_key row) table) u)

find_row-append_hit :
    (p : AuditEvent → Bool) (table : List AuditEvent) (r : AuditEvent)
    → find_row p table ≡ none
    → p r ≡ true
    → find_row p (table ++ (r ∷ [])) ≡ some r
unfolding find_row
find_row-append_hit p [] r h k = ground arith
find_row-append_hit p (q ∷ table) r h k = ground (arith, find_row-append_hit p table r)

find_row-weaken :
    (p q : AuditEvent → Bool) (table : List AuditEvent)
    → ((r : AuditEvent) → p r ≡ true → q r ≡ true)
    → find_row q table ≡ none
    → find_row p table ≡ none
unfolding find_row
find_row-weaken p q [] f h = refl
find_row-weaken p q (r ∷ table) f h = ground (arith, find_row-weaken p q table f, f r)

-- The tenant and the key that an upsert goes by.
pub record SameKey (v w : AuditWrite) : Type 0 where
  pub tenant : v.tenant_id ≡ w.tenant_id
  pub correlation : v.correlation_id ≡ w.correlation_id
  pub kind : v.kind ≡ w.kind

module _ (p m : AuditEvent → Bool) (narrow : (r : AuditEvent) → m r ≡ true → p r ≡ true) where
  abbrev Found : String → List AuditEvent → Type 0
  Found got after = (e : AuditEvent) × (find_row m after ≡ some e) × (e.event_id ≡ got)

  -- The row that an upsert answers with is seen by the same search afterwards.
  settle-Found :
      (row : AuditEvent) (table after : List AuditEvent) (got : String)
      → m row ≡ true
      → settle (find_row p table) (find_row m table) row table ≡ inr (got, after)
      → Found got after
  settle-Found row table after got k h = elim (Option-cases (find_row p table)) [
    | inl f ↦
        let q : after ≡ (table ++ (row ∷ [])) = ground arith in
        (
          row,
          rw q (find_row-append_hit m table row (find_row-weaken m p table narrow f) k),
          ground arith,
        )
    | inr (other, f) ↦ elim (Option-cases (find_row m table)) [
      | inl g ↦ absurd (ground arith)
      | inr (existing, g) ↦ (existing, ground arith, ground arith)
    ]
  ]

  settle-again :
      (again : AuditEvent) (after : List AuditEvent) (got : String)
      → Found got after
      → settle (find_row p after) (find_row m after) again after ≡ inr (got, after)
  settle-again again after got (e, f, q) = elim (Option-cases (find_row p after)) [
    | inl g ↦ absurd (ground (arith, find_row-weaken m p after narrow g))
    | inr (other, g) ↦ rw (g, settle) (rw (f, settle) (ground arith))
  ]

seen_own : (row : AuditEvent) → seen_key row row ≡ true
seen_own row = simp eq_refl

narrow_key : (row r : AuditEvent) → seen_key row r ≡ true → own_key row r ≡ true
narrow_key row r h = ground arith

again_at :
    (t c k : String) (row again : AuditEvent) (table after : List AuditEvent) (got : String)
    → upsert row table ≡ inr (got, after)
    → row.written.tenant_id ≡ t
    → row.written.correlation_id ≡ c
    → row.written.kind ≡ k
    → settle (find_row (same_key c k) after) (find_row (visible t (same_key c k)) after) again after
      ≡ inr (got, after)
unfolding upsert
again_at t c k row again table after got h a b d =
    rw (sym a, sym b, sym d)
      (settle-again (own_key row) (seen_key row) (narrow_key row) again after got (
        settle-Found (own_key row) (seen_key row) (narrow_key row) row table after got
          (seen_own row) h))

upsert_again :
    (row again : AuditEvent) (table after : List AuditEvent) (got : String)
    → upsert row table ≡ inr (got, after)
    → SameKey row.written again.written
    → upsert again after ≡ inr (got, after)
unfolding upsert
upsert_again row again table after got h s =
    again_at _ _ _ row again table after got h s.tenant s.correlation s.kind

unless_missing_ok :
    {A : Type 0} (names : List String) (r : AuditError ⊎ A) (a : A)
    → unless_missing names r ≡ inr a
    → r ≡ inr a
unless_missing_ok [] r a h = h
unless_missing_ok (name ∷ names) r a h = absurd (ground arith)

-- A write that repeats the tenant, the correlation and the kind of one that succeeded is answered
-- with the id of the row that is there, and adds nothing, whatever else it carries, as long as its
-- own fields are complete.
pub retry_coalesces :
    (id now id2 now2 : String) (v w : AuditWrite) (table after : List AuditEvent) (got : String)
    → write id now v table ≡ inr (got, after)
    → SameKey v w
    → missing w ≡ []
    → write id2 now2 w after ≡ inr (got, after)
unfolding write row_of
retry_coalesces id now id2 now2 v w table after got h s m = rw m (
    upsert_again (row_of id now v) (row_of id2 now2 w) table after got
      (unless_missing_ok (missing v) _ (got, after) h)
      (record { tenant = s.tenant; correlation = s.correlation; kind = s.kind }))

same_key-eq :
    (c k : String) (r : AuditEvent)
    → same_key c k r ≡ true
    → (r.written.correlation_id ≡ c) × (r.written.kind ≡ k)
same_key-eq c k r h = ground (arith, eq_iff r.written.correlation_id c, eq_iff r.written.kind k)

unseen :
    (c k t : String) (table : List AuditEvent)
    → All (λ q. same_key c k q ≡ false) table
    → find_row (visible t (same_key c k)) table ≡ none
unfolding find_row
unseen c k t [] h = refl
unseen c k t (r ∷ table) h = ground (arith, unseen c k t table h.1)

hidden :
    (c k t : String) (table : List AuditEvent) (other : AuditEvent)
    → IsUnique table
    → find_row (same_key c k) table ≡ some other
    → (other.written.tenant_id == t) ≡ false
    → find_row (visible t (same_key c k)) table ≡ none
unfolding find_row
hidden c k t [] other u h n = refl
hidden c k t (r ∷ table) other u h n = elim (Bool-cases (same_key c k r)) [
  | inl e ↦
      let q = same_key-eq c k r e in
      let rest =
        All-mono {Q = λ q. same_key c k q ≡ false} table (λ x f. rw (sym q.0, sym q.1) f) u.0 in
      ground (arith, unseen c k t table rest)
  | inr e ↦ ground (arith, hidden c k t table other u.1)
]

-- The key is not the tenant's own: if the table has a row of another tenant with the correlation
-- and the kind, a write with complete fields raises, and the event is not recorded.
pub write_blocked :
    (id now : String) (w : AuditWrite) (table : List AuditEvent) (other : AuditEvent)
    → IsUnique table
    → find_row (same_key w.correlation_id w.kind) table ≡ some other
    → (other.written.tenant_id == w.tenant_id) ≡ false
    → missing w ≡ []
    → write id now w table ≡ inl no_existing_row
unfolding write row_of upsert
write_blocked id now w table other u h n m =
    rw m (rw h (rw (hidden w.correlation_id w.kind w.tenant_id table other u h n) refl))
