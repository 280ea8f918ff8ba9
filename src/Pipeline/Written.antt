-- ===== src/Pipeline/Written.antt =====
-- What the audit writes of GraphRunner.run_async leave in the audit table.
use snts_collectmind.Prelude.{
  Bool, true, false, ◌||◌, none, some, List, [], ◌∷◌, ◌++◌, any, String, ◌⊎◌, inl, inr, ◌≡◌, refl,
  sym, ◌∙◌, arith, Bool-cases, Option-cases, eq_refl,
}
use snts_collectmind.Prelude.Rows.{Holds}
use snts_collectmind.Graph.Runner.{
  Effect, write_audit, insert_policy, insert_deployment, simulate_telemetry, key_error, finished,
  perform,
}
use snts_collectmind.Registry.Audit.{
  AuditWrite, AuditEvent, AuditError, same_key, find_row, visible, settle, own_key, seen_key,
  upsert, unless_missing, missing, row_of, write,
}
use snts_collectmind.Registry.Policies
use snts_collectmind.Registry.Deployments
use snts_collectmind.Pipeline.{Stores, World, audited, write_row, carry_out}

-- A row of the kind for the correlation, that the tenant sees.
abbrev pub Listed : String → String → String → List AuditEvent → Type 0
Listed tenant_id correlation_id kind table =
    any (visible tenant_id (same_key correlation_id kind)) table ≡ true

-- There is a row of the key, and the tenant sees none.
abbrev pub Blocked : String → String → String → List AuditEvent → Type 0
Blocked tenant_id correlation_id kind table =
    (any (same_key correlation_id kind) table ≡ true)
    × (any (visible tenant_id (same_key correlation_id kind)) table ≡ false)

find_row-some :
    (p : AuditEvent → Bool) (table : List AuditEvent) (e : AuditEvent)
    → find_row p table ≡ some e
    → any p table ≡ true
unfolding find_row
find_row-some p [] e h = absurd (ground arith)
find_row-some p (r ∷ table) e h = ground (arith, find_row-some p table e)

find_row-none :
    (p : AuditEvent → Bool) (table : List AuditEvent)
    → find_row p table ≡ none
    → any p table ≡ false
unfolding find_row
find_row-none p [] h = refl
find_row-none p (r ∷ table) h = ground (arith, find_row-none p table)

any-snoc :
    (p : AuditEvent → Bool) (table : List AuditEvent) (r : AuditEvent)
    → any p (table ++ (r ∷ [])) ≡ (any p table || p r)
any-snoc p [] r = ground arith
any-snoc p (q ∷ table) r = ground (arith, any-snoc p table r)

-- What an upsert comes to: it adds nothing that hides a row, its key is then seen, or it is
-- blocked.
abbrev Came :
    (AuditEvent → Bool)
    → (AuditEvent → Bool)
    → List AuditEvent
    → AuditError ⊎ (String × List AuditEvent)
    → Type 0
Came p m table (inl e) = (any p table ≡ true) × (any m table ≡ false)
Came p m table (inr (id, after)) =
    (any m after ≡ true) × ((q : AuditEvent → Bool) → any q table ≡ true → any q after ≡ true)

settle-Came :
    (p m : AuditEvent → Bool) (row : AuditEvent) (table : List AuditEvent)
    → m row ≡ true
    → Came p m table (settle (find_row p table) (find_row m table) row table)
settle-Came p m row table k = elim (Option-cases (find_row p table)) [
  | inl f ↦ rw f (any-snoc m table row ∙ ground arith, λ q h. any-snoc q table row ∙ ground arith)
  | inr (other, f) ↦ elim (Option-cases (find_row m table)) [
    | inl g ↦
        rw (f, settle) (rw (g, settle) (find_row-some p table other f, find_row-none m table g))
    | inr (existing, g) ↦
        rw (f, settle) (rw (g, settle) (find_row-some m table existing g, λ q h. h))
  ]
]

upsert-Came :
    (row : AuditEvent) (table : List AuditEvent)
    → Came (own_key row) (seen_key row) table (upsert row table)
unfolding upsert
upsert-Came row table = settle-Came (own_key row) (seen_key row) row table (simp eq_refl)

abbrev pub Written : AuditWrite → List AuditEvent → AuditError ⊎ (String × List AuditEvent) → Type 0
Written w table (inl e) = missing w ≡ [] → Blocked w.tenant_id w.correlation_id w.kind table
Written w table (inr (id, after)) =
    Listed w.tenant_id w.correlation_id w.kind after
    × ((q : AuditEvent → Bool) → any q table ≡ true → any q after ≡ true)

unless_missing-Written :
    (w : AuditWrite) (names : List String) (table : List AuditEvent)
    (r : AuditError ⊎ (String × List AuditEvent))
    → missing w ≡ names
    → Came
        (same_key w.correlation_id w.kind)
        (visible w.tenant_id (same_key w.correlation_id w.kind))
        table
        r
    → Written w table (unless_missing names r)
unless_missing-Written w [] table (inl e) m h = λ k. h
unless_missing-Written w [] table (inr (id, after)) m h = h
unless_missing-Written w (name ∷ names) table r m h = λ k. absurd (ground arith)

write-Written :
    (id now : String) (w : AuditWrite) (table : List AuditEvent)
    → Written w table (write id now w table)
unfolding write row_of
write-Written id now w table =
    unless_missing-Written w (missing w) table _ refl (upsert-Came (row_of id now w) table)

module _ (world : World) where
  audited-Written :
      (w : AuditWrite) (r : AuditError ⊎ (String × List AuditEvent)) (s t : Stores)
      → Written w s.audit r
      → audited world r s ≡ some t
      → Listed w.tenant_id w.correlation_id w.kind t.audit
        × ((q : AuditEvent → Bool) → any q s.audit ≡ true → any q t.audit ≡ true)
  audited-Written w (inl e) s t h k = absurd (ground arith)
  audited-Written w (inr (id, after)) s t h k =
      let e : after ≡ t.audit = ground arith in rw (sym e) h

  pub write_row-Listed :
      (w : AuditWrite) (s t : Stores)
      → write_row world w s ≡ some t
      → Listed w.tenant_id w.correlation_id w.kind t.audit
        × ((q : AuditEvent → Bool) → any q s.audit ≡ true → any q t.audit ≡ true)
  unfolding write_row
  write_row-Listed w s t h =
      audited-Written w _ s t (write-Written (world.ulid s.ticks) (world.now s.ticks) w s.audit) h

  audited-Blocked :
      (w : AuditWrite) (r : AuditError ⊎ (String × List AuditEvent)) (s : Stores)
      → Written w s.audit r
      → missing w ≡ []
      → audited world r s ≡ none
      → Blocked w.tenant_id w.correlation_id w.kind s.audit
  audited-Blocked w (inl e) s h m k = h m
  audited-Blocked w (inr (id, after)) s h m k = absurd (ground arith)

  pub write_row-Blocked :
      (w : AuditWrite) (s : Stores)
      → missing w ≡ []
      → write_row world w s ≡ none
      → Blocked w.tenant_id w.correlation_id w.kind s.audit
  unfolding write_row
  write_row-Blocked w s m h =
      audited-Blocked w _ s (write-Written (world.ulid s.ticks) (world.now s.ticks) w s.audit) m h

  carry_out-keeps :
      (e : Effect) (s t : Stores) (q : AuditEvent → Bool)
      → carry_out world e s ≡ some t
      → any q s.audit ≡ true
      → any q t.audit ≡ true
  unfolding carry_out
  carry_out-keeps (write_audit w) s t q h k = (write_row-Listed w s t h).1 q k
  carry_out-keeps (insert_policy tenant_id policy meta) s t q h k =
      elim (Option-cases (Policies.insert world.casts tenant_id s.ticks policy meta s.policies)) [
        | inl f ↦ absurd (ground arith)
        | inr (policies, f) ↦ ground arith
      ]
  carry_out-keeps (insert_deployment tenant_id d) s t q h k =
      elim (Option-cases (Deployments.insert world.casts tenant_id d s.policies s.deployments)) [
        | inl f ↦ absurd (ground arith)
        | inr (deployments, f) ↦ ground arith
      ]
  carry_out-keeps (simulate_telemetry tenant_id policy deployment_id directive) s t q h k =
      elim (Bool-cases (world.simulate tenant_id policy deployment_id directive)) [
        | inl f ↦ ground arith
        | inr f ↦ absurd (ground arith)
      ]
  carry_out-keeps key_error s t q h k = absurd (ground arith)

  perform-keeps :
      (es : List Effect) (s t : Stores) (q : AuditEvent → Bool)
      → perform (carry_out world) es s ≡ finished t
      → any q s.audit ≡ true
      → any q t.audit ≡ true
  unfolding perform
  perform-keeps [] s t q h k = ground arith
  perform-keeps (e ∷ es) s t q h k = elim (Option-cases (carry_out world e s)) [
    | inl f ↦ absurd (ground arith)
    | inr (u, f) ↦ perform-keeps es u t q (rw f at h) (carry_out-keeps e s u q f k)
  ]

  -- When all effects are carried out, the row of each write is there.
  pub perform-Listed :
      (es : List Effect) (s t : Stores) (w : AuditWrite)
      → Holds (write_audit w) es
      → perform (carry_out world) es s ≡ finished t
      → Listed w.tenant_id w.correlation_id w.kind t.audit
  unfolding perform carry_out
  perform-Listed [] s t w i h = absurd i
  perform-Listed (e ∷ es) s t w (inl i) h = elim (Option-cases (carry_out world e s)) [
    | inl f ↦ absurd (ground arith)
    | inr (u, f) ↦ perform-keeps es u t _ (rw f at h) (write_row-Listed w s u (rw (sym i) at f)).0
  ]
  perform-Listed (e ∷ es) s t w (inr i) h = elim (Option-cases (carry_out world e s)) [
    | inl f ↦ absurd (ground arith)
    | inr (u, f) ↦ perform-Listed es u t w i (rw f at h)
  ]
