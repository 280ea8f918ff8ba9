-- ===== src/Deployer/Scope/Gate.antt =====
-- What deploy_with_tenant_scope_check lets out: nothing for a vehicle of another tenant.
use snts_collectmind.Prelude.{
  true, false, Option, none, some, List, [], ◌∷◌, ◌++◌, String, ◌⊎◌, inl, inr, ◌≡◌, refl, sym, ◌∙◌,
  ap, arith, All, Bool-cases, eq_iff,
}
use snts_collectmind.Prelude.Json.{get}
use snts_collectmind.Graph.Nodes.{DeployResponse}
use snts_collectmind.Registry.Audit.{
  AuditWrite, AuditEvent, AuditError, no_existing_row, missing, kind_min_fields, in_fields, write,
  upsert, settle, unless_missing,
}
use snts_collectmind.Deployer.Ownership.{
  Vehicles, RedisCalls, get_owner, owner_of, IsRedis, IsFresh, get_owner_lem,
}
use snts_collectmind.Deployer.Scope.{
  ScopedPolicy, or_default, scope_of, TenantVehicleMismatch, owned_by, DeployOutcome, deployed,
  collector_raised, rejected, audit_raised, walk, validate_tenant_scope, DeployState, DeployContext,
  rejection_write, collector_call, reject, call_out, raise_after, answered, after_check,
  deploy_with_tenant_scope_check,
}

module _ {R : Type 0} (redis : RedisCalls R) where
  abbrev pub Owned : Vehicles → String → List String → Type 0
  Owned table tenant vehicles = All (λ v. owner_of table v ≡ some tenant) vehicles

  -- What a walk finds, with the true owner of the vehicle that stops it.
  abbrev pub Walked : Vehicles → String → List String → Option TenantVehicleMismatch → Type 0
  Walked table tenant vehicles none = Owned table tenant vehicles
  Walked table tenant vehicles (some m) =
      (owner_of table m.target_vehicle_id ≡ m.vehicle_owning_tenant_id)
      × (owned_by tenant m.vehicle_owning_tenant_id ≡ false)

  owned_by-true : (tenant : String) (o : Option String) → owned_by tenant o ≡ true → o ≡ some tenant
  owned_by-true tenant none h = absurd (ground arith)
  owned_by-true tenant (some owner) h = ap some ((eq_iff owner tenant).0 h)

  Walked-cons :
      (table : Vehicles) (tenant v : String) (vs : List String) (m : Option TenantVehicleMismatch)
      → owner_of table v ≡ some tenant
      → Walked table tenant vs m
      → Walked table tenant (v ∷ vs) m
  Walked-cons table tenant v vs none e h = (e, h)
  Walked-cons table tenant v vs (some m) e h = h

  walk-Walked :
      IsRedis redis
      → (table : Vehicles) (policy_id tenant : String) (vehicles : List String) (r : R)
      → IsFresh redis r table
      → Walked table tenant vehicles (walk redis table policy_id tenant vehicles r).0
  unfolding walk
  walk-Walked law table policy_id tenant [] r h = tt
  walk-Walked law table policy_id tenant (v ∷ vs) r h =
      let a = get_owner_lem redis law r table v h in
      elim (Bool-cases (owned_by tenant (get_owner redis r table v).0)) [
        | inl e ↦
            rw (e, Walked)
              (Walked-cons table tenant v vs _ (sym a.right ∙ owned_by-true tenant _ e)
                (walk-Walked law table policy_id tenant vs (get_owner redis r table v).1 a.fresh))
        | inr e ↦ rw (e, Walked) (sym a.right, e)
      ]

  -- The FR-023 fields are all there, so the audit writer has none to miss.
  missing-rejection_write :
      (tenant_id correlation_id : String) (policy : ScopedPolicy) (m : TenantVehicleMismatch)
      → missing (rejection_write redis tenant_id correlation_id policy m) ≡ []
  unfolding missing kind_min_fields in_fields rejection_write get
  missing-rejection_write tenant_id correlation_id policy m = refl

  settle-error :
      (hit seen : Option AuditEvent) (row : AuditEvent) (table : List AuditEvent) (e : AuditError)
      → settle hit seen row table ≡ inl e
      → e ≡ no_existing_row
  settle-error none seen row table e h = absurd (ground arith)
  settle-error (some o) none row table e h = ground arith
  settle-error (some o) (some x) row table e h = absurd (ground arith)

  upsert-error :
      (row : AuditEvent) (table : List AuditEvent) (e : AuditError)
      → upsert row table ≡ inl e
      → e ≡ no_existing_row
  unfolding upsert
  upsert-error row table e h = settle-error _ _ row table e h

  unless_missing-none :
      (names : List String) (r : AuditError ⊎ (String × List AuditEvent)) (e : AuditError)
      → names ≡ []
      → unless_missing names r ≡ inl e
      → r ≡ inl e
  unless_missing-none [] r e m h = h
  unless_missing-none (name ∷ names) r e m h = absurd (ground arith)

  write-error :
      (id now : String) (w : AuditWrite) (table : List AuditEvent) (e : AuditError)
      → missing w ≡ []
      → write id now w table ≡ inl e
      → e ≡ no_existing_row
  unfolding write
  write-error id now w table e m h =
      upsert-error _ table e (unless_missing-none (missing w) _ e m h)

  -- What comes of a deployment that started in the state `s`.
  abbrev pub Gated :
      DeployContext redis
      → Vehicles
      → ScopedPolicy
      → String
      → String
      → DeployState redis
      → DeployOutcome × DeployState redis
      → Type 0
  Gated ctx table policy tenant_id correlation_id s (deployed response, after) =
      Owned table (or_default "" policy.tenant_id) (scope_of policy)
      × (ctx.collector (collector_call redis tenant_id policy) ≡ some response)
      × (after.calls ≡ (s.calls ++ (collector_call redis tenant_id policy ∷ [])))
      × (after.audit ≡ s.audit)
  Gated ctx table policy tenant_id correlation_id s (collector_raised, after) =
      Owned table (or_default "" policy.tenant_id) (scope_of policy)
      × (after.calls ≡ (s.calls ++ (collector_call redis tenant_id policy ∷ [])))
      × (after.audit ≡ s.audit)
  Gated ctx table policy tenant_id correlation_id s (rejected m, after) =
      (owner_of table m.target_vehicle_id ≡ m.vehicle_owning_tenant_id)
      × (owned_by (or_default "" policy.tenant_id) m.vehicle_owning_tenant_id ≡ false)
      × (after.calls ≡ s.calls)
      × ((id : String) × (write ctx.event_id ctx.now
              (rejection_write redis tenant_id correlation_id policy m) s.audit
            ≡ inr (id, after.audit)))
  Gated ctx table policy tenant_id correlation_id s (audit_raised e, after) =
      (e ≡ no_existing_row) × (after.calls ≡ s.calls) × (after.audit ≡ s.audit)

  raise_after-Gated :
      (ctx : DeployContext redis) (table : Vehicles) (policy : ScopedPolicy)
      (tenant_id correlation_id : String) (m : TenantVehicleMismatch) (s s1 : DeployState redis)
      (result : AuditError ⊎ (String × List AuditEvent))
      → s1.calls ≡ s.calls
      → s1.audit ≡ s.audit
      → Walked table (or_default "" policy.tenant_id) (scope_of policy) (some m)
      → write ctx.event_id ctx.now (rejection_write redis tenant_id correlation_id policy m) s.audit
        ≡ result
      → Gated ctx table policy tenant_id correlation_id s (raise_after redis result m s1)
  raise_after-Gated ctx table policy tenant_id correlation_id m s s1 (inl e) c a h f = (
    write-error _ _ _ s.audit e (missing-rejection_write tenant_id correlation_id policy m) f,
    c,
    a,
  )
  raise_after-Gated ctx table policy tenant_id correlation_id m s s1 (inr (id, audit)) c a h f =
      (h.0, h.1, c, (id, f))

  answered-Gated :
      (ctx : DeployContext redis) (table : Vehicles) (policy : ScopedPolicy)
      (tenant_id correlation_id : String) (s s1 : DeployState redis)
      (answer : Option DeployResponse)
      → s1.calls ≡ (s.calls ++ (collector_call redis tenant_id policy ∷ []))
      → s1.audit ≡ s.audit
      → Owned table (or_default "" policy.tenant_id) (scope_of policy)
      → ctx.collector (collector_call redis tenant_id policy) ≡ answer
      → Gated ctx table policy tenant_id correlation_id s (answered redis answer s1)
  answered-Gated ctx table policy tenant_id correlation_id s s1 none c a h f = (h, c, a)
  answered-Gated ctx table policy tenant_id correlation_id s s1 (some response) c a h f =
      (h, f, c, a)

  after_check-Gated :
      (ctx : DeployContext redis) (table : Vehicles) (policy : ScopedPolicy)
      (tenant_id correlation_id : String) (s : DeployState redis) (r : R)
      (found : Option TenantVehicleMismatch)
      → Walked table (or_default "" policy.tenant_id) (scope_of policy) found
      → Gated ctx table policy tenant_id correlation_id s
          (after_check redis found ctx policy tenant_id correlation_id (record s { cache = r }))
  unfolding after_check reject call_out
  after_check-Gated ctx table policy tenant_id correlation_id s r none h =
      answered-Gated ctx table policy tenant_id correlation_id s _ _ refl refl h refl
  after_check-Gated ctx table policy tenant_id correlation_id s r (some m) h =
      raise_after-Gated ctx table policy tenant_id correlation_id m s _ _ refl refl h refl

  -- With a fresh ownership cache, a call goes out only if every vehicle of the scope belongs to
  -- the tenant that the policy declares, and then exactly one. At a vehicle of another owner
  -- nothing goes out, and the rejection is written to the audit table with that owner, or the
  -- write raises because another tenant has the key; it never raises for a missing field.
  pub deploy-Gated :
      IsRedis redis
      → (ctx : DeployContext redis) (table : Vehicles) (policy : ScopedPolicy)
        (tenant_id correlation_id : String) (s : DeployState redis)
      → IsFresh redis s.cache table
      → Gated ctx table policy tenant_id correlation_id s
          (deploy_with_tenant_scope_check redis ctx table policy tenant_id correlation_id s)
  unfolding deploy_with_tenant_scope_check validate_tenant_scope
  deploy-Gated law ctx table policy tenant_id correlation_id s h =
      after_check-Gated ctx table policy tenant_id correlation_id s _ _ (
        walk-Walked law table (or_default "" policy.policy_id) (or_default "" policy.tenant_id)
          (scope_of policy) s.cache h)
