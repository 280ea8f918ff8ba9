-- ===== src/Deployer/Scope.antt =====
-- src/collectmind/deployer/tenant_scope_check.py: validate_tenant_scope, and
-- src/collectmind/deployer/node.py: deploy_with_tenant_scope_check, with a cache and an audit
-- writer given.
pub mod Gate
use snts_collectmind.Prelude.{
  ℕ, Bool, true, false, Option, none, some, List, [], ◌∷◌, ◌++◌, String, if◌then◌else◌, ◌==◌, ◌⊎◌,
  inl, inr,
}
use snts_collectmind.Prelude.Json.{Json, str, null, obj, Fields, end, field}
use snts_collectmind.Graph.Nodes.{DeployResponse}
use snts_collectmind.Registry.Audit.{AuditWrite, AuditEvent, AuditError, write}
use snts_collectmind.Deployer.Ownership.{Vehicles, RedisCalls, get_owner}

-- The entries of the policy that the check reads, after `str`; `none` is a key that is missing.
pub record ScopedPolicy : Type 0 where
  pub tenant_id : Option String
  pub policy_id : Option String
  pub version : Option String
  pub vehicle_scope : Option (List String)
  pub payload : Fields

abbrev pub or_default : String → Option String → String
or_default d none = d
or_default d (some s) = s

-- list(policy.get("vehicle_scope") or [])
abbrev pub scope_of : ScopedPolicy → List String
scope_of policy = elim policy.vehicle_scope [ none ↦ [] | some vehicles ↦ vehicles ]

pub record TenantVehicleMismatch : Type 0 where
  pub policy_id : String
  pub target_vehicle_id : String
  pub policy_declared_tenant_id : String
  pub vehicle_owning_tenant_id : Option String

-- owner != policy_declared_tenant_id
abbrev pub owned_by : String → Option String → Bool
owned_by tenant none = false
owned_by tenant (some owner) = owner == tenant

pub record CollectorCall : Type 0 where
  pub tenant_id : String
  pub policy_id : String
  pub version : String
  pub vehicle_scope : List String
  pub payload : Fields
  pub payload_signature : String
  pub signature_key_id : String

pub data DeployOutcome : Type 0 where
  deployed : DeployResponse → DeployOutcome
  collector_raised : DeployOutcome
  rejected : TenantVehicleMismatch → DeployOutcome
  audit_raised : AuditError → DeployOutcome

module _ {R : Type 0} (redis : RedisCalls R) where
  -- The loop over the vehicles, from the answer for the first of them on.
  unfoldable pub walk :
      Vehicles → String → String → List String → R → Option TenantVehicleMismatch × R
  walk table policy_id tenant [] r = (none, r)
  walk table policy_id tenant (vehicle ∷ vehicles) r =
      let owner = get_owner redis r table vehicle in
      let rest = walk table policy_id tenant vehicles owner.1 in
      if owned_by tenant owner.0 then rest else (
        some (record {
          policy_id = policy_id;
          target_vehicle_id = vehicle;
          policy_declared_tenant_id = tenant;
          vehicle_owning_tenant_id = owner.0;
        }),
        owner.1,
      )

  -- `none` is a check that passes.
  unfoldable pub validate_tenant_scope :
      Vehicles → ScopedPolicy → R → Option TenantVehicleMismatch × R
  unfolding walk
  validate_tenant_scope table policy r =
      walk table (or_default "" policy.policy_id) (or_default "" policy.tenant_id) (scope_of policy)
        r

  -- What the deployment changes: the cache, the audit table, and the calls that went out.
  pub record DeployState : Type 0 where
    pub cache : R
    pub audit : List AuditEvent
    pub calls : List CollectorCall

  -- What a deployment is given: the fresh event id and the time, and the collector's answer to a
  -- call, `none` when it raises.
  pub record DeployContext : Type 0 where
    pub event_id : String
    pub now : String
    pub collector : CollectorCall → Option DeployResponse

  abbrev pub json_or_null : Option String → Json
  json_or_null none = null
  json_or_null (some s) = str s

  unfoldable pub rejection_write :
      String → String → ScopedPolicy → TenantVehicleMismatch → AuditWrite
  rejection_write tenant_id correlation_id policy m = record {
    tenant_id = tenant_id;
    kind = "deployment_rejected";
    correlation_id = correlation_id;
    principal_subject = tenant_id;
    originating_finding = some (
        field "policy_ref"
          (obj (
            field "policy_id" (str (or_default "" policy.policy_id))
              (field "version" (str (or_default "1.0.0" policy.version)) end)))
          (field "target_vehicle_id" (str m.target_vehicle_id) (
            field "policy_declared_tenant_id" (str m.policy_declared_tenant_id)
              (field "vehicle_owning_tenant_id" (json_or_null m.vehicle_owning_tenant_id) end))));
    policy_ref = none;
    deployment_ref = none;
    outcome_ref = none;
    error = none;
    slm_repo = none;
    slm_revision_sha = none;
    slm_runtime = none;
    slm_runtime_version = none;
    slm_quantization = none;
    slm_decoding_seed = none;
    prompt_template_version = none;
    inbound_schema_version = none;
    time_acceleration_factor = none;
  }

  unfoldable pub collector_call : String → ScopedPolicy → CollectorCall
  collector_call tenant_id policy = record {
    tenant_id = tenant_id;
    policy_id = or_default "" policy.policy_id;
    version = or_default "1.0.0" policy.version;
    vehicle_scope = scope_of policy;
    payload = policy.payload;
    payload_signature = "";
    signature_key_id = "";
  }

  -- The end of the `except TenantVehicleMismatch` block, once the audit writer has answered.
  abbrev pub raise_after :
      AuditError ⊎ (String × List AuditEvent)
      → TenantVehicleMismatch
      → DeployState
      → DeployOutcome × DeployState
  raise_after (inl e) m s = (audit_raised e, s)
  raise_after (inr (id, audit)) m s = (rejected m, record s { audit = audit })

  unfoldable pub reject :
      DeployContext
      → String
      → String
      → ScopedPolicy
      → TenantVehicleMismatch
      → DeployState
      → DeployOutcome × DeployState
  reject ctx tenant_id correlation_id policy m s =
      raise_after
        (write ctx.event_id ctx.now (rejection_write tenant_id correlation_id policy m) s.audit) m s

  abbrev pub answered : Option DeployResponse → DeployState → DeployOutcome × DeployState
  answered none s = (collector_raised, s)
  answered (some response) s = (deployed response, s)

  unfoldable pub call_out :
      DeployContext → String → ScopedPolicy → DeployState → DeployOutcome × DeployState
  call_out ctx tenant_id policy s =
      let call = collector_call tenant_id policy in
      answered (ctx.collector call) (record s { calls = s.calls ++ (call ∷ []) })

  unfoldable pub after_check :
      Option TenantVehicleMismatch
      → DeployContext
      → ScopedPolicy
      → String
      → String
      → DeployState
      → DeployOutcome × DeployState
  unfolding reject call_out
  after_check (some m) ctx policy tenant_id correlation_id s =
      reject ctx tenant_id correlation_id policy m s
  after_check none ctx policy tenant_id correlation_id s = call_out ctx tenant_id policy s

  unfoldable pub deploy_with_tenant_scope_check :
      DeployContext
      → Vehicles
      → ScopedPolicy
      → String
      → String
      → DeployState
      → DeployOutcome × DeployState
  unfolding after_check
  deploy_with_tenant_scope_check ctx table policy tenant_id correlation_id s =
      let checked = validate_tenant_scope table policy s.cache in
      after_check checked.0 ctx policy tenant_id correlation_id (record s { cache = checked.1 })
