-- ===== src/Query/Handlers/Isolated.antt =====
-- What a tenant learns from the query interface.
use snts_collectmind.Prelude.{Bool, String, keep_if, ◌==◌, ◌≡◌}
use snts_collectmind.Registry.Audit.{AuditEvent}
use snts_collectmind.Registry.Policies.{owned}
use snts_collectmind.Registry.Outcomes.{outcome_owned, deployment_owned}
use snts_collectmind.Erasure.{request_owned}
use snts_collectmind.Query.Handlers.{Tables}

abbrev pub event_owned : String → AuditEvent → Bool
event_owned tenant_id r = r.written.tenant_id == tenant_id

-- The tables have the same rows of the tenant, in the same order.
pub record SameOwn (tenant_id : String) (s t : Tables) : Type 0 where
  pub policies : keep_if (owned tenant_id) s.policies ≡ keep_if (owned tenant_id) t.policies
  pub deployments :
      keep_if (deployment_owned tenant_id) s.deployments
      ≡ keep_if (deployment_owned tenant_id) t.deployments
  pub outcomes :
      keep_if (outcome_owned tenant_id) s.outcomes ≡ keep_if (outcome_owned tenant_id) t.outcomes
  pub audit : keep_if (event_owned tenant_id) s.audit ≡ keep_if (event_owned tenant_id) t.audit
  pub requests :
      keep_if (request_owned tenant_id) s.requests ≡ keep_if (request_owned tenant_id) t.requests
