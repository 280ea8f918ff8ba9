-- ===== src/Query/Handlers.antt =====
-- src/collectmind/query/api.py: the handlers over the repositories; the principal gives the tenant.
pub mod Isolated
pub mod Latest
mod Examples
use snts_collectmind.Prelude.{
  ℕ, Bool, true, false, ◌&&◌, Option, none, some, List, [], ◌∷◌, String, leb, if◌then◌else◌,
}
use snts_collectmind.Prelude.Json.{Json, str, int, obj, Fields, end, field}
use snts_collectmind.Registry.Audit.{AuditEvent}
use snts_collectmind.Registry.Policies.{CollectionPolicyRow, PolicyShown, get_latest, list_versions}
use snts_collectmind.Registry.Deployments.{DeploymentRow}
use snts_collectmind.Registry.Outcomes.{
  StoredOutcome, OutcomeShown, get_by_finding, find_active_for_vehicle,
}
use snts_collectmind.Registry.TenantConfig.{TenantConfig, RateLimitBucket, Source}
use snts_collectmind.Erasure.{ErasureRow, get_request}
use snts_collectmind.Query.{
  Answer, not_found, content, ensure_safe, unless_none, audit_for_correlation,
}

-- The tables that the handlers read.
pub record Tables : Type 0 where
  pub policies : List CollectionPolicyRow
  pub deployments : List DeploymentRow
  pub outcomes : List StoredOutcome
  pub audit : List AuditEvent
  pub requests : List ErasureRow

-- if found is None: raise NotFound(...)
abbrev pub or_not_found {ℓ} : {A : Type ℓ} → String → String → Option A → Answer A
or_not_found kind value none = not_found kind value
or_not_found kind value (some a) = content a

unfoldable pub get_policy : String → String → List CollectionPolicyRow → Answer PolicyShown
get_policy tenant_id policy_id policies =
    ensure_safe "policy" policy_id
      (or_not_found "policy" policy_id (get_latest tenant_id policy_id policies))

-- limit: int = Query(default=50, ge=1, le=200); none is the 422.
unfoldable pub list_policy_versions :
    String → String → ℕ → List CollectionPolicyRow → Option (Answer (List PolicyShown))
unfolding unless_none
list_policy_versions tenant_id policy_id limit policies =
    if leb 1 limit && leb limit 200
    then some (
        ensure_safe "policy" policy_id
          (unless_none "policy" policy_id (list_versions tenant_id policy_id limit policies)))
    else none

unfoldable pub active_policy_for_group :
    String → String → List CollectionPolicyRow → List DeploymentRow → Answer PolicyShown
active_policy_for_group tenant_id group_id policies deployments =
    ensure_safe "active_policy" group_id (
      or_not_found "active_policy" group_id
        (find_active_for_vehicle tenant_id group_id policies deployments))

unfoldable pub outcome_for_finding : String → String → List StoredOutcome → Answer OutcomeShown
outcome_for_finding tenant_id finding_id outcomes =
    ensure_safe "outcome" finding_id
      (or_not_found "outcome" finding_id (get_by_finding tenant_id finding_id outcomes))

unfoldable pub erasure_request_status : String → String → List ErasureRow → Answer ErasureRow
erasure_request_status tenant_id request_id requests =
    ensure_safe "erasure_request" request_id
      (or_not_found "erasure_request" request_id (get_request tenant_id request_id requests))

abbrev pub bucket_body : RateLimitBucket → Fields
bucket_body b =
    field "sustained_rps" (int b.sustained_rps) (field "burst_capacity" (int b.burst_capacity) end)

abbrev pub source_text : Source → String
source_text Source.default = "default"
source_text Source.override = "override"

-- if config.updated_at is not None: body["updated_at"] = config.updated_at
abbrev pub updated_field : Option String → Fields
updated_field none = end
updated_field (some t) = field "updated_at" (str t) end

-- get_own_tenant_config, from the configuration that get_for_tenant gives.
unfoldable pub own_tenant_config : TenantConfig → Fields
own_tenant_config config = field "tenant_id" (str config.tenant_id) (
    field "inbound" (obj (bucket_body config.inbound)) (
      field "query" (obj (bucket_body config.query))
        (field "source" (str (source_text config.source)) (updated_field config.updated_at))))

-- The requests of the router, with their path parameters.
pub data QueryRequest : Type 0 where
  policy : String → QueryRequest
  policy_versions : String → ℕ → QueryRequest
  active_policy : String → QueryRequest
  outcome : String → QueryRequest
  audit_trail : String → QueryRequest
  erasure_status : String → QueryRequest

pub data QueryResponse : Type 0 where
  policy_answer : Answer PolicyShown → QueryResponse
  versions_answer : Option (Answer (List PolicyShown)) → QueryResponse
  outcome_answer : Answer OutcomeShown → QueryResponse
  audit_answer : Answer (List AuditEvent) → QueryResponse
  erasure_answer : Answer ErasureRow → QueryResponse

unfoldable pub serve : String → QueryRequest → Tables → QueryResponse
serve tenant_id (policy policy_id) t = policy_answer (get_policy tenant_id policy_id t.policies)
serve tenant_id (policy_versions policy_id limit) t =
    versions_answer (list_policy_versions tenant_id policy_id limit t.policies)
serve tenant_id (active_policy group_id) t =
    policy_answer (active_policy_for_group tenant_id group_id t.policies t.deployments)
serve tenant_id (outcome finding_id) t =
    outcome_answer (outcome_for_finding tenant_id finding_id t.outcomes)
serve tenant_id (audit_trail correlation_id) t =
    audit_answer (audit_for_correlation tenant_id correlation_id t.audit)
serve tenant_id (erasure_status request_id) t =
    erasure_answer (erasure_request_status tenant_id request_id t.requests)
