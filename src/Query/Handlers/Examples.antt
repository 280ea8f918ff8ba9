-- ===== src/Query/Handlers/Examples.antt =====
-- The handlers at concrete tables: a policy of a tenant, deployed, and rows of another tenant.
use snts_collectmind.Prelude.{none, some, [], ◌∷◌, String, codes, ◌≡◌, refl}
use snts_collectmind.Prelude.Json.{str, arr, obj, nil, cons, end}
use snts_collectmind.Prelude.Rows.{latest_first, put_in}
use snts_collectmind.Graph.Runner.{AuditMeta}
use snts_collectmind.Registry.Policies.{CollectionPolicyRow, row_to_policy}
use snts_collectmind.Registry.Deployments.{DeploymentRow}
use snts_collectmind.Registry.Outcomes.{find_active_for_vehicle, in_scope, holds_text}
use snts_collectmind.Query.Handlers.{Tables}
use snts_collectmind.Query.Handlers.Latest.{LatestActive, find_active_lem}

abbrev a_meta : AuditMeta
a_meta = record {
  prompt_template_version = "1.0.0";
  slm_repo = str "repo";
  slm_revision_sha = str "sha";
  slm_runtime = str "stub";
  slm_runtime_version = str "1";
  slm_quantization = str "none";
  slm_decoding_seed = 7;
  payload_signature = codes "sig";
  signature_key_id = "k1";
}

abbrev policy_of : String → CollectionPolicyRow
policy_of tenant = record {
  tenant_id = tenant;
  policy_id = "p1";
  version = "1.0.0";
  signal_spec = arr nil;
  trigger_conditions = arr nil;
  collection_window_hours_logical = 24;
  vehicle_scope = arr (cons (str "v1") nil);
  hypothesis_statement = str "";
  data_governance_flags = obj end;
  confidence_threshold = "0.8";
  generated_from_session_id = str "s1";
  originating_finding = obj end;
  audit_meta = a_meta;
  created_at = 5;
}

abbrev deployment_of : String → DeploymentRow
deployment_of tenant = record {
  deployment_id = tenant;
  tenant_id = tenant;
  policy_id = "p1";
  version = "1.0.0";
  vehicle_scope = "v1" ∷ [];
  status = "accepted";
  expires_at = none;
}

abbrev with_globex : Tables
with_globex = record {
  policies = policy_of "globex" ∷ policy_of "acme" ∷ [];
  deployments = deployment_of "acme" ∷ deployment_of "globex" ∷ [];
  outcomes = [];
  audit = [];
  requests = [];
}

abbrev alone : Tables
alone = record {
  policies = policy_of "acme" ∷ [];
  deployments = deployment_of "acme" ∷ [];
  outcomes = [];
  audit = [];
  requests = [];
}

active_found :
    find_active_for_vehicle "acme" "v1" with_globex.policies with_globex.deployments
    ≡ some (row_to_policy (policy_of "acme"))
unfolding find_active_for_vehicle in_scope holds_text latest_first put_in
active_found = refl

find_active_lem_example :
    LatestActive "acme" "v1" alone.deployments alone.policies
      (find_active_for_vehicle "acme" "v1" alone.policies alone.deployments)
find_active_lem_example = find_active_lem "acme" "v1" alone.deployments alone.policies
