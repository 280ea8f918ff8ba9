-- ===== src/Query/Examples.antt =====
-- The query interface at concrete inputs: two tenants with a row each.
use snts_collectmind.Prelude.{true, none, some, List, [], ◌∷◌, String, codes, ◌≡◌, refl, ◌↔◌}
use snts_collectmind.Registry.Audit.{AuditWrite, AuditEvent, list_for_correlation}
use snts_collectmind.Query.{not_found, content, audit_for_correlation, safe_id, unless_none}
use snts_collectmind.Prelude.Rows.{Holds}
use snts_collectmind.Query.Trail.{Shows, IsSafe, IsOf, audit_for_correlation_iff}
use snts_collectmind.Routes.{without_newline}

abbrev accepted_write : String → AuditWrite
accepted_write tenant = record {
  tenant_id = tenant;
  kind = "accepted";
  correlation_id = "c-1";
  principal_subject = "ingest";
  originating_finding = none;
  policy_ref = none;
  deployment_ref = none;
  outcome_ref = none;
  error = none;
  slm_repo = none;
  slm_revision_sha = none;
  slm_runtime = none;
  slm_runtime_version = none;
  slm_quantization = none;
  slm_decoding_seed = none;
  prompt_template_version = none;
  inbound_schema_version = some "1.0.0";
  time_acceleration_factor = none;
}

abbrev row_of_tenant : String → AuditEvent
row_of_tenant tenant = record {
  event_id = tenant;
  occurred_at = "t1";
  written = accepted_write tenant;
}

abbrev two_tenants : List AuditEvent
two_tenants = row_of_tenant "acme" ∷ row_of_tenant "globex" ∷ []

own_rows_only : audit_for_correlation "acme" "c-1" two_tenants ≡ content (row_of_tenant "acme" ∷ [])
unfolding audit_for_correlation safe_id unless_none list_for_correlation without_newline
own_rows_only = refl

unsafe_not_found : audit_for_correlation "acme" "c 1" two_tenants ≡ not_found "correlation_id" "c 1"
unfolding audit_for_correlation safe_id without_newline
unsafe_not_found = refl

newline_is_safe : safe_id (codes "c-1\n") ≡ true
unfolding safe_id without_newline
newline_is_safe = refl

audit_for_correlation_iff_example :
    Shows (row_of_tenant "globex") (audit_for_correlation "acme" "c-1" two_tenants) ↔ (
      IsSafe (codes "c-1")
      × Holds (row_of_tenant "globex") two_tenants
      × IsOf "acme" "c-1" (row_of_tenant "globex"))
audit_for_correlation_iff_example =
    audit_for_correlation_iff "acme" "c-1" two_tenants (row_of_tenant "globex")
