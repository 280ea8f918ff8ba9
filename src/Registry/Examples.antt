-- ===== src/Registry/Examples.antt =====
-- The registry at concrete inputs: a cache of one entry, and an audit table with a row in it.
use snts_collectmind.Prelude.{
  ℕ, true, Option, none, some, [], ◌∷◌, String, if◌then◌else◌, leb, ◌≡◌, refl, inr,
}
use snts_collectmind.Prelude.Json.{str, end, field}
use snts_collectmind.Registry.TenantConfig
use snts_collectmind.Registry.TenantConfig.{
  TenantConfig, ConfigRow, TtlCache, get_for_tenant, invalidate, drop_oldest,
}
use snts_collectmind.Registry.TenantConfig.Staleness.{read_answers}
use snts_collectmind.Registry.Audit.{
  AuditWrite, AuditEvent, missing, kind_min_fields, write, upsert, row_of, with_extras, same_key,
  find_row,
}

abbrev empty_cache : TtlCache
empty_cache = record { ttl = 60; capacity = 2; entries = [] }

abbrev a_row : ConfigRow
a_row = record {
  inbound_sustained_rps = 50;
  inbound_burst_capacity = 100;
  query_sustained_rps = 5;
  query_burst_capacity = 10;
  updated_at = none;
}

-- The table gets its row at time 10.
abbrev rows : ℕ → String → Option ConfigRow
rows t k = if leb 10 t then some a_row else none

abbrev read_once : TtlCache
read_once = (get_for_tenant 5 "acme" (read_answers rows 60 5 "acme" true) empty_cache).1

abbrev outcome_write : String → String → AuditWrite
outcome_write tenant correlation = record {
  tenant_id = tenant;
  kind = "outcome";
  correlation_id = correlation;
  principal_subject = "feedback-worker";
  originating_finding = none;
  policy_ref = none;
  deployment_ref = none;
  outcome_ref = none;
  error = none;
  slm_repo = none;
  slm_revision_sha = none;
  slm_runtime = none;
  slm_runtime_version = none;
  slm_quantization = none;
  slm_decoding_seed = none;
  prompt_template_version = none;
  inbound_schema_version = none;
  time_acceleration_factor = none;
}

abbrev first_row : AuditEvent
first_row = record { event_id = "e1"; occurred_at = "t1"; written = outcome_write "acme" "c1" }

written_once : write "e1" "t1" (outcome_write "acme" "c1") [] ≡ inr ("e1", first_row ∷ [])
unfolding write missing kind_min_fields upsert find_row row_of with_extras
written_once = refl

found : find_row (same_key "c1" "outcome") (first_row ∷ []) ≡ some first_row
unfolding find_row
found = refl

-- A rejection with its error.
abbrev failed_write : AuditWrite
failed_write = record (outcome_write "acme" "c1") {
  kind = "rejected";
  error = some (field "code" (str "GRAPH_RUNNER_ERROR") end);
}
