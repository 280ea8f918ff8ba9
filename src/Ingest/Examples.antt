-- ===== src/Ingest/Examples.antt =====
-- The way of a finding at concrete inputs.
use snts_collectmind.Prelude.{
  ◌+◌, true, Option, none, some, [], ◌∷◌, String, Text, codes, ◌≡◌, refl, inr, ◌↔◌,
}
use snts_collectmind.Prelude.Json.{str, Fields, end, field, get}
use snts_collectmind.Prelude.Dict.{lookup, insert, has, pair_eq}
use snts_collectmind.Registry.Audit.{
  no_existing_row, write, missing, kind_min_fields, upsert, find_row, row_of, with_extras,
}
use snts_collectmind.Ingest.SchemaVersion.{
  check, judge_version, semver, group, span_digits, dot, at_end, int_from,
}
use snts_collectmind.Ingest.SchemaVersion.Semver.{IsSemver, check_ok_iff}
use snts_collectmind.Ingest.Idempotency.{Key, check_in_findings}
use snts_collectmind.Ingest.Handler.{
  Principal, DiagnosticFinding, accepted, raised, IngestState, IngestContext, post_finding,
  foreign_tenant, version_refusal, handle, first_seen, accepted_write, insert_finding, finding_row,
}
use snts_collectmind.Ingest.Handler.Branches.{anew, lost_after_audit_error}

check_ok_iff_example :
    ((check 1 (some (codes "1.0.7"))).ok ≡ true)
    ↔ ((a : Text) × (b : Text) × (c : Text) × IsSemver (codes "1.0.7") a b c × (int_from 0 a ≡ 1))
check_ok_iff_example = check_ok_iff 1 (codes "1.0.7")

nothing_stored : ◌≡◌ {A = Option String} (lookup {K = Key} ("acme", "f1") []) none
unfolding lookup
nothing_stored = refl

abbrev a_finding : DiagnosticFinding
a_finding = record {
  schema_version = "1.0.0";
  finding_id = "f1";
  anomaly_type = "brake_wear";
  hypothesis_class = "wear";
  hypothesis_statement = "pads wear early";
  candidate_signals = "Vehicle.Speed" ∷ [];
  vehicle_scope = "v1" ∷ [];
  upstream_confidence = "0.9";
}

abbrev a_context : IngestContext
a_context = record {
  event_id = "e1";
  new_uuid = "u1";
  new_ulid = "s1";
  now = "t1";
  supported_major = 1;
  model_validate = λ body. inr a_finding;
  payload_sha = λ body. "sha1";
}

abbrev acme : Principal
acme = record { tenant_id = "acme"; subject = "svc" }

abbrev body : Fields
body = field "schema_version" (str "1.0.0") (field "finding_id" (str "f1") end)

abbrev nothing : IngestState
nothing = record { findings = []; audit = []; queue = []; received_total = 0 }

-- Another tenant has the correlation.
abbrev taken : IngestState
taken = record nothing {
  audit =
      record {
        event_id = "e0";
        occurred_at = "t0";
        written = record {
          tenant_id = "globex";
          kind = "accepted";
          correlation_id = "c1";
          principal_subject = "svc";
          originating_finding = none;
          policy_ref = none;
          deployment_ref = none;
          outcome_ref = none;
          error = none;
          slm_repo = none;
          slm_revision_sha = none;
          slm_runtime = none;
          slm_runtime_version = none;
          slm_quantization = none;
          slm_decoding_seed = none;
          prompt_template_version = none;
          inbound_schema_version = none;
          time_acceleration_factor = none;
        };
      }
      ∷ [];
}

abbrev after_raise : IngestState
after_raise = (post_finding a_context acme body (some "c1") taken).1

raises : post_finding a_context acme body (some "c1") taken ≡ (raised no_existing_row, after_raise)
unfolding post_finding foreign_tenant get version_refusal check judge_version semver group
    span_digits dot at_end int_from handle first_seen check_in_findings lookup write accepted_write
    missing kind_min_fields upsert find_row row_of with_extras insert_finding finding_row has insert
raises = refl

lost_after_audit_error_example :
    (id : String) × (c : String) × (post_finding
        (anew a_context acme "e2" "u2" "s2" "t2")
        acme
        body
        (some "c2")
        after_raise
      ≡ (
        accepted "acme" id c true,
        record after_raise { received_total = after_raise.received_total + 1 },
      ))
lost_after_audit_error_example =
    lost_after_audit_error a_context acme body (some "c1") (some "c2") taken after_raise
      no_existing_row "e2" "u2" "s2" "t2" raises
