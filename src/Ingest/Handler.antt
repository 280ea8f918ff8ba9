-- ===== src/Ingest/Handler.antt =====
-- src/collectmind/ingest/http.py: post_finding, on the tables that it writes and the sessions
-- that it starts.
pub mod Queue
pub mod Branches
use snts_collectmind.Prelude.{
  ℕ, zero, suc, ◌+◌, Bool, true, false, not, Option, none, some, List, [], ◌∷◌, ◌++◌, String, Text,
  codes, if◌then◌else◌, ◌==◌, ◌⊎◌, inl, inr,
}
use snts_collectmind.Prelude.Json.{
  Json, null, bool, int, number, str, arr, obj, Items, nil, cons, Fields, end, field, get,
}
use snts_collectmind.Prelude.Dict.{lookup, insert, has, pair_eq}
use snts_collectmind.Graph.Session.{PolicyGenerationSession, Stage}
use snts_collectmind.Registry.Audit.{AuditWrite, AuditEvent, AuditError, write}
use snts_collectmind.Ingest.SchemaVersion.{
  SchemaVersionResult, Code, schema_version_unsupported, schema_version_malformed, check,
}
use snts_collectmind.Ingest.Idempotency.{Key, FindingRow, IdempotencyDecision, check_in_findings}

pub record Principal : Type 0 where
  pub tenant_id : String
  pub subject : String

pub record DiagnosticFinding : Type 0 where
  pub schema_version : String
  pub finding_id : String
  pub anomaly_type : String
  pub hypothesis_class : String
  pub hypothesis_statement : String
  pub candidate_signals : List String
  pub vehicle_scope : List String
  pub upstream_confidence : String

pub data Response : Type 0 where
  not_found version_unsupported type_error : Response
  schema_failed : String → String → Response
  accepted : String → String → String → Bool → Response
  raised : AuditError → Response

pub record IngestState : Type 0 where
  pub findings : List (Key × FindingRow)
  pub audit : List AuditEvent
  pub queue : List PolicyGenerationSession
  pub received_total : ℕ

-- What a request is given: the fresh ids and the time, pydantic's reading of a body, with the field
-- and the message of its first error, and the digest of the canonical body.
pub record IngestContext : Type 0 where
  pub event_id : String
  pub new_uuid : String
  pub new_ulid : String
  pub now : String
  pub supported_major : ℕ
  pub model_validate : Fields → (String × String) ⊎ DiagnosticFinding
  pub payload_sha : Fields → String

-- body_tenant_id is not None and body_tenant_id != principal.tenant_id
abbrev pub differs : String → Json → Bool
differs tenant null = false
differs tenant (str s) = not (s == tenant)
differs tenant other = true

unfoldable pub foreign_tenant : Principal → Fields → Bool
unfolding get
foreign_tenant principal body = elim (get "tenant_id" body) [
  | none ↦ false
  | some v ↦ differs principal.tenant_id v
]

-- What `check` makes of the value of schema_version: `none` is the TypeError of the pattern on a
-- value that is true and no text; a value that is false is malformed as None is.
abbrev pub version_text : Json → Option (Option Text)
version_text null = some none
version_text (bool false) = some none
version_text (int zero) = some none
version_text (str s) = some (some (codes s))
version_text (arr nil) = some none
version_text (obj end) = some none
version_text other = none

abbrev pub refusal : SchemaVersionResult → Option Response
refusal r = if r.ok then none else elim r.code [
  | some schema_version_unsupported ↦ some version_unsupported
  | _ ↦ some (schema_failed "schema_version" "malformed semver")
]

abbrev pub version_value : Option Json → Option (Option Text)
version_value none = some none
version_value (some v) = version_text v

abbrev pub refuse_version : ℕ → Option (Option Text) → Option Response
refuse_version supported none = some type_error
refuse_version supported (some version) = refusal (check supported version)

-- `none` is a version that passes.
unfoldable pub version_refusal : ℕ → Fields → Option Response
version_refusal supported body =
    refuse_version supported (version_value (get "schema_version" body))

unfoldable pub finding_row : IngestContext → String → DiagnosticFinding → FindingRow
finding_row ctx payload_sha f = record {
  schema_version = f.schema_version;
  anomaly_type = f.anomaly_type;
  hypothesis_class = f.hypothesis_class;
  hypothesis_statement = f.hypothesis_statement;
  candidate_signals = f.candidate_signals;
  vehicle_scope = f.vehicle_scope;
  upstream_confidence = f.upstream_confidence;
  received_at = ctx.now;
  received_payload_sha256 = payload_sha;
}

unfoldable pub accepted_write : Principal → DiagnosticFinding → String → AuditWrite
accepted_write principal f correlation_id = record {
  tenant_id = principal.tenant_id;
  kind = "accepted";
  correlation_id = correlation_id;
  principal_subject = principal.subject;
  originating_finding =
      some
        (field "tenant_id" (str principal.tenant_id) (field "finding_id" (str f.finding_id) end));
  policy_ref = none;
  deployment_ref = none;
  outcome_ref = none;
  error = none;
  slm_repo = none;
  slm_revision_sha = none;
  slm_runtime = none;
  slm_runtime_version = none;
  slm_quantization = none;
  slm_decoding_seed = none;
  prompt_template_version = none;
  inbound_schema_version = some f.schema_version;
  time_acceleration_factor = none;
}

abbrev pub texts : List String → Items
texts [] = nil
texts (s ∷ ss) = cons (str s) (texts ss)

-- The session that `_enqueue` runs the graph on.
unfoldable pub new_session :
    IngestContext → Principal → DiagnosticFinding → String → PolicyGenerationSession
new_session ctx principal f correlation_id = record {
  session_id = ctx.new_ulid;
  tenant_id = principal.tenant_id;
  correlation_id = correlation_id;
  originating_finding = field "tenant_id" (str principal.tenant_id) (
      field "finding_id" (str f.finding_id) (
        field "schema_version" (str f.schema_version) (
          field "anomaly_type" (str f.anomaly_type) (
            field "hypothesis_class" (str f.hypothesis_class) (
              field "hypothesis_statement" (str f.hypothesis_statement) (
                field "candidate_signals" (arr (texts f.candidate_signals)) (
                  field "vehicle_scope" (arr (texts f.vehicle_scope))
                    (field "upstream_confidence" (number f.upstream_confidence) end))))))));
  execution_plan = Stage.generate ∷ Stage.validate ∷ Stage.deploy ∷ [];
  retry_count = 0;
  retry_budget = 3;
  validation_errors = [];
  generated_policy = none;
  deployment_record = none;
  started_at = ctx.now;
  last_runtime_info = none;
  last_decoding_seed = none;
  prompt_template_version = "1.0.0";
}

-- INSERT ... ON CONFLICT (tenant_id, finding_id) DO NOTHING
unfoldable pub insert_finding : Key → FindingRow → List (Key × FindingRow) → List (Key × FindingRow)
unfolding has
insert_finding key row findings = if has key findings then findings else insert key row findings

abbrev pub reply : Principal → DiagnosticFinding → String → Bool → Response
reply principal f correlation_id replay =
    accepted principal.tenant_id f.finding_id correlation_id replay

-- The rest of the first-seen branch, once the audit writer has answered.
abbrev pub enqueue_after :
    AuditError ⊎ (String × List AuditEvent)
    → IngestContext
    → Principal
    → DiagnosticFinding
    → String
    → IngestState
    → Response × IngestState
enqueue_after (inl e) ctx principal f correlation_id s = (raised e, s)
enqueue_after (inr (id, audit)) ctx principal f correlation_id s = (
  reply principal f correlation_id false,
  record s { audit = audit; queue = s.queue ++ (new_session ctx principal f correlation_id ∷ []) },
)

abbrev pub key_of : Principal → DiagnosticFinding → Key
key_of principal f = (principal.tenant_id, f.finding_id)

-- _persist_finding and _enqueue.
unfoldable pub first_seen :
    IngestContext
    → Principal
    → DiagnosticFinding
    → String
    → String
    → IngestState
    → Response × IngestState
first_seen ctx principal f payload_sha correlation_id s =
    enqueue_after (write ctx.event_id ctx.now (accepted_write principal f correlation_id) s.audit)
      ctx principal f correlation_id
      (record s {
        findings = insert_finding (key_of principal f) (finding_row ctx payload_sha f) s.findings;
      })

-- request.headers.get("x-correlation-id") or str(uuid.uuid4())
abbrev pub correlation_of : IngestContext → Option String → String
correlation_of ctx none = ctx.new_uuid
correlation_of ctx (some h) = if h == "" then ctx.new_uuid else h

-- From the idempotency check on.
unfoldable pub handle :
    Bool
    → IngestContext
    → Principal
    → DiagnosticFinding
    → String
    → String
    → IngestState
    → Response × IngestState
handle true ctx principal f payload_sha correlation_id s =
    first_seen ctx principal f payload_sha correlation_id s
handle false ctx principal f payload_sha correlation_id s =
    (reply principal f correlation_id true, s)

abbrev pub read_body :
    (String × String) ⊎ DiagnosticFinding
    → IngestContext
    → Principal
    → Fields
    → Option String
    → IngestState
    → Response × IngestState
read_body (inl (where_it_is, message)) ctx principal body header s =
    (schema_failed where_it_is message, s)
read_body (inr f) ctx principal body header s =
    let sha = ctx.payload_sha body in
    let decision = check_in_findings (key_of principal f) sha s.findings in
    handle decision.first_seen ctx principal f sha (correlation_of ctx header)
      (record s { received_total = s.received_total + 1 })

abbrev pub pass_version :
    Option Response
    → IngestContext
    → Principal
    → Fields
    → Option String
    → IngestState
    → Response × IngestState
pass_version (some refused) ctx principal body header s = (refused, s)
pass_version none ctx principal body header s =
    read_body (ctx.model_validate body) ctx principal body header s

unfoldable pub post_finding :
    IngestContext → Principal → Fields → Option String → IngestState → Response × IngestState
post_finding ctx principal body header s =
    if foreign_tenant principal body
    then (not_found, s)
    else pass_version (version_refusal ctx.supported_major body) ctx principal body header s
