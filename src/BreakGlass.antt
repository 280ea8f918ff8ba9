-- ===== src/BreakGlass.antt =====
-- src/collectmind/audit_admin/api.py: the cross-tenant read of the audit trail for operators.
pub mod Recorded
pub mod Repeated
mod Examples
use snts_collectmind.Prelude.{
  ℕ, Bool, true, false, ◌&&◌, ◌||◌, Option, none, some, List, [], ◌∷◌, ◌++◌, String, Text, codes,
  keep_if, length, all, leb, nat_eq, is_lower, is_upper, is_digit, if◌then◌else◌, ◌==◌, ◌⊎◌, inl,
  inr,
}
use snts_collectmind.Prelude.Json.{Json, str, obj, Fields, end, field}
use snts_collectmind.Registry.Audit.{AuditWrite, AuditEvent, find_row, same_key, own_key}
use snts_collectmind.Auth.Verifier.{JwtLibrary, JwtVerifier}
use snts_collectmind.Auth.Principals.{
  Credentials, Refusal, OperatorPrincipal, authenticated_operator_principal,
}

pub data ReasonCode : Type 0 where
  incident_response legal_hold regulator_request support_escalation operator_self_audit : ReasonCode

abbrev pub reason_text : ReasonCode → String
reason_text incident_response = "incident_response"
reason_text legal_hold = "legal_hold"
reason_text regulator_request = "regulator_request"
reason_text support_escalation = "support_escalation"
reason_text operator_self_audit = "operator_self_audit"

-- The body of the request.
pub record BreakGlassRequest : Type 0 where
  pub tenant_scope : String
  pub correlation_id : String
  pub reason_code : ReasonCode

-- The events as they are answered, with what is left of the four columns of references.
pub record EventShown : Type 0 where
  pub event_id : String
  pub tenant_id : String
  pub kind : String
  pub correlation_id : String
  pub occurred_at : String
  pub extras : Option Fields

pub data Response : Type 0 where
  -- AuditEventList
  event_list : List EventShown → ℕ → Response
  -- HTTPException(404) with the code no_events
  no_events : Response
  refused : Refusal → Response
  -- The statement raised, which aborts the transaction: a 500.
  aborted : Response

unfoldable pub extras_of : OperatorPrincipal → BreakGlassRequest → Fields
extras_of operator payload = field "operator_principal_subject" (str operator.subject) (
    field "tenant_scope" (str payload.tenant_scope)
      (field "reason_code" (str (reason_text payload.reason_code)) end))

-- The row of the INSERT: all other columns are NULL.
unfoldable pub break_glass_row :
    String → String → OperatorPrincipal → BreakGlassRequest → AuditEvent
unfolding extras_of
break_glass_row event_id now operator payload = record {
  event_id = event_id;
  occurred_at = now;
  written = record {
    tenant_id = payload.tenant_scope;
    kind = "break_glass";
    correlation_id = payload.correlation_id;
    principal_subject = operator.subject;
    originating_finding = some (extras_of operator payload);
    policy_ref = none;
    deployment_ref = none;
    outcome_ref = none;
    error = none;
    slm_repo = none;
    slm_revision_sha = none;
    slm_runtime = none;
    slm_runtime_version = none;
    slm_quantization = none;
    slm_decoding_seed = none;
    prompt_template_version = none;
    inbound_schema_version = none;
    time_acceleration_factor = none;
  };
}

abbrev pub add_unless : Option AuditEvent → AuditEvent → List AuditEvent → List AuditEvent
add_unless none row table = table ++ (row ∷ [])
add_unless (some other) row table = table

-- INSERT ... ON CONFLICT (correlation_id, kind) DO NOTHING, past the row-level security.
unfoldable pub insert_row : AuditEvent → List AuditEvent → List AuditEvent
unfolding find_row
insert_row row table = add_unless (find_row (own_key row) table) row table

-- WHERE tenant_id = $1 AND correlation_id = $2
abbrev pub in_scope : BreakGlassRequest → AuditEvent → Bool
in_scope payload r =
    (r.written.tenant_id == payload.tenant_scope)
    && (r.written.correlation_id == payload.correlation_id)

-- if value is None: continue
abbrev pub reference : String → Option Fields → Fields → Fields
reference key none rest = rest
reference key (some value) rest = field key (obj value) rest

-- row_extras or None
abbrev pub or_none : Fields → Option Fields
or_none end = none
or_none (field k v rest) = some (field k v rest)

unfoldable pub shown : AuditEvent → EventShown
shown r = record {
  event_id = r.event_id;
  tenant_id = r.written.tenant_id;
  kind = r.written.kind;
  correlation_id = r.written.correlation_id;
  occurred_at = r.occurred_at;
  extras = or_none (
      reference "originating_finding" r.written.originating_finding (
        reference "policy_ref" r.written.policy_ref (
          reference "deployment_ref" r.written.deployment_ref
            (reference "outcome_ref" r.written.outcome_ref end))));
}

unfoldable pub events_of : List AuditEvent → List EventShown
unfolding shown
events_of [] = []
events_of (r ∷ rows) = shown r ∷ events_of rows

-- if not events: raise 404
abbrev pub respond : List EventShown → Response
respond [] = no_events
respond (e ∷ events) = event_list (e ∷ events) (length (e ∷ events))

-- The transaction: the INSERT, then the SELECT. `outage` says that the database raises, which
-- leaves the table as it was.
unfoldable pub break_glass_query :
    Bool
    → String
    → String
    → OperatorPrincipal
    → BreakGlassRequest
    → List AuditEvent
    → Response × List AuditEvent
unfolding insert_row break_glass_row events_of
break_glass_query outage event_id now operator payload table =
    let after = insert_row (break_glass_row event_id now operator payload) table in
    if outage
    then (aborted, table)
    else (respond (events_of (keep_if (in_scope payload) after)), after)

module _ {K C : Type 0} (lib : JwtLibrary K C) where
  abbrev pub handled :
      Bool
      → String
      → String
      → BreakGlassRequest
      → List AuditEvent
      → (Refusal ⊎ OperatorPrincipal) × JwtVerifier C
      → Response × List AuditEvent
  handled outage event_id now payload table (inl r, v) = (refused r, table)
  handled outage event_id now payload table (inr operator, v) =
      break_glass_query outage event_id now operator payload table

  -- The route: its dependency, then its handler.
  unfoldable pub break_glass :
      Bool
      → String
      → String
      → Option Credentials
      → JwtVerifier C
      → BreakGlassRequest
      → List AuditEvent
      → Response × List AuditEvent
  unfolding authenticated_operator_principal break_glass_query
  break_glass outage event_id now credentials verifier payload table =
      handled outage event_id now payload table
        (authenticated_operator_principal lib credentials verifier)
