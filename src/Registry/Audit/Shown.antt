-- ===== src/Registry/Audit/Shown.antt =====
-- src/collectmind/registry/audit.py: _row_to_event, what is shown of a row of the audit table.
use snts_collectmind.Prelude.{
  ℕ, zero, suc, Bool, false, ◌||◌, Option, none, some, [], ◌∷◌, String, Text, codes, starts_with,
  if◌then◌else◌, ◌==◌, ◌≡◌,
}
use snts_collectmind.Prelude.Json.{
  Json, null, bool, int, number, str, arr, obj, Items, nil, cons, Fields, get,
}
use snts_collectmind.Registry.Audit.{AuditWrite, AuditEvent, unless_empty}

pub record AuditShown : Type 0 where
  pub event_id : String
  pub tenant_id : String
  pub kind : String
  pub correlation_id : String
  pub principal_subject : String
  pub occurred_at : String
  pub originating_finding : Option Fields
  pub policy_ref : Option Fields
  pub deployment_ref : Option Fields
  pub outcome_ref : Option Fields
  pub error : Option Json
  pub slm_repo : Option String
  pub slm_revision_sha : Option String
  pub slm_runtime : Option String
  pub slm_runtime_version : Option String
  pub slm_quantization : Option String
  pub slm_decoding_seed : Option ℕ
  pub prompt_template_version : Option String
  pub inbound_schema_version : Option String
  pub time_acceleration_factor : Option String

-- "error" in s
abbrev pub mentions : Text → Text → Bool
mentions word [] = starts_with word []
mentions word (c ∷ s) = starts_with word (c ∷ s) || mentions word s

abbrev pub has_item : String → Items → Bool
has_item name nil = false
has_item name (cons (str s) items) = (s == name) || has_item name items
has_item name (cons v items) = has_item name items

-- extras = d.get("_extras") or {}, and extras["error"] if "error" in extras; none is a TypeError.
abbrev pub extras_error : Option Json → Option (Option Json)
extras_error none = some none
extras_error (some null) = some none
extras_error (some (bool b)) = if b then none else some none
extras_error (some (int zero)) = some none
extras_error (some (int (suc n))) = none
extras_error (some (number n)) = none
extras_error (some (str s)) = if mentions (codes "error") (codes s) then none else some none
extras_error (some (arr items)) = if has_item "error" items then none else some none
extras_error (some (obj extras)) = some (get "error" extras)

-- `originating_finding` is a dict, or None.
abbrev pub error_of : Option Fields → Option (Option Json)
error_of none = some none
error_of (some d) = extras_error (get "_extras" d)

abbrev pub shown_with : AuditEvent → Option (Option Json) → Option AuditShown
shown_with r none = none
shown_with r (some error) = some (record {
  event_id = r.event_id;
  tenant_id = r.written.tenant_id;
  kind = r.written.kind;
  correlation_id = r.written.correlation_id;
  principal_subject = r.written.principal_subject;
  occurred_at = r.occurred_at;
  originating_finding = r.written.originating_finding;
  policy_ref = r.written.policy_ref;
  deployment_ref = r.written.deployment_ref;
  outcome_ref = r.written.outcome_ref;
  error = error;
  slm_repo = r.written.slm_repo;
  slm_revision_sha = r.written.slm_revision_sha;
  slm_runtime = r.written.slm_runtime;
  slm_runtime_version = r.written.slm_runtime_version;
  slm_quantization = r.written.slm_quantization;
  slm_decoding_seed = r.written.slm_decoding_seed;
  prompt_template_version = r.written.prompt_template_version;
  inbound_schema_version = r.written.inbound_schema_version;
  time_acceleration_factor = r.written.time_acceleration_factor;
})

-- The row has no column for the error of the write.
unfoldable pub row_to_event : AuditEvent → Option AuditShown
unfolding get starts_with
row_to_event r = shown_with r (error_of r.written.originating_finding)

abbrev pub as_object : Option Fields → Option Json
as_object none = none
as_object (some e) = some (obj e)

-- What is shown of the row of a write is what was written.
pub record Shows (w : AuditWrite) (a : AuditShown) : Type 0 where
  pub tenant : a.tenant_id ≡ w.tenant_id
  pub kind : a.kind ≡ w.kind
  pub correlation : a.correlation_id ≡ w.correlation_id
  pub subject : a.principal_subject ≡ w.principal_subject
  pub error : a.error ≡ as_object w.error
  pub policy : a.policy_ref ≡ unless_empty w.policy_ref
  pub deployment : a.deployment_ref ≡ unless_empty w.deployment_ref
  pub outcome : a.outcome_ref ≡ unless_empty w.outcome_ref
