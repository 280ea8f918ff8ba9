-- ===== src/Registry/Audit.antt =====
-- src/collectmind/registry/audit.py: AuditEventWriter over the audit_events table, kept in the
-- order of insertion. A failed write leaves the table as it was, since it runs in a transaction.
pub mod Complete
pub mod Coalesce
pub mod Shown
use snts_collectmind.Prelude.{
  ℕ, Bool, true, false, not, ◌&&◌, Option, none, some, List, [], ◌∷◌, ◌++◌, String, is_empty,
  keep_if, if◌then◌else◌, ◌==◌, ◌⊎◌, inl, inr,
}
use snts_collectmind.Prelude.Json.{Json, obj, Fields, end, field, get}

-- The keyword arguments of `write`, with `none` for None.
pub record AuditWrite : Type 0 where
  pub tenant_id : String
  pub kind : String
  pub correlation_id : String
  pub principal_subject : String
  pub originating_finding : Option Fields
  pub policy_ref : Option Fields
  pub deployment_ref : Option Fields
  pub outcome_ref : Option Fields
  pub error : Option Fields
  pub slm_repo : Option String
  pub slm_revision_sha : Option String
  pub slm_runtime : Option String
  pub slm_runtime_version : Option String
  pub slm_quantization : Option String
  pub slm_decoding_seed : Option ℕ
  pub prompt_template_version : Option String
  pub inbound_schema_version : Option String
  pub time_acceleration_factor : Option String

pub record AuditEvent : Type 0 where
  pub event_id : String
  pub occurred_at : String
  pub written : AuditWrite

pub data AuditError : Type 0 where
  missing_fields : List String → AuditError
  no_existing_row : AuditError

-- field in payload
unfoldable pub in_fields : String → Fields → Bool
unfolding get
in_fields name payload = elim (get name payload) [ none ↦ false | some v ↦ true ]

-- _KIND_MIN_FIELDS
unfoldable pub kind_min_fields : String → Option (List String)
kind_min_fields kind =
    if kind == "break_glass"
    then some ("operator_principal_subject" ∷ "tenant_scope" ∷ "reason_code" ∷ [])
    else if kind == "tenant_config_change"
    then some ("service_principal_subject" ∷ "target_tenant_id" ∷ [])
    else if kind == "deployment_rejected"
    then some (
        "policy_ref" ∷ "target_vehicle_id" ∷ "policy_declared_tenant_id"
        ∷ "vehicle_owning_tenant_id" ∷ [])
    else if kind == "vehicle_assignment_change"
    then some ("service_principal_subject" ∷ "vehicle_id" ∷ "new_tenant_id" ∷ "reason_code" ∷ [])
    else none

-- name for name, value in {...}.items() if value is None, one item at a time
abbrev pub none_name {ℓ} : {A : Type ℓ} → String → Option A → List String → List String
none_name name none rest = name ∷ rest
none_name name (some v) rest = rest

unfoldable pub missing_slm : AuditWrite → List String
missing_slm w = none_name "slm_repo" w.slm_repo (
    none_name "slm_revision_sha" w.slm_revision_sha (
      none_name "slm_runtime" w.slm_runtime (
        none_name "slm_runtime_version" w.slm_runtime_version (
          none_name "slm_quantization" w.slm_quantization (
            none_name "slm_decoding_seed" w.slm_decoding_seed
              (none_name "prompt_template_version" w.prompt_template_version []))))))

-- originating_finding or {}
abbrev pub or_empty : Option Fields → Fields
or_empty none = end
or_empty (some d) = d

unfoldable pub missing : AuditWrite → List String
unfolding missing_slm kind_min_fields in_fields
missing w = if w.kind == "generated" then missing_slm w else elim (kind_min_fields w.kind) [
  | none ↦ []
  | some names ↦ keep_if (λ name. not (in_fields name (or_empty w.originating_finding))) names
]

-- d.setdefault(key, v)
unfoldable pub set_default : String → Json → Fields → Fields
set_default key v end = field key v end
set_default key v (field k u rest) =
    let set = set_default key v rest in if k == key then field k u rest else field k u set

-- json.dumps(d) if d else None
abbrev pub unless_empty : Option Fields → Option Fields
unless_empty none = none
unless_empty (some end) = none
unless_empty (some (field k v rest)) = some (field k v rest)

unfoldable pub with_extras : AuditWrite → Fields
unfolding set_default
with_extras w = elim w.error [
  | none ↦ or_empty w.originating_finding
  | some e ↦
      set_default "_extras" (obj (field "error" (obj e) end)) (or_empty w.originating_finding)
]

-- The row that the INSERT writes.
unfoldable pub row_of : String → String → AuditWrite → AuditEvent
unfolding with_extras
row_of event_id now w = record {
  event_id = event_id;
  occurred_at = now;
  written = record w {
    originating_finding = unless_empty (some (with_extras w));
    policy_ref = unless_empty w.policy_ref;
    deployment_ref = unless_empty w.deployment_ref;
    outcome_ref = unless_empty w.outcome_ref;
  };
}

-- UNIQUE (correlation_id, kind)
abbrev pub same_key : String → String → AuditEvent → Bool
same_key correlation_id kind r =
    (r.written.correlation_id == correlation_id) && (r.written.kind == kind)

unfoldable pub find_row : (AuditEvent → Bool) → List AuditEvent → Option AuditEvent
find_row p [] = none
find_row p (r ∷ table) = if p r then some r else find_row p table

-- The rows that the row-level security of `acquire(tenant_id)` lets through.
abbrev pub visible : String → (AuditEvent → Bool) → AuditEvent → Bool
visible tenant_id p r = (r.written.tenant_id == tenant_id) && p r

-- What comes of an INSERT ... ON CONFLICT DO NOTHING RETURNING event_id, given the row in its way,
-- and of the SELECT that follows it, given the row that it sees.
abbrev pub settle :
    Option AuditEvent
    → Option AuditEvent
    → AuditEvent
    → List AuditEvent
    → AuditError ⊎ (String × List AuditEvent)
settle none seen row table = inr (row.event_id, table ++ (row ∷ []))
settle (some other) none row table = inl no_existing_row
settle (some other) (some existing) row table = inr (existing.event_id, table)

abbrev pub own_key : AuditEvent → AuditEvent → Bool
own_key row = same_key row.written.correlation_id row.written.kind

abbrev pub seen_key : AuditEvent → AuditEvent → Bool
seen_key row = visible row.written.tenant_id (own_key row)

unfoldable pub upsert : AuditEvent → List AuditEvent → AuditError ⊎ (String × List AuditEvent)
unfolding find_row
upsert row table = settle (find_row (own_key row) table) (find_row (seen_key row) table) row table

-- if missing: raise ValueError(...)
abbrev pub unless_missing {ℓ} : {A : Type ℓ} → List String → AuditError ⊎ A → AuditError ⊎ A
unless_missing [] result = result
unless_missing (name ∷ names) result = inl (missing_fields (name ∷ names))

-- `event_id` is the fresh ulid, and `now` the time.
unfoldable pub write :
    String → String → AuditWrite → List AuditEvent → AuditError ⊎ (String × List AuditEvent)
write event_id now w table = unless_missing (missing w) (upsert (row_of event_id now w) table)

-- ORDER BY occurred_at is the order of insertion, as long as the clock does not go back.
unfoldable pub list_for_correlation : String → String → List AuditEvent → List AuditEvent
list_for_correlation tenant_id correlation_id table =
    keep_if
      (visible tenant_id
        (λ r. (r.written.tenant_id == tenant_id) && (r.written.correlation_id == correlation_id)))
      table
