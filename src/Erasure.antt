-- ===== src/Erasure.antt =====
-- src/collectmind/erasure/dispatcher.py: ErasureDispatcher, on the rows of the stores that it
-- reaches (the row-level security of `acquire` adds the tenant that the queries name
-- themselves).
pub mod Everywhere
mod Examples
use snts_collectmind.Prelude.{
  Bool, true, false, not, ◌&&◌, ◌||◌, Option, none, some, List, [], ◌∷◌, ◌++◌, map, String, any,
  is_empty, keep_if, if◌then◌else◌, ◌==◌, ◌⊎◌, inl, inr,
}
use snts_collectmind.Prelude.Json.{Json, str, Fields, end, field, get}
use snts_collectmind.Prelude.Rows.{first}
use snts_collectmind.Registry.Audit.{AuditWrite, AuditEvent, AuditError, or_empty, write}

pub data SubjectKind : Type 0 where
  vehicle finding principal : SubjectKind

pub data ErasureMode : Type 0 where
  erased_mode redacted_mode : ErasureMode

pub record ErasureRequest : Type 0 where
  pub subject_kind : SubjectKind
  pub subject_identifier : String
  pub mode : ErasureMode

pub data StoreStatus : Type 0 where
  pending erased redacted failed : StoreStatus

pub data ErasureStatus : Type 0 where
  requested completed partial : ErasureStatus

pub record PerStore : Type 0 where
  pub registry : StoreStatus
  pub telemetry : StoreStatus
  pub audit : StoreStatus

-- A row of erasure_requests; its times are left out.
pub record ErasureRow : Type 0 where
  pub request_id : String
  pub tenant_id : String
  pub requested_by : String
  pub request : ErasureRequest
  pub status : ErasureStatus
  pub per_store_status : PerStore

-- A row of collection_policies and one of telemetry_observations, as far as erasure reads them.
pub record PolicyScope : Type 0 where
  pub tenant_id : String
  pub policy_id : String
  pub vehicle_scope : List String

pub record Observation : Type 0 where
  pub tenant_id : String
  pub vehicle_id : String
  pub value : String

pub record Stores : Type 0 where
  pub policies : List PolicyScope
  pub telemetry : List Observation
  pub audit : List AuditEvent
  pub requests : List ErasureRow

-- Which of the three statements cannot reach its store.
pub record Outage : Type 0 where
  pub registry : Bool
  pub telemetry : Bool
  pub audit : Bool

abbrev pub covers : String → String → PolicyScope → Bool
covers tenant id p = (p.tenant_id == tenant) && any (λ v. v == id) p.vehicle_scope

-- jsonb_agg of no rows is NULL, which the column refuses.
abbrev pub non_null : PolicyScope → List String → Option PolicyScope
non_null p [] = none
non_null p (v ∷ vs) = some (record p { vehicle_scope = v ∷ vs })

unfoldable pub without : String → List String → List String
without id [] = []
without id (v ∷ vs) = let rest = without id vs in if v == id then rest else v ∷ rest

unfoldable pub update_scope : String → String → PolicyScope → Option PolicyScope
unfolding without
update_scope tenant id p =
    if covers tenant id p then non_null p (without id p.vehicle_scope) else some p

abbrev pub cons_some : Option PolicyScope → Option (List PolicyScope) → Option (List PolicyScope)
cons_some (some p) (some ps) = some (p ∷ ps)
cons_some _ _ = none

-- The UPDATE of all rows, or none of them.
unfoldable pub update_scopes : String → String → List PolicyScope → Option (List PolicyScope)
update_scopes tenant id [] = some []
update_scopes tenant id (p ∷ ps) = cons_some (update_scope tenant id p) (update_scopes tenant id ps)

-- _erase_registry; `none` is a statement that raises.
unfoldable pub erase_registry :
    Bool → String → ErasureRequest → List PolicyScope → Option (List PolicyScope)
erase_registry down tenant request policies = elim request.subject_kind [
  | vehicle ↦ if down then none else update_scopes tenant request.subject_identifier policies
  | _ ↦ some policies
]

abbrev pub observed : String → String → Observation → Bool
observed tenant id o = (o.tenant_id == tenant) && (o.vehicle_id == id)

-- DELETE FROM telemetry_observations
unfoldable pub delete_telemetry : String → String → List Observation → List Observation
delete_telemetry tenant id [] = []
delete_telemetry tenant id (o ∷ rest) =
    let kept = delete_telemetry tenant id rest in if observed tenant id o then kept else o ∷ kept

-- _erase_telemetry
unfoldable pub erase_telemetry :
    Bool → String → ErasureRequest → List Observation → Option (List Observation)
erase_telemetry down tenant request telemetry = elim request.subject_kind [
  | vehicle ↦
      if down then none else some (delete_telemetry tenant request.subject_identifier telemetry)
  | _ ↦ some telemetry
]

-- originating_finding ->> 'finding_id' = $2, for a value that is a string, as it is in every row.
abbrev pub names_finding : String → Option Json → Bool
names_finding id (some (str f)) = f == id
names_finding id _ = false

unfoldable pub set_field : String → Json → Fields → Fields
set_field key v end = field key v end
set_field key v (field k u rest) =
    let set = set_field key v rest in if k == key then field k v rest else field k u set

unfoldable pub redact_row : String → String → AuditEvent → AuditEvent
unfolding get set_field
redact_row tenant id r =
    if (r.written.tenant_id == tenant)
      && (names_finding id (get "finding_id" (or_empty r.written.originating_finding))
          || (r.written.principal_subject == id))
    then record r {
      written = record r.written {
        originating_finding =
            some (set_field "redacted_subject" (str id) (or_empty r.written.originating_finding));
      };
    }
    else r

-- _redact_audit
unfoldable pub redact_audit :
    Bool → String → ErasureRequest → List AuditEvent → Option (List AuditEvent)
unfolding redact_row
redact_audit down tenant request audit =
    if down then none else some (map (redact_row tenant request.subject_identifier) audit)

-- What a try block leaves: the rows and the status of the store.
abbrev pub attempted {ℓ} :
    {A : Type ℓ} → StoreStatus → List A → Option (List A) → List A × StoreStatus
attempted done before none = (before, failed)
attempted done before (some after) = (after, done)

abbrev pub registry_status : ErasureMode → StoreStatus
registry_status erased_mode = erased
registry_status redacted_mode = redacted

abbrev pub succeeded : StoreStatus → Bool
succeeded erased = true
succeeded redacted = true
succeeded _ = false

abbrev pub status_of : PerStore → ErasureStatus
status_of p =
    if succeeded p.registry && (succeeded p.telemetry && succeeded p.audit)
    then completed
    else partial

-- UPDATE erasure_requests ... WHERE request_id = $4
unfoldable pub close_request : String → String → PerStore → List ErasureRow → List ErasureRow
close_request tenant request_id per_store [] = []
close_request tenant request_id per_store (r ∷ rows) =
    (if (r.tenant_id == tenant) && (r.request_id == request_id)
      then record r { status = status_of per_store; per_store_status = per_store }
      else r)
    ∷ close_request tenant request_id per_store rows

-- _dispatch, with the statuses that it writes.
unfoldable pub dispatch : Outage → String → String → ErasureRequest → Stores → PerStore × Stores
dispatch down tenant request_id request s =
    let policies =
      attempted (registry_status request.mode) s.policies
        (erase_registry down.registry tenant request s.policies) in
    let telemetry =
      attempted erased s.telemetry (erase_telemetry down.telemetry tenant request s.telemetry) in
    let audit = attempted redacted s.audit (redact_audit down.audit tenant request s.audit) in
    let per_store : PerStore = record {
      registry = policies.1;
      telemetry = telemetry.1;
      audit = audit.1;
    } in
    (
      per_store,
      record {
        policies = policies.0;
        telemetry = telemetry.0;
        audit = audit.0;
        requests = close_request tenant request_id per_store s.requests;
      },
    )

unfoldable pub erasure_write : String → String → String → AuditWrite
erasure_write request_id tenant requested_by = record {
  tenant_id = tenant;
  kind = "erasure";
  correlation_id = request_id;
  principal_subject = requested_by;
  originating_finding = none;
  policy_ref = none;
  deployment_ref = none;
  outcome_ref = none;
  error = none;
  slm_repo = none;
  slm_revision_sha = none;
  slm_runtime = none;
  slm_runtime_version = none;
  slm_quantization = none;
  slm_decoding_seed = none;
  prompt_template_version = none;
  inbound_schema_version = none;
  time_acceleration_factor = none;
}

abbrev pub dispatch_after :
    AuditError ⊎ (String × List AuditEvent)
    → Outage
    → String
    → String
    → ErasureRequest
    → Stores
    → Option AuditError × Stores
dispatch_after (inl e) down tenant request_id request s = (some e, s)
dispatch_after (inr (id, audit)) down tenant request_id request s =
    (none, (dispatch down tenant request_id request (record s { audit = audit })).1)

-- submit, and the task that it starts.
unfoldable pub submit :
    String
    → String
    → Outage
    → String
    → String
    → String
    → ErasureRequest
    → Stores
    → Option AuditError × Stores
submit event_id now down request_id tenant requested_by request s =
    dispatch_after (write event_id now (erasure_write request_id tenant requested_by) s.audit) down
      tenant request_id request
      (record s {
        requests =
            s.requests
            ++ (record {
              request_id = request_id;
              tenant_id = tenant;
              requested_by = requested_by;
              request = request;
              status = requested;
              per_store_status = record {
                registry = pending;
                telemetry = pending;
                audit = pending;
              };
            }
                ∷ []);
      })

abbrev pub request_owned : String → ErasureRow → Bool
request_owned tenant_id r = r.tenant_id == tenant_id

-- get, under the row-level security of acquire(tenant_id).
unfoldable pub get_request : String → String → List ErasureRow → Option ErasureRow
get_request tenant_id request_id table = first (
    keep_if
      (λ r.
        request_owned tenant_id r && ((r.tenant_id == tenant_id) && (r.request_id == request_id)))
      table)
