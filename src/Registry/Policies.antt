-- ===== src/Registry/Policies.antt =====
-- src/collectmind/registry/repository.py: PolicyRepository, over the table collection_policies.
use snts_collectmind.Prelude.{
  ℕ, Bool, false, ◌&&◌, Option, none, some, List, [], ◌∷◌, ◌++◌, map, String, keep_if, any,
  if◌then◌else◌, ◌==◌,
}
use snts_collectmind.Prelude.Json.{Json, str, arr, obj, nil, Fields, get, get_or}
use snts_collectmind.Prelude.Rows.{take, latest_first}
use snts_collectmind.Graph.Runner.{AuditMeta}

-- A row of collection_policies. Times are numbers.
pub record CollectionPolicyRow : Type 0 where
  pub tenant_id : String
  pub policy_id : String
  pub version : String
  pub signal_spec : Json
  pub trigger_conditions : Json
  pub collection_window_hours_logical : ℕ
  pub vehicle_scope : Json
  pub hypothesis_statement : Json
  pub data_governance_flags : Json
  pub confidence_threshold : String
  pub generated_from_session_id : Json
  pub originating_finding : Json
  pub audit_meta : AuditMeta
  pub created_at : ℕ

-- int() and float() on a JSON value, none where they raise, and datetime.fromisoformat.
pub record Casts : Type 0 where
  pub to_int : Json → Option ℕ
  pub to_float : Json → Option String
  pub from_iso : String → Option ℕ

infixl 5 ◌>>=◌
abbrev pub ◌>>=◌ {ℓ κ} : {A : Type ℓ} {B : Type κ} → Option A → (A → Option B) → Option B
none >>= f = none
some a >>= f = f a

-- A text column takes a str.
abbrev pub text_column : Json → Option String
text_column (str s) = some s
text_column _ = none

-- The arguments of the INSERT, in their order; none is a KeyError or a value that is refused.
unfoldable pub row_of_policy : Casts → String → ℕ → Fields → AuditMeta → Option CollectionPolicyRow
unfolding get get_or
row_of_policy casts tenant_id now policy audit_meta = do
  policy_id ← get "policy_id" policy
  policy_id_text ← text_column policy_id
  version ← get "version" policy
  version_text ← text_column version
  signals ← get "signals" policy
  window ← get "collection_window_hours" policy
  hours ← casts.to_int window
  vehicle_scope ← get "vehicle_scope" policy
  data_governance_flags ← get "data_governance_flags" policy
  confidence ← get "confidence_threshold" policy
  confidence_threshold ← casts.to_float confidence
  session ← get "generated_from_session_id" policy
  originating_finding ← get "originating_finding" policy
  some (record {
    tenant_id = tenant_id;
    policy_id = policy_id_text;
    version = version_text;
    signal_spec = signals;
    trigger_conditions = get_or "trigger_conditions" policy (arr nil);
    collection_window_hours_logical = hours;
    vehicle_scope = vehicle_scope;
    hypothesis_statement = get_or "hypothesis" policy (str "");
    data_governance_flags = data_governance_flags;
    confidence_threshold = confidence_threshold;
    generated_from_session_id = session;
    originating_finding = originating_finding;
    audit_meta = audit_meta;
    created_at = now;
  })

-- PRIMARY KEY (tenant_id, policy_id, version)
abbrev pub policy_key : String → String → String → CollectionPolicyRow → Bool
policy_key tenant_id policy_id version r =
    (r.tenant_id == tenant_id) && ((r.policy_id == policy_id) && (r.version == version))

unfoldable pub add_policy :
    CollectionPolicyRow → List CollectionPolicyRow → Option (List CollectionPolicyRow)
add_policy row table =
    if any (policy_key row.tenant_id row.policy_id row.version) table
    then none
    else some (table ++ (row ∷ []))

-- insert; none is a statement that raises.
unfoldable pub insert :
    Casts
    → String
    → ℕ
    → Fields
    → AuditMeta
    → List CollectionPolicyRow
    → Option (List CollectionPolicyRow)
unfolding row_of_policy add_policy
insert casts tenant_id now policy audit_meta table =
    row_of_policy casts tenant_id now policy audit_meta >>= λ row. add_policy row table

-- _row_to_policy
pub record PolicyShown : Type 0 where
  pub policy_id : String
  pub version : String
  pub signals : Json
  pub trigger_conditions : Json
  pub collection_window_hours : ℕ
  pub hypothesis : Json
  pub vehicle_scope : Json
  pub data_governance_flags : Json
  pub confidence_threshold : String
  pub generated_from_session_id : Json
  pub originating_finding : Json
  pub prompt_template_version : String
  pub slm_repo : Json
  pub slm_revision_sha : Json
  pub slm_runtime : Json
  pub slm_runtime_version : Json
  pub slm_quantization : Json
  pub slm_decoding_seed : ℕ
  pub created_at : ℕ

unfoldable pub row_to_policy : CollectionPolicyRow → PolicyShown
row_to_policy r = record {
  policy_id = r.policy_id;
  version = r.version;
  signals = r.signal_spec;
  trigger_conditions = r.trigger_conditions;
  collection_window_hours = r.collection_window_hours_logical;
  hypothesis = r.hypothesis_statement;
  vehicle_scope = r.vehicle_scope;
  data_governance_flags = r.data_governance_flags;
  confidence_threshold = r.confidence_threshold;
  generated_from_session_id = r.generated_from_session_id;
  originating_finding = r.originating_finding;
  prompt_template_version = r.audit_meta.prompt_template_version;
  slm_repo = r.audit_meta.slm_repo;
  slm_revision_sha = r.audit_meta.slm_revision_sha;
  slm_runtime = r.audit_meta.slm_runtime;
  slm_runtime_version = r.audit_meta.slm_runtime_version;
  slm_quantization = r.audit_meta.slm_quantization;
  slm_decoding_seed = r.audit_meta.slm_decoding_seed;
  created_at = r.created_at;
}

abbrev pub created : CollectionPolicyRow → ℕ
created r = r.created_at

-- The rows that the row-level security of acquire(tenant_id) lets through.
abbrev pub owned : String → CollectionPolicyRow → Bool
owned tenant_id r = r.tenant_id == tenant_id

abbrev pub shown_first : List CollectionPolicyRow → Option PolicyShown
shown_first [] = none
shown_first (r ∷ rows) = some (row_to_policy r)

-- WHERE tenant_id = $1 AND policy_id = $2
abbrev pub is_policy : String → String → CollectionPolicyRow → Bool
is_policy tenant_id policy_id r =
    owned tenant_id r && ((r.tenant_id == tenant_id) && (r.policy_id == policy_id))

-- get without a version
unfoldable pub get_latest : String → String → List CollectionPolicyRow → Option PolicyShown
unfolding row_to_policy
get_latest tenant_id policy_id table =
    shown_first (latest_first created (keep_if (is_policy tenant_id policy_id) table))

-- get with a version
unfoldable pub get_version :
    String → String → String → List CollectionPolicyRow → Option PolicyShown
unfolding row_to_policy
get_version tenant_id policy_id version table =
    shown_first (keep_if (λ r. owned tenant_id r && policy_key tenant_id policy_id version r) table)

unfoldable pub list_versions : String → String → ℕ → List CollectionPolicyRow → List PolicyShown
unfolding row_to_policy
list_versions tenant_id policy_id limit table =
    map row_to_policy
      (take limit (latest_first created (keep_if (is_policy tenant_id policy_id) table)))

-- finding @> jsonb_build_object('finding_id', $2)
abbrev pub is_text : String → Option Json → Bool
is_text s (some (str t)) = t == s
is_text s _ = false

unfoldable pub has_finding : String → Json → Bool
unfolding get
has_finding finding_id (obj d) = is_text finding_id (get "finding_id" d)
has_finding finding_id _ = false

unfoldable pub find_by_finding : String → String → List CollectionPolicyRow → Option PolicyShown
unfolding row_to_policy has_finding
find_by_finding tenant_id finding_id table = shown_first (
    latest_first created (
      keep_if
        (λ r.
          owned tenant_id r
          && ((r.tenant_id == tenant_id) && has_finding finding_id r.originating_finding))
        table))
