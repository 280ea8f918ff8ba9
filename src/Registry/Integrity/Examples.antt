-- ===== src/Registry/Integrity/Examples.antt =====
-- The registry at concrete steps: a policy inserted into an empty one.
use snts_collectmind.Prelude.{none, some, [], ◌∷◌, codes, ◌≡◌, refl}
use snts_collectmind.Prelude.Json.{str, int, arr, obj, nil, cons, Fields, end, field, get, get_or}
use snts_collectmind.Graph.Runner.{AuditMeta}
use snts_collectmind.Registry.Policies
use snts_collectmind.Registry.Policies.{CollectionPolicyRow, Casts, row_of_policy, add_policy}
use snts_collectmind.Registry.Integrity.{Registry}

abbrev casts : Casts
casts = record { to_int = λ j. some 24; to_float = λ j. some "0.8"; from_iso = λ s. some 1 }

abbrev a_meta : AuditMeta
a_meta = record {
  prompt_template_version = "1.0.0";
  slm_repo = str "repo";
  slm_revision_sha = str "sha";
  slm_runtime = str "stub";
  slm_runtime_version = str "1";
  slm_quantization = str "none";
  slm_decoding_seed = 7;
  payload_signature = codes "sig";
  signature_key_id = "k1";
}

abbrev a_policy : Fields
a_policy = field "policy_id" (str "p1") (
    field "version" (str "1.0.0") (
      field "signals" (arr nil) (
        field "collection_window_hours" (int 24) (
          field "vehicle_scope" (arr (cons (str "v1") nil)) (
            field "data_governance_flags" (obj end) (
              field "confidence_threshold" (str "0.8") (
                field "generated_from_session_id" (str "s1")
                  (field "originating_finding" (obj end) end))))))))

abbrev a_row : CollectionPolicyRow
a_row = record {
  tenant_id = "acme";
  policy_id = "p1";
  version = "1.0.0";
  signal_spec = arr nil;
  trigger_conditions = arr nil;
  collection_window_hours_logical = 24;
  vehicle_scope = arr (cons (str "v1") nil);
  hypothesis_statement = str "";
  data_governance_flags = obj end;
  confidence_threshold = "0.8";
  generated_from_session_id = str "s1";
  originating_finding = obj end;
  audit_meta = a_meta;
  created_at = 5;
}

abbrev empty_registry : Registry
empty_registry = record { policies = []; deployments = [] }

abbrev with_policy : Registry
with_policy = record { policies = a_row ∷ []; deployments = [] }

inserted : Policies.insert casts "acme" 5 a_policy a_meta [] ≡ some (a_row ∷ [])
unfolding Policies.insert row_of_policy add_policy get get_or
inserted = refl

-- The same key a second time raises.
refused_twice : Policies.insert casts "acme" 6 a_policy a_meta (a_row ∷ []) ≡ none
unfolding Policies.insert row_of_policy add_policy get get_or
refused_twice = refl
