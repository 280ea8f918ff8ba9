-- ===== src/Graph/Runner.antt =====
-- src/collectmind/graph/runner.py: GraphRunner. What `_run` asks of the stores is a list of effects
-- in their order; `perform` carries them out up to the first that raises.
pub mod Trail
use snts_collectmind.Prelude.{
  ℕ, Bool, true, false, Option, none, some, List, [], ◌∷◌, ◌++◌, String, if◌then◌else◌, ◌==◌, ◌⊎◌,
  inl, inr, Text,
}
use snts_collectmind.Prelude.Json.{
  Json, null, str, obj, arr, Items, nil, cons, Fields, end, field, get, get_or,
}
use snts_collectmind.Validator.Policy.{ValidationError, Details, invalid_signals}
use snts_collectmind.Registry.Audit.{AuditWrite, or_empty}
use snts_collectmind.Graph.Session.{PolicyGenerationSession, DeploymentRecord}
use snts_collectmind.Graph.Build.{GraphRun, FinalState, completed, dead_lettered}

-- What is kept with a policy row besides the policy.
pub record AuditMeta : Type 0 where
  pub prompt_template_version : String
  pub slm_repo : Json
  pub slm_revision_sha : Json
  pub slm_runtime : Json
  pub slm_runtime_version : Json
  pub slm_quantization : Json
  pub slm_decoding_seed : ℕ
  pub payload_signature : Text
  pub signature_key_id : String

-- `key_error` is a subscript of a missing key.
pub data Effect : Type 0 where
  write_audit : AuditWrite → Effect
  insert_policy : String → Fields → AuditMeta → Effect
  insert_deployment : String → DeploymentRecord → Effect
  simulate_telemetry : String → Fields → String → Option String → Effect
  key_error : Effect

-- What the runner is given: str() on a JSON value, a text as a string, the signer, the scheduler's
-- factor, the errors as JSON, and the directive of the request.
pub record RunnerContext : Type 0 where
  pub py_str : Json → String
  pub sign : Fields → Text × String
  pub factor : String
  pub py_text : Text → String
  pub errors_json : List ValidationError → Json
  pub directive : Option String

-- session.generated_policy or {}
abbrev pub policy_or_empty : PolicyGenerationSession → Fields
policy_or_empty session = or_empty session.generated_policy

-- _finding_ref
unfoldable pub finding_ref : PolicyGenerationSession → Fields
unfolding get_or
finding_ref session =
    field "tenant_id" (str session.tenant_id)
      (field "finding_id" (get_or "finding_id" session.originating_finding (str "")) end)

module _ (ctx : RunnerContext) where
  -- _policy_field
  abbrev shown : Option Json → String
  shown none = ""
  shown (some null) = ""
  shown (some v) = ctx.py_str v

  unfoldable pub policy_field : Option Fields → String → String
  unfolding get
  policy_field none key = ""
  policy_field (some policy) key = shown (get key policy)

  -- runtime_info.get(key): what is no string is written as None is.
  abbrev text_of : Option Json → Option String
  text_of (some (str s)) = some s
  text_of _ = none

  abbrev pub runtime_info : PolicyGenerationSession → Fields
  runtime_info session = or_empty session.last_runtime_info

  unfoldable pub bare_write : PolicyGenerationSession → String → AuditWrite
  bare_write session kind = record {
    tenant_id = session.tenant_id;
    kind = kind;
    correlation_id = session.correlation_id;
    principal_subject = session.session_id;
    originating_finding = some (finding_ref session);
    policy_ref = none;
    deployment_ref = none;
    outcome_ref = none;
    error = none;
    slm_repo = none;
    slm_revision_sha = none;
    slm_runtime = none;
    slm_runtime_version = none;
    slm_quantization = none;
    slm_decoding_seed = none;
    prompt_template_version = none;
    inbound_schema_version = none;
    time_acceleration_factor = none;
  }

  unfoldable pub generated_write : PolicyGenerationSession → Json → Json → AuditWrite
  unfolding bare_write
  generated_write session policy_id version =
      let info = runtime_info session in
      record (bare_write session "generated") {
        policy_ref = some (
            field "tenant_id" (str session.tenant_id)
              (field "policy_id" policy_id (field "version" version end)));
        slm_repo = text_of (get "slm_repo" info);
        slm_revision_sha = text_of (get "slm_revision_sha" info);
        slm_runtime = text_of (get "slm_runtime" info);
        slm_runtime_version = text_of (get "slm_runtime_version" info);
        slm_quantization = text_of (get "slm_quantization" info);
        slm_decoding_seed = session.last_decoding_seed;
        prompt_template_version = some session.prompt_template_version;
        inbound_schema_version = text_of (get "schema_version" session.originating_finding);
        time_acceleration_factor = some ctx.factor;
      }

  -- The subscripts policy["policy_id"] and policy["version"] come before the write.
  abbrev subscripted : PolicyGenerationSession → Option Json → Option Json → List Effect
  subscripted session (some policy_id) (some version) =
      write_audit (generated_write session policy_id version) ∷ []
  subscripted session _ _ = key_error ∷ []

  unfoldable pub generated_effects : PolicyGenerationSession → Option Fields → List Effect
  unfolding get
  generated_effects session none = []
  generated_effects session (some policy) =
      subscripted session (get "policy_id" policy) (get "version" policy)

  abbrev invalid_of : Details → List Text
  invalid_of (invalid_signals names) = names
  invalid_of _ = []

  -- _flatten_invalid
  unfoldable pub flatten_invalid : List ValidationError → List Text
  flatten_invalid [] = []
  flatten_invalid (e ∷ errors) = invalid_of e.details ++ flatten_invalid errors

  abbrev items_of : List Text → Items
  items_of [] = nil
  items_of (name ∷ names) = cons (str (ctx.py_text name)) (items_of names)

  unfoldable pub rejected_write : PolicyGenerationSession → AuditWrite
  unfolding bare_write flatten_invalid
  rejected_write session = record (bare_write session "rejected") {
    error = some (
        field "code" (str "VALIDATION_FAILED") (
          field "details"
            (obj (
              field "validation_errors" (ctx.errors_json session.validation_errors) (
                field "invalid_signals" (arr (items_of (flatten_invalid session.validation_errors)))
                  end)))
            end));
    inbound_schema_version = text_of (get "schema_version" session.originating_finding);
  }

  abbrev seed_or_zero : Option ℕ → ℕ
  seed_or_zero none = 0
  seed_or_zero (some n) = n

  unfoldable pub audit_meta : PolicyGenerationSession → AuditMeta
  unfolding get_or
  audit_meta session =
      let info = runtime_info session in
      record {
        prompt_template_version = session.prompt_template_version;
        slm_repo = get_or "slm_repo" info (str "unknown");
        slm_revision_sha =
            get_or "slm_revision_sha" info (str "0000000000000000000000000000000000000000");
        slm_runtime = get_or "slm_runtime" info (str "stub");
        slm_runtime_version = get_or "slm_runtime_version" info (str "unknown");
        slm_quantization = get_or "slm_quantization" info (str "none");
        slm_decoding_seed = seed_or_zero session.last_decoding_seed;
        payload_signature = (ctx.sign (policy_or_empty session)).0;
        signature_key_id = (ctx.sign (policy_or_empty session)).1;
      }

  abbrev pub policy_ref : PolicyGenerationSession → Fields
  policy_ref session = field "tenant_id" (str session.tenant_id) (
      field "policy_id" (str (policy_field session.generated_policy "policy_id"))
        (field "version" (str (policy_field session.generated_policy "version")) end))

  unfoldable pub deployed_write : PolicyGenerationSession → DeploymentRecord → AuditWrite
  unfolding bare_write
  deployed_write session deployment = record (bare_write session "deployed") {
    policy_ref = some (policy_ref session);
    deployment_ref = some (field "deployment_id" (str deployment.deployment_id) end);
    time_acceleration_factor = some ctx.factor;
  }

  unfoldable pub deployment_effects :
      PolicyGenerationSession → Option DeploymentRecord → List Effect
  deployment_effects session none = []
  deployment_effects session (some deployment) =
      insert_deployment session.tenant_id deployment
      ∷ write_audit (deployed_write session deployment)
      ∷ simulate_telemetry session.tenant_id (policy_or_empty session) deployment.deployment_id
          ctx.directive
      ∷ []

  unfoldable pub validated_write : PolicyGenerationSession → AuditWrite
  unfolding bare_write
  validated_write session = record (bare_write session "validated") {
    policy_ref = some (policy_ref session);
  }

  unfoldable pub final_effects : FinalState → PolicyGenerationSession → List Effect
  final_effects dead_lettered session = write_audit (rejected_write session) ∷ []
  final_effects completed session =
      insert_policy session.tenant_id (policy_or_empty session) (audit_meta session)
      ∷ write_audit (validated_write session)
      ∷ deployment_effects session session.deployment_record

  -- _run, from the end of the graph on.
  unfoldable pub run_effects : GraphRun → List Effect
  unfolding generated_effects final_effects
  run_effects run =
      generated_effects run.session run.session.generated_policy
      ++ final_effects run.final_state run.session

-- The effects carried out one after another; `none` is one that raises, and ends it with the state
-- that it leaves.
pub data Ran {ℓ} (S : Type ℓ) : Type ℓ where
  finished : S → Ran S
  failed_at : Effect → S → Ran S

module _ {ℓ} {S : Type ℓ} (step : Effect → S → Option S) where
  abbrev stepped : (S → Ran S) → Effect → Option S → S → Ran S
  stepped rest e none s = failed_at e s
  stepped rest e (some after) s = rest after

  unfoldable pub perform : List Effect → S → Ran S
  perform [] s = finished s
  perform (e ∷ es) s = stepped (perform es) e (step e s) s
