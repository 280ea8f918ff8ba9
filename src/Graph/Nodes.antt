-- ===== src/Graph/Nodes.antt =====
-- src/collectmind/graph/policy_generator.py, policy_validator.py and policy_deployer.py: the nodes,
-- over the clients that they are given. A node that raises ends the run.
use snts_collectmind.Prelude.{
  ℕ, Bool, true, false, not, Option, none, some, List, [], ◌∷◌, String, Text, is_empty,
  if◌then◌else◌, ◌==◌, ◌⊎◌, inl, inr, ◌≡◌, refl,
}
use snts_collectmind.Prelude.Json.{Json, str, arr, nil, Fields, end, get_or}
use snts_collectmind.Models.{CollectionPolicySpec}
use snts_collectmind.Validator.Policy.{
  ValidationError, ValidationResult, schema_validation_failed, no_details,
}
use snts_collectmind.Graph.Session.{PolicyGenerationSession}

pub data Exn : Type 0 where
  generator_raised deployer_raised no_policy : Exn

pub data Result {ℓ} (A : Type ℓ) : Type ℓ where
  ok : A → Result A
  err : Exn → Result A

infixl 5 ◌>>=◌
abbrev pub ◌>>=◌ {ℓ κ} : {A : Type ℓ} {B : Type κ} → Result A → (A → Result B) → Result B
ok a >>= f = f a
err e >>= f = err e

pub Result-cases {ℓ} :
    {A : Type ℓ} (r : Result A) → ((a : A) × (r ≡ ok a)) ⊎ ((e : Exn) × (r ≡ err e))
Result-cases (ok a) = inl (a, refl)
Result-cases (err e) = inr (e, refl)

abbrev pub or_raise {ℓ} : {A : Type ℓ} → Exn → Option A → Result A
or_raise e none = err e
or_raise e (some a) = ok a

pub record Decoding : Type 0 where
  pub temperature : String
  pub top_p : String
  pub top_k : String
  pub seed : ℕ

-- The schema of CollectionPolicySpec is the same for each request and is left out.
pub record GenerationRequest : Type 0 where
  pub session_id : String
  pub prompt_template_version : String
  pub prompt : Text
  pub decoding : Decoding
  pub retry_context : Option (List ValidationError)

pub record GenerationResponse : Type 0 where
  pub policy : Fields
  pub runtime_info : Fields

pub record DeployRequest : Type 0 where
  pub tenant_id : String
  pub policy_id : Json
  pub version : Json
  pub vehicle_scope : Json
  pub payload : Fields
  pub payload_signature : Text
  pub signature_key_id : String

pub record DeployResponse : Type 0 where
  pub deployment_id : String
  pub status : String
  pub downstream_response : Fields
  pub expires_at : Option String

-- What the nodes call. `generate` is told which attempt it is, since a model need not repeat
-- itself; `none` is a call that raises. `model_validate` is pydantic's, with the text of its
-- error.
pub record Clients : Type 0 where
  pub render_prompt : PolicyGenerationSession → Text
  pub generate : ℕ → GenerationRequest → Option GenerationResponse
  pub model_validate : Fields → String ⊎ CollectionPolicySpec
  pub check : CollectionPolicySpec → ValidationResult
  pub sign : Fields → Text × String
  pub deploy : DeployRequest → Option DeployResponse
  pub new_ulid : String
  pub now : String

abbrev pub default_decoding_seed : ℕ
default_decoding_seed = 0xC0FFEE

module _ (clients : Clients) where
  unfoldable pub generation_request : PolicyGenerationSession → GenerationRequest
  generation_request session = record {
    session_id = session.session_id;
    prompt_template_version = session.prompt_template_version;
    prompt = clients.render_prompt session;
    decoding = record {
      temperature = "0.0";
      top_p = "1.0";
      top_k = "-1";
      seed = default_decoding_seed;
    };
    retry_context =
        if is_empty session.validation_errors then none else some session.validation_errors;
  }

  unfoldable pub generate_node : ℕ → PolicyGenerationSession → Result PolicyGenerationSession
  unfolding generation_request
  generate_node attempt session = do
    response ← or_raise generator_raised (clients.generate attempt (generation_request session))
    ok (record session {
      generated_policy = some response.policy;
      last_runtime_info = some response.runtime_info;
      last_decoding_seed = some default_decoding_seed;
    })

  -- Whether the policy is valid, with the errors left on the session.
  unfoldable pub judge : Fields → PolicyGenerationSession → Bool × PolicyGenerationSession
  judge policy session = elim (clients.model_validate policy) [
    | inl message ↦ (
      false,
      record session {
        validation_errors =
            record {
              code = schema_validation_failed;
              field = "generated_policy";
              message = message;
              details = no_details;
            }
            ∷ [];
      },
    )
    | inr spec ↦
        let result = clients.check spec in
        if not result.valid
        then (false, record session { validation_errors = result.errors })
        else (true, record session { validation_errors = [] })
  ]

  unfoldable pub validate_node : PolicyGenerationSession → Result (Bool × PolicyGenerationSession)
  unfolding judge
  validate_node session = do
    policy ← or_raise no_policy session.generated_policy
    ok (judge policy session)

  unfoldable pub deploy_request : PolicyGenerationSession → Fields → DeployRequest
  unfolding get_or
  deploy_request session policy = record {
    tenant_id = session.tenant_id;
    policy_id = get_or "policy_id" policy (str "");
    version = get_or "version" policy (str "1.0.0");
    vehicle_scope = get_or "vehicle_scope" policy (arr nil);
    payload = policy;
    payload_signature = (clients.sign policy).0;
    signature_key_id = (clients.sign policy).1;
  }

  abbrev pub policy_of : PolicyGenerationSession → Fields
  policy_of session = elim session.generated_policy [ none ↦ end | some policy ↦ policy ]

  unfoldable pub deploy_node : PolicyGenerationSession → Result PolicyGenerationSession
  unfolding deploy_request
  deploy_node session = do
    let request = deploy_request session (policy_of session)
    response ← or_raise deployer_raised (clients.deploy request)
    ok (record session {
      deployment_record = some (record {
        deployment_id =
            if response.deployment_id == "" then clients.new_ulid else response.deployment_id;
        tenant_id = session.tenant_id;
        policy_id = request.policy_id;
        version = request.version;
        vehicle_scope = request.vehicle_scope;
        status = response.status;
        deployed_at = clients.now;
        expires_at = response.expires_at;
        downstream_response = response.downstream_response;
      });
    })
