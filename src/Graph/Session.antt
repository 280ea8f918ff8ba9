-- ===== src/Graph/Session.antt =====
-- src/collectmind/graph/session.py and orchestrator.py: the state object and the routing.
use snts_collectmind.Prelude.{ℕ, ◌+◌, Bool, Option, List, [], ◌∷◌, String, leb, if◌then◌else◌}
use snts_collectmind.Prelude.Json.{Json, Fields}
use snts_collectmind.Validator.Policy.{ValidationError}

pub data Stage : Type 0 where
  generate validate deploy : Stage

-- The record that the deployer node writes; what it copies from the policy is JSON.
pub record DeploymentRecord : Type 0 where
  pub deployment_id : String
  pub tenant_id : String
  pub policy_id : Json
  pub version : Json
  pub vehicle_scope : Json
  pub status : String
  pub deployed_at : String
  pub expires_at : Option String
  pub downstream_response : Fields

pub record PolicyGenerationSession : Type 0 where
  pub session_id : String
  pub tenant_id : String
  pub correlation_id : String
  pub originating_finding : Fields
  pub execution_plan : List Stage
  pub retry_count : ℕ
  pub retry_budget : ℕ
  pub validation_errors : List ValidationError
  pub generated_policy : Option Fields
  pub deployment_record : Option DeploymentRecord
  pub started_at : String
  pub last_runtime_info : Option Fields
  pub last_decoding_seed : Option ℕ
  pub prompt_template_version : String

unfoldable pub retry_budget_exhausted : PolicyGenerationSession → Bool
retry_budget_exhausted session = leb session.retry_budget session.retry_count

pub data RouteDecision : Type 0 where
  to_generate to_validate to_deploy retry dead_letter done : RouteDecision

unfoldable pub initial_plan : PolicyGenerationSession → PolicyGenerationSession
initial_plan session = record session {
  execution_plan = Stage.generate ∷ Stage.validate ∷ Stage.deploy ∷ [];
}

unfoldable pub route_after_validation :
    PolicyGenerationSession → Bool → RouteDecision × PolicyGenerationSession
unfolding retry_budget_exhausted
route_after_validation session valid =
    if valid
    then (to_deploy, session)
    else if retry_budget_exhausted session
    then (dead_letter, session)
    else (retry, record session { retry_count = session.retry_count + 1 })

unfoldable pub route_after_deploy : Bool → RouteDecision
route_after_deploy deploy_ok = if deploy_ok then done else dead_letter
