-- ===== src/Pipeline/Examples.antt =====
-- The pipeline at concrete inputs: a session whose model does not answer.
use snts_collectmind.Prelude.{none, some, true, [], codes, inl}
use snts_collectmind.Prelude.Json.{str, null, end, field}
use snts_collectmind.Graph.Session.{PolicyGenerationSession}
use snts_collectmind.Graph.Nodes.{Clients}
use snts_collectmind.Graph.Runner.{RunnerContext}
use snts_collectmind.Pipeline.{World, Stores}
use snts_collectmind.Pipeline.Accounted.{Accounted}

abbrev a_world : World
a_world = record {
  casts = record { to_int = λ v. some 24; to_float = λ v. some "0.5"; from_iso = λ s. some 1 };
  ulid = λ n. "u";
  now = λ n. "t";
  simulate = λ tenant_id policy deployment_id directive. true;
  py_str_of = λ e. "the model does not answer";
}

abbrev a_context : RunnerContext
a_context = record {
  py_str = λ v. "p1";
  sign = λ policy. (codes "sig", "dev-key-1");
  factor = "1.0";
  py_text = λ t. "name";
  errors_json = λ errors. null;
  directive = none;
}

abbrev silent_clients : Clients
silent_clients = record {
  render_prompt = λ s. codes "prompt";
  generate = λ n request. none;
  model_validate = λ policy. inl "no schema";
  check = λ spec. record { valid = true; errors = []; suggestions = [] };
  sign = λ policy. (codes "sig", "dev-key-1");
  deploy = λ request. none;
  new_ulid = "u";
  now = "t";
}

abbrev a_session : PolicyGenerationSession
a_session = record {
  session_id = "s1";
  tenant_id = "acme";
  correlation_id = "c1";
  originating_finding = field "finding_id" (str "f1") end;
  execution_plan = [];
  retry_count = 0;
  retry_budget = 3;
  validation_errors = [];
  generated_policy = none;
  deployment_record = none;
  started_at = "t0";
  last_runtime_info = none;
  last_decoding_seed = none;
  prompt_template_version = "1.0.0";
}

abbrev empty_stores : Stores
empty_stores = record { policies = []; deployments = []; audit = []; ticks = 0 }
