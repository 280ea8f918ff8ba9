-- ===== src/Graph/Examples.antt =====
-- The graph at concrete inputs: a model whose second answer passes.
use snts_collectmind.Prelude.{
  any, ◌≡◌, ◌+◌, ◌-◌, true, false, none, some, [], ◌∷◌, String, codes, leb, if◌then◌else◌, refl,
  ◌⊎◌, inl, inr,
}
use snts_collectmind.Prelude.Json.{str, arr, nil, null, Fields, end, field, get, get_or}
use snts_collectmind.Models.{CollectionPolicySpec}
use snts_collectmind.Graph.Session.{
  PolicyGenerationSession, Stage, initial_plan, route_after_validation, route_after_deploy,
  retry_budget_exhausted,
}
use snts_collectmind.Graph.Nodes.{
  Clients, ok, default_decoding_seed, generate_node, generation_request, validate_node, judge,
  deploy_node, deploy_request,
}
use snts_collectmind.Graph.Build.{GraphRun, completed, run, rounds, follow, finish, was_accepted}
use snts_collectmind.Graph.Runner.{
  RunnerContext, run_effects, generated_effects, final_effects, deployment_effects,
}
use snts_collectmind.Graph.Runner.Trail.{registers, Accepted, registered_only_if_Accepted}
use snts_collectmind.Graph.Build.Ends.{Within, run_ends}
use snts_collectmind.Graph.Build.Valid.{Explained, run-Explained}

abbrev a_spec : CollectionPolicySpec
a_spec = record {
  policy_id = "p1";
  version = "1.0.0";
  signals = record { vss_name = codes "Vehicle.Speed"; sample_rate_hz = "1.0"; priority = 1 } ∷ [];
  trigger_conditions = [];
  collection_window_hours = 24;
  hypothesis = "pads wear early";
  vehicle_scope = "v1" ∷ [];
  data_governance_flags = record { pii_consent = false; has_pii_signal = false };
  confidence_threshold = "0.5";
  generated_from_session_id = "s1";
  originating_finding = record { tenant_id = "acme"; finding_id = "f1" };
}

abbrev parse : Fields → String ⊎ CollectionPolicySpec
parse end = inl "no fields"
parse (field k v rest) = inr a_spec

abbrev clients : Clients
clients = record {
  render_prompt = λ s. codes "generate";
  generate = λ n request. some (record {
    policy = if leb 2 n then field "policy_id" (str "p1") end else end;
    runtime_info = end;
  });
  model_validate = parse;
  check = λ spec. record { valid = true; errors = []; suggestions = [] };
  sign = λ policy. (codes "sig", "dev-key-1");
  deploy = λ request. some (record {
    deployment_id = "d1";
    status = "accepted";
    downstream_response = end;
    expires_at = none;
  });
  new_ulid = "ulid";
  now = "t1";
}

abbrev a_session : PolicyGenerationSession
a_session = record {
  session_id = "s1";
  tenant_id = "acme";
  correlation_id = "c1";
  originating_finding = end;
  execution_plan = [];
  retry_count = 0;
  retry_budget = 3;
  validation_errors = [];
  generated_policy = none;
  deployment_record = none;
  started_at = "t0";
  last_runtime_info = none;
  last_decoding_seed = none;
  prompt_template_version = "1.0.0";
}

run_ends_example : Within 0 (3 - 0 + 1) (run clients a_session)
run_ends_example = run_ends clients a_session

run-Explained_example : Explained clients (run clients a_session)
run-Explained_example = run-Explained clients a_session refl

abbrev a_runner : RunnerContext
a_runner = record {
  py_str = λ v. "p1";
  py_text = λ t. "name";
  sign = λ policy. (codes "sig", "dev-key-1");
  factor = "1.0";
  errors_json = λ errors. null;
  directive = none;
}

-- The session after its one retry, validated and deployed.
abbrev after_run : GraphRun
after_run = record {
  session = record a_session {
    execution_plan = Stage.generate ∷ Stage.validate ∷ Stage.deploy ∷ [];
    retry_count = 1;
    generated_policy = some (field "policy_id" (str "p1") end);
    deployment_record = some (record {
      deployment_id = "d1";
      tenant_id = "acme";
      policy_id = str "p1";
      version = str "1.0.0";
      vehicle_scope = arr nil;
      status = "accepted";
      deployed_at = "t1";
      expires_at = none;
      downstream_response = end;
    });
    last_runtime_info = some end;
    last_decoding_seed = some default_decoding_seed;
  };
  final_state = completed;
  validation_attempts = 2;
}

runs : run clients a_session ≡ ok (some after_run)
unfolding run rounds follow finish initial_plan route_after_validation route_after_deploy
    retry_budget_exhausted was_accepted generate_node generation_request validate_node judge
    deploy_node deploy_request get get_or
runs = refl

has_rows : any registers (run_effects a_runner after_run) ≡ true
unfolding run_effects generated_effects final_effects deployment_effects get
has_rows = refl

registered_only_if_Accepted_example : Accepted a_runner clients after_run
registered_only_if_Accepted_example =
    registered_only_if_Accepted a_runner clients a_session after_run refl runs has_rows
