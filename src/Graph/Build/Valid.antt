-- ===== src/Graph/Build/Valid.antt =====
-- What a run that comes back has done: nothing is deployed that was not validated.
use snts_collectmind.Prelude.{
  ℕ, zero, suc, ◌+◌, ◌≤◌, Bool, true, false, Option, none, some, ◌≡◌, refl, arith, leb, ◌⊎◌,
  if◌then◌else◌, ◌==◌, ◌∙◌, leb→le, sym, ap, Bool-cases, Sum-cases, Option-cases, inl, inr,
}
use snts_collectmind.Prelude.Json.{Fields, get_or, str, arr, nil}
use snts_collectmind.Models.{CollectionPolicySpec}
use snts_collectmind.Graph.Session.{
  PolicyGenerationSession, DeploymentRecord, retry_budget_exhausted, initial_plan,
  route_after_validation, route_after_deploy, done,
}
use snts_collectmind.Graph.Nodes.{
  Clients, DeployResponse, Result, ok, err, generate_node, validate_node, deploy_node, judge,
  Result-cases, policy_of, deploy_request,
}
use snts_collectmind.Graph.Build.{
  GraphRun, FinalState, completed, dead_lettered, was_accepted, finish, follow, rounds, run,
  fuel_for,
}

module _ (clients : Clients) where
  -- The session's policy passes the schema and the validator.
  pub record IsValidated (s : PolicyGenerationSession) : Type 0 where
    pub policy : Fields
    pub spec : CollectionPolicySpec
    pub generated : s.generated_policy ≡ some policy
    pub accepted : clients.model_validate policy ≡ inr spec
    pub checked : (clients.check spec).valid ≡ true

  judge-IsValidated :
      (p : Fields) (s : PolicyGenerationSession)
      → s.generated_policy ≡ some p
      → (judge clients p s).0 ≡ true
      → IsValidated (judge clients p s).1
  unfolding judge
  judge-IsValidated p s e h = elim (Sum-cases (clients.model_validate p)) [
    | inl (message, f) ↦ absurd (ground arith)
    | inr (spec, f) ↦ record {
      policy = p;
      spec = spec;
      generated = ground arith;
      accepted = f;
      checked = ground arith;
    }
  ]

  -- The nodes before the deployer leave the deployment record alone.
  deployment_record-generate :
      (n : ℕ) (s t : PolicyGenerationSession)
      → generate_node clients n s ≡ ok t
      → t.deployment_record ≡ s.deployment_record
  unfolding generate_node
  deployment_record-generate n s t h = ground arith

  deployment_record-judge :
      (p : Fields) (s : PolicyGenerationSession)
      → (judge clients p s).1.deployment_record ≡ s.deployment_record
  unfolding judge
  deployment_record-judge p s = ground arith

  record Judged (s : PolicyGenerationSession) (v : Bool × PolicyGenerationSession) : Type 0 where
    untouched : v.1.deployment_record ≡ s.deployment_record
    sound : v.0 ≡ true → IsValidated v.1

  validate_node-Judged :
      (s : PolicyGenerationSession) (v : Bool × PolicyGenerationSession)
      → validate_node clients s ≡ ok v
      → Judged s v
  unfolding validate_node
  validate_node-Judged s v h = elim (Option-cases s.generated_policy) [
    | inl e ↦ absurd (ground arith)
    | inr (p, e) ↦
        let q : v ≡ judge clients p s = ground arith in
        rw q (record { untouched = deployment_record-judge p s; sound = judge-IsValidated p s e })
  ]

  -- Deployed: the session's policy is validated, the downstream was asked to deploy that policy
  -- for the session's tenant, the record keeps its identity, its scope and the answer, and the run
  -- is completed exactly if the downstream accepted.
  pub record IsDeployed (r : GraphRun) : Type 0 where
    pub validated : IsValidated r.session
    pub answer : DeployResponse
    pub asked : clients.deploy (deploy_request clients r.session validated.policy) ≡ some answer
    pub deployment : DeploymentRecord
    pub written : r.session.deployment_record ≡ some deployment
    pub same_tenant : deployment.tenant_id ≡ r.session.tenant_id
    pub same_policy : deployment.policy_id ≡ get_or "policy_id" validated.policy (str "")
    pub same_scope : deployment.vehicle_scope ≡ get_or "vehicle_scope" validated.policy (arr nil)
    pub same_status : deployment.status ≡ answer.status
    pub ended : r.final_state ≡ (if answer.status == "accepted" then completed else dead_lettered)

  -- Given up: nothing is deployed, and the retries are used up.
  pub record IsGivenUp (r : GraphRun) : Type 0 where
    pub nothing : r.session.deployment_record ≡ none
    pub exhausted : r.session.retry_budget ≤ r.session.retry_count
    pub ended : r.final_state ≡ dead_lettered

  abbrev pub Explained : Result (Option GraphRun) → Type 0
  Explained (ok none) = Unit
  Explained (ok (some r)) = IsDeployed r ⊎ IsGivenUp r
  Explained (err e) = Unit

  policy_of-generated :
      (s : PolicyGenerationSession) (p : Fields)
      → s.generated_policy ≡ some p
      → policy_of clients s ≡ p
  policy_of-generated s p h = ground arith

  ended_by :
      (accepted : Bool)
      → ◌≡◌ {A = FinalState}
          (elim (route_after_deploy accepted) [ done ↦ completed | _ ↦ dead_lettered ])
          (if accepted then completed else dead_lettered)
  unfolding route_after_deploy
  ended_by true = refl
  ended_by false = refl

  finish-Explained :
      (n : ℕ) (s : PolicyGenerationSession) → IsValidated s → Explained (finish clients n s)
  unfolding finish deploy_node deploy_request was_accepted route_after_deploy get_or
  finish-Explained n s v =
      let same = policy_of-generated s v.policy v.generated in
      elim (Option-cases (clients.deploy (deploy_request clients s (policy_of clients s)))) [
        | inl e ↦ rw e tt
        | inr (d, e) ↦ rw e (
            inl (record {
              validated = record {
                policy = v.policy;
                spec = v.spec;
                generated = v.generated;
                accepted = v.accepted;
                checked = v.checked;
              };
              answer = d;
              asked = sym (ap (λ p. clients.deploy (deploy_request clients s p)) same) ∙ e;
              deployment = _;
              written = refl;
              same_tenant = refl;
              same_policy = ap (λ p. get_or "policy_id" p (str "")) same;
              same_scope = ap (λ p. get_or "vehicle_scope" p (arr nil)) same;
              same_status = refl;
              ended = ended_by (d.status == "accepted");
            }))
      ]

  follow-Explained :
      (again : ℕ → PolicyGenerationSession → Result (Option GraphRun)) (n : ℕ)
      (s : PolicyGenerationSession) (valid : Bool)
      → s.deployment_record ≡ none
      → (valid ≡ true → IsValidated s)
      → ((t : PolicyGenerationSession) → t.deployment_record ≡ none → Explained (again n t))
      → Explained (
          follow clients again n
            (route_after_validation s valid).0
            (route_after_validation s valid).1)
  unfolding follow route_after_validation retry_budget_exhausted
  follow-Explained again n s true h sound next = finish-Explained n s (sound refl)
  follow-Explained again n s false h sound next =
      elim (Bool-cases (leb s.retry_budget s.retry_count)) [
        | inl e ↦ rw e (
            inr (record {
              nothing = h;
              exhausted = leb→le s.retry_budget s.retry_count e;
              ended = refl;
            }))
        | inr e ↦ rw e (next (record s { retry_count = s.retry_count + 1 }) h)
      ]

  rounds-Explained :
      (fuel n : ℕ) (s : PolicyGenerationSession)
      → s.deployment_record ≡ none
      → Explained (rounds clients fuel n s)
  unfolding rounds
  rounds-Explained zero n s h = tt
  rounds-Explained (suc fuel) n s h = elim (Result-cases (generate_node clients (n + 1) s)) [
    | inr (x, e) ↦ rw (e, rounds) tt
    | inl (g, e) ↦ elim (Result-cases (validate_node clients g)) [
      | inr (x, f) ↦ rw (e, rounds) (rw (f, rounds) tt)
      | inl (v, f) ↦
          let j = validate_node-Judged g v f in
          rw (e, rounds)
            (rw (f, rounds)
              (follow-Explained (rounds clients fuel) (n + 1) v.1 v.0
                (j.untouched ∙ deployment_record-generate (n + 1) s g e ∙ h) j.sound
                (rounds-Explained fuel (n + 1))))
    ]
  ]

  -- A run that comes back has either deployed a policy that passed the schema and the validator, to
  -- the session's tenant, and is completed exactly if the downstream accepted it; or it has used up
  -- the retries, is dead-lettered and has deployed nothing. The session comes without a deployment.
  pub run-Explained :
      (s : PolicyGenerationSession) → s.deployment_record ≡ none → Explained (run clients s)
  unfolding run initial_plan
  run-Explained s h = rounds-Explained (fuel_for clients s) 0 (initial_plan s) h
