-- ===== src/Feedback/Worker.antt =====
-- src/collectmind/feedback/worker.py: FeedbackWorker, over the repositories that it is given:
-- src/collectmind/registry/repository.py, list_due, mark_expired and OutcomeRepository.insert.
pub mod Due
pub mod Forever
use snts_collectmind.Prelude.{
  ℕ, zero, suc, ◌+◌, Bool, true, false, ◌&&◌, Option, none, some, List, [], ◌∷◌, ◌++◌, String,
  keep_if, leb, length, if◌then◌else◌, ◌==◌, ◌⊎◌, inl, inr,
}
use snts_collectmind.Prelude.Json.{str, Fields, end, field}
use snts_collectmind.Registry.Audit.{AuditWrite, AuditEvent, AuditError, write}
use snts_collectmind.Registry.Deployments.{DeploymentRow, mark_expired, list_due}
use snts_collectmind.Feedback.Evaluator.{HypothesisState, HypothesisOutcome, evaluate}

-- A row of policy_outcomes.
pub record OutcomeRow : Type 0 where
  pub outcome_id : String
  pub tenant_id : String
  pub originating_finding : Fields
  pub policy_id : String
  pub version : String
  pub outcome : HypothesisOutcome

-- What the worker reads of a policy.
pub record PolicyRow (V : Type 0) : Type 0 where
  pub originating_finding : Fields
  pub confidence_threshold : V

pub record WorkerState : Type 0 where
  pub deployments : List DeploymentRow
  pub outcomes : List OutcomeRow
  pub audit : List AuditEvent

-- What the worker is given: the values that it collects for a deployment, the policy of one, the
-- test >= on floats, the fresh ids of a deployment's outcome and event, the time and the factor.
pub record WorkerContext (V : Type 0) : Type 0 where
  pub observations : DeploymentRow → List V
  pub policy : DeploymentRow → Option (PolicyRow V)
  pub at_least : V → V → Bool
  pub new_outcome_id : DeploymentRow → String
  pub new_event_id : DeploymentRow → String
  pub now : String
  pub factor : String

-- What a turn of the loop meets: whether `stop` has been called, and what the tick is given.
pub record Turn (V : Type 0) : Type 0 where
  pub stopped : Bool
  pub ctx : WorkerContext V
  pub now : ℕ

abbrev pub audited :
    AuditError ⊎ (String × List AuditEvent) → WorkerState → Option AuditError × WorkerState
audited (inl e) s = (some e, s)
audited (inr (id, audit)) s = (none, record s { audit = audit })

module _ {V : Type 0} where
  unfoldable pub outcome_row : WorkerContext V → DeploymentRow → PolicyRow V → OutcomeRow
  unfolding evaluate
  outcome_row ctx d policy = record {
    outcome_id = ctx.new_outcome_id d;
    tenant_id = d.tenant_id;
    originating_finding = policy.originating_finding;
    policy_id = d.policy_id;
    version = d.version;
    outcome = evaluate ctx.at_least (ctx.observations d) policy.confidence_threshold;
  }

  unfoldable pub outcome_write : WorkerContext V → DeploymentRow → PolicyRow V → AuditWrite
  outcome_write ctx d policy = record {
    tenant_id = d.tenant_id;
    kind = "outcome";
    correlation_id = d.deployment_id;
    principal_subject = "feedback-worker";
    originating_finding = some policy.originating_finding;
    policy_ref = some (
        field "tenant_id" (str d.tenant_id)
          (field "policy_id" (str d.policy_id) (field "version" (str d.version) end)));
    deployment_ref = none;
    outcome_ref = some (field "outcome_id" (str (ctx.new_outcome_id d)) end);
    error = none;
    slm_repo = none;
    slm_revision_sha = none;
    slm_runtime = none;
    slm_runtime_version = none;
    slm_quantization = none;
    slm_decoding_seed = none;
    prompt_template_version = none;
    inbound_schema_version = none;
    time_acceleration_factor = some ctx.factor;
  }

  -- The error is that of the audit writer, the last call of `_process`.
  unfoldable pub process_with :
      Option (PolicyRow V)
      → WorkerContext V
      → DeploymentRow
      → WorkerState
      → Option AuditError × WorkerState
  process_with none ctx d s =
      (none, record s { deployments = mark_expired d.deployment_id s.deployments })
  process_with (some policy) ctx d s =
      audited (write (ctx.new_event_id d) ctx.now (outcome_write ctx d policy) s.audit) (record s {
        outcomes = s.outcomes ++ (outcome_row ctx d policy ∷ []);
        deployments = mark_expired d.deployment_id s.deployments;
      })

  -- The loop of `tick`: an error ends it.
  unfoldable pub process_all :
      WorkerContext V → List DeploymentRow → WorkerState → Option AuditError × WorkerState
  process_all ctx [] s = (none, s)
  process_all ctx (d ∷ due) s =
      let r = process_with (ctx.policy d) ctx d s in
      let rest = process_all ctx due r.1 in elim r.0 [ none ↦ rest | some e ↦ (some e, r.1) ]

  unfoldable pub tick : WorkerContext V → ℕ → WorkerState → Option AuditError × WorkerState
  unfolding process_all list_due
  tick ctx now s = process_all ctx (list_due now s.deployments) s

  -- run_forever, for as many turns as there are; an error of a tick is logged.
  unfoldable pub run_forever : List (Turn V) → WorkerState → WorkerState
  unfolding tick
  run_forever [] s = s
  run_forever (t ∷ turns) s =
      let rest = run_forever turns (tick t.ctx t.now s).1 in if t.stopped then s else rest
