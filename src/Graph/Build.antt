-- ===== src/Graph/Build.antt =====
-- src/collectmind/graph/build.py: CollectMindGraph.run.
pub mod Ends
pub mod Valid
use snts_collectmind.Prelude.{
  ℕ, zero, suc, ◌+◌, ◌-◌, Bool, true, false, Option, none, some, String, ◌==◌, if◌then◌else◌,
}
use snts_collectmind.Graph.Session.{
  PolicyGenerationSession, DeploymentRecord, RouteDecision, to_deploy, retry, dead_letter, done,
  initial_plan, route_after_validation, route_after_deploy,
}
use snts_collectmind.Graph.Nodes.{
  Clients, Result, ok, err, ◌>>=◌, generate_node, validate_node, deploy_node,
}

pub data FinalState : Type 0 where
  completed dead_lettered : FinalState

pub record GraphRun : Type 0 where
  pub session : PolicyGenerationSession
  pub final_state : FinalState
  pub validation_attempts : ℕ

-- record.get("status") == "accepted"
unfoldable pub was_accepted : PolicyGenerationSession → Bool
was_accepted session = elim session.deployment_record [
  | none ↦ false
  | some r ↦ r.status == "accepted"
]

module _ (clients : Clients) where
  -- From the `break` of the loop on.
  unfoldable pub finish : ℕ → PolicyGenerationSession → Result (Option GraphRun)
  unfolding was_accepted route_after_deploy
  finish attempts session = do
    deployed ← deploy_node clients session
    ok (
        some (record {
          session = deployed;
          final_state = elim (route_after_deploy (was_accepted deployed)) [
            | done ↦ completed
            | _ ↦ dead_lettered
          ];
          validation_attempts = attempts;
        }))

  -- The branches on the decision; `again` is the next round of the loop.
  unfoldable pub follow :
      (ℕ → PolicyGenerationSession → Result (Option GraphRun))
      → ℕ
      → RouteDecision
      → PolicyGenerationSession
      → Result (Option GraphRun)
  unfolding finish
  follow again attempts to_deploy session = finish attempts session
  follow again attempts dead_letter session = ok (
      some
        (record { session = session; final_state = dead_lettered; validation_attempts = attempts }))
  follow again attempts decision session = again attempts session

  -- The loop; `none` is out of fuel, which `Ends` excludes.
  unfoldable pub rounds : ℕ → ℕ → PolicyGenerationSession → Result (Option GraphRun)
  unfolding follow route_after_validation
  rounds zero attempts session = ok none
  rounds (suc fuel) attempts session = do
    generated ← generate_node clients (attempts + 1) session
    verdict ← validate_node clients generated
    let next = route_after_validation verdict.1 verdict.0
    follow (rounds fuel) (attempts + 1) next.0 next.1

  -- One round for each retry that is left, and one more.
  abbrev pub fuel_for : PolicyGenerationSession → ℕ
  fuel_for session = session.retry_budget - session.retry_count + 1

  unfoldable pub run : PolicyGenerationSession → Result (Option GraphRun)
  unfolding rounds initial_plan
  run session = rounds (fuel_for session) 0 (initial_plan session)
