-- ===== src/Pipeline.antt =====
-- src/collectmind/graph/runner.py: GraphRunner.run_async, over the stores of the registry. A
-- session goes through the graph, and what comes of it into the policies, the deployments and
-- the audit table.
pub mod Identity
pub mod Tables
pub mod Written
pub mod Accounted
mod Examples
use snts_collectmind.Prelude.{
  ℕ, ◌+◌, Bool, Option, none, some, List, String, if◌then◌else◌, ◌⊎◌, inl, inr,
}
use snts_collectmind.Prelude.Json.{str, Fields, end, field}
use snts_collectmind.Graph.Session.{PolicyGenerationSession}
use snts_collectmind.Graph.Nodes.{Clients, Exn, Result, ok, err}
use snts_collectmind.Graph.Build.{GraphRun, run}
use snts_collectmind.Graph.Runner.{
  RunnerContext, Effect, write_audit, insert_policy, insert_deployment, simulate_telemetry,
  key_error, Ran, finished, failed_at, run_effects, perform, bare_write,
}
use snts_collectmind.Registry.Audit.{AuditWrite, AuditEvent, AuditError, write}
use snts_collectmind.Registry.Policies
use snts_collectmind.Registry.Policies.{CollectionPolicyRow, Casts}
use snts_collectmind.Registry.Deployments
use snts_collectmind.Registry.Deployments.{DeploymentRow}

-- The tables, and how many effects there have been, which tells fresh ids and times apart.
pub record Stores : Type 0 where
  pub policies : List CollectionPolicyRow
  pub deployments : List DeploymentRow
  pub audit : List AuditEvent
  pub ticks : ℕ

-- What run_async is given besides the context of `_run`: the casts of the drivers, fresh ids and
-- times, whether simulating the telemetry of a deployment returns, and str() of an exception.
pub record World : Type 0 where
  pub casts : Casts
  pub ulid : ℕ → String
  pub now : ℕ → String
  pub simulate : String → Fields → String → Option String → Bool
  pub py_str_of : Exn ⊎ Effect → String

-- How run_async ends: it returns, or the write of its except clause raises out of it. A graph that
-- is out of fuel is set apart.
pub data RunEnd : Type 0 where
  returned : Stores → RunEnd
  escaped : Stores → RunEnd
  out_of_fuel : RunEnd

module _ (world : World) where
  abbrev pub audited : AuditError ⊎ (String × List AuditEvent) → Stores → Option Stores
  audited (inl e) s = none
  audited (inr (id, after)) s = some (record s { audit = after; ticks = s.ticks + 1 })

  -- self._audit_writer.write
  unfoldable pub write_row : AuditWrite → Stores → Option Stores
  write_row w s = audited (write (world.ulid s.ticks) (world.now s.ticks) w s.audit) s

  abbrev pub with_policies : Stores → Option (List CollectionPolicyRow) → Option Stores
  with_policies s none = none
  with_policies s (some policies) = some (record s { policies = policies; ticks = s.ticks + 1 })

  abbrev pub with_deployments : Stores → Option (List DeploymentRow) → Option Stores
  with_deployments s none = none
  with_deployments s (some deployments) =
      some (record s { deployments = deployments; ticks = s.ticks + 1 })

  -- One effect of `_run` on the stores; none is an exception.
  unfoldable pub carry_out : Effect → Stores → Option Stores
  unfolding write_row
  carry_out (write_audit w) s = write_row w s
  carry_out (insert_policy tenant_id policy meta) s =
      with_policies s (Policies.insert world.casts tenant_id s.ticks policy meta s.policies)
  carry_out (insert_deployment tenant_id d) s =
      with_deployments s (Deployments.insert world.casts tenant_id d s.policies s.deployments)
  carry_out (simulate_telemetry tenant_id policy deployment_id directive) s =
      if world.simulate tenant_id policy deployment_id directive
      then some (record s { ticks = s.ticks + 1 })
      else none
  carry_out key_error s = none

  -- The audit row of the except clause.
  unfoldable pub error_write : RunnerContext → PolicyGenerationSession → String → AuditWrite
  unfolding bare_write
  error_write ctx session message = record (bare_write ctx session "rejected") {
    error = some (field "code" (str "GRAPH_RUNNER_ERROR") (field "message" (str message) end));
  }

  abbrev pub reported : Stores → Option Stores → RunEnd
  reported s none = escaped s
  reported s (some after) = returned after

  -- except Exception as exc
  unfoldable pub report : RunnerContext → PolicyGenerationSession → Exn ⊎ Effect → Stores → RunEnd
  unfolding error_write
  report ctx session exc s =
      reported s (write_row (error_write ctx session (world.py_str_of exc)) s)

  abbrev pub after_effects : RunnerContext → PolicyGenerationSession → Ran Stores → RunEnd
  after_effects ctx session (finished s) = returned s
  after_effects ctx session (failed_at e s) = report ctx session (inr e) s

  abbrev pub after_graph :
      RunnerContext → PolicyGenerationSession → Stores → Result (Option GraphRun) → RunEnd
  after_graph ctx session s (err e) = report ctx session (inl e) s
  after_graph ctx session s (ok none) = out_of_fuel
  after_graph ctx session s (ok (some r)) =
      after_effects ctx session (perform carry_out (run_effects ctx r) s)

  unfoldable pub run_async : RunnerContext → Clients → PolicyGenerationSession → Stores → RunEnd
  unfolding report carry_out
  run_async ctx clients session s = after_graph ctx session s (run clients session)
