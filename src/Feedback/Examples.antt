-- ===== src/Feedback/Examples.antt =====
-- The feedback worker at concrete inputs, with whole numbers for the values.
use snts_collectmind.Prelude.{ℕ, String, false, ◌≢◌, arith, eq_iff, Bool, some, [], ◌∷◌, leb}
use snts_collectmind.Prelude.Json.{end}
use snts_collectmind.Registry.Deployments.{DeploymentRow, default_tenant}
use snts_collectmind.Feedback.Worker.{WorkerState, WorkerContext, Turn, run_forever}
use snts_collectmind.Feedback.Worker.Forever.{Untouched, run_forever-Untouched}

abbrev at_least : ℕ → ℕ → Bool
at_least v t = leb t v

abbrev of_acme : DeploymentRow
of_acme = record {
  deployment_id = "d1";
  tenant_id = "acme";
  policy_id = "p1";
  version = "1.0.0";
  vehicle_scope = "v1" ∷ [];
  status = "accepted";
  expires_at = some 5;
}

abbrev of_default : DeploymentRow
of_default = record of_acme { deployment_id = "d2"; tenant_id = default_tenant }

abbrev a_context : WorkerContext ℕ
a_context = record {
  observations = λ d. 3 ∷ 9 ∷ [];
  policy = λ d. some (record { originating_finding = end; confidence_threshold = 5 });
  at_least = at_least;
  new_outcome_id = λ d. "o1";
  new_event_id = λ d. "e1";
  now = "t1";
  factor = "1.0";
}

abbrev at_start : WorkerState
at_start = record { deployments = of_acme ∷ of_default ∷ []; outcomes = []; audit = [] }

acme_is_other : ◌≢◌ {A = String} "acme" default_tenant
acme_is_other e = absurd (ground (arith, eq_iff "acme" default_tenant, e))

abbrev a_turn : Turn ℕ
a_turn = record { stopped = false; ctx = a_context; now = 9 }

run_forever-Untouched_example :
    Untouched "acme" acme_is_other at_start (run_forever (a_turn ∷ a_turn ∷ []) at_start)
run_forever-Untouched_example =
    run_forever-Untouched "acme" acme_is_other (a_turn ∷ a_turn ∷ []) at_start
