-- ===== src/Feedback/Worker/Forever.antt =====
-- What the loop of FeedbackWorker does to the rows of the tenants that it does not see.
use snts_collectmind.Prelude.{
  false, ◌&&◌, Option, none, some, List, [], ◌∷◌, ◌++◌, String, keep_if, All, ◌==◌, ◌⊎◌, inl, inr,
  ◌≡◌, ◌≢◌, refl, ◌∙◌, arith, Bool-cases, Option-cases, eq_iff,
}
use snts_collectmind.Registry.Audit.{AuditEvent, AuditError, write}
use snts_collectmind.Registry.Deployments.{DeploymentRow, default_tenant, mark_expired, list_due}
use snts_collectmind.Feedback.Worker.{
  OutcomeRow, PolicyRow, WorkerState, WorkerContext, audited, outcome_row, outcome_write,
  process_with, process_all, tick, Turn, run_forever,
}
use snts_collectmind.Feedback.Worker.Due.{list_due_lem}

module _ (tenant_id : String) (other : tenant_id ≢ default_tenant) where
  abbrev pub deployments_of : WorkerState → List DeploymentRow
  deployments_of s = keep_if (λ d. d.tenant_id == tenant_id) s.deployments

  abbrev pub outcomes_of : WorkerState → List OutcomeRow
  outcomes_of s = keep_if (λ o. o.tenant_id == tenant_id) s.outcomes

  pub record Untouched (s t : WorkerState) : Type 0 where
    pub deployments : deployments_of t ≡ deployments_of s
    pub outcomes : outcomes_of t ≡ outcomes_of s

  abbrev through : (s t u : WorkerState) → Untouched s t → Untouched t u → Untouched s u
  through s t u h k = record {
    deployments = k.deployments ∙ h.deployments;
    outcomes = k.outcomes ∙ h.outcomes;
  }

  mark_expired-others :
      (id : String) (l : List DeploymentRow)
      → keep_if (λ d. d.tenant_id == tenant_id) (mark_expired id l)
        ≡ keep_if (λ d. d.tenant_id == tenant_id) l
  unfolding mark_expired
  mark_expired-others id [] = refl
  mark_expired-others id (d ∷ l) =
      elim (Bool-cases ((d.tenant_id == default_tenant) && (d.deployment_id == id))) [
        | inl e ↦ ground (
          arith,
          eq_iff d.tenant_id default_tenant,
          eq_iff d.tenant_id tenant_id,
          other,
          mark_expired-others id l,
        )
        | inr e ↦ ground (arith, mark_expired-others id l)
      ]

  appended-others :
      (outcomes : List OutcomeRow) (o : OutcomeRow)
      → (o.tenant_id == tenant_id) ≡ false
      → keep_if (λ p. p.tenant_id == tenant_id) (outcomes ++ (o ∷ []))
        ≡ keep_if (λ p. p.tenant_id == tenant_id) outcomes
  appended-others [] o h = ground arith
  appended-others (p ∷ outcomes) o h = ground (arith, appended-others outcomes o h)

  audited-Untouched :
      (s : WorkerState) (id : String) (o : OutcomeRow)
      (result : AuditError ⊎ (String × List AuditEvent))
      → (o.tenant_id == tenant_id) ≡ false
      → Untouched s
          (audited result (record s {
            outcomes = s.outcomes ++ (o ∷ []);
            deployments = mark_expired id s.deployments;
          })).1
  audited-Untouched s id o (inl e) h = record {
    deployments = mark_expired-others id s.deployments;
    outcomes = appended-others s.outcomes o h;
  }
  audited-Untouched s id o (inr (got, audit)) h = record {
    deployments = mark_expired-others id s.deployments;
    outcomes = appended-others s.outcomes o h;
  }

  module _ {V : Type 0} where
    -- A deployment of the default tenant is processed.
    process_with-Untouched :
        (policy : Option (PolicyRow V)) (ctx : WorkerContext V) (d : DeploymentRow)
        (s : WorkerState)
        → d.tenant_id ≡ default_tenant
        → Untouched s (process_with policy ctx d s).1
    unfolding process_with outcome_row
    process_with-Untouched none ctx d s h = record {
      deployments = mark_expired-others d.deployment_id s.deployments;
      outcomes = refl;
    }
    process_with-Untouched (some policy) ctx d s h =
        audited-Untouched s d.deployment_id (outcome_row ctx d policy)
          (write (ctx.new_event_id d) ctx.now (outcome_write ctx d policy) s.audit)
          (ground (arith, h, other, eq_iff d.tenant_id tenant_id))

    process_all-Untouched :
        (ctx : WorkerContext V) (due : List DeploymentRow) (s : WorkerState)
        → All (λ d. (d.tenant_id ≡ default_tenant) × (d.status ≡ "accepted")) due
        → Untouched s (process_all ctx due s).1
    unfolding process_all
    process_all-Untouched ctx [] s h = record { deployments = refl; outcomes = refl }
    process_all-Untouched ctx (d ∷ due) s h =
        let a = process_with-Untouched (ctx.policy d) ctx d s h.0.0 in
        elim (Option-cases (process_with (ctx.policy d) ctx d s).0) [
          | inl e ↦
              rw (e, process_all)
                (through s (process_with (ctx.policy d) ctx d s).1 _ a
                  (process_all-Untouched ctx due (process_with (ctx.policy d) ctx d s).1 h.1))
          | inr (x, e) ↦ rw (e, process_all) a
        ]

    -- Whatever deployments of a tenant other than the default one there are, expired or not, the
    -- worker never changes one and never records an outcome of one, however long it runs.
    pub run_forever-Untouched :
        (turns : List (Turn V)) (s : WorkerState) → Untouched s (run_forever turns s)
    unfolding run_forever tick
    run_forever-Untouched [] s = record { deployments = refl; outcomes = refl }
    run_forever-Untouched (t ∷ turns) s = elim (Bool-cases t.stopped) [
      | inl e ↦ rw e (record { deployments = refl; outcomes = refl })
      | inr e ↦ rw e (
          through s (tick t.ctx t.now s).1 _
            (process_all-Untouched t.ctx (list_due t.now s.deployments) s
              (list_due_lem t.now s.deployments))
            (run_forever-Untouched turns (tick t.ctx t.now s).1))
    ]
