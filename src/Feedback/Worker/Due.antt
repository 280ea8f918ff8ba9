-- ===== src/Feedback/Worker/Due.antt =====
-- Which deployments are evaluated.
use snts_collectmind.Prelude.{
  ℕ, zero, suc, Bool, true, false, ◌&&◌, Option, none, some, List, [], ◌∷◌, String, keep_if, All,
  All-mono, ◌==◌, ◌≡◌, arith, Bool-cases, inl, inr, ◌⊎◌, eq_iff,
}
use snts_collectmind.Registry.Audit.{AuditEvent, AuditError}
use snts_collectmind.Registry.Deployments.{
  DeploymentRow, default_tenant, is_due, by_expiry, sort_by_expiry, take, list_due, expire,
  mark_expired,
}
use snts_collectmind.Feedback.Worker.{WorkerState, WorkerContext, process_with, PolicyRow, audited}

keep_if-All :
    (p : DeploymentRow → Bool) (l : List DeploymentRow) → All (λ d. p d ≡ true) (keep_if p l)
keep_if-All p [] = tt
keep_if-All p (d ∷ l) = elim (Bool-cases (p d)) [
  | inl e ↦ rw (e, All) (e, keep_if-All p l)
  | inr e ↦ rw (e, All) (keep_if-All p l)
]

by_expiry-All :
    (p : DeploymentRow → Bool) (d : DeploymentRow) (l : List DeploymentRow)
    → p d ≡ true
    → All (λ e. p e ≡ true) l
    → All (λ e. p e ≡ true) (by_expiry d l)
unfolding by_expiry
by_expiry-All p d [] h k = (h, tt)
by_expiry-All p d (e ∷ l) h k = ground (arith, by_expiry-All p d l h k.1)

sort-All :
    (p : DeploymentRow → Bool) (l : List DeploymentRow)
    → All (λ e. p e ≡ true) l
    → All (λ e. p e ≡ true) (sort_by_expiry l)
unfolding sort_by_expiry
sort-All p [] k = tt
sort-All p (d ∷ l) k = by_expiry-All p d (sort_by_expiry l) k.0 (sort-All p l k.1)

take-All :
    (p : DeploymentRow → Bool) (n : ℕ) (l : List DeploymentRow)
    → All (λ e. p e ≡ true) l
    → All (λ e. p e ≡ true) (take n l)
take-All p zero l k = tt
take-All p (suc n) [] k = tt
take-All p (suc n) (d ∷ l) k = (k.0, take-All p n l k.1)

list_due-All :
    (now : ℕ) (table : List DeploymentRow) → All (λ d. is_due now d ≡ true) (list_due now table)
unfolding list_due
list_due-All now table =
    take-All (is_due now) 100 _ (sort-All (is_due now) _ (keep_if-All (is_due now) table))

-- Every deployment that is found due is accepted and past its expiry, and belongs to the default
-- tenant: the deployments of all other tenants are never evaluated.
pub list_due_lem :
    (now : ℕ) (table : List DeploymentRow)
    → All (λ d. (d.tenant_id ≡ default_tenant) × (d.status ≡ "accepted")) (list_due now table)
list_due_lem now table =
    All-mono (list_due now table)
      (λ d h. ground (arith, eq_iff d.tenant_id default_tenant, eq_iff d.status "accepted"))
      (list_due-All now table)

expire-not_due :
    (now : ℕ) (id : String) (d : DeploymentRow)
    → (((expire id d).deployment_id == id) && is_due now (expire id d)) ≡ false
expire-not_due now id d =
    elim (Bool-cases ((d.tenant_id == default_tenant) && (d.deployment_id == id))) [
      | inl e ↦ rw e (ground arith)
      | inr e ↦ rw e (ground arith)
    ]

mark_expired-not_due :
    (now : ℕ) (id : String) (table : List DeploymentRow)
    → All (λ e. ((e.deployment_id == id) && is_due now e) ≡ false) (mark_expired id table)
unfolding mark_expired
mark_expired-not_due now id [] = tt
mark_expired-not_due now id (d ∷ table) =
    (expire-not_due now id d, mark_expired-not_due now id table)

audited_keeps :
    (P : DeploymentRow → Type 0) (result : AuditError ⊎ (String × List AuditEvent))
    (s : WorkerState)
    → All P s.deployments
    → All P (audited result s).1.deployments
audited_keeps P (inl e) s h = h
audited_keeps P (inr (id, audit)) s h = h

-- Once a deployment is processed, it is not due again at any time, whether its policy was found and
-- whether the audit writer raised or not.
pub processed_not_due :
    {V : Type 0} (ctx : WorkerContext V) (policy : Option (PolicyRow V)) (d : DeploymentRow)
    (s : WorkerState) (now : ℕ)
    → All
        (λ e. ((e.deployment_id == d.deployment_id) && is_due now e) ≡ false)
        (process_with policy ctx d s).1.deployments
unfolding process_with
processed_not_due ctx none d s now = mark_expired-not_due now d.deployment_id s.deployments
processed_not_due ctx (some policy) d s now =
    audited_keeps (λ e. ((e.deployment_id == d.deployment_id) && is_due now e) ≡ false) _ _
      (mark_expired-not_due now d.deployment_id s.deployments)
