-- ===== src/Query/Handlers/Latest.antt =====
-- Which policy the query interface shows.
use snts_collectmind.Prelude.{
  ◌≤◌, Bool, true, ◌&&◌, Option, none, some, List, [], ◌∷◌, String, keep_if, any, All, ◌==◌, ◌≡◌,
  refl, sym, ap, ◌∙◌, inl, inr, arith, eq_iff, Bool-cases,
}
use snts_collectmind.Prelude.Rows.{
  both, Holds, first, latest_first, keep_if-Holds, Holds-keep_if, Holds-latest_first, All-Holds,
  first-latest, latest_first-IsDescending, fold_rows, latest_first-Holds,
}
use snts_collectmind.Registry.Policies.{
  CollectionPolicyRow, PolicyShown, owned, created, shown_first, row_to_policy,
}
use snts_collectmind.Registry.Deployments.{DeploymentRow}
use snts_collectmind.Registry.Outcomes.{
  in_scope, deployment_owned, deploys, is_active, find_active_for_vehicle,
}

-- The policy is of the tenant, has the vehicle in its scope, and is deployed with an accepted
-- deployment of the tenant.
pub record IsActive (tenant_id vehicle_id : String) (deployments : List DeploymentRow)
    (r : CollectionPolicyRow) : Type 0 where
  pub tenant : r.tenant_id ≡ tenant_id
  pub scope : in_scope vehicle_id r.vehicle_scope ≡ true
  pub deployment : DeploymentRow
  pub is_there : Holds deployment deployments
  pub same_tenant : deployment.tenant_id ≡ tenant_id
  pub same_policy : deployment.policy_id ≡ r.policy_id
  pub same_version : deployment.version ≡ r.version
  pub accepted : deployment.status ≡ "accepted"

any-Holds :
    {A : Type 0} (p : A → Bool) (l : List A) → any p l ≡ true → (a : A) × Holds a l × (p a ≡ true)
any-Holds p [] h = absurd (ground arith)
any-Holds p (x ∷ l) h = elim (Bool-cases (p x)) [
  | inl e ↦ (x, inl refl, e)
  | inr e ↦ let k = any-Holds p l (ground arith) in (k.0, inr k.1, k.2)
]

Holds-any :
    {A : Type 0} (p : A → Bool) (a : A) (l : List A) → Holds a l → p a ≡ true → any p l ≡ true
Holds-any p a [] h k = absurd h
Holds-any p a (x ∷ l) (inl q) k = ground (arith, sym (ap p q) ∙ k)
Holds-any p a (x ∷ l) (inr h) k = ground (arith, Holds-any p a l h k)

module _ (tenant_id vehicle_id : String) (deployments : List DeploymentRow) where
  abbrev matches : CollectionPolicyRow → Bool
  matches r = owned tenant_id r && is_active tenant_id vehicle_id deployments r

  matches-IsActive :
      (r : CollectionPolicyRow) → matches r ≡ true → IsActive tenant_id vehicle_id deployments r
  matches-IsActive r h =
      let a = both (r.tenant_id == tenant_id) _ h in
      let b = both (r.tenant_id == tenant_id) _ a.1 in
      let c = both (in_scope vehicle_id r.vehicle_scope) _ b.1 in
      let d = any-Holds (λ dt. deployment_owned tenant_id dt && deploys r dt) deployments c.1 in
      let e = both (deployment_owned tenant_id d.0) _ d.2 in
      let f = both (d.0.tenant_id == r.tenant_id) _ e.1 in
      let g = both (d.0.policy_id == r.policy_id) _ f.1 in
      let k = both (d.0.version == r.version) _ g.1 in
      record {
        tenant = (eq_iff r.tenant_id tenant_id).0 a.0;
        scope = c.0;
        deployment = d.0;
        is_there = d.1;
        same_tenant = (eq_iff d.0.tenant_id tenant_id).0 e.0;
        same_policy = (eq_iff d.0.policy_id r.policy_id).0 g.0;
        same_version = (eq_iff d.0.version r.version).0 k.0;
        accepted = (eq_iff d.0.status "accepted").0 k.1;
      }

  IsActive-matches :
      (r : CollectionPolicyRow) → IsActive tenant_id vehicle_id deployments r → matches r ≡ true
  IsActive-matches r a =
      let t = (eq_iff r.tenant_id tenant_id).1 a.tenant in
      let d =
        Holds-any (λ dt. deployment_owned tenant_id dt && deploys r dt) a.deployment deployments
          a.is_there
          (rw
            (
              (eq_iff a.deployment.tenant_id tenant_id).1 a.same_tenant,
              (eq_iff a.deployment.tenant_id r.tenant_id).1 (a.same_tenant ∙ sym a.tenant),
              (eq_iff a.deployment.policy_id r.policy_id).1 a.same_policy,
              (eq_iff a.deployment.version r.version).1 a.same_version,
            )
            ((eq_iff a.deployment.status "accepted").1 a.accepted)) in
      rw (t, a.scope) d

  -- The answer is the latest of the active policies, or none where there is none.
  abbrev pub LatestActive : List CollectionPolicyRow → Option PolicyShown → Type 0
  LatestActive policies none = All (λ r. IsActive tenant_id vehicle_id deployments r → ⊥) policies
  LatestActive policies (some shown) =
      (r : CollectionPolicyRow) × (shown ≡ row_to_policy r)
      × Holds r policies
      × IsActive tenant_id vehicle_id deployments r
      × All (λ q. IsActive tenant_id vehicle_id deployments q → q.created_at ≤ r.created_at)
          policies

  sorted_active-LatestActive :
      (policies l : List CollectionPolicyRow)
      → latest_first created (keep_if matches policies) ≡ l
      → LatestActive policies (shown_first l)
  sorted_active-LatestActive policies [] e = fold_rows _ policies λ r h a. rw e at (
      Holds-latest_first created r (keep_if matches policies)
        (Holds-keep_if r matches policies h (IsActive-matches r a)))
  sorted_active-LatestActive policies (r ∷ rest) e =
      let d = latest_first-IsDescending created (keep_if matches policies) in
      let f = first-latest created _ r d (ap first e) in
      let k =
        keep_if-Holds r matches policies
          (latest_first-Holds created r (keep_if matches policies) f.0) in
      (
        r,
        refl,
        k.0,
        matches-IsActive r k.1,
        fold_rows _ policies λ q h a.
            All-Holds (λ y. created y ≤ created r) q _ f.1
              (Holds-latest_first created q (keep_if matches policies)
                (Holds-keep_if q matches policies h (IsActive-matches q a))),
      )

  -- The policy shown for a vehicle is the latest of those of the tenant that have the vehicle in
  -- their scope and an accepted deployment of the tenant; none is shown only if there is no such
  -- policy.
  pub find_active_lem :
      (policies : List CollectionPolicyRow)
      → LatestActive policies (find_active_for_vehicle tenant_id vehicle_id policies deployments)
  unfolding find_active_for_vehicle
  find_active_lem policies = sorted_active-LatestActive policies _ refl
