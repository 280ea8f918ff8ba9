-- ===== src/Pipeline/Tables.antt =====
-- What GraphRunner.run_async keeps true of the tables, however it ends.
use snts_collectmind.Prelude.{some, List, [], ◌∷◌, inl, inr, ◌≡◌, All, Option-cases}
use snts_collectmind.Graph.Runner.{Effect, Ran, finished, failed_at, perform}
use snts_collectmind.Registry.Audit.Coalesce.{IsUnique}
use snts_collectmind.Registry.Audit.Complete.{IsComplete}
use snts_collectmind.Registry.Policies
use snts_collectmind.Registry.Policies.{CollectionPolicyRow}
use snts_collectmind.Registry.Deployments
use snts_collectmind.Registry.Deployments.{DeploymentRow}
use snts_collectmind.Registry.Integrity.{Registry, IsIntegral}
use snts_collectmind.Pipeline.{Stores, World, carry_out, RunEnd, returned, escaped, out_of_fuel}

abbrev pub registry_of : Stores → Registry
registry_of s = record { policies = s.policies; deployments = s.deployments }

-- The keys of the registry hold, and the audit rows are unique by correlation and kind and
-- complete.
pub record IsConsistent (s : Stores) : Type 0 where
  pub integral : IsIntegral (registry_of s)
  pub unique : IsUnique s.audit
  pub complete : All IsComplete s.audit

-- The state that a call leaves, on every way that it ends; being out of fuel is none of them.
abbrev pub Leaves : (Stores → Type 0) → RunEnd → Type 0
Leaves P (returned s) = P s
Leaves P (escaped s) = P s
Leaves P out_of_fuel = ⊥

module _ (world : World) (P : Stores → Type 0)
    (keep : (e : Effect) (s t : Stores) → P s → carry_out world e s ≡ some t → P t) where
  abbrev End : Ran Stores → Type 0
  End (finished s) = P s
  End (failed_at e s) = P s

  pub perform-keeps : (es : List Effect) (s : Stores) → P s → End (perform (carry_out world) es s)
  unfolding perform
  perform-keeps [] s h = h
  perform-keeps (e ∷ es) s h = elim (Option-cases (carry_out world e s)) [
    | inl f ↦ rw f h
    | inr (t, f) ↦ rw f (perform-keeps es t (keep e s t h f))
  ]
