-- ===== src/Graph/Runner/Trail.antt =====
-- What the runner writes to the registry after a run of the graph.
use snts_collectmind.Prelude.{
  Bool, true, false, ◌||◌, Option, none, some, List, [], ◌∷◌, ◌++◌, any, if◌then◌else◌, ◌==◌, ◌≡◌,
  refl, ap, ◌∙◌, arith, ◌⊎◌, inl, inr,
}
use snts_collectmind.Prelude.Json.{Fields}
use snts_collectmind.Graph.Session.{PolicyGenerationSession}
use snts_collectmind.Graph.Nodes.{Clients, ok}
use snts_collectmind.Graph.Build.{GraphRun, FinalState, completed, dead_lettered, run}
use snts_collectmind.Graph.Build.Valid.{IsDeployed, Explained, run-Explained}
use snts_collectmind.Graph.Runner.{
  RunnerContext, Effect, write_audit, key_error, generated_effects, final_effects, run_effects,
}

-- A row of the policies or the deployments, or the telemetry of a deployment.
abbrev pub registers : Effect → Bool
registers (write_audit w) = false
registers key_error = false
registers other = true

any-append : (p : Effect → Bool) (xs ys : List Effect) → any p (xs ++ ys) ≡ (any p xs || any p ys)
any-append p [] ys = refl
any-append p (x ∷ xs) ys = ground (arith, any-append p xs ys)

module _ (ctx : RunnerContext) where
  generated_registers_nothing :
      (session : PolicyGenerationSession) (policy : Option Fields)
      → any registers (generated_effects ctx session policy) ≡ false
  unfolding generated_effects
  generated_registers_nothing session none = refl
  generated_registers_nothing session (some p) = ground arith

  dead_letter_registers_nothing :
      (r : GraphRun) → r.final_state ≡ dead_lettered → any registers (run_effects ctx r) ≡ false
  unfolding run_effects final_effects
  dead_letter_registers_nothing r e =
      any-append registers (generated_effects ctx r.session r.session.generated_policy)
        (final_effects ctx r.final_state r.session)
      ∙ ap (λ b. b || any registers (final_effects ctx r.final_state r.session))
          (generated_registers_nothing r.session r.session.generated_policy)
      ∙ ap (λ f. any registers (final_effects ctx f r.session)) e

  -- The run deployed a validated policy, and the downstream accepted it.
  pub record Accepted (clients : Clients) (r : GraphRun) : Type 0 where
    pub deployed : IsDeployed clients r
    pub accepted : (deployed.answer.status == "accepted") ≡ true

  state_of_accepted :
      (accepted : Bool) (f : FinalState)
      → f ≡ (if accepted then completed else dead_lettered)
      → (accepted ≡ true) ⊎ (f ≡ dead_lettered)
  state_of_accepted true f h = inl refl
  state_of_accepted false f h = inr h

  Explained-Accepted :
      (clients : Clients) (r : GraphRun)
      → Explained clients (ok (some r))
      → any registers (run_effects ctx r) ≡ true
      → Accepted clients r
  Explained-Accepted clients r (inr g) h =
      absurd (ground (arith, dead_letter_registers_nothing r g.ended))
  Explained-Accepted clients r (inl d) h =
      elim (state_of_accepted (d.answer.status == "accepted") r.final_state d.ended) [
        | inl a ↦ record { deployed = d; accepted = a }
        | inr e ↦ absurd (ground (arith, dead_letter_registers_nothing r e))
      ]

  -- If the runner has anything to insert into the registry after a run of the graph, or
  -- telemetry to simulate, the run deployed a policy that passed the schema and the validator,
  -- and the downstream accepted it. The session came without a deployment.
  pub registered_only_if_Accepted :
      (clients : Clients) (s : PolicyGenerationSession) (r : GraphRun)
      → s.deployment_record ≡ none
      → run clients s ≡ ok (some r)
      → any registers (run_effects ctx r) ≡ true
      → Accepted clients r
  registered_only_if_Accepted clients s r n e h =
      Explained-Accepted clients r (rw e at (run-Explained clients s n)) h
