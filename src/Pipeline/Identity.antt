-- ===== src/Pipeline/Identity.antt =====
-- A run of the graph (src/collectmind/graph/build.py) leaves what names its session as it is.
use snts_collectmind.Prelude.{
  ℕ, zero, suc, ◌+◌, Bool, true, false, Option, none, some, ◌≡◌, refl, ◌∙◌, arith, Bool-cases,
  Option-cases, leb, inl, inr,
}
use snts_collectmind.Prelude.Json.{Fields}
use snts_collectmind.Graph.Session.{
  PolicyGenerationSession, route_after_validation, retry_budget_exhausted, initial_plan,
}
use snts_collectmind.Graph.Nodes.{
  Clients, Result, ok, err, Result-cases, generate_node, validate_node, judge, deploy_node,
}
use snts_collectmind.Graph.Build.{GraphRun, rounds, follow, finish, fuel_for, run}

-- The two sessions are of the same tenant and correlation.
pub record SameSession (s t : PolicyGenerationSession) : Type 0 where
  pub tenant : t.tenant_id ≡ s.tenant_id
  pub correlation : t.correlation_id ≡ s.correlation_id

abbrev same : (s : PolicyGenerationSession) → SameSession s s
same s = record { tenant = refl; correlation = refl }

abbrev through :
    (s t u : PolicyGenerationSession) → SameSession s t → SameSession t u → SameSession s u
through s t u h k = record {
  tenant = k.tenant ∙ h.tenant;
  correlation = k.correlation ∙ h.correlation;
}

-- What a graph gives back is the same session.
abbrev pub Named : PolicyGenerationSession → Result (Option GraphRun) → Type 0
Named s (ok (some r)) = SameSession s r.session
Named s (ok none) = Unit
Named s (err e) = Unit

through-Named :
    (s t : PolicyGenerationSession) (r : Result (Option GraphRun))
    → SameSession s t
    → Named t r
    → Named s r
through-Named s t (ok (some r)) h k = through s t r.session h k
through-Named s t (ok none) h k = tt
through-Named s t (err e) h k = tt

module _ (clients : Clients) where
  generate_node-SameSession :
      (n : ℕ) (s g : PolicyGenerationSession) → generate_node clients n s ≡ ok g → SameSession s g
  unfolding generate_node
  generate_node-SameSession n s g h = ground arith

  judge-SameSession :
      (p : Fields) (s : PolicyGenerationSession) → SameSession s (judge clients p s).1
  unfolding judge
  judge-SameSession p s = ground arith

  validate_node-SameSession :
      (s : PolicyGenerationSession) (v : Bool × PolicyGenerationSession)
      → validate_node clients s ≡ ok v
      → SameSession s v.1
  unfolding validate_node
  validate_node-SameSession s v h = elim (Option-cases s.generated_policy) [
    | inl e ↦ absurd (ground arith)
    | inr (p, e) ↦ ground (arith, judge-SameSession p s)
  ]

  finish-Named : (n : ℕ) (s : PolicyGenerationSession) → Named s (finish clients n s)
  unfolding finish deploy_node
  finish-Named n s = ground arith

  follow-Named :
      (again : ℕ → PolicyGenerationSession → Result (Option GraphRun)) (n : ℕ)
      (s : PolicyGenerationSession) (valid : Bool)
      → ((t : PolicyGenerationSession) → Named t (again n t))
      → Named s (
          follow clients again n
            (route_after_validation s valid).0
            (route_after_validation s valid).1)
  unfolding follow route_after_validation retry_budget_exhausted
  follow-Named again n s true h = finish-Named n s
  follow-Named again n s false h = elim (Bool-cases (leb s.retry_budget s.retry_count)) [
    | inl e ↦ rw e (same s)
    | inr e ↦
        let t = record s { retry_count = s.retry_count + 1 } in
        rw e (through-Named s t (again n t) (record { tenant = refl; correlation = refl }) (h t))
  ]

  rounds-Named : (fuel n : ℕ) (s : PolicyGenerationSession) → Named s (rounds clients fuel n s)
  unfolding rounds
  rounds-Named zero n s = tt
  rounds-Named (suc fuel) n s = elim (Result-cases (generate_node clients (n + 1) s)) [
    | inr (x, e) ↦ rw (e, rounds) tt
    | inl (g, e) ↦ elim (Result-cases (validate_node clients g)) [
      | inr (x, f) ↦ rw (e, rounds) (rw (f, rounds) tt)
      | inl (v, f) ↦
          rw (e, rounds)
            (rw (f, rounds)
              (through-Named s v.1 _
                (through s g v.1 (generate_node-SameSession (n + 1) s g e)
                  (validate_node-SameSession g v f))
                (follow-Named (rounds clients fuel) (n + 1) v.1 v.0 (rounds-Named fuel (n + 1)))))
    ]
  ]

  -- A run that comes back is of the tenant and the correlation that it was started with.
  pub run-Named : (s : PolicyGenerationSession) → Named s (run clients s)
  unfolding run initial_plan
  run-Named s =
      through-Named s (initial_plan s) _ (record { tenant = refl; correlation = refl })
        (rounds-Named (fuel_for clients s) 0 (initial_plan s))
