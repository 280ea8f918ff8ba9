-- ===== src/Graph/Build/Ends.antt =====
-- The loop ends within the retry budget, whatever the model answers.
use snts_collectmind.Prelude.{
  ℕ, zero, suc, ◌+◌, ◌-◌, ◌≤◌, ◌<◌, Bool, true, false, Option, none, some, ◌≡◌, arith, leb,
  Bool-cases, Option-cases, inl, inr,
}
use snts_collectmind.Prelude.Json.{Fields}
use snts_collectmind.Graph.Session.{PolicyGenerationSession, initial_plan, route_after_validation}
use snts_collectmind.Graph.Nodes.{
  Clients, Result, ok, err, generate_node, validate_node, judge, Result-cases,
}
use snts_collectmind.Graph.Build.{GraphRun, finish, follow, rounds, run, fuel_for}

-- A run that is not out of fuel, with its attempts above `low` and at most `high`; or one that
-- raised.
abbrev pub Within : ℕ → ℕ → Result (Option GraphRun) → Type 0
Within low high (ok none) = ⊥
Within low high (ok (some r)) = (low < r.validation_attempts) × (r.validation_attempts ≤ high)
Within low high (err e) = Unit

module _ (clients : Clients) where
  -- The counters of the session are the routing's alone.
  record Counts (s t : PolicyGenerationSession) : Type 0 where
    count : t.retry_count ≡ s.retry_count
    budget : t.retry_budget ≡ s.retry_budget

  generate-Counts :
      (n : ℕ) (s t : PolicyGenerationSession) → generate_node clients n s ≡ ok t → Counts s t
  unfolding generate_node
  generate-Counts n s t h = ground arith

  judge-Counts : (p : Fields) (s : PolicyGenerationSession) → Counts s (judge clients p s).1
  unfolding judge
  judge-Counts p s = ground arith

  validate-Counts :
      (s : PolicyGenerationSession) (v : Bool × PolicyGenerationSession)
      → validate_node clients s ≡ ok v
      → Counts s v.1
  unfolding validate_node
  validate-Counts s v h = elim (Option-cases s.generated_policy) [
    | inl e ↦ absurd (ground arith)
    | inr (p, e) ↦ ground (arith, judge-Counts p s)
  ]

  finish-Within :
      (n high : ℕ) (s : PolicyGenerationSession)
      → n < high
      → Within n high (finish clients (n + 1) s)
  unfolding finish
  finish-Within n high s h = ground arith

  Within-weaken :
      (low high : ℕ) (r : Result (Option GraphRun)) → Within (low + 1) high r → Within low high r
  Within-weaken low high (ok none) h = h
  Within-weaken low high (ok (some r)) h = (omega arith, h.1)
  Within-weaken low high (err e) h = tt

  -- Enough fuel for the retries that are left, and room for their attempts.
  abbrev Room : ℕ → ℕ → ℕ → PolicyGenerationSession → Type 0
  Room fuel n high s =
      (s.retry_budget + 1 ≤ fuel + s.retry_count)
      × (s.retry_budget + n + 1 ≤ high + s.retry_count)
      × (n < high)
      × (0 < fuel)

  follow-Within :
      (fuel n high : ℕ) (s : PolicyGenerationSession) (valid : Bool)
      → Room (suc fuel) n high s
      → ((t : PolicyGenerationSession)
          → Room fuel (n + 1) high t
          → Within (n + 1) high (rounds clients fuel (n + 1) t))
      → Within n high (
          follow clients
            (rounds clients fuel)
            (n + 1)
            (route_after_validation s valid).0
            (route_after_validation s valid).1)
  unfolding follow route_after_validation
  follow-Within fuel n high s true h again = finish-Within n high s (omega (arith, h.2))
  follow-Within fuel n high s false h again = elim (Bool-cases (leb s.retry_budget s.retry_count)) [
    | inl e ↦ rw e (omega arith, omega (arith, h.2))
    | inr e ↦
        let t = record s { retry_count = s.retry_count + 1 } in
        rw e (
          Within-weaken n high (rounds clients fuel (n + 1) t)
            (again t (ground arith, ground arith, ground arith, ground arith)))
  ]

  Counts-Room :
      (fuel n high : ℕ) (s t : PolicyGenerationSession)
      → Counts s t
      → Room fuel n high s
      → Room fuel n high t
  Counts-Room fuel n high s t c h = (omega arith, omega arith, h.2, h.3)

  rounds-Within :
      (fuel n high : ℕ) (s : PolicyGenerationSession)
      → Room fuel n high s
      → Within n high (rounds clients fuel n s)
  unfolding rounds
  rounds-Within zero n high s h = absurd (omega (arith, h.3))
  rounds-Within (suc fuel) n high s h = elim (Result-cases (generate_node clients (n + 1) s)) [
    | inr (x, e) ↦ rw (e, rounds) tt
    | inl (g, e) ↦ elim (Result-cases (validate_node clients g)) [
      | inr (x, f) ↦ rw (e, rounds) (rw (f, rounds) tt)
      | inl (v, f) ↦
          rw (e, rounds)
            (rw (f, rounds)
              (follow-Within fuel n high v.1 v.0
                (Counts-Room (suc fuel) n high g v.1 (validate-Counts g v f)
                  (Counts-Room (suc fuel) n high s g (generate-Counts (n + 1) s g e) h))
                (rounds-Within fuel (n + 1) high)))
    ]
  ]

  -- Whatever the model and the validator answer, a run ends: it raises, or it comes back with at
  -- least one validation attempt and at most one more than the retries that the session had left.
  pub run_ends :
      (s : PolicyGenerationSession) → Within 0 (s.retry_budget - s.retry_count + 1) (run clients s)
  unfolding run initial_plan
  run_ends s =
      rounds-Within (fuel_for clients s) 0 (s.retry_budget - s.retry_count + 1) (initial_plan s)
        (omega arith, omega arith, omega arith, omega arith)
